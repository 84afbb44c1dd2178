-- ===== src/Scp/Enough.antt =====
-- The fuel of a Scan is enough: more of it changes nothing.
use gosutils.Prelude.{
  ℕ, zero, suc, ◌+◌, ◌-◌, ◌≤◌, ◌<◌, ◌≡◌, refl, ◌∙◌, ap, sym, true, false, [], ◌∷◌, ◌++◌, ◌==◌, none,
  some, length, length-take, length-append, arith, Bool-cases, Option-cases, inl, inr, leb,
}
use gosutils.Prelude.Text.{Text}
use gosutils.Scp.Stream.{
  Stream, next_read, total, Scanner, scan, scan_loop, next_token, make_room, grow, without_token,
  fill, max_token_size,
}
use gosutils.Scp.Consumed.{next_read-total, next_read-nonempty}

-- The unread bytes lie in the buffer.
abbrev pub IsBounded : Scanner → Type 0
IsBounded s = s.begins + length s.pending ≤ s.size

make_room-IsBounded : (s : Scanner) → IsBounded s → IsBounded (make_room s)
unfolding make_room
make_room-IsBounded s b = ground arith

-- Unless the line is too long, there is room for a byte.
grow-room :
    (s : Scanner)
    → IsBounded s
    → (grow s).too_long ≡ false
    → (grow s).begins + length (grow s).pending < (grow s).size
unfolding grow
grow-room s b e = elim (Bool-cases (s.begins + length s.pending == s.size)) [
  | inl full ↦ elim (Bool-cases (leb max_token_size s.size)) [
    | inl big ↦ ground arith
    | inr small ↦ ground arith
  ]
  | inr some_room ↦ ground arith
]

next_read-le :
    (n : ℕ) (cs : Stream) {b : Text} {cs' : Stream} → next_read n cs ≡ some (b, cs') → length b ≤ n
unfolding next_read
next_read-le n [] e = cc
next_read-le n ([] ∷ cs) e = next_read-le n cs e
next_read-le n ((x ∷ r) ∷ cs) e = ground (arith, length-take n (x ∷ r))

scan_loop-ended :
    (fuel k : ℕ) (s : Scanner) (cs : Stream)
    → s.ended ≡ true
    → scan_loop (suc fuel) s cs ≡ scan_loop (suc k) s cs
unfolding scan_loop
scan_loop-ended fuel k s cs e = elim (Option-cases (next_token s.ended s.pending)) [
  | inl n ↦ rw (scan_loop, n) (rw e refl)
  | inr ((l, r), n) ↦ rw (scan_loop, n) refl
]

without_token-same :
    (s s' : Scanner) (cs : Stream) (r t : Scanner × Stream)
    → (s'.too_long ≡ false → r ≡ t)
    → without_token s s' cs r ≡ without_token s s' cs t
without_token-same s s' cs r t h = elim (Bool-cases s'.too_long) [
  | inl e ↦ ground arith
  | inr e ↦ ap (without_token s s' cs) (h e)
]

-- What the scanner and the stream are behind the Read of a turn.
abbrev filled : Scanner → Stream → Scanner × Stream
filled s cs =
    let s' = grow (make_room s) in
    fill s' (next_read (s'.size - (s'.begins + length s'.pending)) cs)

turn_none :
    (fuel : ℕ) (s : Scanner) (cs : Stream)
    → next_token s.ended s.pending ≡ none
    → scan_loop (suc fuel) s cs
      ≡ without_token s (grow (make_room s)) cs (scan_loop fuel (filled s cs).0 (filled s cs).1)
unfolding scan_loop
turn_none fuel s cs e = rw (scan_loop, e) refl

turn_some :
    (fuel k : ℕ) (s : Scanner) (cs : Stream) (l r : Text)
    → next_token s.ended s.pending ≡ some (l, r)
    → scan_loop (suc fuel) s cs ≡ scan_loop (suc k) s cs
unfolding scan_loop
turn_some fuel k s cs l r e = rw (scan_loop, e) refl

-- One turn more.
scan_loop-enough :
    (fuel : ℕ) (s : Scanner) (cs : Stream)
    → IsBounded s
    → total cs + 2 ≤ fuel
    → scan_loop fuel s cs ≡ scan_loop (suc fuel) s cs
scan_loop-enough zero s cs b le = absurd (omega arith)
scan_loop-enough (suc zero) s cs b le = absurd (omega arith)
scan_loop-enough (suc (suc fuel)) s cs b le =
    let s' = grow (make_room s) in
    let n = s'.size - (s'.begins + length s'.pending) in
    elim (Option-cases (next_token s.ended s.pending)) [
      | inr ((l, r), e) ↦ turn_some (suc fuel) (suc (suc fuel)) s cs l r e
      | inl e ↦
          turn_none (suc fuel) s cs e
          ∙ without_token-same s s' cs _ _ (λ short. elim (Option-cases (next_read n cs)) [
            | inl none_left ↦
                rw none_left (scan_loop-ended fuel (suc fuel) (record s' { ended = true }) [] refl)
            | inr ((c, cs'), more) ↦
                let room = grow-room (make_room s) (make_room-IsBounded s b) short in
                let size = next_read-le n cs more in
                let fewer = next_read-total n cs more in
                let some_bytes = next_read-nonempty n cs (omega arith) more in
                rw more (
                  scan_loop-enough (suc fuel) (record s' { pending = s'.pending ++ c }) cs'
                    (omega (arith, length-append s'.pending c)) (omega arith))
          ])
          ∙ sym (turn_none (suc (suc fuel)) s cs e)
    ]

-- Scan with any more fuel gives what it gives, where its buffer is as Scan leaves it.
pub scan-enough :
    (k : ℕ) (s : Scanner) (cs : Stream)
    → IsBounded s
    → scan_loop (total cs + 3 + k) s cs ≡ scan s cs
unfolding scan
scan-enough zero s cs b = ap (λ n. scan_loop n s cs) (omega arith)
scan-enough (suc k) s cs b =
    ap (λ n. scan_loop n s cs) more
    ∙ sym (scan_loop-enough (total cs + 3 + k) s cs b (omega arith))
    ∙ scan-enough k s cs b
  where
    more : total cs + 3 + suc k ≡ suc (total cs + 3 + k)
    more = omega arith
