-- ===== src/Scp/Consumed.antt =====
-- Each turn of the sink takes bytes from the peer: it ends, whatever the peer sends.
use gosutils.Prelude.{
  ℕ, zero, suc, ◌+◌, ◌-◌, ◌≤◌, ◌<◌, ◌≡◌, refl, ◌∙◌, ap, Bool, [], ◌∷◌, some, length, drop,
  length-take, length-drop, length-append, arith, Option-cases, inl, inr,
}
use gosutils.Prelude.Text.{Text, drop_return}
use gosutils.Scp.Stream.{
  Stream, next_read, rest_of, total, Scanner, scan, scan_loop, cut_line, next_token, make_room,
  grow, without_token, fill,
}

total-rest_of : (r : Text) (cs : Stream) → total (rest_of r cs) ≡ length r + total cs
unfolding total
total-rest_of [] cs = omega arith
total-rest_of (c ∷ r) cs = refl

-- A Read takes its bytes from the stream.
pub next_read-total :
    (n : ℕ) (cs : Stream) {b : Text} {cs' : Stream}
    → next_read n cs ≡ some (b, cs')
    → length b + total cs' ≡ total cs
unfolding next_read total
next_read-total n [] e = cc
next_read-total n ([] ∷ cs) e = next_read-total n cs e ∙ omega arith
next_read-total n ((x ∷ r) ∷ cs) e =
    ground (arith, total-rest_of (drop n (x ∷ r)) cs, length-take n (x ∷ r), length-drop n (x ∷ r))

pub next_read-nonempty :
    (n : ℕ) (cs : Stream) {b : Text} {cs' : Stream}
    → 0 < n
    → next_read n cs ≡ some (b, cs')
    → 0 < length b
unfolding next_read
next_read-nonempty n [] p e = cc
next_read-nonempty n ([] ∷ cs) p e = next_read-nonempty n cs p e
next_read-nonempty zero ((x ∷ r) ∷ cs) p e = absurd (omega arith)
next_read-nonempty (suc n) ((x ∷ r) ∷ cs) p e = ground arith

-- What is left of a line behind its end.
cut_line-length :
    (s : Text) {l r : Text} → cut_line s ≡ some (l, r) → length l + length r + 1 ≡ length s
unfolding cut_line
cut_line-length [] e = cc
cut_line-length (c ∷ cs) e = elim (Option-cases (cut_line cs)) [
  | inl n ↦ ground arith
  | inr ((l', r'), n) ↦ ground (arith, cut_line-length cs n)
]

next_token-length :
    (at_end : Bool) (s : Text) {l r : Text}
    → next_token at_end s ≡ some (l, r)
    → (length l + length r ≤ length s) × (0 < length s)
unfolding next_token
next_token-length at_end s e = elim (Option-cases (cut_line s)) [
  | inl n ↦ ground arith
  | inr ((l', r'), n) ↦ ground (arith, cut_line-length s n)
]

abbrev pub held : Scanner × Stream → ℕ
held (s, cs) = length s.pending + total cs

length-drop_return : (s : Text) → length (drop_return s) ≤ length s
length-drop_return [] = omega arith
length-drop_return (c ∷ []) = ground arith
length-drop_return (c ∷ d ∷ s) = omega (arith, length-drop_return (d ∷ s))

pending-room : (s : Scanner) → (grow (make_room s)).pending ≡ s.pending
unfolding grow make_room
pending-room s = ground arith

fill-held :
    (n : ℕ) (s : Scanner) (cs : Stream)
    → held (fill s (next_read n cs)) ≤ length s.pending + total cs
fill-held n s cs = elim (Option-cases (next_read n cs)) [
  | inl e ↦ rw e (unfold total in omega arith)
  | inr ((b, cs'), e) ↦ rw e (omega (arith, length-append s.pending b, next_read-total n cs e))
]

without_token-held :
    (s s' : Scanner) (cs : Stream) (rest : Scanner × Stream)
    → s'.pending ≡ s.pending
    → length rest.0.token + held rest ≤ held (s, cs)
    → let r = without_token s s' cs rest in length r.0.token + held r ≤ held (s, cs)
without_token-held s s' cs rest e h = ground arith

-- The token of a Scan comes from what was held.
scan_loop-held :
    (fuel : ℕ) (s : Scanner) (cs : Stream)
    → let r = scan_loop fuel s cs in length r.0.token + held r ≤ held (s, cs)
unfolding scan_loop
scan_loop-held zero s cs = omega arith
scan_loop-held (suc fuel) s cs =
    let s' = grow (make_room s) in
    let n = s'.size - (s'.begins + length s'.pending) in
    let filled = fill s' (next_read n cs) in
    elim (Option-cases (next_token s.ended s.pending)) [
      | inl e ↦
          rw (scan_loop, e)
            (without_token-held s s' cs (scan_loop fuel filled.0 filled.1) (pending-room s) (
              omega (
                arith,
                ap length (pending-room s),
                fill-held n s' cs,
                scan_loop-held fuel filled.0 filled.1,
              )))
      | inr ((l, r), e) ↦
          rw (scan_loop, e)
            (omega (arith, next_token-length s.ended s.pending e, length-drop_return l))
    ]

pub scan-held :
    (s : Scanner) (cs : Stream) → let r = scan s cs in length r.0.token + held r ≤ held (s, cs)
unfolding scan
scan-held s cs = scan_loop-held (total cs + 3) s cs
