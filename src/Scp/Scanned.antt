-- ===== src/Scp/Scanned.antt =====
-- A scanner between two lines, each of which is a Write of the peer.
use gosutils.Prelude.{
  ℕ, suc, ◌+◌, ◌-◌, ◌≤◌, ◌≡◌, refl, ◌∙◌, ap, false, [], ◌∷◌, ◌++◌, some, length, take_whole,
  drop_whole, arith, inl, inr, ◌⊎◌,
}
use gosutils.Prelude.Text.{Text, is_empty, drop_return, is_empty-append}
use gosutils.Scp.Stream.{
  Stream, next_read, total, Scanner, cut_line, next_token, make_room, grow, taken, scan_loop, scan,
}

-- The scanner holds no byte, and half of its buffer is free or will be.
pub record IsReady (s : Scanner) : Type 0 where
  pub nothing : s.pending ≡ []
  pub going : s.ended ≡ false
  pub no_long : s.too_long ≡ false
  pub sized : ((s.size ≡ 0) × (s.begins ≡ 0)) ⊎ ((s.size ≡ 4096) × (s.begins ≤ 4096))

-- Behind make_room and grow there is room for 2048 bytes.
pub roomy :
    (s : Scanner)
    → IsReady s
    → let s' = grow (make_room s) in
      (s'.pending ≡ [])
      × (s'.ended ≡ false)
      × (s'.too_long ≡ false)
      × (s'.size ≡ 4096)
      × (s'.begins ≤ 2048)
unfolding grow make_room
roomy s r = elim r.sized [ inl e ↦ ground arith | inr e ↦ ground arith ]

-- A Read of a whole Write.
pub read_whole :
    (n : ℕ) (c : Text) (cs : Stream)
    → is_empty c ≡ false
    → length c ≤ n
    → next_read n (c ∷ cs) ≡ some (c, cs)
unfolding next_read
read_whole n [] cs e h = cc
read_whole n (b ∷ bs) cs e h = rw (take_whole n (b ∷ bs) h, drop_whole n (b ∷ bs) h)

-- A turn of the loop that reads, and one that has a token.
scan_read :
    (fuel : ℕ) (s : Scanner) (c : Text) (cs : Stream)
    → IsReady s
    → is_empty c ≡ false
    → length c ≤ 2048
    → let s' = grow (make_room s) in
      scan_loop (suc fuel) s (c ∷ cs) ≡ scan_loop fuel (record s' { pending = c }) cs
unfolding scan_loop next_token cut_line
scan_read fuel s c cs r full short =
    let (nothing, going, no_long, sized, room) = roomy s r in
    let s' = grow (make_room s) in
    let e =
      read_whole (s'.size - (s'.begins + length s'.pending)) c cs full (rw nothing (omega arith)) in
    ground (arith, e, r.nothing, r.going, nothing, no_long)

scan_token :
    (fuel : ℕ) (s : Scanner) (l r : Text) (cs : Stream)
    → next_token s.ended s.pending ≡ some (l, r)
    → scan_loop (suc fuel) s cs ≡ (taken s l r, cs)
unfolding scan_loop
scan_token fuel s l r cs e = rw (scan_loop, e) refl

-- A line and what is behind it in one Write: the line is the next token, and the scanner keeps the
-- rest.
pub scan-write :
    (s : Scanner) (l t : Text) (cs : Stream)
    → IsReady s
    → cut_line (l ++ b'\n' ∷ t) ≡ some (l, t)
    → drop_return l ≡ l
    → length (l ++ b'\n' ∷ t) ≤ 2048
    → (s' : Scanner) × (scan s ((l ++ b'\n' ∷ t) ∷ cs) ≡ (s', cs))
      × (s'.token ≡ l)
      × (s'.too_long ≡ false)
      × (s'.ended ≡ false)
      × (s'.pending ≡ t)
      × (s'.size ≡ 4096)
      × (s'.begins ≤ 4096)
unfolding scan next_token
scan-write s l t cs r cl dr short =
    let (nothing, going, no_long, sized, room) = roomy s r in
    let w : Text = l ++ b'\n' ∷ t in
    let s' = record (grow (make_room s)) { pending = w } in
    let fuel = length w + total cs + 1 in
    let enough : total (w ∷ cs) + 3 ≡ suc (suc fuel) = unfold total in omega arith in
    let e1 = scan_read (suc fuel) s w cs r (is_empty-append l b'\n' t) short in
    let e2 = scan_token fuel s' l t cs (ground (arith, cl)) in
    (
      taken s' l t,
      ap (λ n. scan_loop n s (w ∷ cs)) enough ∙ e1 ∙ e2,
      dr,
      no_long,
      going,
      refl,
      sized,
      omega arith,
    )

-- A line that is a Write of its own leaves the scanner ready.
pub scan-header_line :
    (s : Scanner) (l : Text) (cs : Stream)
    → IsReady s
    → cut_line (l ++ b'\n' ∷ []) ≡ some (l, [])
    → drop_return l ≡ l
    → length (l ++ b'\n' ∷ []) ≤ 2048
    → (s' : Scanner) × (scan s ((l ++ b'\n' ∷ []) ∷ cs) ≡ (s', cs)) × IsReady s' × (s'.token ≡ l)
scan-header_line s l cs r cl dr short =
    let (s', e, t, no_long, going, nothing, sized, begins) = scan-write s l [] cs r cl dr short in
    (
      s',
      e,
      record { nothing = nothing; going = going; no_long = no_long; sized = inr (sized, begins) },
      t,
    )
