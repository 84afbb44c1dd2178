-- ===== src/Scp/Contents.antt =====
-- The loop that reads the contents of a file, over the Writes of its Reads.
use gosutils.Prelude.{
  ℕ, zero, suc, ◌-◌, ◌≤◌, ◌<◌, ◌≡◌, refl, ◌∙◌, ap, sym, true, false, List, [], ◌∷◌, ◌++◌, some,
  length, take, drop, take-append-drop, length-take, length-drop, append_assoc, append-nil, arith,
  ltb, if◌then◌else◌, dec_lt,
}
use gosutils.Prelude.Text.{Text, is_empty, All}
use gosutils.Scp.Stream.{Stream, next_read, total}
use gosutils.Scp.Sink.{Host, receive, received}
use gosutils.Scp.Scanned.{read_whole}
use gosutils.Scp.Framed.{IsRead}

-- The bytes of some Writes.
abbrev pub joined : List Text → Text
joined [] = []
joined (c ∷ cs) = c ++ joined cs

nonempty : (t : Text) → 0 < length t → is_empty t ≡ false
nonempty [] h = absurd (omega arith)
nonempty (c ∷ t) h = refl

length_part : (n : ℕ) (c : Text) → n < length c → length (take n c) ≡ n
length_part n c h = length-take n c ∙ omega arith

-- A Read of a part of a Write.
read_part :
    (n : ℕ) (c : Text) (cs : Stream)
    → n < length c
    → next_read n (c ∷ cs) ≡ some (take n c, drop n c ∷ cs)
unfolding next_read
read_part n [] cs h = absurd (omega arith)
read_part n (b ∷ bs) cs h =
    rw (nonempty (drop n (b ∷ bs)) (rw (length-drop n (b ∷ bs)) (omega arith)))

module _ (h : Host) (disk : Host.Disk h) (accepts : (b : Text) → Host.accepts h disk b ≡ true) where
  -- A turn of the loop that has a byte to read.
  receive_turn :
      (fuel bs left : ℕ) (got b : Text) (cs cs' : Stream)
      → 0 < left
      → next_read (if ltb left bs then left else bs) cs ≡ some (b, cs')
      → receive h disk (suc fuel) bs left got cs
        ≡ receive h disk fuel (if ltb left bs then left else bs) (left - length b) (got ++ b) cs'
  unfolding receive
  receive_turn fuel bs left got b cs cs' more e = rw (e, accepts b) (ground arith)

  receive_none :
      (fuel bs : ℕ) (got : Text) (cs : Stream)
      → receive h disk (suc fuel) bs 0 got cs ≡ received got cs
  unfolding receive
  receive_none fuel bs got cs = refl

  pub receive-joined :
      (fuel bs left : ℕ) (got : Text) (reads rest : List Text)
      → left < fuel
      → 0 < bs
      → left ≡ total reads
      → All IsRead reads
      → receive h disk fuel bs left got (reads ++ rest) ≡ received (got ++ joined reads) rest
  unfolding total
  receive-joined zero bs left got reads rest f b t all = absurd (omega arith)
  receive-joined (suc fuel) bs left got [] rest f b t all =
      let none_left : left ≡ 0 = t in
      rw none_left
        (receive_none fuel bs got rest ∙ ap (λ g. received g rest) (sym (append-nil got)))
  receive-joined (suc fuel) bs left got ([] ∷ reads) rest f b t all = cc all.0
  receive-joined (suc fuel) bs left got ((x ∷ r) ∷ reads) rest f b t all =
      let n = if ltb left bs then left else bs in
      let c : Text = x ∷ r in
      let some_left : 0 < left = omega arith in
      let n_pos : 0 < n = ground arith in
      let n_le : n ≤ left = ground arith in
      elim (dec_lt n (length c)) [
        | yes part ↦
            let l = length_part n c part in
            let d = length-drop n c in
            receive_turn fuel bs left got (take n c) (c ∷ (reads ++ rest))
              (drop n c ∷ (reads ++ rest)) some_left (read_part n c (reads ++ rest) part)
            ∙ receive-joined fuel n (left - length (take n c)) (got ++ take n c) (drop n c ∷ reads)
                rest (omega arith) n_pos (omega arith) (nonempty (drop n c) (omega arith), all.1)
            ∙ ap (λ g. received g rest)
                (append_assoc got (take n c) (drop n c ++ joined reads)
                  ∙ ap (λ g. got ++ g)
                      (sym (append_assoc (take n c) (drop n c) (joined reads))
                        ∙ ap (λ g. g ++ joined reads) (take-append-drop n c)))
        | no whole ↦
            receive_turn fuel bs left got c (c ∷ (reads ++ rest)) (reads ++ rest) some_left
              (read_whole n c (reads ++ rest) refl (omega arith))
            ∙ receive-joined fuel n (left - length c) (got ++ c) reads rest (omega arith) n_pos
                (omega arith) all.1
            ∙ ap (λ g. received g rest) (append_assoc got c (joined reads))
      ]
