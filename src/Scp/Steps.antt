-- ===== src/Scp/Steps.antt =====
-- The steps of the sink on the Writes of a sender, one by one.
use gosutils.Prelude.{
  ℕ, suc, ◌+◌, ◌<◌, ◌^◌, ◌≡◌, refl, ◌∙◌, ap, Bool, true, false, ◌&&◌, List, [], ◌∷◌, ◌++◌, some,
  arith, inl, inr, ◌⊎◌, if◌then◌else◌, lt→ltb,
}
use gosutils.Prelude.Text.{Text, is_empty, is_empty-append, All}
use gosutils.Scp.Header.{header, header_line, parse_mode, parse_uint, octal, size_text}
use gosutils.Scp.Stream.{Stream, next_read, Scanner, scan, total}
use gosutils.Scp.Send.{file}
use gosutils.Scp.Sink.{
  Host, Sink, Phase, reading, dispatching, go, turn, read_command, switch_command, take_line,
  on_entry, on_named, on_parts, on_size, on_end, receive_file, enter_dir, on_received, finish_file,
  run,
}
use gosutils.Scp.Printed.{
  split3-header_line, parse_mode-octal, parse_uint-size_text, cut_line-header_line,
  drop_return-header_line,
}
use gosutils.Scp.Scanned.{IsReady, scan-header_line}
use gosutils.Scp.Framed.{IsHeader, IsRead, end_dir}
use gosutils.Scp.Contents.{joined, receive-joined}
use gosutils.Scp.Placed.{IsUsual, place, placed_file}

module _ (h : Host) (ign_err : Bool) (dst_file : Text) (specified : Bool) (takes : ℕ → Bool)
    (open_pipe : (n : ℕ) → takes n ≡ true) where
  open h use {Disk, join_path, parent, base}

  -- One step after the other.
  pub data Leads : Phase → Sink h → Phase → Sink h → Type 0 where
    here : (p : Phase) (s : Sink h) → Leads p s p s
    next :
        {p q r : Phase} {s t u : Sink h}
        → turn h ign_err dst_file specified takes p s ≡ go q t
        → Leads q t r u
        → Leads p s r u

  pub Leads-append :
      {p q r : Phase} {s t u : Sink h} → Leads p s q t → Leads q t r u → Leads p s r u
  Leads-append (here p s) b = b
  Leads-append (next e a) b = next e (Leads-append a b)

  -- The variables where no line has been read behind an error.
  abbrev pub at : Stream → Scanner → ℕ → Bool → Text → Disk → ℕ → Sink h
  at inp scanner cmd first dst_dir disk acks = record {
    inp = inp;
    scanner = scanner;
    cmd = cmd;
    jumped = false;
    first = first;
    dst_dir = dst_dir;
    disk = disk;
    acks = acks;
  }

  -- The command byte of a Write of two bytes or more.
  pub turn-command :
      (c : ℕ) (w : Text) (cs : Stream) (sc : Scanner) (cmd : ℕ) (first : Bool) (dst : Text)
      (disk : Disk) (acks : ℕ)
      → is_empty w ≡ false
      → turn h ign_err dst_file specified takes reading
          (at ((c ∷ w) ∷ cs) sc cmd first dst disk acks)
        ≡ go dispatching (at (w ∷ cs) sc c first dst disk acks)
  unfolding turn read_command next_read
  turn-command c w cs sc cmd first dst disk acks e = rw e refl

  -- The rest of a line.
  pub take_line-header_line :
      (l t : Text) (cs : Stream) (sc sc' : Scanner) (cmd : ℕ) (first : Bool) (dst : Text)
      (disk : Disk) (acks : ℕ)
      → scan sc ((l ++ b'\n' ∷ t) ∷ cs) ≡ (sc', cs)
      → sc'.too_long ≡ false
      → sc'.token ≡ l
      → ((cmd ≡ b'C') ⊎ (cmd ≡ b'D'))
      → turn h ign_err dst_file specified takes dispatching
          (at ((l ++ b'\n' ∷ t) ∷ cs) sc cmd first dst disk acks)
        ≡ on_entry h ign_err dst_file specified takes l (at cs sc' cmd first dst disk acks)
  unfolding turn switch_command take_line
  take_line-header_line l behind cs sc sc' cmd first dst disk acks e long t c = elim c [
    | inl k ↦ rw k (rw e (rw long (rw t refl)))
    | inr k ↦ rw k (rw e (rw long (rw t refl)))
  ]

  -- A header, up to the tests behind it.
  on_parts-some :
      (a b c : Text) (mode size : ℕ) (s : Sink h)
      → parse_mode a ≡ some mode
      → parse_uint b ≡ some size
      → on_parts h ign_err dst_file specified takes (a ∷ b ∷ c ∷ []) s
        ≡ on_named h ign_err dst_file specified takes mode size c s
  on_parts-some a b c mode size s e f = rw (on_parts, e) (rw (on_size, f) refl)

  pub on_entry-header_line :
      (mode size : ℕ) (name : Text) (s : Sink h)
      → IsHeader mode size name
      → on_entry h ign_err dst_file specified takes (header_line mode size name) s
        ≡ on_named h ign_err dst_file specified takes mode size name s
  unfolding on_entry
  on_entry-header_line mode size name s (m, z, one, short) =
      ap (λ ps. on_parts h ign_err dst_file specified takes ps s)
        (split3-header_line mode size name m)
      ∙ on_parts-some (octal mode) (size_text size) name mode size s (parse_mode-octal mode m)
          (parse_uint-size_text size z)

  pub Leads-header :
      (c mode size : ℕ) (name : Text) (cs : Stream) (sc : Scanner) (cmd : ℕ) (first : Bool)
      (dst : Text) (disk : Disk) (acks : ℕ)
      → IsHeader mode size name
      → IsReady sc
      → ((c ≡ b'C') ⊎ (c ≡ b'D'))
      → (sc' : Scanner) × IsReady sc'
        × ((q : Phase) (u : Sink h)
            → on_named h ign_err dst_file specified takes mode size name
                (at cs sc' c first dst disk acks)
              ≡ go q u
            → Leads reading (at (header c mode size name ∷ cs) sc cmd first dst disk acks) q u)
  unfolding header
  Leads-header c mode size name cs sc cmd first dst disk acks (m, z, one, short) r is =
      let l = header_line mode size name in
      let w : Text = l ++ b'\n' ∷ [] in
      let (sc', e, r', t) =
        scan-header_line sc l cs r (cut_line-header_line mode size name m one)
          (drop_return-header_line mode size name one) short in
      (
        sc',
        r',
        λ q u k.
            next (turn-command c w cs sc cmd first dst disk acks (is_empty-append l b'\n' [])) (
              next
                (take_line-header_line l [] cs sc sc' c first dst disk acks e r'.no_long t is
                  ∙ on_entry-header_line mode size name (at cs sc' c first dst disk acks)
                      (m, z, one, short)
                  ∙ k)
                (here q u)),
      )

  -- The end of a directory.
  pub Leads-end :
      (cs : Stream) (sc : Scanner) (cmd : ℕ) (first : Bool) (dst : Text) (disk : Disk) (acks : ℕ)
      → IsReady sc
      → (sc' : Scanner) × IsReady sc'
        × Leads reading
            (at (end_dir ∷ cs) sc cmd first dst disk acks)
            reading
            (at cs sc' b'E' false (parent dst) disk (acks + 1))
  unfolding turn read_command next_read switch_command take_line on_end
  Leads-end cs sc cmd first dst disk acks r =
      let (sc', e, r', t) = scan-header_line sc [] cs r refl refl (omega arith) in
      (
        sc',
        r',
        next (turn-command b'E' (b'\n' ∷ []) cs sc cmd first dst disk acks refl)
            (next (rw e (rw (r'.no_long) (rw (open_pipe acks) refl))) (here _ _)),
      )

  -- The contents of a file and the byte behind them.
  finish_file-Leads :
      (path : Text) (mode : ℕ) (contents : Text) (cs : Stream) (sc : Scanner) (first : Bool)
      (dst : Text) (disk disk' : Disk) (acks : ℕ)
      → Host.install h path contents disk ≡ some disk'
      → finish_file h ign_err dst_file specified takes path mode contents
          (at ((0 ∷ []) ∷ cs) sc b'C' first dst disk acks)
        ≡ go reading (at cs sc b'C' false dst (Host.chmod h path mode disk') (acks + 1))
  unfolding next_read
  finish_file-Leads path mode contents cs sc first dst disk disk' acks e =
      rw (finish_file, e) (rw (open_pipe acks) refl)

  pub receive_file-Leads :
      (mode size : ℕ) (name : Text) (reads : List Text) (cs : Stream) (sc : Scanner) (first : Bool)
      (dst : Text) (disk disk' : Disk) (acks : ℕ)
      → IsUsual h
      → size ≡ total reads
      → All IsRead reads
      → place h (join_path dst name) (file name mode true size reads) disk ≡ some disk'
      → receive_file h ign_err dst_file specified takes mode size name
          (at (reads ++ ((0 ∷ []) ∷ cs)) sc b'C' first dst disk acks)
        ≡ go reading (at cs sc b'C' false dst disk' (acks + 1))
  unfolding receive_file place
  receive_file-Leads mode size name reads cs sc first dst disk disk' acks usual t all p =
      let path = join_path dst name in
      let s = at (reads ++ ((0 ∷ []) ∷ cs)) sc b'C' first dst disk acks in
      let e =
        receive-joined h disk (usual.accepts_all disk) (suc size) 4096 size [] reads ((0 ∷ []) ∷ cs)
          (omega arith) (omega arith) t all in
      let (b, d, i, c) = placed_file h _ _ _ p in
      rw (b, usual.creates_all disk name)
        (ap (λ r. on_received h ign_err dst_file specified takes path mode r s) e
          ∙ finish_file-Leads path mode (joined reads) cs sc first dst disk d acks i
          ∙ ap (λ (v : Disk). go reading (at cs sc b'C' false dst v (acks + 1))) c)

  -- The commands, with the name that the top of the tree gets.
  pub on_named-file :
      (mode size : ℕ) (name f : Text) (cs : Stream) (sc : Scanner) (first : Bool) (dst : Text)
      (disk : Disk) (acks : ℕ)
      → size < 2 ^ 63
      → (if specified && first then base dst_file else name) ≡ f
      → on_named h ign_err dst_file specified takes mode size name
          (at cs sc b'C' first dst disk acks)
        ≡ receive_file h ign_err dst_file specified takes mode size f
            (at cs sc b'C' first dst disk (acks + 1))
  on_named-file mode size name f cs sc first dst disk acks small e =
      rw (open_pipe acks, e, lt→ltb size (2 ^ 63) small) refl

  enter_dir-lem :
      (mode : ℕ) (f : Text) (s : Sink h) (d : Disk)
      → Host.mkdir_all h (join_path s.dst_dir f) mode s.disk ≡ some d
      → enter_dir h ign_err dst_file specified takes mode f s
        ≡ go reading (record s { disk = d; dst_dir = join_path s.dst_dir f; first = false })
  unfolding enter_dir
  enter_dir-lem mode f s d m = rw (enter_dir, m) refl

  pub on_named-dir :
      (mode size : ℕ) (name f : Text) (cs : Stream) (sc : Scanner) (first : Bool) (dst : Text)
      (disk d : Disk) (acks : ℕ)
      → (if specified && first then base dst_file else name) ≡ f
      → Host.mkdir_all h (join_path dst f) mode disk ≡ some d
      → on_named h ign_err dst_file specified takes mode size name
          (at cs sc b'D' first dst disk acks)
        ≡ go reading (at cs sc b'D' false (join_path dst f) d (acks + 1))
  on_named-dir mode size name f cs sc first dst disk d acks e m =
      rw (open_pipe acks, e) (enter_dir-lem mode f (at cs sc b'D' first dst disk (acks + 1)) d m)

  run-go :
      (p q : Phase) (s t : Sink h) (g : ℕ)
      → turn h ign_err dst_file specified takes p s ≡ go q t
      → run h ign_err dst_file specified takes (suc g) p s
        ≡ run h ign_err dst_file specified takes g q t
  unfolding run
  run-go p q s t g e = rw (run, e) refl

  -- Enough fuel for the steps.
  pub Leads-run :
      {p q : Phase} {s t : Sink h}
      → Leads p s q t
      → (k : ℕ) × ((fuel : ℕ)
          → run h ign_err dst_file specified takes (k + fuel) p s
            ≡ run h ign_err dst_file specified takes fuel q t)
  Leads-run (here p s) =
      (0, λ fuel. ap (λ n. run h ign_err dst_file specified takes n p s) (omega arith))
  Leads-run (next {p = p} {q = q} {s = s} {t = t} e l) =
      let (k, k_lem) = Leads-run l in
      (
        suc k,
        λ fuel.
            ap (λ n. run h ign_err dst_file specified takes n p s) (omega arith)
            ∙ run-go p q s t (k + fuel) e
            ∙ k_lem fuel,
      )
