-- ===== src/Scp/RunOn.antt =====
-- A header and the contents behind it in one Write: what the sink makes of them.
use gosutils.Prelude.{
  ℕ, zero, suc, ◌+◌, ◌-◌, ◌≤◌, ◌<◌, ◌≡◌, refl, ◌∙◌, ap, Bool, true, false, ◌&&◌, not, [], ◌∷◌, ◌++◌,
  some, length, append_assoc, arith, Option-cases, inl, inr, ltb, if◌then◌else◌,
}
use gosutils.Prelude.Text.{Text, is_empty-append}
use gosutils.Scp.Header.{header, header_line}
use gosutils.Scp.Stream.{Stream, next_read, total, new_scanner}
use gosutils.Scp.Sink.{
  Host, Sink, reading, dispatching, stop, go, turn, receive_file, on_received, receive, broken,
  failed, end_of_file, run, Ended,
}
use gosutils.Scp.Serve.{scp_from_client, at_start, ends_in_slash}
use gosutils.Scp.Printed.{cut_line-header_line, cut_line-more, drop_return-header_line}
use gosutils.Scp.Scanned.{scan-write}
use gosutils.Scp.Framed.{IsHeader}
use gosutils.Scp.Placed.{IsUsual}
use gosutils.Scp.Steps.{
  at, turn-command, take_line-header_line, on_entry-header_line, on_named-file,
}
use gosutils.Scp.Consumed.{next_read-total, next_read-nonempty}
use gosutils.Scp.RoundTrip.{directory, IsReady-new}

-- The loop over the contents finds fewer bytes than the size.
receive-short :
    (h : Host) (usual : IsUsual h) (disk : Host.Disk h) (fuel bs left : ℕ) (got : Text)
    (cs : Stream)
    → left < fuel
    → 0 < bs
    → total cs < left
    → receive h disk fuel bs left got cs ≡ broken end_of_file []
unfolding receive
receive-short h usual disk zero bs left got cs f b t = absurd (omega arith)
receive-short h usual disk (suc fuel) bs left got cs f b t =
    let n = if ltb left bs then left else bs in
    let n_pos : 0 < n = ground arith in
    elim (Option-cases (next_read n cs)) [
      | inl e ↦ rw e (ground arith)
      | inr ((c, cs'), e) ↦
          rw (e, usual.accepts_all disk c)
            (ground (
              arith,
              next_read-total n cs e,
              next_read-nonempty n cs n_pos e,
              receive-short h usual disk fuel n (left - length c) (got ++ c) cs',
            ))
    ]

-- A file that the sink refuses to replace.
abbrev is_read_only : (h : Host) → Host.Disk h → Text → Bool
is_read_only h disk path = Host.is_file h disk path && not (Host.is_writeable h disk path)

-- Two steps, the second of which ends the loop.
run-stop :
    (h : Host) (ign_err : Bool) (dst : Text) (specified : Bool) (takes : ℕ → Bool) (more : ℕ)
    (s t u : Sink h) (e : Ended)
    → turn h ign_err dst specified takes reading s ≡ go dispatching t
    → turn h ign_err dst specified takes dispatching t ≡ stop e u
    → run h ign_err dst specified takes (suc (suc more)) reading s ≡ some (e, u)
unfolding run
run-stop h ign_err dst specified takes more s t u e p q = rw (run, p) (rw (run, q) refl)

module _ (h : Host) (usual : IsUsual h) (takes : ℕ → Bool)
    (open_pipe : (n : ℕ) → takes n ≡ true) where
  receive_file-short :
      (ign_err : Bool) (dst : Text) (specified : Bool) (mode size : ℕ) (name : Text) (s : Sink h)
      → total s.inp < size
      → is_read_only h s.disk (Host.join_path h s.dst_dir name) ≡ false
      → receive_file h ign_err dst specified takes mode size name s
        ≡ stop (failed end_of_file) (record s { inp = [] })
  unfolding receive_file
  receive_file-short ign_err dst specified mode size name s few b =
      rw (b, usual.creates_all s.disk name)
        (ap
          (λ r.
            on_received h ign_err dst specified takes (Host.join_path h s.dst_dir name) mode r s)
          (receive-short h usual s.disk (suc size) 4096 size [] s.inp (omega arith) (omega arith)
            few))

  -- Where the first Write that the sink sees holds a file's header and some of its contents, and what
  -- follows has fewer bytes than the file: the scanner takes those contents with the header,
  -- scpFromClient ends with the error of a Read at the end, and the disk is as it was. It is assumed
  -- that Write is no longer than 2048 bytes, and no read-only file is in the way.
  pub scp_from_client-run_on :
      (ign_err : Bool) (dst name contents : Text) (mode size more : ℕ) (rest : Stream)
      (disk : Host.Disk h)
      → IsHeader mode size name
      → length (header_line mode size name ++ b'\n' ∷ contents) ≤ 2048
      → total rest < size
      → is_read_only h disk (
          Host.join_path h (directory h dst) (if not (ends_in_slash dst) then h.base dst else name))
        ≡ false
      → (s : Sink h) × (scp_from_client h
            (more + 2)
            ign_err
            dst
            takes
            ((header b'C' mode size name ++ contents) ∷ rest)
            disk
          ≡ some (failed end_of_file, s))
        × (s.disk ≡ disk)
  unfolding scp_from_client header
  scp_from_client-run_on ign_err dst name contents mode size more rest disk (m, z, one, short) long
        few b =
      let specified = not (ends_in_slash dst) in
      let f = if specified then h.base dst else name in
      let d = directory h dst in
      let l = header_line mode size name in
      let w : Text = l ++ b'\n' ∷ contents in
      let shape : (l ++ b'\n' ∷ []) ++ contents ≡ w = append_assoc l (b'\n' ∷ []) contents in
      let (sc, e, t, no_long, going, left, sized, begins) =
        scan-write new_scanner l contents rest IsReady-new
          (cut_line-more l contents (cut_line-header_line mode size name m one))
          (drop_return-header_line mode size name one) long in
      let s = at h ign_err dst specified takes open_pipe rest sc b'C' true d disk 2 in
      let begins = λ (v : Text). at_start h specified dst ((b'C' ∷ v) ∷ rest) disk in
      let two : more + 2 ≡ suc (suc more) = omega arith in
      let p =
        turn-command h ign_err dst specified takes open_pipe b'C' w rest new_scanner 0 true d disk 1
          (is_empty-append l b'\n' contents) in
      let q =
        take_line-header_line h ign_err dst specified takes open_pipe l contents rest new_scanner sc
          b'C' true d disk 1 e no_long t (inl refl)
        ∙ on_entry-header_line h ign_err dst specified takes open_pipe mode size name
            (at h ign_err dst specified takes open_pipe rest sc b'C' true d disk 1)
            (m, z, one, short)
        ∙ on_named-file h ign_err dst specified takes open_pipe mode size name f rest sc true d disk
            1 z (ground arith)
        ∙ receive_file-short ign_err dst specified mode size f s few b in
      (
        record s { inp = [] },
        rw (open_pipe 0) (
            ap
              (λ n.
                run h ign_err dst specified takes n reading
                  (begins ((l ++ b'\n' ∷ []) ++ contents)))
              two
            ∙ ap (λ v. run h ign_err dst specified takes (suc (suc more)) reading (begins v)) shape
            ∙ run-stop h ign_err dst specified takes more (begins w) _ _ _ p q),
        refl,
      )
