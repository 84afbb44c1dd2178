-- ===== src/Scp/Framed.antt =====
-- What a sender writes that meets no error: its Writes, without the program's order of tests.
use gosutils.Prelude.{
  ℕ, ◌+◌, ◌≤◌, ◌<◌, ◌^◌, ◌≡◌, ◌∙◌, ap, sym, Bool, true, false, List, [], ◌∷◌, ◌++◌, Option, none,
  map, length, append_assoc, append-nil, arith,
}
use gosutils.Prelude.Text.{Text, is_empty, All}
use gosutils.Bufcopy.{more, copy, copy_loop, put_read}
use gosutils.Scp.Header.{header, header_line}
use gosutils.Scp.Stream.{total}
use gosutils.Scp.Send.{
  Node, Nodes, file, dir, nil, cons, Sent, SendError, pipe, copied, send_file, send_dir,
  send_end_dir, process, process_all,
}
use gosutils.Scp.Printed.{IsOneLine}

abbrev pub end_dir : Text
end_dir = b'E' ∷ b'\n' ∷ []

unfoldable mutual
  -- The Writes for a file or directory.
  pub frames : Node → List Text
  frames (file name mode opens size reads) = header b'C' mode size name ∷ (reads ++ ((0 ∷ []) ∷ []))
  frames (dir name mode opens fis) = header b'D' mode 0 name ∷ (frames_all fis ++ end_dir ∷ [])

  pub frames_all : Nodes → List Text
  frames_all nil = []
  frames_all (cons fi fis) = frames fi ++ frames_all fis

abbrev pub IsRead : Text → Type 0
IsRead r = is_empty r ≡ false

-- A header that a scanner takes in one Read.
abbrev pub IsHeader : ℕ → ℕ → Text → Type 0
IsHeader mode size name =
    (mode < 512)
    × (size < 2 ^ 63)
    × IsOneLine name
    × (length (header_line mode size name ++ b'\n' ∷ []) ≤ 2048)

unfoldable mutual
  -- All can be opened, no header is too long, and a file gives as many bytes as its size says.
  pub IsSendable : Node → Type 0
  IsSendable (file name mode opens size reads) =
      IsHeader mode size name × (opens ≡ true) × (size ≡ total reads) × All IsRead reads
  IsSendable (dir name mode opens fis) = IsHeader mode 0 name × (opens ≡ true) × AreSendable fis

  pub AreSendable : Nodes → Type 0
  AreSendable nil = Unit
  AreSendable (cons fi fis) = IsSendable fi × AreSendable fis

module _ (takes : ℕ → Bool) (open_pipe : (n : ℕ) → takes n ≡ true) where
  put_read-pipe :
      (r : Text) (n : ℕ) (w : List Text)
      → IsRead r
      → put_read (pipe takes) r n w ≡ (n + length r, none, w ++ r ∷ [])
  unfolding put_read
  put_read-pipe r n w h = ground (arith, open_pipe (length w))

  sent_ap : {w v : List Text} → w ≡ v → ◌≡◌ {A = Sent} (none, w) (none, v)
  sent_ap e = ap (λ (l : List Text). (none, l)) e

  copied-copy_loop :
      (reads : List Text) (n : ℕ) (w : List Text)
      → All IsRead reads
      → copied takes (copy_loop (pipe takes) (map (λ r. (r, more)) reads) n w) ≡ (none, w ++ reads)
  unfolding copy_loop put_read
  copied-copy_loop [] n w all = sent_ap (sym (append-nil w))
  copied-copy_loop (r ∷ reads) n w all = rw (put_read-pipe r n w all.0) (
      copied-copy_loop reads (n + length r) (w ++ r ∷ []) all.1
      ∙ sent_ap (append_assoc w (r ∷ []) reads))

  -- A file, with the error of its second Close.
  pub send_file-frames :
      (closed : Option SendError) (name : Text) (mode size : ℕ) (reads w : List Text)
      → All IsRead reads
      → send_file takes closed name mode true size reads w
        ≡ (closed, w ++ frames (file name mode true size reads))
  unfolding send_file copy frames
  send_file-frames closed name mode size reads w all =
      let w1 = w ++ header b'C' mode size name ∷ [] in
      rw (open_pipe (length w), copied-copy_loop reads 0 w1 all, open_pipe (length (w1 ++ reads)))
        (ap (λ (l : List Text). (closed, l))
          (append_assoc w1 reads ((0 ∷ []) ∷ [])
            ∙ append_assoc w (header b'C' mode size name ∷ []) (reads ++ ((0 ∷ []) ∷ []))))

  module _ (ign_err : Bool) where
    mutual
      unfolding process process_all frames frames_all IsSendable AreSendable

      pub process-frames :
          (n : Node) (w : List Text)
          → IsSendable n
          → process takes none ign_err n w ≡ (none, w ++ frames n)
      process-frames (file name mode opens size reads) w (h, o, t, all) =
          rw o (send_file-frames none name mode size reads w all)
      process-frames (dir name mode opens fis) w (h, o, all) =
          let w1 = w ++ header b'D' mode 0 name ∷ [] in
          let w2 = w1 ++ frames_all fis in
          rw (send_dir, open_pipe (length w))
            (rw (o, process_all-frames fis w1 all)
              (rw (send_end_dir, open_pipe (length w2))
                (sent_ap (
                  append_assoc w1 (frames_all fis) (end_dir ∷ [])
                  ∙ append_assoc w (header b'D' mode 0 name ∷ [])
                      (frames_all fis ++ end_dir ∷ [])))))

      process_all-frames :
          (ns : Nodes) (w : List Text)
          → AreSendable ns
          → process_all takes none ign_err ns w ≡ (none, w ++ frames_all ns)
      process_all-frames nil w h = sent_ap (sym (append-nil w))
      process_all-frames (cons fi fis) w (h, hs) = rw (process-frames fi w h) (
          process_all-frames fis (w ++ frames fi) hs
          ∙ sent_ap (append_assoc w (frames fi) (frames_all fis)))
