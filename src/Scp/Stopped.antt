-- ===== src/Scp/Stopped.antt =====
-- sendFile of sshserver/scp.go closes the file twice: what that does to the sender.
use gosutils.Prelude.{ℕ, ◌≡◌, refl, Bool, true, false, List, [], ◌∷◌, some}
use gosutils.Prelude.Text.{Text, All}
use gosutils.Scp.Header.{header}
use gosutils.Scp.Send.{
  Nodes, file, dir, cons, send_dir, process, process_all, already_closed, server_close,
  scp_to_client, send_source,
}
use gosutils.Scp.Framed.{IsRead, frames, send_file-frames}

module _ (takes : ℕ → Bool) (open_pipe : (n : ℕ) → takes n ≡ true) where
  -- Where the pipe takes every Write: scpToClient sends a file whole and then gives the error of its
  -- second Close. Of a directory in which a file comes first it sends the header of the directory and
  -- that file, and nothing of what is behind the file, whatever that is, nor the end of the directory.
  pub scp_to_client-stops :
      (closes recursive : Bool) (name top : Text) (mode top_mode size : ℕ) (reads : List Text)
      (behind : Nodes)
      → All IsRead reads
      → let src = file name mode true size reads in
        (scp_to_client takes closes recursive false (some src) ≡ (some already_closed, frames src))
        × (scp_to_client takes closes true false (some (dir top top_mode true (cons src behind)))
            ≡ (some already_closed, header b'D' top_mode 0 top ∷ frames src))
  unfolding scp_to_client send_source process process_all send_dir
  scp_to_client-stops closes recursive name top mode top_mode size reads behind all = (
    rw (send_file-frames takes open_pipe server_close name mode size reads [] all) refl,
    rw
        (
          open_pipe 0,
          send_file-frames takes open_pipe server_close name mode size reads
              (header b'D' top_mode 0 top ∷ []) all,
        )
        refl,
  )
