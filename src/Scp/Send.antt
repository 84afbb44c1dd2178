-- ===== src/Scp/Send.antt =====
-- The sender: processDir, sendDir, sendFile and sendEndDir of sshserver/scp.go and sshclient/scp.go,
-- and what calls them, scpToClient of the one and scpToRemote of the other.
use gosutils.Prelude.{
  ℕ, Bool, true, false, ◌&&◌, not, List, [], ◌∷◌, ◌++◌, if◌then◌else◌, Option, none, some, length,
  map, ltb,
}
use gosutils.Prelude.Text.{Text}
use gosutils.Bufcopy.{more, copy}
use gosutils.Scp.Header.{header}

-- A file or directory of the sender: the base of its path, its permissions (less than 01000), whether
-- it can be opened; the size that Stat gave and what the Reads of the file give, which do not fail;
-- and what Readdir gives. The pipe is taken to be without ReadFrom, and the file without WriterTo:
-- os.File has it in the Go version of go.mod, and writes the same bytes, but not by this buffer.
mutual
  pub data Node : Type 0 where
    file : Text → ℕ → Bool → ℕ → List Text → Node
    dir : Text → ℕ → Bool → Nodes → Node

  pub data Nodes : Type 0 where
    nil : Nodes
    cons : Node → Nodes → Nodes

pub data SendError : Type 0 where
  not_found not_opened not_written already_closed not_regular not_closed : SendError

-- The error, and the Writes that the pipe has taken.
abbrev pub Sent : Type 0
Sent = Option SendError × List Text

abbrev pub then_send : Sent → (List Text → Sent) → Sent
then_send (some e, w) k = (some e, w)
then_send (none, w) k = k w

abbrev pub is_some : Option SendError → Bool
is_some none = false
is_some (some e) = true

abbrev pub is_dir : Node → Bool
is_dir (file name mode opens size reads) = false
is_dir (dir name mode opens fis) = true

-- What the deferred function of sendFile in sshserver/scp.go joins to the error: the file has been
-- closed before, so that Close gives os.ErrClosed.
abbrev pub server_close : Option SendError
server_close = some already_closed

-- sshclient/scp.go drops the error of the deferred Close.
abbrev pub client_close : Option SendError
client_close = none

-- `takes n`: the pipe takes the Write that follows `n` others.
module _ (takes : ℕ → Bool) where
  -- A Write as io.Writer has it, for bufcopy.
  abbrev pub pipe : Text → List Text → ℕ × Option SendError × List Text
  pipe p w = if takes (length w) then (length p, none, w ++ p ∷ []) else (0, some not_written, w)

  abbrev pub write : Text → List Text → Sent
  write p w = if takes (length w) then (none, w ++ p ∷ []) else (some not_written, w)

  -- `sendByte` with 0.
  abbrev pub send_null : List Text → Sent
  send_null = write (0 ∷ [])

  unfoldable pub send_end_dir : List Text → Sent
  send_end_dir = write (b'E' ∷ b'\n' ∷ [])

  unfoldable pub send_dir : ℕ → Text → List Text → Sent
  unfolding header
  send_dir mode name = write (header b'D' mode 0 name)

  abbrev pub copied : {E : Type 0} → ℕ × Option E × List Text → Sent
  copied (n, none, w) = (none, w)
  copied (n, some e, w) = (some not_written, w)

  -- `sendFile`: `closed` is the error of the second Close.
  unfoldable pub send_file : Option SendError → Text → ℕ → Bool → ℕ → List Text → List Text → Sent
  unfolding header copy
  send_file closed name mode opens size reads w =
      if not opens
      then (some not_opened, w)
      else then_send (write (header b'C' mode size name) w) (λ w1.
        then_send (copied (copy pipe none none (map (λ r. (r, more)) reads) w1))
          (λ w2. then_send (send_null w2) (λ w3. (closed, w3))))

  module _ (closed : Option SendError) (ign_err : Bool) where
    -- `processDir`, and the call of sendFile for what is no directory.
    unfoldable mutual
      unfolding send_file send_dir send_end_dir

      pub process : Node → List Text → Sent
      process (file name mode opens size reads) w = send_file closed name mode opens size reads w
      process (dir name mode opens fis) w = then_send (send_dir mode name w) (λ w1.
          let rest = then_send (process_all fis w1) send_end_dir in
          if not opens then (some not_opened, w1) else rest)

      -- The loop of processDir.
      pub process_all : Nodes → List Text → Sent
      process_all nil w = (none, w)
      process_all (cons fi fis) w =
          let s = process fi w in
          let rest = process_all fis s.1 in if is_some s.0 && not ign_err then s else rest

  -- The choice of scpToClient and scpToRemote by the source and the flag -r.
  unfoldable pub send_source : Option SendError → Bool → Bool → Node → Sent
  unfolding process
  send_source closed recursive ign_err src =
      if is_dir src && not recursive then (some not_regular, []) else process closed ign_err src []

-- `scpToClient`: the source that Stat found, and whether the pipe closes without an error.
abbrev pub join_close : Bool → Sent → Sent
join_close closes (none, w) = (if closes then none else some not_closed, w)
join_close closes (some e, w) = (some e, w)

unfoldable pub scp_to_client : (ℕ → Bool) → Bool → Bool → Bool → Option Node → Sent
unfolding send_source
scp_to_client takes closes recursive ign_err none = (some not_found, [])
scp_to_client takes closes recursive ign_err (some src) =
    join_close closes (send_source takes server_close recursive ign_err src)

-- How scpToRemote ends: with the error that it gives back, which is that of Stat or of the call of
-- the peer, or not at all, since a second error waits for room in the channel `ce`.
pub data Remote (E : Type 0) : Type 0 where
  stat_failed : Remote E
  returned : Option E → Remote E
  stuck : Remote E

-- The errors that its goroutine sends into `ce`: that of the sending, which `-r` with a directory
-- and `ignErr` drops, and that of Close.
abbrev pub errors_of : Bool → Bool → Sent → ℕ
errors_of dropped closes (none, w) = if closes then 0 else 1
errors_of dropped closes (some e, w) =
    if dropped then (if closes then 0 else 1) else (if closes then 1 else 2)

-- `scpToRemote`: `piped` says whether WriteCloser gives a pipe. Without one its error is the only one.
unfoldable pub scp_to_remote :
    {E : Type 0}
    → Option E
    → (ℕ → Bool)
    → Bool
    → Bool
    → Bool
    → Bool
    → Option Node
    → Remote E × List Text
unfolding send_source
scp_to_remote run takes piped closes recursive ign_err none = (stat_failed, [])
scp_to_remote run takes piped closes recursive ign_err (some src) =
    let s = send_source takes client_close recursive ign_err src in
    let errors = errors_of (is_dir src && recursive && ign_err) closes s in
    if piped then (if ltb 1 errors then stuck else returned run, s.1) else (returned run, [])
