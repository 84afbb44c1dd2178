-- ===== src/Scp/Serve.antt =====
-- The entry points of sshserver/scp.go: scpFromClient around its loop, and SCP with its flags.
use gosutils.Prelude.{
  ℕ, Bool, true, false, ◌||◌, not, List, [], ◌∷◌, ◌==◌, if◌then◌else◌, Option, some,
}
use gosutils.Prelude.Text.{Text, text_eq, codes}
use gosutils.Scp.Stream.{Stream, new_scanner}
use gosutils.Scp.Send.{Node, Sent, scp_to_client}
use gosutils.Scp.Sink.{Host, Sink, Ended, failed, no_reply, reading, run}

-- `strings.HasSuffix(s, string(os.PathSeparator))`, where it is a slash.
unfoldable pub ends_in_slash : Text → Bool
ends_in_slash [] = false
ends_in_slash (c ∷ []) = c == b'/'
ends_in_slash (c ∷ d ∷ s) = ends_in_slash (d ∷ s)

-- `sreflect.SlideHasElem` on texts.
unfoldable pub slide_has_elem : List Text → Text → Bool
unfolding text_eq
slide_has_elem [] s = false
slide_has_elem (t ∷ ts) s = text_eq t s || slide_has_elem ts s

module _ (h : Host) where
  open h use {Disk, parent}

  -- The variables in front of the loop, behind the first zero byte.
  abbrev pub at_start : Bool → Text → Stream → Disk → Sink h
  at_start use_specified dst_file inp disk = record {
    inp = inp;
    scanner = new_scanner;
    cmd = 0;
    jumped = false;
    first = true;
    dst_dir = if use_specified then parent dst_file else dst_file;
    disk = disk;
    acks = 1;
  }

  -- `scpFromClient`, with fuel for its loop.
  unfoldable pub scp_from_client :
      ℕ → Bool → Text → (ℕ → Bool) → Stream → Disk → Option (Ended × Sink h)
  unfolding ends_in_slash run
  scp_from_client fuel ign_err dst_file takes inp disk =
      let use_specified = not (ends_in_slash dst_file) in
      let s = at_start use_specified dst_file inp disk in
      if takes 0
      then run h ign_err dst_file use_specified takes fuel reading s
      else some (failed no_reply, record s { acks = 0 })

-- How a call of SCP ends: as a sink, as a sender, or with neither flag.
pub data Served (h : Host) : Type 0 where
  sink_ended : Option (Ended × Sink h) → Served h
  sender_ended : Sent → Served h
  nothing_done : Served h

module _ (h : Host) (from_slash_smart : Text → Text) (stat : Text → Option Node) where
  open h use {Disk}

  -- `SCP`: `ignErr` is false, and `stat` is os.Stat with the tree that it leads to.
  unfoldable pub scp : ℕ → (ℕ → Bool) → Bool → Stream → Text → Text → List Text → Disk → Served h
  unfolding slide_has_elem ends_in_slash scp_from_client scp_to_client
  scp fuel takes closes inp src_file dst_file commands disk =
      let recursive = slide_has_elem commands (codes "-r") || ends_in_slash src_file in
      if slide_has_elem commands (codes "-t")
      then sink_ended (scp_from_client h fuel false (from_slash_smart dst_file) takes inp disk)
      else if slide_has_elem commands (codes "-f")
      then sender_ended
          (scp_to_client takes closes recursive false (stat (from_slash_smart src_file)))
      else nothing_done
