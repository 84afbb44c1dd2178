-- ===== src/Scp/RoundTrip.antt =====
-- sshclient/scp.go sends, sshserver/scp.go receives.
use gosutils.Prelude.{
  ℕ, suc, ◌+◌, ◌≡◌, refl, ◌∙◌, ap, Bool, true, false, ◌&&◌, not, [], Option, some, append-nil,
  arith, if◌then◌else◌, inl, subst,
}
use gosutils.Prelude.Text.{Text}
use gosutils.Scp.Stream.{next_read, new_scanner}
use gosutils.Scp.Send.{Node, is_dir, send_source, scp_to_remote}
use gosutils.Scp.Sink.{Host, Sink, reading, finished, run}
use gosutils.Scp.Serve.{scp_from_client, ends_in_slash, at_start}
use gosutils.Scp.Scanned.{IsReady}
use gosutils.Scp.Framed.{frames, IsSendable, process-frames}
use gosutils.Scp.Placed.{IsName, IsUsual, name_of, place, IsNamed}
use gosutils.Scp.Steps.{Leads, Leads-run, at}
use gosutils.Scp.Delivered.{node-Delivers, Delivers}

-- The directory of the destination, and the name that the top of the tree gets below it.
abbrev pub directory : Host → Text → Text
directory h dst = if not (ends_in_slash dst) then h.parent dst else dst

abbrev pub top_name : Host → Text → Node → Text
top_name h dst src = if not (ends_in_slash dst) then h.base dst else name_of src

module _ (takes : ℕ → Bool) (open_pipe : (n : ℕ) → takes n ≡ true) where
  -- What scpToRemote writes.
  scp_to_remote-frames :
      {E : Type 0} (error : Option E) (closes recursive ign_err : Bool) (src : Node)
      → is_dir src && not recursive ≡ false
      → IsSendable src
      → (scp_to_remote error takes true closes recursive ign_err (some src)).1 ≡ frames src
  unfolding scp_to_remote
  scp_to_remote-frames error closes recursive ign_err src fits s =
      rw (send_source, fits) (ap (λ s. s.1) (process-frames takes open_pipe ign_err src [] s))

-- The sink finds no more to read.
run-finished :
    (h : Host) (ign_err : Bool) (dst : Text) (specified : Bool) (takes : ℕ → Bool) (fuel : ℕ)
    (s : Sink h)
    → s.inp ≡ []
    → run h ign_err dst specified takes (suc fuel) reading s
      ≡ some (finished, record s { inp = [] })
unfolding run next_read
run-finished h ign_err dst specified takes fuel s e = rw (run, e) refl

pub IsReady-new : IsReady new_scanner
IsReady-new = record { nothing = refl; going = refl; no_long = refl; sized = inl (refl, refl) }

module _ (h : Host) (usual : IsUsual h) (takes : ℕ → Bool)
    (open_pipe : (n : ℕ) → takes n ≡ true) where
  -- What the client sends with scpToRemote, scpFromClient of the server takes without an error,
  -- whatever the flag ignErr is on either side, and then the tree stands below the destination, as
  -- the disk takes directory by directory and file by file: each with its contents and permissions,
  -- under its name, but the top of the tree under the name at the end of the destination, if that
  -- does not end in a slash. It is assumed that a directory is sent with -r, that all can be opened,
  -- that each file has the size that Stat gave, that names are of one line and no header is longer
  -- than 2048 bytes, that each Read of the sink gives bytes of one Write of the client, that both
  -- pipes open and take what is written, and that the paths of gofilepath are as documented.
  pub scp_from_client-to_remote :
      {E : Type 0} (error : Option E) (recursive ignores ign_err : Bool) (dst : Text) (src : Node)
      (disk disk' : Host.Disk h)
      → is_dir src && not recursive ≡ false
      → IsSendable src
      → IsNamed src
      → IsName (top_name h dst src)
      → place h (h.join_path (directory h dst) (top_name h dst src)) src disk ≡ some disk'
      → (bound : ℕ) × (s : Sink h) × ((more : ℕ)
          → scp_from_client h
              (bound + more)
              ign_err
              dst
              takes
              (scp_to_remote error takes true true recursive ignores (some src)).1
              disk
            ≡ some (finished, s))
        × (s.disk ≡ disk')
  unfolding scp_from_client Delivers
  scp_from_client-to_remote error recursive ignores ign_err dst src disk disk' fits ok named isn p =
      let specified = not (ends_in_slash dst) in
      let f = top_name h dst src in
      let d = directory h dst in
      let (sc, cmd, dst', acks, r, back, leads) =
        node-Delivers h ign_err dst specified takes open_pipe usual src f [] new_scanner 0 true d
          disk disk' 1 ok named isn IsReady-new (ground arith) p in
      let stop_at = at h ign_err dst specified takes open_pipe [] sc cmd false dst' disk' acks in
      let leads' =
        subst
          (λ inp.
            Leads h ign_err dst specified takes open_pipe reading
              (at h ign_err dst specified takes open_pipe inp new_scanner 0 true d disk 1) reading
              stop_at)
          (append-nil (frames src)) leads in
      let (k, k_lem) = Leads-run h ign_err dst specified takes open_pipe leads' in
      let sent_ap = scp_to_remote-frames takes open_pipe error true recursive ignores src fits ok in
      let begins = at_start h specified dst (frames src) disk in
      (
        k + 1,
        stop_at,
        λ more.
            rw (sent_ap, open_pipe 0)
              (ap (λ n. run h ign_err dst specified takes n reading begins) (omega arith)
                ∙ k_lem (suc more)
                ∙ run-finished h ign_err dst specified takes more stop_at refl),
        refl,
      )
