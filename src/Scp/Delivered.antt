-- ===== src/Scp/Delivered.antt =====
-- The sink on what a sender writes: the tree stands below the destination.
use mathlib.Core.Path.{fun_ext}
use gosutils.Prelude.{
  ℕ, ◌+◌, ◌≡◌, refl, ◌∙◌, ap, subst, Bool, true, false, ◌&&◌, [], ◌∷◌, ◌++◌, some, append_assoc,
  arith, inl, inr, ◌⊎◌, if◌then◌else◌,
}
use gosutils.Prelude.Text.{Text}
use gosutils.Scp.Stream.{Stream, Scanner}
use gosutils.Scp.Send.{Node, Nodes, file, dir, nil, cons}
use gosutils.Scp.Sink.{Host, reading}
use gosutils.Scp.Scanned.{IsReady}
use gosutils.Scp.Framed.{frames, frames_all, IsSendable, AreSendable, end_dir}
use gosutils.Scp.Placed.{
  IsName, IsUsual, name_of, then_place, place, place_all, then_place-some, some_eq, HasNames,
  IsNamed,
}
use gosutils.Scp.Steps.{
  Leads, here, Leads-append, at, Leads-header, Leads-end, receive_file-Leads, on_named-file,
  on_named-dir,
}

module _ (h : Host) (ign_err : Bool) (dst_file : Text) (specified : Bool) (takes : ℕ → Bool)
    (open_pipe : (n : ℕ) → takes n ≡ true) where
  open h use {Disk, join_path, parent, base}

  module _ (usual : IsUsual h) where
    -- The directory in which the sink stands behind a tree: the destination, or that one cleaned.
    abbrev pub IsBack : Text → Text → Type 0
    IsBack dst' dst = (dst' ≡ dst) ⊎ (dst' ≡ usual.clean dst)

    IsBack-trans : (a b c : Text) → IsBack b a → IsBack c b → IsBack c a
    IsBack-trans a b c (inl e) (inl f) = inl (f ∙ e)
    IsBack-trans a b c (inl e) (inr f) = inr (f ∙ ap usual.clean e)
    IsBack-trans a b c (inr e) (inl f) = inr (f ∙ e)
    IsBack-trans a b c (inr e) (inr f) = inr (f ∙ ap usual.clean e ∙ usual.clean-clean a)

    join_path-IsBack : (a b n : Text) → IsBack b a → join_path b n ≡ join_path a n
    join_path-IsBack a b n (inl e) = ap (λ d. join_path d n) e
    join_path-IsBack a b n (inr e) = ap (λ d. join_path d n) e ∙ usual.join_path-clean a n

    place_all-IsBack :
        (fis : Nodes) (a b : Text) (disk : Disk)
        → IsBack b a
        → place_all h b fis disk ≡ place_all h a fis disk
    unfolding place_all
    place_all-IsBack nil a b disk e = refl
    place_all-IsBack (cons fi fis) a b disk e = rw (join_path-IsBack a b (name_of fi) e) (
        ap (then_place h (place h (join_path a (name_of fi)) fi disk))
          (fun_ext (λ d. place_all-IsBack fis a b d e)))

    -- What a tree leads to.
    unfoldable pub Delivers : Stream → Stream → Scanner → ℕ → Bool → Text → Disk → Disk → ℕ → Type 0
    Delivers inp rest sc cmd first dst disk disk' acks =
        (sc' : Scanner) × (cmd' : ℕ) × (dst' : Text) × (acks' : ℕ) × IsReady sc'
        × IsBack dst' dst
        × Leads h ign_err dst_file specified takes open_pipe reading
            (at h ign_err dst_file specified takes open_pipe inp sc cmd first dst disk acks) reading
            (at h ign_err dst_file specified takes open_pipe rest sc' cmd' false dst' disk' acks')

    mutual
      unfolding place place_all frames frames_all IsSendable AreSendable HasNames IsNamed Delivers

      pub node-Delivers :
          (n : Node) (f : Text) (rest : Stream) (sc : Scanner) (cmd : ℕ) (first : Bool) (dst : Text)
          (disk disk' : Disk) (acks : ℕ)
          → IsSendable n
          → IsNamed n
          → IsName f
          → IsReady sc
          → (if specified && first then base dst_file else name_of n) ≡ f
          → place h (join_path dst f) n disk ≡ some disk'
          → Delivers (frames n ++ rest) rest sc cmd first dst disk disk' acks
      node-Delivers (file name mode opens size reads) f rest sc cmd first dst disk disk' acks
            (hd, o, t, all) named isf r ef p =
          let cs = reads ++ ((0 ∷ []) ∷ rest) in
          let (sc', r', k) =
            Leads-header h ign_err dst_file specified takes open_pipe b'C' mode size name cs sc cmd
              first dst disk acks hd r (inl refl) in
          let e =
            on_named-file h ign_err dst_file specified takes open_pipe mode size name f cs sc' first
              dst disk acks hd.1 ef
            ∙ receive_file-Leads h ign_err dst_file specified takes open_pipe mode size f reads rest
                sc' first dst disk disk' (acks + 1) usual t all p in
          rw (append_assoc reads ((0 ∷ []) ∷ []) rest)
            (sc', b'C', dst, acks + 1 + 1, r', inl refl, k _ _ e)
      node-Delivers (dir name mode opens fis) f rest sc cmd first dst disk disk' acks (hd, o, all)
            named isf r ef p =
          let path = join_path dst f in
          let cs = frames_all fis ++ (end_dir ∷ rest) in
          let (d, m, p') = then_place-some h _ _ p in
          let (sc1, r1, k) =
            Leads-header h ign_err dst_file specified takes open_pipe b'D' mode 0 name cs sc cmd
              first dst disk acks hd r (inr refl) in
          let e =
            on_named-dir h ign_err dst_file specified takes open_pipe mode 0 name f cs sc1 first dst
              disk d acks ef m in
          let (sc2, cmd2, dst2, acks2, r2, back, leads) =
            nodes-Deliver fis (end_dir ∷ rest) sc1 b'D' path d disk' (acks + 1) all named r1 p' in
          let here_again : dst2 ≡ path = elim back [
            | inl b ↦ b
            | inr b ↦ b ∙ usual.clean-join_path dst f
          ] in
          let (sc3, r3, leads') =
            Leads-end h ign_err dst_file specified takes open_pipe rest sc2 cmd2 false dst2 disk'
              acks2 r2 in
          rw (append_assoc (frames_all fis) (end_dir ∷ []) rest) (
            sc3,
            b'E',
            parent dst2,
            acks2 + 1,
            r3,
            inr (ap parent here_again ∙ usual.parent-join_path dst f isf),
            Leads-append h ign_err dst_file specified takes open_pipe (k _ _ e)
                (Leads-append h ign_err dst_file specified takes open_pipe leads leads'),
          )

      nodes-Deliver :
          (ns : Nodes) (rest : Stream) (sc : Scanner) (cmd : ℕ) (dst : Text) (disk disk' : Disk)
          (acks : ℕ)
          → AreSendable ns
          → HasNames ns
          → IsReady sc
          → place_all h dst ns disk ≡ some disk'
          → Delivers (frames_all ns ++ rest) rest sc cmd false dst disk disk' acks
      nodes-Deliver nil rest sc cmd dst disk disk' acks all named r p =
          subst (λ d. Delivers rest rest sc cmd false dst disk d acks) (some_eq p)
            (sc, cmd, dst, acks, r, inl refl, here reading _)
      nodes-Deliver (cons fi fis) rest sc cmd dst disk disk' acks (a, all) (isn, nm, named) r p =
          let (d, p1, p2) = then_place-some h _ _ p in
          let (sc1, cmd1, dst1, acks1, r1, back1, leads1) =
            node-Delivers fi (name_of fi) (frames_all fis ++ rest) sc cmd false dst disk d acks a nm
              isn r (ground arith) p1 in
          let (sc2, cmd2, dst2, acks2, r2, back2, leads2) =
            nodes-Deliver fis rest sc1 cmd1 dst1 d disk' acks1 all named r1
              (place_all-IsBack fis dst dst1 d back1 ∙ p2) in
          rw (append_assoc (frames fi) (frames_all fis) rest) (
            sc2,
            cmd2,
            dst2,
            acks2,
            r2,
            IsBack-trans dst dst1 dst2 back1 back2,
            Leads-append h ign_err dst_file specified takes open_pipe leads1 leads2,
          )
