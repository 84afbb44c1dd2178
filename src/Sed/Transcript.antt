-- ===== src/Sed/Transcript.antt =====
-- All that a call of `Read` of gosed/engine.go writes.
use gosutils.Prelude.{
  ℕ, zero, suc, ◌≡◌, sym, ap, subst, ◌∙◌, true, List, [], ◌++◌, none, some, get_elem?, inl, inr,
  Option-cases, append-nil, append_assoc,
}
use gosutils.Prelude.Text.{Text}
use gosutils.Sed.Host.{Host}
use gosutils.Sed.Vm.{Vm, Outcome}
use gosutils.Sed.Instructions.{Instr, exec}
use gosutils.Sed.Engine.{Run, ended, panic, stuck, proceed, run, prepare, read}
use gosutils.Sed.Output.{stream, IsTight, Writes, text_of, exec-Writes, prepare-Writes}

-- The text `t` is what was written, in the buffer and beyond it.
abbrev pub Shows : Text → Run → Type 0
Shows t (ended v e) = (stream v ≡ t) × IsTight v
Shows t panic = Unit
Shows t (stuck v) = (stream v ≡ t) × IsTight v

module _ (h : Host) where
  open h use {Regexp}

  abbrev pub continued : Outcome → (Vm → Text) → Text
  continued (v, none) rest = rest v
  continued (v, some e) rest = []

  -- The texts of the instructions that run, one behind the other.
  unfoldable pub transcript : ℕ → List (Instr Regexp) → Vm → Text
  unfolding text_of
  transcript zero ins v = []
  transcript (suc fuel) ins v = elim (get_elem? ins v.ip) [
    | none ↦ []
    | some i ↦ text_of h i v ++ continued (exec h i v) (λ v'. transcript fuel ins v')
  ]

  proceed-Shows :
      (v : Vm) (t : Text) (o : Outcome) (go : Vm → Run) (rest : Vm → Text)
      → Writes v t o.0
      → ((v' : Vm) → IsTight v' → Shows (stream v' ++ rest v') (go v'))
      → Shows (stream v ++ (t ++ continued o rest)) (proceed o go)
  proceed-Shows v t (v', none) go rest (e, tight) shows =
      subst (λ s. Shows s (go v')) (ap (λ s. s ++ rest v') e ∙ append_assoc (stream v) t (rest v'))
        (shows v' tight)
  proceed-Shows v t (v', some e') go rest (e, tight) shows =
      (e ∙ ap (λ s. stream v ++ s) (sym (append-nil t)), tight)

  start-Shows :
      (w : Text) (o : Outcome) (go : Vm → Run) (rest : Vm → Text)
      → stream o.0 ≡ w
      → IsTight o.0
      → ((v' : Vm) → IsTight v' → Shows (stream v' ++ rest v') (go v'))
      → Shows (w ++ continued o rest) (proceed o go)
  start-Shows w (v', none) go rest e tight shows =
      subst (λ s. Shows (s ++ rest v') (go v')) e (shows v' tight)
  start-Shows w (v', some e') go rest e tight shows = (e ∙ sym (append-nil w), tight)

  run-Shows :
      (fuel : ℕ) (ins : List (Instr Regexp)) (v : Vm)
      → IsTight v
      → Shows (stream v ++ transcript fuel ins v) (run h fuel ins v)
  unfolding run transcript
  run-Shows zero ins v tight = (sym (append-nil (stream v)), tight)
  run-Shows (suc fuel) ins v tight = elim (Option-cases (get_elem? ins v.ip)) [
    | inl e ↦ rw (run, transcript, e) tt
    | inr (i, e) ↦
        rw (run, transcript, e)
          (proceed-Shows v (text_of h i v) (exec h i v) (run h fuel ins) (transcript fuel ins)
            (exec-Writes h i v tight) (run-Shows fuel ins))
  ]

  -- A later `Read`, with a buffer of any size, writes, in the buffer and beyond it, first the text
  -- that waited and then the texts of the instructions that it runs, and what waits at its end waits
  -- for room.
  pub read-Shows :
      (fuel : ℕ) (ins : List (Instr Regexp)) (n : ℕ) (v : Vm)
      → v.started ≡ true
      → Shows
          (v.overflow ++ continued (prepare h n v) (λ v'. transcript fuel ins v'))
          (read h fuel ins n v)
  unfolding read
  read-Shows fuel ins n v started =
      let (e, tight) = prepare-Writes h n v started in
      start-Shows v.overflow (prepare h n v) (run h fuel ins) (transcript fuel ins) e tight
        (run-Shows fuel ins)
