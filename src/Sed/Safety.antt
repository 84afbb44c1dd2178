-- ===== src/Sed/Safety.antt =====
-- The place `ip` in the loop of gosed/engine.go, over programs whose jumps stay inside.
use gosutils.Prelude.{
  ℕ, zero, suc, ◌+◌, ◌≤◌, ◌<◌, ◌≡◌, refl, arith, List, [], ◌∷◌, none, some, length, get_elem?, inl,
  inr, ◌⊎◌, dec_lt,
}
use gosutils.Prelude.Text.{Text, All}
use gosutils.Sed.Host.{Host}
use gosutils.Sed.Vm.{Vm, Outcome, write_string}
use gosutils.Sed.Instructions.{
  Instr, swap, print, fill_next, branch, changed_branch, simple_cond, two_cond, exec,
}
use gosutils.Sed.Engine.{Run, ended, panic, stuck, proceed, run, prepare, read}

module _ {R : Type 0} where
  -- Every jump of an instruction is below `n`.
  abbrev pub Targets : ℕ → Instr R → Type 0
  Targets n (branch t) = t < n
  Targets n (changed_branch t) = t < n
  Targets n (simple_cond c met unmet) = (met < n) × (unmet < n)
  Targets n (two_cond k c1 c2 met unmet) = (met < n) × (unmet < n)
  Targets n _ = Unit

  -- A program that can be run: it begins with two instructions at least, jumps inside itself, and
  -- ends in a jump to its start.
  pub record IsSafe (ins : List (Instr R)) : Type 0 where
    pub two : 2 ≤ length ins
    pub targets : All (Targets (length ins)) ins
    pub last : (k : ℕ) → suc k ≡ length ins → get_elem? ins k ≡ some (branch 0)

write_string-ip : (v : Vm) (s : Text) → (write_string v s).0.ip ≡ v.ip
unfolding write_string
write_string-ip v s = ground arith

-- A run that ends, or is cut off, leaves `ip` inside the program.
abbrev pub Inside : ℕ → Run → Type 0
Inside n (ended v e) = v.ip < n
Inside n panic = ⊥
Inside n (stuck v) = v.ip < n

module _ (h : Host) where
  open h use {Regexp}

  exec-ip :
      (i : Instr Regexp) (v : Vm) (n : ℕ)
      → Targets n i
      → 2 ≤ n
      → v.ip < n
      → (v.ip + 1 < n) ⊎ (i ≡ branch 0)
      → (exec h i v).0.ip < n
  unfolding exec write_string
  exec-ip (branch t) v n ts two here next = ts
  exec-ip (changed_branch t) v n ts two here next = ground arith
  exec-ip swap v n ts two here next = ground arith
  exec-ip print v n ts two here next = ground arith
  exec-ip (simple_cond c met unmet) v n ts two here next = ground arith
  exec-ip fill_next v n ts two here next = ground arith
  exec-ip _ v n ts two here next = ground arith

  get_elem?-Targets :
      (n k : ℕ) (ins : List (Instr Regexp))
      → All (Targets n) ins
      → k < length ins
      → (i : Instr Regexp) × (get_elem? ins k ≡ some i) × Targets n i
  get_elem?-Targets n k [] ts lt = absurd (omega arith)
  get_elem?-Targets n zero (i ∷ ins) ts lt = (i, refl, ts.0)
  get_elem?-Targets n (suc k) (i ∷ ins) ts lt = get_elem?-Targets n k ins ts.1 (omega arith)

  -- The instruction at `ip`, and where it goes.
  fetch :
      (ins : List (Instr Regexp)) (v : Vm)
      → IsSafe ins
      → v.ip < length ins
      → (i : Instr Regexp) × (get_elem? ins v.ip ≡ some i) × ((exec h i v).0.ip < length ins)
  fetch ins v safe here =
      let (i, e, ts) = get_elem?-Targets (length ins) v.ip ins safe.targets here in
      (i, e, exec-ip i v (length ins) ts safe.two here (next i e))
    where
      next :
          (i : Instr Regexp)
          → get_elem? ins v.ip ≡ some i
          → (v.ip + 1 < length ins) ⊎ (i ≡ branch 0)
      next i e = elim (dec_lt (v.ip + 1) (length ins)) [
        | yes p ↦ inl p
        | no p ↦ inr (cc (safe.last v.ip (omega arith)))
      ]

  proceed-Inside :
      (n : ℕ) (o : Outcome) (rest : Vm → Run)
      → o.0.ip < n
      → ((v : Vm) → v.ip < n → Inside n (rest v))
      → Inside n (proceed o rest)
  proceed-Inside n (v, none) rest here ih = ih v here
  proceed-Inside n (v, some e) rest here ih = here

  pub run-Inside :
      (fuel : ℕ) (ins : List (Instr Regexp)) (v : Vm)
      → IsSafe ins
      → v.ip < length ins
      → Inside (length ins) (run h fuel ins v)
  unfolding run
  run-Inside zero ins v safe here = here
  run-Inside (suc fuel) ins v safe here =
      let (i, e, there) = fetch ins v safe here in
      rw (e, run)
        (proceed-Inside (length ins) (exec h i v) (λ v'. run h fuel ins v') there
          (λ v' p. run-Inside fuel ins v' safe p))

  prepare-ip : (n m : ℕ) (v : Vm) → 0 < m → v.ip < m → (prepare h n v).0.ip < m
  unfolding prepare write_string
  prepare-ip n m v pos here = ground arith

  -- A call of `Read` on a safe program never indexes outside it, and leaves `ip` inside it for the
  -- next call, whatever the program, the input, the buffer and the steps taken.
  pub read-Inside :
      (fuel n : ℕ) (ins : List (Instr Regexp)) (v : Vm)
      → IsSafe ins
      → v.ip < length ins
      → Inside (length ins) (read h fuel ins n v)
  unfolding read
  read-Inside fuel n ins v safe here =
      let two = safe.two in
      proceed-Inside (length ins) (prepare h n v) (λ v'. run h fuel ins v')
        (prepare-ip n (length ins) v (omega arith) here) (λ v' p. run-Inside fuel ins v' safe p)
