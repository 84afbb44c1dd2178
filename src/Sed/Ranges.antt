-- ===== src/Sed/Ranges.antt =====
-- The two-address conditions of gosed/instructions.go, over the lines of an input.
use gosutils.Prelude.{
  ℕ, zero, suc, ◌≤◌, ◌<◌, ◌≡◌, arith, Bool, true, ◌&&◌, ◌==◌, if◌then◌else◌, ltb, leb, ap,
}
use gosutils.Sed.Host.{Host}
use gosutils.Sed.Vm.{Vm, Guard}
use gosutils.Sed.Conditions.{number, fresh, is_met, run_two_cond}

module _ (h : Host) where
  -- The state of a guard behind the lines 1 to `k`, where it is asked once on each.
  unfoldable pub guard_after : ℕ → ℕ → Vm → ℕ → Guard
  unfolding run_two_cond is_met
  guard_after first last v zero = fresh
  guard_after first last v (suc k) =
      (run_two_cond h (number first) (number last) (guard_after first last v k)
        (record v { started = true; lineno = suc k })).0

  -- Whether the range is on at the line after `k`.
  unfoldable pub on_line : ℕ → ℕ → Vm → ℕ → Bool
  unfolding guard_after
  on_line first last v k =
      (run_two_cond h (number first) (number last) (guard_after first last v k)
        (record v { started = true; lineno = suc k })).1

  -- The guard of `first,last` behind line `k`, where `first` is below `last`.
  abbrev guard_of : ℕ → ℕ → ℕ → Guard
  guard_of first last k =
      if ltb k first
      then fresh
      else if ltb k last
      then record { is_on = true; off_from = 0 }
      else if k == last
      then record { is_on = true; off_from = last }
      else fresh

  step-guard_of :
      (first last : ℕ) (v : Vm) (k : ℕ)
      → 1 ≤ first
      → first < last
      → run_two_cond h
          (number first)
          (number last)
          (guard_of first last k)
          (record v { started = true; lineno = suc k })
        ≡ (guard_of first last (suc k), leb first (suc k) && leb (suc k) last)
  unfolding run_two_cond is_met
  step-guard_of first last v k one lt = ground arith

  guard_after-guard_of :
      (first last : ℕ) (v : Vm) (k : ℕ)
      → 1 ≤ first
      → first < last
      → guard_after first last v k ≡ guard_of first last k
  unfolding guard_after
  guard_after-guard_of first last v zero one lt = ground arith
  guard_after-guard_of first last v (suc k) one lt =
      rw (guard_after, guard_after-guard_of first last v k one lt)
        (ap (λ p. p.0) (step-guard_of first last v k one lt))

  -- A range of two line numbers, the first below the last, asked once on each line from the first,
  -- is met on the lines from its first to its last and on no other.
  pub on_line-between :
      (first last : ℕ) (v : Vm) (k : ℕ)
      → 1 ≤ first
      → first < last
      → on_line first last v k ≡ (leb first (suc k) && leb (suc k) last)
  unfolding on_line
  on_line-between first last v k one lt =
      rw (on_line, guard_after-guard_of first last v k one lt)
        (ap (λ p. p.1) (step-guard_of first last v k one lt))

  -- Behind line `first`, where the last line number is not beyond `first`.
  abbrev endless : ℕ → ℕ → Guard
  endless first k = if ltb k first then fresh else record { is_on = true; off_from = 0 }

  step-endless :
      (first last : ℕ) (v : Vm) (k : ℕ)
      → 1 ≤ first
      → last ≤ first
      → run_two_cond h
          (number first)
          (number last)
          (endless first k)
          (record v { started = true; lineno = suc k })
        ≡ (endless first (suc k), leb first (suc k))
  unfolding run_two_cond is_met
  step-endless first last v k one le = ground arith

  guard_after-endless :
      (first last : ℕ) (v : Vm) (k : ℕ)
      → 1 ≤ first
      → last ≤ first
      → guard_after first last v k ≡ endless first k
  unfolding guard_after
  guard_after-endless first last v zero one le = ground arith
  guard_after-endless first last v (suc k) one le =
      rw (guard_after, guard_after-endless first last v k one le)
        (ap (λ p. p.0) (step-endless first last v k one le))

  -- A range of two line numbers, the last not above the first, is met on every line from its first
  -- on: the code looks for the last line from the line behind the first.
  pub on_line-endless :
      (first last : ℕ) (v : Vm) (k : ℕ)
      → 1 ≤ first
      → last ≤ first
      → on_line first last v k ≡ leb first (suc k)
  unfolding on_line
  on_line-endless first last v k one le =
      rw (on_line, guard_after-endless first last v k one le)
        (ap (λ p. p.1) (step-endless first last v k one le))
