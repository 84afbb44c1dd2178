-- ===== src/Unique/Front.antt =====
-- sutils/unique.go: ToFront and UniqueSorted, on the slice behind a sort.Interface. `less` compares
-- two elements; none is a panic, an index out of range.
use gosutils.Prelude.{
  ℕ, zero, suc, ◌+◌, ◌-◌, Bool, true, false, List, [], ◌∷◌, if◌then◌else◌, Option, none, some,
  length, take, get_elem?, set,
}

abbrev pub both {ℓ κ} :
    {A : Type ℓ} {B : Type κ} → Option A → Option A → (A → A → Option B) → Option B
both (some a) (some b) f = f a b
both _ _ f = none

abbrev pub and_then {ℓ κ} : {A : Type ℓ} {B : Type κ} → Option A → (A → Option B) → Option B
and_then none f = none
and_then (some a) f = f a

module _ {A : Type 0} (less : A → A → Bool) where
  abbrev pub less_at : List A → ℕ → ℕ → Option Bool
  less_at xs i j = both (get_elem? xs i) (get_elem? xs j) (λ a b. some (less a b))

  abbrev pub swap : List A → ℕ → ℕ → Option (List A)
  swap xs i j = both (get_elem? xs i) (get_elem? xs j) (λ a b. some (set (set xs i b) j a))

  -- The loop of `ToFront` with `todo` rounds left, at `k` and `i`.
  unfoldable pub front_loop : ℕ → List A → ℕ → ℕ → Option (List A × ℕ)
  front_loop zero xs k i = some (xs, k + 1)
  front_loop (suc todo) xs k i = and_then (less_at xs k i) (λ b.
      if b
      then and_then (swap xs (k + 1) i) (λ ys. front_loop todo ys (k + 1) (i + 1))
      else front_loop todo xs k (i + 1))

  unfoldable pub to_front : List A → Option (List A × ℕ)
  unfolding front_loop
  to_front [] = some ([], 0)
  to_front (x ∷ xs) = front_loop (length xs) (x ∷ xs) 0 1

  unfoldable pub unique_sorted : List A → Option (List A)
  unfolding to_front
  unique_sorted xs = and_then (to_front xs) (λ r. some (take r.1 r.0))

  -- The loop of `IsUniqued` from `i` down.
  unfoldable pub uniqued_from : ℕ → List A → Option Bool
  uniqued_from zero xs = some true
  uniqued_from (suc i) xs =
      let rest = uniqued_from i xs in
      and_then (less_at xs i (suc i)) (λ b. if b then rest else some false)

  unfoldable pub is_uniqued : List A → Option Bool
  unfolding uniqued_from
  is_uniqued xs = uniqued_from (length xs - 1) xs
