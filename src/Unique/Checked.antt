-- ===== src/Unique/Checked.antt =====
-- IsUniqued of sutils/unique.go on what UniqueSorted leaves.
use gosutils.Prelude.{
  ℕ, zero, suc, ◌<◌, ◌≡◌, refl, arith, ap, ◌∙◌, Bool, true, List, [], ◌∷◌, some, length, inl, inr,
  Bool-cases, sym, subst,
}
use gosutils.Unique.Front.{and_then, less_at, uniqued_from, is_uniqued, unique_sorted}
use gosutils.Unique.Runs.{kept_after, runs, kept_after-above, kept_after-same, unique_sorted-runs}

module _ {A : Type 0} (less : A → A → Bool) where
  -- Each element is below the next.
  abbrev Rises : List A → Type 0
  Rises xs = (i : ℕ) → suc i < length xs → less_at less xs i (suc i) ≡ some true

  Rises-cons : (x y : A) (ys : List A) → less x y ≡ true → Rises (y ∷ ys) → Rises (x ∷ y ∷ ys)
  Rises-cons x y ys e rises zero lt = rw e refl
  Rises-cons x y ys e rises (suc i) lt = rises i (omega arith)

  kept_after-Rises : (x : A) (xs : List A) → Rises (x ∷ kept_after less x xs)
  kept_after-Rises x [] = λ i lt. absurd (omega arith)
  kept_after-Rises x (y ∷ ys) = elim (Bool-cases (less x y)) [
    | inl e ↦
        subst (λ l. Rises (x ∷ l)) (sym (kept_after-above less x y ys e))
          (Rises-cons x y (kept_after less y ys) e (kept_after-Rises y ys))
    | inr e ↦
        subst (λ l. Rises (x ∷ l)) (sym (kept_after-same less x y ys e)) (kept_after-Rises x ys)
  ]

  uniqued_from-Rises :
      (xs : List A) (i : ℕ) → Rises xs → i < length xs → uniqued_from less i xs ≡ some true
  unfolding uniqued_from
  uniqued_from-Rises xs zero rises lt = refl
  uniqued_from-Rises xs (suc i) rises lt =
      rw (uniqued_from, rises i lt) (uniqued_from-Rises xs i rises (omega arith))

  runs-uniqued : (xs : List A) → is_uniqued less (runs less xs) ≡ some true
  unfolding is_uniqued uniqued_from
  runs-uniqued [] = refl
  runs-uniqued (x ∷ xs) =
      uniqued_from-Rises (x ∷ kept_after less x xs) _ (kept_after-Rises x xs) (omega arith)

  -- IsUniqued holds of what UniqueSorted leaves, of any slice.
  is_uniqued-unique_sorted :
      (xs : List A) → and_then (unique_sorted less xs) (is_uniqued less) ≡ some true
  is_uniqued-unique_sorted xs =
      ap (λ r. and_then r (is_uniqued less)) (unique_sorted-runs less xs) ∙ runs-uniqued xs
