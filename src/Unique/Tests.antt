-- ===== src/Unique/Tests.antt =====
-- Runs of sutils/unique.go at concrete slices, and its theorems at concrete slices.
use gosutils.Prelude.{ℕ, ◌≡◌, refl, false, List, [], ◌∷◌, some, ltb}
use gosutils.Unique.Front.{unique_sorted, is_uniqued}
use gosutils.Unique.Runs.{unique_sorted-runs}

abbrev numbers : List ℕ
numbers = 1 ∷ 1 ∷ 2 ∷ 4 ∷ 4 ∷ 4 ∷ 7 ∷ []

unique_sorted_run : unique_sorted ltb numbers ≡ some (1 ∷ 2 ∷ 4 ∷ 7 ∷ [])
unfolding unique_sorted
unique_sorted_run = refl

is_uniqued_run : is_uniqued ltb numbers ≡ some false
unfolding is_uniqued
is_uniqued_run = refl

unique_sorted-runs_example : unique_sorted ltb numbers ≡ some (1 ∷ 2 ∷ 4 ∷ 7 ∷ [])
unique_sorted-runs_example = unique_sorted-runs ltb numbers
