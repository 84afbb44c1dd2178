-- ===== src/Sutils/Strings.antt =====
-- sutils/sutils.go: ArgsGet, StringDuplicate, UniqueI, SlideHasElement and SlideHasElementInStrings,
-- and JoinMap.
use gosutils.Prelude.{
  ℕ, zero, suc, Bool, true, false, List, [], ◌∷◌, ◌++◌, if◌then◌else◌, Option, none, some,
  get_elem?,
}
use gosutils.Prelude.Int.{ℤ, pos, negsuc}
use gosutils.Prelude.Text.{Text}

-- `ArgsGet`: none is the panic of an index below 0.
unfoldable pub args_get : ℤ → List Text → Option Text
args_get (negsuc n) args = none
args_get (pos n) args = elim (get_elem? args n) [ none ↦ some [] | some a ↦ some a ]

-- `StringDuplicate`.
unfoldable pub string_duplicate : Text → ℕ → Text
string_duplicate s zero = []
string_duplicate s (suc n) = string_duplicate s n ++ s

module _ {ℓ} {K : Type ℓ} (eq : K → K → Bool) where
  -- `SlideHasElement`, and `SlideHasElementInStrings` with the equality of strings.
  unfoldable pub slide_has_element : List K → K → Bool
  slide_has_element [] b = false
  slide_has_element (v ∷ s) b = let rest = slide_has_element s b in if eq v b then true else rest

  -- The loop of `UniqueI`: `keys` holds the keys of its map.
  unfoldable pub unique_loop : List K → List K → List K
  unfolding slide_has_element
  unique_loop keys [] = []
  unique_loop keys (entry ∷ entries) =
      let old = unique_loop keys entries in
      let new = unique_loop (entry ∷ keys) entries in
      if slide_has_element keys entry then old else entry ∷ new

  unfoldable pub unique_i : List K → List K
  unfolding unique_loop
  unique_i entries = unique_loop [] entries

  -- A map as the list of its pairs, where the first pair of a key counts.
  unfoldable pub lookup {κ} : {V : Type κ} → K → List (K × V) → Option V
  lookup k [] = none
  lookup k ((j, v) ∷ m) = let rest = lookup k m in if eq j k then some v else rest

  -- `JoinMap`: the pairs of the second map are written into the first.
  unfoldable pub join_map {κ} : {V : Type κ} → List (K × V) → List (K × V) → List (K × V)
  join_map m1 [] = m1
  join_map m1 ((k, v) ∷ m2) = join_map ((k, v) ∷ m1) m2
