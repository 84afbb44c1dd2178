-- ===== src/Prelude/Text.antt =====
-- Text as a list of code points, and the searches of Go's strings package that the code uses.
use Prim.Native.Char.{code}
use Prim.Native.String.{String}
use gosutils.Prelude.{
  ℕ, ◌≡◌, ◌≢◌, refl, arith, Bool, true, false, ◌||◌, ◌&&◌, List, [], ◌∷◌, ◌++◌, ◌==◌, leb,
  if◌then◌else◌,
}

abbrev pub Text : Type 0
Text = List ℕ

-- The code points of a literal; every literal below is ASCII.
abbrev pub codes : String → Text
codes String.[] = []
codes (String.◌∷◌ c s) = code c ∷ codes s

-- strings.ContainsRune on the text of a constant.
abbrev pub contains_rune : Text → ℕ → Bool
contains_rune [] c = false
contains_rune (x ∷ xs) c = c == x || contains_rune xs c

abbrev pub is_empty {ℓ} : {A : Type ℓ} → List A → Bool
is_empty [] = true
is_empty (x ∷ xs) = false

pub is_empty-append : {A : Type 0} (s : List A) (c : A) (t : List A) → is_empty (s ++ c ∷ t) ≡ false
is_empty-append [] c t = refl
is_empty-append (d ∷ s) c t = refl

-- unicode.IsSpace on ASCII.
abbrev pub is_white_space : ℕ → Bool
is_white_space c = (leb 9 c && leb c 13) || c == b' '

-- bufio takes "\r\n" for a line end too: the line without its "\r".
abbrev pub drop_return : Text → Text
drop_return [] = []
drop_return (c ∷ []) = if c == b'\r' then [] else c ∷ []
drop_return (c ∷ d ∷ ds) = c ∷ drop_return (d ∷ ds)

-- Equality of strings, by their code points.
unfoldable pub text_eq : Text → Text → Bool
text_eq [] [] = true
text_eq [] (y ∷ ys) = false
text_eq (x ∷ xs) [] = false
text_eq (x ∷ xs) (y ∷ ys) = x == y && text_eq xs ys

pub text_eq→eq : (s t : Text) → text_eq s t ≡ true → s ≡ t
unfolding text_eq
text_eq→eq [] [] h = refl
text_eq→eq [] (y ∷ ys) h = cc
text_eq→eq (x ∷ xs) [] h = cc
text_eq→eq (x ∷ xs) (y ∷ ys) h = ground (arith, text_eq→eq xs ys)

pub text_eq_refl : (s : Text) → text_eq s s ≡ true
unfolding text_eq
text_eq_refl [] = refl
text_eq_refl (x ∷ xs) = ground (arith, text_eq_refl xs)

-- Every element has the property.
abbrev pub All {ℓ κ} : {A : Type ℓ} → (A → Type κ) → List A → Type κ
All P [] = Unit
All P (x ∷ xs) = P x × All P xs

-- The character stands nowhere in the text.
abbrev pub HasNo : ℕ → Text → Type 0
HasNo a t = All (λ c. c ≢ a) t

pub HasNo-append : (a : ℕ) (s t : Text) → HasNo a s → HasNo a t → HasNo a (s ++ t)
HasNo-append a [] t h k = k
HasNo-append a (c ∷ s) t h k = (h.0, HasNo-append a s t h.1 k)
