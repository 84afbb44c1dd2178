-- ===== src/Goat/Answered.antt =====
-- What SendAtCommand takes from the bytes of a modem (goat/goat.go).
use gosutils.Prelude.{
  if_false, ℕ, ◌≡◌, ◌≢◌, refl, sym, ap, ◌∙◌, arith, List, [], ◌∷◌, ◌++◌, append_assoc, false, ◌==◌,
}
use gosutils.Prelude.Text.{Text, codes, All, HasNo}
use gosutils.Sutils.Inserted.{unlines}
use gosutils.Goat.Serial.{replace_pair, trim_suffix, trim_prefix, clean}

-- The lines of a response, each with its end, an empty one and OK.
abbrev pub response_rest : List Text → Text
response_rest [] = codes "\r\nOK\r\n"
response_rest (l ∷ ls) = l ++ b'\r' ∷ b'\n' ∷ response_rest ls

abbrev pub response : List Text → Text
response ls = b'\r' ∷ b'\n' ∷ response_rest ls

abbrev with_ends : List Text → Text
with_ends [] = codes "\nOK\n"
with_ends (l ∷ ls) = l ++ b'\n' ∷ with_ends ls

-- A line of a response: not empty, and without line ends.
abbrev pub IsPlain : Text → Type 0
IsPlain l = (l ≢ []) × HasNo b'\r' l × HasNo b'\n' l

replace_pair-append :
    (a b new : ℕ) (l t : Text)
    → HasNo a l
    → replace_pair a b new (l ++ t) ≡ l ++ replace_pair a b new t
unfolding replace_pair
replace_pair-append a b new [] t h = refl
replace_pair-append a b new (x ∷ []) [] h = refl
replace_pair-append a b new (x ∷ []) (y ∷ ys) h = ground arith
replace_pair-append a b new (x ∷ y ∷ xs) t h =
    ground (arith, replace_pair-append a b new (y ∷ xs) t h.1)

replace-response_rest :
    (ls : List Text)
    → All IsPlain ls
    → replace_pair b'\r' b'\n' b'\n' (response_rest ls) ≡ with_ends ls
unfolding replace_pair
replace-response_rest [] h = refl
replace-response_rest (l ∷ ls) h =
    replace_pair-append b'\r' b'\n' b'\n' l (b'\r' ∷ b'\n' ∷ response_rest ls) h.0.1
    ∙ ap (λ t. l ++ b'\n' ∷ t) (replace-response_rest ls h.1)

other : (c d : ℕ) → c ≢ d → c == d ≡ false
other c d h = ground arith

replace-with_ends :
    (ls : List Text)
    → All IsPlain ls
    → replace_pair b'\n' b'\n' b'\n' (b'\n' ∷ with_ends ls) ≡ b'\n' ∷ (unlines ls ++ codes "OK\n")
unfolding replace_pair unlines
replace-with_ends [] h = refl
replace-with_ends ([] ∷ ls) h = absurd (h.0.0 refl)
replace-with_ends ((c ∷ cs) ∷ ls) h =
    if_false _ _ (other c b'\n' h.0.2.0)
    ∙ ap (λ t. b'\n' ∷ t)
        (replace_pair-append b'\n' b'\n' b'\n' (c ∷ cs) (b'\n' ∷ with_ends ls) h.0.2
          ∙ ap (λ t. c ∷ cs ++ t) (replace-with_ends ls h.1)
          ∙ sym (append_assoc (c ∷ cs) (b'\n' ∷ unlines ls) (codes "OK\n")))

trim_suffix-append : (s t : Text) → t ≢ [] → trim_suffix (s ++ t) ≡ s ++ trim_suffix t
unfolding trim_suffix
trim_suffix-append [] t h = refl
trim_suffix-append (c ∷ []) [] h = absurd (h refl)
trim_suffix-append (c ∷ []) (d ∷ ds) h = refl
trim_suffix-append (c ∷ d ∷ s) t h = ap (λ l. c ∷ l) (trim_suffix-append (d ∷ s) t h)

pub clean-response :
    (ls : List Text) → All IsPlain ls → clean (response ls) ≡ unlines ls ++ codes "OK"
unfolding clean trim_suffix
clean-response ls h =
    ap (λ t. trim_prefix (trim_suffix (replace_pair b'\n' b'\n' b'\n' (b'\n' ∷ t))))
      (replace-response_rest ls h)
    ∙ ap (λ t. trim_prefix (trim_suffix t)) (replace-with_ends ls h)
    ∙ ap trim_prefix (trim_suffix-append (b'\n' ∷ unlines ls) (codes "OK\n") (λ e. cc))
