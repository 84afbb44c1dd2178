-- ===== src/Sutils/TokenTests.antt =====
-- Runs of the tokens of sutils/sutils.go, and their theorem at a concrete token.
use gosutils.Prelude.{
  ℕ, zero, suc, ◌≡◌, refl, arith, true, false, List, [], ◌∷◌, map, if◌then◌else◌, ltb,
}
use gosutils.Prelude.Int.{ℤ, pos, negsuc, ◌+ℤ◌}
use gosutils.Prelude.Text.{Text, codes}
use gosutils.Prelude.Wrap.{wrap_64}
use gosutils.Sutils.Token.{
  digits, digit, format_int, int64_to_bytes, key_time, token_create, token_is_match,
}
use gosutils.Sutils.Mismatch.{NoCollision, token_is_match-token_create}

token_run :
    (token_create (λ s. s) (pos 1000) (pos 24) ≡ 4 ∷ 0 ∷ [])
    × (token_is_match (λ s. s) (pos 1000) (pos 24) (codes "1020") ≡ true)
    × (token_is_match (λ s. s) (pos 1000) (pos 24) (codes "1039") ≡ false)
unfolding token_create token_is_match
token_run = (refl, refl, refl)

-- A digest that many texts share: the bytes below those of a sign or a digit.
unfoldable low_bytes : Text → Text
low_bytes [] = []
low_bytes (c ∷ cs) = let rest = low_bytes cs in if ltb c b'-' then c ∷ rest else rest

digits_lost : (ds : List ℕ) → low_bytes (map digit ds) ≡ []
unfolding low_bytes
digits_lost [] = refl
digits_lost (d ∷ ds) = ground (arith, digits_lost ds)

number_lost : (z : ℤ) → low_bytes (format_int z) ≡ []
unfolding low_bytes format_int
number_lost (pos zero) = refl
number_lost (pos (suc n)) = digits_lost (digits 10 (suc n) (suc n) [])
number_lost (negsuc n) = digits_lost (digits 10 (suc n) (suc n) [])

no_collision :
    (i : ℤ)
    → NoCollision low_bytes
        (key_time (pos 1000) (pos 24))
        (wrap_64 (key_time (pos 1007) (pos 24) +ℤ i))
unfolding low_bytes int64_to_bytes ◌+ℤ◌ wrap_64
no_collision i e =
    let lost = number_lost (wrap_64 (key_time (pos 1007) (pos 24) +ℤ i)) in absurd (cc)

token_is_match-token_create_example :
    token_is_match low_bytes (pos 1007) (pos 24) (token_create low_bytes (pos 1000) (pos 24))
    ≡ false
unfolding ◌+ℤ◌
token_is_match-token_create_example =
    token_is_match-token_create low_bytes (pos 1000) (pos 1007) (pos 24)
      (λ i from to. no_collision i) (omega arith) (omega arith)
