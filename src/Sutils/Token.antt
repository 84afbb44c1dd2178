-- ===== src/Sutils/Token.antt =====
-- sutils/sutils.go: Int64ToBytes, TokenCreate and TokenIsMatch. `sha1` is crypto/sha1 with the hex
-- digits of encoding/hex, and `now` is time.Now().Unix().
use gosutils.Prelude.{
  ℕ, zero, suc, ◌+◌, ◌/◌, ◌%◌, Bool, false, ◌||◌, List, [], ◌∷◌, ◌==◌, if◌then◌else◌, map,
}
use gosutils.Prelude.Int.{ℤ, pos, negsuc, ◌+ℤ◌}
use gosutils.Prelude.Text.{Text, text_eq}
use gosutils.Prelude.Wrap.{wrap_64, abs}

-- The digits of a number to a base, the first one first, in front of those of `acc`: the fuel is at
-- least the number.
unfoldable pub digits : ℕ → ℕ → ℕ → List ℕ → List ℕ
digits base zero n acc = acc
digits base (suc fuel) n acc =
    let rest = digits base fuel (n / base) ((n % base) ∷ acc) in if n == 0 then acc else rest

-- big.Int's Bytes: the bytes of the absolute value.
unfoldable pub int64_to_bytes : ℤ → Text
unfolding digits
int64_to_bytes number = digits 256 (abs number) (abs number) []

-- strconv.FormatInt with base 10.
abbrev pub digit : ℕ → ℕ
digit d = d + b'0'

unfoldable pub format_int : ℤ → Text
unfolding digits
format_int (pos zero) = b'0' ∷ []
format_int (pos (suc n)) = map digit (digits 10 (suc n) (suc n) [])
format_int (negsuc n) = b'-' ∷ map digit (digits 10 (suc n) (suc n) [])

abbrev pub or_default : ℤ → ℤ
or_default (pos zero) = pos 1985
or_default key = key

-- `time.Now().Unix() + int64(key)`.
abbrev pub key_time : ℤ → ℤ → ℤ
key_time now key = wrap_64 (now +ℤ or_default key)

module _ (sha1 : Text → Text) where
  -- `TokenCreate`.
  unfoldable pub token_create : ℤ → ℤ → Text
  unfolding int64_to_bytes ◌+ℤ◌ wrap_64
  token_create now key = sha1 (int64_to_bytes (key_time now key))

  -- The loop of `TokenIsMatch`, `count` rounds from `i` on.
  unfoldable pub is_match_from : ℕ → ℤ → ℤ → Text → Bool
  unfolding format_int text_eq ◌+ℤ◌ wrap_64
  is_match_from zero i nowtimestam token = false
  is_match_from (suc count) i nowtimestam token =
      text_eq token (sha1 (format_int (wrap_64 (nowtimestam +ℤ i))))
      || is_match_from count (i +ℤ pos 1) nowtimestam token

  -- `TokenIsMatch`: `i` goes from -15 to 14.
  unfoldable pub token_is_match : ℤ → ℤ → Text → Bool
  unfolding is_match_from ◌+ℤ◌ wrap_64
  token_is_match now key token = is_match_from 30 (negsuc 14) (key_time now key) token
