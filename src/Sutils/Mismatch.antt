-- ===== src/Sutils/Mismatch.antt =====
-- TokenIsMatch refuses what TokenCreate makes (sutils/sutils.go).
use gosutils.Prelude.{
  ℕ, zero, suc, ◌+◌, ◌*◌, ◌/◌, ◌%◌, ◌≤◌, ◌<◌, ◌≡◌, ◌≢◌, refl, sym, ap, ◌∙◌, arith, false, List, [],
  ◌∷◌, map, Bool-cases, inl, inr, ℕ_discrete,
}
use native.Mathlib.Nat.{div-add-mod', div-lt_self}
use gosutils.Prelude.Int.{ℤ, pos, negsuc, ◌+ℤ◌, ◌≤ℤ◌, int_laws}
use gosutils.Prelude.Text.{Text, text_eq, text_eq→eq}
use gosutils.Prelude.Wrap.{wrap_64, wrap_64-add, abs, abs-wrap_64}
use gosutils.Sutils.Token.{
  digits, key_time, int64_to_bytes, digit, format_int, or_default, token_create, is_match_from,
  token_is_match,
}

-- The number that digits stand for, behind those read before.
value : ℕ → ℕ → List ℕ → ℕ
value base a [] = a
value base a (d ∷ ds) = value base (a * base + d) ds

value-digits :
    (base fuel n : ℕ) (acc : List ℕ)
    → 1 < base
    → n ≤ fuel
    → value base 0 (digits base fuel n acc) ≡ value base n acc
unfolding digits value
value-digits base zero n acc b le = ap (λ k. value base k acc) (omega arith)
value-digits base (suc fuel) n acc b le = elim (ℕ_discrete n 0) [
  | yes z ↦ rw z refl
  | no p ↦
      let half : n / base < n = div-lt_self (omega arith) b in
      let ih = value-digits base fuel (n / base) (n % base ∷ acc) b (omega arith) in
      ground (arith, ih, ap (λ k. value base k acc) (div-add-mod' n base))
]

-- Decimal characters, read as bytes, stand for more than the number that they show.
value-digit : (a b : ℕ) (ds : List ℕ) → b + 45 ≤ a → value 10 b ds + 45 ≤ value 256 a (map digit ds)
unfolding value
value-digit a b [] h = h
value-digit a b (d ∷ ds) h = value-digit (a * 256 + (d + b'0')) (b * 10 + d) ds (omega arith)

-- The first digit stands for itself with 48 more.
value-first : (ds : List ℕ) → ds ≢ [] → value 10 0 ds + 45 ≤ value 256 0 (map digit ds)
unfolding value
value-first [] h = absurd (h refl)
value-first (d ∷ ds) h = value-digit (0 * 256 + (d + b'0')) (0 * 10 + d) ds (omega arith)

-- The decimal digits of a number that is not 0.
abbrev decimal : ℕ → List ℕ
decimal n = digits 10 (suc n) (suc n) []

value-decimal : (n : ℕ) → value 10 0 (decimal n) ≡ suc n
value-decimal n = unfold value in value-digits 10 (suc n) (suc n) [] (omega arith) (omega arith)

decimal-ne-nil : (n : ℕ) → decimal n ≢ []
decimal-ne-nil n e =
    let v : value 10 0 [] ≡ suc n = sym (ap (value 10 0) e) ∙ value-decimal n in
    unfold value in absurd (omega (arith, v))

-- A text whose bytes are those of a number shows a number far below it.
format_int-far : (z : ℤ) → abs z + 45 ≤ value 256 0 (format_int z)
unfolding format_int
format_int-far (pos zero) = unfold value in omega arith
format_int-far (pos (suc n)) =
    omega (arith, value-decimal n, value-first (decimal n) (decimal-ne-nil n))
format_int-far (negsuc n) =
    unfold value in omega (arith, value-decimal n, value-digit 45 0 (decimal n) (omega arith))

value-int64_to_bytes : (z : ℤ) → value 256 0 (int64_to_bytes z) ≡ abs z
unfolding int64_to_bytes
value-int64_to_bytes z =
    unfold value in value-digits 256 (abs z) (abs z) [] (omega arith) (omega arith)

bytes-ne-format_int : (a b : ℤ) → abs a ≤ abs b + 44 → int64_to_bytes a ≢ format_int b
bytes-ne-format_int a b h e =
    absurd (omega (arith, h, format_int-far b, value-int64_to_bytes a, ap (value 256 0) e))

-- At most `k` apart.
abbrev Near : ℕ → ℤ → ℤ → Type 0
Near k a b = (a ≤ℤ (b +ℤ pos k)) × (b ≤ℤ (a +ℤ pos k))

-- The two sums of a token's check stay near each other, whatever wraps round.
candidate-Near :
    (now later key i : ℤ)
    → Near 15 now later
    → Near 15 i (pos 0)
    → abs (key_time now key) ≤ abs (wrap_64 (key_time later key +ℤ i)) + 44
candidate-Near now later key i close small =
    let sum = wrap_64-add (later +ℤ or_default key) i in
    let near =
      abs-wrap_64 30 (now +ℤ or_default key) (later +ℤ or_default key +ℤ i) (omega int_laws)
        (omega int_laws) in
    omega (arith, near, ap abs sum)

module _ (sha1 : Text → Text) where
  -- If the digest of the bytes of `n` is that of the digits of `z`, they are the same text.
  abbrev pub NoCollision : ℤ → ℤ → Type 0
  NoCollision n z = sha1 (int64_to_bytes n) ≡ sha1 (format_int z) → int64_to_bytes n ≡ format_int z

  text_eq-format_int :
      (n z : ℤ)
      → NoCollision n z
      → abs n ≤ abs z + 44
      → text_eq (sha1 (int64_to_bytes n)) (sha1 (format_int z)) ≡ false
  text_eq-format_int n z free near =
      elim (Bool-cases (text_eq (sha1 (int64_to_bytes n)) (sha1 (format_int z)))) [
        | inl e ↦ absurd (bytes-ne-format_int n z near (free (text_eq→eq _ _ e)))
        | inr e ↦ e
      ]

  is_match_from-false :
      (count : ℕ) (now later key i : ℤ)
      → ((j : ℤ)
          → i ≤ℤ j
          → j ≤ℤ pos 14
          → NoCollision (key_time now key) (wrap_64 (key_time later key +ℤ j)))
      → Near 15 now later
      → negsuc 14 ≤ℤ i
      → (i +ℤ pos count) ≤ℤ pos 15
      → is_match_from sha1 count i (key_time later key) (sha1 (int64_to_bytes (key_time now key)))
        ≡ false
  unfolding is_match_from
  is_match_from-false zero now later key i free close low high = refl
  is_match_from-false (suc count) now later key i free close low high =
      rw
        (text_eq-format_int (key_time now key) (wrap_64 (key_time later key +ℤ i))
          (free i (omega int_laws) (omega int_laws))
          (candidate-Near now later key i close (omega int_laws, omega int_laws)))
        (is_match_from-false count now later key (i +ℤ pos 1)
          (λ j from to. free j (omega int_laws) to) close (omega int_laws) (omega int_laws))

  -- A token that TokenCreate made with a key is refused by TokenIsMatch with that key, at any moment of
  -- the 15 seconds before and behind: the one takes the digest of the bytes of a number, the other of
  -- its decimal digits. It is assumed of the digests that TokenIsMatch compares, which are those of 30
  -- numbers, that none is the digest of those bytes unless the digits are the same text.
  pub token_is_match-token_create :
      (now later key : ℤ)
      → ((i : ℤ)
          → negsuc 14 ≤ℤ i
          → i ≤ℤ pos 14
          → NoCollision (key_time now key) (wrap_64 (key_time later key +ℤ i)))
      → now ≤ℤ (later +ℤ pos 15)
      → later ≤ℤ (now +ℤ pos 15)
      → token_is_match sha1 later key (token_create sha1 now key) ≡ false
  unfolding token_is_match token_create
  token_is_match-token_create now later key free before behind =
      is_match_from-false 30 now later key (negsuc 14) free (before, behind) (omega arith)
        (omega int_laws)
