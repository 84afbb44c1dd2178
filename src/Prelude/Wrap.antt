-- ===== src/Prelude/Wrap.antt =====
-- Go's int64, as the integer that it stands for.
use gosutils.Prelude.{
  ℕ, ◌+◌, ◌-◌, ◌%◌, ◌^◌, ◌≤◌, ◌<◌, ◌≡◌, ◌⊎◌, inl, inr, ap, sym, ◌∙◌, arith, ltb, if◌then◌else◌,
}
use gosutils.Prelude.Int.{ℤ, pos, negsuc, pos_part, neg_part, ◌+ℤ◌, ◌≤ℤ◌, ≤ℤ_total, +ℤ_parts}

-- The 64 bits of an integer.
abbrev pub bits_64 : ℤ → ℕ
bits_64 z = (pos_part z + (2 ^ 64 - neg_part z % 2 ^ 64)) % 2 ^ 64

-- The int64 of 64 bits.
abbrev pub signed_64 : ℕ → ℤ
signed_64 n = if ltb n (2 ^ 63) then pos n else negsuc (2 ^ 64 - 1 - n)

-- The result of int64 arithmetic whose exact result is `z`.
unfoldable pub wrap_64 : ℤ → ℤ
wrap_64 z = signed_64 (bits_64 z)

bits-signed_64 : (n : ℕ) → n < 2 ^ 64 → bits_64 (signed_64 n) ≡ n
bits-signed_64 n h = ground arith

bits-lt : (z : ℤ) → bits_64 z < 2 ^ 64
bits-lt z = omega arith

bits-wrap_64 : (z : ℤ) → bits_64 (wrap_64 z) ≡ bits_64 z
unfolding wrap_64
bits-wrap_64 z = bits-signed_64 (bits_64 z) (bits-lt z)

bits-add : (a b : ℤ) → bits_64 (a +ℤ b) ≡ (bits_64 a + bits_64 b) % 2 ^ 64
bits-add a b = omega (arith, +ℤ_parts a b)

-- What a wrap-around in between has changed is lost behind the next.
pub wrap_64-add : (a b : ℤ) → wrap_64 (wrap_64 a +ℤ b) ≡ wrap_64 (a +ℤ b)
unfolding wrap_64
wrap_64-add a b = ap signed_64 (
    bits-add (wrap_64 a) b
    ∙ ap (λ n. (n + bits_64 b) % 2 ^ 64) (bits-wrap_64 a)
    ∙ sym (bits-add a b))

abbrev pub abs : ℤ → ℕ
abs z = pos_part z + neg_part z

abs-signed_64 :
    (k m n : ℕ)
    → m < 2 ^ 64
    → n < 2 ^ 64
    → (m ≡ (n + k) % 2 ^ 64) ⊎ (n ≡ (m + k) % 2 ^ 64)
    → abs (signed_64 m) ≤ abs (signed_64 n) + k
abs-signed_64 k m n hm hn h = ground arith

bits-near :
    (k : ℕ) (a b : ℤ)
    → a ≤ℤ (b +ℤ pos k)
    → b ≤ℤ (a +ℤ pos k)
    → (j : ℕ) × (j ≤ k)
      × ((bits_64 a ≡ (bits_64 b + j) % 2 ^ 64) ⊎ (bits_64 b ≡ (bits_64 a + j) % 2 ^ 64))
bits-near k a b low high = elim (≤ℤ_total a b) [
  | inl le ↦
      let j = pos_part b + neg_part a - (pos_part a + neg_part b) in
      (j, omega (arith, +ℤ_parts a (pos k)), inr (omega arith))
  | inr le ↦
      let j = pos_part a + neg_part b - (pos_part b + neg_part a) in
      (j, omega (arith, +ℤ_parts b (pos k)), inl (omega arith))
]

-- Numbers that are near each other stay so in absolute value, also across the wrap-around.
pub abs-wrap_64 :
    (k : ℕ) (a b : ℤ)
    → a ≤ℤ (b +ℤ pos k)
    → b ≤ℤ (a +ℤ pos k)
    → abs (wrap_64 a) ≤ abs (wrap_64 b) + k
unfolding wrap_64
abs-wrap_64 k a b low high =
    let (j, le, close) = bits-near k a b low high in
    let near = abs-signed_64 j (bits_64 a) (bits_64 b) (bits-lt a) (bits-lt b) close in
    omega (arith, near, le)
