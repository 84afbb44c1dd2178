-- ===== src/Endec/Blocks.antt =====
-- The blocks of endec/d3des.go: what a loop over them does, another undoes.
use gosutils.Prelude.{
  ℕ, zero, suc, ◌*◌, ◌≡◌, refl, ap, arith, [], ◌∷◌, ◌++◌, length, length-append, length-take,
  length-drop, take-append-drop, take, drop,
}
use gosutils.Endec.Padding.{Bytes}
use gosutils.Endec.Des.{blocks}

pub take-append : (n : ℕ) (xs ys : Bytes) → length xs ≡ n → take n (xs ++ ys) ≡ xs
take-append zero [] ys h = refl
take-append zero (x ∷ xs) ys h = absurd (omega arith)
take-append (suc n) [] ys h = absurd (omega arith)
take-append (suc n) (x ∷ xs) ys h = ap (λ t. x ∷ t) (take-append n xs ys (omega arith))

drop-append : (n : ℕ) (xs ys : Bytes) → length xs ≡ n → drop n (xs ++ ys) ≡ ys
drop-append zero [] ys h = refl
drop-append zero (x ∷ xs) ys h = absurd (omega arith)
drop-append (suc n) [] ys h = absurd (omega arith)
drop-append (suc n) (x ∷ xs) ys h = drop-append n xs ys (omega arith)

module _ (f : Bytes → Bytes) (keeps : (b : Bytes) → length b ≡ 8 → length (f b) ≡ 8) where
  first-length : (n : ℕ) (text : Bytes) → length text ≡ 8 * suc n → length (take 8 text) ≡ 8
  first-length n text h = omega (arith, length-take 8 text)

  rest-length : (n : ℕ) (text : Bytes) → length text ≡ 8 * suc n → length (drop 8 text) ≡ 8 * n
  rest-length n text h = omega (arith, length-drop 8 text)

  pub length-blocks :
      (n : ℕ) (text : Bytes) → length text ≡ 8 * n → length (blocks n f text) ≡ 8 * n
  unfolding blocks
  length-blocks zero text h = omega arith
  length-blocks (suc n) text h = omega (
    arith,
    length-append (f (take 8 text)) (blocks n f (drop 8 text)),
    keeps (take 8 text) (first-length n text h),
    length-blocks n (drop 8 text) (rest-length n text h),
  )

  pub blocks-blocks :
      (g : Bytes → Bytes) (n : ℕ) (text : Bytes)
      → ((b : Bytes) → length b ≡ 8 → g (f b) ≡ b)
      → length text ≡ 8 * n
      → blocks n g (blocks n f text) ≡ text
  unfolding blocks
  blocks-blocks g zero [] back h = refl
  blocks-blocks g zero (x ∷ xs) back h = absurd (omega arith)
  blocks-blocks g (suc n) text back h =
      let one = take 8 text in
      let whole = keeps one (first-length n text h) in
      let more = blocks n f (drop 8 text) in
      rw (take-append 8 (f one) more whole, drop-append 8 (f one) more whole)
        (rw
          (
            back one (first-length n text h),
            blocks-blocks g n (drop 8 text) back (rest-length n text h),
          )
          (take-append-drop 8 text))
