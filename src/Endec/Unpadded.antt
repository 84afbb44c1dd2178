-- ===== src/Endec/Unpadded.antt =====
-- Pkcs7Unpadding of endec/aes.go on what Pkcs7Padding made.
use gosutils.Prelude.{
  take-append, drop-append, ℕ, zero, suc, ◌+◌, ◌-◌, ◌%◌, ◌^◌, ◌≤◌, ◌<◌, ◌≡◌, ◌≢◌, refl, arith, ap,
  ◌∙◌, true, false, [], ◌∷◌, ◌++◌, ◌==◌, some, length, take, drop, replicate, length-append,
  length-replicate, ℕ_discrete,
}
use gosutils.Endec.Padding.{
  Bytes, missing, pkcs7_padding, last_byte, all_are, strip, pkcs7_unpadding,
}

last_byte-append : (xs ys : Bytes) (y : ℕ) → last_byte (xs ++ y ∷ ys) ≡ last_byte (y ∷ ys)
last_byte-append [] ys y = refl
last_byte-append (x ∷ []) ys y = refl
last_byte-append (x ∷ z ∷ zs) ys y = last_byte-append (z ∷ zs) ys y

last_byte-replicate : (k c : ℕ) → last_byte (replicate (suc k) c) ≡ some c
last_byte-replicate zero c = refl
last_byte-replicate (suc k) c = last_byte-replicate k c

all_are-replicate : (k c : ℕ) → all_are c (replicate k c) ≡ true
all_are-replicate zero c = refl
all_are-replicate (suc k) c = ground (arith, all_are-replicate k c)

unpadding-last :
    (input : Bytes) (p : ℕ)
    → last_byte input ≡ some p
    → pkcs7_unpadding input [] ≡ strip input p 256
unfolding pkcs7_unpadding
unpadding-last input p e = rw (pkcs7_unpadding, e) refl

strip-take :
    (input : Bytes) (p : ℕ)
    → p < 256
    → p < length input
    → all_are p (drop (length input - p) input) ≡ true
    → strip input p 256 ≡ take (length input - p) input
unfolding strip
strip-take input p lt inside same = ground arith

-- `k` bytes of value `k` are taken off again.
pub unpadding-replicate :
    (xs : Bytes) (k : ℕ)
    → 1 ≤ k
    → k < 256
    → 1 ≤ length xs
    → pkcs7_unpadding (xs ++ replicate k k) [] ≡ xs
unpadding-replicate xs zero one lt some_byte = absurd (omega arith)
unpadding-replicate xs (suc k) one lt some_byte =
    let c = suc k in
    let padded = xs ++ replicate c c in
    let size : length padded - c ≡ length xs =
      omega (arith, length-append xs (replicate c c), length-replicate c c) in
    let last : last_byte padded ≡ some c =
      last_byte-append xs (replicate k c) c ∙ last_byte-replicate k c in
    let same : all_are c (drop (length padded - c) padded) ≡ true =
      rw (size, drop-append xs (replicate c c)) (all_are-replicate c c) in
    unpadding-last padded c last
    ∙ strip-take padded c lt (omega (arith, size)) same
    ∙ ap (λ n. take n padded) size
    ∙ take-append xs (replicate c c)

-- A byte of value 1 at the end is taken off, padding or not.
pub unpadding-one : (xs : Bytes) → 1 ≤ length xs → pkcs7_unpadding (xs ++ 1 ∷ []) [] ≡ xs
unpadding-one xs some_byte = unpadding-replicate xs 1 (omega arith) (omega arith) some_byte

pub padding-partial :
    (xs : Bytes)
    → length xs % 16 ≢ 0
    → pkcs7_padding xs 16 ≡ xs ++ replicate (missing xs 16) (missing xs 16)
unfolding pkcs7_padding
padding-partial xs part =
    let off : (missing xs 16 == 16) ≡ false = ground arith in
    let byte : missing xs 16 % 2 ^ 8 ≡ missing xs 16 = omega arith in
    rw (pkcs7_padding, off) (ap (λ n. xs ++ replicate (missing xs 16) n) byte)

pub padding-full : (xs : Bytes) → length xs % 16 ≡ 0 → pkcs7_padding xs 16 ≡ xs
unfolding pkcs7_padding
padding-full xs full = ground arith

-- What is padded to blocks of 16 bytes fills them, with less than 16 bytes added.
pub length-pkcs7_padding :
    (xs : Bytes)
    → (length (pkcs7_padding xs 16) % 16 ≡ 0) × (length (pkcs7_padding xs 16) < length xs + 16)
length-pkcs7_padding xs = elim (ℕ_discrete (length xs % 16) 0) [
  | yes full ↦ rw (padding-full xs full) (full, omega arith)
  | no part ↦
      let k = missing xs 16 in
      let size : length (xs ++ replicate k k) ≡ length xs + k =
        omega (arith, length-append xs (replicate k k), length-replicate k k) in
      rw (padding-partial xs part, size) (omega arith, omega arith)
]
