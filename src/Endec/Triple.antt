-- ===== src/Endec/Triple.antt =====
-- TripleEcbDesDecrypt undoes TripleEcbDesEncrypt (endec/d3des.go).
use gosutils.Prelude.{
  ℕ, zero, suc, ◌+◌, ◌-◌, ◌*◌, ◌/◌, ◌%◌, ◌≤◌, ◌<◌, ◌≡◌, refl, ap, ◌∙◌, arith, true, false, [], ◌∷◌,
  ◌++◌, ◌==◌, some, length, length-append, length-take, length-drop, length-replicate, drop,
  replicate, ltb,
}
use gosutils.Endec.Padding.{Bytes, last_byte}
use gosutils.Endec.Des.{
  Des, IsDes, ok, pkcs5_padding, cut, pkcs5_unpadding, blocks, on_blocks, des_encrypt, des_decrypt,
  tkey, k1, k2, k3, triple_ecb_des_encrypt, triple_ecb_des_decrypt,
}
use gosutils.Endec.Blocks.{take-append, length-blocks, blocks-blocks}

length-padded :
    (text : Bytes)
    → (k : ℕ) × (0 < k)
      × (k ≤ 8)
      × (length (pkcs5_padding text 8) ≡ length text + k)
      × (length (pkcs5_padding text 8) % 8 ≡ 0)
unfolding pkcs5_padding
length-padded text =
    let k = 8 - length text % 8 in
    let pad = replicate k (k % 256) in
    let l = length-append text pad in
    let r = length-replicate k (k % 256) in
    (k, omega arith, omega arith, omega (arith, l, r), omega (arith, l, r))

last_byte-replicate : (xs : Bytes) (n v : ℕ) → last_byte (xs ++ replicate (suc n) v) ≡ some v
last_byte-replicate [] zero v = refl
last_byte-replicate [] (suc n) v = last_byte-replicate [] n v
last_byte-replicate (x ∷ []) n v = last_byte-replicate [] n v
last_byte-replicate (x ∷ y ∷ xs) n v = last_byte-replicate (y ∷ xs) n v

last_byte-padded : (xs : Bytes) (k v : ℕ) → 0 < k → last_byte (xs ++ replicate k v) ≡ some v
last_byte-padded xs zero v h = absurd (omega arith)
last_byte-padded xs (suc k) v h = last_byte-replicate xs k v

cut-padded :
    (text : Bytes) (k v : ℕ)
    → 0 < k
    → v ≡ k
    → cut (text ++ replicate k v) (last_byte (text ++ replicate k v)) ≡ ok text
cut-padded text k v h e =
    let pad = replicate k v in
    let l = length-append text pad in
    let r = length-replicate k v in
    let room : ltb (length (text ++ pad)) v ≡ false = ground (arith, l, r) in
    let left : length (text ++ pad) - v ≡ length text = omega (arith, l, r) in
    rw (last_byte-padded text k v h, room, left) (ap ok (take-append (length text) text pad refl))

-- What is padded for blocks of 8 bytes is given back.
unpadding-padding : (text : Bytes) → pkcs5_unpadding (pkcs5_padding text 8) ≡ ok text
unfolding pkcs5_unpadding pkcs5_padding
unpadding-padding text =
    let k = 8 - length text % 8 in cut-padded text k (k % 256) (omega arith) (omega arith)

module _ (c : Des) (is : IsDes c) where
  on_blocks-ok :
      (f : Bytes → Bytes) (n : ℕ) (text key : Bytes)
      → length text ≡ 8 * suc n
      → length key ≡ 8
      → on_blocks c f text key ≡ ok (blocks (suc n) f text)
  unfolding on_blocks
  on_blocks-ok f n text key h k =
      let some_text : ltb (length text) 1 ≡ false = ground arith in
      let some_key : ltb (length key) 1 ≡ false = ground arith in
      let whole : (length text % 8 == 0) ≡ true = ground arith in
      let count : length text / 8 ≡ suc n = omega arith in
      rw (some_text, some_key, is.takes key k, whole, count) refl

  encrypt-ok :
      (n : ℕ) (text key : Bytes)
      → length text ≡ 8 * suc n
      → length key ≡ 8
      → des_encrypt c text key ≡ ok (blocks (suc n) (c.encrypt_block key) text)
  unfolding des_encrypt
  encrypt-ok n text key h k = on_blocks-ok (c.encrypt_block key) n text key h k

  decrypt-ok :
      (n : ℕ) (text key : Bytes)
      → length text ≡ 8 * suc n
      → length key ≡ 8
      → des_decrypt c text key ≡ ok (blocks (suc n) (c.decrypt_block key) text)
  unfolding des_decrypt
  decrypt-ok n text key h k = on_blocks-ok (c.decrypt_block key) n text key h k

  module _ (key : Bytes) where
    length-tkey : length (tkey c key) ≡ 24
    length-tkey = omega (
      arith,
      length-take 24 (key ++ replicate 24 0),
      length-append key (replicate 24 0),
      length-replicate {0} {A = ℕ} 24 0,
    )

    length-k1 : length (k1 c key) ≡ 8
    length-k1 = omega (arith, length-tkey, length-take 8 (tkey c key))

    length-k2 : length (k2 c key) ≡ 8
    length-k2 =
        omega (arith, length-tkey, length-take 8 (drop 8 (tkey c key)), length-drop 8 (tkey c key))

    length-k3 : length (k3 c key) ≡ 8
    length-k3 = omega (arith, length-tkey, length-drop 16 (tkey c key))

    module _ (n : ℕ) where
      -- The text behind each of the six calls.
      abbrev once : Bytes → Bytes
      once p = blocks (suc n) (c.encrypt_block (k1 c key)) p

      abbrev twice : Bytes → Bytes
      twice p = blocks (suc n) (c.decrypt_block (k2 c key)) (once p)

      abbrev thrice : Bytes → Bytes
      thrice p = blocks (suc n) (c.encrypt_block (k3 c key)) (twice p)

      module _ (p : Bytes) (h : length p ≡ 8 * suc n) where
        length-once : length (once p) ≡ 8 * suc n
        length-once =
            length-blocks (c.encrypt_block (k1 c key)) (is.encrypted (k1 c key)) (suc n) p h

        length-twice : length (twice p) ≡ 8 * suc n
        length-twice =
            length-blocks (c.decrypt_block (k2 c key)) (is.decrypted (k2 c key)) (suc n) (once p)
              length-once

        length-thrice : length (thrice p) ≡ 8 * suc n
        length-thrice =
            length-blocks (c.encrypt_block (k3 c key)) (is.encrypted (k3 c key)) (suc n) (twice p)
              length-twice

        encrypt-thrice :
            (text : Bytes)
            → pkcs5_padding text 8 ≡ p
            → triple_ecb_des_encrypt c text key ≡ ok (thrice p)
        unfolding triple_ecb_des_encrypt
        encrypt-thrice text e =
            rw
              (
                is.takes (k1 c key) length-k1,
                e,
                encrypt-ok n p (k1 c key) h length-k1,
                decrypt-ok n (once p) (k2 c key) length-once length-k2,
                encrypt-ok n (twice p) (k3 c key) length-twice length-k3,
              )
              refl

        unthrice : blocks (suc n) (c.decrypt_block (k3 c key)) (thrice p) ≡ twice p
        unthrice =
            blocks-blocks (c.encrypt_block (k3 c key)) (is.encrypted (k3 c key))
              (c.decrypt_block (k3 c key)) (suc n) (twice p) (is.decrypt-encrypt (k3 c key))
              length-twice

        untwice : blocks (suc n) (c.encrypt_block (k2 c key)) (twice p) ≡ once p
        untwice =
            blocks-blocks (c.decrypt_block (k2 c key)) (is.decrypted (k2 c key))
              (c.encrypt_block (k2 c key)) (suc n) (once p) (is.encrypt-decrypt (k2 c key))
              length-once

        unonce : blocks (suc n) (c.decrypt_block (k1 c key)) (once p) ≡ p
        unonce =
            blocks-blocks (c.encrypt_block (k1 c key)) (is.encrypted (k1 c key))
              (c.decrypt_block (k1 c key)) (suc n) p (is.decrypt-encrypt (k1 c key)) h

        decrypt-thrice : triple_ecb_des_decrypt c (thrice p) key ≡ pkcs5_unpadding p
        unfolding triple_ecb_des_decrypt
        decrypt-thrice =
            rw
              (
                decrypt-ok n (thrice p) (k3 c key) length-thrice length-k3,
                unthrice,
                encrypt-ok n (twice p) (k2 c key) length-twice length-k2,
                untwice,
                decrypt-ok n (once p) (k1 c key) length-once length-k1,
                unonce,
              )
              refl

    -- TripleEcbDesDecrypt gives back the text that TripleEcbDesEncrypt was given, any text and any key,
    -- and neither gives an error or panics.
    pub triple_ecb_des_decrypt-encrypt :
        (text : Bytes)
        → (out : Bytes) × (triple_ecb_des_encrypt c text key ≡ ok out)
          × (triple_ecb_des_decrypt c out key ≡ ok text)
    triple_ecb_des_decrypt-encrypt text =
        let p = pkcs5_padding text 8 in
        let l = length-padded text in
        let n = length p / 8 - 1 in
        let h : length p ≡ 8 * suc n = omega (arith, l.1, l.3, l.4) in
        (thrice n p, encrypt-thrice n p h text refl, decrypt-thrice n p h ∙ unpadding-padding text)
