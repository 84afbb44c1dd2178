-- ===== src/Endec/RoundTrip.antt =====
-- AESCBCDecrypt of endec/aes.go on what AESCBCEncrypt made.
use gosutils.Prelude.{
  take-append, drop-append, ◌+◌, ◌-◌, ◌%◌, ◌≡◌, ◌≢◌, refl, arith, ap, ◌∙◌, true, false, [], ◌∷◌,
  ◌++◌, some, length, ltb, length-append,
}
use gosutils.Endec.Padding.{Bytes, missing, pkcs7_padding, pkcs7_unpadding}
use gosutils.Endec.Cbc.{Cipher, IsCipher, encrypt, decrypt_with, decrypt}
use gosutils.Endec.Unpadded.{
  unpadding-replicate, unpadding-one, padding-partial, padding-full, length-pkcs7_padding,
}

module _ (c : Cipher) (law : IsCipher c) where
  -- From a key, an IV and a text, decryption gives the text that `pkcs7_unpadding` makes of the
  -- padded one.
  abbrev Back : Bytes → Bytes → Bytes → Type 0
  Back key iv text =
      (out : Bytes) × (c.encrypt_blocks key iv (pkcs7_padding text 16) ≡ some out)
      × (length out ≡ length (pkcs7_padding text 16))
      × (decrypt_with c key iv out ≡ some (pkcs7_unpadding (pkcs7_padding text 16) []))

  back : (key iv text : Bytes) → c.takes_key key ≡ true → length iv ≡ 16 → Back key iv text
  unfolding decrypt_with pkcs7_unpadding
  back key iv text k i =
      let (out, e, len, d) =
        law.encrypts key iv (pkcs7_padding text 16) k i (length-pkcs7_padding text).0 in
      (out, e, len, rw (decrypt_with, k, d) refl)

  -- With the IV behind the ciphertext.
  decrypt-append :
      (key iv out : Bytes)
      → length iv ≡ 16
      → decrypt c key (out ++ iv) [] ≡ decrypt_with c key iv out
  unfolding decrypt
  decrypt-append key iv out i =
      let len : length (out ++ iv) ≡ length out + 16 = omega (arith, length-append out iv) in
      let enough : ltb (length (out ++ iv)) 16 ≡ false = ground arith in
      let split : length (out ++ iv) - 16 ≡ length out = omega (arith, len) in
      rw (decrypt, enough, split, drop-append out iv, take-append out iv) refl

  -- Encryption with a drawn IV works, and decryption gives what is left of the padded text.
  drawn :
      (key iv text : Bytes)
      → c.takes_key key ≡ true
      → length iv ≡ 16
      → (cipher : Bytes) × (encrypt c key text [] (some iv) ≡ some cipher)
        × (decrypt c key cipher [] ≡ some (pkcs7_unpadding (pkcs7_padding text 16) []))
  unfolding encrypt
  drawn key iv text k i =
      let (out, e, len, d) = back key iv text k i in
      (out ++ iv, rw (encrypt, k, e) refl, decrypt-append key iv out i ∙ d)

  -- A text that does not end with a full block comes back from AESCBCDecrypt as it was given to
  -- AESCBCEncrypt, with the IV that was drawn, for any key that AES takes.
  pub decrypt-encrypt :
      (key iv text : Bytes)
      → c.takes_key key ≡ true
      → length iv ≡ 16
      → length text % 16 ≢ 0
      → (cipher : Bytes) × (encrypt c key text [] (some iv) ≡ some cipher)
        × (decrypt c key cipher [] ≡ some text)
  decrypt-encrypt key iv text k i part =
      let (cipher, e, d) = drawn key iv text k i in
      let n = missing text 16 in
      let whole : pkcs7_unpadding (pkcs7_padding text 16) [] ≡ text =
        ap (λ t. pkcs7_unpadding t []) (padding-partial text part)
        ∙ unpadding-replicate text n (omega arith) (omega arith) (omega arith) in
      (cipher, e, d ∙ ap some whole)

  -- A text of full blocks that ends with the byte 1 loses that byte.
  pub decrypt-encrypt_lost :
      (key iv text : Bytes)
      → c.takes_key key ≡ true
      → length iv ≡ 16
      → (length text + 1) % 16 ≡ 0
      → (cipher : Bytes) × (encrypt c key (text ++ 1 ∷ []) [] (some iv) ≡ some cipher)
        × (decrypt c key cipher [] ≡ some text)
  decrypt-encrypt_lost key iv text k i full =
      let (cipher, e, d) = drawn key iv (text ++ 1 ∷ []) k i in
      let len : length (text ++ 1 ∷ []) ≡ length text + 1 = length-append text (1 ∷ []) in
      let less : pkcs7_unpadding (pkcs7_padding (text ++ 1 ∷ []) 16) [] ≡ text =
        ap (λ t. pkcs7_unpadding t []) (padding-full (text ++ 1 ∷ []) (omega (arith, len)))
        ∙ unpadding-one text (omega arith) in
      (cipher, e, d ∙ ap some less)
