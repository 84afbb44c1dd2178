-- ===== src/Sutils/Decrypted.antt =====
-- StringDecrypt undoes StringEncrypt, and the keys of StringCreateKeyFromString (sutils/sutils.go).
use gosutils.Prelude.{
  take-append, ℕ, suc, ◌/◌, ◌%◌, ◌<◌, ◌≡◌, refl, sym, ap, ◌∙◌, arith, true, false, [], ◌∷◌, ◌++◌,
  none, some, length, length-append, ltb, take,
}
use gosutils.Prelude.Int.{pos}
use gosutils.Prelude.Text.{Text, All}
use gosutils.Endec.Gcm.{IsByte, Gcm}
use gosutils.Endec.Sealed.{All-append, take-sealed, drop-sealed, length-sealed}
use gosutils.Sutils.Secrets.{
  hex_digit, hex_encode, from_hex, hex_decode, string_encrypt, decrypt_bytes, string_decrypt,
  string_create_key_from_string,
}

from_hex-hex_digit : (d : ℕ) → d < 16 → from_hex (hex_digit d) ≡ some d
from_hex-hex_digit d h = ground arith

hex_decode-encode : (bs : Text) → All IsByte bs → hex_decode (hex_encode bs) ≡ bs
unfolding hex_encode hex_decode
hex_decode-encode [] h = refl
hex_decode-encode (b ∷ bs) h =
    rw
      (
        from_hex-hex_digit (b / 16) (omega arith),
        from_hex-hex_digit (b % 16) (omega arith),
        hex_decode-encode bs h.1,
      )
      (ap (λ c. c ∷ bs) (omega arith))

module _ (g : Gcm) where
  open g use {is_key, nonce_size, seal, unseal, unseal-seal, seal-bytes}

  decrypt_bytes-sealed :
      (encrypted key nonce text : Text)
      → length nonce ≡ nonce_size
      → All IsByte text
      → decrypt_bytes g encrypted key (nonce ++ seal key nonce text) ≡ (none, text)
  unfolding decrypt_bytes
  decrypt_bytes-sealed encrypted key nonce text n b =
      let c = seal key nonce text in
      let long : ltb (length (nonce ++ c)) nonce_size ≡ false =
        ground (arith, length-sealed g key nonce text n) in
      let front = take-sealed g key nonce text n in
      let back = drop-sealed g key nonce text n in
      rw (long, front, back, unseal-seal key nonce text b) refl

  encrypted_lem :
      (nonce text key_string : Text)
      → is_key (hex_decode key_string) ≡ true
      → string_encrypt g (some nonce) text key_string
        ≡ (none, hex_encode (nonce ++ seal (hex_decode key_string) nonce text))
  unfolding string_encrypt
  encrypted_lem nonce text key_string k = rw k refl

  decrypted_lem :
      (encrypted key_string : Text)
      → is_key (hex_decode key_string) ≡ true
      → string_decrypt g encrypted key_string
        ≡ decrypt_bytes g encrypted (hex_decode key_string) (hex_decode encrypted)
  unfolding string_decrypt
  decrypted_lem encrypted key_string k = rw k refl

  -- StringDecrypt gives back the text that StringEncrypt was given, with the same key string, as long as
  -- the cipher takes the key and the nonce that was drawn is of bytes and has its size.
  pub string_decrypt-encrypt :
      (nonce text key_string : Text)
      → is_key (hex_decode key_string) ≡ true
      → length nonce ≡ nonce_size
      → All IsByte nonce
      → All IsByte text
      → ((string_encrypt g (some nonce) text key_string).0 ≡ none)
        × (string_decrypt g (string_encrypt g (some nonce) text key_string).1 key_string
            ≡ (none, text))
  string_decrypt-encrypt nonce text key_string k n bytes b =
      let key = hex_decode key_string in
      let c = nonce ++ seal key nonce text in
      let decoded = hex_decode-encode c (All-append nonce _ bytes (seal-bytes key nonce text b)) in
      rw (encrypted_lem nonce text key_string k) (
        refl,
        decrypted_lem (hex_encode c) key_string k
            ∙ ap (decrypt_bytes g (hex_encode c) key) decoded
            ∙ decrypt_bytes-sealed (hex_encode c) key nonce text n b,
      )

take-append_le : (n : ℕ) (xs ys : Text) → length xs ≡ n → take n (xs ++ ys) ≡ xs
take-append_le n xs ys h = ap (λ k. take k (xs ++ ys)) (sym h) ∙ take-append xs ys

-- Of a longer text StringCreateKeyFromString uses one byte less than the length of the key: all texts
-- that begin with the same bytes, one less than the key has, and have more than the key has give one key,
-- which is that of these bytes alone.
pub string_create_key-prefix :
    (n : ℕ) (front back : Text)
    → length front ≡ n
    → 1 < length back
    → string_create_key_from_string (front ++ back) (pos (suc n))
      ≡ string_create_key_from_string front (pos (suc n))
unfolding string_create_key_from_string
string_create_key-prefix n front back h more =
    let long : ltb (suc n) (length (front ++ back)) ≡ true =
      ground (arith, length-append front back) in
    let short : ltb (suc n) (length front) ≡ false = ground arith in
    rw (long, short, take-append_le n front back h) refl
