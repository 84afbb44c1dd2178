-- ===== src/Endec/Sealed.antt =====
-- What is encrypted in Galois/Counter mode comes back (endec/aes.go, endec/endec.go).
use gosutils.Prelude.{
  ◌+◌, ◌<◌, ◌≡◌, refl, sym, ap, ◌∙◌, arith, true, false, [], ◌∷◌, some, length, length-append, ◌++◌,
  take, drop, take-append, drop-append, ltb,
}
use gosutils.Prelude.Text.{All}
use gosutils.Endec.Padding.{Bytes}
use gosutils.Endec.Gcm.{
  IsByte, Gcm, Base64, and_then, decrypt_bytes, encryp_bytes_to_string, decrypt_bytes_from_string,
}

pub All-append : (xs ys : Bytes) → All IsByte xs → All IsByte ys → All IsByte (xs ++ ys)
All-append [] ys h k = k
All-append (x ∷ xs) ys h k = (h.0, All-append xs ys h.1 k)

module _ (g : Gcm) (key nonce text : Bytes) where
  open g use {is_key, nonce_size, seal, unseal, unseal-seal, seal-bytes, seal-longer}

  -- The nonce, and the text that is sealed with it.
  abbrev pub sealed : Bytes
  sealed = nonce ++ seal key nonce text

  module _ (n : length nonce ≡ nonce_size) where
    pub take-sealed : take nonce_size sealed ≡ nonce
    take-sealed = ap (λ k. take k sealed) (sym n) ∙ take-append nonce (seal key nonce text)

    pub drop-sealed : drop nonce_size sealed ≡ seal key nonce text
    drop-sealed = ap (λ k. drop k sealed) (sym n) ∙ drop-append nonce (seal key nonce text)

    pub length-sealed : nonce_size < length sealed
    length-sealed =
        omega (arith, n, length-append nonce (seal key nonce text), seal-longer key nonce text)

module _ (g : Gcm) (md5 : Bytes → Bytes) (b : Base64) (nonce text passphrase : Bytes) where
  open g use {is_key, nonce_size, seal, seal-bytes, unseal, unseal-seal}
  open b use {encode_raw, decode_raw, decode-encode_raw}

  encryp_bytes_to_string_lem :
      is_key (md5 passphrase) ≡ true
      → encryp_bytes_to_string g md5 b text passphrase (some nonce)
        ≡ some (encode_raw (sealed g (md5 passphrase) nonce text))
  unfolding encryp_bytes_to_string
  encryp_bytes_to_string_lem k = rw k refl

  decrypt_bytes-sealed :
      is_key (md5 passphrase) ≡ true
      → length nonce ≡ nonce_size
      → All IsByte text
      → decrypt_bytes g md5 (sealed g (md5 passphrase) nonce text) passphrase ≡ some text
  unfolding decrypt_bytes
  decrypt_bytes-sealed k n bytes =
      let key = md5 passphrase in
      let long : ltb (length (sealed g key nonce text)) (nonce_size + 1) ≡ false =
        ground (arith, length-sealed g key nonce text n) in
      rw (k, long, take-sealed g key nonce text n, drop-sealed g key nonce text n)
        (unseal-seal key nonce text bytes)

  -- DecryptBytesFromString gives back the bytes that EncrypBytesToString was given, with the same
  -- passphrase, as long as the cipher takes its MD5 and the nonce that was drawn is of bytes and has its
  -- size.
  pub decrypt_bytes_from_string-encryp :
      is_key (md5 passphrase) ≡ true
      → length nonce ≡ nonce_size
      → All IsByte nonce
      → All IsByte text
      → (out : Bytes) × (encryp_bytes_to_string g md5 b text passphrase (some nonce) ≡ some out)
        × (decrypt_bytes_from_string g md5 b out passphrase ≡ some text)
  unfolding decrypt_bytes_from_string
  decrypt_bytes_from_string-encryp k n drawn bytes =
      let whole = sealed g (md5 passphrase) nonce text in
      let whole_bytes = All-append nonce _ drawn (seal-bytes (md5 passphrase) nonce text bytes) in
      (
        encode_raw whole,
        encryp_bytes_to_string_lem k,
        ap (λ o. and_then o (λ t. decrypt_bytes g md5 t passphrase))
              (decode-encode_raw whole whole_bytes)
            ∙ decrypt_bytes-sealed k n bytes,
      )
