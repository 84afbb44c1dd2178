-- ===== src/Endec/Gcm.antt =====
-- The functions of endec/aes.go and endec/endec.go that use AES in Galois/Counter mode or base64. An
-- error is none. crypto/aes and crypto/cipher, base64 and MD5 are parameters, and a nonce is what is
-- read of crypto/rand, or none.
use gosutils.Prelude.{
  ℕ, ◌+◌, ◌<◌, ◌≡◌, Bool, List, if◌then◌else◌, Option, none, some, length, ◌++◌, take, drop, leb,
  ltb,
}
use gosutils.Prelude.Text.{All}
use gosutils.Endec.Padding.{Bytes}
use gosutils.Endec.Cbc.{Cipher, encrypt, decrypt}

abbrev pub IsByte : ℕ → Type 0
IsByte b = b < 256

-- Open undoes Seal on bytes, and Seal gives bytes, more than there were.
pub record Gcm : Type 0 where
  pub is_key : Bytes → Bool
  pub nonce_size : ℕ
  pub seal : Bytes → Bytes → Bytes → Bytes
  pub unseal : Bytes → Bytes → Bytes → Option Bytes
  pub unseal-seal :
      (key nonce text : Bytes)
      → All IsByte text
      → unseal key nonce (seal key nonce text) ≡ some text
  pub seal-bytes : (key nonce text : Bytes) → All IsByte text → All IsByte (seal key nonce text)
  pub seal-longer : (key nonce text : Bytes) → length text < length (seal key nonce text)

-- base64.RawStdEncoding and base64.StdEncoding.
pub record Base64 : Type 0 where
  pub encode_raw : Bytes → Bytes
  pub decode_raw : Bytes → Option Bytes
  pub encode_std : Bytes → Bytes
  pub decode_std : Bytes → Option Bytes
  pub decode-encode_raw : (b : Bytes) → All IsByte b → decode_raw (encode_raw b) ≡ some b
  pub decode-encode_std : (b : Bytes) → All IsByte b → decode_std (encode_std b) ≡ some b

abbrev pub and_then : Option Bytes → (Bytes → Option Bytes) → Option Bytes
and_then none f = none
and_then (some b) f = f b

module _ (g : Gcm) where
  open g use {is_key, nonce_size, seal, unseal}

  -- `AESGCMEncrypt` and `AESGCMDecrypt`.
  unfoldable pub aesgcm_encrypt : Bytes → Bytes → Option Bytes → Option Bytes
  aesgcm_encrypt key plaintext drawn =
      if is_key key
      then and_then drawn (λ nonce. some (nonce ++ seal key nonce plaintext))
      else none

  unfoldable pub aesgcm_decrypt : Bytes → Bytes → Option Bytes
  aesgcm_decrypt key ciphertext =
      if is_key key
      then (if leb (length ciphertext) nonce_size
          then none
          else unseal key (take nonce_size ciphertext) (drop nonce_size ciphertext))
      else none

  -- `EncrypBytes` and `DecryptBytes`: the key is the MD5 of the passphrase.
  module _ (md5 : Bytes → Bytes) where
    unfoldable pub encryp_bytes : Bytes → Bytes → Option Bytes → Option Bytes
    unfolding aesgcm_encrypt
    encryp_bytes text passphrase drawn = aesgcm_encrypt (md5 passphrase) text drawn

    unfoldable pub decrypt_bytes : Bytes → Bytes → Option Bytes
    decrypt_bytes text passphrase =
        if is_key (md5 passphrase)
        then (if ltb (length text) (nonce_size + 1)
            then none
            else unseal (md5 passphrase) (take nonce_size text) (drop nonce_size text))
        else none

    module _ (b : Base64) where
      open b use {encode_raw, decode_raw}

      -- `EncrypBytesToString` and `DecryptBytesFromString`.
      unfoldable pub encryp_bytes_to_string : Bytes → Bytes → Option Bytes → Option Bytes
      unfolding encryp_bytes
      encryp_bytes_to_string text passphrase drawn =
          and_then (encryp_bytes text passphrase drawn) (λ out. some (encode_raw out))

      unfoldable pub decrypt_bytes_from_string : Bytes → Bytes → Option Bytes
      unfolding decrypt_bytes
      decrypt_bytes_from_string text passphrase =
          and_then (decode_raw text) (λ bytes. decrypt_bytes bytes passphrase)

  module _ (b : Base64) where
    open b use {encode_raw, decode_raw}

    -- `AESGCMEncryptToBase64` and `AESGCMDecryptFromBase64`.
    unfoldable pub aesgcm_encrypt_to_base64 : Bytes → Bytes → Option Bytes → Option Bytes
    unfolding aesgcm_encrypt
    aesgcm_encrypt_to_base64 key plaintext drawn =
        and_then (aesgcm_encrypt key plaintext drawn) (λ out. some (encode_raw out))

    unfoldable pub aesgcm_decrypt_from_base64 : Bytes → Bytes → Option Bytes
    unfolding aesgcm_decrypt
    aesgcm_decrypt_from_base64 key text = and_then (decode_raw text) (aesgcm_decrypt key)

module _ (c : Cipher) (b : Base64) where
  open b use {encode_std, decode_std}

  -- `AESCBCEncryptToBase64` and `AESCBCDecryptFromBase64`.
  unfoldable pub aescbc_encrypt_to_base64 : Bytes → Bytes → List Bytes → Option Bytes → Option Bytes
  unfolding encrypt
  aescbc_encrypt_to_base64 key plaintext ivs drawn =
      and_then (encrypt c key plaintext ivs drawn) (λ out. some (encode_std out))

  unfoldable pub aescbc_decrypt_from_base64 : Bytes → Bytes → List Bytes → Option Bytes
  unfolding decrypt
  aescbc_decrypt_from_base64 key ciphertext ivs =
      and_then (decode_std ciphertext) (λ text. decrypt c key text ivs)
