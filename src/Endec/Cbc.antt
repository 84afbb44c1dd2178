-- ===== src/Endec/Cbc.antt =====
-- endec/aes.go: AESCBCEncrypt and AESCBCDecrypt. An error, or a panic that is recovered, is none.
use gosutils.Prelude.{
  ℕ, ◌-◌, ◌%◌, ◌≡◌, Bool, true, not, List, [], ◌∷◌, ◌++◌, ◌==◌, if◌then◌else◌, Option, none, some,
  length, take, drop, ltb,
}
use gosutils.Endec.Padding.{Bytes, pkcs7_padding, pkcs7_unpadding}

-- aes.BlockSize.
abbrev pub block_size : ℕ
block_size = 16

-- crypto/aes and crypto/cipher: whether NewCipher takes a key, and CryptBlocks in CBC mode, with a
-- key and an IV, where it does not panic.
pub record Cipher : Type 0 where
  pub takes_key : Bytes → Bool
  pub encrypt_blocks : Bytes → Bytes → Bytes → Option Bytes
  pub decrypt_blocks : Bytes → Bytes → Bytes → Option Bytes

-- What the packages document of full blocks and an IV of a block: encryption works, keeps the
-- length, and is undone by decryption.
pub record IsCipher (c : Cipher) : Type 0 where
  pub encrypts :
      (key iv text : Bytes)
      → c.takes_key key ≡ true
      → length iv ≡ 16
      → length text % 16 ≡ 0
      → (out : Bytes) × (c.encrypt_blocks key iv text ≡ some out)
        × (length out ≡ length text)
        × (c.decrypt_blocks key iv out ≡ some text)

module _ (c : Cipher) where
  -- With an IV of the caller the result is the ciphertext, else the IV that was drawn, if any,
  -- stands behind it.
  unfoldable pub encrypt : Bytes → Bytes → List Bytes → Option Bytes → Option Bytes
  unfolding pkcs7_padding
  encrypt key plaintext (iv ∷ ivs) drawn =
      if c.takes_key key then c.encrypt_blocks key iv (pkcs7_padding plaintext block_size) else none
  encrypt key plaintext [] none = none
  encrypt key plaintext [] (some iv) =
      if c.takes_key key
      then (elim (c.encrypt_blocks key iv (pkcs7_padding plaintext block_size))
          as (λ _. Option Bytes) [ none ↦ none | some out ↦ some (out ++ iv) ])
      else none

  -- `AESCBCDecrypt` behind the choice of the IV.
  unfoldable pub decrypt_with : Bytes → Bytes → Bytes → Option Bytes
  unfolding pkcs7_unpadding
  decrypt_with key iv ciphertext =
      if c.takes_key key
      then (elim (c.decrypt_blocks key iv ciphertext) as (λ _. Option Bytes) [
        | none ↦ none
        | some plaintext ↦ some (pkcs7_unpadding plaintext [])
      ])
      else none

  unfoldable pub decrypt : Bytes → Bytes → List Bytes → Option Bytes
  unfolding decrypt_with
  decrypt key ciphertext (iv ∷ ivs) =
      if ltb (length ciphertext) block_size
      then none
      else if not (length iv == block_size)
      then none
      else decrypt_with key iv ciphertext
  decrypt key ciphertext [] =
      let split = length ciphertext - block_size in
      if ltb (length ciphertext) block_size
      then none
      else decrypt_with key (drop split ciphertext) (take split ciphertext)
