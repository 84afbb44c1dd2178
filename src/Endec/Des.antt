-- ===== src/Endec/Des.antt =====
-- endec/d3des.go. An error of NewCipher or of a check is `err`, an index out of range is `panic`.
use gosutils.Prelude.{
  ℕ, zero, suc, ◌-◌, ◌/◌, ◌%◌, ◌≡◌, Bool, true, ◌||◌, [], ◌++◌, ◌==◌, if◌then◌else◌, Option, none,
  some, length, take, drop, replicate, ltb,
}
use gosutils.Endec.Padding.{Bytes, last_byte}

-- crypto/des: whether NewCipher takes a key, a block of 8 bytes encrypted and decrypted, and
-- NewTripleDESCipher with the decrypter of crypto/cipher in CBC mode, by key and IV.
pub record Des : Type 0 where
  pub takes_key : Bytes → Bool
  pub encrypt_block : Bytes → Bytes → Bytes
  pub decrypt_block : Bytes → Bytes → Bytes
  pub takes_triple_key : Bytes → Bool
  pub cbc_decrypt : Bytes → Bytes → Bytes → Bytes

-- What the package documents: keys of 8 bytes are taken, and encryption and decryption of a block
-- undo each other.
pub record IsDes (c : Des) : Type 0 where
  pub takes : (key : Bytes) → length key ≡ 8 → c.takes_key key ≡ true
  pub encrypted : (key b : Bytes) → length b ≡ 8 → length (c.encrypt_block key b) ≡ 8
  pub decrypted : (key b : Bytes) → length b ≡ 8 → length (c.decrypt_block key b) ≡ 8
  pub decrypt-encrypt :
      (key b : Bytes) → length b ≡ 8 → c.decrypt_block key (c.encrypt_block key b) ≡ b
  pub encrypt-decrypt :
      (key b : Bytes) → length b ≡ 8 → c.encrypt_block key (c.decrypt_block key b) ≡ b

pub data DesResult : Type 0 where
  ok : Bytes → DesResult
  err panic : DesResult

abbrev pub and_then : DesResult → (Bytes → DesResult) → DesResult
and_then (ok out) f = f out
and_then err f = err
and_then panic f = panic

-- `PKCS5Padding` and `PKCS5Unpadding`.
unfoldable pub pkcs5_padding : Bytes → ℕ → Bytes
pkcs5_padding ciphertext block_size =
    let padding = block_size - length ciphertext % block_size in
    ciphertext ++ replicate padding (padding % 256)

abbrev pub cut : Bytes → Option ℕ → DesResult
cut orig_data none = panic
cut orig_data (some unpadding) =
    if ltb (length orig_data) unpadding
    then panic
    else ok (take (length orig_data - unpadding) orig_data)

unfoldable pub pkcs5_unpadding : Bytes → DesResult
pkcs5_unpadding orig_data = cut orig_data (last_byte orig_data)

-- The loop of `encrypt` and `decrypt` over the blocks of 8 bytes.
unfoldable pub blocks : ℕ → (Bytes → Bytes) → Bytes → Bytes
blocks zero f rest = []
blocks (suc n) f rest = f (take 8 rest) ++ blocks n f (drop 8 rest)

module _ (c : Des) where
  -- `encrypt` and `decrypt` differ in the call on a block.
  unfoldable pub on_blocks : (Bytes → Bytes) → Bytes → Bytes → DesResult
  unfolding blocks
  on_blocks f text key =
      if ltb (length text) 1 || ltb (length key) 1
      then err
      else if c.takes_key key
      then (if length text % 8 == 0 then ok (blocks (length text / 8) f text) else err)
      else err

  unfoldable pub des_encrypt : Bytes → Bytes → DesResult
  unfolding on_blocks
  des_encrypt orig_data key = on_blocks (c.encrypt_block key) orig_data key

  unfoldable pub des_decrypt : Bytes → Bytes → DesResult
  unfolding on_blocks
  des_decrypt crypted key = on_blocks (c.decrypt_block key) crypted key

  -- The key, cut or filled with zeros to 24 bytes, and its three parts.
  abbrev pub tkey : Bytes → Bytes
  tkey key = take 24 (key ++ replicate 24 0)

  abbrev pub k1 : Bytes → Bytes
  k1 key = take 8 (tkey key)

  abbrev pub k2 : Bytes → Bytes
  k2 key = take 8 (drop 8 (tkey key))

  abbrev pub k3 : Bytes → Bytes
  k3 key = drop 16 (tkey key)

  -- `TripleEcbDesEncrypt` and `TripleEcbDesDecrypt`.
  unfoldable pub triple_ecb_des_encrypt : Bytes → Bytes → DesResult
  triple_ecb_des_encrypt orig_data key =
      if c.takes_key (k1 key)
      then and_then (des_encrypt (pkcs5_padding orig_data 8) (k1 key))
          (λ buf1. and_then (des_decrypt buf1 (k2 key)) (λ buf2. des_encrypt buf2 (k3 key)))
      else err

  unfoldable pub triple_ecb_des_decrypt : Bytes → Bytes → DesResult
  triple_ecb_des_decrypt crypted key = and_then (des_decrypt crypted (k3 key)) (λ buf1.
      and_then (des_encrypt buf1 (k2 key))
        (λ buf2. and_then (des_decrypt buf2 (k1 key)) pkcs5_unpadding))

  -- `TripleDesEncrypt`, which runs the decrypter, and `TripleDesDecrypt`.
  unfoldable pub triple_des_encrypt : Bytes → Bytes → DesResult
  triple_des_encrypt crypted given =
      let key = if ltb (length given) 24 then given ++ replicate (24 - length given) 0 else given in
      if c.takes_triple_key key
      then (if length crypted % 8 == 0 then ok (c.cbc_decrypt key (take 8 key) crypted) else panic)
      else err

  unfoldable pub triple_des_decrypt : Bytes → Bytes → DesResult
  triple_des_decrypt crypted key = ok []
