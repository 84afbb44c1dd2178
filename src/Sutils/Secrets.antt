-- ===== src/Sutils/Secrets.antt =====
-- sutils/sutils.go: StringEncrypt, StringDecrypt and StringCreateKeyFromString. A string is its bytes.
-- crypto/aes and crypto/cipher are the fields of Endec.Gcm, crypto/rand is an argument.
use gosutils.Prelude.{
  ℕ, zero, suc, ◌+◌, ◌-◌, ◌*◌, ◌/◌, ◌%◌, ◌&&◌, [], ◌∷◌, ◌++◌, if◌then◌else◌, Option, none, some,
  length, ltb, leb, take, drop, replicate,
}
use gosutils.Prelude.Int.{ℤ, pos, negsuc}
use gosutils.Endec.Gcm.{Gcm}
use gosutils.Prelude.Text.{Text, is_empty}

-- The lower-case hex digits of encoding/hex and of the verb %x.
abbrev pub hex_digit : ℕ → ℕ
hex_digit d = if ltb d 10 then d + b'0' else d - 10 + b'a'

unfoldable pub hex_encode : Text → Text
hex_encode [] = []
hex_encode (b ∷ bs) = hex_digit (b / 16) ∷ hex_digit (b % 16) ∷ hex_encode bs

abbrev pub from_hex : ℕ → Option ℕ
from_hex c =
    if leb b'0' c && leb c b'9'
    then some (c - b'0')
    else if leb b'a' c && leb c b'f'
    then some (c - b'a' + 10)
    else if leb b'A' c && leb c b'F'
    then some (c - b'A' + 10)
    else none

abbrev pub push_byte : Option ℕ → Option ℕ → Text → Text
push_byte (some hi) (some lo) rest = (hi * 16 + lo) ∷ rest
push_byte _ _ rest = []

-- hex.DecodeString without its error: the bytes in front of it.
unfoldable pub hex_decode : Text → Text
hex_decode [] = []
hex_decode (c ∷ []) = []
hex_decode (c ∷ d ∷ cs) = let rest = hex_decode cs in push_byte (from_hex c) (from_hex d) rest

pub data SecretError : Type 0 where
  bad_key no_random too_short not_authentic : SecretError

module _ (g : Gcm) where
  open g use {is_key, nonce_size, seal, unseal}

  -- `StringEncrypt`: `nonce` is what io.ReadFull gets of rand.Reader.
  unfoldable pub string_encrypt : Option Text → Text → Text → Option SecretError × Text
  unfolding hex_encode hex_decode
  string_encrypt nonce string_to_encrypt key_string =
      let key = hex_decode key_string in
      if is_key key
      then elim nonce [
        | none ↦ (some no_random, [])
        | some n ↦ (none, hex_encode (n ++ seal key n string_to_encrypt))
      ]
      else (some bad_key, [])

  -- `StringDecrypt` on the bytes of its text.
  unfoldable pub decrypt_bytes : Text → Text → Text → Option SecretError × Text
  decrypt_bytes encrypted_string key enc =
      if ltb (length enc) nonce_size
      then (some too_short, [])
      else elim (unseal key (take nonce_size enc) (drop nonce_size enc)) [
        | none ↦ (some not_authentic, encrypted_string)
        | some plaintext ↦ (none, plaintext)
      ]

  unfoldable pub string_decrypt : Text → Text → Option SecretError × Text
  unfolding hex_decode decrypt_bytes
  string_decrypt encrypted_string key_string =
      let key = hex_decode key_string in
      if is_key key
      then decrypt_bytes encrypted_string key (hex_decode encrypted_string)
      else (some bad_key, encrypted_string)

-- `StringCreateKeyFromString`: none is the panic of a negative length, or of the bound 0 - 1.
unfoldable pub string_create_key_from_string : Text → ℤ → Option Text
unfolding hex_encode
string_create_key_from_string strkeys (negsuc n) = none
string_create_key_from_string strkeys (pos zero) = if is_empty strkeys then some [] else none
string_create_key_from_string strkeys (pos (suc n)) =
    let kept = if ltb (suc n) (length strkeys) then take n strkeys else strkeys in
    some (hex_encode (kept ++ replicate (suc n - length kept) 0))
