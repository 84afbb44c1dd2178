-- ===== src/Endec/Tests.antt =====
-- Runs of endec/aes.go at concrete texts, and its theorems at concrete texts. The cipher of the
-- tests leaves full blocks as they are.
use gosutils.Prelude.{
  ◌%◌, ◌≡◌, ◌∙◌, refl, arith, ◌&&◌, [], ◌∷◌, ◌++◌, ◌==◌, if◌then◌else◌, Option, none, some, length,
  replicate,
}
use gosutils.Endec.Padding.{
  Bytes, plp_padding, plp_unpadding, pkcs7_padding, pkcs7_unpadding, strip,
}
use gosutils.Endec.Cbc.{Cipher, IsCipher, encrypt, decrypt}
use gosutils.Endec.Des.{
  Des, IsDes, ok, pkcs5_padding, des_encrypt, des_decrypt, triple_ecb_des_encrypt,
  triple_ecb_des_decrypt,
}
use gosutils.Endec.Triple.{triple_ecb_des_decrypt-encrypt}
use gosutils.Endec.RoundTrip.{decrypt-encrypt, decrypt-encrypt_lost}

abbrev copy_blocks : Bytes → Bytes → Bytes → Option Bytes
copy_blocks key iv text = if length iv == 16 && length text % 16 == 0 then some text else none

abbrev copier : Cipher
copier = record {
  takes_key = λ key. length key == 16;
  encrypt_blocks = copy_blocks;
  decrypt_blocks = copy_blocks;
}

copier-IsCipher : IsCipher copier
copier-IsCipher = record {
  encrypts = λ key iv text k i full. (text, ground arith, refl, ground arith);
}

abbrev key : Bytes
key = replicate 16 7

abbrev short : Bytes
short = 65 ∷ 66 ∷ 1 ∷ []

padding_run : pkcs7_padding short 4 ≡ 65 ∷ 66 ∷ 1 ∷ 1 ∷ []
unfolding pkcs7_padding
padding_run = refl

-- A byte of the text that looks like padding is taken for it.
unpadding_run : pkcs7_unpadding (pkcs7_padding short 3) [] ≡ 65 ∷ 66 ∷ []
unfolding pkcs7_padding pkcs7_unpadding strip
unpadding_run = refl

decrypt-encrypt_example :
    (cipher : Bytes) × (encrypt copier key short [] (some key) ≡ some cipher)
    × (decrypt copier key cipher [] ≡ some short)
decrypt-encrypt_example =
    decrypt-encrypt copier copier-IsCipher key key short refl refl (omega arith)

full_blocks_lost :
    (cipher : Bytes) × (encrypt copier key (replicate 15 65 ++ 1 ∷ []) [] (some key) ≡ some cipher)
    × (decrypt copier key cipher [] ≡ some (replicate 15 65))
full_blocks_lost =
    decrypt-encrypt_lost copier copier-IsCipher key key (replicate 15 65) refl refl refl

-- A block cipher that changes the places of the first two bytes.
abbrev turned : Bytes → Bytes
turned (a ∷ b ∷ rest) = b ∷ a ∷ rest
turned bs = bs

abbrev turning : Des
turning = record {
  takes_key = λ key. length key == 8;
  encrypt_block = λ key b. turned b;
  decrypt_block = λ key b. turned b;
  takes_triple_key = λ key. length key == 24;
  cbc_decrypt = λ key iv text. text;
}

length-turned : (b : Bytes) → length (turned b) ≡ length b
length-turned [] = refl
length-turned (a ∷ []) = refl
length-turned (a ∷ b ∷ rest) = refl

turned-turned : (b : Bytes) → turned (turned b) ≡ b
turned-turned [] = refl
turned-turned (a ∷ []) = refl
turned-turned (a ∷ b ∷ rest) = refl

turning-IsDes : IsDes turning
turning-IsDes = record {
  takes = λ key h. ground arith;
  encrypted = λ key b h. length-turned b ∙ h;
  decrypted = λ key b h. length-turned b ∙ h;
  decrypt-encrypt = λ key b h. turned-turned b;
  encrypt-decrypt = λ key b h. turned-turned b;
}

-- Three turns are one.
triple_run :
    triple_ecb_des_encrypt turning short (9 ∷ []) ≡ ok (66 ∷ 65 ∷ 1 ∷ 5 ∷ 5 ∷ 5 ∷ 5 ∷ 5 ∷ [])
unfolding triple_ecb_des_encrypt des_encrypt des_decrypt pkcs5_padding
triple_run = refl

triple_ecb_des_decrypt-encrypt_example :
    (out : Bytes) × (triple_ecb_des_encrypt turning short (9 ∷ []) ≡ ok out)
    × (triple_ecb_des_decrypt turning out (9 ∷ []) ≡ ok short)
triple_ecb_des_decrypt-encrypt_example =
    triple_ecb_des_decrypt-encrypt turning turning-IsDes (9 ∷ []) short

-- The padding stays, and the first byte is lost.
plp_run :
    (plp_padding (0 ∷ 7 ∷ []) 4 ≡ 0 ∷ 7 ∷ 2 ∷ 2 ∷ [])
    × (plp_unpadding (plp_padding (0 ∷ 7 ∷ []) 4) ≡ some (7 ∷ 2 ∷ 2 ∷ []))
unfolding plp_padding plp_unpadding
plp_run = (refl, refl)
