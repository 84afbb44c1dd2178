-- ===== src/Endec/Padding.antt =====
-- endec/aes.go: Pkcs7Padding and Pkcs7Unpadding. A slice is the list of its bytes.
use gosutils.Prelude.{
  ℕ, ◌-◌, ◌%◌, ◌^◌, Bool, true, ◌&&◌, List, [], ◌∷◌, ◌++◌, ◌==◌, if◌then◌else◌, Option, none, some,
  length, take, drop, replicate, ltb,
}

abbrev pub Bytes : Type 0
Bytes = List ℕ

-- The number of bytes that are missing from a last block of `block_size` bytes.
abbrev pub missing : Bytes → ℕ → ℕ
missing input block_size = block_size - length input % block_size

unfoldable pub pkcs7_padding : Bytes → ℕ → Bytes
pkcs7_padding input block_size =
    let size = missing input block_size in
    if size == block_size then input else input ++ replicate size (size % 2 ^ 8)

abbrev pub last_byte : Bytes → Option ℕ
last_byte [] = none
last_byte (b ∷ []) = some b
last_byte (b ∷ c ∷ cs) = last_byte (c ∷ cs)

-- The loop over the padding.
abbrev pub all_are : ℕ → Bytes → Bool
all_are p [] = true
all_are p (b ∷ bs) = b == p && all_are p bs

-- The variadic block size, as a uint16.
abbrev pub limit : List ℕ → ℕ
limit [] = 256
limit (n ∷ ns) = n % 2 ^ 16

unfoldable pub strip : Bytes → ℕ → ℕ → Bytes
strip input padding size =
    if ltb padding size && ltb padding (length input)
    then (if all_are padding (drop (length input - padding) input)
        then take (length input - padding) input
        else input)
    else input

unfoldable pub pkcs7_unpadding : Bytes → List ℕ → Bytes
unfolding strip
pkcs7_unpadding input sizes = elim (last_byte input) [
  | none ↦ []
  | some padding ↦ strip input padding (limit sizes)
]

-- `PLPPadding` and `PLPUnpadding`: the one writes the length behind the text, the other reads it in
-- front.
abbrev pub plp_length : ℕ → ℕ → ℕ
plp_length size block_size = if size % block_size == 0 then 0 else block_size - size % block_size

unfoldable pub plp_padding : Bytes → ℕ → Bytes
plp_padding text block_size =
    let padding = plp_length (length text) block_size in
    if ltb block_size 1 then [] else text ++ replicate padding (padding % 256)

unfoldable pub plp_unpadding : Bytes → Option Bytes
plp_unpadding [] = none
plp_unpadding (padding ∷ rest) =
    if ltb (length rest) padding then none else some (take (length rest - padding) rest)
