-- ===== src/Sconv/Quote.antt =====
-- sconv/sconv.go: ArgsToString and quote.
use gosutils.Prelude.{
  ℕ, Bool, true, false, ◌&&◌, ◌||◌, List, [], ◌∷◌, ◌++◌, ◌==◌, if◌then◌else◌, Option, none, some,
}
use gosutils.Prelude.Text.{Text, codes, contains_rune, is_empty}

abbrev special_chars : Text
special_chars = codes "\\'\"`${[|&;<>()*?!"

abbrev extra_special_chars : Text
extra_special_chars = codes " \t\n"

abbrev prefix_chars : Text
prefix_chars = codes "~"

-- The test of the loop of `quote` for a character that gets a backslash.
unfoldable pub is_special : Bool → ℕ → Bool
is_special at_start c = contains_rune special_chars c || (at_start && contains_rune prefix_chars c)

unfoldable pub is_extra : ℕ → Bool
is_extra c = contains_rune extra_special_chars c

-- The first loop of `quote`: `out` is what it wrote, `prev` is what it has read and not written,
-- the list is `cur`. `none` is the jump to quote mode, where the buffer is truncated.
unfoldable pub backslash_loop : Bool → Text → Text → Text → Option Text
backslash_loop at_start out prev [] = some (out ++ prev)
backslash_loop at_start out prev (c ∷ cur) =
    let escaped = backslash_loop false ((out ++ prev) ++ b'\\' ∷ c ∷ []) [] cur in
    let plain = backslash_loop false out (prev ++ c ∷ []) cur in
    if is_special at_start c then escaped else if is_extra c then none else plain

-- The second loop of `quote`, and what follows it. `seg` is `word[0:i]` as far as it is searched.
unfoldable pub quote_loop : Bool → Text → Text → Text
quote_loop in_quote seg [] =
    if is_empty seg then [] else (if in_quote then [] else b'\'' ∷ []) ++ (seg ++ b'\'' ∷ [])
quote_loop in_quote seg (c ∷ cur) =
    let before =
      (if is_empty seg then [] else (if in_quote then [] else b'\'' ∷ []) ++ seg)
      ++ ((if in_quote || (if is_empty seg then false else true) then b'\'' ∷ [] else [])
          ++ b'\\' ∷ b'\'' ∷ []) in
    let next = before ++ quote_loop false [] cur in
    let more = quote_loop in_quote (seg ++ c ∷ []) cur in if c == b'\'' then next else more

-- What `quote` appends to the buffer.
unfoldable pub quote : Text → Text
unfolding backslash_loop quote_loop is_special is_extra
quote [] = b'\'' ∷ b'\'' ∷ []
quote (c ∷ cs) = elim (backslash_loop true [] [] (c ∷ cs)) [
  | some out ↦ out
  | none ↦ quote_loop false [] (c ∷ cs)
]

-- The loop of `ArgsToString`, after the first argument.
unfoldable pub args_tail : List Text → Text
unfolding quote
args_tail [] = []
args_tail (w ∷ ws) = b' ' ∷ (quote w ++ args_tail ws)

unfoldable pub args_to_string : List Text → Text
unfolding quote args_tail
args_to_string [] = []
args_to_string (w ∷ ws) = quote w ++ args_tail ws
