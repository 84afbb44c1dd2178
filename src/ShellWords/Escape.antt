-- ===== src/ShellWords/Escape.antt =====
-- cmdshellwords/cmdshellwords.go: Escape and Join, with joinposix of cmdshellwords/util.go.
-- `Escape` goes through the bytes of a word: the lists here are bytes.
use gosutils.Prelude.{ℕ, Bool, ◌&&◌, ◌||◌, List, [], ◌∷◌, ◌++◌, ◌==◌, if◌then◌else◌, leb}
use gosutils.Prelude.Text.{Text, codes, contains_rune}

-- The first case of the switch: letters, digits and `_-.,:/@`.
unfoldable pub is_safe : ℕ → Bool
is_safe b =
    (leb b'a' b && leb b b'z')
    || (leb b'A' b && leb b b'Z')
    || (leb b'0' b && leb b b'9')
    || contains_rune (codes "_-.,:/@") b

-- What the loop writes for a byte.
unfoldable pub escape_byte : ℕ → Text
escape_byte b =
    if is_safe b then b ∷ [] else if b == b'\n' then b'\'' ∷ b'\n' ∷ b'\'' ∷ [] else b'\\' ∷ b ∷ []

unfoldable pub escape_loop : Text → Text
escape_loop [] = []
escape_loop (b ∷ bs) = escape_byte b ++ escape_loop bs

unfoldable pub escape : Text → Text
unfolding escape_loop escape_byte is_safe
escape [] = b'\'' ∷ b'\'' ∷ []
escape (b ∷ bs) = escape_loop (b ∷ bs)

-- `joinposix` after the first word.
unfoldable pub join_tail : List Text → Text
unfolding escape
join_tail [] = []
join_tail (w ∷ ws) = b' ' ∷ (escape w ++ join_tail ws)

-- `Join` and `JoinPosix`.
unfoldable pub join : List Text → Text
unfolding escape join_tail
join [] = []
join (w ∷ ws) = escape w ++ join_tail ws
