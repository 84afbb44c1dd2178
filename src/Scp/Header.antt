-- ===== src/Scp/Header.antt =====
-- The header lines of the protocol: as sendDir and sendFile of sshserver/scp.go print them, and as
-- scpFromClient takes them apart (fmt, strings.SplitN and strconv are the standard library's).
use gosutils.Prelude.{
  ℕ, ◌+◌, ◌*◌, ◌-◌, ◌%◌, ◌^◌, ◌&&◌, List, [], ◌∷◌, ◌++◌, ◌==◌, ltb, leb, if◌then◌else◌, Option,
  none, some, map, length, replicate,
}
use gosutils.Prelude.Int.{pos}
use gosutils.Prelude.Text.{Text, is_empty}
use gosutils.Sutils.Token.{digits, digit, format_int}

-- `%04o`: at least four octal digits.
unfoldable pub octal : ℕ → Text
unfolding digits
octal mode = let ds = digits 8 mode mode [] in map digit (replicate (4 - length ds) 0 ++ ds)

-- `%d` of a size.
unfoldable pub size_text : ℕ → Text
unfolding format_int
size_text size = format_int (pos size)

-- A header without its command and its line end.
abbrev pub header_line : ℕ → ℕ → Text → Text
header_line mode size name = octal mode ++ (b' ' ∷ (size_text size ++ (b' ' ∷ name)))

-- The headers of sendFile and sendDir: `cmd` is 'C' or 'D'.
unfoldable pub header : ℕ → ℕ → ℕ → Text → Text
unfolding octal size_text
header cmd mode size name = cmd ∷ (header_line mode size name ++ b'\n' ∷ [])

-- What is in front of the first blank, and what is behind it.
unfoldable pub cut_blank : Text → Text × Option Text
cut_blank [] = ([], none)
cut_blank (c ∷ cs) = let (w, r) = cut_blank cs in if c == b' ' then ([], some cs) else (c ∷ w, r)

-- `strings.SplitN(cmdFull, " ", 3)`.
abbrev pub last_parts : Text × Option Text → List Text
last_parts (b, none) = b ∷ []
last_parts (b, some c) = b ∷ c ∷ []

unfoldable pub split3 : Text → List Text
unfolding cut_blank
split3 s =
    let (a, r) = cut_blank s in elim r [ none ↦ a ∷ [] | some t ↦ a ∷ last_parts (cut_blank t) ]

-- The value of digits to a base, in front of which `n` has been read.
unfoldable pub value : ℕ → Text → ℕ → Option ℕ
value base [] n = some n
value base (c ∷ cs) n =
    let rest = value base cs (n * base + (c - b'0')) in
    if leb b'0' c && ltb c (b'0' + base) then rest else none

abbrev pub unless_above : ℕ → Option ℕ → Option ℕ
unless_above top none = none
unless_above top (some n) = if leb n top then some n else none

-- `strconv.ParseUint(s, 10, 64)`.
unfoldable pub parse_uint : Text → Option ℕ
unfolding value
parse_uint s = if is_empty s then none else unless_above (2 ^ 64 - 1) (value 10 s 0)

-- `strconv.ParseInt(s, 8, 32)`, and its result as the `uint32` of a file mode.
abbrev pub octal_up_to : ℕ → Text → Option ℕ
octal_up_to top s = if is_empty s then none else unless_above top (value 8 s 0)

abbrev pub negative : Option ℕ → Option ℕ
negative none = none
negative (some n) = some ((2 ^ 32 - n) % 2 ^ 32)

unfoldable pub parse_mode : Text → Option ℕ
unfolding value
parse_mode [] = none
parse_mode (c ∷ cs) =
    if c == b'+'
    then octal_up_to (2 ^ 31 - 1) cs
    else if c == b'-'
    then negative (octal_up_to (2 ^ 31) cs)
    else octal_up_to (2 ^ 31 - 1) (c ∷ cs)

-- How many bytes the loop of scpFromClient reads for a size: `int64(sizeUint)` may be negative.
abbrev pub size_of : ℕ → ℕ
size_of u = if ltb u (2 ^ 63) then u else 0
