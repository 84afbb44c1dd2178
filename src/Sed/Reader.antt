-- ===== src/Sed/Reader.antt =====
-- gosed/lex.go: locReader, and the functions that read a part of a script. The script is ASCII, so
-- that a rune is a byte; reading it fails at its end alone.
use gosutils.Prelude.{
  ℕ, ◌+◌, ◌-◌, Bool, true, false, not, ◌&&◌, ◌||◌, List, [], ◌∷◌, ◌++◌, ◌==◌, if◌then◌else◌, Option,
  none, some, length, leb, ltb,
}
use gosutils.Prelude.Text.{Text, is_white_space, drop_return}

-- The location of a `locReader` and its `eol`, which serve messages alone.
pub record Place : Type 0 where
  pub line : ℕ
  pub pos : ℕ
  pub eol : Bool

-- `ReadRune` on the place: the rune is 0 at the end of the script.
unfoldable pub read_place : ℕ → Place → Place
read_place rune p =
    if p.eol
    then record { line = p.line + 1; pos = 1; eol = rune == b'\n' }
    else record { line = p.line; pos = p.pos + 1; eol = rune == b'\n' }

-- `UnreadRune` on the place.
unfoldable pub unread_place : Place → Place
unread_place p =
    if p.pos - 1 == 0
    then record { line = p.line - 1; pos = 0; eol = true }
    else record { line = p.line; pos = p.pos - 1; eol = false }

pub data LexError : Type 0 where
  eof end_of_line end_of_file stuck : LexError

-- Go's pair of results, and the script behind what was read.
pub record Reading (A : Type 0) : Type 0 where
  pub value : A
  pub err : Option LexError
  pub rest : Text

-- The line of each ReadLine from the first on, whether it has an end, and the script behind it.
unfoldable pub lines_of : Text → List (Text × Bool × Text)
lines_of [] = []
lines_of (c ∷ cs) =
    let rest = lines_of cs in
    if c == b'\n' then ([], true, cs) ∷ rest else elim rest [
      | [] ↦ (c ∷ [], false, []) ∷ []
      | (line, ended, behind) ∷ more ↦ (c ∷ line, ended, behind) ∷ more
    ]

-- unicode.IsDigit on ASCII.
abbrev pub is_digit : ℕ → Bool
is_digit c = leb b'0' c && leb c b'9'

-- The value with the last rune that was read, which `UnreadRune` gives back.
unfoldable pub skip_comment : Text → Reading (ℕ × ℕ)
skip_comment [] = record { value = (b';', 0); err = some eof; rest = [] }
skip_comment (c ∷ cs) =
    let more = skip_comment cs in
    if c == b'\n' then record { value = (b';', b'\n'); err = none; rest = cs } else more

unfoldable pub skip_ws : Text → Reading (ℕ × ℕ)
unfolding skip_comment
skip_ws [] = record { value = (0, 0); err = some eof; rest = [] }
skip_ws (c ∷ cs) =
    let more = skip_ws cs in
    if c == b'\n'
    then record { value = (b';', b'\n'); err = none; rest = cs }
    else if c == b'#'
    then skip_comment cs
    else if not (is_white_space c)
    then record { value = (c, c); err = none; rest = cs }
    else more

-- A rune in front of what is read.
abbrev pub before : ℕ → Reading Text → Reading Text
before c r = record r { value = c ∷ r.value }

-- `readNumber`, with `character` in hand.
unfoldable pub read_number : ℕ → Text → Reading Text
read_number character [] =
    if is_digit character
    then record { value = character ∷ []; err = some eof; rest = [] }
    else record { value = []; err = none; rest = character ∷ [] }
read_number character (c ∷ cs) =
    let more = read_number c cs in
    if is_digit character
    then before character more
    else record { value = []; err = none; rest = character ∷ c ∷ cs }

-- The loop of `readDelimited`.
unfoldable pub delimited_from : ℕ → ℕ → Text → Reading Text
delimited_from delimiter previous [] = record { value = []; err = some end_of_file; rest = [] }
delimited_from delimiter previous (c ∷ cs) =
    let more = delimited_from delimiter c cs in
    if c == b'\n'
    then record { value = []; err = some end_of_line; rest = cs }
    else if c == delimiter && not (previous == b'\\')
    then record { value = []; err = none; rest = cs }
    else before c more

unfoldable pub read_delimited : ℕ → Text → Reading Text
unfolding delimited_from
read_delimited delimiter text = delimited_from delimiter 0 text

-- What an unescape character stands for in a replacement.
abbrev pub unescape : ℕ → ℕ
unescape c =
    if c == b'r' then b'\r' else if c == b't' then b'\t' else if c == b'n' then b'\n' else c

-- The loop of `readReplacement`.
unfoldable pub replacement_from : ℕ → ℕ → Text → Reading Text
replacement_from delimiter previous [] = record { value = []; err = some end_of_file; rest = [] }
replacement_from delimiter previous (c ∷ cs) =
    let same = replacement_from delimiter previous cs in
    let next = replacement_from delimiter c cs in
    let unescaped = replacement_from delimiter b' ' cs in
    if c == b'\r'
    then same
    else if previous == b'\\'
    then (if c == b'\\' then before c unescaped else before (unescape c) next)
    else if c == b'\n'
    then record { value = []; err = some end_of_line; rest = cs }
    else if c == delimiter
    then record { value = []; err = none; rest = cs }
    else if c == b'\\'
    then next
    else before c next

unfoldable pub read_replacement : ℕ → Text → Reading Text
unfolding replacement_from
read_replacement delimiter text = replacement_from delimiter 0 text

-- Whether a line ends with a backslash, and the line without it.
abbrev pub has_slash : Text → Bool
has_slash [] = false
has_slash (c ∷ []) = c == b'\\'
has_slash (c ∷ d ∷ ds) = has_slash (d ∷ ds)

abbrev pub without_last : Text → Text
without_last [] = []
without_last (c ∷ []) = []
without_last (c ∷ d ∷ ds) = c ∷ without_last (d ∷ ds)

-- The line that ReadLine gives.
abbrev pub line_text : Text → Bool → Text
line_text line true = drop_return line
line_text line false = line

abbrev pub keep_line : Bool → Text → Text → Text
keep_line true line text = line ++ b'\n' ∷ text
keep_line false line text = text

-- The loop of `readMultiLine` and the join behind it: `first` is its variable.
unfoldable pub multi_from : Bool → List (Text × Bool × Text) → Reading Text
multi_from first [] = record { value = []; err = none; rest = [] }
multi_from first ((line, ended, behind) ∷ lines) =
    let txt = line_text line ended in
    let kept = not first || ltb 1 (length txt) in
    let more = multi_from false lines in
    if has_slash txt
    then record more { value = keep_line kept (without_last txt) more.value }
    else record { value = keep_line kept txt []; err = none; rest = behind }

unfoldable pub read_multi_line : Text → Reading Text
unfolding multi_from lines_of
read_multi_line text = multi_from true (lines_of text)

-- The loop of `readIdentifier`, with `character` in hand.
unfoldable pub identifier_from : ℕ → Text → Reading Text
identifier_from character [] =
    if character == b';' || is_white_space character
    then record { value = []; err = none; rest = character ∷ [] }
    else record { value = character ∷ []; err = some eof; rest = [] }
identifier_from character (c ∷ cs) =
    let more = identifier_from c cs in
    if character == b';' || is_white_space character
    then record { value = []; err = none; rest = character ∷ c ∷ cs }
    else before character more

unfoldable pub read_identifier : Text → Reading Text
unfolding skip_ws identifier_from
read_identifier text =
    let s = skip_ws text in
    elim s.err [
      | some e ↦ record { value = []; err = some e; rest = s.rest }
      | none ↦
          if s.value.0 == b';'
          then record { value = []; err = none; rest = s.value.1 ∷ s.rest }
          else identifier_from s.value.0 s.rest
    ]

-- The next step of a function that returns as soon as there is an error.
abbrev pub and_then :
    Reading Text → (Text → List Text) → (Text → Text → Reading (List Text)) → Reading (List Text)
and_then r stop go = elim r.err [
  | some e ↦ record { value = stop r.value; err = some e; rest = r.rest }
  | none ↦ go r.value r.rest
]

unfoldable pub read_substitution : Text → Reading (List Text)
unfolding read_delimited read_replacement read_identifier
read_substitution [] = record { value = [] ∷ [] ∷ [] ∷ []; err = some eof; rest = [] }
read_substitution (delimiter ∷ text) =
    and_then (read_delimited delimiter text) (λ a. a ∷ [] ∷ [] ∷ [])
      (λ a text.
        and_then (read_replacement delimiter text) (λ b. a ∷ b ∷ [] ∷ [])
          (λ b text.
            and_then (read_identifier text) (λ c. a ∷ b ∷ c ∷ [])
              (λ c text. record { value = a ∷ b ∷ c ∷ []; err = none; rest = text })))

unfoldable pub read_translation : Text → Reading (List Text)
unfolding read_delimited
read_translation [] = record { value = [] ∷ [] ∷ []; err = some eof; rest = [] }
read_translation (delimiter ∷ text) =
    and_then (read_delimited delimiter text) (λ a. a ∷ [] ∷ [])
      (λ a text.
        and_then (read_delimited delimiter text) (λ b. a ∷ b ∷ [])
          (λ b text. record { value = a ∷ b ∷ []; err = none; rest = text }))
