-- ===== src/Sconv/Split.antt =====
-- sconv/sconv.go: StringToArgs and splitWord.
use gosutils.Prelude.{ℕ, zero, suc, List, [], ◌∷◌, ◌++◌, ◌==◌, if◌then◌else◌, length}
use gosutils.Prelude.Text.{Text, codes, contains_rune}

pub data SplitError : Type 0 where
  unterminated_single_quote unterminated_double_quote unterminated_escape : SplitError

-- Go's (value, error) pair. `stuck` is no Go value: the loop of `string_to_args` ran out of fuel.
pub data Result {ℓ} (A : Type ℓ) : Type ℓ where
  ok : A → Result A
  err : SplitError → Result A
  stuck : Result A

abbrev split_chars : Text
split_chars = codes " \n\t"

abbrev double_escape_chars : Text
double_escape_chars = codes "$`\"\n\\"

-- The labels of `splitWord`.
pub data Label : Type 0 where
  raw escape single double : Label

-- `buf` is the buffer, `seg` is what stands between `input` and `cur`, the list is `cur`. A goto
-- is a call at the label. `strings.IndexRune` at `single` is the search that `single` makes.
unfoldable pub split_from : Label → Text → Text → Text → Result (Text × Text)
split_from raw buf seg [] = ok (buf ++ seg, [])
split_from raw buf seg (c ∷ cur) =
    let to_single = split_from single (buf ++ seg) [] cur in
    let to_double = split_from double (buf ++ seg) [] cur in
    let to_escape = split_from escape (buf ++ seg) [] cur in
    let more = split_from raw buf (seg ++ c ∷ []) cur in
    if c == b'\''
    then to_single
    else if c == b'"'
    then to_double
    else if c == b'\\'
    then to_escape
    else if contains_rune split_chars c
    then ok (buf ++ seg, cur)
    else more
split_from escape buf seg [] = err unterminated_escape
split_from escape buf seg (c ∷ cur) =
    split_from raw (if c == b'\n' then buf else buf ++ c ∷ []) [] cur
split_from single buf seg [] = err unterminated_single_quote
split_from single buf seg (c ∷ cur) =
    let to_raw = split_from raw (buf ++ seg) [] cur in
    let more = split_from single buf (seg ++ c ∷ []) cur in if c == b'\'' then to_raw else more
split_from double buf seg [] = err unterminated_double_quote
split_from double buf seg (c ∷ []) =
    if c == b'"' then ok (buf ++ seg, []) else err unterminated_double_quote
split_from double buf seg (c ∷ c2 ∷ cur) =
    let to_raw = split_from raw (buf ++ seg) [] (c2 ∷ cur) in
    let unescaped =
      split_from double (if c2 == b'\n' then buf ++ seg else (buf ++ seg) ++ c2 ∷ []) [] cur in
    let kept = split_from double buf (seg ++ c ∷ c2 ∷ []) cur in
    let more = split_from double buf (seg ++ c ∷ []) (c2 ∷ cur) in
    if c == b'"'
    then to_raw
    else if c == b'\\'
    then (if contains_rune double_escape_chars c2 then unescaped else kept)
    else more

unfoldable pub split_word : Text → Result (Text × Text)
split_word input = split_from raw [] [] input

-- One round of the loop of `StringToArgs`: a separator or an escaped newline is skipped, a
-- backslash at the end is an error, and all else starts a word.
pub data Round : Type 0 where
  skip : Text → Round
  fail : Round
  word : Round

unfoldable pub look : Text → Round
look [] = word
look (c ∷ []) = if contains_rune split_chars c then skip [] else if c == b'\\' then fail else word
look (c ∷ c2 ∷ rest) =
    if contains_rune split_chars c
    then skip (c2 ∷ rest)
    else if c == b'\\'
    then (if c2 == b'\n' then skip rest else word)
    else word

-- The loop of `StringToArgs`, with a bound on the rounds.
unfoldable pub args_loop : ℕ → Text → List Text → Result (List Text)
args_loop zero [] words = ok words
args_loop zero (c ∷ cs) words = stuck
args_loop (suc fuel) [] words = ok words
args_loop (suc fuel) (c ∷ cs) words = elim (look (c ∷ cs)) [
  | skip rest ↦ args_loop fuel rest words
  | fail ↦ err unterminated_escape
  | word ↦ elim (split_word (c ∷ cs)) [
    | ok (w, rest) ↦ args_loop fuel rest (words ++ w ∷ [])
    | err e ↦ err e
    | stuck ↦ stuck
  ]
]

-- Each round takes a character at least, so `length input` rounds are enough.
unfoldable pub string_to_args : Text → Result (List Text)
unfolding args_loop look split_word split_from
string_to_args input = args_loop (length input) input []
