-- ===== src/Sed/Readings.antt =====
-- What the readers of gosed/lex.go give: the arguments of a token, and no more of the script than there was.
use gosutils.Prelude.{
  ℕ, suc, ◌≤◌, ◌<◌, ◌≡◌, ◌≢◌, refl, arith, Bool, true, false, ◌||◌, List, [], ◌∷◌, ◌==◌,
  if◌then◌else◌, none, some, length,
}
use gosutils.Prelude.Text.{Text, All}
use gosutils.Sed.Parse.{TokenType, num, rx, cmd, change, label, Token}
use gosutils.Sed.Reader.{
  stuck, Reading, is_digit, skip_comment, skip_ws, read_number, delimited_from, read_delimited,
  replacement_from, read_replacement, multi_from, lines_of, read_multi_line, identifier_from,
  read_identifier, read_substitution, read_translation,
}
use gosutils.Sed.Lexer.{lex_token}

-- The arguments of a token that parse.go reads, by index.
unfoldable pub arity : TokenType → ℕ → ℕ
arity num l = 1
arity rx l = 1
arity label l = 1
arity change l = 1
arity cmd l =
    if l == b's'
    then 3
    else if l == b'y'
    then 2
    else if l == b'a' || (l == b'i' || (l == b'b' || (l == b't' || (l == b'r' || l == b'w'))))
    then 1
    else 0
arity _ l = 0

abbrev pub Fits : Token → Type 0
Fits t = arity t.typ t.letter ≤ length t.args

length-read_substitution : (text : Text) → length (read_substitution text).value ≡ 3
unfolding read_substitution
length-read_substitution [] = refl
length-read_substitution (d ∷ text) = ground arith

length-read_translation : (text : Text) → length (read_translation text).value ≡ 2
unfolding read_translation
length-read_translation [] = refl
length-read_translation (d ∷ text) = ground arith

pub lex_token-Fits : (cur : ℕ) (text : Text) → Fits (lex_token cur text).value
unfolding lex_token arity
lex_token-Fits cur text =
    ground (arith, length-read_substitution text, length-read_translation text)

-- Nothing is read twice, and no bound is used up.
abbrev pub IsShort : {A : Type 0} → ℕ → Reading A → Type 0
IsShort n r = (length r.rest ≤ n) × (r.err ≢ some stuck)

skip_comment-IsShort : (text : Text) → IsShort (length text) (skip_comment text)
unfolding skip_comment
skip_comment-IsShort [] = ground arith
skip_comment-IsShort (c ∷ cs) = ground (arith, skip_comment-IsShort cs)

-- A rune at least is taken, unless the script ends.
pub skip_ws-IsShort :
    (text : Text)
    → ((skip_ws text).err ≡ none → length (skip_ws text).rest < length text)
      × (length (skip_ws text).rest ≤ length text)
      × ((skip_ws text).err ≢ some stuck)
unfolding skip_ws
skip_ws-IsShort [] = ground arith
skip_ws-IsShort (c ∷ cs) = ground (arith, skip_comment-IsShort cs, skip_ws-IsShort cs)

read_number-IsShort : (c : ℕ) (text : Text) → IsShort (suc (length text)) (read_number c text)
unfolding read_number
read_number-IsShort c [] = ground arith
read_number-IsShort c (d ∷ text) = ground (arith, read_number-IsShort d text)

-- The number begins with the digit in hand.
pub read_number-first :
    (c : ℕ) (text : Text) → is_digit c ≡ true → IsShort (length text) (read_number c text)
unfolding read_number
read_number-first c [] h = ground arith
read_number-first c (d ∷ text) h = ground (arith, read_number-IsShort d text)

delimited-IsShort : (d p : ℕ) (text : Text) → IsShort (length text) (delimited_from d p text)
unfolding delimited_from
delimited-IsShort d p [] = ground arith
delimited-IsShort d p (c ∷ text) = ground (arith, delimited-IsShort d c text)

replacement-IsShort : (d p : ℕ) (text : Text) → IsShort (length text) (replacement_from d p text)
unfolding replacement_from
replacement-IsShort d p [] = ground arith
replacement-IsShort d p (c ∷ text) = ground (
  arith,
  replacement-IsShort d p text,
  replacement-IsShort d c text,
  replacement-IsShort d b' ' text,
)

pub read_delimited-IsShort : (d : ℕ) (text : Text) → IsShort (length text) (read_delimited d text)
unfolding read_delimited
read_delimited-IsShort d text = delimited-IsShort d 0 text

read_replacement-IsShort : (d : ℕ) (text : Text) → IsShort (length text) (read_replacement d text)
unfolding read_replacement
read_replacement-IsShort d text = replacement-IsShort d 0 text

identifier-IsShort : (c : ℕ) (text : Text) → IsShort (suc (length text)) (identifier_from c text)
unfolding identifier_from
identifier-IsShort c [] = ground arith
identifier-IsShort c (d ∷ text) = ground (arith, identifier-IsShort d text)

pub read_identifier-IsShort : (text : Text) → IsShort (length text) (read_identifier text)
unfolding read_identifier
read_identifier-IsShort text =
    ground
      (arith, skip_ws-IsShort text, identifier-IsShort (skip_ws text).value.0 (skip_ws text).rest)

-- What stands behind a line is no longer than the script.
abbrev Behind : ℕ → Text × Bool × Text → Type 0
Behind n line = length line.2 ≤ n

All-Behind_mono :
    (m n : ℕ)
    → m ≤ n
    → (lines : List (Text × Bool × Text)) → All (Behind m) lines
    → All (Behind n) lines
All-Behind_mono m n h [] hs = tt
All-Behind_mono m n h (l ∷ ls) hs = (omega (arith, hs.0), All-Behind_mono m n h ls hs.1)

lines_of-Behind : (text : Text) → All (Behind (length text)) (lines_of text)
unfolding lines_of
lines_of-Behind [] = tt
lines_of-Behind (c ∷ cs) = ground (
  arith,
  All-Behind_mono (length cs) (suc (length cs)) (omega arith) (lines_of cs) (lines_of-Behind cs),
  lines_of-Behind cs,
)

multi-IsShort :
    (n : ℕ) (first : Bool) (lines : List (Text × Bool × Text))
    → All (Behind n) lines
    → IsShort n (multi_from first lines)
unfolding multi_from
multi-IsShort n first [] h = ground arith
multi-IsShort n first ((line, ended, behind) ∷ lines) h =
    ground (arith, multi-IsShort n false lines h.1)

pub read_multi_line-IsShort : (text : Text) → IsShort (length text) (read_multi_line text)
unfolding read_multi_line
read_multi_line-IsShort text =
    multi-IsShort (length text) true (lines_of text) (lines_of-Behind text)

pub read_substitution-IsShort : (text : Text) → IsShort (length text) (read_substitution text)
unfolding read_substitution
read_substitution-IsShort [] = ground arith
read_substitution-IsShort (d ∷ text) =
    let a = read_delimited d text in
    let b = read_replacement d a.rest in
    ground (
      arith,
      read_delimited-IsShort d text,
      read_replacement-IsShort d a.rest,
      read_identifier-IsShort b.rest,
    )

pub read_translation-IsShort : (text : Text) → IsShort (length text) (read_translation text)
unfolding read_translation
read_translation-IsShort [] = ground arith
read_translation-IsShort (d ∷ text) =
    ground
      (arith, read_delimited-IsShort d text, read_delimited-IsShort d (read_delimited d text).rest)
