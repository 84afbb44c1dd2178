-- ===== src/Sed/Scripts.antt =====
-- Scripts that the lexer of gosed reads, engines that are made of them, and the theorems on both at
-- concrete scripts.
use gosutils.Prelude.{
  ℕ, ◌≤◌, ◌≡◌, ◌≢◌, ◌↔◌, refl, arith, true, false, List, [], ◌∷◌, ◌++◌, none, length, replicate,
}
use gosutils.Prelude.Text.{Text, codes, All}
use gosutils.Sed.Conditions.{fresh}
use gosutils.Sed.Instructions.{exec}
use gosutils.Sed.Vm.{write_string}
use gosutils.Sed.Engine.{read, wrap}
use gosutils.Sed.Parse.{TokenType, num, rx, comma, lbrace, rbrace, eol, cmd, label, Token}
use gosutils.Sed.Safety.{Inside}
use gosutils.Sed.Reader.{eof, end_of_line, end_of_file, stuck, read_delimited, read_multi_line}
use gosutils.Sed.Lexer.{lex, lex_loop}
use gosutils.Sed.Readings.{Fits}
use gosutils.Sed.Lexed.{lex-Fits, lex-ends}
use gosutils.Sed.Delimited.{is_body, read_delimited-body}
use gosutils.Sed.Make.{make_engine, sent, unread}
use gosutils.Sed.Made.{make_engine-Inside, make_engine-Inevitable}
use gosutils.Sed.Channel.{Inevitable, launch}
use gosutils.Sed.Tests.{literal, output}

abbrev token : TokenType → ℕ → List Text → Token
token ty l args = record { typ = ty; letter = l; args = args }

-- A script with a comment, a range, a block and a label.
lex_run : lex (codes "2,/b/{s/a/b\\nb/g # twice\n}\n:end") ≡ (
  token num b'2' (codes "2" ∷ [])
      ∷ token comma b',' []
      ∷ token rx b'/' (codes "b" ∷ [])
      ∷ token lbrace b'{' []
      ∷ token cmd b's' (codes "a" ∷ codes "b\nb" ∷ codes "g" ∷ [])
      ∷ token eol b';' []
      ∷ token rbrace b'}' []
      ∷ token eol b';' []
      ∷ token label b':' (codes "end" ∷ [])
      ∷ [],
  eof,
)
unfolding lex
lex_run = refl

-- The script ends in a regular expression, and a line ends in one.
broken_run : ((lex (codes "/a")).1 ≡ end_of_file) × ((lex (codes "s/a\n/b/")).1 ≡ end_of_line)
unfolding lex
broken_run = (refl, refl)

-- A text of one character on the line of its command is lost, one of two is kept.
first_line_run :
    ((read_multi_line (codes "x\n")).value ≡ [])
    × ((read_multi_line (codes "xy\n")).value ≡ codes "xy\n")
    × ((read_multi_line (codes "\\\nx\n")).value ≡ codes "x\n")
unfolding read_multi_line
first_line_run = (refl, refl, refl)

-- An escaped backslash in front of the delimiter does not end the text.
backslash_run : (read_delimited b'/' (codes "a\\\\/b/")).value ≡ codes "a\\\\/b"
unfolding read_delimited
backslash_run = refl

abbrev doubling : Text
doubling = codes "2{s/a/bb/g;p}"

tokens_fit : All Fits (lex doubling).0
tokens_fit = lex-Fits doubling

lex-ends_example : (lex_loop 99 doubling ≡ lex doubling) × ((lex doubling).1 ≢ stuck)
lex-ends_example = lex-ends 99 doubling (omega arith)

read_delimited-body_example :
    (read_delimited b'/' (codes "a\\/b" ++ b'/' ∷ codes "c")
      ≡ record { value = codes "a\\/b"; err = none; rest = codes "c" })
    ↔ (is_body b'/' 0 (codes "a\\/b") ≡ true)
read_delimited-body_example = read_delimited-body b'/' (codes "a\\/b") (codes "c") (omega arith)

make_engine_run :
    output (
      read literal 100
        (make_engine literal doubling false).0
        100
        (wrap literal (codes "a" ∷ codes "ca" ∷ []) []))
    ≡ codes "a\ncbb\ncbb\n"
unfolding make_engine read exec write_string lex
make_engine_run = refl

make_engine-Inside_example : Inside (length (make_engine literal doubling false).0) (
    read literal 100
      (make_engine literal doubling false).0
      5
      (wrap literal (codes "aa" ∷ []) (fresh ∷ [])))
unfolding make_engine lex
make_engine-Inside_example =
    make_engine-Inside literal doubling false 100 5 (wrap literal (codes "aa" ∷ []) (fresh ∷ []))
      refl (omega arith)

make_engine-Inevitable_example :
    Inevitable (launch (sent literal doubling) (unread literal doubling false))
    ↔ (unread literal doubling false ≤ 128)
make_engine-Inevitable_example = make_engine-Inevitable literal doubling false

-- A brace too many, and more than 128 commands behind it.
unread_run :
    (unread literal (b'}' ∷ replicate 128 b'p') false ≡ 128)
    × (unread literal (b'}' ∷ replicate 129 b'p') false ≡ 129)
unfolding unread lex
unread_run = (refl, refl)
