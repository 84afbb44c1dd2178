-- ===== src/Sed/Make.antt =====
-- gosed/engine.go: makeEngine, New and NewQuiet, where makeEngine returns (see `Channel`).
use gosutils.Prelude.{ℕ, Bool, true, false, List, [], Option, none, some, length}
use gosutils.Prelude.Text.{Text}
use gosutils.Sed.Host.{Host}
use gosutils.Sed.Instructions.{Instr}
use gosutils.Sed.Parse.{Token, ParseError}
use gosutils.Sed.Commands.{State}
use gosutils.Sed.Reader.{LexError, eof}
use gosutils.Sed.Lexer.{lex}
use gosutils.Sed.Compile.{
  Parsed, program, failed, check_braces, complete, parse, parse_toplevel, initial,
}

pub data MakeError : Type 0 where
  lexing : LexError → MakeError
  parsing : ParseError → MakeError

module _ (h : Host) where
  open h use {Regexp}

  -- The first value of `parse`: an error of parse_resolveBranches leaves the instructions there.
  abbrev pub instructions : State h → List (Instr Regexp)
  instructions ps = elim (check_braces h ps).err [
    | none ↦ (complete h (check_braces h ps)).ins
    | some e ↦ []
  ]

  abbrev pub parse_error : Parsed h → Option MakeError
  parse_error (program ins) = none
  parse_error (failed e) = some (parsing e)

  -- `err == io.EOF` is no error of the lexer.
  abbrev pub first_error : LexError → Option MakeError → Option MakeError
  first_error eof parse_err = parse_err
  first_error e parse_err = some (lexing e)

  -- What parse_toplevel leaves.
  abbrev pub parsed : List Token → Bool → State h
  parsed toks quiet = parse_toplevel h (length toks) (initial h toks quiet)

  -- The instructions of the engine, which is returned with an error too, and the error.
  unfoldable pub make_engine : Text → Bool → List (Instr Regexp) × Option MakeError
  unfolding parse lex
  make_engine script quiet =
      let toks = (lex script).0 in
      (
        instructions (parsed toks quiet),
        first_error (lex script).1 (parse_error (parse h toks quiet)),
      )

  abbrev pub new_engine : Text → List (Instr Regexp) × Option MakeError
  new_engine script = make_engine script false

  abbrev pub new_quiet : Text → List (Instr Regexp) × Option MakeError
  new_quiet script = make_engine script true

  -- How many tokens the lexer sends, and how many of them the parser leaves in the channel.
  abbrev pub sent : Text → ℕ
  sent script = length (lex script).0

  unfoldable pub unread : Text → Bool → ℕ
  unfolding parse_toplevel
  unread script quiet = length (parsed (lex script).0 quiet).toks
