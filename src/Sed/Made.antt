-- ===== src/Sed/Made.antt =====
-- gosed/engine.go: what makeEngine promises of the engine and of its error.
use gosutils.Prelude.{ℕ, ◌+◌, ◌≤◌, ◌<◌, ◌≡◌, ◌≢◌, ◌↔◌, arith, Bool, Option, none, some, length}
use gosutils.Prelude.Text.{Text}
use gosutils.Sed.Host.{Host}
use gosutils.Sed.Vm.{Vm}
use gosutils.Sed.Engine.{read}
use gosutils.Sed.Parse.{stuck}
use gosutils.Sed.Commands.{State}
use gosutils.Sed.Reader.{LexError, eof, end_of_line, end_of_file, stuck}
use gosutils.Sed.Lexer.{lex}
use gosutils.Sed.Lexed.{lex-ends}
use gosutils.Sed.Compile.{program, conclude, parse, initial}
use gosutils.Sed.Safety.{Inside}
use gosutils.Sed.Accepted.{read-parse-Inside}
use gosutils.Sed.Enough.{parse-real, toplevel-Spares}
use gosutils.Sed.Make.{
  MakeError, lexing, parsing, instructions, parse_error, first_error, parsed, make_engine, sent,
  unread,
}
use gosutils.Sed.Channel.{Inevitable, launch}
use gosutils.Sed.Delivered.{launch-Inevitable}

module _ (h : Host) where
  open h use {Regexp}

  conclude-instructions :
      (ps : State h)
      → parse_error h (conclude h ps) ≡ none
      → conclude h ps ≡ program (instructions h ps)
  unfolding conclude
  conclude-instructions ps e = ground arith

  first_error-none :
      (e : LexError) (p : Option MakeError) → first_error h e p ≡ none → (e ≡ eof) × (p ≡ none)
  first_error-none eof p h = ground arith
  first_error-none end_of_line p h = cc
  first_error-none end_of_file p h = cc
  first_error-none stuck p h = cc

  -- Whatever the script: when makeEngine gives no error, its engine, run on any input by calls of
  -- `Read` with buffers of any size, never has `v.ins[v.ip]` out of range, in this call or, since
  -- `ip` stays inside the program, in a later one.
  pub make_engine-Inside :
      (script : Text) (quiet : Bool) (fuel n : ℕ) (v : Vm)
      → (make_engine h script quiet).1 ≡ none
      → v.ip < length (make_engine h script quiet).0
      → Inside
          (length (make_engine h script quiet).0)
          (read h fuel (make_engine h script quiet).0 n v)
  unfolding make_engine
  make_engine-Inside script quiet fuel n v e here =
      let toks = (lex script).0 in
      let both = first_error-none (lex script).1 _ e in
      read-parse-Inside h toks quiet (instructions h (parsed h toks quiet)) fuel n v
        (unfold parse in conclude-instructions (parsed h toks quiet) both.1) here

  -- The error of makeEngine is one of the lexer's or of the parser's own.
  pub make_engine-real :
      (script : Text) (quiet : Bool)
      → ((make_engine h script quiet).1 ≢ some (lexing stuck))
        × ((make_engine h script quiet).1 ≢ some (parsing stuck))
  unfolding make_engine
  make_engine-real script quiet =
      let toks = (lex script).0 in
      ground (arith, lex-ends (length script + 1) script (omega arith), parse-real h toks quiet)

  -- Whatever the scheduler does, makeEngine returns, exactly when the parser leaves at most 128 of the
  -- tokens of the script unread.
  pub make_engine-Inevitable :
      (script : Text) (quiet : Bool)
      → Inevitable (launch (sent h script) (unread h script quiet)) ↔ (unread h script quiet ≤ 128)
  unfolding unread
  make_engine-Inevitable script quiet =
      let toks = (lex script).0 in
      let spares = toplevel-Spares h (length toks) (initial h toks quiet) (omega arith) in
      launch-Inevitable (sent h script) (unread h script quiet) spares.fewer
