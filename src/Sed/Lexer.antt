-- ===== src/Sed/Lexer.antt =====
-- gosed/lex.go: lex.
use gosutils.Prelude.{
  ℕ, zero, suc, ◌+◌, ◌||◌, List, [], ◌∷◌, ◌==◌, if◌then◌else◌, Option, none, some, length,
}
use gosutils.Prelude.Text.{Text}
use gosutils.Sed.Parse.{
  TokenType, num, rx, comma, bang, dollar, lbrace, rbrace, eol, cmd, change, label, Token,
}
use gosutils.Sed.Reader.{
  LexError, stuck, Reading, is_digit, skip_ws, read_number, read_delimited, read_multi_line,
  read_identifier, read_substitution, read_translation,
}

-- A token, the error of what was read for it, and the script behind.
abbrev pub plain : TokenType → ℕ → Text → Reading Token
plain ty cur text = record {
  value = record { typ = ty; letter = cur; args = [] };
  err = none;
  rest = text;
}

abbrev pub with_args : TokenType → ℕ → Reading (List Text) → Reading Token
with_args ty cur r = record {
  value = record { typ = ty; letter = cur; args = r.value };
  err = r.err;
  rest = r.rest;
}

abbrev pub with_arg : TokenType → ℕ → Reading Text → Reading Token
with_arg ty cur r = record {
  value = record { typ = ty; letter = cur; args = r.value ∷ [] };
  err = r.err;
  rest = r.rest;
}

-- The switch of `lex` on `cur`.
unfoldable pub lex_token : ℕ → Text → Reading Token
unfolding read_number read_delimited read_multi_line read_identifier read_substitution
    read_translation
lex_token cur text =
    if cur == b';'
    then plain eol cur text
    else if cur == b','
    then plain comma cur text
    else if cur == b'{'
    then plain lbrace cur text
    else if cur == b'}'
    then plain rbrace cur text
    else if cur == b'!'
    then plain bang cur text
    else if cur == b'/'
    then with_arg rx cur (read_delimited b'/' text)
    else if cur == b'$'
    then plain dollar cur text
    else if cur == b':'
    then with_arg label cur (read_identifier text)
    else if cur == b'b' || cur == b't'
    then with_arg cmd cur (read_identifier text)
    else if cur == b's'
    then with_args cmd cur (read_substitution text)
    else if cur == b'y'
    then with_args cmd cur (read_translation text)
    else if cur == b'c'
    then with_arg change cur (read_multi_line text)
    else if cur == b'i' || cur == b'a'
    then with_arg cmd cur (read_multi_line text)
    else if cur == b'r' || cur == b'w'
    then with_arg cmd cur (read_identifier text)
    else if is_digit cur
    then with_arg num cur (read_number cur text)
    else plain cmd cur text

-- The tokens that are sent, and the error at the end.
abbrev pub Lexed : Type 0
Lexed = List Token × LexError

abbrev pub on_error {ℓ} : {B : Type ℓ} → Option LexError → (LexError → B) → B → B
on_error none stop go = go
on_error (some e) stop go = stop e

-- The loop, with a bound on its rounds. Every round takes a rune.
unfoldable pub lex_loop : ℕ → Text → Lexed
unfolding lex_token skip_ws
lex_loop zero text = ([], stuck)
lex_loop (suc fuel) text =
    let s = skip_ws text in
    let t = lex_token s.value.0 s.rest in
    let rest = lex_loop fuel t.rest in
    on_error s.err (λ e. ([], e))
      (on_error t.err (λ e. (t.value ∷ [], e)) (t.value ∷ rest.0, rest.1))

unfoldable pub lex : Text → Lexed
unfolding lex_loop
lex text = lex_loop (length text + 1) text
