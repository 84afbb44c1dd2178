-- ===== src/ShellWords/Parser.antt =====
-- cmdshellwords/util.go: parserposix, with Parser and replaceEnv of cmdshellwords/parser.go.
use gosutils.Prelude.{
  ℕ, ◌+◌, ◌-◌, Bool, true, false, not, ◌&&◌, ◌||◌, List, [], ◌∷◌, ◌++◌, ◌==◌, if◌then◌else◌, Option,
  none, some, length, take, ltb, leb,
}
use gosutils.Prelude.Text.{Text}

-- The error of an unbalanced line, an error of `shellRun`, and the panic of a slice out of range.
pub data ParseError : Type 0 where
  invalid_line slice_panic : ParseError
  shell_error : Text → ParseError

pub data Result {ℓ} (A : Type ℓ) : Type ℓ where
  ok : A → Result A
  err : ParseError → Result A

infixl 5 ◌>>=◌
abbrev pub ◌>>=◌ {ℓ κ} : {A : Type ℓ} {B : Type κ} → Result A → (A → Result B) → Result B
ok a >>= f = f a
err e >>= f = err e

-- `isSpace` of parser.go.
unfoldable pub is_space : ℕ → Bool
is_space r = r == b' ' || r == b'\t' || r == b'\r' || r == b'\n'

-- The local variables of `parserposix`.
pub record State : Type 0 where
  pub args : List Text
  pub buf : Text
  pub escaped : Bool
  pub double_quoted : Bool
  pub single_quoted : Bool
  pub back_quote : Bool
  pub dollar_quote : Bool
  pub backtick : Text
  pub got : Bool

abbrev pub start : State
start = record {
  args = [];
  buf = [];
  escaped = false;
  double_quoted = false;
  single_quoted = false;
  back_quote = false;
  dollar_quote = false;
  backtick = [];
  got = false;
}

-- What the loop's body does with a character: `continue` or fall off its end, `break loop` with
-- `pos`, or return an error.
pub data Outcome : Type 0 where
  next : State → Outcome
  stop : State → ℕ → Outcome
  fail : ParseError → Outcome

-- An error of a call ends the parse.
abbrev pub try {ℓ} : {A : Type ℓ} → Result A → (A → State) → Outcome
try (ok a) f = next (f a)
try (err e) f = fail e

-- Where the loop goes from an outcome.
abbrev pub follow : Outcome → (State → Result (State × Option ℕ)) → Result (State × Option ℕ)
follow (next s) rest = rest s
follow (stop s pos) rest = ok (s, some pos)
follow (fail e) rest = err e

-- The bytes of a character in UTF-8: `range` counts positions in bytes.
unfoldable pub rune_len : ℕ → ℕ
rune_len r = if ltb r 0x80 then 1 else if ltb r 0x800 then 2 else if ltb r 0x10000 then 3 else 4

-- `strings.HasSuffix(buf, "$")`.
unfoldable pub ends_in_dollar : Text → Bool
ends_in_dollar [] = false
ends_in_dollar (c ∷ []) = c == b'$'
ends_in_dollar (c ∷ d ∷ cs) = ends_in_dollar (d ∷ cs)

abbrev pub in_quotes : State → Bool
in_quotes s = s.single_quoted || s.double_quoted || s.back_quote || s.dollar_quote

-- The end of the loop's body.
abbrev pub take_rune : ℕ → State → Outcome
take_rune r s = next (record s {
  got = true;
  buf = s.buf ++ r ∷ [];
  backtick = if s.back_quote || s.dollar_quote then s.backtick ++ r ∷ [] else s.backtick;
})

-- The digit in front of `>`, as in `2>`, is no argument.
unfoldable pub is_fd : ℕ → Text → Bool
is_fd r [] = false
is_fd r (c ∷ cs) = r == b'>' && (leb b'0' c && leb c b'9')

-- The test of the case `;`, `&`, `|`, `<`, `>`.
unfoldable pub is_operator : ℕ → Bool
is_operator r = r == b';' || r == b'&' || r == b'|' || r == b'<' || r == b'>'

-- The break of the loop at an operator: `pos`, and whether the buffer still counts as an argument.
unfoldable pub on_operator : ℕ → ℕ → State → Outcome
unfolding is_fd
on_operator i r s =
    if in_quotes s || s.escaped
    then take_rune r s
    else if is_fd r s.buf
    then stop (record s { got = false }) (i - 1)
    else stop s i

unfoldable pub on_open : State → Outcome
unfolding ends_in_dollar
on_open s =
    if s.single_quoted || s.double_quoted || s.back_quote
    then take_rune b'(' s
    else if not s.dollar_quote && ends_in_dollar s.buf
    then next (record s { dollar_quote = true; buf = s.buf ++ b'(' ∷ [] })
    else fail invalid_line

unfoldable pub on_double : State → Outcome
on_double s =
    if s.single_quoted || s.dollar_quote
    then take_rune b'"' s
    else next (record s { got = s.double_quoted || s.got; double_quoted = not s.double_quoted })

unfoldable pub on_single : State → Outcome
on_single s =
    if s.double_quoted || s.dollar_quote
    then take_rune b'\'' s
    else next (record s { got = s.single_quoted || s.got; single_quoted = not s.single_quoted })

-- `parse_backtick` is the parser's option, `shell_run` is `shellRun` in the parser's directory
-- (os/exec), `emit` is the code that adds the finished buffer to the arguments.
module _ (parse_backtick : Bool) (shell_run : Text → Result Text)
    (emit : Text → List Text → Result (List Text)) where
  -- `buf = buf[:len(buf)-len(backtick)-k] + out`; lengths are in characters, which are bytes on an
  -- ASCII line.
  unfoldable pub run_tail : Text → Text → ℕ → Result Text
  run_tail buf backtick k = shell_run backtick >>= λ out.
      if ltb (length buf) (length backtick + k)
      then err slice_panic
      else ok (take (length buf - length backtick - k) buf ++ out)

  unfoldable pub on_back_quote : State → Outcome
  unfolding run_tail
  on_back_quote s =
      let replaced =
        try (run_tail s.buf s.backtick 0)
          (λ b. record s { buf = b; backtick = []; back_quote = false }) in
      if s.single_quoted || s.double_quoted || s.dollar_quote
      then take_rune b'`' s
      else if not parse_backtick
      then take_rune b'`' (record s { backtick = []; back_quote = not s.back_quote })
      else if s.back_quote
      then replaced
      else next (record s { backtick = []; back_quote = true })

  unfoldable pub on_close : State → Outcome
  unfolding run_tail
  on_close s =
      let replaced =
        try (run_tail s.buf s.backtick 2)
          (λ b. record s { buf = b; backtick = []; dollar_quote = false }) in
      if s.single_quoted || s.double_quoted || s.back_quote
      then take_rune b')' s
      else if not parse_backtick
      then take_rune b')' (record s { backtick = []; dollar_quote = not s.dollar_quote })
      else if s.dollar_quote
      then replaced
      else next (record s { backtick = []; dollar_quote = true })

  unfoldable pub on_space : ℕ → State → Outcome
  on_space r s =
      let flushed = try (emit s.buf s.args) (λ a. record s { args = a; buf = []; got = false }) in
      if in_quotes s
      then next (record s { buf = s.buf ++ r ∷ []; backtick = s.backtick ++ r ∷ [] })
      else if s.got
      then flushed
      else next s

  -- The body of the loop, at byte `i`.
  unfoldable pub step : ℕ → ℕ → State → Outcome
  unfolding is_space is_operator on_space on_back_quote on_close on_open on_double on_single
      on_operator
  step i r s =
      if s.escaped
      then next (record s { buf = s.buf ++ r ∷ []; escaped = false })
      else if r == b'\\'
      then (if s.single_quoted
          then next (record s { buf = s.buf ++ r ∷ [] })
          else next (record s { escaped = true }))
      else if is_space r
      then on_space r s
      else if r == b'`'
      then on_back_quote s
      else if r == b')'
      then on_close s
      else if r == b'('
      then on_open s
      else if r == b'"'
      then on_double s
      else if r == b'\''
      then on_single s
      else if is_operator r
      then on_operator i r s
      else take_rune r s

  -- The loop, with the final state and `pos`; `none` is -1.
  unfoldable pub loop : ℕ → Text → State → Result (State × Option ℕ)
  loop i [] s = ok (s, none)
  loop i (r ∷ line) s = follow (step i r s) (λ s'. loop (i + rune_len r) line s')

  -- The code behind the loop: the arguments, and what becomes `p.Position`.
  unfoldable pub finish : State → Option ℕ → Result (List Text × Option ℕ)
  finish s pos =
      let flushed = if s.got then emit s.buf s.args else ok s.args in
      flushed >>= λ args. if s.escaped || in_quotes s then err invalid_line else ok (args, pos)

  unfoldable pub parse_posix : Text → Result (List Text × Option ℕ)
  unfolding loop step finish rune_len
  parse_posix line = do (s, pos) ← loop 0 line start; finish s pos

-- `args = append(args, buf)`, with ParseEnv false.
unfoldable pub append_arg : Text → List Text → Result (List Text)
append_arg buf args = ok (args ++ buf ∷ [])

-- `replaceEnv`: `replace_all` is `envRe.ReplaceAllStringFunc` (regexp), which hands each `$NAME`
-- and `${NAME}` to the function.
unfoldable pub env_name : Text → Text
env_name [] = []
env_name (dollar ∷ []) = []
env_name (dollar ∷ c ∷ cs) = if c == b'{' then take (length cs - 1) cs else c ∷ cs

unfoldable pub replace_env : ((Text → Text) → Text → Text) → (Text → Text) → Text → Text
unfolding env_name
replace_env replace_all getenv = replace_all (λ m. getenv (env_name m))

-- The fields of `Parser`, but for `Position`, which is a result, and `Dir`, which `shell_run` has.
pub record Parser : Type 0 where
  pub parse_env : Bool
  pub parse_backtick : Bool
  pub getenv : Text → Text

-- `NewParser` with the package's default variables.
abbrev pub new_parser : (Text → Text) → Parser
new_parser getenv = record { parse_env = false; parse_backtick = false; getenv = getenv }

module _ (replace_all : (Text → Text) → Text → Text) (shell_run : Text → Result Text) where
  -- With ParseEnv the buffer is expanded and split again by a parser with neither option.
  unfoldable pub emit_arg : Parser → Text → List Text → Result (List Text)
  unfolding append_arg parse_posix
  emit_arg p buf args =
      if p.parse_env
      then (parse_posix false shell_run append_arg (replace_env replace_all p.getenv buf) >>= λ r.
          ok (args ++ r.0))
      else append_arg buf args

  -- `Parser.ParsePosix`.
  unfoldable pub parse : Parser → Text → Result (List Text × Option ℕ)
  unfolding emit_arg parse_posix
  parse p line = parse_posix p.parse_backtick shell_run (emit_arg p) line

  -- `Split` and `SplitPosix`.
  unfoldable pub split : (Text → Text) → Text → Result (List Text)
  unfolding parse
  split getenv line = do (args, pos) ← parse (new_parser getenv) line; ok args
