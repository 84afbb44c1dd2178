-- ===== src/Sed/Compile.antt =====
-- gosed/parse.go: parse, parse_toplevel, compile_cond, compile_twocond and compile_block.
use gosutils.Prelude.{
  ℕ, zero, suc, ◌+◌, ◌-◌, Bool, true, false, List, [], ◌∷◌, ◌==◌, if◌then◌else◌, Option, none, some,
  length, set, ltb,
}
use gosutils.Sed.Host.{Host}
use gosutils.Sed.Conditions.{Condition, number, eof, regexp}
use gosutils.Sed.Instructions.{Instr, fill_next, branch, simple_cond, two_cond, changer}
use gosutils.Sed.Parse.{
  TokenType, num, rx, comma, bang, dollar, lbrace, rbrace, eol, cmd, change, label, Token,
  ParseError, bad_number, bad_regexp, unexpected_brace, unexpected_token, end_of_script,
  no_second_condition, not_a_block, missing_brace, stuck, fail, push, arg, end_of_program_label,
  compile_label, print_unless_quiet, resolve_branches, find_label,
}
use gosutils.Sed.Commands.{State, compile_cmd}

module _ (h : Host) where
  open h use {Regexp, compile, atoi}

  -- `mustGetToken`, with what follows it on a token.
  abbrev pub take_token : List Token → State h → (Token → State h → State h) → State h
  take_token [] ps f = fail end_of_script ps
  take_token (t ∷ rest) ps f = f t (record ps { toks = rest })

  abbrev pub with_token : State h → (Token → State h → State h) → State h
  with_token ps f = take_token ps.toks ps f

  abbrev pub condition_number : Token → Option (Condition Regexp)
  condition_number t = elim (atoi (arg t 0)) [ none ↦ none | some n ↦ some (number n) ]

  abbrev pub condition_regexp : Token → Option (Condition Regexp)
  condition_regexp t = elim (compile (arg t 0)) [ none ↦ none | some re ↦ some (regexp re) ]

  abbrev pub with_condition :
      Option (Condition Regexp)
      → ParseError
      → State h
      → (Condition Regexp → State h → State h)
      → State h
  with_condition none e ps f = fail e ps
  with_condition (some c) e ps f = f c ps

  -- An instruction whose jump past the block is filled in when the block is compiled: `make` takes
  -- the place behind the instruction and the place behind the block.
  abbrev pub around : (ℕ → ℕ → Instr Regexp) → (State h → State h) → State h → State h
  around make block ps =
      let at = length ps.ins in
      let ps' = block (push (make (at + 1) 0) ps) in
      record ps' { ins = set ps'.ins at (make (at + 1) (length ps'.ins)) }

  -- `top` is the call of `parse_toplevel`.
  module _ (top : State h → State h) where
    -- The switches are on the type of a token, which is the first argument.
    unfoldable pub block_by : TokenType → Token → State h → State h
    unfolding compile_cmd
    block_by lbrace t ps = top (record ps { block_level = ps.block_level + 1 })
    block_by cmd t ps = compile_cmd h t ps
    block_by change t ps = compile_cmd h t ps
    block_by _ t ps = fail not_a_block ps

    unfoldable pub compile_block : Token → State h → State h
    unfolding block_by
    compile_block t ps = block_by t.typ t ps

    -- `newTwoCond`: `k` is the number of the guard.
    abbrev pub with_guard : (ℕ → State h → State h) → State h → State h
    with_guard f ps = f ps.guards (record ps { guards = ps.guards + 1 })

    -- `compile_twocond` behind the second condition, on the token that comes next.
    unfoldable pub range_by :
        TokenType → Condition Regexp → Condition Regexp → Token → State h → State h
    unfolding compile_block
    range_by bang c1 c2 t ps = with_token ps (λ t2.
        with_guard (λ k. around (λ inside past. two_cond k c1 c2 past inside) (compile_block t2)))
    range_by change c1 c2 t ps =
        with_guard
          (λ k.
            around (λ inside past. two_cond k c1 c2 inside past)
              (push (changer (arg t 0) (some k))))
          ps
    range_by _ c1 c2 t ps =
        with_guard (λ k. around (λ inside past. two_cond k c1 c2 inside past) (compile_block t)) ps

    unfoldable pub compile_range : Condition Regexp → Condition Regexp → State h → State h
    unfolding range_by
    compile_range c1 c2 ps = with_token ps (λ t. range_by t.typ c1 c2 t)

    unfoldable pub twocond_by : TokenType → Condition Regexp → Token → State h → State h
    unfolding compile_range
    twocond_by num c1 t ps = with_condition (condition_number t) bad_number ps (compile_range c1)
    twocond_by dollar c1 t ps = compile_range c1 eof ps
    twocond_by rx c1 t ps = with_condition (condition_regexp t) bad_regexp ps (compile_range c1)
    twocond_by _ c1 t ps = fail no_second_condition ps

    unfoldable pub compile_twocond : Condition Regexp → State h → State h
    unfolding twocond_by
    compile_twocond c1 ps = with_token ps (λ t. twocond_by t.typ c1 t)

    unfoldable pub cond_by : TokenType → Condition Regexp → Token → State h → State h
    unfolding compile_twocond compile_block
    cond_by comma c t ps = compile_twocond c ps
    cond_by bang c t ps =
        with_token ps (λ t2. around (λ inside past. simple_cond c past inside) (compile_block t2))
    cond_by _ c t ps = around (λ inside past. simple_cond c inside past) (compile_block t) ps

    unfoldable pub compile_cond : Condition Regexp → State h → State h
    unfolding cond_by
    compile_cond c ps = with_token ps (λ t. cond_by t.typ c t)

    -- The switch of `parse_toplevel`.
    unfoldable pub dispatch_by : TokenType → Token → State h → State h
    unfolding compile_cmd compile_label compile_cond
    dispatch_by cmd t ps = compile_cmd h t ps
    dispatch_by label t ps = compile_label t ps
    dispatch_by num t ps = with_condition (condition_number t) bad_number ps compile_cond
    dispatch_by dollar t ps = compile_cond eof ps
    dispatch_by rx t ps = with_condition (condition_regexp t) bad_regexp ps compile_cond
    dispatch_by eol t ps = ps
    dispatch_by rbrace t ps =
        if ps.block_level == 0
        then record ps { err = some unexpected_brace; block_level = ps.block_level - 1 }
        else record ps { block_level = ps.block_level - 1 }
    dispatch_by _ t ps = fail unexpected_token ps

    unfoldable pub dispatch : Token → State h → State h
    unfolding dispatch_by
    dispatch t ps = dispatch_by t.typ t ps

  -- Whether the loop of `parse_toplevel` goes on.
  abbrev pub goes_on : TokenType → Option ParseError → Bool
  goes_on rbrace e = false
  goes_on _ (some e) = false
  goes_on _ none = true

  abbrev pub next_round : Bool → (State h → State h) → State h → State h
  next_round true top ps = top ps
  next_round false top ps = ps

  -- `for tok := range ps.toks`, one round of it.
  abbrev pub on_tokens : List Token → State h → (Token → State h → State h) → State h
  on_tokens [] ps f = ps
  on_tokens (t ∷ rest) ps f = f t (record ps { toks = rest })

  -- The loop of `parse_toplevel`, with a bound on the tokens.
  unfoldable pub parse_toplevel : ℕ → State h → State h
  unfolding dispatch
  parse_toplevel zero ps = on_tokens ps.toks ps (λ t s. fail stuck s)
  parse_toplevel (suc fuel) ps = on_tokens ps.toks ps (λ t s.
      next_round (goes_on t.typ (dispatch (parse_toplevel fuel) t s).err) (parse_toplevel fuel)
        (dispatch (parse_toplevel fuel) t s))

  pub data Parsed : Type 0 where
    program : List (Instr Regexp) → Parsed
    failed : ParseError → Parsed

  abbrev pub initial : List Token → Bool → State h
  initial toks quiet = record {
    toks = toks;
    ins = fill_next ∷ [];
    branches = [];
    labels = [];
    block_level = 0;
    quiet = quiet;
    err = none;
    guards = 0;
  }

  -- `parse` behind `parse_toplevel`, when there is no error.
  unfoldable pub complete : State h → State h
  unfolding resolve_branches find_label
  complete ps =
      let ps' = record ps { labels = (end_of_program_label, length ps.ins) ∷ ps.labels } in
      resolve_branches ps.branches (push (branch 0) (print_unless_quiet ps'))

  abbrev pub result : State h → Parsed
  result ps = elim ps.err [ none ↦ program ps.ins | some e ↦ failed e ]

  abbrev pub check_braces : State h → State h
  check_braces ps = elim ps.err [
    | none ↦ if ltb 0 ps.block_level then fail missing_brace ps else ps
    | some e ↦ ps
  ]

  -- `parse` behind `parse_toplevel`.
  unfoldable pub conclude : State h → Parsed
  conclude ps = elim (check_braces ps).err [
    | none ↦ result (complete (check_braces ps))
    | some e ↦ failed e
  ]

  -- `parse`. Each call of `parse_toplevel` takes a token before it makes another.
  unfoldable pub parse : List Token → Bool → Parsed
  unfolding parse_toplevel complete conclude
  parse toks quiet = conclude (parse_toplevel (length toks) (initial toks quiet))
