-- ===== src/Sed/Enough.antt =====
-- The number of tokens as the bound on the calls of `parse_toplevel` (gosed/parse.go).
use gosutils.Prelude.{
  ℕ, zero, suc, ◌+◌, ◌≤◌, ◌≡◌, ◌≢◌, sym, arith, Bool, true, false, List, [], ◌∷◌, ◌==◌, none, some,
  length, set, inl, inr, Bool-cases, Option-cases, subst, ltb,
}
use gosutils.Prelude.Text.{is_empty}
use gosutils.Sed.Host.{Host}
use gosutils.Sed.Conditions.{Condition, eof}
use gosutils.Sed.Instructions.{branch, simple_cond, two_cond, changer}
use gosutils.Sed.Parse.{
  TokenType, num, rx, comma, bang, dollar, lbrace, rbrace, eol, cmd, change, label, Token,
  bad_number, bad_regexp, unexpected_token, no_second_condition, not_a_block, stuck, bad_label,
  WaitingBranch, fail, push, arg, compile_label, find_label, end_of_program_label,
  print_unless_quiet, resolve_branches, branch_of,
}
use gosutils.Sed.Commands.{State}
use gosutils.Sed.Compile.{
  compile_block, compile_range, block_by, with_guard, range_by, twocond_by, cond_by, dispatch_by,
  compile_twocond, compile_cond, next_round, on_tokens, parse_toplevel, condition_number,
  condition_regexp, parse, Parsed, failed, program, conclude, complete, result, initial,
}
use gosutils.Sed.Sparing.{
  IsReal, IsSparing, Spares, around-Spares, cmd-Spares, condition-Spares, fails, if-Spares, pushes,
  Spares-trans, takes, token-Spares,
}

module _ (h : Host) where
  open h use {Regexp, read_file}

  -- `top` is the call of `parse_toplevel`, with the tokens that it is enough for.
  module _ (n : ℕ) (top : State h → State h) (spare : IsSparing h n top) where
    block_by-Spares : (ty : TokenType) (t : Token) → IsSparing h n (block_by h top ty t)
    unfolding block_by
    block_by-Spares lbrace t = λ ps le.
        let x = spare (record ps { block_level = ps.block_level + 1 }) le in
        record { fewer = x.fewer; real = x.real }
    block_by-Spares cmd t = cmd-Spares h n t
    block_by-Spares change t = cmd-Spares h n t
    block_by-Spares _ t = fails h n not_a_block tt

    block-Spares : (t : Token) → IsSparing h n (compile_block h top t)
    unfolding compile_block
    block-Spares t = block_by-Spares t.typ t

    guard-Spares :
        (f : ℕ → State h → State h)
        → ((k : ℕ) → IsSparing h n (f k))
        → IsSparing h n (with_guard h top f)
    guard-Spares f k ps le =
        let x = k ps.guards (record ps { guards = ps.guards + 1 }) le in
        record { fewer = x.fewer; real = x.real }

    range_by-Spares :
        (ty : TokenType) (c1 c2 : Condition Regexp) (t : Token)
        → IsSparing h n (range_by h top ty c1 c2 t)
    unfolding range_by
    range_by-Spares bang c1 c2 t = token-Spares h n _ (λ t2.
        guard-Spares _ (λ k.
          around-Spares h n (λ inside past. two_cond k c1 c2 past inside) _ (block-Spares t2)))
    range_by-Spares change c1 c2 t =
        guard-Spares _
          (λ k. around-Spares h n (two_cond k c1 c2) _ (pushes h n (changer (arg t 0) (some k))))
    range_by-Spares _ c1 c2 t =
        guard-Spares _ (λ k. around-Spares h n (two_cond k c1 c2) _ (block-Spares t))

    range-Spares : (c1 c2 : Condition Regexp) → IsSparing h n (compile_range h top c1 c2)
    unfolding compile_range
    range-Spares c1 c2 = token-Spares h n _ (λ t. range_by-Spares t.typ c1 c2 t)

    twocond_by-Spares :
        (ty : TokenType) (c : Condition Regexp) (t : Token)
        → IsSparing h n (twocond_by h top ty c t)
    unfolding twocond_by
    twocond_by-Spares num c t =
        condition-Spares h n (condition_number h t) bad_number _ tt (range-Spares c)
    twocond_by-Spares dollar c t = range-Spares c eof
    twocond_by-Spares rx c t =
        condition-Spares h n (condition_regexp h t) bad_regexp _ tt (range-Spares c)
    twocond_by-Spares _ c t = fails h n no_second_condition tt

    twocond-Spares : (c : Condition Regexp) → IsSparing h n (compile_twocond h top c)
    unfolding compile_twocond
    twocond-Spares c = token-Spares h n _ (λ t. twocond_by-Spares t.typ c t)

    cond_by-Spares :
        (ty : TokenType) (c : Condition Regexp) (t : Token) → IsSparing h n (cond_by h top ty c t)
    unfolding cond_by
    cond_by-Spares comma c t = twocond-Spares c
    cond_by-Spares bang c t =
        token-Spares h n _
          (λ t2. around-Spares h n (λ inside past. simple_cond c past inside) _ (block-Spares t2))
    cond_by-Spares _ c t = around-Spares h n (simple_cond c) _ (block-Spares t)

    cond-Spares : (c : Condition Regexp) → IsSparing h n (compile_cond h top c)
    unfolding compile_cond
    cond-Spares c = token-Spares h n _ (λ t. cond_by-Spares t.typ c t)

    label-Spares : (t : Token) → IsSparing h n (compile_label t)
    unfolding compile_label
    label-Spares t ps le =
        if-Spares h (is_empty (arg t 0)) (fails h n bad_label tt ps le)
          (record { fewer = omega arith; real = λ r. r })

    dispatch_by-Spares : (ty : TokenType) (t : Token) → IsSparing h n (dispatch_by h top ty t)
    unfolding dispatch_by
    dispatch_by-Spares cmd t = cmd-Spares h n t
    dispatch_by-Spares label t = label-Spares t
    dispatch_by-Spares num t =
        condition-Spares h n (condition_number h t) bad_number _ tt cond-Spares
    dispatch_by-Spares dollar t = cond-Spares eof
    dispatch_by-Spares rx t =
        condition-Spares h n (condition_regexp h t) bad_regexp _ tt cond-Spares
    dispatch_by-Spares eol t = λ ps le. record { fewer = omega arith; real = λ r. r }
    dispatch_by-Spares rbrace t = λ ps le.
        if-Spares h (ps.block_level == 0) (record { fewer = omega arith; real = λ r. tt })
          (record { fewer = omega arith; real = λ r. r })
    dispatch_by-Spares _ t = fails h n unexpected_token tt

  next-Spares :
      (n : ℕ) (b : Bool) (top : State h → State h)
      → IsSparing h n top
      → IsSparing h n (next_round h b top)
  next-Spares n true top k = k
  next-Spares n false top k = λ ps le. record { fewer = omega arith; real = λ r. r }

  round-Spares :
      (n : ℕ) (f : Token → State h → State h)
      → ((t : Token) → IsSparing h n (f t))
      → IsSparing h (suc n) (λ ps. on_tokens h ps.toks ps f)
  round-Spares n f k ps le = go ps.toks (omega arith)
    where
      go : (ts : List Token) → length ts ≤ length ps.toks → Spares h ps (on_tokens h ts ps f)
      go [] lt = record { fewer = omega arith; real = λ r. r }
      go (t ∷ rest) lt = takes h t rest ps (f t) lt (k t _ (omega arith))

  pub toplevel-Spares : (fuel : ℕ) → IsSparing h fuel (parse_toplevel h fuel)
  unfolding parse_toplevel
  toplevel-Spares zero ps le = none_left ps.toks (omega (arith, le))
    where
      none_left :
          (ts : List Token) → length ts ≤ 0 → Spares h ps (on_tokens h ts ps (λ t s. fail stuck s))
      none_left [] lt = record { fewer = omega arith; real = λ r. r }
      none_left (t ∷ ts) lt = absurd (omega arith)
  toplevel-Spares (suc fuel) ps le =
      round-Spares fuel _
        (λ t ps le.
          let once =
            dispatch_by-Spares fuel (parse_toplevel h fuel) (toplevel-Spares fuel) t.typ t ps le in
          Spares-trans h once
            (next-Spares fuel _ _ (toplevel-Spares fuel) _ (omega (arith, once.fewer))))
        ps le

  resolve-IsReal :
      (ws : List WaitingBranch) (ps : State h) → IsReal ps.err → IsReal (resolve_branches ws ps).err
  unfolding resolve_branches
  resolve-IsReal [] ps real = real
  resolve-IsReal (w ∷ ws) ps real = elim (Option-cases (find_label w.target ps.labels)) [
    | inl e ↦ rw (resolve_branches, e) tt
    | inr (place, e) ↦
        rw (resolve_branches, e)
          (resolve-IsReal ws (record ps { ins = set ps.ins w.ip (branch_of w.letter place) }) real)
  ]

  abbrev IsAnswer : Parsed h → Type 0
  IsAnswer (program ins) = Unit
  IsAnswer (failed e) = IsReal (some e)

  result-IsAnswer : (ps : State h) → IsReal ps.err → IsAnswer (result h ps)
  result-IsAnswer ps real = elim (Option-cases ps.err) [
    | inl e ↦ rw e tt
    | inr (x, e) ↦ rw e (subst IsReal e real)
  ]

  settled :
      (ps : State h)
      → ps.err ≡ none
      → ltb 0 ps.block_level ≡ false
      → conclude h ps ≡ result h (complete h ps)
  unfolding conclude
  settled ps e e' = ground arith

  conclude-IsAnswer : (ps : State h) → IsReal ps.err → IsAnswer (conclude h ps)
  unfolding conclude complete
  conclude-IsAnswer ps real = elim (Option-cases ps.err) [
    | inr (x, e) ↦ rw (conclude, e, e) (subst IsReal e real)
    | inl e ↦ elim (Bool-cases (ltb 0 ps.block_level)) [
      | inl e' ↦ rw (conclude, e, e') tt
      | inr e' ↦
          subst IsAnswer (sym (settled ps e e')) (result-IsAnswer (complete h ps) complete-IsReal)
    ]
  ]
    where
      complete-IsReal : IsReal (complete h ps).err
      complete-IsReal =
          let ps' : State h = record ps {
            labels = (end_of_program_label, length ps.ins) ∷ ps.labels;
          } in
          let printing : Spares h ps' (print_unless_quiet ps') =
            if-Spares h ps'.quiet (record { fewer = omega arith; real = λ r. r })
              (record { fewer = omega arith; real = λ r. r }) in
          resolve-IsReal ps.branches (push (branch 0) (print_unless_quiet ps')) (printing.real real)

  -- The compiler ends on every script with a program or one of its own errors: the bound on the
  -- rounds of `parse_toplevel`, which is the number of tokens, is never used up.
  pub parse-real : (toks : List Token) (quiet : Bool) → parse h toks quiet ≢ failed stuck
  unfolding parse
  parse-real toks quiet e =
      let start = initial h toks quiet in
      let spares = toplevel-Spares (length toks) start (omega arith) in
      subst IsAnswer e (conclude-IsAnswer (parse_toplevel h (length toks) start) (spares.real tt))
