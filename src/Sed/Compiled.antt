-- ===== src/Sed/Compiled.antt =====
-- The invariant of the compiler of gosed/parse.go, for each part of it.
use gosutils.Prelude.{
  ℕ, zero, suc, ◌+◌, ◌-◌, ◌<◌, arith, Bool, true, false, List, [], ◌∷◌, ◌==◌, ◌||◌, Option, none,
  some, length,
}
use gosutils.Sed.Host.{Host}
use gosutils.Sed.Conditions.{Condition, eof}
use gosutils.Sed.Instructions.{
  Instr, quit, swap, get, hold, getapp, holdapp, print, print_first_line, delete_first_line, lineno,
  fill_next, fill_next_append, branch, simple_cond, two_cond, changer, appender, inserter, writer,
  substitute, translate,
}
use gosutils.Sed.Parse.{
  TokenType, num, rx, comma, bang, dollar, lbrace, rbrace, eol, cmd, change, label, Token,
  ParseError, bad_number, bad_regexp, unexpected_brace, unexpected_token, end_of_script,
  no_second_condition, not_a_block, no_reader, bad_substitution, bad_translation, unknown_command,
  stuck, push, arg, print_unless_quiet,
}
use gosutils.Sed.Commands.{State, push_or, compile_cmd, new_substitution, new_translation}
use gosutils.Sed.Compile.{
  with_token, take_token, with_condition, around, compile_block, compile_range, block_by,
  with_guard, range_by, twocond_by, cond_by, dispatch_by, compile_twocond, compile_cond, next_round,
  on_tokens, parse_toplevel, condition_number, condition_regexp,
}
use gosutils.Sed.Safety.{Targets}
use gosutils.Sed.Growth.{
  set-Grows, IsGood, Grows, Keeps, Grows_trans, kept, failed-Grows, push-Grows, if-Grows,
  label-Grows, print_unless_quiet-Grows, branch-Grows, length_snoc,
}

module _ (h : Host) where
  open h use {Regexp, read_file}

  push_or-Grows {ℓ} :
      {A : Type ℓ} (o : Option A) (f : A → Instr Regexp) (e : ParseError) (ps : State h)
      → ((a : A) → Targets (suc (suc (length ps.ins))) (f a))
      → IsGood ps
      → Grows ps (push_or h o f e ps)
  push_or-Grows none f e ps t g = failed-Grows e ps g
  push_or-Grows (some a) f e ps t g = push-Grows (f a) ps (t a) g

  printed :
      (i : Instr Regexp) (ps : State h)
      → ((n : ℕ) → Targets n i)
      → IsGood ps
      → Grows ps (push i (print_unless_quiet ps))
  printed i ps t g =
      let p = print_unless_quiet-Grows ps g in
      Grows_trans p (push-Grows i (print_unless_quiet ps) (t _) p.good)

  cmd-Grows : (t : Token) → Keeps (compile_cmd h t)
  unfolding compile_cmd
  cmd-Grows t ps g =
      let l = t.letter in
      if-Grows (l == b'=') (push-Grows lineno ps tt g) (
        if-Grows (l == b'D') (push-Grows delete_first_line ps tt g) (
          if-Grows (l == b'G') (push-Grows getapp ps tt g) (
            if-Grows (l == b'H') (push-Grows holdapp ps tt g) (
              if-Grows (l == b'N') (push-Grows fill_next_append ps tt g) (
                if-Grows (l == b'P') (push-Grows print_first_line ps tt g) (
                  if-Grows (l == b'a') (push-Grows (appender (arg t 0)) ps tt g) (
                    if-Grows (l == b'b' || l == b't') (branch-Grows t ps g) (
                      if-Grows (l == b'c') (push-Grows (changer (arg t 0) none) ps tt g) (
                        if-Grows (l == b'd') (push-Grows (branch 0) ps (omega arith) g) (
                          if-Grows (l == b'g') (push-Grows get ps tt g) (
                            if-Grows (l == b'h') (push-Grows hold ps tt g) (
                              if-Grows (l == b'i') (push-Grows (inserter (arg t 0)) ps tt g) (
                                if-Grows (l == b'n') (printed fill_next ps (λ n. tt) g) (
                                  if-Grows (l == b'p') (push-Grows print ps tt g) (
                                    if-Grows (l == b'q') (printed quit ps (λ n. tt) g) (
                                      if-Grows (l == b'r')
                                        (push_or-Grows (read_file (arg t 0)) appender no_reader ps
                                          (λ a. tt) g)
                                        (if-Grows (l == b's')
                                          (push_or-Grows
                                            (new_substitution h (arg t 0) (arg t 1) (arg t 2))
                                            substitute bad_substitution ps (λ a. tt) g)
                                          (if-Grows (l == b'w')
                                            (push-Grows (writer (arg t 0)) ps tt g)
                                            (if-Grows (l == b'x') (push-Grows swap ps tt g) (
                                              if-Grows (l == b'y')
                                                (push_or-Grows
                                                  (new_translation h (arg t 0) (arg t 1)) translate
                                                  bad_translation ps (λ a. tt) g)
                                                (failed-Grows unknown_command ps
                                                  g)))))))))))))))))))))

  token-Grows :
      (f : Token → State h → State h)
      → ((t : Token) → Keeps (f t))
      → Keeps (λ ps. with_token h ps f)
  token-Grows f k ps g = go ps.toks
    where
      go : (ts : List Token) → Grows ps (take_token h ts ps f)
      go [] = failed-Grows end_of_script ps g
      go (t ∷ rest) =
          let dropped = kept ps rest ps.block_level ps.err ps.guards g in
          Grows_trans dropped (k t _ dropped.good)

  condition-Grows :
      (c : Option (Condition Regexp)) (e : ParseError) (f : Condition Regexp → State h → State h)
      → ((c : Condition Regexp) → Keeps (f c))
      → Keeps (λ ps. with_condition h c e ps f)
  condition-Grows none e f k ps g = failed-Grows e ps g
  condition-Grows (some c) e f k ps g = k c ps g

  -- An instruction with a jump past the block behind it.
  around-Grows :
      (make : ℕ → ℕ → Instr Regexp) (block : State h → State h)
      → ((a b n : ℕ) → a < n → b < n → Targets n (make a b))
      → Keeps block
      → Keeps (around h make block)
  around-Grows make block t k ps g =
      let at = length ps.ins in
      let pushed = push-Grows (make (at + 1) 0) ps (t _ _ _ (omega arith) (omega arith)) g in
      let inside = k (push (make (at + 1) 0) ps) pushed.good in
      let filled =
        set-Grows at (make (at + 1) (length (block (push (make (at + 1) 0) ps)).ins)) _
          (t _ _ _ (omega (arith, inside.longer, length_snoc ps.ins (make (at + 1) 0)))
            (omega arith))
          inside.good in
      Grows_trans pushed (Grows_trans inside filled)

  simple-Targets :
      (c : Condition Regexp) (a b n : ℕ) → a < n → b < n → Targets n (simple_cond c a b)
  simple-Targets c a b n x y = (x, y)

  two_cond-Targets :
      (k : ℕ) (c d : Condition Regexp) (a b n : ℕ) → a < n → b < n → Targets n (two_cond k c d a b)
  two_cond-Targets k c d a b n x y = (x, y)

  module _ (top : State h → State h) (keep : Keeps top) where
    block_by-Grows : (ty : TokenType) (t : Token) → Keeps (block_by h top ty t)
    unfolding block_by
    block_by-Grows lbrace t ps g =
        let opened = kept ps ps.toks (ps.block_level + 1) ps.err ps.guards g in
        Grows_trans opened (keep _ opened.good)
    block_by-Grows cmd t ps g = cmd-Grows t ps g
    block_by-Grows change t ps g = cmd-Grows t ps g
    block_by-Grows _ t ps g = failed-Grows not_a_block ps g

    block-Grows : (t : Token) → Keeps (compile_block h top t)
    unfolding compile_block
    block-Grows t = block_by-Grows t.typ t

    guard-Grows : (f : ℕ → State h → State h) → ((k : ℕ) → Keeps (f k)) → Keeps (with_guard h top f)
    guard-Grows f k ps g =
        let counted = kept ps ps.toks ps.block_level ps.err (ps.guards + 1) g in
        Grows_trans counted (k ps.guards _ counted.good)

    range_by-Grows :
        (ty : TokenType) (c1 c2 : Condition Regexp) (t : Token) → Keeps (range_by h top ty c1 c2 t)
    unfolding range_by
    range_by-Grows bang c1 c2 t = token-Grows _ (λ t2. guard-Grows _ (λ k.
        around-Grows (λ inside past. two_cond k c1 c2 past inside) _
          (λ a b n x y. two_cond-Targets k c1 c2 b a n y x) (block-Grows t2)))
    range_by-Grows change c1 c2 t = guard-Grows _ (λ k.
        around-Grows (two_cond k c1 c2) _ (two_cond-Targets k c1 c2)
          (λ ps g. push-Grows (changer (arg t 0) (some k)) ps tt g))
    range_by-Grows _ c1 c2 t =
        guard-Grows _
          (λ k. around-Grows (two_cond k c1 c2) _ (two_cond-Targets k c1 c2) (block-Grows t))

    range-Grows : (c1 c2 : Condition Regexp) → Keeps (compile_range h top c1 c2)
    unfolding compile_range
    range-Grows c1 c2 = token-Grows _ (λ t. range_by-Grows t.typ c1 c2 t)

    twocond_by-Grows :
        (ty : TokenType) (c : Condition Regexp) (t : Token) → Keeps (twocond_by h top ty c t)
    unfolding twocond_by
    twocond_by-Grows num c t = condition-Grows (condition_number h t) bad_number _ (range-Grows c)
    twocond_by-Grows dollar c t = range-Grows c eof
    twocond_by-Grows rx c t = condition-Grows (condition_regexp h t) bad_regexp _ (range-Grows c)
    twocond_by-Grows _ c t = failed-Grows no_second_condition

    twocond-Grows : (c : Condition Regexp) → Keeps (compile_twocond h top c)
    unfolding compile_twocond
    twocond-Grows c = token-Grows _ (λ t. twocond_by-Grows t.typ c t)

    cond_by-Grows :
        (ty : TokenType) (c : Condition Regexp) (t : Token) → Keeps (cond_by h top ty c t)
    unfolding cond_by
    cond_by-Grows comma c t = twocond-Grows c
    cond_by-Grows bang c t = token-Grows _ (λ t2.
        around-Grows (λ inside past. simple_cond c past inside) _
          (λ a b n x y. simple-Targets c b a n y x) (block-Grows t2))
    cond_by-Grows _ c t = around-Grows (simple_cond c) _ (simple-Targets c) (block-Grows t)

    cond-Grows : (c : Condition Regexp) → Keeps (compile_cond h top c)
    unfolding compile_cond
    cond-Grows c = token-Grows _ (λ t. cond_by-Grows t.typ c t)

    dispatch_by-Grows : (ty : TokenType) (t : Token) → Keeps (dispatch_by h top ty t)
    unfolding dispatch_by
    dispatch_by-Grows cmd t = cmd-Grows t
    dispatch_by-Grows label t = label-Grows t
    dispatch_by-Grows num t = condition-Grows (condition_number h t) bad_number _ cond-Grows
    dispatch_by-Grows dollar t = cond-Grows eof
    dispatch_by-Grows rx t = condition-Grows (condition_regexp h t) bad_regexp _ cond-Grows
    dispatch_by-Grows eol t = λ ps g. kept ps ps.toks ps.block_level ps.err ps.guards g
    dispatch_by-Grows rbrace t = λ ps g.
        if-Grows (ps.block_level == 0)
          (kept ps ps.toks (ps.block_level - 1) (some unexpected_brace) ps.guards g)
          (kept ps ps.toks (ps.block_level - 1) ps.err ps.guards g)
    dispatch_by-Grows _ t = failed-Grows unexpected_token

  next-Grows : (b : Bool) (top : State h → State h) → Keeps top → Keeps (next_round h b top)
  next-Grows true top k ps g = k ps g
  next-Grows false top k ps g = kept ps ps.toks ps.block_level ps.err ps.guards g

  tokens-Grows :
      (f : Token → State h → State h)
      → ((t : Token) → Keeps (f t))
      → Keeps (λ ps. on_tokens h ps.toks ps f)
  tokens-Grows f k ps g = go ps.toks
    where
      go : (ts : List Token) → Grows ps (on_tokens h ts ps f)
      go [] = kept ps ps.toks ps.block_level ps.err ps.guards g
      go (t ∷ rest) =
          let dropped = kept ps rest ps.block_level ps.err ps.guards g in
          Grows_trans dropped (k t _ dropped.good)

  pub toplevel-Grows : (fuel : ℕ) → Keeps (parse_toplevel h fuel)
  unfolding parse_toplevel
  toplevel-Grows zero = tokens-Grows _ (λ t. failed-Grows stuck)
  toplevel-Grows (suc fuel) = tokens-Grows _ (λ t ps g.
      let once = dispatch_by-Grows (parse_toplevel h fuel) (toplevel-Grows fuel) t.typ t ps g in
      Grows_trans once (next-Grows _ _ (toplevel-Grows fuel) _ once.good))
