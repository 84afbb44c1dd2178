-- ===== src/Sed/Sparing.antt =====
-- What each part of the compiler of gosed/parse.go does to the tokens that are left.
use gosutils.Prelude.{
  ℕ, suc, ◌+◌, ◌≤◌, arith, Bool, true, false, List, [], ◌∷◌, ◌++◌, ◌==◌, ◌||◌, if◌then◌else◌,
  Option, none, some, length,
}
use gosutils.Prelude.Text.{Text}
use gosutils.Sed.Host.{Host}
use gosutils.Sed.Conditions.{Condition}
use gosutils.Sed.Instructions.{
  Instr, quit, swap, get, hold, getapp, holdapp, print, print_first_line, delete_first_line, lineno,
  fill_next, fill_next_append, branch, changer, appender, inserter, writer, substitute, translate,
}
use gosutils.Sed.Parse.{
  Token, ParseError, end_of_script, no_reader, bad_substitution, bad_translation, unknown_command,
  stuck, WaitingBranch, fail, push, arg, compile_branch_target, print_unless_quiet,
}
use gosutils.Sed.Commands.{State, push_or, compile_cmd, new_substitution, new_translation}
use gosutils.Sed.Compile.{with_token, take_token, with_condition, around}

-- An error that the code has, or none.
abbrev pub IsReal : Option ParseError → Type 0
IsReal (some stuck) = ⊥
IsReal _ = Unit

module _ (h : Host) where
  open h use {Regexp, read_file}

  -- No token comes back, and no bound is used up.
  pub record Spares (ps ps' : State h) : Type 0 where
    pub fewer : length ps'.toks ≤ length ps.toks
    pub real : IsReal ps.err → IsReal ps'.err

  -- A part of the compiler that spares, where `n` tokens at most are left.
  abbrev pub IsSparing : ℕ → (State h → State h) → Type 0
  IsSparing n f = (ps : State h) → length ps.toks ≤ n → Spares ps (f ps)

  pub Spares-trans : {a b c : State h} → Spares a b → Spares b c → Spares a c
  Spares-trans x y = record {
    fewer = omega (arith, x.fewer, y.fewer);
    real = λ r. y.real (x.real r);
  }

  -- A change of the other fields.
  pub same :
      (ps : State h) (ins : List (Instr Regexp)) (branches : List WaitingBranch)
      (labels : List (Text × ℕ)) (level guards : ℕ)
      → Spares ps (record ps {
        ins = ins;
        branches = branches;
        labels = labels;
        block_level = level;
        guards = guards;
      })
  same ps ins branches labels level guards = record { fewer = omega arith; real = λ r. r }

  pub fails : (n : ℕ) (e : ParseError) → IsReal (some e) → IsSparing n (fail e)
  fails n e real ps le = record { fewer = omega arith; real = λ r. real }

  pub pushes : (n : ℕ) (i : Instr Regexp) → IsSparing n (push i)
  pushes n i ps le = same ps (ps.ins ++ i ∷ []) ps.branches ps.labels ps.block_level ps.guards

  pub if-Spares :
      {ps a b : State h} (c : Bool) → Spares ps a → Spares ps b → Spares ps (if c then a else b)
  if-Spares true x y = x
  if-Spares false x y = y

  pub push_or-Spares {ℓ} :
      {A : Type ℓ} (o : Option A) (f : A → Instr Regexp) (e : ParseError) (ps : State h)
      → IsReal (some e)
      → Spares ps (push_or h o f e ps)
  push_or-Spares none f e ps real = fails (length ps.toks) e real ps (omega arith)
  push_or-Spares (some a) f e ps real = pushes (length ps.toks) (f a) ps (omega arith)

  pub print_first : (n : ℕ) (i : Instr Regexp) → IsSparing n (λ ps. push i (print_unless_quiet ps))
  print_first n i ps le =
      let ps' : State h = print_unless_quiet ps in
      let p : Spares ps ps' =
        if-Spares ps.quiet (same ps ps.ins ps.branches ps.labels ps.block_level ps.guards)
          (pushes n print ps le) in
      Spares-trans p (pushes n i ps' (omega (arith, p.fewer)))

  pub cmd-Spares : (n : ℕ) (t : Token) → IsSparing n (compile_cmd h t)
  unfolding compile_cmd compile_branch_target
  cmd-Spares n t ps le =
      let l = t.letter in
      if-Spares (l == b'=') (pushes n lineno ps le) (
        if-Spares (l == b'D') (pushes n delete_first_line ps le) (
          if-Spares (l == b'G') (pushes n getapp ps le) (
            if-Spares (l == b'H') (pushes n holdapp ps le) (
              if-Spares (l == b'N') (pushes n fill_next_append ps le) (
                if-Spares (l == b'P') (pushes n print_first_line ps le) (
                  if-Spares (l == b'a') (pushes n (appender (arg t 0)) ps le) (
                    if-Spares (l == b'b' || l == b't')
                      (record { fewer = omega arith; real = λ r. r })
                      (if-Spares (l == b'c') (pushes n (changer (arg t 0) none) ps le) (
                        if-Spares (l == b'd') (pushes n (branch 0) ps le) (
                          if-Spares (l == b'g') (pushes n get ps le) (
                            if-Spares (l == b'h') (pushes n hold ps le) (
                              if-Spares (l == b'i') (pushes n (inserter (arg t 0)) ps le) (
                                if-Spares (l == b'n') (print_first n fill_next ps le) (
                                  if-Spares (l == b'p') (pushes n print ps le) (
                                    if-Spares (l == b'q') (print_first n quit ps le) (
                                      if-Spares (l == b'r')
                                        (push_or-Spares (read_file (arg t 0)) appender no_reader ps
                                          tt)
                                        (if-Spares (l == b's')
                                          (push_or-Spares
                                            (new_substitution h (arg t 0) (arg t 1) (arg t 2))
                                            substitute bad_substitution ps tt)
                                          (if-Spares (l == b'w') (pushes n (writer (arg t 0)) ps le)
                                            (if-Spares (l == b'x') (pushes n swap ps le) (
                                              if-Spares (l == b'y')
                                                (push_or-Spares
                                                  (new_translation h (arg t 0) (arg t 1)) translate
                                                  bad_translation ps tt)
                                                (fails n unknown_command tt ps
                                                  le)))))))))))))))))))))

  -- A token taken, and what is done with it.
  pub takes :
      (t : Token) (rest : List Token) (ps : State h) (f : State h → State h)
      → suc (length rest) ≤ length ps.toks
      → Spares (record ps { toks = rest }) (f (record ps { toks = rest }))
      → Spares ps (f (record ps { toks = rest }))
  takes t rest ps f lt x = record { fewer = omega (arith, x.fewer); real = x.real }

  pub token-Spares :
      (n : ℕ) (f : Token → State h → State h)
      → ((t : Token) → IsSparing n (f t))
      → IsSparing n (λ ps. with_token h ps f)
  token-Spares n f k ps le = go ps.toks (omega arith)
    where
      go : (ts : List Token) → length ts ≤ length ps.toks → Spares ps (take_token h ts ps f)
      go [] lt = fails n end_of_script tt ps le
      go (t ∷ rest) lt = takes t rest ps (f t) lt (k t _ (omega arith))

  pub condition-Spares :
      (n : ℕ) (c : Option (Condition Regexp)) (e : ParseError)
      (f : Condition Regexp → State h → State h)
      → IsReal (some e)
      → ((c : Condition Regexp) → IsSparing n (f c))
      → IsSparing n (λ ps. with_condition h c e ps f)
  condition-Spares n none e f real k = fails n e real
  condition-Spares n (some c) e f real k = k c

  pub around-Spares :
      (n : ℕ) (make : ℕ → ℕ → Instr Regexp) (block : State h → State h)
      → IsSparing n block
      → IsSparing n (around h make block)
  around-Spares n make block k ps le =
      let i = make (length ps.ins + 1) 0 in
      let x = k (push i ps) le in record { fewer = x.fewer; real = x.real }
