-- ===== src/ShellWords/Guards.antt =====
-- What the options of a Parser of cmdshellwords/parser.go rule out.
use mathlib.Core.Path.{fun_ext}
use gosutils.Prelude.{ℕ, ◌+◌, ◌≡◌, refl, ap, sym, ◌++◌, ◌∙◌, false, List, [], ◌∷◌, if◌then◌else◌}
use gosutils.Prelude.Text.{Text}
use gosutils.ShellWords.Parser.{
  Result, ok, ◌>>=◌, State, start, step, follow, loop, finish, parse_posix, rune_len, append_arg,
  Parser, emit_arg, replace_env, parse,
}

module _ (f g : Text → Result Text) (emit : Text → List Text → Result (List Text)) where
  step_same : (i r : ℕ) (s : State) → step false f emit i r s ≡ step false g emit i r s
  unfolding step
  step_same i r s = refl

  loop_same :
      (i : ℕ) (line : Text) (s : State) → loop false f emit i line s ≡ loop false g emit i line s
  unfolding loop
  loop_same i [] s = refl
  loop_same i (r ∷ line) s =
      ap (λ o. follow o (λ s'. loop false f emit (i + rune_len r) line s')) (step_same i r s)
      ∙ ap (follow (step false g emit i r s)) (fun_ext (λ s'. loop_same (i + rune_len r) line s'))

  parse_posix_same : (line : Text) → parse_posix false f emit line ≡ parse_posix false g emit line
  unfolding parse_posix
  parse_posix_same line = ap (λ r. r >>= λ s. finish false f emit s.0 s.1) (loop_same 0 line start)

module _ (replace_all : (Text → Text) → Text → Text) (f g : Text → Result Text) where
  emit_arg_same :
      (p : Parser) (buf : Text) (args : List Text)
      → emit_arg replace_all f p buf args ≡ emit_arg replace_all g p buf args
  unfolding emit_arg
  emit_arg_same p buf args =
      ap (λ r. if p.parse_env then (r >>= λ q. ok (args ++ q.0)) else append_arg buf args)
        (parse_posix_same f g append_arg (replace_env replace_all p.getenv buf))

  -- With ParseBacktick off, no line makes the parser run a command: the result is the same whatever
  -- the shell does, also when ParseEnv expands variables and splits the result again.
  pub parse-no_shell :
      (p : Parser) (line : Text)
      → p.parse_backtick ≡ false
      → parse replace_all f p line ≡ parse replace_all g p line
  unfolding parse
  parse-no_shell p line off =
      ap (λ b. parse_posix b f (emit_arg replace_all f p) line) off
      ∙ parse_posix_same f g (emit_arg replace_all f p) line
      ∙ ap (λ e. parse_posix false g e line)
          (fun_ext (λ buf. fun_ext (λ args. emit_arg_same p buf args)))
      ∙ ap (λ b. parse_posix b g (emit_arg replace_all g p) line) (sym off)
