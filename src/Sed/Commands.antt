-- ===== src/Sed/Commands.antt =====
-- gosed/parse.go: compile_cmd, with newSubstitution and newTranslation of gosed/substitution.go.
use gosutils.Prelude.{
  ℕ, ◌-◌, ◌^◌, Bool, true, false, ◌&&◌, ◌||◌, List, [], ◌∷◌, ◌++◌, ◌==◌, if◌then◌else◌, Option,
  none, some, length, leb,
}
use gosutils.Prelude.Text.{Text, is_empty}
use gosutils.Sed.Host.{Host}
use gosutils.Sed.Instructions.{
  Instr, Substitute, quit, swap, get, hold, getapp, holdapp, print, print_first_line,
  delete_first_line, lineno, fill_next, fill_next_append, branch, changer, appender, inserter,
  writer, substitute, translate,
}
use gosutils.Sed.Parse.{
  Token, ParseError, no_reader, bad_substitution, bad_translation, unknown_command, ParseState,
  fail, push, arg, compile_branch_target, print_unless_quiet,
}

unfoldable pub zip_runes : List ℕ → List ℕ → List (ℕ × ℕ)
zip_runes [] ys = []
zip_runes (x ∷ xs) [] = []
zip_runes (x ∷ xs) (y ∷ ys) = (x, y) ∷ zip_runes xs ys

module _ (h : Host) where
  open h use {Regexp, compile, runes, atoi, read_file}

  -- The loop of `newSubstitution` over the modifiers: the flags and the digits, and whether a bad
  -- modifier ended it.
  unfoldable pub scan_mods : Text → Bool → Bool → Text → Bool × Bool × Text × Bool
  scan_mods [] p g digits = (p, g, digits, true)
  scan_mods (c ∷ cs) p g digits =
      let is_digit = leb b'0' c && leb c b'9' in
      let rest =
        scan_mods cs (c == b'p' || p) (c == b'g' || g)
          (if is_digit then digits ++ c ∷ [] else digits) in
      if c == b'p' || (c == b'g' || is_digit) then rest else (p, g, digits, false)

  -- The number of the match, from 0. `Atoi` gives the greatest number for one that is too large,
  -- and its error is dropped.
  unfoldable pub which_of : Text → Option ℕ
  which_of digits =
      let n = elim (atoi digits) as (λ _. ℕ) [ none ↦ 2 ^ 63 - 1 | some k ↦ k ] in
      if is_empty digits then some 0 else if n == 0 then none else some (n - 1)

  unfoldable pub new_substitution : Text → Text → Text → Option (Substitute Regexp)
  unfolding scan_mods which_of
  new_substitution pattern replacement mods = elim (compile pattern) [
    | none ↦ none
    | some re ↦
        let (p, g, digits, fine) = scan_mods mods false false [] in
        elim (which_of digits) [
          | none ↦ none
          | some k ↦
              if fine
              then some (record {
                pattern = re;
                replacement = replacement;
                which = k;
                pflag = p;
                gflag = g;
              })
              else none
        ]
  ]

  -- `newTranslation`: the replacer gets the runes in pairs.
  unfoldable pub new_translation : Text → Text → Option (List (ℕ × ℕ))
  unfolding zip_runes
  new_translation pattern replacement =
      if length (runes pattern) == length (runes replacement)
      then some (zip_runes (runes pattern) (runes replacement))
      else none

  abbrev pub State : Type 0
  State = ParseState Regexp

  -- The effect of a fallible constructor in `compile_cmd`.
  abbrev pub push_or {ℓ} : {A : Type ℓ} → Option A → (A → Instr Regexp) → ParseError → State → State
  push_or none f e ps = fail e ps
  push_or (some a) f e ps = push (f a) ps

  unfoldable pub compile_cmd : Token → State → State
  unfolding new_substitution new_translation compile_branch_target
  compile_cmd t ps =
      let l = t.letter in
      if l == b'='
      then push lineno ps
      else if l == b'D'
      then push delete_first_line ps
      else if l == b'G'
      then push getapp ps
      else if l == b'H'
      then push holdapp ps
      else if l == b'N'
      then push fill_next_append ps
      else if l == b'P'
      then push print_first_line ps
      else if l == b'a'
      then push (appender (arg t 0)) ps
      else if l == b'b' || l == b't'
      then push (branch 0) (compile_branch_target t ps)
      else if l == b'c'
      then push (changer (arg t 0) none) ps
      else if l == b'd'
      then push (branch 0) ps
      else if l == b'g'
      then push get ps
      else if l == b'h'
      then push hold ps
      else if l == b'i'
      then push (inserter (arg t 0)) ps
      else if l == b'n'
      then push fill_next (print_unless_quiet ps)
      else if l == b'p'
      then push print ps
      else if l == b'q'
      then push quit (print_unless_quiet ps)
      else if l == b'r'
      then push_or (read_file (arg t 0)) appender no_reader ps
      else if l == b's'
      then push_or (new_substitution (arg t 0) (arg t 1) (arg t 2)) substitute bad_substitution ps
      else if l == b'w'
      then push (writer (arg t 0)) ps
      else if l == b'x'
      then push swap ps
      else if l == b'y'
      then push_or (new_translation (arg t 0) (arg t 1)) translate bad_translation ps
      else fail unknown_command ps
