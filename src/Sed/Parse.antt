-- ===== src/Sed/Parse.antt =====
-- gosed/parse.go: the compiler from tokens to instructions, and the constructors of conditions and
-- substitutions that it calls. The locations of tokens serve messages only and are left out.
use gosutils.Prelude.{
  ℕ, Bool, List, [], ◌∷◌, ◌++◌, ◌==◌, if◌then◌else◌, Option, none, some, length, get_or, set,
}
use gosutils.Prelude.Text.{Text, is_empty, text_eq, codes}
use gosutils.Sed.Instructions.{Instr, print, branch, changed_branch}

pub data TokenType : Type 0 where
  num rx comma bang dollar lbrace rbrace eol cmd change label : TokenType

pub record Token : Type 0 where
  pub typ : TokenType
  pub letter : ℕ
  pub args : List Text

-- The messages of parse.go. `stuck` is none of them: the fuel of `parse_toplevel` ran out.
pub data ParseError : Type 0 where
  bad_number bad_regexp unexpected_brace unexpected_token end_of_script : ParseError
  no_second_condition not_a_block bad_label no_reader bad_substitution bad_translation : ParseError
  unknown_command missing_brace unknown_label stuck : ParseError

pub record WaitingBranch : Type 0 where
  pub ip : ℕ
  pub target : Text
  pub letter : ℕ

-- The two maps of labels get the same keys at the same places: one list of labels with the place
-- stands for both. `guards` counts the `cmd_twocond` objects made so far.
pub record ParseState (R : Type 0) : Type 0 where
  pub toks : List Token
  pub ins : List (Instr R)
  pub branches : List WaitingBranch
  pub labels : List (Text × ℕ)
  pub block_level : ℕ
  pub quiet : Bool
  pub err : Option ParseError
  pub guards : ℕ

abbrev pub arg : Token → ℕ → Text
arg t k = get_or t.args k []

unfoldable pub find_label : Text → List (Text × ℕ) → Option ℕ
find_label l [] = none
find_label l ((k, place) ∷ rest) = if text_eq k l then some place else find_label l rest

-- "the end", which has a space, is no label of a user.
abbrev pub end_of_program_label : Text
end_of_program_label = codes "the end"

module _ {R : Type 0} where
  abbrev pub fail : ParseError → ParseState R → ParseState R
  fail e ps = record ps { err = some e }

  abbrev pub push : Instr R → ParseState R → ParseState R
  push i ps = record ps { ins = ps.ins ++ i ∷ [] }

  unfoldable pub compile_label : Token → ParseState R → ParseState R
  compile_label t ps =
      if is_empty (arg t 0)
      then fail bad_label ps
      else record ps { labels = (arg t 0, length ps.ins) ∷ ps.labels }

  unfoldable pub compile_branch_target : Token → ParseState R → ParseState R
  compile_branch_target t ps =
      let name = if is_empty (arg t 0) then end_of_program_label else arg t 0 in
      record ps {
        branches =
            ps.branches ++ record { ip = length ps.ins; target = name; letter = t.letter } ∷ [];
      }

  abbrev pub print_unless_quiet : ParseState R → ParseState R
  print_unless_quiet ps = if ps.quiet then ps else push print ps

  -- The letter of a resolved branch picks its map.
  abbrev pub branch_of : ℕ → ℕ → Instr R
  branch_of letter place = if letter == b'b' then branch place else changed_branch place

  -- `parse_resolveBranches`.
  unfoldable pub resolve_branches : List WaitingBranch → ParseState R → ParseState R
  resolve_branches [] ps = ps
  resolve_branches (w ∷ ws) ps = elim (find_label w.target ps.labels) [
    | none ↦ fail unknown_label ps
    | some place ↦
        resolve_branches ws (record ps { ins = set ps.ins w.ip (branch_of w.letter place) })
  ]
