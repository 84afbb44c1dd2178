-- ===== src/Sed/Tests.antt =====
-- Runs of gosed at concrete scripts and inputs, and its theorems at concrete inputs. The host takes
-- a regular expression as the text it matches.
use gosutils.Prelude.{
  ℕ, zero, suc, ◌+◌, ◌-◌, ◌*◌, ◌/◌, ◌%◌, ◌≡◌, ◌≢◌, refl, arith, Bool, true, false, ◌&&◌, List, [],
  ◌∷◌, ◌==◌, inl, ◌++◌, if◌then◌else◌, Option, none, some, length, leb, map,
}
use gosutils.Prelude.Text.{Text, codes, is_empty}
use gosutils.Sed.Host.{Host}
use gosutils.Sed.Vm.{Vm, write_string}
use gosutils.Sed.Conditions.{fresh}
use gosutils.Sed.Instructions.{Instr, exec, print}
use gosutils.Sed.Engine.{Run, ended, panic, stuck, wrap, read, prepare}
use gosutils.Sed.Parse.{
  TokenType, num, comma, lbrace, rbrace, eol, cmd, change, Token, unexpected_token, stuck,
}
use gosutils.Sed.Compile.{Parsed, program, failed, parse}
use gosutils.Sed.Enough.{parse-real}
use gosutils.Sed.Output.{Writes, text_of, exec-Writes}
use gosutils.Sed.Transcript.{Shows, continued, transcript, read-Shows}
use gosutils.Sed.Ranges.{on_line, on_line-between, on_line-endless}

abbrev pub starts : Text → Text → Bool
starts [] t = true
starts (c ∷ cs) [] = false
starts (c ∷ cs) (d ∷ ds) = c == d && starts cs ds

abbrev pub occurrences : Text → ℕ → ℕ → Text → List (ℕ × ℕ × List ℕ)
occurrences re skip at [] = []
occurrences re zero at (c ∷ cs) =
    let rest = occurrences re (length re - 1) (at + 1) cs in
    let other = occurrences re 0 (at + 1) cs in
    if starts re (c ∷ cs) then (at, at + length re, []) ∷ rest else other
occurrences re (suc skip) at (c ∷ cs) = occurrences re skip (at + 1) cs

abbrev pub swap_rune : List (ℕ × ℕ) → ℕ → ℕ
swap_rune [] c = c
swap_rune ((x, y) ∷ ps) c = if x == c then y else swap_rune ps c

abbrev pub digits : Text → ℕ → Option ℕ
digits [] n = some n
digits (c ∷ cs) n =
    let rest = digits cs (n * 10 + (c - b'0')) in if leb b'0' c && leb c b'9' then rest else none

abbrev pub literal : Host
literal = record {
  Regexp = Text;
  compile = some;
  match_string = λ re s. if is_empty (occurrences re 0 0 s) then false else true;
  find_all = λ re s. occurrences re 0 0 s;
  expand = λ re replacement src bounds. replacement;
  replace_pairs = λ ps s. map (swap_rune ps) s;
  runes = λ s. s;
  atoi = λ s. if is_empty s then none else digits s 0;
  format_int = λ n. (b'0' + n / 10 % 10) ∷ (b'0' + n % 10) ∷ [];
  read_file = λ name. none;
  can_write = λ name. true;
}

abbrev pub sign : TokenType → Token
sign ty = record { typ = ty; letter = 0; args = [] }

abbrev pub command : ℕ → List Text → Token
command l args = record { typ = cmd; letter = l; args = args }

abbrev pub line : Text → Token
line n = record { typ = num; letter = 0; args = n ∷ [] }

-- 2,3{s/a/bb/g;}
abbrev pub script : List Token
script =
    line (codes "2")
    ∷ sign comma
    ∷ line (codes "3")
    ∷ sign lbrace
    ∷ command b's' (codes "a" ∷ codes "bb" ∷ codes "g" ∷ [])
    ∷ sign eol
    ∷ sign rbrace
    ∷ []

abbrev pub ins_of : Parsed literal → List (Instr Text)
ins_of (program ins) = ins
ins_of (failed e) = []

-- The text that one `Read` gives, with a buffer of `n` bytes.
abbrev pub output : Run → Text
output (ended v e) = v.produced
output panic = []
output (stuck v) = []

abbrev sed : List Token → Bool → ℕ → List Text → Run
sed toks quiet n lines =
    let ins = ins_of (parse literal toks quiet) in
    read literal 100 ins n (wrap literal lines (fresh ∷ fresh ∷ []))

substitute_run :
    output (sed script false 100 (codes "aa" ∷ codes "ba" ∷ codes "aca" ∷ codes "a" ∷ []))
    ≡ codes "aa\nbbb\nbbcbb\na\n"
unfolding parse read exec write_string
substitute_run = refl

-- A range whose last line is above its first never ends.
endless_run :
    output (
      sed
        (line (codes "2") ∷ sign comma ∷ line (codes "1") ∷ command b'p' [] ∷ [])
        true
        100
        (codes "a" ∷ codes "b" ∷ codes "c" ∷ codes "d" ∷ []))
    ≡ codes "b\nc\nd\n"
unfolding parse read exec write_string
endless_run = refl

-- `c` needs an address.
change_run :
    parse literal (record { typ = change; letter = b'c'; args = codes "x\n" ∷ [] } ∷ []) false
    ≡ failed unexpected_token
unfolding parse
change_run = refl

-- 1{a\ xx, then N}: text is due when N runs.
abbrev join_script : List Token
join_script =
    line (codes "1")
    ∷ sign lbrace
    ∷ command b'a' (codes "xx" ∷ [])
    ∷ command b'N' []
    ∷ sign rbrace
    ∷ []

abbrev pattern_of : Run → Text
pattern_of (ended v e) = v.pat
pattern_of panic = []
pattern_of (stuck v) = []

-- A buffer too small for the text makes N double the pattern space and start again.
join_run :
    (pattern_of (sed join_script true 100 (codes "a" ∷ codes "b" ∷ [])) ≡ codes "a\nb")
    × (pattern_of (sed join_script true 1 (codes "a" ∷ codes "b" ∷ [])) ≡ codes "a\na")
unfolding parse read exec write_string
join_run = (refl, refl)

abbrev compiled : List (Instr Text)
compiled = ins_of (parse literal script false)

parse-real_example : parse literal script false ≢ failed stuck
parse-real_example = parse-real literal script false

abbrev printing : Vm
printing = record (wrap literal [] []) { pat = codes "abc"; room = 2; started = true }

exec-Writes_example :
    Writes printing (text_of literal print printing) (exec literal print printing).0
exec-Writes_example = exec-Writes literal print printing (inl refl)

abbrev waiting : Vm
waiting = record printing { overflow = codes "bc"; room = 0 }

on_line-between_example : on_line literal 2 4 printing 2 ≡ true
on_line-between_example = on_line-between literal 2 4 printing 2 (omega arith) (omega arith)

endless_range : on_line literal 3 1 printing 7 ≡ true
endless_range = on_line-endless literal 3 1 printing 7 (omega arith) (omega arith)

read-Shows_example :
    Shows
      (codes "bc"
        ++ continued literal (prepare literal 1 waiting) (transcript literal 100 compiled))
      (read literal 100 compiled 1 waiting)
read-Shows_example = read-Shows literal 100 compiled 1 waiting refl
