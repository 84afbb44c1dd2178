-- ===== src/Sed/Instructions.antt =====
-- gosed/instructions.go and gosed/substitution.go: what each instruction does to the machine.
use gosutils.Prelude.{
  ℕ, suc, ◌+◌, ◌-◌, Bool, true, false, List, [], ◌∷◌, ◌++◌, ◌==◌, if◌then◌else◌, Option, none, some,
  length, take, drop, ltb,
}
use gosutils.Prelude.Text.{Text}
use gosutils.Sed.Host.{Host}
use gosutils.Sed.Vm.{Vm, eof, file_error, Outcome, write_string}
use gosutils.Sed.Conditions.{Condition, is_met, run_two_cond, is_last_line, guard_at, set_guard}

pub record Substitute (R : Type 0) : Type 0 where
  pub pattern : R
  pub replacement : Text
  pub which : ℕ
  pub pflag : Bool
  pub gflag : Bool

-- An instruction is a closure in the source: a constructor for each function that makes one, with
-- the values it captures. A `two_cond` and the `changer` inside it share a guard by its number.
pub data Instr (R : Type 0) : Type 0 where
  quit swap get hold getapp holdapp print print_first_line delete_first_line lineno : Instr R
  fill_next fill_next_append : Instr R
  branch changed_branch : ℕ → Instr R
  simple_cond : Condition R → ℕ → ℕ → Instr R
  two_cond : ℕ → Condition R → Condition R → ℕ → ℕ → Instr R
  changer : Text → Option ℕ → Instr R
  appender inserter writer : Text → Instr R
  substitute : Substitute R → Instr R
  translate : List (ℕ × ℕ) → Instr R

abbrev pub next_ip : Vm → Vm
next_ip v = record v { ip = v.ip + 1 }

-- `writeString` twice, with the error of the second call.
abbrev pub write_line : Vm → Text → Outcome
write_line v s = write_string (write_string v s).0 (b'\n' ∷ [])

-- `strings.Join([]string{a, b}, "\n")`.
abbrev pub join_lines : Text → Text → Text
join_lines a b = a ++ b'\n' ∷ b

-- `strings.IndexRune(s, '\n')`, and the parts of `s` around it.
unfoldable pub index_newline : Text → Option ℕ
index_newline [] = none
index_newline (c ∷ cs) =
    let rest = index_newline cs in
    if c == b'\n' then some 0 else elim rest [ none ↦ none | some i ↦ some (suc i) ]

unfoldable pub first_line : Text → Text
unfolding index_newline
first_line s = elim (index_newline s) [ none ↦ take (length s) s | some i ↦ take i s ]

unfoldable pub cmd_delete_first_line : Vm → Outcome
unfolding index_newline
cmd_delete_first_line v = elim (index_newline v.pat) [
  | none ↦ (record v { pat = []; ip = 0 }, none)
  | some i ↦ (record v { pat = drop (i + 1) v.pat; ip = 1 }, none)
]

-- The reading part of `cmd_fillNext`: `ReadLine` fails at the end of the input with no line.
unfoldable pub refill : Vm → Vm
refill v = elim v.input [
  | [] ↦ record v { nxtl = []; lastl = true }
  | line ∷ lines ↦ record v { nxtl = line; input = lines }
]

unfoldable pub advance : Vm → Outcome
unfolding refill
advance v = if v.lastl then (v, some eof) else (
  refill (record v {
    ip = v.ip + 1;
    pat = v.nxtl;
    lineno = if v.started then v.lineno + 1 else 0;
    started = true;
    modified = false;
  }),
  none,
)

-- Behind the write of the appended text.
unfoldable pub flushed : Outcome → Outcome
unfolding advance
flushed (v, none) = advance (record v { appl = none })
flushed (v, some e) = (record v { appl = none }, some e)

-- `cmd_fillNext`: a full buffer at the appended text leaves the rest for the next call.
unfoldable pub cmd_fill_next : Vm → Outcome
unfolding flushed advance
cmd_fill_next v = elim v.appl [ none ↦ advance v | some text ↦ flushed (write_string v text) ]

unfoldable pub cmd_fill_next_append : Vm → Outcome
unfolding cmd_fill_next
cmd_fill_next_append v =
    let (v', e) = cmd_fill_next v in (record v' { pat = join_lines v.pat v'.pat }, e)

unfoldable pub cmd_append : Text → Vm → Outcome
cmd_append text v = elim v.appl [
  | none ↦ (record v { ip = v.ip + 1; appl = some text }, none)
  | some old ↦ (record v { ip = v.ip + 1; appl = some (old ++ text) }, none)
]

module _ (h : Host) where
  open h use {Regexp, find_all, expand, replace_pairs, format_int, can_write}

  -- `subst_replaceAll`, from `endpt` on.
  unfoldable pub replace_all : Text → Substitute Regexp → ℕ → List (ℕ × ℕ × List ℕ) → Text
  replace_all src s endpt [] = drop endpt src
  replace_all src s endpt ((from, to, groups) ∷ rest) =
      (take (from - endpt) (drop endpt src)
        ++ expand s.pattern s.replacement src (from, to, groups))
      ++ replace_all src s to rest

  -- The matches that `substitute.run` replaces, out of all.
  unfoldable pub select : Substitute Regexp → List (ℕ × ℕ × List ℕ) → List (ℕ × ℕ × List ℕ)
  select s matches =
      let end = if s.gflag then length matches else s.which + 1 in
      take (end - s.which) (drop s.which matches)

  unfoldable pub cmd_substitute : Substitute Regexp → Vm → Outcome
  unfolding replace_all select
  cmd_substitute s v =
      let matches = find_all s.pattern v.pat in
      let done = record v {
        ip = v.ip + 1;
        pat = replace_all v.pat s 0 (select s matches);
        modified = true;
      } in
      if ltb s.which (length matches)
      then (if s.pflag then write_line done done.pat else (done, none))
      else (next_ip v, none)

  unfoldable pub exec : Instr Regexp → Vm → Outcome
  unfolding cmd_delete_first_line cmd_fill_next cmd_fill_next_append cmd_append cmd_substitute
      first_line is_met run_two_cond is_last_line
  exec quit v = (v, some eof)
  exec swap v = (record v { pat = v.hold; hold = v.pat; ip = v.ip + 1 }, none)
  exec get v = (record v { pat = v.hold; ip = v.ip + 1 }, none)
  exec hold v = (record v { hold = v.pat; ip = v.ip + 1 }, none)
  exec getapp v = (record v { pat = join_lines v.pat v.hold; ip = v.ip + 1 }, none)
  exec holdapp v = (record v { hold = join_lines v.hold v.pat; ip = v.ip + 1 }, none)
  exec print v = write_line (next_ip v) v.pat
  exec print_first_line v = write_line (next_ip v) (first_line v.pat)
  exec delete_first_line v = cmd_delete_first_line v
  exec lineno v = write_string (next_ip v) (format_int v.lineno ++ b'\n' ∷ [])
  exec fill_next v = cmd_fill_next v
  exec fill_next_append v = cmd_fill_next_append v
  exec (branch target) v = (record v { ip = target }, none)
  exec (changed_branch target) v =
      if v.modified then (record v { ip = target; modified = false }, none) else (next_ip v, none)
  exec (simple_cond c met unmet) v = (record v { ip = if is_met h c v then met else unmet }, none)
  exec (two_cond k start end met unmet) v =
      let (g, on) = run_two_cond h start end (guard_at v k) v in
      (record (set_guard v k g) { ip = if on then met else unmet }, none)
  exec (changer text none) v = write_string (record v { ip = 0 }) text
  exec (changer text (some k)) v =
      if is_last_line (guard_at v k) v.lineno
      then write_string (record v { ip = 0 }) text
      else (record v { ip = 0 }, none)
  exec (appender text) v = cmd_append text v
  exec (inserter text) v = write_string (next_ip v) text
  exec (writer file) v =
      if can_write file
      then (
        record v { ip = v.ip + 1; written = v.written ++ (file, v.pat ++ b'\n' ∷ []) ∷ [] },
        none,
      )
      else (next_ip v, some file_error)
  exec (substitute s) v = cmd_substitute s v
  exec (translate pairs) v = (record v { pat = replace_pairs pairs v.pat; ip = v.ip + 1 }, none)
