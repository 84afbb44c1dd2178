-- ===== src/Sed/Engine.antt =====
-- gosed/engine.go: the loop that runs a program.
use gosutils.Prelude.{
  ℕ, zero, suc, false, not, List, [], if◌then◌else◌, Option, none, some, get_elem?,
}
use gosutils.Prelude.Text.{Text, is_empty}
use gosutils.Sed.Host.{Host}
use gosutils.Sed.Vm.{Vm, Guard, Signal, full_buffer, eof, file_error, Outcome, write_string}
use gosutils.Sed.Instructions.{Instr, exec, cmd_fill_next}

-- How a run of the loop ends: with an error, with an index out of range in `v.ins[v.ip]`, or
-- (which no Go run does) with the fuel used up. A program such as `:a;ba` runs forever.
pub data Run : Type 0 where
  ended : Vm → Signal → Run
  panic : Run
  stuck : Vm → Run

abbrev pub proceed : Outcome → (Vm → Run) → Run
proceed (v, none) rest = rest v
proceed (v, some e) rest = ended v e

module _ (h : Host) where
  open h use {Regexp}

  -- `for err == nil { err = v.ins[v.ip](v) }`.
  unfoldable pub run : ℕ → List (Instr Regexp) → Vm → Run
  run zero ins v = stuck v
  run (suc fuel) ins v = elim (get_elem? ins v.ip) [
    | none ↦ panic
    | some i ↦ proceed (exec h i v) (λ v'. run fuel ins v')
  ]

  -- `Engine.Wrap`: no guard is reset, since they belong to the engine.
  abbrev pub wrap : List Text → List Guard → Vm
  wrap lines guards = record {
    nxtl = [];
    pat = [];
    hold = [];
    appl = none;
    overflow = [];
    lastl = false;
    ip = 0;
    input = lines;
    produced = [];
    room = 0;
    started = false;
    lineno = 0;
    modified = false;
    guards = guards;
    written = [];
  }

  -- The part of `Read` in front of the loop, with a buffer of `n` bytes.
  unfoldable pub prepare : ℕ → Vm → Outcome
  unfolding cmd_fill_next
  prepare n v =
      let v' = record v { produced = []; room = n } in
      if not v.started
      then (let (v'', e) = cmd_fill_next v' in (record v'' { ip = 0 }, e))
      else if is_empty v.overflow
      then (v', none)
      else write_string (record v' { overflow = [] }) v.overflow

  -- `Read`: the bytes are `produced`, and the error is dropped if there are any.
  unfoldable pub read : ℕ → List (Instr Regexp) → ℕ → Vm → Run
  unfolding prepare run
  read fuel ins n v = proceed (prepare n v) (λ v'. run fuel ins v')

-- The error that `Read` returns.
unfoldable pub read_error : Vm → Signal → Option Signal
read_error v full_buffer = if is_empty v.produced then some full_buffer else none
read_error v eof = if is_empty v.produced then some eof else none
read_error v file_error = some file_error
