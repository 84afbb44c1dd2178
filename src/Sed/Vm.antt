-- ===== src/Sed/Vm.antt =====
-- gosed/engine.go: vm, and writeString of gosed/instructions.go.
use gosutils.Prelude.{
  ℕ, ◌-◌, Bool, List, ◌++◌, if◌then◌else◌, Option, none, some, length, take, drop, ltb,
}
use gosutils.Prelude.Text.{Text}

-- What ends the run of the program in `Read`: `fullBuffer`, `io.EOF`, or an error of a file.
pub data Signal : Type 0 where
  full_buffer eof file_error : Signal

-- The mutable fields of `cmd_twocond`.
pub record Guard : Type 0 where
  pub is_on : Bool
  pub off_from : ℕ

-- `output` is the caller's buffer: `produced` is what it holds, `room` is `len(svm.output)`. The
-- input is the list of lines that `ReadLine` will return, put together from their parts. `lineno`
-- starts at -1: `started` is false there. `guards` holds the state of the program's `cmd_twocond`
-- objects, and `written` what was appended to files, in order.
pub record Vm : Type 0 where
  pub nxtl : Text
  pub pat : Text
  pub hold : Text
  pub appl : Option Text
  pub overflow : Text
  pub lastl : Bool
  pub ip : ℕ
  pub input : List Text
  pub produced : Text
  pub room : ℕ
  pub started : Bool
  pub lineno : ℕ
  pub modified : Bool
  pub guards : List Guard
  pub written : List (Text × Text)

abbrev pub Outcome : Type 0
Outcome = Vm × Option Signal

unfoldable pub write_string : Vm → Text → Outcome
write_string v str =
    if ltb v.room (length str)
    then (
      record v {
        produced = v.produced ++ take v.room str;
        overflow = v.overflow ++ drop v.room str;
        room = 0;
      },
      some full_buffer,
    )
    else (record v { produced = v.produced ++ str; room = v.room - length str }, none)
