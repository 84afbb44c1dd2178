-- ===== src/Sutils/Lines.antt =====
-- The lines of a text (sutils/sutils.go: String2lines, LinesFromReader) and FileInsertStringAtLine
-- between its reading and its writing of the file. bufio.Scanner is the standard library's.
use gosutils.Prelude.{
  ℕ, ◌+◌, ◌-◌, Bool, true, false, List, [], ◌∷◌, ◌++◌, ◌==◌, if◌then◌else◌, Option, none, some,
  length, leb, replicate,
}
use gosutils.Prelude.Int.{ℤ, pos, negsuc}
use gosutils.Prelude.Text.{Text, drop_return}

-- bufio.ScanLines: the lines of a text, without "\n" or "\r\n"; a last line needs no end.
unfoldable pub raw_lines : Text → List Text
raw_lines [] = []
raw_lines (c ∷ cs) =
    let rest = raw_lines cs in
    if c == b'\n' then [] ∷ rest else elim rest [ [] ↦ (c ∷ []) ∷ [] | l ∷ ls ↦ (c ∷ l) ∷ ls ]

-- bufio.MaxScanTokenSize: a line must leave room for its end.
abbrev pub max_scan_token_size : ℕ
max_scan_token_size = 65536

-- The lines that Scan gives, and whether it stopped at one that is too long.
pub record Scanned : Type 0 where
  pub lines : List Text
  pub too_long : Bool

unfoldable pub scan_lines : List Text → Scanned
scan_lines [] = record { lines = []; too_long = false }
scan_lines (l ∷ ls) =
    let rest = scan_lines ls in
    if leb max_scan_token_size (length l)
    then record { lines = []; too_long = true }
    else record rest { lines = drop_return l ∷ rest.lines }

unfoldable pub scan : Text → Scanned
unfolding raw_lines scan_lines
scan text = scan_lines (raw_lines text)

-- `String2lines` and `LinesFromReader`.
unfoldable pub string2lines : Text → List Text
unfolding scan
string2lines str = if (scan str).too_long then [] else (scan str).lines

unfoldable pub lines_from_reader : Text → Option (List Text)
unfolding scan
lines_from_reader text = if (scan text).too_long then none else some (scan text).lines

-- `linenum == index`.
abbrev pub is_index : ℤ → ℕ → Bool
is_index (pos k) n = n == k
is_index (negsuc k) n = false

-- The variables of FileInsertStringAtLine.
pub record Insertion : Type 0 where
  pub lines : Text
  pub linenum : ℕ
  pub inserted : Bool

-- Its loop: `str` has its line end.
unfoldable pub insert_loop : Text → ℤ → List Text → Insertion → Insertion
insert_loop str index [] v = v
insert_loop str index (text ∷ texts) v =
    let linenum = v.linenum + 1 in
    let here = is_index index linenum in
    let lines = if here then v.lines ++ str else v.lines in
    insert_loop str index texts (record {
      lines = lines ++ text ++ b'\n' ∷ [];
      linenum = linenum;
      inserted = if here then true else v.inserted;
    })

-- The rounds of `for i := linenum + 1; i < index; i++`, where an index of -1 is linenum + 1.
abbrev pub missing_lines : ℤ → ℕ → ℕ
missing_lines (pos k) linenum = k - 1 - linenum
missing_lines (negsuc k) linenum = 0

abbrev pub insert_end : Text → ℤ → Insertion → Text
insert_end str index v =
    if v.inserted
    then v.lines
    else v.lines ++ replicate (missing_lines index v.linenum) b'\n' ++ str

-- The file that is written, or none for the error of the scanner.
unfoldable pub insert_string_at_line : Text → ℤ → Text → Option Text
unfolding scan insert_loop
insert_string_at_line str index content =
    let line = str ++ b'\n' ∷ [] in
    let start : Insertion = record { lines = []; linenum = 0; inserted = false } in
    if (scan content).too_long
    then none
    else some (insert_end line index (insert_loop line index (scan content).lines start))
