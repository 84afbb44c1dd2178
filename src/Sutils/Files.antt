-- ===== src/Sutils/Files.antt =====
-- gogrep/gogrep.go, FileReplaceRegex of gosed/gosed.go, and FileUpdateOrAdd, FileCreatenewIfDiff,
-- FileInsertStringAtLine and File2lines of sutils/sutils.go, on the contents of files.
use gosutils.Prelude.{
  ℕ, zero, ◌+◌, Bool, true, false, not, ◌&&◌, List, [], ◌∷◌, ◌++◌, if◌then◌else◌, Option, none,
  some, take,
}
use gosutils.Prelude.Int.{ℤ, pos, negsuc}
use gosutils.Prelude.Text.{Text, is_empty, text_eq}
use gosutils.Sutils.Lines.{scan, lines_from_reader, insert_string_at_line, is_index}

-- regexp, and which files can be read and written. `find_all` gives every match of FindAllString.
pub record Host : Type 1 where
  pub Regexp : Type 0
  pub compile : Text → Option Regexp
  pub quote_meta : Text → Text
  pub find_all : Regexp → Text → List Text
  pub replace_matches : Regexp → Text → Text → Text
  pub replace_matches_literal : Regexp → Text → Text → Text
  pub can_read : Text → Bool
  pub can_write : Text → Bool

-- The regular files, by path.
abbrev pub Disk : Type 0
Disk = Text → Option Text

pub data FileError : Type 0 where
  unreadable unwritable bad_regexp too_long no_match : FileError

abbrev pub write : Text → Text → Disk → Disk
write path contents disk p = if text_eq path p then some contents else disk p

-- FindAllString with a bound on the matches, where a negative one is none.
abbrev pub at_most : ℤ → List Text → List Text
at_most (pos n) xs = take n xs
at_most (negsuc n) xs = xs

-- The loop of GrepFileLine and GrepStringLine: `nmatch` lines have matched.
unfoldable pub grep_loop : (Text → List Text) → ℤ → ℕ → List Text → List Text
grep_loop matches number nmatch [] = []
grep_loop matches number nmatch (line ∷ lines) =
    let datas = matches line in
    let nmatch' = if is_empty datas then nmatch else nmatch + 1 in
    let rest = grep_loop matches number nmatch' lines in
    if not (is_empty datas) && is_index number nmatch' then datas else datas ++ rest

-- The Go results: what was found, and the error.
abbrev pub Grepped : Type 0
Grepped = List Text × Option FileError

abbrev pub found : Grepped → Bool
found (xs, none) = not (is_empty xs)
found (xs, some e) = false

module _ (h : Host) where
  open h use {
    Regexp, compile, quote_meta, find_all, replace_matches, replace_matches_literal, can_read,
    can_write,
  }

  abbrev pub compiled_pattern : Bool → Text → Option Regexp
  compiled_pattern literal pat = compile (if literal then quote_meta pat else pat)

  unfoldable pub read_file : Text → Disk → Option Text
  read_file path disk = if can_read path then disk path else none

  abbrev pub grep_with : Option Regexp → (Regexp → Grepped) → Grepped
  grep_with none f = ([], some bad_regexp)
  grep_with (some r) f = f r

  abbrev pub on_file : Option Text → (Text → Grepped) → Grepped
  on_file none f = ([], some unreadable)
  on_file (some contents) f = f contents

  -- `GrepStringLine` and `GrepStringLines`.
  unfoldable pub grep_string_line : Text → Text → ℤ → Bool → Grepped
  unfolding scan grep_loop
  grep_string_line str pat number literal =
      grep_with (compiled_pattern literal pat)
        (λ r. (grep_loop (find_all r) number 0 (scan str).lines, none))

  unfoldable pub grep_string_lines : Text → Text → ℤ → Bool → Grepped
  grep_string_lines str pat number literal = grep_with (compiled_pattern literal pat) (λ r.
      let retarray = at_most number (find_all r str) in
      (retarray, if is_empty retarray then some no_match else none))

  -- `GrepFileLine` and `GrepFileLines`.
  unfoldable pub grep_file_line : Text → Text → ℤ → Bool → Disk → Grepped
  unfolding read_file grep_string_line
  grep_file_line file pat number literal disk =
      on_file (read_file file disk) (λ contents. grep_string_line contents pat number literal)

  unfoldable pub grep_file_lines : Text → Text → ℤ → Bool → Disk → Grepped
  unfolding read_file
  grep_file_lines file pat number literal disk = on_file (read_file file disk) (λ contents.
      grep_with (compiled_pattern literal pat) (λ r. (at_most number (find_all r contents), none)))

  -- `StringIsMatchLine`, `StringIsMatchLines`, `FileIsMatchLine` and `FileIsMatchLines`.
  unfoldable pub string_is_match_line : Text → Text → Bool → Bool
  unfolding grep_string_line
  string_is_match_line str pat literal = found (grep_string_line str pat (pos 1) literal)

  unfoldable pub string_is_match_lines : Text → Text → Bool → Bool
  unfolding grep_string_lines
  string_is_match_lines str pat literal = found (grep_string_lines str pat (pos 1) literal)

  unfoldable pub file_is_match_line : Text → Text → Bool → Disk → Bool
  unfolding grep_file_line
  file_is_match_line file pat literal disk = found (grep_file_line file pat (pos 1) literal disk)

  unfoldable pub file_is_match_lines : Text → Text → Bool → Disk → Bool
  unfolding grep_file_lines
  file_is_match_lines file pat literal disk = found (grep_file_lines file pat (pos 1) literal disk)

  -- os.WriteFile.
  unfoldable pub write_file : Text → Text → Disk → Disk × Option FileError
  write_file path contents disk =
      if can_write path then (write path contents disk, none) else (disk, some unwritable)

  -- `FileReplaceRegex`.
  unfoldable pub file_replace_regex : Text → Text → Text → Bool → Disk → Disk × Option FileError
  unfolding read_file write_file text_eq
  file_replace_regex pat tostring path literal disk = elim (read_file path disk) [
    | none ↦ (disk, some unreadable)
    | some contents ↦ elim (compile pat) [
      | none ↦ (disk, some bad_regexp)
      | some r ↦
          let new =
            if literal
            then replace_matches_literal r contents tostring
            else replace_matches r contents tostring in
          if text_eq new contents then (disk, none) else write_file path new disk
    ]
  ]

  -- `FileInsertStringAtLine` and `File2lines`.
  unfoldable pub file_insert_string_at_line : Text → Text → ℤ → Disk → Disk × Option FileError
  unfolding read_file insert_string_at_line write_file
  file_insert_string_at_line path str index disk = elim (read_file path disk) [
    | none ↦ (disk, some unreadable)
    | some contents ↦ elim (insert_string_at_line str index contents) [
      | none ↦ (disk, some too_long)
      | some lines ↦ write_file path lines disk
    ]
  ]

  unfoldable pub file2lines : Text → Disk → Option (List Text)
  unfolding read_file lines_from_reader
  file2lines path disk = elim (read_file path disk) [
    | none ↦ none
    | some contents ↦ lines_from_reader contents
  ]

  -- `PathIsFile`: os.Stat needs no right to read the file.
  abbrev pub path_is_file : Text → Disk → Bool
  path_is_file path disk = elim (disk path) [ none ↦ false | some c ↦ true ]

  -- The line that the optional argument asks for.
  abbrev pub line_number : List ℤ → ℤ
  line_number [] = pos 1
  line_number (pos zero ∷ ns) = pos 1
  line_number (n ∷ ns) = n

  -- `FileUpdateOrAdd`: an error of the replacement is dropped.
  unfoldable pub file_update_or_add :
      Text → Text → Text → Text → Bool → List ℤ → Disk → Disk × Option FileError
  unfolding file_is_match_lines file_replace_regex file_insert_string_at_line write_file
  file_update_or_add path tocontents grepstring pattern literal lines disk =
      if path_is_file path disk
      then (if file_is_match_lines path grepstring literal disk
          then (disk, none)
          else (let disk' = (file_replace_regex pattern tocontents path false disk).0 in
              if file_is_match_lines path grepstring literal disk'
              then (disk', none)
              else file_insert_string_at_line path tocontents (line_number lines) disk'))
      else if is_empty tocontents
      then (disk, none)
      else write_file path tocontents disk

  -- `FileCreatenewIfDiff`.
  unfoldable pub file_createnew_if_diff : Text → Text → Text → Bool → Disk → Disk × Option FileError
  unfolding file_is_match_lines write_file
  file_createnew_if_diff path tocontents grepstring literal disk =
      if path_is_file path disk && file_is_match_lines path grepstring literal disk
      then (disk, none)
      else write_file path tocontents disk
