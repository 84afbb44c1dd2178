-- ===== src/Rotation/Dirs.antt =====
-- Which files of a directory RotateDirsCheck takes for logs: getSubstring, notMatchLogBackup,
-- GetOriginLogFiles and RotateDirsCheck of slogrus/logrotation_utils.go. FindFilesMatchRegexpName of
-- gofilepath, sort.Strings and time.Parse are parameters.
use gosutils.Prelude.{
  ℕ, suc, ◌+◌, Bool, true, false, ◌||◌, List, [], ◌∷◌, ◌++◌, ◌==◌, if◌then◌else◌, Option, none,
  some, length, take,
}
use gosutils.Prelude.Int.{ℤ}
use gosutils.Prelude.Text.{Text, codes}
use gosutils.Sutils.Paths.{split_paths, join_paths}
use gosutils.Rotation.{LogInfo, MaxAge}
use gosutils.Rotation.Names.{Paths}
use gosutils.Rotation.Check.{Host, RotateError, rotate_logs_check}

-- strings.Count of one character.
unfoldable pub count : ℕ → Text → ℕ
count a [] = 0
count a (c ∷ cs) = let rest = count a cs in if c == a then suc rest else rest

abbrev pub backup_time_format : Text
backup_time_format = codes "2006_01_02T15_04_05.000Z0700"

unfoldable pub get_substring : Text → Text → Text
unfolding count split_paths join_paths
get_substring str1 str2 =
    let dot_count = count b'.' str1 in
    let parts = split_paths b'.' str2 in
    if length parts == dot_count + 2 || length parts == dot_count + 3
    then join_paths b'.' (take (dot_count + 1) parts)
    else str2

-- What stands behind the last of a character.
unfoldable pub behind_last : ℕ → Text → Option Text
behind_last a [] = none
behind_last a (c ∷ cs) = elim (behind_last a cs) [
  | none ↦ if c == a then some cs else none
  | some t ↦ some t
]

abbrev pub is_error : Option ℕ → Bool
is_error none = true
is_error (some t) = false

module _ (parse : Text → Option ℕ) where
  abbrev pub is_no_stamp : Option Text → Bool
  is_no_stamp none = true
  is_no_stamp (some ts) = is_error (parse (get_substring backup_time_format ts))

  unfoldable pub not_match_log_backup : Text → Bool
  unfolding behind_last get_substring
  not_match_log_backup filename = is_no_stamp (behind_last b'-' filename)

  unfoldable pub origin_loop : List Text → List Text
  unfolding not_match_log_backup
  origin_loop [] = []
  origin_loop (f ∷ files) =
      let rest = origin_loop files in if not_match_log_backup f then f ∷ rest else rest

  module _ {S E Info : Type 0} (h : Host S E Info) (paths : Paths) where
    module _ (sort : List LogInfo → List LogInfo) (sort_strings : List Text → List Text) where
      -- `find_files dir` is what is found in a state of the files.
      unfoldable pub get_origin_log_files : (Text → S → List Text) → Text → S → List Text
      unfolding origin_loop
      get_origin_log_files find_files dir s = sort_strings (origin_loop (find_files dir s))

      abbrev pub and_next :
          Option (List (RotateError E)) × S
          → (S → Option (List (RotateError E)) × S)
          → Option (List (RotateError E)) × S
      and_next (none, s) f = (none, s)
      and_next (some errs, s) f =
          let (more, s1) = f s in (elim more [ none ↦ none | some es ↦ some (errs ++ es) ], s1)

      -- `RotateDirsCheck`, whose errors are joined; none where a check panics.
      unfoldable pub rotate_dirs_check :
          ℤ
          → ℤ
          → MaxAge
          → (Text → S → List Text)
          → List Text
          → S
          → Option (List (RotateError E)) × S
      unfolding rotate_logs_check get_origin_log_files
      rotate_dirs_check max_file_size max_backups max_age find_files [] s = (some [], s)
      rotate_dirs_check max_file_size max_backups max_age find_files (dir ∷ log_dirs) s =
          and_next
            (rotate_logs_check h paths parse sort max_file_size max_backups max_age
              (get_origin_log_files find_files dir s) s)
            λ s1. rotate_dirs_check max_file_size max_backups max_age find_files log_dirs s1
