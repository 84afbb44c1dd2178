-- ===== src/Rotation/Names.antt =====
-- The names of backups: prefixAndExt, timeFromName and getOldLogFiles of slogrus/logrotation_utils.go
-- and backupName of slogrus/logrotate.go. The functions of the package for paths, the texts of time.Time
-- and sort.Sort are parameters.
use gosutils.Prelude.{
  ℕ, ◌-◌, Bool, ◌&&◌, List, [], ◌∷◌, ◌++◌, leb, if◌then◌else◌, Option, none, some, length, take,
  drop, ◌⊎◌, inl, inr,
}
use gosutils.Prelude.Text.{Text, codes, text_eq}
use gosutils.Rotation.{LogInfo, compress_suffix}

pub record Paths : Type 0 where
  pub base : Text → Text
  pub dir : Text → Text
  pub ext : Text → Text
  pub join : Text → Text → Text

-- An entry of the directory.
pub record Entry : Type 0 where
  pub name : Text
  pub is_dir : Bool

abbrev pub starts_with : Text → Text → Bool
starts_with s prefix = text_eq (take (length prefix) s) prefix

abbrev pub ends_with : Text → Text → Bool
ends_with s suffix = text_eq (drop (length s - length suffix) s) suffix

-- `s[from:to]`, for a `to` that is not beyond the end; none where it panics.
unfoldable pub slice : Text → ℕ → ℕ → Option Text
slice s from to = if leb from to then some (take (to - from) (drop from s)) else none

-- `filename[:len(filename)-len(ext)]`.
abbrev pub stem : Paths → Text → Text
stem paths filename = take (length filename - length (paths.ext filename)) filename

abbrev pub prefix_and_ext : Paths → Text → Text × Text
prefix_and_ext paths filename =
    (stem paths (paths.base filename) ++ codes "-", paths.ext (paths.base filename))

-- The name of a backup with the text of the current time, and its path.
abbrev pub backup_file : Paths → Text → Text → Text
backup_file paths name timestamp =
    stem paths (paths.base name) ++ codes "-" ++ timestamp ++ paths.ext (paths.base name)

unfoldable pub backup_name : Paths → Text → Text → Text
backup_name paths name timestamp = paths.join (paths.dir name) (backup_file paths name timestamp)

-- None is a panic, and some none an error.
abbrev pub stamp_of : (Text → Option ℕ) → Option Text → Option (Option ℕ)
stamp_of parse none = none
stamp_of parse (some ts) = some (parse ts)

unfoldable pub time_from_name : (Text → Option ℕ) → Text → Text → Text → Option (Option ℕ)
unfolding slice
time_from_name parse filename prefix ext =
    if starts_with filename prefix && ends_with filename ext
    then stamp_of parse (slice filename (length prefix) (length filename - length ext))
    else some none

-- What is appended to `logFiles` for one name, after both tries.
abbrev pub second_try : Text → Option (Option ℕ) → List LogInfo → Option (List LogInfo)
second_try name none rest = none
second_try name (some none) rest = some rest
second_try name (some (some t)) rest = some (record { timestamp = t; name = name } ∷ rest)

abbrev pub first_try :
    Text → Option (Option ℕ) → Option (Option ℕ) → List LogInfo → Option (List LogInfo)
first_try name none second rest = none
first_try name (some none) second rest = second_try name second rest
first_try name (some (some t)) second rest = some (record { timestamp = t; name = name } ∷ rest)

abbrev pub on_rest :
    Option (List LogInfo) → (List LogInfo → Option (List LogInfo)) → Option (List LogInfo)
on_rest none f = none
on_rest (some rest) f = f rest

abbrev pub with_entry :
    (Text → Option ℕ) → Text → Text → Entry → List LogInfo → Option (List LogInfo)
with_entry parse prefix ext f rest =
    if f.is_dir
    then some rest
    else first_try f.name (time_from_name parse f.name prefix ext)
        (time_from_name parse f.name prefix (ext ++ compress_suffix)) rest

-- The loop over the entries.
unfoldable pub old_loop : (Text → Option ℕ) → Text → Text → List Entry → Option (List LogInfo)
unfolding time_from_name
old_loop parse prefix ext [] = some []
old_loop parse prefix ext (f ∷ files) =
    on_rest (old_loop parse prefix ext files) (with_entry parse prefix ext f)

abbrev pub sorted :
    {E : Type 0} → (List LogInfo → List LogInfo) → Option (List LogInfo) → Option (E ⊎ List LogInfo)
sorted sort none = none
sorted sort (some files) = some (inr (sort files))

-- None where it panics, or the error of os.ReadDir, or the backups.
unfoldable pub get_old_log_files :
    {E : Type 0}
    → Paths
    → (Text → Option ℕ)
    → (List LogInfo → List LogInfo)
    → E ⊎ List Entry
    → Text
    → Option (E ⊎ List LogInfo)
unfolding old_loop
get_old_log_files paths parse sort (inl err) log_file = some (inl err)
get_old_log_files paths parse sort (inr files) log_file =
    let (prefix, ext) = prefix_and_ext paths log_file in
    sorted sort (old_loop parse prefix ext files)
