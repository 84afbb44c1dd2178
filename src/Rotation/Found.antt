-- ===== src/Rotation/Found.antt =====
-- Which backups getOldLogFiles finds.
use mathlib.Core.List.{Memᴰ}
use gosutils.Prelude.{
  if_true, if_false, ℕ, ◌≡◌, refl, sym, ap, ◌∙◌, subst, false, List, [], ◌∷◌, ◌++◌, Option, none,
  some, append_assoc, ◌⊎◌, inl, inr, arith, Bool-cases,
}
use gosutils.Prelude.Text.{Text, codes}
use gosutils.Rotation.{LogInfo, compress_suffix}
use gosutils.Rotation.Names.{
  Paths, Entry, stem, backup_file, backup_name, time_from_name, with_entry, old_loop,
  get_old_log_files, prefix_and_ext, sorted, first_try, second_try, on_rest,
}
use gosutils.Rotation.Parsed.{time_from_name-made}

-- The step of the loop, by what the rest of the entries gives.
step_of_rest :
    (o : Option (List LogInfo)) (f : List LogInfo → Option (List LogInfo)) (found : List LogInfo)
    → on_rest o f ≡ some found
    → (rest : List LogInfo) × (o ≡ some rest) × (f rest ≡ some found)
step_of_rest none f found h = absurd (ground arith)
step_of_rest (some rest) f found h = (rest, refl, h)

some_injective : {A : Type 0} {a b : A} → some a ≡ some b → a ≡ b
some_injective h = cc

second_try-Memᴰ :
    (info : LogInfo) (name : Text) (o : Option (Option ℕ)) (rest found : List LogInfo)
    → second_try name o rest ≡ some found
    → Memᴰ info rest
    → Memᴰ info found
second_try-Memᴰ info name none rest found h mem = absurd (ground arith)
second_try-Memᴰ info name (some none) rest found h mem =
    subst (λ l. Memᴰ info l) (some_injective h) mem
second_try-Memᴰ info name (some (some t)) rest found h mem =
    subst (λ l. Memᴰ info l) (some_injective h) (Memᴰ.tail mem)

first_try-Memᴰ :
    (info : LogInfo) (name : Text) (o second : Option (Option ℕ)) (rest found : List LogInfo)
    → first_try name o second rest ≡ some found
    → Memᴰ info rest
    → Memᴰ info found
first_try-Memᴰ info name none second rest found h mem = absurd (ground arith)
first_try-Memᴰ info name (some none) second rest found h mem =
    second_try-Memᴰ info name second rest found h mem
first_try-Memᴰ info name (some (some t)) second rest found h mem =
    subst (λ l. Memᴰ info l) (some_injective h) (Memᴰ.tail mem)

module _ (parse : Text → Option ℕ) (prefix ext : Text) where
  with_entry-Memᴰ :
      (info : LogInfo) (f : Entry) (rest found : List LogInfo)
      → with_entry parse prefix ext f rest ≡ some found
      → Memᴰ info rest
      → Memᴰ info found
  with_entry-Memᴰ info f rest found h mem = elim (Bool-cases f.is_dir) [
    | inl dir ↦ subst (λ l. Memᴰ info l) (some_injective (sym (if_true _ _ dir) ∙ h)) mem
    | inr file ↦ first_try-Memᴰ info f.name _ _ rest found (sym (if_false _ _ file) ∙ h) mem
  ]

  -- A file whose name gives a time is in the list.
  old_loop-Memᴰ :
      (files : List Entry) (found : List LogInfo) (e : Entry) (info : LogInfo)
      → old_loop parse prefix ext files ≡ some found
      → ((rest : List LogInfo) → with_entry parse prefix ext e rest ≡ some (info ∷ rest))
      → Memᴰ e files
      → Memᴰ info found
  unfolding old_loop
  old_loop-Memᴰ [] found e info done here mem = elim mem [ ]
  old_loop-Memᴰ (f ∷ files) found e info done here (Memᴰ.head eq) =
      let (rest, before, step) =
        step_of_rest (old_loop parse prefix ext files) (with_entry parse prefix ext f) found done in
      subst (λ l. Memᴰ info l)
        (some_injective (sym (here rest) ∙ ap (λ x. with_entry parse prefix ext x rest) eq ∙ step))
        (Memᴰ.head refl)
  old_loop-Memᴰ (f ∷ files) found e info done here (Memᴰ.tail mem) =
      let (rest, before, step) =
        step_of_rest (old_loop parse prefix ext files) (with_entry parse prefix ext f) found done in
      with_entry-Memᴰ info f rest found step (old_loop-Memᴰ files rest e info before here mem)

  -- What a name with a time gives, also where only the second try succeeds.
  with_entry-made :
      (e : Entry) (ts : Text) (t : ℕ) (rest : List LogInfo)
      → parse ts ≡ some t
      → e.is_dir ≡ false
      → (e.name ≡ prefix ++ ts ++ ext)
        ⊎ ((e.name ≡ prefix ++ ts ++ (ext ++ compress_suffix))
            × (time_from_name parse e.name prefix ext ≡ some none))
      → with_entry parse prefix ext e rest ≡ some (record { timestamp = t; name = e.name } ∷ rest)
  with_entry-made e ts t rest time file (inl plain) =
      if_false _ _ file
      ∙ ap
          (λ o.
            first_try e.name o (time_from_name parse e.name prefix (ext ++ compress_suffix)) rest)
          (ap (λ n. time_from_name parse n prefix ext) plain
            ∙ time_from_name-made parse prefix ts ext
            ∙ ap some time)
  with_entry-made e ts t rest time file (inr (zipped, first)) =
      if_false _ _ file
      ∙ ap
          (λ o.
            first_try e.name o (time_from_name parse e.name prefix (ext ++ compress_suffix)) rest)
          first
      ∙ ap (λ o. second_try e.name o rest)
          (ap (λ n. time_from_name parse n prefix (ext ++ compress_suffix)) zipped
            ∙ time_from_name-made parse prefix ts (ext ++ compress_suffix)
            ∙ ap some time)

-- The file is a backup of the log, or a compressed one that is not taken for a plain one.
abbrev pub IsBackup : Paths → (Text → Option ℕ) → Text → Text → Entry → Type 0
IsBackup paths parse log ts e =
    (e.name ≡ paths.base (backup_name paths log ts))
    ⊎ ((e.name ≡ paths.base (backup_name paths log ts) ++ compress_suffix)
        × (time_from_name parse e.name (prefix_and_ext paths log).0 (prefix_and_ext paths log).1
            ≡ some none))

as_made :
    (paths : Paths) (parse : Text → Option ℕ) (log ts : Text) (e : Entry)
    → paths.base (backup_name paths log ts) ≡ backup_file paths log ts
    → IsBackup paths parse log ts e
    → (e.name ≡ (prefix_and_ext paths log).0 ++ ts ++ (prefix_and_ext paths log).1)
      ⊎ ((e.name
            ≡ (prefix_and_ext paths log).0
              ++ ts
              ++ ((prefix_and_ext paths log).1 ++ compress_suffix))
          × (time_from_name parse e.name (prefix_and_ext paths log).0 (prefix_and_ext paths log).1
              ≡ some none))
as_made paths parse log ts e joined (inl plain) = inl (plain ∙ joined)
as_made paths parse log ts e joined (inr (zipped, first)) = inr (
  zipped
      ∙ ap (λ s. s ++ compress_suffix) joined
      ∙ append_assoc (stem paths (paths.base log) ++ codes "-" ++ ts) (paths.ext (paths.base log))
          compress_suffix,
  first,
)

files_of_sorted :
    {E : Type 0} (sort : List LogInfo → List LogInfo) (o : Option (List LogInfo))
    (found : List LogInfo)
    → sorted {E = E} sort o ≡ some (inr found)
    → (files : List LogInfo) × (o ≡ some files) × (sort files ≡ found)
files_of_sorted sort none found h = absurd (ground arith)
files_of_sorted sort (some files) found h = (files, refl, cc)

-- What backupName calls a backup of a log, timeFromName reads: getOldLogFiles on a directory that
-- holds the backup, or the backup compressed, finds it with the time that the text in its name
-- stands for. It is assumed that the last part of the path that Join gives is the name, that
-- sort.Sort loses nothing, that the plain extension fits no time of a compressed name, and that
-- no name in the directory makes the slice of timeFromName panic.
pub get_old_log_files-backup_name :
    {E : Type 0} (paths : Paths) (parse : Text → Option ℕ) (sort : List LogInfo → List LogInfo)
    (log ts : Text) (t : ℕ) (files : List Entry) (found : List LogInfo) (e : Entry)
    → parse ts ≡ some t
    → paths.base (backup_name paths log ts) ≡ backup_file paths log ts
    → ((info : LogInfo) (l : List LogInfo) → Memᴰ info l → Memᴰ info (sort l))
    → IsBackup paths parse log ts e
    → e.is_dir ≡ false
    → Memᴰ e files
    → get_old_log_files {E = E} paths parse sort (inr files) log ≡ some (inr found)
    → Memᴰ (record { timestamp = t; name = e.name }) found
unfolding get_old_log_files backup_name
get_old_log_files-backup_name paths parse sort log ts t files found e time joined kept backup file
      mem done =
    let (prefix, ext) = prefix_and_ext paths log in
    let info : LogInfo = record { timestamp = t; name = e.name } in
    let (l, looped, eq) = files_of_sorted sort (old_loop parse prefix ext files) found done in
    subst (λ l. Memᴰ info l) eq
      (kept info l (
        old_loop-Memᴰ parse prefix ext files l e info looped
          (λ rest.
            with_entry-made parse prefix ext e ts t rest time file
              (as_made paths parse log ts e joined backup))
          mem))
