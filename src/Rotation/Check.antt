-- ===== src/Rotation/Check.antt =====
-- RotateLogCheck, RotateLogsCheck and copyFile of slogrus/logrotation_utils.go. The files and the clock
-- are a state; what os, io, the clock, endec.GzipFile and the hook do to it are parameters.
use gosutils.Prelude.{ℕ, not, List, [], ◌∷◌, ◌++◌, if◌then◌else◌, Option, none, some, ◌⊎◌, inl, inr}
use gosutils.Prelude.Int.{ℤ, pos, ltb_ℤ}
use gosutils.Prelude.Text.{Text}
use gosutils.Rotation.{LogInfo, MaxAge, Chosen, choose, compress_suffix}
use gosutils.Rotation.Names.{Paths, Entry, backup_name, get_old_log_files}

-- What os.Stat gives of the log.
pub data Stat (E : Type 0) : Type 0 where
  absent : Stat E
  unreadable : E → Stat E
  size : ℕ → Stat E

-- `E` is an error, `Info` a FileInfo. `now` is the clock, and `stamp` its text in a name.
pub record Host (S E Info : Type 0) : Type 0 where
  pub stat : Text → S → Stat E
  pub info : Text → S → E ⊎ Info
  pub now : S → ℕ
  pub stamp : S → Text
  pub open_file : Text → S → Option E
  pub create : Text → S → Option E × S
  pub copy_to : Text → Text → S → Option E × S
  pub chown : Text → Info → S → Option E × S
  pub chmod : Text → Info → S → Option E × S
  pub truncate : Text → S → Option E × S
  pub read_dir : Text → S → E ⊎ List Entry
  pub remove : Text → S → Option E × S
  pub gzip_file : Text → Text → S → Option E × S
  pub zip_post_hook : Text → S → S

pub data RotateError (E : Type 0) : Type 0 where
  no_info no_backup not_truncated no_directory failed : E → RotateError E

-- How RotateLogCheck ends: with an error or none, or by a panic of timeFromName.
pub data Rotated (E : Type 0) : Type 0 where
  ended : Option (RotateError E) → Rotated E
  panicked : Rotated E

-- `if err == nil && e != nil { err = e }`.
abbrev pub keep_error : {E : Type 0} → Option E → Option E → Option E
keep_error none e = e
keep_error (some err) e = some err

module _ {S E Info : Type 0} (h : Host S E Info) (paths : Paths) where
  open h use {
    stat, info, now, stamp, open_file, create, copy_to, chown, chmod, truncate, read_dir, remove,
    gzip_file, zip_post_hook,
  }

  abbrev pub set_mode : Text → Info → Option E × S → Option E × S
  set_mode dest_file i (some err, s) = (some err, s)
  set_mode dest_file i (none, s) = chmod dest_file i s

  abbrev pub set_owner : Text → E ⊎ Info → S → Option E × S
  set_owner dest_file (inl errinfo) s = (none, s)
  set_owner dest_file (inr i) s = set_mode dest_file i (chown dest_file i s)

  abbrev pub on_copied : Text → Text → Option E × S → Option E × S
  on_copied src_file dest_file (some err, s) = (some err, s)
  on_copied src_file dest_file (none, s) = set_owner dest_file (info src_file s) s

  abbrev pub on_created : Text → Text → Option E × S → Option E × S
  on_created src_file dest_file (some err, s) = (some err, s)
  on_created src_file dest_file (none, s) =
      on_copied src_file dest_file (copy_to dest_file src_file s)

  unfoldable pub copy_file : Text → Text → S → Option E × S
  copy_file src_file dest_file s = elim (open_file src_file s) as (λ _. Option E × S) [
    | none ↦ on_created src_file dest_file (create dest_file s)
    | some err ↦ (some err, s)
  ]

  -- The loop over os.Remove.
  unfoldable pub remove_loop : Text → List LogInfo → Option E → S → Option E × S
  remove_loop dir [] err s = (err, s)
  remove_loop dir (f ∷ files) err s =
      let (err_remove, s1) = remove (paths.join dir f.name) s in
      remove_loop dir files (keep_error err err_remove) s1

  -- What follows a call of GzipFile: the hook, and then the owner of the new file.
  abbrev pub on_zipped : Text → Option E × S → S
  on_zipped zipname (none, s) = zip_post_hook zipname s
  on_zipped zipname (some err, s) = s

  abbrev pub own_zip : Text → Option E → E ⊎ Info → S → Option E × S
  own_zip zipname none (inr i) s = chown zipname i s
  own_zip zipname err i s = (err, s)

  abbrev pub compress_one : Text → Option E → S → Option E × S
  compress_one fn err s =
      let zipname = fn ++ compress_suffix in
      let i = info fn s in
      let zipped = gzip_file zipname fn s in
      own_zip zipname (keep_error err zipped.0) i (on_zipped zipname zipped)

  -- The loop over GzipFile.
  unfoldable pub compress_loop : Text → List LogInfo → Option E → S → Option E × S
  compress_loop dir [] err s = (err, s)
  compress_loop dir (f ∷ files) err s =
      let (err1, s1) = compress_one (paths.join dir f.name) err s in compress_loop dir files err1 s1

  abbrev pub as_failed : Option E × S → Rotated E × S
  as_failed (none, s) = (ended none, s)
  as_failed (some err, s) = (ended (some (failed err)), s)

  unfoldable pub clean_up : Text → Chosen → S → Rotated E × S
  unfolding remove_loop compress_loop
  clean_up dir c s =
      let (err, s1) = remove_loop dir c.remove none s in
      as_failed (compress_loop dir c.compress err s1)

  module _ (parse : Text → Option ℕ) (sort : List LogInfo → List LogInfo) where
    abbrev pub on_old : Text → ℤ → MaxAge → Option (E ⊎ List LogInfo) → S → Rotated E × S
    on_old log_file max_backups max_age none s = (panicked, s)
    on_old log_file max_backups max_age (some (inl err)) s = (ended (some (no_directory err)), s)
    on_old log_file max_backups max_age (some (inr [])) s = (ended none, s)
    on_old log_file max_backups max_age (some (inr (f ∷ files))) s =
        clean_up (paths.dir log_file) (choose (now s) max_backups max_age (f ∷ files)) s

    abbrev pub on_truncated : Text → ℤ → MaxAge → Option E × S → Rotated E × S
    on_truncated log_file max_backups max_age (some err, s) = (ended (some (not_truncated err)), s)
    on_truncated log_file max_backups max_age (none, s) =
        on_old log_file max_backups max_age
          (get_old_log_files paths parse sort (read_dir (paths.dir log_file) s) log_file) s

    abbrev pub on_backup : Text → ℤ → MaxAge → Option E × S → Rotated E × S
    on_backup log_file max_backups max_age (some err, s) = (ended (some (no_backup err)), s)
    on_backup log_file max_backups max_age (none, s) =
        on_truncated log_file max_backups max_age (truncate log_file s)

    abbrev pub on_stat : Text → ℤ → ℤ → MaxAge → Stat E → S → Rotated E × S
    on_stat log_file max_file_size max_backups max_age absent s = (ended none, s)
    on_stat log_file max_file_size max_backups max_age (unreadable err) s =
        (ended (some (no_info err)), s)
    on_stat log_file max_file_size max_backups max_age (size n) s =
        if not (ltb_ℤ max_file_size (pos n))
        then (ended none, s)
        else on_backup log_file max_backups max_age
            (copy_file log_file (backup_name paths log_file (stamp s)) s)

    unfoldable pub rotate_log_check : Text → ℤ → ℤ → MaxAge → S → Rotated E × S
    unfolding copy_file clean_up choose get_old_log_files backup_name
    rotate_log_check log_file max_file_size max_backups max_age s =
        on_stat log_file max_file_size max_backups max_age (stat log_file s) s

    -- `RotateLogsCheck`: the errors of all logs, joined.
    abbrev pub and_more :
        Rotated E × S → (S → Option (List (RotateError E)) × S) → Option (List (RotateError E)) × S
    and_more (panicked, s) f = (none, s)
    and_more (ended e, s) f =
        let (errs, s1) = f s in
        (elim errs [ none ↦ none | some es ↦ some (elim e [ none ↦ es | some x ↦ x ∷ es ]) ], s1)

    unfoldable pub rotate_logs_check :
        ℤ → ℤ → MaxAge → List Text → S → Option (List (RotateError E)) × S
    unfolding rotate_log_check
    rotate_logs_check max_file_size max_backups max_age [] s = (some [], s)
    rotate_logs_check max_file_size max_backups max_age (log_file ∷ log_files) s =
        and_more (rotate_log_check log_file max_file_size max_backups max_age s)
          λ s1. rotate_logs_check max_file_size max_backups max_age log_files s1
