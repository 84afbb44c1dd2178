-- ===== src/Rotation/Tests.antt =====
-- Runs of the choice of the backups.
use mathlib.Core.List.{Memᴰ}
use gosutils.Prelude.{
  if◌then◌else◌, ℕ, Option, some, none, false, inr, ◌≡◌, refl, ◌++◌, List, [], ◌∷◌, not,
}
use gosutils.Prelude.Int.{pos, negsuc}
use gosutils.Prelude.Text.{Text, codes, text_eq}
use gosutils.Rotation.{LogInfo, choose, age_of, days, duration, is_compressed}
use gosutils.Rotation.Names.{
  Paths, Entry, ends_with, time_from_name, backup_file, backup_name, get_old_log_files,
}
use gosutils.Rotation.Found.{IsBackup, get_old_log_files-backup_name}
use gosutils.Rotation.Kept.{only, is_expired, KeptBy, choose-KeptBy}

abbrev backup_c : LogInfo
backup_c = record { timestamp = 90; name = codes "c.log" }

abbrev backup_b : LogInfo
backup_b = record { timestamp = 50; name = codes "b.log" }

abbrev backup_b_gz : LogInfo
backup_b_gz = record { timestamp = 50; name = codes "b.log.gz" }

abbrev backup_a : LogInfo
backup_a = record { timestamp = 20; name = codes "a.log" }

abbrev backups : List LogInfo
backups = backup_c ∷ backup_b ∷ backup_b_gz ∷ backup_a ∷ []

-- Two logs of three by number, and one of them too old.
choose_two : (choose 100 (pos 2) (duration (pos 30)) backups).remaining ≡ backup_c ∷ []
unfolding choose
choose_two = refl

choose_two_removed :
    (choose 100 (pos 2) (duration (pos 30)) backups).remove ≡ backup_a ∷ backup_b ∷ backup_b_gz ∷ []
unfolding choose
choose_two_removed = refl

choose_all :
    (choose 100 (negsuc 0) (duration (pos 0)) backups).compress
    ≡ backup_c ∷ backup_b ∷ backup_a ∷ []
unfolding choose
choose_all = refl

-- So many days wrap round in 64 bits, and no file is too old.
age_of_wrapped : age_of (days (pos 106752)) ≡ 0
unfolding age_of
age_of_wrapped = refl

choose-KeptBy_example :
    (kept : List LogInfo) × (gone : List LogInfo) × KeptBy (pos 2) backups kept gone
    × ((choose 100 (pos 2) (duration (pos 30)) backups).remaining
        ≡ only (λ (f : LogInfo). not (is_expired 100 (age_of (duration (pos 30))) f)) kept)
    × ((choose 100 (pos 2) (duration (pos 30)) backups).remove
        ≡ gone ++ only (is_expired 100 (age_of (duration (pos 30)))) kept)
    × ((choose 100 (pos 2) (duration (pos 30)) backups).compress
        ≡ only
            (λ (f : LogInfo). not (is_compressed f.name))
            (choose 100 (pos 2) (duration (pos 30)) backups).remaining)
choose-KeptBy_example = choose-KeptBy 100 (pos 2) (duration (pos 30)) backups

-- A package for paths that knows names without a directory, and stamps of one moment.
abbrev pub flat : Paths
flat = record {
  base = λ s. s;
  dir = λ s. codes ".";
  ext = λ s. if ends_with s (codes ".log") then codes ".log" else [];
  join = λ d s. s;
}

abbrev pub stamp : Text → Option ℕ
stamp s = if text_eq s (codes "7Z") then some 7 else none

abbrev pub directory : List Entry
directory =
    record { name = codes "app.log"; is_dir = false }
    ∷ record { name = codes "app-7Z.log.gz"; is_dir = false }
    ∷ record { name = codes "app-8Z.log"; is_dir = false }
    ∷ []

abbrev pub zipped_backup : LogInfo
zipped_backup = record { timestamp = 7; name = codes "app-7Z.log.gz" }

pub found_one :
    get_old_log_files {E = ℕ} flat stamp (λ l. l) (inr directory) (codes "app.log")
    ≡ some (inr (zipped_backup ∷ []))
unfolding get_old_log_files text_eq
found_one = refl

-- A log called a..- has a prefix and an extension that overlap in a name.
slice_panic : time_from_name stamp (codes "a.-") (codes "a.-") (codes ".-") ≡ none
unfolding time_from_name text_eq
slice_panic = refl

zipped-IsBackup :
    IsBackup flat stamp
      (codes "app.log")
      (codes "7Z")
      (record { name = codes "app-7Z.log.gz"; is_dir = false })
unfolding time_from_name backup_name text_eq
zipped-IsBackup = inr (refl, refl)

named_back :
    flat.base (backup_name flat (codes "app.log") (codes "7Z"))
    ≡ backup_file flat (codes "app.log") (codes "7Z")
unfolding backup_name text_eq
named_back = refl

stamp_seven : stamp (codes "7Z") ≡ some 7
unfolding text_eq
stamp_seven = refl

get_old_log_files-backup_name_example : Memᴰ zipped_backup (zipped_backup ∷ [])
get_old_log_files-backup_name_example =
    get_old_log_files-backup_name flat stamp (λ l. l) (codes "app.log") (codes "7Z") 7 directory
      (zipped_backup ∷ []) (record { name = codes "app-7Z.log.gz"; is_dir = false }) stamp_seven
      named_back (λ info l mem. mem) zipped-IsBackup refl (Memᴰ.tail (Memᴰ.head refl)) found_one
