-- ===== src/Rotation/Runs.antt =====
-- Runs of RotateLogCheck and of notMatchLogBackup.
use gosutils.Prelude.{
  if◌then◌else◌, ℕ, Option, some, none, true, false, inr, ◌≡◌, refl, ◌++◌, List, [], ◌∷◌, Bool,
  ◌||◌, ◌==◌, arith,
}
use gosutils.Prelude.Int.{pos, ltb_ℤ}
use gosutils.Prelude.Text.{Text, codes, text_eq, HasNo}
use gosutils.Rotation.{choose, duration}
use gosutils.Rotation.Names.{backup_file, backup_name}
use gosutils.Rotation.Check.{Host, size, ended, failed, copy_file, remove_loop, rotate_log_check}
use gosutils.Rotation.Tried.{
  Call, removed, zipped, Records, removals, zips, AllRemoved, AllZipped, rotate_log_check-calls,
}
use gosutils.Rotation.Dirs.{not_match_log_backup}
use gosutils.Rotation.West.{not_match_log_backup-west}
use gosutils.Rotation.Tests.{flat, stamp, directory, zipped_backup, found_one}

-- Files that can all be read and written, but not removed or compressed.
abbrev stuck : Host (List Call) ℕ Unit
stuck = record {
  stat = λ p s. size 11;
  info = λ p s. inr tt;
  now = λ s. 100;
  stamp = λ s. codes "9Z";
  open_file = λ p s. none;
  create = λ p s. (none, s);
  copy_to = λ p q s. (none, s);
  chown = λ p i s. (none, s);
  chmod = λ p i s. (none, s);
  truncate = λ p s. (none, s);
  read_dir = λ p s. inr directory;
  remove = λ p s. (some 1, s ++ removed p ∷ []);
  gzip_file = λ z p s. (some 2, s ++ zipped p ∷ []);
  zip_post_hook = λ p s. s;
}

abbrev stuck_Records : Records stuck
stuck_Records = record {
  calls = λ s. s;
  calls-remove = λ p s. refl;
  calls-gzip_file = λ z p s. refl;
  calls-chown = λ p i s. refl;
  calls-zip_post_hook = λ p s. refl;
}

stuck_run :
    rotate_log_check stuck flat stamp
      (λ l. l)
      (codes "app.log")
      (pos 10)
      (pos 1)
      (duration (pos 5))
      []
    ≡ (ended (some (failed 1)), removed (codes "app-7Z.log.gz") ∷ [])
unfolding rotate_log_check text_eq
stuck_run = refl

large : ltb_ℤ (pos 10) (pos 11) ≡ true
large = refl

copied :
    copy_file stuck flat (codes "app.log") (backup_name flat (codes "app.log") (codes "9Z")) []
    ≡ (none, [])
unfolding copy_file
copied = refl

rotate_log_check-calls_example :
    ((rotate_log_check stuck flat stamp
        (λ l. l)
        (codes "app.log")
        (pos 10)
        (pos 1)
        (duration (pos 5))
        []).1
      ≡ removals stuck flat stuck_Records
          (codes ".")
          (choose 100 (pos 1) (duration (pos 5)) (zipped_backup ∷ [])).remove
        ++ zips stuck flat stuck_Records
            (codes ".")
            (choose 100 (pos 1) (duration (pos 5)) (zipped_backup ∷ [])).compress)
    × ((rotate_log_check stuck flat stamp
            (λ l. l)
            (codes "app.log")
            (pos 10)
            (pos 1)
            (duration (pos 5))
            []).0
          ≡ ended none
        → AllRemoved stuck flat stuck_Records
            (codes ".")
            (choose 100 (pos 1) (duration (pos 5)) (zipped_backup ∷ [])).remove
            []
          × AllZipped stuck flat stuck_Records
              (codes ".")
              (choose 100 (pos 1) (duration (pos 5)) (zipped_backup ∷ [])).compress
              (remove_loop stuck flat
                (codes ".")
                (choose 100 (pos 1) (duration (pos 5)) (zipped_backup ∷ [])).remove
                none
                []).1)
rotate_log_check-calls_example =
    rotate_log_check-calls stuck flat stuck_Records stamp (λ l. l) (codes "app.log") (pos 10)
      (pos 1) (duration (pos 5)) 11 zipped_backup [] [] [] [] refl large copied refl found_one

-- A parser of stamps that fails where no _ stands.
unfoldable has_bar : Text → Bool
has_bar [] = false
has_bar (c ∷ cs) = let rest = has_bar cs in c == b'_' || rest

abbrev barred : Text → Option ℕ
barred t = if has_bar t then some 7 else none

barred_fails : (t : Text) → HasNo b'_' t → has_bar t ≡ false
unfolding has_bar
barred_fails [] h = refl
barred_fails (c ∷ cs) h = ground (arith, barred_fails cs h.1)

without_bar : (t : Text) → HasNo b'_' t → barred t ≡ none
without_bar t h = rw (barred_fails t h) refl

-- East of UTC the same backup is told.
east : not_match_log_backup barred (codes "app-2026_01_02T15_04_05.000+0700.log") ≡ false
unfolding not_match_log_backup has_bar
east = refl

not_match_log_backup-west_example :
    not_match_log_backup barred
      (backup_file flat (codes "app.log") (codes "2026_01_02T15_04_05.000" ++ b'-' ∷ codes "0500"))
    ≡ true
unfolding text_eq
not_match_log_backup-west_example =
    not_match_log_backup-west barred flat (codes "app.log") (codes "2026_01_02T15_04_05.000")
      (codes "0500") without_bar (omega arith) (omega arith)
