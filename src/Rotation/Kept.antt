-- ===== src/Rotation/Kept.antt =====
-- Which backups RotateLogCheck keeps, removes and compresses.
use gosutils.Prelude.{
  ℕ, zero, suc, ◌+◌, ◌≡◌, refl, ◌∙◌, ap, sym, Bool, true, false, not, List, [], ◌∷◌, ◌++◌, subst,
  arith, ltb, if◌then◌else◌,
}
use gosutils.Prelude.Int.{ℤ, pos, negsuc}
use gosutils.Rotation.{
  LogInfo, MaxAge, choose, is_compressed, filter_backups, age_loop, filter_age, age_of, to_compress,
  put,
}
use gosutils.Rotation.Shares.{Share, less_is_true, newest_loop-Share, filter_backups-loop}

-- The files for which a test holds, in their order.
abbrev pub only : (LogInfo → Bool) → List LogInfo → List LogInfo
only test [] = []
only test (f ∷ files) = if test f then f ∷ only test files else only test files

-- A backup that is older than the age allows, where there is one.
abbrev pub is_expired : ℕ → ℕ → LogInfo → Bool
is_expired now zero f = false
is_expired now (suc age) f = ltb (f.timestamp + suc age) now

-- What the filter by number has to do: nothing where the number is 0 or below.
abbrev pub KeptBy : ℤ → List LogInfo → List LogInfo → List LogInfo → Type 0
KeptBy (pos (suc n)) files kept gone = Share (suc n) files kept gone
KeptBy (pos zero) files kept gone = (kept ≡ files) × (gone ≡ [])
KeptBy (negsuc n) files kept gone = (kept ≡ files) × (gone ≡ [])

put_both :
    (b : Bool) (f : LogInfo) (young old : List LogInfo)
    → put b f (young, old) ≡ (if not b then f ∷ young else young, if b then f ∷ old else old)
put_both true f young old = refl
put_both false f young old = refl

age_loop-only :
    (now age : ℕ) (files : List LogInfo)
    → age_loop now (suc age) files ≡ (
      only (λ (f : LogInfo). not (is_expired now (suc age) f)) files,
      only (is_expired now (suc age)) files,
    )
unfolding age_loop
age_loop-only now age [] = refl
age_loop-only now age (f ∷ files) =
    ap (put (ltb (f.timestamp + suc age) now) f) (age_loop-only now age files)
    ∙ put_both (ltb (f.timestamp + suc age) now) f _ _

none_expired :
    (now : ℕ) (files : List LogInfo)
    → ◌≡◌ {A = List LogInfo × List LogInfo}
        (files, [])
        (only (λ (f : LogInfo). not (is_expired now 0 f)) files, only (is_expired now 0) files)
none_expired now [] = refl
none_expired now (f ∷ files) =
    ap (λ (split : List LogInfo × List LogInfo). (f ∷ split.0, split.1)) (none_expired now files)

by_age-only :
    (now age : ℕ) (files : List LogInfo)
    → (if ltb 0 age then age_loop now age files else (files, []))
      ≡ (only (λ (f : LogInfo). not (is_expired now age f)) files, only (is_expired now age) files)
by_age-only now zero files = none_expired now files
by_age-only now (suc age) files =
    ap (λ b. if b then age_loop now (suc age) files else (files, []))
      (less_is_true 0 (suc age) (omega arith))
    ∙ age_loop-only now age files

filter_age-only :
    (now : ℕ) (max_age : MaxAge) (files : List LogInfo)
    → filter_age now max_age files ≡ (
      only (λ (f : LogInfo). not (is_expired now (age_of max_age) f)) files,
      only (is_expired now (age_of max_age)) files,
    )
unfolding filter_age
filter_age-only now max_age files = by_age-only now (age_of max_age) files

to_compress-only :
    (files : List LogInfo)
    → to_compress files ≡ only (λ (f : LogInfo). not (is_compressed f.name)) files
unfolding to_compress
to_compress-only [] = refl
to_compress-only (f ∷ files) = let rest = to_compress-only files in ground arith

filter_backups-KeptBy :
    (max_backups : ℤ) (files : List LogInfo)
    → KeptBy max_backups files
        (filter_backups max_backups files).0
        (filter_backups max_backups files).1
unfolding filter_backups
filter_backups-KeptBy (negsuc n) files = (refl, refl)
filter_backups-KeptBy (pos zero) files = (refl, refl)
filter_backups-KeptBy (pos (suc n)) files =
    subst (λ (split : List LogInfo × List LogInfo). Share (suc n) files split.0 split.1)
      (sym (filter_backups-loop n files)) (newest_loop-Share (suc n) files)

-- A number of backups above 0 keeps the files of the list up to the first that is of one log more
-- than the number, where a log and its compressed file count once, and the later ones go; a number
-- of 0 or below keeps all. Of the kept files those that are older than the age go too, where the
-- age is above 0, and the others remain. Those that remain are compressed where they are not yet.
pub choose-KeptBy :
    (now : ℕ) (max_backups : ℤ) (max_age : MaxAge) (files : List LogInfo)
    → (kept : List LogInfo) × (gone : List LogInfo) × KeptBy max_backups files kept gone
      × ((choose now max_backups max_age files).remaining
          ≡ only (λ (f : LogInfo). not (is_expired now (age_of max_age) f)) kept)
      × ((choose now max_backups max_age files).remove
          ≡ gone ++ only (is_expired now (age_of max_age)) kept)
      × ((choose now max_backups max_age files).compress
          ≡ only
              (λ (f : LogInfo). not (is_compressed f.name))
              (choose now max_backups max_age files).remaining)
unfolding choose
choose-KeptBy now max_backups max_age files =
    let kept = (filter_backups max_backups files).0 in
    let by_age = filter_age-only now max_age kept in
    (
      kept,
      (filter_backups max_backups files).1,
      filter_backups-KeptBy max_backups files,
      ap (λ (split : List LogInfo × List LogInfo). split.0) by_age,
      ap (λ (split : List LogInfo × List LogInfo). (filter_backups max_backups files).1 ++ split.1)
          by_age,
      to_compress-only (filter_age now max_age kept).0,
    )
