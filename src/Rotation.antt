-- ===== src/Rotation.antt =====
-- Which backups of a log file a rotation removes and which it compresses: the middle of
-- RotateLogCheck in slogrus/logrotation_utils.go, from the list of getOldLogFiles, which Names models,
-- to the lists that the loops over os.Remove and endec.GzipFile go through. Check has the function
-- around it, and Dirs what looks for the logs.
pub mod Check
pub mod Dirs
pub mod Found
pub mod Kept
pub mod Names
pub mod Parsed
pub mod Runs
pub mod Shares
pub mod Tests
pub mod Tried
pub mod West
use gosutils.Prelude.{
  ℕ, zero, suc, ◌+◌, ◌*◌, ◌-◌, ◌%◌, ◌^◌, Bool, true, false, ◌&&◌, ◌||◌, not, List, [], ◌∷◌, ◌++◌,
  ◌==◌, ltb, leb, if◌then◌else◌, Option, none, some, length,
}
use gosutils.Prelude.Int.{ℤ, pos, negsuc}
use gosutils.Prelude.Text.{Text, codes, is_empty, text_eq}

-- A backup: the time in its name, in nanoseconds from a fixed start, and the name.
pub record LogInfo : Type 0 where
  pub timestamp : ℕ
  pub name : Text

-- What stands in front of a suffix.
unfoldable pub trim_end : Text → Text → Option Text
unfolding text_eq
trim_end suffix [] = if text_eq [] suffix then some [] else none
trim_end suffix (c ∷ cs) =
    let rest = trim_end suffix cs in
    if text_eq (c ∷ cs) suffix then some [] else elim rest [ none ↦ none | some t ↦ some (c ∷ t) ]

abbrev pub compress_suffix : Text
compress_suffix = codes ".gz"

-- `strings.TrimSuffix(fn, compressSuffix)`.
abbrev pub or_whole : Text → Option Text → Text
or_whole s none = s
or_whole s (some t) = t

unfoldable pub log_name : Text → Text
unfolding trim_end
log_name fn = or_whole fn (trim_end compress_suffix fn)

abbrev pub is_cut : Option Text → Bool
is_cut none = false
is_cut (some t) = true

unfoldable pub is_compressed : Text → Bool
unfolding trim_end
is_compressed fn = is_cut (trim_end compress_suffix fn)

-- The keys of the map `preserved`.
unfoldable pub holds : List Text → Text → Bool
unfolding text_eq
holds [] s = false
holds (t ∷ ts) s = text_eq t s || holds ts s

abbrev pub preserve : Text → List Text → List Text
preserve s ts = if holds ts s then ts else s ∷ ts

-- What a filter keeps, `remaining`, and what it adds to `remove`.
abbrev pub Split : Type 0
Split = List LogInfo × List LogInfo

abbrev pub put : Bool → LogInfo → Split → Split
put true f (remaining, remove) = (remaining, f ∷ remove)
put false f (remaining, remove) = (f ∷ remaining, remove)

-- The loop of the filter by number.
unfoldable pub newest_loop : ℕ → List Text → List LogInfo → Split
unfolding log_name holds
newest_loop max_backups preserved [] = ([], [])
newest_loop max_backups preserved (f ∷ files) =
    let preserved' = preserve (log_name f.name) preserved in
    let rest = newest_loop max_backups preserved' files in
    put (ltb max_backups (length preserved')) f rest

-- The filters, with their conditions.
unfoldable pub filter_backups : ℤ → List LogInfo → Split
unfolding newest_loop
filter_backups (negsuc n) files = (files, [])
filter_backups (pos n) files =
    if ltb 0 n && ltb n (length files) then newest_loop n [] files else (files, [])

unfoldable pub age_loop : ℕ → ℕ → List LogInfo → Split
age_loop now age [] = ([], [])
age_loop now age (f ∷ files) =
    let rest = age_loop now age files in put (ltb (f.timestamp + age) now) f rest

-- `maxAge`, an int of days, a Duration in nanoseconds, or of another type.
pub data MaxAge : Type 0 where
  days duration : ℤ → MaxAge
  other : MaxAge

-- `time.Duration(days) * 24 * time.Hour` in 64 bits, as two's complement.
unfoldable pub days_bits : ℤ → ℕ
days_bits (pos n) = n * 86400000000000 % 2 ^ 64
days_bits (negsuc n) = (2 ^ 64 - (n + 1) * 86400000000000 % 2 ^ 64) % 2 ^ 64

-- The age if it is above 0, and 0 else.
unfoldable pub age_of : MaxAge → ℕ
unfolding days_bits
age_of (days v) = let bits = days_bits v in if ltb bits (2 ^ 63) then bits else 0
age_of (duration (pos n)) = n
age_of (duration (negsuc n)) = 0
age_of other = 0

unfoldable pub filter_age : ℕ → MaxAge → List LogInfo → Split
unfolding age_loop age_of
filter_age now max_age files =
    if ltb 0 (age_of max_age) then age_loop now (age_of max_age) files else (files, [])

unfoldable pub to_compress : List LogInfo → List LogInfo
unfolding is_compressed
to_compress [] = []
to_compress (f ∷ files) =
    let rest = to_compress files in if is_compressed f.name then rest else f ∷ rest

-- The lists of RotateLogCheck behind the filters.
pub record Chosen : Type 0 where
  pub remaining : List LogInfo
  pub compress : List LogInfo
  pub remove : List LogInfo

unfoldable pub choose : ℕ → ℤ → MaxAge → List LogInfo → Chosen
unfolding filter_backups filter_age to_compress
choose now max_backups max_age files =
    let (kept, gone) = filter_backups max_backups files in
    let (young, old) = filter_age now max_age kept in
    record { remaining = young; compress = to_compress young; remove = gone ++ old }
