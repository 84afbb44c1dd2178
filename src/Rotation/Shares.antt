-- ===== src/Rotation/Shares.antt =====
-- The filter of RotateLogCheck by the number of the logs.
use gosutils.Prelude.{
  dec_lt, ℕ, suc, ◌+◌, ◌≤◌, ◌<◌, ◌≡◌, refl, ◌∙◌, ap, sym, Bool, true, false, ◌||◌, List, [], ◌∷◌,
  ◌++◌, map, length, subst, arith, ltb,
}
use gosutils.Prelude.Int.{pos}
use gosutils.Prelude.Text.{Text, text_eq, text_eq→eq}
use gosutils.Rotation.{LogInfo, log_name, holds, preserve, newest_loop, filter_backups, put}

-- The logs that the backups hold, with or without the suffix of a compressed one.
abbrev pub logs : List LogInfo → List Text
logs files = map (λ (f : LogInfo). log_name f.name) files

-- No log is named twice.
abbrev pub IsDistinct : List Text → Type 0
IsDistinct [] = Unit
IsDistinct (t ∷ ts) = (holds ts t ≡ false) × IsDistinct ts

-- Files are left over only when the share is full and the first of them is of a further log.
abbrev pub IsFull : ℕ → List Text → List LogInfo → Type 0
IsFull n names [] = Unit
IsFull n names (f ∷ files) = (length names ≡ n) × (holds names (log_name f.name) ≡ false)

-- `kept` and `gone` cut the files in two; the logs of `kept` are `n` at most, and of what is gone, the
-- first would be one more.
abbrev pub Share : ℕ → List LogInfo → List LogInfo → List LogInfo → Type 0
Share n files kept gone =
    (kept ++ gone ≡ files)
    × (names : List Text) × IsDistinct names
    × ((t : Text) → holds names t ≡ holds (logs kept) t)
    × (length names ≤ n)
    × IsFull n names gone

-- The same with logs that are counted already.
ShareFrom : ℕ → List Text → List LogInfo → List LogInfo → List LogInfo → Type 0
ShareFrom n acc files kept gone =
    (kept ++ gone ≡ files)
    × (names : List Text) × IsDistinct names
    × ((t : Text) → holds names t ≡ holds acc t || holds (logs kept) t)
    × (length names ≤ n)
    × IsFull n names gone

length-preserve : (t : Text) (acc : List Text) → length acc ≤ length (preserve t acc)
length-preserve t acc = ground arith

put_gone :
    (b : Bool) (f : LogInfo) (split : List LogInfo × List LogInfo) (files : List LogInfo)
    → b ≡ true
    → split ≡ ([], files)
    → put b f split ≡ ([], f ∷ files)
put_gone b f split files over all = rw (over, all) refl

put_kept :
    (b : Bool) (f : LogInfo) (split : List LogInfo × List LogInfo)
    → b ≡ false
    → put b f split ≡ (f ∷ split.0, split.1)
put_kept b f split kept = rw kept refl

pub less_is_true : (m n : ℕ) → m < n → ltb m n ≡ true
less_is_true m n h = ground arith

other_is_false : (m n : ℕ) → n ≤ m → ltb m n ≡ false
other_is_false m n h = ground arith

-- Once the logs are too many, every further file goes.
newest_loop-over :
    (n : ℕ) (files : List LogInfo) (acc : List Text)
    → n < length acc
    → newest_loop n acc files ≡ ([], files)
unfolding newest_loop
newest_loop-over n [] acc h = refl
newest_loop-over n (f ∷ files) acc h =
    let longer : n < length (preserve (log_name f.name) acc) =
      omega (arith, h, length-preserve (log_name f.name) acc) in
    put_gone _ f _ files (less_is_true n _ longer) (newest_loop-over n files _ longer)

length-preserve-suc : (t : Text) (acc : List Text) → length (preserve t acc) ≤ suc (length acc)
length-preserve-suc t acc = ground arith

-- Where the files cannot be too many, none goes.
newest_loop-under :
    (n : ℕ) (files : List LogInfo) (acc : List Text)
    → length acc + length files ≤ n
    → newest_loop n acc files ≡ (files, [])
unfolding newest_loop
newest_loop-under n [] acc h = refl
newest_loop-under n (f ∷ files) acc h =
    let few : length (preserve (log_name f.name) acc) + length files ≤ n =
      omega (arith, h, length-preserve-suc (log_name f.name) acc) in
    put_kept _ f _ (other_is_false n _ (omega arith))
    ∙ ap (λ (split : List LogInfo × List LogInfo). (f ∷ split.0, split.1))
        (newest_loop-under n files _ few)

-- What the names hold after one more.
held_is_held :
    (s : Text) (acc : List Text) (t : Text)
    → holds acc s ≡ true
    → text_eq s t ≡ true
    → holds acc t ≡ true
held_is_held s acc t h e = subst (λ u. holds acc u ≡ true) (text_eq→eq s t e) h

preserve-holds :
    (s : Text) (acc : List Text) (t : Text) → holds (preserve s acc) t ≡ holds acc t || text_eq s t
unfolding holds
preserve-holds s acc t = let held = held_is_held s acc t in ground arith

preserve-IsDistinct : (s : Text) (acc : List Text) → IsDistinct acc → IsDistinct (preserve s acc)
preserve-IsDistinct s acc d = ground arith

or_false : (b : Bool) → b ≡ b || false
or_false b = ground arith

or_assoc : (a b c : Bool) → (a || b) || c ≡ a || (b || c)
or_assoc a b c = ground arith

-- A file that makes the logs too many is of a further log.
overflow-is_new :
    (n : ℕ) (t : Text) (acc : List Text)
    → length acc ≤ n
    → n < length (preserve t acc)
    → (length acc ≡ n) × (holds acc t ≡ false)
overflow-is_new n t acc few many = ground arith

kept-ShareFrom :
    (n : ℕ) (f : LogInfo) (files : List LogInfo) (acc : List Text)
    (split : List LogInfo × List LogInfo)
    → ShareFrom n (preserve (log_name f.name) acc) files split.0 split.1
    → ShareFrom n acc (f ∷ files) (f ∷ split.0) split.1
unfolding ShareFrom holds
kept-ShareFrom n f files acc (kept, gone) (cut, names, d, held, few, full) = (
  ap (λ l. f ∷ l) cut,
  names,
  d,
  λ t.
      held t
      ∙ ap (λ b. b || holds (logs kept) t) (preserve-holds (log_name f.name) acc t)
      ∙ or_assoc (holds acc t) (text_eq (log_name f.name) t) (holds (logs kept) t),
  few,
  full,
)

newest_loop-ShareFrom :
    (n : ℕ) (files : List LogInfo) (acc : List Text)
    → length acc ≤ n
    → IsDistinct acc
    → ShareFrom n acc files (newest_loop n acc files).0 (newest_loop n acc files).1
unfolding newest_loop holds ShareFrom
newest_loop-ShareFrom n [] acc few d = (refl, acc, d, (λ t. or_false (holds acc t)), few, tt)
newest_loop-ShareFrom n (f ∷ files) acc few d =
    let acc' = preserve (log_name f.name) acc in
    let Shared =
      λ (split : List LogInfo × List LogInfo). ShareFrom n acc (f ∷ files) split.0 split.1 in
    elim (dec_lt n (length acc')) [
      | yes many ↦
          subst Shared
            (sym
              (put_gone _ f _ files (less_is_true n _ many) (newest_loop-over n files acc' many)))
            (
              refl,
              acc,
              d,
              (λ t. or_false (holds acc t)),
              few,
              overflow-is_new n (log_name f.name) acc few many,
            )
      | no fits ↦
          subst Shared
            (sym (put_kept _ f (newest_loop n acc' files) (other_is_false n _ (omega arith))))
            (kept-ShareFrom n f files acc (newest_loop n acc' files) (
              newest_loop-ShareFrom n files acc' (omega arith)
                (preserve-IsDistinct (log_name f.name) acc d)))
    ]

pub newest_loop-Share :
    (n : ℕ) (files : List LogInfo)
    → Share n files (newest_loop n [] files).0 (newest_loop n [] files).1
unfolding ShareFrom holds
newest_loop-Share n files = newest_loop-ShareFrom n files [] (omega arith) tt

-- The condition of the filter on the number of the files changes nothing: the loop alone gives it.
pub filter_backups-loop :
    (n : ℕ) (files : List LogInfo)
    → filter_backups (pos (suc n)) files ≡ newest_loop (suc n) [] files
unfolding filter_backups
filter_backups-loop n files = let under = newest_loop-under (suc n) files [] in ground arith
