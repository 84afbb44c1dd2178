-- ===== src/Sutils/Inserted.antt =====
-- What FileInsertStringAtLine writes (sutils/sutils.go).
use gosutils.Prelude.{
  ℕ, zero, suc, ◌+◌, ◌-◌, ◌<◌, ◌≡◌, refl, sym, ap, ◌∙◌, arith, Bool, true, false, List, [], ◌∷◌,
  ◌++◌, if◌then◌else◌, some, replicate, append-nil, append_assoc,
}
use gosutils.Prelude.Int.{ℤ, pos, negsuc}
use gosutils.Prelude.Text.{Text}
use gosutils.Sutils.Lines.{
  scan, is_index, Insertion, insert_loop, missing_lines, insert_end, insert_string_at_line,
}

-- A text of lines that all have their end.
unfoldable pub unlines : List Text → Text
unlines [] = []
unlines (l ∷ ls) = l ++ b'\n' ∷ unlines ls

-- The lines with one more at the place `k`, behind empty ones where the lines are too few.
unfoldable pub with_line : ℕ → Text → List Text → List Text
with_line zero str ls = str ∷ ls
with_line (suc k) str [] = [] ∷ with_line k str []
with_line (suc k) str (l ∷ ls) = l ∷ with_line k str ls

-- Where the string stands: an index of 0 or below is the end.
abbrev pub with_index : ℤ → Text → List Text → List Text
with_index (pos (suc k)) str ls = with_line k str ls
with_index _ str ls = ls ++ str ∷ []

unlines-append : (xs ys : List Text) → unlines (xs ++ ys) ≡ unlines xs ++ unlines ys
unfolding unlines
unlines-append [] ys = refl
unlines-append (x ∷ xs) ys = simp (unlines-append xs ys, append_assoc)

abbrev at_line : Text → ℕ → Bool → Insertion
at_line lines n inserted = record { lines = lines; linenum = n; inserted = inserted }

abbrev past : Text → Text → Text
past a t = a ++ t ++ b'\n' ∷ []

module _ (str : Text) (index : ℤ) (t : Text) (ts : List Text) (a : Text) (n : ℕ) (b : Bool) where
  insert_loop-miss :
      is_index index (n + 1) ≡ false
      → insert_loop str index (t ∷ ts) (at_line a n b)
        ≡ insert_loop str index ts (at_line (past a t) (n + 1) b)
  unfolding insert_loop
  insert_loop-miss h = ground (arith, h)

  insert_loop-hit :
      is_index index (n + 1) ≡ true
      → insert_loop str index (t ∷ ts) (at_line a n b)
        ≡ insert_loop str index ts (at_line (past (a ++ str) t) (n + 1) true)
  unfolding insert_loop
  insert_loop-hit h = ground (arith, h)

-- The loop behind the place.
insert_loop-past :
    (str : Text) (index : ℤ) (texts : List Text) (a : Text) (n : ℕ) (b : Bool)
    → ((m : ℕ) → n < m → is_index index m ≡ false)
    → ((insert_loop str index texts (at_line a n b)).lines ≡ a ++ unlines texts)
      × ((insert_loop str index texts (at_line a n b)).inserted ≡ b)
unfolding unlines
insert_loop-past str index [] a n b h = unfold insert_loop in (sym (append-nil a), refl)
insert_loop-past str index (t ∷ ts) a n b h =
    let step = insert_loop-miss str index t ts a n b (h (n + 1) (omega arith)) in
    let rest = insert_loop-past str index ts (past a t) (n + 1) b (λ m p. h m (omega arith)) in
    rw step (rest.0 ∙ simp append_assoc, rest.1)

with_line-short :
    (j : ℕ) (str : Text) → unlines (with_line j str []) ≡ replicate j b'\n' ++ (str ++ b'\n' ∷ [])
unfolding unlines with_line
with_line-short zero str = refl
with_line-short (suc j) str = ap (λ t. b'\n' ∷ t) (with_line-short j str)

insert_end-inserted :
    (line : Text) (index : ℤ) (v : Insertion) (b : Bool)
    → v.inserted ≡ b
    → insert_end line index v
      ≡ (if b then v.lines else v.lines ++ replicate (missing_lines index v.linenum) b'\n' ++ line)
insert_end-inserted line index v b h = rw h refl

insert_loop-reaches :
    (str : Text) (k j n : ℕ) (texts : List Text) (a : Text)
    → k ≡ suc (n + j)
    → insert_end
        (str ++ b'\n' ∷ [])
        (pos k)
        (insert_loop (str ++ b'\n' ∷ []) (pos k) texts (at_line a n false))
      ≡ a ++ unlines (with_line j str texts)
insert_loop-reaches str k j n [] a e =
    let less : k - 1 - n ≡ j = omega arith in
    unfold insert_loop in
    rw less (
      append_assoc a (replicate j b'\n') (str ++ b'\n' ∷ [])
      ∙ ap (λ t. a ++ t) (sym (with_line-short j str)))
insert_loop-reaches str k zero n (t ∷ ts) a e =
    let line = str ++ b'\n' ∷ [] in
    let hit = insert_loop-hit line (pos k) t ts a n false (ground arith) in
    let rest =
      insert_loop-past line (pos k) ts (past (a ++ line) t) (n + 1) true (λ m p. ground arith) in
    rw hit (
      insert_end-inserted line (pos k) _ true rest.1
      ∙ rest.0
      ∙ (unfold unlines with_line in simp append_assoc))
insert_loop-reaches str k (suc j) n (t ∷ ts) a e =
    let line = str ++ b'\n' ∷ [] in
    let miss = insert_loop-miss line (pos k) t ts a n false (ground arith) in
    rw miss (
      insert_loop-reaches str k j (n + 1) ts (past a t) (omega arith)
      ∙ (unfold unlines with_line in simp append_assoc))

-- The loop for an index that no line has.
insert_loop-end :
    (str : Text) (index : ℤ) (texts : List Text)
    → ((m : ℕ) → 0 < m → is_index index m ≡ false)
    → ((n : ℕ) → missing_lines index n ≡ 0)
    → insert_end
        (str ++ b'\n' ∷ [])
        index
        (insert_loop (str ++ b'\n' ∷ []) index texts (at_line [] 0 false))
      ≡ unlines (texts ++ str ∷ [])
insert_loop-end str index texts h none_missing =
    let line = str ++ b'\n' ∷ [] in
    let rest = insert_loop-past line index texts [] 0 false h in
    let v = insert_loop line index texts (at_line [] 0 false) in
    insert_end-inserted line index v false rest.1
    ∙ rw (none_missing v.linenum, rest.0, append-nil (unlines texts))
        (sym (unlines-append texts (str ∷ []) ∙ (unfold unlines in refl)))

insert_loop-index :
    (str : Text) (index : ℤ) (texts : List Text)
    → insert_end
        (str ++ b'\n' ∷ [])
        index
        (insert_loop (str ++ b'\n' ∷ []) index texts (at_line [] 0 false))
      ≡ unlines (with_index index str texts)
insert_loop-index str (pos (suc k)) texts =
    insert_loop-reaches str (suc k) k 0 texts [] (omega arith)
insert_loop-index str (pos zero) texts =
    insert_loop-end str (pos zero) texts (λ m p. ground arith) (λ n. omega arith)
insert_loop-index str (negsuc k) texts =
    insert_loop-end str (negsuc k) texts (λ m p. refl) (λ n. refl)

-- FileInsertStringAtLine writes the lines of the file with the string as one more line: as line
-- `index`, behind empty lines if the file has fewer, or as the last one for an index of 0 or below,
-- where no line of the file is too long for the scanner.
pub insert_string_at_line-lines :
    (str content : Text) (index : ℤ)
    → (scan content).too_long ≡ false
    → insert_string_at_line str index content
      ≡ some (unlines (with_index index str (scan content).lines))
unfolding insert_string_at_line
insert_string_at_line-lines str content index h =
    rw h (ap some (insert_loop-index str index (scan content).lines))
