-- ===== src/Bufcopy/Copied.antt =====
-- What BufCopy.Copy has copied when it ends.
use gosutils.Prelude.{
  ℕ, ◌+◌, ◌≤◌, ◌≡◌, refl, ◌∙◌, ap, sym, List, [], ◌∷◌, ◌++◌, Option, none, some, length,
  append_assoc, append-nil, length-append, arith, ◌==◌, take, drop, take-append-drop, length-take,
  drop_whole,
}
use gosutils.Prelude.Text.{Text}
use gosutils.Bufcopy.{
  ReadEnd, more, eof, broken, Reader, Copying, Write, put_read, copy_loop, copy, after_read,
  write_result, read_error,
}

-- The bytes of the Reads up to the end of the input or an error.
abbrev pub bytes : {E : Type 0} → Reader E → Text
bytes [] = []
bytes ((p, more) ∷ reads) = p ++ bytes reads
bytes ((p, eof) ∷ reads) = p
bytes ((p, broken e) ∷ reads) = p

-- A writer that keeps the bytes it takes: `limit` says how many of those that it is given.
abbrev pub keeping : {E : Type 0} → (Text → Text → ℕ × Option E) → Write E Text
keeping limit p w = ((limit p w).0, (limit p w).1, w ++ take (limit p w).0 p)

-- What of `src` has gone to the writer, and what has not.
abbrev pub Copied : {E : Type 0} → Text → ℕ → Text → Copying E Text → Type 0
Copied src written w (written', err, w') =
    (gone : Text) × (left : Text) × (gone ++ left ≡ src)
    × (w' ≡ w ++ gone)
    × (written' ≡ written + length gone)
    × (err ≡ none → left ≡ [])

-- A Write takes no more than it is given.
abbrev pub IsWriter : {E : Type 0} → (Text → Text → ℕ × Option E) → Type 0
IsWriter limit = (p w : Text) → (limit p w).0 ≤ length p

length_taken : {A : Type 0} (n : ℕ) (xs : List A) → n ≤ length xs → length (take n xs) ≡ n
length_taken n xs h = length-take n xs ∙ omega arith

module _ {E : Type 0} (limit : Text → Text → ℕ × Option E) (writer : IsWriter limit) where
  whole_write : (ew : Option E) (n k : ℕ) → write_result (keeping limit) ew (n == k) ≡ none → k ≤ n
  whole_write ew n k h = ground arith

  -- A Read whose bytes are written, or stopped at.
  put_read-Copied :
      (p : Text) (written : ℕ) (w : Text)
      → Copied p written w (put_read (keeping limit) p written w)
  unfolding put_read
  put_read-Copied [] written w = ([], [], refl, sym (append-nil w), omega arith, λ _. refl)
  put_read-Copied (x ∷ p) written w =
      let n = (limit (x ∷ p) w).0 in
      let taken = length_taken n (x ∷ p) (writer (x ∷ p) w) in
      (
        take n (x ∷ p),
        drop n (x ∷ p),
        take-append-drop n (x ∷ p),
        refl,
        omega (arith, taken),
        λ none_wrong. drop_whole n (x ∷ p) (whole_write _ _ _ none_wrong),
      )

  -- From what one Read gave to the writer to the whole copy.
  after_read-Copied :
      (p : Text) (er : ReadEnd E) (reads : Reader E) (written : ℕ) (w : Text) (c : Copying E Text)
      → Copied p written w c
      → ((written' : ℕ) (w' : Text)
          → Copied (bytes reads) written' w' (copy_loop (keeping limit) reads written' w'))
      → Copied
          (bytes ((p, er) ∷ reads))
          written
          w
          (after_read (keeping limit) c er (λ n v. copy_loop (keeping limit) reads n v))
  after_read-Copied p more reads written w (n, some e, v) (gone, left, eq, ev, en, all) rest = (
    gone,
    left ++ bytes reads,
    sym (append_assoc gone left (bytes reads)) ∙ ap (λ l. l ++ bytes reads) eq,
    ev,
    en,
    λ (h : some e ≡ none). cc,
  )
  after_read-Copied p eof reads written w (n, some e, v) (gone, left, eq, ev, en, all) rest =
      (gone, left, eq, ev, en, λ (h : some e ≡ none). cc)
  after_read-Copied p (broken x) reads written w (n, some e, v) (gone, left, eq, ev, en, all) rest =
      (gone, left, eq, ev, en, λ (h : some e ≡ none). cc)
  after_read-Copied p eof reads written w (n, none, v) (gone, left, eq, ev, en, all) rest =
      (gone, left, eq, ev, en, all)
  after_read-Copied p (broken x) reads written w (n, none, v) (gone, left, eq, ev, en, all) rest =
      (gone, left, eq, ev, en, λ (h : some (read_error x) ≡ none). cc)
  after_read-Copied p more reads written w (n, none, v) (gone, left, eq, ev, en, all) rest =
      let (gone', left', eq', ev', en', all') = rest n v in
      let whole : gone ≡ p = sym (append-nil gone) ∙ ap (λ l. gone ++ l) (sym (all refl)) ∙ eq in
      (
        gone ++ gone',
        left',
        append_assoc gone gone' left' ∙ rw (eq', whole) refl,
        ev' ∙ ap (λ l. l ++ gone') ev ∙ append_assoc w gone gone',
        omega (arith, length-append gone gone'),
        all',
      )

  copy_loop-Copied :
      (reads : Reader E) (written : ℕ) (w : Text)
      → Copied (bytes reads) written w (copy_loop (keeping limit) reads written w)
  unfolding copy_loop
  copy_loop-Copied [] written w = ([], [], refl, sym (append-nil w), omega arith, λ _. refl)
  copy_loop-Copied ((p, er) ∷ reads) written w =
      after_read-Copied p er reads written w _ (put_read-Copied p written w)
        (λ n v. copy_loop-Copied reads n v)

  -- Copy between a reader without WriteTo and a writer without ReadFrom, each Write of which takes no
  -- more than it is given: the writer has then got the first so many bytes of the reader as the
  -- number says, in their order and no others; where there is no error, it has got them all.
  pub copy-Copied :
      (reads : Reader E) (w : Text)
      → Copied (bytes reads) 0 w (copy (keeping limit) none none reads w)
  unfolding copy
  copy-Copied reads w = copy_loop-Copied reads 0 w
