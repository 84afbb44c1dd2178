-- ===== src/Sutils/Updated.antt =====
-- What FileUpdateOrAdd leaves on the disk (sutils/sutils.go).
use gosutils.Prelude.{
  ◌≡◌, ◌≢◌, ◌⊎◌, inl, inr, sym, ap, ◌∙◌, arith, Bool, true, false, List, Option, none, some,
  Bool-cases, Option-cases,
}
use gosutils.Prelude.Int.{ℤ}
use gosutils.Prelude.Text.{Text, text_eq, text_eq_refl}
use gosutils.Sutils.Lines.{scan, insert_string_at_line}
use gosutils.Sutils.Inserted.{unlines, with_index, insert_string_at_line-lines}
use gosutils.Sutils.Files.{
  Host, Disk, FileError, read_file, write_file, file_is_match_lines, file_replace_regex,
  file_insert_string_at_line, file_update_or_add, path_is_file, line_number,
}

module _ (h : Host) where
  write_file-ok :
      (path contents : Text) (disk : Disk)
      → (write_file h path contents disk).1 ≡ none
      → (write_file h path contents disk).0 path ≡ some contents
  unfolding write_file
  write_file-ok path contents disk e = ground (arith, text_eq_refl path)

  write_file-other :
      (path contents q : Text) (disk : Disk)
      → text_eq path q ≡ false
      → (write_file h path contents disk).0 q ≡ disk q
  unfolding write_file
  write_file-other path contents q disk e = ground arith

  replace-other :
      (pat tostring path q : Text) (literal : Bool) (disk : Disk)
      → text_eq path q ≡ false
      → (file_replace_regex h pat tostring path literal disk).0 q ≡ disk q
  unfolding file_replace_regex
  replace-other pat tostring path q literal disk e = ground arith

  insert-other :
      (path str q : Text) (index : ℤ) (disk : Disk)
      → text_eq path q ≡ false
      → (file_insert_string_at_line h path str index disk).0 q ≡ disk q
  unfolding file_insert_string_at_line
  insert-other path str q index disk e = ground arith

  -- The string stands in the file as the line that was asked for.
  pub HasLine : Text → Text → ℤ → Disk → Disk → Type 0
  HasLine path str index before after =
      (c : Text) × (before path ≡ some c)
      × (after path ≡ some (unlines (with_index index str (scan c).lines)))

  -- What an update leaves: the disk before, the disk behind the replacement, or the latter with the
  -- new line, by which of the first two match.
  pub IsUpdated : Text → Text → ℤ → (Disk → Bool) → Disk → Disk → Disk → Type 0
  IsUpdated path str index matches before replaced after =
      ((matches before ≡ true) × (after ≡ before))
      ⊎ (((matches before ≡ false) × (matches replaced ≡ true) × (after ≡ replaced))
          ⊎ ((matches before ≡ false)
              × (matches replaced ≡ false)
              × HasLine path str index replaced after))

  read_file-disk :
      (path c : Text) (disk : Disk) → read_file h path disk ≡ some c → disk path ≡ some c
  unfolding read_file
  read_file-disk path c disk r = ground arith

  module _ (path str : Text) (index : ℤ) (disk : Disk) where
    insert-unread :
        read_file h path disk ≡ none → (file_insert_string_at_line h path str index disk).1 ≢ none
    unfolding file_insert_string_at_line
    insert-unread r = ground arith

    insert-too_long :
        (c : Text)
        → read_file h path disk ≡ some c
        → (scan c).too_long ≡ true
        → (file_insert_string_at_line h path str index disk).1 ≢ none
    unfolding file_insert_string_at_line insert_string_at_line
    insert-too_long c r l = ground arith

    insert-written :
        (c : Text)
        → read_file h path disk ≡ some c
        → (scan c).too_long ≡ false
        → file_insert_string_at_line h path str index disk
          ≡ write_file h path (unlines (with_index index str (scan c).lines)) disk
    unfolding file_insert_string_at_line
    insert-written c r l = ground (arith, insert_string_at_line-lines str c index l)

    insert-HasLine :
        (file_insert_string_at_line h path str index disk).1 ≡ none
        → HasLine path str index disk (file_insert_string_at_line h path str index disk).0
    unfolding HasLine
    insert-HasLine e = elim (Option-cases (read_file h path disk)) [
      | inl r ↦ absurd (insert-unread r e)
      | inr (c, r) ↦ elim (Bool-cases (scan c).too_long) [
        | inl l ↦ absurd (insert-too_long c r l e)
        | inr l ↦
            let w = insert-written c r l in
            (
              c,
              read_file-disk path c disk r,
              ap (λ o. o.0 path) w
                  ∙ write_file-ok path (unlines (with_index index str (scan c).lines)) disk
                      (sym (ap (λ o. o.1) w) ∙ e),
            )
      ]
    ]

  module _ (path tocontents grepstring pattern q : Text) (literal : Bool) (lines : List ℤ)
      (disk : Disk) (there : path_is_file h path disk ≡ true) where
    abbrev replaced : Disk
    replaced = (file_replace_regex h pattern tocontents path false disk).0

    abbrev updated : Disk × Option FileError
    updated = file_update_or_add h path tocontents grepstring pattern literal lines disk

    abbrev matching : Disk → Bool
    matching d = file_is_match_lines h path grepstring literal d

    update-matching : matching disk ≡ true → updated ≡ (disk, none)
    unfolding file_update_or_add
    update-matching m = ground arith

    update-replaced : matching disk ≡ false → matching replaced ≡ true → updated ≡ (replaced, none)
    unfolding file_update_or_add
    update-replaced m m' = ground arith

    update-inserted :
        matching disk ≡ false
        → matching replaced ≡ false
        → updated ≡ file_insert_string_at_line h path tocontents (line_number h lines) replaced
    unfolding file_update_or_add
    update-inserted m m' = ground arith

    -- FileUpdateOrAdd on a file that exists, where it gives no error: no other file is changed. If the
    -- file matches, nothing is. If it does not, the replacement is made, and if the file then matches,
    -- that is all; if it still does not, the contents are the line that was asked for in what the
    -- replacement left, line 1 if none was.
    pub file_update_or_add-ok :
        updated.1 ≡ none
        → text_eq path q ≡ false
        → (updated.0 q ≡ disk q)
          × IsUpdated path tocontents (line_number h lines) matching disk replaced updated.0
    unfolding IsUpdated
    file_update_or_add-ok e ne =
        let same = replace-other pattern tocontents path q false disk ne in
        elim (Bool-cases (matching disk)) [
          | inl m ↦ let w = update-matching m in (ap (λ o. o.0 q) w, inl (m, ap (λ o. o.0) w))
          | inr m ↦ elim (Bool-cases (matching replaced)) [
            | inl m' ↦
                let w = update-replaced m m' in
                (ap (λ o. o.0 q) w ∙ same, inr (inl (m, m', ap (λ o. o.0) w)))
            | inr m' ↦
                let w = update-inserted m m' in
                rw w (
                  insert-other path tocontents q (line_number h lines) replaced ne ∙ same,
                  inr (
                      inr (
                        m,
                        m',
                        insert-HasLine path tocontents (line_number h lines) replaced
                            (sym (ap (λ o. o.1) w) ∙ e),
                      )),
                )
          ]
        ]
