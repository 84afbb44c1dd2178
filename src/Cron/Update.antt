-- ===== src/Cron/Update.antt =====
-- What DeleteTask and UpdateTask of cron/cron.go do to the list of jobs.
use gosutils.Prelude.{
  ℕ, suc, ◌+◌, ◌≡◌, refl, arith, ap, ◌∙◌, true, false, List, [], ◌∷◌, ◌++◌, length, set,
  take-append-drop, inl, inr, Bool-cases,
}
use gosutils.Prelude.Text.{Text, text_eq, All}
use gosutils.Cron.Job.{
  When, Job, given, pick, changed, delete_from, delete_task, update_from, update_task,
}

-- UpdateTask as its comment has it: each attribute is updated if it is not -2.
abbrev pub intended : When → When → When
intended new old = record {
  month = pick (given new.month) new.month old.month;
  day = pick (given new.day) new.day old.day;
  weekday = pick (given new.weekday) new.weekday old.weekday;
  hour = pick (given new.hour) new.hour old.hour;
  minute = pick (given new.minute) new.minute old.minute;
  second = pick (given new.second) new.second old.second;
}

changed-intended :
    (w : When) (old : When) → given w.month ≡ given w.day → changed w old ≡ intended w old
unfolding changed
changed-intended w old e = rw e refl

changed-day_kept :
    (w : When) (old : When)
    → given w.month ≡ false
    → changed w old ≡ record (changed w old) { day = old.day }
unfolding changed
changed-day_kept w old e = rw e refl

module _ {T : Type 0} where
  delete_from-same :
      (id : Text) (js : List (Job T)) (index : ℕ) (rest : List (Job T))
      → (delete_from id js index rest).0 ≡ js
  unfolding delete_from
  delete_from-same id js index [] = refl
  delete_from-same id js index (j ∷ rest) = elim (Bool-cases (text_eq j.name id)) [
    | inl e ↦ rw (delete_from, e) (take-append-drop index js)
    | inr e ↦ rw (delete_from, e) (delete_from-same id js (suc index) rest)
  ]

  -- DeleteTask leaves every list of jobs as it was, whatever the name.
  pub delete_task-same : (id : Text) (js : List (Job T)) → (delete_task id js).0 ≡ js
  unfolding delete_task
  delete_task-same id js = delete_from-same id js 0 js

  set-append :
      (xs ys : List (Job T)) (y z : Job T) → set (xs ++ y ∷ ys) (length xs) z ≡ xs ++ z ∷ ys
  set-append [] ys y z = refl
  set-append (x ∷ xs) ys y z = ap (λ l. x ∷ l) (set-append xs ys y z)

  -- No job of the list has the name.
  abbrev pub Unnamed : Text → List (Job T) → Type 0
  Unnamed id js = All (λ j. text_eq j.name id ≡ false) js

  update_from-found :
      (id : Text) (w : When) (js : List (Job T)) (index : ℕ) (before after : List (Job T))
      (j : Job T)
      → Unnamed id before
      → text_eq j.name id ≡ true
      → update_from id w js index (before ++ j ∷ after)
        ≡ (set js (length before + index) (record j { at = changed w j.at }), true)
  unfolding update_from
  update_from-found id w js index [] after j none_before e =
      rw (update_from, e)
        (ap (λ k. (set js k (record j { at = changed w j.at }), true)) (omega arith))
  update_from-found id w js index (b ∷ before) after j none_before e =
      rw (update_from, none_before.0)
        (update_from-found id w js (suc index) before after j none_before.1 e
          ∙ ap (λ k. (set js k (record j { at = changed w j.at }), true)) (omega arith))

  update_task-found :
      (id : Text) (w : When) (before after : List (Job T)) (j : Job T)
      → Unnamed id before
      → text_eq j.name id ≡ true
      → update_task id w (before ++ j ∷ after)
        ≡ (before ++ record j { at = changed w j.at } ∷ after, true)
  unfolding update_task
  update_task-found id w before after j none_before e =
      let js = before ++ j ∷ after in
      let new : Job T = record j { at = changed w j.at } in
      update_from-found id w js 0 before after j none_before e
      ∙ ap (λ k. (set js k new, true)) (omega arith)
      ∙ ap (λ l. (l, true)) (set-append before after j new)

  -- If month and day are both -2, or neither is, UpdateTask gives the first job of the name what its
  -- comment says, keeps every other job, and reports that it did.
  pub update_task-intended :
      (id : Text) (w : When) (before after : List (Job T)) (j : Job T)
      → given w.month ≡ given w.day
      → Unnamed id before
      → text_eq j.name id ≡ true
      → update_task id w (before ++ j ∷ after)
        ≡ (before ++ record j { at = intended w j.at } ∷ after, true)
  update_task-intended id w before after j both none_before e =
      update_task-found id w before after j none_before e
      ∙ ap (λ at. (before ++ record j { at = at } ∷ after, true)) (changed-intended w j.at both)

  -- If month is -2, UpdateTask leaves the day of the job as it was, whatever day is given.
  pub update_task-day_kept :
      (id : Text) (w : When) (before after : List (Job T)) (j : Job T)
      → given w.month ≡ false
      → Unnamed id before
      → text_eq j.name id ≡ true
      → update_task id w (before ++ j ∷ after)
        ≡ (before ++ record j { at = record (changed w j.at) { day = j.at.day } } ∷ after, true)
  update_task-day_kept id w before after j m none_before e =
      update_task-found id w before after j none_before e
      ∙ ap (λ at. (before ++ record j { at = at } ∷ after, true)) (changed-day_kept w j.at m)
