-- ===== src/Cron/Job.antt =====
-- cron/cron.go. The list of jobs is `jobs.J`; the lock is held by each operation from its start to
-- its end and is left out. The random name and the result of sort.Sort are arguments.
use gosutils.Prelude.{
  ℕ, suc, Bool, true, false, not, ◌&&◌, ◌||◌, List, [], ◌∷◌, ◌++◌, if◌then◌else◌, Option, none,
  some, take, drop, set,
}
use gosutils.Prelude.Int.{ℤ, pos, negsuc, ◌==ℤ◌, ltb_ℤ}
use gosutils.Prelude.Text.{Text, text_eq}

abbrev pub any : ℤ
any = negsuc 0

-- The parts of a time.Time. Each fits in an int8.
pub record Moment : Type 0 where
  pub month : ℕ
  pub day : ℕ
  pub weekday : ℕ
  pub hour : ℕ
  pub minute : ℕ
  pub second : ℕ

-- The six fields of a `job` that say when, as an UpdateTask gives them too.
pub record When : Type 0 where
  pub month : ℤ
  pub day : ℤ
  pub weekday : ℤ
  pub hour : ℤ
  pub minute : ℤ
  pub second : ℤ

pub record Job (T : Type 0) : Type 0 where
  pub at : When
  pub task : T
  pub name : Text
  pub is_running : Bool

abbrev pub fits : ℤ → ℕ → Bool
fits field n = field ==ℤ any || field ==ℤ pos n

-- `Matches`.
unfoldable pub matches : When → Moment → Bool
matches w t =
    fits w.month t.month
    && (fits w.day t.day
        && (fits w.weekday t.weekday
            && (fits w.hour t.hour && (fits w.minute t.minute && fits w.second t.second))))

-- `Less`.
unfoldable pub less : When → When → Bool
less a b =
    ltb_ℤ a.month b.month
    || (ltb_ℤ a.day b.day
        || (ltb_ℤ a.weekday b.weekday
            || (ltb_ℤ a.hour b.hour || (ltb_ℤ a.minute b.minute || ltb_ℤ a.second b.second))))

-- An attribute of UpdateTask that is -2 leaves the old one.
abbrev pub given : ℤ → Bool
given x = not (x ==ℤ negsuc 1)

abbrev pub pick : Bool → ℤ → ℤ → ℤ
pick b new old = if b then new else old

-- The assignments of UpdateTask.
unfoldable pub changed : When → When → When
changed new old = record {
  month = pick (given new.month) new.month old.month;
  day = pick (given new.month) new.day old.day;
  weekday = pick (given new.weekday) new.weekday old.weekday;
  hour = pick (given new.hour) new.hour old.hour;
  minute = pick (given new.minute) new.minute old.minute;
  second = pick (given new.second) new.second old.second;
}

-- slices.Delete.
abbrev pub slices_delete {ℓ} : {A : Type ℓ} → List A → ℕ → ℕ → List A
slices_delete s i j = take i s ++ drop j s

abbrev pub task_name : List Text → Text → Text
task_name [] random = random
task_name (n ∷ ns) random = n ++ b'-' ∷ random

module _ {T : Type 0} where
  -- `NewCronJob`: `sorted` is sort.Sort on the jobs. There are none before InitCron.
  unfoldable pub new_cron_job :
      (List (Job T) → List (Job T))
      → Text
      → When
      → T
      → List Text
      → Option (List (Job T))
      → Option (List (Job T)) × Text
  new_cron_job sorted random w task names none = (none, [])
  new_cron_job sorted random w task names (some js) =
      let name = task_name names random in
      let j : Job T = record { at = w; task = task; name = name; is_running = false } in
      (some (sorted (js ++ j ∷ [])), name)

  -- `NewMonthlyJob`, `NewWeeklyJob` and `NewDailyJob`.
  unfoldable pub new_monthly_job :
      (List (Job T) → List (Job T))
      → Text
      → ℤ
      → ℤ
      → ℤ
      → ℤ
      → T
      → List Text
      → Option (List (Job T))
      → Option (List (Job T)) × Text
  unfolding new_cron_job
  new_monthly_job sorted random day hour minute second = new_cron_job sorted random (record {
    month = any;
    day = day;
    weekday = any;
    hour = hour;
    minute = minute;
    second = second;
  })

  unfoldable pub new_weekly_job :
      (List (Job T) → List (Job T))
      → Text
      → ℤ
      → ℤ
      → ℤ
      → ℤ
      → T
      → List Text
      → Option (List (Job T))
      → Option (List (Job T)) × Text
  unfolding new_cron_job
  new_weekly_job sorted random weekday hour minute second = new_cron_job sorted random (record {
    month = any;
    day = any;
    weekday = weekday;
    hour = hour;
    minute = minute;
    second = second;
  })

  unfoldable pub new_daily_job :
      (List (Job T) → List (Job T))
      → Text
      → ℤ
      → ℤ
      → ℤ
      → T
      → List Text
      → Option (List (Job T))
      → Option (List (Job T)) × Text
  unfolding new_cron_job
  new_daily_job sorted random hour minute second = new_cron_job sorted random (record {
    month = any;
    day = any;
    weekday = any;
    hour = hour;
    minute = minute;
    second = second;
  })

  -- The loop of `DeleteTask` from `index` on.
  unfoldable pub delete_from : Text → List (Job T) → ℕ → List (Job T) → List (Job T) × Bool
  delete_from id js index [] = (js, false)
  delete_from id js index (j ∷ rest) =
      let other = delete_from id js (suc index) rest in
      if text_eq j.name id then (slices_delete js index index, true) else other

  unfoldable pub delete_task : Text → List (Job T) → List (Job T) × Bool
  unfolding delete_from
  delete_task id js = delete_from id js 0 js

  -- The loop of `UpdateTask` from `index` on.
  unfoldable pub update_from : Text → When → List (Job T) → ℕ → List (Job T) → List (Job T) × Bool
  unfolding changed
  update_from id w js index [] = (js, false)
  update_from id w js index (j ∷ rest) =
      let other = update_from id w js (suc index) rest in
      if text_eq j.name id then (set js index (record j { at = changed w j.at }), true) else other

  unfoldable pub update_task : Text → When → List (Job T) → List (Job T) × Bool
  unfolding update_from
  update_task id w js = update_from id w js 0 js
