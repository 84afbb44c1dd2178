-- ===== src/Sched/Schedule.antt =====
-- sched/sched.go: recurrent, daily, weekly and monthly, and when each runs next.
use gosutils.Prelude.{
  ℕ, ◌+◌, ◌-◌, Bool, true, not, ◌||◌, ◌==◌, if◌then◌else◌, Option, none, some, ltb,
}
use gosutils.Prelude.Int.{ℤ, pos, ◌*ℤ◌, ◌==ℤ◌}
use gosutils.Prelude.Wrap.{wrap_64}

-- A duration is its nanoseconds, in an int64.
pub record Recurrent : Type 0 where
  pub units : ℤ
  pub period : ℤ
  pub done : Bool

-- `daily`, which the others hold.
pub record Daily : Type 0 where
  pub hour : ℤ
  pub min : ℤ
  pub sec : ℤ

-- The day of a `weekly` is a time.Weekday, that of a `monthly` an int, here at
-- least 0.
pub data Schedule : Type 0 where
  recurrent : Recurrent → Schedule
  daily : Daily → Schedule
  weekly : ℕ → Daily → Schedule
  monthly : ℕ → Daily → Schedule

-- `recurrent.nextDurationWaitToRun`: the duration, or none with an error, and the new state.
unfoldable pub next_wait : Recurrent → Option ℤ × Recurrent
unfolding ◌*ℤ◌ wrap_64
next_wait r =
    if r.units ==ℤ pos 0 || r.period ==ℤ pos 0
    then (none, r)
    else if not r.done
    then (some (pos 0), record r { done = true })
    else (some (wrap_64 (r.units *ℤ r.period)), r)

-- What the schedules read off the clock: time.Now, its parts, and the lengths of this month and
-- the next (gotimeutils). An instant is a number.
pub record Now : Type 0 where
  pub year : ℕ
  pub month : ℕ
  pub day : ℕ
  pub weekday : ℕ
  pub instant : ℕ
  pub month_days : ℕ
  pub next_month_days : ℕ

-- time.Date in the local zone, on a day that may lie beyond the end of the month.
abbrev pub Date : Type 0
Date = ℕ → ℕ → ℕ → Daily → ℕ

module _ (date : Date) where
  abbrev pub today : Now → Daily → ℕ
  today n d = date n.year n.month n.day d

  -- `now.After(date)` on the date of today.
  abbrev pub is_past : Now → Daily → Bool
  is_past n d = ltb (today n d) n.instant

  unfoldable pub daily_next : Daily → Now → ℕ
  daily_next d n =
      if ltb n.instant (today n d) then today n d else date n.year n.month (n.day + 1) d

  -- `numDays` of a `weekly`. Both weekdays are below 7, so the sum with 7 is no natural number less.
  unfoldable pub weekly_days : ℕ → Daily → Now → ℕ
  weekly_days w d n =
      if w == n.weekday
      then (if is_past n d then 7 else 0)
      else if ltb w n.weekday
      then w + 7 - n.weekday
      else w - n.weekday

  unfoldable pub weekly_next : ℕ → Daily → Now → ℕ
  unfolding weekly_days
  weekly_next w d n = date n.year n.month (n.day + weekly_days w d n) d

  -- `numDays` of a `monthly` on the day `m` of the month, 0 for its end.
  unfoldable pub monthly_days : ℕ → Daily → Now → ℕ
  monthly_days m d n =
      if m == 0
      then (if n.day == n.month_days
          then (if is_past n d then n.next_month_days else 0)
          else n.month_days - n.day)
      else if m == n.day
      then (if is_past n d then n.month_days - n.day + m else 0)
      else if ltb m n.day
      then n.month_days - n.day + m
      else 0

  unfoldable pub monthly_next : ℕ → Daily → Now → ℕ
  unfolding monthly_days
  monthly_next m d n = date n.year n.month (n.day + monthly_days m d n) d
