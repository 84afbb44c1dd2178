-- ===== src/Sched/Tests.antt =====
-- Runs of sched/sched.go at concrete jobs, and its theorems at concrete jobs.
use gosutils.Prelude.{
  ℕ, ◌+◌, ◌-◌, ◌*◌, ◌%◌, ◌^◌, ◌++◌, ◌≡◌, ◌≤◌, ◌<◌, ◌⊎◌, ◌↔◌, refl, arith, true, false, [], ◌∷◌,
  Option, none, some,
}
use gosutils.Prelude.Int.{ℤ, pos, negsuc}
use gosutils.Prelude.Text.{Text, codes}
use gosutils.Sched.Schedule.{
  Recurrent, Daily, Now, Date, today, is_past, weekly_days, monthly_days, monthly_next,
}
use gosutils.Sched.Job.{Job, bad_chaining, every, parse_time, split_colon, time_of_day}
use gosutils.Sched.Days.{weekly_days-lands, monthly_days-lands, monthly_next-today}
use gosutils.Sched.Time.{IsBounded, parse_time-joined}
use gosutils.Sched.Chain.{call_time_of_day, chain}
use gosutils.Sched.Runs.{idle, Reach, here, next, ask, set}
use gosutils.Sched.Overlap.{is_running-runs}
use gosutils.Sched.Waits.{
  quit, skip_wait, elapsed, wait, run_job, stop, run_goroutine, later_waits, runs_between,
  run_goroutine-periodic,
}

-- Seconds since the start of a month of 31 days.
abbrev in_month : Date
in_month y m d t = ((d * 24 + part t.hour) * 60 + part t.min) * 60 + part t.sec
  where
    part : ℤ → ℕ
    part (pos n) = n
    part (negsuc n) = 0

-- Wednesday the 5th, 12:00:00.
abbrev noon : Now
noon = record {
  year = 2024;
  month = 6;
  day = 5;
  weekday = 3;
  instant = (5 * 24 + 12) * 3600;
  month_days = 30;
  next_month_days = 31;
}

-- One digit, or two.
abbrev small : Text → Option ℤ
small (a ∷ []) = some (pos (a - b'0'))
small (a ∷ b ∷ []) = some (pos ((a - b'0') * 10 + (b - b'0')))
small _ = none

abbrev half_past : Daily
half_past = record { hour = pos 8; min = pos 30; sec = pos 5 }

weekly_days-lands_example :
    ((3 + weekly_days in_month 1 half_past noon) % 7 ≡ 1)
    × (weekly_days in_month 1 half_past noon ≤ 7)
    × (weekly_days in_month 1 half_past noon ≡ 0
        → (1 ≡ noon.weekday) × (is_past in_month noon half_past ≡ false))
weekly_days-lands_example = weekly_days-lands in_month 1 half_past noon (omega arith) (omega arith)

monthly_days-lands_example :
    ((5 + monthly_days in_month 5 half_past noon ≡ 5) × (is_past in_month noon half_past ≡ false))
    ⊎ ((5 + monthly_days in_month 5 half_past noon ≡ 35)
        × ((5 < noon.day) ⊎ (is_past in_month noon half_past ≡ true)))
monthly_days-lands_example =
    monthly_days-lands in_month 5 half_past noon (omega arith) (omega arith) (omega arith)

-- The job of the 20th is set for the 5th.
next_too_early : monthly_next in_month 20 half_past noon ≡ today in_month noon half_past
next_too_early = monthly_next-today in_month 20 half_past noon (omega arith)

parse_run : parse_time small (codes "8:30:5") ≡ some half_past
unfolding parse_time split_colon
parse_run = refl

parse_time-joined_example :
    parse_time small (codes "8:30:5") ≡ some half_past
    ↔ (small (codes "8") ≡ some half_past.hour)
      × (small (codes "30") ≡ some half_past.min)
      × (small (codes "5") ≡ some half_past.sec)
      × IsBounded half_past
parse_time-joined_example =
    parse_time-joined small (codes "8") (codes "30") (codes "5") half_past (refl, tt)
      (refl, (refl, tt)) (refl, tt)

abbrev bad : Job
bad = record (every []) { err = some bad_chaining }

-- A daily job that is asked for a period.
panic_run : chain small (call_time_of_day (pos 1) ∷ []) (every []) ≡ none
unfolding chain time_of_day
panic_run = refl

abbrev each_five : Recurrent
each_five = record { units = pos 5; period = pos 100; done = false }

-- The second wait is skipped.
run_goroutine-periodic_example :
    (run_goroutine (elapsed ∷ skip_wait ∷ elapsed ∷ []) each_five
      ≡ runs_between (pos 0) (later_waits 3 each_five))
    × (run_goroutine (elapsed ∷ skip_wait ∷ elapsed ∷ quit ∷ elapsed ∷ []) each_five
        ≡ run_goroutine (elapsed ∷ skip_wait ∷ elapsed ∷ []) each_five ++ stop ∷ [])
run_goroutine-periodic_example =
    run_goroutine-periodic (elapsed ∷ skip_wait ∷ elapsed ∷ []) (elapsed ∷ []) each_five
      (refl, refl) (refl, (refl, (refl, tt)))

-- 2^62 nanoseconds, four times.
wrapped_run :
    run_goroutine (elapsed ∷ []) (record { units = pos 4; period = pos (2 ^ 62); done = true })
    ≡ wait (pos 0) ∷ run_job ∷ wait (pos 0) ∷ []
unfolding run_goroutine
wrapped_run = refl

is_running-runs_example : (0 < 1) × Reach idle (record idle { inside = 2 })
is_running-runs_example =
    is_running-runs 2 (record idle { is_running = true; inside = 1 })
      (next (next here (ask idle refl)) (set (record idle { entering = 1 }) (omega arith))) refl
