-- ===== src/Cron/Tests.antt =====
-- Runs of cron/cron.go at concrete jobs, and its theorems at concrete jobs.
use gosutils.Prelude.{ℕ, ◌≡◌, refl, true, false, List, [], ◌∷◌, some}
use gosutils.Prelude.Int.{pos, negsuc}
use gosutils.Prelude.Text.{codes, text_eq}
use gosutils.Cron.Job.{any, Moment, When, Job, less, new_cron_job, delete_task, update_task}
use gosutils.Cron.Update.{intended, delete_task-same, update_task-intended}
use gosutils.Cron.Round.{process_jobs, task_ended, Reachable, init, created, updated, round, ended}
use gosutils.Cron.Running.{matching, started-matching}

-- Every day at 08:30:00, and on the first of each month at midnight.
abbrev morning : When
morning = record {
  month = any;
  day = any;
  weekday = any;
  hour = pos 8;
  minute = pos 30;
  second = pos 0;
}

abbrev monthly : When
monthly = record {
  month = any;
  day = pos 1;
  weekday = any;
  hour = pos 0;
  minute = pos 0;
  second = pos 0;
}

abbrev first : Job ℕ
first = record { at = morning; task = 1; name = codes "tea"; is_running = false }

abbrev second : Job ℕ
second = record { at = monthly; task = 2; name = codes "bill"; is_running = false }

abbrev half_past : Moment
half_past = record { month = 5; day = 1; weekday = 3; hour = 8; minute = 30; second = 0 }

-- Neither job is below the other alone.
less_both : (less morning monthly ≡ true) × (less monthly morning ≡ true)
unfolding less
less_both = (refl, refl)

round_run :
    process_jobs half_past (first ∷ second ∷ [])
    ≡ (first ∷ second ∷ [], record first { is_running = true } ∷ [])
unfolding process_jobs
round_run = refl

delete_task-same_example :
    (delete_task (codes "bill") (first ∷ second ∷ [])).0 ≡ first ∷ second ∷ []
delete_task-same_example = delete_task-same (codes "bill") (first ∷ second ∷ [])

-- Hour 9, the rest as it was.
abbrev nine : When
nine = record {
  month = negsuc 1;
  day = negsuc 1;
  weekday = negsuc 1;
  hour = pos 9;
  minute = negsuc 1;
  second = negsuc 1;
}

update_task-intended_example :
    update_task (codes "bill") nine (first ∷ second ∷ [])
    ≡ (first ∷ record second { at = intended nine monthly } ∷ [], true)
unfolding text_eq
update_task-intended_example =
    update_task-intended (codes "bill") nine (first ∷ []) [] second refl (refl, tt) refl

-- Day 15, the rest as it was.
abbrev mid_month : When
mid_month = record nine { day = pos 15; hour = negsuc 1 }

abbrev as_is : List (Job ℕ) → List (Job ℕ)
as_is js = js

abbrev tea : Job ℕ
tea = record first { name = codes "x" }

made_one : (new_cron_job as_is (codes "x") morning 1 [] (some [])).0 ≡ some (tea ∷ [])
unfolding new_cron_job
made_one = refl

abbrev later : List (Job ℕ)
later = (update_task (codes "y") nine (tea ∷ [])).0

-- Behind two rounds at the same moment, where the first task has ended and the second has not.
abbrev goroutines : List (Job ℕ)
goroutines = tea ∷ record tea { is_running = true } ∷ []

reached : Reachable as_is later goroutines
unfolding process_jobs task_ended update_task
reached =
    updated (codes "y") nine
      (ended 0 (round half_past (round half_past (created (codes "x") morning 1 [] init made_one))))

started-matching_example : process_jobs half_past later ≡ (later, matching as_is half_past later)
started-matching_example = started-matching as_is (λ P js h. h) half_past later goroutines reached
