-- ===== src/Cron/Round.antt =====
-- The rounds of processJobs of cron/cron.go and the goroutines that they start, beside the other calls.
use gosutils.Prelude.{
  ℕ, zero, suc, ◌≡◌, true, false, not, ◌&&◌, List, [], ◌∷◌, ◌++◌, if◌then◌else◌, some,
}
use gosutils.Prelude.Text.{Text}
use gosutils.Cron.Job.{Moment, When, Job, matches, new_cron_job, delete_task, update_task}

module _ {T : Type 0} where
  -- The loop of `processJobs` over the list, in one round: the list behind it, and the variables `j`
  -- whose goroutine was started. Each is a copy of the element.
  unfoldable pub process_jobs : Moment → List (Job T) → List (Job T) × List (Job T)
  unfolding matches
  process_jobs now [] = ([], [])
  process_jobs now (j_temp ∷ rest) =
      let (js, goroutines) = process_jobs now rest in
      let j = j_temp in
      if matches j.at now && not j.is_running
      then (j_temp ∷ js, record j { is_running = true } ∷ goroutines)
      else (j_temp ∷ js, goroutines)

  -- The end of a goroutine, that of the `i`-th variable.
  unfoldable pub task_ended : ℕ → List (Job T) → List (Job T)
  task_ended i [] = []
  task_ended zero (j ∷ js) = record j { is_running = false } ∷ js
  task_ended (suc i) (j ∷ js) = j ∷ task_ended i js

  -- What is reached behind InitCron by any calls, rounds and ends of tasks in any order: the list
  -- `jobs.J`, and the variables of all goroutines started so far. The task of one runs as long as its
  -- variable has the mark.
  pub data Reachable (sorted : List (Job T) → List (Job T))
      : List (Job T) → List (Job T) → Type 0 where
    init : Reachable sorted [] []
    created :
        {js js' vs : List (Job T)} (random : Text) (w : When) (task : T) (names : List Text)
        → Reachable sorted js vs
        → (new_cron_job sorted random w task names (some js)).0 ≡ some js'
        → Reachable sorted js' vs
    deleted :
        {js vs : List (Job T)} (id : Text)
        → Reachable sorted js vs
        → Reachable sorted (delete_task id js).0 vs
    updated :
        {js vs : List (Job T)} (id : Text) (w : When)
        → Reachable sorted js vs
        → Reachable sorted (update_task id w js).0 vs
    round :
        {js vs : List (Job T)} (now : Moment)
        → Reachable sorted js vs
        → Reachable sorted (process_jobs now js).0 (vs ++ (process_jobs now js).1)
    ended :
        {js vs : List (Job T)} (i : ℕ)
        → Reachable sorted js vs
        → Reachable sorted js (task_ended i vs)
