-- ===== src/Cron/Running.antt =====
-- The marks of running jobs of cron/cron.go, and the tasks that a round of processJobs starts.
use gosutils.Prelude.{
  ℕ, ◌≡◌, refl, ap, true, false, List, [], ◌∷◌, ◌++◌, if◌then◌else◌, Option, none, some, set, sym,
  subst, Bool-cases, inl, inr, suc, zero,
}
use gosutils.Prelude.Text.{Text, All, text_eq}
use gosutils.Cron.Job.{
  Moment, When, Job, matches, changed, new_cron_job, update_from, update_task, task_name,
}
use gosutils.Cron.Round.{process_jobs, Reachable, init, created, deleted, updated, round, ended}
use gosutils.Cron.Update.{delete_task-same}

module _ {T : Type 0} (sorted : List (Job T) → List (Job T)) where
  abbrev Idle : Job T → Type 0
  Idle j = j.is_running ≡ false

  abbrev IdleAll : Option (List (Job T)) → Type 0
  IdleAll none = Unit
  IdleAll (some js) = All Idle js

  -- The jobs that match, whatever their marks, each with the mark.
  abbrev pub matching : Moment → List (Job T) → List (Job T)
  matching now [] = []
  matching now (j ∷ rest) =
      let others = matching now rest in
      if matches j.at now then record j { is_running = true } ∷ others else others

  process_jobs-Idle :
      (now : Moment) (js : List (Job T)) → All Idle js → process_jobs now js ≡ (js, matching now js)
  unfolding process_jobs
  process_jobs-Idle now [] h = refl
  process_jobs-Idle now (j ∷ rest) h =
      let same = process_jobs-Idle now rest h.1 in
      elim (Bool-cases (matches j.at now)) [
        | inl e ↦ rw (process_jobs, e, h.0, same) refl
        | inr e ↦ rw (process_jobs, e, same) refl
      ]

  All-append : (P : Job T → Type 0) (xs ys : List (Job T)) → All P xs → All P ys → All P (xs ++ ys)
  All-append P [] ys h k = k
  All-append P (x ∷ xs) ys h k = (h.0, All-append P xs ys h.1 k)

  set-All :
      (P : Job T → Type 0) (xs : List (Job T)) (i : ℕ) (x : Job T)
      → All P xs
      → P x
      → All P (set xs i x)
  set-All P [] i x h p = tt
  set-All P (y ∷ ys) zero x h p = (p, h.1)
  set-All P (y ∷ ys) (suc i) x h p = (h.0, set-All P ys i x h.1 p)

  update_from-Idle :
      (id : Text) (w : When) (js : List (Job T)) (index : ℕ) (rest : List (Job T))
      → All Idle js
      → All Idle rest
      → All Idle (update_from id w js index rest).0
  unfolding update_from
  update_from-Idle id w js index [] h k = h
  update_from-Idle id w js index (j ∷ rest) h k = elim (Bool-cases (text_eq j.name id)) [
    | inl e ↦ rw (update_from, e) (set-All Idle js index (record j { at = changed w j.at }) h k.0)
    | inr e ↦ rw (update_from, e) (update_from-Idle id w js (suc index) rest h k.1)
  ]

  module _ (sorts : (P : Job T → Type 0) (js : List (Job T)) → All P js → All P (sorted js)) where
    Reachable-Idle : {js vs : List (Job T)} → Reachable sorted js vs → All Idle js
    unfolding new_cron_job update_task
    Reachable-Idle init = tt
    Reachable-Idle (created {js = js} random w task names r e) =
        let j : Job T = record {
          at = w;
          task = task;
          name = task_name names random;
          is_running = false;
        } in
        subst IdleAll e
          (sorts Idle (js ++ j ∷ []) (All-append Idle js (j ∷ []) (Reachable-Idle r) (refl, tt)))
    Reachable-Idle (deleted {js = js} id r) =
        subst (All Idle) (sym (delete_task-same id js)) (Reachable-Idle r)
    Reachable-Idle (updated {js = js} id w r) =
        update_from-Idle id w js 0 js (Reachable-Idle r) (Reachable-Idle r)
    Reachable-Idle (round {js = js} now r) =
        let idle = Reachable-Idle r in
        subst (All Idle) (sym (ap (λ s. s.0) (process_jobs-Idle now js idle))) idle
    Reachable-Idle (ended i r) = Reachable-Idle r

    -- Whatever was called before, and whichever tasks still run, a round leaves the list as it is, and
    -- starts a goroutine for every job that matches, in the order of the list, also for a job whose
    -- last task has not ended. It is assumed of sort.Sort that it brings in no job.
    pub started-matching :
        (now : Moment) (js vs : List (Job T))
        → Reachable sorted js vs
        → process_jobs now js ≡ (js, matching now js)
    started-matching now js vs r = process_jobs-Idle now js (Reachable-Idle r)
