-- ===== src/Sched/Runs.antt =====
-- sched/sched.go: runJob, setRunning, IsRunning and SkipIfWait, as steps that the goroutines of one
-- job take in any order. A lock is held for each access to `isRunning` alone.
use gosutils.Prelude.{ℕ, ◌+◌, ◌-◌, ◌<◌, ◌≡◌, Bool, true, false}

-- `isRunning`, the goroutines that found it false and have yet to set it, those in the job's function,
-- and those that have returned from it and have yet to clear `isRunning`.
pub record Runs : Type 0 where
  pub is_running : Bool
  pub entering : ℕ
  pub inside : ℕ
  pub leaving : ℕ

abbrev pub idle : Runs
idle = record { is_running = false; entering = 0; inside = 0; leaving = 0 }

-- The loop of Run starts a goroutine whenever a wait ends or is skipped; one that finds the job
-- running returns and changes nothing.
pub data Step : Runs → Runs → Type 0 where
  ask : (r : Runs) → r.is_running ≡ false → Step r (record r { entering = r.entering + 1 })
  set :
      (r : Runs)
      → 0 < r.entering
      → Step r (record r { is_running = true; entering = r.entering - 1; inside = r.inside + 1 })
  return :
      (r : Runs)
      → 0 < r.inside
      → Step r (record r { inside = r.inside - 1; leaving = r.leaving + 1 })
  clear :
      (r : Runs) → 0 < r.leaving → Step r (record r { is_running = false; leaving = r.leaving - 1 })

pub data Reach (r : Runs) : Runs → Type 0 where
  here : Reach r r
  next : {s t : Runs} → Reach r s → Step s t → Reach r t
