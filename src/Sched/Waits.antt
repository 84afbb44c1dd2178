-- ===== src/Sched/Waits.antt =====
-- The loop of the goroutine that Run of sched/sched.go starts, for a recurrent job.
use gosutils.Prelude.{
  ℕ, zero, suc, ◌≡◌, refl, ap, Bool, true, false, List, [], ◌∷◌, ◌++◌, Option, none, some,
  replicate, length, if◌then◌else◌, Bool-cases, inl, inr,
}
use gosutils.Prelude.Int.{ℤ, pos, ◌*ℤ◌, ◌==ℤ◌}
use gosutils.Prelude.Text.{All}
use gosutils.Prelude.Wrap.{wrap_64}
use gosutils.Sched.Schedule.{Recurrent, next_wait}

-- What the select of a round takes: Quit, skipWait, or the end of the wait.
pub data Event : Type 0 where
  quit skip_wait elapsed : Event

-- What the loop does: `time.After(next)`, `go runJob(j)`, and the return.
pub data Act : Type 0 where
  wait : ℤ → Act
  run_job stop : Act

-- The error of a schedule is dropped, with the duration 0.
abbrev pub wait_of : Option ℤ → ℤ
wait_of none = pos 0
wait_of (some t) = t

-- The loop, by what each of its selects takes, up to the one that still waits.
unfoldable pub run_loop : List Event → ℤ → Recurrent → List Act
unfolding next_wait
run_loop [] next r = wait next ∷ []
run_loop (quit ∷ es) next r = wait next ∷ stop ∷ []
run_loop (skip_wait ∷ es) next r =
    let (t, r') = next_wait r in wait next ∷ run_job ∷ run_loop es (wait_of t) r'
run_loop (elapsed ∷ es) next r =
    let (t, r') = next_wait r in wait next ∷ run_job ∷ run_loop es (wait_of t) r'

-- The goroutine: `next` is 0 at first.
unfoldable pub run_goroutine : List Event → Recurrent → List Act
unfolding run_loop
run_goroutine es r = run_loop es (pos 0) r

-- The units and the period are set.
abbrev pub IsPeriodic : Recurrent → Type 0
IsPeriodic r = ((r.units ==ℤ pos 0) ≡ false) × ((r.period ==ℤ pos 0) ≡ false)

abbrev is_quit : Event → Bool
is_quit quit = true
is_quit _ = false

-- Nothing is sent on Quit.
abbrev pub Going : List Event → Type 0
Going es = All (λ e. is_quit e ≡ false) es

abbrev pub duration : Recurrent → ℤ
duration r = wrap_64 (r.units *ℤ r.period)

-- The waits behind the first.
abbrev pub later_waits : ℕ → Recurrent → List ℤ
later_waits zero r = []
later_waits (suc n) r =
    if r.done then duration r ∷ replicate n (duration r) else pos 0 ∷ replicate n (duration r)

-- A wait, and in front of each other one a call of runJob.
abbrev pub runs_between : ℤ → List ℤ → List Act
runs_between w [] = wait w ∷ []
runs_between w (w' ∷ ws) = wait w ∷ run_job ∷ runs_between w' ws

next_wait-done :
    (r : Recurrent) → IsPeriodic r → r.done ≡ true → next_wait r ≡ (some (duration r), r)
unfolding next_wait
next_wait-done r set done = rw (next_wait, set.0, set.1, done) refl

next_wait-fresh :
    (r : Recurrent)
    → IsPeriodic r
    → r.done ≡ false
    → next_wait r ≡ (some (pos 0), record r { done = true })
unfolding next_wait
next_wait-fresh r set done = rw (next_wait, set.0, set.1, done) refl

abbrev in_round : ℤ → List Act → List Act
in_round next acts = wait next ∷ run_job ∷ acts

run_loop-done :
    (es : List Event) (next : ℤ) (r : Recurrent)
    → IsPeriodic r
    → r.done ≡ true
    → Going es
    → run_loop es next r ≡ runs_between next (replicate (length es) (duration r))
unfolding run_loop
run_loop-done [] next r set done going = refl
run_loop-done (quit ∷ es) next r set done going = cc
run_loop-done (skip_wait ∷ es) next r set done going =
    rw (next_wait-done r set done)
      (ap (in_round next) (run_loop-done es (duration r) r set done going.1))
run_loop-done (elapsed ∷ es) next r set done going =
    rw (next_wait-done r set done)
      (ap (in_round next) (run_loop-done es (duration r) r set done going.1))

-- The first wait of a job that RNotImmediately was not called on is no wait, and sets the mark.
run_loop-fresh :
    (es : List Event) (next : ℤ) (r : Recurrent)
    → IsPeriodic r
    → r.done ≡ false
    → Going es
    → run_loop es next r ≡ runs_between next (later_waits (length es) r)
unfolding run_loop
run_loop-fresh [] next r set fresh going = refl
run_loop-fresh (quit ∷ es) next r set fresh going = cc
run_loop-fresh (skip_wait ∷ es) next r set fresh going =
    rw (next_wait-fresh r set fresh, fresh)
      (ap (in_round next) (run_loop-done es (pos 0) (record r { done = true }) set refl going.1))
run_loop-fresh (elapsed ∷ es) next r set fresh going =
    rw (next_wait-fresh r set fresh, fresh)
      (ap (in_round next) (run_loop-done es (pos 0) (record r { done = true }) set refl going.1))

replicate-later_waits :
    (n : ℕ) (r : Recurrent) → r.done ≡ true → replicate n (duration r) ≡ later_waits n r
replicate-later_waits zero r done = refl
replicate-later_waits (suc n) r done = rw done refl

run_loop-later_waits :
    (es : List Event) (next : ℤ) (r : Recurrent)
    → IsPeriodic r
    → Going es
    → run_loop es next r ≡ runs_between next (later_waits (length es) r)
run_loop-later_waits es next r set going = elim (Bool-cases r.done) [
  | inl done ↦
      rw (run_loop-done es next r set done going, replicate-later_waits (length es) r done) refl
  | inr fresh ↦ run_loop-fresh es next r set fresh going
]

run_loop-quit :
    (es rest : List Event) (next : ℤ) (r : Recurrent)
    → Going es
    → run_loop (es ++ quit ∷ rest) next r ≡ run_loop es next r ++ stop ∷ []
unfolding run_loop
run_loop-quit [] rest next r going = refl
run_loop-quit (quit ∷ es) rest next r going = cc
run_loop-quit (skip_wait ∷ es) rest next r going =
    let (t, r') = next_wait r in ap (in_round next) (run_loop-quit es rest (wait_of t) r' going.1)
run_loop-quit (elapsed ∷ es) rest next r going =
    let (t, r') = next_wait r in ap (in_round next) (run_loop-quit es rest (wait_of t) r' going.1)

-- The loop of a recurrent job whose units and period are set, as long as nothing is sent on Quit:
-- its first wait is 0, the second is 0 too if RNotImmediately was not called, and all others are the
-- product of units and period in an int64, whether the waits before ended or were skipped. It
-- calls runJob once between each two waits, and the first Quit ends it without another call, whatever
-- would come behind.
pub run_goroutine-periodic :
    (es rest : List Event) (r : Recurrent)
    → IsPeriodic r
    → Going es
    → (run_goroutine es r ≡ runs_between (pos 0) (later_waits (length es) r))
      × (run_goroutine (es ++ quit ∷ rest) r ≡ run_goroutine es r ++ stop ∷ [])
unfolding run_goroutine
run_goroutine-periodic es rest r set going =
    (run_loop-later_waits es (pos 0) r set going, run_loop-quit es rest (pos 0) r going)
