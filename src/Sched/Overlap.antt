-- ===== src/Sched/Overlap.antt =====
-- What `isRunning` says of the runs of a job (sched/sched.go).
use gosutils.Prelude.{ℕ, zero, suc, ◌+◌, ◌-◌, ◌<◌, ◌≡◌, refl, subst, arith, Bool, true, false}
use gosutils.Sched.Runs.{Runs, idle, Step, ask, set, return, clear, Reach, here, next}

-- While `isRunning` is set, a run is in the function of the job or has just left it.
IsTrue : Runs → Type 0
IsTrue r = r.is_running ≡ true → 0 < r.inside + r.leaving

Step-IsTrue : {s t : Runs} → Step s t → IsTrue s → IsTrue t
unfolding IsTrue
Step-IsTrue (ask r e) h = h
Step-IsTrue (set r p) h = λ e. omega arith
Step-IsTrue (return r p) h = λ e. omega (arith, h e)
Step-IsTrue (clear r p) h = λ e. ground (arith, e)

Reach-IsTrue : {s t : Runs} → IsTrue s → Reach s t → IsTrue t
Reach-IsTrue h here = h
Reach-IsTrue h (next r st) = Step-IsTrue st (Reach-IsTrue h r)

abbrev runs : Bool → ℕ → ℕ → Runs
runs b entering inside = record {
  is_running = b;
  entering = entering;
  inside = inside;
  leaving = 0;
}

-- Each goroutine asks before one of them has set `isRunning`.
asked : (n : ℕ) → Reach idle (runs false n 0)
asked zero = here
asked (suc n) =
    let more : n + 1 ≡ suc n = omega arith in
    subst (λ k. Reach idle (runs false k 0)) more (next (asked n) (ask (runs false n 0) refl))

one_enters : (b : Bool) (e i : ℕ) → Reach idle (runs b (suc e) i) → Reach idle (runs true e (suc i))
one_enters b e i r =
    let less : suc e - 1 ≡ e = omega arith in
    let more : i + 1 ≡ suc i = omega arith in
    subst (λ k. Reach idle (runs true k (suc i))) less
      (subst (λ k. Reach idle (runs true (suc e - 1) k)) more
        (next r (set (runs b (suc e) i) (omega arith))))

entered : (n m : ℕ) → Reach idle (runs true m (suc n))
entered zero m = one_enters false m 0 (asked (suc m))
entered (suc n) m = one_enters true m (suc n) (entered n (suc m))

-- The first run that ends clears what the others have set.
overlapped : (n : ℕ) → Reach idle (runs false 0 n)
overlapped n =
    let less : suc n - 1 ≡ n = omega arith in
    let left = next (entered n 0) (return (runs true 0 (suc n)) (omega arith)) in
    subst (λ k. Reach idle (runs false 0 k)) less (next left (clear _ (omega arith)))

-- Whatever the scheduler does: while `isRunning` is set, a run is in the function of the job or has
-- just left it. But any number of runs may be in the function at once, and with `isRunning` not set.
pub is_running-runs :
    (n : ℕ) (r : Runs)
    → Reach idle r
    → r.is_running ≡ true
    → (0 < r.inside + r.leaving) × Reach idle (record idle { inside = n })
unfolding IsTrue
is_running-runs n r reached running =
    (Reach-IsTrue (λ e. ground (arith, e)) reached running, overlapped n)
