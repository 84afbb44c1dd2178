-- ===== src/Sched/Chain.antt =====
-- Chains of calls on a Job of sched/sched.go.
use gosutils.Prelude.{
  ℕ, ◌≡◌, ◌≢◌, refl, arith, ◌⊎◌, inl, inr, Bool, true, false, List, [], ◌∷◌, Option, none, some,
  Option-cases, ap, sym, ◌∙◌,
}
use gosutils.Prelude.Int.{ℤ}
use gosutils.Prelude.Text.{Text}
use gosutils.Sched.Schedule.{Schedule, recurrent}
use gosutils.Sched.Job.{
  Job, every, at, m_day, r_not_immediately, day_of_week, d_day, time_of_day, run,
}

-- A call that returns the job again.
pub data Call : Type 0 where
  call_at : Text → Call
  call_m_day : ℕ → Call
  call_r_not_immediately : Call
  call_day_of_week : ℕ → Call
  call_d_day : Call
  call_time_of_day : ℤ → Call

module _ (atoi : Text → Option ℤ) where
  unfoldable pub call : Call → Job → Option Job
  unfolding at m_day r_not_immediately day_of_week d_day time_of_day
  call (call_at s) j = some (at atoi s j)
  call (call_m_day d) j = some (m_day d j)
  call call_r_not_immediately j = some (r_not_immediately j)
  call (call_day_of_week w) j = some (day_of_week w j)
  call call_d_day j = some (d_day j)
  call (call_time_of_day d) j = time_of_day d j

  abbrev pub and_then : Option Job → (Job → Option Job) → Option Job
  and_then none f = none
  and_then (some j) f = f j

  -- A chain of calls, none if one of them panics.
  unfoldable pub chain : List Call → Job → Option Job
  unfolding call
  chain [] j = some j
  chain (c ∷ cs) j = and_then (call c j) (λ j'. chain cs j')

  -- A job with an error has one after any call.
  call-err : (c : Call) (j : Job) → j.err ≢ none → (j' : Job) → call c j ≡ some j' → j'.err ≢ none
  unfolding call at m_day r_not_immediately day_of_week d_day time_of_day
  call-err (call_at s) j e j' h = ground (arith, h)
  call-err (call_m_day d) j e j' h = ground arith
  call-err call_r_not_immediately j e j' h = ground arith
  call-err (call_day_of_week w) j e j' h = ground arith
  call-err call_d_day j e j' h = ground arith
  call-err (call_time_of_day d) j e j' h = ground arith

  abbrev is_recurrent : Option Schedule → Bool
  is_recurrent (some (recurrent r)) = true
  is_recurrent _ = false

  -- A job that the calls for a period can be made on.
  abbrev IsSound : Job → Type 0
  IsSound j = (j.err ≢ none) ⊎ (is_recurrent j.schedule ≡ true)

  call-IsSound : (c : Call) (j : Job) → IsSound j → (j' : Job) × (call c j ≡ some j') × IsSound j'
  unfolding call at m_day r_not_immediately day_of_week d_day time_of_day
  call-IsSound (call_at s) j sound = (at atoi s j, refl, ground arith)
  call-IsSound (call_m_day d) j sound = (m_day d j, refl, ground arith)
  call-IsSound call_r_not_immediately j sound = (r_not_immediately j, refl, ground arith)
  call-IsSound (call_day_of_week w) j sound = (day_of_week w j, refl, ground arith)
  call-IsSound call_d_day j sound = (d_day j, refl, ground arith)
  call-IsSound (call_time_of_day d) j sound = elim (Option-cases (time_of_day d j)) [
    | inl e ↦ absurd (ground arith)
    | inr (j', e) ↦ (j', e, ground arith)
  ]

  none_or_some : {j : Job} → none ≢ some j
  none_or_some e = cc

  chain-call :
      (c : Call) (cs : List Call) (j : Job)
      → chain (c ∷ cs) j ≡ and_then (call c j) (λ j'. chain cs j')
  unfolding chain
  chain-call c cs j = refl

  chain-on :
      (c : Call) (cs : List Call) (j : Job) (o : Option Job)
      → call c j ≡ o
      → chain (c ∷ cs) j ≡ and_then o (λ j'. chain cs j')
  chain-on c cs j o e = chain-call c cs j ∙ ap (λ o. and_then o (λ j'. chain cs j')) e

  chain-err : (cs : List Call) (j j' : Job) → j.err ≢ none → chain cs j ≡ some j' → j'.err ≢ none
  unfolding chain
  chain-err [] j j' e h = ground (arith, h)
  chain-err (c ∷ cs) j j' e h = elim (Option-cases (call c j)) [
    | inl none_here ↦ absurd (none_or_some (sym (chain-on c cs j none none_here) ∙ h))
    | inr (j1, here) ↦
        chain-err cs j1 j' (call-err c j e j1 here) (sym (chain-on c cs j (some j1) here) ∙ h)
  ]

  run-err : (given : Bool) (j : Job) → j.err ≢ none → run given j ≡ (j, j.err)
  unfolding run
  run-err given j e = ground arith

  -- Whatever calls follow one that left an error, Run gives an error and starts nothing.
  run-chain_refused :
      (cs : List Call) (j j' : Job) (given : Bool)
      → j.err ≢ none
      → chain cs j ≡ some j'
      → (run given j' ≡ (j', j'.err)) × (j'.err ≢ none)
  run-chain_refused cs j j' given e h = let e' = chain-err cs j j' e h in (run-err given j' e', e')

  chain-IsSound : (cs : List Call) (j : Job) → IsSound j → chain cs j ≢ none
  unfolding chain
  chain-IsSound [] j sound h = cc
  chain-IsSound (c ∷ cs) j sound h =
      let (j', e, sound') = call-IsSound c j sound in
      chain-IsSound cs j' sound' (sym (chain-on c cs j (some j') e) ∙ h)

  -- No chain of calls panics that starts at Every with a number.
  chain-every : (cs : List Call) (n : ℤ) (ns : List ℤ) → chain cs (every (n ∷ ns)) ≢ none
  chain-every cs n ns = chain-IsSound cs (every (n ∷ ns)) (inr refl)
