-- ===== src/Sched/Job.antt =====
-- sched/sched.go: Job, the calls that set its schedule, and Run up to the start of the loop.
-- strconv.Atoi is an argument.
use gosutils.Prelude.{
  ℕ, Bool, true, false, ◌||◌, List, [], ◌∷◌, ◌==◌, if◌then◌else◌, Option, none, some,
}
use gosutils.Prelude.Int.{ℤ, pos, ltb_ℤ}
use gosutils.Prelude.Text.{Text, codes}
use gosutils.Sched.Schedule.{Daily, Schedule, recurrent, daily, weekly, monthly}

pub data Error : Type 0 where
  bad_chaining bad_time missing_function already_start not_recurrent too_many_arguments : Error

-- `has_fn` is `fn != nil`.
pub record Job : Type 0 where
  pub err : Option Error
  pub schedule : Option Schedule
  pub is_start : Bool
  pub has_fn : Bool

abbrev pub midnight : Daily
midnight = record { hour = pos 0; min = pos 0; sec = pos 0 }

abbrev pub fail : Error → Job → Job
fail e j = record j { err = some e }

-- The function `Every`, and the method: the units, or an error that the job does not keep.
abbrev pub every : List ℤ → Job
every [] = record { err = none; schedule = none; is_start = false; has_fn = false }
every (n ∷ ns) = record {
  err = none;
  schedule = some (recurrent (record { units = n; period = pos 0; done = false }));
  is_start = false;
  has_fn = false;
}

unfoldable pub every_again : List ℤ → Job → Job × ℤ × Option Error
every_again [] j = elim j.schedule [
  | some (recurrent r) ↦ (j, r.units, none)
  | _ ↦ (j, pos 0, some not_recurrent)
]
every_again (n ∷ []) j = elim j.schedule [
  | some (recurrent r) ↦
      (record j { schedule = some (recurrent (record r { units = n })) }, n, none)
  | _ ↦ (j, pos 0, some not_recurrent)
]
every_again (n ∷ m ∷ ns) j = (j, pos 0, some too_many_arguments)

-- strings.Split(s, ":").
abbrev pub into_first : ℕ → List Text → List Text
into_first c [] = (c ∷ []) ∷ []
into_first c (chunk ∷ rest) = (c ∷ chunk) ∷ rest

unfoldable pub split_colon : Text → List Text
split_colon [] = [] ∷ []
split_colon (c ∷ cs) =
    let rest = split_colon cs in if c == b':' then [] ∷ rest else into_first c rest

-- The switch of `parseTime`: with four chunks or more the strings stay empty.
abbrev pub parts : List Text → Text × Text × Text
parts (h ∷ []) = (h, codes "0", codes "0")
parts (h ∷ m ∷ []) = (h, m, codes "0")
parts (h ∷ m ∷ s ∷ []) = (h, m, s)
parts _ = ([], [], [])

abbrev pub check_time : ℤ → ℤ → ℤ → Option Daily
check_time h m s =
    if ltb_ℤ (pos 23) h || (ltb_ℤ (pos 59) m || ltb_ℤ (pos 59) s)
    then none
    else some (record { hour = h; min = m; sec = s })

abbrev pub on_int {ℓ} : {A : Type ℓ} → Option ℤ → (ℤ → Option A) → Option A
on_int none f = none
on_int (some n) f = f n

-- `setTime` on the schedule, or none for one that has no time of day.
abbrev pub set_time : Option Schedule → Daily → Option Schedule
set_time (some (daily _)) d = some (daily d)
set_time (some (weekly w _)) d = some (weekly w d)
set_time (some (monthly m _)) d = some (monthly m d)
set_time _ d = none

module _ (atoi : Text → Option ℤ) where
  -- `parseTime` behind its switch.
  abbrev pub parse_parts : Text × Text × Text → Option Daily
  parse_parts (hour, min, sec) =
      on_int (atoi hour) (λ h. on_int (atoi min) (λ m. on_int (atoi sec) (λ s. check_time h m s)))

  unfoldable pub parse_time : Text → Option Daily
  unfolding split_colon
  parse_time s = parse_parts (parts (split_colon s))

  -- `At`.
  unfoldable pub at : Text → Job → Job
  unfolding parse_time
  at s j = elim j.err [
    | some e ↦ j
    | none ↦ elim (parse_time s) [
      | none ↦ fail bad_time j
      | some d ↦ elim (set_time j.schedule d) [
        | none ↦ fail bad_chaining j
        | some sch ↦ record j { schedule = some sch }
      ]
    ]
  ]

-- `MDay`.
unfoldable pub m_day : ℕ → Job → Job
m_day d j = elim j.schedule [
  | none ↦ record j { schedule = some (monthly d midnight) }
  | some (monthly _ t) ↦ record j { schedule = some (monthly d t) }
  | some _ ↦ fail bad_chaining j
]

-- `RNotImmediately`.
unfoldable pub r_not_immediately : Job → Job
r_not_immediately j = elim j.schedule [
  | some (recurrent r) ↦ record j { schedule = some (recurrent (record r { done = true })) }
  | _ ↦ fail bad_chaining j
]

-- `dayOfWeek`, which WMonday to WSunday call.
unfoldable pub day_of_week : ℕ → Job → Job
day_of_week w j = elim j.schedule [
  | none ↦ record j { schedule = some (weekly w midnight) }
  | some _ ↦ record j { schedule = some (weekly w midnight); err = some bad_chaining }
]

-- `DDay`.
unfoldable pub d_day : Job → Job
d_day j = elim j.schedule [
  | none ↦ record j { schedule = some (daily midnight) }
  | some (daily _) ↦ record j { schedule = some (daily midnight) }
  | some _ ↦ record j { schedule = some (daily midnight); err = some bad_chaining }
]

-- `timeOfDay`, which ESeconds, EMinutes and EHours call: none is the panic of the type assertion.
unfoldable pub time_of_day : ℤ → Job → Option Job
time_of_day d j = elim j.err [
  | some e ↦ some j
  | none ↦ elim j.schedule [
    | some (recurrent r) ↦ some (record j { schedule = some (recurrent (record r { period = d })) })
    | _ ↦ none
  ]
]

-- `Run` in front of its goroutine, with a function or without.
unfoldable pub run : Bool → Job → Job × Option Error
run given j = elim j.err [
  | some e ↦ (j, some e)
  | none ↦
      if given || j.has_fn
      then (if j.is_start
          then (record j { has_fn = true }, some already_start)
          else (record j { has_fn = true; is_start = true }, none))
      else (j, some missing_function)
]
