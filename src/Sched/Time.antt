-- ===== src/Sched/Time.antt =====
-- The times that parseTime of sched/sched.go accepts.
use gosutils.Prelude.{
  ◌≡◌, ◌↔◌, refl, arith, ap, ◌∙◌, false, [], ◌∷◌, ◌++◌, ◌==◌, Option, none, some,
}
use gosutils.Prelude.Int.{ℤ, pos, ◌≤ℤ◌}
use gosutils.Prelude.Text.{Text, All}
use gosutils.Sched.Schedule.{Daily}
use gosutils.Sched.Job.{split_colon, check_time, on_int, parse_parts, parse_time}

-- No part is too large for a time of day; a negative one is bounded too.
abbrev pub IsBounded : Daily → Type 0
IsBounded d = (d.hour ≤ℤ pos 23) × (d.min ≤ℤ pos 59) × (d.sec ≤ℤ pos 59)

-- No colon.
abbrev pub Plain : Text → Type 0
Plain s = All (λ c. (c == b':') ≡ false) s

check_time-IsBounded : (h m s : ℤ) (d : Daily) → check_time h m s ≡ some d → IsBounded d
check_time-IsBounded h m s d e = ground arith

check_time-some :
    (h m s : ℤ)
    → IsBounded (record { hour = h; min = m; sec = s })
    → check_time h m s ≡ some (record { hour = h; min = m; sec = s })
check_time-some h m s inside = ground arith

split_colon-Plain : (a : Text) → Plain a → split_colon a ≡ a ∷ []
unfolding split_colon
split_colon-Plain [] p = refl
split_colon-Plain (c ∷ cs) p = rw (split_colon, p.0, split_colon-Plain cs p.1) refl

split_colon-append :
    (a rest : Text) → Plain a → split_colon (a ++ b':' ∷ rest) ≡ a ∷ split_colon rest
unfolding split_colon
split_colon-append [] rest p = refl
split_colon-append (c ∷ cs) rest p = rw (split_colon, p.0, split_colon-append cs rest p.1) refl

on_int-some :
    (o : Option ℤ) (f : ℤ → Option Daily) (d : Daily)
    → on_int o f ≡ some d
    → (n : ℤ) × (o ≡ some n) × (f n ≡ some d)
on_int-some none f d e = cc
on_int-some (some n) f d e = (n, refl, e)

module _ (atoi : Text → Option ℤ) where
  abbrev Joined : Text → Text → Text → Daily → Type 0
  Joined a b c d =
      (atoi a ≡ some d.hour) × (atoi b ≡ some d.min) × (atoi c ≡ some d.sec) × IsBounded d

  parse_parts-Joined :
      (a b c : Text) (d : Daily) → parse_parts atoi (a, b, c) ≡ some d → Joined a b c d
  parse_parts-Joined a b c d e =
      let (h, eh, e1) =
        on_int-some (atoi a) (λ h. on_int (atoi b) (λ m. on_int (atoi c) (λ s. check_time h m s))) d
          e in
      let (m, em, e2) = on_int-some (atoi b) (λ m. on_int (atoi c) (λ s. check_time h m s)) d e1 in
      let (s, es, e3) = on_int-some (atoi c) (λ s. check_time h m s) d e2 in
      ground (arith, e3, eh, em, es)

  Joined-parse_parts :
      (a b c : Text) (d : Daily) → Joined a b c d → parse_parts atoi (a, b, c) ≡ some d
  Joined-parse_parts a b c d (eh, em, es, bounded) =
      rw (eh, em, es) (check_time-some d.hour d.min d.sec bounded)

  -- Three texts without a colon, joined by colons, are accepted as a time exactly if each is a number
  -- for strconv.Atoi and none of these is too large, 23 being the largest hour, 59 the largest minute
  -- and second, and the time has these numbers. A negative number is not refused.
  pub parse_time-joined :
      (a b c : Text) (d : Daily)
      → Plain a
      → Plain b
      → Plain c
      → parse_time atoi (a ++ b':' ∷ (b ++ b':' ∷ c)) ≡ some d
        ↔ (atoi a ≡ some d.hour) × (atoi b ≡ some d.min) × (atoi c ≡ some d.sec) × IsBounded d
  unfolding parse_time
  parse_time-joined a b c d pa pb pc =
      let chunks : split_colon (a ++ b':' ∷ (b ++ b':' ∷ c)) ≡ a ∷ b ∷ c ∷ [] =
        split_colon-append a (b ++ b':' ∷ c) pa
        ∙ ap (λ l. a ∷ l) (split_colon-append b c pb ∙ ap (λ l. b ∷ l) (split_colon-Plain c pc)) in
      rw chunks (parse_parts-Joined a b c d, Joined-parse_parts a b c d)
