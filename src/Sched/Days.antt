-- ===== src/Sched/Days.antt =====
-- The day on which the schedules of sched/sched.go run next.
use gosutils.Prelude.{ℕ, ◌+◌, ◌%◌, ◌≡◌, ◌≤◌, ◌<◌, ◌⊎◌, arith, true, false}
use gosutils.Sched.Schedule.{
  Daily, Now, Date, today, is_past, weekly_days, monthly_days, monthly_next,
}

module _ (date : Date) where
  -- The days from now to the next run of a weekly job are at most 7 and lead to its weekday; they
  -- are 0 only today, at a time that is not past.
  pub weekly_days-lands :
      (w : ℕ) (d : Daily) (n : Now)
      → w < 7
      → n.weekday < 7
      → ((n.weekday + weekly_days date w d n) % 7 ≡ w)
        × (weekly_days date w d n ≤ 7)
        × (weekly_days date w d n ≡ 0 → (w ≡ n.weekday) × (is_past date n d ≡ false))
  unfolding weekly_days
  weekly_days-lands w d n lt lt' = ground arith

  -- A monthly job on a day of the month that has come runs next today, on that day and at a time
  -- that is not past, or on that day of the next month, counted from the end of this month.
  pub monthly_days-lands :
      (m : ℕ) (d : Daily) (n : Now)
      → 1 ≤ m
      → m ≤ n.day
      → n.day ≤ n.month_days
      → ((n.day + monthly_days date m d n ≡ m) × (is_past date n d ≡ false))
        ⊎ ((n.day + monthly_days date m d n ≡ n.month_days + m)
            × ((m < n.day) ⊎ (is_past date n d ≡ true)))
  unfolding monthly_days
  monthly_days-lands m d n one le le' = ground arith

  -- A monthly job on the end of the month runs next on the last day of this month, or, if that is
  -- today and its time is past, on the last day of the next.
  monthly_days-last :
      (d : Daily) (n : Now)
      → n.day ≤ n.month_days
      → (n.day + monthly_days date 0 d n ≡ n.month_days)
        ⊎ ((n.day + monthly_days date 0 d n ≡ n.month_days + n.next_month_days)
            × (n.day ≡ n.month_days)
            × (is_past date n d ≡ true))
  unfolding monthly_days
  monthly_days-last d n le = ground arith

  -- A monthly job on a day of the month that has not come is set for today, not for that day.
  pub monthly_next-today :
      (m : ℕ) (d : Daily) (n : Now) → n.day < m → monthly_next date m d n ≡ today date n d
  unfolding monthly_next monthly_days
  monthly_next-today m d n lt = ground arith
