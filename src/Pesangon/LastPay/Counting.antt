-- ===== src/Pesangon/LastPay/Counting.antt =====
-- The loop of src/application/service/pesangon.rs that counts the working days of the final month.
use backbone_lifecycle.Prelude.{
  ℕ, zero, suc, ◌-◌, ◌%◌, ◌^◌, ◌≤◌, ◌<◌, ◌≡◌, ◌⊎◌, inl, inr, refl, true, false, Option, none, some,
  if◌then◌else◌, Bool-cases, Option-cases, arith, leb→le,
}
use backbone_lifecycle.Crates.Decimals.{Decimals}
use backbone_lifecycle.Crates.Calendar.{
  Calendar, Weekday, mon, tue, wed, thu, fri, sat, sun, le_date,
}
use backbone_lifecycle.Pesangon.LastPay.{
  WorkWeek, five_day, six_day, is_working_day, count_working_days, prorate,
}

-- The week's days off: Sunday, and Saturday too in a week of five days.
abbrev IsOff : WorkWeek → Weekday → Type 0
IsOff week day = (day ≡ sun) ⊎ ((day ≡ sat) × (week ≡ five_day))

is_working_day-IsOff :
    (week : WorkWeek) (day : Weekday) → is_working_day week day ≡ false → IsOff week day
unfolding is_working_day
is_working_day-IsOff week sun h = inl refl
is_working_day-IsOff five_day sat h = inr (refl, refl)
is_working_day-IsOff six_day sat h = cc
is_working_day-IsOff week mon h = cc
is_working_day-IsOff week tue h = cc
is_working_day-IsOff week wed h = cc
is_working_day-IsOff week thu h = cc
is_working_day-IsOff week fri h = cc

is_working_day-not_off :
    (week : WorkWeek) (day : Weekday) → is_working_day week day ≡ true → IsOff week day → ⊥
unfolding is_working_day
is_working_day-not_off week day h (inl e) = cc (rw e at h)
is_working_day-not_off week day h (inr (e, k)) = cc (rw (e, k) at h)

module _ (C : Calendar) (week : WorkWeek) (last : C.NaiveDate) where
  open C use {NaiveDate, days, weekday, succ_opt}

  -- The days counted from a day on: none past the last; else the day itself unless it is off, and
  -- those from the next day on, where the calendar has one.
  mutual
    pub data Counts : NaiveDate → ℕ → Type 0 where
      past : (d : NaiveDate) → days last < days d → Counts d 0
      off :
          (d : NaiveDate) (n : ℕ)
          → days d ≤ days last
          → IsOff week (weekday d)
          → CountsAfter (succ_opt d) n
          → Counts d n
      worked :
          (d : NaiveDate) (n : ℕ)
          → days d ≤ days last
          → (IsOff week (weekday d) → ⊥)
          → CountsAfter (succ_opt d) n
          → Counts d (suc n)

    pub data CountsAfter : Option NaiveDate → ℕ → Type 0 where
      ended : CountsAfter none 0
      next : (d : NaiveDate) (n : ℕ) → Counts d n → CountsAfter (some d) n

  Counts-today :
      (d : NaiveDate) (after : Option NaiveDate) (n rounds : ℕ)
      → succ_opt d ≡ after
      → days d ≤ days last
      → CountsAfter after n
      → (count_working_days C week last (suc rounds) d
          ≡ (if is_working_day week (weekday d) then suc n else n))
      → Counts d (count_working_days C week last (suc rounds) d)
  Counts-today d after n rounds e h c value = elim (Bool-cases (is_working_day week (weekday d))) [
    | inl on ↦ rw (value, on) (worked d n h (is_working_day-not_off week (weekday d) on) (rw e c))
    | inr out ↦ rw (value, out) (off d n h (is_working_day-IsOff week (weekday d) out) (rw e c))
  ]

  -- With a round for each day left, the loop counts those days.
  count_working_days-Counts :
      (rounds : ℕ) (d : NaiveDate)
      → suc (days last) - days d ≤ rounds
      → Counts d (count_working_days C week last rounds d)
  unfolding count_working_days
  count_working_days-Counts zero d h = past d (omega arith)
  count_working_days-Counts (suc rounds) d h = elim (Bool-cases (le_date C d last)) [
    | inr late ↦ rw late (past d (ground arith))
    | inl on_time ↦ elim (Option-cases (succ_opt d)) [
      | inl e ↦ Counts-today d none 0 rounds e (leb→le _ _ on_time) ended (rw (e, on_time) refl)
      | inr (u, e) ↦
          Counts-today d (some u) (count_working_days C week last rounds u) rounds e
            (leb→le _ _ on_time)
            (next u _ (count_working_days-Counts rounds u (omega (arith, C.days_succ d u e))))
            (rw (e, on_time) refl)
    ]
  ]

module _ (C : Calendar) (D : Decimals) where
  open C use {NaiveDate}
  open D use {Decimal}

  -- The pay of the final month counts, from its first day through the last working day, each day but
  -- the Sundays and, in a week of five days, the Saturdays; the loop is never cut off before the
  -- last day. The number is kept in 32 bits.
  pub prorate-Counts :
      (last : NaiveDate) (wage : Decimal) (week : WorkWeek) (month_start month_end from : NaiveDate)
      → (n : ℕ) × Counts C week last from n
        × ((prorate C D last wage week month_start month_end from).working_days ≡ n % 2 ^ 32)
  unfolding prorate
  prorate-Counts last wage week month_start month_end from =
      (_, count_working_days-Counts C week last _ from (omega arith), refl)
