-- ===== src/Pesangon/LastPay.antt =====
-- src/application/service/pesangon.rs: the work week, the daily wage and the pay of the final
-- month. `none` is a panic, of an `expect`;
-- `last_pay_fits` says that no product overflows, for `compute_settlement` to ask.
pub mod Bounds
pub mod Counting
use backbone_lifecycle.Prelude.{
  ℕ, zero, suc, ◌+◌, ◌-◌, ◌%◌, ◌^◌, Bool, true, false, ◌&&◌, ◌||◌, Option, none, some, ◌==◌,
  if◌then◌else◌,
}
use backbone_lifecycle.Prelude.Options.{◌>>=◌}
use backbone_lifecycle.Crates.Decimals.{Decimals, money, min_d}
use backbone_lifecycle.Crates.Calendar.{Calendar, Weekday, sat, sun, le_date, lt_date, max_date}

pub data WorkWeek : Type 0 where
  five_day six_day : WorkWeek

unfoldable pub work_days : WorkWeek → ℕ
work_days five_day = 5
work_days six_day = 6

unfoldable pub daily_divisor : WorkWeek → ℕ
daily_divisor five_day = 21
daily_divisor six_day = 25

-- `self == WorkWeek::SixDay`
abbrev pub is_six_day : WorkWeek → Bool
is_six_day five_day = false
is_six_day six_day = true

unfoldable pub is_working_day : WorkWeek → Weekday → Bool
is_working_day week sun = false
is_working_day week sat = is_six_day week
is_working_day week _ = true

unfoldable pub from_days : ℕ → Option WorkWeek
from_days n = if n == 5 then some five_day else if n == 6 then some six_day else none

pub record LastPay (Date Decimal : Type 0) : Type 0 where
  pub amount : Decimal
  pub from : Option Date
  pub working_days : ℕ

module _ (C : Calendar) where
  open C use {NaiveDate, days, weekday, succ_opt}

  -- The days from `d` on as long as they are not past `last`, those among them that are worked. One
  -- round for each day: `suc (days last - days d)` rounds are enough.
  unfoldable pub count_working_days : WorkWeek → NaiveDate → ℕ → NaiveDate → ℕ
  count_working_days week last zero d = 0
  count_working_days week last (suc rounds) d =
      let later : ℕ = elim (succ_opt d) [
        | none ↦ 0
        | some e ↦ count_working_days week last rounds e
      ] in
      if le_date C d last then (if is_working_day week (weekday d) then suc later else later) else 0

module _ (D : Decimals) where
  open D use {Decimal, of_nat, div}

  unfoldable pub daily_wage : Decimal → WorkWeek → Decimal
  unfolding daily_divisor
  daily_wage monthly_wage week = money D (div monthly_wage (of_nat (daily_divisor week)))

module _ (C : Calendar) (D : Decimals) where
  open C use {NaiveDate, days, with_day, checked_add_months, pred_opt}
  open D use {Decimal, zero_d, of_nat, mul}

  -- The pay from the day `from` on, in the month from `month_start` to `month_end`.
  unfoldable pub prorate :
      NaiveDate → Decimal → WorkWeek → NaiveDate → NaiveDate → NaiveDate → LastPay NaiveDate Decimal
  prorate last_working_day monthly_wage week month_start month_end from =
      let rounds = suc (days last_working_day - days from) in
      let working_days = count_working_days C week last_working_day rounds from % 2 ^ 32 in
      let whole = (days from == days month_start) && (days last_working_day == days month_end) in
      let part = money D (mul (daily_wage D monthly_wage week) (of_nat working_days)) in
      record {
        amount = if whole then money D monthly_wage else min_d D part (money D monthly_wage);
        from = some from;
        working_days = working_days;
      }

  -- That no product of `prorate` overflows.
  unfoldable pub prorate_fits :
      NaiveDate → Decimal → WorkWeek → NaiveDate → NaiveDate → NaiveDate → Bool
  unfolding prorate
  prorate_fits last_working_day monthly_wage week month_start month_end from =
      let p = prorate last_working_day monthly_wage week month_start month_end from in
      let whole = (days from == days month_start) && (days last_working_day == days month_end) in
      whole || D.mul_fits (daily_wage D monthly_wage week) (of_nat p.working_days)

  abbrev pub fits_if_computed : Option Bool → Bool
  fits_if_computed none = true
  fits_if_computed (some b) = b

  -- The same of `last_pay`, where it is computed.
  unfoldable pub last_pay_fits : NaiveDate → NaiveDate → Decimal → WorkWeek → Bool
  unfolding prorate_fits
  last_pay_fits join_date last_working_day monthly_wage week =
      lt_date C last_working_day join_date
      || fits_if_computed do
        month_start ← with_day last_working_day 1
        let from = max_date C join_date month_start
        month_end ← checked_add_months month_start 1 >>= pred_opt
        some (prorate_fits last_working_day monthly_wage week month_start month_end from)

  unfoldable pub last_pay :
      NaiveDate → NaiveDate → Decimal → WorkWeek → Option (LastPay NaiveDate Decimal)
  unfolding prorate
  last_pay join_date last_working_day monthly_wage week =
      if lt_date C last_working_day join_date
      then some (record { amount = zero_d; from = none; working_days = 0 })
      else do
        month_start ← with_day last_working_day 1
        let from = max_date C join_date month_start
        month_end ← checked_add_months month_start 1 >>= pred_opt
        some (prorate last_working_day monthly_wage week month_start month_end from)
