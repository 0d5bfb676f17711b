-- ===== src/Pesangon/Tenure.antt =====
-- src/application/service/pesangon.rs: years of service. `none` is a panic, of an `expect`.
pub mod Completed
use Prim.Native.Nat.{max}
use backbone_lifecycle.Prelude.{ℕ, ◌+◌, ◌-◌, ◌^◌, Option, none, some, if◌then◌else◌}
use backbone_lifecycle.Prelude.Options.{◌>>=◌}
use backbone_lifecycle.Crates.Decimals.{Decimals, to_zero, max_d}
use backbone_lifecycle.Crates.Calendar.{Calendar, lt_date}

module _ (C : Calendar) where
  open C use {NaiveDate, year, month, day, from_ymd_opt}

  -- `or_else`
  abbrev pub or_first_of_march : Option NaiveDate → ℕ → Option NaiveDate
  or_first_of_march none y = from_ymd_opt y 3 1
  or_first_of_march (some t) y = some t

  unfoldable pub anniversary : NaiveDate → ℕ → Option NaiveDate
  anniversary start years =
      let y = year start + years in or_first_of_march (from_ymd_opt y (month start) (day start)) y

module _ (C : Calendar) (D : Decimals) where
  open C use {NaiveDate, days, year, succ_opt}
  open D use {Decimal, zero_d, of_nat, add, div, round_dp, trunc, to_u32}

  -- The years are a signed number in the code; they are not negative where this is called.
  unfoldable pub tenure_years : NaiveDate → NaiveDate → Option Decimal
  tenure_years join_date last_working_day =
      if lt_date C last_working_day join_date then some zero_d else do
        end ← succ_opt last_working_day
        let candidate = year end - year join_date
        reached ← anniversary C join_date candidate
        let years = if lt_date C end reached then candidate - 1 else candidate
        from ← anniversary C join_date years
        to ← anniversary C join_date (years + 1)
        let fraction = div (of_nat (days end - days from)) (of_nat (days to - days from))
        some (round_dp 4 to_zero (add (of_nat years) fraction))

module _ (D : Decimals) where
  open D use {Decimal, zero_d, trunc, to_u32}

  -- `unwrap_or(u32::MAX)`
  abbrev pub or_u32_max : Option ℕ → ℕ
  or_u32_max none = 2 ^ 32 - 1
  or_u32_max (some n) = n

  unfoldable pub completed_years : Decimal → ℕ
  completed_years tenure = or_u32_max (to_u32 (trunc (max_d D tenure zero_d)))
