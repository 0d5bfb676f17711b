-- ===== src/Pesangon/LastPay/Bounds.antt =====
-- What bounds the pay of the final month.
use backbone_lifecycle.Prelude.{
  ℕ, zero, suc, ◌-◌, ◌≤◌, ◌<◌, ◌≡◌, refl, some, arith, inl, inr, true, ◌&&◌, ◌==◌, Bool-cases,
  Option-cases, leb→le, le→leb,
}
use backbone_lifecycle.Prelude.Options.{◌>>=◌}
use backbone_lifecycle.Crates.Decimals.{Decimals, IsNonneg, money, min_d, min_d-le, money-IsNonneg}
use backbone_lifecycle.Crates.Calendar.{Calendar, le_date, max_date, max_date_le}
use backbone_lifecycle.Pesangon.LastPay.{
  WorkWeek, LastPay, daily_wage, count_working_days, prorate, last_pay,
}

module _ (C : Calendar) (week : WorkWeek) (last : C.NaiveDate) where
  open C use {NaiveDate, days}

  -- No more days are worked than there are days from the first to the last.
  count_working_days-le :
      (rounds : ℕ) (d : NaiveDate)
      → count_working_days C week last rounds d ≤ suc (days last) - days d
  unfolding count_working_days
  count_working_days-le zero d = omega arith
  count_working_days-le (suc rounds) d = elim (Option-cases (C.succ_opt d)) [
    | inl e ↦ rw e (ground arith)
    | inr (u, e) ↦ rw e (ground (arith, C.days_succ d u e, count_working_days-le rounds u))
  ]

module _ (D : Decimals) where
  open D use {Decimal, le}

  pub daily_wage-IsNonneg :
      (wage : Decimal) (week : WorkWeek) → IsNonneg D wage → IsNonneg D (daily_wage D wage week)
  unfolding daily_wage
  daily_wage-IsNonneg wage week h = money-IsNonneg D _ (D.div_nonneg _ _ h (D.of_nat_nonneg _))

  min_d-IsNonneg : (a b : Decimal) → IsNonneg D a → IsNonneg D b → IsNonneg D (min_d D a b)
  min_d-IsNonneg a b ha hb = elim (Bool-cases (le a b)) [ inl e ↦ rw e ha | inr e ↦ rw e hb ]

module _ (C : Calendar) (D : Decimals) (week : WorkWeek) (last : C.NaiveDate) where
  open C use {NaiveDate, days, year, last_year}
  open D use {Decimal, le, zero_d}

  -- What the pay of the final month keeps to, from the day `first` on.
  pub record IsWithin (wage : Decimal) (p : LastPay NaiveDate Decimal) (first : NaiveDate)
      : Type 0 where
    pub from_first : p.from ≡ some first
    pub days_counted : p.working_days ≤ suc (days last) - days first
    pub not_negative : IsNonneg D p.amount
    pub capped : le p.amount (money D wage) ≡ true

  prorate-IsWithin :
      (wage : Decimal) (month_start month_end from : NaiveDate)
      → IsNonneg D wage
      → IsWithin wage (prorate C D last wage week month_start month_end from) from
  unfolding prorate
  prorate-IsWithin wage month_start month_end from h =
      let whole = (days from == days month_start) && (days last == days month_end) in
      elim (Bool-cases whole) [
        | inl e ↦ record {
          from_first = refl;
          days_counted = omega (arith, counted);
          not_negative = rw e (money-IsNonneg D wage h);
          capped = rw e (D.le_refl _);
        }
        | inr e ↦ record {
          from_first = refl;
          days_counted = omega (arith, counted);
          not_negative = rw e (
              min_d-IsNonneg D _ _
                (money-IsNonneg D _
                  (D.mul_nonneg _ _ (daily_wage-IsNonneg D wage week h) (D.of_nat_nonneg _)))
                (money-IsNonneg D wage h));
          capped = rw e (min_d-le D _ _);
        }
      ]
    where
      counted :
          count_working_days C week last (suc (days last - days from)) from
          ≤ suc (days last) - days from
      counted = count_working_days-le C week last _ from

  month_of :
      year last < last_year
      → (s : NaiveDate) × (e : NaiveDate) × (C.with_day last 1 ≡ some s)
        × ((C.checked_add_months s 1 >>= C.pred_opt) ≡ some e)
        × (days s ≤ days last)
  month_of early = elim (Option-cases (C.with_day last 1)) [
    | inl absent ↦ absurd (C.first_ne_none last absent)
    | inr (s, at_s) ↦ elim (Option-cases (C.checked_add_months s 1)) [
      | inl absent ↦
          absurd (C.next_month_ne_none s (omega (arith, C.year_first last s at_s)) absent)
      | inr (n, at_n) ↦ elim (Option-cases (C.pred_opt n)) [
        | inl absent ↦ absurd (C.pred_ne_none s n (C.next_month_lt s n at_n) absent)
        | inr (e, at_e) ↦ (s, e, at_s, rw at_n at_e, C.first_le last s at_s)
      ]
    ]
  ]

  -- Overflow of a product aside, from a join date up to the last working day, and in every year but
  -- the calendar's last, the pay of the final month is computed: from a day of the service on, for no more working days than
  -- there are days, and at an amount between zero and the rounded monthly wage.
  pub last_pay-IsWithin :
      (join : NaiveDate) (wage : Decimal)
      → days join ≤ days last
      → year last < last_year
      → IsNonneg D wage
      → (p : LastPay NaiveDate Decimal) × (first : NaiveDate) × (last_pay C D join last wage week
          ≡ some p)
        × IsWithin wage p first
        × (days join ≤ days first)
        × (days first ≤ days last)
  unfolding last_pay
  last_pay-IsWithin join wage ordered early nonneg =
      let (s, e, at_s, at_e, start) = month_of early in
      (
        prorate C D last wage week s e (max_date C join s),
        max_date C join s,
        rw (le→leb _ _ ordered, at_s, at_e),
        prorate-IsWithin wage s e (max_date C join s) nonneg,
        max_date_ge join s,
        max_date_le C join s last ordered start,
      )
    where
      max_date_ge : (a b : NaiveDate) → days a ≤ days (max_date C a b)
      max_date_ge a b = elim (Bool-cases (le_date C a b)) [
        | inl q ↦ rw q (leb→le _ _ q)
        | inr q ↦ rw q (omega arith)
      ]
