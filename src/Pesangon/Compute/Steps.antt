-- ===== src/Pesangon/Compute/Steps.antt =====
-- A settlement step by step: what each step gave, when a settlement comes out.
use backbone_lifecycle.Prelude.{
  String, ◌≡◌, refl, Option, some, Result, ok, err, and_then, arith, inl, inr, Option-cases,
  Bool-cases, true, false, none,
}
use backbone_lifecycle.Crates.Decimals.{Decimals, max_d}
use backbone_lifecycle.Crates.Calendar.{Calendar}
use backbone_lifecycle.Pesangon.Basis.{PesangonError, severance_basis}
use backbone_lifecycle.Pesangon.Params.{SeveranceParams, ReasonParams}
use backbone_lifecycle.Pesangon.Tenure.{tenure_years}
use backbone_lifecycle.Pesangon.LastPay.{LastPay, last_pay}
use backbone_lifecycle.Pesangon.Compute.{
  SettlementInputs, SettlementBreakdown, SeveranceSettings, case_params, breakdown, amounts_fit,
  settle, compute_settlement,
}

module _ (C : Calendar) (D : Decimals) (inputs : SettlementInputs C.NaiveDate D.Decimal)
    (params : SeveranceParams C.NaiveDate D.Decimal) (settings : SeveranceSettings D.Decimal) where
  open C use {NaiveDate}
  open D use {Decimal, zero_d}

  abbrev pub chosen_case :
      Result (PesangonError NaiveDate) (Option String × Option (ReasonParams Decimal))
  chosen_case = and_then (severance_basis inputs.reason) (case_params C D inputs params)

  abbrev pub pay_of_last_month : Option (LastPay NaiveDate Decimal)
  pay_of_last_month =
      last_pay C D inputs.join_date inputs.last_working_day (max_d D inputs.monthly_wage zero_d)
        settings.work_week

  -- What went into a settlement that came out.
  pub record Steps (b : SettlementBreakdown NaiveDate Decimal) : Type 0 where
    pub tenure : Decimal
    pub chosen : Option String × Option (ReasonParams Decimal)
    pub last : LastPay NaiveDate Decimal
    pub tenure_at : tenure_years C D inputs.join_date inputs.last_working_day ≡ some tenure
    pub chosen_at : chosen_case ≡ ok chosen
    pub last_at : pay_of_last_month ≡ some last
    pub fit : amounts_fit C D inputs tenure params settings chosen.1 ≡ true
    pub result : breakdown C D inputs tenure params settings chosen last ≡ b

  pub compute_of_Steps :
      {b : SettlementBreakdown NaiveDate Decimal}
      → Steps b
      → compute_settlement C D inputs params settings ≡ some (ok b)
  unfolding compute_settlement
  compute_of_Steps s = rw (s.tenure_at, s.chosen_at, s.last_at, s.fit, s.result)

  pub compute_refused :
      {t : Decimal} {e : PesangonError NaiveDate}
      → tenure_years C D inputs.join_date inputs.last_working_day ≡ some t
      → chosen_case ≡ err e
      → compute_settlement C D inputs params settings ≡ some (err e)
  unfolding compute_settlement
  compute_refused at_t refused = rw (at_t, refused)

  -- An amount that overflows is a panic.
  pub compute_overflow :
      {t : Decimal} {chosen : Option String × Option (ReasonParams Decimal)}
      {last : LastPay NaiveDate Decimal}
      → tenure_years C D inputs.join_date inputs.last_working_day ≡ some t
      → chosen_case ≡ ok chosen
      → pay_of_last_month ≡ some last
      → amounts_fit C D inputs t params settings chosen.1 ≡ false
      → compute_settlement C D inputs params settings ≡ none
  unfolding compute_settlement
  compute_overflow at_t at_c at_l over = rw (at_t, at_c, at_l, over)

  settle_inv :
      (t : Decimal)
      (r : Result (PesangonError NaiveDate) (Option String × Option (ReasonParams Decimal)))
      {b : SettlementBreakdown NaiveDate Decimal}
      → settle C D inputs t params settings r ≡ some (ok b)
      → (chosen : Option String × Option (ReasonParams Decimal)) × (last : LastPay NaiveDate
          Decimal)
        × (r ≡ ok chosen)
        × (pay_of_last_month ≡ some last)
        × (amounts_fit C D inputs t params settings chosen.1 ≡ true)
        × (breakdown C D inputs t params settings chosen last ≡ b)
  unfolding settle
  settle_inv t (err e) h = cc
  settle_inv t (ok chosen) h = elim (Option-cases pay_of_last_month) [
    | inl absent ↦ absurd (ground arith)
    | inr (last, e) ↦ elim (Bool-cases (amounts_fit C D inputs t params settings chosen.1)) [
      | inl f ↦ (chosen, last, refl, e, f, ground arith)
      | inr f ↦ absurd (cc (rw (e, f) at h))
    ]
  ]

  pub Steps-of_compute :
      {b : SettlementBreakdown NaiveDate Decimal}
      → compute_settlement C D inputs params settings ≡ some (ok b)
      → Steps b
  Steps-of_compute {b} h =
      elim (Option-cases (tenure_years C D inputs.join_date inputs.last_working_day)) [
        | inl absent ↦ absurd (unfold compute_settlement in ground arith)
        | inr (t, at_t) ↦
            let h' : settle C D inputs t params settings chosen_case ≡ some (ok b) =
              unfold compute_settlement in (rw at_t at h) in
            let (chosen, last, at_c, at_l, fit, same) = settle_inv t chosen_case h' in
            record {
              tenure = t;
              chosen = chosen;
              last = last;
              tenure_at = at_t;
              chosen_at = at_c;
              last_at = at_l;
              fit = fit;
              result = same;
            }
      ]
