-- ===== src/Pesangon/Compute/Total.antt =====
-- When the settlement is computed, and when it is refused.
use backbone_lifecycle.Prelude.{
  ◌+◌, ◌<◌, String, true, false, ◌≡◌, ◌≢◌, refl, Option, none, some, Result, ok, err, and_then,
  is_some, arith, leb→le, inl, inr, ◌⊎◌, Bool-cases, Option-cases,
}
use backbone_lifecycle.Crates.Decimals.{Decimals, IsNonneg, max_d-IsNonneg}
use backbone_lifecycle.Crates.Calendar.{Calendar, le_date}
use backbone_lifecycle.Pesangon.Reason.{OffboardingReason-discrete, termination}
use backbone_lifecycle.Pesangon.Basis.{
  PesangonError, SeveranceBasis, case, fixed_term_end, severance_basis, statutory_cases,
  unspecific_reason,
}
use backbone_lifecycle.Pesangon.Basis.Cases.{All-listed, Settles, severance_basis-Settles}
use backbone_lifecycle.Pesangon.Params.{SeveranceParams, ReasonParams, get, check}
use backbone_lifecycle.Pesangon.Params.Checked.{IsComplete, check_iff}
use backbone_lifecycle.Pesangon.Tenure.{tenure_years}
use backbone_lifecycle.Pesangon.Tenure.Completed.{tenure_years-IsServiceYear}
use backbone_lifecycle.Pesangon.LastPay.{WorkWeek, LastPay, last_pay}
use backbone_lifecycle.Pesangon.LastPay.Bounds.{last_pay-IsWithin}
use backbone_lifecycle.Pesangon.Compute.Steps.{
  chosen_case, pay_of_last_month, compute_of_Steps, compute_refused, compute_overflow,
}
use backbone_lifecycle.Pesangon.Compute.{
  SettlementInputs, SettlementBreakdown, SeveranceSettings, case_params, breakdown, amounts_fit,
  compute_settlement,
}

module _ (C : Calendar) (D : Decimals) where
  open C use {NaiveDate, days, year, last_year}
  open D use {Decimal, zero_d}

  -- The years of service are computed for every pair of dates before the calendar's last two years.
  tenure_years_total :
      (join last : NaiveDate)
      → year last + 1 < last_year
      → (t : Decimal) × (tenure_years C D join last ≡ some t)
  unfolding tenure_years
  tenure_years_total join last early = elim (Bool-cases (le_date C join last)) [
    | inl e ↦
        let (t, value, _, _) = tenure_years-IsServiceYear C D join last (leb→le _ _ e) early in
        (t, value)
    | inr e ↦ (zero_d, rw e)
  ]

  last_pay_total :
      (join last : NaiveDate) (wage : Decimal) (week : WorkWeek)
      → year last + 1 < last_year
      → IsNonneg D wage
      → (p : LastPay NaiveDate Decimal) × (last_pay C D join last wage week ≡ some p)
  unfolding last_pay
  last_pay_total join last wage week early nonneg = elim (Bool-cases (le_date C join last)) [
    | inl e ↦
        let (p, _, value, _, _, _) =
          last_pay-IsWithin C D week last join wage (leb→le _ _ e) (omega arith) nonneg in
        (p, value)
    | inr e ↦ (record { amount = zero_d; from = none; working_days = 0 }, rw e)
  ]

module _ (C : Calendar) (D : Decimals) where
  open C use {NaiveDate, days, year, last_year}
  open D use {Decimal, zero_d}

  -- With a complete set every settled reason has its parameters.
  case_params_total :
      (inputs : SettlementInputs NaiveDate Decimal) (params : SeveranceParams NaiveDate Decimal)
      → IsComplete params
      → inputs.reason ≢ termination
      → (chosen : Option String × Option (ReasonParams Decimal)) × (and_then
            (severance_basis inputs.reason)
            (case_params C D inputs params)
          ≡ ok chosen)
  unfolding case_params
  case_params_total inputs params whole specific =
      go (severance_basis inputs.reason) (severance_basis-Settles NaiveDate inputs.reason)
    where
      go :
          (b : Result (PesangonError NaiveDate) SeveranceBasis)
          → Settles inputs.reason b
          → (chosen : Option String × Option (ReasonParams Decimal)) × (and_then b
                (case_params C D inputs params)
              ≡ ok chosen)
      go (err e) s = absurd (specific s.0)
      go (ok fixed_term_end) s = ((none, none), refl)
      go (ok (case c)) s = elim (Option-cases (get c params.reasons)) [
        | inr (p, e) ↦ ((some c, some p), rw e)
        | inl absent ↦ absurd (
            ground (
              arith,
              All-listed (λ d. is_some (get d params.reasons) ≡ true) c statutory_cases whole.cases
                  s.0,
            ))
      ]

  -- A settlement that came out, or the panic of an amount that overflows: which one is decided by
  -- the amounts for the years of service and the statutory case.
  pub record IsSettled (inputs : SettlementInputs NaiveDate Decimal)
      (params : SeveranceParams NaiveDate Decimal) (settings : SeveranceSettings Decimal)
      : Type 0 where
    pub tenure : Decimal
    pub chosen : Option String × Option (ReasonParams Decimal)
    pub tenure_at : tenure_years C D inputs.join_date inputs.last_working_day ≡ some tenure
    pub chosen_at : chosen_case C D inputs params settings ≡ ok chosen
    pub settled :
        ((amounts_fit C D inputs tenure params settings chosen.1 ≡ true)
          × ((b : SettlementBreakdown NaiveDate Decimal) × (compute_settlement C D inputs params
                  settings
                ≡ some (ok b))))
        ⊎ ((amounts_fit C D inputs tenure params settings chosen.1 ≡ false)
            × (compute_settlement C D inputs params settings ≡ none))

  -- With a set that `check` accepts, and before the calendar's last two years, `termination` is
  -- refused, and for every other reason the years of service, the statutory case and the last pay
  -- are there, and the settlement is computed exactly when none of its products and sums overflows
  -- 96 bits; one that does is the only panic.
  pub compute_settlement_total :
      (inputs : SettlementInputs NaiveDate Decimal)
      (params accepted : SeveranceParams NaiveDate Decimal) (settings : SeveranceSettings Decimal)
      (as_of : NaiveDate)
      → check as_of params ≡ ok accepted
      → year inputs.last_working_day + 1 < last_year
      → ((inputs.reason ≡ termination)
          × (compute_settlement C D inputs accepted settings
              ≡ some (err (unspecific_reason "termination"))))
        ⊎ ((inputs.reason ≢ termination) × IsSettled inputs accepted settings)
  compute_settlement_total inputs params accepted settings as_of checked early =
      elim (OffboardingReason-discrete inputs.reason termination) [
        | yes e ↦ inl (e, compute_refused C D inputs accepted settings (tenure.1) (refused e))
        | no n ↦
            let (chosen, at_c) = case_params_total inputs accepted complete n in
            inr (
              n,
              record {
                tenure = tenure.0;
                chosen = chosen;
                tenure_at = tenure.1;
                chosen_at = at_c;
                settled = outcome chosen at_c;
              },
            )
      ]
    where
      complete : IsComplete accepted
      complete = let (same, whole) = (check_iff as_of params accepted).0 checked in rw same at whole

      tenure : (t : Decimal) × (tenure_years C D inputs.join_date inputs.last_working_day ≡ some t)
      tenure = tenure_years_total C D inputs.join_date inputs.last_working_day early

      last :
          (p : LastPay NaiveDate Decimal) × (pay_of_last_month C D inputs accepted settings
            ≡ some p)
      last =
          last_pay_total C D inputs.join_date inputs.last_working_day _ settings.work_week early
            (max_d-IsNonneg D inputs.monthly_wage)

      refused :
          inputs.reason ≡ termination
          → chosen_case C D inputs accepted settings ≡ err (unspecific_reason "termination")
      refused e = rw e (unfold severance_basis in refl)

      outcome :
          (chosen : Option String × Option (ReasonParams Decimal))
          → chosen_case C D inputs accepted settings ≡ ok chosen
          → ((amounts_fit C D inputs tenure.0 accepted settings chosen.1 ≡ true)
              × ((b : SettlementBreakdown NaiveDate Decimal) × (compute_settlement C D inputs
                      accepted settings
                    ≡ some (ok b))))
            ⊎ ((amounts_fit C D inputs tenure.0 accepted settings chosen.1 ≡ false)
                × (compute_settlement C D inputs accepted settings ≡ none))
      outcome chosen at_c =
          elim (Bool-cases (amounts_fit C D inputs tenure.0 accepted settings chosen.1)) [
            | inl f ↦ inl (
              f,
              (
                breakdown C D inputs tenure.0 accepted settings chosen last.0,
                compute_of_Steps C D inputs accepted settings (record {
                  tenure = tenure.0;
                  chosen = chosen;
                  last = last.0;
                  tenure_at = tenure.1;
                  chosen_at = at_c;
                  last_at = last.1;
                  fit = f;
                  result = refl;
                }),
              ),
            )
            | inr f ↦ inr (
              f,
              compute_overflow C D inputs accepted settings {t = tenure.0} {chosen = chosen}
                  {last = last.0} tenure.1 at_c last.1 f,
            )
          ]
