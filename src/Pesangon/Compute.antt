-- ===== src/Pesangon/Compute.antt =====
-- src/application/service/pesangon.rs: the settlement. `none` is a panic of the years of service or
-- of the last pay; an error is a value.
pub mod Total
pub mod Items
pub mod Steps
pub mod Nothing
pub mod Nonneg
use Prim.Native.String.{◌++◌}
use backbone_lifecycle.Prelude.{
  ℕ, List, [], ◌∷◌, String, Bool, true, false, not, ◌&&◌, ◌||◌, Option, none, some, Result, ok, err,
  and_then, ok_or, map_err, if◌then◌else◌,
}
use backbone_lifecycle.Prelude.Options.{◌>>=◌}
use backbone_lifecycle.Crates.Decimals.{Decimals, money, max_d}
use backbone_lifecycle.Crates.Calendar.{Calendar, le_date}
use backbone_lifecycle.Pesangon.Reason.{OffboardingReason}
use backbone_lifecycle.Pesangon.Basis.{
  PesangonError, incomplete_statutory_params, severance_country, SeveranceBasis, case,
  fixed_term_end, fixed_term_end_basis, severance_basis,
}
use backbone_lifecycle.Pesangon.Params.{
  ReasonParams, SeveranceParams, get, pesangon_months, upmk_months, effective_from,
}
use backbone_lifecycle.Pesangon.Tenure.{tenure_years, completed_years}
use backbone_lifecycle.Pesangon.LastPay.{
  WorkWeek, five_day, work_days, LastPay, daily_wage, last_pay, last_pay_fits,
}

pub record SeveranceSettings (Decimal : Type 0) : Type 0 where
  pub uang_pisah_months : Decimal
  pub work_week : WorkWeek
  pub leave_type_codes : List String

pub record SettlementInputs (Date Decimal : Type 0) : Type 0 where
  pub reason : OffboardingReason
  pub join_date : Date
  pub last_working_day : Date
  pub monthly_wage : Decimal
  pub unused_leave_days : Decimal

pub record SettlementBreakdown (Date Decimal : Type 0) : Type 0 where
  pub severance_case : Option String
  pub legal_basis : String
  pub statutory_effective_from : Date
  pub started : Bool
  pub tenure_years : Decimal
  pub service_years : ℕ
  pub monthly_wage : Decimal
  pub daily_wage : Decimal
  pub work_days_per_week : ℕ
  pub pesangon_months : Decimal
  pub pesangon_multiplier : Decimal
  pub upmk_months : Decimal
  pub upmk_multiplier : Decimal
  pub uang_pesangon : Decimal
  pub upmk : Decimal
  pub uang_pisah : Decimal
  pub severance_total : Decimal
  pub unused_leave_days : Decimal
  pub unused_leave_payout : Decimal
  pub last_pay : Decimal
  pub last_pay_from : Option Date
  pub last_pay_working_days : ℕ
  pub last_pay_via_payroll : Bool
  pub net_payable : Decimal

-- The object that `to_event_payload` writes: the fields, and the names of earlier consumers.
pub record EventPayload (Date Decimal : Type 0) : Type 0 where
  pub fields : SettlementBreakdown Date Decimal
  pub pesangon : Decimal
  pub upm : Decimal
  pub total : Decimal

module _ (D : Decimals) where
  open D use {Decimal, zero_d}

  -- `Default`
  unfoldable pub default_settings : SeveranceSettings Decimal
  default_settings = record {
    uang_pisah_months = zero_d;
    work_week = five_day;
    leave_type_codes = "ANNUAL" ∷ [];
  }

  unfoldable pub to_event_payload :
      {Date : Type 0} → SettlementBreakdown Date Decimal → EventPayload Date Decimal
  to_event_payload b = record {
    fields = b;
    pesangon = b.uang_pesangon;
    upm = zero_d;
    total = b.net_payable;
  }

  -- The multipliers of a case, and whether it earns uang pisah.
  abbrev pub multipliers : Option (ReasonParams Decimal) → Decimal × Decimal × Bool
  multipliers (some p) = (p.pesangon_multiplier, p.upmk_multiplier, p.uang_pisah_eligible)
  multipliers none = (zero_d, zero_d, false)

  abbrev pub legal_basis_of : Option (ReasonParams Decimal) → String
  legal_basis_of (some p) = p.article
  legal_basis_of none = fixed_term_end_basis

module _ (C : Calendar) (D : Decimals) where
  open C use {NaiveDate}
  open D use {Decimal, zero_d, add, mul}

  -- The case and its parameters, for a basis.
  unfoldable pub case_params :
      SettlementInputs NaiveDate Decimal
      → SeveranceParams NaiveDate Decimal
      → SeveranceBasis
      → Result (PesangonError NaiveDate) (Option String × Option (ReasonParams Decimal))
  case_params inputs params fixed_term_end = ok (none, none)
  case_params inputs params (case code) =
      and_then
        (ok_or (get code params.reasons) (
          incomplete_statutory_params severance_country inputs.last_working_day
            ("no parameters for the case '" ++ code ++ "'")))
        λ p. ok (some code, some p)

  -- Uang pesangon, UPMK, uang pisah, and the days of unused leave; all zero for a leaver who never
  -- started.
  unfoldable pub leaver_items :
      (started : Bool)
      → SettlementInputs NaiveDate Decimal
      → SeveranceSettings Decimal
      → Option (ReasonParams Decimal)
      → (pesangon_months upmk_months monthly : Decimal) → Decimal × Decimal × Decimal × Decimal
  leaver_items started inputs settings p pesangon_months upmk_months monthly =
      let (pesangon_multiplier, upmk_multiplier, pisah_eligible) = multipliers D p in
      if started
      then (
        money D (mul (mul pesangon_months pesangon_multiplier) monthly),
        money D (mul (mul upmk_months upmk_multiplier) monthly),
        (if pisah_eligible
            then money D (mul (max_d D settings.uang_pisah_months zero_d) monthly)
            else zero_d),
        max_d D inputs.unused_leave_days zero_d,
      )
      else (zero_d, zero_d, zero_d, zero_d)

  -- The rest of `compute_with_tenure`, once the case is known and the last pay is computed.
  unfoldable pub breakdown :
      SettlementInputs NaiveDate Decimal
      → Decimal
      → SeveranceParams NaiveDate Decimal
      → SeveranceSettings Decimal
      → Option String × Option (ReasonParams Decimal)
      → LastPay NaiveDate Decimal
      → SettlementBreakdown NaiveDate Decimal
  breakdown inputs tenure₀ params settings (severance_case, p) last =
      let started = le_date C inputs.join_date inputs.last_working_day in
      let monthly = max_d D inputs.monthly_wage zero_d in
      let daily = daily_wage D monthly settings.work_week in
      let tenure = if started then max_d D tenure₀ zero_d else zero_d in
      let service_years = completed_years D tenure in
      let pes_months = pesangon_months D params service_years in
      let upm_months = upmk_months D params service_years in
      let items = leaver_items started inputs settings p pes_months upm_months monthly in
      let payout = money D (mul daily items.3) in
      let total = money D (add (add items.0 items.1) items.2) in
      record {
        severance_case = severance_case;
        legal_basis = legal_basis_of D p;
        statutory_effective_from = effective_from C params;
        started = started;
        tenure_years = tenure;
        service_years = service_years;
        monthly_wage = monthly;
        daily_wage = daily;
        work_days_per_week = work_days settings.work_week;
        pesangon_months = pes_months;
        pesangon_multiplier = (multipliers D p).0;
        upmk_months = upm_months;
        upmk_multiplier = (multipliers D p).1;
        uang_pesangon = items.0;
        upmk = items.1;
        uang_pisah = items.2;
        severance_total = total;
        unused_leave_days = items.3;
        unused_leave_payout = payout;
        last_pay = last.amount;
        last_pay_from = last.from;
        last_pay_working_days = last.working_days;
        last_pay_via_payroll = true;
        net_payable = money D (add total payout);
      }

  -- That no product of the items overflows.
  unfoldable pub items_fit :
      (started : Bool)
      → SettlementInputs NaiveDate Decimal
      → SeveranceSettings Decimal
      → Option (ReasonParams Decimal)
      → (pesangon_months upmk_months monthly : Decimal) → Bool
  items_fit started inputs settings p pesangon_months upmk_months monthly =
      let (pesangon_multiplier, upmk_multiplier, pisah_eligible) = multipliers D p in
      not started
      || (D.mul_fits pesangon_months pesangon_multiplier
          && D.mul_fits (mul pesangon_months pesangon_multiplier) monthly
          && D.mul_fits upmk_months upmk_multiplier
          && D.mul_fits (mul upmk_months upmk_multiplier) monthly
          && (not pisah_eligible || D.mul_fits (max_d D settings.uang_pisah_months zero_d) monthly))

  -- That nothing that a settlement computes overflows: the items, the leave payout, the two sums and
  -- the last pay. Quotients here do not, since the divisors are at least one.
  unfoldable pub amounts_fit :
      SettlementInputs NaiveDate Decimal
      → Decimal
      → SeveranceParams NaiveDate Decimal
      → SeveranceSettings Decimal
      → Option (ReasonParams Decimal)
      → Bool
  unfolding items_fit leaver_items
  amounts_fit inputs tenure₀ params settings p =
      let started = le_date C inputs.join_date inputs.last_working_day in
      let monthly = max_d D inputs.monthly_wage zero_d in
      let daily = daily_wage D monthly settings.work_week in
      let tenure = if started then max_d D tenure₀ zero_d else zero_d in
      let service_years = completed_years D tenure in
      let pes_months = pesangon_months D params service_years in
      let upm_months = upmk_months D params service_years in
      let items = leaver_items started inputs settings p pes_months upm_months monthly in
      let total = money D (add (add items.0 items.1) items.2) in
      items_fit started inputs settings p pes_months upm_months monthly
      && D.mul_fits daily items.3
      && D.add_fits items.0 items.1
      && D.add_fits (add items.0 items.1) items.2
      && D.add_fits total (money D (mul daily items.3))
      && last_pay_fits C D inputs.join_date inputs.last_working_day monthly settings.work_week

  -- The `?` on the case, the last pay and the result; an overflow is a panic.
  unfoldable pub settle :
      SettlementInputs NaiveDate Decimal
      → Decimal
      → SeveranceParams NaiveDate Decimal
      → SeveranceSettings Decimal
      → Result (PesangonError NaiveDate) (Option String × Option (ReasonParams Decimal))
      → Option (Result (PesangonError NaiveDate) (SettlementBreakdown NaiveDate Decimal))
  settle inputs tenure params settings (err e) = some (err e)
  settle inputs tenure params settings (ok chosen) = do
    let monthly = max_d D inputs.monthly_wage zero_d
    last ← last_pay C D inputs.join_date inputs.last_working_day monthly settings.work_week
    if amounts_fit inputs tenure params settings chosen.1
        then some (ok (breakdown inputs tenure params settings chosen last))
        else none

  unfoldable pub compute_with_tenure :
      SettlementInputs NaiveDate Decimal
      → Decimal
      → SeveranceParams NaiveDate Decimal
      → SeveranceSettings Decimal
      → Option (Result (PesangonError NaiveDate) (SettlementBreakdown NaiveDate Decimal))
  unfolding settle case_params breakdown leaver_items amounts_fit
  compute_with_tenure inputs tenure params settings =
      settle inputs tenure params settings
        (and_then (severance_basis inputs.reason) (case_params inputs params))

  unfoldable pub compute_settlement :
      SettlementInputs NaiveDate Decimal
      → SeveranceParams NaiveDate Decimal
      → SeveranceSettings Decimal
      → Option (Result (PesangonError NaiveDate) (SettlementBreakdown NaiveDate Decimal))
  unfolding compute_with_tenure
  compute_settlement inputs params settings = do
    tenure ← tenure_years C D inputs.join_date inputs.last_working_day
    compute_with_tenure inputs tenure params settings
