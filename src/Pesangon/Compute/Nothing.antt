-- ===== src/Pesangon/Compute/Nothing.antt =====
-- The leavers who are owed nothing, or the leave payout alone.
use mathlib.Core.Path.{subst, ap₂}
use backbone_lifecycle.Prelude.{
  ◌<◌, String, Bool, true, false, ◌≡◌, refl, ap, ◌∙◌, Option, none, some, ok, arith,
}
use backbone_lifecycle.Crates.Decimals.{Decimals, money, money_zero, money-money, max_d}
use backbone_lifecycle.Crates.Calendar.{Calendar, le_date}
use backbone_lifecycle.Pesangon.Reason.{end_of_contract}
use backbone_lifecycle.Pesangon.Basis.{severance_basis, fixed_term_end_basis}
use backbone_lifecycle.Pesangon.Params.{SeveranceParams, ReasonParams}
use backbone_lifecycle.Pesangon.Tenure.{completed_years}
use backbone_lifecycle.Pesangon.LastPay.{LastPay, last_pay}
use backbone_lifecycle.Pesangon.Compute.{
  SettlementInputs, SettlementBreakdown, SeveranceSettings, case_params, leaver_items, breakdown,
  compute_settlement,
}
use backbone_lifecycle.Pesangon.Compute.Steps.{Steps-of_compute, chosen_case}

-- Nothing is owed.
pub record IsNothing (D : Decimals) {Date : Type 0} (b : SettlementBreakdown Date D.Decimal)
    : Type 0 where
  pub not_started : b.started ≡ false
  pub no_tenure : b.tenure_years ≡ D.zero_d
  pub no_years : b.service_years ≡ 0
  pub no_pesangon : b.uang_pesangon ≡ D.zero_d
  pub no_upmk : b.upmk ≡ D.zero_d
  pub no_pisah : b.uang_pisah ≡ D.zero_d
  pub no_payout : b.unused_leave_payout ≡ D.zero_d
  pub no_last_pay : b.last_pay ≡ D.zero_d
  pub no_paid_days : b.last_pay_working_days ≡ 0
  pub no_net : b.net_payable ≡ D.zero_d

module _ (D : Decimals) where
  open D use {Decimal, zero_d, add, mul}

  money_zero_sum : money D (add zero_d zero_d) ≡ zero_d
  money_zero_sum = rw (D.zero_add zero_d, money_zero D)

  completed_years_zero : completed_years D zero_d ≡ 0
  unfolding completed_years
  completed_years_zero = rw (D.le_refl zero_d, D.to_u32_zero)

module _ (C : Calendar) (D : Decimals) (inputs : SettlementInputs C.NaiveDate D.Decimal)
    (params : SeveranceParams C.NaiveDate D.Decimal) (settings : SeveranceSettings D.Decimal) where
  open C use {NaiveDate, days}
  open D use {Decimal, zero_d, add, mul}

  breakdown-IsNothing :
      (t : Decimal) (chosen : Option String × Option (ReasonParams Decimal))
      → le_date C inputs.join_date inputs.last_working_day ≡ false
      → IsNothing D (
          breakdown C D inputs t params settings chosen
            (record { amount = zero_d; from = none; working_days = 0 }))
  unfolding breakdown leaver_items
  breakdown-IsNothing t (c, p) late = record {
    not_started = late;
    no_tenure = rw late;
    no_years = rw late (completed_years_zero D);
    no_pesangon = rw late;
    no_upmk = rw late;
    no_pisah = rw late;
    no_payout = rw (late, D.mul_zero, money_zero D);
    no_last_pay = refl;
    no_paid_days = refl;
    no_net = rw (
      late,
      D.mul_zero,
      money_zero D,
      D.zero_add zero_d,
      D.zero_add zero_d,
      money_zero D,
      money_zero_sum D,
    );
  }

  last_pay_late :
      (wage : Decimal)
      → le_date C inputs.join_date inputs.last_working_day ≡ false
      → last_pay C D inputs.join_date inputs.last_working_day wage settings.work_week
        ≡ some (record { amount = zero_d; from = none; working_days = 0 })
  unfolding last_pay
  last_pay_late wage late = rw late

  -- Whatever the reason, the leave balance and the company's settings, the settlement of someone
  -- who was to join after the last working day is zero in every item, the last pay among them.
  pub never_started-IsNothing :
      {b : SettlementBreakdown NaiveDate Decimal}
      → days inputs.last_working_day < days inputs.join_date
      → compute_settlement C D inputs params settings ≡ some (ok b)
      → IsNothing D b
  never_started-IsNothing {b} late h =
      let s = Steps-of_compute C D inputs params settings h in
      let after : le_date C inputs.join_date inputs.last_working_day ≡ false = ground arith in
      let zero_pay : record { amount = zero_d; from = none; working_days = 0 } ≡ s.last =
        cc (s.last_at, last_pay_late (max_d D inputs.monthly_wage zero_d) after) in
      let none_owed =
        subst (λ l. IsNothing D (breakdown C D inputs s.tenure params settings s.chosen l)) zero_pay
          (breakdown-IsNothing s.tenure s.chosen after) in
      subst (IsNothing D) s.result none_owed

  chosen_fixed_term :
      inputs.reason ≡ end_of_contract → chosen_case C D inputs params settings ≡ ok (none, none)
  unfolding severance_basis case_params
  chosen_fixed_term e = rw e

  -- Nothing but the leave payout is owed.
  record IsLeaveOnly (b : SettlementBreakdown NaiveDate Decimal) : Type 0 where
    no_case : b.severance_case ≡ none
    basis : b.legal_basis ≡ fixed_term_end_basis
    pesangon_zero : b.uang_pesangon ≡ zero_d
    upmk_zero : b.upmk ≡ zero_d
    pisah_zero : b.uang_pisah ≡ zero_d
    total_zero : b.severance_total ≡ zero_d
    net_payout : b.net_payable ≡ b.unused_leave_payout

  leaver_items-none :
      (started : Bool) (m n w : Decimal)
      → let items = leaver_items C D started inputs settings none m n w in
        (items.0 ≡ zero_d) × (items.1 ≡ zero_d) × (items.2 ≡ zero_d)
  unfolding leaver_items
  leaver_items-none true m n w =
      (rw (D.mul_zero, D.zero_mul, money_zero D), rw (D.mul_zero, D.zero_mul, money_zero D), refl)
  leaver_items-none false m n w = (refl, refl, refl)

  breakdown-IsLeaveOnly :
      (t : Decimal) (last : LastPay NaiveDate Decimal)
      → IsLeaveOnly (breakdown C D inputs t params settings (none, none) last)
  unfolding breakdown
  breakdown-IsLeaveOnly t last =
      let (pesangon, upmk, pisah) =
        leaver_items-none (le_date C inputs.join_date inputs.last_working_day) _ _ _ in
      let total = ap (money D) (ap₂ add (ap₂ add pesangon upmk) pisah) ∙ zero_sum in
      record {
        no_case = refl;
        basis = refl;
        pesangon_zero = pesangon;
        upmk_zero = upmk;
        pisah_zero = pisah;
        total_zero = total;
        net_payout = payout_only _ _ total;
      }
    where
      zero_sum : money D (add (add zero_d zero_d) zero_d) ≡ zero_d
      zero_sum = rw D.add_zero (money_zero_sum D)

      payout_only :
          (total raw : Decimal) → total ≡ zero_d → money D (add total (money D raw)) ≡ money D raw
      payout_only total raw e = rw (e, D.zero_add, money-money D raw)

  -- A fixed-term contract that reached its end pays the unused leave and nothing else.
  pub fixed_term_end-leave_only :
      {b : SettlementBreakdown NaiveDate Decimal}
      → inputs.reason ≡ end_of_contract
      → compute_settlement C D inputs params settings ≡ some (ok b)
      → (b.severance_case ≡ none)
        × (b.legal_basis ≡ fixed_term_end_basis)
        × (b.severance_total ≡ zero_d)
        × (b.net_payable ≡ b.unused_leave_payout)
  fixed_term_end-leave_only {b} e h =
      let s = Steps-of_compute C D inputs params settings h in
      let same : (none, none) ≡ s.chosen = cc (s.chosen_at, chosen_fixed_term e) in
      let leave_only : IsLeaveOnly b = subst IsLeaveOnly s.result (
        subst (λ c. IsLeaveOnly (breakdown C D inputs s.tenure params settings c s.last)) same
          (breakdown-IsLeaveOnly s.tenure s.last)) in
      (leave_only.no_case, leave_only.basis, leave_only.total_zero, leave_only.net_payout)
