-- ===== src/Examples/Runs.antt =====
-- The settlement and the statutory set, computed on the concrete data.
use backbone_lifecycle.Prelude.{ℕ, Bool, true, ok, some, ◌≡◌, refl, ◌==◌, ==_refl}
use backbone_lifecycle.Store.{cleared}
use backbone_lifecycle.Store.Effects.{AccountingPostEnvelope}
use backbone_lifecycle.FinalSettlement.{
  GlPostAck, GlPostSink, SettlementAccounts, confirm, envelope_of, lines_of,
}
use backbone_lifecycle.FinalSettlement.Posting.{IsBalanced, debits_from, credits_from}
use backbone_lifecycle.Crates.Decimals
use backbone_lifecycle.Pesangon.Reason.{display, retirement, end_of_contract}
use backbone_lifecycle.Pesangon.Basis.{severance_basis, severance_country}
use backbone_lifecycle.Pesangon.Params
use backbone_lifecycle.Pesangon.Tenure
use backbone_lifecycle.Pesangon.LastPay
use backbone_lifecycle.Pesangon.Compute
use backbone_lifecycle.Pesangon.Compute.{compute_settlement}
use backbone_lifecycle.Settlement.Statutory.{
  severance_params_as_of, scale_as_of, effective_at, set_of, max_effective, values_of, insert_band,
  order_bands, collect,
}
use backbone_lifecycle.Examples.Dates.{date_of}
use backbone_lifecycle.Examples.Gregorian.{Gregorian}
use backbone_lifecycle.Examples.Fixed.{Fixed}
use backbone_lifecycle.Examples.Data.{
  leaver, statute, settings, joined, left, found_statute, never_came, retired, ended_term,
  not_started, statutory_tables, tables, world,
}

pub retirement_run :
    compute_settlement Gregorian Fixed (leaver retirement joined) statute settings
    ≡ some (ok retired)
unfolding compute_settlement Compute.settle Compute.breakdown Compute.leaver_items
    Compute.case_params Compute.compute_with_tenure LastPay.work_days LastPay.daily_divisor
    Tenure.tenure_years Tenure.completed_years Tenure.anniversary date_of LastPay.last_pay
    LastPay.prorate LastPay.daily_wage LastPay.count_working_days LastPay.from_days
    LastPay.is_working_day Decimals.money severance_basis display Params.scale_months
    Params.pesangon_months Params.upmk_months Params.effective_from LastPay.last_pay_fits
retirement_run = refl

pub ended_run :
    compute_settlement Gregorian Fixed (leaver end_of_contract joined) statute settings
    ≡ some (ok ended_term)
unfolding compute_settlement Compute.settle Compute.breakdown Compute.leaver_items
    Compute.case_params Compute.compute_with_tenure LastPay.work_days LastPay.daily_divisor
    Tenure.tenure_years Tenure.completed_years Tenure.anniversary date_of LastPay.last_pay
    LastPay.prorate LastPay.daily_wage LastPay.count_working_days LastPay.from_days
    LastPay.is_working_day Decimals.money severance_basis display Params.scale_months
    Params.pesangon_months Params.upmk_months Params.effective_from LastPay.last_pay_fits
ended_run = refl

pub not_started_run :
    compute_settlement Gregorian Fixed (leaver retirement never_came) statute settings
    ≡ some (ok not_started)
unfolding compute_settlement Compute.settle Compute.breakdown Compute.leaver_items
    Compute.case_params Compute.compute_with_tenure LastPay.work_days LastPay.daily_divisor
    Tenure.tenure_years Tenure.completed_years Tenure.anniversary date_of LastPay.last_pay
    LastPay.prorate LastPay.daily_wage LastPay.count_working_days LastPay.from_days
    LastPay.is_working_day Decimals.money severance_basis display Params.scale_months
    Params.pesangon_months Params.upmk_months Params.effective_from LastPay.last_pay_fits
not_started_run = refl

pub checked_run : Params.check left statute ≡ ok statute
unfolding Params.check Params.check_scale Params.check_cases
checked_run = refl

pub statute_run :
    severance_params_as_of Gregorian severance_country statutory_tables left ≡ ok found_statute
unfolding severance_params_as_of Params.check Params.check_scale Params.check_cases scale_as_of
    insert_band order_bands collect effective_at set_of max_effective values_of
statute_run = refl

-- A test of balance, and a ledger that acknowledges.
abbrev pub balances : AccountingPostEnvelope ℕ → Bool
balances e = debits_from Fixed 0 e.lines == credits_from Fixed 0 e.lines

pub balances_balanced :
    (e : AccountingPostEnvelope ℕ) → IsBalanced Fixed e.lines → balances e ≡ true
balances_balanced e h = rw h (==_refl (credits_from Fixed 0 e.lines))

abbrev pub ack : GlPostAck
ack = record { post_id = 90; journal_id = some 91 }

abbrev pub ledger : GlPostSink Gregorian Fixed
ledger sent envelope = ok ack

abbrev pub accounts : SettlementAccounts
accounts = record {
  severance_expense_account_id = 61;
  leave_encashment_expense_account_id = 62;
  employee_payable_account_id = 63;
}

pub confirm_run :
    (confirm Gregorian Fixed balances ledger (some 1) 21 accounts (world (tables cleared))).0
    ≡ ok (some ack)
unfolding confirm envelope_of lines_of
confirm_run = refl
