-- ===== src/Examples/Data.antt =====
-- Concrete data for the examples: a statutory set, an employee, a settlement.
use backbone_lifecycle.Prelude.{ℕ, List, [], ◌∷◌, String, true, false, none, some, ok, refl}
use backbone_lifecycle.Prelude.Verbs.{World}
use backbone_lifecycle.Pesangon.Reason.{OffboardingReason, retirement}
use backbone_lifecycle.Pesangon.Basis.{statutory_cases, severance_country, fixed_term_end_basis}
use backbone_lifecycle.Pesangon.Params.{TenureBand, ReasonParams, SeveranceParams}
use backbone_lifecycle.Pesangon.LastPay.{five_day}
use backbone_lifecycle.Pesangon.Compute.{SeveranceSettings, SettlementInputs, SettlementBreakdown}
use backbone_lifecycle.Settlement.Settings.{Sysparam}
use backbone_lifecycle.Settlement.Statutory.{Dated, StatutoryTables}
use backbone_lifecycle.Settlement.Assembly.{Sources}
use backbone_lifecycle.Store.{
  OffboardingStatus, decision_pending, Contract, draft, cleared_item, ClearanceItem, Offboarding,
  FinalSettlement, Tables,
}
use backbone_lifecycle.Store.Effects.{Effect, pkwt}
use backbone_lifecycle.Examples.Months.{jan, mar, jun, dec}
use backbone_lifecycle.Examples.Dates.{Date}
use backbone_lifecycle.Examples.Gregorian.{Gregorian}
use backbone_lifecycle.Examples.Fixed.{Fixed}

abbrev pub joined : Date
joined = record { year = 2015; month = mar; day = 2; valid = refl }

abbrev pub enacted : Date
enacted = record { year = 2021; month = jan; day = 2; valid = refl }

abbrev pub left : Date
left = record { year = 2024; month = jun; day = 14; valid = refl }

abbrev pub never_came : Date
never_came = record { year = 2024; month = dec; day = 1; valid = refl }

abbrev band : ℕ → ℕ → TenureBand ℕ
band years months = record { min_service_years = years; months = months }

abbrev pub pesangon_bands : List (TenureBand ℕ)
pesangon_bands = band 0 10000 ∷ band 1 20000 ∷ band 3 40000 ∷ band 8 90000 ∷ []

abbrev pub upmk_bands : List (TenureBand ℕ)
upmk_bands = band 0 0 ∷ band 3 20000 ∷ band 9 40000 ∷ []

abbrev pub once : ReasonParams ℕ
once = record {
  pesangon_multiplier = 17500;
  upmk_multiplier = 10000;
  uang_pisah_eligible = false;
  article = "Pasal 56";
}

abbrev pub each_case : List String → List (String × ReasonParams ℕ)
each_case [] = []
each_case (c ∷ cs) = (c, once) ∷ each_case cs

abbrev pub statute : SeveranceParams Date ℕ
statute = record {
  pesangon_scale = pesangon_bands;
  pesangon_effective_from = enacted;
  upmk_scale = upmk_bands;
  upmk_effective_from = enacted;
  reasons = each_case statutory_cases;
  reasons_effective_from = enacted;
}

abbrev pub settings : SeveranceSettings ℕ
settings = record { uang_pisah_months = 0; work_week = five_day; leave_type_codes = "ANNUAL" ∷ [] }

-- An employee who leaves for a reason, with a wage of 5,000,000 and three days of leave.
abbrev pub leaver : OffboardingReason → Date → SettlementInputs Date ℕ
leaver reason join = record {
  reason = reason;
  join_date = join;
  last_working_day = left;
  monthly_wage = 50000000000;
  unused_leave_days = 30000;
}

abbrev dated : {A : Type 0} → List A → List (Dated Date A)
dated [] = []
dated (x ∷ xs) =
    record { country_code = severance_country; effective_from = enacted; values = x } ∷ dated xs

abbrev pub statutory_tables : StatutoryTables Date ℕ
statutory_tables = record {
  severance_pesangon_scale = dated pesangon_bands;
  severance_upmk_scale = dated upmk_bands;
  severance_reason_params = dated (each_case statutory_cases);
}

-- The setting of the leave that is paid out.
abbrev pub leave_codes : Sysparam
leave_codes = record {
  group_name = "lifecycle.offboarding";
  key = "leave_payout.timeoff_type_codes";
  value = "ANNUAL, LONG_SERVICE";
  is_active = true;
}

abbrev pub sources : Sources Gregorian Fixed
sources = record {
  inputs = record {
    join_date = λ company employee. ok (some joined);
    current_monthly_salary = λ company employee. ok (some 50000000000);
    unused_leave_days = λ company employee codes last. ok 30000;
  };
  sysparams = some (leave_codes ∷ []);
  statutes = statutory_tables;
  to_lowercase = λ s. s;
}

abbrev pub offboarding : OffboardingStatus → Offboarding Gregorian Fixed
offboarding status = record {
  id = 7;
  employee_id = 3;
  reason = retirement;
  notice_date = left;
  last_working_day = left;
  status = status;
  final_settlement_id = none;
}

abbrev pub settlement : FinalSettlement Gregorian Fixed
settlement = record {
  id = 21;
  employee_id = 3;
  offboarding_id = 7;
  period = (2024, 6);
  base_pay = 23809524000;
  unused_leave_payout = some 7142857200;
  pesangon_amount = some 987500000000;
  tax_deduction = none;
  net_payable = 994642857200;
  status = draft;
  accounting_post_id = none;
  journal_id = none;
  uang_pesangon = 787500000000;
  upmk = 200000000000;
  uang_pisah = 0;
  monthly_wage = 50000000000;
  daily_wage = 2380952400;
  work_days_per_week = 5;
  unused_leave_days = 30000;
  tenure_years = 92876;
  legal_basis = "Pasal 56";
  statutory_effective_from = enacted;
  last_pay_via_payroll = true;
  deleted = false;
}

abbrev pub item : ClearanceItem
item = record {
  id = 1;
  offboarding_id = 7;
  title = "laptop";
  clearer_employee_id = none;
  status = cleared_item;
  deleted = false;
}

abbrev pub tables : OffboardingStatus → Tables Gregorian Fixed
tables status = record {
  offboardings = offboarding status ∷ [];
  clearance_items = item ∷ [];
  final_settlements = settlement ∷ [];
  contracts = [];
  discipline_records = [];
  onboardings = [];
  onboarding_tasks = [];
  onboarding_templates = [];
  onboarding_template_tasks = [];
  promotions = [];
  outbox_events = [];
}

abbrev pub empty_tables : Tables Gregorian Fixed
empty_tables = record {
  offboardings = [];
  clearance_items = [];
  final_settlements = [];
  contracts = [];
  discipline_records = [];
  onboardings = [];
  onboarding_tasks = [];
  onboarding_templates = [];
  onboarding_template_tasks = [];
  promotions = [];
  outbox_events = [];
}

abbrev pub world : Tables Gregorian Fixed → World (Tables Gregorian Fixed) (Effect Date ℕ)
world t = record { db = t; sent = [] }

abbrev pub june_first : Date
june_first = record { year = 2024; month = jun; day = 1; valid = refl }

-- The settlement of a retirement after nine completed years.
abbrev pub retired : SettlementBreakdown Date ℕ
retired = record {
  severance_case = some "retirement";
  legal_basis = "Pasal 56";
  statutory_effective_from = enacted;
  started = true;
  tenure_years = 92876;
  service_years = 9;
  monthly_wage = 50000000000;
  daily_wage = 2380952400;
  work_days_per_week = 5;
  pesangon_months = 90000;
  pesangon_multiplier = 17500;
  upmk_months = 40000;
  upmk_multiplier = 10000;
  uang_pesangon = 787500000000;
  upmk = 200000000000;
  uang_pisah = 0;
  severance_total = 987500000000;
  unused_leave_days = 30000;
  unused_leave_payout = 7142857200;
  last_pay = 23809524000;
  last_pay_from = some june_first;
  last_pay_working_days = 10;
  last_pay_via_payroll = true;
  net_payable = 994642857200;
}

-- The settlement of a fixed term that ended: the leave alone.
abbrev pub ended_term : SettlementBreakdown Date ℕ
ended_term = record retired {
  severance_case = none;
  legal_basis = fixed_term_end_basis;
  pesangon_multiplier = 0;
  upmk_multiplier = 0;
  uang_pesangon = 0;
  upmk = 0;
  severance_total = 0;
  net_payable = 7142857200;
}

-- The settlement of an employee who was to start after the last working day.
abbrev pub not_started : SettlementBreakdown Date ℕ
not_started = record retired {
  started = false;
  tenure_years = 0;
  service_years = 0;
  pesangon_months = 10000;
  upmk_months = 0;
  uang_pesangon = 0;
  upmk = 0;
  severance_total = 0;
  unused_leave_days = 0;
  unused_leave_payout = 0;
  last_pay = 0;
  last_pay_from = none;
  last_pay_working_days = 0;
  net_payable = 0;
}

abbrev pub reversed_onto : {A : Type 0} → List A → List A → List A
reversed_onto acc [] = acc
reversed_onto acc (x ∷ xs) = reversed_onto (x ∷ acc) xs

-- The statute as it is read back from the tables.
abbrev pub found_statute : SeveranceParams Date ℕ
found_statute = record statute { reasons = reversed_onto [] (each_case statutory_cases) }

-- A fixed term that ends in June 2024, with a decision on file.
abbrev pub contract : Contract Gregorian Fixed
contract = record {
  id = 5;
  employment_id = 2;
  employee_id = 3;
  contract_type = pkwt;
  start_date = joined;
  end_date = some left;
  status = decision_pending;
  previous_contract_id = none;
  cumulative_pkwt_months = 111;
  reminder_sent_at = none;
  deleted = false;
}
