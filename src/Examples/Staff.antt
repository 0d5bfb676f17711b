-- ===== src/Examples/Staff.antt =====
-- Concrete onboardings, promotions and warning letters for the examples.
use backbone_lifecycle.Prelude.{
  ℕ, ◌+◌, ◌≡◌, ◌==◌, if◌then◌else◌, arith, List, [], ◌∷◌, String, true, false, Option, none, some,
  Result, ok,
}
use backbone_lifecycle.Prelude.Verbs.{World}
use backbone_lifecycle.Store.{Tables}
use backbone_lifecycle.Store.Effects.{Effect, PromotionFiling, ContestFiling}
use backbone_lifecycle.Store.Joining.{DayOffset, after, OnboardingTemplate, OnboardingTemplateTask}
use backbone_lifecycle.Promotion.{PromotionVerdict, PromotionSeamError, NewPromotion}
use backbone_lifecycle.Onboarding.{NewOnboarding}
use backbone_lifecycle.Checkpoint.{ActivitySink, NewClearanceItem}
use backbone_lifecycle.Discipline.{NewDisciplineRecord}
use backbone_lifecycle.Routes.Handlers.{Environment}
use backbone_lifecycle.Examples.Dates.{Date}
use backbone_lifecycle.Examples.Gregorian.{Gregorian}
use backbone_lifecycle.Examples.Fixed.{Fixed}
use backbone_lifecycle.Examples.Runs.{balances, ledger}
use backbone_lifecycle.Examples.Data.{joined, left, never_came, sources, empty_tables}

abbrev pub State : Type 0
State = World (Tables Gregorian Fixed) (Effect Date ℕ)

-- An employee who is proposed for promotion.
abbrev pub proposal : NewPromotion Gregorian Fixed
proposal = record {
  employee_id = 3;
  promotion_type = some "promotion";
  position_id_from = some 1;
  position_id_to = some 2;
  level_id_from = none;
  level_id_to = none;
  department_id_from = none;
  department_id_to = none;
  proposed_salary = some 60000000000;
  effective_date = joined;
  requested_by = some 4;
  reason = none;
  appraisal_id = none;
}

-- An engine that answers every filing with request 90, and has granted that request alone.
abbrev pub files : List (Effect Date ℕ) → PromotionFiling Date → Result PromotionSeamError ℕ
files sent filing = ok 90

abbrev pub verdict : ℕ → Result PromotionSeamError PromotionVerdict
verdict n = if n == 90 then ok PromotionVerdict.approved else ok PromotionVerdict.pending

abbrev pub Granted : ℕ → Type 0
Granted n = n ≡ 90

pub verdict-Granted : (n : ℕ) → verdict n ≡ ok PromotionVerdict.approved → Granted n
verdict-Granted n h = ground arith

abbrev pub noon : Date × ℕ
noon = (left, 43200)

abbrev pub checklist : OnboardingTemplateTask
checklist = record {
  template_id = 11;
  title = "badge";
  category = some "equipment";
  due_day_offset = after 3;
  deleted = false;
}

abbrev pub template : OnboardingTemplate
template = record { id = 11; is_default = true; is_active = true; deleted = false }

abbrev pub hiring_tables : Tables Gregorian Fixed
hiring_tables = record empty_tables {
  onboarding_templates = template ∷ [];
  onboarding_template_tasks = checklist ∷ [];
}

abbrev pub hire : NewOnboarding Gregorian Fixed
hire = record {
  employee_id = 3;
  start_date = joined;
  probation_end_date = some left;
  template_id = none;
}

-- A sum that stays on the day.
abbrev pub date_sum : Date → DayOffset → Option Date
date_sum d offset = some d

abbrev pub ids : ℕ → ℕ
ids k = 60 + k

abbrev pub sink : ActivitySink Gregorian Fixed
sink = record { is_wired = true; schedule = λ sent command. ok 1 }

abbrev pub laptop : NewClearanceItem Gregorian Fixed
laptop = record {
  offboarding_id = 7;
  title = "laptop";
  clearer_employee_id = none;
  notify_user_id = some 4;
}

abbrev pub letter : NewDisciplineRecord Gregorian Fixed
letter = record {
  employee_id = 3;
  level = "sp1";
  offense = "late";
  description = "late five times";
  valid_until = (never_came, 0);
  served_disposition = "delivered";
  document_file_id = none;
  issued_by = some 4;
}

abbrev pub takes : List (Effect Date ℕ) → ContestFiling → Result String ℕ
takes sent filing = ok 91

abbrev pub environment : Environment Gregorian Fixed
environment = record {
  sources = sources;
  validation = none;
  filing = files;
  verdict = verdict;
  sink = sink;
  date_sum = date_sum;
  plus_days = λ t n. t;
  company = some 1;
  user = some 4;
  now = noon;
  id = 30;
  event_id = 41;
  ids = ids;
  is_balanced = balances;
  gl = ledger;
  contract_approvals = λ sent filing. ok 92;
}
