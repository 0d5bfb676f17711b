-- ===== src/Routes/Bodies.antt =====
-- The bodies of src/presentation/http/guarded_routes.rs, and what the handlers take from them.
use backbone_lifecycle.Prelude.{ℕ, String, not, Option, none, some, if◌then◌else◌}
use backbone_lifecycle.Prelude.Options.{◌>>=◌}
use backbone_lifecycle.Prelude.Texts.{trim, is_empty}
use backbone_lifecycle.Crates.Decimals.{Decimals}
use backbone_lifecycle.Crates.Calendar.{Calendar}
use backbone_lifecycle.Offboarding
use backbone_lifecycle.Promotion.{
  PromotionVerdict, PromotionSeamError, PromotionValidationPort, PromotionFilingPort,
}
use backbone_lifecycle.Promotion
use backbone_lifecycle.Onboarding
use backbone_lifecycle.Onboarding.{DateSum}
use backbone_lifecycle.Checkpoint
use backbone_lifecycle.Checkpoint.{ActivitySink}

-- `Some(t) if !t.trim().is_empty() => t`
abbrev pub title_of : Option String → Option String
title_of none = none
title_of (some t) = if not (is_empty (trim t)) then some t else none

module _ (C : Calendar) (D : Decimals) where
  open C use {NaiveDate, DateTime}
  open D use {Decimal}

  pub record CreateOnboardingBody : Type 0 where
    pub employee_id : Option ℕ
    pub start_date : Option NaiveDate
    pub probation_end_date : Option NaiveDate
    pub template_id : Option ℕ

  pub record CreatePromotionBody : Type 0 where
    pub employee_id : Option ℕ
    pub promotion_type : Option String
    pub position_id_from : Option ℕ
    pub position_id_to : Option ℕ
    pub level_id_from : Option ℕ
    pub level_id_to : Option ℕ
    pub department_id_from : Option ℕ
    pub department_id_to : Option ℕ
    pub proposed_salary : Option Decimal
    pub effective_date : Option NaiveDate
    pub requested_by : Option ℕ
    pub reason : Option String
    pub appraisal_id : Option ℕ

  pub record CreateOffboardingBody : Type 0 where
    pub employee_id : Option ℕ
    pub reason : Option String
    pub notice_date : Option NaiveDate
    pub last_working_day : Option NaiveDate

  pub record CreateTaskBody : Type 0 where
    pub title : Option String
    pub category : Option String
    pub owner_employee_id : Option ℕ
    pub due_date : Option NaiveDate
    pub notify_user_id : Option ℕ

  pub record CreateClearanceItemBody : Type 0 where
    pub title : Option String
    pub clearer_employee_id : Option ℕ
    pub notify_user_id : Option ℕ

  -- Less the columns that no verb reads.
  pub record CreateContractBody : Type 0 where
    pub employment_id : ℕ
    pub employee_id : ℕ
    pub contract_type : String
    pub start_date : NaiveDate
    pub end_date : Option NaiveDate

  pub record FileDecisionBody : Type 0 where
    pub outcome : String
    pub new_end_date : Option NaiveDate

  pub record IssueDisciplineBody : Type 0 where
    pub employee_id : ℕ
    pub level : String
    pub offense : String
    pub description : String
    pub valid_until : Option DateTime
    pub served_disposition : String
    pub document_file_id : Option ℕ

  -- The fields that are required; none is answered by 400. An absent body has no field.
  abbrev pub new_onboarding : Option CreateOnboardingBody → Option (Onboarding.NewOnboarding C D)
  new_onboarding body = do
    b ← body
    employee_id ← b.employee_id
    start_date ← b.start_date
    some (record {
      employee_id = employee_id;
      start_date = start_date;
      probation_end_date = b.probation_end_date;
      template_id = b.template_id;
    })

  abbrev pub new_promotion : Option CreatePromotionBody → Option (Promotion.NewPromotion C D)
  new_promotion body = do
    b ← body
    employee_id ← b.employee_id
    effective_date ← b.effective_date
    some (record {
      employee_id = employee_id;
      promotion_type = b.promotion_type;
      position_id_from = b.position_id_from;
      position_id_to = b.position_id_to;
      level_id_from = b.level_id_from;
      level_id_to = b.level_id_to;
      department_id_from = b.department_id_from;
      department_id_to = b.department_id_to;
      proposed_salary = b.proposed_salary;
      effective_date = effective_date;
      requested_by = b.requested_by;
      reason = b.reason;
      appraisal_id = b.appraisal_id;
    })

  abbrev pub new_offboarding :
      Option CreateOffboardingBody → Option (Offboarding.NewOffboarding C D)
  new_offboarding body = do
    b ← body
    employee_id ← b.employee_id
    notice_date ← b.notice_date
    last_working_day ← b.last_working_day
    some (record {
      employee_id = employee_id;
      reason = b.reason;
      notice_date = notice_date;
      last_working_day = last_working_day;
    })

  abbrev pub new_task : ℕ → Option CreateTaskBody → Option (Checkpoint.NewOnboardingTask C D)
  new_task onboarding_id body = do
    b ← body
    title ← title_of b.title
    some (record {
      onboarding_id = onboarding_id;
      title = title;
      category = b.category;
      owner_employee_id = b.owner_employee_id;
      due_date = b.due_date;
      notify_user_id = b.notify_user_id;
    })

  abbrev pub new_item :
      ℕ → Option CreateClearanceItemBody → Option (Checkpoint.NewClearanceItem C D)
  new_item offboarding_id body = do
    b ← body
    title ← title_of b.title
    some (record {
      offboarding_id = offboarding_id;
      title = title;
      clearer_employee_id = b.clearer_employee_id;
      notify_user_id = b.notify_user_id;
    })
