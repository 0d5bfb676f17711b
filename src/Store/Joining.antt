-- ===== src/Store/Joining.antt =====
-- The tables of src/migrations/ on which an employee's journey in and up is kept: onboardings with
-- their tasks and templates, and promotions.
use backbone_lifecycle.Prelude.{ℕ, String, Bool, Option}
use backbone_lifecycle.Crates.Decimals.{Decimals}
use backbone_lifecycle.Crates.Calendar.{Calendar}

pub data OnboardingStatus : Type 0 where
  pending in_progress completed abandoned : OnboardingStatus

pub data TaskStatus : Type 0 where
  pending done skipped blocked : TaskStatus

pub data TaskCategory : Type 0 where
  document equipment account_access policy_ack induction : TaskCategory

pub data PromotionStatus : Type 0 where
  draft pending approved rejected effective cancelled : PromotionStatus

pub data PromotionType : Type 0 where
  promotion transfer demotion lateral : PromotionType

-- An integer number of days, `due_day_offset`.
pub data DayOffset : Type 0 where
  after before : ℕ → DayOffset

pub record OnboardingTemplate : Type 0 where
  pub id : ℕ
  pub is_default : Bool
  pub is_active : Bool
  pub deleted : Bool

pub record OnboardingTemplateTask : Type 0 where
  pub template_id : ℕ
  pub title : String
  pub category : Option String
  pub due_day_offset : DayOffset
  pub deleted : Bool

module _ (C : Calendar) where
  open C use {NaiveDate, DateTime}

  pub record Onboarding : Type 0 where
    pub id : ℕ
    pub employee_id : ℕ
    pub start_date : NaiveDate
    pub status : OnboardingStatus
    pub completed_at : Option DateTime
    pub probation_end_date : Option NaiveDate
    pub confirmed_at : Option DateTime
    pub template_id : Option ℕ

  -- The resolution is kept in the row's metadata: what, when and by whom.
  pub record OnboardingTask : Type 0 where
    pub id : ℕ
    pub onboarding_id : ℕ
    pub title : String
    pub category : Option TaskCategory
    pub owner_employee_id : Option ℕ
    pub due_date : Option NaiveDate
    pub status : TaskStatus
    pub resolution : Option (TaskStatus × DateTime × Option ℕ)
    pub deleted : Bool

module _ (C : Calendar) (D : Decimals) where
  open C use {NaiveDate}
  open D use {Decimal}

  pub record Promotion : Type 0 where
    pub id : ℕ
    pub employee_id : ℕ
    pub promotion_type : PromotionType
    pub position_id_from : Option ℕ
    pub position_id_to : Option ℕ
    pub level_id_from : Option ℕ
    pub level_id_to : Option ℕ
    pub department_id_from : Option ℕ
    pub department_id_to : Option ℕ
    pub proposed_salary : Option Decimal
    pub effective_date : NaiveDate
    pub status : PromotionStatus
    pub requested_by : Option ℕ
    pub approved_by : Option ℕ
    pub reason : Option String
    pub appraisal_id : Option ℕ
    pub appraisal_rating : Option Decimal
    pub approval_request_id : Option ℕ
