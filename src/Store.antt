-- ===== src/Store.antt =====
-- The tables that the write services share (migrations/), as lists of rows, and what the services
-- send outside the database. Ids (uuid) are numbers; `deleted` is a soft delete, a `deleted_at` in
-- the row's metadata. Columns that no modelled statement reads or writes are left out.
pub mod Effects
pub mod Joining
pub mod Outbox
use backbone_lifecycle.Prelude.{ℕ, List, String, Bool, Option}
use backbone_lifecycle.Crates.Decimals.{Decimals}
use backbone_lifecycle.Crates.Calendar.{Calendar}
use backbone_lifecycle.Pesangon.Reason.{OffboardingReason}
use backbone_lifecycle.Pesangon.Compute.{EventPayload}
use Effects.{ContractType, DisciplineLevel}
use Joining.{Onboarding, OnboardingTask, OnboardingTemplate, OnboardingTemplateTask, Promotion}
use Outbox.{OutboxRow}

pub data OffboardingStatus : Type 0 where
  initiated in_progress cleared closed : OffboardingStatus

pub data ClearanceStatus : Type 0 where
  pending_item cleared_item blocked_item : ClearanceStatus

pub data SettlementStatus : Type 0 where
  draft confirmed paid disputed : SettlementStatus

pub data ContractStatus : Type 0 where
  active decision_pending superseded ended : ContractStatus

pub data DisciplineStatus : Type 0 where
  issued acknowledged acknowledged_pending contested cancelled : DisciplineStatus

pub data ServedDisposition : Type 0 where
  delivered witnessed_refusal : ServedDisposition

pub record ClearanceItem : Type 0 where
  pub id : ℕ
  pub offboarding_id : ℕ
  pub title : String
  pub clearer_employee_id : Option ℕ
  pub status : ClearanceStatus
  pub deleted : Bool

module _ (C : Calendar) (D : Decimals) where
  open C use {NaiveDate, DateTime}
  open D use {Decimal}

  pub record Offboarding : Type 0 where
    pub id : ℕ
    pub employee_id : ℕ
    pub reason : OffboardingReason
    pub notice_date : NaiveDate
    pub last_working_day : NaiveDate
    pub status : OffboardingStatus
    pub final_settlement_id : Option ℕ

  pub record FinalSettlement : Type 0 where
    pub id : ℕ
    pub employee_id : ℕ
    pub offboarding_id : ℕ
    -- year and month
    pub period : ℕ × ℕ
    pub base_pay : Decimal
    pub unused_leave_payout : Option Decimal
    pub pesangon_amount : Option Decimal
    pub tax_deduction : Option Decimal
    pub net_payable : Decimal
    pub status : SettlementStatus
    pub accounting_post_id : Option ℕ
    pub journal_id : Option ℕ
    pub uang_pesangon : Decimal
    pub upmk : Decimal
    pub uang_pisah : Decimal
    pub monthly_wage : Decimal
    pub daily_wage : Decimal
    pub work_days_per_week : ℕ
    pub unused_leave_days : Decimal
    pub tenure_years : Decimal
    pub legal_basis : String
    pub statutory_effective_from : NaiveDate
    pub last_pay_via_payroll : Bool
    pub deleted : Bool

  pub record Contract : Type 0 where
    pub id : ℕ
    pub employment_id : ℕ
    pub employee_id : ℕ
    pub contract_type : ContractType
    pub start_date : NaiveDate
    pub end_date : Option NaiveDate
    pub status : ContractStatus
    pub previous_contract_id : Option ℕ
    pub cumulative_pkwt_months : ℕ
    pub reminder_sent_at : Option DateTime
    pub deleted : Bool

  pub record DisciplineRecord : Type 0 where
    pub id : ℕ
    pub employee_id : ℕ
    pub level : DisciplineLevel
    pub offense : String
    pub description : String
    pub issued_at : DateTime
    pub valid_until : DateTime
    pub served_disposition : ServedDisposition
    pub status : DisciplineStatus
    pub acknowledged_at : Option DateTime
    pub acknowledged_via : Option String
    pub cancel_reason : Option String
    pub document_file_id : Option ℕ
    pub prior_active_sp1 : ℕ
    pub prior_active_sp2 : ℕ
    pub issued_by : Option ℕ
    pub deleted : Bool

  pub record Tables : Type 0 where
    pub offboardings : List Offboarding
    pub clearance_items : List ClearanceItem
    pub final_settlements : List FinalSettlement
    pub contracts : List Contract
    pub discipline_records : List DisciplineRecord
    pub onboardings : List (Onboarding C)
    pub onboarding_tasks : List (OnboardingTask C)
    pub onboarding_templates : List OnboardingTemplate
    pub onboarding_template_tasks : List OnboardingTemplateTask
    pub promotions : List (Promotion C D)
    pub outbox_events : List (OutboxRow C D)
