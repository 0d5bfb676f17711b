-- ===== src/Store/Effects.antt =====
-- What the write services send outside the database: events to the sinks, filings to the approvals
-- engine, envelopes to accounting.
use backbone_lifecycle.Prelude.{ℕ, List, Option, String}

pub data ContractType : Type 0 where
  pkwtt pkwt : ContractType

pub data DisciplineLevel : Type 0 where
  sp1 sp2 sp3 : DisciplineLevel

pub data ContractDecision : Type 0 where
  renew convert end : ContractDecision

pub data GlPostLine (Decimal : Type 0) : Type 0 where
  -- The account and the amount; of a credit also the employee whose party it names.
  debit : ℕ → Decimal → GlPostLine Decimal
  credit : ℕ → Decimal → ℕ → GlPostLine Decimal

pub record ContractDecisionFiling (Date : Type 0) : Type 0 where
  pub contract_id : ℕ
  pub employment_id : ℕ
  pub employee_id : ℕ
  pub contract_type : ContractType
  pub end_date : Option Date
  pub outcome : ContractDecision
  pub new_end_date : Option Date

-- `AccountingPostEnvelope`, less the texts and the constants.
pub record AccountingPostEnvelope (Decimal : Type 0) : Type 0 where
  pub company_id : ℕ
  pub source_id : ℕ
  pub lines : List (GlPostLine Decimal)

pub record ContestFiling : Type 0 where
  pub record_id : ℕ
  pub employee_id : ℕ
  pub level : DisciplineLevel
  pub offense : String
  pub reason : String

-- The text `promotion_type` is the request's, not the row's.
pub record PromotionFiling (Date : Type 0) : Type 0 where
  pub promotion_id : ℕ
  pub employee_id : ℕ
  pub promotion_type : String
  pub effective_date : Date
  pub position_id_to : Option ℕ
  pub level_id_to : Option ℕ
  pub department_id_to : Option ℕ

pub record ActivityCommand (Date : Type 0) : Type 0 where
  pub res_model : String
  pub res_id : ℕ
  pub summary : String
  pub deadline : Option Date
  pub user_id : ℕ

pub data Effect (Date Decimal : Type 0) : Type 0 where
  offboarding_opened : ℕ → ℕ → Date → Effect Date Decimal
  contract_expiring : ℕ → ℕ → Date → Effect Date Decimal
  contract_decided : ℕ → ℕ → ContractDecision → Effect Date Decimal
  decision_filed : ContractDecisionFiling Date → Effect Date Decimal
  discipline_issued : ℕ → ℕ → DisciplineLevel → Effect Date Decimal
  contest_filed : ContestFiling → Effect Date Decimal
  task_assigned : ℕ → ℕ → ℕ → ℕ → String → Effect Date Decimal
  activity_scheduled : ActivityCommand Date → Effect Date Decimal
  promotion_filed : PromotionFiling Date → Effect Date Decimal
  envelope_posted : AccountingPostEnvelope Decimal → Effect Date Decimal
