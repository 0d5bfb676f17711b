-- ===== src/Store/Outbox.antt =====
-- The rows that the services stage in lifecycle.outbox_events: the compound events of
-- offboarding_write_service.rs, onboarding_write_service.rs and promotion_write_service.rs under
-- src/application/service/. A decimal's text in a payload is the decimal here.
use backbone_lifecycle.Prelude.{ℕ, Option}
use backbone_lifecycle.Crates.Decimals.{Decimals}
use backbone_lifecycle.Crates.Calendar.{Calendar}
use backbone_lifecycle.Pesangon.Reason.{OffboardingReason}
use backbone_lifecycle.Pesangon.Compute.{EventPayload}
use backbone_lifecycle.Store.Joining.{PromotionType}

-- `onboarding.completed`
pub record OnboardingCompleted : Type 0 where
  pub event_id : ℕ
  pub company_id : ℕ
  pub onboarding_id : ℕ
  pub employee_id : ℕ

module _ (C : Calendar) (D : Decimals) where
  open C use {NaiveDate}
  open D use {Decimal}

  -- `offboarding.closed`
  pub record OffboardingClosed : Type 0 where
    pub event_id : ℕ
    pub company_id : ℕ
    pub offboarding_id : ℕ
    pub employee_id : ℕ
    pub reason : OffboardingReason
    pub last_working_day : NaiveDate
    pub pesangon_breakdown : EventPayload NaiveDate Decimal

  -- `lifecycle.probation_confirmed`
  pub record ProbationConfirmed : Type 0 where
    pub event_id : ℕ
    pub company_id : ℕ
    pub onboarding_id : ℕ
    pub employee_id : ℕ
    pub confirmation_date : NaiveDate

  -- `promotion.effective`
  pub record PromotionEffective : Type 0 where
    pub event_id : ℕ
    pub company_id : ℕ
    pub promotion_id : ℕ
    pub employee_id : ℕ
    pub promotion_type : PromotionType
    pub position_id_from : Option ℕ
    pub position_id_to : Option ℕ
    pub level_id_from : Option ℕ
    pub level_id_to : Option ℕ
    pub department_id_from : Option ℕ
    pub department_id_to : Option ℕ
    pub proposed_salary : Option Decimal
    pub effective_date : NaiveDate

  pub data OutboxRow : Type 0 where
    offboarding_closed : OffboardingClosed → OutboxRow
    onboarding_completed : OnboardingCompleted → OutboxRow
    probation_confirmed : ProbationConfirmed → OutboxRow
    promotion_effective : PromotionEffective → OutboxRow
