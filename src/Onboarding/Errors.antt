-- ===== src/Onboarding/Errors.antt =====
-- The errors of src/application/service/onboarding_write_service.rs.
use backbone_lifecycle.Prelude.{ℕ, String}
use backbone_lifecycle.Settlement.Assembly.{DbError}
use backbone_lifecycle.Store.Joining.{OnboardingStatus}

pub data OnboardingCompleteError (Date : Type 0) : Type 0 where
  not_found : ℕ → OnboardingCompleteError Date
  not_in_progress : ℕ → OnboardingStatus → OnboardingCompleteError Date
  tasks_open : ℕ → ℕ → OnboardingCompleteError Date
  not_completed : ℕ → OnboardingStatus → OnboardingCompleteError Date
  probation_not_planned : ℕ → OnboardingCompleteError Date
  probation_not_ended : ℕ → Date → OnboardingCompleteError Date
  no_company_scope : OnboardingCompleteError Date
  db : DbError → OnboardingCompleteError Date
  outbox : OnboardingCompleteError Date

module _ {Date : Type 0} where
  unfoldable pub code : OnboardingCompleteError Date → String
  code (not_found _) = "onboarding_not_found"
  code (not_in_progress _ _) = "onboarding_not_in_progress"
  code (tasks_open _ _) = "onboarding_tasks_open"
  code (not_completed _ _) = "onboarding_not_completed"
  code (probation_not_planned _) = "probation_not_planned"
  code (probation_not_ended _ _) = "probation_not_ended"
  code no_company_scope = "no_company_scope"
  code (db _) = "internal_error"
  code outbox = "internal_error"

  unfoldable pub http_status : OnboardingCompleteError Date → ℕ
  http_status (not_found _) = 404
  http_status no_company_scope = 500
  http_status (db _) = 500
  http_status outbox = 500
  http_status _ = 422
