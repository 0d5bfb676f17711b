-- ===== src/Promotion/Errors.antt =====
-- The errors of src/application/service/promotion_write_service.rs.
use backbone_lifecycle.Prelude.{ℕ, String}
use backbone_lifecycle.Settlement.Assembly.{DbError}
use backbone_lifecycle.Store.Joining.{PromotionStatus}

-- The texts of `InvalidState`: no approval request, no grant, an unreadable link.
pub data Gate : Type 0 where
  no_request not_granted unread : Gate

pub data PromotionEffectError (Date : Type 0) : Type 0 where
  appraisal_unverified : String → PromotionEffectError Date
  not_found : ℕ → PromotionEffectError Date
  invalid_state : Gate → PromotionEffectError Date
  not_approved : ℕ → PromotionStatus → PromotionEffectError Date
  not_yet_effective : ℕ → Date → PromotionEffectError Date
  not_pending : ℕ → PromotionStatus → PromotionEffectError Date
  no_company_scope : PromotionEffectError Date
  db : DbError → PromotionEffectError Date

module _ {Date : Type 0} where
  unfoldable pub code : PromotionEffectError Date → String
  code (not_found _) = "promotion_not_found"
  code (appraisal_unverified _) = "appraisal_unverified"
  code (invalid_state _) = "promotion_gate_refused"
  code (not_approved _ _) = "promotion_not_approved"
  code (not_yet_effective _ _) = "promotion_not_yet_effective"
  code (not_pending _ _) = "promotion_not_pending"
  code no_company_scope = "no_company_scope"
  code (db _) = "internal_error"

  unfoldable pub http_status : PromotionEffectError Date → ℕ
  http_status (not_found _) = 404
  http_status no_company_scope = 500
  http_status (db _) = 500
  http_status _ = 422
