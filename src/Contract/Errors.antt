-- ===== src/Contract/Errors.antt =====
-- The errors of src/application/service/contract_write_service.rs.
use backbone_lifecycle.Prelude.{ℕ, String, Option}
use backbone_lifecycle.Settlement.Assembly.{DbError}
use backbone_lifecycle.Store.{ContractStatus}

-- The texts of the errors.
pub data Complaint : Type 0 where
  bad_type : String → Complaint
  pkwt_needs_end end_not_after_start only_pkwt_renews renewal_needs_end renewal_not_later
        only_pkwt_converts only_fixed_term_ends renewal_lost_end end_lost_end :
      Complaint

pub data ContractError : Type 0 where
  db : DbError → ContractError
  not_found : String → ContractError
  -- a second active contract, or the status that the contract is in instead
  already_active : ContractError
  not_pending : Option ContractStatus → ContractError
  invalid : Complaint → ContractError
  unwired : ContractError
  transport : String → ContractError

unfoldable pub code : ContractError → String
code (db _) = "internal_error"
code (not_found _) = "not_found"
code already_active = "invalid_state"
code (not_pending _) = "invalid_state"
code (invalid _) = "invalid_input"
code unwired = "contract_decision_unwired"
code (transport _) = "contract_decision_failed"

unfoldable pub http_status : ContractError → ℕ
http_status (db _) = 500
http_status (not_found _) = 404
http_status _ = 422
