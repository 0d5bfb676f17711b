-- ===== src/Discipline/Errors.antt =====
-- The errors of src/application/service/discipline_write_service.rs.
use backbone_lifecycle.Prelude.{ℕ, String}
use backbone_lifecycle.Settlement.Assembly.{DbError}
use backbone_lifecycle.Store.{DisciplineStatus}

-- The texts of `InvalidState`. `not_own` is that of `acknowledge` and that of `contest`, `is_not`
-- names the status that a record has and the one that was asked for.
pub data Refusal : Type 0 where
  not_own changed terminal : Refusal
  is_not : DisciplineStatus → DisciplineStatus → Refusal

-- The texts of `Invalid`.
pub data Flaw : Type 0 where
  bad_level bad_disposition no_text not_future no_contest_reason no_cancel_reason : Flaw

pub data DisciplineError : Type 0 where
  db : DbError → DisciplineError
  not_found : String → DisciplineError
  invalid_state : Refusal → DisciplineError
  invalid : Flaw → DisciplineError
  unwired_contest : DisciplineError
  contest_transport : String → DisciplineError

unfoldable pub code : DisciplineError → String
code (db _) = "internal_error"
code (not_found _) = "not_found"
code (invalid_state _) = "invalid_state"
code (invalid _) = "invalid_input"
code unwired_contest = "discipline_contest_unwired"
code (contest_transport _) = "discipline_contest_failed"

unfoldable pub http_status : DisciplineError → ℕ
http_status (db _) = 500
http_status (not_found _) = 404
http_status _ = 422
