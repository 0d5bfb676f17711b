-- ===== src/Checkpoint/Errors.antt =====
-- The errors of src/application/service/checkpoint_write_service.rs, and the rejection of
-- src/application/service/activity_port.rs.
use backbone_lifecycle.Prelude.{ℕ, String}
use backbone_lifecycle.Settlement.Assembly.{DbError}

pub record ActivityRejected : Type 0 where
  pub code : String
  pub message : String

pub data CheckpointError : Type 0 where
  onboarding_not_found : ℕ → CheckpointError
  offboarding_not_found : ℕ → CheckpointError
  activity_seam_unwired : CheckpointError
  activity_failed : ActivityRejected → CheckpointError
  db : DbError → CheckpointError
  task_not_found : ℕ → CheckpointError
  invalid_task_resolution : String → CheckpointError

unfoldable pub code : CheckpointError → String
code (onboarding_not_found _) = "onboarding_not_found"
code (offboarding_not_found _) = "offboarding_not_found"
code activity_seam_unwired = "activity_seam_unwired"
code (activity_failed _) = "activity_scheduling_failed"
code (task_not_found _) = "task_not_found"
code (invalid_task_resolution _) = "invalid_task_resolution"
code (db _) = "internal_error"

unfoldable pub http_status : CheckpointError → ℕ
http_status (onboarding_not_found _) = 404
http_status (offboarding_not_found _) = 404
http_status (task_not_found _) = 404
http_status activity_seam_unwired = 422
http_status (activity_failed _) = 422
http_status (invalid_task_resolution _) = 422
http_status (db _) = 500
