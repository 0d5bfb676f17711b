-- ===== src/Pesangon/Basis.antt =====
-- src/application/service/pesangon.rs: the errors, the statutory cases and the case that an
-- offboarding reason is settled under.
pub mod Cases
use backbone_lifecycle.Prelude.{ℕ, List, [], ◌∷◌, String, Result, ok, err}
use backbone_lifecycle.Pesangon.Reason.{
  OffboardingReason, resignation, merger_consolidation_split, takeover, takeover_changed_terms,
  efficiency_losses, efficiency_prevent_losses, closure_losses, closure_not_losses,
  closure_force_majeure, force_majeure_no_closure, pkpu_losses, pkpu_not_losses, bankruptcy,
  employer_violation_request, worker_request_rejected, absence_without_notice,
  violation_after_warnings, urgent_violation, detained_company_loss, detained_no_company_loss,
  convicted_company_loss, convicted_no_company_loss, prolonged_illness, retirement, death,
  end_of_contract, termination, merger_acquisition, efficiency, force_majeure, misconduct, display,
}

-- `db` stands for a failure of a statement, whose error is the driver's.
pub data PesangonError (Date : Type 0) : Type 0 where
  unspecific_reason : String → PesangonError Date
  no_statutory_params : String → Date → String → PesangonError Date
  incomplete_statutory_params : String → Date → String → PesangonError Date
  invalid_setting : String → String → String → String → PesangonError Date
  db : PesangonError Date

module _ {Date : Type 0} where
  unfoldable pub code : PesangonError Date → String
  code (unspecific_reason _) = "unspecific_offboarding_reason"
  code (no_statutory_params _ _ _) = "no_severance_params"
  code (incomplete_statutory_params _ _ _) = "incomplete_severance_params"
  code (invalid_setting _ _ _ _) = "invalid_offboarding_setting"
  code db = "internal_error"

  unfoldable pub http_status : PesangonError Date → ℕ
  http_status db = 500
  http_status _ = 422

abbrev pub severance_country : String
severance_country = "ID"

abbrev pub statutory_cases : List String
statutory_cases =
    "merger_consolidation_split" ∷ "takeover" ∷ "takeover_changed_terms" ∷ "efficiency_losses"
    ∷ "efficiency_prevent_losses" ∷ "closure_losses" ∷ "closure_not_losses"
    ∷ "closure_force_majeure" ∷ "force_majeure_no_closure" ∷ "pkpu_losses" ∷ "pkpu_not_losses"
    ∷ "bankruptcy" ∷ "employer_violation_request" ∷ "worker_request_rejected" ∷ "resignation"
    ∷ "absence_without_notice" ∷ "violation_after_warnings" ∷ "urgent_violation"
    ∷ "detained_company_loss" ∷ "detained_no_company_loss" ∷ "convicted_company_loss"
    ∷ "convicted_no_company_loss" ∷ "prolonged_illness" ∷ "retirement" ∷ "death" ∷ []

pub data SeveranceBasis : Type 0 where
  case : String → SeveranceBasis
  fixed_term_end : SeveranceBasis

abbrev pub fixed_term_end_basis : String
fixed_term_end_basis =
    "PKWT ended — no pesangon or UPMK; PKWT compensation (PP 35/2021 Pasal 15-16) not included"

unfoldable pub severance_basis :
    {Date : Type 0} → OffboardingReason → Result (PesangonError Date) SeveranceBasis
unfolding display
severance_basis termination = err (unspecific_reason (display termination))
severance_basis end_of_contract = ok fixed_term_end
severance_basis merger_acquisition = ok (case "merger_consolidation_split")
severance_basis efficiency = ok (case "efficiency_prevent_losses")
severance_basis force_majeure = ok (case "force_majeure_no_closure")
severance_basis misconduct = ok (case "urgent_violation")
severance_basis resignation = ok (case "resignation")
severance_basis merger_consolidation_split = ok (case "merger_consolidation_split")
severance_basis takeover = ok (case "takeover")
severance_basis takeover_changed_terms = ok (case "takeover_changed_terms")
severance_basis efficiency_losses = ok (case "efficiency_losses")
severance_basis efficiency_prevent_losses = ok (case "efficiency_prevent_losses")
severance_basis closure_losses = ok (case "closure_losses")
severance_basis closure_not_losses = ok (case "closure_not_losses")
severance_basis closure_force_majeure = ok (case "closure_force_majeure")
severance_basis force_majeure_no_closure = ok (case "force_majeure_no_closure")
severance_basis pkpu_losses = ok (case "pkpu_losses")
severance_basis pkpu_not_losses = ok (case "pkpu_not_losses")
severance_basis bankruptcy = ok (case "bankruptcy")
severance_basis employer_violation_request = ok (case "employer_violation_request")
severance_basis worker_request_rejected = ok (case "worker_request_rejected")
severance_basis absence_without_notice = ok (case "absence_without_notice")
severance_basis violation_after_warnings = ok (case "violation_after_warnings")
severance_basis urgent_violation = ok (case "urgent_violation")
severance_basis detained_company_loss = ok (case "detained_company_loss")
severance_basis detained_no_company_loss = ok (case "detained_no_company_loss")
severance_basis convicted_company_loss = ok (case "convicted_company_loss")
severance_basis convicted_no_company_loss = ok (case "convicted_no_company_loss")
severance_basis prolonged_illness = ok (case "prolonged_illness")
severance_basis retirement = ok (case "retirement")
severance_basis death = ok (case "death")
