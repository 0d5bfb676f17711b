-- ===== src/Routes/Statuses.antt =====
-- The statuses of the errors that src/presentation/http/guarded_routes.rs answers.
use backbone_lifecycle.Prelude.{ℕ, ◌≡◌, ◌≤◌, ◌⊎◌, refl, String, Option, none, some, arith}
use backbone_lifecycle.Pesangon.Basis.{PesangonError}
use backbone_lifecycle.Pesangon.Basis
use backbone_lifecycle.Offboarding
use backbone_lifecycle.FinalSettlement.{FinalSettlementError}
use backbone_lifecycle.Contract
use backbone_lifecycle.Contract.{ContractError}
use backbone_lifecycle.Promotion.Errors as PromotionErrors
use backbone_lifecycle.Onboarding.Errors as OnboardingErrors
use backbone_lifecycle.Checkpoint.Errors as CheckpointErrors
use backbone_lifecycle.Discipline.Errors as DisciplineErrors
use backbone_lifecycle.Routes.Responses.{
  error_body, Response, status_of, err_response, offboarding_refused, settlement_refused,
}

-- An answer of a client's or a server's error, with its code.
pub record IsRefusal (r : Response) : Type 0 where
  pub code : String
  pub coded : r.body ≡ error_body code
  pub at_least : 400 ≤ r.status
  pub at_most : r.status ≤ 500

abbrev pub IsError : ℕ → Type 0
IsError n = (400 ≤ n) × (n ≤ 500)

pub err_response-IsRefusal : (code : String) (n : ℕ) → IsError n → IsRefusal (err_response code n)
unfolding err_response status_of
err_response-IsRefusal code n (low, high) = record {
  code = code;
  coded = refl;
  at_least = ground arith;
  at_most = ground arith;
}

-- 200 or 201 with a body that is no error.
pub record IsSuccess (r : Response) : Type 0 where
  pub fine : (r.status ≡ 200) ⊎ (r.status ≡ 201)
  pub uncoded : (code : String) → ¬ (r.body ≡ error_body code)

abbrev pub Refuses : Option Response → Type 0
Refuses none = Unit
Refuses (some r) = IsRefusal r

module _ {Date : Type 0} where
  pub onboarding_status :
      (e : OnboardingErrors.OnboardingCompleteError Date) → IsError (OnboardingErrors.http_status e)
  unfolding OnboardingErrors.http_status
  onboarding_status (OnboardingErrors.not_found _) = (omega arith, omega arith)
  onboarding_status (OnboardingErrors.not_in_progress _ _) = (omega arith, omega arith)
  onboarding_status (OnboardingErrors.tasks_open _ _) = (omega arith, omega arith)
  onboarding_status (OnboardingErrors.not_completed _ _) = (omega arith, omega arith)
  onboarding_status (OnboardingErrors.probation_not_planned _) = (omega arith, omega arith)
  onboarding_status (OnboardingErrors.probation_not_ended _ _) = (omega arith, omega arith)
  onboarding_status OnboardingErrors.no_company_scope = (omega arith, omega arith)
  onboarding_status (OnboardingErrors.db _) = (omega arith, omega arith)
  onboarding_status OnboardingErrors.outbox = (omega arith, omega arith)

  pub promotion_status :
      (e : PromotionErrors.PromotionEffectError Date) → IsError (PromotionErrors.http_status e)
  unfolding PromotionErrors.http_status
  promotion_status (PromotionErrors.appraisal_unverified _) = (omega arith, omega arith)
  promotion_status (PromotionErrors.not_found _) = (omega arith, omega arith)
  promotion_status (PromotionErrors.invalid_state _) = (omega arith, omega arith)
  promotion_status (PromotionErrors.not_approved _ _) = (omega arith, omega arith)
  promotion_status (PromotionErrors.not_yet_effective _ _) = (omega arith, omega arith)
  promotion_status (PromotionErrors.not_pending _ _) = (omega arith, omega arith)
  promotion_status PromotionErrors.no_company_scope = (omega arith, omega arith)
  promotion_status (PromotionErrors.db _) = (omega arith, omega arith)

  pesangon_status : (e : PesangonError Date) → IsError (Basis.http_status e)
  unfolding Basis.http_status
  pesangon_status PesangonError.db = (omega arith, omega arith)
  pesangon_status (PesangonError.unspecific_reason _) = (omega arith, omega arith)
  pesangon_status (PesangonError.no_statutory_params _ _ _) = (omega arith, omega arith)
  pesangon_status (PesangonError.incomplete_statutory_params _ _ _) = (omega arith, omega arith)
  pesangon_status (PesangonError.invalid_setting _ _ _ _) = (omega arith, omega arith)

  pub offboarding_Refuses :
      (e : Offboarding.OffboardingCloseError Date) → Refuses (offboarding_refused e)
  unfolding offboarding_refused
  offboarding_Refuses (Offboarding.not_found _) =
      err_response-IsRefusal _ _ (omega arith, omega arith)
  offboarding_Refuses (Offboarding.not_cleared _ _) =
      err_response-IsRefusal _ _ (omega arith, omega arith)
  offboarding_Refuses (Offboarding.not_in_progress _ _) =
      err_response-IsRefusal _ _ (omega arith, omega arith)
  offboarding_Refuses (Offboarding.clearance_open _ _) =
      err_response-IsRefusal _ _ (omega arith, omega arith)
  offboarding_Refuses (Offboarding.missing_join_date _) =
      err_response-IsRefusal _ _ (omega arith, omega arith)
  offboarding_Refuses (Offboarding.missing_salary _) =
      err_response-IsRefusal _ _ (omega arith, omega arith)
  offboarding_Refuses (Offboarding.bad_reason _) =
      err_response-IsRefusal _ _ (omega arith, omega arith)
  offboarding_Refuses (Offboarding.invalid _) =
      err_response-IsRefusal _ _ (omega arith, omega arith)
  offboarding_Refuses (Offboarding.pesangon e) = err_response-IsRefusal _ _ (pesangon_status e)
  offboarding_Refuses Offboarding.no_company_scope =
      err_response-IsRefusal _ _ (omega arith, omega arith)
  offboarding_Refuses (Offboarding.db _) = err_response-IsRefusal _ _ (omega arith, omega arith)
  offboarding_Refuses Offboarding.panicked = tt

pub checkpoint_status :
    (e : CheckpointErrors.CheckpointError) → IsError (CheckpointErrors.http_status e)
unfolding CheckpointErrors.http_status
checkpoint_status (CheckpointErrors.onboarding_not_found _) = (omega arith, omega arith)
checkpoint_status (CheckpointErrors.offboarding_not_found _) = (omega arith, omega arith)
checkpoint_status CheckpointErrors.activity_seam_unwired = (omega arith, omega arith)
checkpoint_status (CheckpointErrors.activity_failed _) = (omega arith, omega arith)
checkpoint_status (CheckpointErrors.db _) = (omega arith, omega arith)
checkpoint_status (CheckpointErrors.task_not_found _) = (omega arith, omega arith)
checkpoint_status (CheckpointErrors.invalid_task_resolution _) = (omega arith, omega arith)

pub discipline_status :
    (e : DisciplineErrors.DisciplineError) → IsError (DisciplineErrors.http_status e)
unfolding DisciplineErrors.http_status
discipline_status (DisciplineErrors.db _) = (omega arith, omega arith)
discipline_status (DisciplineErrors.not_found _) = (omega arith, omega arith)
discipline_status (DisciplineErrors.invalid_state _) = (omega arith, omega arith)
discipline_status (DisciplineErrors.invalid _) = (omega arith, omega arith)
discipline_status DisciplineErrors.unwired_contest = (omega arith, omega arith)
discipline_status (DisciplineErrors.contest_transport _) = (omega arith, omega arith)

module _ {Date Decimal : Type 0} where
  pub settlement_Refuses : (e : FinalSettlementError Date Decimal) → Refuses (settlement_refused e)
  unfolding settlement_refused
  settlement_Refuses (FinalSettlementError.offboarding_not_found _) =
      err_response-IsRefusal _ _ (omega arith, omega arith)
  settlement_Refuses (FinalSettlementError.not_found _) =
      err_response-IsRefusal _ _ (omega arith, omega arith)
  settlement_Refuses (FinalSettlementError.already_drafted _ _) =
      err_response-IsRefusal _ _ (omega arith, omega arith)
  settlement_Refuses (FinalSettlementError.missing_join_date _) =
      err_response-IsRefusal _ _ (omega arith, omega arith)
  settlement_Refuses (FinalSettlementError.missing_salary _) =
      err_response-IsRefusal _ _ (omega arith, omega arith)
  settlement_Refuses (FinalSettlementError.bad_reason _) =
      err_response-IsRefusal _ _ (omega arith, omega arith)
  settlement_Refuses (FinalSettlementError.not_draft _ _) =
      err_response-IsRefusal _ _ (omega arith, omega arith)
  settlement_Refuses (FinalSettlementError.nothing_to_post _) =
      err_response-IsRefusal _ _ (omega arith, omega arith)
  settlement_Refuses (FinalSettlementError.tax_requires_account _ _) =
      err_response-IsRefusal _ _ (omega arith, omega arith)
  settlement_Refuses (FinalSettlementError.gl_rejected _ _) =
      err_response-IsRefusal _ _ (omega arith, omega arith)
  settlement_Refuses (FinalSettlementError.unbalanced _) =
      err_response-IsRefusal _ _ (omega arith, omega arith)
  settlement_Refuses FinalSettlementError.no_company_scope =
      err_response-IsRefusal _ _ (omega arith, omega arith)
  settlement_Refuses (FinalSettlementError.db _) =
      err_response-IsRefusal _ _ (omega arith, omega arith)
  settlement_Refuses (FinalSettlementError.pesangon e) =
      err_response-IsRefusal _ _ (pesangon_status e)
  settlement_Refuses FinalSettlementError.panicked = tt

pub contract_status : (e : ContractError) → IsError (Contract.http_status e)
unfolding Contract.http_status
contract_status (ContractError.db _) = (omega arith, omega arith)
contract_status (ContractError.not_found _) = (omega arith, omega arith)
contract_status ContractError.already_active = (omega arith, omega arith)
contract_status (ContractError.not_pending _) = (omega arith, omega arith)
contract_status (ContractError.invalid _) = (omega arith, omega arith)
contract_status ContractError.unwired = (omega arith, omega arith)
contract_status (ContractError.transport _) = (omega arith, omega arith)
