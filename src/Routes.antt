-- ===== src/Routes.antt =====
-- src/presentation/http/guarded_routes.rs: the handlers of the verb routes. A request has its body
-- read; what the server binds and draws for a request is its environment.
pub mod Responses
pub mod Bodies
pub mod Handlers
pub mod Statuses
pub mod Settled
pub mod Answers
pub mod Faults
use backbone_lifecycle.Prelude.{
  ℕ, String, Bool, true, false, not, Option, none, some, Result, ok, err, if◌then◌else◌,
}
use backbone_lifecycle.Prelude.Options.{◌>>=◌}
use backbone_lifecycle.Prelude.Texts.{trim, is_empty}
use backbone_lifecycle.Prelude.Verbs.{World}
use backbone_lifecycle.Crates.Decimals.{Decimals}
use backbone_lifecycle.Crates.Calendar.{Calendar}
use backbone_lifecycle.Settlement.Assembly.{Sources}
use backbone_lifecycle.Offboarding
use backbone_lifecycle.Offboarding.Outcomes.{State}
use backbone_lifecycle.Promotion.{
  PromotionVerdict, PromotionSeamError, PromotionValidationPort, PromotionFilingPort,
}
use backbone_lifecycle.FinalSettlement
use backbone_lifecycle.FinalSettlement.{SettlementAccounts}
use backbone_lifecycle.Contract
use backbone_lifecycle.Contract.Reminders as Reminders
use backbone_lifecycle.Store.Effects.{ContractDecision, AccountingPostEnvelope}
use backbone_lifecycle.Promotion
use backbone_lifecycle.Promotion.Errors as PromotionErrors
use backbone_lifecycle.Onboarding
use backbone_lifecycle.Onboarding.{DateSum}
use backbone_lifecycle.Onboarding.Errors as OnboardingErrors
use backbone_lifecycle.Checkpoint
use backbone_lifecycle.Checkpoint.{ActivitySink}
use backbone_lifecycle.Checkpoint.Errors as CheckpointErrors
use backbone_lifecycle.Discipline
use backbone_lifecycle.Discipline.Errors as DisciplineErrors
use backbone_lifecycle.Routes.Responses.{
  Response, err_response, created, done_ok, staged, bad_request, respond, acknowledged, paid, filed,
  reminded, offboarding_refused, settlement_refused,
}
use backbone_lifecycle.Routes.Bodies.{
  CreateOnboardingBody, CreatePromotionBody, CreateOffboardingBody, CreateTaskBody,
  CreateClearanceItemBody, CreateContractBody, FileDecisionBody, IssueDisciplineBody,
}
use backbone_lifecycle.Routes.Handlers.{
  Environment, Handler, create_onboarding, complete_onboarding, confirm_onboarding,
  create_promotion, approve_promotion, effect_promotion, create_offboarding, clear_offboarding,
  close_offboarding, create_onboarding_task, create_clearance_item, resolve_task, resolve_task_done,
  resolve_task_skipped, resolve_task_blocked, issue_discipline, cancel_discipline,
  draft_final_settlement, confirm_final_settlement, mark_paid_final_settlement, create_contract,
  file_contract_decision, run_contract_reminders,
}

module _ (C : Calendar) (D : Decimals) where
  open C use {NaiveDate, DateTime}
  open D use {Decimal}

  -- The routes of `create_lifecycle_verb_routes`.
  pub data Request : Type 0 where
    post_onboardings : Option (CreateOnboardingBody C D) → Request
    post_onboardings_complete : ℕ → Request
    post_onboardings_confirm : ℕ → Option Bool → Request
    post_promotions : Option (CreatePromotionBody C D) → Request
    post_promotions_approve : ℕ → Option (Option ℕ) → Request
    post_promotions_effect : ℕ → Request
    post_offboardings : Option (CreateOffboardingBody C D) → Request
    post_offboardings_clear : ℕ → Request
    post_offboardings_close : ℕ → Request
    post_onboardings_tasks : ℕ → Option (CreateTaskBody C D) → Request
    post_onboarding_tasks_complete : ℕ → Option (Option ℕ) → Request
    post_onboarding_tasks_skip : ℕ → Option (Option ℕ) → Request
    post_onboarding_tasks_block : ℕ → Option (Option ℕ) → Request
    post_offboardings_clearance_items : ℕ → Option (CreateClearanceItemBody C D) → Request
    post_discipline_records : IssueDisciplineBody C D → Request
    post_discipline_records_cancel : ℕ → String → Request
    post_final_settlements_draft : ℕ → Request
    post_final_settlements_confirm : ℕ → SettlementAccounts → Request
    post_final_settlements_mark_paid : ℕ → Request
    post_contracts : CreateContractBody C D → Request
    post_contracts_file_decision : ℕ → FileDecisionBody C D → Request
    post_contracts_remind_due : Request

  unfoldable pub serve : Environment C D → Request → Handler C D
  serve env (post_onboardings b) = create_onboarding C D env b
  serve env (post_onboardings_complete id) = complete_onboarding C D env id
  serve env (post_onboardings_confirm id b) = confirm_onboarding C D env id b
  serve env (post_promotions b) = create_promotion C D env b
  serve env (post_promotions_approve id b) = approve_promotion C D env id b
  serve env (post_promotions_effect id) = effect_promotion C D env id
  serve env (post_offboardings b) = create_offboarding C D env b
  serve env (post_offboardings_clear id) = clear_offboarding C D env id
  serve env (post_offboardings_close id) = close_offboarding C D env id
  serve env (post_onboardings_tasks id b) = create_onboarding_task C D env id b
  serve env (post_onboarding_tasks_complete id b) = resolve_task_done C D env id b
  serve env (post_onboarding_tasks_skip id b) = resolve_task_skipped C D env id b
  serve env (post_onboarding_tasks_block id b) = resolve_task_blocked C D env id b
  serve env (post_offboardings_clearance_items id b) = create_clearance_item C D env id b
  serve env (post_discipline_records b) = issue_discipline C D env b
  serve env (post_discipline_records_cancel id reason) = cancel_discipline C D env id reason
  serve env (post_final_settlements_draft id) = draft_final_settlement C D env id
  serve env (post_final_settlements_confirm id accounts) =
      confirm_final_settlement C D env id accounts
  serve env (post_final_settlements_mark_paid id) = mark_paid_final_settlement C D env id
  serve env (post_contracts b) = create_contract C D env b
  serve env (post_contracts_file_decision id b) = file_contract_decision C D env id b
  serve env post_contracts_remind_due = run_contract_reminders C D env
