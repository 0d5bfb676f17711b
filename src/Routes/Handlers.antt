-- ===== src/Routes/Handlers.antt =====
-- The handlers of src/presentation/http/guarded_routes.rs.
use backbone_lifecycle.Prelude.{ℕ, String, Bool, true, false, Option, none, some, Result}
use backbone_lifecycle.Crates.Decimals.{Decimals}
use backbone_lifecycle.Crates.Calendar.{Calendar}
use backbone_lifecycle.Settlement.Assembly.{Sources}
use backbone_lifecycle.Offboarding
use backbone_lifecycle.Offboarding.Outcomes.{State}
use backbone_lifecycle.Promotion.{
  PromotionVerdict, PromotionSeamError, PromotionValidationPort, PromotionFilingPort,
}
use backbone_lifecycle.FinalSettlement
use backbone_lifecycle.FinalSettlement.{SettlementAccounts}
use backbone_lifecycle.Contract
use backbone_lifecycle.Contract.Reminders as Reminders
use backbone_lifecycle.Store.Effects.{ContractDecision, AccountingPostEnvelope}
use backbone_lifecycle.Promotion
use backbone_lifecycle.Promotion.Errors as PromotionErrors
use backbone_lifecycle.Onboarding
use backbone_lifecycle.Onboarding.{DateSum}
use backbone_lifecycle.Onboarding.Errors as OnboardingErrors
use backbone_lifecycle.Checkpoint
use backbone_lifecycle.Checkpoint.{ActivitySink}
use backbone_lifecycle.Checkpoint.Errors as CheckpointErrors
use backbone_lifecycle.Discipline
use backbone_lifecycle.Discipline.Errors as DisciplineErrors
use backbone_lifecycle.Routes.Responses.{
  Response, err_response, created, done_ok, staged, bad_request, respond, acknowledged, paid, filed,
  reminded, offboarding_refused, settlement_refused,
}
use backbone_lifecycle.Routes.Bodies.{
  CreateOnboardingBody, CreatePromotionBody, CreateOffboardingBody, CreateTaskBody,
  CreateClearanceItemBody, CreateContractBody, FileDecisionBody, IssueDisciplineBody,
  new_onboarding, new_promotion, new_offboarding, new_task, new_item,
}

abbrev pub or_default {ℓ} : {A : Type ℓ} → A → Option A → A
or_default d none = d
or_default d (some a) = a

module _ (C : Calendar) (D : Decimals) where
  open C use {NaiveDate, DateTime}
  open D use {Decimal}

  -- The services' ports, and what a request gets: the company and the user of its scope, the time,
  -- fresh ids.
  pub record Environment : Type 0 where
    pub sources : Sources C D
    pub validation : Option (PromotionValidationPort C D)
    pub filing : PromotionFilingPort C D
    pub verdict : ℕ → Result PromotionSeamError PromotionVerdict
    pub sink : ActivitySink C D
    pub date_sum : DateSum C D
    pub plus_days : DateTime → ℕ → DateTime
    pub company : Option ℕ
    pub user : Option ℕ
    pub now : DateTime
    pub id : ℕ
    pub event_id : ℕ
    pub ids : ℕ → ℕ
    pub is_balanced : AccountingPostEnvelope Decimal → Bool
    pub gl : FinalSettlement.GlPostSink C D
    pub contract_approvals : Contract.ContractApprovalsPort C D

  abbrev pub Handler : Type 0
  Handler = State C D → Option Response × State C D

  abbrev pub reply : Option Response → Handler
  reply r w = (r, w)

  abbrev pub onboarding_refused : Onboarding.Failure C D → Option Response
  onboarding_refused e =
      some (err_response (OnboardingErrors.code e) (OnboardingErrors.http_status e))

  abbrev pub promotion_refused : Promotion.Failure C D → Option Response
  promotion_refused e = some (err_response (PromotionErrors.code e) (PromotionErrors.http_status e))

  abbrev pub checkpoint_refused : CheckpointErrors.CheckpointError → Option Response
  checkpoint_refused e =
      some (err_response (CheckpointErrors.code e) (CheckpointErrors.http_status e))

  abbrev pub discipline_refused : DisciplineErrors.DisciplineError → Option Response
  discipline_refused e =
      some (err_response (DisciplineErrors.code e) (DisciplineErrors.http_status e))

  -- A verb on what a body asks for.
  abbrev pub requested : {A : Type 0} → Option A → (A → Handler) → Handler
  requested none h = reply bad_request
  requested (some a) h = h a

  unfoldable pub create_onboarding : Environment → Option (CreateOnboardingBody C D) → Handler
  create_onboarding env body = requested (new_onboarding C D body) λ input w.
      respond created onboarding_refused (Onboarding.create C D env.date_sum env.id env.ids input w)

  unfoldable pub complete_onboarding : Environment → ℕ → Handler
  complete_onboarding env onboarding_id w =
      respond staged onboarding_refused
        (Onboarding.complete C D env.company env.event_id env.now onboarding_id w)

  -- The body is the flag `force`.
  unfoldable pub confirm_onboarding : Environment → ℕ → Option Bool → Handler
  confirm_onboarding env onboarding_id force w = respond staged onboarding_refused (
      Onboarding.confirm C D env.company env.event_id env.now onboarding_id (or_default false force)
        w)

  unfoldable pub create_promotion : Environment → Option (CreatePromotionBody C D) → Handler
  create_promotion env body = requested (new_promotion C D body) λ input w.
      respond created promotion_refused
        (Promotion.create C D env.validation env.filing env.id input w)

  -- The body is `approved_by`.
  unfoldable pub approve_promotion : Environment → ℕ → Option (Option ℕ) → Handler
  approve_promotion env promotion_id approved_by w =
      respond done_ok promotion_refused
        (Promotion.approve C D env.verdict promotion_id (or_default none approved_by) w)

  unfoldable pub effect_promotion : Environment → ℕ → Handler
  effect_promotion env promotion_id w =
      respond staged promotion_refused
        (Promotion.effect C D env.company env.event_id (C.date_naive env.now) promotion_id w)

  unfoldable pub create_offboarding : Environment → Option (CreateOffboardingBody C D) → Handler
  create_offboarding env body =
      requested (new_offboarding C D body)
        λ input w. respond created offboarding_refused (Offboarding.create C D env.id input w)

  unfoldable pub clear_offboarding : Environment → ℕ → Handler
  clear_offboarding env offboarding_id w =
      respond done_ok offboarding_refused (Offboarding.clear C D offboarding_id w)

  unfoldable pub close_offboarding : Environment → ℕ → Handler
  close_offboarding env offboarding_id w =
      respond staged offboarding_refused
        (Offboarding.close C D env.sources env.company env.event_id offboarding_id w)

  unfoldable pub create_onboarding_task : Environment → ℕ → Option (CreateTaskBody C D) → Handler
  create_onboarding_task env onboarding_id body =
      requested (new_task C D onboarding_id body) λ input w.
        respond created checkpoint_refused (Checkpoint.create_task C D env.sink env.id input w)

  unfoldable pub create_clearance_item :
      Environment → ℕ → Option (CreateClearanceItemBody C D) → Handler
  create_clearance_item env offboarding_id body =
      requested (new_item C D offboarding_id body) λ input w.
        respond created checkpoint_refused
          (Checkpoint.create_clearance_item C D env.sink env.id input w)

  -- The body is `actor_id`; every error of the verb is one answer.
  unfoldable pub resolve_task : Environment → ℕ → String → Option (Option ℕ) → Handler
  resolve_task env task_id resolution body w =
      respond done_ok (λ _. some (err_response "task_resolution_failed" 409))
        (Checkpoint.resolve_task C D env.now task_id resolution (or_default none body) w)

  unfoldable pub resolve_task_done : Environment → ℕ → Option (Option ℕ) → Handler
  resolve_task_done env task_id = resolve_task env task_id "done"

  unfoldable pub resolve_task_skipped : Environment → ℕ → Option (Option ℕ) → Handler
  resolve_task_skipped env task_id = resolve_task env task_id "skipped"

  unfoldable pub resolve_task_blocked : Environment → ℕ → Option (Option ℕ) → Handler
  resolve_task_blocked env task_id = resolve_task env task_id "blocked"

  unfoldable pub issue_discipline : Environment → IssueDisciplineBody C D → Handler
  issue_discipline env b w = respond created discipline_refused (
      Discipline.issue C D env.now env.id
        (record {
          employee_id = b.employee_id;
          level = b.level;
          offense = b.offense;
          description = b.description;
          valid_until = or_default (env.plus_days env.now 183) b.valid_until;
          served_disposition = b.served_disposition;
          document_file_id = b.document_file_id;
          issued_by = env.user;
        })
        w)

  -- The body is `reason`.
  unfoldable pub cancel_discipline : Environment → ℕ → String → Handler
  cancel_discipline env record_id reason w =
      respond (λ _. done_ok true) discipline_refused (Discipline.cancel C D record_id reason w)

  -- The body is `offboarding_id`.
  unfoldable pub draft_final_settlement : Environment → ℕ → Handler
  draft_final_settlement env offboarding_id w =
      respond created settlement_refused
        (FinalSettlement.draft_from_offboarding C D env.sources env.company env.id offboarding_id w)

  unfoldable pub confirm_final_settlement : Environment → ℕ → SettlementAccounts → Handler
  confirm_final_settlement env settlement_id accounts w =
      respond acknowledged settlement_refused
        (FinalSettlement.confirm C D env.is_balanced env.gl env.company settlement_id accounts w)

  unfoldable pub mark_paid_final_settlement : Environment → ℕ → Handler
  mark_paid_final_settlement env settlement_id w =
      respond paid settlement_refused (FinalSettlement.mark_paid C D settlement_id w)

  abbrev pub contract_refused : Contract.ContractError → Option Response
  contract_refused e = some (err_response (Contract.code e) (Contract.http_status e))

  unfoldable pub create_contract : Environment → CreateContractBody C D → Handler
  create_contract env b w = respond created contract_refused (
      Contract.create C D env.id
        (record {
          employment_id = b.employment_id;
          employee_id = b.employee_id;
          contract_type = b.contract_type;
          start_date = b.start_date;
          end_date = b.end_date;
        })
        w)

  abbrev pub file_parsed : Environment → ℕ → Option NaiveDate → Option ContractDecision → Handler
  file_parsed env contract_id new_end_date none w =
      reply (some (err_response "invalid_input" 422)) w
  file_parsed env contract_id new_end_date (some outcome) w = respond filed contract_refused (
      Contract.file_decision C D env.contract_approvals (C.date_naive env.now) contract_id outcome
        new_end_date w)

  unfoldable pub file_contract_decision : Environment → ℕ → FileDecisionBody C D → Handler
  file_contract_decision env contract_id b =
      file_parsed env contract_id b.new_end_date (Contract.parse b.outcome)

  unfoldable pub run_contract_reminders : Environment → Handler
  run_contract_reminders env w =
      respond reminded contract_refused (Reminders.remind_due C D env.now 30 w)
