-- ===== src/Routes/Faults.antt =====
-- What the routes of src/presentation/http/guarded_routes.rs answer.
use backbone_lifecycle.Prelude.{
  ℕ, ◌≡◌, refl, String, true, Option, none, some, Result, count_rows, arith,
}
use backbone_lifecycle.Crates.Decimals.{Decimals}
use backbone_lifecycle.Crates.Calendar.{Calendar}
use backbone_lifecycle.Offboarding.Outcomes.{State, clear-ClearOutcome, close-CloseOutcome}
use backbone_lifecycle.Offboarding.Opened as Opened
use backbone_lifecycle.Contract
use backbone_lifecycle.Store.Effects.{ContractDecision}
use backbone_lifecycle.Promotion
use backbone_lifecycle.Promotion.Creation as PromotionCreation
use backbone_lifecycle.Promotion.Outcomes as PromotionOutcomes
use backbone_lifecycle.Onboarding
use backbone_lifecycle.Onboarding.Stamping as OnboardingStamping
use backbone_lifecycle.Onboarding.Outcomes as OnboardingOutcomes
use backbone_lifecycle.Checkpoint
use backbone_lifecycle.Checkpoint.Errors as CheckpointErrors
use backbone_lifecycle.Checkpoint.Outcomes as CheckpointOutcomes
use backbone_lifecycle.Discipline.Errors as DisciplineErrors
use backbone_lifecycle.Discipline.Issuing as DisciplineIssuing
use backbone_lifecycle.Routes.Bodies as Bodies
use backbone_lifecycle.Routes.Handlers as Handlers
use backbone_lifecycle.Routes.Handlers.{Environment}
use backbone_lifecycle.Routes.{Request, serve}
use backbone_lifecycle.Routes.Settled.{
  started_Settled, completed_Settled, confirmed_Settled, asked_Settled, approved_Settled,
  effected_Settled, opened_Settled, cleared_Settled, closed_Settled, resolved_Settled,
  issued_Settled, cancelled_Settled, drafted_Settled, posted_Settled, paid_Settled, decided_Settled,
  reminded_Settled, contracted_Settled,
}
use backbone_lifecycle.Routes.Responses.{
  err_response, respond, created, done_ok, staged, acknowledged, paid, filed, reminded,
}
use backbone_lifecycle.Routes.Statuses.{
  Refuses, err_response-IsRefusal, onboarding_status, promotion_status, offboarding_Refuses,
  settlement_Refuses, contract_status, checkpoint_status, discipline_status,
}
use backbone_lifecycle.Routes.Answers.{
  created-Succeeds, done_ok-Succeeds, staged-Succeeds, acknowledged-Succeeds, paid-Succeeds,
  filed-Succeeds, reminded-Succeeds, Answered, unnotified, success-Answered, refusal-Answered,
  respond-Answered, bad_request-Answered,
}

module _ (C : Calendar) (D : Decimals) where
  requested-Answered :
      {A : Type 0} (w : State C D) (o : Option A) (h : A → Handlers.Handler C D)
      → ((a : A) → Answered C D w (h a w))
      → Answered C D w (Handlers.requested C D o h w)
  requested-Answered w none h k = bad_request-Answered C D w
  requested-Answered w (some a) h k = k a

  -- A checkpoint that was recorded, and what its sink made of it.
  Notified-Answered :
      {sink : Checkpoint.ActivitySink C D} {model : String} {id : ℕ} {summary : String}
      {deadline : Option C.NaiveDate} {user : Option ℕ} (w v : State C D)
      {r : Result CheckpointErrors.CheckpointError ℕ × State C D}
      → CheckpointOutcomes.Notified C D sink model id summary deadline user v r
      → Answered C D w (respond created (Handlers.checkpoint_refused C D) r)
  unfolding CheckpointErrors.code CheckpointErrors.http_status
  Notified-Answered {id = id} w v (CheckpointOutcomes.Notified.silent e) =
      success-Answered C D w (created id) _ (created-Succeeds id)
  Notified-Answered {id = id} w v (CheckpointOutcomes.Notified.scheduled u n c e k l) =
      success-Answered C D w (created id) _ (created-Succeeds id)
  Notified-Answered w v (CheckpointOutcomes.Notified.rejected u x c e k l) = unnotified _

  checkpoint-Refuses :
      (e : CheckpointErrors.CheckpointError) → Refuses (Handlers.checkpoint_refused C D e)
  checkpoint-Refuses e = err_response-IsRefusal _ _ (checkpoint_status e)

  task-Answered :
      {sink : Checkpoint.ActivitySink C D} {id : ℕ} {input : Checkpoint.NewOnboardingTask C D}
      (w : State C D) {r : Result CheckpointErrors.CheckpointError ℕ × State C D}
      → CheckpointOutcomes.CreateTaskOutcome C D sink id input w r
      → Answered C D w (respond created (Handlers.checkpoint_refused C D) r)
  task-Answered w (CheckpointOutcomes.CreateTaskOutcome.unwired e) =
      refusal-Answered C D w _ w (checkpoint-Refuses _) refl
  task-Answered w (CheckpointOutcomes.CreateTaskOutcome.missing e) =
      refusal-Answered C D w _ w (checkpoint-Refuses _) refl
  task-Answered w (CheckpointOutcomes.CreateTaskOutcome.uncategorised e) =
      refusal-Answered C D w _ w (checkpoint-Refuses _) refl
  task-Answered w (CheckpointOutcomes.CreateTaskOutcome.recorded o c s e k m) =
      Notified-Answered w _ m

  item-Answered :
      {sink : Checkpoint.ActivitySink C D} {id : ℕ} {input : Checkpoint.NewClearanceItem C D}
      (w : State C D) {r : Result CheckpointErrors.CheckpointError ℕ × State C D}
      → CheckpointOutcomes.CreateItemOutcome C D sink id input w r
      → Answered C D w (respond created (Handlers.checkpoint_refused C D) r)
  item-Answered w (CheckpointOutcomes.CreateItemOutcome.unwired e) =
      refusal-Answered C D w _ w (checkpoint-Refuses _) refl
  item-Answered w (CheckpointOutcomes.CreateItemOutcome.missing e) =
      refusal-Answered C D w _ w (checkpoint-Refuses _) refl
  item-Answered w (CheckpointOutcomes.CreateItemOutcome.recorded o s e m) = Notified-Answered w _ m

  resolved-Answered :
      (env : Environment C D) (w : State C D) (id : ℕ) (resolution : String)
      (body : Option (Option ℕ))
      → Answered C D w (Handlers.resolve_task C D env id resolution body w)
  unfolding Handlers.resolve_task
  resolved-Answered env w id resolution body =
      respond-Answered C D w done_ok _ done_ok-Succeeds
        (λ _. err_response-IsRefusal _ _ (omega arith, omega arith))
        (resolved_Settled C D w
          (CheckpointOutcomes.resolve_task-ResolveOutcome C D env.now id resolution _ w))

  onboarding-Refuses : (e : Onboarding.Failure C D) → Refuses (Handlers.onboarding_refused C D e)
  onboarding-Refuses e = err_response-IsRefusal _ _ (onboarding_status e)

  promotion-Refuses : (e : Promotion.Failure C D) → Refuses (Handlers.promotion_refused C D e)
  promotion-Refuses e = err_response-IsRefusal _ _ (promotion_status e)

  discipline-Refuses :
      (e : DisciplineErrors.DisciplineError) → Refuses (Handlers.discipline_refused C D e)
  discipline-Refuses e = err_response-IsRefusal _ _ (discipline_status e)

  contract-Refuses : (e : Contract.ContractError) → Refuses (Handlers.contract_refused C D e)
  contract-Refuses e = err_response-IsRefusal _ _ (contract_status e)

  decided-Answered :
      (env : Environment C D) (w : State C D) (id : ℕ) (new_end_date : Option C.NaiveDate)
      (outcome : Option ContractDecision)
      → Answered C D w (Handlers.file_parsed C D env id new_end_date outcome w)
  decided-Answered env w id new_end_date none =
      refusal-Answered C D w (some (err_response "invalid_input" 422)) w
        (err_response-IsRefusal _ _ (omega arith, omega arith)) refl
  decided-Answered env w id new_end_date (some outcome) =
      respond-Answered C D w filed _ filed-Succeeds contract-Refuses
        (decided_Settled C D w env.contract_approvals _ id outcome new_end_date)

  -- Every request on the verb routes, for any body, ports and state, where the id drawn for a promotion
  -- is fresh: the answer is 200 or 201 with a body that is no error, or it is a refusal with a code and
  -- a status from 400 to 500, or the verb panics; and unless it is a success all tables are as they
  -- were. The one exception is a checkpoint whose sink rejected the notification: it is answered by 422
  -- `activity_scheduling_failed`.
  pub serve-Answered :
      (env : Environment C D) (request : Request C D) (w : State C D)
      → count_rows (Promotion.is_promotion C D env.id) w.db.promotions ≡ 0
      → Answered C D w (serve C D env request w)
  unfolding serve Handlers.create_onboarding Handlers.complete_onboarding
      Handlers.confirm_onboarding Handlers.create_promotion Handlers.approve_promotion
      Handlers.effect_promotion Handlers.create_offboarding Handlers.clear_offboarding
      Handlers.close_offboarding Handlers.create_onboarding_task Handlers.create_clearance_item
      Handlers.resolve_task_done Handlers.resolve_task_skipped Handlers.resolve_task_blocked
      Handlers.issue_discipline Handlers.cancel_discipline Handlers.draft_final_settlement
      Handlers.confirm_final_settlement Handlers.mark_paid_final_settlement Handlers.create_contract
      Handlers.file_contract_decision Handlers.run_contract_reminders
  serve-Answered env (Request.post_onboardings b) w fresh =
      requested-Answered w (Bodies.new_onboarding C D b) _ λ input.
        respond-Answered C D w created _ created-Succeeds onboarding-Refuses (
          started_Settled C D w
            (OnboardingStamping.create-CreateOutcome C D env.date_sum env.id env.ids input w))
  serve-Answered env (Request.post_onboardings_complete id) w fresh =
      respond-Answered C D w staged _ staged-Succeeds onboarding-Refuses (
        completed_Settled C D w
          (OnboardingOutcomes.complete-CompleteOutcome C D env.company env.event_id env.now id w))
  serve-Answered env (Request.post_onboardings_confirm id b) w fresh =
      respond-Answered C D w staged _ staged-Succeeds onboarding-Refuses (
        confirmed_Settled C D w
          (OnboardingOutcomes.confirm-ConfirmOutcome C D env.company env.event_id env.now id _ w))
  serve-Answered env (Request.post_promotions b) w fresh =
      requested-Answered w (Bodies.new_promotion C D b) _ λ input.
        respond-Answered C D w created _ created-Succeeds promotion-Refuses (
          asked_Settled C D w (
            PromotionCreation.create-RequestOutcome C D env.validation env.filing env.id input w
              fresh))
  serve-Answered env (Request.post_promotions_approve id b) w fresh =
      respond-Answered C D w done_ok _ done_ok-Succeeds promotion-Refuses
        (approved_Settled C D w (PromotionOutcomes.approve-ApproveOutcome C D env.verdict id _ w))
  serve-Answered env (Request.post_promotions_effect id) w fresh =
      respond-Answered C D w staged _ staged-Succeeds promotion-Refuses (
        effected_Settled C D w
          (PromotionOutcomes.effect-EffectOutcome C D env.company env.event_id _ id w))
  serve-Answered env (Request.post_offboardings b) w fresh =
      requested-Answered w (Bodies.new_offboarding C D b) _ λ input.
        respond-Answered C D w created _ created-Succeeds offboarding_Refuses
          (opened_Settled C D w (Opened.create-CreateOutcome C D env.id input w))
  serve-Answered env (Request.post_offboardings_clear id) w fresh =
      respond-Answered C D w done_ok _ done_ok-Succeeds offboarding_Refuses
        (cleared_Settled C D w (clear-ClearOutcome C D id w))
  serve-Answered env (Request.post_offboardings_close id) w fresh =
      respond-Answered C D w staged _ staged-Succeeds offboarding_Refuses
        (closed_Settled C D w (close-CloseOutcome C D env.sources env.company env.event_id id w))
  serve-Answered env (Request.post_onboardings_tasks id b) w fresh =
      requested-Answered w (Bodies.new_task C D id b) _ λ input.
        task-Answered w
          (CheckpointOutcomes.create_task-CreateTaskOutcome C D env.sink env.id input w)
  serve-Answered env (Request.post_onboarding_tasks_complete id b) w fresh =
      resolved-Answered env w id "done" b
  serve-Answered env (Request.post_onboarding_tasks_skip id b) w fresh =
      resolved-Answered env w id "skipped" b
  serve-Answered env (Request.post_onboarding_tasks_block id b) w fresh =
      resolved-Answered env w id "blocked" b
  serve-Answered env (Request.post_offboardings_clearance_items id b) w fresh =
      requested-Answered w (Bodies.new_item C D id b) _ λ input.
        item-Answered w
          (CheckpointOutcomes.create_clearance_item-CreateItemOutcome C D env.sink env.id input w)
  serve-Answered env (Request.post_discipline_records b) w fresh =
      respond-Answered C D w created _ created-Succeeds discipline-Refuses
        (issued_Settled C D w (DisciplineIssuing.issue-IssueOutcome C D env.now env.id _ w))
  serve-Answered env (Request.post_discipline_records_cancel id reason) w fresh =
      respond-Answered C D w (λ _. done_ok true) _ (λ _. done_ok-Succeeds true) discipline-Refuses
        (cancelled_Settled C D w id reason _ refl)
  serve-Answered env (Request.post_final_settlements_draft id) w fresh =
      respond-Answered C D w created _ created-Succeeds settlement_Refuses
        (drafted_Settled C D w env.sources env.company env.id id)
  serve-Answered env (Request.post_final_settlements_confirm id accounts) w fresh =
      respond-Answered C D w acknowledged _ acknowledged-Succeeds settlement_Refuses
        (posted_Settled C D w env.is_balanced env.gl env.company id accounts)
  serve-Answered env (Request.post_final_settlements_mark_paid id) w fresh =
      respond-Answered C D w paid _ paid-Succeeds settlement_Refuses (paid_Settled C D w id)
  serve-Answered env (Request.post_contracts b) w fresh =
      respond-Answered C D w created _ created-Succeeds contract-Refuses
        (contracted_Settled C D w env.id _)
  serve-Answered env (Request.post_contracts_file_decision id b) w fresh =
      decided-Answered env w id b.new_end_date (Contract.parse b.outcome)
  serve-Answered env Request.post_contracts_remind_due w fresh =
      respond-Answered C D w reminded _ reminded-Succeeds contract-Refuses
        (reminded_Settled C D w env.now 30)
