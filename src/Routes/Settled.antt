-- ===== src/Routes/Settled.antt =====
-- What the verbs behind src/presentation/http/guarded_routes.rs leave when they fail.
use backbone_lifecycle.Prelude.{
  ℕ, ◌≡◌, refl, String, Bool, true, false, Option, none, some, Result, ok, err, Option-cases,
  Bool-cases, inl, inr, is_some, not, ◌&&◌,
}
use backbone_lifecycle.Prelude.Texts.{trim, is_empty}
use backbone_lifecycle.Prelude.Verbs.{settled}
use backbone_lifecycle.Crates.Decimals.{Decimals}
use backbone_lifecycle.Crates.Calendar.{Calendar}
use backbone_lifecycle.Settlement.Assembly.{Sources}
use backbone_lifecycle.Offboarding
use backbone_lifecycle.Offboarding.Outcomes.{State, ClearOutcome, CloseOutcome}
use backbone_lifecycle.Offboarding.Opened as Opened
use backbone_lifecycle.FinalSettlement
use backbone_lifecycle.FinalSettlement.{SettlementAccounts}
use backbone_lifecycle.Contract
use backbone_lifecycle.Contract.Reminders as Reminders
use backbone_lifecycle.Store.Effects.{ContractDecision, AccountingPostEnvelope}
use backbone_lifecycle.Promotion
use backbone_lifecycle.Promotion.Creation as PromotionCreation
use backbone_lifecycle.Promotion.Outcomes as PromotionOutcomes
use backbone_lifecycle.Onboarding
use backbone_lifecycle.Onboarding.Stamping as OnboardingStamping
use backbone_lifecycle.Onboarding.Outcomes as OnboardingOutcomes
use backbone_lifecycle.Checkpoint.Errors as CheckpointErrors
use backbone_lifecycle.Checkpoint.Outcomes as CheckpointOutcomes
use backbone_lifecycle.Discipline
use backbone_lifecycle.Store.{DisciplineStatus, cancelled}
use backbone_lifecycle.Discipline.Errors as DisciplineErrors
use backbone_lifecycle.Discipline.Issuing as DisciplineIssuing

module _ (C : Calendar) (D : Decimals) where
  -- A verb that returns or leaves all tables alone.
  pub data Settled (w : State C D) {E A : Type 0} : Result E A × State C D → Type 0 where
    returned : {a : A} {v : State C D} → Settled w (ok a, v)
    failed : {e : E} {v : State C D} → v.db ≡ w.db → Settled w (err e, v)

  -- A transaction that fails restores the tables.
  transaction_Settled :
      {E A : Type 0} (w : State C D) (r : Result E A × State C D) → Settled w (settled w.db r)
  transaction_Settled w (ok a, v) = returned
  transaction_Settled w (err e, v) = failed refl

  module _ (w : State C D) where
    pub drafted_Settled :
        (src : Sources C D) (company : Option ℕ) (id offboarding_id : ℕ)
        → Settled w (FinalSettlement.draft_from_offboarding C D src company id offboarding_id w)
    unfolding FinalSettlement.draft_from_offboarding
    drafted_Settled src none id offboarding_id = failed refl
    drafted_Settled src (some c) id offboarding_id = transaction_Settled w _

    pub posted_Settled :
        (is_balanced : AccountingPostEnvelope D.Decimal → Bool)
        (gl : FinalSettlement.GlPostSink C D) (company : Option ℕ) (id : ℕ)
        (accounts : SettlementAccounts)
        → Settled w (FinalSettlement.confirm C D is_balanced gl company id accounts w)
    unfolding FinalSettlement.confirm
    posted_Settled is_balanced gl none id accounts = failed refl
    posted_Settled is_balanced gl (some c) id accounts = transaction_Settled w _

    pub paid_Settled : (id : ℕ) → Settled w (FinalSettlement.mark_paid C D id w)
    unfolding FinalSettlement.mark_paid
    paid_Settled id = transaction_Settled w _

    pub decided_Settled :
        (port : Contract.ContractApprovalsPort C D) (today : C.NaiveDate) (id : ℕ)
        (outcome : ContractDecision) (new_end_date : Option C.NaiveDate)
        → Settled w (Contract.file_decision C D port today id outcome new_end_date w)
    unfolding Contract.file_decision
    decided_Settled port today id outcome new_end_date = transaction_Settled w _

    pub reminded_Settled :
        (now : C.DateTime) (days : ℕ) → Settled w (Reminders.remind_due C D now days w)
    unfolding Reminders.remind_due Reminders.remind_due_from
    reminded_Settled now days = transaction_Settled w _

    pub contracted_Settled :
        (id : ℕ) (n : Contract.NewContract C D) → Settled w (Contract.create C D id n w)
    unfolding Contract.create
    contracted_Settled id n = elim (Option-cases (Contract.contract_type_of n.contract_type)) [
      | inl e ↦ rw e (failed refl)
      | inr (t, e) ↦ elim (Bool-cases (Offboarding.is_pkwt t && not (is_some n.end_date))) [
        | inl k ↦ rw (e, k) (failed refl)
        | inr k ↦ elim (Bool-cases (Contract.ends_early C D n.start_date n.end_date)) [
          | inl l ↦ rw (e, k, l) (failed refl)
          | inr l ↦ rw (e, k, l) (transaction_Settled w _)
        ]
      ]
    ]

    pub started_Settled :
        {plus : Onboarding.DateSum C D} {id : ℕ} {ids : ℕ → ℕ}
        {input : Onboarding.NewOnboarding C D} {r : Result (Onboarding.Failure C D) ℕ × State C D}
        → OnboardingStamping.CreateOutcome C D plus id ids input w r
        → Settled w r
    started_Settled (OnboardingStamping.CreateOutcome.undated e) = failed refl
    started_Settled (OnboardingStamping.CreateOutcome.started tasks e) = returned

    pub completed_Settled :
        {company : Option ℕ} {event_id : ℕ} {now : C.DateTime} {id : ℕ}
        {r : Result (Onboarding.Failure C D) (Option ℕ) × State C D}
        → OnboardingOutcomes.CompleteOutcome C D company event_id now id w r
        → Settled w r
    completed_Settled (OnboardingOutcomes.CompleteOutcome.unscoped e) = failed refl
    completed_Settled (OnboardingOutcomes.CompleteOutcome.missing e) = failed refl
    completed_Settled (OnboardingOutcomes.CompleteOutcome.already o e s) = returned
    completed_Settled (OnboardingOutcomes.CompleteOutcome.unstarted o s e k) = failed refl
    completed_Settled (OnboardingOutcomes.CompleteOutcome.open_tasks o n e s k) = failed refl
    completed_Settled (OnboardingOutcomes.CompleteOutcome.done c o scope e s k) = returned

    pub confirmed_Settled :
        {company : Option ℕ} {event_id : ℕ} {now : C.DateTime} {id : ℕ} {force : Bool}
        {r : Result (Onboarding.Failure C D) (Option ℕ) × State C D}
        → OnboardingOutcomes.ConfirmOutcome C D company event_id now id force w r
        → Settled w r
    confirmed_Settled (OnboardingOutcomes.ConfirmOutcome.unscoped e) = failed refl
    confirmed_Settled (OnboardingOutcomes.ConfirmOutcome.missing e) = failed refl
    confirmed_Settled (OnboardingOutcomes.ConfirmOutcome.already o e u) = returned
    confirmed_Settled (OnboardingOutcomes.ConfirmOutcome.unfinished o s e u k) = failed refl
    confirmed_Settled (OnboardingOutcomes.ConfirmOutcome.unplanned o e u p) = failed refl
    confirmed_Settled (OnboardingOutcomes.ConfirmOutcome.too_early o x e u p l) = failed refl
    confirmed_Settled (OnboardingOutcomes.ConfirmOutcome.done c o x scope e u p l) = returned

    pub asked_Settled :
        {validation : Option (Promotion.PromotionValidationPort C D)}
        {port : Promotion.PromotionFilingPort C D} {id : ℕ} {input : Promotion.NewPromotion C D}
        {r : Result (Promotion.Failure C D) ℕ × State C D}
        → PromotionCreation.RequestOutcome C D validation port id input w r
        → Settled w r
    asked_Settled (PromotionCreation.RequestOutcome.unverified e k) = failed refl
    asked_Settled (PromotionCreation.RequestOutcome.untyped x g k) = failed refl
    asked_Settled (PromotionCreation.RequestOutcome.linked t x n q a) = returned
    asked_Settled (PromotionCreation.RequestOutcome.unlinked t x q a) = returned
    asked_Settled (PromotionCreation.RequestOutcome.undone t x e q a) = failed refl

    pub approved_Settled :
        {status : ℕ → Result Promotion.PromotionSeamError Promotion.PromotionVerdict} {id : ℕ}
        {by : Option ℕ} {r : Result (Promotion.Failure C D) Bool × State C D}
        → PromotionOutcomes.ApproveOutcome C D status id by w r
        → Settled w r
    approved_Settled (PromotionOutcomes.ApproveOutcome.missing e) = failed refl
    approved_Settled (PromotionOutcomes.ApproveOutcome.unlinked p e k) = failed refl
    approved_Settled (PromotionOutcomes.ApproveOutcome.ungranted p n x e k a) = failed refl
    approved_Settled (PromotionOutcomes.ApproveOutcome.unreadable p n x e k a) = failed refl
    approved_Settled (PromotionOutcomes.ApproveOutcome.already p g s) = returned
    approved_Settled (PromotionOutcomes.ApproveOutcome.unpending p s g k) = failed refl
    approved_Settled (PromotionOutcomes.ApproveOutcome.moved p g s) = returned

    pub effected_Settled :
        {company : Option ℕ} {event_id : ℕ} {today : C.NaiveDate} {id : ℕ}
        {r : Result (Promotion.Failure C D) (Option ℕ) × State C D}
        → PromotionOutcomes.EffectOutcome C D company event_id today id w r
        → Settled w r
    effected_Settled (PromotionOutcomes.EffectOutcome.unscoped e) = failed refl
    effected_Settled (PromotionOutcomes.EffectOutcome.missing e) = failed refl
    effected_Settled (PromotionOutcomes.EffectOutcome.already p e s) = returned
    effected_Settled (PromotionOutcomes.EffectOutcome.unapproved p s e k) = failed refl
    effected_Settled (PromotionOutcomes.EffectOutcome.too_early p e s k) = failed refl
    effected_Settled (PromotionOutcomes.EffectOutcome.done c p scope e s k) = returned

    pub opened_Settled :
        {id : ℕ} {input : Offboarding.NewOffboarding C D}
        {r : Result (Offboarding.OffboardingCloseError C.NaiveDate) ℕ × State C D}
        → Opened.CreateOutcome C D id input w r
        → Settled w r
    opened_Settled (Opened.CreateOutcome.no_contract e k) = failed refl
    opened_Settled (Opened.CreateOutcome.no_reason e) = failed refl
    opened_Settled (Opened.CreateOutcome.opened reason e k) = returned

    pub cleared_Settled :
        {id : ℕ} {r : Result (Offboarding.OffboardingCloseError C.NaiveDate) Bool × State C D}
        → ClearOutcome C D id w r
        → Settled w r
    cleared_Settled (ClearOutcome.missing e) = failed refl
    cleared_Settled (ClearOutcome.already o e s) = returned
    cleared_Settled (ClearOutcome.too_early o e s) = failed refl
    cleared_Settled (ClearOutcome.open_items o n e s k) = failed refl
    cleared_Settled (ClearOutcome.done o e s k) = returned

    pub closed_Settled :
        {src : Sources C D} {company : Option ℕ} {event_id id : ℕ}
        {r : Result (Offboarding.OffboardingCloseError C.NaiveDate) (Option ℕ) × State C D}
        → CloseOutcome C D src company event_id id w r
        → Settled w r
    closed_Settled (CloseOutcome.unscoped e) = failed refl
    closed_Settled (CloseOutcome.missing e) = failed refl
    closed_Settled (CloseOutcome.already o e s) = returned
    closed_Settled (CloseOutcome.uncleared o status e s) = failed refl
    closed_Settled (CloseOutcome.uncomputed c o x e s k) = failed refl
    closed_Settled (CloseOutcome.done c o b scope e s k) = returned

    pub resolved_Settled :
        {now : C.DateTime} {id : ℕ} {resolution : String} {actor : Option ℕ}
        {r : Result CheckpointErrors.CheckpointError Bool × State C D}
        → CheckpointOutcomes.ResolveOutcome C D now id resolution actor w r
        → Settled w r
    resolved_Settled (CheckpointOutcomes.ResolveOutcome.unknown e) = failed refl
    resolved_Settled (CheckpointOutcomes.ResolveOutcome.missing e) = failed refl
    resolved_Settled (CheckpointOutcomes.ResolveOutcome.terminal t e k) = returned
    resolved_Settled (CheckpointOutcomes.ResolveOutcome.resolved t s e k l) = returned

    pub issued_Settled :
        {now : C.DateTime} {id : ℕ} {n : Discipline.NewDisciplineRecord C D}
        {r : Result DisciplineErrors.DisciplineError ℕ × State C D}
        → DisciplineIssuing.IssueOutcome C D now id n w r
        → Settled w r
    issued_Settled (DisciplineIssuing.IssueOutcome.unlevelled e) = failed refl
    issued_Settled (DisciplineIssuing.IssueOutcome.unserved e) = failed refl
    issued_Settled (DisciplineIssuing.IssueOutcome.textless e) = failed refl
    issued_Settled (DisciplineIssuing.IssueOutcome.past e) = failed refl
    issued_Settled (DisciplineIssuing.IssueOutcome.sent_out l d g) = returned

    pub moved_Settled :
        {id : ℕ} {asks : Bool} {to : DisciplineStatus} {reason : Option String}
        {r : Result DisciplineErrors.DisciplineError (Unit {0}) × State C D}
        → DisciplineIssuing.MoveOutcome C D id asks to reason w r
        → Settled w r
    moved_Settled (DisciplineIssuing.MoveOutcome.missing e) = failed refl
    moved_Settled (DisciplineIssuing.MoveOutcome.barred r x e k) = failed refl
    moved_Settled (DisciplineIssuing.MoveOutcome.moved r e k) = returned

    pub cancelled_Settled :
        (id : ℕ) (reason : String) (blank : Bool)
        → is_empty (trim reason) ≡ blank
        → Settled w (Discipline.cancel C D id reason w)
    unfolding Discipline.cancel
    cancelled_Settled id reason true e = rw e (failed refl)
    cancelled_Settled id reason false e = rw e (
        moved_Settled
          (DisciplineIssuing.move_status-MoveOutcome C D id false cancelled (Option.some reason) w))
