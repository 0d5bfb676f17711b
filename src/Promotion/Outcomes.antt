-- ===== src/Promotion/Outcomes.antt =====
-- What `approve` and `effect` of src/application/service/promotion_write_service.rs do, branch by
-- branch.
use backbone_lifecycle.Prelude.{
  ℕ, ◌≡◌, ◌≢◌, inl, inr, refl, Bool, true, false, Option, none, some, Option-cases, Result, ok, err,
  find?,
}
use backbone_lifecycle.Crates.Decimals.{Decimals}
use backbone_lifecycle.Crates.Calendar.{Calendar, lt_date}
use backbone_lifecycle.Store.Joining.{PromotionStatus, draft, effective, cancelled, Promotion}
use backbone_lifecycle.Offboarding.{stage}
use backbone_lifecycle.Offboarding.Outcomes.{State}
use backbone_lifecycle.Promotion.{
  Failure, PromotionVerdict, PromotionSeamError, is_promotion, update_promotion, granted, approve,
  effect, make_effective, effective_event,
}
use backbone_lifecycle.Promotion.Errors.{
  not_found, invalid_state, not_approved, not_yet_effective, not_pending, no_company_scope,
  no_request, not_granted, unread,
}

module _ (C : Calendar) (D : Decimals) where
  open C use {NaiveDate}

  abbrev pub FoundAs : ℕ → State C D → Promotion C D → Type 0
  FoundAs id w p = find? (is_promotion C D id) w.db.promotions ≡ some p

  -- A promotion whose approval request the engine has granted.
  pub record IsGranted (status : ℕ → Result PromotionSeamError PromotionVerdict) (id : ℕ)
      (w : State C D) (p : Promotion C D) : Type 0 where
    pub request_id : ℕ
    pub found : FoundAs id w p
    pub linked : p.approval_request_id ≡ some request_id
    pub verdict : status request_id ≡ ok PromotionVerdict.approved

  -- What `approve` returns and leaves, branch by branch.
  pub data ApproveOutcome (status : ℕ → Result PromotionSeamError PromotionVerdict) (id : ℕ)
      (approved_by : Option ℕ) (w : State C D)
      : Result (Failure C D) Bool × State C D → Type 0 where
    missing :
        find? (is_promotion C D id) w.db.promotions ≡ none
        → ApproveOutcome status id approved_by w (err (not_found id), w)
    unlinked :
        (p : Promotion C D)
        → FoundAs id w p
        → p.approval_request_id ≡ none
        → ApproveOutcome status id approved_by w (err (invalid_state no_request), w)
    ungranted :
        (p : Promotion C D) (request_id : ℕ) (verdict : PromotionVerdict)
        → FoundAs id w p
        → p.approval_request_id ≡ some request_id
        → (status request_id ≡ ok verdict) × (verdict ≢ PromotionVerdict.approved)
        → ApproveOutcome status id approved_by w (err (invalid_state not_granted), w)
    unreadable :
        (p : Promotion C D) (request_id : ℕ) (e : PromotionSeamError)
        → FoundAs id w p
        → p.approval_request_id ≡ some request_id
        → status request_id ≡ err e
        → ApproveOutcome status id approved_by w (err (invalid_state unread), w)
    already :
        (p : Promotion C D)
        → IsGranted status id w p
        → p.status ≡ PromotionStatus.approved
        → ApproveOutcome status id approved_by w (ok false, w)
    unpending :
        (p : Promotion C D) (s : PromotionStatus)
        → IsGranted status id w p
        → (p.status ≡ s) × (s ≢ PromotionStatus.pending) × (s ≢ PromotionStatus.approved)
        → ApproveOutcome status id approved_by w (err (not_pending id s), w)
    moved :
        (p : Promotion C D)
        → IsGranted status id w p
        → p.status ≡ PromotionStatus.pending
        → ApproveOutcome status id approved_by w (
          ok true,
          record w {
            db =
                update_promotion C D id
                  (λ p. record p { status = PromotionStatus.approved; approved_by = approved_by })
                  w.db;
          },
        )

  module _ (status : ℕ → Result PromotionSeamError PromotionVerdict) (id : ℕ)
      (approved_by : Option ℕ) (w : State C D) (p : Promotion C D) where
    approve_granted :
        (s : PromotionStatus)
        → IsGranted status id w p
        → p.status ≡ s
        → ApproveOutcome status id approved_by w (approve C D status id approved_by w)
    unfolding approve granted
    approve_granted PromotionStatus.pending g e = rw (g.found, g.linked, g.verdict, e) (moved p g e)
    approve_granted PromotionStatus.approved g e =
        rw (g.found, g.linked, g.verdict, e) (already p g e)
    approve_granted draft g e =
        rw (g.found, g.linked, g.verdict, e) (unpending p draft g (e, λ h. cc, λ h. cc))
    approve_granted PromotionStatus.rejected g e =
        rw (g.found, g.linked, g.verdict, e)
          (unpending p PromotionStatus.rejected g (e, λ h. cc, λ h. cc))
    approve_granted effective g e =
        rw (g.found, g.linked, g.verdict, e) (unpending p effective g (e, λ h. cc, λ h. cc))
    approve_granted cancelled g e =
        rw (g.found, g.linked, g.verdict, e) (unpending p cancelled g (e, λ h. cc, λ h. cc))

    approve_linked :
        (request_id : ℕ) (answer : Result PromotionSeamError PromotionVerdict)
        → FoundAs id w p
        → p.approval_request_id ≡ some request_id
        → status request_id ≡ answer
        → ApproveOutcome status id approved_by w (approve C D status id approved_by w)
    unfolding approve granted
    approve_linked r (ok PromotionVerdict.approved) e k v =
        approve_granted p.status (record { request_id = r; found = e; linked = k; verdict = v })
          refl
    approve_linked r (ok PromotionVerdict.pending) e k v =
        rw (e, k, v) (ungranted p r PromotionVerdict.pending e k (v, λ h. cc))
    approve_linked r (ok PromotionVerdict.rejected) e k v =
        rw (e, k, v) (ungranted p r PromotionVerdict.rejected e k (v, λ h. cc))
    approve_linked r (err x) e k v = rw (e, k, v) (unreadable p r x e k v)

    approve_found :
        (request_id : Option ℕ)
        → FoundAs id w p
        → p.approval_request_id ≡ request_id
        → ApproveOutcome status id approved_by w (approve C D status id approved_by w)
    unfolding approve
    approve_found none e k = rw (e, k) (unlinked p e k)
    approve_found (some r) e k = approve_linked r (status r) e k refl

  -- Approving a promotion, on every branch and for any engine. It is approved exactly when it is
  -- pending and the engine has granted the approval request linked to it; without a link, without a
  -- grant, or with a verdict that cannot be read the gate refuses whatever the status; a granted one
  -- that is approved already is a no-op; every failure leaves all tables alone.
  pub approve-ApproveOutcome :
      (status : ℕ → Result PromotionSeamError PromotionVerdict) (id : ℕ) (approved_by : Option ℕ)
      (w : State C D)
      → ApproveOutcome status id approved_by w (approve C D status id approved_by w)
  unfolding approve
  approve-ApproveOutcome status id approved_by w =
      elim (Option-cases (find? (is_promotion C D id) w.db.promotions)) [
        | inl e ↦ rw e (missing e)
        | inr (p, e) ↦ approve_found status id approved_by w p p.approval_request_id e refl
      ]

  -- What `effect` returns and leaves, branch by branch.
  pub data EffectOutcome (company : Option ℕ) (event_id : ℕ) (today : NaiveDate) (id : ℕ)
      (w : State C D) : Result (Failure C D) (Option ℕ) × State C D → Type 0 where
    unscoped : company ≡ none → EffectOutcome company event_id today id w (err no_company_scope, w)
    missing :
        find? (is_promotion C D id) w.db.promotions ≡ none
        → EffectOutcome company event_id today id w (err (not_found id), w)
    already :
        (p : Promotion C D)
        → FoundAs id w p
        → p.status ≡ effective
        → EffectOutcome company event_id today id w (ok none, w)
    unapproved :
        (p : Promotion C D) (s : PromotionStatus)
        → FoundAs id w p
        → (p.status ≡ s) × (s ≢ effective) × (s ≢ PromotionStatus.approved)
        → EffectOutcome company event_id today id w (err (not_approved id s), w)
    too_early :
        (p : Promotion C D)
        → FoundAs id w p
        → p.status ≡ PromotionStatus.approved
        → lt_date C today p.effective_date ≡ true
        → EffectOutcome company event_id today id w (err (not_yet_effective id p.effective_date), w)
    done :
        (company_id : ℕ) (p : Promotion C D)
        → company ≡ some company_id
        → FoundAs id w p
        → p.status ≡ PromotionStatus.approved
        → lt_date C today p.effective_date ≡ false
        → EffectOutcome company event_id today id w (
          ok (some event_id),
          record w {
            db =
                stage C D
                  (effective_event C D event_id company_id id p)
                  (make_effective C D id w.db);
          },
        )

  module _ (company_id event_id : ℕ) (today : NaiveDate) (id : ℕ) (w : State C D)
      (p : Promotion C D) where
    effect-approved :
        (early : Bool)
        → FoundAs id w p
        → p.status ≡ PromotionStatus.approved
        → lt_date C today p.effective_date ≡ early
        → EffectOutcome
            (some company_id)
            event_id
            today
            id
            w
            (effect C D (some company_id) event_id today id w)
    unfolding effect
    effect-approved true e s k = rw (e, s, k) (too_early p e s k)
    effect-approved false e s k = rw (e, s, k) (done company_id p refl e s k)

    effect_found :
        (s : PromotionStatus)
        → FoundAs id w p
        → p.status ≡ s
        → EffectOutcome
            (some company_id)
            event_id
            today
            id
            w
            (effect C D (some company_id) event_id today id w)
    unfolding effect
    effect_found PromotionStatus.approved e k = effect-approved _ e k refl
    effect_found effective e k = rw (e, k) (already p e k)
    effect_found draft e k = rw (e, k) (unapproved p draft e (k, λ h. cc, λ h. cc))
    effect_found PromotionStatus.pending e k =
        rw (e, k) (unapproved p PromotionStatus.pending e (k, λ h. cc, λ h. cc))
    effect_found PromotionStatus.rejected e k =
        rw (e, k) (unapproved p PromotionStatus.rejected e (k, λ h. cc, λ h. cc))
    effect_found cancelled e k = rw (e, k) (unapproved p cancelled e (k, λ h. cc, λ h. cc))

  -- Putting a promotion into effect, on every branch. It stages the one event and marks the row
  -- effective exactly when the request has a company, the row is approved and its date has come;
  -- an effective one is a no-op; every failure leaves all tables alone.
  pub effect-EffectOutcome :
      (company : Option ℕ) (event_id : ℕ) (today : NaiveDate) (id : ℕ) (w : State C D)
      → EffectOutcome company event_id today id w (effect C D company event_id today id w)
  unfolding effect
  effect-EffectOutcome none event_id today id w = unscoped refl
  effect-EffectOutcome (some company_id) event_id today id w =
      elim (Option-cases (find? (is_promotion C D id) w.db.promotions)) [
        | inl e ↦ rw e (missing e)
        | inr (p, e) ↦ effect_found company_id event_id today id w p p.status e refl
      ]
