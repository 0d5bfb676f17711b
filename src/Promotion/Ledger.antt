-- ===== src/Promotion/Ledger.antt =====
-- The invariant of the verbs in src/application/service/promotion_write_service.rs: an id names one
-- promotion, each effective one has one event, and an approval rests on the engine's grant.
use backbone_lifecycle.Prelude.{
  ℕ, ◌≡◌, ◌≤◌, ◌+◌, ◌==◌, ◌&&◌, inl, inr, refl, sym, ap, ◌∙◌, Bool, true, false, Option, some,
  Bool-cases, Result, ok, count_rows, arith, [], tally, count_rows-append, count_rows-update_same,
  count_rows-update_one, find?-holds, ==→eq, All, All-append, All-update_rows, All-update_one,
  All-find?,
}
use backbone_lifecycle.Crates.Decimals.{Decimals}
use backbone_lifecycle.Crates.Calendar.{Calendar}
use backbone_lifecycle.Store.{Tables}
use backbone_lifecycle.Store.Joining.{PromotionStatus, Promotion}
use backbone_lifecycle.Store.Outbox.{OutboxRow, promotion_effective}
use backbone_lifecycle.Offboarding.Outcomes.{State}
use backbone_lifecycle.Promotion.{
  Failure, PromotionVerdict, PromotionSeamError, is_pending, is_effective, PromotionValidationPort,
  PromotionFilingPort, NewPromotion, is_promotion, is_pending_promotion, insert_promotion, create,
  approve, reject, effect, effective_event,
}
use backbone_lifecycle.Promotion.Outcomes.{
  FoundAs, ApproveOutcome, EffectOutcome, approve-ApproveOutcome, effect-EffectOutcome,
}
use backbone_lifecycle.Promotion.Creation.{RequestOutcome, create-RequestOutcome}

-- A decision that was taken: approved, and perhaps in effect.
abbrev pub is_decided : PromotionStatus → Bool
is_decided PromotionStatus.approved = true
is_decided PromotionStatus.effective = true
is_decided _ = false

module _ (C : Calendar) (D : Decimals) (Granted : ℕ → Type 0) where
  open C use {NaiveDate}

  abbrev pub effective_as : ℕ → Promotion C D → Bool
  effective_as k p = (p.id == k) && is_effective p.status

  abbrev pub effect_of : ℕ → OutboxRow C D → Bool
  effect_of k (promotion_effective e) = e.promotion_id == k
  effect_of k _ = false

  -- A decision has a request behind it that the engine granted.
  abbrev pub IsBacked : Promotion C D → Type 0
  IsBacked p = is_decided p.status ≡ true → (r : ℕ) × (p.approval_request_id ≡ some r) × Granted r

  pub record IsSound (t : Tables C D) : Type 0 where
    pub one_row : (k : ℕ) → count_rows (is_promotion C D k) t.promotions ≤ 1
    pub one_event :
        (k : ℕ)
        → count_rows (effect_of k) t.outbox_events ≡ count_rows (effective_as k) t.promotions
    pub backed : All IsBacked t.promotions

  -- The verbs one after another, from empty tables; a fresh id names no row, and an engine answers
  -- `approved` only on a request that it has granted.
  pub data Reach : Tables C D → Type 0 where
    start : (t : Tables C D) → t.promotions ≡ [] → t.outbox_events ≡ [] → Reach t
    created :
        (w : State C D) (validation : Option (PromotionValidationPort C D))
        (port : PromotionFilingPort C D) (id : ℕ) (input : NewPromotion C D)
        → Reach w.db
        → count_rows (is_promotion C D id) w.db.promotions ≡ 0
        → Reach (create C D validation port id input w).1.db
    approved_by :
        (w : State C D) (status : ℕ → Result PromotionSeamError PromotionVerdict) (id : ℕ)
        (approver : Option ℕ)
        → Reach w.db
        → ((r : ℕ) → status r ≡ ok PromotionVerdict.approved → Granted r)
        → Reach (approve C D status id approver w).1.db
    rejected_by : (w : State C D) (id : ℕ) → Reach w.db → Reach (reject C D id w).1.db
    effected_by :
        (w : State C D) (company : Option ℕ) (event_id : ℕ) (today : NaiveDate) (id : ℕ)
        → Reach w.db
        → Reach (effect C D company event_id today id w).1.db

  not_effective : (b c : Bool) → c ≡ false → tally (b && c) ≡ 0
  not_effective true c h = rw h
  not_effective false c h = refl

  fresh_row :
      (id k : ℕ) (p : Promotion C D) (t : Tables C D)
      → p.id ≡ id
      → count_rows (is_promotion C D id) t.promotions ≡ 0
      → count_rows (is_promotion C D k) t.promotions ≤ 1
      → count_rows (is_promotion C D k) t.promotions + tally (p.id == k) ≤ 1
  fresh_row id k p t same fresh one = elim (Bool-cases (p.id == k)) [
    | inl e ↦ omega (
      arith,
      ap tally e,
      fresh,
      ap (λ j. count_rows (is_promotion C D j) t.promotions) (sym same ∙ ==→eq p.id k e),
    )
    | inr e ↦ omega (arith, ap tally e)
  ]

  -- A pending row under a fresh id.
  insert-IsSound :
      (id : ℕ) (p : Promotion C D) (t : Tables C D)
      → p.id ≡ id
      → p.status ≡ PromotionStatus.pending
      → count_rows (is_promotion C D id) t.promotions ≡ 0
      → IsSound t
      → IsSound (insert_promotion C D p t)
  insert-IsSound id p t same s fresh v = record {
    one_row = λ k. omega (
      arith,
      count_rows-append (is_promotion C D k) t.promotions p,
      fresh_row id k p t same fresh (v.one_row k),
    );
    one_event = λ k. omega (
      arith,
      count_rows-append (effective_as k) t.promotions p,
      v.one_event k,
      not_effective (p.id == k) (is_effective p.status) (rw s refl),
    );
    backed = All-append IsBacked t.promotions p v.backed λ h. cc (rw s at h);
  }

  create-IsSound :
      (validation : Option (PromotionValidationPort C D)) (port : PromotionFilingPort C D) (id : ℕ)
      (input : NewPromotion C D) (w : State C D)
      → count_rows (is_promotion C D id) w.db.promotions ≡ 0
      → IsSound w.db
      → IsSound (create C D validation port id input w).1.db
  create-IsSound validation port id input w fresh v =
      from (create-RequestOutcome C D validation port id input w fresh)
    where
      from :
          {r : Result (Failure C D) ℕ × State C D}
          → RequestOutcome C D validation port id input w r
          → IsSound r.1.db
      from (RequestOutcome.unverified e k) = v
      from (RequestOutcome.untyped rating g k) = v
      from (RequestOutcome.linked type rating r q a) = insert-IsSound id _ w.db refl refl fresh v
      from (RequestOutcome.unlinked type rating q a) = insert-IsSound id _ w.db refl refl fresh v
      from (RequestOutcome.undone type rating e q a) = v

  found-IsBacked :
      (id : ℕ) (w : State C D) (p : Promotion C D) → FoundAs C D id w p → IsSound w.db → IsBacked p
  found-IsBacked id w p e v =
      All-find? IsBacked (is_promotion C D id) w.db.promotions {x = p} e v.backed

  approve-IsSound :
      (status : ℕ → Result PromotionSeamError PromotionVerdict) (id : ℕ) (approver : Option ℕ)
      (w : State C D)
      → ((r : ℕ) → status r ≡ ok PromotionVerdict.approved → Granted r)
      → IsSound w.db
      → IsSound (approve C D status id approver w).1.db
  approve-IsSound status id approver w grants v =
      from (approve-ApproveOutcome C D status id approver w)
    where
      from :
          {r : Result (Failure C D) Bool × State C D}
          → ApproveOutcome C D status id approver w r
          → IsSound r.1.db
      from (ApproveOutcome.missing e) = v
      from (ApproveOutcome.unlinked p e k) = v
      from (ApproveOutcome.ungranted p r x e k a) = v
      from (ApproveOutcome.unreadable p r x e k a) = v
      from (ApproveOutcome.already p g s) = v
      from (ApproveOutcome.unpending p s g k) = v
      from (ApproveOutcome.moved p g s) =
          let f = λ (q : Promotion C D). record q {
            status = PromotionStatus.approved;
            approved_by = approver;
          } in
          record {
            one_row = λ k.
                rw
                  (count_rows-update_same (is_promotion C D id) (is_promotion C D k) f
                    w.db.promotions (λ q h. refl))
                  (v.one_row k);
            one_event = λ k. omega (
              arith,
              v.one_event k,
              count_rows-update_one (is_promotion C D id) (effective_as k) f w.db.promotions {x = p}
                  g.found (v.one_row id),
              not_effective (p.id == k) (is_effective p.status) (rw s refl),
              not_effective (p.id == k) false refl,
            );
            backed =
                All-update_one IsBacked (is_promotion C D id) f w.db.promotions {x = p} g.found
                  (v.one_row id) (λ _. (g.request_id, g.linked, grants g.request_id g.verdict))
                  v.backed;
          }

  pending_not_effective :
      (b : Bool) (s : PromotionStatus) → (b && is_pending s) ≡ true → is_effective s ≡ false
  pending_not_effective true PromotionStatus.pending h = refl
  pending_not_effective b s h = ground (arith)

  reject-IsSound : (id : ℕ) (w : State C D) → IsSound w.db → IsSound (reject C D id w).1.db
  unfolding reject
  reject-IsSound id w v =
      let f = λ (q : Promotion C D). record q { status = PromotionStatus.rejected } in
      record {
        one_row = λ k.
            rw
              (count_rows-update_same (is_pending_promotion C D id) (is_promotion C D k) f
                w.db.promotions (λ q h. refl))
              (v.one_row k);
        one_event = λ k.
            rw
              (count_rows-update_same (is_pending_promotion C D id) (effective_as k) f
                w.db.promotions λ q h. rw (pending_not_effective (q.id == id) q.status h) refl)
              (v.one_event k);
        backed =
            All-update_rows IsBacked (is_pending_promotion C D id) f w.db.promotions (λ q h b d. cc)
              v.backed;
      }

  and_true : (b : Bool) → tally (b && true) ≡ tally b
  and_true true = refl
  and_true false = refl

  effect-IsSound :
      (company : Option ℕ) (event_id : ℕ) (today : NaiveDate) (id : ℕ) (w : State C D)
      → IsSound w.db
      → IsSound (effect C D company event_id today id w).1.db
  effect-IsSound company event_id today id w v =
      from (effect-EffectOutcome C D company event_id today id w)
    where
      from :
          {r : Result (Failure C D) (Option ℕ) × State C D}
          → EffectOutcome C D company event_id today id w r
          → IsSound r.1.db
      from (EffectOutcome.unscoped e) = v
      from (EffectOutcome.missing e) = v
      from (EffectOutcome.already p e s) = v
      from (EffectOutcome.unapproved p s e k) = v
      from (EffectOutcome.too_early p e s k) = v
      from (EffectOutcome.done c p scope e s k) =
          let f = λ (q : Promotion C D). record q { status = PromotionStatus.effective } in
          record {
            one_row = λ j.
                rw
                  (count_rows-update_same (is_promotion C D id) (is_promotion C D j) f
                    w.db.promotions (λ q h. refl))
                  (v.one_row j);
            one_event = λ j. omega (
              arith,
              v.one_event j,
              count_rows-append (effect_of j) w.db.outbox_events
                  (effective_event C D event_id c id p),
              count_rows-update_one (is_promotion C D id) (effective_as j) f w.db.promotions {x = p}
                  e (v.one_row id),
              not_effective (p.id == j) (is_effective p.status) (rw s refl),
              and_true (p.id == j),
              ap (λ i. tally (i == j))
                  (==→eq p.id id (find?-holds (is_promotion C D id) w.db.promotions {x = p} e)),
            );
            backed =
                All-update_one IsBacked (is_promotion C D id) f w.db.promotions {x = p} e
                  (v.one_row id) (λ _. found-IsBacked id w p e v (rw s refl)) v.backed;
          }

  -- Whatever verbs run, in whatever order and with whatever outcome, on an engine whose `approved`
  -- means a grant: an id names at most one promotion; the outbox holds exactly one effective event
  -- for each promotion in effect and none for any other; and every promotion approved or in effect
  -- is linked to an approval request that the engine granted.
  pub Reach-IsSound : (t : Tables C D) → Reach t → IsSound t
  Reach-IsSound _ (start t none_asked none_sent) = record {
    one_row = λ k. rw none_asked (omega arith);
    one_event = λ k. rw (none_asked, none_sent) refl;
    backed = rw none_asked tt;
  }
  Reach-IsSound t (created w validation port id input r fresh) =
      create-IsSound validation port id input w fresh (Reach-IsSound w.db r)
  Reach-IsSound t (approved_by w status id approver r grants) =
      approve-IsSound status id approver w grants (Reach-IsSound w.db r)
  Reach-IsSound t (rejected_by w id r) = reject-IsSound id w (Reach-IsSound w.db r)
  Reach-IsSound t (effected_by w company event_id today id r) =
      effect-IsSound company event_id today id w (Reach-IsSound w.db r)
