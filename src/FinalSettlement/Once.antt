-- ===== src/FinalSettlement/Once.antt =====
-- What follows an acknowledged confirmation in
-- src/application/service/final_settlement_write_service.rs, over the runs of its verbs.
use backbone_lifecycle.Prelude.{
  ℕ, ◌≡◌, ◌==◌, inl, inr, refl, List, [], ◌∷◌, ◌++◌, Bool, true, Option, none, some, is_some,
  Bool-cases, Result, ok, find?, update_rows, some_inj, find?-update_rows,
}
use backbone_lifecycle.Crates.Decimals.{Decimals}
use backbone_lifecycle.Crates.Calendar.{Calendar}
use backbone_lifecycle.Settlement.Assembly.{Sources}
use backbone_lifecycle.Store.{paid, FinalSettlement, Tables}
use backbone_lifecycle.Store.Effects.{AccountingPostEnvelope}
use backbone_lifecycle.Offboarding.Outcomes.{State}
use backbone_lifecycle.FinalSettlement.{
  Failure, SettlementAccounts, GlPostAck, GlPostSink, is_settlement, draft_from_offboarding,
  confirm, mark_paid,
}
use backbone_lifecycle.FinalSettlement.Posting.{IsBalanced}
use backbone_lifecycle.FinalSettlement.Outcomes.{
  DraftOutcome, draft-DraftOutcome, PaidOutcome, mark_paid-PaidOutcome,
}
use backbone_lifecycle.FinalSettlement.Confirming.{ConfirmOutcome, confirm-ConfirmOutcome}

module _ {A : Type 0} where
  find?-append :
      (p : A → Bool) (xs ys : List A) {x : A} → find? p xs ≡ some x → find? p (xs ++ ys) ≡ some x
  find?-append p [] ys h = cc
  find?-append p (x ∷ xs) ys {x = y} h = elim (Bool-cases (p x)) [
    | inl e ↦ rw e (rw e at h)
    | inr e ↦ rw e (find?-append p xs ys {x = y} (rw e at h))
  ]

module _ (C : Calendar) (D : Decimals) where
  -- The settlement that an id names carries a posting id.
  abbrev IsPosted : ℕ → List (FinalSettlement C D) → Type 0
  IsPosted id rows =
      (s : FinalSettlement C D) × (find? (is_settlement C D id) rows ≡ some s)
      × (is_some s.accounting_post_id ≡ true)

  -- An update that keeps ids and posting ids keeps a settlement posted.
  update_rows-IsPosted :
      (id : ℕ) (p : FinalSettlement C D → Bool) (f : FinalSettlement C D → FinalSettlement C D)
      (rows : List (FinalSettlement C D))
      → ((s : FinalSettlement C D) → (f s).id ≡ s.id)
      → ((s : FinalSettlement C D)
          → is_some s.accounting_post_id ≡ true
          → is_some (f s).accounting_post_id ≡ true)
      → IsPosted id rows
      → IsPosted id (update_rows p f rows)
  update_rows-IsPosted id p f [] same keep (s, e, k) = cc
  update_rows-IsPosted id p f (x ∷ rows) same keep (s, e, k) = elim (Bool-cases (x.id == id)) [
    | inl l ↦
        let here : x ≡ s = some_inj (rw l at e) in
        elim (Bool-cases (p x)) [
          | inl q ↦ rw q (f x, rw (same x, l) refl, keep x (rw here k))
          | inr q ↦ rw q (x, rw l refl, rw here k)
        ]
    | inr l ↦
        let (y, e', k') = update_rows-IsPosted id p f rows same keep (s, rw l at e, k) in
        elim (Bool-cases (p x)) [
          | inl q ↦ rw q (y, rw (same x, l) e', k')
          | inr q ↦ rw q (y, rw l e', k')
        ]
  ]

  module _ (is_balanced : AccountingPostEnvelope D.Decimal → Bool) where
    -- The verbs one after another, from the given tables.
    pub data Later (t : Tables C D) : Tables C D → Type 0 where
      now : Later t t
      drafted :
          (w : State C D) (src : Sources C D) (company : Option ℕ) (id offboarding_id : ℕ)
          → Later t w.db
          → Later t (draft_from_offboarding C D src company id offboarding_id w).1.db
      confirmed_by :
          (w : State C D) (gl : GlPostSink C D) (company : Option ℕ) (id : ℕ)
          (accounts : SettlementAccounts)
          → Later t w.db
          → Later t (confirm C D is_balanced gl company id accounts w).1.db
      paid_by : (w : State C D) (id : ℕ) → Later t w.db → Later t (mark_paid C D id w).1.db

  draft-IsPosted :
      (k : ℕ) (src : Sources C D) (company : Option ℕ) (id offboarding_id : ℕ) (w : State C D)
      → IsPosted k w.db.final_settlements
      → IsPosted k
          (draft_from_offboarding C D src company id offboarding_id w).1.db.final_settlements
  draft-IsPosted k src company id offboarding_id w v =
      from (draft-DraftOutcome C D src company id offboarding_id w)
    where
      from :
          {r : Result (Failure C D) ℕ × State C D}
          → DraftOutcome C D src company id offboarding_id w r
          → IsPosted k r.1.db.final_settlements
      from (DraftOutcome.unscoped e) = v
      from (DraftOutcome.missing e) = v
      from (DraftOutcome.uncomputed c o x e l) = v
      from (DraftOutcome.conflict s e) = v
      from (DraftOutcome.drafted c o b scope e l q) =
          (v.0, find?-append (is_settlement C D k) w.db.final_settlements _ {x = v.0} v.1, v.2)

  paid-IsPosted :
      (k id : ℕ) (w : State C D)
      → IsPosted k w.db.final_settlements
      → IsPosted k (mark_paid C D id w).1.db.final_settlements
  paid-IsPosted k id w v = from (mark_paid-PaidOutcome C D id w)
    where
      from :
          {r : Result (Failure C D) (Option (Unit {0})) × State C D}
          → PaidOutcome C D id w r
          → IsPosted k r.1.db.final_settlements
      from (PaidOutcome.missing e) = v
      from (PaidOutcome.already s e q) = v
      from (PaidOutcome.unconfirmed s status e q) = v
      from (PaidOutcome.done s e q) =
          update_rows-IsPosted k (is_settlement C D id) (λ s. record s { status = paid })
            w.db.final_settlements (λ s. refl) (λ s h. h) v

  confirm_posted :
      (is_balanced : AccountingPostEnvelope D.Decimal → Bool) (gl : GlPostSink C D)
      (company_id id : ℕ) (accounts : SettlementAccounts) (w : State C D)
      → IsPosted id w.db.final_settlements
      → confirm C D is_balanced gl (some company_id) id accounts w ≡ (ok none, w)
  unfolding confirm
  confirm_posted is_balanced gl company_id id accounts w (s, e, k) = rw (e, k) refl

  module _ (is_balanced : AccountingPostEnvelope D.Decimal → Bool)
      (accepts : (e : AccountingPostEnvelope D.Decimal)
        → IsBalanced D e.lines
        → is_balanced e ≡ true) where
    confirm-IsPosted :
        (k : ℕ) (gl : GlPostSink C D) (company : Option ℕ) (id : ℕ) (accounts : SettlementAccounts)
        (w : State C D)
        → IsPosted k w.db.final_settlements
        → IsPosted k (confirm C D is_balanced gl company id accounts w).1.db.final_settlements
    confirm-IsPosted k gl company id accounts w v =
        from (confirm-ConfirmOutcome C D is_balanced accepts gl company id accounts w)
      where
        from :
            {r : Result (Failure C D) (Option GlPostAck) × State C D}
            → ConfirmOutcome C D gl company id accounts w r
            → IsPosted k r.1.db.final_settlements
        from (ConfirmOutcome.unscoped e) = v
        from (ConfirmOutcome.missing q e) = v
        from (ConfirmOutcome.posted s p q e u) = v
        from (ConfirmOutcome.undraft s status q e u l) = v
        from (ConfirmOutcome.taxed s x q e d l) = v
        from (ConfirmOutcome.nothing s q e d l) = v
        from (ConfirmOutcome.rejected c s rej env scope e p q l) = v
        from (ConfirmOutcome.done c s ack env scope e p q l) =
            update_rows-IsPosted k (is_settlement C D id) _ w.db.final_settlements (λ s. refl)
              (λ s h. refl) v

    Later-IsPosted :
        (k : ℕ) {t u : Tables C D}
        → Later is_balanced t u
        → IsPosted k t.final_settlements
        → IsPosted k u.final_settlements
    Later-IsPosted k Later.now v = v
    Later-IsPosted k (Later.drafted w src company id offboarding_id r) v =
        draft-IsPosted k src company id offboarding_id w (Later-IsPosted k r v)
    Later-IsPosted k (Later.confirmed_by w gl company id accounts r) v =
        confirm-IsPosted k gl company id accounts w (Later-IsPosted k r v)
    Later-IsPosted k (Later.paid_by w id r) v = paid-IsPosted k id w (Later-IsPosted k r v)

    acknowledged-IsPosted :
        (gl : GlPostSink C D) (company : Option ℕ) (id : ℕ) (accounts : SettlementAccounts)
        (w : State C D) (ack : GlPostAck)
        → (confirm C D is_balanced gl company id accounts w).0 ≡ ok (some ack)
        → IsPosted id (confirm C D is_balanced gl company id accounts w).1.db.final_settlements
    acknowledged-IsPosted gl company id accounts w ack h =
        from (confirm-ConfirmOutcome C D is_balanced accepts gl company id accounts w) h
      where
        from :
            {r : Result (Failure C D) (Option GlPostAck) × State C D}
            → ConfirmOutcome C D gl company id accounts w r
            → r.0 ≡ ok (some ack)
            → IsPosted id r.1.db.final_settlements
        from (ConfirmOutcome.unscoped e) k = cc
        from (ConfirmOutcome.missing q e) k = cc
        from (ConfirmOutcome.posted s p q e u) k = cc
        from (ConfirmOutcome.undraft s status q e u d) k = cc
        from (ConfirmOutcome.taxed s x q e d t) k = cc
        from (ConfirmOutcome.nothing s q e d n) k = cc
        from (ConfirmOutcome.rejected c s rej env scope e p q g) k = cc
        from (ConfirmOutcome.done c s ack' env scope e p q g) k = (
          _,
          find?-update_rows (is_settlement C D id) _ w.db.final_settlements {x = s} (λ y. refl) e,
          refl,
        )

    -- Once a confirmation has been acknowledged, and whatever drafts, confirmations and payments of
    -- whatever settlements have run since, a confirmation of the same settlement in a request with a
    -- company sends no envelope and changes no table: it answers that there is nothing to do. It may
    -- name another sink, other accounts and another company.
    pub confirm-again :
        (gl gl' : GlPostSink C D) (company : Option ℕ) (company_id id : ℕ)
        (accounts accounts' : SettlementAccounts) (w v : State C D) (ack : GlPostAck)
        → (confirm C D is_balanced gl company id accounts w).0 ≡ ok (some ack)
        → Later is_balanced (confirm C D is_balanced gl company id accounts w).1.db v.db
        → confirm C D is_balanced gl' (some company_id) id accounts' v ≡ (ok none, v)
    confirm-again gl gl' company company_id id accounts accounts' w v ack h later =
        confirm_posted is_balanced gl' company_id id accounts' v
          (Later-IsPosted id later (acknowledged-IsPosted gl company id accounts w ack h))
