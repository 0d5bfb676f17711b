-- ===== src/FinalSettlement/Ledger.antt =====
-- The invariant of the verbs in src/application/service/final_settlement_write_service.rs.
use backbone_lifecycle.Prelude.{
  ℕ, ◌≡◌, ◌≤◌, ◌==◌, ◌&&◌, ◌||◌, not, inl, inr, refl, ap, [], Bool, true, false, Option, some,
  is_some, Bool-cases, Result, count_rows, arith, tally, count_rows-append, count_rows-update_same,
  count_rows-update_one, find?-none, ==→eq,
}
use backbone_lifecycle.Crates.Decimals.{Decimals}
use backbone_lifecycle.Crates.Calendar.{Calendar}
use backbone_lifecycle.Settlement.Assembly.{Sources}
use backbone_lifecycle.Store.{confirmed, paid, FinalSettlement, Tables}
use backbone_lifecycle.Store.Effects.{AccountingPostEnvelope}
use backbone_lifecycle.Offboarding.Outcomes.{State}
use backbone_lifecycle.FinalSettlement.{
  Failure, SettlementAccounts, GlPostAck, GlPostSink, is_confirmed, is_paid, is_settlement,
  is_live_for, drafted_row, draft_from_offboarding, confirm, mark_paid,
}
use backbone_lifecycle.FinalSettlement.Posting.{IsBalanced}
use backbone_lifecycle.FinalSettlement.Outcomes.{
  DraftOutcome, draft-DraftOutcome, PaidOutcome, mark_paid-PaidOutcome,
}
use backbone_lifecycle.FinalSettlement.Confirming.{ConfirmOutcome, confirm-ConfirmOutcome}

abbrev differ : Bool → Bool → Bool
differ true b = not b
differ false b = b

module _ (C : Calendar) (D : Decimals) where
  -- A posting id on a row that is neither confirmed nor paid, or none on one that is.
  abbrev pub is_unsound : FinalSettlement C D → Bool
  is_unsound s = differ (is_some s.accounting_post_id) (is_confirmed s.status || is_paid s.status)

  pub record IsSound (t : Tables C D) : Type 0 where
    pub one_row : (k : ℕ) → count_rows (is_settlement C D k) t.final_settlements ≤ 1
    pub one_live : (k : ℕ) → count_rows (is_live_for C D k) t.final_settlements ≤ 1
    pub stamped : count_rows is_unsound t.final_settlements ≡ 0

  module _ (is_balanced : AccountingPostEnvelope D.Decimal → Bool) where
    -- The verbs one after another, from no settlements; a fresh id names no row.
    pub data SettlementReach : Tables C D → Type 0 where
      start : (t : Tables C D) → t.final_settlements ≡ [] → SettlementReach t
      drafted :
          (w : State C D) (src : Sources C D) (company : Option ℕ) (id offboarding_id : ℕ)
          → SettlementReach w.db
          → count_rows (is_settlement C D id) w.db.final_settlements ≡ 0
          → SettlementReach (draft_from_offboarding C D src company id offboarding_id w).1.db
      confirmed_by :
          (w : State C D) (gl : GlPostSink C D) (company : Option ℕ) (id : ℕ)
          (accounts : SettlementAccounts)
          → SettlementReach w.db
          → SettlementReach (confirm C D is_balanced gl company id accounts w).1.db
      paid_by :
          (w : State C D) (id : ℕ)
          → SettlementReach w.db
          → SettlementReach (mark_paid C D id w).1.db

  draft-IsSound :
      (src : Sources C D) (company : Option ℕ) (id offboarding_id : ℕ) (w : State C D)
      → count_rows (is_settlement C D id) w.db.final_settlements ≡ 0
      → IsSound w.db
      → IsSound (draft_from_offboarding C D src company id offboarding_id w).1.db
  draft-IsSound src company id offboarding_id w fresh v =
      from (draft-DraftOutcome C D src company id offboarding_id w)
    where
      from :
          {r : Result (Failure C D) ℕ × State C D}
          → DraftOutcome C D src company id offboarding_id w r
          → IsSound r.1.db
      from (DraftOutcome.unscoped e) = v
      from (DraftOutcome.missing e) = v
      from (DraftOutcome.uncomputed c o x e k) = v
      from (DraftOutcome.conflict s e) = v
      from (DraftOutcome.drafted c o b scope e k l) =
          let row = drafted_row C D id offboarding_id o b in
          record {
            one_row = λ j. elim (Bool-cases (id == j)) [
              | inl same ↦ omega (
                arith,
                count_rows-append (is_settlement C D j) w.db.final_settlements row,
                ap tally same,
                fresh,
                ap (λ k. count_rows (is_settlement C D k) w.db.final_settlements) (==→eq id j same),
              )
              | inr other ↦ omega (
                arith,
                count_rows-append (is_settlement C D j) w.db.final_settlements row,
                ap tally other,
                v.one_row j,
              )
            ];
            one_live = λ j. elim (Bool-cases (offboarding_id == j)) [
              | inl same ↦ omega (
                arith,
                count_rows-append (is_live_for C D j) w.db.final_settlements row,
                ap (λ b. tally (b && true)) same,
                find?-none (is_live_for C D offboarding_id) w.db.final_settlements l,
                ap (λ k. count_rows (is_live_for C D k) w.db.final_settlements)
                    (==→eq offboarding_id j same),
              )
              | inr other ↦ omega (
                arith,
                count_rows-append (is_live_for C D j) w.db.final_settlements row,
                ap (λ b. tally (b && true)) other,
                v.one_live j,
              )
            ];
            stamped =
                omega (arith, count_rows-append is_unsound w.db.final_settlements row, v.stamped);
          }

  mark_paid-IsSound : (id : ℕ) (w : State C D) → IsSound w.db → IsSound (mark_paid C D id w).1.db
  mark_paid-IsSound id w v = from (mark_paid-PaidOutcome C D id w)
    where
      from :
          {r : Result (Failure C D) (Option (Unit {0})) × State C D}
          → PaidOutcome C D id w r
          → IsSound r.1.db
      from (PaidOutcome.missing e) = v
      from (PaidOutcome.already s e k) = v
      from (PaidOutcome.unconfirmed s status e k) = v
      from (PaidOutcome.done s e k) =
          let rows = w.db.final_settlements in
          let paid_row : FinalSettlement C D → FinalSettlement C D =
            λ s. record s { status = paid } in
          record {
            one_row = λ j.
                rw
                  (count_rows-update_same (is_settlement C D id) (is_settlement C D j) paid_row rows
                    (λ x h. refl))
                  (v.one_row j);
            one_live = λ j.
                rw
                  (count_rows-update_same (is_settlement C D id) (is_live_for C D j) paid_row rows
                    (λ x h. refl))
                  (v.one_live j);
            stamped = omega (
              arith,
              count_rows-update_one (is_settlement C D id) is_unsound paid_row rows {x = s} e
                  (v.one_row id),
              ap
                  (λ st.
                    tally (differ (is_some s.accounting_post_id) (is_confirmed st || is_paid st)))
                  k,
              v.stamped,
            );
          }

  module _ (is_balanced : AccountingPostEnvelope D.Decimal → Bool)
      (accepts : (e : AccountingPostEnvelope D.Decimal)
        → IsBalanced D e.lines
        → is_balanced e ≡ true) where
    confirm-IsSound :
        (gl : GlPostSink C D) (company : Option ℕ) (id : ℕ) (accounts : SettlementAccounts)
        (w : State C D)
        → IsSound w.db
        → IsSound (confirm C D is_balanced gl company id accounts w).1.db
    confirm-IsSound gl company id accounts w v =
        from (confirm-ConfirmOutcome C D is_balanced accepts gl company id accounts w)
      where
        from :
            {r : Result (Failure C D) (Option GlPostAck) × State C D}
            → ConfirmOutcome C D gl company id accounts w r
            → IsSound r.1.db
        from (ConfirmOutcome.unscoped e) = v
        from (ConfirmOutcome.missing q e) = v
        from (ConfirmOutcome.posted s p q e u) = v
        from (ConfirmOutcome.undraft s status q e u k) = v
        from (ConfirmOutcome.taxed s x q e d k) = v
        from (ConfirmOutcome.nothing s q e d k) = v
        from (ConfirmOutcome.rejected c s rej env scope e p q k) = v
        from (ConfirmOutcome.done c s ack env scope e p q k) =
            let rows = w.db.final_settlements in
            let stamped_row : FinalSettlement C D → FinalSettlement C D = λ s. record s {
              status = confirmed;
              accounting_post_id = some ack.post_id;
              journal_id = ack.journal_id;
            } in
            record {
              one_row = λ j.
                  rw
                    (count_rows-update_same (is_settlement C D id) (is_settlement C D j) stamped_row
                      rows (λ x h. refl))
                    (v.one_row j);
              one_live = λ j.
                  rw
                    (count_rows-update_same (is_settlement C D id) (is_live_for C D j) stamped_row
                      rows (λ x h. refl))
                    (v.one_live j);
              stamped = omega (
                arith,
                count_rows-update_one (is_settlement C D id) is_unsound stamped_row rows {x = s} e
                    (v.one_row id),
                v.stamped,
              );
            }

    -- Whatever verbs on settlements run, in whatever order, for whatever answers of the ledger and
    -- whatever sources: an offboarding has at most one live settlement, an id names at most one, and
    -- a row carries the ledger's posting id exactly when it is confirmed or paid.
    pub SettlementReach-IsSound : (t : Tables C D) → SettlementReach is_balanced t → IsSound t
    SettlementReach-IsSound _ (SettlementReach.start t none_yet) = record {
      one_row = λ k. rw none_yet (omega arith);
      one_live = λ k. rw none_yet (omega arith);
      stamped = rw none_yet refl;
    }
    SettlementReach-IsSound t (SettlementReach.drafted w src company id offboarding_id r fresh) =
        draft-IsSound src company id offboarding_id w fresh (SettlementReach-IsSound w.db r)
    SettlementReach-IsSound t (SettlementReach.confirmed_by w gl company id accounts r) =
        confirm-IsSound gl company id accounts w (SettlementReach-IsSound w.db r)
    SettlementReach-IsSound t (SettlementReach.paid_by w id r) =
        mark_paid-IsSound id w (SettlementReach-IsSound w.db r)
