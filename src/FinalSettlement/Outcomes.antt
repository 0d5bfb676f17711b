-- ===== src/FinalSettlement/Outcomes.antt =====
-- What the verbs of src/application/service/final_settlement_write_service.rs do, branch by branch.
use backbone_lifecycle.Prelude.{
  ℕ, false, ◌≡◌, ◌⊎◌, inl, inr, refl, Option, none, some, Option-cases, Result, Result-cases, ok,
  err, find?,
}
use backbone_lifecycle.Crates.Decimals.{Decimals}
use backbone_lifecycle.Crates.Calendar.{Calendar}
use backbone_lifecycle.Pesangon.Reason.{display}
use backbone_lifecycle.Pesangon.Compute.{SettlementBreakdown}
use backbone_lifecycle.Settlement.Assembly.{Sources, SettlementComputeError}
use backbone_lifecycle.Settlement.Assembly.Reads.{
  IsSettlement, compute_for_offboarding-IsSettlement,
}
use backbone_lifecycle.Store.{
  SettlementStatus, draft, confirmed, paid, disputed, Offboarding, FinalSettlement,
}
use backbone_lifecycle.Offboarding.{has_id}
use backbone_lifecycle.Offboarding.Outcomes.{State, settlement_of}
use backbone_lifecycle.FinalSettlement.{
  Failure, from_compute, offboarding_not_found, not_found, already_drafted, not_draft,
  no_company_scope, is_settlement, is_live_for, insert_draft, link_settlement,
  draft_from_offboarding, pay, mark_paid,
}

module _ (C : Calendar) (D : Decimals) where
  open C use {NaiveDate}
  open D use {Decimal, zero_d, is_zero}

  -- What `draft_from_offboarding` returns and leaves, branch by branch.
  pub data DraftOutcome (src : Sources C D) (company : Option ℕ) (id offboarding_id : ℕ)
      (w : State C D) : Result (Failure C D) ℕ × State C D → Type 0 where
    unscoped :
        company ≡ none → DraftOutcome src company id offboarding_id w (err no_company_scope, w)
    missing :
        find? (has_id C D offboarding_id) w.db.offboardings ≡ none
        → DraftOutcome src company id offboarding_id w
            (err (offboarding_not_found offboarding_id), w)
    uncomputed :
        (company_id : ℕ) (o : Offboarding C D) (e : SettlementComputeError NaiveDate)
        → find? (has_id C D offboarding_id) w.db.offboardings ≡ some o
        → settlement_of C D src company_id o ≡ err e
        → DraftOutcome src company id offboarding_id w (err (from_compute e), w)
    conflict :
        (s : FinalSettlement C D)
        → find? (is_live_for C D offboarding_id) w.db.final_settlements ≡ some s
        → DraftOutcome src company id offboarding_id w
            (err (already_drafted offboarding_id s.id), w)
    drafted :
        (company_id : ℕ) (o : Offboarding C D) (b : SettlementBreakdown NaiveDate Decimal)
        → company ≡ some company_id
        → find? (has_id C D offboarding_id) w.db.offboardings ≡ some o
        → (settlement_of C D src company_id o ≡ ok b)
          × IsSettlement C D src company_id o.employee_id (display o.reason) o.last_working_day b
        → find? (is_live_for C D offboarding_id) w.db.final_settlements ≡ none
        → DraftOutcome src company id offboarding_id w (
          ok id,
          record w {
            db = link_settlement C D offboarding_id id (
                insert_draft C D
                  (record {
                    id = id;
                    employee_id = o.employee_id;
                    offboarding_id = offboarding_id;
                    period = (C.year o.last_working_day, C.month o.last_working_day);
                    base_pay = b.last_pay;
                    unused_leave_payout = some b.unused_leave_payout;
                    pesangon_amount = some b.severance_total;
                    tax_deduction = none;
                    net_payable = b.net_payable;
                    status = draft;
                    accounting_post_id = none;
                    journal_id = none;
                    uang_pesangon = b.uang_pesangon;
                    upmk = b.upmk;
                    uang_pisah = b.uang_pisah;
                    monthly_wage = b.monthly_wage;
                    daily_wage = b.daily_wage;
                    work_days_per_week = b.work_days_per_week;
                    unused_leave_days = b.unused_leave_days;
                    tenure_years = b.tenure_years;
                    legal_basis = b.legal_basis;
                    statutory_effective_from = b.statutory_effective_from;
                    last_pay_via_payroll = b.last_pay_via_payroll;
                    deleted = false;
                  })
                  w.db);
          },
        )

  draft_computed :
      (src : Sources C D) (company_id id offboarding_id : ℕ) (w : State C D) (o : Offboarding C D)
      (b : SettlementBreakdown NaiveDate Decimal) (live : Option (FinalSettlement C D))
      → find? (has_id C D offboarding_id) w.db.offboardings ≡ some o
      → settlement_of C D src company_id o ≡ ok b
      → find? (is_live_for C D offboarding_id) w.db.final_settlements ≡ live
      → DraftOutcome src
          (some company_id)
          id
          offboarding_id
          w
          (draft_from_offboarding C D src (some company_id) id offboarding_id w)
  unfolding draft_from_offboarding
  draft_computed src company_id id offboarding_id w o b none e k l =
      rw (e, k, l)
        (drafted company_id o b refl e
          (
            k,
            compute_for_offboarding-IsSettlement C D src company_id o.employee_id (display o.reason)
                o.last_working_day k,
          )
          l)
  draft_computed src company_id id offboarding_id w o b (some s) e k l = rw (e, k, l) (conflict s l)

  draft_found :
      (src : Sources C D) (company_id id offboarding_id : ℕ) (w : State C D) (o : Offboarding C D)
      → find? (has_id C D offboarding_id) w.db.offboardings ≡ some o
      → DraftOutcome src
          (some company_id)
          id
          offboarding_id
          w
          (draft_from_offboarding C D src (some company_id) id offboarding_id w)
  unfolding draft_from_offboarding
  draft_found src company_id id offboarding_id w o e =
      elim (Result-cases (settlement_of C D src company_id o)) [
        | inl (b, k) ↦ draft_computed src company_id id offboarding_id w o b _ e k refl
        | inr (x, k) ↦ rw (e, k) (uncomputed company_id o x e k)
      ]

  -- Drafting a settlement, on every branch. It inserts one draft row, with the computed last pay,
  -- severance items, leave payout and net amount each in its own column and the rest as the
  -- breakdown and the offboarding have it, and links it, exactly when the request has a company,
  -- the offboarding is there, in whatever status,
  -- its settlement is computed and no live settlement of it exists; an existing one is named by the
  -- error; every failure leaves all tables alone.
  pub draft-DraftOutcome :
      (src : Sources C D) (company : Option ℕ) (id offboarding_id : ℕ) (w : State C D)
      → DraftOutcome src company id offboarding_id w
          (draft_from_offboarding C D src company id offboarding_id w)
  unfolding draft_from_offboarding
  draft-DraftOutcome src none id offboarding_id w = unscoped refl
  draft-DraftOutcome src (some company_id) id offboarding_id w =
      elim (Option-cases (find? (has_id C D offboarding_id) w.db.offboardings)) [
        | inl e ↦ rw e (missing e)
        | inr (o, e) ↦ draft_found src company_id id offboarding_id w o e
      ]

  -- What `mark_paid` returns and leaves, branch by branch.
  pub data PaidOutcome (id : ℕ) (w : State C D)
      : Result (Failure C D) (Option (Unit {0})) × State C D → Type 0 where
    missing :
        find? (is_settlement C D id) w.db.final_settlements ≡ none
        → PaidOutcome id w (err (not_found id), w)
    already :
        (s : FinalSettlement C D)
        → find? (is_settlement C D id) w.db.final_settlements ≡ some s
        → s.status ≡ paid
        → PaidOutcome id w (ok none, w)
    unconfirmed :
        (s : FinalSettlement C D) (status : SettlementStatus)
        → find? (is_settlement C D id) w.db.final_settlements ≡ some s
        → (s.status ≡ status) × ((status ≡ draft) ⊎ (status ≡ disputed))
        → PaidOutcome id w (err (not_draft id status), w)
    done :
        (s : FinalSettlement C D)
        → find? (is_settlement C D id) w.db.final_settlements ≡ some s
        → s.status ≡ confirmed
        → PaidOutcome id w (ok (some tt), record w { db = pay C D id w.db })

  paid_found :
      (id : ℕ) (w : State C D) (s : FinalSettlement C D) (status : SettlementStatus)
      → find? (is_settlement C D id) w.db.final_settlements ≡ some s
      → s.status ≡ status
      → PaidOutcome id w (mark_paid C D id w)
  unfolding mark_paid
  paid_found id w s draft e k = rw (e, k) (unconfirmed s draft e (k, inl refl))
  paid_found id w s disputed e k = rw (e, k) (unconfirmed s disputed e (k, inr refl))
  paid_found id w s confirmed e k = rw (e, k) (done s e k)
  paid_found id w s paid e k = rw (e, k) (already s e k)

  -- Marking a settlement paid succeeds exactly on a confirmed one; on a paid one it is a no-op; a
  -- missing one, a draft or a disputed one is an error that leaves all tables alone.
  pub mark_paid-PaidOutcome : (id : ℕ) (w : State C D) → PaidOutcome id w (mark_paid C D id w)
  unfolding mark_paid
  mark_paid-PaidOutcome id w =
      elim (Option-cases (find? (is_settlement C D id) w.db.final_settlements)) [
        | inl e ↦ rw e (missing e)
        | inr (s, e) ↦ paid_found id w s s.status e refl
      ]
