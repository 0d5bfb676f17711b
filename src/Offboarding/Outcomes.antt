-- ===== src/Offboarding/Outcomes.antt =====
-- What the verbs of src/application/service/offboarding_write_service.rs do, branch by branch.
use backbone_lifecycle.Prelude.{
  ℕ, ◌≡◌, ◌⊎◌, inl, inr, refl, Bool, true, false, Option, none, some, Option-cases, Result,
  Result-cases, ok, err, ltb, lt→ltb, find?, count_rows, arith, zero, suc,
}
use backbone_lifecycle.Prelude.Verbs.{World}
use backbone_lifecycle.Crates.Decimals.{Decimals}
use backbone_lifecycle.Crates.Calendar.{Calendar}
use backbone_lifecycle.Pesangon.Reason.{display}
use backbone_lifecycle.Pesangon.Compute.{SettlementBreakdown, to_event_payload}
use backbone_lifecycle.Settlement.Assembly.{
  Sources, compute_for_offboarding, SettlementComputeError,
}
use backbone_lifecycle.Settlement.Assembly.Reads.{
  IsSettlement, compute_for_offboarding-IsSettlement,
}
use backbone_lifecycle.Store.Outbox.{offboarding_closed}
use backbone_lifecycle.Store.{
  OffboardingStatus, initiated, in_progress, cleared, closed, Offboarding, Tables,
}
use backbone_lifecycle.Store.Effects.{Effect}
use backbone_lifecycle.Offboarding.{
  OffboardingCloseError, from_compute, no_company_scope, not_found, not_cleared, not_in_progress,
  clearance_open, has_id, update_status, is_open_for, clear, close, stage,
}

pub positive : (n : ℕ) → ltb 0 (suc n) ≡ true
positive n = lt→ltb _ _ (omega arith)

module _ (C : Calendar) (D : Decimals) where
  open C use {NaiveDate}
  open D use {Decimal, zero_d}

  abbrev pub State : Type 0
  State = World (Tables C D) (Effect NaiveDate Decimal)

  -- What `clear` returns and leaves, branch by branch.
  pub data ClearOutcome (id : ℕ) (w : State)
      : Result (OffboardingCloseError NaiveDate) Bool × State → Type 0 where
    missing :
        find? (has_id C D id) w.db.offboardings ≡ none → ClearOutcome id w (err (not_found id), w)
    already :
        (o : Offboarding C D)
        → find? (has_id C D id) w.db.offboardings ≡ some o
        → (o.status ≡ cleared) ⊎ (o.status ≡ closed)
        → ClearOutcome id w (ok false, w)
    too_early :
        (o : Offboarding C D)
        → find? (has_id C D id) w.db.offboardings ≡ some o
        → o.status ≡ initiated
        → ClearOutcome id w (err (not_in_progress id initiated), w)
    open_items :
        (o : Offboarding C D) (n : ℕ)
        → find? (has_id C D id) w.db.offboardings ≡ some o
        → o.status ≡ in_progress
        → count_rows (is_open_for C D id) w.db.clearance_items ≡ suc n
        → ClearOutcome id w (err (clearance_open id (suc n)), w)
    done :
        (o : Offboarding C D)
        → find? (has_id C D id) w.db.offboardings ≡ some o
        → o.status ≡ in_progress
        → count_rows (is_open_for C D id) w.db.clearance_items ≡ 0
        → ClearOutcome id w (ok true, record w { db = update_status C D id cleared w.db })

  clear_open :
      (id : ℕ) (w : State) (o : Offboarding C D) (n : ℕ)
      → find? (has_id C D id) w.db.offboardings ≡ some o
      → o.status ≡ in_progress
      → count_rows (is_open_for C D id) w.db.clearance_items ≡ n
      → ClearOutcome id w (clear C D id w)
  unfolding clear
  clear_open id w o zero e s k = rw (e, s, k) (done o e s k)
  clear_open id w o (suc n) e s k = rw (e, s, k, positive n) (open_items o n e s k)

  clear_found :
      (id : ℕ) (w : State) (o : Offboarding C D) (status : OffboardingStatus)
      → find? (has_id C D id) w.db.offboardings ≡ some o
      → o.status ≡ status
      → ClearOutcome id w (clear C D id w)
  unfolding clear
  clear_found id w o in_progress e s = clear_open id w o _ e s refl
  clear_found id w o initiated e s = rw (e, s) (too_early o e s)
  clear_found id w o cleared e s = rw (e, s) (already o e (inl s))
  clear_found id w o closed e s = rw (e, s) (already o e (inr s))

  -- Clearing an offboarding succeeds, and then marks it cleared, exactly when it is in progress and
  -- has no live clearance item that is pending or blocked; on one that is cleared or closed it is a
  -- no-op; on a missing row, one not in progress yet, or one with open items it fails with the
  -- matching error (and the number of open items); and only in the first case does any table change.
  pub clear-ClearOutcome : (id : ℕ) (w : State) → ClearOutcome id w (clear C D id w)
  unfolding clear
  clear-ClearOutcome id w = elim (Option-cases (find? (has_id C D id) w.db.offboardings)) [
    | inl e ↦ rw e (missing e)
    | inr (o, e) ↦ clear_found id w o o.status e refl
  ]

  -- The settlement that a closing computes.
  abbrev pub settlement_of :
      Sources C D
      → ℕ
      → Offboarding C D
      → Result (SettlementComputeError NaiveDate) (SettlementBreakdown NaiveDate Decimal)
  settlement_of src company_id o =
      compute_for_offboarding C D src company_id o.employee_id (display o.reason) o.last_working_day

  -- What `close` returns and leaves, branch by branch.
  pub data CloseOutcome (src : Sources C D) (company : Option ℕ) (event_id id : ℕ) (w : State)
      : Result (OffboardingCloseError NaiveDate) (Option ℕ) × State → Type 0 where
    unscoped : company ≡ none → CloseOutcome src company event_id id w (err no_company_scope, w)
    missing :
        find? (has_id C D id) w.db.offboardings ≡ none
        → CloseOutcome src company event_id id w (err (not_found id), w)
    already :
        (o : Offboarding C D)
        → find? (has_id C D id) w.db.offboardings ≡ some o
        → o.status ≡ closed
        → CloseOutcome src company event_id id w (ok none, w)
    uncleared :
        (o : Offboarding C D) (status : OffboardingStatus)
        → find? (has_id C D id) w.db.offboardings ≡ some o
        → (o.status ≡ status) × ((status ≡ initiated) ⊎ (status ≡ in_progress))
        → CloseOutcome src company event_id id w (err (not_cleared id status), w)
    uncomputed :
        (company_id : ℕ) (o : Offboarding C D) (e : SettlementComputeError NaiveDate)
        → find? (has_id C D id) w.db.offboardings ≡ some o
        → o.status ≡ cleared
        → settlement_of src company_id o ≡ err e
        → CloseOutcome src company event_id id w (err (from_compute e), w)
    done :
        (company_id : ℕ) (o : Offboarding C D) (b : SettlementBreakdown NaiveDate Decimal)
        → company ≡ some company_id
        → find? (has_id C D id) w.db.offboardings ≡ some o
        → o.status ≡ cleared
        → (settlement_of src company_id o ≡ ok b)
          × IsSettlement C D src company_id o.employee_id (display o.reason) o.last_working_day b
        → CloseOutcome src company event_id id w (
          ok (some event_id),
          record w {
            db =
                stage C D
                  (offboarding_closed (record {
                    event_id = event_id;
                    company_id = company_id;
                    offboarding_id = o.id;
                    employee_id = o.employee_id;
                    reason = o.reason;
                    last_working_day = o.last_working_day;
                    pesangon_breakdown = record {
                      fields = b;
                      pesangon = b.uang_pesangon;
                      upm = zero_d;
                      total = b.net_payable;
                    };
                  }))
                  (update_status C D id closed w.db);
          },
        )

  close_found :
      (src : Sources C D) (company_id event_id id : ℕ) (w : State) (o : Offboarding C D)
      (status : OffboardingStatus)
      → find? (has_id C D id) w.db.offboardings ≡ some o
      → o.status ≡ status
      → CloseOutcome src
          (some company_id)
          event_id
          id
          w
          (close C D src (some company_id) event_id id w)
  unfolding close to_event_payload
  close_found src company_id event_id id w o cleared e s =
      elim (Result-cases (settlement_of src company_id o)) [
        | inl (b, k) ↦
            rw (e, s, k)
              (done company_id o b refl e s (
                k,
                compute_for_offboarding-IsSettlement C D src company_id o.employee_id
                    (display o.reason) o.last_working_day k,
              ))
        | inr (x, k) ↦ rw (e, s, k) (uncomputed company_id o x e s k)
      ]
  close_found src company_id event_id id w o closed e s = rw (e, s) (already o e s)
  close_found src company_id event_id id w o initiated e s =
      rw (e, s) (uncleared o initiated e (s, inl refl))
  close_found src company_id event_id id w o in_progress e s =
      rw (e, s) (uncleared o in_progress e (s, inr refl))

  pub close-CloseOutcome :
      (src : Sources C D) (company : Option ℕ) (event_id id : ℕ) (w : State)
      → CloseOutcome src company event_id id w (close C D src company event_id id w)
  unfolding close
  close-CloseOutcome src none event_id id w = unscoped refl
  close-CloseOutcome src (some company_id) event_id id w =
      elim (Option-cases (find? (has_id C D id) w.db.offboardings)) [
        | inl e ↦ rw e (missing e)
        | inr (o, e) ↦ close_found src company_id event_id id w o o.status e refl
      ]
