-- ===== src/Contract/Applying.antt =====
-- What `apply_decision` of src/application/service/contract_write_service.rs does, branch by branch.
use backbone_lifecycle.Prelude.{
  ℕ, ◌+◌, ◌≡◌, inl, inr, refl, [], ◌∷◌, ◌++◌, Bool, true, false, Option, none, some, Option-cases,
  Result, ok, err, find?,
}
use backbone_lifecycle.Prelude.Verbs.{World}
use backbone_lifecycle.Crates.Decimals.{Decimals}
use backbone_lifecycle.Crates.Calendar.{Calendar, le_date}
use backbone_lifecycle.Settlement.Assembly.{db_error}
use backbone_lifecycle.Store.{
  ContractStatus, active, decision_pending, superseded, ended, Contract, Tables,
}
use backbone_lifecycle.Store.Effects.{
  pkwt, pkwtt, ContractDecision, renew, convert, end, Effect, contract_decided,
}
use backbone_lifecycle.Contract.{
  ContractError, db, not_found, not_pending, invalid, renewal_not_later, renewal_lost_end,
  end_lost_end, is_settled, renewal_start, months_between, is_contract, is_active_for,
  insert_contract, set_status,
}
use backbone_lifecycle.Contract.Decisions.{
  next_contract, succeed_by, end_offboarding, decide, apply_decision,
}

module _ (C : Calendar) (D : Decimals) where
  open C use {NaiveDate}
  open D use {Decimal}

  abbrev pub State : Type 0
  State = World (Tables C D) (Effect NaiveDate Decimal)

  -- The contract that a decision finds pending.
  pub record IsPending (id : ℕ) (w : State) (c : Contract C D) : Type 0 where
    pub found : find? (is_contract C D id) w.db.contracts ≡ some c
    pub pending : c.status ≡ decision_pending

  -- Whether the employment has another active contract.
  abbrev pub rival : State → Contract C D → Option (Contract C D)
  rival w c = find? (is_active_for C D c.employment_id) w.db.contracts

  -- The contract that a decision starts, if its dates are in order.
  pub data Start (new_id : ℕ) (today : NaiveDate) (c : Contract C D)
      : ContractDecision → Option NaiveDate → Contract C D → Type 0 where
    renewed :
        (e : NaiveDate)
        → le_date C e (renewal_start C c.end_date today) ≡ false
        → Start new_id today c renew (some e) (
            next_contract C D new_id pkwt
              (renewal_start C c.end_date today)
              (some e)
              (c.cumulative_pkwt_months + months_between C (renewal_start C c.end_date today) e)
              c)
    converted :
        (new_end_date : Option NaiveDate)
        → Start new_id today c convert new_end_date (next_contract C D new_id pkwtt today none 0 c)

  abbrev pub decided_in : State → ℕ → Contract C D → ContractDecision → Tables C D → State
  decided_in w id c outcome t = record {
    db = t;
    sent = w.sent ++ contract_decided id c.employee_id outcome ∷ [];
  }

  -- What `apply_decision` returns and leaves, branch by branch.
  pub data ApplyOutcome (new_id : ℕ) (today : NaiveDate) (id : ℕ) (w : State)
      : ContractDecision → Option NaiveDate → Result ContractError (Option ℕ) × State → Type 0 where
    missing :
        (outcome : ContractDecision) (new_end_date : Option NaiveDate)
        → find? (is_contract C D id) w.db.contracts ≡ none
        → ApplyOutcome new_id today id w outcome new_end_date (err (not_found "contract"), w)
    replay :
        (outcome : ContractDecision) (new_end_date : Option NaiveDate) (c : Contract C D)
        → find? (is_contract C D id) w.db.contracts ≡ some c
        → is_settled c.status ≡ true
        → ApplyOutcome new_id today id w outcome new_end_date (ok none, w)
    unfiled :
        (outcome : ContractDecision) (new_end_date : Option NaiveDate) (c : Contract C D)
        → find? (is_contract C D id) w.db.contracts ≡ some c
        → c.status ≡ active
        → ApplyOutcome new_id today id w outcome new_end_date (err (not_pending (some active)), w)
    endless :
        (c : Contract C D)
        → IsPending id w c
        → ApplyOutcome new_id today id w renew none (err (invalid renewal_lost_end), w)
    too_early :
        (c : Contract C D) (e : NaiveDate)
        → IsPending id w c
        → le_date C e (renewal_start C c.end_date today) ≡ true
        → ApplyOutcome new_id today id w renew (some e) (err (invalid renewal_not_later), w)
    rivalled :
        {outcome : ContractDecision} {new_end_date : Option NaiveDate} (c next other : Contract C D)
        → IsPending id w c
        → Start new_id today c outcome new_end_date next
        → rival w c ≡ some other
        → ApplyOutcome new_id today id w outcome new_end_date (err (db db_error), w)
    succeeded :
        {outcome : ContractDecision} {new_end_date : Option NaiveDate} (c next : Contract C D)
        → IsPending id w c
        → Start new_id today c outcome new_end_date next
        → rival w c ≡ none
        → ApplyOutcome new_id today id w outcome new_end_date (
          ok none,
          decided_in w id c outcome
              (set_status C D c.id superseded (insert_contract C D next w.db)),
        )
    termless :
        (c : Contract C D) (new_end_date : Option NaiveDate)
        → IsPending id w c
        → c.end_date ≡ none
        → ApplyOutcome new_id today id w end new_end_date (err (invalid end_lost_end), w)
    term_ended :
        (c : Contract C D) (new_end_date : Option NaiveDate) (last_day : NaiveDate)
        → IsPending id w c
        → c.end_date ≡ some last_day
        → ApplyOutcome new_id today id w end new_end_date (
          ok (some new_id),
          decided_in w id c end (
              let t = set_status C D c.id ended w.db in
              record t {
                offboardings =
                    t.offboardings ++ end_offboarding C D new_id c.employee_id today last_day ∷ [];
              }),
        )

  apply_renew :
      (new_id : ℕ) (today : NaiveDate) (id : ℕ) (w : State) (c : Contract C D) (e : NaiveDate)
      (early : Bool) (other : Option (Contract C D))
      → IsPending id w c
      → le_date C e (renewal_start C c.end_date today) ≡ early
      → rival w c ≡ other
      → ApplyOutcome new_id today id w renew
          (some e)
          (apply_decision C D new_id today id renew (some e) w)
  unfolding apply_decision decide succeed_by
  apply_renew new_id today id w c e true other p k r =
      rw (p.found, p.pending, k) (too_early c e p k)
  apply_renew new_id today id w c e false none p k r =
      rw (p.found, p.pending, k, r) (succeeded c _ p (renewed e k) r)
  apply_renew new_id today id w c e false (some o) p k r =
      rw (p.found, p.pending, k, r) (rivalled c _ o p (renewed e k) r)

  apply_convert :
      (new_id : ℕ) (today : NaiveDate) (id : ℕ) (w : State) (c : Contract C D)
      (new_end_date : Option NaiveDate) (other : Option (Contract C D))
      → IsPending id w c
      → rival w c ≡ other
      → ApplyOutcome new_id today id w convert new_end_date
          (apply_decision C D new_id today id convert new_end_date w)
  unfolding apply_decision decide succeed_by
  apply_convert new_id today id w c new_end_date none p r =
      rw (p.found, p.pending, r) (succeeded c _ p (converted new_end_date) r)
  apply_convert new_id today id w c new_end_date (some o) p r =
      rw (p.found, p.pending, r) (rivalled c _ o p (converted new_end_date) r)

  apply_end :
      (new_id : ℕ) (today : NaiveDate) (id : ℕ) (w : State) (c : Contract C D)
      (new_end_date last : Option NaiveDate)
      → IsPending id w c
      → c.end_date ≡ last
      → ApplyOutcome new_id today id w end new_end_date
          (apply_decision C D new_id today id end new_end_date w)
  unfolding apply_decision decide
  apply_end new_id today id w c new_end_date none p k =
      rw (p.found, p.pending, k) (termless c new_end_date p k)
  apply_end new_id today id w c new_end_date (some d) p k =
      rw (p.found, p.pending, k) (term_ended c new_end_date d p k)

  apply_pending :
      (new_id : ℕ) (today : NaiveDate) (id : ℕ) (w : State) (c : Contract C D)
      (outcome : ContractDecision) (new_end_date : Option NaiveDate)
      → IsPending id w c
      → ApplyOutcome new_id today id w outcome new_end_date
          (apply_decision C D new_id today id outcome new_end_date w)
  unfolding apply_decision decide
  apply_pending new_id today id w c renew none p = rw (p.found, p.pending) (endless c p)
  apply_pending new_id today id w c renew (some e) p =
      apply_renew new_id today id w c e _ _ p refl refl
  apply_pending new_id today id w c convert n p = apply_convert new_id today id w c n _ p refl
  apply_pending new_id today id w c end n p = apply_end new_id today id w c n _ p refl

  apply_found :
      (new_id : ℕ) (today : NaiveDate) (id : ℕ) (w : State) (c : Contract C D)
      (status : ContractStatus) (outcome : ContractDecision) (new_end_date : Option NaiveDate)
      → find? (is_contract C D id) w.db.contracts ≡ some c
      → c.status ≡ status
      → ApplyOutcome new_id today id w outcome new_end_date
          (apply_decision C D new_id today id outcome new_end_date w)
  unfolding apply_decision
  apply_found new_id today id w c active outcome n e s = rw (e, s) (unfiled outcome n c e s)
  apply_found new_id today id w c decision_pending outcome n e s =
      apply_pending new_id today id w c outcome n (record { found = e; pending = s })
  apply_found new_id today id w c superseded outcome n e s =
      rw (e, s) (replay outcome n c e (rw s refl))
  apply_found new_id today id w c ended outcome n e s = rw (e, s) (replay outcome n c e (rw s refl))

  -- Applying a decision, on every branch. A pending contract is renewed from the day after its term
  -- (with its months added to the chain's), converted from today (with the count reset), or ended
  -- with an offboarding at its last day; the contract is then superseded or ended, and the decision
  -- is announced after the commit. A settled contract is a replay without an announcement. A missing
  -- contract, one without a filed decision, a renewal without a later end, an end without a term and
  -- an employment with another active contract are errors that change no table and announce nothing.
  pub apply_decision-ApplyOutcome :
      (new_id : ℕ) (today : NaiveDate) (id : ℕ) (outcome : ContractDecision)
      (new_end_date : Option NaiveDate) (w : State)
      → ApplyOutcome new_id today id w outcome new_end_date
          (apply_decision C D new_id today id outcome new_end_date w)
  unfolding apply_decision
  apply_decision-ApplyOutcome new_id today id outcome n w =
      elim (Option-cases (find? (is_contract C D id) w.db.contracts)) [
        | inl e ↦ rw e (missing outcome n e)
        | inr (c, e) ↦ apply_found new_id today id w c c.status outcome n e refl
      ]
