-- ===== src/Contract/Decisions.antt =====
-- src/application/service/contract_write_service.rs: applying and refusing a filed decision.
use backbone_lifecycle.Prelude.{
  ℕ, ◌+◌, ◌++◌, [], ◌∷◌, Option, none, some, Bool, false, not, ok_or, ◌==◌, ◌&&◌, if◌then◌else◌,
  find?, update_rows, count_rows,
}
use backbone_lifecycle.Prelude.Verbs.{
  ◌>>=◌, ◌>>◌, pure, raise_if, lift, query, fetch, execute, send, transaction,
}
use backbone_lifecycle.Crates.Decimals.{Decimals}
use backbone_lifecycle.Crates.Calendar.{Calendar, le_date}
use backbone_lifecycle.Pesangon.Reason.{end_of_contract}
use backbone_lifecycle.Settlement.Assembly.{db_error}
use backbone_lifecycle.Store.{in_progress, active, superseded, ended, Contract, Offboarding}
use backbone_lifecycle.Store.Effects.{
  ContractType, pkwt, pkwtt, ContractDecision, renew, convert, end, contract_decided,
}
use backbone_lifecycle.Contract.{
  db, not_found, not_pending, invalid, renewal_not_later, renewal_lost_end, end_lost_end,
  is_decision_pending, is_settled, renewal_start, months_between, Action, is_contract,
  insert_contract, set_status, ends_early, index_admits,
}

module _ (C : Calendar) (D : Decimals) where
  open C use {NaiveDate}

  -- The contract that a renewal or a conversion starts.
  abbrev pub next_contract :
      ℕ → ContractType → NaiveDate → Option NaiveDate → ℕ → Contract C D → Contract C D
  next_contract id contract_type start end_date cumulative c = record {
    id = id;
    employment_id = c.employment_id;
    employee_id = c.employee_id;
    contract_type = contract_type;
    start_date = start;
    end_date = end_date;
    status = active;
    previous_contract_id = some c.id;
    cumulative_pkwt_months = cumulative;
    reminder_sent_at = none;
    deleted = false;
  }

  -- The INSERT, that the unique index may refuse, and the UPDATE of the contract it follows.
  unfoldable pub succeed_by : Contract C D → Contract C D → Action C D (Option ℕ)
  succeed_by c next = do
    index_admits C D (db db_error) c.employment_id
    execute (insert_contract C D next)
    execute (set_status C D c.id superseded)
    pure none

  -- The offboarding that the end of a term opens.
  abbrev pub end_offboarding : ℕ → ℕ → NaiveDate → NaiveDate → Offboarding C D
  end_offboarding id employee_id today last_day = record {
    id = id;
    employee_id = employee_id;
    reason = end_of_contract;
    notice_date = if le_date C today last_day then today else last_day;
    last_working_day = last_day;
    status = in_progress;
    final_settlement_id = none;
  }

  -- The decision on a pending contract; the result is the offboarding opened.
  unfoldable pub decide :
      (new_id : ℕ) (today : NaiveDate)
      → ContractDecision
      → Option NaiveDate
      → Contract C D
      → Action C D (Option ℕ)
  decide new_id today renew new_end_date c = do
    new_end ← lift (ok_or new_end_date (invalid renewal_lost_end))
    let start = renewal_start C c.end_date today
    raise_if (ends_early C D start (some new_end)) (invalid renewal_not_later)
    succeed_by c (
        next_contract new_id pkwt start (some new_end)
          (c.cumulative_pkwt_months + months_between C start new_end) c)
  decide new_id today convert new_end_date c =
      succeed_by c (next_contract new_id pkwtt today none 0 c)
  decide new_id today end new_end_date c = do
    last_day ← lift (ok_or c.end_date (invalid end_lost_end))
    execute (set_status C D c.id ended)
    execute (λ t. record t {
      offboardings = t.offboardings ++ end_offboarding new_id c.employee_id today last_day ∷ [];
    })
    pure (some new_id)

  -- The event after the commit, unless the verb was a replay.
  abbrev pub announce : ℕ → ContractDecision → Option (ℕ × Option ℕ) → Action C D (Option ℕ)
  announce contract_id outcome none = pure none
  announce contract_id outcome (some (employee_id, offboarding_id)) =
      send (contract_decided contract_id employee_id outcome) >> pure offboarding_id

  unfoldable pub apply_decision :
      (new_id : ℕ) (today : NaiveDate)
      → (contract_id : ℕ) → ContractDecision
      → (new_end_date : Option NaiveDate) → Action C D (Option ℕ)
  apply_decision new_id today contract_id outcome new_end_date = do
    decided ← transaction do
      c ← fetch (λ t. find? (is_contract C D contract_id) t.contracts) (not_found "contract")
      if is_settled c.status then pure none else do
        raise_if (not (is_decision_pending c.status)) (not_pending (some c.status))
        offboarding_id ← decide new_id today outcome new_end_date c
        pure (some (c.employee_id, offboarding_id))
    announce contract_id outcome decided

  abbrev pub is_pending_contract : ℕ → Contract C D → Bool
  is_pending_contract id c = (c.id == id) && is_decision_pending c.status

  -- The active row whose index entry a row made active again would repeat.
  abbrev pub refuse_admits : Option (Contract C D) → Action C D (Unit {0})
  refuse_admits none = pure tt
  refuse_admits (some c) = index_admits C D (db db_error) c.employment_id

  -- The UPDATE and its number of rows, then the commit, then the error.
  unfoldable pub refuse_decision : ℕ → Action C D (Unit {0})
  refuse_decision contract_id = do
    moved ← transaction do
      pending ← query (λ t. find? (is_pending_contract contract_id) t.contracts)
      refuse_admits pending
      moved ← query (λ t. count_rows (is_pending_contract contract_id) t.contracts)
      execute (λ t. record t {
        contracts =
            update_rows (is_pending_contract contract_id) (λ c. record c { status = active })
              t.contracts;
      })
      pure moved
    raise_if (not (moved == 1)) (not_pending none)
