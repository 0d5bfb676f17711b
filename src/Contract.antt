-- ===== src/Contract.antt =====
-- src/application/service/contract_write_service.rs: the verbs on an employment contract. Fresh ids
-- and today's date are arguments. The table has a unique index on the employment of active rows.
mod Errors
pub mod Decisions
pub mod Reminders
pub mod Applying
pub mod Filing
pub mod Renewal
use backbone_lifecycle.Prelude.{
  ℕ, suc, ◌+◌, ◌-◌, ◌*◌, List, [], ◌∷◌, ◌++◌, String, Bool, true, false, not, ◌&&◌, ◌||◌, Option,
  none, some, Result, ok, err, map_err, ok_or, ltb, leb, ◌==◌, str_eq, if◌then◌else◌, is_some,
  find?, update_rows, select_rows, count_rows,
}
use backbone_lifecycle.Prelude.Verbs.{
  World, Verb, ◌>>=◌, ◌>>◌, pure, raise, raise_if, lift, query, fetch, execute, send, transaction,
}
use backbone_lifecycle.Crates.Decimals.{Decimals}
use backbone_lifecycle.Crates.Calendar.{Calendar, le_date, lt_date}
use backbone_lifecycle.Pesangon.Reason.{end_of_contract}
use backbone_lifecycle.Settlement.Assembly.{DbError, db_error}
use backbone_lifecycle.Store.{
  in_progress, ContractStatus, active, decision_pending, superseded, ended, Contract, Offboarding,
  Tables,
}
use backbone_lifecycle.Store.Effects.{
  ContractType, pkwt, pkwtt, ContractDecision, renew, convert, end, ContractDecisionFiling, Effect,
  contract_expiring, contract_decided, decision_filed,
}
use backbone_lifecycle.Offboarding.{is_pkwt}
pub use Errors.{
  Complaint, bad_type, pkwt_needs_end, end_not_after_start, only_pkwt_renews, renewal_needs_end,
  renewal_not_later, only_pkwt_converts, only_fixed_term_ends, renewal_lost_end, end_lost_end,
  ContractError, db, not_found, already_active, not_pending, invalid, unwired, transport,
}
unfoldable pub use Errors.{code, http_status}

-- `ContractDecision::parse`, `as_str`
unfoldable pub parse : String → Option ContractDecision
parse s =
    if str_eq s "renew"
    then some renew
    else if str_eq s "convert"
    then some convert
    else if str_eq s "end"
    then some end
    else none

unfoldable pub as_str : ContractDecision → String
as_str renew = "renew"
as_str convert = "convert"
as_str end = "end"

-- The type that a request names.
abbrev pub contract_type_of : String → Option ContractType
contract_type_of s =
    if str_eq s "pkwt" then some pkwt else if str_eq s "pkwtt" then some pkwtt else none

abbrev pub is_active : ContractStatus → Bool
is_active active = true
is_active _ = false

abbrev pub is_decision_pending : ContractStatus → Bool
is_decision_pending decision_pending = true
is_decision_pending _ = false

abbrev pub is_settled : ContractStatus → Bool
is_settled superseded = true
is_settled ended = true
is_settled _ = false

module _ (C : Calendar) where
  open C use {NaiveDate, year, month, day, succ_opt}

  abbrev pub next_day : NaiveDate → Option NaiveDate → NaiveDate
  next_day t none = t
  next_day t (some u) = u

  unfoldable pub renewal_start : Option NaiveDate → NaiveDate → NaiveDate
  renewal_start none today = today
  renewal_start (some e) today = if le_date C today e then next_day e (succ_opt e) else today

  -- The largest of zero and the difference, less one for an unfinished month.
  unfoldable pub months_between : NaiveDate → NaiveDate → ℕ
  months_between from to =
      let months = (year to * 12 + month to) - (year from * 12 + month from) in
      if ltb (day to) (day from) then months - 1 else months

module _ (C : Calendar) (D : Decimals) where
  open C use {NaiveDate, DateTime, days, date_naive}
  open D use {Decimal}

  abbrev pub Action : Type 0 → Type 0
  Action A = Verb (Tables C D) (Effect NaiveDate Decimal) ContractError A

  pub record NewContract : Type 0 where
    pub employment_id : ℕ
    pub employee_id : ℕ
    pub contract_type : String
    pub start_date : NaiveDate
    pub end_date : Option NaiveDate

  abbrev pub is_contract : ℕ → Contract C D → Bool
  is_contract id c = c.id == id

  -- The rows of the unique index.
  abbrev pub is_active_for : ℕ → Contract C D → Bool
  is_active_for employment_id c = (c.employment_id == employment_id) && is_active c.status

  abbrev pub is_active_contract : ℕ → Contract C D → Bool
  is_active_contract id c = (c.id == id) && is_active c.status && not c.deleted

  abbrev pub insert_contract : Contract C D → Tables C D → Tables C D
  insert_contract c t = record t { contracts = t.contracts ++ c ∷ [] }

  abbrev pub set_status : ℕ → ContractStatus → Tables C D → Tables C D
  set_status id status t = record t {
    contracts = update_rows (is_contract id) (λ c. record c { status = status }) t.contracts;
  }

  -- An end that is not after the start.
  abbrev pub ends_early : NaiveDate → Option NaiveDate → Bool
  ends_early start none = false
  ends_early start (some e) = le_date C e start

  abbrev pub term_months : NaiveDate → Option NaiveDate → ℕ
  term_months start none = 0
  term_months start (some e) = months_between C start e

  -- The unique index refuses a second active row of an employment.
  abbrev pub index_admits : ContractError → ℕ → Action (Unit {0})
  index_admits failure employment_id =
      query (λ t. find? (is_active_for employment_id) t.contracts) >>= λ taken.
      raise_if (is_some taken) failure

  unfoldable pub create : ℕ → NewContract → Action ℕ
  create id n = do
    contract_type ←
        lift (ok_or (contract_type_of n.contract_type) (invalid (bad_type n.contract_type)))
    raise_if (is_pkwt contract_type && not (is_some n.end_date)) (invalid pkwt_needs_end)
    raise_if (ends_early n.start_date n.end_date) (invalid end_not_after_start)
    transaction do
      index_admits already_active n.employment_id
      execute (
          insert_contract (record {
            id = id;
            employment_id = n.employment_id;
            employee_id = n.employee_id;
            contract_type = contract_type;
            start_date = n.start_date;
            end_date = n.end_date;
            status = active;
            previous_contract_id = none;
            cumulative_pkwt_months =
                if is_pkwt contract_type then term_months n.start_date n.end_date else 0;
            reminder_sent_at = none;
            deleted = false;
          }))
      pure id

  -- What an outcome needs of the contract and of the request.
  unfoldable pub check_outcome :
      ContractDecision
      → Option NaiveDate
      → NaiveDate
      → Contract C D
      → Result ContractError (Unit {0})
  check_outcome renew new_end_date today c =
      if not (is_pkwt c.contract_type)
      then err (invalid only_pkwt_renews)
      else if not (is_some new_end_date)
      then err (invalid renewal_needs_end)
      else if ends_early (renewal_start C c.end_date today) new_end_date
      then err (invalid renewal_not_later)
      else ok tt
  check_outcome convert new_end_date today c =
      if is_pkwt c.contract_type then ok tt else err (invalid only_pkwt_converts)
  check_outcome end new_end_date today c =
      if is_some c.end_date then ok tt else err (invalid only_fixed_term_ends)

  abbrev pub filing_of :
      ContractDecision → Option NaiveDate → Contract C D → ContractDecisionFiling NaiveDate
  filing_of outcome new_end_date c = record {
    contract_id = c.id;
    employment_id = c.employment_id;
    employee_id = c.employee_id;
    contract_type = c.contract_type;
    end_date = c.end_date;
    outcome = outcome;
    new_end_date = new_end_date;
  }

  -- The approvals engine's answer to a filing, after what it was sent before.
  abbrev pub ContractApprovalsPort : Type 0
  ContractApprovalsPort =
      List (Effect NaiveDate Decimal) → ContractDecisionFiling NaiveDate → Result String ℕ

  unfoldable pub unwired_approvals : ContractApprovalsPort
  unwired_approvals _ _ = err "unwired"

  abbrev pub file : ContractApprovalsPort → ContractDecisionFiling NaiveDate → Action ℕ
  file port filing w = (
    map_err transport (port w.sent filing),
    record w { sent = w.sent ++ decision_filed filing ∷ [] },
  )

  unfoldable pub file_decision :
      ContractApprovalsPort
      → (today : NaiveDate) → (contract_id : ℕ) → ContractDecision
      → (new_end_date : Option NaiveDate) → Action ℕ
  file_decision port today contract_id outcome new_end_date = transaction do
    c ←
        fetch (λ t. find? (is_active_contract contract_id) t.contracts)
          (not_found "active contract")
    lift (check_outcome outcome new_end_date today c)
    request_id ← file port (filing_of outcome new_end_date c)
    execute (set_status contract_id decision_pending)
    pure request_id
