-- ===== src/Offboarding.antt =====
-- src/application/service/offboarding_write_service.rs: the verbs on an offboarding. The org scope
-- of a request is the optional company; fresh ids are arguments.
pub mod Outcomes
pub mod Opened
pub mod Ledger
use backbone_lifecycle.Prelude.{
  ℕ, List, [], ◌∷◌, ◌++◌, String, Bool, true, false, not, ◌&&◌, ◌||◌, Option, none, some, Result,
  ok, err, map_err, ok_or, ltb, ◌==◌, str_eq, if◌then◌else◌, is_some, find?, update_rows,
  count_rows,
}
use backbone_lifecycle.Prelude.Verbs.{
  World, Verb, ◌>>=◌, ◌>>◌, pure, raise, raise_if, lift, query, fetch, execute, send, transaction,
  settled,
}
use backbone_lifecycle.Crates.Decimals.{Decimals}
use backbone_lifecycle.Crates.Calendar.{Calendar}
use backbone_lifecycle.Pesangon.Reason.{OffboardingReason, display, reason_arms, match_arm}
use backbone_lifecycle.Pesangon.Basis.{PesangonError}
use backbone_lifecycle.Pesangon.Compute.{SettlementBreakdown, to_event_payload}
use backbone_lifecycle.Settlement.Assembly.{
  DbError, db_error, Sources, SettlementComputeError, compute_for_offboarding,
}
use backbone_lifecycle.Store.{
  OffboardingStatus, in_progress, cleared, closed, ClearanceStatus, pending_item, blocked_item,
  ContractStatus, active, decision_pending, ClearanceItem, Offboarding, Contract, Tables,
}
use backbone_lifecycle.Store.Outbox.{OutboxRow, offboarding_closed}
use backbone_lifecycle.Store.Effects.{ContractType, pkwt, Effect, offboarding_opened}

pub data OffboardingCloseError (Date : Type 0) : Type 0 where
  not_found : ℕ → OffboardingCloseError Date
  not_cleared : ℕ → OffboardingStatus → OffboardingCloseError Date
  not_in_progress : ℕ → OffboardingStatus → OffboardingCloseError Date
  clearance_open : ℕ → ℕ → OffboardingCloseError Date
  missing_join_date : ℕ → OffboardingCloseError Date
  missing_salary : ℕ → OffboardingCloseError Date
  bad_reason : String → OffboardingCloseError Date
  invalid : String → OffboardingCloseError Date
  pesangon : PesangonError Date → OffboardingCloseError Date
  no_company_scope : OffboardingCloseError Date
  db : DbError → OffboardingCloseError Date
  panicked : OffboardingCloseError Date

-- `From<SettlementComputeError>`
unfoldable pub from_compute :
    {Date : Type 0} → SettlementComputeError Date → OffboardingCloseError Date
from_compute (SettlementComputeError.missing_join_date e) = missing_join_date e
from_compute (SettlementComputeError.missing_salary e) = missing_salary e
from_compute (SettlementComputeError.bad_reason r) = bad_reason r
from_compute (SettlementComputeError.pesangon p) = pesangon p
from_compute (SettlementComputeError.db d) = db d
from_compute SettlementComputeError.panicked = panicked

abbrev pub is_in_progress : OffboardingStatus → Bool
is_in_progress in_progress = true
is_in_progress _ = false

abbrev pub is_cleared : OffboardingStatus → Bool
is_cleared cleared = true
is_cleared _ = false

abbrev pub is_closed : OffboardingStatus → Bool
is_closed closed = true
is_closed _ = false

abbrev pub is_open_item : ClearanceStatus → Bool
is_open_item pending_item = true
is_open_item blocked_item = true
is_open_item _ = false

abbrev pub is_pkwt : ContractType → Bool
is_pkwt pkwt = true
is_pkwt _ = false

-- `status IN ('active', 'decision_pending')`
abbrev pub is_live_contract : ContractStatus → Bool
is_live_contract active = true
is_live_contract decision_pending = true
is_live_contract _ = false

-- `NULLIF($3, '')::offboarding_reason` into a column that is NOT NULL: the labels of the database
-- enum are those of `Display`, and anything else fails the statement.
abbrev pub stored_reason : Option String → Option OffboardingReason
stored_reason none = none
stored_reason (some s) = if str_eq s "" then none else match_arm s reason_arms

abbrev pub is_end_of_contract : Option String → Bool
is_end_of_contract none = false
is_end_of_contract (some s) = str_eq s "end_of_contract"

module _ (C : Calendar) (D : Decimals) where
  open C use {NaiveDate}
  open D use {Decimal}

  pub record NewOffboarding : Type 0 where
    pub employee_id : ℕ
    pub reason : Option String
    pub notice_date : NaiveDate
    pub last_working_day : NaiveDate

  -- A verb of this service.
  abbrev pub Action : Type 0 → Type 0
  Action A = Verb (Tables C D) (Effect NaiveDate Decimal) (OffboardingCloseError NaiveDate) A

  abbrev pub has_id : ℕ → Offboarding C D → Bool
  has_id id o = o.id == id

  abbrev pub set_status : OffboardingStatus → Offboarding C D → Offboarding C D
  set_status status o = record o { status = status }

  -- UPDATE lifecycle.offboardings SET status = … WHERE id = $1
  abbrev pub update_status : ℕ → OffboardingStatus → Tables C D → Tables C D
  update_status id status t = record t {
    offboardings = update_rows (has_id id) (set_status status) t.offboardings;
  }

  -- The guard on an `end_of_contract` exit.
  abbrev pub has_live_pkwt : ℕ → Contract C D → Bool
  has_live_pkwt employee_id c =
      (c.employee_id == employee_id)
      && is_pkwt c.contract_type
      && is_live_contract c.status
      && not c.deleted

  abbrev pub pkwt_guard : NewOffboarding → Action (Unit {0})
  pkwt_guard input =
      if is_end_of_contract input.reason
      then fetch (λ t. find? (has_live_pkwt input.employee_id) t.contracts)
          (invalid
            "an end_of_contract offboarding needs an active PKWT contract behind it — file the contract decision first")
        >> pure tt
      else pure tt

  unfoldable pub create : ℕ → NewOffboarding → Action ℕ
  create id input = do
    transaction do
      pkwt_guard input
      reason ← fetch (λ _. stored_reason input.reason) (db db_error)
      execute (λ t. record t {
        offboardings =
            t.offboardings
            ++ record {
              id = id;
              employee_id = input.employee_id;
              reason = reason;
              notice_date = input.notice_date;
              last_working_day = input.last_working_day;
              status = in_progress;
              final_settlement_id = none;
            }
              ∷ [];
      })
    send (offboarding_opened id input.employee_id input.last_working_day)
    pure id

  abbrev pub is_open_for : ℕ → ClearanceItem → Bool
  is_open_for offboarding_id i =
      (i.offboarding_id == offboarding_id) && is_open_item i.status && not i.deleted

  unfoldable pub clear : ℕ → Action Bool
  clear id = transaction do
    o ← fetch (λ t. find? (has_id id) t.offboardings) (not_found id)
    if is_cleared o.status || is_closed o.status
        then pure false
        else if not (is_in_progress o.status)
        then raise (not_in_progress id o.status)
        else do
          open_count ← query (λ t. count_rows (is_open_for id) t.clearance_items)
          raise_if (ltb 0 open_count) (clearance_open id open_count)
          execute (update_status id cleared)
          pure true

  -- The staged event.
  abbrev pub closed_event :
      ℕ → ℕ → Offboarding C D → SettlementBreakdown NaiveDate Decimal → OutboxRow C D
  closed_event event_id company_id o b = offboarding_closed (record {
    event_id = event_id;
    company_id = company_id;
    offboarding_id = o.id;
    employee_id = o.employee_id;
    reason = o.reason;
    last_working_day = o.last_working_day;
    pesangon_breakdown = to_event_payload D b;
  })

  abbrev pub stage : OutboxRow C D → Tables C D → Tables C D
  stage e t = record t { outbox_events = t.outbox_events ++ e ∷ [] }

  unfoldable pub close : Sources C D → Option ℕ → ℕ → ℕ → Action (Option ℕ)
  close src company event_id id = do
    company_id ← lift (ok_or company no_company_scope)
    transaction do
      o ← fetch (λ t. find? (has_id id) t.offboardings) (not_found id)
      if is_closed o.status
          then pure none
          else if not (is_cleared o.status)
          then raise (not_cleared id o.status)
          else do
            b ← lift (
                map_err from_compute (
                  compute_for_offboarding C D src company_id o.employee_id (display o.reason)
                    o.last_working_day))
            execute (update_status id closed)
            execute (stage (closed_event event_id company_id o b))
            pure (some event_id)
