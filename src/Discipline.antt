-- ===== src/Discipline.antt =====
-- src/application/service/discipline_write_service.rs: the verbs on a warning letter. The approvals
-- port is a parameter; fresh ids and the time of the call are arguments.
pub mod Errors
pub mod Moves
pub mod Outcomes
pub mod Issuing
pub mod Overlaps
pub mod Runs
use backbone_lifecycle.Prelude.{
  ℕ, List, [], ◌∷◌, ◌++◌, String, Bool, true, false, not, ◌&&◌, ◌||◌, Option, none, some, Result,
  ok, err, map_err, leb, ◌==◌, str_eq, if◌then◌else◌, find?, update_rows, count_rows,
}
use backbone_lifecycle.Prelude.Texts.{trim, is_empty}
use backbone_lifecycle.Prelude.Verbs.{
  World, Verb, ◌>>=◌, ◌>>◌, pure, raise_if, lift, query, fetch, execute, send, transaction,
}
use backbone_lifecycle.Crates.Decimals.{Decimals}
use backbone_lifecycle.Crates.Calendar.{Calendar}
use backbone_lifecycle.Store.{
  DisciplineStatus, issued, acknowledged, acknowledged_pending, contested, cancelled,
  ServedDisposition, delivered, witnessed_refusal, DisciplineRecord, Tables,
}
use backbone_lifecycle.Store.Effects.{
  DisciplineLevel, sp1, sp2, sp3, Effect, ContestFiling, contest_filed, discipline_issued,
}
use Errors.{
  Refusal, not_own, changed, terminal, is_not, bad_level, bad_disposition, no_text, not_future,
  no_contest_reason, no_cancel_reason, DisciplineError, not_found, invalid_state, invalid,
  contest_transport,
}

-- The labels of the database enums, which are the texts that `issue` accepts.
abbrev pub level_of : String → Option DisciplineLevel
level_of s =
    if str_eq s "sp1"
    then some sp1
    else if str_eq s "sp2"
    then some sp2
    else if str_eq s "sp3"
    then some sp3
    else none

abbrev pub disposition_of : String → Option ServedDisposition
disposition_of s =
    if str_eq s "delivered"
    then some delivered
    else if str_eq s "witnessed_refusal"
    then some witnessed_refusal
    else none

abbrev pub is_sp1 : DisciplineLevel → Bool
is_sp1 sp1 = true
is_sp1 _ = false

abbrev pub is_sp2 : DisciplineLevel → Bool
is_sp2 sp2 = true
is_sp2 _ = false

-- `status IN ('issued', 'acknowledged', 'acknowledged_pending')`
abbrev pub is_standing : DisciplineStatus → Bool
is_standing issued = true
is_standing acknowledged = true
is_standing acknowledged_pending = true
is_standing _ = false

-- `status IN ('issued', 'acknowledged_pending')`
abbrev pub is_unanswered : DisciplineStatus → Bool
is_unanswered issued = true
is_unanswered acknowledged_pending = true
is_unanswered _ = false

abbrev pub is_cancelled : DisciplineStatus → Bool
is_cancelled cancelled = true
is_cancelled _ = false

abbrev pub is_contested : DisciplineStatus → Bool
is_contested contested = true
is_contested _ = false

abbrev both : ℕ → ℕ → ℕ × ℕ
both a b = (a, b)

-- `move_status` before it writes: `contested` is the only status that a caller asks for, and any
-- will do where none is asked for.
unfoldable pub may_move :
    (asks_contested : Bool)
    → DisciplineStatus
    → DisciplineStatus
    → Result DisciplineError (Unit {0})
may_move asks_contested to current =
    if is_cancelled current && not (is_cancelled to)
    then err (invalid_state terminal)
    else if asks_contested && not (is_contested current)
    then err (invalid_state (is_not current contested))
    else ok tt

module _ (C : Calendar) (D : Decimals) where
  open C use {NaiveDate, DateTime}
  open D use {Decimal}

  abbrev pub Action : Type 0 → Type 0
  Action A = Verb (Tables C D) (Effect NaiveDate Decimal) DisciplineError A

  pub record NewDisciplineRecord : Type 0 where
    pub employee_id : ℕ
    pub level : String
    pub offense : String
    pub description : String
    pub valid_until : DateTime
    pub served_disposition : String
    pub document_file_id : Option ℕ
    pub issued_by : Option ℕ

  -- `file_contest`, knowing what was sent before. The default port answers the error "unwired".
  abbrev pub DisciplineApprovalsPort : Type 0
  DisciplineApprovalsPort = List (Effect NaiveDate Decimal) → ContestFiling → Result String ℕ

  abbrev pub unwired_approvals : DisciplineApprovalsPort
  unwired_approvals _ _ = err "unwired"

  -- ACTIVE_PREDICATE, `valid_until >= now()`
  abbrev pub is_active : DateTime → DisciplineRecord C D → Bool
  is_active now r =
      is_standing r.status && leb (C.timestamp now) (C.timestamp r.valid_until) && not r.deleted

  -- count(*) FILTER (WHERE level = …) over the employee's active records
  abbrev pub prior : DateTime → ℕ → (DisciplineLevel → Bool) → Tables C D → ℕ
  prior now employee_id p t =
      count_rows (λ r. (r.employee_id == employee_id) && is_active now r && p r.level)
        t.discipline_records

  abbrev pub is_record : ℕ → DisciplineRecord C D → Bool
  is_record id r = r.id == id

  abbrev pub is_own_unanswered : ℕ → ℕ → DisciplineRecord C D → Bool
  is_own_unanswered id employee_id r =
      (r.id == id) && (r.employee_id == employee_id) && is_unanswered r.status && not r.deleted

  abbrev pub update_records :
      (DisciplineRecord C D → Bool)
      → (DisciplineRecord C D → DisciplineRecord C D)
      → Tables C D
      → Tables C D
  update_records p f t = record t { discipline_records = update_rows p f t.discipline_records }

  abbrev pub issued_row :
      DateTime
      → ℕ
      → NewDisciplineRecord
      → DisciplineLevel
      → ServedDisposition
      → ℕ
      → ℕ
      → DisciplineRecord C D
  issued_row now id n level disposition prior_sp1 prior_sp2 = record {
    id = id;
    employee_id = n.employee_id;
    level = level;
    offense = n.offense;
    description = n.description;
    issued_at = now;
    valid_until = n.valid_until;
    served_disposition = disposition;
    status = issued;
    acknowledged_at = none;
    acknowledged_via = none;
    cancel_reason = none;
    document_file_id = n.document_file_id;
    prior_active_sp1 = prior_sp1;
    prior_active_sp2 = prior_sp2;
    issued_by = n.issued_by;
    deleted = false;
  }

  unfoldable pub issue : DateTime → ℕ → NewDisciplineRecord → Action ℕ
  issue now id n = do
    level ← fetch (λ _. level_of n.level) (invalid bad_level)
    disposition ← fetch (λ _. disposition_of n.served_disposition) (invalid bad_disposition)
    raise_if (is_empty (trim n.offense) || is_empty (trim n.description)) (invalid no_text)
    raise_if (leb (C.timestamp n.valid_until) (C.timestamp now)) (invalid not_future)
    transaction do
      prior_sp1 ← query (prior now n.employee_id is_sp1)
      prior_sp2 ← query (prior now n.employee_id is_sp2)
      execute (λ t. record t {
        discipline_records =
            t.discipline_records ++ issued_row now id n level disposition prior_sp1 prior_sp2 ∷ [];
      })
    send (discipline_issued id n.employee_id level)
    pure id

  abbrev pub acknowledged_row : DateTime → DisciplineRecord C D → DisciplineRecord C D
  acknowledged_row now r = record r {
    status = acknowledged;
    acknowledged_at = some now;
    acknowledged_via = some "in_app";
  }

  unfoldable pub acknowledge : DateTime → ℕ → ℕ → Action (Unit {0})
  acknowledge now record_id employee_id = do
    moved ← transaction do
      n ← query (λ t. count_rows (is_own_unanswered record_id employee_id) t.discipline_records)
      execute (update_records (is_own_unanswered record_id employee_id) (acknowledged_row now))
      pure n
    raise_if (not (moved == 1)) (invalid_state not_own)

  abbrev pub filing_of : ℕ → ℕ → String → DisciplineRecord C D → ContestFiling
  filing_of record_id employee_id reason r = record {
    record_id = record_id;
    employee_id = employee_id;
    level = r.level;
    offense = r.offense;
    reason = reason;
  }

  abbrev pub file_contest : DisciplineApprovalsPort → ContestFiling → Action ℕ
  file_contest port filing w = (
    map_err contest_transport (port w.sent filing),
    record w { sent = w.sent ++ contest_filed filing ∷ [] },
  )

  abbrev pub is_unanswered_record : ℕ → DisciplineRecord C D → Bool
  is_unanswered_record id r = (r.id == id) && is_unanswered r.status

  abbrev pub contested_row : DisciplineRecord C D → DisciplineRecord C D
  contested_row r = record r { status = contested }

  unfoldable pub contest : DisciplineApprovalsPort → ℕ → ℕ → String → Action ℕ
  contest port record_id employee_id reason = do
    raise_if (is_empty (trim reason)) (invalid no_contest_reason)
    answer ← transaction do
      r ←
          fetch (λ t. find? (is_own_unanswered record_id employee_id) t.discipline_records)
            (invalid_state not_own)
      request_id ← file_contest port (filing_of record_id employee_id reason r)
      moved ← query (λ t. count_rows (is_unanswered_record record_id) t.discipline_records)
      execute (update_records (is_unanswered_record record_id) contested_row)
      pure (both request_id moved)
    raise_if (not (answer.1 == 1)) (invalid_state changed)
    pure answer.0

  abbrev pub is_movable : ℕ → DisciplineRecord C D → Bool
  is_movable id r = (r.id == id) && not (is_cancelled r.status)

  abbrev pub moved_row :
      DisciplineStatus → Option String → DisciplineRecord C D → DisciplineRecord C D
  moved_row to reason r = record r { status = to; cancel_reason = reason }

  -- The SELECT of `move_status`, which locks nothing, and what it refuses.
  unfoldable pub check_move : ℕ → Bool → DisciplineStatus → Action (Unit {0})
  check_move record_id asks_contested to = do
    r ←
        fetch (λ t. find? (is_record record_id) t.discipline_records)
          (not_found "discipline record")
    lift (may_move asks_contested to r.status)

  -- The UPDATE of `move_status`.
  abbrev pub write_move : ℕ → DisciplineStatus → Option String → Action (Unit {0})
  write_move record_id to reason =
      execute (update_records (is_movable record_id) (moved_row to reason))

  unfoldable pub move_status : ℕ → Bool → DisciplineStatus → Option String → Action (Unit {0})
  unfolding check_move
  move_status record_id asks_contested to reason =
      transaction do check_move record_id asks_contested to; write_move record_id to reason

  unfoldable pub contest_upheld : ℕ → Action (Unit {0})
  contest_upheld record_id = move_status record_id true cancelled (some "contest upheld by review")

  unfoldable pub contest_refused : ℕ → Action (Unit {0})
  contest_refused record_id = move_status record_id true acknowledged_pending none

  unfoldable pub cancel : ℕ → String → Action (Unit {0})
  cancel record_id reason = do
    raise_if (is_empty (trim reason)) (invalid no_cancel_reason)
    move_status record_id false cancelled (some reason)
