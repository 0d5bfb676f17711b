-- ===== src/Discipline/Runs.antt =====
-- Runs of the verbs in src/application/service/discipline_write_service.rs.
use backbone_lifecycle.Prelude.{ℕ, ◌≡◌, ◌≤◌, String, Bool, true, false, Option, ok, count_rows}
use backbone_lifecycle.Crates.Decimals.{Decimals}
use backbone_lifecycle.Crates.Calendar.{Calendar}
use backbone_lifecycle.Store.{DisciplineStatus, acknowledged_pending, cancelled, Tables}
use backbone_lifecycle.Offboarding.Outcomes.{State}
use backbone_lifecycle.Discipline.{
  DisciplineApprovalsPort, NewDisciplineRecord, is_record, issue, acknowledge, contest, check_move,
  write_move, contest_upheld, contest_refused, cancel,
}
use backbone_lifecycle.Discipline.Moves.{Steps}

module _ (C : Calendar) (D : Decimals) where
  open C use {DateTime}

  -- One call of a verb, whatever its outcome. The id of a new letter is fresh.
  pub data Act : Tables C D → Tables C D → Type 0 where
    issues :
        (w : State C D) (now : DateTime) (id : ℕ) (n : NewDisciplineRecord C D)
        → count_rows (is_record C D id) w.db.discipline_records ≡ 0
        → Act w.db (issue C D now id n w).1.db
    acknowledges :
        (w : State C D) (now : DateTime) (id employee_id : ℕ)
        → Act w.db (acknowledge C D now id employee_id w).1.db
    contests :
        (w : State C D) (port : DisciplineApprovalsPort C D) (id employee_id : ℕ) (reason : String)
        → Act w.db (contest C D port id employee_id reason w).1.db
    upholds : (w : State C D) (id : ℕ) → Act w.db (contest_upheld C D id w).1.db
    refuses : (w : State C D) (id : ℕ) → Act w.db (contest_refused C D id w).1.db
    cancels : (w : State C D) (id : ℕ) (reason : String) → Act w.db (cancel C D id reason w).1.db

  -- What the callers of `move_status` ask for.
  pub data Asked : Bool → DisciplineStatus → Type 0 where
    to_uphold : Asked true cancelled
    to_refuse : Asked true acknowledged_pending
    to_cancel : Asked false cancelled

  -- Calls one after another. `move_status` locks nothing, so one whose check has passed may write
  -- after other calls have committed.
  pub data Run : Tables C D → Tables C D → Type 0 where
    begun : {t : Tables C D} → Run t t
    and_then : {t u v : Tables C D} → Run t u → Act u v → Run t v
    overlapped :
        {t : Tables C D} (w v : State C D) (id : ℕ) (asks : Bool) (to : DisciplineStatus)
        (reason : Option String)
        → Asked asks to
        → Run t w.db
        → (check_move C D id asks to w).0 ≡ ok tt
        → Run w.db v.db
        → Run t (write_move C D id to reason v).1.db

  -- The primary key.
  abbrev pub IsKeyed : Tables C D → Type 0
  IsKeyed t = (k : ℕ) → count_rows (is_record C D k) t.discipline_records ≤ 1

  -- What a step keeps, and that the primary key stays one.
  pub record Progress (t u : Tables C D) : Type 0 where
    pub steps : Steps C D t.discipline_records u.discipline_records
    pub keyed : IsKeyed u
