-- ===== src/Discipline/Issuing.antt =====
-- What `issue` and `move_status` of src/application/service/discipline_write_service.rs do, branch by
-- branch.
use backbone_lifecycle.Prelude.{
  ℕ, ◌≡◌, inl, inr, [], ◌∷◌, ◌++◌, String, Bool, true, false, ◌||◌, leb, Option, none, some,
  Option-cases, Bool-cases, Result, Result-cases, ok, err, find?,
}
use backbone_lifecycle.Prelude.Texts.{trim, is_empty}
use backbone_lifecycle.Crates.Decimals.{Decimals}
use backbone_lifecycle.Crates.Calendar.{Calendar}
use backbone_lifecycle.Store.{DisciplineStatus, DisciplineRecord, ServedDisposition}
use backbone_lifecycle.Store.Effects.{DisciplineLevel, discipline_issued}
use backbone_lifecycle.Offboarding.Outcomes.{State}
use backbone_lifecycle.Discipline.{
  NewDisciplineRecord, level_of, disposition_of, is_sp1, is_sp2, prior, issued_row, issue,
  is_record, is_movable, may_move, moved_row, update_records, move_status, check_move,
}
use backbone_lifecycle.Discipline.Errors.{
  DisciplineError, invalid, not_found, bad_level, bad_disposition, no_text, not_future,
}

module _ (C : Calendar) (D : Decimals) where
  open C use {DateTime, timestamp}

  -- A letter that can be issued: labels that the database has, texts, an end in the future.
  pub record IsIssuable (now : DateTime) (n : NewDisciplineRecord C D) (level : DisciplineLevel)
      (disposition : ServedDisposition) : Type 0 where
    pub levelled : level_of n.level ≡ some level
    pub served : disposition_of n.served_disposition ≡ some disposition
    pub texts : (is_empty (trim n.offense) || is_empty (trim n.description)) ≡ false
    pub future : leb (timestamp n.valid_until) (timestamp now) ≡ false

  -- What `issue` returns, announces and leaves, branch by branch.
  pub data IssueOutcome (now : DateTime) (id : ℕ) (n : NewDisciplineRecord C D) (w : State C D)
      : Result DisciplineError ℕ × State C D → Type 0 where
    unlevelled : level_of n.level ≡ none → IssueOutcome now id n w (err (invalid bad_level), w)
    unserved :
        disposition_of n.served_disposition ≡ none
        → IssueOutcome now id n w (err (invalid bad_disposition), w)
    textless :
        (is_empty (trim n.offense) || is_empty (trim n.description)) ≡ true
        → IssueOutcome now id n w (err (invalid no_text), w)
    past :
        leb (timestamp n.valid_until) (timestamp now) ≡ true
        → IssueOutcome now id n w (err (invalid not_future), w)
    sent_out :
        (level : DisciplineLevel) (disposition : ServedDisposition)
        → IsIssuable now n level disposition
        → IssueOutcome now id n w (
          ok id,
          record {
            db = record w.db {
              discipline_records =
                  w.db.discipline_records
                  ++ issued_row C D now id n level disposition
                      (prior C D now n.employee_id is_sp1 w.db)
                      (prior C D now n.employee_id is_sp2 w.db)
                    ∷ [];
            };
            sent = w.sent ++ discipline_issued id n.employee_id level ∷ [];
          },
        )

  module _ (now : DateTime) (id : ℕ) (n : NewDisciplineRecord C D) (w : State C D) where
    issue_labelled :
        (level : DisciplineLevel) (disposition : ServedDisposition)
        → level_of n.level ≡ some level
        → disposition_of n.served_disposition ≡ some disposition
        → IssueOutcome now id n w (issue C D now id n w)
    unfolding issue
    issue_labelled level disposition e k =
        elim (Bool-cases (is_empty (trim n.offense) || is_empty (trim n.description))) [
          | inl t ↦ rw (e, k, t) (textless t)
          | inr t ↦ elim (Bool-cases (leb (timestamp n.valid_until) (timestamp now))) [
            | inl l ↦ rw (e, k, t, l) (past l)
            | inr l ↦
                rw (e, k, t, l)
                  (sent_out level disposition
                    (record { levelled = e; served = k; texts = t; future = l }))
          ]
        ]

    -- Issuing a letter, on every branch. With labels that the database has, texts that are not blank
    -- and an end in the future, there is one more letter, and it holds how many SP1 and SP2 of the
    -- employee were active then; it is announced once. Anything else changes and sends nothing.
    pub issue-IssueOutcome : IssueOutcome now id n w (issue C D now id n w)
    unfolding issue
    issue-IssueOutcome = elim (Option-cases (level_of n.level)) [
      | inl e ↦ rw e (unlevelled e)
      | inr (level, e) ↦ elim (Option-cases (disposition_of n.served_disposition)) [
        | inl k ↦ rw (e, k) (unserved k)
        | inr (disposition, k) ↦ issue_labelled level disposition e k
      ]
    ]

  -- What `move_status` returns and leaves, branch by branch.
  pub data MoveOutcome (id : ℕ) (asks_contested : Bool) (to : DisciplineStatus)
      (reason : Option String) (w : State C D)
      : Result DisciplineError (Unit {0}) × State C D → Type 0 where
    missing :
        find? (is_record C D id) w.db.discipline_records ≡ none
        → MoveOutcome id asks_contested to reason w (err (not_found "discipline record"), w)
    barred :
        (r : DisciplineRecord C D) (e : DisciplineError)
        → find? (is_record C D id) w.db.discipline_records ≡ some r
        → may_move asks_contested to r.status ≡ err e
        → MoveOutcome id asks_contested to reason w (err e, w)
    moved :
        (r : DisciplineRecord C D)
        → find? (is_record C D id) w.db.discipline_records ≡ some r
        → may_move asks_contested to r.status ≡ ok tt
        → MoveOutcome id asks_contested to reason w (
          ok tt,
          record w { db = update_records C D (is_movable C D id) (moved_row C D to reason) w.db },
        )

  pub move_status-MoveOutcome :
      (id : ℕ) (asks_contested : Bool) (to : DisciplineStatus) (reason : Option String)
      (w : State C D)
      → MoveOutcome id asks_contested to reason w (move_status C D id asks_contested to reason w)
  unfolding move_status check_move
  move_status-MoveOutcome id asks to reason w =
      elim (Option-cases (find? (is_record C D id) w.db.discipline_records)) [
        | inl e ↦ rw e (missing e)
        | inr (r, e) ↦ elim (Result-cases (may_move asks to r.status)) [
          | inl (tt, k) ↦ rw (e, k) (moved r e k)
          | inr (x, k) ↦ rw (e, k) (barred r x e k)
        ]
      ]
