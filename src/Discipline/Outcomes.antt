-- ===== src/Discipline/Outcomes.antt =====
-- What `contest` of src/application/service/discipline_write_service.rs does, branch by branch.
use backbone_lifecycle.Prelude.{
  ℕ, ◌≡◌, ◌≤◌, ◌==◌, ◌&&◌, inl, inr, refl, List, [], ◌∷◌, ◌++◌, String, Bool, true, false, not,
  none, some, Option-cases, Bool-cases, Result, ok, err, find?, count_rows, find?-counted,
  count_rows_mono, arith,
}
use backbone_lifecycle.Prelude.Texts.{trim, is_empty}
use backbone_lifecycle.Crates.Decimals.{Decimals}
use backbone_lifecycle.Crates.Calendar.{Calendar}
use backbone_lifecycle.Store.{DisciplineRecord}
use backbone_lifecycle.Store.Effects.{contest_filed}
use backbone_lifecycle.Offboarding.Outcomes.{State}
use backbone_lifecycle.Discipline.{
  DisciplineApprovalsPort, is_unanswered, is_record, is_own_unanswered, is_unanswered_record,
  update_records, filing_of, contested_row, contest,
}
use backbone_lifecycle.Discipline.Errors.{
  DisciplineError, invalid, invalid_state, contest_transport, no_contest_reason, not_own,
}

pub first_part : (a b : Bool) → (a && b) ≡ true → a ≡ true
first_part true b h = refl
first_part false b h = cc

own_parts : (a b c d : Bool) → (a && b && c && d) ≡ true → (a && c) ≡ true
own_parts true true true true h = refl
own_parts a b c d h = ground arith

module _ (C : Calendar) (D : Decimals) where
  -- What `contest` returns, files and leaves, branch by branch.
  pub data ContestOutcome (port : DisciplineApprovalsPort C D) (id employee_id : ℕ)
      (reason : String) (w : State C D) : Result DisciplineError ℕ × State C D → Type 0 where
    no_reason :
        is_empty (trim reason) ≡ true
        → ContestOutcome port id employee_id reason w (err (invalid no_contest_reason), w)
    missing :
        is_empty (trim reason) ≡ false
        → find? (is_own_unanswered C D id employee_id) w.db.discipline_records ≡ none
        → ContestOutcome port id employee_id reason w (err (invalid_state not_own), w)
    unanswered :
        (r : DisciplineRecord C D) (e : String)
        → is_empty (trim reason) ≡ false
        → find? (is_own_unanswered C D id employee_id) w.db.discipline_records ≡ some r
        → port w.sent (filing_of C D id employee_id reason r) ≡ err e
        → ContestOutcome port id employee_id reason w (
          err (contest_transport e),
          record w { sent = w.sent ++ contest_filed (filing_of C D id employee_id reason r) ∷ [] },
        )
    filed :
        (r : DisciplineRecord C D) (request_id : ℕ)
        → is_empty (trim reason) ≡ false
        → find? (is_own_unanswered C D id employee_id) w.db.discipline_records ≡ some r
        → port w.sent (filing_of C D id employee_id reason r) ≡ ok request_id
        → ContestOutcome port id employee_id reason w (
          ok request_id,
          record {
            db = update_records C D (is_unanswered_record C D id) (contested_row C D) w.db;
            sent = w.sent ++ contest_filed (filing_of C D id employee_id reason r) ∷ [];
          },
        )

  -- Where an id names one record at most, the record found is the one that the update meets.
  unanswered_once :
      (id employee_id : ℕ) (xs : List (DisciplineRecord C D)) {r : DisciplineRecord C D}
      → count_rows (is_record C D id) xs ≤ 1
      → find? (is_own_unanswered C D id employee_id) xs ≡ some r
      → count_rows (is_unanswered_record C D id) xs ≡ 1
  unanswered_once id employee_id xs {r} one h = omega (
    arith,
    one,
    find?-counted (is_own_unanswered C D id employee_id) xs {x = r} h,
    count_rows_mono (is_own_unanswered C D id employee_id) (is_unanswered_record C D id) xs (λ x e.
        own_parts (x.id == id) (x.employee_id == employee_id) (is_unanswered x.status)
          (not x.deleted) e),
    count_rows_mono (is_unanswered_record C D id) (is_record C D id) xs
        (λ x e. first_part (x.id == id) (is_unanswered x.status) e),
  )

  module _ (port : DisciplineApprovalsPort C D) (id employee_id : ℕ) (reason : String)
      (w : State C D) (one : count_rows (is_record C D id) w.db.discipline_records ≤ 1) where
    contest_found :
        (r : DisciplineRecord C D) (answer : Result String ℕ)
        → is_empty (trim reason) ≡ false
        → find? (is_own_unanswered C D id employee_id) w.db.discipline_records ≡ some r
        → port w.sent (filing_of C D id employee_id reason r) ≡ answer
        → ContestOutcome port id employee_id reason w (contest C D port id employee_id reason w)
    unfolding contest
    contest_found r (err x) t e a = rw (t, e, a) (unanswered r x t e a)
    contest_found r (ok n) t e a =
        rw (t, e, a, unanswered_once id employee_id w.db.discipline_records {r = r} one e)
          (filed r n t e a)

    -- Contesting a letter, on every branch and for any engine, where an id names one record at most.
    -- A contest with a reason, of the employee's own live letter that is issued or waits for an
    -- acknowledgement, is filed once, and the letter is contested exactly when the engine takes the
    -- filing; every other contest leaves all tables alone and one without a reason or such a letter
    -- files nothing. That a letter changed under the contest is never found.
    pub contest-ContestOutcome :
        ContestOutcome port id employee_id reason w (contest C D port id employee_id reason w)
    unfolding contest
    contest-ContestOutcome = elim (Bool-cases (is_empty (trim reason))) [
      | inl t ↦ rw t (no_reason t)
      | inr t ↦
          elim (Option-cases
            (find? (is_own_unanswered C D id employee_id) w.db.discipline_records)) [
              | inl e ↦ rw (t, e) (missing t e)
              | inr (r, e) ↦ contest_found r _ t e refl
            ]
    ]
