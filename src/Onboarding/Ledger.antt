-- ===== src/Onboarding/Ledger.antt =====
-- The invariant of the verbs in src/application/service/onboarding_write_service.rs: an id names one
-- onboarding, and each completion and each confirmation has one event.
use backbone_lifecycle.Prelude.{
  ℕ, ◌≡◌, ◌≤◌, ◌==◌, ◌&&◌, inl, inr, refl, ap, Bool, true, false, Option, some, Bool-cases, Result,
  find?, count_rows, is_some, arith, [], tally, count_rows-append, count_rows-update_same,
  count_rows-update_one, find?-holds, ==→eq, All, All-append, All-update_one,
}
use backbone_lifecycle.Crates.Decimals.{Decimals}
use backbone_lifecycle.Crates.Calendar.{Calendar}
use backbone_lifecycle.Store.{Tables}
use backbone_lifecycle.Store.Joining.{completed, Onboarding}
use backbone_lifecycle.Store.Outbox.{OutboxRow, onboarding_completed, probation_confirmed}
use backbone_lifecycle.Offboarding.Outcomes.{State}
use backbone_lifecycle.Onboarding.{
  Failure, NewOnboarding, DateSum, is_completed, is_onboarding, started_row, completed_row,
  completed_event, confirmed_row, confirmed_event, create, complete, confirm,
}
use backbone_lifecycle.Onboarding.Stamping.{CreateOutcome, chosen, create-CreateOutcome}
use backbone_lifecycle.Onboarding.Outcomes.{
  CompleteOutcome, ConfirmOutcome, complete-CompleteOutcome, confirm-ConfirmOutcome,
}

module _ (C : Calendar) (D : Decimals) where
  open C use {DateTime}

  abbrev pub completed_as : ℕ → Onboarding C → Bool
  completed_as k o = (o.id == k) && is_completed o.status

  abbrev pub confirmed_as : ℕ → Onboarding C → Bool
  confirmed_as k o = (o.id == k) && is_some o.confirmed_at

  abbrev pub completion_of : ℕ → OutboxRow C D → Bool
  completion_of k (onboarding_completed e) = e.onboarding_id == k
  completion_of k _ = false

  abbrev pub confirmation_of : ℕ → OutboxRow C D → Bool
  confirmation_of k (probation_confirmed e) = e.onboarding_id == k
  confirmation_of k _ = false

  -- Nobody is confirmed before completing.
  abbrev pub IsOrdered : Onboarding C → Type 0
  IsOrdered o = is_some o.confirmed_at ≡ true → o.status ≡ completed

  pub record IsConsistent (t : Tables C D) : Type 0 where
    pub one_row : (k : ℕ) → count_rows (is_onboarding C D k) t.onboardings ≤ 1
    pub one_completion :
        (k : ℕ)
        → count_rows (completion_of k) t.outbox_events ≡ count_rows (completed_as k) t.onboardings
    pub one_confirmation :
        (k : ℕ)
        → count_rows (confirmation_of k) t.outbox_events ≡ count_rows (confirmed_as k) t.onboardings
    pub ordered : All IsOrdered t.onboardings

  -- The verbs one after another, from empty tables; a fresh id names no row.
  pub data Reach : Tables C D → Type 0 where
    start : (t : Tables C D) → t.onboardings ≡ [] → t.outbox_events ≡ [] → Reach t
    created :
        (w : State C D) (plus : DateSum C D) (id : ℕ) (ids : ℕ → ℕ) (input : NewOnboarding C D)
        → Reach w.db
        → count_rows (is_onboarding C D id) w.db.onboardings ≡ 0
        → Reach (create C D plus id ids input w).1.db
    completed_by :
        (w : State C D) (company : Option ℕ) (event_id : ℕ) (now : DateTime) (id : ℕ)
        → Reach w.db
        → Reach (complete C D company event_id now id w).1.db
    confirmed_by :
        (w : State C D) (company : Option ℕ) (event_id : ℕ) (now : DateTime) (id : ℕ) (force : Bool)
        → Reach w.db
        → Reach (confirm C D company event_id now id force w).1.db

  and_false : (b c : Bool) → c ≡ false → tally (b && c) ≡ 0
  and_false true c h = rw h
  and_false false c h = refl

  and_true : (b : Bool) → tally (b && true) ≡ tally b
  and_true true = refl
  and_true false = refl

  create-IsConsistent :
      (plus : DateSum C D) (id : ℕ) (ids : ℕ → ℕ) (input : NewOnboarding C D) (w : State C D)
      → count_rows (is_onboarding C D id) w.db.onboardings ≡ 0
      → IsConsistent w.db
      → IsConsistent (create C D plus id ids input w).1.db
  create-IsConsistent plus id ids input w fresh v =
      from (create-CreateOutcome C D plus id ids input w)
    where
      from :
          {r : Result (Failure C D) ℕ × State C D}
          → CreateOutcome C D plus id ids input w r
          → IsConsistent r.1.db
      from (CreateOutcome.undated e) = v
      from (CreateOutcome.started tasks e) =
          let row = started_row C D id input (chosen C D input w) in
          record {
            one_row = λ k. elim (Bool-cases (id == k)) [
              | inl same ↦ omega (
                arith,
                count_rows-append (is_onboarding C D k) w.db.onboardings row,
                ap tally same,
                fresh,
                ap (λ j. count_rows (is_onboarding C D j) w.db.onboardings) (==→eq id k same),
              )
              | inr other ↦ omega (
                arith,
                count_rows-append (is_onboarding C D k) w.db.onboardings row,
                ap tally other,
                v.one_row k,
              )
            ];
            one_completion = λ k. omega (
              arith,
              count_rows-append (completed_as k) w.db.onboardings row,
              v.one_completion k,
              and_false (id == k) false refl,
            );
            one_confirmation = λ k. omega (
              arith,
              count_rows-append (confirmed_as k) w.db.onboardings row,
              v.one_confirmation k,
              and_false (id == k) false refl,
            );
            ordered = All-append IsOrdered w.db.onboardings row v.ordered λ h. cc;
          }

  same_id :
      (id k : ℕ) (w : State C D) (o : Onboarding C)
      → find? (is_onboarding C D id) w.db.onboardings ≡ some o
      → tally (o.id == k) ≡ tally (id == k)
  same_id id k w o e =
      ap (λ i. tally (i == k))
        (==→eq o.id id (find?-holds (is_onboarding C D id) w.db.onboardings {x = o} e))

  complete-IsConsistent :
      (company : Option ℕ) (event_id : ℕ) (now : DateTime) (id : ℕ) (w : State C D)
      → IsConsistent w.db
      → IsConsistent (complete C D company event_id now id w).1.db
  complete-IsConsistent company event_id now id w v =
      from (complete-CompleteOutcome C D company event_id now id w)
    where
      from :
          {r : Result (Failure C D) (Option ℕ) × State C D}
          → CompleteOutcome C D company event_id now id w r
          → IsConsistent r.1.db
      from (CompleteOutcome.unscoped e) = v
      from (CompleteOutcome.missing e) = v
      from (CompleteOutcome.already o e s) = v
      from (CompleteOutcome.unstarted o s e k) = v
      from (CompleteOutcome.open_tasks o n e s k) = v
      from (CompleteOutcome.done c o scope e s k) = record {
        one_row = λ j.
            rw
              (count_rows-update_same (is_onboarding C D id) (is_onboarding C D j)
                (completed_row C D now) w.db.onboardings (λ q h. refl))
              (v.one_row j);
        one_completion = λ j. omega (
          arith,
          v.one_completion j,
          count_rows-append (completion_of j) w.db.outbox_events
              (completed_event C D event_id c id o),
          count_rows-update_one (is_onboarding C D id) (completed_as j) (completed_row C D now)
              w.db.onboardings {x = o} e (v.one_row id),
          and_false (o.id == j) (is_completed o.status) (rw s refl),
          and_true (o.id == j),
          same_id id j w o e,
        );
        one_confirmation = λ j. omega (
          arith,
          v.one_confirmation j,
          count_rows-append (confirmation_of j) w.db.outbox_events
              (completed_event C D event_id c id o),
          count_rows-update_same (is_onboarding C D id) (confirmed_as j) (completed_row C D now)
              w.db.onboardings (λ q h. refl),
        );
        ordered =
            All-update_one IsOrdered (is_onboarding C D id) (completed_row C D now) w.db.onboardings
              {x = o} e (v.one_row id) (λ _. refl) v.ordered;
      }

  confirm-IsConsistent :
      (company : Option ℕ) (event_id : ℕ) (now : DateTime) (id : ℕ) (force : Bool) (w : State C D)
      → IsConsistent w.db
      → IsConsistent (confirm C D company event_id now id force w).1.db
  confirm-IsConsistent company event_id now id force w v =
      from (confirm-ConfirmOutcome C D company event_id now id force w)
    where
      from :
          {r : Result (Failure C D) (Option ℕ) × State C D}
          → ConfirmOutcome C D company event_id now id force w r
          → IsConsistent r.1.db
      from (ConfirmOutcome.unscoped e) = v
      from (ConfirmOutcome.missing e) = v
      from (ConfirmOutcome.already o e s) = v
      from (ConfirmOutcome.unfinished o s e u k) = v
      from (ConfirmOutcome.unplanned o e u p) = v
      from (ConfirmOutcome.too_early o ends e u p l) = v
      from (ConfirmOutcome.done c o ends scope e u p l) = record {
        one_row = λ j.
            rw
              (count_rows-update_same (is_onboarding C D id) (is_onboarding C D j)
                (confirmed_row C D now) w.db.onboardings (λ q h. refl))
              (v.one_row j);
        one_completion = λ j. omega (
          arith,
          v.one_completion j,
          count_rows-append (completion_of j) w.db.outbox_events
              (confirmed_event C D event_id c (C.date_naive now) id o),
          count_rows-update_same (is_onboarding C D id) (completed_as j) (confirmed_row C D now)
              w.db.onboardings (λ q h. refl),
        );
        one_confirmation = λ j. omega (
          arith,
          v.one_confirmation j,
          count_rows-append (confirmation_of j) w.db.outbox_events
              (confirmed_event C D event_id c (C.date_naive now) id o),
          count_rows-update_one (is_onboarding C D id) (confirmed_as j) (confirmed_row C D now)
              w.db.onboardings {x = o} e (v.one_row id),
          and_false (o.id == j) (is_some o.confirmed_at) u.0,
          and_true (o.id == j),
          same_id id j w o e,
        );
        ordered =
            All-update_one IsOrdered (is_onboarding C D id) (confirmed_row C D now) w.db.onboardings
              {x = o} e (v.one_row id) (λ _. u.1) v.ordered;
      }

  -- Whatever verbs run, in whatever order and with whatever outcome: an id names at most one
  -- onboarding; the outbox holds exactly one completion event for each onboarding that is completed
  -- and one confirmation event for each that is confirmed, and none for any other; and every confirmed
  -- onboarding is completed.
  pub Reach-IsConsistent : (t : Tables C D) → Reach t → IsConsistent t
  Reach-IsConsistent _ (start t none_open none_sent) = record {
    one_row = λ k. rw none_open (omega arith);
    one_completion = λ k. rw (none_open, none_sent) refl;
    one_confirmation = λ k. rw (none_open, none_sent) refl;
    ordered = rw none_open tt;
  }
  Reach-IsConsistent t (created w plus id ids input r fresh) =
      create-IsConsistent plus id ids input w fresh (Reach-IsConsistent w.db r)
  Reach-IsConsistent t (completed_by w company event_id now id r) =
      complete-IsConsistent company event_id now id w (Reach-IsConsistent w.db r)
  Reach-IsConsistent t (confirmed_by w company event_id now id force r) =
      confirm-IsConsistent company event_id now id force w (Reach-IsConsistent w.db r)
