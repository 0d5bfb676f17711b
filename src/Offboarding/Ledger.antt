-- ===== src/Offboarding/Ledger.antt =====
-- The invariant of the verbs in src/application/service/offboarding_write_service.rs: an id names
-- one offboarding, and each closed offboarding has one closing event, each other none.
use backbone_lifecycle.Prelude.{
  ℕ, ◌≡◌, ◌≤◌, ◌+◌, ◌==◌, ◌&&◌, inl, inr, refl, ap, Bool, true, false, Option, some, Bool-cases,
  Result, find?, count_rows, arith, [], tally, count_rows-append, count_rows-update_same,
  count_rows-update_one, find?-holds, ==→eq,
}
use backbone_lifecycle.Crates.Decimals.{Decimals}
use backbone_lifecycle.Crates.Calendar.{Calendar}
use backbone_lifecycle.Pesangon.Compute.{to_event_payload}
use backbone_lifecycle.Settlement.Assembly.{Sources}
use backbone_lifecycle.Store.{OffboardingStatus, in_progress, cleared, closed, Offboarding, Tables}
use backbone_lifecycle.Store.Outbox.{OutboxRow, offboarding_closed}
use backbone_lifecycle.Offboarding.{
  OffboardingCloseError, is_closed, NewOffboarding, has_id, set_status, update_status, create,
  clear, close, closed_event,
}
use backbone_lifecycle.Offboarding.Outcomes.{
  State, ClearOutcome, CloseOutcome, clear-ClearOutcome, close-CloseOutcome,
}
use backbone_lifecycle.Offboarding.Opened.{CreateOutcome, opened_row, create-CreateOutcome}

module _ (C : Calendar) (D : Decimals) where
  abbrev pub closed_as : ℕ → Offboarding C D → Bool
  closed_as k o = (o.id == k) && is_closed o.status

  abbrev pub event_of : ℕ → OutboxRow C D → Bool
  event_of k (offboarding_closed e) = e.offboarding_id == k
  event_of k _ = false

  pub record IsValid (t : Tables C D) : Type 0 where
    pub one_row : (k : ℕ) → count_rows (has_id C D k) t.offboardings ≤ 1
    pub one_event :
        (k : ℕ) → count_rows (event_of k) t.outbox_events ≡ count_rows (closed_as k) t.offboardings

  -- The verbs one after another, from empty tables; a fresh id names no row.
  pub data Reach : Tables C D → Type 0 where
    start : (t : Tables C D) → t.offboardings ≡ [] → t.outbox_events ≡ [] → Reach t
    created :
        (w : State C D) (id : ℕ) (input : NewOffboarding C D)
        → Reach w.db
        → count_rows (has_id C D id) w.db.offboardings ≡ 0
        → Reach (create C D id input w).1.db
    cleared_by : (w : State C D) (id : ℕ) → Reach w.db → Reach (clear C D id w).1.db
    closed_by :
        (w : State C D) (src : Sources C D) (company : Option ℕ) (event_id id : ℕ)
        → Reach w.db
        → Reach (close C D src company event_id id w).1.db

  row_has_id :
      (id : ℕ) (t : Tables C D) (o : Offboarding C D)
      → find? (has_id C D id) t.offboardings ≡ some o
      → (o.id == id) ≡ true
  row_has_id id t o e = find?-holds (has_id C D id) t.offboardings {x = o} e

  update_status-one_row :
      (id k : ℕ) (status : OffboardingStatus) (t : Tables C D)
      → IsValid t
      → count_rows (has_id C D k) (update_status C D id status t).offboardings ≤ 1
  update_status-one_row id k status t v =
      rw
        (count_rows-update_same (has_id C D id) (has_id C D k) (set_status C D status)
          t.offboardings (λ o h. refl))
        (v.one_row k)

  not_closed :
      (status : OffboardingStatus) (b : Bool)
      → is_closed status ≡ false
      → tally (b && is_closed status) ≡ 0
  not_closed status true h = rw h
  not_closed status false h = refl

  -- A row that was not closed counts as what it becomes.
  update_status-closed :
      (id k : ℕ) (status : OffboardingStatus) (t : Tables C D) (o : Offboarding C D)
      → IsValid t
      → find? (has_id C D id) t.offboardings ≡ some o
      → is_closed o.status ≡ false
      → count_rows (closed_as k) (update_status C D id status t).offboardings
        ≡ count_rows (closed_as k) t.offboardings + tally ((o.id == k) && is_closed status)
  update_status-closed id k status t o v e h = omega (
    arith,
    count_rows-update_one (has_id C D id) (closed_as k) (set_status C D status) t.offboardings
        {x = o} e (v.one_row id),
    not_closed o.status (o.id == k) h,
  )

  clear-IsValid : (id : ℕ) (w : State C D) → IsValid w.db → IsValid (clear C D id w).1.db
  clear-IsValid id w v = from (clear-ClearOutcome C D id w)
    where
      from :
          {r : Result (OffboardingCloseError C.NaiveDate) Bool × State C D}
          → ClearOutcome C D id w r
          → IsValid r.1.db
      from (ClearOutcome.missing e) = v
      from (ClearOutcome.already o e s) = v
      from (ClearOutcome.too_early o e s) = v
      from (ClearOutcome.open_items o n e s k) = v
      from (ClearOutcome.done o e s k) = record {
        one_row = λ j. update_status-one_row id j cleared w.db v;
        one_event = λ j. omega (
          arith,
          v.one_event j,
          update_status-closed id j cleared w.db o v e (rw s refl),
          not_closed cleared (o.id == j) refl,
        );
      }

  create-IsValid :
      (id : ℕ) (input : NewOffboarding C D) (w : State C D)
      → count_rows (has_id C D id) w.db.offboardings ≡ 0
      → IsValid w.db
      → IsValid (create C D id input w).1.db
  create-IsValid id input w fresh v = from (create-CreateOutcome C D id input w)
    where
      from :
          {r : Result (OffboardingCloseError C.NaiveDate) ℕ × State C D}
          → CreateOutcome C D id input w r
          → IsValid r.1.db
      from (CreateOutcome.no_contract e k) = v
      from (CreateOutcome.no_reason e) = v
      from (CreateOutcome.opened reason e k) =
          let row = opened_row C D id input reason in
          record {
            one_row = λ j. elim (Bool-cases (id == j)) [
              | inl same ↦ omega (
                arith,
                count_rows-append (has_id C D j) w.db.offboardings row,
                ap tally same,
                fresh,
                ap (λ k. count_rows (has_id C D k) w.db.offboardings) (==→eq id j same),
              )
              | inr other ↦ omega (
                arith,
                count_rows-append (has_id C D j) w.db.offboardings row,
                ap tally other,
                v.one_row j,
              )
            ];
            one_event = λ j. omega (
              arith,
              count_rows-append (closed_as j) w.db.offboardings row,
              v.one_event j,
              not_closed in_progress (id == j) refl,
            );
          }

  and_true : (b : Bool) → tally (b && true) ≡ tally b
  and_true true = refl
  and_true false = refl

  close-IsValid :
      (src : Sources C D) (company : Option ℕ) (event_id id : ℕ) (w : State C D)
      → IsValid w.db
      → IsValid (close C D src company event_id id w).1.db
  unfolding to_event_payload
  close-IsValid src company event_id id w v =
      from (close-CloseOutcome C D src company event_id id w)
    where
      from :
          {r : Result (OffboardingCloseError C.NaiveDate) (Option ℕ) × State C D}
          → CloseOutcome C D src company event_id id w r
          → IsValid r.1.db
      from (CloseOutcome.unscoped e) = v
      from (CloseOutcome.missing e) = v
      from (CloseOutcome.already o e s) = v
      from (CloseOutcome.uncleared o status e s) = v
      from (CloseOutcome.uncomputed c o x e s k) = v
      from (CloseOutcome.done c o b scope e s k) = record {
        one_row = λ j. update_status-one_row id j closed w.db v;
        one_event = λ j. omega (
          arith,
          v.one_event j,
          count_rows-append (event_of j) w.db.outbox_events (closed_event C D event_id c o b),
          update_status-closed id j closed w.db o v e (rw s refl),
          and_true (o.id == j),
        );
      }

  -- Whatever verbs run, in whatever order and with whatever outcome, an id names at most one
  -- offboarding, and the outbox holds exactly one closing event for each offboarding that is closed
  -- and none for any other: a settlement is announced once, and only by a closing that committed.
  pub Reach-IsValid : (t : Tables C D) → Reach t → IsValid t
  Reach-IsValid _ (start t none_open none_sent) = record {
    one_row = λ k. rw none_open (omega arith);
    one_event = λ k. rw (none_open, none_sent) refl;
  }
  Reach-IsValid t (created w id input r fresh) =
      create-IsValid id input w fresh (Reach-IsValid w.db r)
  Reach-IsValid t (cleared_by w id r) = clear-IsValid id w (Reach-IsValid w.db r)
  Reach-IsValid t (closed_by w src company event_id id r) =
      close-IsValid src company event_id id w (Reach-IsValid w.db r)
