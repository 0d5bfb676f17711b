-- ===== src/Checkpoint/Journey.antt =====
-- How the verbs on checkpoints act on those that ask for them: `create_task` and `resolve_task` of
-- src/application/service/checkpoint_write_service.rs on `complete` of onboarding_write_service.rs,
-- `create_clearance_item` on `clear` of offboarding_write_service.rs.
use backbone_lifecycle.Prelude.{
  ℕ, zero, suc, ◌≡◌, ◌≤◌, ◌==◌, ◌&&◌, ◌∙◌, refl, sym, ap, subst, inl, inr, [], ◌∷◌, ◌++◌, String,
  Bool, true, false, not, Option, none, some, Result, ok, err, find?, update_rows, count_rows,
  find?-holds, find?-none, find?_other, Option-cases, tally, count_rows-append,
  count_rows-update_one, count_rows-update_same, is_some, ==_refl, arith,
}
use backbone_lifecycle.Crates.Decimals.{Decimals}
use backbone_lifecycle.Crates.Calendar.{Calendar}
use backbone_lifecycle.Store.{Tables, Offboarding}
use backbone_lifecycle.Store.{in_progress as offboarding_in_progress}
use backbone_lifecycle.Store.Joining.{TaskStatus, done, in_progress, Onboarding, OnboardingTask}
use backbone_lifecycle.Offboarding.{has_id, clear, is_open_for, clearance_open}
use backbone_lifecycle.Offboarding.Outcomes.{State, positive}
use backbone_lifecycle.Onboarding.{is_onboarding, is_open_task, is_open_task_for, complete}
use backbone_lifecycle.Checkpoint.{
  is_terminal, is_task, resolved_row, resolve_task, ActivitySink, NewClearanceItem, item_row,
  create_clearance_item,
}
use backbone_lifecycle.Checkpoint.Errors.{CheckpointError}
use backbone_lifecycle.Checkpoint.Outcomes.{
  CreateItemOutcome, Notified, create_clearance_item-CreateItemOutcome,
}

module _ (C : Calendar) (D : Decimals) where
  open C use {DateTime}

  abbrev done_task : DateTime → Option ℕ → ℕ → State C D → State C D
  done_task now actor id w = record w {
    db = record w.db {
      onboarding_tasks =
          update_rows (is_task C D id) (resolved_row C D now actor done) w.db.onboarding_tasks;
    };
  }

  abbrev resolve_found : DateTime → Option ℕ → Option (OnboardingTask C) → State C D → State C D
  resolve_found now actor none w = w
  resolve_found now actor (some t) w = (resolve_task C D now t.id "done" actor w).1

  -- `n` times: the first open task of the onboarding is resolved as done.
  abbrev pub resolve_open : DateTime → Option ℕ → ℕ → ℕ → State C D → State C D
  resolve_open now actor id zero w = w
  resolve_open now actor id (suc n) w =
      resolve_open now actor id n
        (resolve_found now actor (find? (is_open_task_for C D id) w.db.onboarding_tasks) w)

  live_status :
      (a : Bool) (s : TaskStatus) (c : Bool)
      → (a && is_open_task s && c) ≡ true
      → is_terminal s ≡ false
  live_status a TaskStatus.pending c h = refl
  live_status a TaskStatus.blocked c h = refl
  live_status true done c h = cc
  live_status false done c h = cc
  live_status true TaskStatus.skipped c h = cc
  live_status false TaskStatus.skipped c h = cc

  resolve_live :
      (now : DateTime) (actor : Option ℕ) (w : State C D) (t : OnboardingTask C)
      → find? (is_task C D t.id) w.db.onboarding_tasks ≡ some t
      → is_terminal t.status ≡ false
      → (resolve_task C D now t.id "done" actor w).1 ≡ done_task now actor t.id w
  unfolding resolve_task
  resolve_live now actor w t e l = rw (e, l) refl

  abbrev KeyedTasks : State C D → Type 0
  KeyedTasks w = (k : ℕ) → count_rows (is_task C D k) w.db.onboarding_tasks ≤ 1

  open_off : (a c : Bool) → tally (a && false && c) ≡ 0
  open_off true c = refl
  open_off false c = refl

  -- The first open task closed, one open task less is left.
  resolve_found_lem :
      (now : DateTime) (actor : Option ℕ) (id n : ℕ) (w : State C D)
      → KeyedTasks w
      → count_rows (is_open_task_for C D id) w.db.onboarding_tasks ≡ suc n
      → (t : OnboardingTask C) × (find? (is_open_task_for C D id) w.db.onboarding_tasks ≡ some t)
        × (resolve_found now actor (some t) w ≡ done_task now actor t.id w)
        × (count_rows (is_open_task_for C D id) (done_task now actor t.id w).db.onboarding_tasks
            ≡ n)
  resolve_found_lem now actor id n w keyed k =
      elim (Option-cases (find? (is_open_task_for C D id) w.db.onboarding_tasks)) [
        | inl e ↦ elim (none_open e) [ ]
        | inr (t, e) ↦
            let opened = find?-holds (is_open_task_for C D id) w.db.onboarding_tasks {x = t} e in
            let found =
              find?_other (is_open_task_for C D id) (is_task C D t.id) w.db.onboarding_tasks {x = t}
                e (==_refl t.id) (keyed t.id) in
            (
              t,
              e,
              resolve_live now actor w t found
                  (live_status (t.onboarding_id == id) t.status (not t.deleted) opened),
              omega (
                arith,
                k,
                count_rows-update_one (is_task C D t.id) (is_open_task_for C D id)
                    (resolved_row C D now actor done) w.db.onboarding_tasks {x = t} found
                    (keyed t.id),
                ap tally opened,
                open_off (t.onboarding_id == id) (not t.deleted),
              ),
            )
      ]
    where
      none_open : find? (is_open_task_for C D id) w.db.onboarding_tasks ≡ none → ⊥
      none_open e = omega (arith, k, find?-none (is_open_task_for C D id) w.db.onboarding_tasks e)

  done_task-KeyedTasks :
      (now : DateTime) (actor : Option ℕ) (id : ℕ) (w : State C D)
      → KeyedTasks w
      → KeyedTasks (done_task now actor id w)
  done_task-KeyedTasks now actor id w keyed k =
      rw
        (count_rows-update_same (is_task C D id) (is_task C D k) (resolved_row C D now actor done)
          w.db.onboarding_tasks (λ t h. refl))
        (keyed k)

  resolve_open-none :
      (now : DateTime) (actor : Option ℕ) (id n : ℕ) (w : State C D)
      → KeyedTasks w
      → count_rows (is_open_task_for C D id) w.db.onboarding_tasks ≡ n
      → (count_rows (is_open_task_for C D id) (resolve_open now actor id n w).db.onboarding_tasks
          ≡ 0)
        × ((resolve_open now actor id n w).db.onboardings ≡ w.db.onboardings)
  resolve_open-none now actor id zero w keyed k = (k, refl)
  resolve_open-none now actor id (suc n) w keyed k =
      let (t, e, same, left) = resolve_found_lem now actor id n w keyed k in
      subst
        (λ (v : State C D).
          (count_rows (is_open_task_for C D id) (resolve_open now actor id n v).db.onboarding_tasks
            ≡ 0)
          × ((resolve_open now actor id n v).db.onboardings ≡ w.db.onboardings))
        (sym (ap (λ found. resolve_found now actor found w) e ∙ same))
        (resolve_open-none now actor id n (done_task now actor t.id w)
          (done_task-KeyedTasks now actor t.id w keyed) left)

  -- A checklist can always be finished. Where an id names one task at most, resolving as done the
  -- first open task of an onboarding in progress, as many times as it has open tasks, lets the
  -- completion succeed with its event.
  pub resolve_open_complete :
      (company_id event_id : ℕ) (now : DateTime) (actor : Option ℕ) (id : ℕ) (w : State C D)
      (o : Onboarding C)
      → find? (is_onboarding C D id) w.db.onboardings ≡ some o
      → o.status ≡ in_progress
      → ((k : ℕ) → count_rows (is_task C D k) w.db.onboarding_tasks ≤ 1)
      → (complete C D (some company_id) event_id now id (
          resolve_open now actor id
            (count_rows (is_open_task_for C D id) w.db.onboarding_tasks)
            w)).0
        ≡ ok (some event_id)
  unfolding complete
  resolve_open_complete company_id event_id now actor id w o e s keyed =
      let (closed, same) = resolve_open-none now actor id _ w keyed refl in
      rw (same, e, s, closed) refl

  Notified-db :
      (sink : ActivitySink C D) (model : String) (id : ℕ) (summary : String)
      (deadline : Option C.NaiveDate) (user : Option ℕ) (w : State C D)
      {r : Result CheckpointError ℕ × State C D}
      → Notified C D sink model id summary deadline user w r
      → r.1.db ≡ w.db
  Notified-db sink model id summary deadline user w (Notified.silent e) = refl
  Notified-db sink model id summary deadline user w (Notified.scheduled u n c e k l) = refl
  Notified-db sink model id summary deadline user w (Notified.rejected u x c e k l) = refl

  item_open :
      (item_id : ℕ) (input : NewClearanceItem C D)
      → tally (is_open_for C D input.offboarding_id (item_row C D item_id input)) ≡ 1
  item_open item_id input = rw (==_refl input.offboarding_id) refl

  clear_counted :
      (id n : ℕ) (v : State C D) (o : Offboarding C D)
      → find? (has_id C D id) v.db.offboardings ≡ some o
      → o.status ≡ offboarding_in_progress
      → count_rows (is_open_for C D id) v.db.clearance_items ≡ suc n
      → (clear C D id v).0 ≡ err (clearance_open id (suc n))
  unfolding clear
  clear_counted id n v o e s k = rw (e, s, k, positive n) refl

  -- A clearance item that was recorded holds the clearing back, even when the notification of its
  -- clearer failed: on an offboarding in progress, `clear` then fails with one open item more than
  -- there were. What the item asks of the sink is that it is wired if a user is to be notified.
  pub create_clearance_item-clear :
      (sink : ActivitySink C D) (item_id : ℕ) (input : NewClearanceItem C D) (w : State C D)
      (o : Offboarding C D)
      → find? (has_id C D input.offboarding_id) w.db.offboardings ≡ some o
      → o.status ≡ offboarding_in_progress
      → (is_some input.notify_user_id && not sink.is_wired) ≡ false
      → (clear C D input.offboarding_id (create_clearance_item C D sink item_id input w).1).0
        ≡ err (
            clearance_open input.offboarding_id
              (suc (count_rows (is_open_for C D input.offboarding_id) w.db.clearance_items)))
  create_clearance_item-clear sink item_id input w o e s seam =
      from (create_clearance_item-CreateItemOutcome C D sink item_id input w)
    where
      recorded_clear :
          (v : State C D)
          → v.db ≡ record w.db {
            clearance_items = w.db.clearance_items ++ item_row C D item_id input ∷ [];
          }
          → (clear C D input.offboarding_id v).0
            ≡ err (
                clearance_open input.offboarding_id
                  (suc (count_rows (is_open_for C D input.offboarding_id) w.db.clearance_items)))
      recorded_clear v same =
          clear_counted input.offboarding_id _ v o
            (ap (λ (t : Tables C D). find? (has_id C D input.offboarding_id) t.offboardings) same
              ∙ e)
            s
            (ap
                (λ (t : Tables C D).
                  count_rows (is_open_for C D input.offboarding_id) t.clearance_items)
                same
              ∙ omega (
                arith,
                count_rows-append (is_open_for C D input.offboarding_id) w.db.clearance_items
                    (item_row C D item_id input),
                item_open item_id input,
              ))

      from :
          {r : Result CheckpointError ℕ × State C D}
          → CreateItemOutcome C D sink item_id input w r
          → (clear C D input.offboarding_id r.1).0
            ≡ err (
                clearance_open input.offboarding_id
                  (suc (count_rows (is_open_for C D input.offboarding_id) w.db.clearance_items)))
      from (CreateItemOutcome.unwired k) = cc
      from (CreateItemOutcome.missing k) = cc
      from (CreateItemOutcome.recorded p k l {r} m) =
          recorded_clear r.1 (Notified-db sink _ _ _ _ _ _ m)
