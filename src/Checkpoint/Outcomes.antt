-- ===== src/Checkpoint/Outcomes.antt =====
-- What the verbs of src/application/service/checkpoint_write_service.rs do, branch by branch.
use backbone_lifecycle.Prelude.{
  ℕ, ◌≡◌, inl, inr, refl, [], ◌∷◌, ◌++◌, String, Bool, true, false, not, ◌&&◌, Option, none, some,
  Option-cases, Bool-cases, Result, Result-cases, ok, err, find?, update_rows, is_some,
}
use backbone_lifecycle.Prelude.Verbs.{continue_with, pure}
use backbone_lifecycle.Crates.Decimals.{Decimals}
use backbone_lifecycle.Crates.Calendar.{Calendar}
use backbone_lifecycle.Settlement.Assembly.{db_error}
use backbone_lifecycle.Store.{Offboarding}
use backbone_lifecycle.Store.Joining.{TaskStatus, TaskCategory, Onboarding, OnboardingTask}
use backbone_lifecycle.Store.Effects.{ActivityCommand, activity_scheduled, task_assigned}
use backbone_lifecycle.Offboarding.{has_id}
use backbone_lifecycle.Offboarding.Outcomes.{State}
use backbone_lifecycle.Onboarding.{is_onboarding}
use backbone_lifecycle.Checkpoint.{
  ActivitySink, NewOnboardingTask, NewClearanceItem, stored_category, resolution_of, is_terminal,
  task_row, item_row, is_task, resolved_row, announce, notify, create_task, resolve_task,
  create_clearance_item,
}
use backbone_lifecycle.Checkpoint.Errors.{
  ActivityRejected, CheckpointError, onboarding_not_found, offboarding_not_found,
  activity_seam_unwired, activity_failed, db, task_not_found, invalid_task_resolution,
}
use Prim.Native.String.{◌++◌ as concat}

module _ (C : Calendar) (D : Decimals) where
  open C use {NaiveDate, DateTime}
  open D use {Decimal}

  -- What the recording of a row returns and sends: nothing where nobody is to be notified, else the
  -- sink's answer.
  pub data Notified (sink : ActivitySink C D) (model : String) (id : ℕ) (summary : String)
      (deadline : Option NaiveDate) (user : Option ℕ) (w : State C D)
      : Result CheckpointError ℕ × State C D → Type 0 where
    silent : user ≡ none → Notified sink model id summary deadline user w (ok id, w)
    scheduled :
        (u activity_id : ℕ) (command : ActivityCommand NaiveDate)
        → user ≡ some u
        → (sink.is_wired ≡ true) × (sink.schedule w.sent command ≡ ok activity_id)
        → command ≡ record {
          res_model = model;
          res_id = id;
          summary = summary;
          deadline = deadline;
          user_id = u;
        }
        → Notified sink model id summary deadline user w
            (ok id, record w { sent = w.sent ++ activity_scheduled command ∷ [] })
    rejected :
        (u : ℕ) (e : ActivityRejected) (command : ActivityCommand NaiveDate)
        → user ≡ some u
        → (sink.is_wired ≡ true) × (sink.schedule w.sent command ≡ err e)
        → command ≡ record {
          res_model = model;
          res_id = id;
          summary = summary;
          deadline = deadline;
          user_id = u;
        }
        → Notified sink model id summary deadline user w
            (err (activity_failed e), record w { sent = w.sent ++ activity_scheduled command ∷ [] })

  -- The event of the owner that a task names.
  abbrev pub announced : ℕ → NewOnboardingTask C D → Onboarding C → Option ℕ → State C D → State C D
  announced id input o none w = w
  announced id input o (some owner) w = record w {
    sent = w.sent ++ task_assigned id input.onboarding_id o.employee_id owner input.title ∷ [];
  }

  abbrev with_task : OnboardingTask C → State C D → State C D
  with_task task w = record w {
    db = record w.db { onboarding_tasks = w.db.onboarding_tasks ++ task ∷ [] };
  }

  -- What `create_task` returns, sends and leaves, branch by branch.
  pub data CreateTaskOutcome (sink : ActivitySink C D) (id : ℕ) (input : NewOnboardingTask C D)
      (w : State C D) : Result CheckpointError ℕ × State C D → Type 0 where
    unwired :
        (is_some input.notify_user_id && not sink.is_wired) ≡ true
        → CreateTaskOutcome sink id input w (err activity_seam_unwired, w)
    missing :
        find? (is_onboarding C D input.onboarding_id) w.db.onboardings ≡ none
        → CreateTaskOutcome sink id input w (err (onboarding_not_found input.onboarding_id), w)
    uncategorised :
        stored_category input.category ≡ none
        → CreateTaskOutcome sink id input w (err (db db_error), w)
    recorded :
        (o : Onboarding C) (category : Option TaskCategory)
        → (is_some input.notify_user_id && not sink.is_wired) ≡ false
        → find? (is_onboarding C D input.onboarding_id) w.db.onboardings ≡ some o
        → stored_category input.category ≡ some category
        → {r : Result CheckpointError ℕ × State C D}
        → Notified sink "onboarding_task" id
            (concat "onboarding task: " input.title)
            input.due_date
            input.notify_user_id
            (announced id input o input.owner_employee_id
              (with_task (task_row C D id input category) w))
            r
        → CreateTaskOutcome sink id input w r

  wired : (u : ℕ) (b : Bool) → (is_some (some u) && not b) ≡ false → b ≡ true
  wired u true h = refl
  wired u false h = cc

  notify-Notified :
      (sink : ActivitySink C D) (model : String) (id : ℕ) (summary : String)
      (deadline : Option NaiveDate) (user : Option ℕ) (w : State C D)
      → (is_some user && not sink.is_wired) ≡ false
      → Notified sink model id summary deadline user w
          (continue_with (notify C D sink model id summary deadline user w) (λ _. pure id))
  notify-Notified sink model id summary deadline none w seam = silent refl
  notify-Notified sink model id summary deadline (some u) w seam =
      let command : ActivityCommand NaiveDate = record {
        res_model = model;
        res_id = id;
        summary = summary;
        deadline = deadline;
        user_id = u;
      } in
      elim (Result-cases (sink.schedule w.sent command)) [
        | inl (n, e) ↦ rw e (scheduled u n command refl (wired u sink.is_wired seam, e) refl)
        | inr (x, e) ↦ rw e (rejected u x command refl (wired u sink.is_wired seam, e) refl)
      ]

  announce_lem :
      (id : ℕ) (input : NewOnboardingTask C D) (o : Onboarding C) (owner : Option ℕ) (w : State C D)
      → announce C D id o.employee_id input owner w ≡ (ok tt, announced id input o owner w)
  announce_lem id input o none w = refl
  announce_lem id input o (some owner) w = refl

  -- Creating a task, on every branch and for any sink. Asking to notify without a wired sink, an
  -- onboarding that is missing and a category that the database does not have write and send nothing;
  -- otherwise there is one more pending task, its owner, if any, is told, and then the sink is called
  -- if a user is to be notified; its rejection is returned and the task stays recorded.
  pub create_task-CreateTaskOutcome :
      (sink : ActivitySink C D) (id : ℕ) (input : NewOnboardingTask C D) (w : State C D)
      → CreateTaskOutcome sink id input w (create_task C D sink id input w)
  unfolding create_task
  create_task-CreateTaskOutcome sink id input w =
      elim (Bool-cases (is_some input.notify_user_id && not sink.is_wired)) [
        | inl s ↦ rw s (unwired s)
        | inr s ↦
            elim (Option-cases (find? (is_onboarding C D input.onboarding_id) w.db.onboardings)) [
              | inl e ↦ rw (s, e) (missing e)
              | inr (o, e) ↦ elim (Option-cases (stored_category input.category)) [
                | inl k ↦ rw (s, e, k) (uncategorised k)
                | inr (category, k) ↦
                    let now_on = with_task (task_row C D id input category) w in
                    rw (s, e, k, announce_lem id input o input.owner_employee_id now_on)
                      (recorded o category s e k (
                        notify-Notified sink "onboarding_task" id
                          (concat "onboarding task: " input.title) input.due_date
                          input.notify_user_id (announced id input o input.owner_employee_id now_on)
                          s))
              ]
            ]
      ]

  -- What `create_clearance_item` returns, sends and leaves, branch by branch.
  pub data CreateItemOutcome (sink : ActivitySink C D) (id : ℕ) (input : NewClearanceItem C D)
      (w : State C D) : Result CheckpointError ℕ × State C D → Type 0 where
    unwired :
        (is_some input.notify_user_id && not sink.is_wired) ≡ true
        → CreateItemOutcome sink id input w (err activity_seam_unwired, w)
    missing :
        find? (has_id C D input.offboarding_id) w.db.offboardings ≡ none
        → CreateItemOutcome sink id input w (err (offboarding_not_found input.offboarding_id), w)
    recorded :
        (o : Offboarding C D)
        → (is_some input.notify_user_id && not sink.is_wired) ≡ false
        → find? (has_id C D input.offboarding_id) w.db.offboardings ≡ some o
        → {r : Result CheckpointError ℕ × State C D}
        → Notified sink "clearance_item" id
            (concat "clearance item: " input.title)
            none
            input.notify_user_id
            (record w {
              db = record w.db {
                clearance_items = w.db.clearance_items ++ item_row C D id input ∷ [];
              };
            })
            r
        → CreateItemOutcome sink id input w r

  -- Creating a clearance item, on every branch and for any sink. Asking to notify without a wired sink
  -- and an offboarding that is missing write and send nothing; otherwise there is one more pending
  -- item, and the sink is called if a user is to be notified; its rejection is returned and the item
  -- stays recorded.
  pub create_clearance_item-CreateItemOutcome :
      (sink : ActivitySink C D) (id : ℕ) (input : NewClearanceItem C D) (w : State C D)
      → CreateItemOutcome sink id input w (create_clearance_item C D sink id input w)
  unfolding create_clearance_item
  create_clearance_item-CreateItemOutcome sink id input w =
      elim (Bool-cases (is_some input.notify_user_id && not sink.is_wired)) [
        | inl s ↦ rw s (unwired s)
        | inr s ↦ elim (Option-cases (find? (has_id C D input.offboarding_id) w.db.offboardings)) [
          | inl e ↦ rw (s, e) (missing e)
          | inr (o, e) ↦
              rw (s, e)
                (recorded o s e (
                  notify-Notified sink "clearance_item" id (concat "clearance item: " input.title)
                    none input.notify_user_id _ s))
        ]
      ]

  -- What `resolve_task` returns and leaves, branch by branch.
  pub data ResolveOutcome (now : DateTime) (id : ℕ) (resolution : String) (actor : Option ℕ)
      (w : State C D) : Result CheckpointError Bool × State C D → Type 0 where
    unknown :
        resolution_of resolution ≡ none
        → ResolveOutcome now id resolution actor w (err (invalid_task_resolution resolution), w)
    missing :
        find? (is_task C D id) w.db.onboarding_tasks ≡ none
        → ResolveOutcome now id resolution actor w (err (task_not_found id), w)
    terminal :
        (t : OnboardingTask C)
        → find? (is_task C D id) w.db.onboarding_tasks ≡ some t
        → is_terminal t.status ≡ true
        → ResolveOutcome now id resolution actor w (ok false, w)
    resolved :
        (t : OnboardingTask C) (status : TaskStatus)
        → resolution_of resolution ≡ some status
        → find? (is_task C D id) w.db.onboarding_tasks ≡ some t
        → is_terminal t.status ≡ false
        → ResolveOutcome now id resolution actor w (
          ok true,
          record w {
            db = record w.db {
              onboarding_tasks =
                  update_rows
                    (is_task C D id)
                    (resolved_row C D now actor status)
                    w.db.onboarding_tasks;
            };
          },
        )

  -- Resolving a task, on every branch. A task that is neither done nor skipped takes the resolution,
  -- with its time and actor; a done or skipped one is a no-op; an unknown resolution and a missing
  -- task are errors that leave all tables alone.
  pub resolve_task-ResolveOutcome :
      (now : DateTime) (id : ℕ) (resolution : String) (actor : Option ℕ) (w : State C D)
      → ResolveOutcome now id resolution actor w (resolve_task C D now id resolution actor w)
  unfolding resolve_task
  resolve_task-ResolveOutcome now id resolution actor w =
      elim (Option-cases (resolution_of resolution)) [
        | inl e ↦ rw e (unknown e)
        | inr (status, e) ↦ elim (Option-cases (find? (is_task C D id) w.db.onboarding_tasks)) [
          | inl k ↦ rw (e, k) (missing k)
          | inr (t, k) ↦ elim (Bool-cases (is_terminal t.status)) [
            | inl l ↦ rw (e, k, l) (terminal t k l)
            | inr l ↦ rw (e, k, l) (resolved t status e k l)
          ]
        ]
      ]
