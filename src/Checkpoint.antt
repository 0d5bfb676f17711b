-- ===== src/Checkpoint.antt =====
-- src/application/service/checkpoint_write_service.rs, with the port of activity_port.rs: the verbs
-- on onboarding tasks and clearance items. The activity sink is a parameter; fresh ids and the time
-- of the call are arguments.
pub mod Errors
pub mod Outcomes
pub mod Journey
use backbone_lifecycle.Prelude.{
  ℕ, List, [], ◌∷◌, ◌++◌, String, Bool, true, false, not, ◌&&◌, ◌||◌, Option, none, some, Result,
  ok, err, map_err, ◌==◌, str_eq, if◌then◌else◌, is_some, find?, update_rows, count_rows,
}
use backbone_lifecycle.Prelude.Verbs.{
  World, Verb, ◌>>=◌, ◌>>◌, pure, raise_if, query, fetch, execute, send, transaction,
}
use backbone_lifecycle.Crates.Decimals.{Decimals}
use backbone_lifecycle.Crates.Calendar.{Calendar}
use backbone_lifecycle.Settlement.Assembly.{db_error}
use backbone_lifecycle.Store.{pending_item, ClearanceItem, Tables}
use backbone_lifecycle.Store.Joining.{
  TaskStatus, done, skipped, blocked, TaskCategory, OnboardingTask,
}
use backbone_lifecycle.Store.Effects.{Effect, ActivityCommand, activity_scheduled, task_assigned}
use backbone_lifecycle.Offboarding.{has_id}
use backbone_lifecycle.Onboarding.{category_of, is_open_task, is_onboarding}
use Prim.Native.String.{◌++◌ as concat}
use Errors.{
  ActivityRejected, CheckpointError, onboarding_not_found, offboarding_not_found,
  activity_seam_unwired, activity_failed, db, task_not_found, invalid_task_resolution,
}

-- `NULLIF($4, '')::task_category` into a column that may be NULL: none is a label that the database
-- does not have, on which the statement fails.
abbrev pub stored_category : Option String → Option (Option TaskCategory)
stored_category none = some none
stored_category (some s) =
    if str_eq s ""
    then some none
    else if is_some (category_of s)
    then some (category_of s)
    else none

-- What a task can be resolved to.
abbrev pub resolution_of : String → Option TaskStatus
resolution_of s =
    if str_eq s "done"
    then some done
    else if str_eq s "skipped"
    then some skipped
    else if str_eq s "blocked"
    then some blocked
    else none

-- `status == "done" || status == "skipped"`
abbrev pub is_terminal : TaskStatus → Bool
is_terminal done = true
is_terminal skipped = true
is_terminal _ = false

module _ (C : Calendar) (D : Decimals) where
  open C use {NaiveDate, DateTime}
  open D use {Decimal}

  abbrev pub Action : Type 0 → Type 0
  Action A = Verb (Tables C D) (Effect NaiveDate Decimal) CheckpointError A

  -- `schedule` knows what was sent before.
  pub record ActivitySink : Type 0 where
    pub is_wired : Bool
    pub schedule :
        List (Effect NaiveDate Decimal) → ActivityCommand NaiveDate → Result ActivityRejected ℕ

  unfoldable pub unwired_activity_sink : ActivitySink
  unwired_activity_sink = record {
    is_wired = false;
    schedule = λ _ _. err (record {
      code = "activity_seam_unwired";
      message = "the activity seam is not wired — supply an ActivitySink to notify users";
    });
  }

  pub record NewOnboardingTask : Type 0 where
    pub onboarding_id : ℕ
    pub title : String
    pub category : Option String
    pub owner_employee_id : Option ℕ
    pub due_date : Option NaiveDate
    pub notify_user_id : Option ℕ

  pub record NewClearanceItem : Type 0 where
    pub offboarding_id : ℕ
    pub title : String
    pub clearer_employee_id : Option ℕ
    pub notify_user_id : Option ℕ

  abbrev pub task_row : ℕ → NewOnboardingTask → Option TaskCategory → OnboardingTask C
  task_row id input category = record {
    id = id;
    onboarding_id = input.onboarding_id;
    title = input.title;
    category = category;
    owner_employee_id = input.owner_employee_id;
    due_date = input.due_date;
    status = TaskStatus.pending;
    resolution = none;
    deleted = false;
  }

  -- The owner that the row names is told.
  abbrev pub announce : ℕ → ℕ → NewOnboardingTask → Option ℕ → Action (Unit {0})
  announce id employee_id input none = pure tt
  announce id employee_id input (some owner) =
      send (task_assigned id input.onboarding_id employee_id owner input.title)

  abbrev pub schedule : ActivitySink → ActivityCommand NaiveDate → Action ℕ
  schedule sink command w = (
    map_err activity_failed (sink.schedule w.sent command),
    record w { sent = w.sent ++ activity_scheduled command ∷ [] },
  )

  -- The activity of the user to notify, when there is one.
  abbrev pub notify :
      ActivitySink → String → ℕ → String → Option NaiveDate → Option ℕ → Action (Unit {0})
  notify sink model id summary deadline none = pure tt
  notify sink model id summary deadline (some user_id) =
      schedule sink (record {
        res_model = model;
        res_id = id;
        summary = summary;
        deadline = deadline;
        user_id = user_id;
      })
      >> pure tt

  unfoldable pub create_task : ActivitySink → ℕ → NewOnboardingTask → Action ℕ
  create_task sink id input = do
    raise_if (is_some input.notify_user_id && not sink.is_wired) activity_seam_unwired
    joiner ← transaction do
      o ←
          fetch (λ t. find? (is_onboarding C D input.onboarding_id) t.onboardings)
            (onboarding_not_found input.onboarding_id)
      category ← fetch (λ _. stored_category input.category) (db db_error)
      execute (λ t. record t {
        onboarding_tasks = t.onboarding_tasks ++ task_row id input category ∷ [];
      })
      pure o.employee_id
    announce id joiner input input.owner_employee_id
    notify sink "onboarding_task" id (concat "onboarding task: " input.title) input.due_date
        input.notify_user_id
    pure id

  abbrev pub is_task : ℕ → OnboardingTask C → Bool
  is_task id t = t.id == id

  abbrev pub resolved_row : DateTime → Option ℕ → TaskStatus → OnboardingTask C → OnboardingTask C
  resolved_row now actor status t = record t {
    status = status;
    resolution = some (status, now, actor);
  }

  unfoldable pub resolve_task : DateTime → ℕ → String → Option ℕ → Action Bool
  resolve_task now task_id resolution actor = do
    status ← fetch (λ _. resolution_of resolution) (invalid_task_resolution resolution)
    transaction do
      task ← fetch (λ t. find? (is_task task_id) t.onboarding_tasks) (task_not_found task_id)
      if is_terminal task.status then pure false else do
        execute (λ t. record t {
          onboarding_tasks =
              update_rows (is_task task_id) (resolved_row now actor status) t.onboarding_tasks;
        })
        pure true

  unfoldable pub open_task_count : ℕ → Action ℕ
  open_task_count onboarding_id = query λ t.
      count_rows (λ x. (x.onboarding_id == onboarding_id) && is_open_task x.status)
        t.onboarding_tasks

  abbrev pub item_row : ℕ → NewClearanceItem → ClearanceItem
  item_row id input = record {
    id = id;
    offboarding_id = input.offboarding_id;
    title = input.title;
    clearer_employee_id = input.clearer_employee_id;
    status = pending_item;
    deleted = false;
  }

  unfoldable pub create_clearance_item : ActivitySink → ℕ → NewClearanceItem → Action ℕ
  create_clearance_item sink id input = do
    raise_if (is_some input.notify_user_id && not sink.is_wired) activity_seam_unwired
    transaction do
      fetch (λ t. find? (has_id C D input.offboarding_id) t.offboardings)
          (offboarding_not_found input.offboarding_id)
      execute (λ t. record t { clearance_items = t.clearance_items ++ item_row id input ∷ [] })
    notify sink "clearance_item" id (concat "clearance item: " input.title) none
        input.notify_user_id
    pure id
