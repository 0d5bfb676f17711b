-- ===== src/Onboarding.antt =====
-- src/application/service/onboarding_write_service.rs: the verbs on an onboarding. The database's sum
-- of a date and a number of days is a parameter; fresh ids and the time of the call are arguments.
pub mod Errors
pub mod Outcomes
pub mod Ledger
pub mod Stamping
use backbone_lifecycle.Prelude.{
  ℕ, suc, List, [], ◌∷◌, ◌++◌, String, Bool, true, false, not, ◌&&◌, ◌||◌, Option, none, some,
  Result, ok, ok_or, ltb, ◌==◌, str_eq, if◌then◌else◌, is_some, find?, update_rows, count_rows,
  select_rows,
}
use backbone_lifecycle.Prelude.Options
use backbone_lifecycle.Prelude.Verbs.{
  World, Verb, ◌>>=◌, ◌>>◌, pure, raise_if, lift, query, fetch, execute, transaction,
}
use backbone_lifecycle.Crates.Decimals.{Decimals}
use backbone_lifecycle.Crates.Calendar.{Calendar, lt_date}
use backbone_lifecycle.Settlement.Assembly.{db_error}
use backbone_lifecycle.Store.{Tables}
use backbone_lifecycle.Store.Joining.{
  OnboardingStatus, in_progress, completed, TaskStatus, blocked, TaskCategory, document, equipment,
  account_access, policy_ack, induction, DayOffset, OnboardingTemplate, OnboardingTemplateTask,
  Onboarding, OnboardingTask,
}
use backbone_lifecycle.Store.Outbox.{OutboxRow, onboarding_completed, probation_confirmed}
use backbone_lifecycle.Store.Effects.{Effect}
use backbone_lifecycle.Offboarding.{stage}
use Errors.{
  OnboardingCompleteError, not_found, not_in_progress, tasks_open, not_completed,
  probation_not_planned, probation_not_ended, no_company_scope, db,
}

abbrev pub is_in_progress : OnboardingStatus → Bool
is_in_progress in_progress = true
is_in_progress _ = false

abbrev pub is_completed : OnboardingStatus → Bool
is_completed completed = true
is_completed _ = false

-- `status IN ('pending', 'blocked')`
abbrev pub is_open_task : TaskStatus → Bool
is_open_task TaskStatus.pending = true
is_open_task blocked = true
is_open_task _ = false

-- The labels of the database enum.
abbrev pub category_of : String → Option TaskCategory
category_of s =
    if str_eq s "document"
    then some document
    else if str_eq s "equipment"
    then some equipment
    else if str_eq s "account_access"
    then some account_access
    else if str_eq s "policy_ack"
    then some policy_ack
    else if str_eq s "induction"
    then some induction
    else none

-- CASE WHEN … END: what is not a label is NULL.
abbrev pub stamped_category : Option String → Option TaskCategory
stamped_category none = none
stamped_category (some s) = category_of s

-- `SELECT id … WHERE is_default AND is_active AND …`
abbrev pub is_default_template : OnboardingTemplate → Bool
is_default_template t = t.is_default && t.is_active && not t.deleted

abbrev template_id_of : Option OnboardingTemplate → Option ℕ
template_id_of none = none
template_id_of (some t) = some t.id

-- The template named, or the default one.
unfoldable pub chosen_template : Option ℕ → List OnboardingTemplate → Option ℕ
chosen_template (some id) templates = some id
chosen_template none templates = template_id_of (find? is_default_template templates)

abbrev pub is_step_of : ℕ → OnboardingTemplateTask → Bool
is_step_of template_id t = (t.template_id == template_id) && not t.deleted

module _ (C : Calendar) (D : Decimals) where
  open C use {NaiveDate, DateTime}
  open D use {Decimal}

  abbrev pub Failure : Type 0
  Failure = OnboardingCompleteError NaiveDate

  abbrev pub Action : Type 0 → Type 0
  Action A = Verb (Tables C D) (Effect NaiveDate Decimal) Failure A

  pub record NewOnboarding : Type 0 where
    pub employee_id : ℕ
    pub start_date : NaiveDate
    pub probation_end_date : Option NaiveDate
    pub template_id : Option ℕ

  abbrev pub is_onboarding : ℕ → Onboarding C → Bool
  is_onboarding id o = o.id == id

  abbrev pub update_onboarding : ℕ → (Onboarding C → Onboarding C) → Tables C D → Tables C D
  update_onboarding id f t = record t {
    onboardings = update_rows (is_onboarding id) f t.onboardings;
  }

  abbrev pub started_row : ℕ → NewOnboarding → Option ℕ → Onboarding C
  started_row id input template_id = record {
    id = id;
    employee_id = input.employee_id;
    start_date = input.start_date;
    status = in_progress;
    completed_at = none;
    probation_end_date = input.probation_end_date;
    confirmed_at = none;
    template_id = template_id;
  }

  abbrev pub stamped_task : ℕ → ℕ → NaiveDate → OnboardingTemplateTask → OnboardingTask C
  stamped_task id onboarding_id due t = record {
    id = id;
    onboarding_id = onboarding_id;
    title = t.title;
    category = stamped_category t.category;
    owner_employee_id = none;
    due_date = some due;
    status = TaskStatus.pending;
    resolution = none;
    deleted = false;
  }

  -- `$2::date + t.due_day_offset`, which fails out of the database's range.
  abbrev pub DateSum : Type 0
  DateSum = NaiveDate → DayOffset → Option NaiveDate

  -- The INSERT … SELECT over the template's steps; `ids` gives each new row its id.
  unfoldable pub stamp :
      DateSum
      → (ids : ℕ → ℕ) → ℕ
      → NaiveDate
      → List OnboardingTemplateTask
      → Option (List (OnboardingTask C))
  stamp plus ids onboarding_id start [] = some []
  stamp plus ids onboarding_id start (t ∷ ts) =
      let rest = stamp plus (λ k. ids (suc k)) onboarding_id start ts in
      Options.◌>>=◌ (plus start t.due_day_offset)
        λ due. Options.◌>>=◌ rest λ tasks. some (stamped_task (ids 0) onboarding_id due t ∷ tasks)

  abbrev pub stamped_tasks :
      DateSum
      → (ids : ℕ → ℕ) → ℕ
      → NaiveDate
      → Option ℕ
      → Tables C D
      → Option (List (OnboardingTask C))
  stamped_tasks plus ids onboarding_id start none t = some []
  stamped_tasks plus ids onboarding_id start (some template_id) t =
      stamp plus ids onboarding_id start
        (select_rows (is_step_of template_id) t.onboarding_template_tasks)

  unfoldable pub create : DateSum → ℕ → (ids : ℕ → ℕ) → NewOnboarding → Action ℕ
  create plus id ids input = transaction do
    template_id ← query (λ t. chosen_template input.template_id t.onboarding_templates)
    execute (λ t. record t { onboardings = t.onboardings ++ started_row id input template_id ∷ [] })
    tasks ← fetch (stamped_tasks plus ids id input.start_date template_id) (db db_error)
    execute (λ t. record t { onboarding_tasks = t.onboarding_tasks ++ tasks })
    pure id

  abbrev pub is_open_task_for : ℕ → OnboardingTask C → Bool
  is_open_task_for id t = (t.onboarding_id == id) && is_open_task t.status && not t.deleted

  abbrev pub completed_row : DateTime → Onboarding C → Onboarding C
  completed_row now o = record o { status = completed; completed_at = some now }

  abbrev pub completed_event : ℕ → ℕ → ℕ → Onboarding C → OutboxRow C D
  completed_event event_id company_id onboarding_id o = onboarding_completed (record {
    event_id = event_id;
    company_id = company_id;
    onboarding_id = onboarding_id;
    employee_id = o.employee_id;
  })

  unfoldable pub complete : Option ℕ → ℕ → DateTime → ℕ → Action (Option ℕ)
  complete company event_id now onboarding_id = do
    company_id ← lift (ok_or company no_company_scope)
    transaction do
      o ← fetch (λ t. find? (is_onboarding onboarding_id) t.onboardings) (not_found onboarding_id)
      if is_completed o.status then pure none else do
        raise_if (not (is_in_progress o.status)) (not_in_progress onboarding_id o.status)
        open_count ← query (λ t. count_rows (is_open_task_for onboarding_id) t.onboarding_tasks)
        raise_if (ltb 0 open_count) (tasks_open onboarding_id open_count)
        execute (update_onboarding onboarding_id (completed_row now))
        execute (stage C D (completed_event event_id company_id onboarding_id o))
        pure (some event_id)

  abbrev pub confirmed_row : DateTime → Onboarding C → Onboarding C
  confirmed_row now o = record o { confirmed_at = some now }

  abbrev pub confirmed_event : ℕ → ℕ → NaiveDate → ℕ → Onboarding C → OutboxRow C D
  confirmed_event event_id company_id today onboarding_id o = probation_confirmed (record {
    event_id = event_id;
    company_id = company_id;
    onboarding_id = onboarding_id;
    employee_id = o.employee_id;
    confirmation_date = today;
  })

  unfoldable pub confirm : Option ℕ → ℕ → DateTime → ℕ → (force : Bool) → Action (Option ℕ)
  confirm company event_id now onboarding_id force = do
    company_id ← lift (ok_or company no_company_scope)
    transaction do
      o ← fetch (λ t. find? (is_onboarding onboarding_id) t.onboardings) (not_found onboarding_id)
      if is_some o.confirmed_at then pure none else do
        raise_if (not (is_completed o.status)) (not_completed onboarding_id o.status)
        probation_end_date ← lift (ok_or o.probation_end_date (probation_not_planned onboarding_id))
        let today = C.date_naive now
        raise_if (not force && lt_date C today probation_end_date)
            (probation_not_ended onboarding_id probation_end_date)
        execute (update_onboarding onboarding_id (confirmed_row now))
        execute (stage C D (confirmed_event event_id company_id today onboarding_id o))
        pure (some event_id)
