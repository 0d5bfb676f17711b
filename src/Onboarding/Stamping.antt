-- ===== src/Onboarding/Stamping.antt =====
-- What `create` of src/application/service/onboarding_write_service.rs stamps out.
use backbone_lifecycle.Prelude.{
  ℕ, zero, suc, ◌≡◌, ◌+◌, inl, inr, refl, sym, ap, ◌∙◌, some_inj, List, [], ◌∷◌, ◌++◌, Bool, true,
  Option, none, some, Option-cases, Result, ok, err, find?, count_rows, select_rows, find?-append,
  ==_refl, arith,
}
use backbone_lifecycle.Crates.Decimals.{Decimals}
use backbone_lifecycle.Crates.Calendar.{Calendar}
use backbone_lifecycle.Settlement.Assembly.{db_error}
use backbone_lifecycle.Store.{Tables}
use backbone_lifecycle.Store.Joining.{
  in_progress, OnboardingTemplateTask, Onboarding, OnboardingTask,
}
use backbone_lifecycle.Offboarding.Outcomes.{State, positive}
use backbone_lifecycle.Onboarding.{
  Failure, NewOnboarding, DateSum, chosen_template, is_step_of, is_onboarding, is_open_task_for,
  started_row, stamp, stamped_tasks, create, complete,
}
use backbone_lifecycle.Onboarding.Errors.{db, tasks_open}

module _ {A : Type 0} where
  count_rows-++ :
      (p : A → Bool) (xs ys : List A) → count_rows p (xs ++ ys) ≡ count_rows p xs + count_rows p ys
  count_rows-++ p [] ys = omega arith
  count_rows-++ p (x ∷ xs) ys = ground (arith, count_rows-++ p xs ys)

module _ (C : Calendar) (D : Decimals) where
  -- The number of steps that a template gives.
  abbrev pub steps_of : Option ℕ → List OnboardingTemplateTask → ℕ
  steps_of none ts = 0
  steps_of (some template_id) ts = count_rows (is_step_of template_id) ts

  abbrev pub chosen : NewOnboarding C D → State C D → Option ℕ
  chosen input w = chosen_template input.template_id w.db.onboarding_templates

  -- What `create` returns and leaves, branch by branch.
  pub data CreateOutcome (plus : DateSum C D) (id : ℕ) (ids : ℕ → ℕ) (input : NewOnboarding C D)
      (w : State C D) : Result (Failure C D) ℕ × State C D → Type 0 where
    undated :
        stamped_tasks C D plus ids id input.start_date (chosen input w) w.db ≡ none
        → CreateOutcome plus id ids input w (err (db db_error), w)
    started :
        (tasks : List (OnboardingTask C))
        → stamped_tasks C D plus ids id input.start_date (chosen input w) w.db ≡ some tasks
        → CreateOutcome plus id ids input w (
          ok id,
          record w {
            db = record w.db {
              onboardings = w.db.onboardings ++ started_row C D id input (chosen input w) ∷ [];
              onboarding_tasks = w.db.onboarding_tasks ++ tasks;
            };
          },
        )

  stamped_ext :
      (plus : DateSum C D) (ids : ℕ → ℕ) (id : ℕ) (input : NewOnboarding C D) (w : State C D)
      (template_id : Option ℕ)
      → stamped_tasks C D plus ids id input.start_date template_id (record w.db {
        onboardings = w.db.onboardings ++ started_row C D id input template_id ∷ [];
      })
        ≡ stamped_tasks C D plus ids id input.start_date template_id w.db
  stamped_ext plus ids id input w none = refl
  stamped_ext plus ids id input w (some t) = refl

  pub create-CreateOutcome :
      (plus : DateSum C D) (id : ℕ) (ids : ℕ → ℕ) (input : NewOnboarding C D) (w : State C D)
      → CreateOutcome plus id ids input w (create C D plus id ids input w)
  unfolding create
  create-CreateOutcome plus id ids input w =
      elim (Option-cases (stamped_tasks C D plus ids id input.start_date (chosen input w) w.db)) [
        | inl e ↦ rw (stamped_ext plus ids id input w (chosen input w), e) (undated e)
        | inr (tasks, e) ↦
            rw (stamped_ext plus ids id input w (chosen input w), e) (started tasks e)
      ]

  -- Every step that is stamped is an open task of the onboarding.
  stamp-count :
      (plus : DateSum C D) (ids : ℕ → ℕ) (id : ℕ) (start : C.NaiveDate)
      (ts : List OnboardingTemplateTask) {tasks : List (OnboardingTask C)}
      → stamp C D plus ids id start ts ≡ some tasks
      → count_rows (is_open_task_for C D id) tasks ≡ count_rows (λ t. true) ts
  unfolding stamp
  stamp-count plus ids id start [] h = rw (sym (some_inj h)) refl
  stamp-count plus ids id start (t ∷ ts) h = elim (Option-cases (plus start t.due_day_offset)) [
    | inl e ↦ cc (rw e at h)
    | inr (due, e) ↦ elim (Option-cases (stamp C D plus (λ k. ids (suc k)) id start ts)) [
      | inl k ↦ cc (rw (e, k) at h)
      | inr (rest, k) ↦
          rw (sym (some_inj (rw (e, k) at h)), ==_refl id)
            (ap suc (stamp-count plus (λ k. ids (suc k)) id start ts {tasks = rest} k))
    ]
  ]

  count_selected :
      (p : OnboardingTemplateTask → Bool) (ts : List OnboardingTemplateTask)
      → count_rows (λ t. true) (select_rows p ts) ≡ count_rows p ts
  count_selected p [] = refl
  count_selected p (t ∷ ts) = ground (arith, count_selected p ts)

  stamped_tasks-count :
      (plus : DateSum C D) (ids : ℕ → ℕ) (id : ℕ) (start : C.NaiveDate) (template_id : Option ℕ)
      (t : Tables C D) {tasks : List (OnboardingTask C)}
      → stamped_tasks C D plus ids id start template_id t ≡ some tasks
      → count_rows (is_open_task_for C D id) tasks
        ≡ steps_of template_id t.onboarding_template_tasks
  stamped_tasks-count plus ids id start none t h = rw (sym (some_inj h)) refl
  stamped_tasks-count plus ids id start (some template_id) t {tasks} h =
      stamp-count plus ids id start
        (select_rows (is_step_of template_id) t.onboarding_template_tasks) {tasks = tasks} h
      ∙ count_selected (is_step_of template_id) t.onboarding_template_tasks

  -- What is open after a start.
  pub started_open :
      (plus : DateSum C D) (id : ℕ) (ids : ℕ → ℕ) (input : NewOnboarding C D) (w : State C D)
      (tasks : List (OnboardingTask C))
      → count_rows (is_open_task_for C D id) w.db.onboarding_tasks ≡ 0
      → stamped_tasks C D plus ids id input.start_date (chosen input w) w.db ≡ some tasks
      → count_rows (is_open_task_for C D id) (w.db.onboarding_tasks ++ tasks)
        ≡ steps_of (chosen input w) w.db.onboarding_template_tasks
  started_open plus id ids input w tasks fresh e = omega (
    arith,
    fresh,
    count_rows-++ (is_open_task_for C D id) w.db.onboarding_tasks tasks,
    stamped_tasks-count plus ids id input.start_date (chosen input w) w.db {tasks = tasks} e,
  )

  -- What a completion answers where so many tasks are open.
  abbrev pub verdict : ℕ → ℕ → ℕ → Result (Failure C D) (Option ℕ)
  verdict event_id id zero = ok (some event_id)
  verdict event_id id (suc n) = err (tasks_open id (suc n))

  complete_verdict :
      (company_id event_id : ℕ) (now : C.DateTime) (id n : ℕ) (w : State C D) (o : Onboarding C)
      → find? (is_onboarding C D id) w.db.onboardings ≡ some o
      → o.status ≡ in_progress
      → count_rows (is_open_task_for C D id) w.db.onboarding_tasks ≡ n
      → (complete C D (some company_id) event_id now id w).0 ≡ verdict event_id id n
  unfolding complete
  complete_verdict company_id event_id now id zero w o e s k = rw (e, s, k) refl
  complete_verdict company_id event_id now id (suc n) w o e s k = rw (e, s, k, positive n) refl

  -- A hire begins with the steps of the template: under a fresh id with no task of its own, once
  -- `create` has returned, completing the onboarding at once succeeds exactly when the template
  -- chosen (the one named, or the first active default one, or none) has no live step, and otherwise
  -- fails with the number of its live steps.
  pub create_complete :
      (plus : DateSum C D) (id : ℕ) (ids : ℕ → ℕ) (input : NewOnboarding C D) (w : State C D)
      (company_id event_id : ℕ) (now : C.DateTime)
      → count_rows (is_onboarding C D id) w.db.onboardings ≡ 0
      → count_rows (is_open_task_for C D id) w.db.onboarding_tasks ≡ 0
      → (create C D plus id ids input w).0 ≡ ok id
      → (complete C D (some company_id) event_id now id (create C D plus id ids input w).1).0
        ≡ verdict event_id id (steps_of (chosen input w) w.db.onboarding_template_tasks)
  create_complete plus id ids input w company_id event_id now fresh none_open success =
      from (create-CreateOutcome plus id ids input w) success
    where
      from :
          {r : Result (Failure C D) ℕ × State C D}
          → CreateOutcome plus id ids input w r
          → r.0 ≡ ok id
          → (complete C D (some company_id) event_id now id r.1).0
            ≡ verdict event_id id (steps_of (chosen input w) w.db.onboarding_template_tasks)
      from (CreateOutcome.undated e) h = cc
      from (CreateOutcome.started tasks e) h =
          complete_verdict company_id event_id now id _ _
            (started_row C D id input (chosen input w))
            (find?-append (is_onboarding C D id) w.db.onboardings _ fresh (==_refl id)) refl
            (started_open plus id ids input w tasks none_open e)
