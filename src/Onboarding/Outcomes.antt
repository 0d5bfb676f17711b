-- ===== src/Onboarding/Outcomes.antt =====
-- What `complete` and `confirm` of src/application/service/onboarding_write_service.rs do, branch by
-- branch.
use backbone_lifecycle.Prelude.{
  ℕ, zero, suc, ◌≡◌, ◌≢◌, inl, inr, refl, Bool, true, false, not, ◌&&◌, Option, none, some,
  Option-cases, Bool-cases, Result, ok, err, find?, count_rows, is_some,
}
use backbone_lifecycle.Crates.Decimals.{Decimals}
use backbone_lifecycle.Crates.Calendar.{Calendar, lt_date}
use backbone_lifecycle.Store.Joining.{
  OnboardingStatus, in_progress, completed, abandoned, Onboarding,
}
use backbone_lifecycle.Offboarding.{stage}
use backbone_lifecycle.Offboarding.Outcomes.{State, positive}
use backbone_lifecycle.Onboarding.{
  Failure, is_onboarding, update_onboarding, is_open_task_for, completed_row, completed_event,
  complete, confirmed_row, confirmed_event, confirm,
}
use backbone_lifecycle.Onboarding.Errors.{
  not_found, not_in_progress, tasks_open, not_completed, probation_not_planned, probation_not_ended,
  no_company_scope,
}

module _ (C : Calendar) (D : Decimals) where
  open C use {NaiveDate, DateTime, date_naive}

  abbrev pub FoundAs : ℕ → State C D → Onboarding C → Type 0
  FoundAs id w o = find? (is_onboarding C D id) w.db.onboardings ≡ some o

  -- What `complete` returns and leaves, branch by branch.
  pub data CompleteOutcome (company : Option ℕ) (event_id : ℕ) (now : DateTime) (id : ℕ)
      (w : State C D) : Result (Failure C D) (Option ℕ) × State C D → Type 0 where
    unscoped : company ≡ none → CompleteOutcome company event_id now id w (err no_company_scope, w)
    missing :
        find? (is_onboarding C D id) w.db.onboardings ≡ none
        → CompleteOutcome company event_id now id w (err (not_found id), w)
    already :
        (o : Onboarding C)
        → FoundAs id w o
        → o.status ≡ completed
        → CompleteOutcome company event_id now id w (ok none, w)
    unstarted :
        (o : Onboarding C) (s : OnboardingStatus)
        → FoundAs id w o
        → (o.status ≡ s) × (s ≢ completed) × (s ≢ in_progress)
        → CompleteOutcome company event_id now id w (err (not_in_progress id s), w)
    open_tasks :
        (o : Onboarding C) (n : ℕ)
        → FoundAs id w o
        → o.status ≡ in_progress
        → count_rows (is_open_task_for C D id) w.db.onboarding_tasks ≡ suc n
        → CompleteOutcome company event_id now id w (err (tasks_open id (suc n)), w)
    done :
        (company_id : ℕ) (o : Onboarding C)
        → company ≡ some company_id
        → FoundAs id w o
        → o.status ≡ in_progress
        → count_rows (is_open_task_for C D id) w.db.onboarding_tasks ≡ 0
        → CompleteOutcome company event_id now id w (
          ok (some event_id),
          record w {
            db =
                stage C D
                  (completed_event C D event_id company_id id o)
                  (update_onboarding C D id (completed_row C D now) w.db);
          },
        )

  module _ (company_id event_id : ℕ) (now : DateTime) (id : ℕ) (w : State C D)
      (o : Onboarding C) where
    complete_counted :
        (n : ℕ)
        → FoundAs id w o
        → o.status ≡ in_progress
        → count_rows (is_open_task_for C D id) w.db.onboarding_tasks ≡ n
        → CompleteOutcome
            (some company_id)
            event_id
            now
            id
            w
            (complete C D (some company_id) event_id now id w)
    unfolding complete
    complete_counted zero e s k = rw (e, s, k) (done company_id o refl e s k)
    complete_counted (suc n) e s k = rw (e, s, k, positive n) (open_tasks o n e s k)

    complete_found :
        (s : OnboardingStatus)
        → FoundAs id w o
        → o.status ≡ s
        → CompleteOutcome
            (some company_id)
            event_id
            now
            id
            w
            (complete C D (some company_id) event_id now id w)
    unfolding complete
    complete_found in_progress e s = complete_counted _ e s refl
    complete_found completed e s = rw (e, s) (already o e s)
    complete_found OnboardingStatus.pending e s =
        rw (e, s) (unstarted o OnboardingStatus.pending e (s, λ h. cc, λ h. cc))
    complete_found abandoned e s = rw (e, s) (unstarted o abandoned e (s, λ h. cc, λ h. cc))

  -- Completing an onboarding, on every branch. It is completed and its one event staged exactly when
  -- the request has a company, it is in progress and none of its live tasks is pending or blocked; a
  -- completed one is a no-op; every failure leaves all tables alone.
  pub complete-CompleteOutcome :
      (company : Option ℕ) (event_id : ℕ) (now : DateTime) (id : ℕ) (w : State C D)
      → CompleteOutcome company event_id now id w (complete C D company event_id now id w)
  unfolding complete
  complete-CompleteOutcome none event_id now id w = unscoped refl
  complete-CompleteOutcome (some company_id) event_id now id w =
      elim (Option-cases (find? (is_onboarding C D id) w.db.onboardings)) [
        | inl e ↦ rw e (missing e)
        | inr (o, e) ↦ complete_found company_id event_id now id w o o.status e refl
      ]

  -- What `confirm` returns and leaves, branch by branch.
  pub data ConfirmOutcome (company : Option ℕ) (event_id : ℕ) (now : DateTime) (id : ℕ)
      (force : Bool) (w : State C D) : Result (Failure C D) (Option ℕ) × State C D → Type 0 where
    unscoped :
        company ≡ none → ConfirmOutcome company event_id now id force w (err no_company_scope, w)
    missing :
        find? (is_onboarding C D id) w.db.onboardings ≡ none
        → ConfirmOutcome company event_id now id force w (err (not_found id), w)
    already :
        (o : Onboarding C)
        → FoundAs id w o
        → is_some o.confirmed_at ≡ true
        → ConfirmOutcome company event_id now id force w (ok none, w)
    unfinished :
        (o : Onboarding C) (s : OnboardingStatus)
        → FoundAs id w o
        → is_some o.confirmed_at ≡ false
        → (o.status ≡ s) × (s ≢ completed)
        → ConfirmOutcome company event_id now id force w (err (not_completed id s), w)
    unplanned :
        (o : Onboarding C)
        → FoundAs id w o
        → (is_some o.confirmed_at ≡ false) × (o.status ≡ completed)
        → o.probation_end_date ≡ none
        → ConfirmOutcome company event_id now id force w (err (probation_not_planned id), w)
    too_early :
        (o : Onboarding C) (ends : NaiveDate)
        → FoundAs id w o
        → (is_some o.confirmed_at ≡ false) × (o.status ≡ completed)
        → o.probation_end_date ≡ some ends
        → (not force && lt_date C (date_naive now) ends) ≡ true
        → ConfirmOutcome company event_id now id force w (err (probation_not_ended id ends), w)
    done :
        (company_id : ℕ) (o : Onboarding C) (ends : NaiveDate)
        → company ≡ some company_id
        → FoundAs id w o
        → (is_some o.confirmed_at ≡ false) × (o.status ≡ completed)
        → o.probation_end_date ≡ some ends
        → (not force && lt_date C (date_naive now) ends) ≡ false
        → ConfirmOutcome company event_id now id force w (
          ok (some event_id),
          record w {
            db =
                stage C D
                  (confirmed_event C D event_id company_id (date_naive now) id o)
                  (update_onboarding C D id (confirmed_row C D now) w.db);
          },
        )

  module _ (company_id event_id : ℕ) (now : DateTime) (id : ℕ) (force : Bool) (w : State C D)
      (o : Onboarding C) (e : FoundAs id w o) where
    confirm_planned :
        (planned : Option NaiveDate)
        → is_some o.confirmed_at ≡ false
        → o.status ≡ completed
        → o.probation_end_date ≡ planned
        → ConfirmOutcome
            (some company_id)
            event_id
            now
            id
            force
            w
            (confirm C D (some company_id) event_id now id force w)
    unfolding confirm
    confirm_planned none u s p = rw (e, u, s, p) (unplanned o e (u, s) p)
    confirm_planned (some ends) u s p =
        elim (Bool-cases (not force && lt_date C (date_naive now) ends)) [
          | inl l ↦ rw (e, u, s, p, l) (too_early o ends e (u, s) p l)
          | inr l ↦ rw (e, u, s, p, l) (done company_id o ends refl e (u, s) p l)
        ]

    confirm_unconfirmed :
        (s : OnboardingStatus)
        → is_some o.confirmed_at ≡ false
        → o.status ≡ s
        → ConfirmOutcome
            (some company_id)
            event_id
            now
            id
            force
            w
            (confirm C D (some company_id) event_id now id force w)
    unfolding confirm
    confirm_unconfirmed completed u s = confirm_planned _ u s refl
    confirm_unconfirmed in_progress u s = rw (e, u, s) (unfinished o in_progress e u (s, λ h. cc))
    confirm_unconfirmed abandoned u s = rw (e, u, s) (unfinished o abandoned e u (s, λ h. cc))
    confirm_unconfirmed OnboardingStatus.pending u s =
        rw (e, u, s) (unfinished o OnboardingStatus.pending e u (s, λ h. cc))

  -- Confirming a probation, on every branch. The confirmation is stamped and its one event staged
  -- exactly when the request has a company, the onboarding is completed and not confirmed, an end of
  -- probation is planned, and it has come or the caller forces it; a confirmed one is a no-op; every
  -- failure leaves all tables alone.
  pub confirm-ConfirmOutcome :
      (company : Option ℕ) (event_id : ℕ) (now : DateTime) (id : ℕ) (force : Bool) (w : State C D)
      → ConfirmOutcome company event_id now id force w (confirm C D company event_id now id force w)
  unfolding confirm
  confirm-ConfirmOutcome none event_id now id force w = unscoped refl
  confirm-ConfirmOutcome (some company_id) event_id now id force w =
      elim (Option-cases (find? (is_onboarding C D id) w.db.onboardings)) [
        | inl e ↦ rw e (missing e)
        | inr (o, e) ↦ elim (Bool-cases (is_some o.confirmed_at)) [
          | inl u ↦ rw (e, u) (already o e u)
          | inr u ↦ confirm_unconfirmed company_id event_id now id force w o e o.status u refl
        ]
      ]
