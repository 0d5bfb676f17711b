-- ===== src/Offboarding/Opened.antt =====
-- What `create` of src/application/service/offboarding_write_service.rs does, branch by branch.
use backbone_lifecycle.Prelude.{
  ℕ, ◌≡◌, ◌≢◌, refl, [], ◌∷◌, ◌++◌, Bool, true, false, Option, none, some, Result, ok, err, find?,
}
use backbone_lifecycle.Crates.Decimals.{Decimals}
use backbone_lifecycle.Crates.Calendar.{Calendar}
use backbone_lifecycle.Pesangon.Reason.{OffboardingReason}
use backbone_lifecycle.Settlement.Assembly.{db_error}
use backbone_lifecycle.Store.{in_progress, Offboarding, Contract, Tables}
use backbone_lifecycle.Store.Effects.{offboarding_opened}
use backbone_lifecycle.Offboarding.{
  OffboardingCloseError, invalid, db, is_end_of_contract, has_live_pkwt, stored_reason,
  NewOffboarding, create,
}
use backbone_lifecycle.Offboarding.Outcomes.{State}

module _ (C : Calendar) (D : Decimals) where
  open C use {NaiveDate}

  abbrev pub live_pkwt : ℕ → Tables C D → Option (Contract C D)
  live_pkwt employee_id t = find? (has_live_pkwt C D employee_id) t.contracts

  abbrev pub opened_row : ℕ → NewOffboarding C D → OffboardingReason → Offboarding C D
  opened_row id input reason = record {
    id = id;
    employee_id = input.employee_id;
    reason = reason;
    notice_date = input.notice_date;
    last_working_day = input.last_working_day;
    status = in_progress;
    final_settlement_id = none;
  }

  -- What `create` returns and leaves, branch by branch.
  pub data CreateOutcome (id : ℕ) (input : NewOffboarding C D) (w : State C D)
      : Result (OffboardingCloseError NaiveDate) ℕ × State C D → Type 0 where
    no_contract :
        is_end_of_contract input.reason ≡ true
        → live_pkwt input.employee_id w.db ≡ none
        → CreateOutcome id input w (
          err (
              invalid
                "an end_of_contract offboarding needs an active PKWT contract behind it — file the contract decision first"),
          w,
        )
    no_reason : stored_reason input.reason ≡ none → CreateOutcome id input w (err (db db_error), w)
    opened :
        (reason : OffboardingReason)
        → stored_reason input.reason ≡ some reason
        → (is_end_of_contract input.reason ≡ true → live_pkwt input.employee_id w.db ≢ none)
        → CreateOutcome id input w (
          ok id,
          record {
            db = record w.db {
              offboardings = w.db.offboardings ++ opened_row id input reason ∷ [];
            };
            sent = w.sent ++ offboarding_opened id input.employee_id input.last_working_day ∷ [];
          },
        )

  stored :
      (id : ℕ) (input : NewOffboarding C D) (w : State C D) (eoc : Bool) (c : Option (Contract C D))
      (reason : Option OffboardingReason)
      → is_end_of_contract input.reason ≡ eoc
      → live_pkwt input.employee_id w.db ≡ c
      → stored_reason input.reason ≡ reason
      → CreateOutcome id input w (create C D id input w)
  unfolding create
  stored id input w true none reason e k s = rw (e, k) (no_contract e k)
  stored id input w true (some c) none e k s = rw (e, k, s) (no_reason s)
  stored id input w true (some c) (some reason) e k s =
      rw (e, k, s) (opened reason s (λ h absent. cc))
  stored id input w false c none e k s = rw (e, s) (no_reason s)
  stored id input w false c (some reason) e k s = rw (e, s) (opened reason s (λ h. cc))

  -- Opening an offboarding, on every branch. It inserts one row in progress, then announces it,
  -- exactly when the reason is a stored one and an exit at the end of a contract has a live PKWT
  -- contract of the employee behind it; without the contract it is refused, and without a reason the
  -- statement fails; a refused request changes no table and announces nothing.
  pub create-CreateOutcome :
      (id : ℕ) (input : NewOffboarding C D) (w : State C D)
      → CreateOutcome id input w (create C D id input w)
  create-CreateOutcome id input w = stored id input w _ _ _ refl refl refl
