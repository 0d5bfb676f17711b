-- ===== src/Examples/StaffWitnesses.antt =====
-- The theorems on onboardings, promotions, warning letters and routes at concrete inputs.
use backbone_lifecycle.Prelude.{
  ℕ, ◌≡◌, ◌≤◌, arith, refl, true, none, some, ok, err, find?, count_rows, Bool-cases, inl, inr,
  ◌==◌,
}
use backbone_lifecycle.Store.{in_progress as offboarding_in_progress}
use backbone_lifecycle.Offboarding.{clear, clearance_open}
use backbone_lifecycle.Promotion
use backbone_lifecycle.Promotion.Creation.{RequestOutcome, create-RequestOutcome}
use backbone_lifecycle.Promotion.Outcomes.{ApproveOutcome, approve-ApproveOutcome}
use backbone_lifecycle.Promotion.Ledger as PromotionLedger
use backbone_lifecycle.Promotion.Ledger.{IsSound, Reach-IsSound}
use backbone_lifecycle.Onboarding
use backbone_lifecycle.Onboarding.Ledger as OnboardingLedger
use backbone_lifecycle.Onboarding.Ledger.{IsConsistent, Reach-IsConsistent}
use backbone_lifecycle.Onboarding.Stamping.{create_complete}
use backbone_lifecycle.Onboarding.Errors.{tasks_open}
use backbone_lifecycle.Checkpoint.{create_clearance_item, is_task}
use backbone_lifecycle.Checkpoint.Journey.{
  resolve_open, resolve_open_complete, create_clearance_item-clear,
}
use backbone_lifecycle.Discipline
use backbone_lifecycle.Store.{acknowledged_pending}
use backbone_lifecycle.Discipline.Outcomes.{ContestOutcome, contest-ContestOutcome}
use backbone_lifecycle.Routes.{serve, Request}
use backbone_lifecycle.Routes.Answers.{Answered}
use backbone_lifecycle.Routes.Faults.{serve-Answered}
use backbone_lifecycle.Examples.Gregorian.{Gregorian}
use backbone_lifecycle.Examples.Fixed.{Fixed}
use backbone_lifecycle.Examples.Data.{left, offboarding, tables, empty_tables, world}
use backbone_lifecycle.Examples.Staff.{
  State, proposal, files, verdict, Granted, verdict-Granted, noon, hiring_tables, hire, date_sum,
  ids, sink, laptop, letter, takes, environment,
}

abbrev asked : State
asked = (Promotion.create Gregorian Fixed none files 30 proposal (world empty_tables)).1

create-RequestOutcome_example :
    RequestOutcome Gregorian Fixed none files 30 proposal
      (world empty_tables)
      (Promotion.create Gregorian Fixed none files 30 proposal (world empty_tables))
create-RequestOutcome_example =
    create-RequestOutcome Gregorian Fixed none files 30 proposal (world empty_tables) refl

approve-ApproveOutcome_example :
    ApproveOutcome Gregorian Fixed verdict 30
      (some 4)
      asked
      (Promotion.approve Gregorian Fixed verdict 30 (some 4) asked)
approve-ApproveOutcome_example = approve-ApproveOutcome Gregorian Fixed verdict 30 (some 4) asked

abbrev approved : State
approved = (Promotion.approve Gregorian Fixed verdict 30 (some 4) asked).1

effected-Reach :
    PromotionLedger.Reach Gregorian Fixed Granted
      (Promotion.effect Gregorian Fixed (some 1) 41 left 30 approved).1.db
effected-Reach = PromotionLedger.Reach.effected_by approved (some 1) 41 left 30 (
    PromotionLedger.Reach.approved_by asked verdict 30 (some 4)
      (PromotionLedger.Reach.created (world empty_tables) none files 30 proposal
        (PromotionLedger.Reach.start empty_tables refl refl) refl)
      verdict-Granted)

Reach-IsSound_example :
    IsSound Gregorian Fixed Granted
      (Promotion.effect Gregorian Fixed (some 1) 41 left 30 approved).1.db
Reach-IsSound_example =
    Reach-IsSound Gregorian Fixed Granted
      (Promotion.effect Gregorian Fixed (some 1) 41 left 30 approved).1.db effected-Reach

abbrev hired : State
hired = (Onboarding.create Gregorian Fixed date_sum 8 ids hire (world hiring_tables)).1

-- A hire for whom there is no template.
abbrev unlisted : State
unlisted = (Onboarding.create Gregorian Fixed date_sum 8 ids hire (world empty_tables)).1

abbrev completed : State
completed = (Onboarding.complete Gregorian Fixed (some 1) 41 noon 8 unlisted).1

confirmed-Reach :
    OnboardingLedger.Reach Gregorian Fixed
      (Onboarding.confirm Gregorian Fixed (some 1) 42 noon 8 true completed).1.db
confirmed-Reach = OnboardingLedger.Reach.confirmed_by completed (some 1) 42 noon 8 true (
    OnboardingLedger.Reach.completed_by unlisted (some 1) 41 noon 8 (
      OnboardingLedger.Reach.created (world empty_tables) date_sum 8 ids hire
        (OnboardingLedger.Reach.start empty_tables refl refl) refl))

Reach-IsConsistent_example :
    IsConsistent Gregorian Fixed
      (Onboarding.confirm Gregorian Fixed (some 1) 42 noon 8 true completed).1.db
Reach-IsConsistent_example =
    Reach-IsConsistent Gregorian Fixed
      (Onboarding.confirm Gregorian Fixed (some 1) 42 noon 8 true completed).1.db confirmed-Reach

hired-found :
    find? (Onboarding.is_onboarding Gregorian Fixed 8) hired.db.onboardings
    ≡ some (Onboarding.started_row Gregorian Fixed 8 hire (some 11))
unfolding Onboarding.create Onboarding.stamp Onboarding.chosen_template
hired-found = refl

hired_lem : (Onboarding.create Gregorian Fixed date_sum 8 ids hire (world hiring_tables)).0 ≡ ok 8
unfolding Onboarding.create Onboarding.stamp Onboarding.chosen_template
hired_lem = refl

create_complete_example :
    (Onboarding.complete Gregorian Fixed (some 1) 41 noon 8 hired).0 ≡ err (tasks_open 8 1)
unfolding Onboarding.chosen_template
create_complete_example =
    create_complete Gregorian Fixed date_sum 8 ids hire (world hiring_tables) 1 41 noon refl refl
      hired_lem

hired-keyed : (k : ℕ) → count_rows (is_task Gregorian Fixed k) hired.db.onboarding_tasks ≤ 1
unfolding Onboarding.create Onboarding.stamp Onboarding.chosen_template
hired-keyed k = elim (Bool-cases (60 == k)) [
  | inl e ↦ rw e (omega arith)
  | inr e ↦ rw e (omega arith)
]

resolve_open_complete_example :
    (Onboarding.complete Gregorian Fixed (some 1) 41 noon 8 (
      resolve_open Gregorian Fixed noon
        (some 4)
        8
        (count_rows (Onboarding.is_open_task_for Gregorian Fixed 8) hired.db.onboarding_tasks)
        hired)).0
    ≡ ok (some 41)
resolve_open_complete_example =
    resolve_open_complete Gregorian Fixed 1 41 noon (some 4) 8 hired
      (Onboarding.started_row Gregorian Fixed 8 hire (some 11)) hired-found refl hired-keyed

create_clearance_item-clear_example :
    (clear Gregorian Fixed 7
      (create_clearance_item Gregorian Fixed sink 2 laptop
        (world (tables offboarding_in_progress))).1).0
    ≡ err (clearance_open 7 1)
create_clearance_item-clear_example =
    create_clearance_item-clear Gregorian Fixed sink 2 laptop
      (world (tables offboarding_in_progress)) (offboarding offboarding_in_progress) refl refl refl

abbrev warned : State
warned = (Discipline.issue Gregorian Fixed noon 50 letter (world empty_tables)).1

warned-once : count_rows (Discipline.is_record Gregorian Fixed 50) warned.db.discipline_records ≤ 1
unfolding Discipline.issue
warned-once = omega arith

contest-ContestOutcome_example :
    ContestOutcome Gregorian Fixed takes 50 3 "I was ill" warned
      (Discipline.contest Gregorian Fixed takes 50 3 "I was ill" warned)
contest-ContestOutcome_example =
    contest-ContestOutcome Gregorian Fixed takes 50 3 "I was ill" warned warned-once

abbrev contested : State
contested = (Discipline.contest Gregorian Fixed takes 50 3 "I was ill" warned).1

-- One refusal commits and the letter is acknowledged while another waits to write.
abbrev refused : State
refused = (Discipline.contest_refused Gregorian Fixed 50 contested).1

abbrev answered : State
answered = (Discipline.acknowledge Gregorian Fixed noon 50 3 refused).1

abbrev overtaken : State
overtaken = (Discipline.write_move Gregorian Fixed 50 acknowledged_pending none answered).1

serve-Answered_example : Answered Gregorian Fixed (world (tables offboarding_in_progress)) (
    serve Gregorian Fixed environment
      (Request.post_offboardings_clear 7)
      (world (tables offboarding_in_progress)))
serve-Answered_example =
    serve-Answered Gregorian Fixed environment (Request.post_offboardings_clear 7)
      (world (tables offboarding_in_progress)) refl
