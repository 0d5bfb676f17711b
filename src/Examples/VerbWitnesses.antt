-- ===== src/Examples/VerbWitnesses.antt =====
-- The theorems on the verbs at concrete inputs.
use backbone_lifecycle.Prelude.{
  [], ◌∷◌, ℕ, suc, ◌+◌, ◌<◌, ◌≤◌, ◌≡◌, ◌↔◌, ◌⊎◌, refl, arith, [], none, some, ok,
}
use backbone_lifecycle.Prelude.Verbs.{World}
use backbone_lifecycle.Store.{in_progress, cleared, Tables}
use backbone_lifecycle.Store.Effects.{Effect}
use backbone_lifecycle.Offboarding.{NewOffboarding, create, clear, close}
use backbone_lifecycle.Offboarding.Outcomes.{ClearOutcome, clear-ClearOutcome}
use backbone_lifecycle.Offboarding.Opened.{CreateOutcome, create-CreateOutcome}
use backbone_lifecycle.Offboarding.Ledger.{
  Reach, start, created, cleared_by, closed_by, IsValid, Reach-IsValid,
}
use backbone_lifecycle.FinalSettlement.{draft_from_offboarding, confirm, mark_paid}
use backbone_lifecycle.FinalSettlement.Outcomes.{
  DraftOutcome, draft-DraftOutcome, PaidOutcome, mark_paid-PaidOutcome,
}
use backbone_lifecycle.FinalSettlement.Confirming.{ConfirmOutcome, confirm-ConfirmOutcome}
use backbone_lifecycle.FinalSettlement.Ledger.{SettlementReach, IsSound, SettlementReach-IsSound}
use backbone_lifecycle.FinalSettlement.Once.{Later, confirm-again}
use backbone_lifecycle.Contract.{renewal_start, months_between}
use backbone_lifecycle.Store.{Contract, active}
use backbone_lifecycle.Contract.{ContractApprovalsPort, check_outcome, file_decision}
use backbone_lifecycle.Contract.Filing.{
  IsSuitable, check_outcome_iff, FileOutcome, file_decision-FileOutcome,
}
use backbone_lifecycle.Contract.Decisions.{apply_decision}
use backbone_lifecycle.Contract.Applying.{ApplyOutcome, apply_decision-ApplyOutcome}
use backbone_lifecycle.Store.Effects.{renew}
use backbone_lifecycle.Contract.Renewal.{
  month_number, renewal_start-no_overlap, months_between-largest,
}
use backbone_lifecycle.Examples.Dates.{Date, days_of}
use backbone_lifecycle.Examples.Gregorian.{Gregorian}
use backbone_lifecycle.Examples.Fixed.{Fixed}
use backbone_lifecycle.Examples.Data.{
  never_came, contract, joined, left, sources, tables, empty_tables, world,
}
use backbone_lifecycle.Examples.Runs.{
  balances, balances_balanced, ack, ledger, accounts, confirm_run,
}

clear-ClearOutcome_example :
    ClearOutcome Gregorian Fixed 7
      (world (tables in_progress))
      (clear Gregorian Fixed 7 (world (tables in_progress)))
clear-ClearOutcome_example = clear-ClearOutcome Gregorian Fixed 7 (world (tables in_progress))

abbrev request : NewOffboarding Gregorian Fixed
request = record {
  employee_id = 3;
  reason = some "retirement";
  notice_date = left;
  last_working_day = left;
}

create-CreateOutcome_example :
    CreateOutcome Gregorian Fixed 7 request
      (world empty_tables)
      (create Gregorian Fixed 7 request (world empty_tables))
create-CreateOutcome_example = create-CreateOutcome Gregorian Fixed 7 request (world empty_tables)

abbrev State : Type 0
State = World (Tables Gregorian Fixed) (Effect Date ℕ)

abbrev opened_world : State
opened_world = (create Gregorian Fixed 7 request (world empty_tables)).1

abbrev cleared_world : State
cleared_world = (clear Gregorian Fixed 7 opened_world).1

closed-Reach :
    Reach Gregorian Fixed (close Gregorian Fixed sources (some 1) 40 7 cleared_world).1.db
closed-Reach = closed_by cleared_world sources (some 1) 40 7 (
    cleared_by opened_world 7
      (created (world empty_tables) 7 request (start empty_tables refl refl) refl))

Reach-IsValid_example :
    IsValid Gregorian Fixed (close Gregorian Fixed sources (some 1) 40 7 cleared_world).1.db
Reach-IsValid_example =
    Reach-IsValid Gregorian Fixed (close Gregorian Fixed sources (some 1) 40 7 cleared_world).1.db
      closed-Reach

draft-DraftOutcome_example :
    DraftOutcome Gregorian Fixed sources
      (some 1)
      21
      7
      opened_world
      (draft_from_offboarding Gregorian Fixed sources (some 1) 21 7 opened_world)
draft-DraftOutcome_example = draft-DraftOutcome Gregorian Fixed sources (some 1) 21 7 opened_world

mark_paid-PaidOutcome_example :
    PaidOutcome Gregorian Fixed 21
      (world (tables cleared))
      (mark_paid Gregorian Fixed 21 (world (tables cleared)))
mark_paid-PaidOutcome_example = mark_paid-PaidOutcome Gregorian Fixed 21 (world (tables cleared))

confirm-ConfirmOutcome_example :
    ConfirmOutcome Gregorian Fixed ledger
      (some 1)
      21
      accounts
      (world (tables cleared))
      (confirm Gregorian Fixed balances ledger (some 1) 21 accounts (world (tables cleared)))
confirm-ConfirmOutcome_example =
    confirm-ConfirmOutcome Gregorian Fixed balances balances_balanced ledger (some 1) 21 accounts
      (world (tables cleared))

abbrev confirmed_world : State
confirmed_world =
    (confirm Gregorian Fixed balances ledger (some 1) 21 accounts (world (tables cleared))).1

abbrev unsettled : Tables Gregorian Fixed
unsettled = record (tables cleared) { final_settlements = [] }

abbrev drafted_world : State
drafted_world = (draft_from_offboarding Gregorian Fixed sources (some 1) 21 7 (world unsettled)).1

posted-SettlementReach :
    SettlementReach Gregorian Fixed balances
      (confirm Gregorian Fixed balances ledger (some 1) 21 accounts drafted_world).1.db
posted-SettlementReach = SettlementReach.confirmed_by drafted_world ledger (some 1) 21 accounts (
    SettlementReach.drafted (world unsettled) sources (some 1) 21 7
      (SettlementReach.start unsettled refl) refl)

SettlementReach-IsSound_example :
    IsSound Gregorian Fixed
      (confirm Gregorian Fixed balances ledger (some 1) 21 accounts drafted_world).1.db
SettlementReach-IsSound_example =
    SettlementReach-IsSound Gregorian Fixed balances balances_balanced
      (confirm Gregorian Fixed balances ledger (some 1) 21 accounts drafted_world).1.db
      posted-SettlementReach

confirm-again_example :
    confirm Gregorian Fixed balances ledger
      (some 1)
      21
      accounts
      (mark_paid Gregorian Fixed 21 confirmed_world).1
    ≡ (ok none, (mark_paid Gregorian Fixed 21 confirmed_world).1)
confirm-again_example =
    confirm-again Gregorian Fixed balances balances_balanced ledger ledger (some 1) 1 21 accounts
      accounts (world (tables cleared)) (mark_paid Gregorian Fixed 21 confirmed_world).1 ack
      confirm_run (Later.paid_by confirmed_world 21 Later.now)

renewal_start-no_overlap_example :
    (days_of joined ≤ days_of left
      → days_of (renewal_start Gregorian (some left) joined) ≡ suc (days_of left))
    × (days_of left < days_of joined → renewal_start Gregorian (some left) joined ≡ joined)
    × (renewal_start Gregorian none joined ≡ joined)
renewal_start-no_overlap_example = renewal_start-no_overlap Gregorian left joined (omega arith)

months_between-largest_example : (111 ≤ months_between Gregorian joined left) ↔ (
    (month_number Gregorian joined + 111 < month_number Gregorian left)
    ⊎ ((month_number Gregorian joined + 111 ≡ month_number Gregorian left) × (2 ≤ 14)))
months_between-largest_example = months_between-largest Gregorian joined left (omega arith) 111

abbrev renewing : State
renewing = world (record (tables cleared) { contracts = contract ∷ [] })

apply_decision-ApplyOutcome_example :
    ApplyOutcome Gregorian Fixed 6 joined 5 renewing renew
      (some never_came)
      (apply_decision Gregorian Fixed 6 joined 5 renew (some never_came) renewing)
apply_decision-ApplyOutcome_example =
    apply_decision-ApplyOutcome Gregorian Fixed 6 joined 5 renew (some never_came) renewing

abbrev running_contract : Contract Gregorian Fixed
running_contract = record contract { status = active }

abbrev running : State
running = world (record (tables cleared) { contracts = running_contract ∷ [] })

abbrev approvals : ContractApprovalsPort Gregorian Fixed
approvals sent filing = ok 77

check_outcome_iff_example :
    (check_outcome Gregorian Fixed renew (some never_came) joined running_contract ≡ ok tt)
    ↔ IsSuitable Gregorian Fixed joined running_contract renew (some never_came)
check_outcome_iff_example =
    check_outcome_iff Gregorian Fixed joined running_contract renew (some never_came)

file_decision-FileOutcome_example :
    FileOutcome Gregorian Fixed approvals joined 5 renew
      (some never_came)
      running
      (file_decision Gregorian Fixed approvals joined 5 renew (some never_came) running)
file_decision-FileOutcome_example =
    file_decision-FileOutcome Gregorian Fixed approvals joined 5 renew (some never_came) running
