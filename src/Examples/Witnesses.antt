-- ===== src/Examples/Witnesses.antt =====
-- The theorems at concrete inputs.
use backbone_lifecycle.Prelude.{
  ℕ, suc, ◌+◌, ◌%◌, ◌^◌, ◌≤◌, ◌≡◌, ◌≢◌, ◌↔◌, ◌⊎◌, refl, arith, List, [], ◌∷◌, String, none, some,
  ok, err, All,
}
use backbone_lifecycle.Pesangon.Reason.{
  display, from_str, death, retirement, end_of_contract, termination,
}
use backbone_lifecycle.Pesangon.Reason.RoundTrip.{from_str_iff, from_str-display}
use backbone_lifecycle.Pesangon.Basis.{
  severance_basis, severance_country, fixed_term_end_basis, unspecific_reason, statutory_cases,
}
use backbone_lifecycle.Pesangon.Basis.Cases.{Settles, severance_basis-Settles}
use backbone_lifecycle.Pesangon.Params.{
  TenureBand, check, pesangon_months, upmk_months, effective_from,
}
use backbone_lifecycle.Pesangon.Params.Scale.{IsBand}
use backbone_lifecycle.Pesangon.Params.Checked.{IsComplete, check_iff, check-months}
use backbone_lifecycle.Pesangon.Tenure.{anniversary, tenure_years, completed_years}
use backbone_lifecycle.Pesangon.Tenure.Completed.{completed_years_iff}
use backbone_lifecycle.Pesangon.LastPay.{five_day, LastPay, prorate, last_pay}
use backbone_lifecycle.Pesangon.LastPay.Bounds.{IsWithin, last_pay-IsWithin}
use backbone_lifecycle.Pesangon.LastPay.Counting.{Counts, prorate-Counts}
use backbone_lifecycle.Pesangon.Compute.{compute_settlement}
use backbone_lifecycle.Pesangon.Compute.Total.{IsSettled, compute_settlement_total}
use backbone_lifecycle.Pesangon.Compute.Items.{net_payable-eq-sum}
use backbone_lifecycle.Pesangon.Compute.Nothing.{
  IsNothing, never_started-IsNothing, fixed_term_end-leave_only,
}
use backbone_lifecycle.Pesangon.Compute.Nonneg.{
  IsNonnegSet, IsNonnegCase, IsNonnegItems, compute-IsNonnegItems,
}
use backbone_lifecycle.Settlement.Statutory.InForce.{IsStatute, severance_params_as_of-IsStatute}
use backbone_lifecycle.Examples.Dates.{Date, days_of}
use backbone_lifecycle.Examples.Gregorian.{Gregorian}
use backbone_lifecycle.Examples.Fixed.{Fixed}
use backbone_lifecycle.Prelude.{select_rows}
use backbone_lifecycle.Settlement.Settings.{is_setting, severance_settings}
use backbone_lifecycle.Settlement.Settings.Usable.{ReadOutcome, severance_settings-ReadOutcome}
use backbone_lifecycle.Examples.Data.{
  leave_codes, leaver, statute, settings, joined, left, june_first, never_came, retired, ended_term,
  not_started, statutory_tables, found_statute, each_case,
}
use backbone_lifecycle.Examples.Runs.{
  retirement_run, ended_run, not_started_run, checked_run, statute_run,
}

from_str_iff_example : (from_str (λ s. s) "death" ≡ ok death) ↔ ("death" ≡ display death)
from_str_iff_example = from_str_iff (λ s. s) "death" death

from_str-display_example : from_str (λ s. s) (display death) ≡ ok death
from_str-display_example = from_str-display (λ s. s) death (λ s h. refl)

severance_basis-Settles_example : Settles {Date = Date} retirement (severance_basis retirement)
severance_basis-Settles_example = severance_basis-Settles Date retirement

check_iff_example : (check left statute ≡ ok statute) ↔ ((statute ≡ statute) × IsComplete statute)
check_iff_example = check_iff left statute statute

check-months_example :
    ((b : TenureBand ℕ) × IsBand 9 statute.pesangon_scale b
      × (pesangon_months Fixed statute 9 ≡ b.months))
    × ((b : TenureBand ℕ) × IsBand 9 statute.upmk_scale b
        × (upmk_months Fixed statute 9 ≡ b.months))
check-months_example = check-months Fixed left statute 9 checked_run

completed_years_iff_example :
    (t : ℕ) × (tenure_years Gregorian Fixed joined left ≡ some t)
    × ((k : ℕ) (a : Date)
        → anniversary Gregorian joined k ≡ some a
        → (k ≤ completed_years Fixed t) ↔ (days_of a ≤ suc (days_of left)))
completed_years_iff_example =
    completed_years_iff Gregorian Fixed joined left (omega arith) (omega arith)

prorate-Counts_example :
    (n : ℕ) × Counts Gregorian five_day left june_first n
    × ((prorate Gregorian Fixed left 50000000000 five_day june_first left june_first).working_days
        ≡ n % 2 ^ 32)
prorate-Counts_example =
    prorate-Counts Gregorian Fixed left 50000000000 five_day june_first left june_first

last_pay-IsWithin_example :
    (p : LastPay Date ℕ) × (first : Date) × (last_pay Gregorian Fixed joined left 50000000000
        five_day
      ≡ some p)
    × IsWithin Gregorian Fixed five_day left 50000000000 p first
    × (days_of joined ≤ days_of first)
    × (days_of first ≤ days_of left)
last_pay-IsWithin_example =
    last_pay-IsWithin Gregorian Fixed five_day left joined 50000000000 (omega arith) (omega arith)
      refl

compute_settlement_total_example :
    ((retirement ≡ termination)
      × (compute_settlement Gregorian Fixed (leaver retirement joined) statute settings
          ≡ some (err (unspecific_reason "termination"))))
    ⊎ ((retirement ≢ termination)
        × IsSettled Gregorian Fixed (leaver retirement joined) statute settings)
compute_settlement_total_example =
    compute_settlement_total Gregorian Fixed (leaver retirement joined) statute statute settings
      left checked_run (omega arith)

net_payable-eq-sum_example :
    (retired.severance_total ≡ retired.uang_pesangon + retired.upmk + retired.uang_pisah)
    × (retired.net_payable
        ≡ retired.uang_pesangon + retired.upmk + retired.uang_pisah + retired.unused_leave_payout)
net_payable-eq-sum_example =
    net_payable-eq-sum Gregorian Fixed (leaver retirement joined) statute settings {b = retired}
      retirement_run

never_started-IsNothing_example : IsNothing Fixed not_started
never_started-IsNothing_example =
    never_started-IsNothing Gregorian Fixed (leaver retirement never_came) statute settings
      {b = not_started} (omega arith) not_started_run

fixed_term_end-leave_only_example :
    (ended_term.severance_case ≡ none)
    × (ended_term.legal_basis ≡ fixed_term_end_basis)
    × (ended_term.severance_total ≡ 0)
    × (ended_term.net_payable ≡ ended_term.unused_leave_payout)
fixed_term_end-leave_only_example =
    fixed_term_end-leave_only Gregorian Fixed (leaver end_of_contract joined) statute settings
      {b = ended_term} refl ended_run

cases-nonneg : (cs : List String) → All (IsNonnegCase Fixed) (each_case cs)
cases-nonneg [] = tt
cases-nonneg (c ∷ cs) = ((refl, refl), cases-nonneg cs)

statute-IsNonnegSet : IsNonnegSet Fixed statute
statute-IsNonnegSet = record {
  pesangon = (refl, (refl, (refl, (refl, tt))));
  upmk = (refl, (refl, (refl, tt)));
  cases = cases-nonneg statutory_cases;
}

compute-IsNonnegItems_example : IsNonnegItems Fixed retired
compute-IsNonnegItems_example =
    compute-IsNonnegItems Gregorian Fixed (leaver retirement joined) statute settings {b = retired}
      statute-IsNonnegSet retirement_run

severance_params_as_of-IsStatute_example :
    IsStatute Gregorian severance_country left statutory_tables found_statute
    × (days_of (effective_from Gregorian found_statute) ≤ days_of left)
severance_params_as_of-IsStatute_example =
    severance_params_as_of-IsStatute Gregorian severance_country left statutory_tables
      {p = found_statute} statute_run

severance_settings-ReadOutcome_example :
    ReadOutcome Fixed Date
      (select_rows is_setting (leave_codes ∷ []))
      (severance_settings Fixed Date (some (leave_codes ∷ [])))
severance_settings-ReadOutcome_example =
    severance_settings-ReadOutcome Fixed Date (leave_codes ∷ [])
