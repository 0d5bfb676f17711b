-- ===== src/Pesangon/Basis/Cases.antt =====
-- How the offboarding reasons split over the ways of settling.
use backbone_lifecycle.Prelude.{
  List, [], ◌∷◌, String, Bool, true, false, ◌||◌, ◌≡◌, ◌≢◌, Result, ok, err, arith, str_eq, eq_iff,
  All, Bool-cases, inl, inr,
}
use backbone_lifecycle.Pesangon.Reason.{
  OffboardingReason, termination, end_of_contract, resignation, display,
}
use backbone_lifecycle.Pesangon.Basis.{
  PesangonError, unspecific_reason, SeveranceBasis, case, fixed_term_end, statutory_cases,
  severance_basis,
}

abbrev pub listed : String → List String → Bool
listed c [] = false
listed c (d ∷ cases) = str_eq c d || listed c cases

pub All-listed {κ} :
    (P : String → Type κ) (c : String) (cases : List String)
    → All P cases
    → listed c cases ≡ true
    → P c
All-listed P c [] h e = cc
All-listed P c (d ∷ cases) h e = elim (Bool-cases (str_eq c d)) [
  | inl same ↦ let same_case : c ≡ d = (eq_iff c d).0 same in rw same_case h.0
  | inr other ↦ All-listed P c cases h.1 (ground arith)
]

-- What a way of settling says of the reason.
abbrev pub Settles :
    {Date : Type 0} → OffboardingReason → Result (PesangonError Date) SeveranceBasis → Type 0
Settles r (err e) = (r ≡ termination) × (e ≡ unspecific_reason "termination")
Settles r (ok fixed_term_end) = r ≡ end_of_contract
Settles r (ok (case c)) =
    (listed c statutory_cases ≡ true) × (r ≢ termination) × (r ≢ end_of_contract)

-- Only `termination` is refused, only `end_of_contract` is settled as a fixed-term end, and every
-- other reason is settled under one of the statutory cases.
pub severance_basis-Settles :
    (Date : Type 0) (r : OffboardingReason) → Settles {Date = Date} r (severance_basis r)
unfolding severance_basis display
severance_basis-Settles Date resignation = ground arith
severance_basis-Settles Date _ = ground arith
