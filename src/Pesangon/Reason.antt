-- ===== src/Pesangon/Reason.antt =====
-- src/domain/entity/offboarding_reason.rs: why an employment ends, with its text form. The variants
-- carry the snake-case words of the database enum and of `Display`.
pub mod RoundTrip
use backbone_lifecycle.Prelude.{
  List, [], ◌∷◌, String, Bool, true, ◌&&◌, ◌||◌, ◌≡◌, Option, none, some, Result, ok_or, leb, ◌==◌,
  str_eq, if◌then◌else◌,
}
use Prim.Native.Char.{code}

pub data OffboardingReason : Type 0 where
  resignation merger_consolidation_split takeover takeover_changed_terms efficiency_losses
        efficiency_prevent_losses closure_losses closure_not_losses closure_force_majeure
        force_majeure_no_closure pkpu_losses pkpu_not_losses bankruptcy employer_violation_request
        worker_request_rejected absence_without_notice violation_after_warnings urgent_violation
        detained_company_loss detained_no_company_loss convicted_company_loss
        convicted_no_company_loss prolonged_illness retirement death end_of_contract termination
        merger_acquisition efficiency force_majeure misconduct :
      OffboardingReason

pub OffboardingReason-discrete : Discrete OffboardingReason
OffboardingReason-discrete = hlevel

-- `Display`
unfoldable pub display : OffboardingReason → String
display resignation = "resignation"
display merger_consolidation_split = "merger_consolidation_split"
display takeover = "takeover"
display takeover_changed_terms = "takeover_changed_terms"
display efficiency_losses = "efficiency_losses"
display efficiency_prevent_losses = "efficiency_prevent_losses"
display closure_losses = "closure_losses"
display closure_not_losses = "closure_not_losses"
display closure_force_majeure = "closure_force_majeure"
display force_majeure_no_closure = "force_majeure_no_closure"
display pkpu_losses = "pkpu_losses"
display pkpu_not_losses = "pkpu_not_losses"
display bankruptcy = "bankruptcy"
display employer_violation_request = "employer_violation_request"
display worker_request_rejected = "worker_request_rejected"
display absence_without_notice = "absence_without_notice"
display violation_after_warnings = "violation_after_warnings"
display urgent_violation = "urgent_violation"
display detained_company_loss = "detained_company_loss"
display detained_no_company_loss = "detained_no_company_loss"
display convicted_company_loss = "convicted_company_loss"
display convicted_no_company_loss = "convicted_no_company_loss"
display prolonged_illness = "prolonged_illness"
display retirement = "retirement"
display death = "death"
display end_of_contract = "end_of_contract"
display termination = "termination"
display merger_acquisition = "merger_acquisition"
display efficiency = "efficiency"
display force_majeure = "force_majeure"
display misconduct = "misconduct"

-- The arms of the match in `from_str`, in their order.
abbrev pub reason_arms : List (String × OffboardingReason)
reason_arms =
    ("resignation", resignation)
    ∷ ("merger_consolidation_split", merger_consolidation_split)
    ∷ ("takeover", takeover)
    ∷ ("takeover_changed_terms", takeover_changed_terms)
    ∷ ("efficiency_losses", efficiency_losses)
    ∷ ("efficiency_prevent_losses", efficiency_prevent_losses)
    ∷ ("closure_losses", closure_losses)
    ∷ ("closure_not_losses", closure_not_losses)
    ∷ ("closure_force_majeure", closure_force_majeure)
    ∷ ("force_majeure_no_closure", force_majeure_no_closure)
    ∷ ("pkpu_losses", pkpu_losses)
    ∷ ("pkpu_not_losses", pkpu_not_losses)
    ∷ ("bankruptcy", bankruptcy)
    ∷ ("employer_violation_request", employer_violation_request)
    ∷ ("worker_request_rejected", worker_request_rejected)
    ∷ ("absence_without_notice", absence_without_notice)
    ∷ ("violation_after_warnings", violation_after_warnings)
    ∷ ("urgent_violation", urgent_violation)
    ∷ ("detained_company_loss", detained_company_loss)
    ∷ ("detained_no_company_loss", detained_no_company_loss)
    ∷ ("convicted_company_loss", convicted_company_loss)
    ∷ ("convicted_no_company_loss", convicted_no_company_loss)
    ∷ ("prolonged_illness", prolonged_illness)
    ∷ ("retirement", retirement)
    ∷ ("death", death)
    ∷ ("end_of_contract", end_of_contract)
    ∷ ("termination", termination)
    ∷ ("merger_acquisition", merger_acquisition)
    ∷ ("efficiency", efficiency)
    ∷ ("force_majeure", force_majeure)
    ∷ ("misconduct", misconduct)
    ∷ []

-- A match of a text against literal arms.
abbrev pub match_arm {ℓ} : {A : Type ℓ} → String → List (String × A) → Option A
match_arm s [] = none
match_arm s ((t, a) ∷ arms) = if str_eq s t then some a else match_arm s arms

-- `FromStr`; the error names the text. `str::to_lowercase` of the standard library goes by tables
-- of Unicode: it is a parameter.
unfoldable pub from_str : (String → String) → String → Result String OffboardingReason
from_str to_lowercase s = ok_or (match_arm (to_lowercase s) reason_arms) s

-- A text of small ASCII letters and underscores.
abbrev pub is_lower_ascii : String → Bool
is_lower_ascii String.[] = true
is_lower_ascii (String.◌∷◌ c s) =
    ((leb b'a' (code c) && leb (code c) b'z') || (code c == b'_')) && is_lower_ascii s

-- What the code relies on of `to_lowercase`: it leaves such a text alone.
abbrev pub KeepsLower : (String → String) → Type 0
KeepsLower to_lowercase = (s : String) → is_lower_ascii s ≡ true → to_lowercase s ≡ s
