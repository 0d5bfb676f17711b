-- ===== src/Pesangon/Params.antt =====
-- src/application/service/pesangon.rs: the statutory set in force on a day, its check and its
-- scales. A `HashMap` is a list of pairs whose first pair with a key counts.
pub mod Scale
pub mod Checked
use Prim.Native.String.{◌++◌}
use backbone_lifecycle.Prelude.{
  ℕ, zero, List, [], ◌∷◌, String, Bool, true, false, ◌||◌, not, Option, none, some, Result, ok, err,
  and_then, leb, ltb, ◌==◌, str_eq, if◌then◌else◌, is_some, take_while, get_last?,
}
use backbone_lifecycle.Crates.Decimals.{Decimals}
use backbone_lifecycle.Crates.Calendar.{Calendar, max_date}
use backbone_lifecycle.Pesangon.Basis.{
  PesangonError, incomplete_statutory_params, severance_country, statutory_cases,
}

pub record TenureBand (Decimal : Type 0) : Type 0 where
  pub min_service_years : ℕ
  pub months : Decimal

pub record ReasonParams (Decimal : Type 0) : Type 0 where
  pub pesangon_multiplier : Decimal
  pub upmk_multiplier : Decimal
  pub uang_pisah_eligible : Bool
  pub article : String

pub record SeveranceParams (Date Decimal : Type 0) : Type 0 where
  pub pesangon_scale : List (TenureBand Decimal)
  pub pesangon_effective_from : Date
  pub upmk_scale : List (TenureBand Decimal)
  pub upmk_effective_from : Date
  pub reasons : List (String × ReasonParams Decimal)
  pub reasons_effective_from : Date

-- `HashMap::get`
abbrev pub get : {V : Type 0} → String → List (String × V) → Option V
get k [] = none
get k ((j, v) ∷ m) = if str_eq k j then some v else get k m

module _ {Decimal : Type 0} where
  -- `scale.first().map(|b| b.min_service_years) == Some(0)`
  abbrev pub opens_at_zero : List (TenureBand Decimal) → Bool
  opens_at_zero [] = false
  opens_at_zero (b ∷ _) = b.min_service_years == 0

  -- `scale.windows(2).any(…)`: some band does not lie below the next.
  abbrev pub unordered : List (TenureBand Decimal) → Bool
  unordered [] = false
  unordered (b ∷ []) = false
  unordered (b ∷ c ∷ bands) = leb c.min_service_years b.min_service_years || unordered (c ∷ bands)

unfoldable pub incomplete : {Date A : Type 0} → Date → String → Result (PesangonError Date) A
incomplete as_of detail = err (incomplete_statutory_params severance_country as_of detail)

module _ {Date Decimal : Type 0} (as_of : Date) where
  -- One round of the loop over the two scales.
  unfoldable pub check_scale :
      String → List (TenureBand Decimal) → Result (PesangonError Date) (Unit {0})
  unfolding incomplete
  check_scale name scale =
      if not (opens_at_zero scale)
      then incomplete as_of ("the " ++ name ++ " does not open at zero years of service")
      else if unordered scale
      then incomplete as_of ("the " ++ name ++ " bands are not strictly ascending")
      else ok tt

  -- The loop over the cases.
  unfoldable pub check_cases :
      List String → List (String × ReasonParams Decimal) → Result (PesangonError Date) (Unit {0})
  unfolding incomplete
  check_cases [] reasons = ok tt
  check_cases (c ∷ cases) reasons =
      let rest = check_cases cases reasons in
      if not (is_some (get c reasons))
      then incomplete as_of ("no parameters for the case '" ++ c ++ "'")
      else rest

  unfoldable pub check :
      SeveranceParams Date Decimal → Result (PesangonError Date) (SeveranceParams Date Decimal)
  check p = and_then (check_scale "pesangon scale" p.pesangon_scale) λ _.
      and_then (check_scale "UPMK scale" p.upmk_scale)
        λ _. and_then (check_cases statutory_cases p.reasons) λ _. ok p

module _ (D : Decimals) where
  open D use {Decimal, zero_d}

  -- `.map(|b| b.months).unwrap_or(Decimal::ZERO)`
  abbrev pub months_or_zero : Option (TenureBand Decimal) → Decimal
  months_or_zero (some b) = b.months
  months_or_zero none = zero_d

  unfoldable pub scale_months : List (TenureBand Decimal) → ℕ → Decimal
  scale_months scale service_years =
      months_or_zero (get_last? (take_while (λ b. leb b.min_service_years service_years) scale))

  module _ {Date : Type 0} where
    unfoldable pub pesangon_months : SeveranceParams Date Decimal → ℕ → Decimal
    unfolding scale_months
    pesangon_months p service_years = scale_months p.pesangon_scale service_years

    unfoldable pub upmk_months : SeveranceParams Date Decimal → ℕ → Decimal
    unfolding scale_months
    upmk_months p service_years = scale_months p.upmk_scale service_years

module _ (C : Calendar) where
  open C use {NaiveDate}

  unfoldable pub effective_from : {Decimal : Type 0} → SeveranceParams NaiveDate Decimal → NaiveDate
  effective_from p =
      max_date C (max_date C p.pesangon_effective_from p.upmk_effective_from)
        p.reasons_effective_from
