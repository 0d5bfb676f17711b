-- ===== src/Settlement/Statutory.antt =====
-- src/infrastructure/persistence/severance_params_repository.rs: the statutory set in force on a
-- day. A row of each of the three tables is a dated row: its country, its date and its values. The
-- column checks keep `min_service_years` from being negative.
pub mod Rows
pub mod InForce
use backbone_lifecycle.Prelude.{
  ℕ, List, [], ◌∷◌, String, Bool, ◌&&◌, Option, none, some, Result, ok, err, and_then, ok_or, leb,
  ◌==◌, str_eq, if◌then◌else◌, select_rows,
}
use backbone_lifecycle.Crates.Decimals.{Decimals}
use backbone_lifecycle.Crates.Calendar.{Calendar, le_date, max_date}
use backbone_lifecycle.Pesangon.Basis.{PesangonError, no_statutory_params}
use backbone_lifecycle.Pesangon.Params.{TenureBand, ReasonParams, SeveranceParams, check}

pub record Dated (Date A : Type 0) : Type 0 where
  pub country_code : String
  pub effective_from : Date
  pub values : A

pub record StatutoryTables (Date Decimal : Type 0) : Type 0 where
  pub severance_pesangon_scale : List (Dated Date (TenureBand Decimal))
  pub severance_upmk_scale : List (Dated Date (TenureBand Decimal))
  pub severance_reason_params : List (Dated Date (String × ReasonParams Decimal))

-- ORDER BY min_service_years
module _ {Decimal : Type 0} where
  unfoldable pub insert_band :
      TenureBand Decimal → List (TenureBand Decimal) → List (TenureBand Decimal)
  insert_band b [] = b ∷ []
  insert_band b (c ∷ bands) =
      if leb b.min_service_years c.min_service_years then b ∷ c ∷ bands else c ∷ insert_band b bands

  unfoldable pub order_bands : List (TenureBand Decimal) → List (TenureBand Decimal)
  unfolding insert_band
  order_bands [] = []
  order_bands (b ∷ bands) = insert_band b (order_bands bands)

-- `collect` into a `HashMap`: of two rows with a key the later one stays, so it comes first.
unfoldable pub collect : {A : Type 0} → List A → List A → List A
collect acc [] = acc
collect acc (x ∷ xs) = collect (x ∷ acc) xs

module _ (C : Calendar) where
  open C use {NaiveDate}

  abbrev pub later : NaiveDate → Option NaiveDate → NaiveDate
  later d none = d
  later d (some e) = max_date C d e

module _ (C : Calendar) (country : String) where
  open C use {NaiveDate, days}

  module _ {A : Type 0} where
    -- WHERE country_code = $1 AND effective_from <= $2
    abbrev pub is_in_force : NaiveDate → Dated NaiveDate A → Bool
    is_in_force as_of r = str_eq r.country_code country && le_date C r.effective_from as_of

    -- WHERE country_code = $1 AND effective_from = $2
    abbrev pub is_of_set : NaiveDate → Dated NaiveDate A → Bool
    is_of_set date r = str_eq r.country_code country && (days r.effective_from == days date)

    -- MAX(effective_from)
    unfoldable pub max_effective : List (Dated NaiveDate A) → Option NaiveDate
    max_effective [] = none
    max_effective (r ∷ rows) = some (later C r.effective_from (max_effective rows))

    unfoldable pub effective_at :
        String → List (Dated NaiveDate A) → NaiveDate → Result (PesangonError NaiveDate) NaiveDate
    unfolding max_effective
    effective_at table rows as_of =
        ok_or (max_effective (select_rows (is_in_force as_of) rows))
          (no_statutory_params country as_of table)

    unfoldable pub values_of : List (Dated NaiveDate A) → List A
    values_of [] = []
    values_of (r ∷ rows) = r.values ∷ values_of rows

    -- The rows of one set.
    unfoldable pub set_of : List (Dated NaiveDate A) → NaiveDate → List A
    unfolding values_of
    set_of rows date = values_of (select_rows (is_of_set date) rows)

  module _ {Decimal : Type 0} where
    unfoldable pub scale_as_of :
        String
        → List (Dated NaiveDate (TenureBand Decimal))
        → NaiveDate
        → Result (PesangonError NaiveDate) (List (TenureBand Decimal) × NaiveDate)
    scale_as_of table rows as_of =
        and_then (effective_at table rows as_of)
          λ effective. ok (order_bands (set_of rows effective), effective)

    unfoldable pub severance_params_as_of :
        StatutoryTables NaiveDate Decimal
        → NaiveDate
        → Result (PesangonError NaiveDate) (SeveranceParams NaiveDate Decimal)
    severance_params_as_of t as_of =
        and_then (scale_as_of "lifecycle.severance_pesangon_scale" t.severance_pesangon_scale as_of)
          λ pesangon.
            and_then (scale_as_of "lifecycle.severance_upmk_scale" t.severance_upmk_scale as_of)
              λ upmk.
                and_then
                  (effective_at "lifecycle.severance_reason_params" t.severance_reason_params as_of)
                  λ reasons_effective_from. check as_of (record {
                    pesangon_scale = pesangon.0;
                    pesangon_effective_from = pesangon.1;
                    upmk_scale = upmk.0;
                    upmk_effective_from = upmk.1;
                    reasons = collect [] (set_of t.severance_reason_params reasons_effective_from);
                    reasons_effective_from = reasons_effective_from;
                  })
