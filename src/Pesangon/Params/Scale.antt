-- ===== src/Pesangon/Params/Scale.antt =====
-- The band that a scale gives for a number of completed years (`scale_months`).
use mathlib.Core.List.{Memᴰ}
use backbone_lifecycle.Prelude.{
  ℕ, ◌≤◌, ◌<◌, List, [], ◌∷◌, true, false, ◌≡◌, refl, ap, some, arith, leb, inl, inr, take_while,
  get_last?, All, Bool-cases, leb→le, le→leb, leb-false→lt,
}
use backbone_lifecycle.Crates.Decimals.{Decimals}
use backbone_lifecycle.Pesangon.Params.{
  TenureBand, opens_at_zero, unordered, months_or_zero, scale_months,
}

module _ {Decimal : Type 0} (years : ℕ) where
  -- The band of a scale for a number of years: of those that the years reach, the highest.
  pub record IsBand (scale : List (TenureBand Decimal)) (b : TenureBand Decimal) : Type 0 where
    pub listed : Memᴰ b scale
    pub reached : b.min_service_years ≤ years
    pub highest :
        All (λ c. c.min_service_years ≤ years → c.min_service_years ≤ b.min_service_years) scale

  get_last?-cons :
      (b : TenureBand Decimal) (bands : List (TenureBand Decimal)) {c : TenureBand Decimal}
      → get_last? bands ≡ some c
      → get_last? (b ∷ bands) ≡ some c
  get_last?-cons b [] h = cc
  get_last?-cons b (d ∷ bands) h = h

  reached_bands : List (TenureBand Decimal) → List (TenureBand Decimal)
  reached_bands = take_while (λ b. leb b.min_service_years years)

  ascending_above :
      (b : TenureBand Decimal) (scale : List (TenureBand Decimal)) (n : ℕ)
      → unordered (b ∷ scale) ≡ false
      → years < b.min_service_years
      → All (λ c. c.min_service_years ≤ years → c.min_service_years ≤ n) (b ∷ scale)
  ascending_above b [] n h lt = ((λ le. absurd (omega arith)), tt)
  ascending_above b (c ∷ scale) n h lt =
      ((λ le. absurd (omega arith)), ascending_above c scale n (ground arith) (ground arith))

  find-IsBand :
      (b : TenureBand Decimal) (scale : List (TenureBand Decimal))
      → unordered (b ∷ scale) ≡ false
      → b.min_service_years ≤ years
      → (c : TenureBand Decimal) × (get_last? (reached_bands (b ∷ scale)) ≡ some c)
        × IsBand (b ∷ scale) c
        × (b.min_service_years ≤ c.min_service_years)
  unfolding reached_bands
  find-IsBand b [] h le = (
    b,
    rw (le→leb _ _ le),
    record { listed = Memᴰ.head refl; reached = le; highest = ((λ _. omega arith), tt) },
    omega arith,
  )
  find-IsBand b (c ∷ scale) h le = elim (Bool-cases (leb c.min_service_years years)) [
    | inl next ↦
        let (d, e, band, up) = find-IsBand c scale (ground arith) (leb→le _ _ next) in
        (
          d,
          rw (le→leb _ _ le) (get_last?-cons b (reached_bands (c ∷ scale)) e),
          record {
            listed = Memᴰ.tail band.listed;
            reached = band.reached;
            highest = ((λ _. ground arith), band.highest);
          },
          ground arith,
        )
    | inr above ↦ (
      b,
      rw (le→leb _ _ le, above),
      record {
        listed = Memᴰ.head refl;
        reached = le;
        highest = (
          (λ _. omega arith),
          ascending_above c scale b.min_service_years (ground arith) (leb-false→lt _ _ above),
        );
      },
      omega arith,
    )
  ]

module _ (D : Decimals) (years : ℕ) where
  open D use {Decimal}

  -- A scale that opens at zero years and ascends has a band for every number of years, and
  -- `scale_months` gives its months.
  pub scale_months-IsBand :
      (scale : List (TenureBand Decimal))
      → opens_at_zero scale ≡ true
      → unordered scale ≡ false
      → (b : TenureBand Decimal) × IsBand years scale b × (scale_months D scale years ≡ b.months)
  unfolding scale_months reached_bands
  scale_months-IsBand [] opens ascends = cc
  scale_months-IsBand (b ∷ scale) opens ascends =
      let (c, e, band, _) = find-IsBand years b scale ascends (ground arith) in
      (c, band, ap (months_or_zero D) e)
