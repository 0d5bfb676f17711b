-- ===== src/Pesangon/Params/Checked.antt =====
-- What `SeveranceParams::check` accepts.
use backbone_lifecycle.Prelude.{
  ℕ, ◌<◌, List, [], ◌∷◌, String, true, false, ◌≡◌, ◌↔◌, refl, ap, ◌∙◌, ok, arith, is_some, All,
  Bool-cases, inl, inr,
}
use backbone_lifecycle.Crates.Decimals.{Decimals}
use backbone_lifecycle.Pesangon.Basis.{statutory_cases}
use backbone_lifecycle.Pesangon.Params.{
  TenureBand, ReasonParams, SeveranceParams, get, opens_at_zero, unordered, incomplete, check_scale,
  check_cases, check, pesangon_months, upmk_months,
}
use backbone_lifecycle.Pesangon.Params.Scale.{IsBand, scale_months-IsBand}

module _ {Decimal : Type 0} where
  -- The first band opens at zero completed years.
  abbrev pub OpensAtZero : List (TenureBand Decimal) → Type 0
  OpensAtZero [] = ⊥
  OpensAtZero (b ∷ _) = b.min_service_years ≡ 0

  -- Each band opens at fewer years than the next.
  abbrev pub IsAscending : List (TenureBand Decimal) → Type 0
  IsAscending [] = Unit
  IsAscending (b ∷ []) = Unit
  IsAscending (b ∷ c ∷ bands) =
      (b.min_service_years < c.min_service_years) × IsAscending (c ∷ bands)

  opens_at_zero_iff :
      (scale : List (TenureBand Decimal)) → (opens_at_zero scale ≡ true) ↔ OpensAtZero scale
  opens_at_zero_iff [] = (λ h. cc, λ h. absurd h)
  opens_at_zero_iff (b ∷ _) = (λ h. ground arith, λ h. ground arith)

  unordered_iff :
      (scale : List (TenureBand Decimal)) → (unordered scale ≡ false) ↔ IsAscending scale
  unordered_iff [] = (λ h. tt, λ h. refl)
  unordered_iff (b ∷ []) = (λ h. tt, λ h. refl)
  unordered_iff (b ∷ c ∷ bands) =
      let rest = unordered_iff (c ∷ bands) in
      (
        λ h. (ground arith, rest.0 (ground arith)),
        λ h. let tail = rest.1 h.1 in ground (arith, h.0),
      )

module _ {Date Decimal : Type 0} where
  -- A set that can be computed from.
  pub record IsComplete (p : SeveranceParams Date Decimal) : Type 0 where
    pub pesangon_opens : OpensAtZero p.pesangon_scale
    pub pesangon_ascends : IsAscending p.pesangon_scale
    pub upmk_opens : OpensAtZero p.upmk_scale
    pub upmk_ascends : IsAscending p.upmk_scale
    pub cases : All (λ c. is_some (get c p.reasons) ≡ true) statutory_cases

  check_cases_sound :
      (as_of : Date) (cases : List String) (reasons : List (String × ReasonParams Decimal))
      → check_cases as_of cases reasons ≡ ok tt
      → All (λ c. is_some (get c reasons) ≡ true) cases
  unfolding check_cases
  check_cases_sound as_of [] reasons h = tt
  check_cases_sound as_of (c ∷ cases) reasons h = elim (Bool-cases (is_some (get c reasons))) [
    | inl e ↦ (e, check_cases_sound as_of cases reasons (ground arith))
    | inr e ↦ absurd (ground arith)
  ]

  check_cases_complete :
      (as_of : Date) (cases : List String) (reasons : List (String × ReasonParams Decimal))
      → All (λ c. is_some (get c reasons) ≡ true) cases
      → check_cases as_of cases reasons ≡ ok tt
  unfolding check_cases
  check_cases_complete as_of [] reasons h = refl
  check_cases_complete as_of (c ∷ cases) reasons h =
      rw h.0 (check_cases_complete as_of cases reasons h.1)

  check_scale_iff :
      (as_of : Date) (name : String) (scale : List (TenureBand Decimal))
      → (check_scale as_of name scale ≡ ok tt) ↔ (OpensAtZero scale × IsAscending scale)
  unfolding check_scale incomplete
  check_scale_iff as_of name scale = (
    λ h. ((opens_at_zero_iff scale).0 (ground arith), (unordered_iff scale).0 (ground arith)),
    λ h.
        let opens = (opens_at_zero_iff scale).1 h.0 in
        let ascends = (unordered_iff scale).1 h.1 in ground arith,
  )

  check_of_IsComplete :
      (as_of : Date) (p : SeveranceParams Date Decimal) → IsComplete p → check as_of p ≡ ok p
  unfolding check
  check_of_IsComplete as_of p h = rw (
    (check_scale_iff as_of "pesangon scale" p.pesangon_scale).1
        (h.pesangon_opens, h.pesangon_ascends),
    (check_scale_iff as_of "UPMK scale" p.upmk_scale).1 (h.upmk_opens, h.upmk_ascends),
    check_cases_complete as_of statutory_cases p.reasons h.cases,
  )

  check_steps :
      (as_of : Date) (p : SeveranceParams Date Decimal) {q : SeveranceParams Date Decimal}
      → check as_of p ≡ ok q
      → (p ≡ q)
        × (check_scale as_of "pesangon scale" p.pesangon_scale ≡ ok tt)
        × (check_scale as_of "UPMK scale" p.upmk_scale ≡ ok tt)
        × (check_cases as_of statutory_cases p.reasons ≡ ok tt)
  unfolding check
  check_steps as_of p h = ground arith

  -- `check` returns the set that it was given, and accepts exactly those sets of which both scales
  -- open at zero years and ascend strictly, and which have parameters for every statutory case.
  pub check_iff :
      (as_of : Date) (p q : SeveranceParams Date Decimal)
      → (check as_of p ≡ ok q) ↔ ((p ≡ q) × IsComplete p)
  check_iff as_of p q = (accepted, accepts)
    where
      accepted : check as_of p ≡ ok q → (p ≡ q) × IsComplete p
      accepted h =
          let (same, scale, upmk, cases) = check_steps as_of p h in
          let pesangon_ok = (check_scale_iff as_of "pesangon scale" p.pesangon_scale).0 scale in
          let upmk_ok = (check_scale_iff as_of "UPMK scale" p.upmk_scale).0 upmk in
          (
            same,
            record {
              pesangon_opens = pesangon_ok.0;
              pesangon_ascends = pesangon_ok.1;
              upmk_opens = upmk_ok.0;
              upmk_ascends = upmk_ok.1;
              cases = check_cases_sound as_of statutory_cases p.reasons cases;
            },
          )

      accepts : (p ≡ q) × IsComplete p → check as_of p ≡ ok q
      accepts (same, whole) = check_of_IsComplete as_of p whole ∙ ap ok same

module _ (D : Decimals) {Date : Type 0} where
  open D use {Decimal}

  -- An accepted set has, for every number of completed years, a band in each scale, and the months
  -- that it gives are those of that band: the highest one that the years reach.
  pub check-months :
      (as_of : Date) (p : SeveranceParams Date Decimal) (years : ℕ)
      {q : SeveranceParams Date Decimal}
      → check as_of p ≡ ok q
      → ((b : TenureBand Decimal) × IsBand years q.pesangon_scale b
          × (pesangon_months D q years ≡ b.months))
        × ((b : TenureBand Decimal) × IsBand years q.upmk_scale b
            × (upmk_months D q years ≡ b.months))
  unfolding pesangon_months upmk_months
  check-months as_of p years {q} h =
      let (same, whole) = (check_iff as_of p q).0 h in
      let whole_q : IsComplete q = rw same at whole in
      (
        scale_months-IsBand D years q.pesangon_scale
            ((opens_at_zero_iff q.pesangon_scale).1 whole_q.pesangon_opens)
            ((unordered_iff q.pesangon_scale).1 whole_q.pesangon_ascends),
        scale_months-IsBand D years q.upmk_scale
            ((opens_at_zero_iff q.upmk_scale).1 whole_q.upmk_opens)
            ((unordered_iff q.upmk_scale).1 whole_q.upmk_ascends),
      )
