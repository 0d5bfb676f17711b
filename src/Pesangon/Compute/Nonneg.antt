-- ===== src/Pesangon/Compute/Nonneg.antt =====
-- No item of a settlement is negative.
use mathlib.Core.Path.{subst}
use backbone_lifecycle.Prelude.{
  ℕ, String, List, [], ◌∷◌, Bool, true, false, ◌≡◌, Option, none, some, Result, ok, err, and_then,
  arith, if◌then◌else◌, All, inl, inr, Bool-cases, Option-cases, get_last?, take_while, str_eq,
}
use backbone_lifecycle.Crates.Decimals.{Decimals, IsNonneg, money, money-IsNonneg, max_d-IsNonneg}
use backbone_lifecycle.Crates.Calendar.{Calendar, le_date}
use backbone_lifecycle.Pesangon.Basis.{
  PesangonError, SeveranceBasis, case, fixed_term_end, severance_basis,
}
use backbone_lifecycle.Pesangon.Params.{
  SeveranceParams, ReasonParams, TenureBand, get, months_or_zero, scale_months, pesangon_months,
  upmk_months,
}
use backbone_lifecycle.Pesangon.LastPay.{LastPay}
use backbone_lifecycle.Pesangon.LastPay.Bounds.{daily_wage-IsNonneg}
use backbone_lifecycle.Pesangon.Compute.{
  SettlementInputs, SettlementBreakdown, SeveranceSettings, case_params, leaver_items, breakdown,
  compute_settlement,
}
use backbone_lifecycle.Pesangon.Compute.Steps.{Steps-of_compute}

module _ (D : Decimals) where
  open D use {Decimal, zero_d, add, mul}

  abbrev pub IsNonnegBand : TenureBand Decimal → Type 0
  IsNonnegBand b = IsNonneg D b.months

  abbrev pub IsNonnegCase : String × ReasonParams Decimal → Type 0
  IsNonnegCase c = IsNonneg D c.1.pesangon_multiplier × IsNonneg D c.1.upmk_multiplier

  -- A statutory set with no negative number in it, as the checks of its tables have it.
  pub record IsNonnegSet {Date : Type 0} (p : SeveranceParams Date Decimal) : Type 0 where
    pub pesangon : All IsNonnegBand p.pesangon_scale
    pub upmk : All IsNonnegBand p.upmk_scale
    pub cases : All IsNonnegCase p.reasons

  All-take_while :
      (p : TenureBand Decimal → Bool) (scale : List (TenureBand Decimal))
      → All IsNonnegBand scale
      → All IsNonnegBand (take_while p scale)
  All-take_while p [] h = tt
  All-take_while p (b ∷ scale) h = elim (Bool-cases (p b)) [
    | inl e ↦ rw e (h.0, All-take_while p scale h.1)
    | inr e ↦ rw e tt
  ]

  last_band-IsNonneg :
      (bands : List (TenureBand Decimal))
      → All IsNonnegBand bands
      → IsNonneg D (months_or_zero D (get_last? bands))
  last_band-IsNonneg [] h = D.le_refl zero_d
  last_band-IsNonneg (b ∷ []) h = h.0
  last_band-IsNonneg (b ∷ c ∷ bands) h = last_band-IsNonneg (c ∷ bands) h.1

  scale_months-IsNonneg :
      (scale : List (TenureBand Decimal)) (years : ℕ)
      → All IsNonnegBand scale
      → IsNonneg D (scale_months D scale years)
  unfolding scale_months
  scale_months-IsNonneg scale years h = last_band-IsNonneg _ (All-take_while _ scale h)

  get_nonneg :
      (c : String) (cases : List (String × ReasonParams Decimal)) {p : ReasonParams Decimal}
      → All IsNonnegCase cases
      → get c cases ≡ some p
      → IsNonnegCase (c, p)
  get_nonneg c [] h e = cc
  get_nonneg c ((d, q) ∷ cases) {p} h e = elim (Bool-cases (str_eq c d)) [
    | inl same ↦ let found : q ≡ p = ground arith in subst (λ r. IsNonnegCase (c, r)) found h.0
    | inr other ↦ get_nonneg c cases {p = p} h.1 (ground arith)
  ]

  product-IsNonneg :
      (a b w : Decimal)
      → IsNonneg D a
      → IsNonneg D b
      → IsNonneg D w
      → IsNonneg D (money D (mul (mul a b) w))
  product-IsNonneg a b w ha hb hw =
      money-IsNonneg D _ (D.mul_nonneg _ _ (D.mul_nonneg _ _ ha hb) hw)

  if_IsNonneg : (c : Bool) (a : Decimal) → IsNonneg D a → IsNonneg D (if c then a else zero_d)
  if_IsNonneg true a h = h
  if_IsNonneg false a h = D.le_refl zero_d

  abbrev IsNonnegChoice : Option (ReasonParams Decimal) → Type 0
  IsNonnegChoice none = Unit
  IsNonnegChoice (some p) = IsNonneg D p.pesangon_multiplier × IsNonneg D p.upmk_multiplier

  -- The amounts of a breakdown, none of them negative.
  pub record IsNonnegItems {Date : Type 0} (b : SettlementBreakdown Date Decimal) : Type 0 where
    pub pesangon_nonneg : IsNonneg D b.uang_pesangon
    pub upmk_nonneg : IsNonneg D b.upmk
    pub pisah_nonneg : IsNonneg D b.uang_pisah
    pub total_nonneg : IsNonneg D b.severance_total
    pub payout_nonneg : IsNonneg D b.unused_leave_payout
    pub net_nonneg : IsNonneg D b.net_payable

module _ (C : Calendar) (D : Decimals) (inputs : SettlementInputs C.NaiveDate D.Decimal)
    (params : SeveranceParams C.NaiveDate D.Decimal) (settings : SeveranceSettings D.Decimal) where
  open C use {NaiveDate}
  open D use {Decimal, zero_d, add, mul}

  leaver_items-IsNonneg :
      (started : Bool) (p : Option (ReasonParams Decimal)) (m n w : Decimal)
      → IsNonnegChoice D p
      → IsNonneg D m
      → IsNonneg D n
      → IsNonneg D w
      → let items = leaver_items C D started inputs settings p m n w in
        IsNonneg D items.0 × IsNonneg D items.1 × IsNonneg D items.2 × IsNonneg D items.3
  unfolding leaver_items
  leaver_items-IsNonneg false p m n w hp hm hn hw =
      (D.le_refl zero_d, D.le_refl zero_d, D.le_refl zero_d, D.le_refl zero_d)
  leaver_items-IsNonneg true none m n w hp hm hn hw = (
    product-IsNonneg D m zero_d w hm (D.le_refl zero_d) hw,
    product-IsNonneg D n zero_d w hn (D.le_refl zero_d) hw,
    D.le_refl zero_d,
    max_d-IsNonneg D _,
  )
  leaver_items-IsNonneg true (some p) m n w hp hm hn hw = (
    product-IsNonneg D m p.pesangon_multiplier w hm hp.0 hw,
    product-IsNonneg D n p.upmk_multiplier w hn hp.1 hw,
    if_IsNonneg D p.uang_pisah_eligible _
        (money-IsNonneg D _ (D.mul_nonneg _ _ (max_d-IsNonneg D settings.uang_pisah_months) hw)),
    max_d-IsNonneg D _,
  )

  chosen_nonneg :
      (basis : Result (PesangonError NaiveDate) SeveranceBasis)
      {chosen : Option String × Option (ReasonParams Decimal)}
      → All (IsNonnegCase D) params.reasons
      → and_then basis (case_params C D inputs params) ≡ ok chosen
      → IsNonnegChoice D chosen.1
  unfolding case_params
  chosen_nonneg (err e) h at = cc
  chosen_nonneg (ok fixed_term_end) {chosen} h at =
      let same : (none, none) ≡ chosen = cc in subst (λ c. IsNonnegChoice D c.1) same tt
  chosen_nonneg (ok (case c)) {chosen} h at = elim (Option-cases (get c params.reasons)) [
    | inl absent ↦ absurd (ground arith)
    | inr (p, found) ↦
        let same : (some c, some p) ≡ chosen = ground arith in
        subst (λ q. IsNonnegChoice D q.1) same (get_nonneg D c params.reasons h found)
  ]

  breakdown-IsNonnegItems :
      (t : Decimal) (chosen : Option String × Option (ReasonParams Decimal))
      (last : LastPay NaiveDate Decimal)
      → IsNonnegSet D params
      → IsNonnegChoice D chosen.1
      → IsNonnegItems D (breakdown C D inputs t params settings chosen last)
  unfolding breakdown pesangon_months upmk_months
  breakdown-IsNonnegItems t (c, p) last h hp =
      let wage = max_d-IsNonneg D inputs.monthly_wage in
      let (pesangon, upmk, pisah, leave) =
        leaver_items-IsNonneg (le_date C inputs.join_date inputs.last_working_day) p _ _ _ hp
          (scale_months-IsNonneg D params.pesangon_scale _ h.pesangon)
          (scale_months-IsNonneg D params.upmk_scale _ h.upmk) wage in
      let payout =
        money-IsNonneg D _
          (D.mul_nonneg _ _ (daily_wage-IsNonneg D _ settings.work_week wage) leave) in
      let total = money-IsNonneg D _ (D.add_nonneg _ _ (D.add_nonneg _ _ pesangon upmk) pisah) in
      record {
        pesangon_nonneg = pesangon;
        upmk_nonneg = upmk;
        pisah_nonneg = pisah;
        total_nonneg = total;
        payout_nonneg = payout;
        net_nonneg = money-IsNonneg D _ (D.add_nonneg _ _ total payout);
      }

  -- With a statutory set that holds no negative number, no item of a settlement is negative,
  -- whatever the inputs and the settings are.
  pub compute-IsNonnegItems :
      {b : SettlementBreakdown NaiveDate Decimal}
      → IsNonnegSet D params
      → compute_settlement C D inputs params settings ≡ some (ok b)
      → IsNonnegItems D b
  compute-IsNonnegItems h e =
      let s = Steps-of_compute C D inputs params settings e in
      subst (IsNonnegItems D) s.result (
        breakdown-IsNonnegItems s.tenure s.chosen s.last h
          (chosen_nonneg (severance_basis inputs.reason) h.cases s.chosen_at))
