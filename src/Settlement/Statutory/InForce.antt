-- ===== src/Settlement/Statutory/InForce.antt =====
-- The set that `severance_params_as_of` gives is the one in force on the day.
use mathlib.Core.List.{Memᴰ}
use mathlib.Core.Path.{subst}
use backbone_lifecycle.Prelude.{
  ◌≤◌, List, [], ◌∷◌, String, true, false, ◌≡◌, refl, Option, none, some, ok, ok_or, and_then_ok,
  arith, leb→le, le→leb, str_eq, eq_iff, inl, inr, Bool-cases, select_rows, All,
}
use backbone_lifecycle.Crates.Calendar.{Calendar, le_date, max_date, max_date_le}
use backbone_lifecycle.Pesangon.Basis.{PesangonError}
use backbone_lifecycle.Pesangon.Params.{TenureBand, SeveranceParams, effective_from}
use backbone_lifecycle.Pesangon.Params.Checked.{IsComplete, check_iff}
use backbone_lifecycle.Settlement.Statutory.{
  Dated, StatutoryTables, is_in_force, later, max_effective, effective_at, set_of, order_bands,
  scale_as_of, severance_params_as_of,
}
use backbone_lifecycle.Settlement.Statutory.Rows.{
  and_parts, IsSetOf, order_bands-IsSetOf, collect-IsSetOf,
}

module _ (C : Calendar) (country : String) (as_of : C.NaiveDate) where
  open C use {NaiveDate, days}

  -- The date of the set in force: that of a row of the country, not after the day, and the latest
  -- of those.
  pub record IsInForce {A : Type 0} (rows : List (Dated NaiveDate A)) (date : NaiveDate)
      : Type 0 where
    pub past : days date ≤ days as_of
    pub dated :
        (r : Dated NaiveDate A) × Memᴰ r rows
        × (r.country_code ≡ country)
        × (days r.effective_from ≡ days date)
    pub latest :
        All
          (λ r.
            r.country_code ≡ country
            → days r.effective_from ≤ days as_of
            → days r.effective_from ≤ days date)
          rows

  -- The same by the test of the query.
  record IsGreatest {A : Type 0} (rows : List (Dated NaiveDate A)) (date : NaiveDate) : Type 0 where
    past : days date ≤ days as_of
    held :
        (r : Dated NaiveDate A) × Memᴰ r rows
        × (is_in_force C country as_of r ≡ true)
        × (days r.effective_from ≡ days date)
    greatest :
        All (λ r. is_in_force C country as_of r ≡ true → days r.effective_from ≤ days date) rows

  abbrev IsMaxOf : {A : Type 0} → List (Dated NaiveDate A) → Option NaiveDate → Type 0
  IsMaxOf rows none = All (λ r. is_in_force C country as_of r ≡ false) rows
  IsMaxOf rows (some d) = IsGreatest rows d

  module _ {A : Type 0} where
    All-weaken :
        (rows : List (Dated NaiveDate A)) (d e : NaiveDate)
        → days d ≤ days e
        → All (λ r. is_in_force C country as_of r ≡ true → days r.effective_from ≤ days d) rows
        → All (λ r. is_in_force C country as_of r ≡ true → days r.effective_from ≤ days e) rows
    All-weaken [] d e h all = tt
    All-weaken (r ∷ rows) d e h all =
        ((λ f. let low = all.0 f in omega arith), All-weaken rows d e h all.1)

    none_in_force :
        (rows : List (Dated NaiveDate A)) (d : NaiveDate)
        → All (λ r. is_in_force C country as_of r ≡ false) rows
        → All (λ r. is_in_force C country as_of r ≡ true → days r.effective_from ≤ days d) rows
    none_in_force [] d all = tt
    none_in_force (r ∷ rows) d all = ((λ f. cc all.0), none_in_force rows d all.1)

    skip :
        (r : Dated NaiveDate A) (rows : List (Dated NaiveDate A)) (o : Option NaiveDate)
        → is_in_force C country as_of r ≡ false
        → IsMaxOf rows o
        → IsMaxOf (r ∷ rows) o
    skip r rows none off m = (off, m)
    skip r rows (some d) off m =
        let (s, l, on, same) = m.held in
        record {
          past = m.past;
          held = (s, Memᴰ.tail l, on, same);
          greatest = ((λ f. cc off), m.greatest);
        }

    take :
        (r : Dated NaiveDate A) (rows : List (Dated NaiveDate A)) (o : Option NaiveDate)
        → is_in_force C country as_of r ≡ true
        → IsMaxOf rows o
        → IsGreatest (r ∷ rows) (later C r.effective_from o)
    take r rows none on m = record {
      past = ground arith;
      held = (r, Memᴰ.head refl, on, refl);
      greatest = ((λ f. omega arith), none_in_force rows r.effective_from m);
    }
    take r rows (some d) on m = elim (Bool-cases (le_date C r.effective_from d)) [
      | inl e ↦
          let (s, l, s_on, same) = m.held in
          rw e (record {
            past = m.past;
            held = (s, Memᴰ.tail l, s_on, same);
            greatest = ((λ f. leb→le _ _ e), m.greatest);
          })
      | inr e ↦ rw e (record {
        past = ground arith;
        held = (r, Memᴰ.head refl, on, refl);
        greatest =
            ((λ f. omega arith), All-weaken rows d r.effective_from (ground arith) m.greatest);
      })
    ]

    max_effective-IsMaxOf :
        (rows : List (Dated NaiveDate A))
        → IsMaxOf rows (max_effective C country (select_rows (is_in_force C country as_of) rows))
    unfolding max_effective
    max_effective-IsMaxOf [] = tt
    max_effective-IsMaxOf (r ∷ rows) = elim (Bool-cases (is_in_force C country as_of r)) [
      | inl on ↦ rw on (take r rows _ on (max_effective-IsMaxOf rows))
      | inr off ↦ rw off (skip r rows _ off (max_effective-IsMaxOf rows))
    ]

    in_force_parts :
        (r : Dated NaiveDate A)
        → is_in_force C country as_of r ≡ true
        → (r.country_code ≡ country) × (days r.effective_from ≤ days as_of)
    in_force_parts r h =
        let (same, past) =
          and_parts (str_eq r.country_code country) (le_date C r.effective_from as_of) h in
        ((eq_iff r.country_code country).0 same, leb→le _ _ past)

    in_force_of :
        (r : Dated NaiveDate A)
        → r.country_code ≡ country
        → days r.effective_from ≤ days as_of
        → is_in_force C country as_of r ≡ true
    in_force_of r c d =
        let same = (eq_iff r.country_code country).1 c in rw (same, le→leb _ _ d) refl

    latest_of :
        (rows : List (Dated NaiveDate A)) (date : NaiveDate)
        → All (λ r. is_in_force C country as_of r ≡ true → days r.effective_from ≤ days date) rows
        → All
            (λ r.
              r.country_code ≡ country
              → days r.effective_from ≤ days as_of
              → days r.effective_from ≤ days date)
            rows
    latest_of [] date all = tt
    latest_of (r ∷ rows) date all = ((λ c d. all.0 (in_force_of r c d)), latest_of rows date all.1)

    IsInForce-of_greatest :
        (rows : List (Dated NaiveDate A)) (date : NaiveDate)
        → IsGreatest rows date
        → IsInForce rows date
    IsInForce-of_greatest rows date m =
        let (r, l, on, same) = m.held in
        record {
          past = m.past;
          dated = (r, l, (in_force_parts r on).0, same);
          latest = latest_of rows date m.greatest;
        }

    found :
        (rows : List (Dated NaiveDate A)) (o : Option NaiveDate) (e : PesangonError NaiveDate)
        {date : NaiveDate}
        → IsMaxOf rows o
        → ok_or o e ≡ ok date
        → IsInForce rows date
    found rows none e m h = cc
    found rows (some d) e {date} m h =
        let same : d ≡ date = cc in subst (IsInForce rows) same (IsInForce-of_greatest rows d m)

    -- `effective_at` gives the date of the set in force.
    effective_at-IsInForce :
        (table : String) (rows : List (Dated NaiveDate A)) {date : NaiveDate}
        → effective_at C country table rows as_of ≡ ok date
        → IsInForce rows date
    unfolding effective_at
    effective_at-IsInForce table rows h = found rows _ _ (max_effective-IsMaxOf rows) h

  module _ {Decimal : Type 0} (t : StatutoryTables NaiveDate Decimal) where
    -- The set in force on the day: each part dated in force, made of exactly the country's rows of
    -- that date, and complete, so that the scales ascend.
    pub record IsStatute (p : SeveranceParams NaiveDate Decimal) : Type 0 where
      pub complete : IsComplete p
      pub pesangon_in_force : IsInForce t.severance_pesangon_scale p.pesangon_effective_from
      pub upmk_in_force : IsInForce t.severance_upmk_scale p.upmk_effective_from
      pub reasons_in_force : IsInForce t.severance_reason_params p.reasons_effective_from
      pub pesangon_rows :
          IsSetOf C country t.severance_pesangon_scale p.pesangon_effective_from p.pesangon_scale
      pub upmk_rows : IsSetOf C country t.severance_upmk_scale p.upmk_effective_from p.upmk_scale
      pub reasons_rows :
          IsSetOf C country t.severance_reason_params p.reasons_effective_from p.reasons

    abbrev IsScale :
        List (Dated NaiveDate (TenureBand Decimal)) → List (TenureBand Decimal) × NaiveDate → Type 0
    IsScale rows (bands, date) = IsInForce rows date × IsSetOf C country rows date bands

    scale_as_of-IsScale :
        (table : String) (rows : List (Dated NaiveDate (TenureBand Decimal)))
        {s : List (TenureBand Decimal) × NaiveDate}
        → scale_as_of C country table rows as_of ≡ ok s
        → IsScale rows s
    unfolding scale_as_of
    scale_as_of-IsScale table rows {s} h =
        let (date, at, e) = and_then_ok (effective_at C country table rows as_of) _ h in
        let same : (order_bands (set_of C country rows date), date) ≡ s = cc in
        subst (IsScale rows) same
          (effective_at-IsInForce table rows at, order_bands-IsSetOf C country rows date)

    -- The set that is read for a day is the complete one in force on that day: each part is dated as
    -- the country's last rows up to and including the day, holds exactly the country's rows of that
    -- date, and both scales ascend; the date that it names is not after the day.
    pub severance_params_as_of-IsStatute :
        {p : SeveranceParams NaiveDate Decimal}
        → severance_params_as_of C country t as_of ≡ ok p
        → IsStatute p × (days (effective_from C p) ≤ days as_of)
    unfolding severance_params_as_of effective_from
    severance_params_as_of-IsStatute h =
        let (pesangon, at_p, h₁) =
          and_then_ok (scale_as_of C country _ t.severance_pesangon_scale as_of) _ h in
        let (upmk, at_u, h₂) =
          and_then_ok (scale_as_of C country _ t.severance_upmk_scale as_of) _ h₁ in
        let (reasons, at_r, h₃) =
          and_then_ok (effective_at C country _ t.severance_reason_params as_of) _ h₂ in
        let (same, whole) = (check_iff as_of _ _).0 h₃ in
        let p_in = scale_as_of-IsScale _ _ at_p in
        let u_in = scale_as_of-IsScale _ _ at_u in
        let r_in = effective_at-IsInForce _ _ at_r in
        subst (λ q. IsStatute q × (days (effective_from C q) ≤ days as_of)) same
          (
            record {
              complete = whole;
              pesangon_in_force = p_in.0;
              upmk_in_force = u_in.0;
              reasons_in_force = r_in;
              pesangon_rows = p_in.1;
              upmk_rows = u_in.1;
              reasons_rows = collect-IsSetOf C country t.severance_reason_params reasons;
            },
            latest_past pesangon.1 upmk.1 reasons p_in.0.past u_in.0.past r_in.past,
          )
      where
        latest_past :
            (a b c : NaiveDate)
            → days a ≤ days as_of
            → days b ≤ days as_of
            → days c ≤ days as_of
            → days (max_date C (max_date C a b) c) ≤ days as_of
        latest_past a b c ha hb hc =
            max_date_le C (max_date C a b) c as_of (max_date_le C a b as_of ha hb) hc
