-- ===== src/Pesangon/Tenure/Completed.antt =====
-- The completed years that `tenure_years` carries are the anniversaries reached.
use native.Mathlib.Nat.{add-zero}
use native.Mathlib.Numerals.{add-one}
use native.Mathlib.Decide.{ℕ_discrete, dec_le}
use backbone_lifecycle.Prelude.{
  ℕ, zero, suc, ◌+◌, ◌-◌, ◌≤◌, ◌<◌, ◌^◌, ◌≡◌, ◌↔◌, refl, ap, ◌∙◌, some, arith, inl, inr, true,
  false, Bool-cases, Option-cases, leb, le→leb,
}
use backbone_lifecycle.Crates.Decimals.{Decimals, to_zero, max_d_of_nonneg, IsNonneg}
use backbone_lifecycle.Crates.Calendar.{Calendar}
use backbone_lifecycle.Pesangon.Tenure.{anniversary, tenure_years, completed_years}

module _ (C : Calendar) where
  open C use {NaiveDate, days, year, month, day, from_ymd_opt, last_year}

  -- In the years of the calendar every anniversary falls on a day of its year.
  pub anniversary-some :
      (start : NaiveDate) (k : ℕ)
      → year start + k ≤ last_year
      → (t : NaiveDate) × (anniversary C start k ≡ some t) × (year t ≡ year start + k)
  unfolding anniversary
  anniversary-some start k h =
      elim (Option-cases (from_ymd_opt (year start + k) (month start) (day start))) [
        | inr (t, e) ↦ (t, rw e, C.ymd_year _ _ _ t e)
        | inl absent ↦ elim (Option-cases (from_ymd_opt (year start + k) 3 1)) [
          | inr (t, e) ↦ (t, rw absent e, C.ymd_year _ _ _ t e)
          | inl e ↦ absurd (C.first_of_march (year start + k) h e)
        ]
      ]

  year_mono : (s t : NaiveDate) → days s ≤ days t → year s ≤ year t
  year_mono s t h = grind (arith, C.days_lt_of_year_lt t s)

  anniversary_zero : (start : NaiveDate) → anniversary C start 0 ≡ some start
  unfolding anniversary
  anniversary_zero start = rw (add-zero, C.ymd_self start)

  anniversary_year :
      (start t : NaiveDate) (k : ℕ) → anniversary C start k ≡ some t → year t ≡ year start + k
  unfolding anniversary
  anniversary_year start t k h =
      elim (Option-cases (from_ymd_opt (year start + k) (month start) (day start))) [
        | inr (u, e) ↦ C.ymd_year _ _ _ t (e ∙ (rw e at h))
        | inl absent ↦ C.ymd_year _ 3 1 t (rw absent at h)
      ]

  anniversary_mono :
      (start : NaiveDate) (k n : ℕ) (s t : NaiveDate)
      → anniversary C start k ≡ some s
      → anniversary C start n ≡ some t
      → k ≤ n
      → days s ≤ days t
  anniversary_mono start k n s t at_s at_t h = elim (ℕ_discrete k n) [
    | yes same ↦ let e : s ≡ t = cc (ap (anniversary C start) same) in omega (arith, ap days e)
    | no differ ↦ omega (
      arith,
      C.days_lt_of_year_lt s t,
      anniversary_year start s k at_s,
      anniversary_year start t n at_t,
    )
  ]

  later-pos :
      (start t : NaiveDate) (k : ℕ) → anniversary C start k ≡ some t → days start < days t → 0 < k
  later-pos start t zero e h =
      let same : start ≡ t = cc (anniversary_zero start) in absurd (omega (arith, ap days same))
  later-pos start t (suc k) e h = omega arith

  -- The service year that the day after `last` stands in: `n` anniversaries of `join` are reached.
  pub record IsServiceYear (join last : NaiveDate) (n : ℕ) : Type 0 where
    pub from : NaiveDate
    pub to : NaiveDate
    pub from_at : anniversary C join n ≡ some from
    pub to_at : anniversary C join (n + 1) ≡ some to
    pub reached : days from ≤ suc (days last)
    pub ahead : suc (days last) < days to

-- A tenure of `n` whole years and `p` of the `q` days of the next.
tenure_of : (D : Decimals) (n p q : ℕ) → D.Decimal
tenure_of D n p q = D.round_dp 4 to_zero (D.add (D.of_nat n) (D.div (D.of_nat p) (D.of_nat q)))

module _ (C : Calendar) (D : Decimals) where
  open C use {NaiveDate, days, year, last_year, succ_opt}
  open D use {Decimal, of_nat, add, div, round_dp, trunc, to_u32}

  tenure_when_reached :
      (join last end from to : NaiveDate) (k : ℕ)
      → days join ≤ days last
      → succ_opt last ≡ some end
      → year end - year join ≡ k
      → anniversary C join k ≡ some from
      → leb (days from) (days end) ≡ true
      → anniversary C join (k + 1) ≡ some to
      → tenure_years C D join last
        ≡ some (tenure_of D k (days end - days from) (days to - days from))
  unfolding tenure_years tenure_of
  tenure_when_reached join last end from to k le e at_k at_from reached at_to =
      rw (le→leb _ _ le, e, at_k, at_from, reached, at_from, at_to)

  tenure_when_ahead :
      (join last end from to : NaiveDate) (k : ℕ)
      → days join ≤ days last
      → succ_opt last ≡ some end
      → year end - year join ≡ suc k
      → anniversary C join (suc k) ≡ some to
      → leb (days to) (days end) ≡ false
      → anniversary C join k ≡ some from
      → tenure_years C D join last
        ≡ some (tenure_of D k (days end - days from) (days to - days from))
  unfolding tenure_years tenure_of
  tenure_when_ahead join last end from to k le e at_k at_to ahead at_from =
      let back : suc k - 1 ≡ k = omega arith in
      rw (le→leb _ _ le, e, at_k, at_to, ahead, back, at_from, add-one, at_to)

  service_year :
      (join last end : NaiveDate)
      → succ_opt last ≡ some end
      → days join ≤ days last
      → year last + 1 < last_year
      → (n : ℕ) × (s : IsServiceYear C join last n) × (tenure_years C D join last
          ≡ some (tenure_of D n (days end - days s.from) (days s.to - days s.from)))
        × (n ≤ last_year)
  service_year join last end e le early =
      let after : days end ≡ suc (days last) = C.days_succ last end e in
      let near : year end ≤ suc (year last) = C.year_succ_le last end e in
      let ordered : year join ≤ year end = year_mono C join end (omega arith) in
      let (a, at_a, year_a) = anniversary-some C join (year end - year join) (omega arith) in
      elim (Bool-cases (leb (days a) (days end))) [
        | inl reached ↦
            let (b, at_b, year_b) =
              anniversary-some C join (year end - year join + 1) (omega arith) in
            let later : days end < days b = C.days_lt_of_year_lt end b (omega arith) in
            (
              year end - year join,
              record {
                from = a;
                to = b;
                from_at = at_a;
                to_at = at_b;
                reached = ground arith;
                ahead = omega arith;
              },
              tenure_when_reached join last end a b (year end - year join) le e refl at_a reached
                  at_b,
              omega arith,
            )
        | inr ahead ↦
            let some_year : 0 < year end - year join = later-pos C join a _ at_a (ground arith) in
            let k : ℕ = year end - year join - 1 in
            let next : year end - year join ≡ suc k = omega arith in
            let at_next : anniversary C join (suc k) ≡ some a = rw (← next) at_a in
            let (b, at_b, year_b) = anniversary-some C join k (omega arith) in
            let earlier : days b < days end = C.days_lt_of_year_lt b end (omega arith) in
            (
              k,
              record {
                from = b;
                to = a;
                from_at = at_b;
                to_at = rw add-one at_next;
                reached = omega arith;
                ahead = ground arith;
              },
              tenure_when_ahead join last end b a k le e next at_next ahead at_b,
              omega arith,
            )
      ]

module _ (D : Decimals) where
  open D use {zero_d, of_nat, add, div}

  -- The cut to four places keeps the completed years, and the figure is not negative.
  completed_years-tenure_of :
      (n p q : ℕ)
      → n < 2 ^ 32
      → p < q
      → q < 2 ^ 31
      → (completed_years D (tenure_of D n p q) ≡ n) × IsNonneg D (tenure_of D n p q)
  unfolding completed_years tenure_of
  completed_years-tenure_of n p q hn hp hq =
      let sum_nonneg : IsNonneg D (add (of_nat n) (div (of_nat p) (of_nat q))) =
        D.add_nonneg _ _ (D.of_nat_nonneg n)
          (D.div_nonneg _ _ (D.of_nat_nonneg p) (D.of_nat_nonneg q)) in
      let nonneg = D.round_tenure_nonneg _ sum_nonneg in
      (rw (max_d_of_nonneg D _ nonneg, D.whole_part n p q hn hp hq), nonneg)

module _ (C : Calendar) (D : Decimals) (join last : C.NaiveDate) where
  open C use {NaiveDate, days, year, last_year}
  open D use {Decimal}

  -- From a join date up to the last working day, and before the calendar's last two years, the
  -- years of service are computed, they are not negative, and their whole part counts the
  -- anniversaries reached by the end of the last day.
  pub tenure_years-IsServiceYear :
      days join ≤ days last
      → year last + 1 < last_year
      → (t : Decimal) × (tenure_years C D join last ≡ some t)
        × IsNonneg D t
        × IsServiceYear C join last (completed_years D t)
  tenure_years-IsServiceYear le early = elim (Option-cases (C.succ_opt last)) [
    | inl e ↦ absurd (C.succ_ne_none last (omega arith) e)
    | inr (end, e) ↦
        let (n, s, value, bound) = service_year C D join last end e le early in
        let small : n < 2 ^ 32 = omega (arith, C.last_year_lt) in
        let part : days end - days s.from < days s.to - days s.from =
          omega (arith, C.days_succ last end e, s.reached, s.ahead) in
        let short : days s.to - days s.from < 2 ^ 31 = omega (arith, C.days_lt s.to) in
        let (whole, nonneg) = completed_years-tenure_of D n _ _ small part short in
        (
          tenure_of D n (days end - days s.from) (days s.to - days s.from),
          value,
          nonneg,
          rw whole s,
        )
  ]

  -- An anniversary is among the completed years exactly when it falls no later than the day after
  -- the last working day.
  pub completed_years_iff :
      days join ≤ days last
      → year last + 1 < last_year
      → (t : Decimal) × (tenure_years C D join last ≡ some t)
        × ((k : ℕ) (a : NaiveDate)
            → anniversary C join k ≡ some a
            → (k ≤ completed_years D t) ↔ (days a ≤ suc (days last)))
  completed_years_iff le early =
      let (t, value, _, s) = tenure_years-IsServiceYear le early in
      (
        t,
        value,
        λ k a at. (
          λ h. omega (arith, anniversary_mono C join k _ a s.from at s.from_at h, s.reached),
          λ h. elim (dec_le k (completed_years D t)) [
            | yes p ↦ p
            | no p ↦ absurd (
                omega (arith, anniversary_mono C join _ k s.to a s.to_at at (omega arith), s.ahead))
          ],
        ),
      )
