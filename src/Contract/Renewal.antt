-- ===== src/Contract/Renewal.antt =====
-- The term of a renewal, of src/application/service/contract_write_service.rs.
use backbone_lifecycle.Prelude.{
  ℕ, suc, ◌+◌, ◌*◌, ◌⊎◌, ◌≡◌, ◌≤◌, ◌<◌, ◌↔◌, refl, inl, inr, none, some, Option-cases, Bool-cases,
  arith, leb→le, leb-false→lt, ltb, ltb→lt, ltb-false→le,
}
use backbone_lifecycle.Crates.Calendar.{Calendar, le_date}
use backbone_lifecycle.Contract.{renewal_start, months_between}

module _ (C : Calendar) where
  open C use {NaiveDate, days, year, month, day, succ_opt, last_year}

  -- A renewal of a contract that ends today or later, before the last year of the calendar, starts
  -- on the day after the end; of a contract that has ended, and of one without an end, on the day
  -- of the decision. So a renewal starts neither before the decision nor within the running term.
  pub renewal_start-no_overlap :
      (e today : NaiveDate)
      → year e < last_year
      → (days today ≤ days e → days (renewal_start C (some e) today) ≡ suc (days e))
        × (days e < days today → renewal_start C (some e) today ≡ today)
        × (renewal_start C none today ≡ today)
  unfolding renewal_start
  renewal_start-no_overlap e today h = elim (Bool-cases (le_date C today e)) [
    | inl runs ↦ elim (Option-cases (succ_opt e)) [
      | inl absent ↦ absurd (C.succ_ne_none e h absent)
      | inr (t, k) ↦ (
        λ _. rw (runs, k) (C.days_succ e t k),
        λ over. absurd (omega (arith, leb→le _ _ runs)),
        refl,
      )
    ]
    | inr over ↦ (λ runs. absurd (omega (arith, leb-false→lt _ _ over)), λ _. rw over refl, refl)
  ]

  -- Whole months: a date's months, or those months and one more, lie between the two dates.
  abbrev pub month_number : NaiveDate → ℕ
  month_number t = year t * 12 + month t

  -- The months counted from one date to a later month are the largest number of whole months that
  -- fit: so many months on, the day is reached, and one more month on, it is not.
  pub months_between-largest :
      (from to : NaiveDate)
      → month_number from < month_number to
      → (n : ℕ)
      → (n ≤ months_between C from to) ↔ (
          (month_number from + n < month_number to)
          ⊎ ((month_number from + n ≡ month_number to) × (day from ≤ day to)))
  unfolding months_between
  months_between-largest from to h n = elim (Bool-cases (ltb (day to) (day from))) [
    | inl short ↦ rw short (omega (arith, ltb→lt _ _ short))
    | inr full ↦ rw full (omega (arith, ltb-false→le _ _ full))
  ]
