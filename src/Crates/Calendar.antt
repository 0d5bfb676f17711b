-- ===== src/Crates/Calendar.antt =====
-- The crate chrono, which is not part of the repository: dates and times with the operations that
-- the code calls, and the laws that its documentation gives. Years are those from 0 on.
use backbone_lifecycle.Prelude.{
  ℕ, suc, ◌^◌, ◌≤◌, ◌<◌, ◌≡◌, ◌≢◌, Bool, not, Option, none, some, leb, inl, inr, Bool-cases,
  if◌then◌else◌,
}

pub data Weekday : Type 0 where
  mon tue wed thu fri sat sun : Weekday

pub record Calendar : Type 1 where
  pub NaiveDate : Type 0
  pub DateTime : Type 0
  -- `num_days_from_ce`; the order of dates is the order of these numbers
  pub days : NaiveDate → ℕ
  pub year : NaiveDate → ℕ
  pub month : NaiveDate → ℕ
  pub day : NaiveDate → ℕ
  pub weekday : NaiveDate → Weekday
  pub from_ymd_opt : ℕ → ℕ → ℕ → Option NaiveDate
  pub succ_opt : NaiveDate → Option NaiveDate
  pub pred_opt : NaiveDate → Option NaiveDate
  pub with_day : NaiveDate → ℕ → Option NaiveDate
  pub checked_add_months : NaiveDate → ℕ → Option NaiveDate
  -- the year of `NaiveDate::MAX`
  pub last_year : ℕ
  -- the order of times is the order of their timestamps
  pub timestamp : DateTime → ℕ
  pub date_naive : DateTime → NaiveDate
  -- `num_days_from_ce` is an i32, and years are bounded
  pub days_lt : (t : NaiveDate) → days t < 2 ^ 31
  pub last_year_lt : last_year < 2 ^ 32
  pub year_le : (t : NaiveDate) → year t ≤ last_year
  pub days_lt_of_year_lt : (s t : NaiveDate) → year s < year t → days s < days t
  pub ymd_year : (y m d : ℕ) (t : NaiveDate) → from_ymd_opt y m d ≡ some t → year t ≡ y
  pub ymd_self : (t : NaiveDate) → from_ymd_opt (year t) (month t) (day t) ≡ some t
  -- every year has a 1 March
  pub first_of_march : (y : ℕ) → y ≤ last_year → from_ymd_opt y 3 1 ≢ none
  pub succ_ne_none : (t : NaiveDate) → year t < last_year → succ_opt t ≢ none
  pub days_succ : (s t : NaiveDate) → succ_opt s ≡ some t → days t ≡ suc (days s)
  pub year_succ_le : (s t : NaiveDate) → succ_opt s ≡ some t → year t ≤ suc (year s)
  -- every month has a first day
  pub first_ne_none : (t : NaiveDate) → with_day t 1 ≢ none
  pub first_le : (s t : NaiveDate) → with_day s 1 ≡ some t → days t ≤ days s
  pub year_first : (s t : NaiveDate) → with_day s 1 ≡ some t → year t ≡ year s
  pub next_month_ne_none : (t : NaiveDate) → year t < last_year → checked_add_months t 1 ≢ none
  pub next_month_lt : (s t : NaiveDate) → checked_add_months s 1 ≡ some t → days s < days t
  -- only the first date of all has none before it
  pub pred_ne_none : (s t : NaiveDate) → days s < days t → pred_opt t ≢ none

-- What the standard library's `Ord` derives from the order.
module _ (C : Calendar) where
  open C use {NaiveDate, days}

  abbrev pub le_date : NaiveDate → NaiveDate → Bool
  le_date s t = leb (days s) (days t)

  -- `s < t`
  abbrev pub lt_date : NaiveDate → NaiveDate → Bool
  lt_date s t = not (le_date t s)

  abbrev pub max_date : NaiveDate → NaiveDate → NaiveDate
  max_date s t = if le_date s t then t else s

  pub max_date_le :
      (s t u : NaiveDate) → days s ≤ days u → days t ≤ days u → days (max_date s t) ≤ days u
  max_date_le s t u hs ht = elim (Bool-cases (le_date s t)) [ inl e ↦ rw e ht | inr e ↦ rw e hs ]
