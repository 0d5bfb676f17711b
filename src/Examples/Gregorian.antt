-- ===== src/Examples/Gregorian.antt =====
-- A concrete calendar: the proleptic Gregorian one, from the year 0 to the last year of chrono.
use backbone_lifecycle.Prelude.{
  ℕ, suc, ◌+◌, ◌-◌, ◌*◌, ◌%◌, ◌≤◌, ◌<◌, ◌≡◌, ◌≢◌, false, Option, none, some, arith, inl, inr,
  Bool-cases, leb, leb→le, ltb, ltb→lt, leb-false→lt,
}
use backbone_lifecycle.Prelude.Options.{◌>>=◌}
use backbone_lifecycle.Crates.Calendar.{Calendar}
use backbone_lifecycle.Examples.Months.{
  Month, jan, feb, mar, apr, may, jun, jul, aug, sep, oct, nov, dec, number, month_of, month_length,
  before, year_days, next_month, month_step, month_length_pos, month_of-number, next_month_year,
}
use backbone_lifecycle.Examples.Dates.{
  Date, date_of, from_ymd, days_of, date_of-some, date_of_valid, date_of_self, valid_parts,
  weekday_at, weekdays, succ_date, last_month, pred_date, shorter, add_months, days_lt_year,
  last_year_lt, days_lt, days_of_parts,
}

from_month :
    (y d : ℕ) (t : Date) (m : Option Month) → (m >>= λ n. date_of y n d) ≡ some t → t.year ≡ y
from_month y d t none h = cc
from_month y d t (some m) h = (date_of-some y m d h).0

pub ymd_year : (y n d : ℕ) (t : Date) → from_ymd y n d ≡ some t → t.year ≡ y
ymd_year y n d t h = from_month y d t (month_of n) h

pub ymd_self : (t : Date) → from_ymd t.year (number t.month) t.day ≡ some t
ymd_self t = rw (month_of-number t.month) (date_of_self t)

pub first_of_march : (y : ℕ) → y ≤ 262142 → from_ymd y 3 1 ≢ none
first_of_march y h = date_of_valid y mar 1 h (omega arith) (omega arith)

first_of_next_valid :
    (y : ℕ) (m : Month) → y < 262142 → date_of (next_month y m).0 (next_month y m).1 1 ≢ none
first_of_next_valid y m h =
    date_of_valid _ _ 1 (omega (arith, next_month_year y m)) (omega arith)
      (omega (arith, month_length_pos (next_month y m).0 (next_month y m).1))

pub succ_ne_none : (t : Date) → t.year < 262142 → succ_date t ≢ none
succ_ne_none t h = elim (Bool-cases (leb (suc t.day) (month_length t.year t.month))) [
  | inl e ↦
      rw e (date_of_valid t.year t.month (suc t.day) (omega arith) (omega arith) (leb→le _ _ e))
  | inr e ↦ rw e (first_of_next_valid t.year t.month h)
]

pub days_succ : (s t : Date) → succ_date s ≡ some t → days_of t ≡ suc (days_of s)
days_succ s t h = elim (Bool-cases (leb (suc s.day) (month_length s.year s.month))) [
  | inl e ↦ omega (arith, days_of_parts t (date_of-some s.year s.month (suc s.day) (rw e at h)))
  | inr e ↦ omega (
    arith,
    days_of_parts t
        (date_of-some (next_month s.year s.month).0 (next_month s.year s.month).1 1 (rw e at h)),
    month_step s.year s.month,
    leb-false→lt _ _ e,
    valid_parts s,
  )
]

pub year_succ_le : (s t : Date) → succ_date s ≡ some t → t.year ≤ suc s.year
year_succ_le s t h = elim (Bool-cases (leb (suc s.day) (month_length s.year s.month))) [
  | inl e ↦ omega (arith, (date_of-some s.year s.month (suc s.day) (rw e at h)).0)
  | inr e ↦ omega (
    arith,
    (date_of-some (next_month s.year s.month).0 (next_month s.year s.month).1 1 (rw e at h)).0,
    next_month_year s.year s.month,
  )
]

abbrev pub with_day : Date → ℕ → Option Date
with_day t d = date_of t.year t.month d

pub first_ne_none : (t : Date) → with_day t 1 ≢ none
first_ne_none t =
    date_of_valid t.year t.month 1 (valid_parts t).0 (omega arith)
      (omega (arith, month_length_pos t.year t.month))

pub first_le : (s t : Date) → with_day s 1 ≡ some t → days_of t ≤ days_of s
first_le s t h = omega (arith, days_of_parts t (date_of-some s.year s.month 1 h), valid_parts s)

pub year_first : (s t : Date) → with_day s 1 ≡ some t → t.year ≡ s.year
year_first s t h = (date_of-some s.year s.month 1 h).0

shorter_lem : (a b : ℕ) → 1 ≤ a → 1 ≤ b → (1 ≤ shorter a b) × (shorter a b ≤ b)
shorter_lem a b h k = ground arith

pub next_month_ne_none : (t : Date) → t.year < 262142 → add_months t 1 ≢ none
next_month_ne_none t h =
    let (y, m) = next_month t.year t.month in
    let fits =
      shorter_lem t.day (month_length y m) (valid_parts t).1
        (omega (arith, month_length_pos y m)) in
    date_of_valid y m _ (omega (arith, next_month_year t.year t.month)) fits.0 fits.1

pub next_month_lt : (s t : Date) → add_months s 1 ≡ some t → days_of s < days_of t
next_month_lt s t h =
    let (y, m) = next_month s.year s.month in
    let fits =
      shorter_lem s.day (month_length y m) (valid_parts s).1
        (omega (arith, month_length_pos y m)) in
    omega (
      arith,
      days_of_parts t (date_of-some y m (shorter s.day (month_length y m)) h),
      month_step s.year s.month,
      valid_parts s,
      fits,
    )

last_month_le : (y : ℕ) (m : Month) → (last_month y m).0 ≤ y
last_month_le y m = ground arith

ltb-false : (d : ℕ) → ltb 1 d ≡ false → d ≤ 1
ltb-false d h = ground arith

first_month : (y : ℕ) (m : Month) → y + number m < 2 → year_days y + before y m ≡ 0
first_month y jan h = omega arith
first_month y feb h = omega arith
first_month y mar h = omega arith
first_month y apr h = omega arith
first_month y may h = omega arith
first_month y jun h = omega arith
first_month y jul h = omega arith
first_month y aug h = omega arith
first_month y sep h = omega arith
first_month y oct h = omega arith
first_month y nov h = omega arith
first_month y dec h = omega arith

first_date_le : (s t : Date) → t.year + number t.month < 2 → t.day ≤ 1 → days_of t ≤ days_of s
first_date_le s t h k = omega (arith, first_month t.year t.month h, valid_parts s)

pub pred_ne_none : (s t : Date) → days_of s < days_of t → pred_date t ≢ none
pred_ne_none s t h = elim (Bool-cases (ltb 1 t.day)) [
  | inl e ↦ rw e (
      date_of_valid t.year t.month (t.day - 1) (valid_parts t).0 (omega (arith, ltb→lt _ _ e))
        (omega (arith, valid_parts t)))
  | inr e ↦ elim (Bool-cases (ltb (t.year + number t.month) 2)) [
    | inl first ↦ absurd (omega (arith, first_date_le s t (ltb→lt _ _ first) (ltb-false t.day e)))
    | inr later ↦
        rw (e, later)
          (date_of_valid (last_month t.year t.month).0 (last_month t.year t.month).1 _
            (omega (arith, last_month_le t.year t.month, valid_parts t))
            (omega
              (arith, month_length_pos (last_month t.year t.month).0 (last_month t.year t.month).1))
            (omega arith))
  ]
]

abbrev pub Gregorian : Calendar
Gregorian = record {
  NaiveDate = Date;
  DateTime = Date × ℕ;
  days = days_of;
  year = λ t. t.year;
  month = λ t. number t.month;
  day = λ t. t.day;
  weekday = λ t. weekday_at ((days_of t + 4) % 7) weekdays;
  from_ymd_opt = from_ymd;
  succ_opt = succ_date;
  pred_opt = pred_date;
  with_day = with_day;
  checked_add_months = add_months;
  last_year = 262142;
  timestamp = λ t. days_of t.0 * 86400 + t.1 % 86400;
  date_naive = λ t. t.0;
  days_lt = days_lt;
  last_year_lt = last_year_lt;
  year_le = λ t. (valid_parts t).0;
  days_lt_of_year_lt = days_lt_year;
  ymd_year = ymd_year;
  ymd_self = ymd_self;
  first_of_march = first_of_march;
  succ_ne_none = succ_ne_none;
  days_succ = days_succ;
  year_succ_le = year_succ_le;
  first_ne_none = first_ne_none;
  first_le = first_le;
  year_first = year_first;
  next_month_ne_none = next_month_ne_none;
  next_month_lt = next_month_lt;
  pred_ne_none = pred_ne_none;
}
