-- ===== src/Examples/Dates.antt =====
-- Dates of the Gregorian calendar and the steps between them.
use backbone_lifecycle.Prelude.{
  ℕ, zero, suc, ◌+◌, ◌-◌, ◌≤◌, ◌<◌, ◌≡◌, ◌≢◌, refl, ap, Bool, true, false, ◌&&◌, Option, none, some,
  arith, if◌then◌else◌, leb, ltb, ◌==◌, List, [], ◌∷◌,
}
use backbone_lifecycle.Prelude.Options.{◌>>=◌}
use backbone_lifecycle.Crates.Calendar.{Weekday, mon, tue, wed, thu, fri, sat, sun}
use backbone_lifecycle.Examples.Months.{
  Month, jan, dec, number, month_of, leap_le, month_length, before, year_days, next_month,
  year_days-suc, year_days_mono, month_end_le,
}

abbrev pub is_valid : ℕ → Month → ℕ → Bool
is_valid y m d = leb y 262142 && leb 1 d && leb d (month_length y m)

pub record Date : Type 0 where
  pub year : ℕ
  pub month : Month
  pub day : ℕ
  pub valid : is_valid year month day ≡ true

abbrev pub make : (y : ℕ) (m : Month) (d : ℕ) (b : Bool) → is_valid y m d ≡ b → Option Date
make y m d true e = some (record { year = y; month = m; day = d; valid = e })
make y m d false e = none

unfoldable pub date_of : ℕ → Month → ℕ → Option Date
date_of y m d = make y m d (is_valid y m d) refl

abbrev pub from_ymd : ℕ → ℕ → ℕ → Option Date
from_ymd y n d = month_of n >>= λ m. date_of y m d

abbrev pub days_of : Date → ℕ
days_of t = year_days t.year + before t.year t.month + t.day

Bool-IsSet : IsSet Bool
Bool-IsSet = hlevel

pub make_valid :
    (t : Date) (b : Bool) (e : is_valid t.year t.month t.day ≡ b)
    → make t.year t.month t.day b e ≡ some t
make_valid t true e =
    ap (λ v. some (record { year = t.year; month = t.month; day = t.day; valid = v }))
      (Bool-IsSet _ _ e t.valid)
make_valid t false e = cc (t.valid)

pub make-some :
    (y : ℕ) (m : Month) (d : ℕ) (b : Bool) (e : is_valid y m d ≡ b) {t : Date}
    → make y m d b e ≡ some t
    → (t.year ≡ y) × (t.month ≡ m) × (t.day ≡ d)
make-some y m d true e h = (cc, cc, cc)
make-some y m d false e h = cc

pub make_some_of_valid :
    (y : ℕ) (m : Month) (d : ℕ) (b : Bool) (e : is_valid y m d ≡ b)
    → y ≤ 262142
    → 1 ≤ d
    → d ≤ month_length y m
    → make y m d b e ≢ none
make_some_of_valid y m d true e hy hd hm h = cc
make_some_of_valid y m d false e hy hd hm h = ground (arith, e)

pub date_of-some :
    (y : ℕ) (m : Month) (d : ℕ) {t : Date}
    → date_of y m d ≡ some t
    → (t.year ≡ y) × (t.month ≡ m) × (t.day ≡ d)
unfolding date_of
date_of-some y m d h = make-some y m d _ refl h

pub date_of_valid :
    (y : ℕ) (m : Month) (d : ℕ) → y ≤ 262142 → 1 ≤ d → d ≤ month_length y m → date_of y m d ≢ none
unfolding date_of
date_of_valid y m d hy hd hm = make_some_of_valid y m d _ refl hy hd hm

pub date_of_self : (t : Date) → date_of t.year t.month t.day ≡ some t
unfolding date_of
date_of_self t = make_valid t _ refl

pub valid_parts :
    (t : Date) → (t.year ≤ 262142) × (1 ≤ t.day) × (t.day ≤ month_length t.year t.month)
valid_parts t = ground (arith, t.valid)

-- Weekdays: 1 January of the year 1 was a Monday.
abbrev pub weekday_at : ℕ → List Weekday → Weekday
weekday_at n [] = sun
weekday_at n (w ∷ ws) = if n == 0 then w else weekday_at (n - 1) ws

abbrev pub weekdays : List Weekday
weekdays = mon ∷ tue ∷ wed ∷ thu ∷ fri ∷ sat ∷ sun ∷ []

abbrev pub succ_date : Date → Option Date
succ_date t =
    if leb (suc t.day) (month_length t.year t.month)
    then date_of t.year t.month (suc t.day)
    else date_of (next_month t.year t.month).0 (next_month t.year t.month).1 1

abbrev pub or_jan : Option Month → Month
or_jan none = jan
or_jan (some m) = m

abbrev pub last_month : ℕ → Month → ℕ × Month
last_month y m = if number m == 1 then (y - 1, dec) else (y, or_jan (month_of (number m - 1)))

abbrev pub pred_date : Date → Option Date
pred_date t =
    if ltb 1 t.day
    then date_of t.year t.month (t.day - 1)
    else if ltb (t.year + number t.month) 2
    then none
    else let (y, m) = last_month t.year t.month in date_of y m (month_length y m)

abbrev pub months_on : ℕ → ℕ × Month → ℕ × Month
months_on zero p = p
months_on (suc k) (y, m) = months_on k (next_month y m)

abbrev pub shorter : ℕ → ℕ → ℕ
shorter a b = if leb a b then a else b

abbrev pub add_months : Date → ℕ → Option Date
add_months t k =
    let (y, m) = months_on k (t.year, t.month) in date_of y m (shorter t.day (month_length y m))

pub year_gap : (s t : ℕ) → s < t → suc s + (t - suc s) ≡ t
year_gap s t h = omega arith

pub days_lt_year : (s t : Date) → s.year < t.year → days_of s < days_of t
days_lt_year s t h = omega (
  arith,
  valid_parts s,
  valid_parts t,
  month_end_le s.year s.month,
  year_days-suc s.year,
  year_days_mono (suc s.year) (t.year - suc s.year),
  ap year_days (year_gap s.year t.year h),
)

pub last_year_lt : 262142 < 4294967296
last_year_lt = omega arith

pub days_lt : (t : Date) → days_of t < 2147483648
days_lt t = ground (arith, valid_parts t, month_end_le t.year t.month, leap_le t.year)

pub days_of_parts :
    (t : Date) {y d : ℕ} {m : Month}
    → (t.year ≡ y) × (t.month ≡ m) × (t.day ≡ d)
    → days_of t ≡ year_days y + before y m + d
days_of_parts t (hy, hm, hd) = rw (hy, hm, hd)
