-- ===== src/Examples/Months.antt =====
-- The months of the Gregorian calendar and their lengths.
use backbone_lifecycle.Prelude.{
  ℕ, zero, suc, ◌+◌, ◌-◌, ◌*◌, ◌/◌, ◌%◌, ◌≤◌, ◌≡◌, refl, List, [], ◌∷◌, ◌&&◌, not, ◌||◌, Option,
  none, some, arith, if◌then◌else◌, ◌==◌,
}

pub data Month : Type 0 where
  jan feb mar apr may jun jul aug sep oct nov dec : Month

abbrev pub number : Month → ℕ
number jan = 1
number feb = 2
number mar = 3
number apr = 4
number may = 5
number jun = 6
number jul = 7
number aug = 8
number sep = 9
number oct = 10
number nov = 11
number dec = 12

-- The month whose number it is, of those listed.
abbrev pub find_month : ℕ → List Month → Option Month
find_month n [] = none
find_month n (m ∷ ms) = if number m == n then some m else find_month n ms

abbrev pub months : List Month
months = jan ∷ feb ∷ mar ∷ apr ∷ may ∷ jun ∷ jul ∷ aug ∷ sep ∷ oct ∷ nov ∷ dec ∷ []

abbrev pub month_of : ℕ → Option Month
month_of n = find_month n months

-- 1 in a leap year
abbrev pub leap : ℕ → ℕ
leap y = if (y % 4 == 0) && (not (y % 100 == 0) || (y % 400 == 0)) then 1 else 0

abbrev pub month_length : ℕ → Month → ℕ
month_length y jan = 31
month_length y feb = 28 + leap y
month_length y mar = 31
month_length y apr = 30
month_length y may = 31
month_length y jun = 30
month_length y jul = 31
month_length y aug = 31
month_length y sep = 30
month_length y oct = 31
month_length y nov = 30
month_length y dec = 31

-- The days of a year before a month.
abbrev pub before : ℕ → Month → ℕ
before y jan = 0
before y feb = 31
before y mar = 59 + leap y
before y apr = 90 + leap y
before y may = 120 + leap y
before y jun = 151 + leap y
before y jul = 181 + leap y
before y aug = 212 + leap y
before y sep = 243 + leap y
before y oct = 273 + leap y
before y nov = 304 + leap y
before y dec = 334 + leap y

-- The days before a year.
abbrev pub year_days : ℕ → ℕ
year_days y = y * 365 + (y + 3) / 4 + (y + 399) / 400 - (y + 99) / 100

pub leap_le : (y : ℕ) → leap y ≤ 1
leap_le y = ground arith

abbrev pub next_month : ℕ → Month → ℕ × Month
next_month y jan = (y, feb)
next_month y feb = (y, mar)
next_month y mar = (y, apr)
next_month y apr = (y, may)
next_month y may = (y, jun)
next_month y jun = (y, jul)
next_month y jul = (y, aug)
next_month y aug = (y, sep)
next_month y sep = (y, oct)
next_month y oct = (y, nov)
next_month y nov = (y, dec)
next_month y dec = (suc y, jan)

pub year_days-suc : (y : ℕ) → year_days (suc y) ≡ year_days y + 365 + leap y
year_days-suc y = ground arith

pub year_days_mono : (y k : ℕ) → year_days y ≤ year_days (y + k)
year_days_mono y zero = omega arith
year_days_mono y (suc k) = omega (arith, year_days_mono y k, year_days-suc (y + k))

-- The day before the first of the next month.
pub month_step :
    (y : ℕ) (m : Month)
    → year_days (next_month y m).0 + before (next_month y m).0 (next_month y m).1
      ≡ year_days y + before y m + month_length y m
month_step y jan = omega arith
month_step y feb = omega arith
month_step y mar = omega arith
month_step y apr = omega arith
month_step y may = omega arith
month_step y jun = omega arith
month_step y jul = omega arith
month_step y aug = omega arith
month_step y sep = omega arith
month_step y oct = omega arith
month_step y nov = omega arith
month_step y dec = omega (arith, year_days-suc y)

-- A month and its days end within the year.
pub month_end_le : (y : ℕ) (m : Month) → before y m + month_length y m ≤ 365 + leap y
month_end_le y jan = omega arith
month_end_le y feb = omega arith
month_end_le y mar = omega arith
month_end_le y apr = omega arith
month_end_le y may = omega arith
month_end_le y jun = omega arith
month_end_le y jul = omega arith
month_end_le y aug = omega arith
month_end_le y sep = omega arith
month_end_le y oct = omega arith
month_end_le y nov = omega arith
month_end_le y dec = omega arith

pub month_length_pos : (y : ℕ) (m : Month) → 28 ≤ month_length y m
month_length_pos y jan = omega arith
month_length_pos y feb = omega arith
month_length_pos y mar = omega arith
month_length_pos y apr = omega arith
month_length_pos y may = omega arith
month_length_pos y jun = omega arith
month_length_pos y jul = omega arith
month_length_pos y aug = omega arith
month_length_pos y sep = omega arith
month_length_pos y oct = omega arith
month_length_pos y nov = omega arith
month_length_pos y dec = omega arith

pub month_of-number : (m : Month) → month_of (number m) ≡ some m
month_of-number jan = refl
month_of-number feb = refl
month_of-number mar = refl
month_of-number apr = refl
month_of-number may = refl
month_of-number jun = refl
month_of-number jul = refl
month_of-number aug = refl
month_of-number sep = refl
month_of-number oct = refl
month_of-number nov = refl
month_of-number dec = refl

-- The next month is in this year or the first of the next.
pub next_month_year : (y : ℕ) (m : Month) → (y ≤ (next_month y m).0) × ((next_month y m).0 ≤ suc y)
next_month_year y jan = omega arith
next_month_year y feb = omega arith
next_month_year y mar = omega arith
next_month_year y apr = omega arith
next_month_year y may = omega arith
next_month_year y jun = omega arith
next_month_year y jul = omega arith
next_month_year y aug = omega arith
next_month_year y sep = omega arith
next_month_year y oct = omega arith
next_month_year y nov = omega arith
next_month_year y dec = omega arith
