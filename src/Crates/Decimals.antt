-- ===== src/Crates/Decimals.antt =====
-- The crate rust_decimal, which is not part of the repository: the type `Decimal` and the
-- operations that the code calls, with the laws that its documentation gives. Numbers that compare
-- equal are one number here. A sum or a product that needs more than 96 bits panics in the crate;
-- `add_fits` and `mul_fits` say that one does not.
use backbone_lifecycle.Prelude.{
  ℕ, ◌^◌, ◌<◌, ◌≡◌, ◌↔◌, Bool, true, false, not, Option, some, String, inl, inr, Bool-cases,
  if◌then◌else◌,
}

pub data RoundingStrategy : Type 0 where
  midpoint_away_from_zero to_zero : RoundingStrategy

pub record Decimals : Type 1 where
  pub Decimal : Type 0
  -- `Decimal::ZERO`, and `Decimal::from` of a whole number (also `Decimal::new(n, 0)`)
  pub zero_d : Decimal
  pub of_nat : ℕ → Decimal
  pub add : Decimal → Decimal → Decimal
  pub mul : Decimal → Decimal → Decimal
  pub div : Decimal → Decimal → Decimal
  -- `checked_add(…).is_some()`, `checked_mul(…).is_some()`
  pub add_fits : Decimal → Decimal → Bool
  pub mul_fits : Decimal → Decimal → Bool
  -- `<=`
  pub le : Decimal → Decimal → Bool
  pub is_zero : Decimal → Bool
  pub round_dp : ℕ → RoundingStrategy → Decimal → Decimal
  pub trunc : Decimal → Decimal
  pub to_u32 : Decimal → Option ℕ
  pub parse : String → Option Decimal
  -- the order is total
  pub le_refl : (a : Decimal) → le a a ≡ true
  pub le_trans : (a b c : Decimal) → le a b ≡ true → le b c ≡ true → le a c ≡ true
  pub le_total : (a b : Decimal) → le a b ≡ false → le b a ≡ true
  pub le_antisym : (a b : Decimal) → le a b ≡ true → le b a ≡ true → a ≡ b
  pub is_zero_iff : (a : Decimal) → (is_zero a ≡ true) ↔ (a ≡ zero_d)
  pub zero_add : (a : Decimal) → add zero_d a ≡ a
  pub add_zero : (a : Decimal) → add a zero_d ≡ a
  pub zero_mul : (a : Decimal) → mul zero_d a ≡ zero_d
  pub mul_zero : (a : Decimal) → mul a zero_d ≡ zero_d
  pub add_nonneg :
      (a b : Decimal) → le zero_d a ≡ true → le zero_d b ≡ true → le zero_d (add a b) ≡ true
  pub mul_nonneg :
      (a b : Decimal) → le zero_d a ≡ true → le zero_d b ≡ true → le zero_d (mul a b) ≡ true
  pub div_nonneg :
      (a b : Decimal) → le zero_d a ≡ true → le zero_d b ≡ true → le zero_d (div a b) ≡ true
  pub of_nat_nonneg : (n : ℕ) → le zero_d (of_nat n) ≡ true
  -- rounding to two places, half away from zero
  pub round_zero : round_dp 2 midpoint_away_from_zero zero_d ≡ zero_d
  pub round_round :
      (a : Decimal)
      → round_dp 2 midpoint_away_from_zero (round_dp 2 midpoint_away_from_zero a)
        ≡ round_dp 2 midpoint_away_from_zero a
  pub round_add :
      (a b : Decimal)
      → round_dp 2 midpoint_away_from_zero a ≡ a
      → round_dp 2 midpoint_away_from_zero b ≡ b
      → round_dp 2 midpoint_away_from_zero (add a b) ≡ add a b
  pub round_nonneg :
      (a : Decimal) → le zero_d a ≡ true → le zero_d (round_dp 2 midpoint_away_from_zero a) ≡ true
  -- A whole number and a proper fraction, cut to four places, keeps its whole part. The bounds are
  -- those of the crates' types: the numerator and the denominator are counts of days (i32).
  pub whole_part :
      (n p q : ℕ)
      → n < 2 ^ 32
      → p < q
      → q < 2 ^ 31
      → to_u32 (trunc (round_dp 4 to_zero (add (of_nat n) (div (of_nat p) (of_nat q))))) ≡ some n
  pub round_tenure_nonneg :
      (a : Decimal) → le zero_d a ≡ true → le zero_d (round_dp 4 to_zero a) ≡ true
  pub to_u32_zero : to_u32 (trunc zero_d) ≡ some 0

-- What the standard library's `Ord` derives from the order.
module _ (D : Decimals) where
  open D use {Decimal, zero_d, le}

  -- `a < b`
  abbrev pub less : Decimal → Decimal → Bool
  less a b = not (le b a)

  abbrev pub max_d : Decimal → Decimal → Decimal
  max_d a b = if le a b then b else a

  abbrev pub min_d : Decimal → Decimal → Decimal
  min_d a b = if le a b then a else b

  abbrev pub IsNonneg : Decimal → Type 0
  IsNonneg a = le zero_d a ≡ true

  -- `money`: a ledger amount, rounded to the sen
  unfoldable pub money : Decimal → Decimal
  money a = D.round_dp 2 midpoint_away_from_zero a

  -- The amounts that rounding to the sen leaves alone.
  abbrev pub IsMoney : Decimal → Type 0
  IsMoney a = money a ≡ a

  pub max_d-IsNonneg : (a : Decimal) → IsNonneg (max_d a zero_d)
  max_d-IsNonneg a = elim (Bool-cases (le a zero_d)) [
    | inl e ↦ rw e (D.le_refl zero_d)
    | inr e ↦ rw e (D.le_total a zero_d e)
  ]

  pub max_d_of_nonneg : (a : Decimal) → IsNonneg a → max_d a zero_d ≡ a
  max_d_of_nonneg a h = elim (Bool-cases (le a zero_d)) [
    | inl e ↦ rw e (D.le_antisym zero_d a h e)
    | inr e ↦ rw e
  ]

  pub min_d-le : (a b : Decimal) → le (min_d a b) b ≡ true
  min_d-le a b = elim (Bool-cases (le a b)) [ inl e ↦ rw e e | inr e ↦ rw e (D.le_refl b) ]

  pub money_zero : money zero_d ≡ zero_d
  unfolding money
  money_zero = D.round_zero

  pub money-money : (a : Decimal) → IsMoney (money a)
  unfolding money
  money-money a = D.round_round a

  pub IsMoney-add : (a b : Decimal) → IsMoney a → IsMoney b → IsMoney (D.add a b)
  unfolding money
  IsMoney-add a b = D.round_add a b

  pub money-IsNonneg : (a : Decimal) → IsNonneg a → IsNonneg (money a)
  unfolding money
  money-IsNonneg a = D.round_nonneg a
