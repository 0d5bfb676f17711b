-- ===== src/Examples/Fixed.antt =====
-- A concrete instance of the interface of rust_decimal: amounts from zero on with four places, as
-- numbers of ten-thousandths. Products and quotients are cut to four places.
use native.Mathlib.Nat.{div-lt_iff_lt-mul}
use backbone_lifecycle.Prelude.{
  ℕ, ◌+◌, ◌*◌, ◌/◌, ◌<◌, ◌≡◌, ◌↔◌, refl, Bool, true, false, Option, none, some, arith,
  if◌then◌else◌, leb, leb→le, le→leb, leb-false→lt, lt→ltb, ltb, ◌==◌,
}
use backbone_lifecycle.Crates.Decimals.{
  Decimals, RoundingStrategy, midpoint_away_from_zero, to_zero,
}

abbrev quotient : ℕ → ℕ → ℕ
quotient a b = a * 10000 / b

-- The whole part is below 2 ^ 96.
abbrev fits : ℕ → Bool
fits a = ltb a 792281625142643375935439503360000

-- Two places, or the four that every amount has.
abbrev round : ℕ → RoundingStrategy → ℕ → ℕ
round places midpoint_away_from_zero a = if places == 2 then (a + 50) / 100 * 100 else a
round places to_zero a = a

abbrev whole : ℕ → Option ℕ
whole a = let n = a / 10000 in if ltb n 4294967296 then some n else none

pub fraction_lt : (p q : ℕ) → p < q → p * 10000 * 10000 / (q * 10000) < 10000
fraction_lt p q h = (div-lt_iff_lt-mul (omega arith)).1 (omega arith)

pub whole_of_parts :
    (n f : ℕ) → n < 4294967296 → f < 10000 → whole ((n * 10000 + f) / 10000 * 10000) ≡ some n
whole_of_parts n f small proper =
    let e : (n * 10000 + f) / 10000 * 10000 / 10000 ≡ n = omega arith in
    rw e (rw (lt→ltb _ _ small))

pub le_refl : (a : ℕ) → leb a a ≡ true
le_refl a = ground arith

pub le_trans : (a b c : ℕ) → leb a b ≡ true → leb b c ≡ true → leb a c ≡ true
le_trans a b c h k = le→leb _ _ (omega (arith, leb→le _ _ h, leb→le _ _ k))

pub le_total : (a b : ℕ) → leb a b ≡ false → leb b a ≡ true
le_total a b h = le→leb _ _ (omega (arith, leb-false→lt _ _ h))

pub le_antisym : (a b : ℕ) → leb a b ≡ true → leb b a ≡ true → a ≡ b
le_antisym a b h k = omega (arith, leb→le _ _ h, leb→le _ _ k)

pub is_zero_iff : (a : ℕ) → ((a == 0) ≡ true) ↔ (a ≡ 0)
is_zero_iff a = (ground arith, ground arith)

pub zero_add : (a : ℕ) → 0 + a ≡ a
zero_add a = omega arith

pub add_zero : (a : ℕ) → a + 0 ≡ a
add_zero a = omega arith

pub zero_mul : (a : ℕ) → 0 * a / 10000 ≡ 0
zero_mul a = omega arith

pub mul_zero : (a : ℕ) → a * 0 / 10000 ≡ 0
mul_zero a = omega arith

pub zero_le : (a : ℕ) → leb 0 a ≡ true
zero_le a = le→leb _ _ (omega arith)

pub round-round :
    (a : ℕ)
    → round 2 midpoint_away_from_zero (round 2 midpoint_away_from_zero a)
      ≡ round 2 midpoint_away_from_zero a
round-round a = omega arith

pub round_add :
    (a b : ℕ)
    → round 2 midpoint_away_from_zero a ≡ a
    → round 2 midpoint_away_from_zero b ≡ b
    → round 2 midpoint_away_from_zero (a + b) ≡ a + b
round_add a b h k = omega arith

abbrev pub Fixed : Decimals
Fixed = record {
  Decimal = ℕ;
  zero_d = 0;
  of_nat = λ n. n * 10000;
  add = λ a b. a + b;
  mul = λ a b. a * b / 10000;
  div = quotient;
  add_fits = λ a b. fits (a + b);
  mul_fits = λ a b. fits (a * b / 10000);
  le = leb;
  is_zero = λ a. a == 0;
  round_dp = round;
  trunc = λ a. a / 10000 * 10000;
  to_u32 = whole;
  parse = λ s. none;
  le_refl = le_refl;
  le_trans = le_trans;
  le_total = le_total;
  le_antisym = le_antisym;
  is_zero_iff = is_zero_iff;
  zero_add = zero_add;
  add_zero = add_zero;
  zero_mul = zero_mul;
  mul_zero = mul_zero;
  add_nonneg = λ a b h k. zero_le (a + b);
  mul_nonneg = λ a b h k. zero_le (a * b / 10000);
  div_nonneg = λ a b h k. zero_le (quotient a b);
  of_nat_nonneg = λ n. zero_le (n * 10000);
  round_zero = refl;
  round_round = round-round;
  round_add = round_add;
  round_nonneg = λ a h. zero_le _;
  whole_part = λ n p q small proper width.
      whole_of_parts n (quotient (p * 10000) (q * 10000)) small (fraction_lt p q proper);
  round_tenure_nonneg = λ a h. zero_le a;
  to_u32_zero = refl;
}
