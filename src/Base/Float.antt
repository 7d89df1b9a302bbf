-- ===== src/Base/Float.antt =====
-- The C compiler's `float` and `double`, with the operations that the program uses of them. They
-- are not code of the repository, so they are a parameter; `IsIeee` names what is relied on.
use Prim.Native.Nat.{ℕ, ◌≤◌, ◌<◌, ◌^◌}
use mathlib.Core.Path.{◌≡◌}
use mathlib.Core.Bool.{Bool, true, false}

-- Conversions to an unsigned integer truncate; out of its range C leaves the result open.
pub record Floats : Type 1 where
  pub Single : Type 0
  pub single : ℕ → Single  -- (float)n
  pub lt_s : Single → Single → Bool
  pub le_s : Single → Single → Bool
  pub mul_s : Single → Single → Single
  pub div_s : Single → Single → Single
  pub ceilf : Single → Single
  pub single_to_u32 : Single → ℕ
  pub single_to_u64 : Single → ℕ
  pub is_finite_s : Single → Bool
  pub Double : Type 0
  pub double : ℕ → Double  -- (double)n
  pub tenth : Double  -- 0.1
  pub lt_d : Double → Double → Bool
  pub le_d : Double → Double → Bool
  pub add_d : Double → Double → Double
  pub sub_d : Double → Double → Double
  pub mul_d : Double → Double → Double
  pub div_d : Double → Double → Double
  pub round : Double → Double
  pub double_to_u64 : Double → ℕ
  pub is_finite_d : Double → Bool
  pub widen : Single → Double  -- (double)x
  pub narrow : Double → Single  -- (float)x

-- What the proofs take from IEEE 754: division is correctly rounded, whole numbers below 2^32 are
-- exact `double`s, `round` keeps them apart, and a conversion in range truncates.
pub record IsIeee (fl : Floats) : Type 0 where
  -- 0.1f and what is not below it lie above 0.
  pub tenth_pos :
      (y : fl.Single) → fl.le_s (fl.narrow fl.tenth) y ≡ true → fl.lt_s (fl.single 0) y ≡ true
  -- A quotient by a number between 0 and 1 is not below the dividend.
  pub le_div :
      (n : ℕ) (y : fl.Single)
      → n < 2 ^ 32
      → fl.lt_s (fl.single 0) y ≡ true
      → fl.lt_s y (fl.single 1) ≡ true
      → fl.le_d (fl.double n) (fl.div_d (fl.double n) (fl.widen y)) ≡ true
  -- Rounding to the nearest whole number is monotone and keeps whole numbers.
  pub le_round :
      (n : ℕ) (x : fl.Double)
      → n < 2 ^ 32
      → fl.le_d (fl.double n) x ≡ true
      → fl.le_d (fl.double n) (fl.round x) ≡ true
  -- A 32-bit number over at least 0.1f is below 2^64.
  pub quotient_fits :
      (n : ℕ) (y : fl.Single)
      → n < 2 ^ 32
      → fl.le_s (fl.narrow fl.tenth) y ≡ true
      → fl.lt_d (fl.round (fl.div_d (fl.double n) (fl.widen y))) (fl.double (2 ^ 64)) ≡ true
  -- Within the range of `uint64_t` the conversion is monotone.
  pub le_to_u64 :
      (n : ℕ) (x : fl.Double)
      → n < 2 ^ 32
      → fl.le_d (fl.double n) x ≡ true
      → fl.lt_d x (fl.double (2 ^ 64)) ≡ true
      → n ≤ fl.double_to_u64 x
  -- The bound that the parser checks as `double` and 1 keep their order when narrowed, and a
  -- number that is not below 0.1 is not below 0.1f, unless it is NaN, which is not above 0.
  pub narrow_tenth :
      (x : fl.Double)
      → fl.lt_d x fl.tenth ≡ false
      → fl.lt_s (fl.single 0) (fl.narrow x) ≡ true
      → fl.le_s (fl.narrow fl.tenth) (fl.narrow x) ≡ true
  pub tenth-le-one : fl.le_s (fl.narrow fl.tenth) (fl.single 1) ≡ true
  pub narrow_one : fl.narrow (fl.double 1) ≡ fl.single 1
