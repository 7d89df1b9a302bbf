-- ===== src/Tests/Fixed.antt =====
-- Decimals with three places in the part of `float` and `double`, finite below a bound that a
-- division by 0 exceeds: they meet what `IsIeee` and `Converges` ask for.
use native.Mathlib.Nat.{
  le-div_iff_mul-le, div-le_of_le-mul, mul-le-mul_left, mul-le-mul_right, le_trans,
}
use soa_p1_grupo_cu.Base.{u64, ◌≡◌, lt→ltb}
use soa_p1_grupo_cu.Task.{PiState}
use soa_p1_grupo_cu.Task.Work.{ratio, next_term, add_term}
use soa_p1_grupo_cu.Base.{
  ℕ, zero, suc, ◌+◌, ◌-◌, ◌*◌, ◌/◌, ◌%◌, ◌^◌, ◌≤◌, ◌<◌, refl, true, arith, ltb, leb,
}
use soa_p1_grupo_cu.Base.Float.{Floats, IsIeee}
use soa_p1_grupo_cu.Task.Series.{Converges, series}

-- What is no longer finite.
abbrev largest : ℕ
largest = 2 ^ 1024 * 1000

-- A division by 0 is not finite.
abbrev over : ℕ → ℕ → ℕ
over a zero = largest
over a (suc b) = a * 1000 / suc b

instance abbrev pub fixed : Floats
fixed = record {
  Single = ℕ;
  single = λ n. n * 1000;
  lt_s = ltb;
  le_s = leb;
  mul_s = λ a b. a * b / 1000;
  div_s = λ a b. a * 1000 / b;
  ceilf = λ a. (a + 999) / 1000 * 1000;
  single_to_u32 = λ a. a / 1000 % 2 ^ 32;
  single_to_u64 = λ a. a / 1000 % 2 ^ 64;
  is_finite_s = λ a. true;
  Double = ℕ;
  double = λ n. n * 1000;
  tenth = 100;
  lt_d = ltb;
  le_d = leb;
  add_d = λ a b. a + b;
  sub_d = λ a b. a - b;
  mul_d = λ a b. a * b / 1000;
  div_d = over;
  round = λ a. (a + 500) / 1000 * 1000;
  double_to_u64 = λ a. a / 1000;
  is_finite_d = λ a. ltb a largest;
  widen = λ a. a;
  narrow = λ a. a;
}

quotient-ge : (n y : ℕ) → 0 < y → y < 1000 → n * 1000 ≤ n * 1000 * 1000 / y
quotient-ge n y pos small =
    let e : n * 1000 * y ≤ n * 1000 * 1000 = grind arith in (le-div_iff_mul-le pos).1 e

pub fixed-IsIeee : IsIeee fixed
fixed-IsIeee = record {
  tenth_pos = λ y h. ground arith;
  le_div = λ n y small pos early. ground (arith, quotient-ge n y);
  le_round = λ n x small h. ground arith;
  quotient_fits = λ n y small h. ground arith;
  le_to_u64 = λ n x small h fits. ground arith;
  narrow_tenth = λ x h pos. ground arith;
  tenth-le-one = refl;
  narrow_one = refl;
}

-- A quotient of a number by one that is not smaller is at most 1.
over-le : (a b : ℕ) → 0 < b → a ≤ b → over a b ≤ 1000
over-le a zero pos le = absurd (omega (arith, pos))
over-le a (suc b) pos le = div-le_of_le-mul (suc b) (omega (arith, le))

thousandth-le : (a b : ℕ) → a ≤ b → a / 1000 ≤ b / 1000
thousandth-le a b le = omega (arith, le)

product-le : {a b c d : ℕ} → a ≤ b → c ≤ d → a * c ≤ b * d
product-le {a} {b} {c} {d} p q = le_trans (mul-le-mul_left a q) (mul-le-mul_right d p)

ratio-le : (j : ℕ) → 0 < j → ratio j ≤ 1000
ratio-le j pos =
    let x = 2000 * (j * 1000) / 1000 in
    let big : 1000 ≤ x = omega arith in
    let more : 1000 ≤ x + 1000 = omega arith in
    let less : x - 1000 ≤ x = omega arith in
    let near : x - 1000 ≤ x + 1000 = omega arith in
    over-le _ _ (omega (arith, thousandth-le (1000 * 1000) (x * (x + 1000)) (product-le big more)))
      (thousandth-le _ _ (product-le less near))

-- The state of the series after `k` terms.
record Small (k : ℕ) (p : PiState) : Type 0 where
  place : p.j ≡ k
  term_small : p.term ≤ 1000
  sum_small : p.sum ≤ 2000 + 2000 * k

term-le : (t r : ℕ) → t ≤ 1000 → r ≤ 1000 → t * r / 1000 ≤ 1000
term-le t r p q = omega (arith, thousandth-le (t * r) (1000 * 1000) (product-le p q))

next_term-Small :
    (k : ℕ) (p : PiState)
    → k < 2 ^ 32
    → Small k p
    → ((next_term p).j ≡ suc k) × ((next_term p).term ≤ 1000) × ((next_term p).sum ≡ p.sum)
unfolding next_term
next_term-Small k p small h =
    let j : u64 (p.j + 1) ≡ suc k = omega (arith, h.place) in
    (j, term-le _ _ h.term_small (ratio-le (u64 (p.j + 1)) (omega (arith, j))), refl)

series-Small : (k : ℕ) → k ≤ 2 ^ 32 → Small k (series k)
unfolding series add_term
series-Small zero le = record { place = refl; term_small = omega arith; sum_small = omega arith }
series-Small (suc k) le =
    let h = series-Small k (omega arith) in
    let (j, t, same) = next_term-Small k (series k) (omega arith) h in
    record { place = j; term_small = t; sum_small = omega (arith, h.sum_small, same, t) }

finite : (a : ℕ) → a < 2 ^ 50 → ltb a largest ≡ true
finite a small = lt→ltb a largest (omega (arith, small))

pub fixed-Converges : Converges
fixed-Converges k small =
    let h = series-Small k (omega arith) in
    let (j, t, same) = next_term-Small k (series k) small h in
    let p = next_term (series k) in
    let term : ltb p.term largest ≡ true = finite p.term (omega (arith, t)) in
    let sum : ltb p.sum largest ≡ true = finite p.sum (omega (arith, h.sum_small, same, small)) in
    rw (term, sum) refl
