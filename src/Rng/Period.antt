-- ===== src/Rng/Period.antt =====
-- XORShift 32 is a permutation of the non-zero 32-bit numbers, so a seeded generator never stops.
use native.Mathlib.Decide.{dec_lt}
use soa_p1_grupo_cu.Base.{
  List, [], ◌∷◌, length, All, ℕ, zero, suc, ◌^◌, ◌<◌, ◌≡◌, ◌↔◌, refl, ◌∙◌, ap, arith, true, false,
  Option, none, some,
}
use soa_p1_grupo_cu.Base.Xor.{bit_xor-lt}
use soa_p1_grupo_cu.Rng.{xor_shl, xor_shr, xorshift, rng_xorshift32_seed, rng_xorshift32_get}
use soa_p1_grupo_cu.Rng.Inverse.{
  undo, power, undo_cancel, cancel_undo, shl, shr, shl-linear, shr-linear, unxorshift,
}

power-shl_13 : (x : ℕ) → power (shl 13) 3 x ≡ 0
power-shl_13 x = omega arith

power-shl_5 : (x : ℕ) → power (shl 5) 7 x ≡ 0
power-shl_5 x = omega arith

power-shr_17 : (x : ℕ) → x < 2 ^ 32 → power (shr 17) 2 x ≡ 0
power-shr_17 x h = omega arith

undo-lt :
    (f : ℕ → ℕ)
    → ((x : ℕ) → x < 2 ^ 32 → f x < 2 ^ 32)
    → (n y : ℕ) → y < 2 ^ 32
    → undo f n y < 2 ^ 32
undo-lt f small zero y h = h
undo-lt f small (suc n) y h = bit_xor-lt 32 y (f (undo f n y)) h (small _ (undo-lt f small n y h))

shl-lt : (k x : ℕ) → shl k x < 2 ^ 32
shl-lt k x = omega arith

shr_17-lt : (x : ℕ) → x < 2 ^ 32 → shr 17 x < 2 ^ 32
shr_17-lt x h = omega arith

pub xorshift-lt : (x : ℕ) → x < 2 ^ 32 → xorshift x < 2 ^ 32
unfolding xorshift
xorshift-lt x h =
    let a = bit_xor-lt 32 x _ h (shl-lt 13 x) in
    let b = bit_xor-lt 32 _ _ a (shr_17-lt _ a) in bit_xor-lt 32 _ _ b (shl-lt 5 _)

unxorshift-lt : (y : ℕ) → y < 2 ^ 32 → unxorshift y < 2 ^ 32
unfolding unxorshift
unxorshift-lt y h =
    let a = undo-lt (shl 5) (λ x _. shl-lt 5 x) 6 y h in
    let b = undo-lt (shr 17) shr_17-lt 1 _ a in undo-lt (shl 13) (λ x _. shl-lt 13 x) 2 _ b

-- No 32-bit state is reached from two others.
pub unxorshift-xorshift : (x : ℕ) → x < 2 ^ 32 → unxorshift (xorshift x) ≡ x
unfolding xorshift unxorshift
unxorshift-xorshift x h =
    let b : xor_shl 13 x < 2 ^ 32 = bit_xor-lt 32 x _ h (shl-lt 13 x) in
    ap (λ y. undo (shl 13) 2 (undo (shr 17) 1 y))
      (undo_cancel (shl 5) (shl-linear 5) 6 _ (power-shl_5 _))
    ∙ ap (undo (shl 13) 2) (undo_cancel (shr 17) (shr-linear 17) 1 _ (power-shr_17 _ b))
    ∙ undo_cancel (shl 13) (shl-linear 13) 2 x (power-shl_13 x)

pub xorshift-unxorshift : (y : ℕ) → y < 2 ^ 32 → xorshift (unxorshift y) ≡ y
unfolding xorshift unxorshift
xorshift-unxorshift y h =
    let a : undo (shl 5) 6 y < 2 ^ 32 = undo-lt (shl 5) (λ x _. shl-lt 5 x) 6 y h in
    ap (λ x. xor_shl 5 (xor_shr 17 x)) (cancel_undo (shl 13) (shl-linear 13) 2 _ (power-shl_13 _))
    ∙ ap (xor_shl 5) (cancel_undo (shr 17) (shr-linear 17) 1 _ (power-shr_17 _ a))
    ∙ cancel_undo (shl 5) (shl-linear 5) 6 y (power-shl_5 y)

xorshift-zero : unxorshift 0 ≡ 0
unfolding unxorshift
xorshift-zero = refl

pub xorshift_pos : (x : ℕ) → x < 2 ^ 32 → 0 < x → 0 < xorshift x
xorshift_pos x h pos = elim (dec_lt 0 (xorshift x)) [
  | yes p ↦ p
  | no stuck ↦
      let e : xorshift x ≡ 0 = omega arith in
      absurd (omega (arith, unxorshift-xorshift x h, ap unxorshift e, xorshift-zero))
]

xorshift_of_zero : xorshift 0 ≡ 0
unfolding xorshift
xorshift_of_zero = refl

-- The step of the generator is a bijection of the 32-bit numbers, with an inverse that stays among
-- them, and it maps 0 and no other number to 0.
pub xorshift_bijective :
    (x : ℕ)
    → x < 2 ^ 32
    → (xorshift x < 2 ^ 32)
      × (unxorshift x < 2 ^ 32)
      × (unxorshift (xorshift x) ≡ x)
      × (xorshift (unxorshift x) ≡ x)
      × ((xorshift x ≡ 0) ↔ (x ≡ 0))
xorshift_bijective x h = (
  xorshift-lt x h,
  unxorshift-lt x h,
  unxorshift-xorshift x h,
  xorshift-unxorshift x h,
  (
    (λ e. omega (arith, unxorshift-xorshift x h, ap unxorshift e, xorshift-zero)),
    (λ e. rw e xorshift_of_zero),
  ),
)

-- The numbers of `n` calls of `rng_xorshift32_get` in turn; `none` if one of them fails.
unfoldable pub draw_many : ℕ → ℕ → Option (List ℕ)
draw_many zero s = some []
draw_many (suc n) s =
    let (s', drawn) = rng_xorshift32_get s in
    elim drawn [
      | none ↦ none
      | some x ↦ elim (draw_many n s') [ none ↦ none | some xs ↦ some (x ∷ xs) ]
    ]

abbrev pub IsDraw : ℕ → Type 0
IsDraw x = (0 < x) × (x < 2 ^ 32)

draw_many_lem :
    (n s : ℕ)
    → s < 2 ^ 32
    → 0 < s
    → (xs : List ℕ) × (draw_many n s ≡ some xs) × (length xs ≡ n) × All IsDraw xs
unfolding draw_many rng_xorshift32_get
draw_many_lem zero s h pos = ([], refl, refl, tt)
draw_many_lem (suc n) s h pos =
    let small = xorshift-lt s h in
    let more = xorshift_pos s h pos in
    let (xs, got, count, ok) = draw_many_lem n (xorshift s) small more in
    (xorshift s ∷ xs, ground arith, omega arith, ((more, small), ok))

-- After `rng_xorshift32_seed` with a non-zero 32-bit seed any number of calls of
-- `rng_xorshift32_get` succeed, and each gives a non-zero 32-bit number.
pub seed-draws :
    (seed n : ℕ)
    → seed < 2 ^ 32
    → (rng_xorshift32_seed seed).1 ≡ true
    → (xs : List ℕ) × (draw_many n (rng_xorshift32_seed seed).0 ≡ some xs)
      × (length xs ≡ n)
      × All IsDraw xs
unfolding rng_xorshift32_seed
seed-draws seed n h accepted = draw_many_lem n seed h (ground arith)

-- `rng_xorshift32_seed` refuses the seed 0 and no other, and a call of `rng_xorshift32_get` fails
-- exactly after such a refusal.
pub seed-refuses :
    (seed : ℕ)
    → ((rng_xorshift32_seed seed).1 ≡ false ↔ seed ≡ 0)
      × ((rng_xorshift32_seed seed).1 ≡ false
          ↔ (rng_xorshift32_get (rng_xorshift32_seed seed).0).1 ≡ none)
unfolding rng_xorshift32_seed rng_xorshift32_get
seed-refuses seed = ground arith
