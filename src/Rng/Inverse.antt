-- ===== src/Rng/Inverse.antt =====
-- Each of the three steps of XORShift 32 can be undone on 32-bit numbers.
use Prim.Native.Nat.{bit_xor}
use mathlib.Core.Path.{◌≡⟨◌⟩◌, ◌∎}
use soa_p1_grupo_cu.Base.{ℕ, zero, suc, ◌*◌, ◌/◌, ◌%◌, ◌^◌, ◌≡◌, refl, sym, ◌∙◌, ap, u32}
use soa_p1_grupo_cu.Base.Xor.{
  bit_xor_assoc, bit_xor_left_comm, bit_xor_cancel, bit_xor-zero, bit_xor-div, bit_xor-mul,
  bit_xor-mod,
}

-- For a step `x ^ f x` with `f` linear over `^`, `n` rounds of this give `x` back up to `f^(n+1)`.
module _ (f : ℕ → ℕ) where
  abbrev pub undo : ℕ → ℕ → ℕ
  undo zero y = y
  undo (suc n) y = bit_xor y (f (undo n y))

  abbrev pub power : ℕ → ℕ → ℕ
  power zero x = x
  power (suc n) x = f (power n x)

  module _ (linear : (a b : ℕ) → f (bit_xor a b) ≡ bit_xor (f a) (f b)) where
    undo-step : (n x : ℕ) → undo n (bit_xor x (f x)) ≡ bit_xor x (power (suc n) x)
    undo-step zero x = refl
    undo-step (suc n) x = rw (undo-step n x, linear, bit_xor_assoc, bit_xor_cancel) refl

    step-undo : (n y : ℕ) → bit_xor (undo n y) (f (undo n y)) ≡ bit_xor y (power (suc n) y)
    step-undo zero y = refl
    step-undo (suc n) y =
        bit_xor_assoc y (f (undo n y)) _
        ∙ ap (bit_xor y) (
            bit_xor (f (undo n y)) (f (bit_xor y (f (undo n y))))
            ≡⟨ ap (bit_xor (f (undo n y))) (linear y (f (undo n y))) ⟩
              bit_xor (f (undo n y)) (bit_xor (f y) (f (f (undo n y))))
            ≡⟨ bit_xor_left_comm (f (undo n y)) (f y) (f (f (undo n y))) ⟩
              bit_xor (f y) (bit_xor (f (undo n y)) (f (f (undo n y))))
            ≡⟨ ap (bit_xor (f y)) (sym (linear (undo n y) (f (undo n y))) ∙ ap f (step-undo n y)) ⟩
              bit_xor (f y) (f (bit_xor y (power (suc n) y)))
            ≡⟨ ap (bit_xor (f y)) (linear y (power (suc n) y)) ⟩
              bit_xor (f y) (bit_xor (f y) (power (suc (suc n)) y))
            ≡⟨ bit_xor_cancel (f y) (power (suc (suc n)) y) ⟩ power (suc (suc n)) y ∎)

    -- With a power that vanishes at the argument, the step and `undo` are inverse there.
    pub undo_cancel : (n x : ℕ) → power (suc n) x ≡ 0 → undo n (bit_xor x (f x)) ≡ x
    undo_cancel n x gone = undo-step n x ∙ ap (bit_xor x) gone ∙ bit_xor-zero x

    pub cancel_undo : (n y : ℕ) → power (suc n) y ≡ 0 → bit_xor (undo n y) (f (undo n y)) ≡ y
    cancel_undo n y gone = step-undo n y ∙ ap (bit_xor y) gone ∙ bit_xor-zero y

abbrev pub shl : ℕ → ℕ → ℕ
shl k x = u32 (x * 2 ^ k)

abbrev pub shr : ℕ → ℕ → ℕ
shr k x = x / 2 ^ k

pub shl-linear : (k a b : ℕ) → shl k (bit_xor a b) ≡ bit_xor (shl k a) (shl k b)
shl-linear k a b =
    ap (λ t. t % 2 ^ 32) (sym (bit_xor-mul k a b)) ∙ bit_xor-mod 32 (a * 2 ^ k) (b * 2 ^ k)

pub shr-linear : (k a b : ℕ) → shr k (bit_xor a b) ≡ bit_xor (shr k a) (shr k b)
shr-linear k a b = bit_xor-div k a b

-- The inverse of `xorshift`: seven rounds undo the shift by 5, two that by 17, three that by 13.
unfoldable pub unxorshift : ℕ → ℕ
unxorshift y = undo (shl 13) 2 (undo (shr 17) 1 (undo (shl 5) 6 y))
