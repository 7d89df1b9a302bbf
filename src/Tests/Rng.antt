-- ===== src/Tests/Rng.antt =====
-- The generator at concrete seeds.
use soa_p1_grupo_cu.Base.{
  ℕ, ◌^◌, ◌<◌, ◌≡◌, ◌↔◌, refl, List, [], ◌∷◌, arith, All, length, Bool, some, none,
}
use soa_p1_grupo_cu.Rng.{xorshift, rng_xorshift32_seed, rng_xorshift32_get}
use soa_p1_grupo_cu.Rng.Inverse.{unxorshift}
use soa_p1_grupo_cu.Rng.Period.{xorshift_bijective, draw_many, IsDraw, seed-draws, seed-refuses}

-- The first three numbers from the seed 1, as the generator's author lists them.
first_numbers : draw_many 3 1 ≡ some (270369 ∷ 67634689 ∷ 2647435461 ∷ [])
unfolding draw_many rng_xorshift32_get xorshift
first_numbers = refl

xorshift_bijective_example :
    (xorshift 2026 < 2 ^ 32)
    × (unxorshift 2026 < 2 ^ 32)
    × (unxorshift (xorshift 2026) ≡ 2026)
    × (xorshift (unxorshift 2026) ≡ 2026)
    × ((xorshift 2026 ≡ 0) ↔ (◌≡◌ {A = ℕ} 2026 0))
xorshift_bijective_example = xorshift_bijective 2026 (omega arith)

seed-draws_example :
    (xs : List ℕ) × (draw_many 10 (rng_xorshift32_seed 2026).0 ≡ some xs)
    × (length xs ≡ 10)
    × All IsDraw xs
seed-draws_example = seed-draws 2026 10 (omega arith) (unfold rng_xorshift32_seed in refl)

seed-refuses_example :
    ((rng_xorshift32_seed 0).1 ≡ Bool.false ↔ ◌≡◌ {A = ℕ} 0 0)
    × ((rng_xorshift32_seed 0).1 ≡ Bool.false
        ↔ (rng_xorshift32_get (rng_xorshift32_seed 0).0).1 ≡ none)
seed-refuses_example = seed-refuses 0
