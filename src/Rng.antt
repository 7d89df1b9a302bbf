-- ===== src/Rng.antt =====
-- src/rng.c: the XORShift 32 generator. The model's state is the file's `rng_seed`.
pub mod Inverse
pub mod Period
use Prim.Native.Nat.{bit_xor}
use soa_p1_grupo_cu.Base.{ℕ, ◌*◌, ◌/◌, ◌^◌, Bool, not, Option, none, some, if◌then◌else◌, ◌==◌, u32}

-- `x ^= x << k` and `x ^= x >> k` on `uint32_t`
abbrev pub xor_shl : ℕ → ℕ → ℕ
xor_shl k x = bit_xor x (u32 (x * 2 ^ k))

abbrev pub xor_shr : ℕ → ℕ → ℕ
xor_shr k x = bit_xor x (x / 2 ^ k)

unfoldable pub xorshift : ℕ → ℕ
xorshift x = xor_shl 5 (xor_shr 17 (xor_shl 13 x))

-- The new state, and whether the seed is usable.
unfoldable pub rng_xorshift32_seed : ℕ → ℕ × Bool
rng_xorshift32_seed seed = (seed, not (seed == 0))

-- The new state, and the number drawn; `none` is the `false` of an unseeded generator.
unfoldable pub rng_xorshift32_get : ℕ → ℕ × Option ℕ
rng_xorshift32_get rng_seed =
    if rng_seed == 0 then (rng_seed, none) else (xorshift rng_seed, some (xorshift rng_seed))
