-- ===== src/Scheduler/Fuel.antt =====
-- src/scheduler.c: the main loop gives the same on any fuel that sees it to its end.
use mathlib.Core.Path.{subst}
use soa_p1_grupo_cu.Base.{ℕ, zero, suc, ◌+◌, arith, ◌≡◌, Option, some}
use soa_p1_grupo_cu.Base.Float.{Floats}
use soa_p1_grupo_cu.Scheduler.{Config, Sched, Turn, again, leave, turn, main_loop}

module _ ⦃fl : Floats⦄ (c : Config) where
  abbrev rest_of : ℕ → Turn → Option Sched
  rest_of fuel (again s') = main_loop fuel c s'
  rest_of fuel (leave s') = some s'

  turn-agree :
      (f g : ℕ) (t : Turn) (r r' : Sched)
      → ((s' : Sched) → main_loop f c s' ≡ some r → main_loop g c s' ≡ some r' → r ≡ r')
      → rest_of f t ≡ some r
      → rest_of g t ≡ some r'
      → r ≡ r'
  turn-agree f g (again s') r r' rest e e' = rest s' e e'
  turn-agree f g (leave s') r r' rest e e' = cc

  -- More fuel does not change what the loop gives.
  pub main_loop-agree :
      (f g : ℕ) (s r r' : Sched) → main_loop f c s ≡ some r → main_loop g c s ≡ some r' → r ≡ r'
  unfolding main_loop
  main_loop-agree zero g s r r' e e' = absurd (cc)
  main_loop-agree (suc f) zero s r r' e e' = absurd (cc)
  main_loop-agree (suc f) (suc g) s r r' e e' =
      turn-agree f g (turn c s) r r' (λ s'. main_loop-agree f g s' r r') e e'

  more_turn :
      (f d : ℕ) (t : Turn) (r : Sched)
      → ((s' : Sched) → main_loop f c s' ≡ some r → main_loop (f + d) c s' ≡ some r)
      → rest_of f t ≡ some r
      → rest_of (f + d) t ≡ some r
  more_turn f d (again s') r rest e = rest s' e
  more_turn f d (leave s') r rest e = e

  -- A loop that ends also ends with more fuel.
  pub more_fuel :
      (f d : ℕ) (s r : Sched) → main_loop f c s ≡ some r → main_loop (f + d) c s ≡ some r
  unfolding main_loop
  more_fuel zero d s r e = absurd (cc)
  more_fuel (suc f) d s r e =
      let count : suc (f + d) ≡ suc f + d = omega arith in
      subst (λ k. main_loop k c s ≡ some r) count
        (more_turn f d (turn c s) r (λ s'. more_fuel f d s' r) e)
