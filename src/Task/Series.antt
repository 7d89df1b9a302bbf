-- ===== src/Task/Series.antt =====
-- The series that a task computes, as a function of the number of its terms alone.
use soa_p1_grupo_cu.Base.{sym, lt→ltb, ge→ltb}
use soa_p1_grupo_cu.Base.{ℕ, zero, suc, ◌+◌, ◌^◌, ◌≤◌, ◌<◌, ◌≡◌, refl, ap, ◌∙◌, true, false, arith}
use native.Mathlib.Decide.{dec_lt}
use Prim.Native.Nat.{min}
use soa_p1_grupo_cu.Base.Float.{Floats}
use soa_p1_grupo_cu.Task.{PiState, pi_start, Task}
use soa_p1_grupo_cu.Task.Work.{next_term, add_term, overflows, task_do_one_working_unit, run_units}

module _ ⦃fl : Floats⦄ where
  -- The state after `k` terms, however they are spread over dispatches.
  unfoldable pub series : ℕ → PiState
  series zero = pi_start
  series (suc k) = add_term (next_term (series k))

  -- None of the terms that 32-bit numbers of work units can ask for overflows `double`, nor the sum
  -- before it. In IEEE 754 these terms fall from 1 towards 0 and the sum rises from 2 towards π;
  -- `pi.j` stays below 2^32 + 1, far from the 2^64 at which it would be 0 again.
  abbrev pub Converges : Type 0
  Converges = (k : ℕ) → k < 2 ^ 32 → overflows (next_term (series k)) ≡ false

  -- The task that has done `n` of its units.
  abbrev pub advanced : ℕ → Task → Task
  advanced n t = record t { pi = series n; work_units_done = n }

  pub InStep : Task → Type 0
  InStep t = t.pi ≡ series t.work_units_done

  advanced_self :
      (t : Task) (n : ℕ)
      → t.pi ≡ series t.work_units_done
      → n ≡ t.work_units_done
      → advanced n t ≡ t
  advanced_self t n step e = ground arith

  pub one_unit :
      Converges
      → (t : Task) → t.pi ≡ series t.work_units_done
      → t.work_units_done + 1 < 2 ^ 32
      → task_do_one_working_unit t ≡ (advanced (t.work_units_done + 1) t, true)
  unfolding task_do_one_working_unit series
  one_unit conv t step small = ground (arith, conv t.work_units_done (omega arith))

  pub run_units-advanced :
      Converges
      → (left W : ℕ) (t : Task) → t.pi ≡ series t.work_units_done
      → t.work_units_done ≤ W
      → W < 2 ^ 32
      → run_units left W t ≡ advanced (min (t.work_units_done + left) W) t
  unfolding run_units
  run_units-advanced conv zero W t step le small =
      sym (advanced_self t (min (t.work_units_done + 0) W) step (omega arith))
  run_units-advanced conv (suc left) W t step le small = elim (dec_lt t.work_units_done W) [
    | yes more ↦
        rw (one_unit conv t step (omega arith), lt→ltb t.work_units_done W more)
          (run_units-advanced conv left W (advanced (t.work_units_done + 1) t) refl (omega arith)
              small
            ∙ ap (λ n. advanced n t) (omega arith))
    | no done ↦
        rw (ge→ltb t.work_units_done W (omega arith))
          (sym (advanced_self t (min (t.work_units_done + suc left) W) step (omega arith)))
  ]
