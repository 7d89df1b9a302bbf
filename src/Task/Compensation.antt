-- ===== src/Task/Compensation.antt =====
-- Ticket compensation: what it gives, and that it never takes tickets away.
use soa_p1_grupo_cu.Base.{Bool-cases, inl, inr}
use soa_p1_grupo_cu.Base.{◌^◌, ◌≤◌, ◌<◌, ◌≡◌, Bool, true, false, ◌&&◌, arith, uint32_max}
use soa_p1_grupo_cu.Base.Float.{Floats, IsIeee}
use soa_p1_grupo_cu.Task.{Task, one_s, compensated, task_apply_compensation}

module _ ⦃fl : Floats⦄ where
  -- The fraction that a task carries: at least 0.1f.
  abbrev pub FractionFits : Task → Type 0
  FractionFits t = fl.le_s (fl.narrow fl.tenth) t.yield_fraction ≡ true

  pub compensated-ge :
      IsIeee fl
      → (t : Task) → t.tickets < 2 ^ 32
      → FractionFits t
      → fl.lt_s t.yield_fraction one_s ≡ true
      → t.tickets ≤ compensated t
  unfolding compensated
  compensated-ge ieee t small fits early =
      ieee.le_to_u64 t.tickets _ small
        (ieee.le_round t.tickets _ small (
          ieee.le_div t.tickets t.yield_fraction small (ieee.tenth_pos t.yield_fraction fits)
            early))
        (ieee.quotient_fits t.tickets t.yield_fraction small fits)

  -- What compensation leaves a task with.
  pub record Compensated (t t' : Task) (enabled : Bool) : Type 0 where
    pub only_stake : t' ≡ record t { effective_tickets = t'.effective_tickets }
    pub not_less : t.tickets ≤ t'.effective_tickets
    pub fits : t'.effective_tickets ≤ uint32_max
    pub no_boost :
        (enabled && fl.lt_s t.yield_fraction one_s) ≡ false → t'.effective_tickets ≡ t.tickets

  -- If the floating point numbers are as `IsIeee` says, the tickets are 32 bits wide and the
  -- fraction fits: `task_apply_compensation` changes the effective tickets alone. They are at least
  -- the task's tickets and at most `UINT32_MAX`, and they are the task's tickets if compensation is
  -- off or the task uses its whole slice.
  pub apply_compensation-Compensated :
      IsIeee fl
      → (t : Task) (enabled : Bool) → t.tickets < 2 ^ 32
      → FractionFits t
      → Compensated t (task_apply_compensation t enabled) enabled
  unfolding task_apply_compensation
  apply_compensation-Compensated ieee t enabled small fits =
      elim (Bool-cases (enabled && fl.lt_s t.yield_fraction one_s)) [
        | inl boost ↦
            let ge = compensated-ge ieee t small fits (ground arith) in
            record {
              only_stake = ground arith;
              not_less = ground (arith, ge);
              fits = ground arith;
              no_boost = λ off. cc;
            }
        | inr plain ↦ record {
          only_stake = ground arith;
          not_less = ground arith;
          fits = ground arith;
          no_boost = λ off. ground arith;
        }
      ]
