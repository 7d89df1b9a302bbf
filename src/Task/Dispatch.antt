-- ===== src/Task/Dispatch.antt =====
-- A worker's round: how far a dispatch takes a task, and in which state it leaves it.
use Prim.Native.Nat.{min}
use soa_p1_grupo_cu.Base.{
  ℕ, ◌+◌, ◌^◌, ◌≤◌, ◌<◌, ◌≡◌, ◌↔◌, refl, ap, arith, if◌then◌else◌, ltb, Bool-cases, inl, inr,
}
use soa_p1_grupo_cu.Base.Float.{Floats}
use soa_p1_grupo_cu.Task.{ready, finished, Task, Node}
use soa_p1_grupo_cu.Task.Work.{
  task_compute_early_limit, task_do_pi_calc_by_slice_units, task_do_pi_calc_by_quantum_units,
  calculate, report, task_do_work_unit,
}
use soa_p1_grupo_cu.Task.Series.{series, Converges, advanced, one_unit, run_units-advanced}

module _ ⦃fl : Floats⦄ where
  pub early_limit_pos : (units : ℕ) (y : fl.Single) → 0 < task_compute_early_limit units y
  unfolding task_compute_early_limit
  early_limit_pos units y = ground arith

  -- The units that a dispatch may run: the slice of the task if it has one, else the quantum, each
  -- cut by the fraction; a single unit if there is neither.
  abbrev pub allotment : ℕ → Task → ℕ
  allotment quantum t =
      if ltb 0 t.slice_size
      then task_compute_early_limit t.slice_size t.yield_fraction
      else if ltb 0 quantum
      then task_compute_early_limit quantum t.yield_fraction
      else 1

  pub allotment_pos : (quantum : ℕ) (t : Task) → 0 < allotment quantum t
  allotment_pos quantum t = ground (
    arith,
    early_limit_pos t.slice_size t.yield_fraction,
    early_limit_pos quantum t.yield_fraction,
  )

  -- The units done after a dispatch.
  abbrev pub reached : ℕ → ℕ → Task → ℕ
  reached quantum W t = min (t.work_units_done + allotment quantum t) W

  calculate-advanced :
      Converges
      → (quantum W : ℕ) (t : Task) → t.pi ≡ series t.work_units_done
      → t.work_units_done < W
      → W < 2 ^ 32
      → calculate quantum W t ≡ advanced (reached quantum W t) t
  unfolding calculate task_do_pi_calc_by_slice_units task_do_pi_calc_by_quantum_units
  calculate-advanced conv quantum W t step more small = elim (Bool-cases (ltb 0 t.slice_size)) [
    | inl sliced ↦ rw (sliced) (run_units-advanced conv _ W t step (omega arith) small)
    | inr unsliced ↦ rw unsliced (elim (Bool-cases (ltb 0 quantum)) [
      | inl timed ↦ rw timed (run_units-advanced conv _ W t step (omega arith) small)
      | inr untimed ↦
          rw (untimed, one_unit conv t step (omega arith)) (ap (λ n. advanced n t) (omega arith))
    ])
  ]

  -- A round of the worker of node `n`, from its task `t` to `t'`.
  pub record Round (quantum : ℕ) (n : Node) (t' : Task) : Type 0 where
    pub progress : n.task.work_units_done < t'.work_units_done
    pub done : t'.work_units_done ≡ reached quantum n.work_units n.task
    pub in_step : t'.pi ≡ series t'.work_units_done
    pub ended : (t'.state ≡ finished) ↔ (t'.work_units_done ≡ n.work_units)
    pub yielded : (t'.state ≡ ready) ↔ (t'.work_units_done < n.work_units)
    pub rest :
        t' ≡ record n.task { work_units_done = t'.work_units_done; pi = t'.pi; state = t'.state }

  report-Round :
      (quantum : ℕ) (n : Node) (d : ℕ)
      → n.task.work_units_done < d
      → d ≤ n.work_units
      → d ≡ reached quantum n.work_units n.task
      → Round quantum n (report n.work_units (advanced d n.task))
  unfolding report
  report-Round quantum n d more le e = ground arith

  -- If none of the first 2^32 terms of the series overflows: in a round of its worker a task with
  -- work left, below 2^32 units in all and its sum in step with its units, does at least one unit,
  -- and as many as its allotment gives it and its work needs; its sum is then that of the series at
  -- its number of units; it is FINISHED exactly if its work is done, and READY exactly if some is
  -- left; nothing else of it changes.
  pub do_work_unit-Round :
      Converges
      → (quantum : ℕ) (n : Node) → n.task.pi ≡ series n.task.work_units_done
      → n.task.work_units_done < n.work_units
      → n.work_units < 2 ^ 32
      → Round quantum n (task_do_work_unit quantum n).task
  unfolding task_do_work_unit
  do_work_unit-Round conv quantum n step more small =
      rw (calculate-advanced conv quantum n.work_units n.task step more small) (
        report-Round quantum n (reached quantum n.work_units n.task)
          (omega (arith, allotment_pos quantum n.task)) (omega arith) refl)
