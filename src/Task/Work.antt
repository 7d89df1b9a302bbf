-- ===== src/Task/Work.antt =====
-- src/task.c: the work of a dispatch, from one term of the series to the worker's whole round.
use soa_p1_grupo_cu.Base.{
  ℕ, zero, suc, ◌+◌, Bool, true, false, ◌||◌, not, if◌then◌else◌, ltb, leb, u32, u64,
}
use soa_p1_grupo_cu.Base.Float.{Floats}
use soa_p1_grupo_cu.Task.{TaskState, PiState, Task, Node}

module _ ⦃fl : Floats⦄ where
  abbrev pub twice : ℕ → fl.Double
  twice j = fl.mul_d (fl.double 2) (fl.double j)

  abbrev pub one_d : fl.Double
  one_d = fl.double 1

  -- ((2j - 1)(2j - 1)) / (2j (2j + 1))
  abbrev pub ratio : ℕ → fl.Double
  ratio j =
      fl.div_d (fl.mul_d (fl.sub_d (twice j) one_d) (fl.sub_d (twice j) one_d))
        (fl.mul_d (twice j) (fl.add_d (twice j) one_d))

  -- `pi.j++` and the new `pi.term`
  unfoldable pub next_term : PiState → PiState
  next_term p = let j = u64 (p.j + 1) in record p { term = fl.mul_d p.term (ratio j); j = j }

  abbrev pub overflows : PiState → Bool
  overflows p = not (fl.is_finite_d p.term) || not (fl.is_finite_d p.sum)

  -- `pi.sum += 2.0 * pi.term`
  unfoldable pub add_term : PiState → PiState
  add_term p = record p { sum = fl.add_d p.sum (fl.mul_d (fl.double 2) p.term) }

  unfoldable pub task_do_one_working_unit : Task → Task × Bool
  task_do_one_working_unit t =
      let p = next_term t.pi in
      if overflows p
      then (record t { pi = p }, false)
      else (record t { pi = add_term p; work_units_done = u32 (t.work_units_done + 1) }, true)

  unfoldable pub task_compute_early_limit : ℕ → fl.Single → ℕ
  task_compute_early_limit units_per_dispatch yield_fraction =
      let early_limit =
        fl.single_to_u32 (fl.ceilf (fl.mul_s (fl.single units_per_dispatch) yield_fraction)) in
      if leb 1 early_limit then early_limit else 1

  -- The `while` of both functions below, with `early_limit - units_run` rounds left.
  unfoldable pub run_units : ℕ → ℕ → Task → Task
  run_units zero work_units t = t
  run_units (suc left) work_units t =
      let (t', ok) = task_do_one_working_unit t in
      let rest = run_units left work_units t' in
      if ltb t.work_units_done work_units then (if ok then rest else t') else t

  unfoldable pub task_do_pi_calc_by_slice_units : ℕ → Task → Task
  task_do_pi_calc_by_slice_units work_units t =
      run_units (task_compute_early_limit t.slice_size t.yield_fraction) work_units t

  unfoldable pub task_do_pi_calc_by_quantum_units : ℕ → Task → ℕ → Task
  task_do_pi_calc_by_quantum_units work_units t quantum =
      run_units (task_compute_early_limit quantum t.yield_fraction) work_units t

  -- What a worker computes between its two critical sections.
  unfoldable pub calculate : ℕ → ℕ → Task → Task
  calculate quantum work_units t =
      if ltb 0 t.slice_size
      then task_do_pi_calc_by_slice_units work_units t
      else if ltb 0 quantum
      then task_do_pi_calc_by_quantum_units work_units t quantum
      else (task_do_one_working_unit t).0

  -- The worker's second critical section.
  unfoldable pub report : ℕ → Task → Task
  report work_units t =
      if leb work_units t.work_units_done
      then record t { state = TaskState.finished }
      else record t { state = TaskState.ready }

  -- One round of `task_do_work_unit` for a task that has been dispatched.
  unfoldable pub task_do_work_unit : ℕ → Node → Node
  task_do_work_unit quantum n = record n {
    task = report n.work_units (calculate quantum n.work_units n.task);
  }
