-- ===== src/Threads/Report.antt =====
-- src/task.c: the moves of one worker from its dispatch to its report.
use mathlib.Core.Path.{subst}
use soa_p1_grupo_cu.Base.{ℕ, zero, suc, ◌+◌, ◌≡◌, ◌≤◌, sym, true, ltb, arith, Bool-cases, inl, inr}
use soa_p1_grupo_cu.Base.Float.{Floats}
use soa_p1_grupo_cu.Task.{is_running, Task}
use soa_p1_grupo_cu.Task.Work.{
  task_do_one_working_unit, run_units, calculate, report, task_do_pi_calc_by_slice_units,
  task_do_pi_calc_by_quantum_units,
}
use soa_p1_grupo_cu.Task.Dispatch.{allotment}
use soa_p1_grupo_cu.Threads.{
  Worker, at_head, computing, Move, begin_slice, begin_quantum, single, unit, give_up, used_up,
  all_done,
}
use soa_p1_grupo_cu.Threads.Wait.{run_units-full, run_units-unit, run_units-give_up}

module _ ⦃fl : Floats⦄ (quantum W : ℕ) where
  -- So many moves of the worker, one after another.
  pub data Moves : ℕ → Worker → Task → Worker → Task → Type 0 where
    none_left : {wk : Worker} {t : Task} → Moves 0 wk t wk t
    one_more :
        {n : ℕ} {wk wk' wk'' : Worker} {t t' t'' : Task}
        → Move quantum W wk t wk' t'
        → Moves n wk' t' wk'' t''
        → Moves (suc n) wk t wk'' t''

  -- The worker reports `r` within `limit` moves.
  pub record Reports (limit : ℕ) (wk : Worker) (t r : Task) : Type 0 where
    pub count : ℕ
    pub moves : Moves count wk t at_head r
    pub bounded : count ≤ limit

  onward :
      {limit : ℕ} {wk wk' : Worker} {t t' r : Task}
      → Move quantum W wk t wk' t'
      → Reports limit wk' t' r
      → Reports (suc limit) wk t r
  onward m p = record {
    count = suc p.count;
    moves = one_more m p.moves;
    bounded = omega (arith, p.bounded);
  }

  at_once :
      {wk : Worker} {t r : Task} (limit : ℕ)
      → Move quantum W wk t at_head r
      → Reports (suc limit) wk t r
  at_once limit m = record { count = 1; moves = one_more m none_left; bounded = omega arith }

  within : {a b : ℕ} {wk : Worker} {t r : Task} → a ≤ b → Reports a wk t r → Reports b wk t r
  within le p = record { count = p.count; moves = p.moves; bounded = omega (arith, p.bounded) }

  computing-Reports :
      (k : ℕ) (t : Task) → Reports (suc k) (computing k) t (report W (run_units k W t))
  unfolding run_units
  computing-Reports zero t = at_once 0 used_up
  computing-Reports (suc k) t = elim (Bool-cases (ltb t.work_units_done W)) [
    | inr full ↦
        subst (λ z. Reports (suc (suc k)) (computing (suc k)) t (report W z))
          (sym (run_units-full quantum (suc k) W t full)) (at_once (suc k) (all_done full))
    | inl more ↦ elim (Bool-cases (task_do_one_working_unit t).1) [
      | inl done ↦
          subst (λ z. Reports (suc (suc k)) (computing (suc k)) t (report W z))
            (sym (run_units-unit quantum k W t more done))
            (onward (unit more done) (computing-Reports k (task_do_one_working_unit t).0))
      | inr overflow ↦
          subst (λ z. Reports (suc (suc k)) (computing (suc k)) t (report W z))
            (sym (run_units-give_up quantum k W t more overflow))
            (onward (give_up more overflow) (at_once k used_up))
    ]
  ]

  -- If a task is RUNNING and its worker about to lock the mutex, the worker has
  -- moves of its own, at most two more than the allotment of the task, that end with the report of
  -- what the sequential `calculate` computes.
  pub running-Reports :
      (t : Task)
      → is_running t.state ≡ true
      → Reports (allotment quantum t + 2) at_head t (report W (calculate quantum W t))
  unfolding calculate task_do_pi_calc_by_slice_units task_do_pi_calc_by_quantum_units
  running-Reports t run = elim (Bool-cases (ltb 0 t.slice_size)) [
    | inl sliced ↦
        rw sliced (within (omega arith) (onward (begin_slice run sliced) (computing-Reports _ t)))
    | inr unsliced ↦ rw unsliced (elim (Bool-cases (ltb 0 quantum)) [
      | inl timed ↦
          rw timed (
            within (omega arith)
              (onward (begin_quantum run unsliced timed) (computing-Reports _ t)))
      | inr untimed ↦
          rw untimed
            (within (omega arith) (onward (single run unsliced untimed) (at_once 0 used_up)))
    ])
  ]
