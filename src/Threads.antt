-- ===== src/Threads.antt =====
-- src/task.c and src/scheduler.c: the worker threads and the scheduler thread, interleaved. A step
-- is one critical section of the global mutex, or one work unit, which a worker computes without
-- it. POSIX lets a wait on the condition variable end at any time, so a waiting thread may always
-- test its condition again. The number of workers is left open: a worker whose task is never sent
-- to RUNNING only sleeps.
pub mod Wait
pub mod Places
pub mod Exclusion
pub mod Report
pub mod Bound
pub mod Stuck
pub mod Machine
pub mod Invariant
pub mod Follow
pub mod Control
pub mod Agree
pub mod Live
pub mod Ends
pub mod Load
pub mod Halt
pub mod Completes
pub mod Condition
pub mod Quiet
pub mod Awake
pub mod Terminates
use soa_p1_grupo_cu.Base.{
  ℕ, zero, suc, ◌+◌, ◌≤◌, ◌<◌, ◌≡◌, ◌⊎◌, Bool, true, false, Option, none, some, ltb, if◌then◌else◌,
  ◌==◌,
}
use soa_p1_grupo_cu.Base.Float.{Floats}
use soa_p1_grupo_cu.Task.{
  is_ready, is_running, is_finished, Task, shut_down, task_transition_to_running,
  task_apply_compensation,
}
use soa_p1_grupo_cu.Task.Work.{task_compute_early_limit, task_do_one_working_unit, report}

-- Where a worker stands in `task_do_work_unit`.
pub data Worker : Type 0 where
  at_head : Worker  -- before the lock, or waiting
  computing : (left : ℕ) → Worker  -- between the critical sections, with `left` rounds to go
  exited : Worker

-- The worker has left its loop.
abbrev pub is_exited : Worker → Bool
is_exited exited = true
is_exited _ = false

abbrev pub changed : {A : Type 0} (f : ℕ → A) (place : ℕ) (a : A) (k : ℕ) → A
changed f place a k = if place == k then a else f k

module _ ⦃fl : Floats⦄ where
  module _ (quantum work_units : ℕ) where
    -- A step of the worker of a task.
    pub data Move : Worker → Task → Worker → Task → Type 0 where
      sleep : {t : Task} → is_ready t.state ≡ true → Move at_head t at_head t
      begin_slice :
          {t : Task}
          → is_running t.state ≡ true
          → ltb 0 t.slice_size ≡ true
          → Move at_head t (computing (task_compute_early_limit t.slice_size t.yield_fraction)) t
      begin_quantum :
          {t : Task}
          → is_running t.state ≡ true
          → ltb 0 t.slice_size ≡ false
          → ltb 0 quantum ≡ true
          → Move at_head t (computing (task_compute_early_limit quantum t.yield_fraction)) t
      single :
          {t : Task}
          → is_running t.state ≡ true
          → ltb 0 t.slice_size ≡ false
          → ltb 0 quantum ≡ false
          → Move at_head t (computing 0) (task_do_one_working_unit t).0
      unit :
          {k : ℕ} {t : Task}
          → ltb t.work_units_done work_units ≡ true
          → (task_do_one_working_unit t).1 ≡ true
          → Move (computing (suc k)) t (computing k) (task_do_one_working_unit t).0
      give_up :
          {k : ℕ} {t : Task}
          → ltb t.work_units_done work_units ≡ true
          → (task_do_one_working_unit t).1 ≡ false
          → Move (computing (suc k)) t (computing 0) (task_do_one_working_unit t).0
      used_up : {t : Task} → Move (computing 0) t at_head (report work_units t)
      all_done :
          {k : ℕ} {t : Task}
          → ltb t.work_units_done work_units ≡ false
          → Move (computing k) t at_head (report work_units t)
      quit : {t : Task} → is_finished t.state ≡ true → Move at_head t exited t

  -- Where the scheduler stands in its main loop. A wait remembers the tasks as they were when it
  -- began, for the statements below; the program does not.
  pub data Phase : Type 0 where
    waiting : (since : ℕ → Task) → Phase
    resumed : (since : ℕ → Task) → Phase  -- the wait is over
    deciding : Phase  -- past the compensation
    ended : Phase

  pub record World : Type 0 where
    pub tasks : ℕ → Task
    pub workers : ℕ → Worker
    pub scheduler : Phase

  abbrev pub compensate : Bool → Option ℕ → (ℕ → Task) → ℕ → Task
  compensate enabled none ts = ts
  compensate enabled (some i) ts = changed ts i (task_apply_compensation (ts i) enabled)

  abbrev pub sent : World → ℕ → ℕ → Task
  sent w g i = (task_transition_to_running (w.tasks i) g).0

  module _ (quantum : ℕ) (units : ℕ → ℕ) where
    -- `units j` are the work units in the node of task `j`.
    pub data Step (w : World) : World → Type 0 where
      worker :
          (j : ℕ) {wk : Worker} {t : Task}
          → Move quantum (units j) (w.workers j) (w.tasks j) wk t
          → Step w (record w { tasks = changed w.tasks j t; workers = changed w.workers j wk })
      -- `task_wait_until_no_running` finds no RUNNING task.
      pass :
          {since : ℕ → Task}
          → w.scheduler ≡ waiting since
          → ((j : ℕ) → is_running (w.tasks j).state ≡ false)
          → Step w (record w { scheduler = resumed since })
      -- The block under `has_pending_after_log`, if there is a pending dispatch.
      settle :
          {since : ℕ → Task} (enabled : Bool) (pending : Option ℕ)
          → w.scheduler ≡ resumed since
          → Step w (record w { tasks = compensate enabled pending w.tasks; scheduler = deciding })
      -- `task_transition_to_running` of the winner.
      send :
          (g i : ℕ)
          → w.scheduler ≡ deciding
          → is_ready (w.tasks i).state ≡ true
          → Step w (record w {
            tasks = changed w.tasks i (sent w g i);
            scheduler = waiting (changed w.tasks i (sent w g i));
          })
      -- `continue`, with no ticket at stake.
      retry : w.scheduler ≡ deciding → Step w (record w { scheduler = waiting w.tasks })
      -- `task_shutdown_all`.
      shutdown :
          w.scheduler ≡ deciding
          → Step w (record w { tasks = λ j. shut_down (w.tasks j); scheduler = ended })
      leave : w.scheduler ≡ deciding → Step w (record w { scheduler = ended })

    abbrev pub begin : (ℕ → Task) → World
    begin ts = record { tasks = ts; workers = λ j. at_head; scheduler = waiting ts }

    -- The worlds that can be reached from the start of the main loop over the tasks `ts`.
    pub data Reach (ts : ℕ → Task) : World → Type 0 where
      at_start : Reach ts (begin ts)
      after : {v w : World} (r : Reach ts v) (last : Step v w) → Reach ts w
