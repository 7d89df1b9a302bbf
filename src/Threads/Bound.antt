-- ===== src/Threads/Bound.antt =====
-- src/task.c: how many moves a worker can make while its task is RUNNING, and that it is never
-- stuck.
use soa_p1_grupo_cu.Base.{
  ℕ, zero, suc, ◌+◌, ◌≡◌, ◌≤◌, ◌<◌, refl, sym, ap, ◌∙◌, true, false, ltb, arith, Bool-cases, inl,
  inr,
}
use soa_p1_grupo_cu.Base.Float.{Floats}
use soa_p1_grupo_cu.Task.{
  TaskState, ready, running, finished, is_ready, is_running, is_finished, Task,
}
use soa_p1_grupo_cu.Task.Work.{task_do_one_working_unit}
use soa_p1_grupo_cu.Task.Dispatch.{allotment}
use soa_p1_grupo_cu.Threads.{
  Worker, at_head, computing, exited, Move, sleep, begin_slice, begin_quantum, single, unit,
  give_up, used_up, all_done, quit, is_exited,
}
use soa_p1_grupo_cu.Threads.Wait.{report-idle, one_unit-state}
use soa_p1_grupo_cu.Threads.Report.{Moves, none_left, one_more}

-- Sleeping and leaving are for tasks that are not RUNNING.
pub ready-idle : (s : TaskState) → is_ready s ≡ true → is_running s ≡ false
ready-idle ready r = refl
ready-idle running r = absurd (cc)
ready-idle finished r = refl

pub finished-idle : (s : TaskState) → is_finished s ≡ true → is_running s ≡ false
finished-idle ready f = refl
finished-idle running f = absurd (cc)
finished-idle finished f = refl

module _ ⦃fl : Floats⦄ (quantum W : ℕ) where
  -- A bound on the moves of a worker up to its report.
  abbrev pub moves_left : Worker → Task → ℕ
  moves_left at_head t = allotment quantum t + 2
  moves_left (computing k) t = suc k
  moves_left exited t = 0

  -- A move that leaves the task RUNNING finds it so, and takes from the bound.
  pub Move-left :
      {wk : Worker} {t : Task} {wk' : Worker} {t' : Task}
      → Move quantum W wk t wk' t'
      → is_running t'.state ≡ true
      → (is_running t.state ≡ true) × (suc (moves_left wk' t') ≤ moves_left wk t)
  Move-left (sleep {t} r) run = absurd (cc (run, ready-idle t.state r))
  Move-left (begin_slice r p) run = (r, rw p (omega arith))
  Move-left (begin_quantum r p q) run = (r, rw (p, q) (omega arith))
  Move-left (single {t} r p q) run = (r, omega arith)
  Move-left (unit {k} {t} l o) run =
      (sym (ap is_running (one_unit-state quantum t)) ∙ run, omega arith)
  Move-left (give_up {k} {t} l o) run =
      (sym (ap is_running (one_unit-state quantum t)) ∙ run, omega arith)
  Move-left (used_up {t}) run = absurd (cc (run, report-idle quantum W t))
  Move-left (all_done {k} {t} l) run = absurd (cc (run, report-idle quantum W t))
  Move-left (quit {t} f) run = absurd (cc (run, finished-idle t.state f))

  Moves-left :
      {n : ℕ} {wk wk' : Worker} {t t' : Task}
      → Moves quantum W n wk t wk' t'
      → is_running t'.state ≡ true
      → (is_running t.state ≡ true) × (n + moves_left wk' t' ≤ moves_left wk t)
  Moves-left none_left run = (run, omega arith)
  Moves-left (one_more m ms) run =
      let (between, rest) = Moves-left ms run in
      let (before, first) = Move-left m between in (before, omega (arith, rest, first))

  -- A move from here.
  pub record MovesOn (wk : Worker) (t : Task) : Type 0 where
    pub next_worker : Worker
    pub next_task : Task
    pub move : Move quantum W wk t next_worker next_task

  head-MovesOn : (t : Task) → is_running t.state ≡ true → MovesOn at_head t
  head-MovesOn t run = elim (Bool-cases (ltb 0 t.slice_size)) [
    | inl sliced ↦ record { next_worker = _; next_task = _; move = begin_slice run sliced }
    | inr unsliced ↦ elim (Bool-cases (ltb 0 quantum)) [
      | inl timed ↦ record {
        next_worker = _;
        next_task = _;
        move = begin_quantum run unsliced timed;
      }
      | inr untimed ↦ record { next_worker = _; next_task = _; move = single run unsliced untimed }
    ]
  ]

  computing-MovesOn : (k : ℕ) (t : Task) → MovesOn (computing k) t
  computing-MovesOn zero t = record { next_worker = _; next_task = _; move = used_up }
  computing-MovesOn (suc k) t = elim (Bool-cases (ltb t.work_units_done W)) [
    | inr full ↦ record { next_worker = _; next_task = _; move = all_done full }
    | inl more ↦ elim (Bool-cases (task_do_one_working_unit t).1) [
      | inl done ↦ record { next_worker = _; next_task = _; move = unit more done }
      | inr overflow ↦ record { next_worker = _; next_task = _; move = give_up more overflow }
    ]
  ]

  pub any-MovesOn :
      (wk : Worker) (t : Task) → is_running t.state ≡ true → is_exited wk ≡ false → MovesOn wk t
  any-MovesOn at_head t run stays = head-MovesOn t run
  any-MovesOn (computing k) t run stays = computing-MovesOn k t
  any-MovesOn exited t run stays = absurd (cc)

  -- No move of a worker leaves its loop while the task is RUNNING.
  stays-Move :
      {wk : Worker} {t : Task} {wk' : Worker} {t' : Task}
      → Move quantum W wk t wk' t'
      → is_running t'.state ≡ true
      → is_exited wk' ≡ false
  stays-Move (sleep r) run = refl
  stays-Move (begin_slice r p) run = refl
  stays-Move (begin_quantum r p q) run = refl
  stays-Move (single r p q) run = refl
  stays-Move (unit l o) run = refl
  stays-Move (give_up l o) run = refl
  stays-Move used_up run = refl
  stays-Move (all_done l) run = refl
  stays-Move (quit {t} f) run = absurd (cc (run, finished-idle t.state f))

  stays-Moves :
      {n : ℕ} {wk wk' : Worker} {t t' : Task}
      → Moves quantum W n wk t wk' t'
      → is_running t'.state ≡ true
      → is_exited wk ≡ false
      → is_exited wk' ≡ false
  stays-Moves none_left run stays = stays
  stays-Moves (one_more m ms) run stays = stays-Moves ms run (stays-Move m (Moves-left ms run).0)

  pub left_pos : (wk : Worker) (t : Task) → is_exited wk ≡ false → 0 < moves_left wk t
  left_pos at_head t stays = omega arith
  left_pos (computing k) t stays = omega arith
  left_pos exited t stays = absurd (cc)

  -- However the worker of a RUNNING task moves from the head of its loop: as long as the task is
  -- RUNNING, it has made at most one move more than its allotment, and it has a further move. So it
  -- is never stuck, and it reports after at most two moves more than the allotment.
  pub running-bound :
      {n : ℕ} {wk : Worker} {t t' : Task}
      → Moves quantum W n at_head t wk t'
      → is_running t'.state ≡ true
      → (n < allotment quantum t + 2) × MovesOn wk t'
  running-bound {n} {wk} {t} {t'} ms run =
      let stays = stays-Moves ms run refl in
      (omega (arith, (Moves-left ms run).1, left_pos wk t' stays), any-MovesOn wk t' run stays)
