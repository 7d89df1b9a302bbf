-- ===== src/Threads/Wait.antt =====
-- src/task.c: a worker and its task during one wait of the scheduler thread, move by move.
use mathlib.Core.Path.{subst}
use soa_p1_grupo_cu.Base.{
  ℕ, zero, suc, ◌≡◌, refl, sym, ap, ◌∙◌, Bool, true, false, ltb, if◌then◌else◌, arith,
}
use soa_p1_grupo_cu.Base.Float.{Floats}
use soa_p1_grupo_cu.Task.{is_running, Task}
use soa_p1_grupo_cu.Task.Work.{
  task_do_one_working_unit, run_units, calculate, report, task_do_pi_calc_by_slice_units,
  task_do_pi_calc_by_quantum_units,
}
use soa_p1_grupo_cu.Threads.{
  Worker, at_head, computing, Move, sleep, begin_slice, begin_quantum, single, unit, give_up,
  used_up, all_done, quit,
}

abbrev pub is_computing : Worker → Bool
is_computing (computing k) = true
is_computing _ = false

module _ ⦃fl : Floats⦄ (quantum : ℕ) where
  -- What a wait makes of a task: a RUNNING one has had its worker's round.
  abbrev pub waited : ℕ → Task → Task
  waited W s = if is_running s.state then report W (calculate quantum W s) else s

  -- A task `t` and its worker in a wait that began with the task `s`.
  pub data During (W : ℕ) (s : Task) : Worker → Task → Type 0 where
    untouched : {wk : Worker} {t : Task} → t ≡ s → is_computing wk ≡ false → During W s wk t
    busy :
        {k : ℕ} {t : Task}
        → is_running s.state ≡ true
        → is_running t.state ≡ true
        → run_units k W t ≡ calculate quantum W s
        → During W s (computing k) t
    reported :
        {wk : Worker} {t : Task}
        → is_running s.state ≡ true
        → t ≡ report W (calculate quantum W s)
        → is_computing wk ≡ false
        → During W s wk t

  pub report-idle : (W : ℕ) (t : Task) → is_running (report W t).state ≡ false
  unfolding report
  report-idle W t = ground arith

  reported-idle : (W : ℕ) {t : Task} (u : Task) → t ≡ report W u → is_running t.state ≡ false
  reported-idle W u e = ap (λ z. is_running z.state) e ∙ report-idle _ _

  pub one_unit-state : (t : Task) → (task_do_one_working_unit t).0.state ≡ t.state
  unfolding task_do_one_working_unit
  one_unit-state t = ground arith

  begun :
      {W : ℕ} {s t : Task} (k : ℕ)
      → is_running t.state ≡ true
      → run_units k W t ≡ calculate quantum W t
      → During W s at_head t
      → During W s (computing k) t
  begun k rt e (untouched ts n) =
      busy (subst (λ z. is_running z.state ≡ true) ts rt) rt (e ∙ ap (calculate quantum _) ts)
  begun k rt e (reported rs te n) = absurd (cc (rt, reported-idle _ _ te))

  pub run_units-full : (k W : ℕ) (t : Task) → ltb t.work_units_done W ≡ false → run_units k W t ≡ t
  unfolding run_units
  run_units-full zero W t full = refl
  run_units-full (suc k) W t full = rw full refl

  pub run_units-unit :
      (k W : ℕ) (t : Task)
      → ltb t.work_units_done W ≡ true
      → (task_do_one_working_unit t).1 ≡ true
      → run_units (suc k) W t ≡ run_units k W (task_do_one_working_unit t).0
  unfolding run_units
  run_units-unit k W t l o = rw (l, o) refl

  pub run_units-give_up :
      (k W : ℕ) (t : Task)
      → ltb t.work_units_done W ≡ true
      → (task_do_one_working_unit t).1 ≡ false
      → run_units (suc k) W t ≡ (task_do_one_working_unit t).0
  unfolding run_units
  run_units-give_up k W t l o = rw (l, o) refl

  pub Move-During :
      {W : ℕ} {s t t' : Task} {wk wk' : Worker}
      → Move quantum W wk t wk' t'
      → During W s wk t
      → During W s wk' t'
  unfolding run_units calculate task_do_pi_calc_by_slice_units task_do_pi_calc_by_quantum_units
  Move-During (sleep r) d = d
  Move-During (begin_slice r p) d = begun _ r (rw p refl) d
  Move-During (begin_quantum r p q) d = begun _ r (rw (p, q) refl) d
  Move-During (single r p q) (untouched e n) =
      busy (subst (λ z. is_running z.state ≡ true) e r) (rw (one_unit-state _) r)
        (rw (sym e, p, q) refl)
  Move-During (single r p q) (reported rs e n) = absurd (cc (r, reported-idle _ _ e))
  Move-During (unit l o) (busy rs rt run) =
      busy rs (rw (one_unit-state _) rt) (sym (run_units-unit _ _ _ l o) ∙ run)
  Move-During (unit l o) (untouched e n) = absurd (ground arith)
  Move-During (unit l o) (reported rs e n) = absurd (ground arith)
  Move-During (give_up l o) (busy rs rt run) =
      busy rs (rw (one_unit-state _) rt) (sym (run_units-give_up _ _ _ l o) ∙ run)
  Move-During (give_up l o) (untouched e n) = absurd (ground arith)
  Move-During (give_up l o) (reported rs e n) = absurd (ground arith)
  Move-During used_up (busy rs rt run) = reported rs (ap (report _) run) refl
  Move-During used_up (untouched e n) = absurd (ground arith)
  Move-During used_up (reported rs e n) = absurd (ground arith)
  Move-During (all_done l) (busy rs rt run) =
      reported rs (ap (report _) (sym (run_units-full _ _ _ l) ∙ run)) refl
  Move-During (all_done l) (untouched e n) = absurd (ground arith)
  Move-During (all_done l) (reported rs e n) = absurd (ground arith)
  Move-During (quit f) (untouched e n) = untouched e refl
  Move-During (quit f) (reported rs e n) = reported rs e refl

  -- At the end of a wait a task is what the wait makes of it.
  pub During-waited :
      {W : ℕ} {s t : Task} {wk : Worker}
      → During W s wk t
      → is_running t.state ≡ false
      → t ≡ waited W s
  During-waited {W} (untouched e n) idle = rw (sym (ap (λ z. is_running z.state) e) ∙ idle) e
  During-waited (busy rs rt run) idle = absurd (cc (rt, idle))
  During-waited (reported rs e n) idle = rw rs e

  pub During-idle :
      {W : ℕ} {s t : Task} {wk : Worker}
      → During W s wk t
      → is_running t.state ≡ false
      → is_computing wk ≡ false
  During-idle (untouched e n) idle = n
  During-idle (busy rs rt run) idle = absurd (cc (rt, idle))
  During-idle (reported rs e n) idle = n

  -- A worker between two dispatches, and its task.
  pub record Resting (wk : Worker) (t : Task) : Type 0 where
    pub not_computing : is_computing wk ≡ false
    pub not_running : is_running t.state ≡ false

  pub Move-Resting :
      {W : ℕ} {t t' : Task} {wk wk' : Worker}
      → Move quantum W wk t wk' t'
      → Resting wk t
      → (t' ≡ t) × (is_computing wk' ≡ false)
  Move-Resting (sleep r) z = (refl, refl)
  Move-Resting (quit f) z = (refl, refl)
  Move-Resting (begin_slice r p) z = absurd (cc (r, z.not_running))
  Move-Resting (begin_quantum r p q) z = absurd (cc (r, z.not_running))
  Move-Resting (single r p q) z = absurd (cc (r, z.not_running))
  Move-Resting (unit l o) z = absurd (ground (arith, z.not_computing))
  Move-Resting (give_up l o) z = absurd (ground (arith, z.not_computing))
  Move-Resting used_up z = absurd (ground (arith, z.not_computing))
  Move-Resting (all_done l) z = absurd (ground (arith, z.not_computing))

  pub Resting-kept :
      {W : ℕ} {t t' : Task} {wk wk' : Worker}
      → Move quantum W wk t wk' t'
      → Resting wk t
      → Resting wk' t'
  Resting-kept m z =
      let (same, n) = Move-Resting m z in
      record { not_computing = n; not_running = ap (λ u. is_running u.state) same ∙ z.not_running }

  -- A task that is RUNNING in a wait was so when it began.
  pub During-running :
      {W : ℕ} {s t : Task} {wk : Worker}
      → During W s wk t
      → is_running t.state ≡ true
      → is_running s.state ≡ true
  During-running (untouched e n) r = sym (ap (λ z. is_running z.state) e) ∙ r
  During-running (busy rs rt run) r = rs
  During-running (reported rs e n) r = rs

  -- A worker that computes has a RUNNING task.
  pub During-computing :
      {W : ℕ} {s t : Task} {wk : Worker}
      → During W s wk t
      → is_computing wk ≡ true
      → is_running t.state ≡ true
  During-computing (busy rs rt run) c = rt
  During-computing (untouched e n) c = absurd (cc (c, n))
  During-computing (reported rs e n) c = absurd (cc (c, n))
