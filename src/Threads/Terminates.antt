-- ===== src/Threads/Terminates.antt =====
-- src/scheduler.c and src/task.c: with the waits on the condition variable, the threads end.
use mathlib.Core.Path.{subst}
use mathlib.Core.WellFounded.{Acc}
use soa_p1_grupo_cu.Base.{
  ℕ, zero, suc, ◌+◌, ◌≡◌, ◌≤◌, ◌<◌, arith, refl, sym, ap, ◌∙◌, Bool, true, false, not, some, List,
  All, length, get_elem?, ◌⊎◌, inl, inr, Bool-cases, if◌then◌else◌,
}
use soa_p1_grupo_cu.Base.Float.{Floats, IsIeee}
use soa_p1_grupo_cu.Task.{TaskState, ready, running, finished, is_ready, is_finished, Task, Node}
use soa_p1_grupo_cu.Task.Series.{Converges}
use soa_p1_grupo_cu.Scheduler.{Config, start, scheduler_main_loop}
use soa_p1_grupo_cu.Scheduler.Fuel.{main_loop-agree}
use soa_p1_grupo_cu.Scheduler.Nodes.{Idle, All-get_elem?}
use soa_p1_grupo_cu.Scheduler.Round.{IsNode}
use soa_p1_grupo_cu.Scheduler.Turns.{remaining}
use soa_p1_grupo_cu.Scheduler.Progress.{main_loop_ends}
use soa_p1_grupo_cu.Threads.{
  Worker, Move, sleep, begin_slice, begin_quantum, single, unit, give_up, used_up, all_done, quit,
  changed, is_exited,
}
use soa_p1_grupo_cu.Threads.Machine.{
  Machine, is_awake, Acts, work, wake, log_back, go_on, stop, is_active, Active, Runs, begun, acted,
  turns,
}
use soa_p1_grupo_cu.Threads.Agree.{Runs-Valid, Runs-main_loop}
use soa_p1_grupo_cu.Threads.Bound.{ready-idle}
use soa_p1_grupo_cu.Threads.Load.{Computes, starts-inside, load, load-changed}
use soa_p1_grupo_cu.Threads.Invariant.{modify-same}
use soa_p1_grupo_cu.Threads.Halt.{Valid-Computes, Runs-halts}
use soa_p1_grupo_cu.Threads.Completes.{IsOver, IsOver-or_on}
use soa_p1_grupo_cu.Threads.Condition.{
  Hall, is_up, after_act, Goes, does, worker_waits, scheduler_waits, Visits, opened, went,
}
use soa_p1_grupo_cu.Threads.Awake.{ReadyAt, SomeRunning, Watch, Visits-Watch}

ready-unfinished : (s : TaskState) → is_ready s ≡ true → is_finished s ≡ true → ⊥
ready-unfinished ready r f = cc
ready-unfinished running r f = cc
ready-unfinished finished r f = cc

module _ ⦃fl : Floats⦄ (c : Config) where
  -- The worker of a READY task can only sleep.
  ready-sleeps :
      {W : ℕ} {wk : Worker} {t : Task} {wk' : Worker} {t' : Task}
      (mv : Move c.quantum W wk t wk' t')
      → Computes c.quantum wk t
      → is_ready t.state ≡ true
      → is_awake c.quantum mv ≡ false
  ready-sleeps (sleep r) comp e = refl
  ready-sleeps (begin_slice {t} r p) comp e = absurd (cc (r, ready-idle t.state e))
  ready-sleeps (begin_quantum {t} r p q) comp e = absurd (cc (r, ready-idle t.state e))
  ready-sleeps (single {t} r p q) comp e = absurd (cc (r, ready-idle t.state e))
  ready-sleeps (unit {t = t} l o) comp e = absurd (cc (comp refl, ready-idle t.state e))
  ready-sleeps (give_up {t = t} l o) comp e = absurd (cc (comp refl, ready-idle t.state e))
  ready-sleeps (used_up {t}) comp e = absurd (cc (comp refl, ready-idle t.state e))
  ready-sleeps (all_done {t = t} l) comp e = absurd (cc (comp refl, ready-idle t.state e))
  ready-sleeps (quit {t} f) comp e = absurd (ready-unfinished t.state e f)

  Idle-SomeRunning : (nodes : List Node) → All Idle nodes → SomeRunning c nodes → ⊥
  Idle-SomeRunning nodes idle (i, n, at, run) = cc (All-get_elem? Idle i nodes n at idle, run)

  module _ (rng : ℕ) (ns : List Node) where
    -- The hall's machine is one that the threads reach.
    pub Visits-Runs : {h : Hall} → Visits c rng ns h → Runs c rng ns h.machine
    Visits-Runs opened = begun
    Visits-Runs (went before (does act active up)) = acted (Visits-Runs before) act
    Visits-Runs (went before (worker_waits i at up head r)) = Visits-Runs before
    Visits-Runs (went before (scheduler_waits i here up at run)) = Visits-Runs before

    not_busy : (h : Hall) → (h.scheduler_asleep ≡ true → ⊥) → not h.scheduler_asleep ≡ true
    not_busy h never = elim (Bool-cases h.scheduler_asleep) [
      | inl sleeps ↦ absurd (never sleeps)
      | inr up ↦ rw up refl
    ]

    -- A thread that has a step is not asleep.
    active-up :
        (h : Hall) {m : Machine}
        → Runs c rng ns h.machine
        → Watch c h
        → (act : Acts c h.machine m) → is_active c act ≡ true
        → is_up c h act ≡ true
    active-up h run w (work i {n} at mv) active = elim (Bool-cases (h.asleep i)) [
      | inl sleeps ↦
          let comp =
            Valid-Computes c rng ns (turns c run) h.machine.point h.machine.sched h.machine.workers
              i n (Runs-Valid c rng ns run) at in
          let r : is_ready n.task.state ≡ true = subst (ReadyAt c) at (w.ready i sleeps) in
          absurd (cc (ready-sleeps mv comp r, active))
      | inr up ↦ rw up refl
    ]
    active-up h run w (wake at idle) active =
        not_busy h (λ e. Idle-SomeRunning h.machine.sched.nodes idle (w.busy e).1)
    active-up h run w (log_back at) active = not_busy h (λ e. cc (at, (w.busy e).0))
    active-up h run w (go_on at e') active = not_busy h (λ e. cc (at, (w.busy e).0))
    active-up h run w (stop at e') active = not_busy h (λ e. cc (at, (w.busy e).0))

    module _ (conv : Converges) (ieee : IsIeee fl) (few : length ns ≤ 25)
        (are : All IsNode ns) where
      Visits-moves : {h : Hall} → Visits c rng ns h → IsOver h.machine ⊎ ((h' : Hall) × Goes c h h')
      Visits-moves {h} v =
          let run = Visits-Runs v in
          elim (IsOver-or_on c conv ieee rng ns run are few) [
            | inl over ↦ inl over
            | inr (m', next) ↦
                inr
                  (_, does next.0 next.1 (active-up h run (Visits-Watch c rng ns v) next.0 next.1))
          ]

  -- The threads that are awake.
  abbrev one_up : Bool → Node → ℕ
  one_up asleep n = if asleep then 0 else 1

  abbrev awake : Hall → ℕ
  awake h = load one_up 0 h.machine.sched.nodes h.asleep + (if h.scheduler_asleep then 0 else 1)

  worker_waits-awake :
      (nodes : List Node) (asleep : ℕ → Bool) (i : ℕ) {n : Node}
      → get_elem? nodes i ≡ some n
      → asleep i ≡ false
      → load one_up 0 nodes (changed asleep i true) < load one_up 0 nodes asleep
  worker_waits-awake nodes asleep i {n} at up =
      let here : 0 + i ≡ i = omega arith in
      let less : one_up true n < one_up (asleep i) n = rw up (omega arith) in
      let whole =
        load-changed one_up (λ x. x) 0 i nodes asleep true at
          (subst (λ p. one_up true n < one_up (asleep p) n) (sym here) less) in
      subst (λ p. load one_up 0 nodes (changed asleep p true) < load one_up 0 nodes asleep) here
        (subst (λ xs. load one_up 0 xs (changed asleep (0 + i) true) < load one_up 0 nodes asleep)
          (modify-same (λ x. x) i nodes n at refl) whole)

  abbrev pub Came : Hall → Hall → Type 0
  Came h' h = Goes c h h'

  -- What is left to show of the halls one step on.
  abbrev Lower : Machine → Type 0
  Lower m = (m' : Machine) → Active c m' m → (k : Hall) → k.machine ≡ m' → Acc Came k

  Goes-Acc :
      {h h' : Hall}
      → Lower h.machine
      → ((k : Hall) → k.machine ≡ h.machine → awake k < awake h → Acc Came k)
      → Goes c h h'
      → Acc Came h'
  Goes-Acc {h} lower lighter (does act active up) = lower _ (act, active) (after_act c h act) refl
  Goes-Acc {h} lower lighter (worker_waits i at up head r) =
      lighter _ refl (omega (arith, worker_waits-awake h.machine.sched.nodes h.asleep i at up))
  Goes-Acc lower lighter (scheduler_waits i here up at run) = lighter _ refl (rw up (omega arith))

  awake-Acc :
      (m : Machine) → Lower m → (l : ℕ) (h : Hall) → h.machine ≡ m → awake h ≤ l → Acc Came h
  awake-Acc m lower zero h e le = Acc.intro h (λ h' g.
      Goes-Acc (subst Lower (sym e) lower) (λ k same less. absurd (omega (arith, less, le))) g)
  awake-Acc m lower (suc l) h e le = Acc.intro h (λ h' g.
      Goes-Acc (subst Lower (sym e) lower)
        (λ k same less. awake-Acc m lower l k (same ∙ e) (omega (arith, less, le))) g)

  machine-Acc : {m : Machine} → Acc (Active c) m → (h : Hall) → h.machine ≡ m → Acc Came h
  machine-Acc (Acc.intro m rest) h e =
      awake-Acc m (λ m' next k same. machine-Acc (rest m' next) k same) (awake h) h e (omega arith)

  module _ (rng : ℕ) (ns : List Node) (conv : Converges) (ieee : IsIeee fl) where
    -- If none of the first 2^32 terms of the series overflows and the floating point numbers are as
    -- `IsIeee` says, over at most 25 tasks that satisfy the invariant, with a condition variable
    -- whose waits end only by a broadcast: every chain of steps of the threads is finite, from
    -- whatever they have reached.
    pub Visits-halts : {h : Hall} → Visits c rng ns h → All IsNode ns → length ns ≤ 25 → Acc Came h
    Visits-halts {h} v are few =
        machine-Acc (Runs-halts c rng ns conv ieee are few (Visits-Runs rng ns v)) h refl

    -- If none of the first 2^32 terms of the series overflows and the floating point numbers are as
    -- `IsIeee` says, over at most 25 tasks that satisfy the invariant, with a condition variable
    -- whose waits end only by a broadcast: where no thread has a step any more, the main loop has
    -- ended, every worker has left its loop, and the scheduler's variables, the tasks and the log
    -- are those with which the sequential main loop ends.
    pub Visits-ends :
        {h : Hall}
        → Visits c rng ns h
        → All IsNode ns
        → length ns ≤ 25
        → ((h' : Hall) → Goes c h h' → ⊥)
        → IsOver h.machine
          × (scheduler_main_loop (remaining ns + 1) c rng ns ≡ some h.machine.sched)
    unfolding scheduler_main_loop
    Visits-ends {h} v are few stuck = elim (Visits-moves rng ns conv ieee few are v) [
      | inr (h', g) ↦ absurd (stuck h' g)
      | inl over ↦
          let run = Visits-Runs rng ns v in
          let (r, ends, done) =
            main_loop_ends conv ieee c (remaining ns + 1) rng ns are few (omega arith) in
          let same =
            main_loop-agree c (remaining ns + 1) (turns c run + 1) (start rng ns) r h.machine.sched
              ends (Runs-main_loop c rng ns run over.ended) in
          (over, ends ∙ ap some same)
    ]

  -- When all is over no thread has a step.
  pub over-stuck : (h : Hall) → IsOver h.machine → (h' : Hall) → Goes c h h' → ⊥
  over-stuck h over h' (does (work i {n} at mv) active up) =
      cc (over.left i n at, starts-inside c.quantum mv)
  over-stuck h over h' (does (wake at idle) active up) = cc (over.ended, at)
  over-stuck h over h' (does (log_back at) active up) = cc (over.ended, at)
  over-stuck h over h' (does (go_on at e) active up) = cc (over.ended, at)
  over-stuck h over h' (does (stop at e) active up) = cc (over.ended, at)
  over-stuck h over h' (worker_waits i {n} at up head r) = cc (over.left i n at, ap is_exited head)
  over-stuck h over h' (scheduler_waits i here up at run) = cc (over.ended, here)
