-- ===== src/Threads/Live.antt =====
-- src/scheduler.c and src/task.c: the threads are never stuck before the main loop ends, and the loop
-- makes a bounded number of turns.
use mathlib.Core.Path.{subst}
use soa_p1_grupo_cu.Base.{
  ℕ, suc, ◌≡◌, ◌≢◌, arith, refl, sym, ap, ◌∙◌, true, none, some, Option, Option-cases, List, [],
  ◌∷◌, All, get_elem?, inl, inr, ◌⊎◌, Bool-cases,
}
use soa_p1_grupo_cu.Base.Float.{Floats}
use soa_p1_grupo_cu.Task.{is_running, is_finished, Task, Node, task_transition_to_running}
use soa_p1_grupo_cu.Scheduler.{Config, Sched, Turn, again, leave, settle, decide}
use soa_p1_grupo_cu.Scheduler.Nodes.{Idle}
use soa_p1_grupo_cu.Threads.{
  Worker, is_exited, Move, sleep, begin_slice, begin_quantum, single, unit, give_up, used_up,
  all_done, quit,
}
use soa_p1_grupo_cu.Threads.Bound.{any-MovesOn, finished-idle, ready-idle}
use soa_p1_grupo_cu.Threads.Stuck.{Move-Left, shut_down-finished, compensation-state}
use soa_p1_grupo_cu.Threads.Machine.{
  Point, in_wait, after_wait, choosing, stopped, Machine, Acts, work, wake, log_back, go_on, stop,
  is_awake, Active, Runs, begun, acted,
}
use soa_p1_grupo_cu.Threads.Follow.{everywhere}
use soa_p1_grupo_cu.Threads.Control.{
  Keeps, modify-Keeps, settle-Keeps, shutdown-Keeps, Sent, decide-Sent,
}

module _ ⦃fl : Floats⦄ (c : Config) where
  -- A worker has left its loop only if its task is FINISHED.
  abbrev LeftAt : Option Node → Worker → Type 0
  LeftAt none wk = Unit
  LeftAt (some n) wk = is_exited wk ≡ true → is_finished n.task.state ≡ true

  abbrev AllLeft : List Node → (ℕ → Worker) → Type 0
  AllLeft nodes wks = (i : ℕ) → LeftAt (get_elem? nodes i) (wks i)

  abbrev IsDone : Task → Type 0
  IsDone t = is_finished t.state ≡ true

  Keeps-AllLeft :
      (nodes nodes' : List Node) (wks : ℕ → Worker)
      → Keeps c IsDone nodes nodes'
      → AllLeft nodes wks
      → AllLeft nodes' wks
  Keeps-AllLeft nodes nodes' wks kept left i = elim (Option-cases (get_elem? nodes' i)) [
    | inl out ↦ subst (λ o. LeftAt o (wks i)) (sym out) tt
    | inr (n', at') ↦
        let (n, at, done) = kept i n' at' in
        subst (λ o. LeftAt o (wks i)) (sym at')
          (λ e. done (subst (λ o. LeftAt o (wks i)) at (left i) e))
  ]

  running-IsDone : (g : ℕ) (t : Task) → IsDone t → IsDone (task_transition_to_running t g).0
  unfolding task_transition_to_running
  running-IsDone g t done = ground (arith, done)

  same-Keeps : (nodes nodes' : List Node) → nodes' ≡ nodes → Keeps c IsDone nodes nodes'
  same-Keeps nodes nodes' same i n' at = (n', ap (λ x. get_elem? x i) (sym same) ∙ at, λ done. done)

  Sent-again-Keeps :
      (nodes : List Node) (s' : Sched) → Sent c nodes (again s') → Keeps c IsDone nodes s'.nodes
  Sent-again-Keeps nodes s' (inl same) = same-Keeps nodes s'.nodes same
  Sent-again-Keeps nodes s' (inr (g, w, same)) =
      subst (Keeps c IsDone nodes) (sym same)
        (modify-Keeps c IsDone (λ t. (task_transition_to_running t g).0) w nodes (running-IsDone g))

  Sent-leave-Keeps :
      (nodes : List Node) (s' : Sched) → Sent c nodes (leave s') → Keeps c IsDone nodes s'.nodes
  Sent-leave-Keeps nodes s' (inl shut) =
      subst (Keeps c IsDone nodes) (sym shut)
        (shutdown-Keeps c IsDone nodes (shut_down-finished c.quantum (λ k. 0)))
  Sent-leave-Keeps nodes s' (inr same) = same-Keeps nodes s'.nodes same

  Acts-AllLeft :
      {m m' : Machine}
      → Acts c m m'
      → AllLeft m.sched.nodes m.workers
      → AllLeft m'.sched.nodes m'.workers
  Acts-AllLeft {m} (work i {n} {wk} {t} at mv) left =
      everywhere c 0 [] 0 (λ j o wk. LeftAt o wk) m.sched.nodes m.workers i at
        (Move-Left c.quantum (λ k. 0) mv) left
  Acts-AllLeft (wake at idle) left = left
  Acts-AllLeft {m} (log_back at) left =
      Keeps-AllLeft m.sched.nodes (settle c m.sched).nodes m.workers
        (settle-Keeps c IsDone m.sched (λ t done.
          ap is_finished (compensation-state c.quantum (λ k. 0) c.compensation t) ∙ done))
        left
  Acts-AllLeft {m} (go_on {s = s'} at e) left =
      Keeps-AllLeft m.sched.nodes s'.nodes m.workers
        (Sent-again-Keeps m.sched.nodes s' (subst (Sent c m.sched.nodes) e (decide-Sent c m.sched)))
        left
  Acts-AllLeft {m} (stop {s = s'} at e) left =
      Keeps-AllLeft m.sched.nodes s'.nodes m.workers
        (Sent-leave-Keeps m.sched.nodes s' (subst (Sent c m.sched.nodes) e (decide-Sent c m.sched)))
        left

  module _ (rng : ℕ) (ns : List Node) where
    begun-Left : (o : Option Node) → LeftAt o Worker.at_head
    begun-Left none = tt
    begun-Left (some n) = λ e. absurd (cc)

    Runs-AllLeft : {m : Machine} → Runs c rng ns m → AllLeft m.sched.nodes m.workers
    Runs-AllLeft begun = λ i. begun-Left (get_elem? ns i)
    Runs-AllLeft (acted before last) = Acts-AllLeft last (Runs-AllLeft before)

    -- A list in which no task runs, or the place of one that does.
    abbrev Busy : List Node → Type 0
    Busy nodes =
        All Idle nodes
        ⊎ ((i : ℕ) × (n : Node) × (get_elem? nodes i ≡ some n) × (is_running n.task.state ≡ true))

    find-running : (nodes : List Node) → Busy nodes
    find-running [] = inl tt
    find-running (n ∷ nodes) = elim (Bool-cases (is_running n.task.state)) [
      | inl run ↦ inr (0, n, refl, run)
      | inr idle ↦ elim (find-running nodes) [
        | inl all ↦ inl (idle, all)
        | inr (i, m, at, run) ↦ inr (suc i, m, at, run)
      ]
    ]

    running-awake :
        {W : ℕ} {wk : Worker} {t : Task} {wk' : Worker} {t' : Task}
        (mv : Move c.quantum W wk t wk' t')
        → is_running t.state ≡ true
        → is_awake c.quantum mv ≡ true
    running-awake (sleep {t} r) run = absurd (cc (run, ready-idle t.state r))
    running-awake (begin_slice r p) run = refl
    running-awake (begin_quantum r p q) run = refl
    running-awake (single r p q) run = refl
    running-awake (unit l o) run = refl
    running-awake (give_up l o) run = refl
    running-awake used_up run = refl
    running-awake (all_done l) run = refl
    running-awake (quit f) run = refl

    abbrev GoesOn : Machine → Type 0
    GoesOn m = (m' : Machine) × Active c m' m

    worker-GoesOn :
        (m : Machine) (i : ℕ) (n : Node)
        → AllLeft m.sched.nodes m.workers
        → get_elem? m.sched.nodes i ≡ some n
        → is_running n.task.state ≡ true
        → GoesOn m
    worker-GoesOn m i n left at run =
        let here = subst (λ o. LeftAt o (m.workers i)) at (left i) in
        let on =
          any-MovesOn c.quantum n.work_units (m.workers i) n.task run
            (elim (Bool-cases (is_exited (m.workers i))) [
              | inr stays ↦ stays
              | inl gone ↦ absurd (cc (run, finished-idle n.task.state (here gone)))
            ]) in
        (_, (work i at on.move, running-awake on.move run))

    decision-GoesOn :
        (m : Machine) (o : Turn) → m.point ≡ choosing → decide c m.sched ≡ o → GoesOn m
    decision-GoesOn m (again s) at e = (_, (go_on at e, refl))
    decision-GoesOn m (leave s) at e = (_, (stop at e, refl))

    point-GoesOn :
        (m : Machine) (p : Point)
        → AllLeft m.sched.nodes m.workers
        → m.point ≡ p
        → p ≢ stopped
        → GoesOn m
    point-GoesOn m in_wait left at more = elim (find-running m.sched.nodes) [
      | inl idle ↦ (_, (wake at idle, refl))
      | inr (i, n, here, run) ↦ worker-GoesOn m i n left here run
    ]
    point-GoesOn m after_wait left at more = (_, (log_back at, refl))
    point-GoesOn m choosing left at more = decision-GoesOn m (decide c m.sched) at refl
    point-GoesOn m stopped left at more = absurd (more refl)

    -- Whatever the interleaving so far: unless the main loop has ended, some
    -- thread has a step other than to sleep on.
    pub Runs-goes_on :
        {m : Machine} → Runs c rng ns m → m.point ≢ stopped → (m' : Machine) × Active c m' m
    Runs-goes_on {m} run more = point-GoesOn m m.point (Runs-AllLeft run) refl more
