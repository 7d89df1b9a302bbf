-- ===== src/Threads/Awake.antt =====
-- src/task.c and src/scheduler.c: no wake-up is lost. A worker sleeps only while its task is READY,
-- the scheduler thread only while a task is RUNNING.
use mathlib.Core.Path.{subst}
use soa_p1_grupo_cu.Base.{
  ℕ, ◌≡◌, refl, sym, ap, ◌∙◌, Bool, true, false, not, Option, none, some, Option-cases, List, [],
  get_elem?, ◌==◌, if◌then◌else◌, modify, Bool-cases, inl, inr, arith,
}
use soa_p1_grupo_cu.Base.Float.{Floats}
use soa_p1_grupo_cu.Task.{is_ready, is_running, Task, Node}
use soa_p1_grupo_cu.Scheduler.{Config, Sched, settle}
use soa_p1_grupo_cu.Scheduler.Nodes.{get_elem?-modify}
use soa_p1_grupo_cu.Scheduler.Ids.{get_elem?-modify_other}
use soa_p1_grupo_cu.Threads.{Worker}
use soa_p1_grupo_cu.Threads.Stuck.{compensation-state}
use soa_p1_grupo_cu.Threads.Control.{settle-Keeps}
use soa_p1_grupo_cu.Threads.Follow.{everywhere}
use soa_p1_grupo_cu.Threads.Machine.{Machine, in_wait, Acts, work, wake, log_back, go_on, stop}
use soa_p1_grupo_cu.Threads.Condition.{
  Hall, broadcasts, is_up, Goes, does, worker_waits, scheduler_waits, Visits, opened, went,
}
use soa_p1_grupo_cu.Threads.Quiet.{nodes_after, decide-quiet, quiet-running}

module _ ⦃fl : Floats⦄ (c : Config) where
  abbrev pub ReadyAt : Option Node → Type 0
  ReadyAt none = Unit
  ReadyAt (some n) = is_ready n.task.state ≡ true

  -- The tasks of the workers that sleep.
  abbrev pub SleepersReady : List Node → (ℕ → Bool) → Type 0
  SleepersReady nodes asleep = (i : ℕ) → asleep i ≡ true → ReadyAt (get_elem? nodes i)

  abbrev pub SomeRunning : List Node → Type 0
  SomeRunning nodes =
      (i : ℕ) × (n : Node) × (get_elem? nodes i ≡ some n) × (is_running n.task.state ≡ true)

  pub record Watch (h : Hall) : Type 0 where
    pub ready : SleepersReady h.machine.sched.nodes h.asleep
    pub busy :
        h.scheduler_asleep ≡ true → (h.machine.point ≡ in_wait) × SomeRunning h.machine.sched.nodes

  work-ready :
      (nodes : List Node) (wks : ℕ → Worker) (asleep : ℕ → Bool) (i : ℕ) {n : Node} (t : Task)
      → get_elem? nodes i ≡ some n
      → not (asleep i) ≡ true
      → SleepersReady nodes asleep
      → SleepersReady (modify (λ n. record n { task = t }) i nodes) asleep
  work-ready nodes wks asleep i t at up ready =
      everywhere c 0 [] 0 (λ j o wk. asleep j ≡ true → ReadyAt o) nodes wks i {wk = wks i} {t = t}
        at (λ e. absurd (cc)) ready

  work-running :
      (nodes : List Node) (i : ℕ) {n : Node} (t : Task)
      → get_elem? nodes i ≡ some n
      → (is_running n.task.state ≡ true → is_running t.state ≡ true)
      → SomeRunning nodes
      → SomeRunning (modify (λ n. record n { task = t }) i nodes)
  work-running nodes i {n} t at kept (k, m, here, run) = elim (Bool-cases (i == k)) [
    | inl same ↦
        let place : k ≡ i = ground arith in
        let one : m ≡ n = cc in
        (
          i,
          record n { task = t },
          get_elem?-modify (λ n. record n { task = t }) i nodes n at,
          kept (sym (ap (λ (x : Node). is_running x.task.state) one) ∙ run),
        )
    | inr other ↦ (
      k,
      m,
      get_elem?-modify_other (λ n. record n { task = t }) i k nodes (ground arith) ∙ here,
      run,
    )
  ]

  settled-ready :
      (s : Sched) (asleep : ℕ → Bool)
      → SleepersReady s.nodes asleep
      → SleepersReady (settle c s).nodes asleep
  settled-ready s asleep ready i e = elim (Option-cases (get_elem? (settle c s).nodes i)) [
    | inl out ↦ subst ReadyAt (sym out) tt
    | inr (n', at') ↦
        let (n, at, kept) =
          settle-Keeps c (λ t. is_ready t.state ≡ true) s
            (λ t r. ap is_ready (compensation-state c.quantum (λ k. 0) c.compensation t) ∙ r) i n'
            at' in
        subst ReadyAt (sym at') (kept (subst ReadyAt at (ready i e)))
  ]

  acts-ready :
      (h : Hall) {m : Machine} (act : Acts c h.machine m)
      → is_up c h act ≡ true
      → broadcasts c act ≡ false
      → SleepersReady h.machine.sched.nodes h.asleep
      → SleepersReady m.sched.nodes h.asleep
  acts-ready h (work i {t} at mv) up quiet ready =
      work-ready h.machine.sched.nodes h.machine.workers h.asleep i t at up ready
  acts-ready h (wake at idle) up quiet ready = ready
  acts-ready h (log_back at) up quiet ready = settled-ready h.machine.sched h.asleep ready
  acts-ready h (go_on {s} at e) up quiet ready =
      let same : s.nodes ≡ h.machine.sched.nodes =
        ap nodes_after (sym e) ∙ decide-quiet c h.machine.sched quiet in
      subst (λ ns. SleepersReady ns h.asleep) (sym same) ready
  acts-ready h (stop {s} at e) up quiet ready =
      let same : s.nodes ≡ h.machine.sched.nodes =
        ap nodes_after (sym e) ∙ decide-quiet c h.machine.sched quiet in
      subst (λ ns. SleepersReady ns h.asleep) (sym same) ready

  acts-busy :
      (h : Hall) {m : Machine} (act : Acts c h.machine m)
      → is_up c h act ≡ true
      → broadcasts c act ≡ false
      → h.scheduler_asleep ≡ true
      → (h.machine.point ≡ in_wait) × SomeRunning h.machine.sched.nodes
      → (m.point ≡ in_wait) × SomeRunning m.sched.nodes
  acts-busy h (work i {t} at mv) up quiet e (here, runs) =
      (here, work-running h.machine.sched.nodes i t at (quiet-running c mv quiet) runs)
  acts-busy h (wake at idle) up quiet e busy = absurd (cc)
  acts-busy h (log_back at) up quiet e busy = absurd (cc)
  acts-busy h (go_on at e') up quiet e busy = absurd (cc)
  acts-busy h (stop at e') up quiet e busy = absurd (cc)

  -- After a broadcast nobody sleeps.
  woken-Watch :
      (h : Hall) (m : Machine) (b : Bool)
      → (b ≡ false → SleepersReady m.sched.nodes h.asleep)
      → (b ≡ false → h.scheduler_asleep ≡ true → (m.point ≡ in_wait) × SomeRunning m.sched.nodes)
      → Watch (record {
        machine = m;
        asleep = λ i. if b then false else h.asleep i;
        scheduler_asleep = if b then false else h.scheduler_asleep;
      })
  woken-Watch h m true ready busy = record { ready = λ i e. absurd (cc); busy = λ e. absurd (cc) }
  woken-Watch h m false ready busy = record { ready = ready refl; busy = busy refl }

  Goes-Watch : {h h' : Hall} → Goes c h h' → Watch h → Watch h'
  Goes-Watch {h} (does {m} act active up) w =
      woken-Watch h m (broadcasts c act) (λ quiet. acts-ready h act up quiet w.ready)
        (λ quiet e. acts-busy h act up quiet e (w.busy e))
  Goes-Watch {h} (worker_waits i {n} at up head r) w = record {
    ready = λ j e. elim (Bool-cases (i == j)) [
      | inl same ↦
          let place : i ≡ j = ground arith in
          subst (λ k. ReadyAt (get_elem? h.machine.sched.nodes k)) place (subst ReadyAt (sym at) r)
      | inr other ↦ w.ready j (sym (rw other refl) ∙ e)
    ];
    busy = w.busy;
  }
  Goes-Watch (scheduler_waits i {n} here up at run) w = record {
    ready = w.ready;
    busy = λ e. (here, (i, n, at, run));
  }

  module _ (rng : ℕ) (ns : List Node) where
    -- Whatever the interleaving, a worker waits on the condition variable only while its task is
    -- READY, and the scheduler thread only in its wait and while a task is RUNNING.
    pub Visits-Watch : {h : Hall} → Visits c rng ns h → Watch h
    Visits-Watch opened = record { ready = λ i e. absurd (cc); busy = λ e. absurd (cc) }
    Visits-Watch (went before last) = Goes-Watch last (Visits-Watch before)
