-- ===== src/Threads/Machine.antt =====
-- src/scheduler.c and src/task.c: `scheduler_main_loop` among the worker threads. Between its wait and
-- its next decision the scheduler thread holds all tasks still: a worker can then only sleep or
-- leave, which changes no task, so what the loop does there is two steps, up to the deferred log
-- line and from there to the dispatch.
use soa_p1_grupo_cu.Base.{ℕ, suc, ◌≡◌, Bool, true, false, some, List, All, get_elem?, modify}
use soa_p1_grupo_cu.Base.Float.{Floats}
use soa_p1_grupo_cu.Task.{Task, Node}
use soa_p1_grupo_cu.Scheduler.{Config, Sched, again, leave, settle, decide, start}
use soa_p1_grupo_cu.Scheduler.Nodes.{Idle}
use soa_p1_grupo_cu.Threads.{Worker, at_head, Move, sleep, changed}

-- Where the scheduler thread stands.
pub data Point : Type 0 where
  in_wait : Point  -- `task_wait_until_no_running`
  after_wait : Point
  choosing : Point  -- past the deferred log line
  stopped : Point

module _ ⦃fl : Floats⦄ where
  -- The worker of a task has the place of its node in the list.
  pub record Machine : Type 0 where
    pub sched : Sched
    pub workers : ℕ → Worker
    pub point : Point

  -- A worker stores its task at place `i`.
  abbrev pub with_task : ℕ → Task → Sched → Sched
  with_task i t s = record s { nodes = modify (λ n. record n { task = t }) i s.nodes }

  module _ (quantum : ℕ) where
    -- Every move but to sleep on.
    abbrev pub is_awake :
        {W : ℕ} {wk : Worker} {t : Task} {wk' : Worker} {t' : Task}
        → Move quantum W wk t wk' t'
        → Bool
    is_awake (sleep r) = false
    is_awake _ = true

  module _ (c : Config) where
    pub data Acts (m : Machine) : Machine → Type 0 where
      work :
          (i : ℕ) {n : Node} {wk : Worker} {t : Task}
          → get_elem? m.sched.nodes i ≡ some n
          → Move c.quantum n.work_units (m.workers i) n.task wk t
          → Acts m (record m { sched = with_task i t m.sched; workers = changed m.workers i wk })
      wake : m.point ≡ in_wait → All Idle m.sched.nodes → Acts m (record m { point = after_wait })
      log_back :
          m.point ≡ after_wait → Acts m (record m { sched = settle c m.sched; point = choosing })
      go_on :
          {s : Sched}
          → m.point ≡ choosing
          → decide c m.sched ≡ again s
          → Acts m (record m { sched = s; point = in_wait })
      stop :
          {s : Sched}
          → m.point ≡ choosing
          → decide c m.sched ≡ leave s
          → Acts m (record m { sched = s; point = stopped })

    -- Every step but that of a worker that sleeps on.
    abbrev pub is_active : {m m' : Machine} → Acts m m' → Bool
    is_active (work i at mv) = is_awake c.quantum mv
    is_active _ = true

    -- `m'` comes from `m` by a step that is not to sleep on.
    abbrev pub Active : Machine → Machine → Type 0
    Active m' m = (act : Acts m m') × (is_active act ≡ true)

    abbrev pub machine_start : ℕ → List Node → Machine
    machine_start rng ns = record { sched = start rng ns; workers = λ i. at_head; point = in_wait }

    -- The machines that some interleaving reaches.
    pub data Runs (rng : ℕ) (ns : List Node) : Machine → Type 0 where
      begun : Runs rng ns (machine_start rng ns)
      acted : {m m' : Machine} (before : Runs rng ns m) (last : Acts m m') → Runs rng ns m'

    -- The turns of the loop that have gone on to another.
    abbrev pub counted : {m m' : Machine} → Acts m m' → ℕ → ℕ
    counted (work i at mv) k = k
    counted (wake at idle) k = k
    counted (log_back at) k = k
    counted (go_on at e) k = suc k
    counted (stop at e) k = k

    unfoldable pub turns : {rng : ℕ} {ns : List Node} {m : Machine} → Runs rng ns m → ℕ
    turns begun = 0
    turns (acted before last) = counted last (turns before)
