-- ===== src/Threads/Condition.antt =====
-- src/task.c: the condition variable `state_cond` among the threads. A thread that waits on it
-- takes no step until a broadcast, which wakes all; a wait that ends without one is not modelled.
use soa_p1_grupo_cu.Base.{
  ℕ, ◌≡◌, Bool, true, false, not, Option, none, some, List, get_elem?, ltb, ◌&&◌, ◌==◌,
  if◌then◌else◌,
}
use soa_p1_grupo_cu.Base.Float.{Floats}
use soa_p1_grupo_cu.Task.{is_ready, is_running, Task, Node, task_transition_to_running}
use soa_p1_grupo_cu.Lottery.{
  scheduler_calculate_cumulutive_tickets, scheduler_all_tasks_finished, scheduler_winner_task,
  scheduler_sort_winner_ticket,
}
use soa_p1_grupo_cu.Scheduler.{Config, Sched}
use soa_p1_grupo_cu.Threads.{Worker, at_head, Move, used_up, all_done, changed}
use soa_p1_grupo_cu.Threads.Machine.{
  Machine, in_wait, Acts, work, wake, log_back, go_on, stop, is_active, machine_start,
}

module _ ⦃fl : Floats⦄ where
  pub record Hall : Type 0 where
    pub machine : Machine
    pub asleep : ℕ → Bool  -- the workers in `pthread_cond_wait`
    pub scheduler_asleep : Bool

  -- Whether `task_transition_to_running` broadcasts, for the node at the winner's place.
  abbrev pub sends : ℕ → Option Node → Bool
  sends g none = false
  sends g (some n) = (task_transition_to_running n.task g).1

  abbrev pub sends_winner : Sched → Option ℕ → Bool
  sends_winner s none = false
  sends_winner s (some winner) = sends s.global_dispatch (get_elem? s.nodes winner)

  abbrev pub lottery_broadcasts : Sched → Bool
  lottery_broadcasts s =
      let sum = scheduler_calculate_cumulutive_tickets s.nodes in
      let (rng, ticket) = scheduler_sort_winner_ticket s.rng sum in
      if sum == 0 then false else sends_winner s (scheduler_winner_task s.nodes ticket)

  module _ (c : Config) where
    -- Whether the scheduler thread broadcasts on its way through a decision: in
    -- `task_shutdown_all`, or in `task_transition_to_running`.
    unfoldable pub decision_broadcasts : Sched → Bool
    decision_broadcasts s =
        if ltb 0 c.max_dispatches && ltb c.max_dispatches s.global_dispatch
        then true
        else if scheduler_all_tasks_finished s.nodes
        then false
        else lottery_broadcasts s

    -- A worker broadcasts when it reports.
    abbrev pub move_broadcasts :
        {W : ℕ} {wk : Worker} {t : Task} {wk' : Worker} {t' : Task}
        → Move c.quantum W wk t wk' t'
        → Bool
    move_broadcasts used_up = true
    move_broadcasts (all_done l) = true
    move_broadcasts _ = false

    abbrev pub broadcasts : {m m' : Machine} → Acts c m m' → Bool
    broadcasts (work i at mv) = move_broadcasts mv
    broadcasts (wake at idle) = false
    broadcasts (log_back at) = false
    broadcasts {m} (go_on at e) = decision_broadcasts m.sched
    broadcasts {m} (stop at e) = decision_broadcasts m.sched

    -- The thread of a step is not asleep.
    abbrev pub is_up : (h : Hall) {m : Machine} → Acts c h.machine m → Bool
    is_up h (work i at mv) = not (h.asleep i)
    is_up h _ = not h.scheduler_asleep

    abbrev pub after_act : (h : Hall) {m : Machine} → Acts c h.machine m → Hall
    after_act h {m} act = record {
      machine = m;
      asleep = λ i. if broadcasts act then false else h.asleep i;
      scheduler_asleep = if broadcasts act then false else h.scheduler_asleep;
    }

    pub data Goes (h : Hall) : Hall → Type 0 where
      does :
          {m : Machine} (act : Acts c h.machine m)
          → is_active c act ≡ true
          → is_up h act ≡ true
          → Goes h (after_act h act)
      worker_waits :
          (i : ℕ) {n : Node}
          → get_elem? h.machine.sched.nodes i ≡ some n
          → h.asleep i ≡ false
          → h.machine.workers i ≡ at_head
          → is_ready n.task.state ≡ true
          → Goes h (record h { asleep = changed h.asleep i true })
      scheduler_waits :
          (i : ℕ) {n : Node}
          → h.machine.point ≡ in_wait
          → h.scheduler_asleep ≡ false
          → get_elem? h.machine.sched.nodes i ≡ some n
          → is_running n.task.state ≡ true
          → Goes h (record h { scheduler_asleep = true })

    abbrev pub hall_start : ℕ → List Node → Hall
    hall_start rng ns = record {
      machine = machine_start c rng ns;
      asleep = λ i. false;
      scheduler_asleep = false;
    }

    -- The halls that some interleaving reaches.
    pub data Visits (rng : ℕ) (ns : List Node) : Hall → Type 0 where
      opened : Visits rng ns (hall_start rng ns)
      went : {h h' : Hall} (before : Visits rng ns h) (last : Goes h h') → Visits rng ns h'
