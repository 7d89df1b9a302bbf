-- ===== src/Scheduler.antt =====
-- src/scheduler.c: the main loop. Between two turns of the scheduler thread the worker of the
-- dispatched task makes its whole round, so the wait is that round.
pub mod Nodes
pub mod Fuel
pub mod Round
pub mod Start
pub mod Turns
pub mod Progress
pub mod Rule
pub mod Counted
pub mod Log
pub mod Ids
pub mod Account
pub mod ReadBack
pub mod Readable
pub mod Bounded
pub mod Lines
pub mod Configure
pub mod Init
use soa_p1_grupo_cu.Base.{
  ℕ, zero, suc, ◌+◌, ◌-◌, ◌^◌, Bool, ◌&&◌, Option, none, some, List, [], ◌∷◌, ◌++◌, if◌then◌else◌,
  ltb, ◌==◌, u32, get_elem?, modify,
}
use soa_p1_grupo_cu.Base.Float.{Floats}
use soa_p1_grupo_cu.Task.{
  TaskState, is_running, Task, Node, task_transition_to_running, task_apply_compensation,
  task_shutdown_all, task_set_slice,
}
use soa_p1_grupo_cu.Task.Work.{task_do_work_unit}
use soa_p1_grupo_cu.Lottery.{
  scheduler_calculate_cumulutive_tickets, scheduler_all_tasks_finished, scheduler_winner_task,
  scheduler_sort_winner_ticket,
}

-- The options that the loop and the workers read from the parser.
pub record Config : Type 0 where
  pub quantum : ℕ
  pub max_dispatches : ℕ
  pub compensation : Bool

-- The two lines of `LOG_EVENT`, with their arguments in order.
pub data Event : Type 0 where
  drawn : (dispatch winner_id winning_ticket active_tickets work_units_remaining : ℕ) → Event
  outcome :
      (dispatch winner_id run_units completed_units : ℕ)
      → (state_after : TaskState) → (tickets_after work_units_remaining_after : ℕ) → Event

-- The variables that are live while `has_pending_after_log` holds.
pub record Pending : Type 0 where
  pub dispatch_number : ℕ
  pub winner : ℕ
  pub units_before : ℕ

-- `uint32_t` subtraction
abbrev pub sub_u32 : ℕ → ℕ → ℕ
sub_u32 a b = u32 (a + 2 ^ 32 - b)

module _ ⦃fl : Floats⦄ where
  pub record Sched : Type 0 where
    pub nodes : List Node
    pub rng : ℕ
    pub global_dispatch : ℕ
    pub pending : Option Pending
    pub log : List Event

  -- How a turn of the loop ends: with another turn, or with the loop left.
  pub data Turn : Type 0 where
    again : Sched → Turn
    leave : Sched → Turn

  unfoldable pub on_task : (Task → Task) → Node → Node
  on_task f n = record n { task = f n.task }

  -- `task_wait_until_no_running`, with the rounds of the workers that it waits for.
  unfoldable pub wait_until_no_running : ℕ → List Node → List Node
  wait_until_no_running quantum [] = []
  wait_until_no_running quantum (n ∷ ns) =
      (if is_running n.task.state then task_do_work_unit quantum n else n)
      ∷ wait_until_no_running quantum ns

  unfoldable pub outcome_event : Pending → Node → Event
  outcome_event p n =
      outcome p.dispatch_number n.id (sub_u32 n.task.work_units_done p.units_before)
        n.task.work_units_done n.task.state n.task.effective_tickets
        (sub_u32 n.task.work_units n.task.work_units_done)

  -- The log line of the outcome, for the node that the winner's place holds.
  abbrev pub log_outcome : List Event → Pending → Option Node → List Event
  log_outcome log p none = log
  log_outcome log p (some n) = log ++ outcome_event p n ∷ []

  -- The block under `has_pending_after_log`.
  unfoldable pub settle : Config → Sched → Sched
  settle c s = elim s.pending [
    | none ↦ s
    | some p ↦
        let ns =
          modify (on_task (λ t. task_apply_compensation t c.compensation)) p.winner s.nodes in
        record s {
          nodes = ns;
          pending = none;
          log = elim (get_elem? ns p.winner) [
            | none ↦ s.log
            | some n ↦ s.log ++ outcome_event p n ∷ []
          ];
        }
  ]

  -- From the log line of the draw to the end of the loop's body.
  unfoldable pub dispatch : ℕ → ℕ → ℕ → Sched → Turn
  dispatch winner_ticket sum winner s = elim (get_elem? s.nodes winner) [
    | none ↦ leave s
    | some n ↦ again (record s {
      nodes =
          modify (on_task (λ t. (task_transition_to_running t s.global_dispatch).0)) winner s.nodes;
      global_dispatch = u32 (s.global_dispatch + 1);
      pending = some (record {
        dispatch_number = s.global_dispatch;
        winner = winner;
        units_before = n.task.work_units_done;
      });
      log =
          s.log
          ++ drawn s.global_dispatch n.id winner_ticket sum
              (sub_u32 n.task.work_units n.task.work_units_done)
            ∷ [];
    })
  ]

  -- The lottery, once the loop knows that it goes on.
  unfoldable pub lottery : Sched → Turn
  lottery s =
      let sum = scheduler_calculate_cumulutive_tickets s.nodes in
      let (rng, ticket) = scheduler_sort_winner_ticket s.rng sum in
      let s' = record s { rng = rng } in
      if sum == 0 then again s else elim (scheduler_winner_task s.nodes ticket) [
        | none ↦ leave s'
        | some winner ↦ dispatch ticket sum winner s'
      ]

  -- What follows the wait and the deferred log line.
  unfoldable pub decide : Config → Sched → Turn
  decide c s =
      if ltb 0 c.max_dispatches && ltb c.max_dispatches s.global_dispatch
      then leave (record s { nodes = task_shutdown_all s.nodes })
      else if scheduler_all_tasks_finished s.nodes
      then leave s
      else lottery s

  -- One turn of the `while` of `scheduler_main_loop`.
  unfoldable pub turn : Config → Sched → Turn
  turn c s = decide c (settle c (record s { nodes = wait_until_no_running c.quantum s.nodes }))

  -- The loop on fuel; `none` is a loop that the fuel does not see to its end.
  unfoldable pub main_loop : ℕ → Config → Sched → Option Sched
  main_loop zero c s = none
  main_loop (suc fuel) c s = elim (turn c s) [ again s' ↦ main_loop fuel c s' | leave s' ↦ some s' ]

  abbrev pub start : ℕ → List Node → Sched
  start rng ns = record { nodes = ns; rng = rng; global_dispatch = 1; pending = none; log = [] }

  unfoldable pub scheduler_main_loop : ℕ → Config → ℕ → List Node → Option Sched
  scheduler_main_loop fuel c rng ns = main_loop fuel c (start rng ns)

  unfoldable pub configure_slices : (Task → ℕ) → List Node → List Node
  configure_slices slice [] = []
  configure_slices slice (n ∷ ns) =
      on_task (λ t. task_set_slice t (slice t)) n ∷ configure_slices slice ns
