-- ===== src/Task.antt =====
-- src/task.c and include/task.h: the task, its life cycle and the operations of the scheduler on
-- it. The mutex and the condition variable are the subject of `Threads`; here each function is its
-- critical section. A function that returns `bool` returns the new task with it.
pub mod Work
pub mod Series
pub mod Life
pub mod Compensation
pub mod Dispatch
use soa_p1_grupo_cu.Base.{
  ℕ, ◌+◌, ◌≡◌, Bool, true, false, ◌&&◌, Option, none, some, List, [], ◌∷◌, if◌then◌else◌, ltb, leb,
  ◌==◌, u32, uint32_max,
}
use soa_p1_grupo_cu.Base.Float.{Floats}

-- `task_state_t`
pub data TaskState : Type 0 where
  ready running finished : TaskState

abbrev pub is_ready : TaskState → Bool
is_ready ready = true
is_ready _ = false

abbrev pub is_running : TaskState → Bool
is_running running = true
is_running _ = false

abbrev pub is_finished : TaskState → Bool
is_finished finished = true
is_finished _ = false

module _ ⦃fl : Floats⦄ where
  -- `pi_state_t`
  pub record PiState : Type 0 where
    pub sum : fl.Double
    pub term : fl.Double
    pub j : ℕ

  -- `task_t`, less its own mutex, which the program initialises and never locks.
  pub record Task : Type 0 where
    pub id : ℕ
    pub tickets : ℕ
    pub work_units : ℕ
    pub first_dispatch : ℕ
    pub last_dispatch : ℕ
    pub work_units_done : ℕ
    pub dispatches : ℕ
    pub slice_size : ℕ
    pub state : TaskState
    pub pi : PiState
    pub yield_fraction : fl.Single
    pub effective_tickets : ℕ

  -- The `struct node` of a task, less its links: the lists below are in the order of `next`.
  pub record Node : Type 0 where
    pub id : ℕ
    pub tickets : ℕ
    pub work_units : ℕ
    pub task : Task

  abbrev pub pi_start : PiState
  pi_start = record { sum = fl.double 2; term = fl.double 1; j = 0 }

  abbrev pub zero_s : fl.Single
  zero_s = fl.single 0

  abbrev pub one_s : fl.Single
  one_s = fl.single 1

  unfoldable pub clamp_fraction : fl.Single → fl.Single
  clamp_fraction y = if fl.lt_s zero_s y && fl.le_s y one_s then y else one_s

  abbrev pub new_task : ℕ → ℕ → ℕ → fl.Single → Task
  new_task id tickets work_units y = record {
    id = id;
    tickets = tickets;
    work_units = work_units;
    first_dispatch = 0;
    last_dispatch = 0;
    work_units_done = 0;
    dispatches = 0;
    slice_size = 0;
    state = ready;
    pi = pi_start;
    yield_fraction = clamp_fraction y;
    effective_tickets = tickets;
  }

  -- `allocated` and `mutex_made` say whether `malloc` and `pthread_mutex_init` succeed.
  unfoldable pub task_create : Bool → Bool → ℕ → ℕ → ℕ → fl.Single → Option Task
  task_create false mutex_made id tickets work_units y = none
  task_create true false id tickets work_units y = none
  task_create true true id tickets work_units y = some (new_task id tickets work_units y)

  -- The addresses of the mutexes that are destroyed, and of the tasks that are freed.
  record Released : Type 0 where
    mutexes : List ℕ
    tasks : List ℕ

  -- `none` is NULL; the mutex is part of the task.
  unfoldable task_destroy : Option ℕ → Released → Released
  task_destroy none r = r
  task_destroy (some a) r = record { mutexes = a ∷ r.mutexes; tasks = a ∷ r.tasks }

  -- The body of `task_transition_to_running` below its guard.
  abbrev pub dispatched : ℕ → Task → Task
  dispatched global_dispatch t =
      let n = u32 (t.dispatches + 1) in
      record t {
        state = running;
        dispatches = n;
        first_dispatch = if n == 1 then global_dispatch else t.first_dispatch;
        last_dispatch = global_dispatch;
      }

  unfoldable pub task_transition_to_running : Task → ℕ → Task × Bool
  task_transition_to_running t global_dispatch =
      if is_ready t.state then (dispatched global_dispatch t, true) else (t, false)

  unfoldable pub task_transition_to_ready : Task → Task × Bool
  task_transition_to_ready t =
      if is_running t.state then (record t { state = ready }, true) else (t, false)

  unfoldable pub task_transition_to_finished : Task → Task × Bool
  task_transition_to_finished t =
      if is_running t.state then (record t { state = finished }, true) else (t, false)

  unfoldable pub task_is_eligible : Task → Bool
  task_is_eligible t = is_ready t.state

  unfoldable pub task_is_finished : Task → Bool
  task_is_finished t = is_finished t.state

  unfoldable pub task_set_slice : Task → ℕ → Task
  task_set_slice t slice_size = record t { slice_size = if leb 1 slice_size then slice_size else 1 }

  -- `round(tickets / yield_fraction)` as `uint64_t`
  unfoldable pub compensated : Task → ℕ
  compensated t =
      fl.double_to_u64 (fl.round (fl.div_d (fl.double t.tickets) (fl.widen t.yield_fraction)))

  unfoldable pub task_apply_compensation : Task → Bool → Task
  task_apply_compensation t enabled =
      if enabled && fl.lt_s t.yield_fraction one_s
      then record t {
        effective_tickets = if ltb uint32_max (compensated t) then uint32_max else compensated t;
      }
      else record t { effective_tickets = t.tickets }

  unfoldable pub task_is_there_any_running_task : List Node → Bool
  task_is_there_any_running_task [] = false
  task_is_there_any_running_task (n ∷ ns) =
      if is_running n.task.state then true else task_is_there_any_running_task ns

  -- The body of the loop of `task_shutdown_all`.
  abbrev pub shut_down : Task → Task
  shut_down t = if is_ready t.state then record t { state = finished } else t

  unfoldable pub task_shutdown_all : List Node → List Node
  task_shutdown_all [] = []
  task_shutdown_all (n ∷ ns) = record n { task = shut_down n.task } ∷ task_shutdown_all ns
