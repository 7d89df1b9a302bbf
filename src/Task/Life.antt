-- ===== src/Task/Life.antt =====
-- The life cycle of include/task.h: which change of state each operation makes, and which it
-- refuses.
use soa_p1_grupo_cu.Base.{
  ℕ, ◌+◌, ◌^◌, ◌<◌, ◌≡◌, ◌⊎◌, inl, inr, refl, Bool, true, false, arith, if◌then◌else◌, ◌==◌,
}
use soa_p1_grupo_cu.Base.Float.{Floats}
use soa_p1_grupo_cu.Task.{
  TaskState, ready, running, finished, is_ready, is_running, Task, task_transition_to_running,
  task_transition_to_ready, task_transition_to_finished,
}

-- The transitions that the header calls valid.
pub data Valid : TaskState → TaskState → Type 0 where
  to_running : Valid ready running
  to_ready : Valid running ready
  to_finished : Valid running finished

-- A request for a state is granted exactly when the transition is valid.
abbrev pub Granted : TaskState → TaskState → Bool → TaskState → Type 0
Granted from to done after =
    ((done ≡ true) × Valid from to × (after ≡ to))
    ⊎ ((done ≡ false) × (Valid from to → ⊥) × (after ≡ from))

Granted-running :
    (s : TaskState) → Granted s running (is_ready s) (if is_ready s then running else s)
Granted-running ready = inl (refl, to_running, refl)
Granted-running running = inr (refl, (λ v. elim v [ ]), refl)
Granted-running finished = inr (refl, (λ v. elim v [ ]), refl)

Granted-ready : (s : TaskState) → Granted s ready (is_running s) (if is_running s then ready else s)
Granted-ready ready = inr (refl, (λ v. elim v [ ]), refl)
Granted-ready running = inl (refl, to_ready, refl)
Granted-ready finished = inr (refl, (λ v. elim v [ ]), refl)

Granted-finished :
    (s : TaskState) → Granted s finished (is_running s) (if is_running s then finished else s)
Granted-finished ready = inr (refl, (λ v. elim v [ ]), refl)
Granted-finished running = inl (refl, to_finished, refl)
Granted-finished finished = inr (refl, (λ v. elim v [ ]), refl)

module _ ⦃fl : Floats⦄ where
  running_lem :
      (t : Task) (g : ℕ)
      → ((task_transition_to_running t g).1 ≡ is_ready t.state)
        × ((task_transition_to_running t g).0.state
            ≡ (if is_ready t.state then running else t.state))
  unfolding task_transition_to_running
  running_lem t g = ground arith

  ready_lem :
      (t : Task)
      → ((task_transition_to_ready t).1 ≡ is_running t.state)
        × ((task_transition_to_ready t).0.state ≡ (if is_running t.state then ready else t.state))
  unfolding task_transition_to_ready
  ready_lem t = ground arith

  finished_lem :
      (t : Task)
      → ((task_transition_to_finished t).1 ≡ is_running t.state)
        × ((task_transition_to_finished t).0.state
            ≡ (if is_running t.state then finished else t.state))
  unfolding task_transition_to_finished
  finished_lem t = ground arith

  -- Each of the three transition functions answers `true` and reaches its state exactly when the
  -- header calls that transition valid; otherwise it answers `false` and the state stays.
  pub transitions-Granted :
      (t : Task) (g : ℕ)
      → (let (t', done) = task_transition_to_running t g in Granted t.state running done t'.state)
        × (let (t', done) = task_transition_to_ready t in Granted t.state ready done t'.state)
        × (let (t', done) = task_transition_to_finished t in Granted t.state finished done t'.state)
  transitions-Granted t g = (
    rw ((running_lem t g).0, (running_lem t g).1) (Granted-running t.state),
    rw ((ready_lem t).0, (ready_lem t).1) (Granted-ready t.state),
    rw ((finished_lem t).0, (finished_lem t).1) (Granted-finished t.state),
  )

  -- What a dispatch records in the task.
  pub record Recorded (t t' : Task) (g : ℕ) : Type 0 where
    pub counted : t'.dispatches ≡ t.dispatches + 1
    pub last : t'.last_dispatch ≡ g
    pub first : t'.first_dispatch ≡ (if t.dispatches == 0 then g else t.first_dispatch)
    pub same_work : t'.work_units_done ≡ t.work_units_done
    pub same_pi : t'.pi ≡ t.pi
    pub same_stake : t'.effective_tickets ≡ t.effective_tickets

  -- `task_transition_to_running` of a READY task counts the dispatch, below the wrap of the 32-bit
  -- counter, stamps the dispatch number as the last one, and as the first one if the task had none,
  -- and leaves its work and its tickets alone.
  pub running-Recorded :
      (t : Task) (g : ℕ)
      → is_ready t.state ≡ true
      → t.dispatches + 1 < 2 ^ 32
      → Recorded t (task_transition_to_running t g).0 g
  unfolding task_transition_to_running
  running-Recorded t g r small = ground arith
