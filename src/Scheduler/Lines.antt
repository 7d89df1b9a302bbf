-- ===== src/Scheduler/Lines.antt =====
-- src/scheduler.c: the texts of the two `LOG_EVENT`s, and reading them back.
use soa_p1_grupo_cu.Base.{ℕ, Option, none, some, List, [], ◌∷◌, ◌++◌, ◌==◌, if◌then◌else◌}
use soa_p1_grupo_cu.Base.Text.{bytes}
use soa_p1_grupo_cu.Base.Decimal.{decimal, read_digits}
use soa_p1_grupo_cu.Task.{TaskState, ready, running, finished}
use soa_p1_grupo_cu.Scheduler.{Event, drawn, outcome}

infixl 5 ◌>>=◌
abbrev pub ◌>>=◌ : {A B : Type 0} → Option A → (A → Option B) → Option B
none >>= f = none
some a >>= f = f a

-- The texts of the three states; no other value is stored in a state.
unfoldable pub task_state_enum_to_str : TaskState → List ℕ
task_state_enum_to_str ready = bytes "TASK_READY"
task_state_enum_to_str running = bytes "TASK_RUNNING"
task_state_enum_to_str finished = bytes "TASK_FINISHED"

-- A name with its number, and what follows.
abbrev pub field_text : List ℕ → ℕ → List ℕ → List ℕ
field_text name n rest = name ++ (decimal n ++ rest)

-- What the format of the one call prints.
abbrev pub drawn_text : (number winner ticket sum left : ℕ) → List ℕ
drawn_text number winner ticket sum left = field_text (bytes "dispatch=") number (
    field_text (bytes ", winner_id=") winner (
      field_text (bytes ", winning_ticket=") ticket (
        field_text (bytes ", active_tickets=") sum
          (field_text (bytes ", work_units_remaining=") left []))))

-- What the format of the other prints.
abbrev pub outcome_text :
    (number winner run done : ℕ) (state : TaskState) (tickets left : ℕ) → List ℕ
outcome_text number winner run done state tickets left = field_text (bytes "dispatch=") number (
    field_text (bytes ", winner_id=") winner (
      field_text (bytes ", run_units=") run (
        field_text (bytes ", completed_units=") done (
          bytes ", state_after="
          ++ (task_state_enum_to_str state
              ++ field_text (bytes ", tickets_after=") tickets
                  (field_text (bytes ", work_units_remaining_after=") left []))))))

unfoldable pub event_text : Event → List ℕ
event_text (drawn number winner ticket sum left) = drawn_text number winner ticket sum left
event_text (outcome number winner run done state tickets left) =
    outcome_text number winner run done state tickets left

-- The text behind another.
unfoldable pub behind : List ℕ → List ℕ → Option (List ℕ)
behind [] s = some s
behind (c ∷ cs) [] = none
behind (c ∷ cs) (d ∷ s) = let rest = behind cs s in if c == d then rest else none

abbrev pub number_at : Option (List ℕ) → Option (ℕ × List ℕ)
number_at none = none
number_at (some rest) = some (read_digits 0 rest)

unfoldable pub read_field : List ℕ → List ℕ → Option (ℕ × List ℕ)
read_field name s = number_at (behind name s)

unfoldable pub read_state : List ℕ → Option (TaskState × List ℕ)
read_state s = elim (behind (bytes "TASK_READY") s) [
  | some rest ↦ some (ready, rest)
  | none ↦ elim (behind (bytes "TASK_RUNNING") s) [
    | some rest ↦ some (running, rest)
    | none ↦ elim (behind (bytes "TASK_FINISHED") s) [
      | some rest ↦ some (finished, rest)
      | none ↦ none
    ]
  ]
]

abbrev pub read_drawn : ℕ → ℕ → ℕ × List ℕ → Option Event
read_drawn number winner (ticket, s) = do
  (sum, s) ← read_field (bytes ", active_tickets=") s
  (left, s) ← read_field (bytes ", work_units_remaining=") s
  some (drawn number winner ticket sum left)

abbrev pub read_outcome : ℕ → ℕ → List ℕ → Option Event
read_outcome number winner s = do
  (run, s) ← read_field (bytes ", run_units=") s
  (done, s) ← read_field (bytes ", completed_units=") s
  s ← behind (bytes ", state_after=") s
  (state, s) ← read_state s
  (tickets, s) ← read_field (bytes ", tickets_after=") s
  (left, s) ← read_field (bytes ", work_units_remaining_after=") s
  some (outcome number winner run done state tickets left)

-- A winning ticket tells the one line from the other.
abbrev pub read_rest : ℕ → ℕ → List ℕ → Option Event
read_rest number winner s = elim (read_field (bytes ", winning_ticket=") s) [
  | some ticket ↦ read_drawn number winner ticket
  | none ↦ read_outcome number winner s
]

-- Reads a line of the log.
unfoldable pub read_event : List ℕ → Option Event
read_event s = do
  (number, s) ← read_field (bytes "dispatch=") s
  (winner, s) ← read_field (bytes ", winner_id=") s
  read_rest number winner s
