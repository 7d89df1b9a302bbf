-- ===== src/Scheduler/ReadBack.antt =====
-- src/scheduler.c: the texts of the two `LOG_EVENT`s are read back to what was logged.
use soa_p1_grupo_cu.Base.{
  ℕ, ◌^◌, ◌<◌, ◌≡◌, true, arith, refl, ap, ◌∙◌, none, some, List, [], ◌∷◌, ◌++◌, ◌==◌,
}
use soa_p1_grupo_cu.Base.Text.{bytes}
use soa_p1_grupo_cu.Base.Decimal.{decimal, Ends, read-decimal}
use soa_p1_grupo_cu.Task.{TaskState, ready, running, finished}
use soa_p1_grupo_cu.Scheduler.{Event, drawn, outcome}
use soa_p1_grupo_cu.Scheduler.Lines.{
  task_state_enum_to_str, field_text, event_text, behind, number_at, read_field, read_state,
  read_drawn, read_outcome, read_rest, read_event,
}

behind-append : (name s : List ℕ) → behind name (name ++ s) ≡ some s
unfolding behind
behind-append [] s = refl
behind-append (c ∷ cs) s = let same : (c == c) ≡ true = ground arith in rw same (behind-append cs s)

read_field-text :
    (name : List ℕ) (n : ℕ) (rest : List ℕ)
    → n < 2 ^ 64
    → Ends rest
    → read_field name (field_text name n rest) ≡ some (n, rest)
unfolding read_field
read_field-text name n rest fits ends =
    ap number_at (behind-append name (decimal n ++ rest)) ∙ ap some (read-decimal n rest fits ends)

-- The numbers are of at most 64 bits.
abbrev pub FitsLine : Event → Type 0
FitsLine (drawn number winner ticket sum left) =
    (number < 2 ^ 64) × (winner < 2 ^ 64) × (ticket < 2 ^ 64) × (sum < 2 ^ 64) × (left < 2 ^ 64)
FitsLine (outcome number winner run done state tickets left) =
    (number < 2 ^ 64)
    × (winner < 2 ^ 64)
    × (run < 2 ^ 64)
    × (done < 2 ^ 64)
    × (tickets < 2 ^ 64)
    × (left < 2 ^ 64)

-- The two events that a text of a dispatch and a winner may go on to.
read_drawn-text :
    (number winner ticket sum left : ℕ)
    → sum < 2 ^ 64
    → left < 2 ^ 64
    → read_drawn number winner (
      ticket,
      field_text
          (bytes ", active_tickets=")
          sum
          (field_text (bytes ", work_units_remaining=") left []),
    )
      ≡ some (drawn number winner ticket sum left)
read_drawn-text number winner ticket sum left fs fl =
    rw
      (
        read_field-text (bytes ", active_tickets=") sum
            (field_text (bytes ", work_units_remaining=") left []) fs refl,
        read_field-text (bytes ", work_units_remaining=") left [] fl tt,
      )
      refl

-- What follows the units of an outcome.
abbrev state_text : TaskState → ℕ → ℕ → List ℕ
state_text state tickets left =
    bytes ", state_after="
    ++ task_state_enum_to_str state
    ++ field_text (bytes ", tickets_after=") tickets
        (field_text (bytes ", work_units_remaining_after=") left [])

read_state-text :
    (state : TaskState) (s : List ℕ)
    → read_state (task_state_enum_to_str state ++ s) ≡ some (state, s)
unfolding read_state task_state_enum_to_str behind
read_state-text ready s = refl
read_state-text running s = refl
read_state-text finished s = refl

read_outcome-text :
    (number winner run done : ℕ) (state : TaskState) (tickets left : ℕ)
    → run < 2 ^ 64
    → done < 2 ^ 64
    → tickets < 2 ^ 64
    → left < 2 ^ 64
    → read_outcome number winner (
        field_text
          (bytes ", run_units=")
          run
          (field_text (bytes ", completed_units=") done (state_text state tickets left)))
      ≡ some (outcome number winner run done state tickets left)
read_outcome-text number winner run done state tickets left fr fd ft fl =
    let last = field_text (bytes ", work_units_remaining_after=") left [] in
    let behind_state = field_text (bytes ", tickets_after=") tickets last in
    rw
      (
        read_field-text (bytes ", run_units=") run
            (field_text (bytes ", completed_units=") done (state_text state tickets left)) fr refl,
        read_field-text (bytes ", completed_units=") done (state_text state tickets left) fd refl,
        behind-append (bytes ", state_after=") (task_state_enum_to_str state ++ behind_state),
        read_state-text state behind_state,
        read_field-text (bytes ", tickets_after=") tickets last ft refl,
        read_field-text (bytes ", work_units_remaining_after=") left [] fl tt,
      )
      refl

not_a_ticket :
    (run : ℕ) (rest : List ℕ)
    → read_field (bytes ", winning_ticket=") (field_text (bytes ", run_units=") run rest) ≡ none
unfolding read_field behind
not_a_ticket run rest = refl

read_event-rest :
    (number winner : ℕ) (rest : List ℕ)
    → number < 2 ^ 64
    → winner < 2 ^ 64
    → Ends rest
    → read_event
        (field_text (bytes "dispatch=") number (field_text (bytes ", winner_id=") winner rest))
      ≡ read_rest number winner rest
unfolding read_event
read_event-rest number winner rest fn fw ends =
    rw
      (
        read_field-text (bytes "dispatch=") number (field_text (bytes ", winner_id=") winner rest)
            fn refl,
        read_field-text (bytes ", winner_id=") winner rest fw ends,
      )
      refl

-- A line of the log can be read back: from the text that the format gives for an event whose
-- numbers are of at most 64 bits, `read_event` gets the event itself.
pub read-event_text : (e : Event) → FitsLine e → read_event (event_text e) ≡ some e
unfolding event_text
read-event_text (drawn number winner ticket sum left) (fn, fw, ft, fs, fl) =
    let last = field_text (bytes ", work_units_remaining=") left [] in
    let after_ticket = field_text (bytes ", active_tickets=") sum last in
    let after_winner = field_text (bytes ", winning_ticket=") ticket after_ticket in
    read_event-rest number winner after_winner fn fw refl
    ∙ rw (read_field-text (bytes ", winning_ticket=") ticket after_ticket ft refl, read_rest)
        (read_drawn-text number winner ticket sum left fs fl)
read-event_text (outcome number winner run done state tickets left) (fn, fw, fr, fd, ft, fl) =
    let after_run = field_text (bytes ", completed_units=") done (state_text state tickets left) in
    let after_winner = field_text (bytes ", run_units=") run after_run in
    read_event-rest number winner after_winner fn fw refl
    ∙ rw (not_a_ticket run after_run, read_rest)
        (read_outcome-text number winner run done state tickets left fr fd ft fl)
