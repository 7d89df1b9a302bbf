-- ===== src/Tests/Threads.antt =====
-- A dispatch in small steps: task 1 of tasks with 4 units each runs for a quantum of 2.
use soa_p1_grupo_cu.Base.{
  ℕ, ◌+◌, ◌<◌, ◌≡◌, refl, true, false, none, ◌==◌, Bool-cases, inl, inr, List, [], ◌∷◌,
}
use soa_p1_grupo_cu.Task.{
  clamp_fraction, Task, Node, new_task, is_running, task_transition_to_running,
}
use soa_p1_grupo_cu.Task.Work.{
  next_term, add_term, task_do_one_working_unit, task_compute_early_limit, report,
}
use soa_p1_grupo_cu.Task.Dispatch.{allotment}
use soa_p1_grupo_cu.Threads.Report.{Moves, none_left, one_more}
use soa_p1_grupo_cu.Threads.{
  Worker, Phase, World, Reach, at_start, after, worker, pass, settle, send, begin_quantum, unit,
  used_up, changed,
}
use soa_p1_grupo_cu.Threads.Bound.{MovesOn, running-bound}
use soa_p1_grupo_cu.Threads.Wait.{Resting}
use soa_p1_grupo_cu.Threads.Exclusion.{exclusive_control, one_computes}
use soa_p1_grupo_cu.Tests.Fixed.{fixed}
use soa_p1_grupo_cu.Tests.Sample.{node_of}

abbrev tasks : ℕ → Task
tasks j = new_task j 3 4 1000

abbrev four : ℕ → ℕ
four j = 4

abbrev sent_one : ℕ → Task
sent_one = changed tasks 1 (task_transition_to_running (tasks 1) 1).0

abbrev drawing : World
drawing = record { tasks = tasks; workers = λ j. Worker.at_head; scheduler = Phase.deciding }

drawing_reached : Reach 2 four tasks drawing
drawing_reached = after (after at_start (pass refl (λ j. refl))) (settle true none refl)

exclusive_control_example : Resting 2 (drawing.workers 1) (drawing.tasks 1)
exclusive_control_example = exclusive_control 2 four (λ j. refl) drawing_reached refl 1

abbrev working : (w : World) × Reach 2 four tasks w
unfolding task_transition_to_running task_compute_early_limit
working = (
  _,
  after (after drawing_reached (send 1 1 refl refl)) (worker 1 (begin_quantum refl refl refl)),
)

abbrev back : (w : World) × Reach 2 four tasks w
unfolding task_transition_to_running task_compute_early_limit task_do_one_working_unit next_term
    add_term report clamp_fraction
back = (
  _,
  after (after (after working.1 (worker 1 (unit refl refl))) (worker 1 (unit refl refl)))
      (worker 1 used_up),
)

back_idle : (j : ℕ) → is_running (back.0.tasks j).state ≡ false
unfolding task_transition_to_running task_compute_early_limit task_do_one_working_unit next_term
    add_term report clamp_fraction
back_idle j = elim (Bool-cases (1 == j)) [ inl e ↦ rw e refl | inr e ↦ rw e refl ]

one_computes_example : (◌≡◌ {A = ℕ} 1 1) × (is_running (working.0.tasks 1).state ≡ true)
unfolding working
one_computes_example = one_computes 2 four 1 1 (λ j. refl) working.1 refl refl

abbrev winner : Node
winner = record (node_of 1 3 4 1000) { task = sent_one 1 }

abbrev nodes : List Node
nodes = node_of 0 3 4 1000 ∷ winner ∷ node_of 2 3 4 1000 ∷ []

one_move :
    Moves 2 4 1 Worker.at_head
      (sent_one 1)
      (Worker.computing (task_compute_early_limit 2 (sent_one 1).yield_fraction))
      (sent_one 1)
unfolding task_transition_to_running
one_move = one_more (begin_quantum refl refl refl) none_left

running-bound_example :
    (1 < allotment 2 (sent_one 1) + 2)
    × MovesOn 2 4
        (Worker.computing (task_compute_early_limit 2 (sent_one 1).yield_fraction))
        (sent_one 1)
unfolding task_transition_to_running
running-bound_example = running-bound 2 4 one_move refl
