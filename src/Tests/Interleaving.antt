-- ===== src/Tests/Interleaving.antt =====
-- The scheduler thread and two workers: task 1 with one unit and task 2 with two, in quanta of 2.
use soa_p1_grupo_cu.Base.{◌+◌, ◌≡◌, refl, some, List, [], ◌∷◌, All, arith}
use soa_p1_grupo_cu.Task.{
  clamp_fraction, Node, task_transition_to_running, task_apply_compensation, task_is_eligible,
  task_is_finished,
}
use soa_p1_grupo_cu.Task.Work.{
  next_term, add_term, task_do_one_working_unit, task_compute_early_limit, report,
}
use soa_p1_grupo_cu.Lottery.{
  cumulative_from, scheduler_calculate_cumulutive_tickets, scheduler_all_tasks_finished,
  winner_from, scheduler_winner_task, scheduler_sort_winner_ticket,
}
use soa_p1_grupo_cu.Rng.{xorshift, rng_xorshift32_get}
use soa_p1_grupo_cu.Scheduler.{
  on_task, outcome_event, settle, dispatch, lottery, decide, scheduler_main_loop,
}
use soa_p1_grupo_cu.Scheduler.Round.{IsNode}
use soa_p1_grupo_cu.Threads.{begin_quantum, unit, used_up, all_done, quit}
use soa_p1_grupo_cu.Threads.Machine.{
  Machine, work, wake, log_back, go_on, stop, Runs, begun, acted, turns,
}
use soa_p1_grupo_cu.Threads.Agree.{Runs-main_loop, Runs-agree}
use soa_p1_grupo_cu.Tests.Fixed.{fixed}
use soa_p1_grupo_cu.Tests.Sample.{node_of, node_of-IsNode, quick}

abbrev pub pair : List Node
pair = node_of 1 3 1 1000 ∷ node_of 2 1 2 1000 ∷ []

-- The first draw.
abbrev first_sent : (m : Machine) × Runs quick 7 pair m
unfolding settle decide lottery dispatch scheduler_calculate_cumulutive_tickets cumulative_from
    scheduler_all_tasks_finished scheduler_winner_task winner_from scheduler_sort_winner_ticket
    rng_xorshift32_get task_is_eligible task_is_finished xorshift
first_sent = (
  _,
  acted (acted (acted begun (wake refl (refl, (refl, tt)))) (log_back refl)) (go_on refl refl),
)

-- The worker of task 2 does its two units.
abbrev second_sent : (m : Machine) × Runs quick 7 pair m
unfolding settle decide lottery dispatch scheduler_calculate_cumulutive_tickets cumulative_from
    scheduler_all_tasks_finished scheduler_winner_task winner_from scheduler_sort_winner_ticket
    rng_xorshift32_get task_is_eligible task_is_finished xorshift task_transition_to_running on_task
    task_compute_early_limit task_do_one_working_unit next_term add_term report clamp_fraction
    outcome_event task_apply_compensation first_sent
second_sent = (
  _,
  acted
      (acted
        (acted
          (acted
            (acted
              (acted (acted first_sent.1 (work 1 refl (begin_quantum refl refl refl)))
                (work 1 refl (unit refl refl)))
              (work 1 refl (unit refl refl)))
            (work 1 refl used_up))
          (wake refl (refl, (refl, tt))))
        (log_back refl))
      (go_on refl refl),
)

-- The worker of task 2 has left before that of task 1 works.
abbrev ended : (m : Machine) × Runs quick 7 pair m
unfolding settle decide lottery dispatch scheduler_calculate_cumulutive_tickets cumulative_from
    scheduler_all_tasks_finished scheduler_winner_task winner_from scheduler_sort_winner_ticket
    rng_xorshift32_get task_is_eligible task_is_finished xorshift task_transition_to_running on_task
    task_compute_early_limit task_do_one_working_unit next_term add_term report clamp_fraction
    outcome_event task_apply_compensation first_sent second_sent
ended = (
  _,
  acted
      (acted
        (acted
          (acted
            (acted
              (acted (acted second_sent.1 (work 1 refl (quit refl)))
                (work 0 refl (begin_quantum refl refl refl)))
              (work 0 refl (unit refl refl)))
            (work 0 refl (all_done refl)))
          (wake refl (refl, (refl, tt))))
        (log_back refl))
      (stop refl refl),
)

-- The same, but that worker leaves after the main loop has ended.
abbrev ended_late : (m : Machine) × Runs quick 7 pair m
unfolding settle decide lottery dispatch scheduler_calculate_cumulutive_tickets cumulative_from
    scheduler_all_tasks_finished scheduler_winner_task winner_from scheduler_sort_winner_ticket
    rng_xorshift32_get task_is_eligible task_is_finished xorshift task_transition_to_running on_task
    task_compute_early_limit task_do_one_working_unit next_term add_term report clamp_fraction
    outcome_event task_apply_compensation first_sent second_sent
ended_late = (
  _,
  acted
      (acted
        (acted
          (acted
            (acted
              (acted (acted second_sent.1 (work 0 refl (begin_quantum refl refl refl)))
                (work 0 refl (unit refl refl)))
              (work 0 refl (all_done refl)))
            (wake refl (refl, (refl, tt))))
          (log_back refl))
        (stop refl refl))
      (work 1 refl (quit refl)),
)

pub pair-IsNode : All IsNode pair
pair-IsNode = (
  node_of-IsNode 1 3 1 1000 (omega arith) (omega arith) (omega arith) (omega arith) (omega arith),
  (
    node_of-IsNode 2 1 2 1000 (omega arith) (omega arith) (omega arith) (omega arith) (omega arith),
    tt,
  ),
)

Runs-main_loop_example :
    scheduler_main_loop (turns quick ended.1 + 1) quick 7 pair ≡ some ended.0.sched
unfolding ended
Runs-main_loop_example = Runs-main_loop quick 7 pair ended.1 refl

Runs-agree_example : ended.0.sched ≡ ended_late.0.sched
unfolding ended ended_late
Runs-agree_example = Runs-agree quick 7 pair ended.1 ended_late.1 refl refl
