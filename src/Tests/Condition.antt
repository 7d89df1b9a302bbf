-- ===== src/Tests/Condition.antt =====
-- The same two workers with the condition variable: who waits, and whom a broadcast wakes.
use mathlib.Core.WellFounded.{Acc}
use soa_p1_grupo_cu.Base.{true, ℕ, zero, suc, get_elem?, ◌+◌, ◌≡◌, refl, some, arith}
use soa_p1_grupo_cu.Task.{
  clamp_fraction, Node, task_transition_to_running, task_apply_compensation, task_is_eligible,
  task_is_finished,
}
use soa_p1_grupo_cu.Task.Work.{
  next_term, add_term, task_do_one_working_unit, task_compute_early_limit, report,
}
use soa_p1_grupo_cu.Lottery.{
  cumulative_from, scheduler_calculate_cumulutive_tickets, scheduler_all_tasks_finished,
  winner_from, scheduler_winner_task, scheduler_sort_winner_ticket,
}
use soa_p1_grupo_cu.Rng.{xorshift, rng_xorshift32_get}
use soa_p1_grupo_cu.Scheduler.{
  on_task, outcome_event, settle, dispatch, lottery, decide, scheduler_main_loop,
}
use soa_p1_grupo_cu.Scheduler.Turns.{remaining}
use soa_p1_grupo_cu.Threads.{is_exited, begin_quantum, unit, used_up, all_done, quit}
use soa_p1_grupo_cu.Threads.Machine.{work, wake, log_back, go_on, stop}
use soa_p1_grupo_cu.Threads.Completes.{IsOver}
use soa_p1_grupo_cu.Threads.Condition.{
  Hall, does, worker_waits, scheduler_waits, Visits, opened, went, decision_broadcasts,
}
use soa_p1_grupo_cu.Threads.Awake.{Watch, Visits-Watch}
use soa_p1_grupo_cu.Threads.Terminates.{Came, Visits-halts, Visits-ends, over-stuck}
use soa_p1_grupo_cu.Tests.Interleaving.{pair, pair-IsNode}
use soa_p1_grupo_cu.Tests.Fixed.{fixed, fixed-IsIeee, fixed-Converges}
use soa_p1_grupo_cu.Tests.Sample.{quick}

abbrev waiting_for_one : (h : Hall) × Visits quick 7 pair h
unfolding settle decide lottery dispatch scheduler_calculate_cumulutive_tickets cumulative_from
    scheduler_all_tasks_finished scheduler_winner_task winner_from scheduler_sort_winner_ticket
    rng_xorshift32_get task_is_eligible task_is_finished xorshift task_transition_to_running on_task
    task_compute_early_limit task_do_one_working_unit next_term add_term report clamp_fraction
    outcome_event task_apply_compensation decision_broadcasts
waiting_for_one = (
  _,
  went
      (went
        (went
          (went
            (went
              (went (went (opened) (worker_waits 0 refl refl refl refl))
                (worker_waits 1 refl refl refl refl))
              (does (wake refl (refl, (refl, tt))) refl refl))
            (does (log_back refl) refl refl))
          (does (go_on refl refl) refl refl))
        (scheduler_waits 1 refl refl refl refl))
      (worker_waits 0 refl refl refl refl),
)

abbrev sent_again : (h : Hall) × Visits quick 7 pair h
unfolding settle decide lottery dispatch scheduler_calculate_cumulutive_tickets cumulative_from
    scheduler_all_tasks_finished scheduler_winner_task winner_from scheduler_sort_winner_ticket
    rng_xorshift32_get task_is_eligible task_is_finished xorshift task_transition_to_running on_task
    task_compute_early_limit task_do_one_working_unit next_term add_term report clamp_fraction
    outcome_event task_apply_compensation decision_broadcasts waiting_for_one
sent_again = (
  _,
  went
      (went
        (went
          (went
            (went
              (went
                (went (waiting_for_one.1)
                  (does (work 1 refl (begin_quantum refl refl refl)) refl refl))
                (does (work 1 refl (unit refl refl)) refl refl))
              (does (work 1 refl (unit refl refl)) refl refl))
            (does (work 1 refl used_up) refl refl))
          (does (wake refl (refl, (refl, tt))) refl refl))
        (does (log_back refl) refl refl))
      (does (go_on refl refl) refl refl),
)

abbrev closed : (h : Hall) × Visits quick 7 pair h
unfolding settle decide lottery dispatch scheduler_calculate_cumulutive_tickets cumulative_from
    scheduler_all_tasks_finished scheduler_winner_task winner_from scheduler_sort_winner_ticket
    rng_xorshift32_get task_is_eligible task_is_finished xorshift task_transition_to_running on_task
    task_compute_early_limit task_do_one_working_unit next_term add_term report clamp_fraction
    outcome_event task_apply_compensation decision_broadcasts waiting_for_one sent_again
closed = (
  _,
  went
      (went
        (went
          (went
            (went
              (went
                (went
                  (went (went (sent_again.1) (scheduler_waits 0 refl refl refl refl))
                    (does (work 0 refl (begin_quantum refl refl refl)) refl refl))
                  (does (work 0 refl (unit refl refl)) refl refl))
                (does (work 0 refl (all_done refl)) refl refl))
              (does (wake refl (refl, (refl, tt))) refl refl))
            (does (log_back refl) refl refl))
          (does (stop refl refl) refl refl))
        (does (work 0 refl (quit refl)) refl refl))
      (does (work 1 refl (quit refl)) refl refl),
)

closed-IsOver : IsOver closed.0.machine
unfolding settle decide lottery dispatch scheduler_calculate_cumulutive_tickets cumulative_from
    scheduler_all_tasks_finished scheduler_winner_task winner_from scheduler_sort_winner_ticket
    rng_xorshift32_get task_is_eligible task_is_finished xorshift task_transition_to_running on_task
    task_compute_early_limit task_do_one_working_unit next_term add_term report clamp_fraction
    outcome_event task_apply_compensation decision_broadcasts waiting_for_one sent_again closed
closed-IsOver = record { ended = refl; left = λ i n at. out i n at }
  where
    out :
        (i : ℕ) (n : Node)
        → get_elem? closed.0.machine.sched.nodes i ≡ some n
        → is_exited (closed.0.machine.workers i) ≡ true
    out zero n at = refl
    out (suc zero) n at = refl
    out (suc (suc i)) n at = absurd (cc)

Visits-Watch_example : Watch quick waiting_for_one.0
Visits-Watch_example = Visits-Watch quick 7 pair waiting_for_one.1

Visits-halts_example : Acc (Came quick) sent_again.0
Visits-halts_example =
    Visits-halts quick 7 pair fixed-Converges fixed-IsIeee sent_again.1 pair-IsNode (omega arith)

Visits-ends_example :
    IsOver closed.0.machine
    × (scheduler_main_loop (remaining pair + 1) quick 7 pair ≡ some closed.0.machine.sched)
Visits-ends_example =
    Visits-ends quick 7 pair fixed-Converges fixed-IsIeee closed.1 pair-IsNode (omega arith)
      (over-stuck quick closed.0 closed-IsOver)
