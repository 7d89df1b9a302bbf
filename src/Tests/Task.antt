-- ===== src/Tests/Task.antt =====
-- The operations on a task at concrete values.
use soa_p1_grupo_cu.Base.{◌≡◌, refl, true, arith}
use soa_p1_grupo_cu.Task.{
  ready, running, finished, Task, new_task, compensated, clamp_fraction, task_transition_to_running,
  task_transition_to_ready, task_transition_to_finished, task_apply_compensation,
}
use soa_p1_grupo_cu.Task.Work.{task_compute_early_limit, task_do_work_unit}
use soa_p1_grupo_cu.Task.Life.{Granted, transitions-Granted}
use soa_p1_grupo_cu.Task.Compensation.{Compensated, apply_compensation-Compensated}
use soa_p1_grupo_cu.Task.Dispatch.{Round, do_work_unit-Round}
use soa_p1_grupo_cu.Task.Series.{series}
use soa_p1_grupo_cu.Tests.Fixed.{fixed, fixed-IsIeee, fixed-Converges}
use soa_p1_grupo_cu.Tests.Sample.{node_of}

-- Half of a slice of 5 is 3 units.
half_slice : task_compute_early_limit 5 500 ≡ 3
unfolding task_compute_early_limit
half_slice = refl

abbrev early : Task
early = new_task 5 5 6 250

-- Five tickets at a quarter of the slice count as twenty.
boosted : (task_apply_compensation early true).effective_tickets ≡ 20
unfolding task_apply_compensation compensated clamp_fraction
boosted = refl

transitions-Granted_example :
    (let (t', done) = task_transition_to_running early 1 in Granted ready running done t'.state)
    × (let (t', done) = task_transition_to_ready early in Granted ready ready done t'.state)
    × (let (t', done) = task_transition_to_finished early in Granted ready finished done t'.state)
transitions-Granted_example = transitions-Granted early 1

apply_compensation-Compensated_example : Compensated early (task_apply_compensation early true) true
unfolding clamp_fraction
apply_compensation-Compensated_example =
    apply_compensation-Compensated fixed-IsIeee early true (omega arith) refl

do_work_unit-Round_example :
    Round 4 (node_of 1 3 6 1000) (task_do_work_unit 4 (node_of 1 3 6 1000)).task
unfolding series
do_work_unit-Round_example =
    do_work_unit-Round fixed-Converges 4 (node_of 1 3 6 1000) refl (omega arith) (omega arith)
