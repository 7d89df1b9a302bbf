-- ===== src/Tests/Sample.antt =====
-- Five tasks as the parser makes them of a file, over the decimals of `Fixed`.
use soa_p1_grupo_cu.Base.{ℕ, ◌≤◌, ◌<◌, ◌^◌, ◌-◌, List, [], ◌∷◌, arith, All, true, false}
use soa_p1_grupo_cu.Task.{Node, new_task}
use soa_p1_grupo_cu.Scheduler.{Config}
use soa_p1_grupo_cu.Scheduler.Start.{new-IsNode}
use soa_p1_grupo_cu.Scheduler.Round.{IsNode}
use soa_p1_grupo_cu.Tests.Fixed.{fixed, fixed-IsIeee}

abbrev pub node_of : ℕ → ℕ → ℕ → ℕ → Node
node_of id tickets units fraction = record {
  id = id;
  tickets = tickets;
  work_units = units;
  task = new_task id tickets units fraction;
}

abbrev pub sample : List Node
sample =
    node_of 1 3 4 1000
    ∷ node_of 2 1 2 1000
    ∷ node_of 3 2 3 500
    ∷ node_of 4 1 1 1000
    ∷ node_of 5 5 6 250
    ∷ []

abbrev pub crowded : List Node
crowded = node_of 1 (2 ^ 32 - 1) 4 1000 ∷ node_of 2 7 2 1000 ∷ []

abbrev pub quick : Config
quick = record { quantum = 2; max_dispatches = 0; compensation = true }

abbrev pub short : Config
short = record { quantum = 2; max_dispatches = 3; compensation = false }

pub node_of-IsNode :
    (id tickets units y : ℕ)
    → 100 ≤ y
    → 0 < tickets
    → tickets < 2 ^ 32
    → 0 < units
    → units < 2 ^ 32
    → IsNode (node_of id tickets units y)
node_of-IsNode id tickets units y h =
    new-IsNode fixed-IsIeee id tickets units y (λ pos. ground arith)

pub sample-IsNode : All IsNode sample
sample-IsNode = (
  node_of-IsNode 1 3 4 1000 (omega arith) (omega arith) (omega arith) (omega arith) (omega arith),
  (
    node_of-IsNode 2 1 2 1000 (omega arith) (omega arith) (omega arith) (omega arith) (omega arith),
    (
      node_of-IsNode 3 2 3 500 (omega arith) (omega arith) (omega arith) (omega arith)
          (omega arith),
      (
        node_of-IsNode 4 1 1 1000 (omega arith) (omega arith) (omega arith) (omega arith)
            (omega arith),
        (
          node_of-IsNode 5 5 6 250 (omega arith) (omega arith) (omega arith) (omega arith)
              (omega arith),
          tt,
        ),
      ),
    ),
  ),
)
