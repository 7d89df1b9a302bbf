-- ===== src/Scheduler/Start.antt =====
-- A task as `task_create` makes it satisfies the invariant of the main loop.
use soa_p1_grupo_cu.Base.{ℕ, ◌^◌, ◌<◌, ◌≡◌, refl, true, arith}
use soa_p1_grupo_cu.Base.Float.{Floats, IsIeee}
use soa_p1_grupo_cu.Task.{Node, zero_s, clamp_fraction, new_task}
use soa_p1_grupo_cu.Task.Series.{series}
use soa_p1_grupo_cu.Scheduler.Round.{IsNode}

module _ ⦃fl : Floats⦄ where
  -- A fraction that the parser lets pass: at least 0.1f, or one that `task_create` replaces.
  abbrev pub Passed : fl.Single → Type 0
  Passed y = fl.lt_s zero_s y ≡ true → fl.le_s (fl.narrow fl.tenth) y ≡ true

  clamp-fits :
      IsIeee fl
      → (y : fl.Single) → Passed y
      → fl.le_s (fl.narrow fl.tenth) (clamp_fraction y) ≡ true
  unfolding clamp_fraction
  clamp-fits ieee y passed = ground (arith, ieee.tenth-le-one, passed)

  abbrev pub new_node : ℕ → ℕ → ℕ → fl.Single → Node
  new_node id tickets units y = record {
    id = id;
    tickets = tickets;
    work_units = units;
    task = new_task id tickets units y;
  }

  pub new-IsNode :
      IsIeee fl
      → (id tickets units : ℕ) (y : fl.Single) → Passed y
      → 0 < tickets
      → tickets < 2 ^ 32
      → 0 < units
      → units < 2 ^ 32
      → IsNode (new_node id tickets units y)
  unfolding series
  new-IsNode ieee id tickets units y passed pt st pu su = record {
    matched = refl;
    small = su;
    in_step = refl;
    at_rest = pu;
    tickets_pos = pt;
    tickets_small = st;
    stake_pos = pt;
    stake_small = st;
    fraction = clamp-fits ieee y passed;
  }
