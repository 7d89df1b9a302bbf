-- ===== src/Scheduler/Bounded.antt =====
-- src/scheduler.c: the units of the tasks when the main loop ends fit their 32 bits.
use soa_p1_grupo_cu.Base.{ℕ, ◌≤◌, ◌<◌, ◌^◌, ◌≡◌, refl, some, List, [], ◌∷◌, All, length, arith}
use soa_p1_grupo_cu.Base.Float.{Floats, IsIeee}
use soa_p1_grupo_cu.Task.{Node, task_shutdown_all}
use soa_p1_grupo_cu.Task.Series.{Converges}
use soa_p1_grupo_cu.Scheduler.{Config, Sched, scheduler_main_loop}
use soa_p1_grupo_cu.Scheduler.Nodes.{All-map}
use soa_p1_grupo_cu.Scheduler.Round.{IsNode}
use soa_p1_grupo_cu.Scheduler.Progress.{AtRest-le, Plays-Settled}
use soa_p1_grupo_cu.Scheduler.Rule.{Kept, main_loop-Kept}

module _ ⦃fl : Floats⦄ where
  abbrev pub IsSmall : Node → Type 0
  IsSmall n = n.task.work_units_done < 2 ^ 32

  IsNode-IsSmall : (n : Node) → IsNode n → IsSmall n
  IsNode-IsSmall n h =
      omega (arith, h.small, AtRest-le n.task.state n.task.work_units_done n.work_units h.at_rest)

  pub record Bounded (s : Sched) : Type 0 where
    pub few : length s.nodes ≤ 25
    pub small : All IsSmall s.nodes

  shutdown_few : (ns : List Node) → length (task_shutdown_all ns) ≡ length ns
  unfolding task_shutdown_all
  shutdown_few [] = refl
  shutdown_few (n ∷ ns) = omega (arith, shutdown_few ns)

  shutdown-IsSmall : (ns : List Node) → All IsSmall ns → All IsSmall (task_shutdown_all ns)
  unfolding task_shutdown_all
  shutdown-IsSmall [] h = tt
  shutdown-IsSmall (n ∷ ns) h = (ground (arith, h.0), shutdown-IsSmall ns h.1)

  module _ (conv : Converges) (ieee : IsIeee fl) (c : Config) where
    Bounded-Kept : Kept conv ieee c Bounded
    Bounded-Kept = record {
      plays = λ s t i n h b pl.
          let h' = Plays-Settled conv ieee c s t i n h pl in
          record { few = h'.few; small = All-map IsNode IsSmall IsNode-IsSmall t.nodes h'.rest };
      shutdown = λ s b. record {
        few = omega (arith, shutdown_few s.nodes, b.few);
        small = shutdown-IsSmall s.nodes b.small;
      };
    }

    pub main_loop-Bounded :
        (fuel rng : ℕ) (ns : List Node) (r : Sched)
        → All IsNode ns
        → length ns ≤ 25
        → scheduler_main_loop fuel c rng ns ≡ some r
        → Bounded r
    main_loop-Bounded fuel rng ns r h few e =
        main_loop-Kept conv ieee c Bounded Bounded-Kept fuel rng ns r h few
          (record { few = few; small = All-map IsNode IsSmall IsNode-IsSmall ns h }) e
