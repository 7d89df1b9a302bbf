-- ===== src/Scheduler/Rule.antt =====
-- The invariant rule of the main loop: what every dispatch keeps holds at its end.
use soa_p1_grupo_cu.Base.{Option, ℕ, zero, suc, ◌≤◌, ◌≡◌, refl, some, List, All, length}
use mathlib.Core.Path.{subst}
use soa_p1_grupo_cu.Base.Float.{Floats, IsIeee}
use soa_p1_grupo_cu.Task.{Node, task_shutdown_all}
use soa_p1_grupo_cu.Task.Series.{Converges}
use soa_p1_grupo_cu.Scheduler.{
  Config, Sched, Turn, again, leave, turn, main_loop, start, scheduler_main_loop,
}
use soa_p1_grupo_cu.Scheduler.Round.{IsNode}
use soa_p1_grupo_cu.Scheduler.Turns.{
  Settled, after, Plays, Decided, capped, over, plays, decide-Decided,
}
use soa_p1_grupo_cu.Scheduler.Progress.{Plays-Settled, after-start}

module _ ⦃fl : Floats⦄ (conv : Converges) (ieee : IsIeee fl) (c : Config) where
  -- What a dispatch keeps, and the shutdown too.
  pub record Kept (P : Sched → Type 0) : Type 0 where
    pub plays : (s t : Sched) (i : ℕ) (n : Node) → Settled s → P s → Plays c s i n t → P t
    pub shutdown : (s : Sched) → P s → P (record s { nodes = task_shutdown_all s.nodes })

  abbrev outcome_of : ℕ → Turn → Option Sched
  outcome_of fuel (again s) = main_loop fuel c s
  outcome_of fuel (leave s) = some s

  -- One turn, with the rest of the loop as an argument.
  turn-Kept :
      (P : Sched → Type 0)
      → Kept P
      → (fuel : ℕ) (s r : Sched) → Settled s
      → P s
      → {t : Turn} → Decided c s t
      → ((s' : Sched) → Settled (after c s') → P (after c s') → main_loop fuel c s' ≡ some r → P r)
      → outcome_of fuel t ≡ some r
      → P r
  turn-Kept P kept fuel s r h p (capped a b) rest found = subst P (cc found) (kept.shutdown s p)
  turn-Kept P kept fuel s r h p (over all) rest found = subst P (cc found) p
  turn-Kept P kept fuel s r h p (plays {s'} i n open_cap pl) rest found =
      rest s' (Plays-Settled conv ieee c s (after c s') i n h pl)
        (kept.plays s (after c s') i n h p pl) found

  loop-Kept :
      (P : Sched → Type 0)
      → Kept P
      → (fuel : ℕ) (s r : Sched) → Settled (after c s)
      → P (after c s)
      → main_loop fuel c s ≡ some r
      → P r
  unfolding main_loop turn
  loop-Kept P kept zero s r h p e = absurd (cc)
  loop-Kept P kept (suc fuel) s r h p e =
      turn-Kept P kept fuel (after c s) r h p (decide-Decided c (after c s) h)
        (λ s' h' p'. loop-Kept P kept fuel s' r h' p') e

  pub main_loop-Kept :
      (P : Sched → Type 0)
      → Kept P
      → (fuel rng : ℕ) (ns : List Node) (r : Sched) → All IsNode ns
      → length ns ≤ 25
      → P (start rng ns)
      → scheduler_main_loop fuel c rng ns ≡ some r
      → P r
  unfolding scheduler_main_loop
  main_loop-Kept P kept fuel rng ns r h few p e =
      let same = after-start conv ieee c rng ns h in
      loop-Kept P kept fuel (start rng ns) r
        (rw same (record { rest = h; few = few; quiet = refl })) (rw same p) e
