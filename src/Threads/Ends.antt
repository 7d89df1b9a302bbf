-- ===== src/Threads/Ends.antt =====
-- src/scheduler.c and src/task.c: how the main loop ends among the threads, and after how many turns.
use mathlib.Core.Path.{subst}
use soa_p1_grupo_cu.Base.{
  ℕ, ◌+◌, ◌-◌, ◌≡◌, ◌≤◌, ◌<◌, arith, sym, ap, ◌∙◌, none, some, List, All, ltb, ltb→lt, ltb→ge,
  Bool-cases, inl, inr, length,
}
use soa_p1_grupo_cu.Base.Float.{Floats, IsIeee}
use soa_p1_grupo_cu.Task.{Node}
use soa_p1_grupo_cu.Task.Series.{Converges}
use soa_p1_grupo_cu.Scheduler.{Config, Sched, main_loop, scheduler_main_loop, start}
use soa_p1_grupo_cu.Scheduler.Fuel.{more_fuel, main_loop-agree}
use soa_p1_grupo_cu.Scheduler.Round.{IsNode}
use soa_p1_grupo_cu.Scheduler.Turns.{remaining}
use soa_p1_grupo_cu.Scheduler.Progress.{Ended, main_loop_ends}
use soa_p1_grupo_cu.Threads.{Worker}
use soa_p1_grupo_cu.Threads.Machine.{
  Point, in_wait, after_wait, choosing, stopped, Machine, Runs, turns,
}
use soa_p1_grupo_cu.Threads.Invariant.{Valid}
use soa_p1_grupo_cu.Threads.Agree.{Leads-unfinished, Runs-Valid, Runs-main_loop}

module _ ⦃fl : Floats⦄ (c : Config) where
  module _ (rng : ℕ) (ns : List Node) where
    Valid-unfinished :
        (k : ℕ) (p : Point) (s : Sched) (wks : ℕ → Worker)
        → Valid c rng ns k p s wks
        → scheduler_main_loop k c rng ns ≡ none
    Valid-unfinished k in_wait s wks (lead, w) = Leads-unfinished c rng ns k lead w.leads
    Valid-unfinished k after_wait s wks (lead, h) = Leads-unfinished c rng ns k lead h.leads
    Valid-unfinished k choosing s wks (lead, h) = Leads-unfinished c rng ns k lead h.leads
    Valid-unfinished k stopped s wks d = d.unfinished

    -- A number of turns after which the loop has ended is more than a run makes.
    below :
        {m : Machine} (fuel : ℕ) (run : Runs c rng ns m) (r : Sched)
        → scheduler_main_loop fuel c rng ns ≡ some r
        → turns c run < fuel
    unfolding scheduler_main_loop
    below {m} fuel run r e = elim (Bool-cases (ltb (turns c run) fuel)) [
      | inl less ↦ ltb→lt (turns c run) fuel less
      | inr more ↦
          let d = turns c run - fuel in
          let over = ltb→ge (turns c run) fuel more in
          let count : fuel + d ≡ turns c run = omega arith in
          let ends =
            ap (λ f. main_loop f c (start rng ns)) (sym count)
            ∙ more_fuel c fuel d (start rng ns) r e in
          absurd (
            cc (
              ends,
              Valid-unfinished (turns c run) m.point m.sched m.workers (Runs-Valid c rng ns run),
            ))
    ]

    module _ (conv : Converges) (ieee : IsIeee fl) where
      -- If none of the first 2^32 terms of the series overflows and the floating point numbers are
      -- as `IsIeee` says, over at most 25 tasks that satisfy the invariant: however the threads
      -- interleave, the main loop goes on to at most as many further turns as there are work units
      -- left.
      pub Runs-turns :
          {m : Machine} (run : Runs c rng ns m)
          → All IsNode ns
          → length ns ≤ 25
          → turns c run ≤ remaining ns
      Runs-turns run h few =
          let (r, ends, done) =
            main_loop_ends conv ieee c (remaining ns + 1) rng ns h few (omega arith) in
          let less = below (remaining ns + 1) run r ends in omega (arith, less)

      pub Runs-Ended :
          {m : Machine} (run : Runs c rng ns m)
          → All IsNode ns
          → length ns ≤ 25
          → m.point ≡ stopped
          → Ended conv ieee c m.sched
      unfolding scheduler_main_loop
      Runs-Ended {m} run h few at =
          let (r, ends, done) =
            main_loop_ends conv ieee c (remaining ns + 1) rng ns h few (omega arith) in
          let same =
            main_loop-agree c (remaining ns + 1) (turns c run + 1) (start rng ns) r m.sched ends
              (Runs-main_loop c rng ns run at) in
          subst (Ended conv ieee c) same done
