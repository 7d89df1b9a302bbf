-- ===== src/Tests/Scheduler.antt =====
-- Runs of the main loop over the sample.
use soa_p1_grupo_cu.Scheduler.Configure.{
  SlicedAll, wanted, scheduler_configure_cooperative, configure_cooperative-SlicedAll,
}
use soa_p1_grupo_cu.Base.{
  ℕ, zero, suc, ◌+◌, ◌*◌, u32, length, none, ◌≡◌, refl, some, All, get_elem?, arith,
}
use soa_p1_grupo_cu.Task.{Node, finished}
use soa_p1_grupo_cu.Scheduler.{Sched, drawn, outcome, scheduler_main_loop}
use soa_p1_grupo_cu.Base.Text.{bytes}
use soa_p1_grupo_cu.Base.Decimal.{decimal, digits}
use soa_p1_grupo_cu.Scheduler.Lines.{event_text, read_event}
use soa_p1_grupo_cu.Scheduler.ReadBack.{read-event_text}
use soa_p1_grupo_cu.Scheduler.Round.{play, Played, play-Played}
use soa_p1_grupo_cu.Scheduler.Log.{Paired, main_loop-Paired}
use soa_p1_grupo_cu.Scheduler.Ids.{DistinctIds}
use soa_p1_grupo_cu.Scheduler.Account.{logged_units, main_loop-logged_units}
use soa_p1_grupo_cu.Scheduler.Progress.{Ended, main_loop_ends}
use soa_p1_grupo_cu.Tests.Fixed.{fixed, fixed-IsIeee, fixed-Converges}
use soa_p1_grupo_cu.Tests.Sample.{node_of, sample, quick, sample-IsNode}

main_loop_ends_example :
    (r : Sched) × (scheduler_main_loop 17 quick 2026 sample ≡ some r)
    × Ended fixed-Converges fixed-IsIeee quick r
main_loop_ends_example =
    main_loop_ends fixed-Converges fixed-IsIeee quick 17 2026 sample sample-IsNode (omega arith)
      (omega arith)

play-Played_example : Played quick (node_of 5 5 6 250) (play quick 1 (node_of 5 5 6 250))
play-Played_example =
    play-Played fixed-Converges fixed-IsIeee quick 1 (node_of 5 5 6 250) sample-IsNode.1.1.1.1.0
      refl

configure_cooperative-SlicedAll_example :
    SlicedAll (wanted 50000) sample (scheduler_configure_cooperative 50000 sample)
configure_cooperative-SlicedAll_example = configure_cooperative-SlicedAll 50000 sample

sample_id : (i : ℕ) (n : Node) → get_elem? sample i ≡ some n → n.id ≡ suc i
sample_id zero n at = cc
sample_id (suc zero) n at = cc
sample_id (suc (suc zero)) n at = cc
sample_id (suc (suc (suc zero))) n at = cc
sample_id (suc (suc (suc (suc zero)))) n at = cc
sample_id (suc (suc (suc (suc (suc i))))) n at = absurd (cc)

sample-DistinctIds : DistinctIds sample
sample-DistinctIds i j n m at_i at_j same =
    omega (arith, sample_id i n at_i, sample_id j m at_j, same)

main_loop-logged_units_example :
    All
      (λ (n : Node). logged_units n.id main_loop_ends_example.0.log ≡ n.task.work_units_done)
      main_loop_ends_example.0.nodes
main_loop-logged_units_example =
    main_loop-logged_units fixed-Converges fixed-IsIeee quick 17 2026 sample
      main_loop_ends_example.0 sample-IsNode (omega arith) sample-DistinctIds
      (refl, (refl, (refl, (refl, (refl, tt))))) main_loop_ends_example.1

main_loop-Paired_example :
    Paired 1 main_loop_ends_example.0.log
    × ((k : ℕ) × (length main_loop_ends_example.0.log ≡ 2 * k)
        × (main_loop_ends_example.0.global_dispatch ≡ u32 (1 + k))
        × (scheduler_main_loop k quick 2026 sample ≡ none)
        × (scheduler_main_loop (suc k) quick 2026 sample ≡ some main_loop_ends_example.0))
main_loop-Paired_example =
    main_loop-Paired fixed-Converges fixed-IsIeee quick 17 2026 sample main_loop_ends_example.0
      sample-IsNode (omega arith) main_loop_ends_example.1

read-event_text_example :
    read_event (event_text (outcome 12 3 2 4 finished 7 0)) ≡ some (outcome 12 3 2 4 finished 7 0)
read-event_text_example =
    read-event_text (outcome 12 3 2 4 finished 7 0)
      (omega arith, omega arith, omega arith, omega arith, omega arith, omega arith)

drawn_text_by_hand :
    event_text (drawn 1 3 17 20 4)
    ≡ bytes "dispatch=1, winner_id=3, winning_ticket=17, active_tickets=20, work_units_remaining=4"
unfolding event_text decimal digits
drawn_text_by_hand = refl
