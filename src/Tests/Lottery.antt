-- ===== src/Tests/Lottery.antt =====
-- The draw over the sample.
use soa_p1_grupo_cu.Base.{ℕ, ◌+◌, ◌%◌, ◌≡◌, ◌≢◌, ◌↔◌, refl, arith, get_elem?, some, none, true}
use soa_p1_grupo_cu.Rng.{xorshift}
use soa_p1_grupo_cu.Task.{Node, is_ready, task_is_eligible}
use soa_p1_grupo_cu.Lottery.{scheduler_winner_task, winner_from}
use soa_p1_grupo_cu.Lottery.Winner.{Holds, winner_iff}
use soa_p1_grupo_cu.Lottery.Fair.{count_upto, draws, wins-stake}
use soa_p1_grupo_cu.Lottery.Ticket.{drawn_place, draw-total, draw_starves, draw_fair, winner-ready}
use soa_p1_grupo_cu.Tests.Fixed.{fixed}
use soa_p1_grupo_cu.Tests.Sample.{node_of, sample, crowded}

sample_winners :
    (scheduler_winner_task sample 3 ≡ some 0)
    × (scheduler_winner_task sample 4 ≡ some 1)
    × (scheduler_winner_task sample 12 ≡ some 4)
    × (scheduler_winner_task sample 13 ≡ none)
unfolding scheduler_winner_task winner_from task_is_eligible
sample_winners = (refl, refl, refl, refl)

winner_iff_example : (scheduler_winner_task sample 4 ≡ some 1) ↔ Holds sample 1 4
winner_iff_example = winner_iff sample 1 4 (omega arith) (omega arith)

wins-stake_example : count_upto 12 (λ w. draws 2 (scheduler_winner_task sample w)) ≡ 2
wins-stake_example = wins-stake sample 2 (node_of 3 2 3 500) (omega arith) refl

draw_fair_example : (drawn_place 2026 sample ≡ some 4) ↔ Holds sample 4 (xorshift 2026 % 12 + 1)
draw_fair_example = draw_fair 2026 sample 4 (omega arith) (omega arith) (omega arith)

draw-total_example : (i : ℕ) × (drawn_place 2026 sample ≡ some i)
draw-total_example = draw-total 2026 sample (omega arith) (omega arith)

winner-ready_example : (n : Node) × (get_elem? sample 1 ≡ some n) × (is_ready n.task.state ≡ true)
unfolding scheduler_winner_task winner_from task_is_eligible
winner-ready_example = winner-ready sample 4 1 refl

draw_starves_example : drawn_place 2026 crowded ≢ some 1
draw_starves_example = draw_starves 2026 crowded 1 (omega arith) (omega arith)
