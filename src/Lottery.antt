-- ===== src/Lottery.antt =====
-- src/scheduler.c: the draw. A pointer into the task list is the node's place in the list.
pub mod Shares
pub mod Winner
pub mod Fair
pub mod Ticket
use soa_p1_grupo_cu.Base.{
  ℕ, suc, ◌+◌, ◌%◌, Bool, true, false, not, Option, none, some, List, [], ◌∷◌, if◌then◌else◌, leb,
  u32, u64,
}
use soa_p1_grupo_cu.Base.Float.{Floats}
use soa_p1_grupo_cu.Rng.{rng_xorshift32_get}
use soa_p1_grupo_cu.Task.{Node, task_is_eligible, task_is_finished}

module _ ⦃fl : Floats⦄ where
  -- The loop of `scheduler_calculate_cumulutive_tickets`, from a sum so far.
  unfoldable pub cumulative_from : ℕ → List Node → ℕ
  cumulative_from sum [] = sum
  cumulative_from sum (n ∷ ns) =
      cumulative_from
        (if task_is_eligible n.task then u64 (sum + n.task.effective_tickets) else sum) ns

  unfoldable pub scheduler_calculate_cumulutive_tickets : List Node → ℕ
  scheduler_calculate_cumulutive_tickets ns = cumulative_from 0 ns

  unfoldable pub scheduler_all_tasks_finished : List Node → Bool
  scheduler_all_tasks_finished [] = true
  scheduler_all_tasks_finished (n ∷ ns) =
      if not (task_is_finished n.task) then false else scheduler_all_tasks_finished ns

  -- The loop of `scheduler_winner_task`, from a sum so far and the place of the first node.
  unfoldable pub winner_from : ℕ → ℕ → List Node → ℕ → Option ℕ
  winner_from sum place [] winner_ticket = none
  winner_from sum place (n ∷ ns) winner_ticket =
      let sum' = u64 (sum + n.task.effective_tickets) in
      let skipped = winner_from sum (suc place) ns winner_ticket in
      let passed = winner_from sum' (suc place) ns winner_ticket in
      if task_is_eligible n.task
      then (if leb winner_ticket sum' then some place else passed)
      else skipped

  unfoldable pub scheduler_winner_task : List Node → ℕ → Option ℕ
  scheduler_winner_task ns winner_ticket = winner_from 0 0 ns winner_ticket

-- The new state of the generator, and the ticket. The sum is computed in `uint64_t` and cut to
-- `uint32_t` by the assignment.
unfoldable pub scheduler_sort_winner_ticket : ℕ → ℕ → ℕ × ℕ
scheduler_sort_winner_ticket rng max_ticket_range =
    let (rng', drawn) = rng_xorshift32_get rng in
    elim drawn [ none ↦ (rng', 0) | some x ↦ (rng', u32 (x % max_ticket_range + 1)) ]
