-- ===== src/Lottery/Shares.antt =====
-- What the draw should see of a task list: the tickets at stake, and their sums from the front.
use soa_p1_grupo_cu.Base.{
  ℕ, zero, suc, ◌+◌, ◌^◌, ◌≤◌, ◌<◌, ◌≡◌, List, [], ◌∷◌, if◌then◌else◌, arith,
}
use soa_p1_grupo_cu.Base.Float.{Floats}
use soa_p1_grupo_cu.Task.{is_ready, Node, task_is_eligible}
use soa_p1_grupo_cu.Lottery.{cumulative_from, scheduler_calculate_cumulutive_tickets}

module _ ⦃fl : Floats⦄ where
  -- The tickets with which a node takes part.
  abbrev pub stake : Node → ℕ
  stake n = if is_ready n.task.state then n.task.effective_tickets else 0

  abbrev pub total : List Node → ℕ
  total [] = 0
  total (n ∷ ns) = stake n + total ns

  -- The tickets of the first `i` nodes.
  abbrev pub before : ℕ → List Node → ℕ
  before zero ns = 0
  before (suc i) [] = 0
  before (suc i) (n ∷ ns) = stake n + before i ns

  pub before-le-total : (i : ℕ) (ns : List Node) → before i ns ≤ total ns
  before-le-total zero ns = omega arith
  before-le-total (suc i) [] = omega arith
  before-le-total (suc i) (n ∷ ns) = omega (arith, before-le-total i ns)

  cumulative_from-total :
      (sum : ℕ) (ns : List Node) → sum + total ns < 2 ^ 64 → cumulative_from sum ns ≡ sum + total ns
  unfolding cumulative_from task_is_eligible
  cumulative_from-total sum [] fits = omega arith
  cumulative_from-total sum (n ∷ ns) fits = ground (
    arith,
    cumulative_from-total sum ns,
    cumulative_from-total (sum + n.task.effective_tickets) ns,
  )

  -- The sum that the code computes in `uint64_t` is the sum of the tickets at stake, if that fits.
  pub calculate-total :
      (ns : List Node) → total ns < 2 ^ 64 → scheduler_calculate_cumulutive_tickets ns ≡ total ns
  unfolding scheduler_calculate_cumulutive_tickets
  calculate-total ns fits = omega (arith, cumulative_from-total 0 ns (omega arith))
