-- ===== src/Lottery/Winner.antt =====
-- Which node a ticket draws: the one whose tickets it falls among.
use soa_p1_grupo_cu.Base.{
  ℕ, zero, suc, ◌+◌, ◌^◌, ◌≤◌, ◌<◌, ◌≡◌, refl, ◌∙◌, ◌↔◌, ap, none, some, List, [], ◌∷◌, arith,
}
use native.Mathlib.Decide.{dec_le}
use mathlib.Core.Path.{subst}
use soa_p1_grupo_cu.Base.Float.{Floats}
use soa_p1_grupo_cu.Task.{Node, task_is_eligible}
use soa_p1_grupo_cu.Lottery.{winner_from, scheduler_winner_task}
use soa_p1_grupo_cu.Lottery.Shares.{stake, total, before}

module _ ⦃fl : Floats⦄ where
  -- Ticket `w`, counted from 1, is one of those of the node at place `i`.
  pub record Holds (ns : List Node) (i w : ℕ) : Type 0 where
    pub above : before i ns < w
    pub within : w ≤ before (suc i) ns

  winner_from_complete :
      (sum place : ℕ) (ns : List Node) (i w : ℕ)
      → sum + total ns < 2 ^ 64
      → sum + before i ns < w
      → w ≤ sum + before (suc i) ns
      → winner_from sum place ns w ≡ some (place + i)
  unfolding winner_from task_is_eligible
  winner_from_complete sum place [] zero w fits lo hi = absurd (omega arith)
  winner_from_complete sum place [] (suc i) w fits lo hi = absurd (omega arith)
  winner_from_complete sum place (n ∷ ns) zero w fits lo hi = ground arith
  winner_from_complete sum place (n ∷ ns) (suc i) w fits lo hi = ground (
    arith,
    winner_from_complete sum (suc place) ns i w,
    winner_from_complete (sum + n.task.effective_tickets) (suc place) ns i w,
  )

  winner_from-none :
      (sum place : ℕ) (ns : List Node) (w : ℕ)
      → sum + total ns < w
      → sum + total ns < 2 ^ 64
      → winner_from sum place ns w ≡ none
  unfolding winner_from task_is_eligible
  winner_from-none sum place [] w past fits = refl
  winner_from-none sum place (n ∷ ns) w past fits = ground (
    arith,
    winner_from-none sum (suc place) ns w,
    winner_from-none (sum + n.task.effective_tickets) (suc place) ns w,
  )

  -- Every ticket up to the total lies among those of some node.
  locate :
      (sum : ℕ) (ns : List Node) (w : ℕ)
      → sum < w
      → w ≤ sum + total ns
      → (i : ℕ) × (sum + before i ns < w) × (w ≤ sum + before (suc i) ns)
  locate sum [] w lo hi = absurd (omega arith)
  locate sum (n ∷ ns) w lo hi = elim (dec_le w (sum + stake n)) [
    | yes here ↦ (0, omega arith, omega arith)
    | no there ↦
        let (i, above, within) = locate (sum + stake n) ns w (omega arith) (omega arith) in
        (suc i, omega arith, omega arith)
  ]

  pub Holds-exists : (ns : List Node) (w : ℕ) → 0 < w → w ≤ total ns → (i : ℕ) × Holds ns i w
  Holds-exists ns w lo hi =
      let (i, above, within) = locate 0 ns w lo (omega arith) in
      (i, record { above = omega arith; within = omega arith })

  Holds-winner :
      (ns : List Node) (i w : ℕ)
      → total ns < 2 ^ 64
      → Holds ns i w
      → scheduler_winner_task ns w ≡ some i
  unfolding scheduler_winner_task
  Holds-winner ns i w fits h =
      winner_from_complete 0 0 ns i w (omega arith) (omega arith) (omega arith)
      ∙ ap some (omega arith)

  -- A ticket past the last one draws nobody.
  pub winner-none :
      (ns : List Node) (w : ℕ)
      → total ns < 2 ^ 64
      → total ns < w
      → scheduler_winner_task ns w ≡ none
  unfolding scheduler_winner_task
  winner-none ns w fits past = winner_from-none 0 0 ns w (omega arith) (omega arith)

  winner-Holds :
      (ns : List Node) (i w : ℕ)
      → total ns < 2 ^ 64
      → 0 < w
      → scheduler_winner_task ns w ≡ some i
      → Holds ns i w
  winner-Holds ns i w fits pos e = elim (dec_le w (total ns)) [
    | yes held ↦
        let (k, h) = Holds-exists ns w pos held in
        let same : k ≡ i = cc (Holds-winner ns k w fits h) in subst (λ x. Holds ns x w) same h
    | no past ↦ absurd (cc (winner-none ns w fits (omega arith)))
  ]

  -- The loop of `scheduler_winner_task` draws the node among whose tickets the ticket lies, and no
  -- other, for every ticket from 1 on, if the tickets at stake fit `uint64_t`.
  pub winner_iff :
      (ns : List Node) (i w : ℕ)
      → total ns < 2 ^ 64
      → 0 < w
      → (scheduler_winner_task ns w ≡ some i) ↔ Holds ns i w
  winner_iff ns i w fits pos = (winner-Holds ns i w fits pos, Holds-winner ns i w fits)
