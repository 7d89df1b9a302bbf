-- ===== src/Lottery/Ticket.antt =====
-- The ticket that is drawn: its range, and whom a draw can reach.
use soa_p1_grupo_cu.Base.{
  ℕ, suc, ◌+◌, ◌%◌, ◌^◌, ◌≤◌, ◌<◌, ◌≡◌, ◌≢◌, refl, true, Option, none, some, List, [], ◌∷◌, arith,
  get_elem?, inl, inr, u64, leb, ◌↔◌, Option-cases, Bool-cases, uint32_max,
}
use native.Mathlib.Nat.{mod-lt}
use native.Mathlib.Decide.{dec_lt}
use soa_p1_grupo_cu.Base.Float.{Floats}
use soa_p1_grupo_cu.Rng.{rng_xorshift32_get, xorshift}
use soa_p1_grupo_cu.Task.{is_ready, Node, task_is_eligible}
use soa_p1_grupo_cu.Lottery.{
  scheduler_calculate_cumulutive_tickets, scheduler_sort_winner_ticket, scheduler_winner_task,
  winner_from,
}
use soa_p1_grupo_cu.Lottery.Shares.{total, before, before-le-total, calculate-total}
use soa_p1_grupo_cu.Lottery.Winner.{Holds, winner_iff}

-- The ticket is a `uint32_t`, and never above the tickets at stake.
pub ticket_bounds :
    (rng sum : ℕ)
    → 0 < sum
    → ((scheduler_sort_winner_ticket rng sum).1 ≤ sum)
      × ((scheduler_sort_winner_ticket rng sum).1 < 2 ^ 32)
unfolding scheduler_sort_winner_ticket rng_xorshift32_get
ticket_bounds rng sum pos = ground (arith, mod-lt (xorshift rng) pos)

-- A seeded generator, over tickets at stake that fit `uint32_t`, draws a ticket from 1 on.
pub ticket_pos :
    (rng sum : ℕ) → 0 < sum → sum < 2 ^ 32 → rng ≢ 0 → 0 < (scheduler_sort_winner_ticket rng sum).1
unfolding scheduler_sort_winner_ticket rng_xorshift32_get
ticket_pos rng sum pos small seeded = ground (arith, mod-lt (xorshift rng) pos)

ticket_seeded :
    (rng sum : ℕ)
    → 0 < sum
    → sum < 2 ^ 32
    → rng ≢ 0
    → (scheduler_sort_winner_ticket rng sum).1 ≡ xorshift rng % sum + 1
unfolding scheduler_sort_winner_ticket rng_xorshift32_get
ticket_seeded rng sum pos small seeded = ground (arith, mod-lt (xorshift rng) pos)

ticket_unseeded : (sum : ℕ) → (scheduler_sort_winner_ticket 0 sum).1 ≡ 0
unfolding scheduler_sort_winner_ticket rng_xorshift32_get
ticket_unseeded sum = refl

module _ ⦃fl : Floats⦄ where
  -- The place that the draw of a turn of the main loop gives, from the state of the generator.
  abbrev pub drawn_place : ℕ → List Node → Option ℕ
  drawn_place rng ns =
      scheduler_winner_task ns
        (scheduler_sort_winner_ticket rng (scheduler_calculate_cumulutive_tickets ns)).1

  -- `found` is the place of a READY node of `ns`, whose first place is `place`.
  abbrev Found : ℕ → ℕ → List Node → Type 0
  Found place found ns =
      (i : ℕ) × (n : Node) × (found ≡ place + i)
      × (get_elem? ns i ≡ some n)
      × (is_ready n.task.state ≡ true)

  winner_from-ready :
      (sum place : ℕ) (ns : List Node) (w found : ℕ)
      → winner_from sum place ns w ≡ some found
      → Found place found ns
  unfolding winner_from task_is_eligible
  winner_from-ready sum place [] w found e = absurd (cc)
  winner_from-ready sum place (n ∷ ns) w found e = elim (Bool-cases (is_ready n.task.state)) [
    | inl r ↦
        let sum' = u64 (sum + n.task.effective_tickets) in
        elim (Bool-cases (leb w sum')) [
          | inl hit ↦ (0, n, ground arith, refl, r)
          | inr miss ↦ later (winner_from-ready sum' (suc place) ns w found (ground arith))
        ]
    | inr r ↦ later (winner_from-ready sum (suc place) ns w found (ground arith))
  ]
    where
      later : Found (suc place) found ns → Found place found (n ∷ ns)
      later (i, m, same, at, r) = (suc i, m, omega arith, at, r)

  -- The node that `scheduler_winner_task` returns is READY, whatever the ticket.
  pub winner-ready :
      (ns : List Node) (w i : ℕ)
      → scheduler_winner_task ns w ≡ some i
      → (n : Node) × (get_elem? ns i ≡ some n) × (is_ready n.task.state ≡ true)
  unfolding scheduler_winner_task
  winner-ready ns w i e =
      let (k, n, same, at, r) = winner_from-ready 0 0 ns w i e in (n, ground arith, r)

  winner_from-first :
      (place : ℕ) (ns : List Node) (found : ℕ)
      → winner_from 0 place ns 0 ≡ some found
      → (i : ℕ) × (found ≡ place + i) × (before i ns ≡ 0)
  unfolding winner_from task_is_eligible
  winner_from-first place [] found e = absurd (cc)
  winner_from-first place (n ∷ ns) found e = elim (Bool-cases (is_ready n.task.state)) [
    | inl r ↦ (0, ground arith, refl)
    | inr r ↦
        let (i, same, none_before) = winner_from-first (suc place) ns found (ground arith) in
        (suc i, omega arith, ground arith)
  ]

  winner_from-ne-none :
      (sum place : ℕ) (ns : List Node) (w : ℕ)
      → sum + total ns < 2 ^ 64
      → 0 < total ns
      → w ≤ sum + total ns
      → winner_from sum place ns w ≢ none
  unfolding winner_from task_is_eligible
  winner_from-ne-none sum place [] w fits pos hi = absurd (omega arith)
  winner_from-ne-none sum place (n ∷ ns) w fits pos hi = ground (
    arith,
    winner_from-ne-none sum (suc place) ns w,
    winner_from-ne-none (sum + n.task.effective_tickets) (suc place) ns w,
  )

  winner-ne-none :
      (ns : List Node) (w : ℕ)
      → total ns < 2 ^ 64
      → 0 < total ns
      → w ≤ total ns
      → scheduler_winner_task ns w ≢ none
  unfolding scheduler_winner_task
  winner-ne-none ns w fits pos hi = winner_from-ne-none 0 0 ns w (omega arith) pos (omega arith)

  -- If there are tickets at stake and they fit `uint64_t`, every draw reaches some node.
  pub draw-total :
      (rng : ℕ) (ns : List Node)
      → total ns < 2 ^ 64
      → 0 < total ns
      → (i : ℕ) × (drawn_place rng ns ≡ some i)
  draw-total rng ns fits pos = elim (Option-cases (drawn_place rng ns)) [
    | inl missed ↦
        let sum = calculate-total ns fits in
        let (hi, small) =
          ticket_bounds rng (scheduler_calculate_cumulutive_tickets ns) (omega arith) in
        absurd (winner-ne-none ns _ fits pos (omega arith) missed)
    | inr found ↦ found
  ]

  -- Ticket 0, which the 32-bit cut of 2^32 and an unseeded generator give, goes to the first READY
  -- node with nothing at stake before it.
  pub winner-zero : (ns : List Node) (i : ℕ) → scheduler_winner_task ns 0 ≡ some i → before i ns ≡ 0
  unfolding scheduler_winner_task
  winner-zero ns i e =
      let (k, same, none_before) = winner_from-first 0 ns i e in
      let eq : i ≡ k = omega arith in rw eq none_before

  -- If the tickets at stake fit `uint64_t` and the nodes before place `i` hold at least 2^32 - 1,
  -- no state of the generator makes the draw reach place `i`, whatever its own stake.
  pub draw_starves :
      (rng : ℕ) (ns : List Node) (i : ℕ)
      → total ns < 2 ^ 64
      → uint32_max ≤ before i ns
      → drawn_place rng ns ≢ some i
  draw_starves rng ns i fits ahead e = elim (dec_lt 0 ticket) [
    | yes pos ↦ absurd (omega (arith, ((winner_iff ns i ticket fits pos).0 e).above, bounds.1))
    | no zero_ticket ↦
        let drew_zero : ticket ≡ 0 = omega arith in
        absurd (omega (arith, winner-zero ns i (rw (drew_zero) at e)))
  ]
    where
      ticket : ℕ
      ticket = (scheduler_sort_winner_ticket rng (scheduler_calculate_cumulutive_tickets ns)).1

      bounds : (ticket ≤ scheduler_calculate_cumulutive_tickets ns) × (ticket < 2 ^ 32)
      bounds =
          ticket_bounds rng (scheduler_calculate_cumulutive_tickets ns)
            (omega (arith, calculate-total ns fits, before-le-total i ns))

  -- With a seeded generator and a sum of tickets above 0 and below 2^32, a node is drawn exactly
  -- when the ticket made of the next random number, its remainder by the sum plus 1, is its own.
  pub draw_fair :
      (rng : ℕ) (ns : List Node) (i : ℕ)
      → rng ≢ 0
      → 0 < total ns
      → total ns < 2 ^ 32
      → (drawn_place rng ns ≡ some i) ↔ Holds ns i (xorshift rng % total ns + 1)
  draw_fair rng ns i seeded pos small =
      rw (calculate-total ns (omega arith), ticket_seeded rng (total ns) pos small seeded)
        (winner_iff ns i (xorshift rng % total ns + 1) (omega arith) (omega arith))
