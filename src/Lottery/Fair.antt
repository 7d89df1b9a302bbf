-- ===== src/Lottery/Fair.antt =====
-- The lottery is fair: a node is drawn by exactly as many tickets as it has at stake.
use Prim.Native.Nat.{min}
use soa_p1_grupo_cu.Base.{
  ℕ, zero, suc, ◌+◌, ◌^◌, ◌≤◌, ◌<◌, ◌≡◌, ◌↔◌, Bool, true, false, Option, none, some, List, [], ◌∷◌,
  ◌==◌, if◌then◌else◌, arith, get_elem?,
}
use soa_p1_grupo_cu.Base.Float.{Floats}
use soa_p1_grupo_cu.Task.{Node}
use soa_p1_grupo_cu.Lottery.{scheduler_winner_task}
use soa_p1_grupo_cu.Lottery.Shares.{stake, total, before, before-le-total}
use soa_p1_grupo_cu.Lottery.Winner.{winner_iff}

-- How many of 1, …, n pass a test.
abbrev pub count_upto : ℕ → (ℕ → Bool) → ℕ
count_upto zero p = 0
count_upto (suc n) p = count_upto n p + (if p (suc n) then 1 else 0)

-- A test that passes on the numbers above `a` up to `b`.
count_upto-interval :
    (n : ℕ) (p : ℕ → Bool) (a b : ℕ)
    → a ≤ b
    → ((w : ℕ) → 0 < w → w ≤ n → (p w ≡ true) ↔ ((a < w) × (w ≤ b)))
    → count_upto n p + min n a ≡ min n b
count_upto-interval zero p a b le h = omega arith
count_upto-interval (suc n) p a b le h =
    ground (arith, h (suc n), count_upto-interval n p a b le (λ w lo hi. h w lo (omega arith)))

abbrev pub draws : ℕ → Option ℕ → Bool
draws i none = false
draws i (some k) = k == i

draws_iff : (i : ℕ) (o : Option ℕ) → (draws i o ≡ true) ↔ (o ≡ some i)
draws_iff i none = ground arith
draws_iff i (some k) = ground arith

module _ ⦃fl : Floats⦄ where
  pub before-suc :
      (ns : List Node) (i : ℕ) (n : Node)
      → get_elem? ns i ≡ some n
      → before (suc i) ns ≡ before i ns + stake n
  before-suc [] i n e = absurd (cc)
  before-suc (m ∷ ns) zero n e = ground arith
  before-suc (m ∷ ns) (suc i) n e = omega (arith, before-suc ns i n e)

  -- If the tickets at stake fit `uint64_t`: of the tickets 1, …, total, exactly as many draw the
  -- node at place `i` as it has at stake: its effective tickets if it is READY, and none if it is
  -- not.
  pub wins-stake :
      (ns : List Node) (i : ℕ) (n : Node)
      → total ns < 2 ^ 64
      → get_elem? ns i ≡ some n
      → count_upto (total ns) (λ w. draws i (scheduler_winner_task ns w)) ≡ stake n
  wins-stake ns i n fits e = omega (
    arith,
    before-suc ns i n e,
    before-le-total (suc i) ns,
    count_upto-interval (total ns) (λ w. draws i (scheduler_winner_task ns w)) (before i ns)
        (before (suc i) ns) (omega (arith, before-suc ns i n e))
        (λ w lo hi.
          ground (arith, winner_iff ns i w fits lo, draws_iff i (scheduler_winner_task ns w))),
  )
