-- ===== src/Scheduler/Log.antt =====
-- src/scheduler.c: the lines of the log, a pair for each dispatch.
use soa_p1_grupo_cu.Base.{
  ℕ, zero, suc, ◌+◌, ◌-◌, ◌*◌, ◌^◌, ◌≤◌, ◌<◌, ◌≡◌, refl, sym, ap, ◌∙◌, none, some, List, [], ◌∷◌,
  ◌++◌, All, length, arith, u32,
}
use mathlib.Core.Path.{subst}
use soa_p1_grupo_cu.Base.Float.{Floats, IsIeee}
use soa_p1_grupo_cu.Task.{Node}
use soa_p1_grupo_cu.Task.Series.{Converges}
use soa_p1_grupo_cu.Task.{is_ready}
use soa_p1_grupo_cu.Base.{get_elem?, true}
use soa_p1_grupo_cu.Lottery.Shares.{stake, calculate-total, before-le-total}
use soa_p1_grupo_cu.Lottery.Fair.{before-suc}
use soa_p1_grupo_cu.Lottery.Ticket.{ticket_bounds}
use soa_p1_grupo_cu.Scheduler.Progress.{AtRest-le}
use soa_p1_grupo_cu.Scheduler.{
  Config, Event, drawn, outcome, Sched, sub_u32, outcome_event, scheduler_main_loop,
}
use soa_p1_grupo_cu.Scheduler.Nodes.{All-get_elem?}
use soa_p1_grupo_cu.Scheduler.Round.{IsNode, play, Played, play-Played}
use soa_p1_grupo_cu.Scheduler.Turns.{total-lt, Settled, draw_event, pending_of, draw_of, sum_of}
use soa_p1_grupo_cu.Scheduler.Counted.{main_loop-Counted}
use soa_p1_grupo_cu.Scheduler.Rule.{Kept, main_loop-Kept}

-- The two lines of dispatch number `g`: the same number and winner in both, a ticket among those at
-- stake, and units that the dispatch takes off what was left.
pub record Pair (g number id ticket sum left number' id' run left' : ℕ) : Type 0 where
  pub first_number : number ≡ g
  pub second_number : number' ≡ g
  pub same_winner : id' ≡ id
  pub at_stake : ticket ≤ sum
  pub progress : 0 < run
  pub drained : left ≡ run + left'

abbrev pub PairOf : ℕ → Event → Event → Type 0
PairOf g (drawn number id ticket sum left) (outcome number' id' run done state tickets left') =
    Pair g number id ticket sum left number' id' run left'
PairOf g _ _ = ⊥

-- The lines come in pairs, numbered from `g` on as the 32-bit counter goes.
abbrev pub Paired : ℕ → List Event → Type 0
Paired g [] = Unit
Paired g (first ∷ []) = ⊥
Paired g (first ∷ second ∷ es) = PairOf g first second × Paired (u32 (g + 1)) es

-- The number after the last.
abbrev pub next_number : ℕ → List Event → ℕ
next_number g [] = g
next_number g (first ∷ []) = g
next_number g (first ∷ second ∷ es) = next_number (u32 (g + 1)) es

abbrev with_pair : List Event → Event → Event → List Event
with_pair es a b = (es ++ a ∷ []) ++ b ∷ []

Paired-snoc :
    (g : ℕ) (es : List Event) (a b : Event)
    → Paired g es
    → PairOf (next_number g es) a b
    → Paired g (with_pair es a b) × (next_number g (with_pair es a b) ≡ u32 (next_number g es + 1))
Paired-snoc g [] a b paired pair = ((pair, tt), refl)
Paired-snoc g (x ∷ []) a b paired pair = absurd paired
Paired-snoc g (x ∷ y ∷ es) a b (first, paired) pair =
    let (more, next) = Paired-snoc (u32 (g + 1)) es a b paired pair in ((first, more), next)

pub sub_u32-eq : (a b : ℕ) → a < 2 ^ 32 → b ≤ a → sub_u32 a b ≡ a - b
sub_u32-eq a b small le = omega arith

module _ ⦃fl : Floats⦄ (conv : Converges) (ieee : IsIeee fl) (c : Config) where
  -- The log so far, and the number of the next dispatch.
  abbrev Numbered : Sched → Type 0
  Numbered s = Paired 1 s.log × (s.global_dispatch ≡ next_number 1 s.log)

  Played-Pair :
      (s : Sched) (i : ℕ) (n : Node)
      → 0 < sum_of s
      → IsNode n
      → Played c n (play c s.global_dispatch n)
      → PairOf s.global_dispatch
          (draw_event s.global_dispatch (draw_of s).1 (sum_of s) n)
          (outcome_event (pending_of s.global_dispatch i n) (play c s.global_dispatch n))
  unfolding outcome_event
  Played-Pair s i n pos h p =
      let m = play c s.global_dispatch n in
      let le = AtRest-le n.task.state n.task.work_units_done n.work_units h.at_rest in
      let le' = AtRest-le m.task.state m.task.work_units_done m.work_units p.is_node.at_rest in
      let run =
        sub_u32-eq m.task.work_units_done n.task.work_units_done (omega (arith, p.is_node.small))
          (omega (arith, p.progress)) in
      let left =
        sub_u32-eq n.task.work_units n.task.work_units_done (omega (arith, h.matched, h.small))
          (omega (arith, h.matched)) in
      let left' =
        sub_u32-eq m.task.work_units m.task.work_units_done
          (omega (arith, p.is_node.matched, p.is_node.small)) (omega (arith, p.is_node.matched)) in
      record {
        first_number = refl;
        second_number = refl;
        same_winner = p.same_id;
        at_stake = (ticket_bounds s.rng (sum_of s) pos).0;
        progress = omega (arith, run, p.progress);
        drained =
            omega (arith, run, left, left', p.progress, p.same_units, p.is_node.matched, h.matched);
      }

  pub at_stake :
      (s : Sched) (i : ℕ) (n : Node)
      → Settled s
      → get_elem? s.nodes i ≡ some n
      → is_ready n.task.state ≡ true
      → 0 < sum_of s
  at_stake s i n h at r =
      let is = All-get_elem? IsNode i s.nodes n at h.rest in
      let mine : 0 < stake n = rw r is.stake_pos in
      omega (
        arith,
        calculate-total s.nodes (omega (arith, total-lt s.nodes h.rest, h.few)),
        before-suc s.nodes i n at,
        before-le-total (suc i) s.nodes,
        mine,
      )

  Numbered-Kept : Kept conv ieee c Numbered
  Numbered-Kept = record {
    plays = λ s t i n h p pl.
        let is = All-get_elem? IsNode i s.nodes n pl.at h.rest in
        let pair =
          Played-Pair s i n (at_stake s i n h pl.at pl.was_ready) is
            (play-Played conv ieee c s.global_dispatch n is pl.was_ready) in
        let (paired, next) = Paired-snoc 1 s.log _ _ p.0 (
          subst
            (λ g.
              PairOf g (draw_event s.global_dispatch (draw_of s).1 (sum_of s) n)
                (outcome_event (pending_of s.global_dispatch i n) (play c s.global_dispatch n)))
            p.1 pair) in
        (
          subst (Paired 1) (sym pl.logged) paired,
          pl.next ∙ ap (λ g. u32 (g + 1)) p.1 ∙ sym next ∙ ap (next_number 1) (sym pl.logged),
        );
    shutdown = λ s p. p;
  }

  -- How often `global_dispatch` has counted, by the lines.
  next_number-u32 :
      (g k : ℕ) (es : List Event)
      → g < 2 ^ 32
      → Paired g es
      → length es ≡ 2 * k
      → next_number g es ≡ u32 (g + k)
  next_number-u32 g k [] small paired two = omega (arith, two)
  next_number-u32 g k (x ∷ []) small paired two = absurd paired
  next_number-u32 g zero (x ∷ y ∷ es) small paired two = absurd (omega (arith, two))
  next_number-u32 g (suc k) (x ∷ y ∷ es) small (pair, paired) two =
      let rest = next_number-u32 (u32 (g + 1)) k es (omega arith) paired (omega (arith, two)) in
      rest ∙ omega arith

  -- If the floating point numbers are as `IsIeee` says and none of the first 2^32 terms of the
  -- series overflows: over at most 25 tasks that satisfy the invariant, the log that the main loop
  -- leaves is a pair of lines for each dispatch, that is, for each turn of the loop but the last:
  -- on as many turns as there are pairs the loop does not end, and on one more it does, with the
  -- 32-bit counter of the dispatches, which starts at 1, as many further. The pairs are numbered 1,
  -- 2, … as that counter goes. Both lines name the same winner, the ticket is among those at stake,
  -- and the units left before the dispatch are those that it ran, at least one, and those left
  -- after it.
  pub main_loop-Paired :
      (fuel rng : ℕ) (ns : List Node) (r : Sched)
      → All IsNode ns
      → length ns ≤ 25
      → scheduler_main_loop fuel c rng ns ≡ some r
      → Paired 1 r.log
        × ((k : ℕ) × (length r.log ≡ 2 * k)
            × (r.global_dispatch ≡ u32 (1 + k))
            × (scheduler_main_loop k c rng ns ≡ none)
            × (scheduler_main_loop (suc k) c rng ns ≡ some r))
  main_loop-Paired fuel rng ns r h few e =
      let (paired, number) =
        main_loop-Kept conv ieee c Numbered Numbered-Kept fuel rng ns r h few (tt, refl) e in
      let (k, two, unfinished, ended) = main_loop-Counted conv ieee c fuel rng ns r h few e in
      (
        paired,
        (k, two, number ∙ next_number-u32 1 k r.log (omega arith) paired two, unfinished, ended),
      )
