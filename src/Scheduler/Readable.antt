-- ===== src/Scheduler/Readable.antt =====
-- src/scheduler.c: every line that the main loop logs can be read back.
use soa_p1_grupo_cu.Base.{ℕ, ◌^◌, ◌≤◌, ◌<◌, ◌≡◌, sym, some, List, [], ◌∷◌, ◌++◌, All, length, arith}
use mathlib.Core.Path.{subst}
use soa_p1_grupo_cu.Base.Float.{Floats, IsIeee}
use soa_p1_grupo_cu.Task.{Node, task_shutdown_all}
use soa_p1_grupo_cu.Task.Series.{Converges}
use soa_p1_grupo_cu.Lottery.Shares.{calculate-total}
use soa_p1_grupo_cu.Lottery.Ticket.{ticket_bounds}
use soa_p1_grupo_cu.Scheduler.{Config, Event, Sched, sub_u32, outcome_event, scheduler_main_loop}
use soa_p1_grupo_cu.Scheduler.Nodes.{All-get_elem?, All-modify, All-map}
use soa_p1_grupo_cu.Scheduler.Round.{IsNode, play, Played, play-Played}
use soa_p1_grupo_cu.Scheduler.Progress.{AtRest-le}
use soa_p1_grupo_cu.Scheduler.Turns.{
  total-lt, Settled, Plays, draw_event, pending_of, draw_of, sum_of,
}
use soa_p1_grupo_cu.Scheduler.Rule.{main_loop-Kept}
use soa_p1_grupo_cu.Scheduler.Log.{at_stake}
use soa_p1_grupo_cu.Scheduler.Lines.{event_text, read_event}
use soa_p1_grupo_cu.Scheduler.ReadBack.{FitsLine, read-event_text}

All-snoc :
    {A : Type 0} (P : A → Type 0) (xs : List A) (x : A) → All P xs → P x → All P (xs ++ x ∷ [])
All-snoc P [] x h p = (p, tt)
All-snoc P (y ∷ xs) x h p = (h.0, All-snoc P xs x h.1 p)

sub_u32_small : (a b : ℕ) → sub_u32 a b < 2 ^ 64
sub_u32_small a b = omega arith

-- A line that can be read back.
abbrev pub CanRead : Event → Type 0
CanRead e = read_event (event_text e) ≡ some e

module _ ⦃fl : Floats⦄ where
  abbrev pub ShortId : Node → Type 0
  ShortId n = n.id < 2 ^ 32

  record Readable (s : Sched) : Type 0 where
    ids : All ShortId s.nodes
    counter : s.global_dispatch < 2 ^ 32
    lines : All FitsLine s.log

  shutdown-ShortId : (ns : List Node) → All ShortId ns → All ShortId (task_shutdown_all ns)
  unfolding task_shutdown_all
  shutdown-ShortId [] h = tt
  shutdown-ShortId (n ∷ ns) h = (h.0, shutdown-ShortId ns h.1)

  module _ (conv : Converges) (ieee : IsIeee fl) (c : Config) where
    draw-FitsLine :
        (s : Sched) (i : ℕ) (n : Node)
        → Settled s
        → Readable s
        → n.id < 2 ^ 32
        → 0 < sum_of s
        → FitsLine (draw_event s.global_dispatch (draw_of s).1 (sum_of s) n)
    draw-FitsLine s i n h r id pos =
        let sum = calculate-total s.nodes (omega (arith, total-lt s.nodes h.rest, h.few)) in
        (
          omega (arith, r.counter),
          omega (arith, id),
          omega (arith, (ticket_bounds s.rng (sum_of s) pos).1),
          omega (arith, sum, total-lt s.nodes h.rest, h.few),
          sub_u32_small n.task.work_units n.task.work_units_done,
        )

    outcome-FitsLine :
        (g i : ℕ) (n m : Node)
        → g < 2 ^ 32
        → n.id < 2 ^ 32
        → Played c n m
        → FitsLine (outcome_event (pending_of g i n) m)
    unfolding outcome_event
    outcome-FitsLine g i n m small id p = (
      omega (arith, small),
      omega (arith, id, p.same_id),
      sub_u32_small m.task.work_units_done n.task.work_units_done,
      omega (
        arith,
        p.is_node.small,
        AtRest-le m.task.state m.task.work_units_done m.work_units p.is_node.at_rest,
      ),
      omega (arith, p.is_node.stake_small),
      sub_u32_small m.task.work_units m.task.work_units_done,
    )

    Plays-Readable :
        (s t : Sched) (i : ℕ) (n : Node) → Settled s → Readable s → Plays c s i n t → Readable t
    Plays-Readable s t i n h r pl =
        let is = All-get_elem? IsNode i s.nodes n pl.at h.rest in
        let id = All-get_elem? ShortId i s.nodes n pl.at r.ids in
        let played = play-Played conv ieee c s.global_dispatch n is pl.was_ready in
        let f = play c s.global_dispatch in
        let first = draw_event s.global_dispatch (draw_of s).1 (sum_of s) n in
        let second = outcome_event (pending_of s.global_dispatch i n) (f n) in
        record {
          ids =
              subst (All ShortId) (sym pl.nodes)
                (All-modify ShortId f i s.nodes n pl.at (omega (arith, id, played.same_id)) r.ids);
          counter = omega (arith, pl.next);
          lines = subst (All FitsLine) (sym pl.logged) (
              All-snoc FitsLine (s.log ++ first ∷ []) second
                (All-snoc FitsLine s.log first r.lines
                  (draw-FitsLine s i n h r id (at_stake conv ieee c s i n h pl.at pl.was_ready)))
                (outcome-FitsLine s.global_dispatch i n (f n) r.counter id played));
        }

    -- If none of the first 2^32 terms of the series overflows and the floating point numbers are as
    -- `IsIeee` says: over at most 25 tasks that satisfy the invariant and have ids of 32 bits, each
    -- line of the log that the main loop leaves can be read back from its text.
    pub main_loop-CanRead :
        (fuel rng : ℕ) (ns : List Node) (r : Sched)
        → All IsNode ns
        → length ns ≤ 25
        → All ShortId ns
        → scheduler_main_loop fuel c rng ns ≡ some r
        → All CanRead r.log
    main_loop-CanRead fuel rng ns r h few ids e =
        let ended : Readable r =
          main_loop-Kept conv ieee c Readable
            (record {
              plays = Plays-Readable;
              shutdown = λ s p. record {
                ids = shutdown-ShortId s.nodes p.ids;
                counter = p.counter;
                lines = p.lines;
              };
            })
            fuel rng ns r h few (record { ids = ids; counter = omega arith; lines = tt }) e in
        All-map FitsLine CanRead read-event_text r.log ended.lines
