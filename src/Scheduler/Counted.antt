-- ===== src/Scheduler/Counted.antt =====
-- src/scheduler.c: how many lines the log has: two for each turn of the main loop but the last.
use soa_p1_grupo_cu.Base.{
  ℕ, zero, suc, ◌+◌, ◌*◌, ◌≤◌, ◌≡◌, refl, ap, ◌∙◌, none, some, Option, List, [], ◌∷◌, ◌++◌, All,
  arith, length,
}
use soa_p1_grupo_cu.Base.Float.{Floats, IsIeee}
use soa_p1_grupo_cu.Task.{Node}
use soa_p1_grupo_cu.Task.Series.{Converges}
use soa_p1_grupo_cu.Scheduler.{
  Config, Event, Sched, Turn, again, leave, turn, main_loop, start, scheduler_main_loop,
}
use soa_p1_grupo_cu.Scheduler.Round.{IsNode}
use soa_p1_grupo_cu.Scheduler.Turns.{Settled, after, Decided, capped, over, plays, decide-Decided}
use soa_p1_grupo_cu.Scheduler.Progress.{Plays-Settled, after-start}

length-two : (es : List Event) (a b : Event) → length ((es ++ a ∷ []) ++ b ∷ []) ≡ length es + 2
length-two [] a b = refl
length-two (x ∷ es) a b = omega (arith, length-two es a b)

module _ ⦃fl : Floats⦄ (conv : Converges) (ieee : IsIeee fl) (c : Config) where
  -- From `s` on the loop makes `more` further turns, with two lines each, and then ends as `r`.
  record Counted (s r : Sched) (lines : ℕ) : Type 0 where
    more : ℕ
    two_each : length r.log ≡ lines + 2 * more
    unfinished : main_loop more c s ≡ none
    ended : main_loop (suc more) c s ≡ some r

  abbrev outcome_of : ℕ → Turn → Option Sched
  outcome_of fuel (again s) = main_loop fuel c s
  outcome_of fuel (leave s) = some s

  ended_here :
      (s r : Sched) {t : Sched}
      → turn c s ≡ leave t
      → some t ≡ some r
      → length t.log ≡ length (after c s).log
      → Counted s r (length (after c s).log)
  unfolding main_loop
  ended_here s r {t} same found lines =
      let last : t ≡ r = cc found in
      let log = ap (λ (x : Sched). length x.log) last in
      record {
        more = 0;
        two_each = omega (arith, lines, log);
        unfinished = refl;
        ended = rw (same, main_loop) found;
      }

  turn-Counted :
      (fuel : ℕ) (s r : Sched) {t : Turn}
      → turn c s ≡ t
      → Settled (after c s)
      → Decided c (after c s) t
      → ((s' : Sched)
          → Settled (after c s')
          → main_loop fuel c s' ≡ some r
          → Counted s' r (length (after c s').log))
      → outcome_of fuel t ≡ some r
      → Counted s r (length (after c s).log)
  unfolding main_loop
  turn-Counted fuel s r same h (capped a b) rest found = ended_here s r same found refl
  turn-Counted fuel s r same h (over all) rest found = ended_here s r same found refl
  turn-Counted fuel s r same h (plays {s'} i n open_cap pl) rest found =
      let d = rest s' (Plays-Settled conv ieee c (after c s) (after c s') i n h pl) found in
      let two = ap length pl.logged ∙ length-two (after c s).log _ _ in
      record {
        more = suc d.more;
        two_each = omega (arith, d.two_each, two);
        unfinished = rw (same, main_loop) d.unfinished;
        ended = rw (same, main_loop) d.ended;
      }

  loop-Counted :
      (fuel : ℕ) (s r : Sched)
      → Settled (after c s)
      → main_loop fuel c s ≡ some r
      → Counted s r (length (after c s).log)
  unfolding main_loop turn
  loop-Counted zero s r h e = absurd (cc)
  loop-Counted (suc fuel) s r h e =
      turn-Counted fuel s r refl h (decide-Decided c (after c s) h)
        (λ s' h' e'. loop-Counted fuel s' r h' e') e

  -- The log has two lines for each of a number of turns, after which the loop has not ended, and
  -- with one turn more it ends.
  pub main_loop-Counted :
      (fuel rng : ℕ) (ns : List Node) (r : Sched)
      → All IsNode ns
      → length ns ≤ 25
      → scheduler_main_loop fuel c rng ns ≡ some r
      → (k : ℕ) × (length r.log ≡ 2 * k)
        × (scheduler_main_loop k c rng ns ≡ none)
        × (scheduler_main_loop (suc k) c rng ns ≡ some r)
  unfolding scheduler_main_loop
  main_loop-Counted fuel rng ns r h few e =
      let same = after-start conv ieee c rng ns h in
      let d =
        loop-Counted fuel (start rng ns) r (rw same (record { rest = h; few = few; quiet = refl }))
          e in
      let none_yet : length (after c (start rng ns)).log ≡ 0 =
        ap (λ (x : Sched). length x.log) same in
      (d.more, omega (arith, d.two_each, none_yet), d.unfinished, d.ended)
