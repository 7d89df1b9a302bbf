-- ===== src/Scheduler/Progress.antt =====
-- The main loop as a whole: it ends, and leaves every task FINISHED.
use mathlib.Core.Path.{subst}
use soa_p1_grupo_cu.Base.{
  ℕ, zero, suc, ◌≤◌, ◌<◌, ◌≡◌, ◌⊎◌, inl, inr, refl, ap, ◌∙◌, true, false, some, List, [], ◌∷◌,
  arith, All, length, length-modify, Bool-cases,
}
use soa_p1_grupo_cu.Base.Float.{Floats, IsIeee}
use soa_p1_grupo_cu.Task.{
  TaskState, ready, running, finished, is_ready, is_finished, Node, shut_down, task_is_finished,
  task_shutdown_all,
}
use soa_p1_grupo_cu.Task.Series.{series, Converges}
use soa_p1_grupo_cu.Lottery.{scheduler_all_tasks_finished}
use soa_p1_grupo_cu.Scheduler.{
  Config, Sched, Turn, again, leave, turn, main_loop, start, scheduler_main_loop, settle,
}
use soa_p1_grupo_cu.Scheduler.Nodes.{Idle, wait-Idle, All-modify, All-get_elem?, All-map}
use soa_p1_grupo_cu.Scheduler.Round.{AtRest, IsNode, IsNode-Idle, ready-more, play, play-Played}
use soa_p1_grupo_cu.Scheduler.Turns.{
  remaining, remaining-modify, Settled, after, Plays, Decided, capped, over, plays, decide-Decided,
}

module _ ⦃fl : Floats⦄ where
  -- All units done, with the sum of the series at their number.
  pub record Complete (n : Node) : Type 0 where
    pub state : is_finished n.task.state ≡ true
    pub done : n.task.work_units_done ≡ n.work_units
    pub sum : n.task.pi ≡ series n.work_units

  -- FINISHED by the loop, with its sum in step with the units done, which may be fewer.
  pub record Stopped (n : Node) : Type 0 where
    pub state : is_finished n.task.state ≡ true
    pub done : n.task.work_units_done ≤ n.work_units
    pub sum : n.task.pi ≡ series n.task.work_units_done

  finished-Complete : (n : Node) → IsNode n → is_finished n.task.state ≡ true → Complete n
  finished-Complete n h f = go n.task.state refl
    where
      go : (s : TaskState) → n.task.state ≡ s → Complete n
      go ready e = absurd (cc)
      go running e = absurd (cc)
      go finished e =
          let all : n.task.work_units_done ≡ n.work_units =
            subst (λ x. AtRest x n.task.work_units_done n.work_units) e h.at_rest in
          record { state = f; done = all; sum = h.in_step ∙ ap series all }

  All-Complete :
      (ns : List Node) → All IsNode ns → scheduler_all_tasks_finished ns ≡ true → All Complete ns
  unfolding scheduler_all_tasks_finished task_is_finished
  All-Complete [] h e = tt
  All-Complete (n ∷ ns) h e =
      (finished-Complete n h.0 (ground arith), All-Complete ns h.1 (ground arith))

  pub AtRest-le : (s : TaskState) (done units : ℕ) → AtRest s done units → done ≤ units
  AtRest-le ready done units h = omega arith
  AtRest-le running done units h = absurd h
  AtRest-le finished done units h = omega arith

  AtRest-finished :
      (s : TaskState) (done units : ℕ)
      → AtRest s done units
      → is_ready s ≡ false
      → is_finished s ≡ true
  AtRest-finished ready done units h e = absurd (cc)
  AtRest-finished running done units h e = absurd h
  AtRest-finished finished done units h e = refl

  shut_down-Stopped : (n : Node) → IsNode n → Stopped (record n { task = shut_down n.task })
  shut_down-Stopped n h =
      let le = AtRest-le n.task.state n.task.work_units_done n.work_units h.at_rest in
      elim (Bool-cases (is_ready n.task.state)) [
        | inl r ↦ rw r (record { state = refl; done = le; sum = h.in_step })
        | inr r ↦ rw r (record {
          state = AtRest-finished n.task.state n.task.work_units_done n.work_units h.at_rest r;
          done = le;
          sum = h.in_step;
        })
      ]

  shutdown-Stopped : (ns : List Node) → All IsNode ns → All Stopped (task_shutdown_all ns)
  unfolding task_shutdown_all
  shutdown-Stopped [] h = tt
  shutdown-Stopped (n ∷ ns) h = (shut_down-Stopped n h.0, shutdown-Stopped ns h.1)

  module _ (conv : Converges) (ieee : IsIeee fl) (c : Config) where
    -- A dispatch leads from a settled state to a settled state, with less work left.
    pub Plays-Settled : (s t : Sched) (i : ℕ) (n : Node) → Settled s → Plays c s i n t → Settled t
    Plays-Settled s t i n h p =
        let played =
          play-Played conv ieee c s.global_dispatch n (All-get_elem? IsNode i s.nodes n p.at h.rest)
            p.was_ready in
        record {
          rest = rw p.nodes (All-modify IsNode _ i s.nodes n p.at played.is_node h.rest);
          few = rw (p.nodes, length-modify (play c s.global_dispatch) i s.nodes) h.few;
          quiet = p.quiet;
        }

    Plays-remaining :
        (s t : Sched) (i : ℕ) (n : Node)
        → Settled s
        → Plays c s i n t
        → remaining t.nodes < remaining s.nodes
    Plays-remaining s t i n h p =
        let is = All-get_elem? IsNode i s.nodes n p.at h.rest in
        let played = play-Played conv ieee c s.global_dispatch n is p.was_ready in
        rw p.nodes (
          remaining-modify (play c s.global_dispatch) i s.nodes n p.at played.same_units
            played.progress (ready-more n is p.was_ready))

    -- How the loop leaves its tasks: all done, or stopped by the cap on dispatches.
    abbrev pub Ended : Sched → Type 0
    Ended r =
        All Complete r.nodes
        ⊎ ((0 < c.max_dispatches) × (c.max_dispatches < r.global_dispatch) × All Stopped r.nodes)

    -- A turn ends the loop, or goes on with less work left.
    abbrev Advances : Sched → Turn → Type 0
    Advances s t =
        ((r : Sched) × (t ≡ leave r) × Ended r)
        ⊎ ((s' : Sched) × (t ≡ again s')
            × Settled (after c s')
            × (remaining (after c s').nodes < remaining s.nodes))

    Decided-Advances : (s : Sched) {t : Turn} → Settled s → Decided c s t → Advances s t
    Decided-Advances s h (capped set past) =
        inl (_, refl, inr (set, past, shutdown-Stopped s.nodes h.rest))
    Decided-Advances s h (over all) = inl (s, refl, inl (All-Complete s.nodes h.rest all))
    Decided-Advances s h (plays {s'} i n open_cap p) =
        inr (s', refl, Plays-Settled s (after c s') i n h p, Plays-remaining s (after c s') i n h p)

    main_loop-Ended :
        (fuel : ℕ) (s : Sched)
        → Settled (after c s)
        → remaining (after c s).nodes < fuel
        → (r : Sched) × (main_loop fuel c s ≡ some r) × Ended r
    unfolding main_loop turn
    main_loop-Ended zero s h small = absurd (omega arith)
    main_loop-Ended (suc fuel) s h small =
        elim (Decided-Advances (after c s) h (decide-Decided c (after c s) h)) [
          | inl (r, e, ended) ↦ (r, rw (e, main_loop) refl, ended)
          | inr (s', e, h', less) ↦
              let (r, found, ended) = main_loop-Ended fuel s' h' (omega arith) in
              (r, rw (e, main_loop) found, ended)
        ]

    pub after-start :
        (rng : ℕ) (ns : List Node) → All IsNode ns → after c (start rng ns) ≡ start rng ns
    unfolding settle
    after-start rng ns h =
        ap (start rng) (wait-Idle c.quantum ns (All-map IsNode Idle IsNode-Idle ns h))

    -- If none of the first 2^32 terms of the series overflows and the floating point numbers are as
    -- `IsIeee` says: the main loop over at most 25 tasks that satisfy the invariant comes to its
    -- end, if its fuel is more than the work units left. It leaves every task FINISHED with all of
    -- its units done and the sum of the series at them, or it has reached the cap on dispatches:
    -- then every task is FINISHED too, and its sum is that of the series at the units that it did.
    pub main_loop_ends :
        (fuel rng : ℕ) (ns : List Node)
        → All IsNode ns
        → length ns ≤ 25
        → remaining ns < fuel
        → (r : Sched) × (scheduler_main_loop fuel c rng ns ≡ some r) × Ended r
    unfolding scheduler_main_loop
    main_loop_ends fuel rng ns h few small =
        let same = after-start rng ns h in
        main_loop-Ended fuel (start rng ns) (rw same (record { rest = h; few = few; quiet = refl }))
          (rw same small)
