-- ===== src/Scheduler/Turns.antt =====
-- One turn of the main loop: from a settled state it leaves the loop, or dispatches a READY task.
use soa_p1_grupo_cu.Scheduler.{log_outcome}
use mathlib.Core.Path.{subst}
use soa_p1_grupo_cu.Base.{
  ℕ, zero, suc, ◌+◌, ◌-◌, ◌*◌, ◌^◌, ◌≤◌, ◌<◌, ◌≡◌, ◌⊎◌, inl, inr, refl, ap, ◌∙◌, true, false, ◌&&◌,
  none, some, List, [], ◌∷◌, ◌++◌, arith, All, modify, get_elem?, ◌==◌, length, ltb, u32,
  Bool-cases,
}
use soa_p1_grupo_cu.Base.Float.{Floats}
use soa_p1_grupo_cu.Task.{
  TaskState, ready, running, finished, is_ready, Node, task_apply_compensation, task_is_finished,
  task_shutdown_all,
}
use soa_p1_grupo_cu.Lottery.{
  scheduler_calculate_cumulutive_tickets, scheduler_all_tasks_finished,
  scheduler_sort_winner_ticket,
}
use soa_p1_grupo_cu.Lottery.Shares.{total, calculate-total}
use soa_p1_grupo_cu.Lottery.Ticket.{drawn_place, draw-total, winner-ready}
use soa_p1_grupo_cu.Scheduler.{
  Config, Event, drawn, Pending, Sched, Turn, again, leave, on_task, wait_until_no_running,
  outcome_event, sub_u32, settle, dispatch, lottery, decide,
}
use soa_p1_grupo_cu.Scheduler.Nodes.{
  Idle, to_running, wait-modify, modify-modify, All-map, get_elem?-modify,
}
use soa_p1_grupo_cu.Scheduler.Round.{AtRest, IsNode, IsNode-Idle, play}

module _ ⦃fl : Floats⦄ where
  -- The units that are left in the list.
  abbrev pub remaining : List Node → ℕ
  remaining [] = 0
  remaining (n ∷ ns) = n.work_units - n.task.work_units_done + remaining ns

  pub remaining-modify :
      (f : Node → Node) (i : ℕ) (ns : List Node) (n : Node)
      → get_elem? ns i ≡ some n
      → (f n).work_units ≡ n.work_units
      → n.task.work_units_done < (f n).task.work_units_done
      → n.task.work_units_done < n.work_units
      → remaining (modify f i ns) < remaining ns
  remaining-modify f i [] n e same more left = absurd (cc)
  remaining-modify f zero (m ∷ ns) n e same more left =
      let eq : n ≡ m = ground arith in
      subst
        (λ x.
          (f x).work_units - (f x).task.work_units_done + remaining ns
          < x.work_units - x.task.work_units_done + remaining ns)
        eq (omega arith)
  remaining-modify f (suc i) (m ∷ ns) n e same more left =
      omega (arith, remaining-modify f i ns n e same more left)

  -- A node that is not FINISHED is READY, and has tickets at stake.
  pub unfinished-stake :
      (ns : List Node) → All IsNode ns → scheduler_all_tasks_finished ns ≡ false → 0 < total ns
  unfolding scheduler_all_tasks_finished task_is_finished
  unfinished-stake [] h e = absurd (cc)
  unfinished-stake (n ∷ ns) h e = go n.task.state refl (unfinished-stake ns h.1)
    where
      go :
          (s : TaskState)
          → n.task.state ≡ s
          → (scheduler_all_tasks_finished ns ≡ false → 0 < total ns)
          → 0 < total (n ∷ ns)
      go ready is rest = ground (arith, h.0.stake_pos)
      go running is rest =
          absurd (subst (λ x. AtRest x n.task.work_units_done n.work_units) is h.0.at_rest)
      go finished is rest = ground arith

  pub total-lt : (ns : List Node) → All IsNode ns → total ns ≤ length ns * 2 ^ 32
  total-lt [] h = omega arith
  total-lt (n ∷ ns) h = ground (arith, total-lt ns h.1, h.0.stake_small)

  -- The state as the scheduler sees it once it has waited: no worker runs and nothing is pending.
  pub record Settled (s : Sched) : Type 0 where
    pub rest : All IsNode s.nodes
    pub few : length s.nodes ≤ 25
    pub quiet : s.pending ≡ none

  -- The part of a turn before its decision.
  abbrev pub after : Config → Sched → Sched
  after c s = settle c (record s { nodes = wait_until_no_running c.quantum s.nodes })

  -- The line of the log for a draw.
  abbrev pub draw_event : ℕ → ℕ → ℕ → Node → Event
  draw_event g ticket sum n =
      drawn g n.id ticket sum (sub_u32 n.task.work_units n.task.work_units_done)

  abbrev pub pending_of : ℕ → ℕ → Node → Pending
  pending_of g i n = record {
    dispatch_number = g;
    winner = i;
    units_before = n.task.work_units_done;
  }

  abbrev pub sum_of : Sched → ℕ
  sum_of s = scheduler_calculate_cumulutive_tickets s.nodes

  -- The generator's next state, and the ticket that it gives.
  abbrev pub draw_of : Sched → ℕ × ℕ
  draw_of s = scheduler_sort_winner_ticket s.rng (sum_of s)

  -- From `s` to `t` the scheduler has dispatched the READY node `n` at place `i`, and waited.
  pub record Plays (c : Config) (s : Sched) (i : ℕ) (n : Node) (t : Sched) : Type 0 where
    pub chosen : drawn_place s.rng s.nodes ≡ some i
    pub at : get_elem? s.nodes i ≡ some n
    pub was_ready : is_ready n.task.state ≡ true
    pub rng : t.rng ≡ (draw_of s).0
    pub nodes : t.nodes ≡ modify (play c s.global_dispatch) i s.nodes
    pub next : t.global_dispatch ≡ u32 (s.global_dispatch + 1)
    pub quiet : t.pending ≡ none
    pub logged :
        t.log
        ≡ (s.log ++ draw_event s.global_dispatch (draw_of s).1 (sum_of s) n ∷ [])
          ++ outcome_event (pending_of s.global_dispatch i n) (play c s.global_dispatch n) ∷ []

  -- The state when the winner has been sent off.
  abbrev sent_state : Sched → ℕ → Node → Sched
  sent_state s i n = record {
    nodes = modify (to_running s.global_dispatch) i s.nodes;
    rng = (draw_of s).0;
    global_dispatch = u32 (s.global_dispatch + 1);
    pending = some (pending_of s.global_dispatch i n);
    log = s.log ++ draw_event s.global_dispatch (draw_of s).1 (sum_of s) n ∷ [];
  }

  nodes_after :
      (c : Config) (s : Sched) (i : ℕ) (n : Node)
      → Settled s
      → get_elem? s.nodes i ≡ some n
      → is_ready n.task.state ≡ true
      → modify
          (on_task (λ t. task_apply_compensation t c.compensation))
          i
          (wait_until_no_running c.quantum (modify (to_running s.global_dispatch) i s.nodes))
        ≡ modify (play c s.global_dispatch) i s.nodes
  unfolding play
  nodes_after c s i n h at r =
      ap (modify (on_task (λ t. task_apply_compensation t c.compensation)) i) (
        wait-modify c.quantum s.global_dispatch i s.nodes n
          (All-map IsNode Idle IsNode-Idle s.nodes h.rest) at r)
      ∙ modify-modify _ _ i s.nodes

  sent-Plays :
      (c : Config) (s : Sched) (i : ℕ) (n : Node)
      → Settled s
      → drawn_place s.rng s.nodes ≡ some i
      → get_elem? s.nodes i ≡ some n
      → is_ready n.task.state ≡ true
      → Plays c s i n (after c (sent_state s i n))
  unfolding settle
  sent-Plays c s i n h e at r = record {
    chosen = e;
    at = at;
    was_ready = r;
    rng = refl;
    nodes = nodes_after c s i n h at r;
    next = refl;
    quiet = refl;
    logged =
        ap
          (log_outcome (s.log ++ draw_event s.global_dispatch (draw_of s).1 (sum_of s) n ∷ [])
            (pending_of s.global_dispatch i n))
          (ap (λ ns. get_elem? ns i) (nodes_after c s i n h at r)
            ∙ get_elem?-modify (play c s.global_dispatch) i s.nodes n at);
  }

  dispatch-sent :
      (s : Sched) (i : ℕ) (n : Node)
      → get_elem? s.nodes i ≡ some n
      → dispatch (draw_of s).1 (sum_of s) i (record s { rng = (draw_of s).0 })
        ≡ again (sent_state s i n)
  unfolding dispatch
  dispatch-sent s i n at = rw (at, dispatch) refl

  lottery-dispatch :
      (s : Sched) (i : ℕ)
      → 0 < sum_of s
      → drawn_place s.rng s.nodes ≡ some i
      → lottery s ≡ dispatch (draw_of s).1 (sum_of s) i (record s { rng = (draw_of s).0 })
  unfolding lottery
  lottery-dispatch s i pos e = elim (Bool-cases (sum_of s == 0)) [
    | inl nothing ↦ absurd (ground arith)
    | inr something ↦ rw (something, e, lottery) refl
  ]

  -- How the loop goes on from a settled state.
  pub data Decided (c : Config) (s : Sched) : Turn → Type 0 where
    capped :
        0 < c.max_dispatches
        → c.max_dispatches < s.global_dispatch
        → Decided c s (leave (record s { nodes = task_shutdown_all s.nodes }))
    over : scheduler_all_tasks_finished s.nodes ≡ true → Decided c s (leave s)
    plays :
        {s' : Sched} (i : ℕ) (n : Node)
        → (c.max_dispatches ≡ 0) ⊎ (s.global_dispatch ≤ c.max_dispatches)
        → Plays c s i n (after c s')
        → Decided c s (again s')

  lottery-Decided :
      (c : Config) (s : Sched)
      → Settled s
      → (c.max_dispatches ≡ 0) ⊎ (s.global_dispatch ≤ c.max_dispatches)
      → scheduler_all_tasks_finished s.nodes ≡ false
      → Decided c s (lottery s)
  lottery-Decided c s h open_cap e =
      let pos = unfinished-stake s.nodes h.rest e in
      let fits : total s.nodes < 2 ^ 64 = omega (arith, total-lt s.nodes h.rest, h.few) in
      let (i, chosen) = draw-total s.rng s.nodes fits pos in
      let (n, at, r) = winner-ready s.nodes (draw_of s).1 i chosen in
      rw
        (
          lottery-dispatch s i (omega (arith, calculate-total s.nodes fits)) chosen,
          dispatch-sent s i n at,
        )
        (plays i n open_cap (sent-Plays c s i n h chosen at r))

  pub decide-Decided : (c : Config) (s : Sched) → Settled s → Decided c s (decide c s)
  unfolding decide
  decide-Decided c s h =
      elim (Bool-cases (ltb 0 c.max_dispatches && ltb c.max_dispatches s.global_dispatch)) [
        | inl hit ↦ rw hit (capped (ground arith) (ground arith))
        | inr not_hit ↦ rw not_hit (elim (Bool-cases (scheduler_all_tasks_finished s.nodes)) [
          | inl all ↦ rw all (over all)
          | inr some_left ↦ rw some_left (lottery-Decided c s h (ground arith) some_left)
        ])
      ]
