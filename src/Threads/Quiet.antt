-- ===== src/Threads/Quiet.antt =====
-- src/task.c and src/scheduler.c: what a step without a broadcast leaves as it is.
use soa_p1_grupo_cu.Base.{
  ℕ, ◌≡◌, refl, sym, ap, ◌∙◌, true, false, Option-cases, List, get_elem?, ltb, ◌&&◌, ◌==◌,
  Bool-cases, inl, inr,
}
use soa_p1_grupo_cu.Base.Float.{Floats}
use soa_p1_grupo_cu.Task.{is_ready, is_running, Task, Node, task_transition_to_running}
use soa_p1_grupo_cu.Lottery.{
  scheduler_calculate_cumulutive_tickets, scheduler_all_tasks_finished, scheduler_winner_task,
  scheduler_sort_winner_ticket,
}
use soa_p1_grupo_cu.Scheduler.{
  Config, Sched, Turn, again, leave, on_task, dispatch, lottery, decide,
}
use soa_p1_grupo_cu.Threads.{
  Worker, Move, sleep, begin_slice, begin_quantum, single, unit, give_up, used_up, all_done, quit,
}
use soa_p1_grupo_cu.Threads.Wait.{one_unit-state}
use soa_p1_grupo_cu.Threads.Invariant.{modify-same}
use soa_p1_grupo_cu.Threads.Condition.{
  sends, lottery_broadcasts, decision_broadcasts, move_broadcasts,
}

module _ ⦃fl : Floats⦄ where
  abbrev pub nodes_after : Turn → List Node
  nodes_after (again s) = s.nodes
  nodes_after (leave s) = s.nodes

module _ ⦃fl : Floats⦄ (c : Config) where
  dispatch-quiet :
      (ticket sum winner : ℕ) (s : Sched)
      → sends s.global_dispatch (get_elem? s.nodes winner) ≡ false
      → nodes_after (dispatch ticket sum winner s) ≡ s.nodes
  unfolding dispatch on_task task_transition_to_running
  dispatch-quiet ticket sum winner s quiet = elim (Option-cases (get_elem? s.nodes winner)) [
    | inl out ↦ rw (out, dispatch) refl
    | inr (n, at) ↦
        rw (at, dispatch)
          (modify-same (on_task (λ t. (task_transition_to_running t s.global_dispatch).0)) winner
            s.nodes n at (unready n (sym (ap (sends s.global_dispatch) at) ∙ quiet)))
  ]
    where
      unready :
          (n : Node)
          → (task_transition_to_running n.task s.global_dispatch).1 ≡ false
          → on_task (λ t. (task_transition_to_running t s.global_dispatch).0) n ≡ n
      unready n e = elim (Bool-cases (is_ready n.task.state)) [
        | inl r ↦ absurd (cc)
        | inr r ↦ rw r refl
      ]

  lottery-quiet : (s : Sched) → lottery_broadcasts s ≡ false → nodes_after (lottery s) ≡ s.nodes
  unfolding lottery
  lottery-quiet s quiet =
      let sum = scheduler_calculate_cumulutive_tickets s.nodes in
      let (rng', ticket) = scheduler_sort_winner_ticket s.rng sum in
      elim (Bool-cases (sum == 0)) [
        | inl none_left ↦ rw (none_left, lottery) refl
        | inr some_left ↦ elim (Option-cases (scheduler_winner_task s.nodes ticket)) [
          | inl nobody ↦ rw (some_left, lottery, nobody) refl
          | inr (winner, found) ↦
              rw (some_left, lottery, found)
                (dispatch-quiet ticket sum winner (record s { rng = rng' })
                  (sym (rw (some_left, found) refl) ∙ quiet))
        ]
      ]

  -- A decision that does not broadcast leaves the nodes as they are.
  pub decide-quiet :
      (s : Sched) → decision_broadcasts c s ≡ false → nodes_after (decide c s) ≡ s.nodes
  unfolding decide decision_broadcasts
  decide-quiet s quiet =
      elim (Bool-cases (ltb 0 c.max_dispatches && ltb c.max_dispatches s.global_dispatch)) [
        | inl capped ↦ absurd (cc)
        | inr below ↦ elim (Bool-cases (scheduler_all_tasks_finished s.nodes)) [
          | inl all ↦ rw (below, decide, all) refl
          | inr more ↦
              rw (below, decide, more) (lottery-quiet s (sym (rw (below, more) refl) ∙ quiet))
        ]
      ]

  -- A worker that does not report leaves a RUNNING task so.
  pub quiet-running :
      {W : ℕ} {wk : Worker} {t : Task} {wk' : Worker} {t' : Task}
      (mv : Move c.quantum W wk t wk' t')
      → move_broadcasts c mv ≡ false
      → is_running t.state ≡ true
      → is_running t'.state ≡ true
  quiet-running (sleep r) quiet run = run
  quiet-running (begin_slice r p) quiet run = run
  quiet-running (begin_quantum r p q) quiet run = run
  quiet-running (single r p q) quiet run = ap is_running (one_unit-state c.quantum _) ∙ run
  quiet-running (unit l o) quiet run = ap is_running (one_unit-state c.quantum _) ∙ run
  quiet-running (give_up l o) quiet run = ap is_running (one_unit-state c.quantum _) ∙ run
  quiet-running used_up quiet run = absurd (cc)
  quiet-running (all_done l) quiet run = absurd (cc)
  quiet-running (quit f) quiet run = run
