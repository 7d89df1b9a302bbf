-- ===== src/Threads/Control.antt =====
-- src/scheduler.c: the steps of the scheduler thread itself keep the invariant of the machine.
use mathlib.Core.Path.{subst}
use soa_p1_grupo_cu.Base.{
  ℕ, zero, suc, ◌≡◌, refl, sym, ap, ◌∙◌, false, none, some, Option, Option-cases, List, [], ◌∷◌,
  All, ltb, ◌&&◌, get_elem?, modify, arith, ◌==◌, Bool-cases, inl, inr, ◌⊎◌,
}
use soa_p1_grupo_cu.Base.Float.{Floats}
use soa_p1_grupo_cu.Task.{
  is_running, Task, Node, task_apply_compensation, task_shutdown_all, task_transition_to_running,
  shut_down,
}
use soa_p1_grupo_cu.Lottery.{
  scheduler_calculate_cumulutive_tickets, scheduler_all_tasks_finished, scheduler_winner_task,
  scheduler_sort_winner_ticket,
}
use soa_p1_grupo_cu.Scheduler.{
  Config, Sched, Turn, again, leave, on_task, settle, decide, lottery, dispatch,
  wait_until_no_running,
}
use soa_p1_grupo_cu.Scheduler.Nodes.{Idle, All-get_elem?}
use soa_p1_grupo_cu.Threads.{Worker}
use soa_p1_grupo_cu.Threads.Wait.{During-waited, During-idle}
use soa_p1_grupo_cu.Threads.Places.{wait-at, wait-none}
use soa_p1_grupo_cu.Threads.Invariant.{
  get_elem?-ext, Pairing, RestAt, Rest, when_awake, Waiting, Holding,
}

module _ ⦃fl : Floats⦄ (c : Config) where
  -- At the end of the wait a node is what the wait makes of it.
  Pairing-awake :
      (lead : List Node) (i : ℕ) (o : Option Node) (wk : Worker)
      → Pairing c (get_elem? lead i) o wk
      → ((n : Node) → o ≡ some n → Idle n)
      → (o ≡ get_elem? (wait_until_no_running c.quantum lead) i) × RestAt c o wk
  Pairing-awake lead i o wk p idle = elim (Option-cases (get_elem? lead i)) [
    | inl out ↦ go_none o (subst (λ x. Pairing c x o wk) out p) out
    | inr (n, at) ↦ go_some n o (subst (λ x. Pairing c x o wk) at p) at idle
  ]
    where
      go_none :
          (o : Option Node)
          → Pairing c none o wk
          → get_elem? lead i ≡ none
          → (o ≡ get_elem? (wait_until_no_running c.quantum lead) i) × RestAt c o wk
      go_none none p out = (sym (wait-none c.quantum lead i out), tt)
      go_none (some n') p out = absurd p

      go_some :
          (n : Node) (o : Option Node)
          → Pairing c (some n) o wk
          → get_elem? lead i ≡ some n
          → ((n' : Node) → o ≡ some n' → Idle n')
          → (o ≡ get_elem? (wait_until_no_running c.quantum lead) i) × RestAt c o wk
      go_some n none p at idle = absurd p
      go_some n (some n') (e, d) at idle =
          let still = idle n' refl in
          (
            ap some (e ∙ ap (λ t. record n { task = t }) (During-waited c.quantum d still))
                ∙ sym (wait-at c.quantum lead i at),
            record { not_computing = During-idle c.quantum d still; not_running = still },
          )

  pub wake-Holding :
      (rng : ℕ) (ns : List Node) (k : ℕ) (lead s : Sched) (wks : ℕ → Worker)
      → Waiting c rng ns k lead s wks
      → All Idle s.nodes
      → Holding c rng ns k lead (when_awake c lead) s wks
  wake-Holding rng ns k lead s wks w idle =
      let each = λ (i : ℕ).
        Pairing-awake lead.nodes i (get_elem? s.nodes i) (wks i) (w.pairs i)
          (λ n at. All-get_elem? Idle i s.nodes n at idle) in
      record {
        leads = w.leads;
        same =
            w.same
            ∙ ap (λ nodes. record lead { nodes = nodes })
                (get_elem?-ext s.nodes (wait_until_no_running c.quantum lead.nodes)
                  (λ i. (each i).0));
        rest = λ i. (each i).1;
      }

  -- Each node comes from the one at its place, and what its task had of `Q` it still has.
  abbrev pub Keeps : (Task → Type 0) → List Node → List Node → Type 0
  Keeps Q nodes nodes' =
      (i : ℕ) (n' : Node)
      → get_elem? nodes' i ≡ some n'
      → (n : Node) × (get_elem? nodes i ≡ some n) × (Q n.task → Q n'.task)

  abbrev pub IsIdle : Task → Type 0
  IsIdle t = is_running t.state ≡ false

  pub Rest-Keeps :
      (nodes nodes' : List Node) (wks : ℕ → Worker)
      → Keeps IsIdle nodes nodes'
      → Rest c nodes wks
      → Rest c nodes' wks
  Rest-Keeps nodes nodes' wks kept rest i = elim (Option-cases (get_elem? nodes' i)) [
    | inl out ↦ subst (λ o. RestAt c o (wks i)) (sym out) tt
    | inr (n', at') ↦
        let (n, at, idle) = kept i n' at' in
        let here = subst (λ o. RestAt c o (wks i)) at (rest i) in
        subst (λ o. RestAt c o (wks i)) (sym at')
          (record { not_computing = here.not_computing; not_running = idle here.not_running })
  ]

  pub modify-from :
      (f : Node → Node) (i : ℕ) (nodes : List Node) (j : ℕ) (n' : Node)
      → get_elem? (modify f i nodes) j ≡ some n'
      → (n : Node) × (get_elem? nodes j ≡ some n) × ((n' ≡ n) ⊎ (n' ≡ f n))
  modify-from f i [] j n' at = absurd (cc)
  modify-from f zero (n ∷ nodes) zero n' at = (n, refl, inr (cc))
  modify-from f zero (n ∷ nodes) (suc j) n' at = (n', at, inl refl)
  modify-from f (suc i) (n ∷ nodes) zero n' at = (n, refl, inl (cc))
  modify-from f (suc i) (n ∷ nodes) (suc j) n' at = modify-from f i nodes j n' at

  module _ (Q : Task → Type 0) where
    pub modify-Keeps :
        (f : Task → Task) (i : ℕ) (nodes : List Node)
        → ((t : Task) → Q t → Q (f t))
        → Keeps Q nodes (modify (on_task f) i nodes)
    unfolding on_task
    modify-Keeps f i nodes keeps j n' at' =
        let (n, at, how) = modify-from (on_task f) i nodes j n' at' in
        (
          n,
          at,
          λ q. elim how [
            | inl same ↦ subst (λ (x : Node). Q x.task) (sym same) q
            | inr new ↦ subst (λ (x : Node). Q x.task) (sym new) (keeps n.task q)
          ],
        )

    pub settle-Keeps :
        (s : Sched)
        → ((t : Task) → Q t → Q (task_apply_compensation t c.compensation))
        → Keeps Q s.nodes (settle c s).nodes
    unfolding settle
    settle-Keeps s keeps = elim (Option-cases s.pending) [
      | inl quiet ↦ rw (quiet, settle) (λ i n' at. (n', at, λ q. q))
      | inr (p, e) ↦
          rw (e, settle)
            (modify-Keeps (λ t. task_apply_compensation t c.compensation) p.winner s.nodes keeps)
    ]

    pub shutdown-Keeps :
        (nodes : List Node)
        → ((t : Task) → Q t → Q (shut_down t))
        → Keeps Q nodes (task_shutdown_all nodes)
    unfolding task_shutdown_all
    shutdown-Keeps [] keeps i n' at = absurd (cc)
    shutdown-Keeps (n ∷ nodes) keeps zero n' at =
        let same : record n { task = shut_down n.task } ≡ n' = cc in
        (n, refl, λ q. subst (λ (x : Node). Q x.task) same (keeps n.task q))
    shutdown-Keeps (n ∷ nodes) keeps (suc i) n' at = shutdown-Keeps nodes keeps i n' at

  pub compensation-IsIdle :
      (t : Task) → IsIdle t → IsIdle (task_apply_compensation t c.compensation)
  unfolding task_apply_compensation
  compensation-IsIdle t idle = ground (arith, idle)

  pub shut_down-IsIdle : (t : Task) → IsIdle t → IsIdle (shut_down t)
  shut_down-IsIdle t idle = ground (arith, idle)

  -- What the nodes are after a decision.
  abbrev pub Sent : List Node → Turn → Type 0
  Sent nodes (again s') =
      (s'.nodes ≡ nodes)
      ⊎ ((g : ℕ) × (w : ℕ) × (s'.nodes
            ≡ modify (on_task (λ t. (task_transition_to_running t g).0)) w nodes))
  Sent nodes (leave s') = (s'.nodes ≡ task_shutdown_all nodes) ⊎ (s'.nodes ≡ nodes)

  dispatch-Sent : (ticket sum winner : ℕ) (s : Sched) → Sent s.nodes (dispatch ticket sum winner s)
  unfolding dispatch
  dispatch-Sent ticket sum winner s = elim (Option-cases (get_elem? s.nodes winner)) [
    | inl out ↦ rw (out, dispatch) (inr refl)
    | inr (n, at) ↦ rw (at, dispatch) (inr (s.global_dispatch, winner, refl))
  ]

  lottery-Sent : (s : Sched) → Sent s.nodes (lottery s)
  unfolding lottery
  lottery-Sent s =
      let sum = scheduler_calculate_cumulutive_tickets s.nodes in
      let (rng', ticket) = scheduler_sort_winner_ticket s.rng sum in
      elim (Bool-cases (sum == 0)) [
        | inl none_left ↦ rw (none_left, lottery) (inl refl)
        | inr some_left ↦ elim (Option-cases (scheduler_winner_task s.nodes ticket)) [
          | inl nobody ↦ rw (some_left, lottery, nobody) (inr refl)
          | inr (winner, found) ↦
              rw (some_left, lottery, found)
                (dispatch-Sent ticket sum winner (record s { rng = rng' }))
        ]
      ]

  pub decide-Sent : (s : Sched) → Sent s.nodes (decide c s)
  unfolding decide
  decide-Sent s =
      elim (Bool-cases (ltb 0 c.max_dispatches && ltb c.max_dispatches s.global_dispatch)) [
        | inl capped ↦ rw (capped, decide) (inl refl)
        | inr below ↦ elim (Bool-cases (scheduler_all_tasks_finished s.nodes)) [
          | inl all ↦ rw (below, decide, all) (inr refl)
          | inr more ↦ rw (below, decide, more) (lottery-Sent s)
        ]
      ]
