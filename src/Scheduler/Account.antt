-- ===== src/Scheduler/Account.antt =====
-- src/scheduler.c: the units in the log against the units of the tasks.
use mathlib.Core.Path.{subst}
use soa_p1_grupo_cu.Base.{
  Bool, ℕ, zero, suc, ◌+◌, ◌-◌, ◌≤◌, ◌≡◌, ◌≢◌, refl, sym, ap, ◌∙◌, true, false, some, List, [], ◌∷◌,
  ◌++◌, All, length, arith, get_elem?, if◌then◌else◌, ◌==◌, inl, inr,
}
use soa_p1_grupo_cu.Base.Float.{Floats, IsIeee}
use soa_p1_grupo_cu.Task.{Task, Node, shut_down, task_shutdown_all}
use soa_p1_grupo_cu.Task.Series.{Converges}
use soa_p1_grupo_cu.Scheduler.{
  Config, Event, drawn, outcome, Sched, sub_u32, outcome_event, start, scheduler_main_loop,
}
use soa_p1_grupo_cu.Scheduler.Nodes.{All-get_elem?}
use soa_p1_grupo_cu.Scheduler.Round.{IsNode, play, play-Played}
use soa_p1_grupo_cu.Scheduler.Progress.{AtRest-le}
use soa_p1_grupo_cu.Scheduler.Turns.{Settled, Plays, draw_event, pending_of, draw_of, sum_of}
use soa_p1_grupo_cu.Scheduler.Rule.{main_loop-Kept}
use soa_p1_grupo_cu.Scheduler.Log.{sub_u32-eq}
use soa_p1_grupo_cu.Scheduler.Ids.{modify-cases, All-of, DistinctIds, AllFresh, SameIds-distinct}

-- The units that the log gives a winner, over all of its dispatches.
abbrev pub logged_units : ℕ → List Event → ℕ
logged_units id [] = 0
logged_units id (drawn number winner ticket sum left ∷ es) = logged_units id es
logged_units id (outcome number winner run done state tickets left ∷ es) =
    (if winner == id then run else 0) + logged_units id es

logged_units-append :
    (id : ℕ) (es fs : List Event)
    → logged_units id (es ++ fs) ≡ logged_units id es + logged_units id fs
logged_units-append id [] fs = omega arith
logged_units-append id (drawn _ _ _ _ _ ∷ es) fs = logged_units-append id es fs
logged_units-append id (outcome _ w run _ _ _ _ ∷ es) fs =
    omega (arith, logged_units-append id es fs)

same_number : (a b : ℕ) → a ≡ b → (a == b) ≡ true
same_number a b e = ground arith

other_number : (a b : ℕ) → a ≢ b → (a == b) ≡ false
other_number a b ne = ground arith

module _ ⦃fl : Floats⦄ where
  -- The log so far accounts for the units of every node.
  record Accounts (s : Sched) : Type 0 where
    distinct : DistinctIds s.nodes
    balance :
        (i : ℕ) (n : Node)
        → get_elem? s.nodes i ≡ some n
        → logged_units n.id s.log ≡ n.task.work_units_done

  shut_down-units : (t : Task) → (shut_down t).work_units_done ≡ t.work_units_done
  shut_down-units t = ground arith

  -- A shutdown leaves the id and the units of each node.
  shutdown-from :
      (ns : List Node) (j : ℕ) (m : Node)
      → get_elem? (task_shutdown_all ns) j ≡ some m
      → (m' : Node) × (get_elem? ns j ≡ some m')
        × (m.id ≡ m'.id)
        × (m.task.work_units_done ≡ m'.task.work_units_done)
  unfolding task_shutdown_all
  shutdown-from [] j m at = absurd (cc)
  shutdown-from (n ∷ ns) zero m at =
      let same : record n { task = shut_down n.task } ≡ m = cc in
      (
        n,
        refl,
        sym (ap (λ (x : Node). x.id) same),
        sym (ap (λ (x : Node). x.task.work_units_done) same) ∙ shut_down-units n.task,
      )
  shutdown-from (n ∷ ns) (suc j) m at = shutdown-from ns j m at

  shutdown-Accounts :
      (s : Sched) → Accounts s → Accounts (record s { nodes = task_shutdown_all s.nodes })
  shutdown-Accounts s a = record {
    distinct =
        SameIds-distinct s.nodes (task_shutdown_all s.nodes)
          (λ j m at. let (m', at', e, d) = shutdown-from s.nodes j m at in (m', at', e)) a.distinct;
    balance = λ i n at.
        let (n', at', e, d) = shutdown-from s.nodes i n at in
        ap (λ id. logged_units id s.log) e ∙ a.balance i n' at' ∙ sym d;
  }

  module _ (conv : Converges) (ieee : IsIeee fl) (c : Config) where
    -- What a dispatch adds to the units in the log.
    logged_more :
        (s t : Sched) (i : ℕ) (n : Node) (id : ℕ)
        → Plays c s i n t
        → let m = play c s.global_dispatch n in
          logged_units id t.log
          ≡ logged_units id s.log
            + (if m.id == id then sub_u32 m.task.work_units_done n.task.work_units_done else 0)
    unfolding outcome_event
    logged_more s t i n id p =
        let first = s.log ++ draw_event s.global_dispatch (draw_of s).1 (sum_of s) n ∷ [] in
        let both =
          logged_units-append id first
            (outcome_event (pending_of s.global_dispatch i n) (play c s.global_dispatch n) ∷ []) in
        let one =
          logged_units-append id s.log
            (draw_event s.global_dispatch (draw_of s).1 (sum_of s) n ∷ []) in
        ap (logged_units id) p.logged ∙ omega (arith, both, one)

    abbrev if_run : Node → Node → Bool → ℕ
    if_run n k b = if b then sub_u32 k.task.work_units_done n.task.work_units_done else 0

    own_units :
        (s t : Sched) (n k m : Node)
        → m ≡ k
        → k.id ≡ n.id
        → logged_units n.id s.log ≡ n.task.work_units_done
        → logged_units m.id t.log
          ≡ logged_units m.id s.log
            + (if k.id == m.id then sub_u32 k.task.work_units_done n.task.work_units_done else 0)
        → sub_u32 k.task.work_units_done n.task.work_units_done
          ≡ k.task.work_units_done - n.task.work_units_done
        → n.task.work_units_done ≤ k.task.work_units_done
        → logged_units m.id t.log ≡ m.task.work_units_done
    own_units s t n k m e same before more run le =
        let id : m.id ≡ n.id = ap (λ (x : Node). x.id) e ∙ same in
        let old : logged_units m.id s.log ≡ n.task.work_units_done =
          ap (λ x. logged_units x s.log) id ∙ before in
        let done = ap (λ (x : Node). x.task.work_units_done) e in
        let own : if_run n k (k.id == m.id) ≡ k.task.work_units_done - n.task.work_units_done =
          ap (if_run n k) (same_number k.id m.id (same ∙ sym id)) ∙ run in
        omega (arith, more, own, old, le, done)

    other_units :
        (s t : Sched) (n k m : Node)
        → k.id ≢ m.id
        → logged_units m.id s.log ≡ m.task.work_units_done
        → logged_units m.id t.log
          ≡ logged_units m.id s.log
            + (if k.id == m.id then sub_u32 k.task.work_units_done n.task.work_units_done else 0)
        → logged_units m.id t.log ≡ m.task.work_units_done
    other_units s t n k m other before more =
        omega (arith, more, before, ap (if_run n k) (other_number k.id m.id other))

    Plays-Accounts :
        (s t : Sched) (i : ℕ) (n : Node) → Settled s → Accounts s → Plays c s i n t → Accounts t
    Plays-Accounts s t i n h a p =
        let f = play c s.global_dispatch in
        let is = All-get_elem? IsNode i s.nodes n p.at h.rest in
        let played = play-Played conv ieee c s.global_dispatch n is p.was_ready in
        let run : sub_u32 (f n).task.work_units_done n.task.work_units_done
            ≡ (f n).task.work_units_done - n.task.work_units_done =
          sub_u32-eq (f n).task.work_units_done n.task.work_units_done
            (omega (
              arith,
              played.is_node.small,
              AtRest-le (f n).task.state (f n).task.work_units_done (f n).work_units
                  played.is_node.at_rest,
            ))
            (omega (arith, played.progress)) in
        let cases = λ (j : ℕ) (m : Node) (at : get_elem? t.nodes j ≡ some m).
          modify-cases f i j s.nodes n m p.at (sym (ap (λ ns. get_elem? ns j) p.nodes) ∙ at) in
        record {
          distinct =
              SameIds-distinct s.nodes t.nodes
                (λ j m at. elim (cases j m at) [
                  | inl (same, e) ↦ (
                    n,
                    subst (λ k. get_elem? s.nodes k ≡ some n) same p.at,
                    ap (λ (x : Node). x.id) e ∙ played.same_id,
                  )
                  | inr (other, at') ↦ (m, at', refl)
                ])
                a.distinct;
          balance = λ j m at. elim (cases j m at) [
            | inl (same, e) ↦
                own_units s t n (f n) m e played.same_id (a.balance i n p.at)
                  (logged_more s t i n m.id p) run (omega (arith, played.progress))
            | inr (other, at') ↦
                other_units s t n (f n) m
                  (λ same_id. other (a.distinct i j n m p.at at' (sym played.same_id ∙ same_id)))
                  (a.balance j m at') (logged_more s t i n m.id p)
          ];
        }

    start-Accounts :
        (rng : ℕ) (ns : List Node) → DistinctIds ns → AllFresh ns → Accounts (start rng ns)
    start-Accounts rng ns distinct fresh = record {
      distinct = distinct;
      balance =
          λ i n at. sym (All-get_elem? (λ (x : Node). x.task.work_units_done ≡ 0) i ns n at fresh);
    }

    -- If none of the first 2^32 terms of the series overflows and the floating point numbers are as
    -- `IsIeee` says: over at most 25 tasks that satisfy the invariant, have different ids and have
    -- not run yet, the units that the log of the main loop gives to each task, summed over its
    -- dispatches, are the units that the task has done when the loop ends.
    pub main_loop-logged_units :
        (fuel rng : ℕ) (ns : List Node) (r : Sched)
        → All IsNode ns
        → length ns ≤ 25
        → DistinctIds ns
        → AllFresh ns
        → scheduler_main_loop fuel c rng ns ≡ some r
        → All (λ (n : Node). logged_units n.id r.log ≡ n.task.work_units_done) r.nodes
    main_loop-logged_units fuel rng ns r h few distinct fresh e =
        let ended : Accounts r =
          main_loop-Kept conv ieee c Accounts
            (record { plays = Plays-Accounts; shutdown = shutdown-Accounts }) fuel rng ns r h few
            (start-Accounts rng ns distinct fresh) e in
        All-of (λ (n : Node). logged_units n.id r.log ≡ n.task.work_units_done) r.nodes
          ended.balance
