-- ===== src/Threads/Follow.antt =====
-- src/scheduler.c and src/task.c: each step of the machine keeps its invariant.
use mathlib.Core.Path.{subst}
use soa_p1_grupo_cu.Base.{
  ℕ, ◌≡◌, ◌≢◌, sym, ap, ◌∙◌, true, false, none, some, Option, List, get_elem?, modify, arith, ◌==◌,
  Bool-cases, inl, inr,
}
use soa_p1_grupo_cu.Base.Float.{Floats}
use soa_p1_grupo_cu.Task.{Task, Node}
use soa_p1_grupo_cu.Scheduler.{Config, Sched, settle}
use soa_p1_grupo_cu.Scheduler.Nodes.{get_elem?-modify}
use soa_p1_grupo_cu.Scheduler.Ids.{get_elem?-modify_other}
use soa_p1_grupo_cu.Threads.{Worker, Move, changed}
use soa_p1_grupo_cu.Threads.Wait.{Move-During, Move-Resting, Resting-kept}
use soa_p1_grupo_cu.Threads.Machine.{Point, in_wait, after_wait, choosing, stopped, with_task}
use soa_p1_grupo_cu.Threads.Invariant.{
  modify-same, Pairing, RestAt, Rest, when_awake, Holding, Valid,
}

same_place : (i j : ℕ) → (i == j) ≡ true → i ≡ j
same_place i j e = ground arith

other_place : (i j : ℕ) → (i == j) ≡ false → i ≢ j
other_place i j e same = ground (arith, same)

module _ ⦃fl : Floats⦄ (c : Config) (rng : ℕ) (ns : List Node) (k : ℕ) where
  -- The node at a place once its task is stored.
  abbrev pub stored : Task → Node → Node
  stored t n = record n { task = t }

  Pairing-moved :
      (o : Option Node) (n : Node) {wk wk' : Worker} {t : Task}
      → Pairing c o (some n) wk
      → Move c.quantum n.work_units wk n.task wk' t
      → Pairing c o (some (stored t n)) wk'
  Pairing-moved none n p m = absurd p
  Pairing-moved (some n0) n {wk} {wk'} {t} (e, d) m = (
    ap (stored t) e,
    Move-During c.quantum (subst (λ (x : Node). Move c.quantum x.work_units wk n.task wk' t) e m) d,
  )

  RestAt-moved :
      (n : Node) {wk wk' : Worker} {t : Task}
      → RestAt c (some n) wk
      → Move c.quantum n.work_units wk n.task wk' t
      → RestAt c (some (stored t n)) wk'
  RestAt-moved n rest m = Resting-kept c.quantum m rest

  -- A step at one place, for what holds at every place.
  pub everywhere :
      (P : ℕ → Option Node → Worker → Type 0) (nodes : List Node) (wks : ℕ → Worker) (i : ℕ)
      {n : Node} {wk : Worker} {t : Task}
      → get_elem? nodes i ≡ some n
      → P i (some (stored t n)) wk
      → ((j : ℕ) → P j (get_elem? nodes j) (wks j))
      → (j : ℕ) → P j (get_elem? (modify (stored t) i nodes) j) (changed wks i wk j)
  everywhere P nodes wks i {n} {wk} {t} at p all j = elim (Bool-cases (i == j)) [
    | inl same ↦ rw same (
        subst (λ k. P k (get_elem? (modify (stored t) i nodes) k) wk) (same_place i j same)
          (rw (get_elem?-modify (stored t) i nodes n at) p))
    | inr other ↦
        rw (other, get_elem?-modify_other (stored t) i j nodes (other_place i j other)) (all j)
  ]

  -- A worker that rests changes no task.
  still :
      (s : Sched) (wks : ℕ → Worker) (i : ℕ) {n : Node} {wk : Worker} {t : Task}
      → get_elem? s.nodes i ≡ some n
      → Move c.quantum n.work_units (wks i) n.task wk t
      → Rest c s.nodes wks
      → with_task i t s ≡ s
  still s wks i {n} {wk} {t} at m rest =
      let here = subst (λ o. RestAt c o (wks i)) at (rest i) in
      ap (λ nodes. record s { nodes = nodes })
        (modify-same (stored t) i s.nodes n at
          (ap (λ u. record n { task = u }) (Move-Resting c.quantum m here).0))

  work-Rest :
      (nodes : List Node) (wks : ℕ → Worker) (i : ℕ) {n : Node} {wk : Worker} {t : Task}
      → get_elem? nodes i ≡ some n
      → Move c.quantum n.work_units (wks i) n.task wk t
      → Rest c nodes wks
      → Rest c (modify (stored t) i nodes) (changed wks i wk)
  work-Rest nodes wks i {n} at m rest =
      everywhere (λ j o wk. RestAt c o wk) nodes wks i at
        (RestAt-moved n (subst (λ o. RestAt c o (wks i)) at (rest i)) m) rest

  work-Holding :
      (lead now s : Sched) (wks : ℕ → Worker) (i : ℕ) {n : Node} {wk : Worker} {t : Task}
      → get_elem? s.nodes i ≡ some n
      → Move c.quantum n.work_units (wks i) n.task wk t
      → Holding c rng ns k lead now s wks
      → Holding c rng ns k lead now (with_task i t s) (changed wks i wk)
  work-Holding lead now s wks i at m h = record {
    leads = h.leads;
    same = still s wks i at m h.rest ∙ h.same;
    rest = work-Rest s.nodes wks i at m h.rest;
  }

  pub work-Valid :
      (p : Point) (s : Sched) (wks : ℕ → Worker) (i : ℕ) {n : Node} {wk : Worker} {t : Task}
      → get_elem? s.nodes i ≡ some n
      → Move c.quantum n.work_units (wks i) n.task wk t
      → Valid c rng ns k p s wks
      → Valid c rng ns k p (with_task i t s) (changed wks i wk)
  work-Valid in_wait s wks i {n} {wk} {t} at m (lead, w) = (
    lead,
    record {
      leads = w.leads;
      same = ap (with_task i t) w.same;
      pairs =
          everywhere (λ j o wk. Pairing c (get_elem? lead.nodes j) o wk) s.nodes wks i at
            (Pairing-moved (get_elem? lead.nodes i) n
              (subst (λ o. Pairing c (get_elem? lead.nodes i) o (wks i)) at (w.pairs i)) m)
            w.pairs;
    },
  )
  work-Valid after_wait s wks i at m (lead, h) =
      (lead, work-Holding lead (when_awake c lead) s wks i at m h)
  work-Valid choosing s wks i at m (lead, h) =
      (lead, work-Holding lead (settle c (when_awake c lead)) s wks i at m h)
  work-Valid stopped s wks i at m d = record {
    unfinished = d.unfinished;
    result = d.result ∙ ap some (sym (still s wks i at m d.rest));
    rest = work-Rest s.nodes wks i at m d.rest;
  }
