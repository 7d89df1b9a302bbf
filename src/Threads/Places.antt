-- ===== src/Threads/Places.antt =====
-- src/task.c: what the wait for the RUNNING task makes of the node at a place of the list.
use mathlib.Core.Option.{map}
use soa_p1_grupo_cu.Base.{
  ℕ, zero, suc, ◌≡◌, refl, ap, ◌∙◌, none, some, List, [], ◌∷◌, if◌then◌else◌, arith, Bool-cases,
  inl, inr, get_elem?,
}
use soa_p1_grupo_cu.Base.Float.{Floats}
use soa_p1_grupo_cu.Task.{is_running, Node}
use soa_p1_grupo_cu.Task.Work.{task_do_work_unit}
use soa_p1_grupo_cu.Scheduler.{wait_until_no_running}
use soa_p1_grupo_cu.Threads.Wait.{waited}

module _ ⦃fl : Floats⦄ (quantum : ℕ) where
  wait-first :
      (m : Node)
      → (if is_running m.task.state then task_do_work_unit quantum m else m)
        ≡ record m { task = waited quantum m.work_units m.task }
  unfolding task_do_work_unit
  wait-first m = elim (Bool-cases (is_running m.task.state)) [
    | inl r ↦ rw r refl
    | inr r ↦ rw r refl
  ]

  pub wait-at :
      (ns : List Node) (i : ℕ) {n : Node}
      → get_elem? ns i ≡ some n
      → get_elem? (wait_until_no_running quantum ns) i
        ≡ some (record n { task = waited quantum n.work_units n.task })
  unfolding wait_until_no_running
  wait-at [] i e = absurd (ground arith)
  wait-at (m ∷ ms) zero e =
      ap some (wait-first m)
      ∙ ap (map (λ (x : Node). record x { task = waited quantum x.work_units x.task })) e
  wait-at (m ∷ ms) (suc i) e = wait-at ms i e

  pub wait-none :
      (nodes : List Node) (i : ℕ)
      → get_elem? nodes i ≡ none
      → get_elem? (wait_until_no_running quantum nodes) i ≡ none
  unfolding wait_until_no_running
  wait-none [] i e = e
  wait-none (n ∷ nodes) zero e = absurd (cc)
  wait-none (n ∷ nodes) (suc i) e = wait-none nodes i e
