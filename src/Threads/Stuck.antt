-- ===== src/Threads/Stuck.antt =====
-- src/task.c and src/scheduler.c: a RUNNING task is never without a worker that can move.
use soa_p1_grupo_cu.Base.{
  ℕ, ◌≡◌, refl, ap, ◌∙◌, Bool, true, false, Option, none, some, ◌==◌, arith, Bool-cases, inl, inr,
}
use soa_p1_grupo_cu.Base.Float.{Floats}
use soa_p1_grupo_cu.Task.{
  TaskState, ready, running, finished, is_ready, is_running, is_finished, Task, shut_down,
  task_apply_compensation,
}
use soa_p1_grupo_cu.Threads.{
  Worker, Move, sleep, begin_slice, begin_quantum, single, unit, give_up, used_up, all_done, quit,
  World, compensate, Step, worker, pass, settle, send, retry, shutdown, leave, is_exited, Reach,
  at_start, after,
}
use soa_p1_grupo_cu.Threads.Bound.{finished-idle, MovesOn, any-MovesOn}

same_place : (i j : ℕ) → (i == j) ≡ true → i ≡ j
same_place i j e = ground arith

module _ ⦃fl : Floats⦄ (quantum : ℕ) (units : ℕ → ℕ) where
  -- A worker leaves its loop only when its task is FINISHED.
  abbrev Left : (ℕ → Worker) → (ℕ → Task) → Type 0
  Left wks ts = (j : ℕ) → is_exited (wks j) ≡ true → is_finished (ts j).state ≡ true

  pub Move-Left :
      {W : ℕ} {wk : Worker} {t : Task} {wk' : Worker} {t' : Task}
      → Move quantum W wk t wk' t'
      → is_exited wk' ≡ true
      → is_finished t'.state ≡ true
  Move-Left (sleep r) e = absurd (cc)
  Move-Left (begin_slice r p) e = absurd (cc)
  Move-Left (begin_quantum r p q) e = absurd (cc)
  Move-Left (single r p q) e = absurd (cc)
  Move-Left (unit l o) e = absurd (cc)
  Move-Left (give_up l o) e = absurd (cc)
  Move-Left used_up e = absurd (cc)
  Move-Left (all_done l) e = absurd (cc)
  Move-Left (quit f) e = f

  pub compensation-state :
      (enabled : Bool) (t : Task) → (task_apply_compensation t enabled).state ≡ t.state
  unfolding task_apply_compensation
  compensation-state enabled t = ground arith

  at_same :
      (i j : ℕ) (ts : ℕ → Task)
      → is_finished (ts j).state ≡ true
      → (i == j) ≡ true
      → is_finished (ts i).state ≡ true
  at_same i j ts f same = ap (λ k. is_finished (ts k).state) (same_place i j same) ∙ f

  compensate-Left :
      (enabled : Bool) (pending : Option ℕ) (wks : ℕ → Worker) (ts : ℕ → Task)
      → Left wks ts
      → Left wks (compensate enabled pending ts)
  compensate-Left enabled none wks ts h = h
  compensate-Left enabled (some i) wks ts h = λ j e. elim (Bool-cases (i == j)) [
    | inl same ↦
        rw same (ap is_finished (compensation-state enabled (ts i)) ∙ at_same i j ts (h j e) same)
    | inr other ↦ rw other (h j e)
  ]

  pub ready-unfinished : (s : TaskState) → is_ready s ≡ true → is_finished s ≡ false
  ready-unfinished ready r = refl
  ready-unfinished running r = refl
  ready-unfinished finished r = absurd (cc)

  pub shut_down-finished :
      (t : Task) → is_finished t.state ≡ true → is_finished (shut_down t).state ≡ true
  shut_down-finished t f = ground arith

  Step-Left :
      {w w' : World} → Step quantum units w w' → Left w.workers w.tasks → Left w'.workers w'.tasks
  Step-Left {w} (worker j {wk} {t} m) h = λ k e. elim (Bool-cases (j == k)) [
    | inl same ↦ rw same (Move-Left m (rw same at e))
    | inr other ↦ rw other (h k (rw other at e))
  ]
  Step-Left (pass s idle) h = h
  Step-Left {w} (settle enabled pending s) h = compensate-Left enabled pending w.workers w.tasks h
  Step-Left {w} (send g i s r) h = λ k e. elim (Bool-cases (i == k)) [
    | inl same ↦
        absurd (cc (ready-unfinished (w.tasks i).state r, at_same i k w.tasks (h k e) same))
    | inr other ↦ rw other (h k e)
  ]
  Step-Left (retry s) h = h
  Step-Left {w} (shutdown s) h = λ k e. shut_down-finished (w.tasks k) (h k e)
  Step-Left (leave s) h = h

  Reach-Left : {ts : ℕ → Task} {w : World} → Reach quantum units ts w → Left w.workers w.tasks
  Reach-Left at_start = λ j e. absurd (cc)
  Reach-Left (after r s) = Step-Left s (Reach-Left r)

  -- Whatever the interleaving, the worker of a RUNNING task has a move.
  pub reached-MovesOn :
      {ts : ℕ → Task} {w : World} (j : ℕ)
      → Reach quantum units ts w
      → is_running (w.tasks j).state ≡ true
      → MovesOn quantum (units j) (w.workers j) (w.tasks j)
  reached-MovesOn {ts} {w} j r run =
      any-MovesOn quantum (units j) (w.workers j) (w.tasks j) run
        (elim (Bool-cases (is_exited (w.workers j))) [
          | inr stays ↦ stays
          | inl gone ↦ absurd (cc (run, finished-idle (w.tasks j).state (Reach-Left r j gone)))
        ])
