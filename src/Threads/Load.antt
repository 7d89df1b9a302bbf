-- ===== src/Threads/Load.antt =====
-- src/task.c: how much the workers can still do before they sleep or have left their loops.
use mathlib.Core.Path.{subst}
use soa_p1_grupo_cu.Base.{
  ℕ, zero, suc, ◌+◌, ◌≡◌, ◌≤◌, ◌<◌, arith, refl, sym, Bool, true, false, some, List, [], ◌∷◌,
  if◌then◌else◌, get_elem?, modify, Bool-cases, inl, inr, ◌==◌,
}
use soa_p1_grupo_cu.Base.Float.{Floats}
use soa_p1_grupo_cu.Task.{is_running, Task, Node}
use soa_p1_grupo_cu.Threads.{
  Worker, Move, sleep, begin_slice, begin_quantum, single, unit, give_up, used_up, all_done, quit,
  is_exited, changed,
}
use soa_p1_grupo_cu.Threads.Machine.{is_awake}
use soa_p1_grupo_cu.Threads.Wait.{is_computing}
use soa_p1_grupo_cu.Threads.Bound.{moves_left, Move-left, left_pos}

module _ ⦃fl : Floats⦄ (quantum : ℕ) where
  -- Only the worker of a RUNNING task computes.
  abbrev pub Computes : Worker → Task → Type 0
  Computes wk t = is_computing wk ≡ true → is_running t.state ≡ true

  -- The moves of a worker that are left in its dispatch, and the one out of its loop.
  abbrev pub worth : Worker → Node → ℕ
  worth wk n =
      (if is_running n.task.state then moves_left quantum n.work_units wk n.task else 0)
      + (if is_exited wk then 0 else 1)

  pub starts-inside :
      {W : ℕ} {wk : Worker} {t : Task} {wk' : Worker} {t' : Task}
      → Move quantum W wk t wk' t'
      → is_exited wk ≡ false
  starts-inside (sleep r) = refl
  starts-inside (begin_slice r p) = refl
  starts-inside (begin_quantum r p q) = refl
  starts-inside (single r p q) = refl
  starts-inside (unit l o) = refl
  starts-inside (give_up l o) = refl
  starts-inside used_up = refl
  starts-inside (all_done l) = refl
  starts-inside (quit f) = refl

  -- A worker whose task is not RUNNING can only sleep or leave.
  idle-leaves :
      {W : ℕ} {wk : Worker} {t : Task} {wk' : Worker} {t' : Task} (mv : Move quantum W wk t wk' t')
      → is_awake quantum mv ≡ true
      → Computes wk t
      → is_running t.state ≡ false
      → is_exited wk' ≡ true
  idle-leaves (sleep r) act comp idle = absurd (cc)
  idle-leaves (begin_slice r p) act comp idle = absurd (cc)
  idle-leaves (begin_quantum r p q) act comp idle = absurd (cc)
  idle-leaves (single r p q) act comp idle = absurd (cc)
  idle-leaves (unit l o) act comp idle = absurd (cc (comp refl, idle))
  idle-leaves (give_up l o) act comp idle = absurd (cc (comp refl, idle))
  idle-leaves used_up act comp idle = absurd (cc (comp refl, idle))
  idle-leaves (all_done l) act comp idle = absurd (cc (comp refl, idle))
  idle-leaves (quit f) act comp idle = refl

  if-bound : (b : Bool) → (if b then 0 else 1) ≤ 1
  if-bound b = ground arith

  pub Move-worth :
      (n : Node) {wk wk' : Worker} {t' : Task} (mv : Move quantum n.work_units wk n.task wk' t')
      → is_awake quantum mv ≡ true
      → Computes wk n.task
      → worth wk' (record n { task = t' }) < worth wk n
  Move-worth n {wk} {wk'} {t'} mv act comp = elim (Bool-cases (is_running t'.state)) [
    | inl runs ↦
        let (ran, less) = Move-left quantum n.work_units mv runs in
        rw (runs, ran, starts-inside mv) (omega (arith, less, if-bound (is_exited wk')))
    | inr stopped ↦ elim (Bool-cases (is_running n.task.state)) [
      | inl ran ↦
          let some_left = left_pos quantum n.work_units wk n.task (starts-inside mv) in
          rw (stopped, ran, starts-inside mv) (omega (arith, some_left, if-bound (is_exited wk')))
      | inr idle ↦ rw (stopped, idle, starts-inside mv, idle-leaves mv act comp idle) (omega arith)
    ]
  ]

module _ ⦃fl : Floats⦄ {A : Type 0} (share : A → Node → ℕ) where
  -- The shares of the nodes; what belongs to a node has its place, counted from `i`.
  abbrev pub load : ℕ → List Node → (ℕ → A) → ℕ
  load i [] wks = 0
  load i (n ∷ nodes) wks = share (wks i) n + load (suc i) nodes wks

  load-other :
      (i p : ℕ) (nodes : List Node) (wks : ℕ → A) (wk : A)
      → p < i
      → load i nodes (changed wks p wk) ≡ load i nodes wks
  load-other i p [] wks wk before = refl
  load-other i p (n ∷ nodes) wks wk before =
      let apart : (p == i) ≡ false = ground (arith, before) in
      rw (apart, load-other (suc i) p nodes wks wk (omega arith)) refl

  -- Where a worker's share falls, the load does.
  pub load-changed :
      (f : Node → Node) (i j : ℕ) (nodes : List Node) (wks : ℕ → A) (wk : A) {n : Node}
      → get_elem? nodes j ≡ some n
      → share wk (f n) < share (wks (i + j)) n
      → load i (modify f j nodes) (changed wks (i + j) wk) < load i nodes wks
  load-changed f i j [] wks wk at less = absurd (cc)
  load-changed f i zero (m ∷ nodes) wks wk {n} at less =
      let same : n ≡ m = ground arith in
      let here : (i + 0) ≡ i = omega arith in
      let less_here : share wk (f m) < share (wks i) m =
        subst (λ p. share wk (f m) < share (wks p) m) here
          (subst (λ x. share wk (f x) < share (wks (i + 0)) x) same less) in
      let self : ((i + 0) == i) ≡ true = ground arith in
      rw (self, load-other (suc i) (i + 0) nodes wks wk (omega arith)) (omega (arith, less_here))
  load-changed f i (suc j) (m ∷ nodes) wks wk {n} at less =
      let along : i + suc j ≡ suc i + j = omega arith in
      let apart : ((i + suc j) == i) ≡ false = ground arith in
      let rest =
        load-changed f (suc i) j nodes wks wk at
          (subst (λ p. share wk (f n) < share (wks p) n) along less) in
      let rest' =
        subst (λ p. load (suc i) (modify f j nodes) (changed wks p wk) < load (suc i) nodes wks)
          (sym along) rest in
      rw apart (omega (arith, rest'))
