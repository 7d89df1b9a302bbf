-- ===== src/Threads/Exclusion.antt =====
-- src/task.c and src/scheduler.c: what holds at each phase of the scheduler thread, over all
-- interleavings.
use mathlib.Core.Path.{subst}
use soa_p1_grupo_cu.Base.{
  ℕ, ◌≡◌, refl, sym, ap, ◌∙◌, Bool, true, false, Option, none, some, List, if◌then◌else◌, ◌==◌,
  arith, Bool-cases, inl, inr, get_elem?,
}
use soa_p1_grupo_cu.Base.Float.{Floats}
use soa_p1_grupo_cu.Task.{is_running, Task, Node, shut_down, task_apply_compensation}
use soa_p1_grupo_cu.Scheduler.{wait_until_no_running}
use soa_p1_grupo_cu.Threads.{
  Worker, Move, Phase, waiting, resumed, deciding, ended, World, changed, compensate, Step, worker,
  pass, settle, send, retry, shutdown, leave, Reach, at_start, after,
}
use soa_p1_grupo_cu.Threads.Places.{wait-at}
use soa_p1_grupo_cu.Threads.Wait.{
  is_computing, waited, During, untouched, Move-During, During-waited, During-idle, During-running,
  During-computing, Resting, Move-Resting, Resting-kept,
}

-- Two updates at one place keep what holds at every place.
changed-both :
    {A B : Type 0} (P : ℕ → A → B → Type 0) (j : ℕ) {a : A} {b : B} {f : ℕ → A} {g : ℕ → B}
    → P j a b
    → ((i : ℕ) → P i (f i) (g i))
    → (i : ℕ) → P i (changed f j a i) (changed g j b i)
changed-both P j {a} {b} first rest i = elim (Bool-cases (j == i)) [
  | inl same ↦ rw same (subst (λ k. P k a b) (ground arith) first)
  | inr other ↦ rw other (rest i)
]

module _ ⦃fl : Floats⦄ (quantum : ℕ) (units : ℕ → ℕ) where
  -- At most one task is RUNNING.
  abbrev pub Solo : (ℕ → Task) → Type 0
  Solo ts = (i j : ℕ) → is_running (ts i).state ≡ true → is_running (ts j).state ≡ true → i ≡ j

  abbrev pub AllRest : (ℕ → Worker) → (ℕ → Task) → Type 0
  AllRest wks ts = (j : ℕ) → Resting quantum (wks j) (ts j)

  -- What holds of the workers and the tasks at each phase of the scheduler.
  abbrev At : Phase → (ℕ → Worker) → (ℕ → Task) → Type 0
  At (waiting since) wks ts =
      Solo since × ((j : ℕ) → During quantum (units j) (since j) (wks j) (ts j))
  At (resumed since) wks ts = AllRest wks ts × ((j : ℕ) → ts j ≡ waited quantum (units j) (since j))
  At deciding wks ts = AllRest wks ts
  At ended wks ts = AllRest wks ts

  At-begin :
      (ts : ℕ → Task)
      → ((j : ℕ) → is_running (ts j).state ≡ false)
      → At (waiting ts) (λ j. Worker.at_head) ts
  At-begin ts idle = (λ i j p q. absurd (cc (p, idle i)), λ j. untouched refl refl)

  rest-kept :
      (w : World) (j : ℕ) {wk : Worker} {t : Task}
      → Move quantum (units j) (w.workers j) (w.tasks j) wk t
      → AllRest w.workers w.tasks
      → AllRest (changed w.workers j wk) (changed w.tasks j t)
  rest-kept w j m rest =
      changed-both (λ i a b. Resting quantum a b) j (Resting-kept quantum m (rest j)) rest

  worker-At :
      (ph : Phase) (w : World) (j : ℕ) {wk : Worker} {t : Task}
      → Move quantum (units j) (w.workers j) (w.tasks j) wk t
      → At ph w.workers w.tasks
      → At ph (changed w.workers j wk) (changed w.tasks j t)
  worker-At (waiting s) w j m (solo, d) = (
    solo,
    changed-both (λ i a b. During quantum (units i) (s i) a b) j (Move-During quantum m (d j)) d,
  )
  worker-At (resumed s) w j {wk} {t} m (rest, eq) = (
    rest-kept w j m rest,
    changed-both {A = Worker} {B = Task} (λ i a b. b ≡ waited quantum (units i) (s i)) j {a = wk}
        {b = t} {f = λ k. w.workers k} {g = λ k. w.tasks k}
        ((Move-Resting quantum m (rest j)).0 ∙ eq j) eq,
  )
  worker-At deciding w j m rest = rest-kept w j m rest
  worker-At ended w j m rest = rest-kept w j m rest

  -- The only task that may be RUNNING is the one that was sent.
  sent-only :
      (w : World) (i j : ℕ) (t : Task)
      → AllRest w.workers w.tasks
      → is_running (changed w.tasks i t j).state ≡ true
      → i ≡ j
  sent-only w i j t rest r = elim (Bool-cases (i == j)) [
    | inl same ↦ ground arith
    | inr other ↦ absurd (
        cc (
          sym (ap (λ b. is_running (if b then t else w.tasks j).state) other) ∙ r,
          (rest j).not_running,
        ))
  ]

  apply_compensation-state :
      (t : Task) (enabled : Bool)
      → is_running (task_apply_compensation t enabled).state ≡ is_running t.state
  unfolding task_apply_compensation
  apply_compensation-state t enabled = ground arith

  compensate-idle :
      (enabled : Bool) (p : Option ℕ) (ts : ℕ → Task) (j : ℕ)
      → is_running (compensate enabled p ts j).state ≡ is_running (ts j).state
  compensate-idle enabled none ts j = refl
  compensate-idle enabled (some i) ts j = elim (Bool-cases (i == j)) [
    | inl same ↦
        rw same (
          apply_compensation-state (ts i) enabled
          ∙ ap (λ k. is_running (ts k).state) (ground arith))
    | inr other ↦ rw other refl
  ]

  shut_down-idle : (t : Task) → is_running t.state ≡ false → is_running (shut_down t).state ≡ false
  shut_down-idle t idle = ground (arith, idle)

  Step-At :
      {w w' : World}
      → Step quantum units w w'
      → At w.scheduler w.workers w.tasks
      → At w'.scheduler w'.workers w'.tasks
  Step-At {w} (worker j m) a = worker-At w.scheduler w j m a
  Step-At {w} (pass e idle) a =
      let (solo, d) = subst (λ ph. At ph w.workers w.tasks) e a in
      (
        λ j. record { not_computing = During-idle quantum (d j) (idle j); not_running = idle j },
        λ j. During-waited quantum (d j) (idle j),
      )
  Step-At {w} (settle enabled p e) a =
      let (rest, eq) = subst (λ ph. At ph w.workers w.tasks) e a in
      λ j. record {
        not_computing = (rest j).not_computing;
        not_running = compensate-idle enabled p w.tasks j ∙ (rest j).not_running;
      }
  Step-At {w} (send g i e r) a =
      let rest = subst (λ ph. At ph w.workers w.tasks) e a in
      (
        λ j k p q. sym (sent-only w i j _ rest p) ∙ sent-only w i k _ rest q,
        λ j. untouched refl (rest j).not_computing,
      )
  Step-At {w} (retry e) a =
      let rest = subst (λ ph. At ph w.workers w.tasks) e a in
      (λ j k p q. absurd (cc (p, (rest j).not_running)), λ j. untouched refl (rest j).not_computing)
  Step-At {w} (shutdown e) a =
      let rest = subst (λ ph. At ph w.workers w.tasks) e a in
      λ j. record {
        not_computing = (rest j).not_computing;
        not_running = shut_down-idle _ (rest j).not_running;
      }
  Step-At {w} (leave e) a = subst (λ ph. At ph w.workers w.tasks) e a

  reach-At :
      {ts : ℕ → Task} {w : World}
      → ((j : ℕ) → is_running (ts j).state ≡ false)
      → Reach quantum units ts w
      → At w.scheduler w.workers w.tasks
  reach-At idle at_start = At-begin _ idle
  reach-At idle (after r s) = Step-At s (reach-At idle r)

  abbrev pub is_waiting : Phase → Bool
  is_waiting (waiting since) = true
  is_waiting _ = false

  past_wait :
      (w : World) (ph : Phase)
      → At ph w.workers w.tasks
      → is_waiting ph ≡ false
      → AllRest w.workers w.tasks
  past_wait w (waiting s) a p = absurd (ground arith)
  past_wait w (resumed s) a p = a.0
  past_wait w deciding a p = a
  past_wait w ended a p = a

  lone :
      (w : World) (ph : Phase) (i j : ℕ)
      → At ph w.workers w.tasks
      → is_computing (w.workers i) ≡ true
      → is_computing (w.workers j) ≡ true
      → (i ≡ j) × (is_running (w.tasks i).state ≡ true)
  lone w (waiting s) i j (solo, d) p q = (
    solo i j (During-running quantum (d i) (During-computing quantum (d i) p))
        (During-running quantum (d j) (During-computing quantum (d j) q)),
    During-computing quantum (d i) p,
  )
  lone w (resumed s) i j a p q = absurd (cc (p, (a.0 i).not_computing))
  lone w deciding i j a p q = absurd (cc (p, (a i).not_computing))
  lone w ended i j a p q = absurd (cc (p, (a i).not_computing))

  -- From tasks that are not RUNNING: whenever the scheduler thread is past its wait, no worker
  -- computes and no task is RUNNING, whatever the interleaving.
  pub exclusive_control :
      {ts : ℕ → Task} {w : World}
      → ((k : ℕ) → is_running (ts k).state ≡ false)
      → Reach quantum units ts w
      → is_waiting w.scheduler ≡ false
      → (j : ℕ) → Resting quantum (w.workers j) (w.tasks j)
  exclusive_control {ts} {w} idle r past j = past_wait w w.scheduler (reach-At idle r) past j

  -- From tasks that are not RUNNING: at any time at most one worker computes, and its task is
  -- RUNNING.
  pub one_computes :
      {ts : ℕ → Task} {w : World} (i j : ℕ)
      → ((k : ℕ) → is_running (ts k).state ≡ false)
      → Reach quantum units ts w
      → is_computing (w.workers i) ≡ true
      → is_computing (w.workers j) ≡ true
      → (i ≡ j) × (is_running (w.tasks i).state ≡ true)
  one_computes {ts} {w} i j idle r p q = lone w w.scheduler i j (reach-At idle r) p q

  -- From tasks that are not RUNNING: when the wait of the scheduler thread is over, the task in
  -- each node is what `wait_until_no_running` makes of it in a list of nodes that hold the tasks as
  -- they were when the wait began, with their numbers of work units.
  pub wait-refines :
      {ts : ℕ → Task} {w : World} {since : ℕ → Task} (ns : List Node) (i : ℕ) {n : Node}
      → ((k : ℕ) → is_running (ts k).state ≡ false)
      → Reach quantum units ts w
      → w.scheduler ≡ resumed since
      → get_elem? ns i ≡ some n
      → n.work_units ≡ units i
      → n.task ≡ since i
      → get_elem? (wait_until_no_running quantum ns) i ≡ some (record n { task = w.tasks i })
  wait-refines {ts} {w} {since} ns i {n} idle r e at eu et =
      let (rest, eq) = subst (λ ph. At ph w.workers w.tasks) e (reach-At idle r) in
      wait-at quantum ns i at ∙ ap (λ t. some (record n { task = t })) (rw (et, eu, eq i) refl)
