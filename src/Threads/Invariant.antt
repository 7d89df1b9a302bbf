-- ===== src/Threads/Invariant.antt =====
-- src/scheduler.c and src/task.c: what holds of the machine at each point of the scheduler thread.
use soa_p1_grupo_cu.Base.{
  ℕ, zero, suc, ◌+◌, ◌≡◌, refl, sym, ap, ◌∙◌, none, some, Option, List, [], ◌∷◌, get_elem?, modify,
}
use soa_p1_grupo_cu.Base.Float.{Floats}
use soa_p1_grupo_cu.Task.{Node}
use soa_p1_grupo_cu.Scheduler.{
  Config, Sched, settle, main_loop, scheduler_main_loop, wait_until_no_running,
}
use soa_p1_grupo_cu.Threads.{Worker}
use soa_p1_grupo_cu.Threads.Wait.{During, Resting}
use soa_p1_grupo_cu.Threads.Machine.{Point, in_wait, after_wait, choosing, stopped}

module _ {A : Type 0} where
  pub get_elem?-ext : (xs ys : List A) → ((i : ℕ) → get_elem? xs i ≡ get_elem? ys i) → xs ≡ ys
  get_elem?-ext [] [] same = refl
  get_elem?-ext [] (y ∷ ys) same = absurd (cc (same zero))
  get_elem?-ext (x ∷ xs) [] same = absurd (cc (same zero))
  get_elem?-ext (x ∷ xs) (y ∷ ys) same =
      let first : x ≡ y = cc (same zero) in
      ap (λ z. z ∷ xs) first ∙ ap (λ zs. y ∷ zs) (get_elem?-ext xs ys (λ i. same (suc i)))

  pub modify-same :
      (f : A → A) (i : ℕ) (xs : List A) (x : A)
      → get_elem? xs i ≡ some x
      → f x ≡ x
      → modify f i xs ≡ xs
  modify-same f i [] x at same = refl
  modify-same f zero (y ∷ xs) x at same =
      let e : y ≡ x = cc in ap (λ z. z ∷ xs) (ap f e ∙ same ∙ sym e)
  modify-same f (suc i) (y ∷ xs) x at same = ap (λ zs. y ∷ zs) (modify-same f i xs x at same)

module _ ⦃fl : Floats⦄ (c : Config) where
  -- A node when the wait began, and now, with its worker.
  abbrev pub Pairing : Option Node → Option Node → Worker → Type 0
  Pairing none none wk = Unit
  Pairing none (some n') wk = ⊥
  Pairing (some n) none wk = ⊥
  Pairing (some n) (some n') wk =
      (n' ≡ record n { task = n'.task }) × During c.quantum n.work_units n.task wk n'.task

  abbrev pub RestAt : Option Node → Worker → Type 0
  RestAt none wk = Unit
  RestAt (some n) wk = Resting c.quantum wk n.task

  abbrev pub Rest : List Node → (ℕ → Worker) → Type 0
  Rest nodes wks = (i : ℕ) → RestAt (get_elem? nodes i) (wks i)

  abbrev pub when_awake : Sched → Sched
  when_awake lead = record lead { nodes = wait_until_no_running c.quantum lead.nodes }

  module _ (rng : ℕ) (ns : List Node) (k : ℕ) where
    -- After `k` turns the main loop is at `lead`.
    abbrev pub Leads : Sched → Type 0
    Leads lead = (fuel : ℕ) → scheduler_main_loop (k + fuel) c rng ns ≡ main_loop fuel c lead

    pub record Waiting (lead : Sched) (s : Sched) (wks : ℕ → Worker) : Type 0 where
      pub leads : Leads lead
      pub same : s ≡ record lead { nodes = s.nodes }
      pub pairs : (i : ℕ) → Pairing (get_elem? lead.nodes i) (get_elem? s.nodes i) (wks i)

    -- The scheduler's variables are as the sequential loop has them.
    pub record Holding (lead now : Sched) (s : Sched) (wks : ℕ → Worker) : Type 0 where
      pub leads : Leads lead
      pub same : s ≡ now
      pub rest : Rest s.nodes wks

    pub record Done (s : Sched) (wks : ℕ → Worker) : Type 0 where
      pub unfinished : scheduler_main_loop k c rng ns ≡ none
      pub result : scheduler_main_loop (k + 1) c rng ns ≡ some s
      pub rest : Rest s.nodes wks

    abbrev pub Valid : Point → Sched → (ℕ → Worker) → Type 0
    Valid in_wait s wks = (lead : Sched) × Waiting lead s wks
    Valid after_wait s wks = (lead : Sched) × Holding lead (when_awake lead) s wks
    Valid choosing s wks = (lead : Sched) × Holding lead (settle c (when_awake lead)) s wks
    Valid stopped s wks = Done s wks
