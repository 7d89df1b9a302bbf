-- ===== src/Scheduler/Nodes.antt =====
-- A dispatch seen from the next turn: the wait and the compensation touch the winner alone.
use mathlib.Core.Path.{subst}
use soa_p1_grupo_cu.Base.{
  ℕ, zero, suc, ◌≡◌, refl, ap, true, false, some, List, [], ◌∷◌, arith, All, modify, get_elem?,
}
use soa_p1_grupo_cu.Base.Float.{Floats}
use soa_p1_grupo_cu.Task.{running, is_ready, is_running, Node, task_transition_to_running}
use soa_p1_grupo_cu.Task.Work.{task_do_work_unit}
use soa_p1_grupo_cu.Scheduler.{on_task, wait_until_no_running}

module _ {ℓ} {A : Type ℓ} where
  pub modify-modify :
      (f g : A → A) (i : ℕ) (xs : List A) → modify f i (modify g i xs) ≡ modify (λ x. f (g x)) i xs
  modify-modify f g i [] = refl
  modify-modify f g zero (x ∷ xs) = refl
  modify-modify f g (suc i) (x ∷ xs) = ap (λ t. x ∷ t) (modify-modify f g i xs)

  pub get_elem?-modify :
      (f : A → A) (i : ℕ) (xs : List A) (x : A)
      → get_elem? xs i ≡ some x
      → get_elem? (modify f i xs) i ≡ some (f x)
  get_elem?-modify f i [] x e = absurd (cc)
  get_elem?-modify f zero (y ∷ xs) x e = ground arith
  get_elem?-modify f (suc i) (y ∷ xs) x e = get_elem?-modify f i xs x e

  pub All-modify {κ} :
      (P : A → Type κ) (f : A → A) (i : ℕ) (xs : List A) (x : A)
      → get_elem? xs i ≡ some x
      → P (f x)
      → All P xs
      → All P (modify f i xs)
  All-modify P f i [] x e p h = absurd (cc)
  All-modify P f zero (y ∷ xs) x e p h =
      let same : x ≡ y = ground arith in (subst (λ z. P (f z)) same p, h.1)
  All-modify P f (suc i) (y ∷ xs) x e p h = (h.0, All-modify P f i xs x e p h.1)

  pub All-get_elem? {κ} :
      (P : A → Type κ) (i : ℕ) (xs : List A) (x : A) → get_elem? xs i ≡ some x → All P xs → P x
  All-get_elem? P i [] x e h = absurd (cc)
  All-get_elem? P zero (y ∷ xs) x e h = let same : y ≡ x = ground arith in subst P same h.0
  All-get_elem? P (suc i) (y ∷ xs) x e h = All-get_elem? P i xs x e h.1

pub All-map {ℓ κ μ} :
    {A : Type ℓ} (P : A → Type κ) (Q : A → Type μ)
    → ((a : A) → P a → Q a)
    → (xs : List A) → All P xs
    → All Q xs
All-map P Q f [] h = tt
All-map P Q f (x ∷ xs) h = (f x h.0, All-map P Q f xs h.1)

module _ ⦃fl : Floats⦄ where
  -- No worker of the list runs.
  abbrev pub Idle : Node → Type 0
  Idle n = is_running n.task.state ≡ false

  pub wait-Idle : (q : ℕ) (ns : List Node) → All Idle ns → wait_until_no_running q ns ≡ ns
  unfolding wait_until_no_running
  wait-Idle q [] h = refl
  wait-Idle q (n ∷ ns) h = rw (h.0, wait-Idle q ns h.1)

  abbrev pub to_running : ℕ → Node → Node
  to_running g n = on_task (λ t. (task_transition_to_running t g).0) n

  running-on :
      (g : ℕ) (n : Node) → is_ready n.task.state ≡ true → (to_running g n).task.state ≡ running
  unfolding on_task task_transition_to_running
  running-on g n r = rw r

  -- The wait after a dispatch at place `i` is the round of that node's worker.
  pub wait-modify :
      (q g i : ℕ) (ns : List Node) (n : Node)
      → All Idle ns
      → get_elem? ns i ≡ some n
      → is_ready n.task.state ≡ true
      → wait_until_no_running q (modify (to_running g) i ns)
        ≡ modify (λ m. task_do_work_unit q (to_running g m)) i ns
  unfolding wait_until_no_running
  wait-modify q g i [] n idle e r = absurd (cc)
  wait-modify q g zero (m ∷ ns) n idle e r =
      let same : n ≡ m = ground arith in
      let on : (to_running g m).task.state ≡ running =
        subst (λ x. (to_running g x).task.state ≡ running) same (running-on g n r) in
      rw (on, wait-Idle q ns idle.1)
  wait-modify q g (suc i) (m ∷ ns) n idle e r =
      rw (idle.0) (ap (λ t. m ∷ t) (wait-modify q g i ns n idle.1 e r))
