-- ===== src/Scheduler/Ids.antt =====
-- src/scheduler.c: which task stands where in the list, and its id, as a dispatch changes one node.
use soa_p1_grupo_cu.Base.{
  ℕ, zero, suc, ◌≡◌, ◌≢◌, refl, sym, ap, ◌∙◌, some, List, [], ◌∷◌, All, get_elem?, modify, inl, inr,
  ◌⊎◌,
}
use native.Mathlib.Decide.{ℕ_discrete}
use soa_p1_grupo_cu.Base.Float.{Floats}
use soa_p1_grupo_cu.Task.{Node}
use soa_p1_grupo_cu.Scheduler.Nodes.{get_elem?-modify}

module _ {ℓ} {A : Type ℓ} where
  -- What stands at a place after a change at another, or at the same.
  pub get_elem?-modify_other :
      (f : A → A) (i j : ℕ) (xs : List A) → i ≢ j → get_elem? (modify f i xs) j ≡ get_elem? xs j
  get_elem?-modify_other f i j [] other = refl
  get_elem?-modify_other f zero zero (x ∷ xs) other = absurd (other refl)
  get_elem?-modify_other f zero (suc j) (x ∷ xs) other = refl
  get_elem?-modify_other f (suc i) zero (x ∷ xs) other = refl
  get_elem?-modify_other f (suc i) (suc j) (x ∷ xs) other =
      get_elem?-modify_other f i j xs (λ e. other (ap suc e))

  -- What holds at every place holds of all.
  pub All-of {κ} :
      (P : A → Type κ) (xs : List A) → ((i : ℕ) (x : A) → get_elem? xs i ≡ some x → P x) → All P xs
  All-of P [] h = tt
  All-of P (x ∷ xs) h = (h 0 x refl, All-of P xs (λ i. h (suc i)))

  -- What stands at `j` once `f` has been applied at `i`.
  pub modify-cases :
      (f : A → A) (i j : ℕ) (xs : List A) (x y : A)
      → get_elem? xs i ≡ some x
      → get_elem? (modify f i xs) j ≡ some y
      → ((i ≡ j) × (y ≡ f x)) ⊎ ((i ≢ j) × (get_elem? xs j ≡ some y))
  modify-cases f i j xs x y at found = elim (ℕ_discrete i j) [
    | yes same ↦ inl (
      same,
      cc (sym (get_elem?-modify f i xs x at) ∙ ap (get_elem? (modify f i xs)) same ∙ found),
    )
    | no other ↦ inr (other, sym (get_elem?-modify_other f i j xs other) ∙ found)
  ]

module _ ⦃fl : Floats⦄ where
  -- No two nodes have the same id.
  abbrev pub DistinctIds : List Node → Type 0
  DistinctIds ns =
      (i j : ℕ) (n m : Node)
      → get_elem? ns i ≡ some n
      → get_elem? ns j ≡ some m
      → n.id ≡ m.id
      → i ≡ j

  abbrev pub AllFresh : List Node → Type 0
  AllFresh ns = All (λ (n : Node). n.task.work_units_done ≡ 0) ns

  -- Each node of `ns'` comes from the one of `ns` at its place, whose id it keeps.
  abbrev pub SameIds : List Node → List Node → Type 0
  SameIds ns ns' =
      (j : ℕ) (m : Node)
      → get_elem? ns' j ≡ some m
      → (m' : Node) × (get_elem? ns j ≡ some m') × (m.id ≡ m'.id)

  pub SameIds-distinct : (ns ns' : List Node) → SameIds ns ns' → DistinctIds ns → DistinctIds ns'
  SameIds-distinct ns ns' from distinct i j n m at_i at_j same =
      let (n', a, e) = from i n at_i in
      let (m', b, e') = from j m at_j in distinct i j n' m' a b (sym e ∙ same ∙ e')
