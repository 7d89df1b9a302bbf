-- ===== src/Parser/Heap/Clean.antt =====
-- src/parser.c: freeing the tasks of a list leaves none of them.
use soa_p1_grupo_cu.Base.{
  ℕ, ◌≡◌, ◌≢◌, refl, ap, ◌∙◌, ◌⊎◌, none, List, [], ◌∷◌, All, ◌==◌, Bool-cases, inl, inr, arith,
}
use soa_p1_grupo_cu.Base.Float.{Floats}
use soa_p1_grupo_cu.LinkedList.{Heap}
use soa_p1_grupo_cu.LinkedList.Segments.{Item}
use soa_p1_grupo_cu.LinkedList.Operations.{addresses}
use soa_p1_grupo_cu.Parser.Heap.{Tasks, write, free_all}

module _ ⦃fl : Floats⦄ where
  write-none : (a b : ℕ) (ts : Tasks) → ts b ≡ none → write a none ts b ≡ none
  write-none a b ts out = elim (Bool-cases (a == b)) [
    | inl same ↦ rw same refl
    | inr other ↦ rw other out
  ]

  -- What is free stays so.
  free_all-none : (spots : List ℕ) (b : ℕ) (ts : Tasks) → ts b ≡ none → free_all spots ts b ≡ none
  free_all-none [] b ts out = out
  free_all-none (a ∷ spots) b ts out =
      free_all-none spots b (write a none ts) (write-none a b ts out)

  -- No task is left, if there was none but those of the items, and perhaps a spare one.
  pub free_all-addresses :
      (Spare : Type 0) (items : List Item) (b : ℕ) (ts : Tasks)
      → (All (λ (j : Item). j.data_at ≢ b) items → (ts b ≡ none) ⊎ Spare)
      → (free_all (addresses items) ts b ≡ none) ⊎ Spare
  free_all-addresses Spare [] b ts only = only tt
  free_all-addresses Spare (i ∷ rest) b ts only = elim (Bool-cases (i.data_at == b)) [
    | inl same ↦ inl (
        free_all-none (addresses rest) b (write i.at none (write i.data_at none ts))
          (write-none i.at b (write i.data_at none ts) (rw same refl)))
    | inr other ↦
        free_all-addresses Spare rest b (write i.at none (write i.data_at none ts)) (λ out.
          elim (only ((λ e. ground (arith, other, e)), out)) [
            | inl free ↦ inl (write-none i.at b (write i.data_at none ts) (rw other free))
            | inr kept ↦ inr kept
          ])
  ]

-- A heap in which the nodes of the items are free, and all else is, is free everywhere.
pub all_free :
    (items : List Item) (b : ℕ) (h : Heap)
    → All (λ (j : Item). h j.at ≡ none) items
    → (All (λ (j : Item). j.at ≢ b) items → h b ≡ none)
    → h b ≡ none
all_free [] b h gone only = only tt
all_free (i ∷ rest) b h gone only = elim (Bool-cases (i.at == b)) [
  | inl same ↦ let place : b ≡ i.at = ground arith in ap h place ∙ gone.0
  | inr other ↦ all_free rest b h gone.1 (λ out. only ((λ e. ground (arith, other, e)), out))
]
