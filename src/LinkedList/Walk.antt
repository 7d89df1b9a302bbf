-- ===== src/LinkedList/Walk.antt =====
-- The walk of `dll_remove_node` of src/double_linked_list.c to the first node that has the id.
use soa_p1_grupo_cu.Base.{
  ℕ, zero, suc, ◌≡◌, ◌<◌, refl, ap, Bool, Option, none, some, true, false, List, [], ◌∷◌, ◌++◌, All,
  length, arith, ◌==◌, if◌then◌else◌, Bool-cases, inl, inr,
}
use soa_p1_grupo_cu.LinkedList.{DList, put, unlink, remove_from}
use soa_p1_grupo_cu.LinkedList.Segments.{Item, cell_of, Segment, nil, link}
use soa_p1_grupo_cu.LinkedList.Operations.{addresses}
use soa_p1_grupo_cu.LinkedList.Unlink.{last_of, first_of, Segment-first}

-- The list without its first item that has the id, and that item.
abbrev pub without : ℕ → List Item → List Item
without id [] = []
without id (i ∷ rest) = if i.id == id then rest else i ∷ without id rest

abbrev pub matched : ℕ → List Item → List Item
matched id [] = []
matched id (i ∷ rest) = if i.id == id then i ∷ [] else matched id rest

abbrev pub has : ℕ → List Item → Bool
has id [] = false
has id (i ∷ rest) = if i.id == id then true else has id rest

abbrev pub Others : ℕ → List Item → Type 0
Others id = All (λ (j : Item). (j.id == id) ≡ false)

-- Where the walk stops.
pub data Split (id : ℕ) : List Item → Type 0 where
  absent : {items : List Item} → Others id items → Split id items
  here :
      (front : List Item) (i : Item) (rest : List Item)
      → Others id front
      → (i.id == id) ≡ true
      → Split id (front ++ i ∷ rest)

further :
    (id : ℕ) (i : Item) (items : List Item)
    → (i.id == id) ≡ false
    → Split id items
    → Split id (i ∷ items)
further id i _ other (absent out) = absent (other, out)
further id i _ other (here front j rest out same) = here (i ∷ front) j rest (other, out) same

pub split : (id : ℕ) (items : List Item) → Split id items
split id [] = absent tt
split id (i ∷ items) = elim (Bool-cases (i.id == id)) [
  | inl same ↦ here [] i items tt same
  | inr other ↦ further id i items other (split id items)
]

pub walk_past :
    (fuel id : ℕ) (l : DList) {before p : Option ℕ} (items : List Item)
    → Segment l.heap before p items
    → Others id items
    → length items < fuel
    → remove_from fuel p id l ≡ some ((l, []), false)
unfolding remove_from
walk_past zero id l items s out enough = absurd (omega arith)
walk_past (suc fuel) id l [] nil out enough = refl
walk_past (suc fuel) id l (_ ∷ items) (link i e s) out enough =
    rw (e, remove_from, out.0) (walk_past fuel id l items s out.1 (omega arith))

-- The list once the node `i` is unlinked and freed.
abbrev pub cut : Item → Option ℕ → Option ℕ → DList → DList
cut i before next l =
    let u = unlink i.at (cell_of i before next) l in record u { heap = put i.at none u.heap }

pub walk_to :
    (fuel id : ℕ) (l : DList) (before : Option ℕ) {p : Option ℕ} (front : List Item) (i : Item)
    (rest : List Item)
    → Segment l.heap before p (front ++ i ∷ rest)
    → Others id front
    → (i.id == id) ≡ true
    → length front < fuel
    → remove_from fuel p id l
      ≡ some ((cut i (last_of before front) (first_of rest) l, addresses (i ∷ [])), true)
unfolding remove_from
walk_to zero id l before front i rest s out same enough = absurd (omega arith)
walk_to (suc fuel) id l before [] _ rest (link i e s) out same enough =
    rw (e, remove_from, same)
      (ap (λ x. some ((cut i before x l, addresses (i ∷ [])), true)) (Segment-first rest s))
walk_to (suc fuel) id l before (_ ∷ front) i rest (link j e s) out same enough =
    rw (e, remove_from, out.0)
      (walk_to fuel id l (some j.at) front i rest s out.1 same (omega arith))

module _ (id : ℕ) where
  pub without-absent : (items : List Item) → Others id items → without id items ≡ items
  without-absent [] out = refl
  without-absent (i ∷ items) out = rw (out.0) (ap (λ x. i ∷ x) (without-absent items out.1))

  pub matched-absent : (items : List Item) → Others id items → matched id items ≡ []
  matched-absent [] out = refl
  matched-absent (i ∷ items) out = rw (out.0) (matched-absent items out.1)

  pub has-absent : (items : List Item) → Others id items → has id items ≡ false
  has-absent [] out = refl
  has-absent (i ∷ items) out = rw (out.0) (has-absent items out.1)

  module _ (i : Item) (rest : List Item) (same : (i.id == id) ≡ true) where
    pub without-here :
        (front : List Item) → Others id front → without id (front ++ i ∷ rest) ≡ front ++ rest
    without-here [] out = rw same refl
    without-here (j ∷ front) out = rw (out.0) (ap (λ x. j ∷ x) (without-here front out.1))

    pub matched-here :
        (front : List Item) → Others id front → matched id (front ++ i ∷ rest) ≡ i ∷ []
    matched-here [] out = rw same refl
    matched-here (j ∷ front) out = rw (out.0) (matched-here front out.1)

    pub has-here : (front : List Item) → Others id front → has id (front ++ i ∷ rest) ≡ true
    has-here [] out = rw same refl
    has-here (j ∷ front) out = rw (out.0) (has-here front out.1)
