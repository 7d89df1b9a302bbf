-- ===== src/LinkedList/Remove.antt =====
-- `dll_remove_node` of src/double_linked_list.c, against the list without the first node that has
-- the id.
use soa_p1_grupo_cu.Base.{
  ℕ, ◌≡◌, ◌≢◌, ◌<◌, refl, sym, ap, Bool, Option, none, some, true, false, List, [], ◌∷◌, ◌++◌, All,
  length, arith, ◌==◌,
}
use soa_p1_grupo_cu.LinkedList.{DList, unlink, remove_from, dll_remove_node}
use soa_p1_grupo_cu.LinkedList.Segments.{Item, IsList}
use soa_p1_grupo_cu.LinkedList.Operations.{addresses}
use soa_p1_grupo_cu.LinkedList.Unlink.{
  last_of, first_of, Off, unlink-Unlinks, Apart-dropped, Segment-first, relinked, All-front,
  All-back,
}
use soa_p1_grupo_cu.LinkedList.Walk.{
  without, matched, has, Others, cut, Split, absent, here, split, walk_past, walk_to,
  without-absent, matched-absent, has-absent, without-here, matched-here, has-here,
}

-- What `dll_remove_node` does to a list, with the addresses `freed` and the result `found`.
pub record Removed (id : ℕ) (l l' : DList) (items : List Item) (freed : List ℕ) (found : Bool)
    : Type 0 where
  pub is_list : IsList l' (without id items)
  pub freed_addresses : freed ≡ addresses (matched id items)
  pub told : found ≡ has id items
  pub gone : All (λ (j : Item). l'.heap j.at ≡ none) (matched id items)
  pub kept : (b : ℕ) → All (λ (j : Item). j.at ≢ b) items → l'.heap b ≡ l.heap b

Off-none : (items : List Item) → Off none items
Off-none [] = tt
Off-none (j ∷ items) = (λ e. absurd (cc), Off-none items)

last_of-other :
    (b : ℕ) (before : Option ℕ) (front : List Item)
    → some b ≢ before
    → All (λ (j : Item). j.at ≢ b) front
    → some b ≢ last_of before front
last_of-other b before [] off out = off
last_of-other b before (j ∷ front) off out = last_of-other b (some j.at) front (λ e. out.0 cc) out.1

first_of-other :
    (b : ℕ) (items : List Item) → All (λ (j : Item). j.at ≢ b) items → some b ≢ first_of items
first_of-other b [] out = λ e. absurd (cc)
first_of-other b (j ∷ items) out = λ e. out.0 cc

last_of-some : (a : ℕ) (front : List Item) → (b : ℕ) × (last_of (some a) front ≡ some b)
last_of-some a [] = (a, refl)
last_of-some a (j ∷ front) = last_of-some j.at front

head-relinked :
    (l : DList) (front : List Item) (i : Item) (rest : List Item)
    → l.head ≡ first_of (front ++ i ∷ rest)
    → (cut i (last_of none front) (first_of rest) l).head ≡ first_of (front ++ rest)
unfolding unlink
head-relinked l [] i rest e = refl
head-relinked l (j ∷ front) i rest e = rw ((last_of-some j.at front).1, unlink) e

Removed-here :
    (id : ℕ) (l : DList) (front : List Item) (i : Item) (rest : List Item)
    → IsList l (front ++ i ∷ rest)
    → Others id front
    → (i.id == id) ≡ true
    → Removed id l
        (cut i (last_of none front) (first_of rest) l)
        (front ++ i ∷ rest)
        (addresses (i ∷ []))
        true
Removed-here id l front i rest is out same =
    let u = unlink-Unlinks l i (last_of none front) (first_of rest) in
    let items = front ++ i ∷ rest in
    record {
      is_list = rw (without-here id i rest same front out) (record {
        linked =
            rw (head-relinked l front i rest (Segment-first items is.linked))
              (relinked none front i rest is.linked is.apart (Off-none items) u);
        apart = Apart-dropped front i rest is.apart;
      });
      freed_addresses = ap addresses (sym (matched-here id i rest same front out));
      told = sym (has-here id i rest same front out);
      gone = rw (matched-here id i rest same front out) (u.gone, tt);
      kept = λ b apart.
          let behind = All-back (λ (x : Item). x.at ≢ b) front (i ∷ rest) apart in
          u.elsewhere b (λ x. behind.0 (sym x))
            (last_of-other b none front (λ e. absurd (cc))
              (All-front (λ (x : Item). x.at ≢ b) front (i ∷ rest) apart))
            (first_of-other b rest behind.1);
    }

Removed-absent :
    (id : ℕ) (l : DList) (items : List Item)
    → IsList l items
    → Others id items
    → Removed id l l items [] false
Removed-absent id l items is out = record {
  is_list = rw (without-absent id items out) is;
  freed_addresses = ap addresses (sym (matched-absent id items out));
  told = sym (has-absent id items out);
  gone = rw (matched-absent id items out) tt;
  kept = λ b apart. refl;
}

length-front :
    (front : List Item) (i : Item) (rest : List Item) → length front < length (front ++ i ∷ rest)
length-front [] i rest = omega arith
length-front (j ∷ front) i rest = omega (arith, length-front front i rest)

-- `dll_remove_node` with fuel for the length of the list takes the first node with the id out of
-- the list and returns `true`; with no such node it returns `false` and leaves the list as it is.
-- The nodes left stay linked both ways and in order, exactly the task and the node that it took
-- out are freed, in this order, and no other address of the heap changes.
pub remove-Removed :
    (fuel id : ℕ) (l : DList) (items : List Item)
    → IsList l items
    → length items < fuel
    → (l' : DList) × (freed : List ℕ) × (found : Bool) × (dll_remove_node fuel id l
        ≡ some ((l', freed), found))
      × Removed id l l' items freed found
unfolding dll_remove_node
remove-Removed fuel id l items is enough = go items (split id items) is enough
  where
    go :
        (items : List Item)
        → Split id items
        → IsList l items
        → length items < fuel
        → (l' : DList) × (freed : List ℕ) × (found : Bool) × (remove_from fuel l.head id l
            ≡ some ((l', freed), found))
          × Removed id l l' items freed found
    go items (absent out) is enough = (
      l,
      [],
      false,
      walk_past fuel id l items is.linked out enough,
      Removed-absent id l items is out,
    )
    go _ (here front i rest out same) is enough = (
      cut i (last_of none front) (first_of rest) l,
      addresses (i ∷ []),
      true,
      walk_to fuel id l none front i rest is.linked out same
          (omega (arith, length-front front i rest)),
      Removed-here id l front i rest is out same,
    )
