-- ===== src/LinkedList/Operations.antt =====
-- The operations on lists on the heap, against the lists of what they hold.
use mathlib.Core.Option.{map}
use mathlib.Core.List.{append-nil, append_assoc}
use soa_p1_grupo_cu.Base.{
  ℕ, zero, suc, ◌≡◌, ◌≢◌, ◌<◌, refl, sym, ap, ◌∙◌, Option, none, some, true, List, [], ◌∷◌, ◌++◌,
  All, length, arith, ◌==◌, if◌then◌else◌, Bool-cases, inl, inr,
}
use soa_p1_grupo_cu.LinkedList.{
  Cell, Heap, DList, put, modify_at, dll_insert_node, dll_find_node, dll_clean_list,
}
use soa_p1_grupo_cu.LinkedList.Segments.{
  Item, cell_of, Segment, nil, link, Apart, IsList, last_at, last_from-last_at, free-apart, Extends,
  Extends-Segment, Apart-snoc, put-same, put-other, Segment-freed,
}

-- What `dll_insert_node` stores behind the node at `z`.
abbrev pub set_next : Option ℕ → Cell → Cell
set_next next c = record c { next = next }

abbrev pub extended : Heap → ℕ → Item → Heap
extended h z n =
    put n.at (some (cell_of n (some z) none)) (modify_at (some z) (set_next (some n.at)) h)

insert-Extends :
    (h : Heap) (z : ℕ) (cz : Cell) (n : Item)
    → h z ≡ some cz
    → z ≢ n.at
    → Extends h (extended h z n) z n
insert-Extends h z cz n e apart =
    let linked : Heap = put z (some (set_next (some n.at) cz)) h in
    let cell : Option Cell = some (cell_of n (some z) none) in
    rw (e, modify_at)
      (record {
        new = put-same n.at n.at cell linked refl;
        at_end = λ i prev next same found.
            put-other n.at i.at cell linked (λ x. apart (sym same ∙ x))
            ∙ put-same z i.at (some (set_next (some n.at) cz)) h same
            ∙ ap (map (set_next (some n.at))) (sym e ∙ ap h (sym same) ∙ found);
        elsewhere = λ b other_new other.
            put-other n.at b cell linked other_new
            ∙ put-other z b (some (set_next (some n.at) cz)) h other;
      })

last_at-cell :
    {h : Heap} {prev p : Option ℕ} (i : Item) (rest : List Item)
    → Segment h prev p (i ∷ rest)
    → (c : Cell) × (h (last_at i rest) ≡ some c)
last_at-cell _ [] (link i e s) = (_, e)
last_at-cell _ (j ∷ rest) (link i e s) = last_at-cell j rest s

last_at-free :
    (a : ℕ) (i : Item) (rest : List Item)
    → All (λ (j : Item). j.at ≢ a) (i ∷ rest)
    → last_at i rest ≢ a
last_at-free a i [] free = free.0
last_at-free a i (j ∷ rest) free = last_at-free a j rest free.1

-- A list with an item more at its end.
abbrev pub snoc : List Item → Item → List Item
snoc items n = items ++ n ∷ []

-- No other address gets a node.
abbrev pub NoOther : ℕ → Heap → Heap → Type 0
NoOther a h h' = (b : ℕ) → b ≢ a → h b ≡ none → h' b ≡ none

insert_into :
    (fuel : ℕ) (h : Heap) {head : Option ℕ} (items : List Item) (n : Item)
    → Segment h none head items
    → Apart items
    → All (λ (j : Item). j.at ≢ n.at) items
    → length items < fuel
    → (l' : DList) × (dll_insert_node fuel
          (some n.at)
          (cell_of n none none)
          (record { head = head; heap = h })
        ≡ some (l', true))
      × IsList l' (snoc items n)
      × NoOther n.at h l'.heap
unfolding dll_insert_node
insert_into fuel h [] n nil apart free enough = (
  _,
  refl,
  record {
    linked = link n (put-same n.at n.at (some (cell_of n none none)) h refl) nil;
    apart = (tt, tt);
  },
  λ b other out. put-other n.at b (some (cell_of n none none)) h other ∙ out,
)
insert_into fuel h (_ ∷ rest) n (link i e s) apart free enough =
    let z = last_at i rest in
    let (cz, found) = last_at-cell i rest (link i e s) in
    let x = insert-Extends h z cz n found (last_at-free n.at i rest free) in
    (
      record { head = some i.at; heap = extended h z n },
      rw (last_from-last_at fuel i rest (link i e s) (omega arith), dll_insert_node) refl,
      record {
        linked = Extends-Segment n i rest (link i e s) apart free x;
        apart = Apart-snoc n (i ∷ rest) apart free;
      },
      λ b other out. x.elsewhere b other (λ same. absurd (cc (sym (ap h same) ∙ out, found))) ∙ out,
    )

-- The same, and no other address gets a node.
pub insert-Grown :
    (fuel : ℕ) (l : DList) (items : List Item) (n : Item)
    → IsList l items
    → l.heap n.at ≡ none
    → length items < fuel
    → (l' : DList) × (dll_insert_node fuel (some n.at) (cell_of n none none) l ≡ some (l', true))
      × IsList l' (snoc items n)
      × NoOther n.at l.heap l'.heap
insert-Grown fuel l items n is free enough =
    insert_into fuel l.heap items n is.linked is.apart (free-apart n.at is.linked free) enough

-- `dll_insert_node` with memory for a node at an address that is not taken puts a node with the
-- given numbers and data behind the nodes of a list, and returns `true`, if the fuel is more than
-- the length of the list; the list stays linked both ways, with its other nodes as they were.
pub insert-IsList :
    (fuel : ℕ) (l : DList) (items : List Item) (n : Item)
    → IsList l items
    → l.heap n.at ≡ none
    → length items < fuel
    → (l' : DList) × (dll_insert_node fuel (some n.at) (cell_of n none none) l ≡ some (l', true))
      × IsList l' (snoc items n)
insert-IsList fuel l items n is free enough =
    let (l', run, list, alone) = insert-Grown fuel l items n is free enough in (l', run, list)

-- The address of the first item with the id.
abbrev pub find_item : ℕ → List Item → Option ℕ
find_item id [] = none
find_item id (i ∷ rest) = if i.id == id then some i.at else find_item id rest

find_in :
    (fuel id : ℕ) {h : Heap} {prev p : Option ℕ} (items : List Item)
    → Segment h prev p items
    → length items < fuel
    → dll_find_node fuel p id h ≡ some (find_item id items)
unfolding dll_find_node
find_in zero id items s enough = absurd (omega arith)
find_in (suc fuel) id [] nil enough = refl
find_in (suc fuel) id (_ ∷ rest) (link i e s) enough =
    rw (e, dll_find_node, find_in fuel id rest s (omega arith))
      (elim (Bool-cases (i.id == id)) [ inl same ↦ rw same refl | inr other ↦ rw other refl ])

-- `dll_find_node` finds in a list the first node with the id, and NULL if there is none, if the
-- fuel is more than the length of the list.
pub find-item :
    (fuel id : ℕ) (l : DList) (items : List Item)
    → IsList l items
    → length items < fuel
    → dll_find_node fuel l.head id l.heap ≡ some (find_item id items)
find-item fuel id l items is enough = find_in fuel id items is.linked enough

-- The addresses that the items take, the task of each before its node.
abbrev pub addresses : List Item → List ℕ
addresses [] = []
addresses (i ∷ rest) = i.data_at ∷ i.at ∷ addresses rest

-- What `dll_clean_list` leaves of a heap with a list.
pub record Cleaned (h h' : Heap) (items : List Item) : Type 0 where
  pub gone : All (λ (j : Item). h' j.at ≡ none) items
  pub kept : (b : ℕ) → All (λ (j : Item). j.at ≢ b) items → h' b ≡ h b

flipped :
    (a : ℕ) (items : List Item)
    → All (λ (j : Item). a ≢ j.at) items
    → All (λ (j : Item). j.at ≢ a) items
flipped a [] h = tt
flipped a (i ∷ rest) h = (λ x. h.0 (sym x), flipped a rest h.1)

clean_from :
    (fuel : ℕ) (h : Heap) {prev p : Option ℕ} (items : List Item) (freed : List ℕ)
    → Segment h prev p items
    → Apart items
    → length items < fuel
    → (h' : Heap) × (dll_clean_list fuel p h freed
        ≡ some (record { head = none; heap = h' }, freed ++ addresses items))
      × Cleaned h h' items
unfolding dll_clean_list
clean_from zero h items freed s apart enough = absurd (omega arith)
clean_from (suc fuel) h [] freed nil apart enough = (
  h,
  ap (λ f. some (record { head = none; heap = h }, f)) (sym (append-nil freed)),
  record { gone = tt; kept = λ b out. refl },
)
clean_from (suc fuel) h (_ ∷ rest) freed (link i e s) apart enough =
    let (h', run, cleaned) =
      clean_from fuel (put i.at none h) rest (freed ++ i.data_at ∷ i.at ∷ [])
        (Segment-freed i.at rest s apart.0) apart.1 (omega arith) in
    (
      h',
      rw (e, dll_clean_list)
          (run
            ∙ ap (λ f. some (record { head = none; heap = h' }, f))
                (append_assoc freed (i.data_at ∷ i.at ∷ []) (addresses rest))),
      record {
        gone = (
          cleaned.kept i.at (flipped i.at rest apart.0) ∙ put-same i.at i.at none h refl,
          cleaned.gone,
        );
        kept = λ b out. cleaned.kept b out.1 ∙ put-other i.at b none h (λ x. out.0 (sym x));
      },
    )

-- `dll_clean_list` frees the task and the node of each item of a list once, in order, and nothing
-- else, and leaves a NULL head, if the fuel is more than the length of the list.
pub clean-Cleaned :
    (fuel : ℕ) (l : DList) (items : List Item)
    → IsList l items
    → length items < fuel
    → (h' : Heap) × (dll_clean_list fuel l.head l.heap []
        ≡ some (record { head = none; heap = h' }, addresses items))
      × Cleaned l.heap h' items
clean-Cleaned fuel l items is enough = clean_from fuel l.heap items [] is.linked is.apart enough
