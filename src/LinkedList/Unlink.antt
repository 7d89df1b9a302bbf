-- ===== src/LinkedList/Unlink.antt =====
-- `dll_remove_node` of src/double_linked_list.c: a node is unlinked from a list on the heap.
use soa_p1_grupo_cu.Base.{
  ℕ, ◌≡◌, ◌≢◌, refl, sym, ap, ◌∙◌, Option, none, some, List, [], ◌∷◌, ◌++◌, All,
}
use soa_p1_grupo_cu.LinkedList.{Cell, Heap, DList, put, modify_at, unlink}
use soa_p1_grupo_cu.LinkedList.Segments.{
  Item, cell_of, Segment, nil, link, Apart, put-same, put-other,
}

modify_at-here :
    (f : Cell → Cell) (h : Heap) (b : ℕ) (p : Option ℕ) (c : Cell)
    → some b ≡ p
    → h b ≡ some c
    → modify_at p f h b ≡ some (f c)
modify_at-here f h b none c e found = absurd (cc)
modify_at-here f h b (some a) c e found =
    let same : b ≡ a = cc in
    rw (sym (ap h same) ∙ found, modify_at) (put-same a b (some (f c)) h same)

modify_at-other :
    (f : Cell → Cell) (h : Heap) (b : ℕ) (p : Option ℕ) → some b ≢ p → modify_at p f h b ≡ h b
modify_at-other f h b none other = refl
modify_at-other f h b (some a) other = go (h a) (λ c. put-other a b c h (λ e. other (ap some e)))
  where
    go :
        (x : Option Cell)
        → ((c : Option Cell) → put a c h b ≡ h b)
        → (elim x as (λ _. Heap) [ none ↦ h | some c ↦ put a (some (f c)) h ]) b ≡ h b
    go none out = refl
    go (some c) out = out (some (f c))

-- `h'` is `h` without the node `i`, whose neighbours are linked past it.
pub record Unlinks (h h' : Heap) (i : Item) (before next : Option ℕ) : Type 0 where
  pub gone : h' i.at ≡ none
  at_before :
      (j : Item) (p n : Option ℕ)
      → some j.at ≡ before
      → j.at ≢ i.at
      → some j.at ≢ next
      → h j.at ≡ some (cell_of j p n)
      → h' j.at ≡ some (cell_of j p next)
  at_next :
      (j : Item) (p n : Option ℕ)
      → some j.at ≡ next
      → j.at ≢ i.at
      → some j.at ≢ before
      → h j.at ≡ some (cell_of j p n)
      → h' j.at ≡ some (cell_of j before n)
  pub elsewhere : (b : ℕ) → b ≢ i.at → some b ≢ before → some b ≢ next → h' b ≡ h b

pub unlink-Unlinks :
    (l : DList) (i : Item) (before next : Option ℕ)
    → Unlinks l.heap (put i.at none (unlink i.at (cell_of i before next) l).heap) i before next
unfolding unlink
unlink-Unlinks l i before next =
    let front = modify_at before (λ x. record x { next = next }) l.heap in
    let back = modify_at next (λ x. record x { prev = before }) front in
    record {
      gone = put-same i.at i.at none back refl;
      at_before = λ j p n here other past found.
          put-other i.at j.at none back other
          ∙ modify_at-other (λ x. record x { prev = before }) front j.at next past
          ∙ modify_at-here (λ x. record x { next = next }) l.heap j.at before (cell_of j p n) here
              found;
      at_next = λ j p n here other past found.
          put-other i.at j.at none back other
          ∙ modify_at-here (λ x. record x { prev = before }) front j.at next (cell_of j p n) here
              (modify_at-other (λ x. record x { next = next }) l.heap j.at before past ∙ found);
      elsewhere = λ b other not_before not_next.
          put-other i.at b none back other
          ∙ modify_at-other (λ x. record x { prev = before }) front b next not_next
          ∙ modify_at-other (λ x. record x { next = next }) l.heap b before not_before;
    }

-- The address of the node before a place, and of the one at it.
abbrev pub last_of : Option ℕ → List Item → Option ℕ
last_of before [] = before
last_of before (j ∷ rest) = last_of (some j.at) rest

abbrev pub first_of : List Item → Option ℕ
first_of [] = none
first_of (j ∷ rest) = some j.at

-- No item is at the address.
abbrev Clear : ℕ → List Item → Type 0
Clear a = All (λ (j : Item). a ≢ j.at)

abbrev pub Off : Option ℕ → List Item → Type 0
Off p = All (λ (j : Item). some j.at ≢ p)

last_of-off :
    (a : ℕ) (before : Option ℕ) (front : List Item)
    → some a ≢ before
    → Clear a front
    → some a ≢ last_of before front
last_of-off a before [] off clear = off
last_of-off a before (j ∷ front) off clear =
    last_of-off a (some j.at) front (λ e. clear.0 cc) clear.1

first_of-off : (a : ℕ) (items : List Item) → Clear a items → some a ≢ first_of items
first_of-off a [] clear = λ e. absurd (cc)
first_of-off a (j ∷ items) clear = λ e. clear.0 cc

Clear-Off : (a : ℕ) (items : List Item) → Clear a items → Off (some a) items
Clear-Off a [] clear = tt
Clear-Off a (j ∷ items) clear = (λ e. clear.0 cc, Clear-Off a items clear.1)

module _ (P : Item → Type 0) where
  pub All-front : (front back : List Item) → All P (front ++ back) → All P front
  All-front [] back h = tt
  All-front (j ∷ front) back h = (h.0, All-front front back h.1)

  pub All-back : (front back : List Item) → All P (front ++ back) → All P back
  All-back [] back h = h
  All-back (j ∷ front) back h = All-back front back h.1

  All-dropped :
      (front rest : List Item) (i : Item) → All P (front ++ i ∷ rest) → All P (front ++ rest)
  All-dropped [] rest i h = h.1
  All-dropped (j ∷ front) rest i h = (h.0, All-dropped front rest i h.1)

pub Apart-dropped :
    (front : List Item) (i : Item) (rest : List Item)
    → Apart (front ++ i ∷ rest)
    → Apart (front ++ rest)
Apart-dropped [] i rest apart = apart.1
Apart-dropped (j ∷ front) i rest apart = (
  All-dropped (λ (k : Item). j.at ≢ k.at) front rest i apart.0,
  Apart-dropped front i rest apart.1,
)

-- Nodes that the removal does not touch stay linked.
Segment-elsewhere :
    {h h' : Heap} {p q : Option ℕ} (i : Item) (before next : Option ℕ) (items : List Item)
    → Segment h p q items
    → Unlinks h h' i before next
    → Clear i.at items
    → Off before items
    → Off next items
    → Segment h' p q items
Segment-elsewhere i before next [] nil u clear off off' = nil
Segment-elsewhere i before next (_ ∷ items) (link j e s) u clear off off' =
    link j (u.elsewhere j.at (λ x. clear.0 (sym x)) off.0 off'.0 ∙ e)
      (Segment-elsewhere i before next items s u clear.1 off.1 off'.1)

-- The nodes behind the one that goes.
rest-relinked :
    {h h' : Heap} {q : Option ℕ} (i : Item) (before : Option ℕ) (rest : List Item)
    → Segment h (some i.at) q rest
    → Apart (i ∷ rest)
    → Off before (i ∷ rest)
    → Unlinks h h' i before (first_of rest)
    → Segment h' before (first_of rest) rest
rest-relinked i before [] nil apart off u = nil
rest-relinked i before (_ ∷ rest) (link j e s) apart off u =
    link j (u.at_next j _ _ refl (λ x. apart.0.0 (sym x)) off.1.0 e) (
      Segment-elsewhere i before (some j.at) rest s u apart.0.1 off.1.1
        (Clear-Off j.at rest apart.1.0))

pub Segment-first :
    {h : Heap} {p q : Option ℕ} (items : List Item) → Segment h p q items → q ≡ first_of items
Segment-first [] nil = refl
Segment-first (_ ∷ items) (link j e s) = refl

-- The cell of the node `j` before those of `front`.
cell-relinked :
    {p : Option ℕ} {h h' : Heap} {q : Option ℕ} (j : Item) (front : List Item) (i : Item)
    (rest : List Item)
    → h j.at ≡ some (cell_of j p q)
    → Segment h (some j.at) q (front ++ i ∷ rest)
    → Clear j.at (front ++ i ∷ rest)
    → Unlinks h h' i (last_of (some j.at) front) (first_of rest)
    → h' j.at ≡ some (cell_of j p (first_of (front ++ rest)))
cell-relinked j [] i rest e s clear u =
    u.at_before j _ _ refl clear.0 (first_of-off j.at rest clear.1) e
cell-relinked {p} j (k ∷ front) i rest e s clear u =
    let behind = All-back (λ (x : Item). j.at ≢ x.at) front (i ∷ rest) clear.1 in
    u.elsewhere j.at behind.0
      (last_of-off j.at (some k.at) front (λ x. clear.0 cc)
        (All-front (λ (x : Item). j.at ≢ x.at) front (i ∷ rest) clear.1))
      (first_of-off j.at rest behind.1)
    ∙ e
    ∙ ap (λ x. some (cell_of j p x)) (Segment-first (k ∷ front ++ i ∷ rest) s)

pub relinked :
    {h h' : Heap} {q : Option ℕ} (before : Option ℕ) (front : List Item) (i : Item)
    (rest : List Item)
    → Segment h before q (front ++ i ∷ rest)
    → Apart (front ++ i ∷ rest)
    → Off before (front ++ i ∷ rest)
    → Unlinks h h' i (last_of before front) (first_of rest)
    → Segment h' before (first_of (front ++ rest)) (front ++ rest)
relinked before [] _ rest (link i e s) apart off u = rest-relinked i before rest s apart off u
relinked before (_ ∷ front) i rest (link j e s) apart off u =
    link j (cell-relinked j front i rest e s apart.0 u)
      (relinked (some j.at) front i rest s apart.1 (Clear-Off j.at (front ++ i ∷ rest) apart.0) u)
