-- ===== src/LinkedList/Segments.antt =====
-- Lists on the heap: which addresses they take, and that they are linked both ways.
use soa_p1_grupo_cu.Base.{
  ℕ, zero, suc, ◌≡◌, ◌≢◌, ◌<◌, refl, sym, ap, ◌∙◌, Option, none, some, List, [], ◌∷◌, ◌++◌, All,
  length, arith,
}
use soa_p1_grupo_cu.LinkedList.{Cell, Heap, DList, last_from, put}

-- A node without its links.
pub record Item : Type 0 where
  pub at : ℕ
  pub id : ℕ
  pub tickets : ℕ
  pub work_units : ℕ
  pub data_at : ℕ

abbrev pub cell_of : Item → Option ℕ → Option ℕ → Cell
cell_of i prev next = record {
  id = i.id;
  tickets = i.tickets;
  work_units = i.work_units;
  data_at = i.data_at;
  next = next;
  prev = prev;
}

-- The nodes from `p` on are those of the list, linked both ways; `prev` comes before them.
pub data Segment (h : Heap) : (prev p : Option ℕ) → List Item → Type 0 where
  nil : {prev : Option ℕ} → Segment h prev none []
  link :
      {prev next : Option ℕ} (i : Item) {rest : List Item}
      → h i.at ≡ some (cell_of i prev next)
      → Segment h (some i.at) next rest
      → Segment h prev (some i.at) (i ∷ rest)

abbrev pub Apart : List Item → Type 0
Apart [] = Unit
Apart (i ∷ rest) = All (λ (j : Item). i.at ≢ j.at) rest × Apart rest

-- `l` holds the nodes of the list, each at an address of its own.
pub record IsList (l : DList) (items : List Item) : Type 0 where
  pub linked : Segment l.heap none l.head items
  pub apart : Apart items

abbrev pub last_at : Item → List Item → ℕ
last_at i [] = i.at
last_at i (j ∷ rest) = last_at j rest

pub last_from-last_at :
    {h : Heap} {prev p : Option ℕ} (fuel : ℕ) (i : Item) (rest : List Item)
    → Segment h prev p (i ∷ rest)
    → length rest < fuel
    → last_from fuel i.at h ≡ some (last_at i rest)
unfolding last_from
last_from-last_at zero i rest s enough = absurd (omega arith)
last_from-last_at (suc fuel) _ [] (link i e nil) enough = rw (e, last_from) refl
last_from-last_at (suc fuel) _ (_ ∷ rest) (link i e (link j e' s)) enough =
    rw (e, last_from) (last_from-last_at fuel j rest (link j e' s) (omega arith))

-- An address without a node is not among those of a list.
pub free-apart :
    {h : Heap} {prev p : Option ℕ} {items : List Item} (a : ℕ)
    → Segment h prev p items
    → h a ≡ none
    → All (λ (j : Item). j.at ≢ a) items
free-apart a nil e = tt
free-apart {h} a (link i found s) e =
    (λ same. absurd (cc (sym (ap h same) ∙ found, e)), free-apart a s e)

-- `h'` is `h` with `n` behind the node at `z`.
pub record Extends (h h' : Heap) (z : ℕ) (n : Item) : Type 0 where
  pub new : h' n.at ≡ some (cell_of n (some z) none)
  pub at_end :
      (i : Item) (prev next : Option ℕ)
      → i.at ≡ z
      → h i.at ≡ some (cell_of i prev next)
      → h' i.at ≡ some (cell_of i prev (some n.at))
  pub elsewhere : (b : ℕ) → b ≢ n.at → b ≢ z → h' b ≡ h b

last_at-apart :
    (a : ℕ) (i : Item) (rest : List Item)
    → All (λ (j : Item). a ≢ j.at) (i ∷ rest)
    → a ≢ last_at i rest
last_at-apart a i [] h = h.0
last_at-apart a i (j ∷ rest) h = last_at-apart a j rest h.1

pub Extends-Segment :
    {h h' : Heap} {prev p : Option ℕ} (n i : Item) (rest : List Item)
    → Segment h prev p (i ∷ rest)
    → Apart (i ∷ rest)
    → All (λ (j : Item). j.at ≢ n.at) (i ∷ rest)
    → Extends h h' (last_at i rest) n
    → Segment h' prev p (i ∷ rest ++ n ∷ [])
Extends-Segment n _ [] (link i e nil) apart free x =
    link i (x.at_end i _ none refl e) (link n x.new nil)
Extends-Segment n _ (j ∷ rest) (link i e s) apart free x =
    link i (x.elsewhere i.at free.0 (last_at-apart i.at j rest apart.0) ∙ e)
      (Extends-Segment n j rest s apart.1 free.1 x)

apart-snoc :
    (a : ℕ) (n : Item) (rest : List Item)
    → All (λ (j : Item). a ≢ j.at) rest
    → a ≢ n.at
    → All (λ (j : Item). a ≢ j.at) (rest ++ n ∷ [])
apart-snoc a n [] h new = (new, tt)
apart-snoc a n (j ∷ rest) h new = (h.0, apart-snoc a n rest h.1 new)

pub Apart-snoc :
    (n : Item) (items : List Item)
    → Apart items
    → All (λ (j : Item). j.at ≢ n.at) items
    → Apart (items ++ n ∷ [])
Apart-snoc n [] apart free = (tt, tt)
Apart-snoc n (i ∷ rest) apart free =
    (apart-snoc i.at n rest apart.0 free.0, Apart-snoc n rest apart.1 free.1)

pub put-same : (a b : ℕ) (c : Option Cell) (h : Heap) → b ≡ a → put a c h b ≡ c
put-same a b c h same = ground (arith, same)

pub put-other : (a b : ℕ) (c : Option Cell) (h : Heap) → b ≢ a → put a c h b ≡ h b
put-other a b c h other = ground (arith, other)

-- Freeing a node elsewhere leaves a list as it is.
pub Segment-freed :
    {h : Heap} {prev p : Option ℕ} (a : ℕ) (items : List Item)
    → Segment h prev p items
    → All (λ (j : Item). a ≢ j.at) items
    → Segment (put a none h) prev p items
Segment-freed a [] nil apart = nil
Segment-freed {h} a (_ ∷ rest) (link i e s) apart =
    link i (put-other a i.at none h (λ x. apart.0 (sym x)) ∙ e) (Segment-freed a rest s apart.1)
