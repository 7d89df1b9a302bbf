-- ===== src/Parser/Heap/Insert.antt =====
-- src/parser.c: a line of the file in memory does what it does to the entries.
use soa_p1_grupo_cu.Base.{
  ℕ, ◌+◌, ◌≡◌, ◌≢◌, ◌<◌, refl, sym, ap, ◌∙◌, true, false, Option, none, some, List, [], ◌∷◌, ◌++◌,
  All, length, ◌==◌, if◌then◌else◌, Bool-cases, inl, inr, arith,
}
use soa_p1_grupo_cu.Base.Float.{Floats}
use soa_p1_grupo_cu.Task.{Task, task_create}
use soa_p1_grupo_cu.LinkedList.{DList, dll_insert_node}
use soa_p1_grupo_cu.LinkedList.Segments.{Item, IsList}
use soa_p1_grupo_cu.LinkedList.Operations.{snoc, NoOther, insert-Grown}
use soa_p1_grupo_cu.Parser.Load.{
  Entry, Error, no_memory, Loading, Result, err, ok, refuse, ◌>>◌, Row, Memory,
}
use soa_p1_grupo_cu.Parser.Heap.{
  Places, room, Tasks, created, Store, Outcome, inserted, heap_insert,
}
use soa_p1_grupo_cu.Parser.Heap.Held.{task-Created, StandAll-snoc, Only, Held, Spoilt}

All-snoc :
    {A : Type 0} (P : A → Type 0) (xs : List A) (y : A) → All P (xs ++ y ∷ []) → All P xs × P y
All-snoc P [] y h = (tt, h.0)
All-snoc P (x ∷ xs) y h = let (rest, last) = All-snoc P xs y h.1 in ((h.0, rest), last)

length-snoc : {A : Type 0} (xs : List A) (y : A) → length (xs ++ y ∷ []) ≡ length xs + 1
length-snoc [] y = refl
length-snoc (x ∷ xs) y = omega (arith, length-snoc xs y)

later_differs : (m k : ℕ) → m < k → k ≢ m
later_differs m k less e = omega (arith, less, e)

-- `malloc` gives each line other addresses than the lines before.
pub record IsApart (p : Places) : Type 0 where
  pub tasks : (j k : ℕ) → p.task_at j ≡ p.task_at k → j ≡ k
  pub nodes : (j k : ℕ) → p.node_at j ≡ p.node_at k → j ≡ k

-- What stays behind after an error: the task of a line for whose node there was no memory.
abbrev pub LeftBehind : Places → Error → ℕ → Type 0
LeftBehind p (no_memory lineno) b = b ≡ p.task_at lineno
LeftBehind p _ b = ⊥

module _ ⦃fl : Floats⦄ where
  module _ (p : Places) where
    -- A step in memory follows the step on the entries: it gives the same, and on an error leaves
    -- a list to free.
    abbrev pub Follows : ℕ → Result Loading → Option Outcome → Type 0
    Follows lineno (ok l) o =
        (s : Store) × (items : List Item) × (o ≡ some (ok tt, s)) × Held p lineno l s items
    Follows lineno (err e) o = (s : Store) × (o ≡ some (err e, s)) × Spoilt s (LeftBehind p e)

    pub Held-Spoilt :
        (lineno : ℕ) (l : Loading) (s : Store) (items : List Item) (e : Error)
        → Held p lineno l s items
        → Spoilt s (LeftBehind p e)
    Held-Spoilt lineno l s items e h = record {
      items = items;
      list = h.list;
      few = omega (arith, h.size, h.few);
      only = record {
        nodes = h.only.nodes;
        tasks =
            λ b out. elim (h.only.tasks b out) [ inl gone ↦ inl gone | inr never ↦ absurd never ];
      };
    }

    module _ (apart : IsApart p) where
      none_of :
          (s : Store) (items : List Item)
          → Only s items (λ b. ⊥)
          → (b : ℕ) → All (λ (j : Item). j.data_at ≢ b) items
          → s.tasks b ≡ none
      none_of s items only b out = elim (only.tasks b out) [
        | inl gone ↦ gone
        | inr never ↦ absurd never
      ]

      -- The entry of a line, and the item in memory.
      abbrev entry_of : Row → Option Task → Entry
      entry_of r o = record { id = r.id; tickets = r.tickets; work_units = r.work_units; task = o }

      abbrev item_of : ℕ → Row → Option Task → Tasks → Item
      item_of lineno r o ts = record {
        at = p.node_at lineno;
        id = r.id;
        tickets = r.tickets;
        work_units = r.work_units;
        data_at = (created (p.task_at lineno) o ts).0;
      }

      abbrev pub grown : Row → Option Task → Loading → Loading
      grown r o l = record {
        entries = l.entries ++ entry_of r o ∷ [];
        n = l.n + 1;
        total_tickets = l.total_tickets;
      }

      stored-Held :
          (prev lineno : ℕ) (r : Row) (l : Loading) (s : Store) (items : List Item)
          (o : Option Task)
          → prev < lineno
          → l.n < 25
          → Held p prev l s items
          → (l' : DList) → IsList l' (snoc items (item_of lineno r o s.tasks))
          → NoOther (p.node_at lineno) s.list.heap l'.heap
          → Held p lineno
              (grown r o l)
              (record s {
                list = l';
                tasks = (created (p.task_at lineno) o s.tasks).1;
                n = s.n + 1;
              })
              (snoc items (item_of lineno r o s.tasks))
      stored-Held prev lineno r l s items o later few h l' is alone =
          let made =
            task-Created s.tasks (p.task_at lineno) o items l.entries (h.task_free lineno later)
              h.entries in
          let n = item_of lineno r o s.tasks in
          record {
            list = is;
            entries =
                StandAll-snoc (created (p.task_at lineno) o s.tasks).1 items l.entries n
                  (entry_of r o) made.all
                  (record { id = refl; tickets = refl; work_units = refl; task = made.here });
            counted = ap (λ k. k + 1) h.counted;
            total = h.total;
            size = length-snoc items n ∙ ap (λ k. k + 1) h.size;
            few = omega (arith, few);
            only = record {
              nodes = λ b out.
                  let (rest, last) = All-snoc (λ (j : Item). j.at ≢ b) items n out in
                  alone b (λ e. last (sym e)) (h.only.nodes b rest);
              tasks = λ b out.
                  let (rest, last) = All-snoc (λ (j : Item). j.data_at ≢ b) items n out in
                  inl (made.beyond b last (none_of s items h.only b rest));
            };
            node_free = λ k after.
                alone (p.node_at k) (λ e. later_differs lineno k after (apart.nodes k lineno e))
                  (h.node_free k (omega (arith, later, after)));
            task_free = λ k after.
                made.others (p.task_at k)
                  (λ e. later_differs lineno k after (apart.tasks k lineno e))
                  (h.task_free k (omega (arith, later, after)));
          }

      lost-Spoilt :
          (prev lineno : ℕ) (l : Loading) (s : Store) (items : List Item) (o : Option Task)
          → prev < lineno
          → Held p prev l s items
          → Spoilt
              (record s { tasks = (created (p.task_at lineno) o s.tasks).1 })
              (LeftBehind p (no_memory lineno))
      lost-Spoilt prev lineno l s items o later h =
          let made =
            task-Created s.tasks (p.task_at lineno) o items l.entries (h.task_free lineno later)
              h.entries in
          record {
            items = items;
            list = h.list;
            few = omega (arith, h.size, h.few);
            only = record {
              nodes = h.only.nodes;
              tasks = λ b out. elim (Bool-cases (b == p.task_at lineno)) [
                | inl same ↦ inr (ground arith)
                | inr other ↦
                    inl
                      (made.others b (λ e. ground (arith, other, e)) (none_of s items h.only b out))
              ];
            };
          }

      abbrev pub task_of : Memory → Row → Option Task
      task_of mem r =
          task_create mem.task mem.mutex r.id r.tickets r.work_units (fl.narrow r.fraction)

      pub insert-Follows :
          (prev lineno : ℕ) (mem : Memory) (r : Row) (l : Loading) (s : Store) (items : List Item)
          → prev < lineno
          → l.n < 25
          → Held p prev l s items
          → Follows lineno
              (refuse (if mem.node then false else true) (no_memory lineno)
                >> ok (grown r (task_of mem r) l))
              (heap_insert p lineno mem r s)
      unfolding heap_insert dll_insert_node
      insert-Follows prev lineno mem r l s items later few h = elim (Bool-cases mem.node) [
        | inl found ↦
            let o = task_of mem r in
            let n = item_of lineno r o s.tasks in
            let (l', run, is, alone) =
              insert-Grown room s.list items n h.list (h.node_free lineno later)
                (omega (arith, h.size, few)) in
            rw found (
              record s { list = l'; tasks = (created (p.task_at lineno) o s.tasks).1; n = s.n + 1 },
              snoc items n,
              ap (inserted lineno s (created (p.task_at lineno) o s.tasks).1) run,
              stored-Held prev lineno r l s items o later few h l' is alone,
            )
        | inr missing ↦ rw missing (
          record s { tasks = (created (p.task_at lineno) (task_of mem r) s.tasks).1 },
          refl,
          lost-Spoilt prev lineno l s items (task_of mem r) later h,
        )
      ]
