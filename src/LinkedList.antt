-- ===== src/LinkedList.antt =====
-- src/double_linked_list.c, on a heap: an address holds a node, or nothing. `malloc` is not code of
-- the repository: the address that it gives is an argument, `none` for NULL.
pub mod Segments
pub mod Operations
pub mod Unlink
pub mod Walk
pub mod Remove
pub mod Print
use mathlib.Core.Option.{map}
use soa_p1_grupo_cu.Base.{
  ℕ, zero, suc, Bool, true, false, Option, none, some, List, [], ◌∷◌, ◌++◌, if◌then◌else◌, ◌==◌,
}

-- `struct node`; `data` is the address of the task.
pub record Cell : Type 0 where
  pub id : ℕ
  pub tickets : ℕ
  pub work_units : ℕ
  pub data_at : ℕ
  pub next : Option ℕ
  pub prev : Option ℕ

abbrev pub Heap : Type 0
Heap = ℕ → Option Cell

-- A store to a node.
abbrev pub put : ℕ → Option Cell → Heap → Heap
put a c h b = if a == b then c else h b

-- A store to a field of the node at an address, if there is one.
abbrev pub modify_at : Option ℕ → (Cell → Cell) → Heap → Heap
modify_at none f h = h
modify_at (some a) f h = elim (h a) [ none ↦ h | some c ↦ put a (some (f c)) h ]

-- `head` and the heap.
pub record DList : Type 0 where
  pub head : Option ℕ
  pub heap : Heap

unfoldable pub dll_init_list : Heap → DList
dll_init_list h = record { head = none; heap = h }

-- The `while` of `dll_insert_node`, from the node at `a`.
unfoldable pub last_from : ℕ → ℕ → Heap → Option ℕ
last_from zero a h = none
last_from (suc fuel) a h = elim (h a) [
  | none ↦ none
  | some c ↦ elim c.next [ none ↦ some a | some b ↦ last_from fuel b h ]
]

-- The new list, and whether there was memory; `none` if the fuel runs out or the walk reaches
-- an address without a node.
unfoldable pub dll_insert_node : ℕ → Option ℕ → Cell → DList → Option (DList × Bool)
dll_insert_node fuel none c l = some (l, false)
dll_insert_node fuel (some a) c l = elim l.head [
  | none ↦ some (
    record { head = some a; heap = put a (some (record c { next = none; prev = none })) l.heap },
    true,
  )
  | some first ↦ elim (last_from fuel first l.heap) [
    | none ↦ none
    | some z ↦
        let linked = modify_at (some z) (λ x. record x { next = some a }) l.heap in
        some
          (record l { heap = put a (some (record c { next = none; prev = some z })) linked }, true)
  ]
]

-- The address of the first node with the id, or `none` for NULL, which `*found_node` gets and
-- which says whether `true` is returned; the outer `none` as above.
unfoldable pub dll_find_node : ℕ → Option ℕ → ℕ → Heap → Option (Option ℕ)
dll_find_node zero current id h = none
dll_find_node (suc fuel) none id h = some none
dll_find_node (suc fuel) (some a) id h = elim (h a) [
  | none ↦ none
  | some c ↦ let rest = dll_find_node fuel c.next id h in if c.id == id then some (some a) else rest
]

-- The body of the `if` of `dll_remove_node`, up to `free`, for the node `c` at `a`.
unfoldable pub unlink : ℕ → Cell → DList → DList
unlink a c l = record {
  head = elim c.prev [ none ↦ c.next | some b ↦ l.head ];
  heap =
      modify_at c.next (λ x. record x { prev = c.prev })
        (modify_at c.prev (λ x. record x { next = c.next }) l.heap);
}

-- The walk of `dll_remove_node` from `current` on: the list, the addresses that it frees, and
-- whether it returns `true`; `none` as above.
unfoldable pub remove_from : ℕ → Option ℕ → ℕ → DList → Option ((DList × List ℕ) × Bool)
remove_from zero current id l = none
remove_from (suc fuel) none id l = some ((l, []), false)
remove_from (suc fuel) (some a) id l = elim (l.heap a) [
  | none ↦ none
  | some c ↦
      let rest = remove_from fuel c.next id l in
      let cut = unlink a c l in
      if c.id == id
      then some ((record cut { heap = put a none cut.heap }, c.data_at ∷ a ∷ []), true)
      else rest
]

unfoldable pub dll_remove_node : ℕ → ℕ → DList → Option ((DList × List ℕ) × Bool)
dll_remove_node fuel id l = remove_from fuel l.head id l

-- The lines that `dll_print_list` prints.
pub data Line : Type 0 where
  title : Line
  no_nodes : Line
  row : (id tickets work_units : ℕ) → Line

unfoldable pub print_rows : ℕ → Option ℕ → Heap → Option (List Line)
print_rows zero current h = none
print_rows (suc fuel) none h = some []
print_rows (suc fuel) (some a) h = elim (h a) [
  | none ↦ none
  | some c ↦ map (λ ls. row c.id c.tickets c.work_units ∷ ls) (print_rows fuel c.next h)
]

unfoldable pub dll_print_list : ℕ → Option ℕ → Heap → Option (List Line)
dll_print_list fuel none h = some (title ∷ no_nodes ∷ [])
dll_print_list fuel (some a) h = map (λ ls. title ∷ ls) (print_rows fuel (some a) h)

-- The list and the addresses that have been freed, of tasks and of nodes, in order.
unfoldable pub dll_clean_list : ℕ → Option ℕ → Heap → List ℕ → Option (DList × List ℕ)
dll_clean_list zero current h freed = none
dll_clean_list (suc fuel) none h freed = some (record { head = none; heap = h }, freed)
dll_clean_list (suc fuel) (some a) h freed = elim (h a) [
  | none ↦ none
  | some c ↦ dll_clean_list fuel c.next (put a none h) (freed ++ c.data_at ∷ a ∷ [])
]
