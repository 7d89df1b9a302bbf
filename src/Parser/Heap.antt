-- ===== src/Parser/Heap.antt =====
-- src/parser.c: `parser_load` with its list and its tasks in memory, and the clean-up on an error.
-- Where `malloc` puts the task and the node of a line is an argument. `none` is a walk over the list
-- that its fuel does not see to its end, or that reaches an address without a node.
pub mod Clean
pub mod Held
pub mod Insert
pub mod Refines
pub mod Loaded
use soa_p1_grupo_cu.Base.{
  ℕ, zero, suc, ◌+◌, Bool, true, false, Option, none, some, List, [], ◌∷◌, if◌then◌else◌, ltb, leb,
  ◌==◌, u64, uint32_max,
}
use soa_p1_grupo_cu.Base.Float.{Floats}
use soa_p1_grupo_cu.Task.{Task, task_create}
use soa_p1_grupo_cu.LinkedList.{
  Cell, DList, dll_init_list, dll_insert_node, dll_find_node, dll_clean_list,
}
use soa_p1_grupo_cu.Parser.Load.{
  min_tasks, max_tasks, Error, cannot_open, no_header, too_many, duplicate, tickets_exceed,
  no_memory, too_few, Result, err, ok, strip, is_empty, Scanned, Row, Memory, check_fields,
}

-- The addresses of the task and of the node of each line.
pub record Places : Type 0 where
  pub task_at : ℕ → ℕ
  pub node_at : ℕ → ℕ

abbrev pub null : ℕ
null = 0

-- Fuel for the walks over a list of at most 25 nodes.
abbrev pub room : ℕ
room = 27

module _ ⦃fl : Floats⦄ where
  abbrev pub Tasks : Type 0
  Tasks = ℕ → Option Task

  abbrev pub write : ℕ → Option Task → Tasks → Tasks
  write a t ts b = if a == b then t else ts b

  -- The list, the tasks in memory, and the counters of the loop.
  pub record Store : Type 0 where
    pub list : DList
    pub tasks : Tasks
    pub n : ℕ
    pub total_tickets : ℕ

  -- What the caller gets, and the memory.
  abbrev pub Outcome : Type 0
  Outcome = Result (Unit {0}) × Store

  -- The pointer that `task_create` returns, and the tasks after it.
  abbrev pub created : ℕ → Option Task → Tasks → ℕ × Tasks
  created a none ts = (null, ts)
  created a (some t) ts = (a, write a (some t) ts)

  abbrev pub inserted : ℕ → Store → Tasks → Option (DList × Bool) → Option Outcome
  inserted lineno s ts none = none
  inserted lineno s ts (some (l, true)) =
      some (ok tt, record s { list = l; tasks = ts; n = s.n + 1 })
  inserted lineno s ts (some (l, false)) =
      some (err (no_memory lineno), record s { list = l; tasks = ts })

  unfoldable pub heap_insert : Places → ℕ → Memory → Row → Store → Option Outcome
  heap_insert p lineno mem r s =
      let (place, ts) =
        created (p.task_at lineno)
          (task_create mem.task mem.mutex r.id r.tickets r.work_units (fl.narrow r.fraction))
          s.tasks in
      inserted lineno s ts (
        dll_insert_node room (if mem.node then some (p.node_at lineno) else none)
          (record {
            id = r.id;
            tickets = r.tickets;
            work_units = r.work_units;
            data_at = place;
            next = none;
            prev = none;
          })
          s.list)

  abbrev pub unless_found : Option (Option ℕ) → Option Outcome → Option Outcome → Option Outcome
  unless_found none found missing = none
  unless_found (some (some a)) found missing = found
  unless_found (some none) found missing = missing

  unfoldable pub heap_add_row : Places → ℕ → Memory → Row → Store → Option Outcome
  heap_add_row p lineno mem r s =
      let total = u64 (s.total_tickets + r.tickets) in
      let s' = record s { total_tickets = total } in
      unless_found (dll_find_node room s.list.head r.id s.list.heap)
        (some (err (duplicate lineno), s))
        (if ltb uint32_max total
          then some (err (tickets_exceed lineno), s')
          else heap_insert p lineno mem r s')

  abbrev pub with_row : Store → Result Row → (Row → Option Outcome) → Option Outcome
  with_row s (err e) next = some (err e, s)
  with_row s (ok r) next = next r

  unfoldable pub heap_load_line : Places → ℕ → Memory → Scanned → Store → Option Outcome
  heap_load_line p lineno mem sc s =
      if leb max_tasks s.n
      then some (err (too_many lineno), s)
      else with_row s (check_fields lineno sc) (λ r. heap_add_row p lineno mem r s)

  -- The loop goes on from a line without an error.
  abbrev pub then_on : Option Outcome → (Store → Option Outcome) → Option Outcome
  then_on none next = none
  then_on (some (err e, s)) next = some (err e, s)
  then_on (some (ok u, s)) next = next s

  abbrev pub free_all : List ℕ → Tasks → Tasks
  free_all [] ts = ts
  free_all (a ∷ spots) ts = free_all spots (write a none ts)

  -- `dll_clean_list` on the caller's list, and the error.
  abbrev pub cleaned : Error → Store → Option (DList × List ℕ) → Option Outcome
  cleaned e s none = none
  cleaned e s (some (l, freed)) =
      some (err e, record s { list = l; tasks = free_all freed s.tasks })

  unfoldable pub fail : Error → Store → Option Outcome
  fail e s = cleaned e s (dll_clean_list room s.list.head s.list.heap [])

  -- What follows the loop.
  abbrev pub finish : Option Outcome → Option Outcome
  finish none = none
  finish (some (err e, s)) = fail e s
  finish (some (ok u, s)) = if ltb s.n min_tasks then fail (too_few s.n) s else some (ok tt, s)

  -- The memory before the loop: no node and no task.
  abbrev pub fresh : Store
  fresh = record { list = dll_init_list (λ a. none); tasks = λ a. none; n = 0; total_tickets = 0 }

  module _ (scan : List ℕ → Scanned) (memory : ℕ → Memory) (p : Places) where
    unfoldable pub heap_load_lines : ℕ → List (List ℕ) → Store → Option Outcome
    heap_load_lines lineno [] s = some (ok tt, s)
    heap_load_lines lineno (c ∷ cs) s =
        let line = strip c in
        let skipped = heap_load_lines (suc lineno) cs s in
        let loaded =
          then_on (heap_load_line p (suc lineno) (memory (suc lineno)) (scan line) s)
            (heap_load_lines (suc lineno) cs) in
        if is_empty line then skipped else loaded

    unfoldable pub heap_parser_load : Option (List (List ℕ)) → Option Outcome
    heap_parser_load none = some (err cannot_open, fresh)
    heap_parser_load (some []) = some (err no_header, fresh)
    heap_parser_load (some (header ∷ lines)) = finish (heap_load_lines 1 lines fresh)
