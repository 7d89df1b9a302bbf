-- ===== src/Parser/Heap/Loaded.antt =====
-- src/parser.c: `parser_load` in memory gives what it gives on the entries, and cleans up.
use mathlib.Core.Path.{subst}
use soa_p1_grupo_cu.Base.{
  ℕ, ◌≡◌, refl, sym, ap, ◌∙◌, Option, none, some, List, [], ◌∷◌, ltb, Bool-cases, inl, inr, arith,
  ◌⊎◌,
}
use soa_p1_grupo_cu.Base.Float.{Floats}
use soa_p1_grupo_cu.LinkedList.{dll_init_list}
use soa_p1_grupo_cu.LinkedList.Segments.{Item, IsList, nil}
use soa_p1_grupo_cu.LinkedList.Operations.{addresses, clean-Cleaned}
use soa_p1_grupo_cu.Parser.Load.{
  min_tasks, Entry, Error, too_few, Loading, Result, err, ok, refuse, ◌>>=◌, ◌>>◌, Scanned, Memory,
  load_lines, parser_load,
}
use soa_p1_grupo_cu.Parser.Heap.{
  Places, room, Store, Outcome, free_all, cleaned, fail, finish, fresh, heap_load_lines,
  heap_parser_load,
}
use soa_p1_grupo_cu.Parser.Heap.Clean.{free_all-addresses, all_free}
use soa_p1_grupo_cu.Parser.Heap.Held.{StandAll, Only, Held, Spoilt}
use soa_p1_grupo_cu.Parser.Heap.Insert.{IsApart, LeftBehind, Held-Spoilt}
use soa_p1_grupo_cu.Parser.Heap.Refines.{Looped, load_lines-Looped}

module _ ⦃fl : Floats⦄ (p : Places) where
  -- How the caller finds the memory: the list of the entries with their tasks and nothing else, or,
  -- after an error, nothing, but perhaps a task at a place.
  abbrev pub Loaded : Result (List Entry) → Option Outcome → Type 0
  Loaded (ok es) o =
      (s : Store) × (items : List Item) × (o ≡ some (ok tt, s))
      × IsList s.list items
      × StandAll s.tasks items es
      × Only s items (λ b. ⊥)
  Loaded (err e) o =
      (s : Store) × (o ≡ some (err e, s))
      × (s.list.head ≡ none)
      × ((b : ℕ) → s.list.heap b ≡ none)
      × ((b : ℕ) → (s.tasks b ≡ none) ⊎ LeftBehind p e b)

  fail-Loaded : (e : Error) (s : Store) → Spoilt s (LeftBehind p e) → Loaded (err e) (fail e s)
  unfolding fail
  fail-Loaded e s spoilt =
      let items = spoilt.items in
      let (heap, run, gone) =
        clean-Cleaned room s.list items spoilt.list (omega (arith, spoilt.few)) in
      (
        record s {
          list = record { head = none; heap = heap };
          tasks = free_all (addresses items) s.tasks;
        },
        ap (cleaned e s) run,
        refl,
        λ b. all_free items b heap gone.gone (λ out. gone.kept b out ∙ spoilt.only.nodes b out),
        λ b. free_all-addresses (LeftBehind p e b) items b s.tasks (spoilt.only.tasks b),
      )

  finish-Loaded :
      (r : Result Loading) (o : Option Outcome)
      → Looped p r o
      → Loaded (do l ← r; refuse (ltb l.n min_tasks) (too_few l.n); ok l.entries) (finish o)
  finish-Loaded (err e) o (s, same, spoilt) = rw same (fail-Loaded e s spoilt)
  finish-Loaded (ok l) o (lineno, s, items, same, h) = elim (Bool-cases (ltb l.n min_tasks)) [
    | inl less ↦
        rw (same, less, ap (λ k. ltb k min_tasks) h.counted ∙ less)
          (subst (λ k. Loaded (err (too_few l.n)) (fail (too_few k) s)) (sym h.counted)
            (fail-Loaded (too_few l.n) s (Held-Spoilt p lineno l s items (too_few l.n) h)))
    | inr enough ↦
        rw (same, enough, ap (λ k. ltb k min_tasks) h.counted ∙ enough)
          (s, items, refl, h.list, h.entries, h.only)
  ]

  fresh-Held : Held p 1 (record { entries = []; n = 0; total_tickets = 0 }) fresh []
  unfolding dll_init_list
  fresh-Held = record {
    list = record { linked = nil; apart = tt };
    entries = tt;
    counted = refl;
    total = refl;
    size = refl;
    few = omega arith;
    only = record { nodes = λ b out. refl; tasks = λ b out. inl refl };
    node_free = λ k after. refl;
    task_free = λ k after. refl;
  }

module _ ⦃fl : Floats⦄ (p : Places) (apart : IsApart p) where
  -- If `malloc` gives each line other addresses: `parser_load` in memory ends, and gives what it
  -- gives on the entries. If it succeeds, the caller has a list, linked both ways, of the entries
  -- in their order with their tasks, and nothing else is in memory. After an error the caller's
  -- head is NULL and no node and no task is left, but for the task of the line for whose node
  -- there was no memory.
  pub load-Loaded :
      (scan : List ℕ → Scanned) (memory : ℕ → Memory) (opened : Option (List (List ℕ)))
      → Loaded p (parser_load scan memory opened) (heap_parser_load scan memory p opened)
  unfolding parser_load heap_parser_load dll_init_list
  load-Loaded scan memory none = (fresh, refl, refl, λ b. refl, λ b. inl refl)
  load-Loaded scan memory (some []) = (fresh, refl, refl, λ b. refl, λ b. inl refl)
  load-Loaded scan memory (some (header ∷ lines)) =
      finish-Loaded p
        (load_lines scan memory 1 lines (record { entries = []; n = 0; total_tickets = 0 }))
        (heap_load_lines scan memory p 1 lines fresh)
        (load_lines-Looped p apart scan memory 1 lines
          (record { entries = []; n = 0; total_tickets = 0 }) fresh [] (fresh-Held p))
