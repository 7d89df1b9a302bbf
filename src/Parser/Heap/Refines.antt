-- ===== src/Parser/Heap/Refines.antt =====
-- src/parser.c: the loop over the lines, in memory and on the entries.
use soa_p1_grupo_cu.Base.{
  ℕ, suc, ◌+◌, ◌≡◌, ◌<◌, refl, ap, ◌∙◌, true, false, Option, some, Option-cases, List, [], ◌∷◌, ltb,
  leb, if◌then◌else◌, Bool-cases, inl, inr, arith, u64, uint32_max,
}
use soa_p1_grupo_cu.Base.Float.{Floats}
use soa_p1_grupo_cu.LinkedList.Segments.{Item}
use soa_p1_grupo_cu.LinkedList.Operations.{find_item, find-item}
use soa_p1_grupo_cu.Parser.Load.{
  max_tasks, no_memory, duplicate, tickets_exceed, too_many, Loading, Result, err, ok, refuse,
  ◌>>=◌, ◌>>◌, Row, Scanned, Memory, check_fields, add_row, load_line, strip, is_empty, load_lines,
}
use soa_p1_grupo_cu.Parser.Heap.{
  Places, room, Store, Outcome, heap_insert, heap_add_row, with_row, heap_load_line, then_on,
  heap_load_lines,
}
use soa_p1_grupo_cu.Parser.Heap.Held.{is_there, has_id-find_item, Held, Spoilt}
use soa_p1_grupo_cu.Parser.Heap.Insert.{
  IsApart, LeftBehind, Follows, Held-Spoilt, insert-Follows, grown, task_of,
}

module _ ⦃fl : Floats⦄ (p : Places) where
  -- The loop over the lines, in memory and on the entries.
  abbrev pub Looped : Result Loading → Option Outcome → Type 0
  Looped (ok l) o =
      (lineno : ℕ) × (s : Store) × (items : List Item) × (o ≡ some (ok tt, s))
      × Held p lineno l s items
  Looped (err e) o = (s : Store) × (o ≡ some (err e, s)) × Spoilt s (LeftBehind p e)

module _ ⦃fl : Floats⦄ (p : Places) (apart : IsApart p) where
  -- The counter of the tickets is no part of the list.
  counted-Held :
      (prev t : ℕ) (l : Loading) (s : Store) (items : List Item)
      → Held p prev l s items
      → Held p prev (record l { total_tickets = t }) (record s { total_tickets = t }) items
  counted-Held prev t l s items h = record {
    list = h.list;
    entries = h.entries;
    counted = h.counted;
    total = refl;
    size = h.size;
    few = h.few;
    only = record { nodes = h.only.nodes; tasks = h.only.tasks };
    node_free = h.node_free;
    task_free = h.task_free;
  }

  missing-Follows :
      (prev lineno : ℕ) (mem : Memory) (r : Row) (l : Loading) (s : Store) (items : List Item)
      (t : ℕ)
      → prev < lineno
      → l.n < 25
      → Held p prev l s items
      → Follows p lineno
          (do
            refuse (ltb uint32_max t) (tickets_exceed lineno)
            refuse (if mem.node then false else true) (no_memory lineno)
            ok (grown p apart r (task_of p apart mem r) (record l { total_tickets = t })))
          (if ltb uint32_max t
            then some (err (tickets_exceed lineno), record s { total_tickets = t })
            else heap_insert p lineno mem r (record s { total_tickets = t }))
  missing-Follows prev lineno mem r l s items t later few h =
      let held = counted-Held prev t l s items h in
      elim (Bool-cases (ltb uint32_max t)) [
        | inl many ↦ rw many (
          record s { total_tickets = t },
          refl,
          Held-Spoilt p prev (record l { total_tickets = t }) (record s { total_tickets = t }) items
              (tickets_exceed lineno) held,
        )
        | inr fits ↦ rw fits (
            insert-Follows p apart prev lineno mem r (record l { total_tickets = t })
              (record s { total_tickets = t }) items later few held)
      ]

  add_row-Follows :
      (prev lineno : ℕ) (mem : Memory) (r : Row) (l : Loading) (s : Store) (items : List Item)
      → prev < lineno
      → l.n < 25
      → Held p prev l s items
      → Follows p lineno (add_row lineno mem r l) (heap_add_row p lineno mem r s)
  unfolding add_row heap_add_row
  add_row-Follows prev lineno mem r l s items later few h =
      let found = find-item room r.id s.list items h.list (omega (arith, h.size, few)) in
      let there = has_id-find_item s.tasks r.id items l.entries h.entries in
      elim (Option-cases (find_item r.id items)) [
        | inl out ↦
            rw (there ∙ ap is_there out, found ∙ ap some out, h.total)
              (missing-Follows prev lineno mem r l s items (u64 (l.total_tickets + r.tickets)) later
                few h)
        | inr (a, at) ↦
            rw (there ∙ ap is_there at, found ∙ ap some at)
              (s, refl, Held-Spoilt p prev l s items (duplicate lineno) h)
      ]

  row-Follows :
      (prev lineno : ℕ) (mem : Memory) (row : Result Row) (l : Loading) (s : Store)
      (items : List Item)
      → prev < lineno
      → l.n < 25
      → Held p prev l s items
      → Follows p lineno
          (row >>= λ r. add_row lineno mem r l)
          (with_row s row (λ r. heap_add_row p lineno mem r s))
  row-Follows prev lineno mem (err e) l s items later few h =
      (s, refl, Held-Spoilt p prev l s items e h)
  row-Follows prev lineno mem (ok r) l s items later few h =
      add_row-Follows prev lineno mem r l s items later few h

  load_line-Follows :
      (prev lineno : ℕ) (mem : Memory) (sc : Scanned) (l : Loading) (s : Store) (items : List Item)
      → prev < lineno
      → Held p prev l s items
      → Follows p lineno (load_line lineno mem sc l) (heap_load_line p lineno mem sc s)
  unfolding load_line heap_load_line
  load_line-Follows prev lineno mem sc l s items later h = elim (Bool-cases (leb max_tasks l.n)) [
    | inl full ↦
        rw (full, ap (leb max_tasks) h.counted ∙ full)
          (s, refl, Held-Spoilt p prev l s items (too_many lineno) h)
    | inr more ↦
        rw (more, ap (leb max_tasks) h.counted ∙ more)
          (row-Follows prev lineno mem (check_fields lineno sc) l s items later
            (ground (arith, more)) h)
  ]

  later-Held :
      (prev : ℕ) (l : Loading) (s : Store) (items : List Item)
      → Held p prev l s items
      → Held p (suc prev) l s items
  later-Held prev l s items h = record {
    list = h.list;
    entries = h.entries;
    counted = h.counted;
    total = h.total;
    size = h.size;
    few = h.few;
    only = h.only;
    node_free = λ k after. h.node_free k (omega (arith, after));
    task_free = λ k after. h.task_free k (omega (arith, after));
  }

  then_on-Looped :
      (lineno : ℕ) (r : Result Loading) (o : Option Outcome) (k : Loading → Result Loading)
      (next : Store → Option Outcome)
      → Follows p lineno r o
      → ((l : Loading) (s : Store) (items : List Item)
          → Held p lineno l s items
          → Looped p (k l) (next s))
      → Looped p (r >>= k) (then_on o next)
  then_on-Looped lineno (ok l) o k next (s, items, e, h) go = rw e (go l s items h)
  then_on-Looped lineno (err m) o k next (s, e, spoilt) go = rw e (s, refl, spoilt)

  module _ (scan : List ℕ → Scanned) (memory : ℕ → Memory) where
    pub load_lines-Looped :
        (prev : ℕ) (lines : List (List ℕ)) (l : Loading) (s : Store) (items : List Item)
        → Held p prev l s items
        → Looped p
            (load_lines scan memory prev lines l)
            (heap_load_lines scan memory p prev lines s)
    unfolding load_lines heap_load_lines
    load_lines-Looped prev [] l s items h = (prev, s, items, refl, h)
    load_lines-Looped prev (c ∷ cs) l s items h = elim (Bool-cases (is_empty (strip c))) [
      | inl blank ↦
          rw blank (load_lines-Looped (suc prev) cs l s items (later-Held prev l s items h))
      | inr text ↦ rw text (
          then_on-Looped (suc prev) (load_line (suc prev) (memory (suc prev)) (scan (strip c)) l)
            (heap_load_line p (suc prev) (memory (suc prev)) (scan (strip c)) s)
            (load_lines scan memory (suc prev) cs) (heap_load_lines scan memory p (suc prev) cs)
            (load_line-Follows prev (suc prev) (memory (suc prev)) (scan (strip c)) l s items
              (omega arith) h)
            (λ l' s' items' h'. load_lines-Looped (suc prev) cs l' s' items' h'))
    ]
