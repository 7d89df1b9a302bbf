-- ===== src/LinkedList/Print.antt =====
-- `dll_print_list` of src/double_linked_list.c.
use mathlib.Core.Option.{map}
use soa_p1_grupo_cu.Base.{
  ℕ, zero, suc, ◌≡◌, ◌<◌, refl, ap, Option, some, List, [], ◌∷◌, length, arith,
}
use soa_p1_grupo_cu.LinkedList.{DList, Heap, Line, title, no_nodes, row, print_rows, dll_print_list}
use soa_p1_grupo_cu.LinkedList.Segments.{Item, Segment, nil, link, IsList}

abbrev rows : List Item → List Line
rows [] = []
rows (i ∷ items) = row i.id i.tickets i.work_units ∷ rows items

-- The title, then a line for each item, or the line that says that there is none.
abbrev pub printed : List Item → List Line
printed [] = title ∷ no_nodes ∷ []
printed (i ∷ items) = title ∷ row i.id i.tickets i.work_units ∷ rows items

rows-printed :
    (fuel : ℕ) {h : Heap} {before p : Option ℕ} (items : List Item)
    → Segment h before p items
    → length items < fuel
    → print_rows fuel p h ≡ some (rows items)
unfolding print_rows
rows-printed zero items s enough = absurd (omega arith)
rows-printed (suc fuel) [] nil enough = refl
rows-printed (suc fuel) (_ ∷ items) (link i e s) enough =
    rw (e, print_rows)
      (ap (map (λ ls. row i.id i.tickets i.work_units ∷ ls))
        (rows-printed fuel items s (omega arith)))

-- If the fuel is more than the length of the list, `dll_print_list` prints the title and a line
-- for each node in the order of the list, or that the list is empty.
pub print-printed :
    (fuel : ℕ) (l : DList) (items : List Item)
    → IsList l items
    → length items < fuel
    → dll_print_list fuel l.head l.heap ≡ some (printed items)
unfolding dll_print_list
print-printed fuel l items is enough = go items is.linked enough
  where
    go :
        {p : Option ℕ} {before : Option ℕ} (items : List Item)
        → Segment l.heap before p items
        → length items < fuel
        → dll_print_list fuel p l.heap ≡ some (printed items)
    go [] nil enough = refl
    go (_ ∷ items) (link i e s) enough =
        ap (map (λ ls. title ∷ ls)) (rows-printed fuel (i ∷ items) (link i e s) enough)
