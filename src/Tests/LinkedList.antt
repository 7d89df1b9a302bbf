-- ===== src/Tests/LinkedList.antt =====
-- A list of two nodes on the heap, and a third.
use soa_p1_grupo_cu.Base.{ℕ, Bool, List, ◌≡◌, refl, some, none, true, [], ◌∷◌, arith}
use soa_p1_grupo_cu.LinkedList.{Heap, DList, put, dll_insert_node, dll_clean_list, dll_remove_node}
use soa_p1_grupo_cu.LinkedList.Remove.{Removed, remove-Removed}
use soa_p1_grupo_cu.LinkedList.Segments.{Item, cell_of, nil, link, IsList}
use soa_p1_grupo_cu.LinkedList.Operations.{snoc, addresses, Cleaned, insert-IsList, clean-Cleaned}

abbrev first : Item
first = record { at = 10; id = 1; tickets = 3; work_units = 4; data_at = 11 }

abbrev second : Item
second = record { at = 20; id = 2; tickets = 1; work_units = 2; data_at = 21 }

abbrev third : Item
third = record { at = 30; id = 7; tickets = 5; work_units = 6; data_at = 31 }

abbrev heap : Heap
heap =
    put 10 (some (cell_of first none (some 20)))
      (put 20 (some (cell_of second (some 10) none)) (λ a. none))

abbrev two : DList
two = record { head = some 10; heap = heap }

two-IsList : IsList two (first ∷ second ∷ [])
two-IsList = record {
  linked = link first refl (link second refl nil);
  apart = ((λ x. omega arith, tt), (tt, tt));
}

insert-IsList_example :
    (l' : DList) × (dll_insert_node 3 (some 30) (cell_of third none none) two ≡ some (l', true))
    × IsList l' (snoc (first ∷ second ∷ []) third)
insert-IsList_example =
    insert-IsList 3 two (first ∷ second ∷ []) third two-IsList refl (omega arith)

clean-Cleaned_example :
    (h' : Heap) × (dll_clean_list 3 two.head two.heap []
      ≡ some (record { head = none; heap = h' }, addresses (first ∷ second ∷ [])))
    × Cleaned two.heap h' (first ∷ second ∷ [])
clean-Cleaned_example = clean-Cleaned 3 two (first ∷ second ∷ []) two-IsList (omega arith)

remove-Removed_example :
    (l' : DList) × (freed : List ℕ) × (found : Bool) × (dll_remove_node 3 2 two
      ≡ some ((l', freed), found))
    × Removed 2 two l' (first ∷ second ∷ []) freed found
remove-Removed_example = remove-Removed 3 2 two (first ∷ second ∷ []) two-IsList (omega arith)
