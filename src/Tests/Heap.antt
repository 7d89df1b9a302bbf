-- ===== src/Tests/Heap.antt =====
-- The loader in memory on the file of five tasks, with memory for all and without.
use mathlib.Core.Option.{map}
use soa_p1_grupo_cu.Base.{ℕ, ◌+◌, ◌*◌, ◌≡◌, ◌==◌, refl, true, some, not, [], ◌∷◌, arith}
use soa_p1_grupo_cu.Task.{new_task, clamp_fraction, task_create}
use soa_p1_grupo_cu.LinkedList.{
  dll_init_list, last_from, dll_insert_node, dll_find_node, dll_clean_list,
}
use soa_p1_grupo_cu.Parser.Load.{Memory, strip, check_fields, parser_load}
use soa_p1_grupo_cu.Parser.Load.Accepts.{plenty}
use soa_p1_grupo_cu.Parser.Heap.{
  Places, Outcome, heap_insert, heap_add_row, heap_load_line, fail, heap_load_lines,
  heap_parser_load,
}
use soa_p1_grupo_cu.Parser.Heap.Insert.{IsApart}
use soa_p1_grupo_cu.Parser.Heap.Loaded.{Loaded, load-Loaded}
use soa_p1_grupo_cu.Tests.Fixed.{fixed}
use soa_p1_grupo_cu.Tests.Parser.{scan, file}

abbrev places : Places
places = record { task_at = λ k. 2 * k + 1; node_at = λ k. 2 * k + 2 }

places-IsApart : IsApart places
places-IsApart = record { tasks = λ j k e. omega (arith, e); nodes = λ j k e. omega (arith, e) }

-- No memory for the node of line 5.
abbrev short_of : ℕ → Memory
short_of lineno = record { task = true; mutex = true; node = not (lineno == 5) }

load-Loaded_example :
    Loaded places
      (parser_load scan (λ k. plenty) (some ([] ∷ file 5)))
      (heap_parser_load scan (λ k. plenty) places (some ([] ∷ file 5)))
load-Loaded_example = load-Loaded places places-IsApart scan (λ k. plenty) (some ([] ∷ file 5))

-- After the error in line 5 its task is still in memory.
task_left :
    map (λ (o : Outcome). o.1.tasks 11) (heap_parser_load scan short_of places (some ([] ∷ file 5)))
    ≡ some (some (new_task 3 2 3 500))
unfolding heap_parser_load heap_load_lines heap_load_line heap_add_row heap_insert fail strip
    check_fields task_create clamp_fraction dll_init_list last_from dll_insert_node dll_find_node
    dll_clean_list
task_left = refl
