-- ===== src/Tests/Parser.antt =====
-- A file of five tasks. In the part of `sscanf` stands a function that takes the bytes themselves
-- as the numbers of the line, the fraction in thousandths.
use soa_p1_grupo_cu.Base.{
  ℕ, ◌^◌, ◌<◌, ◌≤◌, ◌-◌, Bool, ◌≡◌, ◌≢◌, ◌↔◌, refl, true, some, List, [], ◌∷◌, map, arith,
}
use soa_p1_grupo_cu.Base.Int.{pos}
use soa_p1_grupo_cu.Parser.Load.{Scanned, Entry, Row, ok, strip, parser_load, check_fields}
use soa_p1_grupo_cu.Parser.Load.Rows.{IsValidLine, IsValidLine-Reads, check_fields-IsValidLine}
use soa_p1_grupo_cu.Parser.Load.Accepts.{plenty, entry_of, Holds, done, blank, line}
use soa_p1_grupo_cu.Parser.Load.File.{Accepted, load_iff}
use soa_p1_grupo_cu.Scheduler.Init.{
  IsReady, started, fault, scheduler_init, node_of_row, init-IsReady, init-fault,
}
use soa_p1_grupo_cu.Tests.Fixed.{fixed, fixed-IsIeee}

abbrev pub scan : List ℕ → Scanned
scan (a ∷ b ∷ c ∷ []) = record {
  fields = 3;
  id = pos a;
  tickets = pos b;
  work_units = pos c;
  fraction = 0;
}
scan (a ∷ b ∷ c ∷ d ∷ []) = record {
  fields = 4;
  id = pos a;
  tickets = pos b;
  work_units = pos c;
  fraction = d;
}
scan _ = record { fields = 0; id = pos 0; tickets = pos 0; work_units = pos 0; fraction = 0 }

-- The file with the id `last` in its last line.
abbrev pub file : ℕ → List (List ℕ)
file last =
    (1 ∷ 3 ∷ 4 ∷ 13 ∷ 10 ∷ [])
    ∷ (2 ∷ 1 ∷ 2 ∷ 10 ∷ [])
    ∷ (10 ∷ [])
    ∷ (3 ∷ 2 ∷ 3 ∷ 500 ∷ [])
    ∷ (4 ∷ 1 ∷ 1 ∷ [])
    ∷ (last ∷ 5 ∷ 6 ∷ 250 ∷ [])
    ∷ []

abbrev row : ℕ → ℕ → ℕ → ℕ → Row
row id tickets units fraction = record {
  id = id;
  tickets = tickets;
  work_units = units;
  fraction = fraction;
}

abbrev rows : ℕ → List Row
rows last = row 1 3 4 1000 ∷ row 2 1 2 1000 ∷ row 3 2 3 500 ∷ row 4 1 1 1000 ∷ row last 5 6 250 ∷ []

abbrev pub entries : ℕ → List Entry
entries last = map entry_of (rows last)

load_iff_example :
    (parser_load scan (λ _. plenty) (some ([] ∷ file 5)) ≡ ok (entries 5))
    ↔ Accepted scan (file 5) (entries 5)
load_iff_example = load_iff scan [] (file 5) (entries 5)

pub differs : (a b : ℕ) → a < b → a ≢ b
differs a b less same = omega arith

unfoldable pub file-Accepted :
    (last : ℕ)
    → 4 < last
    → last ≤ 2 ^ 32 - 1
    → Holds scan ((last ∷ 5 ∷ 6 ∷ 250 ∷ []) ∷ []) (row last 5 6 250 ∷ [])
    → Accepted scan (file last) (entries last)
unfolding strip check_fields
file-Accepted last more small held = record {
  rows = rows last;
  held = line refl (IsValidLine-Reads _ (check_fields-IsValidLine 2 _ _ refl).0) (
      line refl (IsValidLine-Reads _ (check_fields-IsValidLine 3 _ _ refl).0) (
        blank refl (
          line refl (IsValidLine-Reads _ (check_fields-IsValidLine 5 _ _ refl).0)
            (line refl (IsValidLine-Reads _ (check_fields-IsValidLine 6 _ _ refl).0) held))));
  made = refl;
  distinct = (
    (
      differs 1 2 (omega arith),
      (differs 1 3 (omega arith), (differs 1 4 (omega arith), (differs 1 last (omega arith), tt))),
    ),
    (
      (differs 2 3 (omega arith), (differs 2 4 (omega arith), (differs 2 last (omega arith), tt))),
      (
        (differs 3 4 (omega arith), (differs 3 last (omega arith), tt)),
        ((differs 4 last (omega arith), tt), (tt, tt)),
      ),
    ),
  );
  bounded = omega arith;
  enough = omega arith;
  not_more = omega arith;
}

pub last_line :
    (last : ℕ)
    → IsValidLine (scan (last ∷ 5 ∷ 6 ∷ 250 ∷ []))
    → strip (last ∷ 5 ∷ 6 ∷ 250 ∷ []) ≡ (last ∷ 5 ∷ 6 ∷ 250 ∷ [])
    → Holds scan ((last ∷ 5 ∷ 6 ∷ 250 ∷ []) ∷ []) (row last 5 6 250 ∷ [])
last_line last v e =
    line (rw e refl) (rw e (IsValidLine-Reads (scan (last ∷ 5 ∷ 6 ∷ 250 ∷ [])) v)) done

unfoldable pub accepted_five : Accepted scan (file 5) (entries 5)
unfolding strip check_fields
accepted_five = file-Accepted 5 (omega arith) (omega arith) (
    last_line 5 (check_fields-IsValidLine 7 (scan (5 ∷ 5 ∷ 6 ∷ 250 ∷ [])) (row 5 5 6 250) refl).0
      refl)

accepted_thirty : Accepted scan (file 30) (entries 30)
unfolding strip check_fields
accepted_thirty = file-Accepted 30 (omega arith) (omega arith) (
    last_line 30 (check_fields-IsValidLine 7 (scan (30 ∷ 5 ∷ 6 ∷ 250 ∷ [])) (row 30 5 6 250) refl).0
      refl)

abbrev all : ℕ → Bool
all id = true

init-IsReady_example :
    (scheduler_init all (parser_load scan (λ _. plenty) (some ([] ∷ file 5))) 7
      ≡ started (map node_of_row (rows 5)) 7)
    × IsReady (map node_of_row (rows 5))
unfolding file-Accepted accepted_five
init-IsReady_example =
    init-IsReady all (λ id. refl) scan [] (file 5) 7 fixed-IsIeee (entries 5) accepted_five
      (omega arith, (omega arith, (omega arith, (omega arith, (omega arith, tt)))))

init-fault_example :
    scheduler_init all (parser_load scan (λ _. plenty) (some ([] ∷ file 30))) 7 ≡ fault
unfolding file-Accepted accepted_thirty
init-fault_example =
    init-fault all (λ id. refl) scan [] (file 30) 7 (entries 30) accepted_thirty 4 (row 30 5 6 250)
      refl (omega arith)
