-- ===== src/Parser/Load.antt =====
-- src/parser.c: `parser_load`. `fgets` and `sscanf` are not code of the repository: the lines that
-- the one gives and what the other reads in a line are arguments. So is whether memory is there.
pub mod Rows
pub mod Accepts
pub mod File
use soa_p1_grupo_cu.Base.{
  ℕ, zero, suc, ◌+◌, Bool, true, false, ◌&&◌, ◌||◌, Option, none, some, List, [], ◌∷◌, ◌++◌,
  if◌then◌else◌, ltb, leb, ◌==◌, u64, uint32_max,
}
use soa_p1_grupo_cu.Base.Int.{ℤ, not_positive, too_large, to_u32}
use soa_p1_grupo_cu.Base.Float.{Floats}
use soa_p1_grupo_cu.Task.{Task, Node, task_create}

abbrev pub min_tasks : ℕ
min_tasks = 5

abbrev pub max_tasks : ℕ
max_tasks = 25

-- The message of each error, with the number of the line where it has one.
pub data Error : Type 0 where
  cannot_open no_header : Error
  too_many invalid_format fraction_range fraction_small : (lineno : ℕ) → Error
  invalid_id invalid_tickets invalid_units out_of_range : (lineno : ℕ) → Error
  duplicate tickets_exceed no_memory : (lineno : ℕ) → Error
  too_few : (found : ℕ) → Error

-- What a step of the loading gives: the error that ends it, or its value.
pub data Result (A : Type 0) : Type 0 where
  err : (message : Error) → Result A
  ok : (value : A) → Result A

module _ {A B : Type 0} where
  infixl 5 ◌>>=◌ ◌>>◌
  abbrev pub ◌>>=◌ : (m : Result A) (k : (a : A) → Result B) → Result B
  err message >>= k = err message
  ok value >>= k = k value

  abbrev pub ◌>>◌ : (m : Result A) (k : Result B) → Result B
  m >> k = m >>= λ ignored. k

-- `if (test) { … goto err; }`
abbrev pub refuse : Bool → Error → Result (Unit {0})
refuse true e = err e
refuse false e = ok tt

-- `line[strcspn(line, "\r\n")] = '\0'`, on the bytes of a line.
unfoldable pub strip : List ℕ → List ℕ
strip [] = []
strip (c ∷ cs) = if c == 13 || c == 10 then [] else c ∷ strip cs

abbrev pub is_empty : List ℕ → Bool
is_empty [] = true
is_empty (c ∷ cs) = false

module _ ⦃fl : Floats⦄ where
  -- What `sscanf` returns and stores; the fields past the count are left unread.
  pub record Scanned : Type 0 where
    pub fields : ℕ  -- 0 for `EOF`
    pub id : ℤ
    pub tickets : ℤ
    pub work_units : ℤ
    pub fraction : fl.Double

  -- A line that has passed the tests.
  pub record Row : Type 0 where
    pub id : ℕ
    pub tickets : ℕ
    pub work_units : ℕ
    pub fraction : fl.Double

  -- A `struct node`: its `data` is NULL if `task_create` failed.
  pub record Entry : Type 0 where
    pub id : ℕ
    pub tickets : ℕ
    pub work_units : ℕ
    pub task : Option Task

  -- Whether the allocations for a line succeed: the task, its mutex, the node.
  pub record Memory : Type 0 where
    pub task : Bool
    pub mutex : Bool
    pub node : Bool

  pub record Loading : Type 0 where
    pub entries : List Entry
    pub n : ℕ
    pub total_tickets : ℕ

  -- `double yield_fraction = 1.0`, unless the line gives one.
  abbrev pub fraction_of : Scanned → fl.Double
  fraction_of s = if s.fields == 4 then s.fraction else fl.double 1

  abbrev pub outside : Scanned → Bool
  outside s =
      s.fields == 4
      && (fl.le_d (fraction_of s) (fl.double 0) || fl.lt_d (fl.double 1) (fraction_of s))

  abbrev pub below_tenth : Scanned → Bool
  below_tenth s = s.fields == 4 && fl.lt_d (fraction_of s) fl.tenth

  abbrev pub oversized : Scanned → Bool
  oversized s = too_large s.id || too_large s.tickets || too_large s.work_units

  abbrev pub row_of : Scanned → Row
  row_of s = record {
    id = to_u32 s.id;
    tickets = to_u32 s.tickets;
    work_units = to_u32 s.work_units;
    fraction = fraction_of s;
  }

  unfoldable pub check_fields : ℕ → Scanned → Result Row
  check_fields lineno s = do
    refuse (ltb s.fields 3) (invalid_format lineno)
    refuse (outside s) (fraction_range lineno)
    refuse (below_tenth s) (fraction_small lineno)
    refuse (not_positive s.id) (invalid_id lineno)
    refuse (not_positive s.tickets) (invalid_tickets lineno)
    refuse (not_positive s.work_units) (invalid_units lineno)
    refuse (oversized s) (out_of_range lineno)
    ok (row_of s)

  -- `dll_find_node` with a NULL place for the node.
  unfoldable pub has_id : ℕ → List Entry → Bool
  has_id id [] = false
  has_id id (e ∷ es) = if e.id == id then true else has_id id es

  unfoldable pub add_row : ℕ → Memory → Row → Loading → Result Loading
  add_row lineno mem r l =
      let total = u64 (l.total_tickets + r.tickets) in
      do
        refuse (has_id r.id l.entries) (duplicate lineno)
        refuse (ltb uint32_max total) (tickets_exceed lineno)
        refuse (if mem.node then false else true) (no_memory lineno)
        ok (record {
          entries =
              l.entries
              ++ record {
                id = r.id;
                tickets = r.tickets;
                work_units = r.work_units;
                task =
                    task_create mem.task mem.mutex r.id r.tickets r.work_units
                      (fl.narrow r.fraction);
              }
                ∷ [];
          n = l.n + 1;
          total_tickets = total;
        })

  -- The body of the loop for a line that is not empty.
  unfoldable pub load_line : ℕ → Memory → Scanned → Loading → Result Loading
  load_line lineno mem s l = do
    refuse (leb max_tasks l.n) (too_many lineno)
    r ← check_fields lineno s
    add_row lineno mem r l

  module _ (scan : List ℕ → Scanned) (memory : ℕ → Memory) where
    -- The loop over the lines below the header; `lineno` is that of the line before.
    unfoldable pub load_lines : ℕ → List (List ℕ) → Loading → Result Loading
    load_lines lineno [] l = ok l
    load_lines lineno (c ∷ cs) l =
        let line = strip c in
        let skipped = load_lines (suc lineno) cs l in
        let loaded =
          load_line (suc lineno) (memory (suc lineno)) (scan line) l
          >>= load_lines (suc lineno) cs in
        if is_empty line then skipped else loaded

    -- `opened` is the outcome of `fopen`, with the lines that `fgets` will give. With an error the
    -- list that the caller sees is empty.
    unfoldable pub parser_load : Option (List (List ℕ)) → Result (List Entry)
    parser_load none = err cannot_open
    parser_load (some []) = err no_header
    parser_load (some (header ∷ lines)) = do
      l ← load_lines 1 lines (record { entries = []; n = 0; total_tickets = 0 })
      refuse (ltb l.n min_tasks) (too_few l.n)
      ok l.entries
