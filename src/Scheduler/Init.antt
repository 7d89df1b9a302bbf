-- ===== src/Scheduler/Init.antt =====
-- src/scheduler.c: `scheduler_init`. `pthread_create` is not code of the repository: whether the
-- call for a node succeeds is an argument.
use soa_p1_grupo_cu.Parser.Load.{strip}
use soa_p1_grupo_cu.Base.{get_elem?, ◌==◌}
use mathlib.Core.Path.{subst}
use soa_p1_grupo_cu.Base.{
  ℕ, zero, suc, ◌≤◌, ◌<◌, ◌≡◌, refl, sym, ap, Bool, true, false, Option, none, some, List, [], ◌∷◌,
  map, arith, if◌then◌else◌, ltb, All, length, inl, inr, Bool-cases, lt→ltb, ge→ltb,
}
use soa_p1_grupo_cu.Base.Float.{Floats, IsIeee}
use soa_p1_grupo_cu.Rng.{rng_xorshift32_seed}
use soa_p1_grupo_cu.Task.{Node}
use soa_p1_grupo_cu.Parser.Load.{
  Result, ok, err, Scanned, Row, Entry, row_of, below_tenth, parser_load,
}
use soa_p1_grupo_cu.Parser.Load.Accepts.{plenty, entry_of, Holds, done, blank, line}
use soa_p1_grupo_cu.Parser.Load.File.{Accepted, load_iff}
use soa_p1_grupo_cu.Parser.Load.Rows.{Reads-IsValidLine}
use soa_p1_grupo_cu.Scheduler.Start.{Passed, new_node, new-IsNode}
use soa_p1_grupo_cu.Scheduler.Round.{IsNode}

abbrev pub max_task_threads : ℕ
max_task_threads = 26

module _ ⦃fl : Floats⦄ where
  -- `fault` is a write past the end of `threads_per_task`, or a worker that reads through a NULL
  -- task: C leaves open what follows.
  pub data Init : Type 0 where
    started : (nodes : List Node) (rng : ℕ) → Init
    failed : Init
    fault : Init

  -- The node of an entry, as the worker reads it; `none` for a NULL task.
  unfoldable pub node_of_entry : Entry → Option Node
  node_of_entry e = elim e.task [
    | none ↦ none
    | some t ↦ some (record { id = e.id; tickets = e.tickets; work_units = e.work_units; task = t })
  ]

  -- A node more in front.
  abbrev pub cons_started : Node → Init → Init
  cons_started n (started ns rng) = started (n ∷ ns) rng
  cons_started n failed = failed
  cons_started n fault = fault

  module _ (creates : ℕ → Bool) (rng : ℕ) where
    -- The loop that makes a thread for each node, in the slot of its id.
    unfoldable pub create_threads : List Entry → Init
    create_threads [] = started [] rng
    create_threads (e ∷ es) =
        let rest = create_threads es in
        if ltb e.id max_task_threads
        then (if creates e.id
            then elim (node_of_entry e) [ none ↦ fault | some n ↦ cons_started n rest ]
            else failed)
        else fault

  unfoldable pub scheduler_init : (ℕ → Bool) → Result (List Entry) → ℕ → Init
  scheduler_init creates (err e) rng_seed = failed
  scheduler_init creates (ok es) rng_seed =
      create_threads creates (rng_xorshift32_seed rng_seed).0 es

  abbrev pub node_of_row : Row → Node
  node_of_row r = new_node r.id r.tickets r.work_units (fl.narrow r.fraction)

  abbrev pub SlotFits : Row → Type 0
  SlotFits r = r.id < max_task_threads

  create_threads-started :
      (creates : ℕ → Bool) (rng : ℕ)
      → ((id : ℕ) → creates id ≡ true)
      → (rs : List Row) → All SlotFits rs
      → create_threads creates rng (map entry_of rs) ≡ started (map node_of_row rs) rng
  unfolding create_threads node_of_entry
  create_threads-started creates rng all [] fit = refl
  create_threads-started creates rng all (r ∷ rs) (f, fs) =
      rw (lt→ltb r.id max_task_threads f, all r.id)
        (ap (cons_started (node_of_row r)) (create_threads-started creates rng all rs fs))

  create_threads-fault :
      (creates : ℕ → Bool) (rng : ℕ)
      → ((id : ℕ) → creates id ≡ true)
      → (rs : List Row) (i : ℕ) (r : Row) → get_elem? rs i ≡ some r
      → max_task_threads ≤ r.id
      → create_threads creates rng (map entry_of rs) ≡ fault
  unfolding create_threads node_of_entry
  create_threads-fault creates rng all [] i r at big = absurd (cc)
  create_threads-fault creates rng all (q ∷ rs) zero r at big =
      let same : q ≡ r = ground arith in
      let out : ltb q.id max_task_threads ≡ false =
        ge→ltb q.id max_task_threads (rw (ap (λ (x : Row). x.id) same) big) in
      rw out refl
  create_threads-fault creates rng all (q ∷ rs) (suc i) r at big =
      elim (Bool-cases (ltb q.id max_task_threads)) [
        | inl fits ↦
            rw (fits, all q.id)
              (ap (cons_started (node_of_row q))
                (create_threads-fault creates rng all rs i r at big))
        | inr out ↦ rw out refl
      ]

  -- The list that the scheduler starts with satisfies what the main loop needs of it.
  pub record IsReady (nodes : List Node) : Type 0 where
    pub nodes_fit : All IsNode nodes
    pub few : length nodes ≤ 25

  row-Passed :
      IsIeee fl → (s : Scanned) → below_tenth s ≡ false → Passed (fl.narrow (row_of s).fraction)
  row-Passed ieee s small pos = elim (Bool-cases (s.fields == 4)) [
    | inl four ↦ ieee.narrow_tenth (row_of s).fraction (ground arith) pos
    | inr three ↦
        let one : (row_of s).fraction ≡ fl.double 1 = rw three refl in
        rw (one, ieee.narrow_one) ieee.tenth-le-one
  ]

  Holds-IsNode :
      IsIeee fl
      → (scan : List ℕ → Scanned) {cs : List (List ℕ)} {rs : List Row} → Holds scan cs rs
      → All IsNode (map node_of_row rs)
  Holds-IsNode ieee scan done = tt
  Holds-IsNode ieee scan (blank e h) = Holds-IsNode ieee scan h
  Holds-IsNode ieee scan (line {c} {r = r} e rd h) =
      let s = scan (strip c) in
      let (v, same) = Reads-IsValidLine s r rd in
      let (ti, (tp, ts)) = v.tickets in
      let (wi, (wp, ws)) = v.work_units in
      (
        subst (λ r. IsNode (node_of_row r)) (sym same)
            (new-IsNode ieee (row_of s).id (row_of s).tickets (row_of s).work_units _
              (row-Passed ieee s v.not_small) tp (omega arith) wp (omega arith)),
        Holds-IsNode ieee scan h,
      )

  length-map_nodes : (rs : List Row) → length (map node_of_row rs) ≡ length rs
  length-map_nodes [] = refl
  length-map_nodes (r ∷ rs) = ap suc (length-map_nodes rs)

  module _ (creates : ℕ → Bool) (all : (id : ℕ) → creates id ≡ true) (scan : List ℕ → Scanned)
      (header : List ℕ) (lines : List (List ℕ)) (seed : ℕ) where
    -- If the floating point numbers are as `IsIeee` says: from a file that `Accepted` describes,
    -- all of whose ids fit the table of threads, and with memory and threads for everything,
    -- `scheduler_init` starts with a node for each line, seeded, and the nodes satisfy the
    -- invariant of the main loop.
    pub init-IsReady :
        IsIeee fl
        → (es : List Entry) (a : Accepted scan lines es) → All SlotFits a.rows
        → (scheduler_init creates (parser_load scan (λ _. plenty) (some (header ∷ lines))) seed
            ≡ started (map node_of_row a.rows) seed)
          × IsReady (map node_of_row a.rows)
    unfolding scheduler_init rng_xorshift32_seed
    init-IsReady ieee es a fit = (
      rw (((load_iff scan header lines es).1 a), a.made)
          (create_threads-started creates seed all a.rows fit),
      record {
        nodes_fit = Holds-IsNode ieee scan a.held;
        few = omega (arith, length-map_nodes a.rows, a.not_more);
      },
    )

    -- With memory and threads for everything, from a file that the loader accepts with an id of 26
    -- or more, `scheduler_init` writes past the
    -- end of the table of threads.
    pub init-fault :
        (es : List Entry) (a : Accepted scan lines es) (i : ℕ) (r : Row)
        → get_elem? a.rows i ≡ some r
        → max_task_threads ≤ r.id
        → scheduler_init creates (parser_load scan (λ _. plenty) (some (header ∷ lines))) seed
          ≡ fault
    unfolding scheduler_init
    init-fault es a i r at big =
        rw (((load_iff scan header lines es).1 a), a.made)
          (create_threads-fault creates _ all a.rows i r at big)
