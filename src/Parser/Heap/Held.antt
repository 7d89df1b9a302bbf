-- ===== src/Parser/Heap/Held.antt =====
-- src/parser.c: how the list and the tasks in memory stand for the entries of `Parser.Load`.
use soa_p1_grupo_cu.Base.{
  ℕ, ◌≡◌, ◌≢◌, ◌≤◌, ◌<◌, refl, sym, ap, ◌∙◌, Bool, true, false, Option, none, some, List, [], ◌∷◌,
  ◌++◌, All, length, ◌==◌, Bool-cases, inl, inr, arith, ◌⊎◌,
}
use soa_p1_grupo_cu.Base.Float.{Floats}
use soa_p1_grupo_cu.Task.{Task}
use soa_p1_grupo_cu.LinkedList.Segments.{Item, IsList}
use soa_p1_grupo_cu.LinkedList.Operations.{snoc, find_item}
use soa_p1_grupo_cu.Parser.Load.{Entry, Loading, has_id}
use soa_p1_grupo_cu.Parser.Heap.{Places, null, Tasks, write, created, Store}

module _ ⦃fl : Floats⦄ where
  -- The pointer to a task that is there, or NULL.
  abbrev pub PointsTo : Tasks → ℕ → Option Task → Type 0
  PointsTo ts a none = a ≡ null
  PointsTo ts a (some t) = ts a ≡ some t

  pub record Stands (ts : Tasks) (i : Item) (e : Entry) : Type 0 where
    pub id : i.id ≡ e.id
    pub tickets : i.tickets ≡ e.tickets
    pub work_units : i.work_units ≡ e.work_units
    pub task : PointsTo ts i.data_at e.task

  abbrev pub StandAll : Tasks → List Item → List Entry → Type 0
  StandAll ts [] [] = Unit
  StandAll ts [] (e ∷ es) = ⊥
  StandAll ts (i ∷ rest) [] = ⊥
  StandAll ts (i ∷ rest) (e ∷ es) = Stands ts i e × StandAll ts rest es

  -- The search in the list finds an id when the one in the entries does.
  abbrev pub is_there : Option ℕ → Bool
  is_there none = false
  is_there (some a) = true

  pub has_id-find_item :
      (ts : Tasks) (id : ℕ) (items : List Item) (es : List Entry)
      → StandAll ts items es
      → has_id id es ≡ is_there (find_item id items)
  unfolding has_id
  has_id-find_item ts id [] [] all = refl
  has_id-find_item ts id [] (e ∷ es) all = absurd all
  has_id-find_item ts id (i ∷ rest) [] all = absurd all
  has_id-find_item ts id (i ∷ rest) (e ∷ es) (here, all) = elim (Bool-cases (e.id == id)) [
    | inl same ↦
        let too : (i.id == id) ≡ true = ap (λ k. k == id) here.id ∙ same in rw (same, too) refl
    | inr other ↦
        let too : (i.id == id) ≡ false = ap (λ k. k == id) here.id ∙ other in
        rw (other, too) (has_id-find_item ts id rest es all)
  ]

  -- A task more, at an address that is free, changes none that is there.
  write-PointsTo :
      (ts : Tasks) (b a : ℕ) (t : Task) (o : Option Task)
      → ts a ≡ none
      → PointsTo ts b o
      → PointsTo (write a (some t) ts) b o
  write-PointsTo ts b a t none free at = at
  write-PointsTo ts b a t (some u) free at = elim (Bool-cases (a == b)) [
    | inl same ↦ let place : a ≡ b = ground arith in absurd (cc (free, at, ap ts place))
    | inr other ↦ rw other at
  ]

  pub write-StandAll :
      (ts : Tasks) (a : ℕ) (t : Task) (items : List Item) (es : List Entry)
      → ts a ≡ none
      → StandAll ts items es
      → StandAll (write a (some t) ts) items es
  write-StandAll ts a t [] [] free all = tt
  write-StandAll ts a t [] (e ∷ es) free all = absurd all
  write-StandAll ts a t (i ∷ rest) [] free all = absurd all
  write-StandAll ts a t (i ∷ rest) (e ∷ es) free (here, all) = (
    record {
      id = here.id;
      tickets = here.tickets;
      work_units = here.work_units;
      task = write-PointsTo ts i.data_at a t e.task free here.task;
    },
    write-StandAll ts a t rest es free all,
  )

  pub StandAll-snoc :
      (ts : Tasks) (items : List Item) (es : List Entry) (i : Item) (e : Entry)
      → StandAll ts items es
      → Stands ts i e
      → StandAll ts (snoc items i) (es ++ e ∷ [])
  StandAll-snoc ts [] [] i e all here = (here, tt)
  StandAll-snoc ts [] (e' ∷ es) i e all here = absurd all
  StandAll-snoc ts (j ∷ rest) [] i e all here = absurd all
  StandAll-snoc ts (j ∷ rest) (e' ∷ es) i e (first, all) here =
      (first, StandAll-snoc ts rest es i e all here)

  -- Nothing is in memory but the list and its tasks, and perhaps a task at a place.
  pub record Only (s : Store) (items : List Item) (Spare : ℕ → Type 0) : Type 0 where
    pub nodes : (b : ℕ) → All (λ (j : Item). j.at ≢ b) items → s.list.heap b ≡ none
    pub tasks : (b : ℕ) → All (λ (j : Item). j.data_at ≢ b) items → (s.tasks b ≡ none) ⊎ Spare b

  -- Before the line behind `lineno`, the memory stands for what the loop has loaded.
  pub record Held (p : Places) (lineno : ℕ) (l : Loading) (s : Store) (items : List Item)
      : Type 0 where
    pub list : IsList s.list items
    pub entries : StandAll s.tasks items l.entries
    pub counted : s.n ≡ l.n
    pub total : s.total_tickets ≡ l.total_tickets
    pub size : length items ≡ l.n
    pub few : l.n ≤ 25
    pub only : Only s items (λ b. ⊥)
    pub node_free : (k : ℕ) → lineno < k → s.list.heap (p.node_at k) ≡ none
    pub task_free : (k : ℕ) → lineno < k → s.tasks (p.task_at k) ≡ none

  -- The memory at an error: a list, which the caller's clean-up frees.
  pub record Spoilt (s : Store) (Spare : ℕ → Type 0) : Type 0 where
    pub items : List Item
    pub list : IsList s.list items
    pub few : length items ≤ 25
    pub only : Only s items Spare

  -- What storing a new task does.
  pub record Created (ts : Tasks) (a : ℕ) (o : Option Task) (items : List Item) (es : List Entry)
      : Type 0 where
    pub all : StandAll (created a o ts).1 items es
    pub here : PointsTo (created a o ts).1 (created a o ts).0 o
    pub others : (b : ℕ) → b ≢ a → ts b ≡ none → (created a o ts).1 b ≡ none
    pub beyond : (b : ℕ) → (created a o ts).0 ≢ b → ts b ≡ none → (created a o ts).1 b ≡ none

  write-other :
      (ts : Tasks) (a b : ℕ) (t : Task) → b ≢ a → ts b ≡ none → write a (some t) ts b ≡ none
  write-other ts a b t other out = elim (Bool-cases (a == b)) [
    | inl same ↦ absurd (other (ground arith))
    | inr apart ↦ rw apart out
  ]

  pub task-Created :
      (ts : Tasks) (a : ℕ) (o : Option Task) (items : List Item) (es : List Entry)
      → ts a ≡ none
      → StandAll ts items es
      → Created ts a o items es
  task-Created ts a none items es free all = record {
    all = all;
    here = refl;
    others = λ b other out. out;
    beyond = λ b other out. out;
  }
  task-Created ts a (some t) items es free all =
      let self : (a == a) ≡ true = ground arith in
      record {
        all = write-StandAll ts a t items es free all;
        here = rw self refl;
        others = λ b other out. write-other ts a b t other out;
        beyond = λ b other out. write-other ts a b t (λ e. other (sym e)) out;
      }
