-- ===== src/Parser/Load/Accepts.antt =====
-- The loop over the lines, against the rows that they hold.
use soa_p1_grupo_cu.Base.{lt→leb}
use mathlib.Core.Path.{subst}
use soa_p1_grupo_cu.Base.{
  ℕ, suc, ◌+◌, ◌≤◌, ◌<◌, ◌≡◌, refl, true, false, some, List, [], ◌∷◌, ◌++◌, ltb, leb, u64,
  uint32_max, arith, Bool-cases, inl, inr,
}
use soa_p1_grupo_cu.Base.Float.{Floats}
use soa_p1_grupo_cu.Task.{task_create, new_task}
use soa_p1_grupo_cu.Parser.Load.{
  Result, ok, err, ◌>>=◌, strip, is_empty, Scanned, Row, Entry, Memory, Loading, row_of,
  check_fields, has_id, add_row, load_line, load_lines, max_tasks,
}
use soa_p1_grupo_cu.Parser.Load.Rows.{
  IsValidLine, check_fields-IsValidLine, IsValidLine-check_fields, refused, Reads,
  Reads-IsValidLine, IsValidLine-Reads,
}

module _ ⦃fl : Floats⦄ where
  -- Memory for everything.
  abbrev pub plenty : Memory
  plenty = record { task = true; mutex = true; node = true }

  -- The node that the loader makes of a line.
  abbrev pub entry_of : Row → Entry
  entry_of r = record {
    id = r.id;
    tickets = r.tickets;
    work_units = r.work_units;
    task = some (new_task r.id r.tickets r.work_units (fl.narrow r.fraction));
  }

  abbrev pub push : Loading → Row → Loading
  push l r = record {
    entries = l.entries ++ entry_of r ∷ [];
    n = l.n + 1;
    total_tickets = l.total_tickets + r.tickets;
  }

  -- A further line may follow what has been loaded.
  pub record May (l : Loading) (r : Row) : Type 0 where
    pub room : l.n < max_tasks
    pub fresh : has_id r.id l.entries ≡ false
    pub bounded : l.total_tickets + r.tickets ≤ uint32_max

  add_row-May :
      (k : ℕ) (r : Row) (l l' : Loading)
      → l.total_tickets ≤ uint32_max
      → r.tickets ≤ uint32_max
      → l.n < max_tasks
      → add_row k plenty r l ≡ ok l'
      → May l r × (l' ≡ push l r)
  unfolding add_row task_create
  add_row-May k r l l' small fits room h =
      let (a, h1) = refused (has_id r.id l.entries) _ _ h in
      let (b, h2) = refused (ltb uint32_max (u64 (l.total_tickets + r.tickets))) _ _ h1 in
      (record { room = room; fresh = a; bounded = ground arith }, ground arith)

  May-add_row : (k : ℕ) (r : Row) (l : Loading) → May l r → add_row k plenty r l ≡ ok (push l r)
  unfolding add_row task_create
  May-add_row k r l m = ground arith

  -- A step that comes before a success was one itself.
  pub bound :
      {A B : Type 0} (m : Result A) (rest : A → Result B) {last : B}
      → (m >>= rest) ≡ ok last
      → (first : A) × (m ≡ ok first) × (rest first ≡ ok last)
  bound (err e) rest failed = absurd (cc)
  bound (ok first) rest whole = (first, refl, whole)

  load_line-May :
      (k : ℕ) (s : Scanned) (l l' : Loading)
      → l.total_tickets ≤ uint32_max
      → load_line k plenty s l ≡ ok l'
      → IsValidLine s × May l (row_of s) × (l' ≡ push l (row_of s))
  unfolding load_line
  load_line-May k s l l' small h =
      let (a, h1) = refused (leb max_tasks l.n) _ _ h in
      let (r, e, h2) = bound (check_fields k s) _ h1 in
      let (v, same) = check_fields-IsValidLine k s r e in
      let (m, pushed) =
        add_row-May k (row_of s) l l' small v.tickets.1.1 (ground arith)
          (subst (λ x. add_row k plenty x l ≡ ok l') same h2) in
      (v, m, pushed)

  May-load_line :
      (k : ℕ) (s : Scanned) (l : Loading)
      → IsValidLine s
      → May l (row_of s)
      → load_line k plenty s l ≡ ok (push l (row_of s))
  unfolding load_line
  May-load_line k s l v m =
      rw (lt→leb l.n max_tasks m.room, IsValidLine-check_fields k s v)
        (May-add_row k (row_of s) l m)

  module _ (scan : List ℕ → Scanned) where
    -- The lines of a file with the rows that they hold, in order: an empty line holds none.
    pub data Holds : List (List ℕ) → List Row → Type 0 where
      done : Holds [] []
      blank :
          {c : List ℕ} {cs : List (List ℕ)} {rs : List Row}
          → is_empty (strip c) ≡ true
          → Holds cs rs
          → Holds (c ∷ cs) rs
      line :
          {c : List ℕ} {cs : List (List ℕ)} {r : Row} {rs : List Row}
          → is_empty (strip c) ≡ false
          → Reads (scan (strip c)) r
          → Holds cs rs
          → Holds (c ∷ cs) (r ∷ rs)

  -- The rows may follow one after another what has been loaded, and this is what they make.
  abbrev pub MayAll : Loading → List Row → Type 0
  MayAll l [] = Unit
  MayAll l (r ∷ rs) = May l r × MayAll (push l r) rs

  abbrev pub push_all : Loading → List Row → Loading
  push_all l [] = l
  push_all l (r ∷ rs) = push_all (push l r) rs

  module _ (scan : List ℕ → Scanned) where
    abbrev pub loop : ℕ → List (List ℕ) → Loading → Result Loading
    loop = load_lines scan (λ _. plenty)

    pub loop-Holds :
        (k : ℕ) (cs : List (List ℕ)) (l l' : Loading)
        → l.total_tickets ≤ uint32_max
        → loop k cs l ≡ ok l'
        → (rs : List Row) × Holds scan cs rs × MayAll l rs × (l' ≡ push_all l rs)
    unfolding load_lines
    loop-Holds k [] l l' small h = ([], done, tt, ground arith)
    loop-Holds k (c ∷ cs) l l' small h = elim (Bool-cases (is_empty (strip c))) [
      | inl e ↦
          let (rs, held, may, last) = loop-Holds (suc k) cs l l' small (rw e at h) in
          (rs, blank e held, may, last)
      | inr e ↦
          let (m, first, rest) =
            bound (load_line (suc k) plenty (scan (strip c)) l) _ (rw e at h) in
          let (v, may1, pushed) = load_line-May (suc k) (scan (strip c)) l m small first in
          let r = row_of (scan (strip c)) in
          let (rs, held, may, last) =
            loop-Holds (suc k) cs (push l r) l' may1.bounded
              (subst (λ x. loop (suc k) cs x ≡ ok l') pushed rest) in
          (r ∷ rs, line e (IsValidLine-Reads (scan (strip c)) v) held, (may1, may), last)
    ]

    pub Holds-loop :
        (k : ℕ) {cs : List (List ℕ)} {rs : List Row} (l : Loading)
        → Holds scan cs rs
        → MayAll l rs
        → loop k cs l ≡ ok (push_all l rs)
    unfolding load_lines
    Holds-loop k l done may = refl
    Holds-loop k l (blank e held) may = rw e (Holds-loop (suc k) l held may)
    Holds-loop k l (line {c} {cs} {r} {rs} e rd held) (may1, may) =
        let (v, same) = Reads-IsValidLine (scan (strip c)) r rd in
        rw (e, May-load_line (suc k) (scan (strip c)) l v (subst (May l) same may1))
          (subst (λ x. loop (suc k) cs (push l x) ≡ ok (push_all (push l r) rs)) same
            (Holds-loop (suc k) (push l r) held may))
