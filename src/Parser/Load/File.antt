-- ===== src/Parser/Load/File.antt =====
-- The whole file: exactly which files the loader accepts, and the list that it makes of them.
use soa_p1_grupo_cu.Base.{ltb→ge}
use mathlib.Core.List.{append-nil, append_assoc}
use soa_p1_grupo_cu.Base.{
  ℕ, ◌+◌, ◌≤◌, ◌≡◌, ◌≢◌, ◌↔◌, refl, sym, ap, ◌∙◌, false, some, List, [], ◌∷◌, ◌++◌, map, ltb,
  uint32_max, arith, length, All, ge→ltb,
}
use soa_p1_grupo_cu.Base.Float.{Floats}
use soa_p1_grupo_cu.Parser.Load.{
  ok, Scanned, Row, Entry, Loading, has_id, load_lines, parser_load, max_tasks, min_tasks, too_few,
}
use soa_p1_grupo_cu.Parser.Load.Rows.{refused}
use soa_p1_grupo_cu.Parser.Load.Accepts.{
  plenty, entry_of, push, Holds, MayAll, push_all, bound, loop-Holds, Holds-loop,
}

ok-injective : {A : Type 0} {a b : A} → ok a ≡ ok b → a ≡ b
ok-injective h = cc

module _ ⦃fl : Floats⦄ where
  abbrev pub ticket_sum : List Row → ℕ
  ticket_sum [] = 0
  ticket_sum (r ∷ rs) = r.tickets + ticket_sum rs

  -- No two rows have the same id.
  abbrev pub Distinct : List Row → Type 0
  Distinct [] = Unit
  Distinct (r ∷ rs) = All (λ (q : Row). r.id ≢ q.id) rs × Distinct rs

  has_id-snoc :
      (id : ℕ) (es : List Entry) (e : Entry)
      → has_id id es ≡ false
      → e.id ≢ id
      → has_id id (es ++ e ∷ []) ≡ false
  unfolding has_id
  has_id-snoc id [] e old new = ground arith
  has_id-snoc id (x ∷ es) e old new = ground (arith, has_id-snoc id es e)

  snoc-has_id :
      (id : ℕ) (es : List Entry) (e : Entry)
      → has_id id (es ++ e ∷ []) ≡ false
      → (has_id id es ≡ false) × (e.id ≢ id)
  unfolding has_id
  snoc-has_id id [] e h = ground arith
  snoc-has_id id (x ∷ es) e h = ground (arith, snoc-has_id id es e)

  abbrev Fresh : List Entry → Row → Type 0
  Fresh es r = has_id r.id es ≡ false

  Fresh-push :
      (es : List Entry) (r : Row) (rs : List Row)
      → All (Fresh es) rs
      → All (λ (q : Row). r.id ≢ q.id) rs
      → All (Fresh (es ++ entry_of r ∷ [])) rs
  Fresh-push es r [] old new = tt
  Fresh-push es r (q ∷ rs) old new =
      (has_id-snoc q.id es (entry_of r) old.0 new.0, Fresh-push es r rs old.1 new.1)

  push-Fresh :
      (es : List Entry) (r : Row) (rs : List Row)
      → All (Fresh (es ++ entry_of r ∷ [])) rs
      → All (Fresh es) rs × All (λ (q : Row). r.id ≢ q.id) rs
  push-Fresh es r [] h = (tt, tt)
  push-Fresh es r (q ∷ rs) h =
      let (old, new) = snoc-has_id q.id es (entry_of r) h.0 in
      let (olds, news) = push-Fresh es r rs h.1 in ((old, olds), (new, news))

  -- What may follow a state of the loading, without its steps.
  record Follows (l : Loading) (rs : List Row) : Type 0 where
    room : l.n + length rs ≤ max_tasks
    bounded : l.total_tickets + ticket_sum rs ≤ uint32_max
    fresh : All (Fresh l.entries) rs
    distinct : Distinct rs

  Follows-MayAll : (rs : List Row) (l : Loading) → Follows l rs → MayAll l rs
  Follows-MayAll [] l f = tt
  Follows-MayAll (r ∷ rs) l f = (
    record { room = omega (arith, f.room); fresh = f.fresh.0; bounded = omega (arith, f.bounded) },
    Follows-MayAll rs (push l r) (record {
      room = omega (arith, f.room);
      bounded = omega (arith, f.bounded);
      fresh = Fresh-push l.entries r rs f.fresh.1 f.distinct.0;
      distinct = f.distinct.1;
    }),
  )

  MayAll-Follows :
      (rs : List Row) (l : Loading)
      → l.n ≤ max_tasks
      → l.total_tickets ≤ uint32_max
      → MayAll l rs
      → Follows l rs
  MayAll-Follows [] l n t m = record {
    room = omega arith;
    bounded = omega arith;
    fresh = tt;
    distinct = tt;
  }
  MayAll-Follows (r ∷ rs) l n t (m, ms) =
      let f = MayAll-Follows rs (push l r) (omega (arith, m.room)) m.bounded ms in
      let (old, new) = push-Fresh l.entries r rs f.fresh in
      record {
        room = omega (arith, f.room);
        bounded = omega (arith, f.bounded);
        fresh = (m.fresh, old);
        distinct = (new, f.distinct);
      }

  push_all-entries :
      (rs : List Row) (l : Loading) → (push_all l rs).entries ≡ l.entries ++ map entry_of rs
  push_all-entries [] l = sym (append-nil l.entries)
  push_all-entries (r ∷ rs) l =
      push_all-entries rs (push l r) ∙ append_assoc l.entries (entry_of r ∷ []) (map entry_of rs)

  push_all-n : (rs : List Row) (l : Loading) → (push_all l rs).n ≡ l.n + length rs
  push_all-n [] l = omega arith
  push_all-n (r ∷ rs) l = omega (arith, push_all-n rs (push l r))

  -- A file that the loader should accept, below its header, and the list for it.
  pub record Accepted (scan : List ℕ → Scanned) (lines : List (List ℕ)) (es : List Entry)
      : Type 0 where
    pub rows : List Row
    pub held : Holds scan lines rows
    pub made : es ≡ map entry_of rows
    pub distinct : Distinct rows
    pub bounded : ticket_sum rows ≤ uint32_max
    pub enough : min_tasks ≤ length rows
    pub not_more : length rows ≤ max_tasks

  abbrev nothing : Loading
  nothing = record { entries = []; n = 0; total_tickets = 0 }

  All-Fresh : (rs : List Row) → All (Fresh []) rs
  unfolding has_id
  All-Fresh [] = tt
  All-Fresh (r ∷ rs) = (refl, All-Fresh rs)

  load-Accepted :
      (scan : List ℕ → Scanned) (header : List ℕ) (lines : List (List ℕ)) (es : List Entry)
      → parser_load scan (λ _. plenty) (some (header ∷ lines)) ≡ ok es
      → Accepted scan lines es
  unfolding parser_load
  load-Accepted scan header lines es h =
      let (l, looped, h1) = bound (load_lines scan (λ _. plenty) 1 lines nothing) _ h in
      let (some_rows, h2) = refused (ltb l.n min_tasks) (too_few l.n) (ok l.entries) h1 in
      let (rs, held, may, last) = loop-Holds scan 1 lines nothing l (omega arith) looped in
      let f = MayAll-Follows rs nothing (omega arith) (omega arith) may in
      record {
        rows = rs;
        held = held;
        made =
            sym (ok-injective h2)
            ∙ ap (λ (x : Loading). x.entries) last
            ∙ push_all-entries rs nothing;
        distinct = f.distinct;
        bounded = omega (arith, f.bounded);
        enough = omega (
          arith,
          ltb→ge l.n min_tasks some_rows,
          ap (λ (x : Loading). x.n) last,
          push_all-n rs nothing,
        );
        not_more = omega (arith, f.room);
      }

  Accepted-load :
      (scan : List ℕ → Scanned) (header : List ℕ) (lines : List (List ℕ)) (es : List Entry)
      → Accepted scan lines es
      → parser_load scan (λ _. plenty) (some (header ∷ lines)) ≡ ok es
  unfolding parser_load
  Accepted-load scan header lines es a =
      let may = Follows-MayAll a.rows nothing (record {
        room = omega (arith, a.not_more);
        bounded = omega (arith, a.bounded);
        fresh = All-Fresh a.rows;
        distinct = a.distinct;
      }) in
      let count : min_tasks ≤ (push_all nothing a.rows).n =
        omega (arith, push_all-n a.rows nothing, a.enough) in
      rw (Holds-loop scan 1 nothing a.held may, ge→ltb _ min_tasks count)
        (ap ok (push_all-entries a.rows nothing ∙ sym a.made))

  -- With memory for everything, `parser_load` accepts a file that opens and has a header exactly if
  -- each line below that is not empty holds an id, tickets and work units from 1 to `UINT32_MAX`,
  -- and no fraction or one that the tests for at most 0, above 1 and below 0.1 let pass, there are
  -- from 5 to 25 such lines, their ids differ and their tickets add up to at most `UINT32_MAX`; the
  -- list has a node for each such line, in the order of the file, with a new task of its numbers.
  pub load_iff :
      (scan : List ℕ → Scanned) (header : List ℕ) (lines : List (List ℕ)) (es : List Entry)
      → (parser_load scan (λ _. plenty) (some (header ∷ lines)) ≡ ok es) ↔ Accepted scan lines es
  load_iff scan header lines es =
      (load-Accepted scan header lines es, Accepted-load scan header lines es)
