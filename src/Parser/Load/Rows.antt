-- ===== src/Parser/Load/Rows.antt =====
-- One line of the file: what the loader accepts, and what it makes of it.
use mathlib.Core.Path.{subst}
use soa_p1_grupo_cu.Parser.Load.{
  fraction_of, outside, below_tenth, oversized, row_of, invalid_format, fraction_range,
  fraction_small, invalid_id, invalid_tickets, invalid_units, out_of_range,
}
use soa_p1_grupo_cu.Base.{ge→ltb}
use soa_p1_grupo_cu.Base.{
  ℕ, zero, suc, ◌≤◌, ◌<◌, ◌≡◌, ◌≢◌, refl, sym, ap, ◌∙◌, ◌==◌, Bool-cases, inl, inr, Bool, true,
  false, ◌||◌, ltb, uint32_max, arith,
}
use soa_p1_grupo_cu.Base.Int.{ℤ, pos, negsuc, not_positive, too_large, to_u32}
use soa_p1_grupo_cu.Base.Float.{Floats}
use soa_p1_grupo_cu.Parser.Load.{Error, Result, ok, ◌>>◌, refuse, Scanned, Row, check_fields}

module _ ⦃fl : Floats⦄ where
  abbrev pub Fits32 : ℕ → Type 0
  Fits32 n = (0 < n) × (n ≤ uint32_max)

  -- What a line must be to pass the tests of the fields.
  pub record IsValidLine (s : Scanned) : Type 0 where
    pub enough : 3 ≤ s.fields
    pub in_unit : outside s ≡ false
    pub not_small : below_tenth s ≡ false
    pub id : (s.id ≡ pos (to_u32 s.id)) × Fits32 (to_u32 s.id)
    pub tickets : (s.tickets ≡ pos (to_u32 s.tickets)) × Fits32 (to_u32 s.tickets)
    pub work_units : (s.work_units ≡ pos (to_u32 s.work_units)) × Fits32 (to_u32 s.work_units)

  pub refused :
      {A : Type 0} (b : Bool) (e : Error) (m : Result A) {a : A}
      → (refuse b e >> m) ≡ ok a
      → (b ≡ false) × (m ≡ ok a)
  refused true e m h = absurd (cc)
  refused false e m h = (refl, h)

  in_range :
      (z : ℤ)
      → not_positive z ≡ false
      → too_large z ≡ false
      → (z ≡ pos (to_u32 z)) × Fits32 (to_u32 z)
  in_range (pos zero) p q = absurd (cc)
  in_range (pos (suc n)) p q = (refl, ground arith)
  in_range (negsuc n) p q = absurd (cc)

  in_range_tests :
      (z : ℤ)
      → (z ≡ pos (to_u32 z)) × Fits32 (to_u32 z)
      → (not_positive z ≡ false) × (too_large z ≡ false)
  in_range_tests (pos zero) (e, (p, q)) = absurd (omega arith)
  in_range_tests (pos (suc n)) (e, (p, q)) = (refl, ground arith)
  in_range_tests (negsuc n) (e, (p, q)) = absurd (omega arith)

  pub check_fields-IsValidLine :
      (lineno : ℕ) (s : Scanned) (r : Row)
      → check_fields lineno s ≡ ok r
      → IsValidLine s × (r ≡ row_of s)
  unfolding check_fields
  check_fields-IsValidLine lineno s r h =
      let (a, h1) = refused (ltb s.fields 3) (invalid_format lineno) _ h in
      let (b, h2) = refused (outside s) (fraction_range lineno) _ h1 in
      let (c, h3) = refused (below_tenth s) (fraction_small lineno) _ h2 in
      let (d, h4) = refused (not_positive s.id) (invalid_id lineno) _ h3 in
      let (e, h5) = refused (not_positive s.tickets) (invalid_tickets lineno) _ h4 in
      let (f, h6) = refused (not_positive s.work_units) (invalid_units lineno) _ h5 in
      let (g, h7) = refused (oversized s) (out_of_range lineno) _ h6 in
      (
        record {
          enough = ground arith;
          in_unit = b;
          not_small = c;
          id = in_range s.id d (ground arith);
          tickets = in_range s.tickets e (ground arith);
          work_units = in_range s.work_units f (ground arith);
        },
        ground arith,
      )

  pub IsValidLine-check_fields :
      (lineno : ℕ) (s : Scanned) → IsValidLine s → check_fields lineno s ≡ ok (row_of s)
  unfolding check_fields
  IsValidLine-check_fields lineno s v =
      let (d, d') = in_range_tests s.id v.id in
      let (e, e') = in_range_tests s.tickets v.tickets in
      let (f, f') = in_range_tests s.work_units v.work_units in
      rw (ge→ltb s.fields 3 v.enough, v.in_unit, v.not_small, d, e, f, d', e', f') refl

  -- A number of a line: positive, and at most 2^32 - 1.
  abbrev pub IsCount : ℤ → ℕ → Type 0
  IsCount z n = (z ≡ pos n) × Fits32 n

  -- Neither 0 or less, nor more than 1, nor less than a tenth; this also holds of what is no number.
  pub record InUnit (d : fl.Double) : Type 0 where
    pub not_zero : fl.le_d d (fl.double 0) ≡ false
    pub not_over : fl.lt_d (fl.double 1) d ≡ false
    pub not_under : fl.lt_d d fl.tenth ≡ false

  -- What is read in a line is the row: an id, tickets and work units, and a fraction, which is 1
  -- where it is not written.
  pub record Reads (s : Scanned) (r : Row) : Type 0 where
    pub enough : 3 ≤ s.fields
    pub id : IsCount s.id r.id
    pub tickets : IsCount s.tickets r.tickets
    pub work_units : IsCount s.work_units r.work_units
    pub written : s.fields ≡ 4 → (r.fraction ≡ s.fraction) × InUnit s.fraction
    pub not_written : s.fields ≢ 4 → r.fraction ≡ fl.double 1

  count-to_u32 : (z : ℤ) (n : ℕ) → IsCount z n → to_u32 z ≡ n
  count-to_u32 z n (e, (p, q)) = ap to_u32 e ∙ omega arith

  IsCount-range : (z : ℤ) (n : ℕ) → IsCount z n → (z ≡ pos (to_u32 z)) × Fits32 (to_u32 z)
  IsCount-range z n (e, fits) =
      let same = count-to_u32 z n (e, fits) in (e ∙ ap pos (sym same), subst Fits32 (sym same) fits)

  written_tests :
      (s : Scanned)
      → (s.fields ≡ 4 → InUnit s.fraction)
      → (outside s ≡ false) × (below_tenth s ≡ false)
  written_tests s unit = elim (Bool-cases (s.fields == 4)) [
    | inl four ↦
        let u = unit (ground arith) in
        (rw (four, u.not_zero, u.not_over) refl, rw (four, u.not_under) refl)
    | inr other ↦ (rw other refl, rw other refl)
  ]

  read_fraction : (s : Scanned) (r : Row) → Reads s r → r.fraction ≡ fraction_of s
  read_fraction s r rd = elim (Bool-cases (s.fields == 4)) [
    | inl four ↦ rw four (rd.written (ground arith)).0
    | inr other ↦ rw other (rd.not_written (λ e. ground (arith, e, other)))
  ]

  pub Reads-IsValidLine : (s : Scanned) (r : Row) → Reads s r → IsValidLine s × (r ≡ row_of s)
  Reads-IsValidLine s r rd =
      let (a, b) = written_tests s (λ four. (rd.written four).1) in
      (
        record {
          enough = rd.enough;
          in_unit = a;
          not_small = b;
          id = IsCount-range s.id r.id rd.id;
          tickets = IsCount-range s.tickets r.tickets rd.tickets;
          work_units = IsCount-range s.work_units r.work_units rd.work_units;
        },
        cc (
          count-to_u32 s.id r.id rd.id,
          count-to_u32 s.tickets r.tickets rd.tickets,
          count-to_u32 s.work_units r.work_units rd.work_units,
          read_fraction s r rd,
        ),
      )

  both_false : (a b : Bool) → (a || b) ≡ false → (a ≡ false) × (b ≡ false)
  both_false true b e = absurd (cc)
  both_false false b e = (refl, e)

  tests_written :
      (s : Scanned)
      → (s.fields == 4) ≡ true
      → outside s ≡ false
      → below_tenth s ≡ false
      → InUnit s.fraction
  tests_written s four out small =
      let (zero_ok, over_ok) =
        both_false (fl.le_d s.fraction (fl.double 0)) (fl.lt_d (fl.double 1) s.fraction)
          (rw four at out) in
      record { not_zero = zero_ok; not_over = over_ok; not_under = rw four at small }

  pub IsValidLine-Reads : (s : Scanned) → IsValidLine s → Reads s (row_of s)
  IsValidLine-Reads s v = record {
    enough = v.enough;
    id = v.id;
    tickets = v.tickets;
    work_units = v.work_units;
    written = λ four.
        let is : (s.fields == 4) ≡ true = ground arith in
        (rw is refl, tests_written s is v.in_unit v.not_small);
    not_written = λ other. let is : (s.fields == 4) ≡ false = ground (arith, other) in rw is refl;
  }
