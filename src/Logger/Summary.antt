-- ===== src/Logger/Summary.antt =====
-- src/logger.c: what `logger_write_summary` leaves in the file of the summary.
use mathlib.Core.List.{append-nil, append_assoc}
use soa_p1_grupo_cu.Base.{
  ℕ, ◌+◌, ◌^◌, ◌<◌, ◌≡◌, refl, sym, ap, ◌∙◌, true, Option, none, some, List, [], ◌∷◌, ◌++◌, arith,
}
use soa_p1_grupo_cu.Base.Float.{Floats}
use soa_p1_grupo_cu.Task.{Task}
use soa_p1_grupo_cu.Logger.Files.{FilePath, FileSystem, IsFileSystem}
use soa_p1_grupo_cu.Logger.{
  Piece, header, Logger, total_from, summary_row, print_rows, logger_write_summary,
}

module _ ⦃fl : Floats⦄ where
  -- The units done by all the tasks together.
  abbrev pub units_done : List (Option Task) → ℕ
  units_done [] = 0
  units_done (none ∷ ts) = units_done ts
  units_done (some t ∷ ts) = t.work_units_done + units_done ts

  -- A row for each task, in order.
  abbrev pub rows_of : ℕ → List (Option Task) → List Piece
  rows_of total [] = []
  rows_of total (none ∷ ts) = rows_of total ts
  rows_of total (some t ∷ ts) = summary_row total t ∷ rows_of total ts

  total_from-units :
      (done : ℕ) (ts : List (Option Task))
      → done + units_done ts < 2 ^ 64
      → total_from done ts ≡ done + units_done ts
  unfolding total_from
  total_from-units done [] fits = omega arith
  total_from-units done (none ∷ ts) fits = total_from-units done ts fits
  total_from-units done (some t ∷ ts) fits =
      ground (arith, total_from-units (done + t.work_units_done) ts)

  module _ (F : FileSystem Piece) (laws : IsFileSystem F) where
    -- From `s` to `s'` the file at `p` has got the text `xs`, and none apart from it has changed.
    pub record Written (s s' : F.State) (p : FilePath) (xs : List Piece) : Type 0 where
      pub content : laws.content s' p ≡ some xs
      pub others : (q : FilePath) → laws.Apart q p → laws.content s' q ≡ laws.content s q

    rows-Written :
        (total : ℕ) (p : FilePath) (ts : List (Option Task)) (s t : F.State) (xs : List Piece)
        → Written s t p xs
        → Written s (print_rows F total p ts t) p (xs ++ rows_of total ts)
    unfolding print_rows
    rows-Written total p [] s t xs h = record {
      content = h.content ∙ ap some (sym (append-nil xs));
      others = h.others;
    }
    rows-Written total p (none ∷ ts) s t xs h = rows-Written total p ts s t xs h
    rows-Written total p (some task ∷ ts) s t xs h =
        let row = summary_row total task in
        let rest = rows-Written total p ts s (F.print t p row) (xs ++ row ∷ []) (record {
          content = laws.print_content t p row xs h.content;
          others = λ q o. laws.print_other t p q row o ∙ h.others q o;
        }) in
        record {
          content = rest.content ∙ ap some (append_assoc xs (row ∷ []) (rows_of total ts));
          others = rest.others;
        }

    -- If the file of the summary can be written, `logger_write_summary` of a list that is not empty
    -- returns `true` and leaves in the file, whatever it held, the header and then a row for each
    -- task, in order, whose share is of the units that all the tasks did together, as long as
    -- those fit `uint64_t`; no file apart from it changes.
    pub write_summary-Written :
        (l : Logger) (t : Option Task) (ts : List (Option Task)) (s : F.State)
        → laws.writable s l.summary_log_file_path ≡ true
        → units_done (t ∷ ts) < 2 ^ 64
        → (s' : F.State) × (logger_write_summary F l (t ∷ ts) s ≡ (s', true))
          × Written s s' l.summary_log_file_path (header ∷ rows_of (units_done (t ∷ ts)) (t ∷ ts))
    unfolding logger_write_summary
    write_summary-Written l t ts s w fits =
        let p = l.summary_log_file_path in
        let (u, opened) = laws.opens_w s p w in
        let total : total_from 0 (t ∷ ts) ≡ units_done (t ∷ ts) =
          total_from-units 0 (t ∷ ts) (omega arith) ∙ omega arith in
        (
          _,
          rw (opened, logger_write_summary, total) refl,
          rows-Written (units_done (t ∷ ts)) p (t ∷ ts) s (F.print u p header) (header ∷ [])
              (record {
                content = laws.print_content u p header [] (laws.open_w_content s u p opened);
                others =
                    λ q o. laws.print_other u p q header o ∙ laws.open_w_other s u p q opened o;
              }),
        )
