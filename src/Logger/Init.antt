-- ===== src/Logger/Init.antt =====
-- src/logger.c: `logger_init_structure` as a whole.
use soa_p1_grupo_cu.Base.{
  ℕ, ◌≡◌, ◌<◌, refl, sym, ap, ◌∙◌, Bool, true, false, not, Option, some, List, length,
  if◌then◌else◌, ltb, ◌==◌, arith,
}
use soa_p1_grupo_cu.Base.Text.{take-all}
use soa_p1_grupo_cu.Base.Float.{Floats}
use soa_p1_grupo_cu.Logger.Files.{FilePath, FileSystem, IsFileSystem, or_empty}
use soa_p1_grupo_cu.Logger.{
  Piece, Logger, snprintf, path_text, events_default_path, summary_default_path, path_buff_size,
  logger_fill_events_log_file_path, logger_fill_summary_log_file_path, logger_create_log_tree,
  logger_init_structure,
}
use soa_p1_grupo_cu.Logger.Tree.{IsParent, Created, create_tree-Created}

-- A text below the size of the buffer is kept whole.
snprintf-fits :
    (text : FilePath) → length text < path_buff_size → (snprintf path_buff_size text).0 ≡ text
unfolding snprintf
snprintf-fits text fits = take-all 255 text (omega arith)

-- A test that ends a function with `false` where it fails.
guarded :
    {A : Type 0} (ok : Bool) (x : A) {y : A × Bool} {z : A}
    → (if not ok then (x, false) else y) ≡ (z, true)
    → (ok ≡ true) × (y ≡ (z, true))
guarded true x h = (refl, h)
guarded {A} false x h = absurd (cc (ap (λ (r : A × Bool). r.1) h))

module _ ⦃fl : Floats⦄ (F : FileSystem Piece) (laws : IsFileSystem F) where
  -- The files once they are made: their directories are there, they are there with the text that
  -- they had; no file has another text, and none apart from them has been made.
  pub record Ready (s s' : F.State) (events summary : FilePath) : Type 0 where
    pub events_parents : (d : FilePath) → IsParent F laws events d → laws.present s' d ≡ true
    pub summary_parents : (d : FilePath) → IsParent F laws summary d → laws.present s' d ≡ true
    pub events_file : laws.content s' events ≡ some (or_empty (laws.content s events))
    pub summary_file : laws.content s' summary ≡ some (or_empty (laws.content s summary))
    pub others :
        (q : FilePath)
        → laws.Apart q events
        → laws.Apart q summary
        → laws.content s' q ≡ laws.content s q
    pub texts : (q : FilePath) → or_empty (laws.content s' q) ≡ or_empty (laws.content s q)

  both-Ready :
      (s t s' : F.State) (events summary : FilePath)
      → Created F laws s t summary
      → Created F laws t s' events
      → Ready s s' events summary
  both-Ready s t s' events summary first second = record {
    events_parents = second.parents;
    summary_parents = λ d p. second.keeps d (first.parents d p);
    events_file = second.file ∙ ap some (first.texts events);
    summary_file = second.there summary (or_empty (laws.content s summary)) first.file;
    texts = λ q. second.texts q ∙ first.texts q;
    others = λ q not_events not_summary. second.others q not_events ∙ first.others q not_summary;
  }

  fill_events_lem :
      (day : Option (List ℕ)) (custom : Option FilePath) (l : Logger) (path : FilePath)
      → path_text events_default_path day custom ≡ some path
      → length path < path_buff_size
      → logger_fill_events_log_file_path day custom l
        ≡ (record l { events_log_file_path = path }, not (length path == 0))
  unfolding logger_fill_events_log_file_path snprintf
  fill_events_lem day custom l path e fits =
      rw (e, logger_fill_events_log_file_path, take-all 255 path (omega arith)) refl

  fill_summary_lem :
      (day : Option (List ℕ)) (custom : Option FilePath) (l : Logger) (path : FilePath)
      → path_text summary_default_path day custom ≡ some path
      → length path < path_buff_size
      → logger_fill_summary_log_file_path day custom l
        ≡ (record l { summary_log_file_path = path }, ltb 0 (length path))
  unfolding logger_fill_summary_log_file_path snprintf
  fill_summary_lem day custom l path e fits =
      rw (e, logger_fill_summary_log_file_path, take-all 255 path (omega arith)) refl

  module _ (memory : Bool) (day : Option (List ℕ))
      (custom_events custom_summary : Option FilePath) where
    -- If `logger_init_structure` succeeds, with paths that fit the buffers: the paths are the given
    -- ones, or the default ones made of the day; the directories on both paths are there, and both
    -- files, with the text that they had before; no file has changed its text, and none apart from
    -- the two has been made.
    pub init-Ready :
        (l l' : Logger) (s s' : F.State) (events summary : FilePath)
        → path_text events_default_path day custom_events ≡ some events
        → path_text summary_default_path day custom_summary ≡ some summary
        → length events < path_buff_size
        → length summary < path_buff_size
        → logger_init_structure F memory day custom_events custom_summary l s ≡ ((l', s'), true)
        → (l' ≡ record l { events_log_file_path = events; summary_log_file_path = summary })
          × Ready s s' events summary
    unfolding logger_init_structure
    init-Ready l l' s s' events summary ee es fe fs h =
        let l1 : Logger = record l { events_log_file_path = events } in
        let l2 : Logger = record l1 { summary_log_file_path = summary } in
        let first = logger_create_log_tree F memory summary s in
        let second = logger_create_log_tree F memory events first.0 in
        let h1 =
          rw
            (
              fill_events_lem day custom_events l events ee fe,
              fill_summary_lem day custom_summary l1 summary es fs,
            )
            at h in
        let (a, h2) = guarded (not (length events == 0)) (l1, s) h1 in
        let (b, h3) = guarded (ltb 0 (length summary)) (l2, s) h2 in
        let (c, h4) = guarded first.1 (l2, first.0) h3 in
        let ended : second ≡ (s', true) = ap (λ (r : (Logger × F.State) × Bool). (r.0.1, r.1)) h4 in
        (
          sym (ap (λ (r : (Logger × F.State) × Bool). r.0.0) h4),
          both-Ready s first.0 s' events summary
              (create_tree-Created F laws memory summary s first.0 (ap (λ x. (first.0, x)) c))
              (create_tree-Created F laws memory events first.0 s' ended),
        )
