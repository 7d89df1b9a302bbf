-- ===== src/Logger/Events.antt =====
-- src/logger.c: what a run of `LOG_EVENT`s leaves in the file of the events.
use mathlib.Core.List.{append-nil, append_assoc}
use soa_p1_grupo_cu.Base.{
  ℕ, ◌≡◌, refl, sym, ap, ◌∙◌, true, false, Option, none, some, List, [], ◌∷◌, ◌++◌, Bool-cases, inl,
  inr, if◌then◌else◌,
}
use soa_p1_grupo_cu.Base.Float.{Floats}
use soa_p1_grupo_cu.Scheduler.{Event}
use soa_p1_grupo_cu.Logger.Files.{FilePath, FileSystem, IsFileSystem, or_empty}
use soa_p1_grupo_cu.Logger.{
  Piece, stamp, message, newline, Logger, logger_log_tod, logger_log_msg, log_event,
}

-- An event with the time of day at which it is logged.
pub record Timed : Type 0 where
  pub time : List ℕ
  pub event : Event

module _ ⦃fl : Floats⦄ where
  abbrev pub line_of : Timed → List Piece
  line_of e = stamp e.time ∷ message e.event ∷ newline ∷ []

  abbrev pub lines_of : List Timed → List Piece
  lines_of [] = []
  lines_of (e ∷ es) = line_of e ++ lines_of es

  module _ (F : FileSystem Piece) where
    -- One `LOG_EVENT` after another.
    abbrev pub log_events : List Timed → Logger → F.State → Option (Logger × F.State)
    log_events [] l s = some (l, s)
    log_events (e ∷ es) l s = elim (log_event F (some e.time) e.event l s) [
      | none ↦ none
      | some (l', s') ↦ log_events es l' s'
    ]

    module _ (laws : IsFileSystem F) where
      -- What the first line finds in the file: nothing, if it is the first of the run.
      abbrev pub kept : Logger → F.State → List Piece
      kept l s =
          if l.events_initialized then or_empty (laws.content s l.events_log_file_path) else []

      abbrev initialized : Logger → Logger
      initialized l = record l { events_initialized = true }

      -- A logged line, from the old text of the file to the new one.
      pub record Logged (l : Logger) (s s' : F.State) (xs : List Piece) : Type 0 where
        pub content : laws.content s' l.events_log_file_path ≡ some xs
        pub others :
            (q : FilePath)
            → laws.Apart q l.events_log_file_path
            → laws.content s' q ≡ laws.content s q
        pub writable : (q : FilePath) → laws.writable s' q ≡ laws.writable s q

      printed :
          (l : Logger) (s t : F.State) (e : Timed) (xs : List Piece)
          → Logged l s t xs
          → Logged l s
              (logger_log_msg F l.events_log_file_path e.event
                (F.print t l.events_log_file_path (stamp e.time)))
              (xs ++ line_of e)
      unfolding logger_log_msg
      printed l s t e xs h =
          let p = l.events_log_file_path in
          let t1 = F.print t p (stamp e.time) in
          let t2 = F.print t1 p (message e.event) in
          record {
            content =
                laws.print_content t2 p newline ((xs ++ stamp e.time ∷ []) ++ message e.event ∷ [])
                  (laws.print_content t1 p (message e.event) (xs ++ stamp e.time ∷ [])
                    (laws.print_content t p (stamp e.time) xs h.content))
                ∙ ap some (
                    append_assoc (xs ++ stamp e.time ∷ []) (message e.event ∷ []) (newline ∷ [])
                    ∙ append_assoc xs (stamp e.time ∷ []) (message e.event ∷ newline ∷ []));
            others = λ q o.
                laws.print_other t2 p q newline o
                ∙ laws.print_other t1 p q (message e.event) o
                ∙ laws.print_other t p q (stamp e.time) o
                ∙ h.others q o;
            writable = λ q.
                laws.print_writable t2 p q newline
                ∙ laws.print_writable t1 p q (message e.event)
                ∙ laws.print_writable t p q (stamp e.time)
                ∙ h.writable q;
          }

      log_event-Logged :
          (l : Logger) (s : F.State) (e : Timed)
          → laws.writable s l.events_log_file_path ≡ true
          → (s' : F.State) × (log_event F (some e.time) e.event l s ≡ some (initialized l, s'))
            × Logged l s s' (kept l s ++ line_of e)
      unfolding log_event logger_log_tod
      log_event-Logged l s e w = elim (Bool-cases l.events_initialized) [
        | inl old ↦
            let (t, o) = laws.opens_a s l.events_log_file_path w in
            (
              _,
              rw (old, logger_log_tod, o) refl,
              printed l s t e (kept l s) (record {
                content = rw old (laws.open_a_content s t l.events_log_file_path o);
                others = λ q other. laws.open_a_other s t l.events_log_file_path q o other;
                writable = λ q. laws.open_a_writable s t l.events_log_file_path q o;
              }),
            )
        | inr new ↦
            let (t, o) = laws.opens_w s l.events_log_file_path w in
            (
              _,
              rw (new, logger_log_tod, o) refl,
              printed l s t e (kept l s) (record {
                content = rw new (laws.open_w_content s t l.events_log_file_path o);
                others = λ q other. laws.open_w_other s t l.events_log_file_path q o other;
                writable = λ q. laws.open_w_writable s t l.events_log_file_path q o;
              }),
            )
      ]

      log_more :
          (es : List Timed) (l : Logger) (s : F.State) (xs : List Piece)
          → l.events_initialized ≡ true
          → laws.content s l.events_log_file_path ≡ some xs
          → laws.writable s l.events_log_file_path ≡ true
          → (s' : F.State) × (log_events es l s ≡ some (l, s')) × Logged l s s' (xs ++ lines_of es)
      log_more [] l s xs on held w = (
        s,
        refl,
        record {
          content = held ∙ ap some (sym (append-nil xs));
          others = λ q o. refl;
          writable = λ q. refl;
        },
      )
      log_more (e ∷ es) l s xs on held w =
          let (t, run, first) = log_event-Logged l s e w in
          let same : initialized l ≡ l = ap (λ b. record l { events_initialized = b }) (sym on) in
          let run1 : log_event F (some e.time) e.event l s ≡ some (l, t) =
            run ∙ ap (λ x. some (x, t)) same in
          let text : kept l s ≡ xs = rw (on, held) refl in
          let (s', go_on, rest) =
            log_more es l t (xs ++ line_of e) on
              (first.content ∙ ap (λ x. some (x ++ line_of e)) text)
              (first.writable l.events_log_file_path ∙ w) in
          (
            s',
            rw (run1, log_events) go_on,
            record {
              content = rest.content ∙ ap some (append_assoc xs (line_of e) (lines_of es));
              others = λ q o. rest.others q o ∙ first.others q o;
              writable = λ q. rest.writable q ∙ first.writable q;
            },
          )

      -- If the file of the events can be written, a run of `LOG_EVENT`s from the first of the
      -- program on leaves in it exactly their lines, in order, whatever it held: each the time,
      -- the event and a line break. No file apart
      -- from it changes.
      pub log_events-Logged :
          (e : Timed) (es : List Timed) (l : Logger) (s : F.State)
          → l.events_initialized ≡ false
          → laws.writable s l.events_log_file_path ≡ true
          → (s' : F.State) × (log_events (e ∷ es) l s
              ≡ some (record l { events_initialized = true }, s'))
            × Logged l s s' (lines_of (e ∷ es))
      log_events-Logged e es l s off w =
          let (t, run, first) = log_event-Logged l s e w in
          let text : kept l s ≡ [] = rw off refl in
          let (s', go_on, rest) =
            log_more es (initialized l) t (line_of e) refl
              (first.content ∙ ap (λ x. some (x ++ line_of e)) text)
              (first.writable l.events_log_file_path ∙ w) in
          (
            s',
            rw (run, log_events) go_on,
            record {
              content = rest.content;
              others = λ q o. rest.others q o ∙ first.others q o;
              writable = λ q. rest.writable q ∙ first.writable q;
            },
          )
