-- ===== src/Program/Recorded.antt =====
-- src/main.c with src/logger.c: what the two files hold when `main` returns.
use mathlib.Core.Path.{subst}
use soa_p1_grupo_cu.Base.{
  ℕ, suc, ◌^◌, ◌<◌, ◌≡◌, refl, sym, ap, ◌∙◌, Bool, true, false, Option, none, some, List, [], ◌∷◌,
  length,
}
use soa_p1_grupo_cu.Base.Float.{Floats}
use soa_p1_grupo_cu.Task.{Task}
use soa_p1_grupo_cu.Parser.Options.{Options}
use soa_p1_grupo_cu.Scheduler.{Event, Sched}
use soa_p1_grupo_cu.Logger.Files.{FilePath, FileSystem, IsFileSystem, or_empty}
use soa_p1_grupo_cu.Logger.{
  Piece, header, Logger, path_text, events_default_path, summary_default_path, path_buff_size,
  logger_init_structure, log_event, logger_write_summary,
}
use soa_p1_grupo_cu.Logger.Init.{init-Ready}
use soa_p1_grupo_cu.Logger.Events.{Timed, log_events, lines_of, Logged, log_events-Logged}
use soa_p1_grupo_cu.Logger.Summary.{units_done, rows_of, Written, write_summary-Written}
use soa_p1_grupo_cu.Program.Files.{data_of, log_all, main_files}

module _ ⦃fl : Floats⦄ where
  -- The events with the times from the one with the number `k` on.
  abbrev pub timed : (ℕ → List ℕ) → ℕ → List Event → List Timed
  timed stamps k [] = []
  timed stamps k (e ∷ es) = record { time = stamps k; event = e } ∷ timed stamps (suc k) es

  -- What a file holds after the lines: without a line it is not opened for writing.
  abbrev pub events_text : List Piece → List Timed → List Piece
  events_text old [] = old
  events_text old (e ∷ es) = lines_of (e ∷ es)

  abbrev pub summary_text : List Piece → List (Option Task) → List Piece
  summary_text old [] = old
  summary_text old (t ∷ ts) = header ∷ rows_of (units_done (t ∷ ts)) (t ∷ ts)

  module _ (F : FileSystem Piece) (laws : IsFileSystem F) where
    -- Two ways to go on from the same outcome.
    same_rest :
        (x : Option (Logger × F.State)) (f g : Logger → F.State → Option (Logger × F.State))
        → ((l : Logger) (s : F.State) → f l s ≡ g l s)
        → (elim x as (λ _. Option (Logger × F.State)) [ none ↦ none | some (l, s) ↦ f l s ])
          ≡ (elim x as (λ _. Option (Logger × F.State)) [ none ↦ none | some (l, s) ↦ g l s ])
    same_rest none f g same = refl
    same_rest (some (l, s)) f g same = same l s

    log_all-log_events :
        (clock : ℕ → Option (List ℕ)) (stamps : ℕ → List ℕ)
        → ((k : ℕ) → clock k ≡ some (stamps k))
        → (k : ℕ) (es : List Event) (l : Logger) (s : F.State)
        → log_all F clock k es l s ≡ log_events F (timed stamps k es) l s
    unfolding log_all
    log_all-log_events clock stamps ticks k [] l s = refl
    log_all-log_events clock stamps ticks k (e ∷ es) l s =
        rw (ticks k, log_all)
          (same_rest (log_event F (some (stamps k)) e l s) (log_all F clock (suc k) es)
            (log_events F (timed stamps (suc k) es))
            (log_all-log_events clock stamps ticks (suc k) es))

    log_events-Logged_any :
        (es : List Timed) (l : Logger) (s : F.State) (old : List Piece)
        → l.events_initialized ≡ false
        → laws.content s l.events_log_file_path ≡ some old
        → laws.writable s l.events_log_file_path ≡ true
        → (b : Bool) × (t : F.State) × (log_events F es l s
            ≡ some (record l { events_initialized = b }, t))
          × Logged F laws l s t (events_text old es)
    log_events-Logged_any [] l s old off held w = (
      l.events_initialized,
      s,
      refl,
      record { content = held; others = λ q o. refl; writable = λ q. refl },
    )
    log_events-Logged_any (e ∷ es) l s old off held w =
        let (t, run, logged) = log_events-Logged F laws e es l s off w in (true, t, run, logged)

    write_summary-Written_any :
        (l : Logger) (ts : List (Option Task)) (s : F.State) (old : List Piece)
        → laws.content s l.summary_log_file_path ≡ some old
        → laws.writable s l.summary_log_file_path ≡ true
        → units_done ts < 2 ^ 64
        → Written F laws s
            (logger_write_summary F l ts s).0
            l.summary_log_file_path
            (summary_text old ts)
    unfolding logger_write_summary
    write_summary-Written_any l [] s old held w fits = record {
      content = held;
      others = λ q o. refl;
    }
    write_summary-Written_any l (t ∷ ts) s old held w fits =
        let (s', run, written) = write_summary-Written F laws l t ts s w fits in
        subst (λ x. Written F laws s x l.summary_log_file_path (summary_text old (t ∷ ts)))
          (sym (ap (λ (r : F.State × Bool). r.0) run)) written

    -- The files when `main` returns.
    pub record Recorded (s s' : F.State) (events summary : FilePath) (stamps : ℕ → List ℕ)
        (last : Sched) : Type 0 where
      pub events_file :
          laws.content s' events
          ≡ some (events_text (or_empty (laws.content s events)) (timed stamps 0 last.log))
      pub summary_file :
          laws.content s' summary
          ≡ some (summary_text (or_empty (laws.content s summary)) (data_of last.nodes))
      pub others :
          (q : FilePath)
          → laws.Apart q events
          → laws.Apart q summary
          → laws.content s' q ≡ laws.content s q

    -- If `logger_init_structure` succeeds with paths that fit the buffers and name two different
    -- files, neither the other under another name, both files can then be written, and the clock
    -- always gives a text: when `main` returns, the file of the events holds exactly the lines of
    -- the log that the main loop made, in order, each with its time, or the text it had before if
    -- there are none; the file of the summary holds the header and the rows of the final tasks; and
    -- no file apart from the two has changed. The units of all the tasks together have to fit
    -- `uint64_t`.
    pub files-Recorded :
        (memory : Bool) (day : Option (List ℕ)) (clock : ℕ → Option (List ℕ)) (stamps : ℕ → List ℕ)
        (o : Options) (last : Sched) (l l' : Logger) (s s1 : F.State) (events summary : FilePath)
        → path_text events_default_path day o.log_events_path ≡ some events
        → path_text summary_default_path day o.summary_file_path ≡ some summary
        → length events < path_buff_size
        → length summary < path_buff_size
        → laws.Apart events summary
        → l.events_initialized ≡ false
        → logger_init_structure F memory day o.log_events_path o.summary_file_path l s
          ≡ ((l', s1), true)
        → laws.writable s1 events ≡ true
        → laws.writable s1 summary ≡ true
        → ((k : ℕ) → clock k ≡ some (stamps k))
        → units_done (data_of last.nodes) < 2 ^ 64
        → (s' : F.State) × (main_files F memory day clock o last l s ≡ some s')
          × Recorded s s' events summary stamps last
    unfolding main_files
    files-Recorded memory day clock stamps o last l l' s s1 events summary ee es fe fs apart off h
          we ws ticks fits =
        let (same, ready) =
          init-Ready F laws memory day o.log_events_path o.summary_file_path l l' s s1 events
            summary ee es fe fs h in
        let L : Logger = record l {
          events_log_file_path = events;
          summary_log_file_path = summary;
        } in
        let old_events = or_empty (laws.content s events) in
        let (b, t, run, logged) =
          log_events-Logged_any (timed stamps 0 last.log) L s1 old_events off ready.events_file
            we in
        let L' : Logger = record L { events_initialized = b } in
        let written =
          write_summary-Written_any L' (data_of last.nodes) t (or_empty (laws.content s summary))
            (logged.others summary (laws.apart_sym events summary apart) ∙ ready.summary_file)
            (logged.writable summary ∙ ws) fits in
        (
          (logger_write_summary F L' (data_of last.nodes) t).0,
          rw (h, main_files, same, log_all-log_events clock stamps ticks 0 last.log L s1, run) refl,
          record {
            events_file = written.others events apart ∙ logged.content;
            summary_file = written.content;
            others = λ q not_events not_summary.
                written.others q not_summary
                ∙ logged.others q not_events
                ∙ ready.others q not_events not_summary;
          },
        )
