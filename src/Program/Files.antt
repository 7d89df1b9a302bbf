-- ===== src/Program/Files.antt =====
-- src/main.c: the calls of the logger in `main`, around the log that the main loop makes.
use soa_p1_grupo_cu.Base.{ℕ, suc, Bool, Option, none, some, List, [], ◌∷◌}
use soa_p1_grupo_cu.Base.Float.{Floats}
use soa_p1_grupo_cu.Task.{Task, Node}
use soa_p1_grupo_cu.Parser.Options.{Options}
use soa_p1_grupo_cu.Scheduler.{Event, Sched}
use soa_p1_grupo_cu.Logger.Files.{FileSystem}
use soa_p1_grupo_cu.Logger.{Piece, Logger, logger_init_structure, log_event, logger_write_summary}

module _ ⦃fl : Floats⦄ where
  -- The `data` of the nodes.
  abbrev pub data_of : List Node → List (Option Task)
  data_of [] = []
  data_of (n ∷ ns) = some n.task ∷ data_of ns

  module _ (F : FileSystem Piece) where
    -- The `LOG_EVENT`s of the main loop, in order; `clock k` is the time of day at the one with the
    -- number `k`, as a text, if `strftime` gives it.
    unfoldable pub log_all :
        (ℕ → Option (List ℕ)) → ℕ → List Event → Logger → F.State → Option (Logger × F.State)
    log_all clock k [] l s = some (l, s)
    log_all clock k (e ∷ es) l s = elim (log_event F (clock k) e l s) [
      | none ↦ none
      | some (l', s') ↦ log_all clock (suc k) es l' s'
    ]

    -- The files when `main` returns, once the main loop has left the scheduler as `last`. The
    -- results of the two other calls are not looked at. `none` is a fault.
    unfoldable pub main_files :
        Bool
        → Option (List ℕ)
        → (ℕ → Option (List ℕ))
        → Options
        → Sched
        → Logger
        → F.State
        → Option F.State
    main_files memory day clock o last l s =
        let ((l1, s1), ok) =
          logger_init_structure F memory day o.log_events_path o.summary_file_path l s in
        elim (log_all clock 0 last.log l1 s1) [
          | none ↦ none
          | some (l2, s2) ↦ some ((logger_write_summary F l2 (data_of last.nodes) s2).0)
        ]
