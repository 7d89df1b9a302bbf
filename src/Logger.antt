-- ===== src/Logger.antt =====
-- src/logger.c and include/logger.h: the paths of the two output files, the log of the events and
-- the summary. The files of the system are an argument, as is the time of day.
pub mod Files
pub mod Tree
pub mod Init
pub mod Events
pub mod Summary
use soa_p1_grupo_cu.Base.{
  ℕ, zero, suc, ◌+◌, Bool, true, false, ◌&&◌, not, Option, none, some, List, [], ◌∷◌, ◌++◌, length,
  if◌then◌else◌, ltb, ◌==◌, u64,
}
use soa_p1_grupo_cu.Base.Text.{bytes, take}
use soa_p1_grupo_cu.Base.Float.{Floats}
use soa_p1_grupo_cu.Task.{Task}
use soa_p1_grupo_cu.Parser.Load.{is_empty}
use soa_p1_grupo_cu.Parser.Options.{same_text}
use soa_p1_grupo_cu.Scheduler.{Event}
use soa_p1_grupo_cu.Logger.Files.{FilePath, FileSystem, Made, made, exists, denied}

abbrev pub path_buff_size : ℕ
path_buff_size = 256

-- `snprintf` into a buffer, for a text that the format gives: the text that the buffer then holds,
-- and the length that is returned.
unfoldable pub snprintf : ℕ → List ℕ → List ℕ × ℕ
snprintf zero text = ([], length text)
snprintf (suc room) text = (take room text, length text)

abbrev pub events_default_path : List ℕ → FilePath
events_default_path day = bytes "results/scheduler_events_" ++ day ++ bytes ".csv"

abbrev pub summary_default_path : List ℕ → FilePath
summary_default_path day = bytes "results/scheduler_summary_" ++ day ++ bytes ".csv"

-- The variables of the file.
pub record Logger : Type 0 where
  pub events_log_file_path : FilePath
  pub summary_log_file_path : FilePath
  pub events_initialized : Bool

-- The path that `snprintf` formats: the custom one, or one made of the day; `none` if
-- `logger_tod_to_human_read_str` fails, which gives the day.
abbrev pub path_text : (List ℕ → FilePath) → Option (List ℕ) → Option FilePath → Option FilePath
path_text default day (some custom) = some custom
path_text default none none = none
path_text default (some text) none = some (default text)

unfoldable pub logger_fill_events_log_file_path :
    Option (List ℕ) → Option FilePath → Logger → Logger × Bool
logger_fill_events_log_file_path day custom l = elim (path_text events_default_path day custom) [
  | none ↦ (l, false)
  | some text ↦
      let (buffer, n) = snprintf path_buff_size text in
      (record l { events_log_file_path = buffer }, not (n == 0))
]

unfoldable pub logger_fill_summary_log_file_path :
    Option (List ℕ) → Option FilePath → Logger → Logger × Bool
logger_fill_summary_log_file_path day custom l = elim (path_text summary_default_path day custom) [
  | none ↦ (l, false)
  | some text ↦
      let (buffer, n) = snprintf path_buff_size text in
      (record l { summary_log_file_path = buffer }, ltb 0 n)
]

-- Whether a directory is made for what stands before a separator.
abbrev pub is_wanted : FilePath → Bool
is_wanted prefix = not (is_empty prefix) && not (same_text prefix (bytes "."))

-- Whether the loop goes on after a call of `mkdir`.
abbrev pub is_allowed : Made → Bool
is_allowed made = true
is_allowed exists = true
is_allowed denied = false

module _ ⦃fl : Floats⦄ where
  -- What is printed, a piece for each `fprintf`. The text of a message is `event_text` of
  -- Scheduler.Lines; the other formatting is the C library's.
  pub data Piece : Type 0 where
    stamp : (time_of_day : List ℕ) → Piece
    message : Event → Piece
    newline header : Piece
    row :
        (task_id tickets work_units_assigned work_units_completed : ℕ)
        → (dispatches first_dispatch last_dispatch : ℕ) (pi_approx observed_share : fl.Double)
        → Piece

  -- The loop of `logger_write_summary` over the units.
  unfoldable pub total_from : ℕ → List (Option Task) → ℕ
  total_from total_done [] = total_done
  total_from total_done (none ∷ ts) = total_from total_done ts
  total_from total_done (some t ∷ ts) = total_from (u64 (total_done + t.work_units_done)) ts

  abbrev pub observed_share : ℕ → Task → fl.Double
  observed_share total_done t =
      if ltb 0 total_done
      then fl.div_d (fl.double t.work_units_done) (fl.double total_done)
      else fl.double 0

  abbrev pub summary_row : ℕ → Task → Piece
  summary_row total_done t =
      row t.id t.tickets t.work_units t.work_units_done t.dispatches t.first_dispatch
        t.last_dispatch t.pi.sum (observed_share total_done t)

  module _ (F : FileSystem Piece) where
    -- One round of the loop of `logger_create_log_tree`, at a byte of the path with what stands
    -- before, and whether the loop goes on.
    abbrev pub try_parent : FilePath → ℕ → F.State → F.State × Bool
    try_parent before c s =
        let (s', outcome) = F.mkdir s before in
        if c == 47 && is_wanted before then (s', is_allowed outcome) else (s, true)

    -- The loop, from a place in the path on.
    unfoldable pub make_parents : FilePath → FilePath → F.State → F.State × Bool
    make_parents before [] s = (s, true)
    make_parents before (c ∷ cs) s =
        let (s', go_on) = try_parent before c s in
        let rest = make_parents (before ++ c ∷ []) cs s' in if go_on then rest else (s', false)

    -- `memory` says whether `malloc` succeeds.
    unfoldable pub logger_create_log_tree : Bool → FilePath → F.State → F.State × Bool
    logger_create_log_tree memory path s =
        if is_empty path
        then (s, false)
        else if memory
        then (let (s', ok) = make_parents [] path s in
            if ok
            then elim (F.open_a s' path) [ none ↦ (s', false) | some s'' ↦ (s'', true) ]
            else (s', false))
        else (s, false)

    -- The variables, the files and the result. `day` is the day as a text, if `strftime` gives it.
    unfoldable pub logger_init_structure :
        Bool
        → Option (List ℕ)
        → Option FilePath
        → Option FilePath
        → Logger
        → F.State
        → (Logger × F.State) × Bool
    logger_init_structure memory day custom_events custom_summary l s =
        let (l1, ok1) = logger_fill_events_log_file_path day custom_events l in
        let (l2, ok2) = logger_fill_summary_log_file_path day custom_summary l1 in
        let (s3, ok3) = logger_create_log_tree memory l2.summary_log_file_path s in
        let (s4, ok4) = logger_create_log_tree memory l2.events_log_file_path s3 in
        if not ok1
        then ((l1, s), false)
        else if not ok2
        then ((l2, s), false)
        else if not ok3
        then ((l2, s3), false)
        else ((l2, s4), ok4)

    -- What `logger_log_tod` gives: NULL, an open file at a path, or `fprintf` to a NULL file.
    pub data Opened : Type 0 where
      null : Opened
      opened : Logger → F.State → FilePath → Opened
      fault : Opened

    unfoldable pub logger_log_tod : Bool → Option (List ℕ) → Logger → F.State → Opened
    logger_log_tod eventlog none l s = null
    logger_log_tod eventlog (some time) l s =
        let path = if eventlog then l.events_log_file_path else l.summary_log_file_path in
        let file =
          if eventlog && not l.events_initialized then F.open_w s path else F.open_a s path in
        let l' = if eventlog then record l { events_initialized = true } else l in
        elim file [ none ↦ fault | some s' ↦ opened l' (F.print s' path (stamp time)) path ]

    unfoldable pub logger_log_msg : FilePath → Event → F.State → F.State
    logger_log_msg path e s = F.print (F.print s path (message e)) path newline

    -- `LOG_EVENT`; `none` is a fault.
    unfoldable pub log_event :
        Option (List ℕ) → Event → Logger → F.State → Option (Logger × F.State)
    log_event time e l s = elim (logger_log_tod true time l s) [
      | null ↦ some (l, s)
      | opened l' s' path ↦ some (l', logger_log_msg path e s')
      | fault ↦ none
    ]

    -- The second loop of `logger_write_summary`.
    unfoldable pub print_rows : ℕ → FilePath → List (Option Task) → F.State → F.State
    print_rows total_done path [] s = s
    print_rows total_done path (none ∷ ts) s = print_rows total_done path ts s
    print_rows total_done path (some t ∷ ts) s =
        print_rows total_done path ts (F.print s path (summary_row total_done t))

    -- The tasks are the `data` of the nodes, `none` for NULL.
    unfoldable pub logger_write_summary : Logger → List (Option Task) → F.State → F.State × Bool
    logger_write_summary l [] s = (s, false)
    logger_write_summary l (t ∷ ts) s =
        let path = l.summary_log_file_path in
        elim (F.open_w s path) [
          | none ↦ (s, false)
          | some s' ↦
              (print_rows (total_from 0 (t ∷ ts)) path (t ∷ ts) (F.print s' path header), true)
        ]
