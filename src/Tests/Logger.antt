-- ===== src/Tests/Logger.antt =====
-- The logger on the disk in memory, with the tasks of the sample.
use soa_p1_grupo_cu.Base.{ℕ, ◌≡◌, refl, ap, Bool, true, false, none, some, List, [], ◌∷◌, arith}
use soa_p1_grupo_cu.Base.Text.{bytes}
use soa_p1_grupo_cu.Parser.Options.{same_text}
use soa_p1_grupo_cu.Scheduler.{drawn}
use soa_p1_grupo_cu.Logger.Files.{FilePath}
use soa_p1_grupo_cu.Logger.{
  header, Logger, summary_default_path, snprintf, logger_fill_events_log_file_path,
  logger_fill_summary_log_file_path, make_parents, logger_create_log_tree, logger_init_structure,
  logger_write_summary,
}
use soa_p1_grupo_cu.Logger.Init.{Ready, init-Ready}
use soa_p1_grupo_cu.Logger.Events.{Timed, log_events, Logged, lines_of, log_events-Logged}
use soa_p1_grupo_cu.Logger.Summary.{units_done, rows_of, Written, write_summary-Written}
use soa_p1_grupo_cu.Program.Files.{data_of}
use soa_p1_grupo_cu.Tests.Fixed.{fixed}
use soa_p1_grupo_cu.Tests.Disk.{Disk, disk, disk-IsFileSystem, disk_writable}
use soa_p1_grupo_cu.Tests.Sample.{sample}

abbrev pub empty_disk : Disk
empty_disk = record { file = λ p. none; dir = λ p. false }

abbrev pub empty_logger : Logger
empty_logger = record {
  events_log_file_path = [];
  summary_log_file_path = [];
  events_initialized = false;
}

abbrev day : List ℕ
day = bytes "2026-11-25"

abbrev given_path : FilePath
given_path = bytes "o/e"

abbrev ready_logger : Logger
ready_logger = record {
  events_log_file_path = given_path;
  summary_log_file_path = summary_default_path day;
  events_initialized = false;
}

abbrev pub outcome : (Logger × Disk) × Bool
outcome =
    logger_init_structure disk true none (some given_path) (some (bytes "s")) empty_logger
      empty_disk

pub outcome_true : outcome.1 ≡ true
unfolding logger_init_structure logger_fill_events_log_file_path logger_fill_summary_log_file_path
    snprintf logger_create_log_tree make_parents same_text
outcome_true = refl

init-Ready_example :
    (outcome.0.0 ≡ record empty_logger {
      events_log_file_path = given_path;
      summary_log_file_path = bytes "s";
    })
    × Ready disk disk-IsFileSystem empty_disk outcome.0.1 given_path (bytes "s")
init-Ready_example =
    init-Ready disk disk-IsFileSystem true none (some given_path) (some (bytes "s")) empty_logger
      outcome.0.0 empty_disk outcome.0.1 given_path (bytes "s") refl refl (omega arith)
      (omega arith) (ap (λ b. (outcome.0, b)) outcome_true)

abbrev first_event : Timed
first_event = record { time = bytes "2026-11-25-10:00:00"; event = drawn 1 3 17 20 4 }

abbrev second_event : Timed
second_event = record { time = bytes "2026-11-25-10:00:01"; event = drawn 2 1 4 20 2 }

log_events-Logged_example :
    (t : Disk) × (log_events disk (first_event ∷ second_event ∷ []) ready_logger empty_disk
      ≡ some (record ready_logger { events_initialized = true }, t))
    × Logged disk disk-IsFileSystem ready_logger empty_disk t
        (lines_of (first_event ∷ second_event ∷ []))
log_events-Logged_example =
    log_events-Logged disk disk-IsFileSystem first_event (second_event ∷ []) ready_logger empty_disk
      refl (disk_writable empty_disk given_path)

write_summary-Written_example :
    (t : Disk) × (logger_write_summary disk ready_logger (none ∷ data_of sample) empty_disk
      ≡ (t, true))
    × Written disk disk-IsFileSystem empty_disk t ready_logger.summary_log_file_path
        (header ∷ rows_of (units_done (none ∷ data_of sample)) (none ∷ data_of sample))
write_summary-Written_example =
    write_summary-Written disk disk-IsFileSystem ready_logger none (data_of sample) empty_disk
      (disk_writable empty_disk (summary_default_path day)) (omega arith)
