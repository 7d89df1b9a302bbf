-- ===== src/Tests/Files.antt =====
-- The two output files of the program, on the disk in memory.
use soa_p1_grupo_cu.Base.{ℕ, ◌≡◌, ◌≢◌, refl, ap, ◌∙◌, true, none, some, List, [], ◌∷◌, arith}
use soa_p1_grupo_cu.Base.Text.{bytes}
use soa_p1_grupo_cu.Parser.Options.{Options, unset, same_text}
use soa_p1_grupo_cu.Parser.Options.Usable.{same_text_refl}
use soa_p1_grupo_cu.Scheduler.{Sched, drawn}
use soa_p1_grupo_cu.Logger.Files.{FilePath}
use soa_p1_grupo_cu.Program.Files.{main_files}
use soa_p1_grupo_cu.Program.Recorded.{Recorded, files-Recorded}
use soa_p1_grupo_cu.Program.Whole.{Prepared, Whole, main-Whole}
use soa_p1_grupo_cu.Tests.Fixed.{fixed, fixed-IsIeee, fixed-Converges}
use soa_p1_grupo_cu.Tests.Sample.{sample}
use soa_p1_grupo_cu.Tests.Disk.{Disk, disk, disk-IsFileSystem, disk_writable, disk-Apart}
use soa_p1_grupo_cu.Tests.Logger.{empty_disk, empty_logger, outcome, outcome_true}
use soa_p1_grupo_cu.Tests.Parser.{file, entries, file-Accepted, accepted_five}
use soa_p1_grupo_cu.Tests.Program.{choices, chosen, system, choices-chosen}

abbrev events : FilePath
events = bytes "o/e"

abbrev summary : FilePath
summary = bytes "s"

abbrev given_paths : Options
given_paths = record unset { log_events_path = some events; summary_file_path = some summary }

events-summary : events ≢ summary
unfolding same_text
events-summary e =
    let same : same_text events summary ≡ true =
      ap (λ p. same_text p summary) e ∙ same_text_refl summary in
    absurd (cc)

-- The clock always shows the same time.
abbrev stamps : ℕ → List ℕ
stamps k = bytes "2026-11-25-10:00:00"

abbrev last_state : Sched
last_state = record {
  nodes = sample;
  rng = 1;
  global_dispatch = 1;
  pending = none;
  log = drawn 1 3 17 20 4 ∷ [];
}

files-Recorded_example :
    (s' : Disk) × (main_files disk true none
        (λ k. some (stamps k))
        given_paths
        last_state
        empty_logger
        empty_disk
      ≡ some s')
    × Recorded disk disk-IsFileSystem empty_disk s' events summary stamps last_state
files-Recorded_example =
    files-Recorded disk disk-IsFileSystem true none (λ k. some (stamps k)) stamps given_paths
      last_state empty_logger outcome.0.0 empty_disk outcome.0.1 events summary refl refl
      (omega arith) (omega arith) (disk-Apart events summary events-summary) refl
      (ap (λ b. (outcome.0, b)) outcome_true) (disk_writable outcome.0.1 events)
      (disk_writable outcome.0.1 summary) (λ k. refl) (omega arith)

prepared :
    Prepared disk disk-IsFileSystem true none chosen empty_logger outcome.0.0 empty_disk outcome.0.1
      events summary
prepared = record {
  events_path = refl;
  summary_path = refl;
  events_fits = omega arith;
  summary_fits = omega arith;
  apart = disk-Apart events summary events-summary;
  first_run = refl;
  initialized = ap (λ b. (outcome.0, b)) outcome_true;
  events_writable = disk_writable outcome.0.1 events;
  summary_writable = disk_writable outcome.0.1 summary;
}

main-Whole_example :
    (last : Sched) × Whole fixed-Converges fixed-IsIeee 17 system
      (record { memory = refl; creates = λ id. refl; joins = λ id. refl })
      disk
      disk-IsFileSystem
      choices
      true
      none
      (λ k. some (stamps k))
      stamps
      chosen
      empty_logger
      empty_disk
      events
      summary
      last
unfolding accepted_five file-Accepted
main-Whole_example =
    main-Whole fixed-Converges fixed-IsIeee 17 system
      (record { memory = refl; creates = λ id. refl; joins = λ id. refl }) disk disk-IsFileSystem
      choices chosen choices-chosen [] (file 5) refl (entries 5) accepted_five
      (omega arith, (omega arith, (omega arith, (omega arith, (omega arith, tt))))) (omega arith)
      true none (λ k. some (stamps k)) stamps (λ k. refl) empty_logger outcome.0.0 empty_disk
      outcome.0.1 events summary prepared
