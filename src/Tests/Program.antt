-- ===== src/Tests/Program.antt =====
-- The program on the file of five tasks, in the quantum mode. In the part of `strtoul` and `strtof`
-- stands a function that takes the first byte itself as the number.
use soa_p1_grupo_cu.Base.{ℕ, ◌≡◌, refl, true, false, some, List, [], ◌∷◌, arith}
use soa_p1_grupo_cu.Base.Text.{bytes}
use soa_p1_grupo_cu.Parser.Load.Accepts.{plenty}
use soa_p1_grupo_cu.Parser.Options.{
  Choice, set_input, set_mode, set_quantum, set_seed, set_compensation, set_log, set_summary,
  Number, Options, unset, accepted, parser_parameter_get, quantum_text, config, same_text,
  printable, parser_is_valid_mode, parser_is_valid_path_string, parser_parse_uint32,
  parser_is_existing_input_file, mode_given, mode_fits, optional_path, parser_parameter_validation,
}
use soa_p1_grupo_cu.Parser.Options.Usable.{IsUsable}
use soa_p1_grupo_cu.Parser.Options.Get.{Fits, get-IsUsable}
use soa_p1_grupo_cu.Scheduler.{Sched}
use soa_p1_grupo_cu.Scheduler.Progress.{Ended}
use soa_p1_grupo_cu.Program.{System, exited, main_program}
use soa_p1_grupo_cu.Program.Complete.{main_completes}
use soa_p1_grupo_cu.Tests.Fixed.{fixed, fixed-IsIeee, fixed-Converges}
use soa_p1_grupo_cu.Tests.Parser.{scan, file, entries, file-Accepted, accepted_five}

abbrev pub first_byte : List ℕ → Number ℕ
first_byte [] = record { value = 0; end = []; errno = false }
first_byte (c ∷ cs) = record { value = c; end = cs; errno = false }

abbrev pub system : System
system = record {
  strtoul = first_byte;
  strtof = first_byte;
  is_regular = λ path. true;
  open_lines = λ path. some ([] ∷ file 5);
  scan = scan;
  memory = λ lineno. plenty;
  creates = λ id. true;
  joins = λ id. true;
}

abbrev pub choices : List Choice
choices =
    set_input (some (97 ∷ []))
    ∷ set_mode (some quantum_text)
    ∷ set_quantum (some (2 ∷ []))
    ∷ set_seed (some (7 ∷ []))
    ∷ set_compensation
    ∷ set_log (some (bytes "o/e"))
    ∷ set_summary (some (bytes "s"))
    ∷ []

abbrev pub chosen : Options
chosen = record unset {
  input_file_path = some (97 ∷ []);
  mode = some quantum_text;
  quantum = 2;
  seed = 7;
  log_events_path = some (bytes "o/e");
  summary_file_path = some (bytes "s");
  compensation = true;
}

pub choices-chosen :
    parser_parameter_get first_byte first_byte (λ path. true) choices unset ≡ accepted chosen
unfolding parser_parameter_get parser_parse_uint32 parser_parameter_validation mode_given mode_fits
    optional_path parser_is_existing_input_file parser_is_valid_path_string parser_is_valid_mode
    printable same_text
choices-chosen = refl

get-IsUsable_example : IsUsable (λ path. true) chosen × Fits chosen
get-IsUsable_example =
    get-IsUsable first_byte first_byte (λ path. true) choices chosen choices-chosen

main_completes_example :
    (last : Sched) × (main_program 17 system choices ≡ exited 0 last)
    × Ended fixed-Converges fixed-IsIeee (config chosen) last
unfolding accepted_five file-Accepted
main_completes_example =
    main_completes fixed-Converges fixed-IsIeee 17 system
      (record { memory = refl; creates = λ id. refl; joins = λ id. refl }) choices chosen
      choices-chosen [] (file 5) refl (entries 5) accepted_five
      (omega arith, (omega arith, (omega arith, (omega arith, (omega arith, tt))))) (omega arith)
