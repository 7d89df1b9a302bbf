-- ===== src/Parser/Options.antt =====
-- src/parser.c: the command line. `getopt_long`, `strtoul`, `strtof` and `stat` are not code of the
-- repository: the options that the first finds, and what the others say of a text, are arguments.
pub mod Usable
pub mod Get
use soa_p1_grupo_cu.Base.{
  ℕ, Bool, true, false, ◌&&◌, ◌||◌, not, Option, none, some, List, [], ◌∷◌, if◌then◌else◌, ltb,
  ◌==◌, uint32_max,
}
use soa_p1_grupo_cu.Base.Float.{Floats}
use soa_p1_grupo_cu.Scheduler.{Config}
use soa_p1_grupo_cu.Parser.Load.{is_empty}

-- An option as `getopt_long` returns it, with `optarg`, which is `none` for NULL.
pub data Choice : Type 0 where
  set_input set_mode set_quantum set_slice_percent : (optarg : Option (List ℕ)) → Choice
  set_seed set_log set_summary set_max_dispatches : (optarg : Option (List ℕ)) → Choice
  set_compensation help unknown : Choice

-- What `strtoul` or `strtof` says of a text: the value, `*endptr` and whether `errno` is set.
pub record Number (A : Type 0) : Type 0 where
  pub value : A
  pub end : List ℕ
  pub errno : Bool

-- `strcmp(a, b) == 0`
unfoldable pub same_text : List ℕ → List ℕ → Bool
same_text [] [] = true
same_text [] (b ∷ bs) = false
same_text (a ∷ rest) [] = false
same_text (a ∷ rest) (b ∷ bs) = if a == b then same_text rest bs else false

abbrev pub quantum_text : List ℕ
quantum_text = 113 ∷ 117 ∷ 97 ∷ 110 ∷ 116 ∷ 117 ∷ 109 ∷ []

abbrev pub cooperative_text : List ℕ
cooperative_text = 99 ∷ 111 ∷ 111 ∷ 112 ∷ 101 ∷ 114 ∷ 97 ∷ 116 ∷ 105 ∷ 118 ∷ 101 ∷ []

unfoldable pub parser_is_valid_mode : List ℕ → Bool
parser_is_valid_mode value = same_text value quantum_text || same_text value cooperative_text

-- The loop of `parser_is_valid_path_string`.
unfoldable pub printable : List ℕ → Bool
printable [] = true
printable (c ∷ cs) = if ltb c 32 then false else printable cs

unfoldable pub parser_is_valid_path_string : Option (List ℕ) → Bool
parser_is_valid_path_string none = false
parser_is_valid_path_string (some path) = if is_empty path then false else printable path

module _ (strtoul : List ℕ → Number ℕ) where
  unfoldable pub parser_parse_uint32 : List ℕ → Option ℕ
  parser_parse_uint32 value =
      let n = strtoul value in
      if n.errno || is_empty value || not (is_empty n.end) || n.value == 0 || ltb uint32_max n.value
      then none
      else some n.value

module _ (is_regular : List ℕ → Bool) where
  unfoldable pub parser_is_existing_input_file : Option (List ℕ) → Bool
  parser_is_existing_input_file none = false
  parser_is_existing_input_file (some path) =
      parser_is_valid_path_string (some path) && is_regular path

module _ ⦃fl : Floats⦄ where
  -- The variables of the file.
  pub record Options : Type 0 where
    pub input_file_path : Option (List ℕ)
    pub mode : Option (List ℕ)
    pub quantum : ℕ
    pub slice_percent : fl.Single
    pub seed : ℕ
    pub log_events_path : Option (List ℕ)
    pub summary_file_path : Option (List ℕ)
    pub max_dispatches : ℕ
    pub compensation : Bool

  abbrev pub unset : Options
  unset = record {
    input_file_path = none;
    mode = none;
    quantum = 0;
    slice_percent = fl.single 0;
    seed = 0;
    log_events_path = none;
    summary_file_path = none;
    max_dispatches = 0;
    compensation = false;
  }

  -- `parser_parameter_get` returns 0 for `accepted` and for `helped`, 1 for `refused`. With `fault`
  -- it reads through a NULL `optarg`.
  pub data Got : Type 0 where
    accepted helped : (options : Options) → Got
    refused fault : Got

  -- A number that does not parse ends the reading of the options.
  abbrev pub parsed : {A : Type 0} → Option A → (A → Got) → Got
  parsed none go_on = refused
  parsed (some n) go_on = go_on n

  module _ (strtof : List ℕ → Number fl.Single) where
    unfoldable pub parser_parse_percentage : List ℕ → Option fl.Single
    parser_parse_percentage value =
        let n = strtof value in
        if n.errno
          || is_empty value
          || not (is_empty n.end)
          || not (fl.is_finite_s n.value)
          || fl.le_s n.value (fl.single 0)
          || fl.lt_s (fl.single 100) n.value
        then none
        else some n.value

  abbrev pub is_in_percent : fl.Single → Bool
  is_in_percent p = fl.lt_s (fl.single 0) p && fl.le_s p (fl.single 100)

  unfoldable pub mode_given : Options → Bool
  mode_given o = elim o.mode [ none ↦ false | some m ↦ parser_is_valid_mode m ]

  -- The tests of the value that the mode needs.
  unfoldable pub mode_fits : Options → Bool
  mode_fits o = elim o.mode [
    | none ↦ false
    | some m ↦
        if same_text m quantum_text
        then not (o.quantum == 0)
        else if same_text m cooperative_text
        then is_in_percent o.slice_percent
        else true
  ]

  -- A path that may be left out.
  unfoldable pub optional_path : Option (List ℕ) → Bool
  optional_path none = true
  optional_path (some path) = parser_is_valid_path_string (some path)

  unfoldable pub parser_parameter_validation : (List ℕ → Bool) → Options → ℕ
  parser_parameter_validation is_regular o =
      if not (parser_is_existing_input_file is_regular o.input_file_path)
      then 1
      else if not (mode_given o)
      then 1
      else if not (mode_fits o)
      then 1
      else if o.seed == 0
      then 1
      else if not (optional_path o.log_events_path)
      then 1
      else if not (optional_path o.summary_file_path)
      then 1
      else 0

  module _ (strtoul : List ℕ → Number ℕ) (strtof : List ℕ → Number fl.Single)
      (is_regular : List ℕ → Bool) where
    unfoldable pub parser_parameter_get : List Choice → Options → Got
    parser_parameter_get [] o =
        if parser_parameter_validation is_regular o == 0 then accepted o else refused
    parser_parameter_get (set_input a ∷ cs) o =
        parser_parameter_get cs (record o { input_file_path = a })
    parser_parameter_get (set_mode a ∷ cs) o = parser_parameter_get cs (record o { mode = a })
    parser_parameter_get (set_log a ∷ cs) o =
        parser_parameter_get cs (record o { log_events_path = a })
    parser_parameter_get (set_summary a ∷ cs) o =
        parser_parameter_get cs (record o { summary_file_path = a })
    parser_parameter_get (set_compensation ∷ cs) o =
        parser_parameter_get cs (record o { compensation = true })
    parser_parameter_get (help ∷ cs) o = helped o
    parser_parameter_get (unknown ∷ cs) o = refused
    parser_parameter_get (set_quantum none ∷ cs) o = fault
    parser_parameter_get (set_quantum (some value) ∷ cs) o =
        parsed (parser_parse_uint32 strtoul value)
          (λ n. parser_parameter_get cs (record o { quantum = n }))
    parser_parameter_get (set_slice_percent none ∷ cs) o = fault
    parser_parameter_get (set_slice_percent (some value) ∷ cs) o =
        parsed (parser_parse_percentage strtof value)
          (λ p. parser_parameter_get cs (record o { slice_percent = p }))
    parser_parameter_get (set_seed none ∷ cs) o = fault
    parser_parameter_get (set_seed (some value) ∷ cs) o =
        parsed (parser_parse_uint32 strtoul value)
          (λ n. parser_parameter_get cs (record o { seed = n }))
    parser_parameter_get (set_max_dispatches none ∷ cs) o = fault
    parser_parameter_get (set_max_dispatches (some value) ∷ cs) o =
        parsed (parser_parse_uint32 strtoul value)
          (λ n. parser_parameter_get cs (record o { max_dispatches = n }))

  -- What the main loop and the workers read of the options.
  abbrev pub config : Options → Config
  config o = record {
    quantum = o.quantum;
    max_dispatches = o.max_dispatches;
    compensation = o.compensation;
  }
