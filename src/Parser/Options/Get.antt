-- ===== src/Parser/Options/Get.antt =====
-- The loop over the options: what it leaves in the variables of the parser.
use mathlib.Core.Path.{subst}
use soa_p1_grupo_cu.Base.{
  ℕ, ◌≡◌, ◌≤◌, refl, sym, ap, ◌∙◌, Bool, Option, none, some, List, [], ◌∷◌, arith, if◌then◌else◌,
  ◌==◌, uint32_max, Bool-cases, inl, inr,
}
use soa_p1_grupo_cu.Base.Float.{Floats}
use soa_p1_grupo_cu.Parser.Options.{
  Choice, set_input, set_mode, set_quantum, set_slice_percent, set_seed, set_log, set_summary,
  set_max_dispatches, set_compensation, help, unknown, Number, parser_parse_uint32, Options, unset,
  Got, accepted, refused, parsed, parser_parse_percentage, parser_parameter_validation,
  parser_parameter_get,
}
use soa_p1_grupo_cu.Parser.Options.Usable.{IsUsable, validation-IsUsable}

parse_uint32-le :
    (strtoul : List ℕ → Number ℕ) (value : List ℕ) (n : ℕ)
    → parser_parse_uint32 strtoul value ≡ some n
    → n ≤ uint32_max
unfolding parser_parse_uint32
parse_uint32-le strtoul value n h = ground arith

module _ ⦃fl : Floats⦄ where
  -- The numbers among the options are 32 bits wide.
  abbrev pub Fits : Options → Type 0
  Fits o = (o.quantum ≤ uint32_max) × (o.seed ≤ uint32_max) × (o.max_dispatches ≤ uint32_max)

  parsed-accepted :
      {A : Type 0} (m : Option A) (go_on : A → Got) {o : Options}
      → parsed m go_on ≡ accepted o
      → (n : A) × (m ≡ some n) × (go_on n ≡ accepted o)
  parsed-accepted none go_on h = absurd (cc)
  parsed-accepted (some n) go_on h = (n, refl, h)

  accepted-injective : {o o' : Options} → accepted o ≡ accepted o' → o ≡ o'
  accepted-injective h = cc

  module _ (strtoul : List ℕ → Number ℕ) (strtof : List ℕ → Number fl.Single)
      (is_regular : List ℕ → Bool) where
    abbrev get : List Choice → Options → Got
    get = parser_parameter_get strtoul strtof is_regular

    get-end : (o o' : Options) → get [] o ≡ accepted o' → IsUsable is_regular o × (o ≡ o')
    unfolding parser_parameter_get
    get-end o o' h = elim (Bool-cases (parser_parameter_validation is_regular o == 0)) [
      | inl valid ↦
          (validation-IsUsable is_regular o (ground arith), accepted-injective (rw valid at h))
      | inr invalid ↦ absurd (cc (sym (ap (λ b. if b then accepted o else refused) invalid) ∙ h))
    ]

    get-Fits :
        (cs : List Choice) (o o' : Options)
        → Fits o
        → get cs o ≡ accepted o'
        → IsUsable is_regular o' × Fits o'
    unfolding parser_parameter_get
    get-Fits [] o o' fits h =
        let (u, same) = get-end o o' h in (subst (IsUsable is_regular) same u, subst Fits same fits)
    get-Fits (set_input a ∷ cs) o o' fits h = get-Fits cs _ o' fits h
    get-Fits (set_mode a ∷ cs) o o' fits h = get-Fits cs _ o' fits h
    get-Fits (set_log a ∷ cs) o o' fits h = get-Fits cs _ o' fits h
    get-Fits (set_summary a ∷ cs) o o' fits h = get-Fits cs _ o' fits h
    get-Fits (set_compensation ∷ cs) o o' fits h = get-Fits cs _ o' fits h
    get-Fits (help ∷ cs) o o' fits h = absurd (cc)
    get-Fits (unknown ∷ cs) o o' fits h = absurd (cc)
    get-Fits (set_quantum none ∷ cs) o o' fits h = absurd (cc)
    get-Fits (set_quantum (some value) ∷ cs) o o' (q, s, d) h =
        let (n, e, h1) = parsed-accepted (parser_parse_uint32 strtoul value) _ h in
        get-Fits cs _ o' (parse_uint32-le strtoul value n e, s, d) h1
    get-Fits (set_seed none ∷ cs) o o' fits h = absurd (cc)
    get-Fits (set_seed (some value) ∷ cs) o o' (q, s, d) h =
        let (n, e, h1) = parsed-accepted (parser_parse_uint32 strtoul value) _ h in
        get-Fits cs _ o' (q, parse_uint32-le strtoul value n e, d) h1
    get-Fits (set_max_dispatches none ∷ cs) o o' fits h = absurd (cc)
    get-Fits (set_max_dispatches (some value) ∷ cs) o o' (q, s, d) h =
        let (n, e, h1) = parsed-accepted (parser_parse_uint32 strtoul value) _ h in
        get-Fits cs _ o' (q, s, parse_uint32-le strtoul value n e) h1
    get-Fits (set_slice_percent none ∷ cs) o o' fits h = absurd (cc)
    get-Fits (set_slice_percent (some value) ∷ cs) o o' fits h =
        let (p, e, h1) = parsed-accepted (parser_parse_percentage strtof value) _ h in
        get-Fits cs _ o' fits h1

    -- Options that `parser_parameter_get` accepts name a regular file and one of the two modes,
    -- with a quantum of at least 1 or a percentage above 0 and at most 100, and a seed that is not
    -- 0; the paths of the log and of the summary, if given, have a character and no control
    -- character; the quantum, the seed and the cap on dispatches are at most `UINT32_MAX`.
    pub get-IsUsable :
        (cs : List Choice) (o : Options)
        → parser_parameter_get strtoul strtof is_regular cs unset ≡ accepted o
        → IsUsable is_regular o × Fits o
    get-IsUsable cs o h = get-Fits cs unset o (omega arith, omega arith, omega arith) h
