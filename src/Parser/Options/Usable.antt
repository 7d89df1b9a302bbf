-- ===== src/Parser/Options/Usable.antt =====
-- What the options are like that `parser_parameter_get` accepts.
use soa_p1_grupo_cu.Base.{
  ℕ, ◌≡◌, ◌≢◌, ◌<◌, ◌≤◌, ◌⊎◌, inl, inr, refl, ap, ◌∙◌, if◌then◌else◌, Bool, true, false, not,
  Option, none, some, List, [], ◌∷◌, arith, All, Bool-cases, ◌==◌,
}
use soa_p1_grupo_cu.Base.Float.{Floats}
use soa_p1_grupo_cu.Parser.Load.{is_empty}
use soa_p1_grupo_cu.Parser.Options.{
  same_text, quantum_text, cooperative_text, parser_is_valid_mode, printable,
  parser_is_valid_path_string, parser_is_existing_input_file, Options, is_in_percent, mode_given,
  mode_fits, optional_path, parser_parameter_validation,
}

pub same_text-same : (a b : List ℕ) → same_text a b ≡ true → a ≡ b
unfolding same_text
same_text-same [] [] h = refl
same_text-same [] (y ∷ b) h = absurd (cc)
same_text-same (x ∷ a) [] h = absurd (cc)
same_text-same (x ∷ a) (y ∷ b) h = grind (arith, same_text-same a b)

pub same_text_refl : (a : List ℕ) → same_text a a ≡ true
unfolding same_text
same_text_refl [] = refl
same_text_refl (x ∷ a) = ground (arith, same_text_refl a)

-- Two texts are the same or not.
pub same_text-cases : (a b : List ℕ) → (a ≡ b) ⊎ (a ≢ b)
same_text-cases a b = elim (Bool-cases (same_text a b)) [
  | inl same ↦ inl (same_text-same a b same)
  | inr other ↦ inr (λ e. absurd (cc (ap (same_text a) e, same_text_refl a, other)))
]

-- No control character.
abbrev pub Printable : List ℕ → Type 0
Printable cs = All (λ c. 32 ≤ c) cs

-- The name of a file.
pub record IsPath (path : List ℕ) : Type 0 where
  pub some_text : is_empty path ≡ false
  pub clean : Printable path

abbrev pub IsOptionalPath : Option (List ℕ) → Type 0
IsOptionalPath none = Unit
IsOptionalPath (some path) = IsPath path

printable-Printable : (cs : List ℕ) → printable cs ≡ true → Printable cs
unfolding printable
printable-Printable [] h = tt
printable-Printable (c ∷ cs) h = (ground arith, printable-Printable cs (ground arith))

valid-IsPath : (path : List ℕ) → parser_is_valid_path_string (some path) ≡ true → IsPath path
unfolding parser_is_valid_path_string
valid-IsPath path h = record {
  some_text = ground arith;
  clean = printable-Printable path (ground arith);
}

optional-IsOptionalPath :
    (p : Option (List ℕ)) → ⦃fl : Floats⦄ → optional_path p ≡ true → IsOptionalPath p
unfolding optional_path
optional-IsOptionalPath none h = tt
optional-IsOptionalPath (some path) h = valid-IsPath path h

module _ ⦃fl : Floats⦄ where
  -- One of the two modes, with the value that it needs.
  abbrev pub IsMode : Options → Type 0
  IsMode o =
      ((o.mode ≡ some quantum_text) × (0 < o.quantum))
      ⊎ ((o.mode ≡ some cooperative_text) × (is_in_percent o.slice_percent ≡ true))

  module _ (is_regular : List ℕ → Bool) where
    -- Options that pass the validation.
    pub record IsUsable (o : Options) : Type 0 where
      pub input :
          (path : List ℕ) × (o.input_file_path ≡ some path) × IsPath path × (is_regular path ≡ true)
      pub how : IsMode o
      pub seeded : 0 < o.seed
      pub log : IsOptionalPath o.log_events_path
      pub summary : IsOptionalPath o.summary_file_path

    passed : (b : Bool) (k : ℕ) → (if not b then 1 else k) ≡ 0 → (b ≡ true) × (k ≡ 0)
    passed true k h = (refl, h)
    passed false k h = absurd (omega arith)

    input-IsPath :
        (p : Option (List ℕ))
        → parser_is_existing_input_file is_regular p ≡ true
        → (path : List ℕ) × (p ≡ some path) × IsPath path × (is_regular path ≡ true)
    unfolding parser_is_existing_input_file
    input-IsPath none h = absurd (cc)
    input-IsPath (some path) h = (path, refl, valid-IsPath path (ground arith), ground arith)

    mode-IsMode :
        (o : Options) (m : Option (List ℕ))
        → o.mode ≡ m
        → mode_given (record o { mode = m }) ≡ true
        → mode_fits (record o { mode = m }) ≡ true
        → IsMode o
    unfolding mode_given mode_fits parser_is_valid_mode
    mode-IsMode o none e g f = absurd (cc)
    mode-IsMode o (some m) e g f = elim (Bool-cases (same_text m quantum_text)) [
      | inl q ↦ inl (e ∙ ap some (same_text-same m _ q), ground arith)
      | inr q ↦ inr (e ∙ ap some (same_text-same m _ (ground arith)), ground arith)
    ]

    passed_not : (b : Bool) (k : ℕ) → (if b then 1 else k) ≡ 0 → (b ≡ false) × (k ≡ 0)
    passed_not false k h = (refl, h)
    passed_not true k h = absurd (omega arith)

    pub validation-IsUsable :
        (o : Options) → parser_parameter_validation is_regular o ≡ 0 → IsUsable o
    unfolding parser_parameter_validation
    validation-IsUsable o h =
        let (a, h1) = passed (parser_is_existing_input_file is_regular o.input_file_path) _ h in
        let (b, h2) = passed (mode_given o) _ h1 in
        let (c, h3) = passed (mode_fits o) _ h2 in
        let (d, h4) = passed_not (o.seed == 0) _ h3 in
        let (e, h5) = passed (optional_path o.log_events_path) _ h4 in
        let (f, h6) = passed (optional_path o.summary_file_path) _ h5 in
        record {
          input = input-IsPath o.input_file_path a;
          how = mode-IsMode o o.mode refl b c;
          seeded = ground arith;
          log = optional-IsOptionalPath o.log_events_path e;
          summary = optional-IsOptionalPath o.summary_file_path f;
        }
