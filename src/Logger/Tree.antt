-- ===== src/Logger/Tree.antt =====
-- src/logger.c: the directories and the files that `logger_init_structure` makes.
use mathlib.Core.Path.{subst}
use mathlib.Core.List.{append-nil, append_assoc}
use soa_p1_grupo_cu.Base.{
  ℕ, ◌≡◌, ◌≢◌, refl, sym, ap, ◌∙◌, Bool, true, false, some, List, [], ◌∷◌, ◌++◌, ◌==◌,
  if◌then◌else◌, Bool-cases, Option-cases, inl, inr, arith,
}
use soa_p1_grupo_cu.Base.Float.{Floats}
use soa_p1_grupo_cu.Parser.Load.{is_empty}
use soa_p1_grupo_cu.Logger.Files.{
  FilePath, FileSystem, IsFileSystem, Made, made, exists, denied, or_empty,
}
use soa_p1_grupo_cu.Logger.{Piece, is_wanted, is_allowed, make_parents, logger_create_log_tree}

module _ ⦃fl : Floats⦄ (F : FileSystem Piece) (laws : IsFileSystem F) where
  -- From `s` to `s'` nothing has gone, and no file has changed.
  pub record Grows (s s' : F.State) : Type 0 where
    pub keeps : (q : FilePath) → laws.present s q ≡ true → laws.present s' q ≡ true
    pub content : (q : FilePath) → laws.content s' q ≡ laws.content s q

  Grows-refl : (s : F.State) → Grows s s
  Grows-refl s = record { keeps = λ q p. p; content = λ q. refl }

  mkdir-Grows : (s : F.State) (d : FilePath) → Grows s (F.mkdir s d).0
  mkdir-Grows s d = record {
    keeps = λ q p. laws.mkdir_keeps s d q p;
    content = λ q. laws.mkdir_content s d q;
  }

  -- One round of the loop that succeeds.
  record Stepped (before : FilePath) (c : ℕ) (cs : FilePath) (s s' : F.State) : Type 0 where
    between : F.State
    grows : Grows s between
    onward : make_parents F (before ++ c ∷ []) cs between ≡ (s', true)
    there : c ≡ 47 → is_wanted before ≡ true → laws.present between before ≡ true

  is_allowed-denied : (o : Made) → is_allowed o ≡ true → o ≢ denied
  is_allowed-denied made h = λ e. absurd (cc)
  is_allowed-denied exists h = λ e. absurd (cc)
  is_allowed-denied denied h = absurd (cc)

  -- A round that may stop the loop, and does not.
  went_on :
      (go_on : Bool) (s s' : F.State) (rest : F.State × Bool)
      → (if go_on then rest else (s, false)) ≡ (s', true)
      → (rest ≡ (s', true)) × (go_on ≡ true)
  went_on true s s' rest h = (h, refl)
  went_on false s s' rest h = absurd (cc (ap (λ (r : F.State × Bool). r.1) h))

  round-Stepped :
      (before : FilePath) (c : ℕ) (cs : FilePath) (s s' : F.State)
      → make_parents F before (c ∷ cs) s ≡ (s', true)
      → Stepped before c cs s s'
  unfolding make_parents
  round-Stepped before c cs s s' h = elim (Bool-cases (c == 47)) [
    | inr other ↦ record {
      between = s;
      grows = Grows-refl s;
      onward = rw other at h;
      there = λ same w. absurd (ground arith);
    }
    | inl slash ↦ elim (Bool-cases (is_wanted before)) [
      | inr unwanted ↦ record {
        between = s;
        grows = Grows-refl s;
        onward = rw (slash, unwanted) at h;
        there = λ same w. absurd (cc (w, unwanted));
      }
      | inl wanted ↦
          let (onward, allowed) =
            went_on (is_allowed (F.mkdir s before).1) (F.mkdir s before).0 s' _
              (rw (slash, wanted) at h) in
          record {
            between = (F.mkdir s before).0;
            grows = mkdir-Grows s before;
            onward = onward;
            there = λ same w.
                laws.mkdir_present s before (is_allowed-denied (F.mkdir s before).1 allowed);
          }
    ]
  ]

  -- What stands before a separator in a path, and is a directory to make.
  pub record IsParent (path d : FilePath) : Type 0 where
    pub below : FilePath
    pub split : path ≡ d ++ 47 ∷ below
    pub wanted : is_wanted d ≡ true

  Grows-trans : {s t u : F.State} → Grows s t → Grows t u → Grows s u
  Grows-trans g h = record {
    keeps = λ q p. h.keeps q (g.keeps q p);
    content = λ q. h.content q ∙ g.content q;
  }

  -- A directory to make in what is left of a path is there, with what stands before it.
  abbrev AllMade : FilePath → FilePath → F.State → Type 0
  AllMade before cs s =
      (e below : FilePath)
      → cs ≡ e ++ 47 ∷ below
      → is_wanted (before ++ e) ≡ true
      → laws.present s (before ++ e) ≡ true

  nothing-AllMade : (before : FilePath) (s : F.State) → AllMade before [] s
  nothing-AllMade before s [] below h w = absurd (cc)
  nothing-AllMade before s (x ∷ e) below h w = absurd (cc)

  Stepped-AllMade :
      (before : FilePath) (c : ℕ) (cs : FilePath) (s s' : F.State) (step : Stepped before c cs s s')
      → Grows step.between s'
      → AllMade (before ++ c ∷ []) cs s'
      → AllMade before (c ∷ cs) s'
  Stepped-AllMade before c cs s s' step grows later [] below h w =
      let same = append-nil before in
      subst (λ d. laws.present s' d ≡ true) (sym same)
        (grows.keeps before (step.there (grind arith) (subst (λ d. is_wanted d ≡ true) same w)))
  Stepped-AllMade before c cs s s' step grows later (x ∷ e) below h w =
      let head : x ≡ c = grind arith in
      let same : before ++ x ∷ e ≡ (before ++ c ∷ []) ++ e =
        ap (λ y. before ++ y ∷ e) head ∙ sym (append_assoc before (c ∷ []) e) in
      subst (λ d. laws.present s' d ≡ true) (sym same)
        (later e below (grind arith) (subst (λ d. is_wanted d ≡ true) same w))

  parents_made :
      (before cs : FilePath) (s s' : F.State)
      → make_parents F before cs s ≡ (s', true)
      → Grows s s' × AllMade before cs s'
  unfolding make_parents
  parents_made before [] s s' h = (
    subst (Grows s) (ap (λ (r : F.State × Bool). r.0) h) (Grows-refl s),
    nothing-AllMade before s',
  )
  parents_made before (c ∷ cs) s s' h =
      let step = round-Stepped before c cs s s' h in
      let (grows, later) = parents_made (before ++ c ∷ []) cs step.between s' step.onward in
      (Grows-trans step.grows grows, Stepped-AllMade before c cs s s' step grows later)

  -- What `logger_create_log_tree` has made where it succeeds.
  pub record Created (s s' : F.State) (path : FilePath) : Type 0 where
    pub parents : (d : FilePath) → IsParent path d → laws.present s' d ≡ true
    pub file : laws.content s' path ≡ some (or_empty (laws.content s path))
    pub keeps : (q : FilePath) → laws.present s q ≡ true → laws.present s' q ≡ true
    pub others : (q : FilePath) → laws.Apart q path → laws.content s' q ≡ laws.content s q
    pub texts : (q : FilePath) → or_empty (laws.content s' q) ≡ or_empty (laws.content s q)
    pub there :
        (q : FilePath) (xs : List Piece) → laws.content s q ≡ some xs → laws.content s' q ≡ some xs

  opened-Created :
      (path : FilePath) (s t s' : F.State)
      → Grows s t × AllMade [] path t
      → F.open_a t path ≡ some s'
      → Created s s' path
  opened-Created path s t s' (grows, all) e = record {
    parents = λ d p. laws.open_a_present t s' path d e (all d p.below p.split p.wanted);
    file = laws.open_a_content t s' path e ∙ ap (λ c. some (or_empty c)) (grows.content path);
    keeps = λ q p. laws.open_a_present t s' path q e (grows.keeps q p);
    others = λ q other. laws.open_a_other t s' path q e other ∙ grows.content q;
    texts = λ q. laws.open_a_text t s' path q e ∙ ap or_empty (grows.content q);
    there = λ q xs held. laws.open_a_there t s' path q xs e (grows.content q ∙ held);
  }

  pub create_tree-Created :
      (memory : Bool) (path : FilePath) (s s' : F.State)
      → logger_create_log_tree F memory path s ≡ (s', true)
      → Created s s' path
  unfolding logger_create_log_tree
  create_tree-Created memory path s s' h = elim (Bool-cases (is_empty path)) [
    | inl none_given ↦ absurd (failed (rw none_given at h))
    | inr some_given ↦ elim (Bool-cases memory) [
      | inr out_of_memory ↦ absurd (failed (rw (some_given, out_of_memory) at h))
      | inl room ↦ elim (Bool-cases (make_parents F [] path s).1) [
        | inr stuck ↦ absurd (failed (rw (some_given, room, stuck) at h))
        | inl parents ↦ elim (Option-cases (F.open_a (make_parents F [] path s).0 path)) [
          | inl shut ↦ absurd (failed (rw (some_given, room, parents, shut) at h))
          | inr (t, e) ↦
              let same : t ≡ s' =
                ap (λ (r : F.State × Bool). r.0) (rw (some_given, room, parents, e) at h) in
              opened-Created path s (make_parents F [] path s).0 s'
                (parents_made [] path s _ (ap (λ b. ((make_parents F [] path s).0, b)) parents))
                (e ∙ ap some same)
        ]
      ]
    ]
  ]
    where
      failed : {t : F.State} → ◌≡◌ {A = F.State × Bool} (t, false) (s', true) → ⊥
      failed e = absurd (cc (ap (λ (r : F.State × Bool). r.1) e))
