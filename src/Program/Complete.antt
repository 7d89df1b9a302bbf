-- ===== src/Program/Complete.antt =====
-- The whole program, from its options and its file to its exit status.
use soa_p1_grupo_cu.Base.{
  ℕ, ◌+◌, ◌≡◌, ◌≤◌, ◌<◌, refl, ◌∙◌, Bool, true, some, List, [], ◌∷◌, map, arith, All, length, inl,
  inr,
}
use soa_p1_grupo_cu.Base.Float.{Floats, IsIeee}
use soa_p1_grupo_cu.Task.{Node}
use soa_p1_grupo_cu.Task.Series.{Converges}
use soa_p1_grupo_cu.Parser.Load.{Row, Entry, parser_load}
use soa_p1_grupo_cu.Parser.Load.Accepts.{plenty}
use soa_p1_grupo_cu.Parser.Load.File.{Accepted}
use soa_p1_grupo_cu.Parser.Options.{
  Choice, Options, unset, accepted, parser_parameter_get, same_text, config,
}
use soa_p1_grupo_cu.Parser.Options.Usable.{IsMode}
use soa_p1_grupo_cu.Parser.Options.Get.{get-IsUsable}
use soa_p1_grupo_cu.Scheduler.{Sched, scheduler_main_loop}
use soa_p1_grupo_cu.Scheduler.Round.{IsNode}
use soa_p1_grupo_cu.Scheduler.Turns.{remaining}
use soa_p1_grupo_cu.Scheduler.Progress.{Ended, main_loop_ends}
use soa_p1_grupo_cu.Scheduler.Configure.{configure_cooperative-SlicedAll, SlicedAll-IsNode, wanted}
use soa_p1_grupo_cu.Scheduler.Init.{scheduler_init, started, SlotFits, node_of_row, init-IsReady}
use soa_p1_grupo_cu.Program.{
  System, exited, scheduler_deinit, run, configured, schedule, main_program,
}

module _ ⦃fl : Floats⦄ where
  -- A system on which nothing fails.
  pub record Healthy (sys : System) : Type 0 where
    pub memory : sys.memory ≡ (λ _. plenty)
    pub creates : (id : ℕ) → sys.creates id ≡ true
    pub joins : (id : ℕ) → sys.joins id ≡ true

  deinit_joined :
      (joins : ℕ → Bool)
      → ((id : ℕ) → joins id ≡ true)
      → (ns : List Node) → scheduler_deinit joins ns ≡ true
  unfolding scheduler_deinit
  deinit_joined joins all [] = refl
  deinit_joined joins all (n ∷ ns) = rw (all n.id) (deinit_joined joins all ns)

  abbrev pub work : List Row → ℕ
  work [] = 0
  work (r ∷ rs) = r.work_units + work rs

  remaining-rows : (rs : List Row) → remaining (map node_of_row rs) ≡ work rs
  remaining-rows [] = refl
  remaining-rows (r ∷ rs) = omega (arith, remaining-rows rs)

  -- The list that the main loop gets satisfies its invariant, with as much work left.
  configured-IsNode :
      (o : Options) (ns : List Node)
      → IsMode o
      → All IsNode ns
      → (ns' : List Node) × (configured o ns ≡ some ns')
        × All IsNode ns'
        × (length ns' ≡ length ns)
        × (remaining ns' ≡ remaining ns)
  unfolding configured same_text
  configured-IsNode o ns (inl (q, pos)) h = (ns, rw q refl, h, refl, refl)
  configured-IsNode o ns (inr (c, pct)) h =
      let (is, len, left) =
        SlicedAll-IsNode (wanted o.slice_percent) ns _
          (configure_cooperative-SlicedAll o.slice_percent ns) h in
      (_, rw c refl, is, len, left)

  run-exited :
      (fuel : ℕ) (sys : System) (o : Options) (rng : ℕ) (ns : List Node) (last : Sched)
      → Healthy sys
      → scheduler_main_loop fuel (config o) rng ns ≡ some last
      → run fuel sys o rng ns ≡ exited 0 last
  unfolding run
  run-exited fuel sys o rng ns last healthy looped =
      rw (looped, run, deinit_joined sys.joins healthy.joins last.nodes) refl

  schedule-run :
      (fuel : ℕ) (sys : System) (o : Options) (nodes ns : List Node) (rng : ℕ)
      → scheduler_init sys.creates
          (parser_load sys.scan sys.memory (sys.open_lines o.input_file_path))
          o.seed
        ≡ started nodes rng
      → configured o nodes ≡ some ns
      → schedule fuel sys o ≡ run fuel sys o rng ns
  unfolding schedule
  schedule-run fuel sys o nodes ns rng init e = rw (init, schedule, e) refl

  main-schedule :
      (fuel : ℕ) (sys : System) (choices : List Choice) (o : Options)
      → parser_parameter_get sys.strtoul sys.strtof sys.is_regular choices unset ≡ accepted o
      → main_program fuel sys choices ≡ schedule fuel sys o
  unfolding main_program
  main-schedule fuel sys choices o got = rw (got, main_program) refl

  module _ (conv : Converges) (ieee : IsIeee fl) (fuel : ℕ) (sys : System)
      (healthy : Healthy sys) where
    -- The main loop within the program, from the rows of the file.
    pub record Looped (o : Options) (rows : List Row) (choices : List Choice) (last : Sched)
        : Type 0 where
      pub nodes : List Node
      pub from_rows : configured o (map node_of_row rows) ≡ some nodes
      pub is_node : All IsNode nodes
      pub few : length nodes ≤ 25
      pub looped : scheduler_main_loop fuel (config o) o.seed nodes ≡ some last
      pub ended : Ended conv ieee (config o) last
      pub exit : main_program fuel sys choices ≡ exited 0 last

    pub main-Looped :
        (choices : List Choice) (o : Options)
        → parser_parameter_get sys.strtoul sys.strtof sys.is_regular choices unset ≡ accepted o
        → (header : List ℕ) (lines : List (List ℕ))
        → sys.open_lines o.input_file_path ≡ some (header ∷ lines)
        → (es : List Entry) (a : Accepted sys.scan lines es) → All SlotFits a.rows
        → work a.rows < fuel
        → (last : Sched) × Looped o a.rows choices last
    main-Looped choices o got header lines opened es a fit enough =
        let (usable, fits) = get-IsUsable sys.strtoul sys.strtof sys.is_regular choices o got in
        let (init, ready) =
          init-IsReady sys.creates healthy.creates sys.scan header lines o.seed ieee es a fit in
        let (ns, e, is, len, left) =
          configured-IsNode o (map node_of_row a.rows) usable.how ready.nodes_fit in
        let few : length ns ≤ 25 = omega (arith, len, ready.few) in
        let (last, looped, ended) =
          main_loop_ends conv ieee (config o) fuel o.seed ns is few
            (omega (arith, left, remaining-rows a.rows)) in
        (
          last,
          record {
            nodes = ns;
            from_rows = e;
            is_node = is;
            few = few;
            looped = looped;
            ended = ended;
            exit =
                main-schedule fuel sys choices o got
                ∙ schedule-run fuel sys o (map node_of_row a.rows) ns o.seed
                    (rw (healthy.memory, opened) init) e
                ∙ run-exited fuel sys o o.seed ns last healthy looped;
          },
        )

    -- If none of the first 2^32 terms of the series overflows and the floating point numbers are as
    -- `IsIeee` says: on a system on which nothing fails, options that are accepted and name a file
    -- that the loader accepts, with ids below 26, make `main` return 0, if the fuel is more than
    -- the work units of the file; every task is then FINISHED and complete, or stopped by the cap.
    pub main_completes :
        (choices : List Choice) (o : Options)
        → parser_parameter_get sys.strtoul sys.strtof sys.is_regular choices unset ≡ accepted o
        → (header : List ℕ) (lines : List (List ℕ))
        → sys.open_lines o.input_file_path ≡ some (header ∷ lines)
        → (es : List Entry) (a : Accepted sys.scan lines es) → All SlotFits a.rows
        → work a.rows < fuel
        → (last : Sched) × (main_program fuel sys choices ≡ exited 0 last)
          × Ended conv ieee (config o) last
    main_completes choices o got header lines opened es a fit enough =
        let (last, loop) = main-Looped choices o got header lines opened es a fit enough in
        (last, loop.exit, loop.ended)
