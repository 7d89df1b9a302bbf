-- ===== src/Program.antt =====
-- src/main.c: the calls of `main` in their order, and its exit status. What the C library and the
-- system answer is an argument. The calls of the logger change nothing of what is here, and stand
-- in Program/Files.antt.
pub mod Files
pub mod Recorded
pub mod Fresh
pub mod Whole
pub mod Complete
use soa_p1_grupo_cu.Base.{ℕ, Bool, true, false, Option, none, some, List, [], ◌∷◌, if◌then◌else◌}
use soa_p1_grupo_cu.Base.Float.{Floats}
use soa_p1_grupo_cu.Task.{Node}
use soa_p1_grupo_cu.Parser.Load.{Scanned, Memory, parser_load}
use soa_p1_grupo_cu.Parser.Options.{
  Choice, Number, Options, unset, Got, accepted, helped, refused, fault, parser_parameter_get,
  same_text, cooperative_text, config,
}
use soa_p1_grupo_cu.Scheduler.{Sched, scheduler_main_loop}
use soa_p1_grupo_cu.Scheduler.Init.{Init, started, failed, scheduler_init}
use soa_p1_grupo_cu.Scheduler.Configure.{scheduler_configure_cooperative}

module _ ⦃fl : Floats⦄ where
  pub record System : Type 0 where
    pub strtoul : List ℕ → Number ℕ
    pub strtof : List ℕ → Number fl.Single
    pub is_regular : List ℕ → Bool
    pub open_lines : Option (List ℕ) → Option (List (List ℕ))
    pub scan : List ℕ → Scanned
    pub memory : ℕ → Memory
    pub creates : ℕ → Bool  -- `pthread_create` succeeds
    pub joins : ℕ → Bool  -- `pthread_join` succeeds

  -- `exited` has the scheduler as its main loop left it; `unfinished` is a main loop that the fuel
  -- does not see to its end.
  pub data Exit : Type 0 where
    stopped : (status : ℕ) → Exit
    exited : (status : ℕ) (last : Sched) → Exit
    crashed unfinished : Exit

  -- `dll_clean_list` always succeeds.
  unfoldable pub scheduler_deinit : (ℕ → Bool) → List Node → Bool
  scheduler_deinit joins [] = true
  scheduler_deinit joins (n ∷ ns) = if joins n.id then scheduler_deinit joins ns else false

  -- `scheduler_main_loop` and what follows it.
  unfoldable pub run : ℕ → System → Options → ℕ → List Node → Exit
  run fuel sys o rng nodes = elim (scheduler_main_loop fuel (config o) rng nodes) [
    | none ↦ unfinished
    | some s ↦ exited (if scheduler_deinit sys.joins s.nodes then 0 else 1) s
  ]

  -- `strcmp` reads through the mode, which must not be NULL.
  unfoldable pub configured : Options → List Node → Option (List Node)
  configured o nodes = elim o.mode [
    | none ↦ none
    | some m ↦ some (
        if same_text m cooperative_text
        then scheduler_configure_cooperative o.slice_percent nodes
        else nodes)
  ]

  -- From the call of `scheduler_init` on.
  unfoldable pub schedule : ℕ → System → Options → Exit
  schedule fuel sys o =
      elim (scheduler_init sys.creates
        (parser_load sys.scan sys.memory (sys.open_lines o.input_file_path)) o.seed) [
          | failed ↦ stopped 1
          | Init.fault ↦ crashed
          | started nodes rng ↦ elim (configured o nodes) [
            | none ↦ crashed
            | some ns ↦ run fuel sys o rng ns
          ]
        ]

  unfoldable pub main_program : ℕ → System → List Choice → Exit
  main_program fuel sys choices =
      elim (parser_parameter_get sys.strtoul sys.strtof sys.is_regular choices unset) [
        | refused ↦ stopped 1
        | fault ↦ crashed
        | helped o ↦ schedule fuel sys o
        | accepted o ↦ schedule fuel sys o
      ]
