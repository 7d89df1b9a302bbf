-- ===== src/Program/Whole.antt =====
-- src/main.c: the whole program with its two output files.
use soa_p1_grupo_cu.Base.{
  ℕ, ◌+◌, ◌*◌, ◌^◌, u32, ◌≤◌, ◌<◌, ◌≡◌, Bool, true, false, Option, some, List, [], ◌∷◌, All, length,
  arith,
}
use soa_p1_grupo_cu.Base.Float.{Floats, IsIeee}
use soa_p1_grupo_cu.Task.{Node}
use soa_p1_grupo_cu.Task.Series.{Converges}
use soa_p1_grupo_cu.Parser.Load.{Entry}
use soa_p1_grupo_cu.Parser.Load.File.{Accepted}
use soa_p1_grupo_cu.Parser.Options.{Choice, Options, unset, accepted, parser_parameter_get, config}
use soa_p1_grupo_cu.Parser.Options.Get.{get-IsUsable}
use soa_p1_grupo_cu.Scheduler.{Sched}
use soa_p1_grupo_cu.Scheduler.Log.{Paired, main_loop-Paired}
use soa_p1_grupo_cu.Scheduler.Account.{logged_units, main_loop-logged_units}
use soa_p1_grupo_cu.Scheduler.Bounded.{IsSmall, main_loop-Bounded}
use soa_p1_grupo_cu.Scheduler.Init.{SlotFits}
use soa_p1_grupo_cu.Scheduler.Readable.{CanRead, main_loop-CanRead}
use soa_p1_grupo_cu.Logger.Files.{FilePath, FileSystem, IsFileSystem}
use soa_p1_grupo_cu.Logger.{
  Piece, Logger, path_text, events_default_path, summary_default_path, path_buff_size,
  logger_init_structure,
}
use soa_p1_grupo_cu.Logger.Summary.{units_done}
use soa_p1_grupo_cu.Program.{System, exited, main_program}
use soa_p1_grupo_cu.Program.Complete.{Healthy, work, main-Looped}
use soa_p1_grupo_cu.Program.Files.{data_of, main_files}
use soa_p1_grupo_cu.Program.Recorded.{Recorded, files-Recorded}
use soa_p1_grupo_cu.Program.Fresh.{configured_fresh}

module _ ⦃fl : Floats⦄ where
  units_bound : (ns : List Node) → All IsSmall ns → units_done (data_of ns) ≤ length ns * 2 ^ 32
  units_bound [] h = omega arith
  units_bound (n ∷ ns) h = omega (arith, h.0, units_bound ns h.1)

  -- How the paths and the files stand before the main loop.
  pub record Prepared (F : FileSystem Piece) (laws : IsFileSystem F) (memory : Bool)
      (day : Option (List ℕ)) (o : Options) (l l' : Logger) (s s1 : F.State)
      (events summary : FilePath) : Type 0 where
    pub events_path : path_text events_default_path day o.log_events_path ≡ some events
    pub summary_path : path_text summary_default_path day o.summary_file_path ≡ some summary
    pub events_fits : length events < path_buff_size
    pub summary_fits : length summary < path_buff_size
    pub apart : laws.Apart events summary
    pub first_run : l.events_initialized ≡ false
    pub initialized :
        logger_init_structure F memory day o.log_events_path o.summary_file_path l s
        ≡ ((l', s1), true)
    pub events_writable : laws.writable s1 events ≡ true
    pub summary_writable : laws.writable s1 summary ≡ true

  module _ (conv : Converges) (ieee : IsIeee fl) (fuel : ℕ) (sys : System) (healthy : Healthy sys)
      (F : FileSystem Piece) (laws : IsFileSystem F) where
    -- What the run and its files are, with the scheduler as it leaves it.
    pub record Whole (choices : List Choice) (memory : Bool) (day : Option (List ℕ))
        (clock : ℕ → Option (List ℕ)) (stamps : ℕ → List ℕ) (o : Options) (l : Logger) (s : F.State)
        (events summary : FilePath) (last : Sched) : Type 0 where
      pub exit : main_program fuel sys choices ≡ exited 0 last
      pub files : F.State
      pub written : main_files F memory day clock o last l s ≡ some files
      pub recorded : Recorded F laws s files events summary stamps last
      pub paired : Paired 1 last.log
      pub counted : (k : ℕ) × (length last.log ≡ 2 * k) × (last.global_dispatch ≡ u32 (1 + k))
      pub readable : All CanRead last.log
      pub accounted :
          All (λ (n : Node). logged_units n.id last.log ≡ n.task.work_units_done) last.nodes

    -- If none of the first 2^32 terms of the series overflows, the floating point numbers are as
    -- `IsIeee` says and nothing of the system fails: for options that are accepted and name a file
    -- that the loader accepts, with ids below 26, and with paths of two different output files,
    -- neither the other under another name, that `logger_init_structure` makes ready, that can then
    -- be written and whose paths fit their buffers, `main` returns 0, if the fuel is more than the
    -- work units of the file. The file of the events then holds a pair of lines for each dispatch,
    -- numbered 1, 2, … as the 32-bit counter goes, that name the same winner; the text of each can
    -- be read back, and the units that the lines give to each task are the units that the task has
    -- done. The file of the summary holds the rows of the tasks as the main loop left them, and no
    -- file apart from the two has changed.
    pub main-Whole :
        (choices : List Choice) (o : Options)
        → parser_parameter_get sys.strtoul sys.strtof sys.is_regular choices unset ≡ accepted o
        → (header : List ℕ) (lines : List (List ℕ))
        → sys.open_lines o.input_file_path ≡ some (header ∷ lines)
        → (es : List Entry) (a : Accepted sys.scan lines es) → All SlotFits a.rows
        → work a.rows < fuel
        → (memory : Bool) (day : Option (List ℕ)) (clock : ℕ → Option (List ℕ))
          (stamps : ℕ → List ℕ)
        → ((k : ℕ) → clock k ≡ some (stamps k))
        → (l l' : Logger) (s s1 : F.State) (events summary : FilePath)
        → Prepared F laws memory day o l l' s s1 events summary
        → (last : Sched) × Whole choices memory day clock stamps o l s events summary last
    main-Whole choices o got header lines opened es a fit enough memory day clock stamps ticks l l'
          s s1 events summary pre =
        let (last, loop) =
          main-Looped conv ieee fuel sys healthy choices o got header lines opened es a fit
            enough in
        let (usable, fits) = get-IsUsable sys.strtoul sys.strtof sys.is_regular choices o got in
        let (fresh, distinct, short) =
          configured_fresh o a.rows loop.nodes usable.how a.distinct fit loop.from_rows in
        let bounded =
          main_loop-Bounded conv ieee (config o) fuel o.seed loop.nodes last loop.is_node loop.few
            loop.looped in
        let (paired, (k, two, counter, unfinished, ended)) =
          main_loop-Paired conv ieee (config o) fuel o.seed loop.nodes last loop.is_node loop.few
            loop.looped in
        let (files, written, recorded) =
          files-Recorded F laws memory day clock stamps o last l l' s s1 events summary
            pre.events_path pre.summary_path pre.events_fits pre.summary_fits pre.apart
            pre.first_run pre.initialized pre.events_writable pre.summary_writable ticks
            (omega (arith, units_bound last.nodes bounded.small, bounded.few)) in
        (
          last,
          record {
            exit = loop.exit;
            files = files;
            written = written;
            recorded = recorded;
            paired = paired;
            counted = (k, two, counter);
            readable =
                main_loop-CanRead conv ieee (config o) fuel o.seed loop.nodes last loop.is_node
                  loop.few short loop.looped;
            accounted =
                main_loop-logged_units conv ieee (config o) fuel o.seed loop.nodes last loop.is_node
                  loop.few distinct fresh loop.looped;
          },
        )
