-- ===== src/Threads/Halt.antt =====
-- src/scheduler.c and src/task.c: the threads cannot work for ever.
use mathlib.Core.Path.{subst}
use mathlib.Core.WellFounded.{Acc}
use soa_p1_grupo_cu.Base.{
  ℕ, zero, suc, ◌+◌, ◌-◌, ◌*◌, ◌≡◌, ◌≤◌, ◌<◌, arith, sym, ap, true, none, some, Option, List, All,
  length, get_elem?, modify,
}
use soa_p1_grupo_cu.Base.Float.{Floats, IsIeee}
use soa_p1_grupo_cu.Task.{is_running, Task, Node}
use soa_p1_grupo_cu.Task.Series.{Converges}
use soa_p1_grupo_cu.Scheduler.{Config, Sched}
use soa_p1_grupo_cu.Scheduler.Round.{IsNode}
use soa_p1_grupo_cu.Scheduler.Turns.{remaining}
use soa_p1_grupo_cu.Threads.{Worker, Move, changed}
use soa_p1_grupo_cu.Threads.Wait.{is_computing, During-computing}
use soa_p1_grupo_cu.Threads.Machine.{
  Point, in_wait, after_wait, choosing, stopped, Machine, Acts, work, wake, log_back, go_on, stop,
  with_task, is_awake, is_active, Active, Runs, acted, turns,
}
use soa_p1_grupo_cu.Threads.Invariant.{Pairing, RestAt, Valid}
use soa_p1_grupo_cu.Threads.Agree.{Runs-Valid}
use soa_p1_grupo_cu.Threads.Load.{Computes, worth, Move-worth, load, load-changed}
use soa_p1_grupo_cu.Threads.Ends.{Runs-turns}

module _ ⦃fl : Floats⦄ (c : Config) where
  Pairing-Computes :
      (o : Option Node) (n : Node) (wk : Worker)
      → Pairing c o (some n) wk
      → is_computing wk ≡ true
      → is_running n.task.state ≡ true
  Pairing-Computes none n wk p comp = absurd p
  Pairing-Computes (some n0) n wk (e, d) comp = During-computing c.quantum d comp

  Rest-Computes : (n : Node) (wk : Worker) → RestAt c (some n) wk → Computes c.quantum wk n.task
  Rest-Computes n wk rest comp = absurd (cc (comp, rest.not_computing))

  module _ (rng : ℕ) (ns : List Node) where
    pub Valid-Computes :
        (k : ℕ) (p : Point) (s : Sched) (wks : ℕ → Worker) (i : ℕ) (n : Node)
        → Valid c rng ns k p s wks
        → get_elem? s.nodes i ≡ some n
        → Computes c.quantum (wks i) n.task
    Valid-Computes k in_wait s wks i n (lead, w) at =
        Pairing-Computes (get_elem? lead.nodes i) n (wks i)
          (subst (λ o. Pairing c (get_elem? lead.nodes i) o (wks i)) at (w.pairs i))
    Valid-Computes k after_wait s wks i n (lead, h) at =
        Rest-Computes n (wks i) (subst (λ o. RestAt c o (wks i)) at (h.rest i))
    Valid-Computes k choosing s wks i n (lead, h) at =
        Rest-Computes n (wks i) (subst (λ o. RestAt c o (wks i)) at (h.rest i))
    Valid-Computes k stopped s wks i n d at =
        Rest-Computes n (wks i) (subst (λ o. RestAt c o (wks i)) at (d.rest i))

    -- The steps of the scheduler thread to the end of its turn.
    abbrev steps_left : Point → ℕ
    steps_left in_wait = 3
    steps_left after_wait = 2
    steps_left choosing = 1
    steps_left stopped = 0

    abbrev stage : {m : Machine} → Runs c rng ns m → ℕ
    stage {m} run = 3 * (remaining ns - turns c run) + steps_left m.point

    abbrev load_of : Machine → ℕ
    load_of m = load (worth c.quantum) 0 m.sched.nodes m.workers

    work-load :
        {m : Machine} (run : Runs c rng ns m) (i : ℕ) {n : Node} {wk : Worker} {t : Task}
        → get_elem? m.sched.nodes i ≡ some n
        → (mv : Move c.quantum n.work_units (m.workers i) n.task wk t)
        → is_awake c.quantum mv ≡ true
        → load_of (record m { sched = with_task i t m.sched; workers = changed m.workers i wk })
          < load_of m
    work-load {m} run i {n} {wk} {t} at mv awake =
        let comp =
          Valid-Computes (turns c run) m.point m.sched m.workers i n (Runs-Valid c rng ns run) at in
        let f : Node → Node = λ x. record x { task = t } in
        let here : 0 + i ≡ i = omega arith in
        let less =
          subst (λ p. worth c.quantum wk (f n) < worth c.quantum (m.workers p) n) (sym here)
            (Move-worth c.quantum n mv awake comp) in
        subst
          (λ p.
            load (worth c.quantum) 0 (modify f i m.sched.nodes) (changed m.workers p wk)
            < load_of m)
          here (load-changed (worth c.quantum) f 0 i m.sched.nodes m.workers wk at less)

    module _ (conv : Converges) (ieee : IsIeee fl) (h : All IsNode ns) (few : length ns ≤ 25) where
      abbrev Lower : ℕ → Type 0
      Lower s = (m' : Machine) (run' : Runs c rng ns m') → stage run' < s → Acc (Active c) m'

      abbrev Lighter : ℕ → ℕ → Type 0
      Lighter s l =
          (m' : Machine) (run' : Runs c rng ns m')
          → stage run' ≤ s
          → load_of m' < l
          → Acc (Active c) m'

      -- A step takes from the stage, or keeps it and takes from the load.
      step-Acc :
          (s : ℕ) {m m' : Machine} (run : Runs c rng ns m)
          → Lower s
          → Lighter s (load_of m)
          → stage run ≤ s
          → (act : Acts c m m') → is_active c act ≡ true
          → Acc (Active c) m'
      unfolding turns
      step-Acc s {m} run lower lighter le (work i at mv) active =
          lighter _ (acted run (work i at mv)) le (work-load run i at mv active)
      step-Acc s {m} run lower lighter le (wake at idle) active =
          lower _ (acted run (wake at idle)) (omega (arith, le, ap steps_left at))
      step-Acc s {m} run lower lighter le (log_back at) active =
          lower _ (acted run (log_back at)) (omega (arith, le, ap steps_left at))
      step-Acc s {m} run lower lighter le (go_on at e) active =
          let bound = Runs-turns c rng ns conv ieee (acted run (go_on at e)) h few in
          let one = ap steps_left at in
          lower _ (acted run (go_on at e)) (omega (arith, bound, le, one))
      step-Acc s {m} run lower lighter le (stop at e) active =
          lower _ (acted run (stop at e)) (omega (arith, le, ap steps_left at))

      load-Acc :
          (s : ℕ)
          → Lower s
          → (l : ℕ) (m : Machine) (run : Runs c rng ns m) → stage run ≤ s
          → load_of m ≤ l
          → Acc (Active c) m
      load-Acc s lower zero m run le small = Acc.intro m (λ m' (act, active).
          step-Acc s run lower (λ m'' run'' le'' less. absurd (omega (arith, less, small))) le act
            active)
      load-Acc s lower (suc l) m run le small = Acc.intro m (λ m' (act, active).
          step-Acc s run lower
            (λ m'' run'' le'' less. load-Acc s lower l m'' run'' le'' (omega (arith, less, small)))
            le act active)

      stage-Acc : (s : ℕ) (m : Machine) (run : Runs c rng ns m) → stage run ≤ s → Acc (Active c) m
      stage-Acc zero m run le =
          load-Acc 0 (λ m' run' less. absurd (omega (arith, less))) (load_of m) m run le
            (omega arith)
      stage-Acc (suc s) m run le =
          load-Acc (suc s) (λ m' run' less. stage-Acc s m' run' (omega (arith, less))) (load_of m) m
            run le (omega arith)

      -- If none of the first 2^32 terms of the series overflows and the floating point numbers are
      -- as `IsIeee` says, over at most 25 tasks that satisfy the invariant: from a machine that
      -- some interleaving reaches, every chain of steps comes to its end, if none of them is to
      -- sleep on.
      pub Runs-halts : {m : Machine} → Runs c rng ns m → Acc (Active c) m
      Runs-halts {m} run = stage-Acc (stage run) m run (omega arith)
