-- ===== src/Scheduler/Round.antt =====
-- The whole of one dispatch for the task that wins, and the invariant of a node between dispatches.
use soa_p1_grupo_cu.Base.{◌↔◌}
use native.Mathlib.Decide.{dec_lt}
use mathlib.Core.Path.{subst}
use soa_p1_grupo_cu.Base.{ℕ, ◌^◌, ◌≤◌, ◌<◌, ◌≡◌, refl, sym, ap, true, false, arith}
use soa_p1_grupo_cu.Base.Float.{Floats, IsIeee}
use soa_p1_grupo_cu.Task.{
  TaskState, ready, running, finished, is_ready, is_running, Task, Node, dispatched,
  task_transition_to_running, task_apply_compensation,
}
use soa_p1_grupo_cu.Task.Work.{task_do_work_unit}
use soa_p1_grupo_cu.Task.Series.{series, Converges}
use soa_p1_grupo_cu.Task.Compensation.{FractionFits, Compensated, apply_compensation-Compensated}
use soa_p1_grupo_cu.Task.Dispatch.{reached, Round, do_work_unit-Round}
use soa_p1_grupo_cu.Scheduler.{Config, on_task}
use soa_p1_grupo_cu.Scheduler.Nodes.{Idle, to_running}

-- Between dispatches a task with work left is READY, and one without is FINISHED.
abbrev pub AtRest : TaskState → ℕ → ℕ → Type 0
AtRest ready done units = done < units
AtRest running done units = ⊥
AtRest finished done units = done ≡ units

module _ ⦃fl : Floats⦄ where
  pub record IsNode (n : Node) : Type 0 where
    pub matched : n.task.work_units ≡ n.work_units
    pub small : n.work_units < 2 ^ 32
    pub in_step : n.task.pi ≡ series n.task.work_units_done
    pub at_rest : AtRest n.task.state n.task.work_units_done n.work_units
    pub tickets_pos : 0 < n.task.tickets
    pub tickets_small : n.task.tickets < 2 ^ 32
    pub stake_pos : 0 < n.task.effective_tickets
    pub stake_small : n.task.effective_tickets < 2 ^ 32
    pub fraction : FractionFits n.task

  pub IsNode-Idle : (n : Node) → IsNode n → Idle n
  IsNode-Idle n h = go n.task.state h.at_rest
    where
      go : (s : TaskState) → AtRest s n.task.work_units_done n.work_units → is_running s ≡ false
      go ready a = refl
      go running a = absurd a
      go finished a = refl

  -- Dispatch number `g` of node `n`: to RUNNING, the worker's round, the compensation.
  unfoldable pub play : Config → ℕ → Node → Node
  play c g n =
      on_task (λ t. task_apply_compensation t c.compensation)
        (task_do_work_unit c.quantum (to_running g n))

  pub ready-more :
      (n : Node) → IsNode n → is_ready n.task.state ≡ true → n.task.work_units_done < n.work_units
  ready-more n h r = go n.task.state r h.at_rest
    where
      go :
          (s : TaskState)
          → is_ready s ≡ true
          → AtRest s n.task.work_units_done n.work_units
          → n.task.work_units_done < n.work_units
      go ready r a = a
      go running r a = absurd a
      go finished r a = absurd (cc)

  -- What a dispatch of a READY node gives.
  pub record Played (c : Config) (n n' : Node) : Type 0 where
    pub is_node : IsNode n'
    pub same_id : n'.id ≡ n.id
    pub same_units : n'.work_units ≡ n.work_units
    pub progress : n.task.work_units_done < n'.task.work_units_done
    pub done : n'.task.work_units_done ≡ reached c.quantum n.work_units n.task

  AtRest-of :
      (s : TaskState) (done units : ℕ)
      → done ≤ units
      → ((s ≡ finished) ↔ (done ≡ units))
      → ((s ≡ ready) ↔ (done < units))
      → AtRest s done units
  AtRest-of s done units le ended yielded = elim (dec_lt done units) [
    | yes more ↦ subst (λ x. AtRest x done units) (sym (yielded.1 more)) more
    | no all ↦
        let e : done ≡ units = omega arith in subst (λ x. AtRest x done units) (sym (ended.1 e)) e
  ]

  abbrev sent : ℕ → Node → Node
  sent g n = record n { task = dispatched g n.task }

  -- The three parts of a dispatch put together.
  Played-of :
      (c : Config) (g : ℕ) (n : Node) (t t' : Task)
      → IsNode n
      → is_ready n.task.state ≡ true
      → Round c.quantum (sent g n) t
      → Compensated t t' c.compensation
      → Played c n (record n { task = t' })
  Played-of c g n t t' h r round comp = record {
    is_node = record {
      matched = ground (arith, round.rest, comp.only_stake);
      small = h.small;
      in_step = ground (arith, round.in_step, comp.only_stake);
      at_rest =
          subst (λ x. AtRest x.state x.work_units_done n.work_units) (sym comp.only_stake)
            (AtRest-of t.state t.work_units_done n.work_units (omega (arith, round.done))
              round.ended round.yielded);
      tickets_pos = ground (arith, round.rest, comp.only_stake);
      tickets_small = ground (arith, round.rest, comp.only_stake);
      stake_pos = ground (arith, round.rest, comp.not_less);
      stake_small = ground (arith, comp.fits);
      fraction = ground (arith, round.rest, comp.only_stake, h.fraction);
    };
    same_id = refl;
    same_units = refl;
    progress = ground (arith, comp.only_stake, round.progress);
    done = ground (arith, comp.only_stake, round.done);
  }

  play_parts :
      (c : Config) (g : ℕ) (n : Node)
      → is_ready n.task.state ≡ true
      → play c g n ≡ record n {
        task = task_apply_compensation (task_do_work_unit c.quantum (sent g n)).task c.compensation;
      }
  unfolding play on_task task_do_work_unit task_transition_to_running
  play_parts c g n r = rw r

  module _ (conv : Converges) (ieee : IsIeee fl) (c : Config) (g : ℕ) where
    -- If none of the first 2^32 terms of the series overflows and the floating point numbers are as
    -- `IsIeee` says: a dispatch of a READY node that satisfies the invariant keeps its invariant
    -- and does as many units as its allotment gives it and its work needs, at least one.
    pub play-Played : (n : Node) → IsNode n → is_ready n.task.state ≡ true → Played c n (play c g n)
    play-Played n h r =
        let round =
          do_work_unit-Round conv c.quantum (sent g n) h.in_step (ready-more n h r) h.small in
        let t = (task_do_work_unit c.quantum (sent g n)).task in
        let same = round.rest in
        rw (play_parts c g n r) (
          Played-of c g n t (task_apply_compensation t c.compensation) h r round (
            apply_compensation-Compensated ieee t c.compensation
              (omega (arith, ap (λ (x : Task). x.tickets) same))
              (rw (ap (λ (x : Task). x.yield_fraction) same) h.fraction)))
