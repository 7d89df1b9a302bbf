-- ===== src/Scheduler/Configure.antt =====
-- src/scheduler.c: the slices of the two modes.
use mathlib.Core.Path.{subst, sym}
use Prim.Native.Nat.{◌-◌}
use soa_p1_grupo_cu.Base.{
  ℕ, ◌<◌, ◌≡◌, refl, List, [], ◌∷◌, arith, if◌then◌else◌, leb, ◌==◌, u32, All, length, ap,
}
use soa_p1_grupo_cu.Base.Float.{Floats}
use soa_p1_grupo_cu.Task.{Task, Node, task_set_slice}
use soa_p1_grupo_cu.Scheduler.{on_task}
use soa_p1_grupo_cu.Scheduler.Round.{IsNode}
use soa_p1_grupo_cu.Scheduler.Turns.{remaining}

module _ ⦃fl : Floats⦄ where
  -- `(uint64_t)ceilf((float)work_units * percent / 100.0f)`
  unfoldable pub raw_slice : fl.Single → Task → ℕ
  raw_slice percent t =
      fl.single_to_u64
        (fl.ceilf (fl.div_s (fl.mul_s (fl.single t.work_units) percent) (fl.single 100)))

  unfoldable pub cooperative_slice : fl.Single → Task → ℕ
  cooperative_slice percent t = if leb 1 (raw_slice percent t) then u32 (raw_slice percent t) else 1

  unfoldable pub scheduler_configure_cooperative : fl.Single → List Node → List Node
  unfolding on_task
  scheduler_configure_cooperative percent [] = []
  scheduler_configure_cooperative percent (n ∷ ns) =
      on_task (λ t. task_set_slice t (cooperative_slice percent t)) n
      ∷ scheduler_configure_cooperative percent ns

  unfoldable pub scheduler_configure_quantum : ℕ → List Node → List Node
  unfolding on_task
  scheduler_configure_quantum quantum [] = []
  scheduler_configure_quantum quantum (n ∷ ns) =
      on_task (λ t. task_set_slice t (if leb 1 quantum then quantum else 1)) n
      ∷ scheduler_configure_quantum quantum ns

  -- `n'` is `n` with a slice of its own.
  pub record Sliced (slice : Node → ℕ) (n n' : Node) : Type 0 where
    pub size : n'.task.slice_size ≡ slice n
    pub pos : 0 < n'.task.slice_size
    pub rest : n' ≡ record n { task = record n.task { slice_size = n'.task.slice_size } }

  -- Node by node, in order.
  abbrev pub SlicedAll : (Node → ℕ) → List Node → List Node → Type 0
  SlicedAll slice [] [] = Unit
  SlicedAll slice [] (n' ∷ ns') = ⊥
  SlicedAll slice (n ∷ ns) [] = ⊥
  SlicedAll slice (n ∷ ns) (n' ∷ ns') = Sliced slice n n' × SlicedAll slice ns ns'

  -- The slice that the cooperative mode is after, where the 32-bit cut allows it.
  abbrev pub wanted : fl.Single → Node → ℕ
  wanted percent n =
      if u32 (raw_slice percent n.task) == 0 then 1 else u32 (raw_slice percent n.task)

  -- The cooperative mode gives each task, and changes in it, a slice of at least 1 only: the
  -- rounded share of its work modulo 2^32, or 1 where that is 0.
  pub configure_cooperative-SlicedAll :
      (percent : fl.Single) (ns : List Node)
      → SlicedAll (wanted percent) ns (scheduler_configure_cooperative percent ns)
  unfolding scheduler_configure_cooperative cooperative_slice task_set_slice
  configure_cooperative-SlicedAll percent [] = tt
  configure_cooperative-SlicedAll percent (n ∷ ns) = (
    record { size = ground arith; pos = ground arith; rest = refl },
    configure_cooperative-SlicedAll percent ns,
  )

  resliced :
      (k : ℕ) (n : Node) → IsNode n → IsNode (record n { task = record n.task { slice_size = k } })
  resliced k n h = record {
    matched = h.matched;
    small = h.small;
    in_step = h.in_step;
    at_rest = h.at_rest;
    tickets_pos = h.tickets_pos;
    tickets_small = h.tickets_small;
    stake_pos = h.stake_pos;
    stake_small = h.stake_small;
    fraction = h.fraction;
  }

  -- A configured list satisfies the invariant of the main loop as before, with as much work left.
  pub SlicedAll-IsNode :
      (slice : Node → ℕ) (ns ns' : List Node)
      → SlicedAll slice ns ns'
      → All IsNode ns
      → All IsNode ns' × (length ns' ≡ length ns) × (remaining ns' ≡ remaining ns)
  SlicedAll-IsNode slice [] [] s h = (tt, refl, refl)
  SlicedAll-IsNode slice [] (n' ∷ ns') s h = absurd s
  SlicedAll-IsNode slice (n ∷ ns) [] s h = absurd s
  SlicedAll-IsNode slice (n ∷ ns) (n' ∷ ns') (s, ss) (h, hs) =
      let (is, len, left) = SlicedAll-IsNode slice ns ns' ss hs in
      let d : n'.work_units - n'.task.work_units_done ≡ n.work_units - n.task.work_units_done =
        ap (λ (x : Node). x.work_units - x.task.work_units_done) s.rest in
      (
        (subst IsNode (sym s.rest) (resliced n'.task.slice_size n h), is),
        omega arith,
        omega (arith, d),
      )
