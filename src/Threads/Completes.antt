-- ===== src/Threads/Completes.antt =====
-- src/scheduler.c and src/task.c: the threads come to an end, the joins of `scheduler_deinit`
-- included, which wait for the workers to leave their loops.
use mathlib.Core.Path.{subst}
use soa_p1_grupo_cu.Base.{
  ℕ, zero, suc, ◌≡◌, ◌≢◌, ◌≤◌, refl, true, false, some, List, [], ◌∷◌, All, length, get_elem?, ◌⊎◌,
  inl, inr, Bool-cases,
}
use soa_p1_grupo_cu.Base.Float.{Floats, IsIeee}
use soa_p1_grupo_cu.Task.{is_finished, Task, Node}
use soa_p1_grupo_cu.Task.Series.{Converges}
use soa_p1_grupo_cu.Scheduler.{Config, Sched}
use soa_p1_grupo_cu.Scheduler.Nodes.{All-get_elem?}
use soa_p1_grupo_cu.Scheduler.Round.{IsNode}
use soa_p1_grupo_cu.Scheduler.Progress.{Complete, Stopped, Ended}
use soa_p1_grupo_cu.Threads.{Worker, at_head, computing, exited, is_exited, Move, quit}
use soa_p1_grupo_cu.Threads.Wait.{Resting}
use soa_p1_grupo_cu.Threads.Machine.{
  Point, in_wait, after_wait, choosing, stopped, Machine, is_awake, Active, work, Runs, turns,
}
use soa_p1_grupo_cu.Threads.Invariant.{RestAt, Valid}
use soa_p1_grupo_cu.Threads.Agree.{Runs-Valid}
use soa_p1_grupo_cu.Threads.Live.{Runs-goes_on}
use soa_p1_grupo_cu.Threads.Ends.{Runs-Ended}

whether_stopped : (p : Point) → (p ≡ stopped) ⊎ (p ≢ stopped)
whether_stopped in_wait = inr (λ e. cc)
whether_stopped after_wait = inr (λ e. cc)
whether_stopped choosing = inr (λ e. cc)
whether_stopped stopped = inl refl

module _ ⦃fl : Floats⦄ where
  -- The main loop has ended and every worker has left its loop, so all the joins return.
  pub record IsOver (m : Machine) : Type 0 where
    pub ended : m.point ≡ stopped
    pub left :
        (i : ℕ) (n : Node) → get_elem? m.sched.nodes i ≡ some n → is_exited (m.workers i) ≡ true

module _ ⦃fl : Floats⦄ (c : Config) where
  abbrev AllOut : List Node → (ℕ → Worker) → Type 0
  AllOut nodes wks = (i : ℕ) (n : Node) → get_elem? nodes i ≡ some n → is_exited (wks i) ≡ true

  -- All workers have left, or one has not.
  find-inside :
      (nodes : List Node) (wks : ℕ → Worker)
      → AllOut nodes wks
        ⊎ ((i : ℕ) × (n : Node) × (get_elem? nodes i ≡ some n) × (is_exited (wks i) ≡ false))
  find-inside [] wks = inl (λ i n at. absurd (cc))
  find-inside (n ∷ nodes) wks = elim (Bool-cases (is_exited (wks 0))) [
    | inr stays ↦ inr (0, n, refl, stays)
    | inl out ↦ elim (find-inside nodes (λ k. wks (suc k))) [
      | inr (i, m, at, stays) ↦ inr (suc i, m, at, stays)
      | inl all ↦ inl (all_out out all)
    ]
  ]
    where
      all_out : is_exited (wks 0) ≡ true → AllOut nodes (λ k. wks (suc k)) → AllOut (n ∷ nodes) wks
      all_out out all zero m at = out
      all_out out all (suc i) m at = all i m at

  -- A worker that rests with a FINISHED task leaves.
  quits :
      (W : ℕ) (wk : Worker) (t : Task)
      → Resting c.quantum wk t
      → is_exited wk ≡ false
      → is_finished t.state ≡ true
      → (wk' : Worker) × (mv : Move c.quantum W wk t wk' t) × (is_awake c.quantum mv ≡ true)
  quits W at_head t rest stays done = (exited, quit done, refl)
  quits W (computing k) t rest stays done = absurd (cc (rest.not_computing))
  quits W exited t rest stays done = absurd (cc)

  module _ (conv : Converges) (ieee : IsIeee fl) (rng : ℕ) (ns : List Node) where
    Ended-finished :
        (s : Sched)
        → Ended conv ieee c s
        → (i : ℕ) (n : Node) → get_elem? s.nodes i ≡ some n
        → is_finished n.task.state ≡ true
    Ended-finished s (inl all) i n at = (All-get_elem? Complete i s.nodes n at all).state
    Ended-finished s (inr (cap, past, all)) i n at =
        (All-get_elem? Stopped i s.nodes n at all).state

    stopped-goes_on :
        {m : Machine} (run : Runs c rng ns m)
        → All IsNode ns
        → length ns ≤ 25
        → m.point ≡ stopped
        → IsOver m ⊎ ((m' : Machine) × Active c m' m)
    stopped-goes_on {m} run h few at = elim (find-inside m.sched.nodes m.workers) [
      | inl all ↦ inl (record { ended = at; left = all })
      | inr (i, n, here, stays) ↦
          let rest =
            (subst (λ p. Valid c rng ns (turns c run) p m.sched m.workers) at
              (Runs-Valid c rng ns run)).rest in
          let done = Ended-finished m.sched (Runs-Ended c rng ns conv ieee run h few at) i n here in
          let (wk, mv, awake) =
            quits n.work_units (m.workers i) n.task
              (subst (λ o. RestAt c o (m.workers i)) here (rest i)) stays done in
          inr (_, (work i here mv, awake))
    ]

    -- Unless all is over, some thread has a step.
    pub IsOver-or_on :
        {m : Machine} (run : Runs c rng ns m)
        → All IsNode ns
        → length ns ≤ 25
        → IsOver m ⊎ ((m' : Machine) × Active c m' m)
    IsOver-or_on {m} run h few = elim (whether_stopped m.point) [
      | inl at ↦ stopped-goes_on run h few at
      | inr more ↦ inr (Runs-goes_on c rng ns run more)
    ]
