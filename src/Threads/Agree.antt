-- ===== src/Threads/Agree.antt =====
-- src/scheduler.c and src/task.c: every interleaving of the threads agrees with the sequential main
-- loop.
use mathlib.Core.Path.{subst}
use soa_p1_grupo_cu.Base.{
  ℕ, suc, ◌+◌, arith, ◌≡◌, refl, sym, ap, ◌∙◌, false, none, some, Option, List, get_elem?, inl, inr,
}
use soa_p1_grupo_cu.Base.Float.{Floats}
use soa_p1_grupo_cu.Task.{Node, task_shutdown_all, task_transition_to_running}
use soa_p1_grupo_cu.Scheduler.{
  Config, Sched, again, leave, on_task, settle, decide, turn, main_loop, scheduler_main_loop, start,
}
use soa_p1_grupo_cu.Scheduler.Fuel.{main_loop-agree}
use soa_p1_grupo_cu.Threads.{Worker}
use soa_p1_grupo_cu.Threads.Wait.{is_computing, untouched}
use soa_p1_grupo_cu.Threads.Machine.{
  stopped, Machine, Acts, work, wake, log_back, go_on, stop, counted, Runs, begun, acted, turns,
}
use soa_p1_grupo_cu.Threads.Invariant.{Leads, Pairing, RestAt, Rest, when_awake, Valid}
use soa_p1_grupo_cu.Threads.Follow.{work-Valid}
use soa_p1_grupo_cu.Threads.Control.{
  wake-Holding, IsIdle, compensation-IsIdle, shut_down-IsIdle, Rest-Keeps, modify-from,
  settle-Keeps, shutdown-Keeps, Sent, decide-Sent,
}

module _ ⦃fl : Floats⦄ (c : Config) (rng : ℕ) (ns : List Node) where
  -- A node that has not been touched since the wait began.
  Pairing-fresh :
      (o : Option Node) (wk : Worker)
      → ((n : Node) → o ≡ some n → is_computing wk ≡ false)
      → Pairing c o o wk
  Pairing-fresh none wk out = tt
  Pairing-fresh (some n) wk out = (refl, untouched refl (out n refl))

  begun-Waiting :
      (nodes : List Node) (wks : ℕ → Worker)
      → ((i : ℕ) → is_computing (wks i) ≡ false)
      → (i : ℕ) → Pairing c (get_elem? nodes i) (get_elem? nodes i) (wks i)
  begun-Waiting nodes wks out i = Pairing-fresh (get_elem? nodes i) (wks i) (λ n at. out i)

  -- What the loop does after a turn that goes on.
  Leads-again :
      (k : ℕ) (lead s s' : Sched)
      → Leads c rng ns k lead
      → s ≡ settle c (when_awake c lead)
      → decide c s ≡ again s'
      → Leads c rng ns (suc k) s'
  unfolding main_loop turn
  Leads-again k lead s s' leads same e fuel =
      let count : suc k + fuel ≡ k + suc fuel = omega arith in
      ap (λ f. scheduler_main_loop f c rng ns) count
      ∙ leads (suc fuel)
      ∙ rw (sym (ap (decide c) same) ∙ e, main_loop) refl

  Leads-leave :
      (k : ℕ) (lead s s' : Sched)
      → Leads c rng ns k lead
      → s ≡ settle c (when_awake c lead)
      → decide c s ≡ leave s'
      → scheduler_main_loop (k + 1) c rng ns ≡ some s'
  unfolding main_loop turn
  Leads-leave k lead s s' leads same e = leads 1 ∙ rw (sym (ap (decide c) same) ∙ e, main_loop) refl

  pub Leads-unfinished :
      (k : ℕ) (lead : Sched) → Leads c rng ns k lead → scheduler_main_loop k c rng ns ≡ none
  unfolding main_loop
  Leads-unfinished k lead leads =
      let count : k ≡ k + 0 = omega arith in
      ap (λ f. scheduler_main_loop f c rng ns) count ∙ leads 0

  -- The worker of a node that is there does not compute.
  Rest-still :
      (nodes : List Node) (wks : ℕ → Worker) (i : ℕ) (n : Node)
      → Rest c nodes wks
      → get_elem? nodes i ≡ some n
      → is_computing (wks i) ≡ false
  Rest-still nodes wks i n rest at = (subst (λ o. RestAt c o (wks i)) at (rest i)).not_computing

  Sent-still :
      (nodes : List Node) (s' : Sched) (wks : ℕ → Worker)
      → Rest c nodes wks
      → Sent c nodes (again s')
      → (i : ℕ) (n : Node) → get_elem? s'.nodes i ≡ some n
      → is_computing (wks i) ≡ false
  Sent-still nodes s' wks rest (inl same) i n at =
      Rest-still nodes wks i n rest (ap (λ x. get_elem? x i) (sym same) ∙ at)
  Sent-still nodes s' wks rest (inr (g, w, same)) i n at =
      let (m, before, how) =
        modify-from c (on_task (λ t. (task_transition_to_running t g).0)) w nodes i n
          (ap (λ x. get_elem? x i) (sym same) ∙ at) in
      Rest-still nodes wks i m rest before

  left-Rest :
      (nodes : List Node) (s' : Sched) (wks : ℕ → Worker)
      → Rest c nodes wks
      → Sent c nodes (leave s')
      → Rest c s'.nodes wks
  left-Rest nodes s' wks rest (inl shut) =
      subst (λ x. Rest c x wks) (sym shut)
        (Rest-Keeps c nodes (task_shutdown_all nodes) wks
          (shutdown-Keeps c (IsIdle c) nodes (shut_down-IsIdle c)) rest)
  left-Rest nodes s' wks rest (inr same) = subst (λ x. Rest c x wks) (sym same) rest

  Acts-Valid :
      {m m' : Machine} (k : ℕ) (act : Acts c m m')
      → Valid c rng ns k m.point m.sched m.workers
      → Valid c rng ns (counted c act k) m'.point m'.sched m'.workers
  Acts-Valid {m} k (work i at mv) v = work-Valid c rng ns k m.point m.sched m.workers i at mv v
  Acts-Valid {m} k (wake at idle) v =
      let (lead, w) = subst (λ p. Valid c rng ns k p m.sched m.workers) at v in
      (lead, wake-Holding c rng ns k lead m.sched m.workers w idle)
  Acts-Valid {m} k (log_back at) v =
      let (lead, h) = subst (λ p. Valid c rng ns k p m.sched m.workers) at v in
      (
        lead,
        record {
          leads = h.leads;
          same = ap (settle c) h.same;
          rest =
              Rest-Keeps c m.sched.nodes (settle c m.sched).nodes m.workers
                (settle-Keeps c (IsIdle c) m.sched (compensation-IsIdle c)) h.rest;
        },
      )
  Acts-Valid {m} k (go_on {s = s'} at e) v =
      let (lead, h) = subst (λ p. Valid c rng ns k p m.sched m.workers) at v in
      let sent = subst (Sent c m.sched.nodes) e (decide-Sent c m.sched) in
      (
        s',
        record {
          leads = Leads-again k lead m.sched s' h.leads h.same e;
          same = refl;
          pairs = λ i.
              Pairing-fresh (get_elem? s'.nodes i) (m.workers i)
                (Sent-still m.sched.nodes s' m.workers h.rest sent i);
        },
      )
  Acts-Valid {m} k (stop {s = s'} at e) v =
      let (lead, h) = subst (λ p. Valid c rng ns k p m.sched m.workers) at v in
      record {
        unfinished = Leads-unfinished k lead h.leads;
        result = Leads-leave k lead m.sched s' h.leads h.same e;
        rest =
            left-Rest m.sched.nodes s' m.workers h.rest
              (subst (Sent c m.sched.nodes) e (decide-Sent c m.sched));
      }

  pub Runs-Valid :
      {m : Machine} (run : Runs c rng ns m) → Valid c rng ns (turns c run) m.point m.sched m.workers
  unfolding scheduler_main_loop turns
  Runs-Valid begun = (
    start rng ns,
    record {
      leads = λ fuel. ap (λ f. main_loop f c (start rng ns)) (omega arith);
      same = refl;
      pairs = begun-Waiting ns (λ i. Worker.at_head) (λ i. refl);
    },
  )
  Runs-Valid (acted before last) = Acts-Valid (turns c before) last (Runs-Valid before)

  -- However the threads interleave: when the main loop has ended, the scheduler's variables, the
  -- tasks and the log are those with which the sequential main loop ends, after as many turns.
  pub Runs-main_loop :
      {m : Machine} (run : Runs c rng ns m)
      → m.point ≡ stopped
      → scheduler_main_loop (turns c run + 1) c rng ns ≡ some m.sched
  Runs-main_loop {m} run at =
      (subst (λ p. Valid c rng ns (turns c run) p m.sched m.workers) at (Runs-Valid run)).result

  -- Two runs of the threads from the same tasks and the same state of the generator, however they
  -- interleave, have the same tasks, the same log and the same variables of the scheduler when the
  -- main loop has ended in both.
  pub Runs-agree :
      {m m' : Machine}
      → Runs c rng ns m
      → Runs c rng ns m'
      → m.point ≡ stopped
      → m'.point ≡ stopped
      → m.sched ≡ m'.sched
  unfolding scheduler_main_loop
  Runs-agree {m} {m'} run run' at at' =
      main_loop-agree c (turns c run + 1) (turns c run' + 1) (start rng ns) m.sched m'.sched
        (Runs-main_loop run at) (Runs-main_loop run' at')
