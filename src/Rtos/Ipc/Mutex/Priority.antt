-- ===== src/Rtos/Ipc/Mutex/Priority.antt =====
-- The priority of a thread that holds mutexes of src/rtos/ipc.rs
use hc32f460jeua_evb.Base.{
  ℕ, Option, none, some, List, [], ◌∷◌, ◌≡◌, refl, sym, ap, ◌∙◌, ◌==◌, erase, count, arith,
  Bool-cases, inl, inr, subst, ==→eq, ◌<◌, ◌≤◌,
}
use hc32f460jeua_evb.Rtos.Kernel.{Kernel, ThreadState}
use hc32f460jeua_evb.Rtos.Sched.{change_priority}
use hc32f460jeua_evb.Rtos.Sched.Effects.{
  field_of_others, Reprioritised, change_priority-Reprioritised,
}
use hc32f460jeua_evb.Rtos.Sched.Operations.{change_priority-IsReady}
use hc32f460jeua_evb.Rtos.Sched.Invariant.{stands_on}
use hc32f460jeua_evb.Rtos.Ipc.Invariant.{IsKernel, set_thread-IsKernel}
use hc32f460jeua_evb.Rtos.Ipc.Mutex.{set_mutex, least_of, first_priority, drop_ownership}

none-some : (p : ℕ) → none ≡ some p → ⊥
none-some p h = cc

keeps_order :
    (t prio : ℕ) (k : Kernel) → prio < 32 → IsKernel k → IsKernel (change_priority t prio k)
keeps_order t prio k low v = record {
  ready = change_priority-IsReady t prio k low v.ready;
  waiting = λ u q.
      ap (λ f. count u (f q)) r.suspended
      ∙ v.waiting u q
      ∙ ap (λ n. stands_on n q)
          (sym (
            field_of_others (λ a. a.suspend_node) t u k (change_priority t prio k) r.others
              r.suspend_node));
  held = λ u q h. elim (Bool-cases (t == u)) [
    | inl same ↦
        subst
          (λ a. ((k'.thread a).state ≡ ThreadState.ts_suspend) × ((k'.thread a).ready_node ≡ none))
          (==→eq t u same)
          (let w =
              v.held t q
                (sym r.suspend_node ∙ ap (λ a. (k'.thread a).suspend_node) (==→eq t u same) ∙ h) in
            (r.state ∙ w.0, r.unlinked w.1))
    | inr other ↦
        rw (r.others u other) (v.held u q (ap (λ a. a.suspend_node) (sym (r.others u other)) ∙ h))
  ];
  runnable = λ u p h. elim (Bool-cases (t == u)) [
    | inl same ↦
        subst (λ a. (k'.thread a).state ≡ ThreadState.ts_ready) (==→eq t u same)
          (r.state
            ∙ was_ready (k.thread t).ready_node refl p
                (ap (λ a. (k'.thread a).ready_node) (==→eq t u same) ∙ h))
    | inr other ↦
        rw (r.others u other) (v.runnable u p (ap (λ a. a.ready_node) (sym (r.others u other)) ∙ h))
  ];
  priorities = λ u. elim (Bool-cases (t == u)) [
    | inl same ↦
        subst (λ a. (k'.thread a).current_priority < 32) (==→eq t u same) (rw r.priority low)
    | inr other ↦ rw (r.others u other) (v.priorities u)
  ];
  armed = rw r.timers v.armed;
}
  where
    k' : Kernel
    k' = change_priority t prio k

    r : Reprioritised t prio k (change_priority t prio k)
    r = change_priority-Reprioritised t prio k

    was_ready :
        (o : Option ℕ)
        → (k.thread t).ready_node ≡ o
        → (p : ℕ) → (k'.thread t).ready_node ≡ some p
        → (k.thread t).state ≡ ThreadState.ts_ready
    was_ready none e p h = absurd (none-some p (sym (r.unlinked e) ∙ h))
    was_ready (some q) e p h = v.runnable t q e

-- The priority of a thread becomes a given one below 32. The thread keeps its state and its link to a list,
-- it is on a ready queue exactly if it was, the other threads, the lists of waiting threads, the mutexes and
-- the timers are as before, and the kernel stays in order: a thread on a ready queue moves to that of its
-- new priority.
pub change_priority-IsKernel :
    (t prio : ℕ) (k : Kernel)
    → prio < 32
    → IsKernel k
    → IsKernel (change_priority t prio k) × Reprioritised t prio k (change_priority t prio k)
change_priority-IsKernel t prio k low v =
    (keeps_order t prio k low v, change_priority-Reprioritised t prio k)

pub drop_ownership-IsKernel :
    (m t hold : ℕ) (k : Kernel) → IsKernel k → IsKernel (drop_ownership m t hold k)
unfolding drop_ownership set_mutex
drop_ownership-IsKernel m t hold k v =
    set_thread-IsKernel t (record (k.thread t) { taken_list = erase m (k.thread t).taken_list })
      (set_mutex k m (record (k.mutex m) { owner = none; hold = hold })) refl refl refl refl
      (record {
        ready = record {
          queues = record {
            queued = v.ready.queues.queued;
            at_priority = v.ready.queues.at_priority;
            word = v.ready.queues.word;
          };
          bits = v.ready.bits;
        };
        waiting = v.waiting;
        held = v.held;
        runnable = v.runnable;
        priorities = v.priorities;
        armed = v.armed;
      })

first_priority-le : (l : List ℕ) (k : Kernel) (p : ℕ) → first_priority l k p ≤ p
unfolding first_priority
first_priority-le [] k p = omega arith
first_priority-le (w ∷ ws) k p = omega arith

-- The effective priority is at most the thread's own.
pub least_of-le : (ms : List ℕ) (k : Kernel) (p : ℕ) → least_of ms k p ≤ p
unfolding least_of
least_of-le [] k p = omega arith
least_of-le (m ∷ ms) k p = omega (
  arith,
  least_of-le ms k (first_priority (k.suspended (k.mutex m).suspend_list) k p),
  first_priority-le (k.suspended (k.mutex m).suspend_list) k p,
)
