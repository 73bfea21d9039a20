-- ===== src/Rtos/Ipc/Suspending.antt =====
-- Suspending a thread, in order of arrival or of priority, keeps the kernel in order.
use hc32f460jeua_evb.Base.{
  ℕ, ◌+◌, ◌<◌, false, Option, none, some, List, [], ◌∷◌, ◌++◌, ◌==◌, if◌then◌else◌, pos, count,
  count-append, ◌≡◌, refl, arith, Bool-cases, inl, inr, ap, sym, ◌∙◌, subst, ==→eq,
}
use hc32f460jeua_evb.Rtos.Timer.Invariant.{IsArmed, start_internal-IsArmed}
use hc32f460jeua_evb.Rtos.Kernel.{Kernel, ThreadInner, ThreadState, suspend_link}
use hc32f460jeua_evb.Rtos.Sched.{ready_remove}
use hc32f460jeua_evb.Rtos.Sched.Invariant.{IsReady, stands_on, ready_remove-IsReady}
use hc32f460jeua_evb.Rtos.Sched.Operations.{set_thread-IsReady}
use hc32f460jeua_evb.Rtos.Sched.Effects.{ReadyRemoved, field_of_others, ready_remove-ReadyRemoved}
use hc32f460jeua_evb.Rtos.Ipc.{
  set_state, start_thread_timer, suspend_current, suspend_prio, insert_prio_waiter, prio_walk,
}
use hc32f460jeua_evb.Rtos.Ipc.Invariant.{
  IsKernel, set_error-IsKernel, suspend_node_remove-IsKernel, suspend_node_remove-off,
}

-- The same while thread `x` is being moved between lists.
record KernelBut (x : ℕ) (k : Kernel) : Type 0 where
  ready : IsReady k
  waiting : (t q : ℕ) → count t (k.suspended q) ≡ stands_on (k.thread t).suspend_node q
  held :
      (t q : ℕ)
      → (x == t) ≡ false
      → (k.thread t).suspend_node ≡ some q
      → ((k.thread t).state ≡ ThreadState.ts_suspend) × ((k.thread t).ready_node ≡ none)
  runnable :
      (t p : ℕ)
      → (x == t) ≡ false
      → (k.thread t).ready_node ≡ some p
      → (k.thread t).state ≡ ThreadState.ts_ready
  priorities : (t : ℕ) → (k.thread t).current_priority < 32
  armed : IsArmed k.timers

-- A list of waiters with one more: each thread as often as before, the new one once more.
abbrev pub Adds : ℕ → List ℕ → List ℕ → Type 0
Adds t l l' = (u : ℕ) → count u l' ≡ (if t == u then 1 else 0) + count u l

suspend_link-KernelBut :
    (q t : ℕ) (l : List ℕ) (k : Kernel)
    → (k.thread t).suspend_node ≡ none
    → Adds t (k.suspended q) l
    → IsKernel k
    → KernelBut t (suspend_link q t l k)
unfolding suspend_link
suspend_link-KernelBut q t l k off adds v = record {
  ready = record {
    queues = record {
      queued = λ u p. ground (arith, v.ready.queues.queued u p);
      at_priority = λ u p h. ground (arith, v.ready.queues.at_priority u p);
      word = v.ready.queues.word;
    };
    bits = v.ready.bits;
  };
  waiting = λ u p. ground (arith, v.waiting u p, adds u);
  held = λ u p ne h. ground (arith, v.held u p);
  runnable = λ u p ne h. ground (arith, v.runnable u p);
  priorities = λ u. ground (arith, v.priorities u);
  armed = v.armed;
}

start_thread_timer-KernelBut :
    (x t : ℕ) (delay : Option ℕ) (k : Kernel)
    → KernelBut x k
    → KernelBut x (start_thread_timer delay t k)
unfolding start_thread_timer
start_thread_timer-KernelBut x t none k v = v
start_thread_timer-KernelBut x t (some delay) k v = record {
  ready = record {
    queues = record {
      queued = v.ready.queues.queued;
      at_priority = v.ready.queues.at_priority;
      word = v.ready.queues.word;
    };
    bits = v.ready.bits;
  };
  waiting = v.waiting;
  held = v.held;
  runnable = v.runnable;
  priorities = v.priorities;
  armed = start_internal-IsArmed _ delay 0 _ t k.timers v.armed;
}

set_state-KernelBut :
    (t : ℕ) (st : ThreadState) (k : Kernel) → KernelBut t k → KernelBut t (set_state t st k)
unfolding set_state
set_state-KernelBut t st k v = record {
  ready = set_thread-IsReady t _ k (refl, refl) v.ready;
  waiting = λ u q. ground (arith, v.waiting u q);
  held = λ u q ne h. ground (arith, v.held u q);
  runnable = λ u p ne h. ground (arith, v.runnable u p);
  priorities = λ u. ground (arith, v.priorities u);
  armed = v.armed;
}

-- Off the ready queue and in the suspended state the thread is no exception any more.
ready_remove-IsKernel :
    (t : ℕ) (k : Kernel)
    → (k.thread t).state ≡ ThreadState.ts_suspend
    → KernelBut t k
    → IsKernel (ready_remove t k)
ready_remove-IsKernel t k st v = record {
  ready = ready_remove-IsReady t k v.ready (v.priorities t);
  waiting = λ u q.
      ap (λ f. count u (f q)) r.suspended
      ∙ v.waiting u q
      ∙ ap (λ n. stands_on n q)
          (sym (
            field_of_others (λ a. a.suspend_node) t u k (ready_remove t k) r.others
              r.suspend_node));
  held = λ u q h. elim (Bool-cases (t == u)) [
    | inl same ↦
        subst
          (λ a.
            (((ready_remove t k).thread a).state ≡ ThreadState.ts_suspend)
            × (((ready_remove t k).thread a).ready_node ≡ none))
          (==→eq t u same) (r.state ∙ st, r.off)
    | inr other ↦
        rw (r.others u other)
          (v.held u q other (ap (λ a. a.suspend_node) (sym (r.others u other)) ∙ h))
  ];
  runnable = λ u p h. elim (Bool-cases (t == u)) [
    | inl same ↦
        let e = ==→eq t u same in
        cc (h, r.off, ap (λ a. ((ready_remove t k).thread a).ready_node) e)
    | inr other ↦
        rw (r.others u other)
          (v.runnable u p other (ap (λ a. a.ready_node) (sym (r.others u other)) ∙ h))
  ];
  priorities = λ u.
      rw (field_of_others (λ a. a.current_priority) t u k (ready_remove t k) r.others r.priority)
        (v.priorities u);
  armed = rw r.timers v.armed;
}
  where
    r : ReadyRemoved t k (ready_remove t k)
    r = ready_remove-ReadyRemoved t k

state-set_state : (t : ℕ) (st : ThreadState) (k : Kernel) → ((set_state t st k).thread t).state ≡ st
unfolding set_state
state-set_state t st k = ground arith

-- Putting the current thread on a list, however the list places it.
suspend_on_list-IsKernel :
    (q cur : ℕ) (delay : Option ℕ) (l : List ℕ) (k : Kernel)
    → (k.thread cur).suspend_node ≡ none
    → Adds cur (k.suspended q) l
    → IsKernel k
    → IsKernel (
        ready_remove cur (
          set_state cur ThreadState.ts_suspend
            (start_thread_timer delay cur (suspend_link q cur l k))))
suspend_on_list-IsKernel q cur delay l k off adds v =
    ready_remove-IsKernel cur _ (state-set_state cur _ _) (
      set_state-KernelBut cur _ _ (
        start_thread_timer-KernelBut cur cur delay _ (suspend_link-KernelBut q cur l k off adds v)))

Adds-back : (t : ℕ) (l : List ℕ) → Adds t l (l ++ t ∷ [])
Adds-back t l u = omega (arith, count-append u l (t ∷ []))

-- A thread that suspends itself on a list leaves the kernel in order.
pub suspend_current-IsKernel :
    (q cur : ℕ) (delay : Option ℕ) (k : Kernel)
    → IsKernel k
    → IsKernel (suspend_current q delay cur k)
unfolding suspend_current
suspend_current-IsKernel q cur delay k v =
    suspend_on_list-IsKernel q cur delay _ _ (suspend_node_remove-off cur _) (Adds-back cur _)
      (suspend_node_remove-IsKernel cur _ (set_error-IsKernel cur (pos 0) k v))

Adds-prio_walk : (f : ℕ → ThreadInner) (t : ℕ) (l : List ℕ) → Adds t l (prio_walk f t l)
unfolding prio_walk
Adds-prio_walk f t [] u = refl
Adds-prio_walk f t (w ∷ ws) u = ground (arith, Adds-prio_walk f t ws u)

-- A thread that suspends itself among waiters ordered by priority leaves the kernel in order.
pub suspend_prio-IsKernel :
    (q cur : ℕ) (delay : Option ℕ) (k : Kernel) → IsKernel k → IsKernel (suspend_prio q delay cur k)
unfolding suspend_prio insert_prio_waiter
suspend_prio-IsKernel q cur delay k v =
    suspend_on_list-IsKernel q cur delay _ _ (suspend_node_remove-off cur _)
      (Adds-prio_walk _ cur _)
      (suspend_node_remove-IsKernel cur _ (set_error-IsKernel cur (pos 0) k v))
