-- ===== src/Rtos/Ipc/Waking.antt =====
-- Waking a thread keeps the kernel in order.
use hc32f460jeua_evb.Base.{
  ℕ, Option, none, some, List, [], ◌∷◌, ◌==◌, count, ◌≡◌, refl, arith, Bool-cases, inl, inr, ap,
  sym, ◌∙◌, subst, ==→eq,
}
use hc32f460jeua_evb.Rtos.Timer.Invariant.{stop_internal-IsArmed}
use hc32f460jeua_evb.Rtos.Kernel.{
  Kernel, ThreadState, suspend_node_remove, suspend_node_remove-some,
}
use hc32f460jeua_evb.Rtos.Sched.{ready_insert}
use hc32f460jeua_evb.Rtos.Sched.Invariant.{stands_on, node_of_stands_on, ready_insert-IsReady}
use hc32f460jeua_evb.Rtos.Sched.Effects.{ReadyInserted, ready_insert-ReadyInserted, field_of_others}
use hc32f460jeua_evb.Rtos.Ipc.{set_state, stop_thread_timer, wakeup_thread, wake_head, wake_first}
use hc32f460jeua_evb.Rtos.Ipc.Invariant.{
  IsKernel, set_state-IsKernel, suspend_node_remove-IsKernel, suspend_node_remove-off,
}

stop_thread_timer-IsKernel : (t : ℕ) (k : Kernel) → IsKernel k → IsKernel (stop_thread_timer t k)
unfolding stop_thread_timer
stop_thread_timer-IsKernel t k v = record {
  ready = record {
    queues = record {
      queued = v.ready.queues.queued;
      at_priority = v.ready.queues.at_priority;
      word = v.ready.queues.word;
    };
    bits = v.ready.bits;
  };
  waiting = v.waiting;
  held = v.held;
  runnable = v.runnable;
  priorities = v.priorities;
  armed = stop_internal-IsArmed _ k.timers v.armed;
}

ready_insert-IsKernel :
    (t : ℕ) (k : Kernel)
    → (k.thread t).suspend_node ≡ none
    → (k.thread t).ready_node ≡ none
    → (k.thread t).state ≡ ThreadState.ts_ready
    → IsKernel k
    → IsKernel (ready_insert t k)
ready_insert-IsKernel t k off off' st v = record {
  ready =
      ready_insert-IsReady t k off' (v.priorities t) v.ready.queues (λ p h ne. v.ready.bits p h);
  waiting = λ u q.
      ap (λ f. count u (f q)) r.suspended
      ∙ v.waiting u q
      ∙ ap (λ n. stands_on n q)
          (sym (
            field_of_others (λ a. a.suspend_node) t u k (ready_insert t k) r.others
              r.suspend_node));
  held = λ u q h. elim (Bool-cases (t == u)) [
    | inl same ↦
        let e = ==→eq t u same in
        cc (h, r.suspend_node, off, ap (λ a. ((ready_insert t k).thread a).suspend_node) e)
    | inr other ↦
        rw (r.others u other) (v.held u q (ap (λ a. a.suspend_node) (sym (r.others u other)) ∙ h))
  ];
  runnable = λ u p h. elim (Bool-cases (t == u)) [
    | inl same ↦
        subst (λ a. ((ready_insert t k).thread a).state ≡ ThreadState.ts_ready) (==→eq t u same)
          (r.state ∙ st)
    | inr other ↦
        rw (r.others u other) (v.runnable u p (ap (λ a. a.ready_node) (sym (r.others u other)) ∙ h))
  ];
  priorities = λ u.
      rw (field_of_others (λ a. a.current_priority) t u k (ready_insert t k) r.others r.priority)
        (v.priorities u);
  armed = rw r.timers v.armed;
}
  where
    r : ReadyInserted t k (ready_insert t k)
    r = ready_insert-ReadyInserted t k

-- Waking a thread that waits, or was suspended explicitly, leaves the kernel in order.
pub wakeup_thread-IsKernel :
    (t : ℕ) (k : Kernel)
    → (k.thread t).suspend_node ≡ none
    → (k.thread t).ready_node ≡ none
    → IsKernel k
    → IsKernel (wakeup_thread t k)
unfolding wakeup_thread stop_thread_timer set_state
wakeup_thread-IsKernel t k off off' v =
    ready_insert-IsKernel t _ (ground (arith, off)) (ground (arith, off')) (ground arith)
      (set_state-IsKernel t ThreadState.ts_ready _ off off' (stop_thread_timer-IsKernel t k v))

abbrev pub IsKernelWoken : Option (ℕ × Kernel) → Type 0
IsKernelWoken none = Unit
IsKernelWoken (some (w, k)) = IsKernel k

pub wake_first-IsKernel :
    (q : ℕ) (l : List ℕ) (k : Kernel)
    → k.suspended q ≡ l
    → IsKernel k
    → IsKernelWoken (wake_first l k)
unfolding wake_first
wake_first-IsKernel q [] k e v = tt
wake_first-IsKernel q (w ∷ ws) k e v =
    wakeup_thread-IsKernel w _ (suspend_node_remove-off w k) (ready_removed)
      (suspend_node_remove-IsKernel w k v)
  where
    node : (k.thread w).suspend_node ≡ some q
    node = node_of_stands_on _ q (ground (arith, v.waiting w q, ap (count w) e))

    ready_removed : ((suspend_node_remove w k).thread w).ready_node ≡ none
    ready_removed = rw (suspend_node_remove-some w k q node) (ground (arith, v.held w q node))

-- Waking the head of a list, if there is one, leaves the kernel in order.
pub wake_head-IsKernel : (q : ℕ) (k : Kernel) → IsKernel k → IsKernelWoken (wake_head q k)
unfolding wake_head
wake_head-IsKernel q k v = wake_first-IsKernel q (k.suspended q) k refl v
