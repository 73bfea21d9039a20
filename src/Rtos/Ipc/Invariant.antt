-- ===== src/Rtos/Ipc/Invariant.antt =====
-- What the kernel keeps of its threads: each is on at most one list, a ready one on the queue of its
-- priority, a waiting one on the list that it waits on, and the timers are in order.
use hc32f460jeua_evb.Base.{
  ℕ, ◌<◌, none, some, ℤ, count, count-erase, ◌≡◌, refl, arith, Option-cases, inl, inr,
}
use hc32f460jeua_evb.Rtos.Timer.Invariant.{IsArmed}
use hc32f460jeua_evb.Rtos.Kernel.{
  Kernel, ThreadInner, ThreadState, set_thread, suspend_node_remove, suspend_node_remove-none,
  suspend_node_remove-some,
}
use hc32f460jeua_evb.Rtos.Sched.Invariant.{IsReady, stands_on}
use hc32f460jeua_evb.Rtos.Sched.Operations.{set_thread-IsReady}
use hc32f460jeua_evb.Rtos.Ipc.{set_state, set_error}

pub record IsKernel (k : Kernel) : Type 0 where
  pub ready : IsReady k
  pub waiting : (t q : ℕ) → count t (k.suspended q) ≡ stands_on (k.thread t).suspend_node q
  -- a thread that waits on a list is suspended and is not ready
  pub held :
      (t q : ℕ)
      → (k.thread t).suspend_node ≡ some q
      → ((k.thread t).state ≡ ThreadState.ts_suspend) × ((k.thread t).ready_node ≡ none)
  -- a thread on a ready queue is in the ready state
  pub runnable :
      (t p : ℕ) → (k.thread t).ready_node ≡ some p → (k.thread t).state ≡ ThreadState.ts_ready
  pub priorities : (t : ℕ) → (k.thread t).current_priority < 32
  pub armed : IsArmed k.timers

-- Writing fields of a thread that the invariant does not read.
pub set_thread-IsKernel :
    (t : ℕ) (inner : ThreadInner) (k : Kernel)
    → inner.ready_node ≡ (k.thread t).ready_node
    → inner.current_priority ≡ (k.thread t).current_priority
    → inner.suspend_node ≡ (k.thread t).suspend_node
    → inner.state ≡ (k.thread t).state
    → IsKernel k
    → IsKernel (set_thread k t inner)
set_thread-IsKernel t inner k r p s st v = record {
  ready = set_thread-IsReady t inner k (r, p) v.ready;
  waiting = λ u q. ground (arith, v.waiting u q);
  held = λ u q h. ground (arith, v.held u q);
  runnable = λ u p h. ground (arith, v.runnable u p);
  priorities = λ u. ground (arith, v.priorities u);
  armed = v.armed;
}

pub set_error-IsKernel : (t : ℕ) (e : ℤ) (k : Kernel) → IsKernel k → IsKernel (set_error t e k)
unfolding set_error
set_error-IsKernel t e k v = set_thread-IsKernel t _ k refl refl refl refl v

-- A thread that stands on no list may be in any state.
pub set_state-IsKernel :
    (t : ℕ) (st : ThreadState) (k : Kernel)
    → (k.thread t).suspend_node ≡ none
    → (k.thread t).ready_node ≡ none
    → IsKernel k
    → IsKernel (set_state t st k)
unfolding set_state
set_state-IsKernel t st k off off' v = record {
  ready = set_thread-IsReady t _ k (refl, refl) v.ready;
  waiting = λ u q. ground (arith, v.waiting u q);
  held = λ u q h. ground (arith, v.held u q);
  runnable = λ u p h. ground (arith, v.runnable u p);
  priorities = λ u. ground (arith, v.priorities u);
  armed = v.armed;
}

pub suspend_node_remove-IsKernel :
    (t : ℕ) (k : Kernel) → IsKernel k → IsKernel (suspend_node_remove t k)
suspend_node_remove-IsKernel t k v = elim (Option-cases (k.thread t).suspend_node) [
  | inl e ↦ rw (suspend_node_remove-none t k e) v
  | inr (q, e) ↦ rw (suspend_node_remove-some t k q e) (record {
    ready = record {
      queues = record {
        queued = (set_thread-IsReady t _ k (refl, refl) v.ready).queues.queued;
        at_priority = (set_thread-IsReady t _ k (refl, refl) v.ready).queues.at_priority;
        word = v.ready.queues.word;
      };
      bits = v.ready.bits;
    };
    waiting = λ u p. ground (arith, v.waiting u p, v.waiting t p, count-erase t u (k.suspended q));
    held = λ u p h. ground (arith, v.held u p);
    runnable = λ u p h. ground (arith, v.runnable u p);
    priorities = λ u. ground (arith, v.priorities u);
    armed = v.armed;
  })
]

pub suspend_node_remove-off :
    (t : ℕ) (k : Kernel) → ((suspend_node_remove t k).thread t).suspend_node ≡ none
suspend_node_remove-off t k = elim (Option-cases (k.thread t).suspend_node) [
  | inl e ↦ rw (suspend_node_remove-none t k e) e
  | inr (q, e) ↦ rw (suspend_node_remove-some t k q e) (ground arith)
]
