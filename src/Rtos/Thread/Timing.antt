-- ===== src/Rtos/Thread/Timing.antt =====
-- A wait that runs out, and threads that are suspended or resumed by others.
use hc32f460jeua_evb.Base.{
  ℕ, Bool, true, false, ◌||◌, not, Option, none, some, negsuc, ◌≡◌, ◌≢◌, refl, ap, subst, ◌∙◌,
  arith, Bool-cases, Option-cases, inl, inr, ◌⊎◌,
}
use hc32f460jeua_evb.Rtos.Kernel.{
  Kernel, ThreadState, set_thread, is_linked, of_unlinked, suspend_node_remove,
  suspend_node_remove-some, suspend_node_remove-none,
}
use hc32f460jeua_evb.Rtos.Ipc.{Error, Result, ok, err, set_error, wakeup_thread, resched_needed}
use hc32f460jeua_evb.Rtos.Ipc.Invariant.{
  IsKernel, set_thread-IsKernel, set_error-IsKernel, suspend_node_remove-IsKernel,
  suspend_node_remove-off,
}
use hc32f460jeua_evb.Rtos.Ipc.Waking.{wakeup_thread-IsKernel}
use hc32f460jeua_evb.Rtos.Ipc.Wake.{
  wakeup_thread-state, wakeup_thread-suspend_node, wakeup_thread-queued,
}
use hc32f460jeua_evb.Rtos.Ipc.Mutex.{mutex_waiter_removed}
use hc32f460jeua_evb.Rtos.Ipc.Mutex.Handover.{waiter_free}
use hc32f460jeua_evb.Rtos.Thread.{is_suspended, resume, cb_woken, thread_timer_cb}

-- A suspended thread is not on a ready queue.
not_queued :
    (t : ℕ) (k : Kernel)
    → is_suspended (k.thread t).state ≡ true
    → IsKernel k
    → (k.thread t).ready_node ≡ none
not_queued t k s v =
    of_unlinked (k.thread t).ready_node (elim (Bool-cases (is_linked (k.thread t).ready_node)) [
      | inr off ↦ off
      | inl on ↦ absurd (impossible (k.thread t).ready_node refl on)
    ])
  where
    impossible : (o : Option ℕ) → (k.thread t).ready_node ≡ o → is_linked o ≡ true → ⊥
    impossible none e h = cc
    impossible (some p) e h = let r = v.runnable t p e in cc (s, ap is_suspended r)

suspended_state : (s : ThreadState) → is_suspended s ≡ true → s ≡ ThreadState.ts_suspend
suspended_state ThreadState.ts_init h = cc
suspended_state ThreadState.ts_ready h = cc
suspended_state ThreadState.ts_running h = cc
suspended_state ThreadState.ts_suspend h = refl
suspended_state ThreadState.ts_close h = cc

other_state : (s : ThreadState) → is_suspended s ≡ false → s ≢ ThreadState.ts_suspend
other_state s h = λ e. cc (h, ap is_suspended e)

on_a_list : (o : Option ℕ) → is_linked o ≡ true → o ≢ none
on_a_list o h = λ e. cc (h, ap is_linked e)

-- A thread that is ready, on the ready queue of priority `p`, and on no list of waiting threads
pub record Awake (t p : ℕ) (k : Kernel) : Type 0 where
  pub state : (k.thread t).state ≡ ThreadState.ts_ready
  pub queued : (k.thread t).ready_node ≡ some p
  pub free : (k.thread t).suspend_node ≡ none

awake :
    (t : ℕ) (k : Kernel)
    → (k.thread t).suspend_node ≡ none
    → Awake t (k.thread t).current_priority (wakeup_thread t k)
awake t k off = record {
  state = wakeup_thread-state t k;
  queued = (wakeup_thread-queued t k).0;
  free = wakeup_thread-suspend_node t k ∙ off;
}

-- A thread that is suspended without waiting on a list is woken; any other is refused and nothing changes.
abbrev pub Resumes : ℕ → Kernel → Result Bool × Kernel → Type 0
Resumes t k (result, k') =
    (((k.thread t).state ≡ ThreadState.ts_suspend)
      × ((k.thread t).suspend_node ≡ none)
      × (result ≡ ok (resched_needed t k'))
      × Awake t (k.thread t).current_priority k')
    ⊎ (((k.thread t).state ≢ ThreadState.ts_suspend ⊎ (k.thread t).suspend_node ≢ none)
        × (result ≡ err Error.invalid)
        × (k' ≡ k))

-- `resume` wakes a thread if it is suspended and waits on no list, and answers whether a switch is needed;
-- any other thread is refused, and nothing changes. The kernel stays in order.
pub resume-IsKernel :
    (t : ℕ) (k : Kernel) → IsKernel k → IsKernel (resume t k).1 × Resumes t k (resume t k)
unfolding resume
resume-IsKernel t k v =
    elim (Bool-cases
      (not (is_suspended (k.thread t).state) || is_linked (k.thread t).suspend_node)) [
        | inl e ↦ rw e (v, inr (reason e, refl, refl))
        | inr e ↦
            let off = of_unlinked (k.thread t).suspend_node (ground arith) in
            let s : is_suspended (k.thread t).state ≡ true = ground arith in
            rw e (
              wakeup_thread-IsKernel t k off (not_queued t k s v) v,
              inl (suspended_state (k.thread t).state s, off, refl, awake t k off),
            )
      ]
  where
    reason :
        (not (is_suspended (k.thread t).state) || is_linked (k.thread t).suspend_node) ≡ true
        → (k.thread t).state ≢ ThreadState.ts_suspend ⊎ (k.thread t).suspend_node ≢ none
    reason e = elim (Bool-cases (is_suspended (k.thread t).state)) [
      | inr s ↦ inl (other_state (k.thread t).state s)
      | inl s ↦ inr (on_a_list (k.thread t).suspend_node (ground arith))
    ]

abbrev timed_out : ℕ → Kernel → Kernel
timed_out t k = suspend_node_remove t (set_error t (negsuc 0) k)

timed_out-kept :
    (t : ℕ) (k : Kernel)
    → (((timed_out t k).thread t).ready_node ≡ (k.thread t).ready_node)
      × (((timed_out t k).thread t).pending_mutex ≡ (k.thread t).pending_mutex)
      × (((timed_out t k).thread t).current_priority ≡ (k.thread t).current_priority)
      × (((timed_out t k).thread t).error ≡ negsuc 0)
unfolding set_error
timed_out-kept t k = elim (Option-cases (k.thread t).suspend_node) [
  | inl e ↦
      rw (suspend_node_remove-none t (set_error t (negsuc 0) k) (ground (arith, e)))
        (ground arith, ground arith, ground arith, ground arith)
  | inr (q, e) ↦
      rw (suspend_node_remove-some t (set_error t (negsuc 0) k) q (ground (arith, e)))
        (ground arith, ground arith, ground arith, ground arith)
]

-- What `mutex_waiter_removed` leaves of a thread that waits for no mutex.
abbrev no_pending : ℕ → Kernel → Kernel
no_pending t k = set_thread k t (record (k.thread t) { pending_mutex = none })

-- The time-out of a wait: a thread that is suspended leaves its list and is ready at its priority, with the
-- error -1; a thread that was woken before is left alone.
abbrev pub TimesOut : ℕ → Kernel → Kernel → Type 0
TimesOut t k k' =
    (((k.thread t).state ≢ ThreadState.ts_suspend) × (k' ≡ k))
    ⊎ (((k.thread t).state ≡ ThreadState.ts_suspend)
        × Awake t (k.thread t).current_priority k'
        × ((k'.thread t).error ≡ negsuc 0))

-- A wait for anything but a mutex that runs out: if the thread is still suspended, it leaves its list and is
-- ready at its priority, with the error -1; if it was woken before, nothing changes. The kernel stays in
-- order.
pub thread_timer_cb-IsKernel :
    (fuel t : ℕ) (k : Kernel)
    → IsKernel k
    → (k.thread t).pending_mutex ≡ none
    → (need : Bool) × (k' : Kernel) × (thread_timer_cb fuel t k ≡ some (need, k'))
      × IsKernel k'
      × TimesOut t k k'
unfolding thread_timer_cb cb_woken
thread_timer_cb-IsKernel fuel t k v free = elim (Bool-cases (is_suspended (k.thread t).state)) [
  | inr e ↦ (false, k, rw e refl, v, inl (other_state (k.thread t).state e, refl))
  | inl e ↦ (
    resched_needed t (wakeup_thread t k2),
    wakeup_thread t k2,
    rw (e, removed, cb_woken) refl,
    wakeup_thread-IsKernel t k2 off (kept.0 ∙ not_queued t k e v) in_order,
    inr (
      suspended_state (k.thread t).state e,
      subst (λ p. Awake t p (wakeup_thread t k2)) kept.1 (awake t k2 off),
      (wakeup_thread-queued t k2).1 ∙ kept.2,
    ),
  )
]
  where
    k1 : Kernel
    k1 = timed_out t k

    k2 : Kernel
    k2 = no_pending t k1

    removed : mutex_waiter_removed fuel t k1 ≡ some k2
    removed = waiter_free fuel t k1 ((timed_out-kept t k).1 ∙ free)

    off : (k2.thread t).suspend_node ≡ none
    off = ground (arith, suspend_node_remove-off t (set_error t (negsuc 0) k))

    kept :
        ((k2.thread t).ready_node ≡ (k.thread t).ready_node)
        × ((k2.thread t).current_priority ≡ (k.thread t).current_priority)
        × ((k2.thread t).error ≡ negsuc 0)
    kept = (
      ground (arith, (timed_out-kept t k).0),
      ground (arith, (timed_out-kept t k).2),
      ground (arith, (timed_out-kept t k).3),
    )

    in_order : IsKernel k2
    in_order =
        set_thread-IsKernel t (record (k1.thread t) { pending_mutex = none }) k1 refl refl refl refl
          (suspend_node_remove-IsKernel t (set_error t (negsuc 0) k)
            (set_error-IsKernel t (negsuc 0) k v))
