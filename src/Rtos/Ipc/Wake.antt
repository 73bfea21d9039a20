-- ===== src/Rtos/Ipc/Wake.antt =====
-- What waking the head of a list does: first come, first served.
use hc32f460jeua_evb.Base.{
  ℕ, false, Option, none, some, List, [], ◌∷◌, Option-cases, inl, inr, ℤ, pos, ◌++◌, ◌==◌, count,
  ◌≡◌, refl, arith, ap, sym, ◌∙◌,
}
use hc32f460jeua_evb.Rtos.Kernel.{
  Kernel, ThreadState, suspend_node_remove, suspend_node_remove-some, suspend_node_remove-none,
  suspend_link,
}
use hc32f460jeua_evb.Rtos.Sched.{ready_remove}
use hc32f460jeua_evb.Rtos.Sched.Invariant.{node_of_stands_on}
use hc32f460jeua_evb.Rtos.Sched.Effects.{
  ReadyInserted, ready_insert-ReadyInserted, ReadyRemoved, ready_remove-ReadyRemoved,
}
use hc32f460jeua_evb.Rtos.Ipc.{
  suspend_current, set_error, start_thread_timer, set_state, stop_thread_timer, wakeup_thread,
  wake_head, wake_first,
}
use hc32f460jeua_evb.Rtos.Ipc.Invariant.{IsKernel}
use hc32f460jeua_evb.Rtos.Ipc.Waking.{wake_first-IsKernel}

-- The head `w` of the list at `q` was woken: it is ready at its priority and off the list.
pub record Woken (q w : ℕ) (ws : List ℕ) (k k' : Kernel) : Type 0 where
  pub kernel : IsKernel k'
  pub rest : k'.suspended q ≡ ws
  pub lists : (p : ℕ) → (q == p) ≡ false → k'.suspended p ≡ k.suspended p
  pub is_ready : (k'.thread w).state ≡ ThreadState.ts_ready
  pub queued : (k'.thread w).ready_node ≡ some (k'.thread w).current_priority
  pub free : (k'.thread w).suspend_node ≡ none
  pub priority : (k'.thread w).current_priority ≡ (k.thread w).current_priority
  pub others : (u : ℕ) → (w == u) ≡ false → k'.thread u ≡ k.thread u
  pub current : k'.current ≡ k.current
  pub mutexes : k'.mutex ≡ k.mutex

woken_state : ℕ → Kernel → Kernel
woken_state w k = set_state w ThreadState.ts_ready (stop_thread_timer w k)

woken_state-fields :
    (w : ℕ) (k : Kernel)
    → ((woken_state w k).suspended ≡ k.suspended)
      × (((woken_state w k).thread w).state ≡ ThreadState.ts_ready)
      × (((woken_state w k).thread w).suspend_node ≡ (k.thread w).suspend_node)
      × (((woken_state w k).thread w).current_priority ≡ (k.thread w).current_priority)
      × ((u : ℕ) → (w == u) ≡ false → (woken_state w k).thread u ≡ k.thread u)
      × ((woken_state w k).current ≡ k.current)
      × ((woken_state w k).mutex ≡ k.mutex)
unfolding woken_state set_state stop_thread_timer
woken_state-fields w k = (refl, ground arith, ground arith, ground arith, λ u h. rw h, refl, refl)

pub wake_head_cons :
    (q w : ℕ) (ws : List ℕ) (k : Kernel)
    → IsKernel k
    → k.suspended q ≡ w ∷ ws
    → (k' : Kernel) × (wake_head q k ≡ some (w, k')) × Woken q w ws k k'
unfolding wake_head wake_first wakeup_thread woken_state
wake_head_cons q w ws k v e = (
  k',
  rw (e, wake_first),
  record {
    kernel = wake_first-IsKernel q (w ∷ ws) k e v;
    rest = ap (λ x. x q) (r.suspended ∙ f.0) ∙ g.0;
    lists = λ p h. ap (λ x. x p) (r.suspended ∙ f.0) ∙ g.1 p h;
    is_ready = r.state ∙ f.1;
    queued = r.on ∙ ap some (sym r.priority);
    free = r.suspend_node ∙ f.2 ∙ g.2;
    priority = r.priority ∙ f.3 ∙ g.3;
    others = λ u h. r.others u h ∙ f.4 u h ∙ g.4 u h;
    current = r.current ∙ f.5 ∙ g.5;
    mutexes = r.mutexes ∙ f.6 ∙ g.6;
  },
)
  where
    k1 : Kernel
    k1 = suspend_node_remove w k

    k' : Kernel
    k' = wakeup_thread w k1

    node : (k.thread w).suspend_node ≡ some q
    node = node_of_stands_on _ q (ground (arith, v.waiting w q, ap (count w) e))

    r : ReadyInserted w (woken_state w k1) k'
    r = ready_insert-ReadyInserted w (woken_state w k1)

    f :
        ((woken_state w k1).suspended ≡ k1.suspended)
        × (((woken_state w k1).thread w).state ≡ ThreadState.ts_ready)
        × (((woken_state w k1).thread w).suspend_node ≡ (k1.thread w).suspend_node)
        × (((woken_state w k1).thread w).current_priority ≡ (k1.thread w).current_priority)
        × ((u : ℕ) → (w == u) ≡ false → (woken_state w k1).thread u ≡ k1.thread u)
        × ((woken_state w k1).current ≡ k1.current)
        × ((woken_state w k1).mutex ≡ k1.mutex)
    f = woken_state-fields w k1

    g :
        (k1.suspended q ≡ ws)
        × ((p : ℕ) → (q == p) ≡ false → k1.suspended p ≡ k.suspended p)
        × ((k1.thread w).suspend_node ≡ none)
        × ((k1.thread w).current_priority ≡ (k.thread w).current_priority)
        × ((u : ℕ) → (w == u) ≡ false → k1.thread u ≡ k.thread u)
        × (k1.current ≡ k.current)
        × (k1.mutex ≡ k.mutex)
    g =
        rw (suspend_node_remove-some w k q node)
          (ground (arith, e), λ p h. rw h, ground arith, ground arith, λ u h. rw h, refl, refl)

pub wakeup_thread-others :
    (t u : ℕ) (k : Kernel) → (t == u) ≡ false → (wakeup_thread t k).thread u ≡ k.thread u
unfolding wakeup_thread woken_state
wakeup_thread-others t u k h =
    (ready_insert-ReadyInserted t (woken_state t k)).others u h ∙ (woken_state-fields t k).4 u h

pub wakeup_thread-suspend_node :
    (t : ℕ) (k : Kernel) → ((wakeup_thread t k).thread t).suspend_node ≡ (k.thread t).suspend_node
unfolding wakeup_thread woken_state
wakeup_thread-suspend_node t k =
    (ready_insert-ReadyInserted t (woken_state t k)).suspend_node ∙ (woken_state-fields t k).2

pub wakeup_thread-state :
    (t : ℕ) (k : Kernel) → ((wakeup_thread t k).thread t).state ≡ ThreadState.ts_ready
unfolding wakeup_thread woken_state
wakeup_thread-state t k =
    (ready_insert-ReadyInserted t (woken_state t k)).state ∙ (woken_state-fields t k).1

-- A thread that is woken stands on the queue of its priority and keeps the error it was given.
pub wakeup_thread-queued :
    (t : ℕ) (k : Kernel)
    → (((wakeup_thread t k).thread t).ready_node ≡ some (k.thread t).current_priority)
      × (((wakeup_thread t k).thread t).error ≡ (k.thread t).error)
unfolding wakeup_thread set_state stop_thread_timer
wakeup_thread-queued t k =
    let i =
      ready_insert-ReadyInserted t (set_state t ThreadState.ts_ready (stop_thread_timer t k)) in
    (ground (arith, i.on), ground (arith, i.error))

-- What suspending a thread leaves of the other threads, and of its own wait for flags.
abbrev pub Elsewhere : ℕ → Kernel → Kernel → Type 0
Elsewhere t k k' =
    ((u : ℕ) → (t == u) ≡ false → k'.thread u ≡ k.thread u)
    × ((k'.thread t).event_wanted ≡ (k.thread t).event_wanted)
    × ((k'.thread t).event_opt ≡ (k.thread t).event_opt)

Elsewhere-trans :
    (t : ℕ) (k k' k'' : Kernel) → Elsewhere t k' k'' → Elsewhere t k k' → Elsewhere t k k''
Elsewhere-trans t k k' k'' a b = (λ u h. a.0 u h ∙ b.0 u h, a.1 ∙ b.1, a.2 ∙ b.2)

suspend_node_remove-Elsewhere : (t : ℕ) (k : Kernel) → Elsewhere t k (suspend_node_remove t k)
suspend_node_remove-Elsewhere t k = elim (Option-cases (k.thread t).suspend_node) [
  | inl e ↦ rw (suspend_node_remove-none t k e) (λ u h. refl, refl, refl)
  | inr (q, e) ↦ rw (suspend_node_remove-some t k q e) (λ u h. rw h, ground arith, ground arith)
]

set_error-Elsewhere : (t : ℕ) (e : ℤ) (k : Kernel) → Elsewhere t k (set_error t e k)
unfolding set_error
set_error-Elsewhere t e k = (λ u h. rw h, ground arith, ground arith)

linked-Elsewhere :
    (q t : ℕ) (delay : Option ℕ) (l : List ℕ) (k : Kernel)
    → Elsewhere t k
        (set_state t ThreadState.ts_suspend (start_thread_timer delay t (suspend_link q t l k)))
unfolding set_state start_thread_timer suspend_link
linked-Elsewhere q t none l k = (λ u h. rw h, ground arith, ground arith)
linked-Elsewhere q t (some d) l k = (λ u h. rw h, ground arith, ground arith)

pub suspend_current-Elsewhere :
    (q cur : ℕ) (delay : Option ℕ) (k : Kernel) → Elsewhere cur k (suspend_current q delay cur k)
unfolding suspend_current
suspend_current-Elsewhere q cur delay k =
    Elsewhere-trans cur k k1 (ready_remove cur k3)
      (Elsewhere-trans cur k1 k3 (ready_remove cur k3) (r.others, r.wanted, r.opt)
        (linked-Elsewhere q cur delay (k1.suspended q ++ cur ∷ []) k1))
      (Elsewhere-trans cur k k0 k1 (suspend_node_remove-Elsewhere cur k0)
        (set_error-Elsewhere cur (pos 0) k))
  where
    k0 : Kernel
    k0 = set_error cur (pos 0) k

    k1 : Kernel
    k1 = suspend_node_remove cur k0

    k3 : Kernel
    k3 =
        set_state cur ThreadState.ts_suspend
          (start_thread_timer delay cur (suspend_link q cur (k1.suspended q ++ cur ∷ []) k1))

    r : ReadyRemoved cur k3 (ready_remove cur k3)
    r = ready_remove-ReadyRemoved cur k3
