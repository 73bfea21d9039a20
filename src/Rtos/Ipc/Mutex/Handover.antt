-- ===== src/Rtos/Ipc/Mutex/Handover.antt =====
-- What `unlock` does with the mutex of a running thread.
use hc32f460jeua_evb.Base.{
  ℕ, suc, ◌+◌, ◌%◌, ◌^◌, Bool, true, false, none, some, List, ◌∷◌, ◌≡◌, refl, sym, ap, ◌∙◌, ◌==◌,
  arith, Bool-cases, inl, inr, ◌<◌,
}
use hc32f460jeua_evb.Rtos.Kernel.{Kernel, ThreadState, set_thread}
use hc32f460jeua_evb.Rtos.Sched.{change_priority}
use hc32f460jeua_evb.Rtos.Sched.Effects.{
  change_priority_same, Reprioritised, change_priority-Reprioritised,
}
use hc32f460jeua_evb.Rtos.Ipc.{wake_head}
use hc32f460jeua_evb.Rtos.Ipc.Invariant.{IsKernel}
use hc32f460jeua_evb.Rtos.Ipc.Wake.{Woken, wake_head_cons}
use hc32f460jeua_evb.Rtos.Ipc.Mutex.{
  set_mutex, same_thread, inheritance_successor, successor_of, find_meeting, entry_from,
  inheritance_cycle_entry, effective_priority, recompute_loop, recompute_priority_chain,
  chain_round, take_ownership, drop_ownership, hand_over, mutex_waiter_removed, owner_told,
  unlock_recomputed, unlock,
}
use hc32f460jeua_evb.Rtos.Ipc.Mutex.Priority.{
  change_priority-IsKernel, drop_ownership-IsKernel, least_of-le,
}

module _ (fuel t : ℕ) (k : Kernel) (free : (k.thread t).pending_mutex ≡ none) where
  no_cycle : inheritance_cycle_entry (suc fuel) t k ≡ some none
  unfolding inheritance_cycle_entry inheritance_successor find_meeting entry_from successor_of
  no_cycle = rw (free, successor_of) refl

  round_free :
      (p : ℕ) → chain_round t p k (k.thread t).pending_mutex ≡ (change_priority t p k, none)
  unfolding chain_round
  round_free p = rw (free, chain_round) refl

  one_round :
      recompute_loop (suc fuel) t none false k ≡ some (change_priority t (effective_priority t k) k)
  unfolding recompute_loop
  one_round = elim (Bool-cases (effective_priority t k == (k.thread t).current_priority)) [
    | inl e ↦
        rw (recompute_loop, round_free (effective_priority t k), e)
          (ap some (sym (change_priority_same t (effective_priority t k) k (ground arith))))
    | inr e ↦
        rw (recompute_loop, round_free (effective_priority t k), e)
          (ap (λ x. some x.0) (round_free (effective_priority t k)))
  ]

  -- A thread that waits for no mutex is the end of its chain: its own priority is all that changes.
  pub recompute_running :
      recompute_priority_chain (suc fuel) t k ≡ some (change_priority t (effective_priority t k) k)
  unfolding recompute_priority_chain
  recompute_running = rw (recompute_priority_chain, no_cycle) one_round

-- What `unlock` does when the mutex changes hands: the first waiter `w` is ready, owns the mutex and
-- waits for nothing any more; the list has lost it.
pub record HandedOver (m q w : ℕ) (ws : List ℕ) (k' : Kernel) : Type 0 where
  pub owner : (k'.mutex m).owner ≡ some w
  pub hold : (k'.mutex m).hold ≡ 1
  pub is_ready : (k'.thread w).state ≡ ThreadState.ts_ready
  pub pending : (k'.thread w).pending_mutex ≡ none
  pub rest : k'.suspended q ≡ ws

hand_over-HandedOver :
    (m q w : ℕ) (ws : List ℕ) (k k1 : Kernel)
    → Woken q w ws k k1
    → HandedOver m q w ws (hand_over m (some (w, k1)) k).1
unfolding hand_over take_ownership set_mutex
hand_over-HandedOver m q w ws k k1 v = record {
  owner = ground arith;
  hold = ground arith;
  is_ready = ground (arith, v.is_ready);
  pending = ground arith;
  rest = v.rest;
}

module _ (m t : ℕ) (k : Kernel) where
  drop-pending : ((drop_ownership m t 0 k).thread t).pending_mutex ≡ (k.thread t).pending_mutex
  unfolding drop_ownership set_mutex
  drop-pending = ground arith

  drop-list : ((drop_ownership m t 0 k).mutex m).suspend_list ≡ (k.mutex m).suspend_list
  unfolding drop_ownership set_mutex
  drop-list = ground arith

  drop-suspended : (drop_ownership m t 0 k).suspended ≡ k.suspended
  unfolding drop_ownership set_mutex
  drop-suspended = refl

  drop-init : ((drop_ownership m t 0 k).thread t).init_priority ≡ (k.thread t).init_priority
  unfolding drop_ownership set_mutex
  drop-init = ground arith

  effective-low :
      (k.thread t).init_priority < 32 → effective_priority t (drop_ownership m t 0 k) < 32
  unfolding effective_priority
  effective-low low = omega (
    arith,
    drop-init,
    low,
    least_of-le ((drop_ownership m t 0 k).thread t).taken_list (drop_ownership m t 0 k)
        ((drop_ownership m t 0 k).thread t).init_priority,
  )

-- The owner, which holds the mutex once and waits for none, unlocks it while others wait: the first of them
-- is ready, owns the mutex and holds it once, and waits for no mutex; the others wait on in their order.
pub unlock-HandedOver :
    (fuel m cur w : ℕ) (ws : List ℕ) (k : Kernel)
    → IsKernel k
    → (k.thread cur).init_priority < 32
    → (k.mutex m).owner ≡ some cur
    → (k.mutex m).hold ≡ 1
    → (k.thread cur).pending_mutex ≡ none
    → k.suspended (k.mutex m).suspend_list ≡ w ∷ ws
    → (k' : Kernel) × (need : Bool) × (unlock (suc fuel) m cur k ≡ some (need, k'))
      × HandedOver m (k.mutex m).suspend_list w ws k'
unfolding unlock unlock_recomputed
unlock-HandedOver fuel m cur w ws k v low o h free e = (
  (hand_over m (some (w, woken.0)) k2).1,
  (hand_over m (some (w, woken.0)) k2).0,
  rw (owned, held, recomputed, list_kept, woken.1) refl,
  hand_over-HandedOver m (k.mutex m).suspend_list w ws k2 woken.0 woken.2,
)
  where
    k1 : Kernel
    k1 = drop_ownership m cur 0 k

    k2 : Kernel
    k2 = change_priority cur (effective_priority cur k1) k1

    owned : same_thread (k.mutex m).owner (some cur) ≡ true
    owned = rw o (ground arith)

    held : (((k.mutex m).hold + 255) % 2 ^ 8 == 0) ≡ true
    held = rw h refl

    recomputed : recompute_priority_chain (suc fuel) cur k1 ≡ some k2
    recomputed = recompute_running fuel cur k1 (drop-pending m cur k ∙ free)

    r : Reprioritised cur (effective_priority cur k1) k1 k2
    r = change_priority-Reprioritised cur (effective_priority cur k1) k1

    list_kept : (k2.mutex m).suspend_list ≡ (k.mutex m).suspend_list
    list_kept = ap (λ f. (f m).suspend_list) r.mutexes ∙ drop-list m cur k

    first_is : k2.suspended (k.mutex m).suspend_list ≡ w ∷ ws
    first_is = ap (λ f. f (k.mutex m).suspend_list) (r.suspended ∙ drop-suspended m cur k) ∙ e

    in_order : IsKernel k2
    in_order =
        (change_priority-IsKernel cur (effective_priority cur k1) k1 (effective-low m cur k low)
          (drop_ownership-IsKernel m cur 0 k v)).0

    woken :
        (k3 : Kernel) × (wake_head (k.mutex m).suspend_list k2 ≡ some (w, k3))
        × Woken (k.mutex m).suspend_list w ws k2 k3
    woken = wake_head_cons (k.mutex m).suspend_list w ws k2 in_order first_is

-- The time-out of a thread that waits for no mutex concerns no owner.
pub waiter_free :
    (fuel t : ℕ) (k : Kernel)
    → (k.thread t).pending_mutex ≡ none
    → mutex_waiter_removed fuel t k
      ≡ some (set_thread k t (record (k.thread t) { pending_mutex = none }))
unfolding mutex_waiter_removed owner_told
waiter_free fuel t k free = rw (free, owner_told) refl
