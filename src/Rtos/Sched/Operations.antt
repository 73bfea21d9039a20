-- ===== src/Rtos/Sched/Operations.antt =====
-- The operations of sched.rs that move a thread between queues keep the table and the bitmap.
use hc32f460jeua_evb.Base.{
  ℕ, ◌-◌, ◌<◌, ◌≡◌, refl, false, none, some, List, [], ◌∷◌, ◌++◌, ◌==◌, arith, Bool-cases,
  Option-cases, inl, inr, ◌∙◌,
}
use hc32f460jeua_evb.Rtos.Kernel.{
  Kernel, ThreadInner, set_thread, is_linked, ready_node_remove, ready_push_back, of_linked,
  of_unlinked, ready_node_remove-some,
}
use hc32f460jeua_evb.Rtos.Sched.{
  ready_insert, ready_remove, change_priority, set_priority, rotate, tick_of, tick_increase,
  set_remaining,
}
use hc32f460jeua_evb.Rtos.Sched.Invariant.{
  IsReady, ready_insert-IsReady, ready_remove-IsReady, ready_node_remove-off,
  ready_node_remove-priority, ready_node_remove-bits, ready_node_remove-Queues, head_node,
}

-- What the invariant reads of a thread.
abbrev pub SameQueueing : ThreadInner → ThreadInner → Type 0
SameQueueing a b = (a.ready_node ≡ b.ready_node) × (a.current_priority ≡ b.current_priority)

-- Writing other fields of a thread keeps the invariant.
pub set_thread-IsReady :
    (t : ℕ) (inner : ThreadInner) (k : Kernel)
    → SameQueueing inner (k.thread t)
    → IsReady k
    → IsReady (set_thread k t inner)
set_thread-IsReady t inner k same v = record {
  queues = record {
    queued = λ u p. ground (arith, v.queues.queued u p);
    at_priority = λ u p h. ground (arith, v.queues.at_priority u p);
    word = v.queues.word;
  };
  bits = v.bits;
}

-- A thread on no queue may have any priority.
set_priority-IsReady :
    (t prio : ℕ) (k : Kernel)
    → (k.thread t).ready_node ≡ none
    → IsReady k
    → IsReady (set_priority t prio k)
unfolding set_priority
set_priority-IsReady t prio k off v = record {
  queues = record {
    queued = λ u p. ground (arith, v.queues.queued u p);
    at_priority = λ u p h. ground (arith, v.queues.at_priority u p);
    word = v.queues.word;
  };
  bits = v.bits;
}

ready_remove-off : (t : ℕ) (k : Kernel) → ((ready_remove t k).thread t).ready_node ≡ none
unfolding ready_remove
ready_remove-off t k = ground (arith, ready_node_remove-off t k)

-- A change of priority moves a ready thread to the queue of its new priority.
pub change_priority-IsReady :
    (t prio : ℕ) (k : Kernel) → prio < 32 → IsReady k → IsReady (change_priority t prio k)
unfolding change_priority
change_priority-IsReady t prio k low v = elim (Bool-cases ((k.thread t).current_priority == prio)) [
  | inl e ↦ rw e v
  | inr e ↦ rw e (elim (Bool-cases (is_linked (k.thread t).ready_node)) [
    | inr off ↦ rw off (set_priority-IsReady t prio k (of_unlinked _ off) v)
    | inl on ↦
        let l = of_linked (k.thread t).ready_node on in
        rw on (again (ready_remove-IsReady t k v (ground (arith, v.queues.at_priority t l.0 l.1))))
  ])
]
  where
    r : Kernel
    r = ready_remove t k

    again : IsReady r → IsReady (ready_insert t (set_priority t prio r))
    again vr =
        let s = set_priority-IsReady t prio r (ready_remove-off t k) vr in
        ready_insert-IsReady t (set_priority t prio r) (ground (arith, ready_remove-off t k))
          (ground arith) s.queues (λ p h ne. s.bits p h)

pub rotate-IsReady :
    (t q : ℕ) (k : Kernel) → (k.thread t).ready_node ≡ some q → IsReady k → IsReady (rotate t k)
unfolding rotate
rotate-IsReady t q k on v =
    set_thread-IsReady t _ (ready_insert t r) (refl, refl)
      (ready_insert-IsReady t r (ready_node_remove-off t k)
        (ground (arith, ready_node_remove-priority t t k, v.queues.at_priority t q on))
        (ready_node_remove-Queues t k v.queues)
        (λ p h ne.
          ready_node_remove-bits t p k v.queues (ground (arith, ready_node_remove-priority t t k))
            (v.bits p h)))
  where
    r : Kernel
    r = ready_node_remove t k

set_remaining-IsReady : (t left : ℕ) (k : Kernel) → IsReady k → IsReady (set_remaining t left k)
unfolding set_remaining
set_remaining-IsReady t left k v = set_thread-IsReady t _ k (refl, refl) v

ready_node-set_remaining :
    (t left : ℕ) (k : Kernel)
    → ((set_remaining t left k).thread t).ready_node ≡ (k.thread t).ready_node
unfolding set_remaining
ready_node-set_remaining t left k = ground arith

tick_of-IsReady : (cur : ℕ) (k : Kernel) → IsReady k → IsReady (tick_of cur k).0
unfolding tick_of
tick_of-IsReady cur k v = elim (Bool-cases ((k.thread cur).init_tick == 0)) [
  | inl e ↦ rw e v
  | inr e ↦ rw e (elim (Bool-cases ((k.thread cur).remaining_tick - 1 == 0)) [
    | inr e' ↦ rw e' (set_remaining-IsReady cur _ k v)
    | inl e' ↦ rw e' (elim (Bool-cases (is_linked (k.thread cur).ready_node)) [
      | inr off ↦ rw off (set_remaining-IsReady cur _ k v)
      | inl on ↦
          let (q, e'') = of_linked _ on in
          rw on (
            rotate-IsReady cur q _ (ready_node-set_remaining cur _ k ∙ e'')
              (set_remaining-IsReady cur _ k v))
    ])
  ])
]

-- The rotation of the clock interrupt keeps the ready table and its bitmap in agreement.
pub tick_increase-IsReady : (k : Kernel) → IsReady k → IsReady (tick_increase k).0
unfolding tick_increase
tick_increase-IsReady k v = elim (Option-cases k.current) [
  | inl e ↦ rw (e, tick_increase) v
  | inr (cur, e) ↦ rw (e, tick_increase) (tick_of-IsReady cur k v)
]

-- A rotation moves the head of a queue to its back, and leaves another queue alone.
pub rotate_queue :
    (t p q : ℕ) (rest : List ℕ) (k : Kernel)
    → IsReady k
    → k.ready_table p ≡ t ∷ rest
    → (p == q) ≡ false
    → ((rotate t k).ready_table p ≡ rest ++ t ∷ []) × ((rotate t k).ready_table q ≡ k.ready_table q)
unfolding rotate ready_insert ready_push_back
rotate_queue t p q rest k v e h =
    rw (ready_node_remove-some t k p node) (ground (arith, at), ground (arith, at))
  where
    node : (k.thread t).ready_node ≡ some p
    node = head_node k t p rest v e

    at : ((k.thread t).current_priority ≡ p) × (p < 32)
    at = v.queues.at_priority t p node
