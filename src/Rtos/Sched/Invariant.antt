-- ===== src/Rtos/Sched/Invariant.antt =====
-- The ready table and its bitmap agree, and every operation of sched.rs keeps it so.
use native.Mathlib.Nat.{pow-suc}
use hc32f460jeua_evb.Base.{
  ℕ, suc, ◌^◌, ◌<◌, ◌≡◌, false, Option, none, some, List, [], ◌∷◌, ◌==◌, if◌then◌else◌, is_nil,
  count, count-erase, count-append, arith, Bool-cases, Option-cases, inl, inr, ap,
  is_nil-append_one, is_nil-erase,
}
use hc32f460jeua_evb.Base.Bits.{
  bit_at, clear_mask, bit_or-lt, bit_and-lt, bit_at-or, bit_at-and, bit_at-pow, bit_at-clear_mask,
  bit_at-le, pow_mono,
}
use hc32f460jeua_evb.Rtos.Kernel.{
  Kernel, ready_node_remove, ready_node_remove-none, ready_node_remove-some,
}
use hc32f460jeua_evb.Rtos.Sched.{ready_insert, ready_remove}

-- 1 if the node stands on queue `p`.
abbrev pub stands_on : Option ℕ → ℕ → ℕ
stands_on none p = 0
stands_on (some q) p = if q == p then 1 else 0

abbrev pub BitAgrees : Kernel → ℕ → Type 0
BitAgrees k p = bit_at k.ready_group p ≡ (if is_nil (k.ready_table p) then 0 else 1)

-- The queues alone: each node once, on the queue that it names, at its thread's priority.
pub record Queues (k : Kernel) : Type 0 where
  pub queued : (t p : ℕ) → count t (k.ready_table p) ≡ stands_on (k.thread t).ready_node p
  pub at_priority :
      (t p : ℕ) → (k.thread t).ready_node ≡ some p → ((k.thread t).current_priority ≡ p) × (p < 32)
  pub word : k.ready_group < 2 ^ 32

pub record IsReady (k : Kernel) : Type 0 where
  pub queues : Queues k
  pub bits : (p : ℕ) → p < 32 → BitAgrees k p

pub ready_node_remove-Queues : (t : ℕ) (k : Kernel) → Queues k → Queues (ready_node_remove t k)
ready_node_remove-Queues t k v = elim (Option-cases (k.thread t).ready_node) [
  | inl e ↦ rw (ready_node_remove-none t k e) v
  | inr (q, e) ↦ rw (ready_node_remove-some t k q e) (record {
    queued = λ u p. ground (arith, v.queued u p, v.queued t p, count-erase t u (k.ready_table q));
    at_priority = λ u p h. ground (arith, v.at_priority u p);
    word = v.word;
  })
]

-- Off its queue the thread stands on none, and keeps its priority.
pub ready_node_remove-off :
    (t : ℕ) (k : Kernel) → ((ready_node_remove t k).thread t).ready_node ≡ none
ready_node_remove-off t k = elim (Option-cases (k.thread t).ready_node) [
  | inl e ↦ rw (ready_node_remove-none t k e) e
  | inr (q, e) ↦ rw (ready_node_remove-some t k q e) (ground arith)
]

pub ready_node_remove-priority :
    (t u : ℕ) (k : Kernel)
    → ((ready_node_remove t k).thread u).current_priority ≡ (k.thread u).current_priority
ready_node_remove-priority t u k = elim (Option-cases (k.thread t).ready_node) [
  | inl e ↦ rw (ready_node_remove-none t k e)
  | inr (q, e) ↦ rw (ready_node_remove-some t k q e) (ground arith)
]

-- The bits of the other priorities stay right.
pub ready_node_remove-bits :
    (t p : ℕ) (k : Kernel)
    → Queues k
    → ((k.thread t).current_priority == p) ≡ false
    → BitAgrees k p
    → BitAgrees (ready_node_remove t k) p
ready_node_remove-bits t p k v ne b = elim (Option-cases (k.thread t).ready_node) [
  | inl e ↦ rw (ready_node_remove-none t k e) b
  | inr (q, e) ↦ rw (ready_node_remove-some t k q e) (ground (arith, v.at_priority t q e))
]

-- Inserting sets the bit of its priority and leaves the others.
ready_insert-bits :
    (t p : ℕ) (k : Kernel)
    → (((k.thread t).current_priority == p) ≡ false → BitAgrees k p)
    → BitAgrees (ready_insert t k) p
unfolding ready_insert
ready_insert-bits t p k b = ground (
  arith,
  b,
  bit_at-or p k.ready_group (2 ^ (k.thread t).current_priority),
  bit_at-pow (k.thread t).current_priority p,
  bit_at-le p k.ready_group,
  is_nil-append_one (k.ready_table p) t,
)

pub ready_insert-IsReady :
    (t : ℕ) (k : Kernel)
    → (k.thread t).ready_node ≡ none
    → (k.thread t).current_priority < 32
    → Queues k
    → ((p : ℕ) → p < 32 → ((k.thread t).current_priority == p) ≡ false → BitAgrees k p)
    → IsReady (ready_insert t k)
unfolding ready_insert
ready_insert-IsReady t k off low v b = record {
  queues = record {
    queued = λ u p. ground (arith, v.queued u p, count-append u (k.ready_table p) (t ∷ []));
    at_priority = λ u p h. ground (arith, v.at_priority u p);
    word = bit_or-lt 32 k.ready_group (2 ^ (k.thread t).current_priority) v.word (
        omega (
          arith,
          pow_mono (suc (k.thread t).current_priority) 32 low,
          pow-suc 2 (k.thread t).current_priority,
          pow_mono 0 (k.thread t).current_priority (omega arith),
        ));
  };
  bits = λ p h. ready_insert-bits t p k (b p h);
}

ready_node_remove-group : (t : ℕ) (k : Kernel) → (ready_node_remove t k).ready_group ≡ k.ready_group
ready_node_remove-group t k = elim (Option-cases (k.thread t).ready_node) [
  | inl e ↦ rw (ready_node_remove-none t k e)
  | inr (q, e) ↦ rw (ready_node_remove-some t k q e)
]

-- A queue that is not empty afterwards was not empty before.
ready_node_remove-nil :
    (t p : ℕ) (k : Kernel)
    → is_nil ((ready_node_remove t k).ready_table p) ≡ false
    → is_nil (k.ready_table p) ≡ false
ready_node_remove-nil t p k = elim (Option-cases (k.thread t).ready_node) [
  | inl e ↦ rw (ready_node_remove-none t k e) (λ h. h)
  | inr (q, e) ↦
      rw (ready_node_remove-some t k q e) (λ h. ground (arith, is_nil-erase t (k.ready_table p)))
]

-- Removing clears the bit of its priority when the queue is empty.
pub ready_remove-IsReady :
    (t : ℕ) (k : Kernel)
    → IsReady k
    → (k.thread t).current_priority < 32
    → IsReady (ready_remove t k)
unfolding ready_remove
ready_remove-IsReady t k v low =
    elim (Bool-cases (is_nil (k'.ready_table (k'.thread t).current_priority))) [
      | inl e ↦ rw e (record {
        queues = record {
          queued = q.queued;
          at_priority = q.at_priority;
          word = bit_and-lt 32 k'.ready_group _ q.word;
        };
        bits = λ p h. ground (
          arith,
          bit_at-and p k'.ready_group (clear_mask 32 (k'.thread t).current_priority),
          bit_at-clear_mask 32 (k'.thread t).current_priority p,
          bit_at-le p k'.ready_group,
          ready_node_remove-priority t t k,
          ready_node_remove-bits t p k v.queues,
          v.bits p h,
        );
      })
      | inr e ↦ rw e (record {
        queues = q;
        bits = λ p h. elim (Bool-cases ((k.thread t).current_priority == p)) [
          | inl same ↦ ground (
            arith,
            v.bits p h,
            ready_node_remove-group t k,
            ready_node_remove-nil t p k,
            ready_node_remove-priority t t k,
          )
          | inr other ↦ ready_node_remove-bits t p k v.queues other (v.bits p h)
        ];
      })
    ]
  where
    k' : Kernel
    k' = ready_node_remove t k

    q : Queues k'
    q = ready_node_remove-Queues t k v.queues

pub node_of_stands_on : (o : Option ℕ) (p : ℕ) → 0 < stands_on o p → o ≡ some p
node_of_stands_on none p h = absurd (omega arith)
node_of_stands_on (some q) p h = ground arith

-- The head of a queue names that queue.
pub head_node :
    (k : Kernel) (t p : ℕ) (rest : List ℕ)
    → IsReady k
    → k.ready_table p ≡ t ∷ rest
    → (k.thread t).ready_node ≡ some p
head_node k t p rest v e =
    node_of_stands_on _ p (ground (arith, v.queues.queued t p, ap (count t) e))
