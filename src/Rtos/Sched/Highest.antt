-- ===== src/Rtos/Sched/Highest.antt =====
-- The bitmap finds the most urgent ready thread.
use hc32f460jeua_evb.Base.{
  ltb-ge, ltb→lt, ℕ, zero, suc, ◌/◌, ◌%◌, ◌^◌, ◌≤◌, ◌<◌, ◌≡◌, refl, false, none, some, List, [],
  ◌∷◌, ltb, ◌==◌, if◌then◌else◌, is_nil, count, arith, ◌⊎◌, Bool-cases, inl, inr, sym, ap, ◌∙◌,
}
use native.Mathlib.Nat.{pow-suc}
use hc32f460jeua_evb.Base.Bits.{bit_at, bit_at-zero}
use hc32f460jeua_evb.Rtos.Kernel.{Kernel}
use hc32f460jeua_evb.Rtos.Sched.{trailing_zeros_from, trailing_zeros, first, highest_ready_thread}
use hc32f460jeua_evb.Rtos.Sched.Invariant.{IsReady, BitAgrees, head_node}

-- A number that fits and is not 0 has a lowest set bit within the width.
trailing_zeros_from_lem :
    (bits g : ℕ)
    → g < 2 ^ bits
    → 0 < g
    → (trailing_zeros_from bits g < bits)
      × (bit_at g (trailing_zeros_from bits g) ≡ 1)
      × ((p : ℕ) → p < trailing_zeros_from bits g → bit_at g p ≡ 0)
unfolding trailing_zeros_from bit_at
trailing_zeros_from_lem zero g h pos = absurd (omega arith)
trailing_zeros_from_lem (suc bits) g h pos = elim (Bool-cases (g % 2 == 1)) [
  | inl e ↦ rw e (omega arith, ground arith, λ p l. absurd (omega arith))
  | inr e ↦
      let r = trailing_zeros_from_lem bits (g / 2) (omega (arith, pow-suc 2 bits)) (ground arith) in
      rw e (omega (arith, r.0), r.1, lower e r.2)
]
  where
    lower :
        (g % 2 == 1) ≡ false
        → ((p : ℕ) → p < trailing_zeros_from bits (g / 2) → bit_at (g / 2) p ≡ 0)
        → (p : ℕ) → p < suc (trailing_zeros_from bits (g / 2))
        → bit_at g p ≡ 0
    lower e r zero l = ground arith
    lower e r (suc p) l = r p (omega arith)

empty_of_bit :
    (k : Kernel) (p : ℕ) → BitAgrees k p → bit_at k.ready_group p ≡ 0 → k.ready_table p ≡ []
empty_of_bit k p b z = go (k.ready_table p) (sym b ∙ z)
  where
    go : (l : List ℕ) → ◌≡◌ {A = ℕ} (if is_nil l then 0 else 1) 0 → l ≡ []
    go [] h = refl
    go (x ∷ xs) h = absurd (omega arith)

cons_of_bit :
    (k : Kernel) (p : ℕ)
    → BitAgrees k p
    → bit_at k.ready_group p ≡ 1
    → (t : ℕ) × (rest : List ℕ) × (k.ready_table p ≡ t ∷ rest)
cons_of_bit k p b z = go (k.ready_table p) (sym b ∙ z)
  where
    go :
        (l : List ℕ)
        → ◌≡◌ {A = ℕ} (if is_nil l then 0 else 1) 1
        → (t : ℕ) × (rest : List ℕ) × (l ≡ t ∷ rest)
    go [] h = absurd (omega arith)
    go (x ∷ xs) h = (x, xs, refl)

-- Either every queue is empty and nothing is found, or the head of the first queue that is not.
pub highest_ready_thread_lem :
    (k : Kernel)
    → IsReady k
    → (((p : ℕ) → p < 32 → k.ready_table p ≡ []) × (highest_ready_thread k ≡ none))
      ⊎ ((t : ℕ) × (rest : List ℕ) × (p : ℕ) × (p < 32)
          × (highest_ready_thread k ≡ some t)
          × (k.ready_table p ≡ t ∷ rest)
          × ((q : ℕ) → q < p → k.ready_table q ≡ []))
unfolding highest_ready_thread
highest_ready_thread_lem k v = elim (Bool-cases (k.ready_group == 0)) [
  | inl e ↦ inl (λ p h. empty_of_bit k p (v.bits p h) (ground (arith, bit_at-zero p)), rw e)
  | inr e ↦
      let z = trailing_zeros_from_lem 32 k.ready_group v.queues.word (ground arith) in
      let c = cons_of_bit k (trailing_zeros k.ready_group) (v.bits _ z.0) z.1 in
      inr (
        c.0,
        c.1,
        trailing_zeros k.ready_group,
        z.0,
        rw e (rw (c.2, first) refl),
        c.2,
        λ q l. empty_of_bit k q (v.bits q (omega (arith, z.0))) (z.2 q l),
      )
]

not_below :
    (k : Kernel) (u q p : ℕ)
    → IsReady k
    → ((q : ℕ) → q < p → k.ready_table q ≡ [])
    → (k.thread u).ready_node ≡ some q
    → p ≤ q
not_below k u q p v empty e = elim (Bool-cases (ltb q p)) [
  | inr ge ↦ ltb-ge q p ge
  | inl lt ↦ absurd (ground (arith, v.queues.queued u q, ap (count u) (empty q (ltb→lt q p lt))))
]

-- The thread that is chosen is ready, and a ready thread is no more urgent.
pub highest_ready_thread-IsHighest :
    (k : Kernel) (t u q : ℕ)
    → IsReady k
    → highest_ready_thread k ≡ some t
    → (k.thread u).ready_node ≡ some q
    → ((k.thread t).ready_node ≡ some (k.thread t).current_priority)
      × ((k.thread t).current_priority ≤ (k.thread u).current_priority)
highest_ready_thread-IsHighest k t u q v h e = elim (highest_ready_thread_lem k v) [
  | inl (empty, missing) ↦ cc
  | inr (t', rest, p, low, found, queue, more) ↦
      let same : t ≡ t' = cc in
      let node : (k.thread t).ready_node ≡ some p = head_node k t p rest v (rw same queue) in
      let at = v.queues.at_priority t p node in
      (rw at.0 node, omega (arith, at.0, v.queues.at_priority u q e, not_below k u q p v more e))
]
