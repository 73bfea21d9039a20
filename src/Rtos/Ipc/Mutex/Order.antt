-- ===== src/Rtos/Ipc/Mutex/Order.antt =====
-- The waiters of a mutex stand in the order of their priorities.
use hc32f460jeua_evb.Base.{
  ℕ, none, some, List, [], ◌∷◌, ◌≡◌, refl, sym, ap, ltb, if◌then◌else◌, update, erase, arith, subst,
  count, ◌==◌, ◌+◌, ◌∙◌,
}
use hc32f460jeua_evb.Base.Ordered.{
  Sorted, insert_by, insert_by-Sorted, Sorted-congr, count-insert_by,
}
use hc32f460jeua_evb.Rtos.Kernel.{
  Kernel, suspend_link, suspend_node_remove, suspend_node_remove-some,
}
use hc32f460jeua_evb.Rtos.Ipc.{prio_walk, insert_prio_waiter}
use hc32f460jeua_evb.Rtos.Ipc.Mutex.{requeue}

abbrev pub priority_in : Kernel → ℕ → ℕ
priority_in k t = (k.thread t).current_priority

-- The first waiter is one of the most urgent.
abbrev pub InOrder : ℕ → Kernel → Type 0
InOrder q k = Sorted (priority_in k) (k.suspended q)

walk-insert_by :
    (k : Kernel) (t : ℕ) (l : List ℕ) → prio_walk k.thread t l ≡ insert_by (priority_in k) t l
unfolding prio_walk insert_by
walk-insert_by k t [] = refl
walk-insert_by k t (w ∷ ws) =
    ap
      (λ l.
        if ltb (k.thread t).current_priority (k.thread w).current_priority
        then t ∷ w ∷ ws
        else w ∷ l)
      (walk-insert_by k t ws)

placed :
    (q t : ℕ) (k : Kernel)
    → (insert_prio_waiter q t k).suspended q ≡ insert_by (priority_in k) t (k.suspended q)
unfolding insert_prio_waiter suspend_link
placed q t k = ground (arith, walk-insert_by k t (k.suspended q))

priority_kept :
    (q t u : ℕ) (k : Kernel) → priority_in k u ≡ priority_in (insert_prio_waiter q t k) u
unfolding insert_prio_waiter suspend_link
priority_kept q t u k = ground arith

linked_at : (q t : ℕ) (k : Kernel) → ((insert_prio_waiter q t k).thread t).suspend_node ≡ some q
unfolding insert_prio_waiter suspend_link
linked_at q t k = ground arith

-- A thread that is placed by `insert_prio_waiter` leaves the waiters in order.
pub insert_prio_waiter-InOrder :
    (q t : ℕ) (k : Kernel) → InOrder q k → InOrder q (insert_prio_waiter q t k)
insert_prio_waiter-InOrder q t k s =
    subst (λ l. Sorted (priority_in (insert_prio_waiter q t k)) l) (sym (placed q t k))
      (Sorted-congr (priority_in k) (priority_in (insert_prio_waiter q t k))
        (insert_by (priority_in k) t (k.suspended q)) (λ u c. priority_kept q t u k)
        (insert_by-Sorted (priority_in k) t (k.suspended q) s))

removed :
    (q t : ℕ) (k : Kernel)
    → (k.thread t).suspend_node ≡ some q
    → Sorted (priority_in k) (erase t (k.suspended q))
    → InOrder q (suspend_node_remove t k)
removed q t k e s = rw (suspend_node_remove-some t k q e) (
    subst
      (λ l.
        Sorted
          (priority_in (record k {
            suspended = update k.suspended q (erase t (k.suspended q));
            thread = update k.thread t (record (k.thread t) { suspend_node = none });
          }))
          l)
      (ground arith)
      (Sorted-congr (priority_in k) _ (erase t (k.suspended q)) (λ u c. ground arith) s))

-- The list of the mutex is in order, and the thread stands on it among the others.
abbrev pub Requeued : ℕ → ℕ → Kernel → Kernel → Type 0
Requeued q t k k' =
    InOrder q k'
    × ((k'.thread t).suspend_node ≡ some q)
    × ((u : ℕ)
        → count u (k'.suspended q) ≡ (if t == u then 1 else 0) + count u (erase t (k.suspended q)))

-- A waiter whose priority has changed, on a list whose other waiters are in order, is placed again: the list
-- is in order, it has the thread once more than the others without it, and the others as before, and the
-- link of the thread names it.
pub requeue-InOrder :
    (m t : ℕ) (k : Kernel)
    → (k.thread t).suspend_node ≡ some (k.mutex m).suspend_list
    → Sorted (priority_in k) (erase t (k.suspended (k.mutex m).suspend_list))
    → Requeued (k.mutex m).suspend_list t k (requeue t m k)
unfolding requeue
requeue-InOrder m t k e s =
    let q = (k.mutex m).suspend_list in
    let k1 = suspend_node_remove t k in
    let left : k1.suspended q ≡ erase t (k.suspended q) =
      rw (suspend_node_remove-some t k q e) (ground arith) in
    (
      insert_prio_waiter-InOrder q t k1 (removed q t k e s),
      linked_at q t k1,
      λ u.
          ap (count u) (placed q t k1)
          ∙ count-insert_by (priority_in k1) t u (k1.suspended q)
          ∙ ap (λ l. (if t == u then 1 else 0) + count u l) left,
    )
