-- ===== src/Rtos/Ipc/Mutex.antt =====
-- `Mutex` of src/rtos/ipc.rs: ownership that is handed to the first waiter, and the inheritance of
-- priorities along the chain of threads that wait for each other.
-- The loops over that chain run on fuel, `none` when it is spent.
pub mod Handover
pub mod Priority
pub mod Order
pub mod Tests
use hc32f460jeua_evb.Base.{
  ℕ, zero, suc, ◌+◌, ◌-◌, ◌%◌, ◌^◌, min, Bool, true, false, ◌&&◌, ◌||◌, not, Option, none, some,
  List, [], ◌∷◌, ltb, leb, ◌==◌, if◌then◌else◌, update, erase,
}
use hc32f460jeua_evb.Rtos.Kernel.{
  Kernel, ThreadInner, MutexInner, set_thread, is_linked, suspend_node_remove,
}
use hc32f460jeua_evb.Rtos.Sched.{change_priority}
use hc32f460jeua_evb.Rtos.Ipc.{
  Timeout, Error, Result, ok, err, Outcome, returns, blocks, timer_delay, is_no_wait,
  ensure_ipc_context, suspend_prio, insert_prio_waiter, wake_head, resched_needed, wait_failed,
}

pub set_mutex : Kernel → ℕ → MutexInner → Kernel
set_mutex k m inner = record k { mutex = update k.mutex m inner }

abbrev pub same_thread : Option ℕ → Option ℕ → Bool
same_thread none none = true
same_thread none (some b) = false
same_thread (some a) none = false
same_thread (some a) (some b) = a == b

-- The owner of the mutex that a thread waits for; a thread that waits for its own ends the chain.
successor_of : ℕ → Option ℕ → Kernel → Option ℕ
successor_of t none k = none
successor_of t (some m) k =
    if same_thread (k.mutex m).owner (some t) then none else (k.mutex m).owner

pub inheritance_successor : Option ℕ → Kernel → Option ℕ
inheritance_successor none k = none
inheritance_successor (some t) k = successor_of t (k.thread t).pending_mutex k

abbrev both_go_on : Option ℕ → Option ℕ → Bool
both_go_on slow fast = is_linked slow && is_linked fast && not (same_thread slow fast)

-- The two loops of `inheritance_cycle_entry`.
find_meeting : ℕ → Option ℕ → Option ℕ → Kernel → Option (Option ℕ × Option ℕ)
find_meeting zero slow fast k = none
find_meeting (suc fuel) slow fast k =
    let rest =
      find_meeting fuel (inheritance_successor slow k)
        (inheritance_successor (inheritance_successor fast k) k) k in
    if both_go_on slow fast then rest else some (slow, fast)

find_entry : ℕ → Option ℕ → Option ℕ → Kernel → Option (Option ℕ)
find_entry zero slow fast k = none
find_entry (suc fuel) slow fast k =
    let rest = find_entry fuel (inheritance_successor slow k) (inheritance_successor fast k) k in
    if same_thread slow fast then some slow else rest

entry_from : ℕ → Option ℕ → Option (Option ℕ × Option ℕ) → Kernel → Option (Option ℕ)
entry_from fuel start none k = none
entry_from fuel start (some (slow, fast)) k =
    if not (is_linked slow) || not (is_linked fast) then some none else find_entry fuel start fast k

pub inheritance_cycle_entry : ℕ → ℕ → Kernel → Option (Option ℕ)
inheritance_cycle_entry fuel start k =
    let next = inheritance_successor (some start) k in
    entry_from fuel (some start) (find_meeting fuel next (inheritance_successor next k) k) k

-- A waiter whose priority changed takes its new place among the waiters of its mutex.
pub requeue : ℕ → ℕ → Kernel → Kernel
requeue t m k = insert_prio_waiter (k.mutex m).suspend_list t (suspend_node_remove t k)

-- One round of the two loops along the chain: the priority changes, the waiter is placed again, and
-- the thread to go on with.
pub chain_round : ℕ → ℕ → Kernel → Option ℕ → Kernel × Option ℕ
chain_round t prio k none = (change_priority t prio k, none)
chain_round t prio k (some m) =
    let k1 = requeue t m (change_priority t prio k) in (k1, inheritance_successor (some t) k1)

pub priority_inherit_loop : ℕ → ℕ → ℕ → Option ℕ → Bool → Kernel → Option Kernel
priority_inherit_loop zero chain prio entry entered k = none
priority_inherit_loop (suc fuel) chain prio entry entered k =
    let (k1, next) = chain_round chain prio k (k.thread chain).pending_mutex in
    let rest = λ (owner : ℕ).
      priority_inherit_loop fuel owner prio entry (entered || same_thread (some owner) entry) k1 in
    if leb (k.thread chain).current_priority prio then some k else elim next [
      | none ↦ some k1
      | some owner ↦ if same_thread (some owner) entry && entered then some k1 else rest owner
    ]

pub priority_inherit : ℕ → ℕ → ℕ → Kernel → Option Kernel
priority_inherit fuel chain prio k = elim (inheritance_cycle_entry fuel chain k) [
  | none ↦ none
  | some entry ↦ priority_inherit_loop fuel chain prio entry (same_thread (some chain) entry) k
]

first_priority : List ℕ → Kernel → ℕ → ℕ
first_priority [] k p = p
first_priority (w ∷ ws) k p = min p (k.thread w).current_priority

pub least_of : List ℕ → Kernel → ℕ → ℕ
least_of [] k p = p
least_of (m ∷ ms) k p = least_of ms k (first_priority (k.suspended (k.mutex m).suspend_list) k p)

-- The least of the own priority and those of the first waiters of the mutexes held.
pub effective_priority : ℕ → Kernel → ℕ
effective_priority t k = least_of (k.thread t).taken_list k (k.thread t).init_priority

pub recompute_loop : ℕ → ℕ → Option ℕ → Bool → Kernel → Option Kernel
recompute_loop zero t entry entered k = none
recompute_loop (suc fuel) t entry entered k =
    let (k1, next) = chain_round t (effective_priority t k) k (k.thread t).pending_mutex in
    let rest = λ (owner : ℕ).
      recompute_loop fuel owner entry (entered || same_thread (some owner) entry) k1 in
    if effective_priority t k == (k.thread t).current_priority then some k else elim next [
      | none ↦ some k1
      | some owner ↦ if same_thread (some owner) entry && entered then some k1 else rest owner
    ]

pub recompute_priority_chain : ℕ → ℕ → Kernel → Option Kernel
recompute_priority_chain fuel t k = elim (inheritance_cycle_entry fuel t k) [
  | none ↦ none
  | some entry ↦ recompute_loop fuel t entry (same_thread (some t) entry) k
]

-- `t` becomes the owner of `m`, which goes to the front of its list.
pub take_ownership : ℕ → ℕ → Kernel → Kernel
take_ownership m t k =
    let k1 = set_mutex k m (record (k.mutex m) { owner = some t; hold = 1 }) in
    set_thread k1 t (record (k1.thread t) { taken_list = m ∷ (k1.thread t).taken_list })

-- `owner = null` and `taken_node.remove()`, for a mutex on the list of its owner `t`.
pub drop_ownership : ℕ → ℕ → ℕ → Kernel → Kernel
drop_ownership m t hold k =
    let k1 = set_mutex k m (record (k.mutex m) { owner = none; hold = hold }) in
    set_thread k1 t (record (k1.thread t) { taken_list = erase m (k1.thread t).taken_list })

-- A waiter that was woken owns the mutex; without one, nobody does.
pub hand_over : ℕ → Option (ℕ × Kernel) → Kernel → Bool × Kernel
hand_over m none k = (false, k)
hand_over m (some (w, k1)) k =
    let k2 = take_ownership m w (set_thread k1 w (record (k1.thread w) { pending_mutex = none })) in
    (resched_needed w k2, k2)

-- The critical section of `lock`, for the current thread `cur`.
inherit_for : ℕ → ℕ → ℕ → Kernel → Option Kernel
inherit_for fuel own cur k =
    if ltb (k.thread cur).current_priority (k.thread own).current_priority
    then priority_inherit fuel own (k.thread cur).current_priority k
    else some k

lock_waits : ℕ → Timeout → ℕ → Option Kernel → Option (Outcome (Unit {0}) × Kernel)
lock_waits m timeout cur none = none
lock_waits m timeout cur (some k) =
    let k1 = set_thread k cur (record (k.thread cur) { pending_mutex = some m }) in
    some (blocks, suspend_prio (k1.mutex m).suspend_list (timer_delay timeout) cur k1)

lock_owned : ℕ → ℕ → Timeout → ℕ → Option ℕ → Kernel → Option (Outcome (Unit {0}) × Kernel)
lock_owned fuel m timeout cur none k = some (returns (ok tt), take_ownership m cur k)
lock_owned fuel m timeout cur (some own) k =
    if own == cur
    then some (returns (err Error.invalid), k)
    else if is_no_wait timeout
    then some (returns (err Error.timed_out), k)
    else lock_waits m timeout cur (inherit_for fuel own cur k)

pub lock_inner : ℕ → ℕ → Timeout → ℕ → Kernel → Option (Outcome (Unit {0}) × Kernel)
lock_inner fuel m timeout cur k = lock_owned fuel m timeout cur (k.mutex m).owner k

-- `lock` when the thread runs again: being woken is owning the mutex.
pub lock_resumed : ℕ → Kernel → Result (Unit {0})
lock_resumed cur k = if wait_failed cur k then err Error.timed_out else ok tt

unlock_recomputed : ℕ → Option Kernel → Option (Bool × Kernel)
unlock_recomputed m none = none
unlock_recomputed m (some k) = some (hand_over m (wake_head (k.mutex m).suspend_list k) k)

-- The critical section of `unlock`: whether a switch is needed, and the state. `hold` is a `u8`.
pub unlock : ℕ → ℕ → ℕ → Kernel → Option (Bool × Kernel)
unlock fuel m cur k =
    let hold = ((k.mutex m).hold + 255) % 2 ^ 8 in
    if not (same_thread (k.mutex m).owner (some cur))
    then some (false, k)
    else if not (hold == 0)
    then some (false, set_mutex k m (record (k.mutex m) { hold = hold }))
    else unlock_recomputed m (recompute_priority_chain fuel cur (drop_ownership m cur 0 k))

-- `mutex_waiter_removed`
waiter_gone : ℕ → ℕ → Option ℕ → Kernel → Option Kernel
waiter_gone fuel t none k = some k
waiter_gone fuel t (some owner) k =
    if owner == t then some k else recompute_priority_chain fuel owner k

owner_told : ℕ → ℕ → Option ℕ → Kernel → Option Kernel
owner_told fuel t none k = some k
owner_told fuel t (some m) k = waiter_gone fuel t (k.mutex m).owner k

pub mutex_waiter_removed : ℕ → ℕ → Kernel → Option Kernel
mutex_waiter_removed fuel t k =
    owner_told fuel t (k.thread t).pending_mutex
      (set_thread k t (record (k.thread t) { pending_mutex = none }))

-- One round of `mutex_release_all_held`, for the first mutex held.
pub release_held : ℕ → ℕ → Kernel → Kernel
release_held t m k =
    let k1 = drop_ownership m t 0 k in (hand_over m (wake_head (k1.mutex m).suspend_list k1) k1).1

pub mutex_release_all_held : ℕ → ℕ → Kernel → Option Kernel
mutex_release_all_held zero t k = none
mutex_release_all_held (suc fuel) t k = elim (k.thread t).taken_list [
  | [] ↦ some k
  | m ∷ ms ↦ mutex_release_all_held fuel t (release_held t m k)
]
