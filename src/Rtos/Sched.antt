-- ===== src/Rtos/Sched.antt =====
-- src/rtos/sched.rs: the ready table with its bitmap, rotation, and the choice of the next thread;
-- from src/rtos/context.rs the switch request and what PendSV does with it.
-- A panic of the stack check is `none`.
pub mod Invariant
pub mod Operations
pub mod Scheduling
pub mod Effects
pub mod Highest
pub mod Switch
pub mod Tests
use Prim.Native.Nat.{bit_and, bit_or}
use hc32f460jeua_evb.Base.{
  length, ℕ, zero, suc, ◌+◌, ◌-◌, ◌*◌, ◌/◌, ◌%◌, ◌^◌, Bool, true, false, ◌&&◌, ◌||◌, not, Option,
  none, some, List, [], ◌∷◌, ltb, leb, ◌==◌, if◌then◌else◌, is_nil, get_elem?,
}
use hc32f460jeua_evb.Base.Bits.{clear_mask}
use hc32f460jeua_evb.Rtos.Kernel.{
  Kernel, ThreadInner, set_thread, is_linked, ready_node_remove, ready_push_back,
}

-- The most that `PRIORITY_MAX` may be; the bitmap has as many bits.
abbrev pub priority_max : ℕ
priority_max = 32

abbrev pub stack_pattern : ℕ
stack_pattern = 0xA5A5_A5A5

-- `group.trailing_zeros()`: the lowest of the next `bits` bits that is set, else the width.
pub trailing_zeros_from : ℕ → ℕ → ℕ
trailing_zeros_from zero group = 0
trailing_zeros_from (suc bits) group =
    if group % 2 == 1 then 0 else suc (trailing_zeros_from bits (group / 2))

abbrev pub trailing_zeros : ℕ → ℕ
trailing_zeros group = trailing_zeros_from 32 group

pub first : List ℕ → Option ℕ
first [] = none
first (t ∷ _) = some t

pub highest_ready_thread : Kernel → Option ℕ
unfolding first
highest_ready_thread k =
    if k.ready_group == 0 then none else first (k.ready_table (trailing_zeros k.ready_group))

pub ready_insert : ℕ → Kernel → Kernel
unfolding ready_push_back
ready_insert t k =
    let prio = (k.thread t).current_priority in
    let k' = ready_push_back prio t k in
    record k' { ready_group = bit_or k'.ready_group (2 ^ prio) }

unfoldable pub ready_remove : ℕ → Kernel → Kernel
ready_remove t k =
    let k' = ready_node_remove t k in
    let prio = (k'.thread t).current_priority in
    if is_nil (k'.ready_table prio)
    then record k' { ready_group = bit_and k'.ready_group (clear_mask 32 prio) }
    else k'

set_priority : ℕ → ℕ → Kernel → Kernel
set_priority t prio k = set_thread k t (record (k.thread t) { current_priority = prio })

pub change_priority : ℕ → ℕ → Kernel → Kernel
unfolding set_priority
change_priority t prio k =
    if (k.thread t).current_priority == prio
    then k
    else if is_linked (k.thread t).ready_node
    then ready_insert t (set_priority t prio (ready_remove t k))
    else set_priority t prio k

-- The checks of `stack_guard_check` that panic.
abbrev pub stack_guard_holds : ThreadInner → Bool
stack_guard_holds t =
    not (ltb t.sp t.stack_addr || leb (t.stack_addr + t.stack_size) t.sp)
    && all_pattern t.stack_bottom
  where
    all_pattern : List ℕ → Bool
    all_pattern [] = true
    all_pattern (w ∷ ws) = w == stack_pattern && all_pattern ws

pub clear_yielded : ℕ → Kernel → Kernel
clear_yielded t k = set_thread k t (record (k.thread t) { yielded = false })

-- context.rs: while a request is pending only its target is replaced.
pub request_switch : ℕ → ℕ → Kernel → Kernel
request_switch from to k = record k {
  switch_from = if k.switch_flag then k.switch_from else some from;
  switch_to = some to;
  switch_flag = true;
}

pub schedule_to : ℕ → ℕ → Kernel → Option Kernel
schedule_to cur to k =
    if to == cur
    then some (clear_yielded to k)
    else if stack_guard_holds (k.thread cur) && stack_guard_holds (k.thread to)
    then some (
        request_switch cur to
          (record (clear_yielded to (clear_yielded cur k)) { current = some to }))
    else none

pub schedule_from : Option ℕ → Option ℕ → Kernel → Option Kernel
schedule_from none to k = some k
schedule_from (some cur) none k = some k
schedule_from (some cur) (some to) k = schedule_to cur to k

pub schedule : Kernel → Option Kernel
schedule k = schedule_from k.current (highest_ready_thread k) k

-- The thread whose registers are live, beside the kernel's state: PendSV saves them in `from` and
-- loads those of `to`.
pub pendsv_handler : Kernel × Option ℕ → Kernel × Option ℕ
pendsv_handler (k, running) =
    if k.switch_flag then (record k { switch_flag = false }, k.switch_to) else (k, running)

-- The slice of the running thread is spent: to the back of its queue.
pub rotate : ℕ → Kernel → Kernel
rotate t k =
    let k' = ready_insert t (ready_node_remove t k) in
    set_thread k' t (record (k'.thread t) { yielded = true })

set_remaining : ℕ → ℕ → Kernel → Kernel
set_remaining t left k = set_thread k t (record (k.thread t) { remaining_tick = left })

tick_of : ℕ → Kernel → Kernel × Bool
tick_of cur k =
    let t = k.thread cur in
    let left = t.remaining_tick - 1 in
    if t.init_tick == 0
    then (k, false)
    else if left == 0
    then (let k' = set_remaining cur t.init_tick k in
        if is_linked t.ready_node then (rotate cur k', true) else (k', false))
    else (set_remaining cur left k, false)

pub tick_increase : Kernel → Kernel × Bool
tick_increase k = elim k.current [ none ↦ (k, false) | some cur ↦ tick_of cur k ]

pub yield_thread : ℕ → Kernel → Option Kernel
yield_thread cur k = if is_linked (k.thread cur).ready_node then schedule (rotate cur k) else some k

-- `start`: the most urgent ready thread becomes current, and PendSV is to load it, saving nothing.
-- The source panics when no thread is ready.
pub start : Kernel → Option Kernel
start k = elim (highest_ready_thread k) [
  | none ↦ none
  | some t ↦
      some
        (record k { current = some t; switch_from = none; switch_to = some t; switch_flag = true })
]

-- The lengths of the queues below priority `n`.
pub ready_below : ℕ → Kernel → ℕ
ready_below zero k = 0
ready_below (suc n) k = ready_below n k + length (k.ready_table n)

pub ready_thread_count : Kernel → ℕ
ready_thread_count k = ready_below 32 k
