-- ===== src/Rtos/Ipc/Event.antt =====
-- `Event` of src/rtos/ipc.rs: 32 flags, and threads that wait for some of them.
pub mod Flags
pub mod Waiters
pub mod Tests
use Prim.Native.Nat.{bit_and, bit_or}
use hc32f460jeua_evb.Base.{
  ℕ, zero, suc, ◌+◌, ◌-◌, ◌^◌, ◌≤◌, ◌<◌, ◌≡◌, refl, Bool, true, false, ◌&&◌, ◌||◌, not, Option,
  none, some, List, [], ◌∷◌, ltb, ◌==◌, if◌then◌else◌, arith, Option-cases, Bool-cases, inl, inr,
}
use hc32f460jeua_evb.Rtos.Kernel.{Kernel, EventOpt, set_thread, suspend_node_remove}
use hc32f460jeua_evb.Rtos.Ipc.{
  Timeout, Error, Result, ok, err, Outcome, returns, blocks, timer_delay, is_no_wait,
  ensure_ipc_context, suspend_current, wakeup_thread, resched_needed, wait_failed,
}

pub record EventInner : Type 0 where
  pub suspend_list : ℕ
  pub set : ℕ

-- `new`, with the address of the list
abbrev pub new : ℕ → EventInner
new waiters = record { suspend_list = waiters; set = 0 }

abbrev pub flags : EventInner → ℕ
flags e = e.set

abbrev pub Event : Type 0
Event = EventInner × Kernel

pub is_and : EventOpt → Bool
is_and EventOpt.opt_and = true
is_and EventOpt.and_clear = true
is_and EventOpt.opt_or = false
is_and EventOpt.or_clear = false

pub clear : EventOpt → Bool
clear EventOpt.opt_and = false
clear EventOpt.and_clear = true
clear EventOpt.opt_or = false
clear EventOpt.or_clear = true

-- `x & !y` on 32 bits
abbrev pub and_not : ℕ → ℕ → ℕ
and_not x y = bit_and x (2 ^ 32 - 1 - y)

-- The test and the matched bits that `send` and `recv` have in common.
pub matches : EventOpt → ℕ → ℕ → Bool
matches opt set wanted =
    if is_and opt then bit_and set wanted == wanted else not (bit_and set wanted == 0)

pub matched_bits : EventOpt → ℕ → ℕ → ℕ
matched_bits opt set wanted = if is_and opt then wanted else bit_and set wanted

pub flags_after : EventOpt → ℕ → ℕ → ℕ
flags_after opt set wanted =
    if clear opt
    then if is_and opt then and_not set wanted else and_not set (matched_bits opt set wanted)
    else set

-- A waiter leaves the list and wakes, with the flags that it was woken for.
wake_with : ℕ → ℕ → Kernel → Kernel
wake_with w bits k =
    let k1 = suspend_node_remove w k in
    wakeup_thread w (set_thread k1 w (record (k1.thread w) { event_recv_bits = bits }))

-- One waiter of the walk of `send`: woken with its bits if they match the flags that are left.
send_one : ℕ → ℕ × Kernel × Bool → ℕ × Kernel × Bool
send_one w (set, k, need) =
    let wanted = (k.thread w).event_wanted in
    let opt = (k.thread w).event_opt in
    if matches opt set wanted
    then (let k2 = wake_with w (matched_bits opt set wanted) k in
        (flags_after opt set wanted, k2, need || resched_needed w k2))
    else (set, k, need)

-- The walk saves the successor before a node is removed: it visits the list as it was at the start.
send_walk : List ℕ → ℕ × Kernel × Bool → ℕ × Kernel × Bool
send_walk [] s = s
send_walk (w ∷ ws) s = send_walk ws (send_one w s)

-- The critical section of `send`: whether a switch is needed, and the state.
pub send : ℕ → Event → Bool × Event
send set (e, k) =
    let (set', k', need) = send_walk (k.suspended e.suspend_list) (bit_or e.set set, k, false) in
    (need, (record e { set = set' }, k'))

recv_inner : ℕ → EventOpt → Timeout → ℕ → Event → Outcome ℕ × Event
recv_inner wanted opt timeout cur (e, k) =
    if matches opt e.set wanted
    then (
      returns (ok (matched_bits opt e.set wanted)),
      (record e { set = flags_after opt e.set wanted }, k),
    )
    else if is_no_wait timeout
    then (returns (err Error.timed_out), (e, k))
    else (
      blocks,
      (
        e,
        suspend_current e.suspend_list (timer_delay timeout) cur
            (set_thread k cur (record (k.thread cur) { event_wanted = wanted; event_opt = opt })),
      ),
    )

recv_checked : Result (Unit {0}) → ℕ → EventOpt → Timeout → Option ℕ → Event → Outcome ℕ × Event
recv_checked (err e) wanted opt timeout cur m = (returns (err e), m)
recv_checked (ok _) wanted opt timeout none m = (returns (err Error.kernel_not_started), m)
recv_checked (ok _) wanted opt timeout (some cur) m = recv_inner wanted opt timeout cur m

pub recv : Bool → ℕ → EventOpt → Timeout → Event → Outcome ℕ × Event
recv in_isr wanted opt timeout (e, k) =
    recv_checked (ensure_ipc_context in_isr timeout k) wanted opt timeout k.current (e, k)

-- `recv` when the thread runs again
pub recv_resumed : ℕ → Kernel → Result ℕ
recv_resumed cur k =
    if wait_failed cur k then err Error.timed_out else ok (k.thread cur).event_recv_bits
