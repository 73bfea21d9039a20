-- ===== src/Rtos/Ipc.antt =====
-- src/rtos/ipc.rs, the part that its objects share, with the waking and suspending of src/rtos/thread.rs.
pub mod Invariant
pub mod Suspending
pub mod Waking
pub mod Wake
pub mod Semaphore
pub mod Event
pub mod Mailbox
pub mod MessageQueue
pub mod Mutex
pub mod Tests
use hc32f460jeua_evb.Base.{
  ℕ, ◌+◌, ◌-◌, ◌^◌, ◌<◌, min, Bool, true, false, ◌&&◌, ◌||◌, not, Option, none, some, List, [], ◌∷◌,
  ◌++◌, ltb, leb, ◌==◌, if◌then◌else◌, ℤ, pos, negsuc, update,
}
use hc32f460jeua_evb.Rtos.Timer.{Timers, Callback, start_internal, stop_internal, max_timer_ticks}
use hc32f460jeua_evb.Rtos.Timer
use hc32f460jeua_evb.Rtos.Kernel.{
  Kernel, ThreadInner, ThreadState, set_thread, is_linked, suspend_node_remove, suspend_link,
}
use hc32f460jeua_evb.Rtos.Sched.{ready_insert, ready_remove, schedule}

pub data Timeout : Type 0 where
  forever : Timeout
  ticks : ℕ → Timeout

pub data Error : Type 0 where
  timed_out full invalid interrupt_context kernel_not_started : Error

pub data Result (A : Type 0) : Type 0 where
  ok : A → Result A
  err : Error → Result A

-- `Timeout::timer_delay`: `none` is only the endless wait.
pub timer_delay : Timeout → Option ℕ
timer_delay forever = none
timer_delay (ticks n) = some (min n max_timer_ticks)

abbrev pub is_no_wait : Timeout → Bool
is_no_wait forever = false
is_no_wait (ticks n) = n == 0

-- `ensure_ipc_context`; whether an interrupt is being served is an argument.
pub ensure_ipc_context : Bool → Timeout → Kernel → Result (Unit {0})
ensure_ipc_context in_isr timeout k =
    if not (is_linked k.current)
    then err kernel_not_started
    else if not (is_no_wait timeout) && in_isr
    then err interrupt_context
    else ok tt

unfoldable pub set_state : ℕ → ThreadState → Kernel → Kernel
set_state t st k = set_thread k t (record (k.thread t) { state = st })

unfoldable pub set_error : ℕ → ℤ → Kernel → Kernel
set_error t e k = set_thread k t (record (k.thread t) { error = e })

unfoldable pub start_thread_timer : Option ℕ → ℕ → Kernel → Kernel
start_thread_timer none t k = k
start_thread_timer (some delay) t k = record k {
  timers = start_internal (k.thread t).thread_timer delay 0 Callback.thread_timer_cb t k.timers;
}

pub stop_thread_timer : ℕ → Kernel → Kernel
stop_thread_timer t k = record k { timers = stop_internal (k.thread t).thread_timer k.timers }

-- `wakeup_thread` of thread.rs
pub wakeup_thread : ℕ → Kernel → Kernel
wakeup_thread t k = ready_insert t (set_state t ThreadState.ts_ready (stop_thread_timer t k))

-- `resched_needed` of thread.rs
pub resched_needed : ℕ → Kernel → Bool
resched_needed w k = elim k.current [
  | none ↦ false
  | some cur ↦ ltb (k.thread w).current_priority (k.thread cur).current_priority
]

-- `suspend_current`, for the current thread `cur` and the list at `q`
pub suspend_current : ℕ → Option ℕ → ℕ → Kernel → Kernel
suspend_current q delay cur k =
    let k1 = suspend_node_remove cur (set_error cur (pos 0) k) in
    let k2 = suspend_link q cur (k1.suspended q ++ cur ∷ []) k1 in
    ready_remove cur (set_state cur ThreadState.ts_suspend (start_thread_timer delay cur k2))

-- The walk of `insert_prio_waiter`: before the first waiter of lower priority.
pub prio_walk : (ℕ → ThreadInner) → ℕ → List ℕ → List ℕ
prio_walk f t [] = t ∷ []
prio_walk f t (w ∷ ws) =
    if ltb (f t).current_priority (f w).current_priority then t ∷ w ∷ ws else w ∷ prio_walk f t ws

pub insert_prio_waiter : ℕ → ℕ → Kernel → Kernel
insert_prio_waiter q t k = suspend_link q t (prio_walk k.thread t (k.suspended q)) k

-- `suspend_prio`
pub suspend_prio : ℕ → Option ℕ → ℕ → Kernel → Kernel
suspend_prio q delay cur k =
    let k1 = suspend_node_remove cur (set_error cur (pos 0) k) in
    let k2 = insert_prio_waiter q cur k1 in
    ready_remove cur (set_state cur ThreadState.ts_suspend (start_thread_timer delay cur k2))

pub wake_first : List ℕ → Kernel → Option (ℕ × Kernel)
wake_first [] k = none
wake_first (w ∷ _) k = some (w, wakeup_thread w (suspend_node_remove w k))

-- `wake_head`: the thread that was woken and the state after.
pub wake_head : ℕ → Kernel → Option (ℕ × Kernel)
wake_head q k = wake_first (k.suspended q) k

-- `blocked_wait`, once the thread runs again
pub wait_failed : ℕ → Kernel → Bool
wait_failed cur k = elim (k.thread cur).error [ pos n ↦ not (n == 0) | negsuc n ↦ true ]

-- What the critical section of a waiting call ends in: a return, or the thread is on the list and
-- `blocked_wait` follows.
pub data Outcome (A : Type 0) : Type 0 where
  returns : Result A → Outcome A
  blocks : Outcome A

-- `wakeup_thread`'s caller asks whether the woken thread is more urgent.
abbrev pub wake_need : Option (ℕ × Kernel) → Bool
wake_need none = false
wake_need (some (w, k)) = resched_needed w k
