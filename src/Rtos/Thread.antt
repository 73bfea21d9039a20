-- ===== src/Rtos/Thread.antt =====
-- src/rtos/thread.rs: suspending, resuming, sleeping, the time-out of a wait, and deletion.
-- What a mutex needs along its chain of waiters runs on fuel, `none` when it is spent.
pub mod Timing
pub mod Stack
pub mod Tests
use hc32f460jeua_evb.Base.{
  zero, suc, ◌-◌, ◌*◌, ℕ, ◌+◌, ◌%◌, ◌^◌, min, Bool, true, false, ◌&&◌, ◌||◌, not, Option, none,
  some, List, [], ◌∷◌, ◌++◌, ◌==◌, ltb, if◌then◌else◌, ℤ, pos, negsuc,
}
use hc32f460jeua_evb.Rtos.Kernel.{
  Kernel, ThreadState, set_thread, is_linked, suspend_node_remove, suspend_link,
}
use hc32f460jeua_evb.Rtos.Timer.{Callback, start_internal, stop_internal, max_timer_ticks}
use hc32f460jeua_evb.Rtos.Sched.{stack_pattern, ready_remove, yield_thread, schedule}
use hc32f460jeua_evb.Rtos.Ipc.{
  Error, Result, ok, err, set_state, set_error, stop_thread_timer, start_thread_timer,
  wakeup_thread, resched_needed,
}
use hc32f460jeua_evb.Rtos.Ipc.Mutex.{mutex_waiter_removed, mutex_release_all_held}

abbrev pub is_suspended : ThreadState → Bool
is_suspended ThreadState.ts_init = false
is_suspended ThreadState.ts_ready = false
is_suspended ThreadState.ts_running = false
is_suspended ThreadState.ts_suspend = true
is_suspended ThreadState.ts_close = false

abbrev pub can_run : ThreadState → Bool
can_run ThreadState.ts_init = false
can_run ThreadState.ts_ready = true
can_run ThreadState.ts_running = true
can_run ThreadState.ts_suspend = false
can_run ThreadState.ts_close = false

abbrev pub is_closed : ThreadState → Bool
is_closed ThreadState.ts_init = false
is_closed ThreadState.ts_ready = false
is_closed ThreadState.ts_running = false
is_closed ThreadState.ts_suspend = false
is_closed ThreadState.ts_close = true

-- The call of a function that reports a switch as needed, and what it leaves.
cb_woken : ℕ → Option Kernel → Option (Bool × Kernel)
cb_woken t none = none
cb_woken t (some k) = let k1 = wakeup_thread t k in some (resched_needed t k1, k1)

-- `thread_timer_cb`
pub thread_timer_cb : ℕ → ℕ → Kernel → Option (Bool × Kernel)
thread_timer_cb fuel t k =
    if not (is_suspended (k.thread t).state)
    then some (false, k)
    else cb_woken t (mutex_waiter_removed fuel t (suspend_node_remove t (set_error t (negsuc 0) k)))

-- `delay_suspend`, with the address of `SLEEP_LIST`
pub delay_suspend : ℕ → ℕ → ℕ → Kernel → Kernel
delay_suspend sleep_list cur ticks k =
    let k1 = suspend_node_remove cur (set_error cur (pos 0) k) in
    let k2 = start_thread_timer (some ticks) cur k1 in
    let k3 = suspend_link sleep_list cur (k2.suspended sleep_list ++ cur ∷ []) k2 in
    ready_remove cur (set_state cur ThreadState.ts_suspend k3)

-- How a call of `thread_delay` ends: an error, or the state that is switched to.
pub data Delayed : Type 0 where
  refused : Error → Delayed
  goes_on : Option Kernel → Delayed

delay_current : ℕ → ℕ → Option ℕ → Kernel → Delayed
delay_current sleep_list ticks none k = Delayed.refused Error.kernel_not_started
delay_current sleep_list ticks (some cur) k =
    if ticks == 0
    then Delayed.goes_on (yield_thread cur k)
    else Delayed.goes_on (schedule (delay_suspend sleep_list cur ticks k))

pub thread_delay : Bool → ℕ → ℕ → Kernel → Delayed
thread_delay in_isr sleep_list ticks k =
    if not (is_linked k.current)
    then Delayed.refused Error.kernel_not_started
    else if in_isr
    then Delayed.refused Error.interrupt_context
    else delay_current sleep_list ticks k.current k

-- `Thread::suspend`: whether a switch is needed.
abbrev pub is_current : ℕ → Option ℕ → Bool
is_current t none = false
is_current t (some cur) = t == cur

pub suspend : ℕ → Kernel → Result Bool × Kernel
suspend t k =
    if is_current t k.current
    then (err Error.invalid, k)
    else if can_run (k.thread t).state
    then (let k1 = set_state t ThreadState.ts_suspend (ready_remove t k) in
        (ok (resched_needed t k1), k1))
    else (err Error.invalid, k)

-- `Thread::resume`
pub resume : ℕ → Kernel → Result Bool × Kernel
resume t k =
    if not (is_suspended (k.thread t).state) || is_linked (k.thread t).suspend_node
    then (err Error.invalid, k)
    else (let k1 = wakeup_thread t k in (ok (resched_needed t k1), k1))

-- `delete_bookkeeping`, on the list of the threads that wait for their memory to be given back
pub record Deletion : Type 0 where
  pub kernel : Kernel
  pub defunct : List ℕ

close_thread : ℕ → List ℕ → Option Kernel → Option Deletion
close_thread t defunct none = none
close_thread t defunct (some k) =
    some (record { kernel = set_state t ThreadState.ts_close k; defunct = defunct ++ t ∷ [] })

-- After its mutexes are given away the thread leaves its timer and its lists.
pub leave_lists : ℕ → Kernel → Kernel
leave_lists t k =
    let k1 = stop_thread_timer t k in
    suspend_node_remove t (if is_linked (k1.thread t).ready_node then ready_remove t k1 else k1)

after_release : ℕ → ℕ → List ℕ → Option Kernel → Option Deletion
after_release fuel t defunct none = none
after_release fuel t defunct (some k) =
    close_thread t defunct (mutex_waiter_removed fuel t (leave_lists t k))

pub delete_bookkeeping : ℕ → ℕ → Deletion → Option Deletion
delete_bookkeeping fuel t d =
    if is_closed (d.kernel.thread t).state
    then some d
    else after_release fuel t d.defunct (mutex_release_all_held fuel t d.kernel)

-- The words from the bottom of a stack that still hold the pattern.
pub unused_words : List ℕ → ℕ
unused_words [] = 0
unused_words (v ∷ vs) = let rest = unused_words vs in if v == stack_pattern then suc rest else 0

-- `stack_watermark`, of a stack of `size` bytes with these words
pub stack_watermark : ℕ → List ℕ → ℕ
stack_watermark size words = size - unused_words words * 4

-- `check_stack_canaries`: the first of the threads whose canary word is not the pattern.
pub check_stack_canaries : (ℕ → ℕ) → List ℕ → Option ℕ
check_stack_canaries canary [] = none
check_stack_canaries canary (t ∷ ts) =
    if canary t == stack_pattern then check_stack_canaries canary ts else some t
