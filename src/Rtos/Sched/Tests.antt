-- ===== src/Rtos/Sched/Tests.antt =====
-- Sample kernels, and the theorems on sched.rs applied to them.
use hc32f460jeua_evb.Base.{
  ℕ, zero, suc, ◌≤◌, ◌≡◌, refl, true, false, none, some, [], ◌∷◌, ◌==◌, if◌then◌else◌, pos, arith,
}
use hc32f460jeua_evb.Base.Bits.{bit_at}
use hc32f460jeua_evb.Rtos.Kernel.{Kernel, ThreadInner, ThreadState, EventOpt, ready_push_back}
use hc32f460jeua_evb.Rtos.Timer.{Timers}
use hc32f460jeua_evb.Rtos.Timer
use hc32f460jeua_evb.Rtos.Sched.{
  ready_below, ready_thread_count, ready_insert, change_priority, highest_ready_thread, first,
  trailing_zeros_from, start, tick_increase, rotate, pendsv_handler, yield_thread,
}
use hc32f460jeua_evb.Rtos.Sched.Invariant.{IsReady, ready_insert-IsReady}
use hc32f460jeua_evb.Rtos.Sched.Operations.{
  change_priority-IsReady, tick_increase-IsReady, rotate_queue,
}
use hc32f460jeua_evb.Rtos.Sched.Highest.{highest_ready_thread-IsHighest}
use hc32f460jeua_evb.Rtos.Sched.Switch.{Machine, Step, Reach, pendsv_runs_current}

-- Thread 3 has priority 5, the others 3. Nobody waits, and thread 1 is the current one.
abbrev pub sample_thread : ℕ → ThreadInner
sample_thread t = record {
  sp = 536870976;
  stack_addr = 536870912;
  stack_size = 1024;
  stack_bottom = 2779096485 ∷ 2779096485 ∷ 2779096485 ∷ 2779096485 ∷ [];
  init_priority = 5;
  current_priority = if t == 3 then 5 else 3;
  init_tick = 10;
  remaining_tick = 10;
  state = ThreadState.ts_suspend;
  yielded = false;
  error = pos 0;
  ready_node = none;
  suspend_node = none;
  thread_timer = t;
  taken_list = [];
  pending_mutex = none;
  event_wanted = 0;
  event_opt = EventOpt.opt_or;
  event_recv_bits = 0;
}

abbrev pub no_timers : Timers
no_timers = record { timer = λ t. Timer.new; timer_list = []; tick = 4294967290 }

abbrev pub idle_kernel : Kernel
idle_kernel = record {
  thread = sample_thread;
  ready_table = λ p. [];
  ready_group = 0;
  current = some 1;
  suspended = λ q. [];
  mutex = λ m. record { suspend_list = 100; owner = some 1; hold = 1 };
  timers = no_timers;
  switch_flag = false;
  switch_from = none;
  switch_to = none;
}

bit_at-zero : (p : ℕ) → bit_at 0 p ≡ 0
unfolding bit_at
bit_at-zero zero = refl
bit_at-zero (suc p) = bit_at-zero p

pub idle_kernel-IsReady : IsReady idle_kernel
idle_kernel-IsReady = record {
  queues = record { queued = λ t p. refl; at_priority = λ t p h. cc; word = omega arith };
  bits = λ p h. bit_at-zero p;
}

-- The three threads are made ready, in their order.
abbrev pub ready_1 : Kernel
ready_1 = ready_insert 1 idle_kernel

abbrev pub ready_2 : Kernel
ready_2 = ready_insert 2 ready_1

abbrev pub ready_3 : Kernel
ready_3 = ready_insert 3 ready_2

ready_1-IsReady : IsReady ready_1
ready_1-IsReady =
    ready_insert-IsReady 1 idle_kernel refl (omega arith) idle_kernel-IsReady.queues
      (λ p h ne. idle_kernel-IsReady.bits p h)

ready_2-IsReady : IsReady ready_2
unfolding ready_insert ready_push_back
ready_2-IsReady =
    ready_insert-IsReady 2 ready_1 refl (omega arith) ready_1-IsReady.queues
      (λ p h ne. ready_1-IsReady.bits p h)

ready_3-IsReady : IsReady ready_3
unfolding ready_insert ready_push_back
ready_3-IsReady =
    ready_insert-IsReady 3 ready_2 refl (omega arith) ready_2-IsReady.queues
      (λ p h ne. ready_2-IsReady.bits p h)

chosen : highest_ready_thread ready_3 ≡ some 1
unfolding highest_ready_thread first trailing_zeros_from ready_insert ready_push_back
chosen = refl

node_of_3 : (ready_3.thread 3).ready_node ≡ some 5
unfolding ready_insert ready_push_back
node_of_3 = refl

queue_of_3 : ready_3.ready_table 3 ≡ 1 ∷ 2 ∷ []
unfolding ready_insert ready_push_back
queue_of_3 = refl

highest_ready_thread-IsHighest_example :
    ((ready_3.thread 1).ready_node ≡ some (ready_3.thread 1).current_priority)
    × ((ready_3.thread 1).current_priority ≤ (ready_3.thread 3).current_priority)
highest_ready_thread-IsHighest_example =
    highest_ready_thread-IsHighest ready_3 1 3 5 ready_3-IsReady chosen node_of_3

change_priority-IsReady_example : IsReady (change_priority 1 9 ready_3)
change_priority-IsReady_example = change_priority-IsReady 1 9 ready_3 (omega arith) ready_3-IsReady

tick_increase-IsReady_example : IsReady (tick_increase ready_3).0
tick_increase-IsReady_example = tick_increase-IsReady ready_3 ready_3-IsReady

rotate_queue_example :
    ((rotate 1 ready_3).ready_table 3 ≡ 2 ∷ 1 ∷ [])
    × ((rotate 1 ready_3).ready_table 5 ≡ ready_3.ready_table 5)
rotate_queue_example = rotate_queue 1 3 5 (2 ∷ []) ready_3 ready_3-IsReady queue_of_3 refl

-- Thread 1 is started, loses its place to thread 2, and PendSV is taken.
started : (k : Kernel) × (start ready_3 ≡ some k)
unfolding start highest_ready_thread first trailing_zeros_from ready_insert ready_push_back
started = (_, refl)

abbrev machine : Machine
machine = (started.0, none)

abbrev taken_once : Reach machine (pendsv_handler machine)
taken_once = Reach.next Reach.here (Step.pends machine)

pendsv_runs_current_example :
    ((pendsv_handler (pendsv_handler machine)).1 ≡ (pendsv_handler machine).0.current)
    × ((pendsv_handler (pendsv_handler machine)).0.current ≡ (pendsv_handler machine).0.current)
    × ((pendsv_handler (pendsv_handler machine)).0.switch_flag ≡ false)
pendsv_runs_current_example =
    pendsv_runs_current ready_3 started.0 (pendsv_handler machine) started.1 taken_once

requested : started.0.switch_flag ≡ true
unfolding started start highest_ready_thread first trailing_zeros_from ready_insert ready_push_back
requested = refl

nothing_to_yield : yield_thread 1 idle_kernel ≡ some idle_kernel
unfolding yield_thread
nothing_to_yield = refl

three_ready : ready_thread_count ready_3 ≡ 3
unfolding ready_thread_count ready_below ready_insert ready_push_back
three_ready = refl
