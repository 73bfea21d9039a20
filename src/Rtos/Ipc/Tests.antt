-- ===== src/Rtos/Ipc/Tests.antt =====
-- A sample kernel with threads that wait, and the theorems on ipc.rs applied to it.
use hc32f460jeua_evb.Base.{
  ℕ, ◌+◌, ◌≡◌, refl, Bool, true, false, none, some, [], ◌∷◌, arith, ap, sym, ◌∙◌, erase,
}
use hc32f460jeua_evb.Base.Ordered.{Sorted}
use hc32f460jeua_evb.Rtos.Kernel.{
  Kernel, ThreadState, EventOpt, ready_node_remove, suspend_node_remove, suspend_link,
}
use hc32f460jeua_evb.Rtos.Timer.Invariant.{IsArmed}
use hc32f460jeua_evb.Rtos.Sched.{change_priority, ready_remove}
use hc32f460jeua_evb.Rtos.Sched.Tests.{idle_kernel, idle_kernel-IsReady, no_timers}
use hc32f460jeua_evb.Rtos.Ipc.{
  timer_delay, err, Error, ensure_ipc_context, resched_needed, Timeout, set_error, set_state,
  start_thread_timer, prio_walk, insert_prio_waiter, suspend_prio, wake_head,
}
use hc32f460jeua_evb.Rtos.Ipc.Invariant.{IsKernel}
use hc32f460jeua_evb.Rtos.Ipc.Suspending.{suspend_prio-IsKernel}
use hc32f460jeua_evb.Rtos.Ipc.Semaphore.{SemaphoreInner, take, release, IsSemaphore}
use hc32f460jeua_evb.Rtos.Ipc.Semaphore.Permits.{
  grants, hands_over, loses, History, Step, Reach, Balanced, Reach-Balanced, release_hands_over,
}
use hc32f460jeua_evb.Rtos.Ipc.Event.{EventInner, send, recv}
use hc32f460jeua_evb.Rtos.Ipc.Event.Waiters.{IsEvent, send-IsEvent, recv-IsEvent}
use hc32f460jeua_evb.Rtos.Ipc.Mailbox.{MailboxInner, send_turn, recv_turn}
use hc32f460jeua_evb.Rtos.Ipc.Mailbox.Deque.{
  IsRing, Sends, Receives, send_turn-Sends, recv_turn-Receives,
}
use hc32f460jeua_evb.Rtos.Ipc.Mutex.{unlock, requeue}
use hc32f460jeua_evb.Rtos.Ipc.Mutex.Handover.{HandedOver, unlock-HandedOver}
use hc32f460jeua_evb.Rtos.Sched.Effects.{Reprioritised}
use hc32f460jeua_evb.Rtos.Ipc.Mutex.Priority.{change_priority-IsKernel}
use hc32f460jeua_evb.Rtos.Ipc.Mutex.Order.{Requeued, priority_in, requeue-InOrder}

no_timers-IsArmed : IsArmed no_timers
no_timers-IsArmed = record {
  now = omega arith;
  linked = λ t. refl;
  window = tt;
  sorted = tt;
  periods = λ t. omega arith;
}

pub idle_kernel-IsKernel : IsKernel idle_kernel
idle_kernel-IsKernel = record {
  ready = idle_kernel-IsReady;
  waiting = λ t q. refl;
  held = λ t q h. cc;
  runnable = λ t p h. cc;
  priorities = λ t. ground arith;
  armed = no_timers-IsArmed;
}

-- Threads 3 and 2 wait on the list at 100, the more urgent one first.
abbrev pub waiting_kernel : Kernel
waiting_kernel = suspend_prio 100 (some 20) 2 (suspend_prio 100 none 3 idle_kernel)

pub waiting_kernel-IsKernel : IsKernel waiting_kernel
waiting_kernel-IsKernel =
    suspend_prio-IsKernel 100 2 (some 20) (suspend_prio 100 none 3 idle_kernel)
      (suspend_prio-IsKernel 100 3 none idle_kernel idle_kernel-IsKernel)

pub waiters : waiting_kernel.suspended 100 ≡ 2 ∷ 3 ∷ []
unfolding suspend_prio insert_prio_waiter prio_walk set_error set_state start_thread_timer
    suspend_link suspend_node_remove ready_remove ready_node_remove
waiters = refl

waits_2 : (waiting_kernel.thread 2).suspend_node ≡ some 100
unfolding suspend_prio insert_prio_waiter prio_walk set_error set_state start_thread_timer
    suspend_link suspend_node_remove ready_remove ready_node_remove
waits_2 = refl

owned_by_1 :
    ((waiting_kernel.mutex 7).owner ≡ some 1)
    × ((waiting_kernel.mutex 7).hold ≡ 1)
    × ((waiting_kernel.mutex 7).suspend_list ≡ 100)
unfolding suspend_prio insert_prio_waiter prio_walk set_error set_state start_thread_timer
    suspend_link suspend_node_remove ready_remove ready_node_remove
owned_by_1 = (refl, refl, refl)

pub no_pending :
    ((waiting_kernel.thread 1).pending_mutex ≡ none)
    × ((waiting_kernel.thread 2).pending_mutex ≡ none)
    × ((waiting_kernel.thread 1).init_priority ≡ 5)
unfolding suspend_prio insert_prio_waiter prio_walk set_error set_state start_thread_timer
    suspend_link suspend_node_remove ready_remove ready_node_remove
no_pending = (refl, refl, refl)

in_order :
    Sorted
      (priority_in waiting_kernel)
      (erase 2 (waiting_kernel.suspended (waiting_kernel.mutex 7).suspend_list))
unfolding suspend_prio insert_prio_waiter prio_walk set_error set_state start_thread_timer
    suspend_link suspend_node_remove ready_remove ready_node_remove
in_order = (tt, tt)

change_priority-IsKernel_example :
    IsKernel (change_priority 3 1 waiting_kernel)
    × Reprioritised 3 1 waiting_kernel (change_priority 3 1 waiting_kernel)
change_priority-IsKernel_example =
    change_priority-IsKernel 3 1 waiting_kernel (omega arith) waiting_kernel-IsKernel

abbrev semaphore : SemaphoreInner
semaphore = record { suspend_list = 100; value = 0; max_value = 5 }

semaphore-IsSemaphore : IsSemaphore (semaphore, waiting_kernel)
semaphore-IsSemaphore = record {
  kernel = waiting_kernel-IsKernel;
  no_waiters = λ h. absurd (omega arith);
}

release_hands_over_example :
    ((release (semaphore, waiting_kernel)).1.0 ≡ semaphore)
    × ((release (semaphore, waiting_kernel)).1.1.suspended 100 ≡ 3 ∷ [])
    × (((release (semaphore, waiting_kernel)).1.1.thread 2).state ≡ ThreadState.ts_ready)
    × (((release (semaphore, waiting_kernel)).1.1.thread 2).ready_node
        ≡ some (waiting_kernel.thread 2).current_priority)
release_hands_over_example =
    release_hands_over semaphore waiting_kernel 2 (3 ∷ []) semaphore-IsSemaphore waiters

-- Nothing is there, one thread takes, and there is a release.
abbrev created : History
created = record {
  sem = (semaphore, waiting_kernel);
  created = 0;
  granted = 0;
  released = 0;
  lost = 0;
}

abbrev taken : History
taken = record created {
  sem = (take false (Timeout.ticks 0) created.sem).1;
  granted = created.granted + grants (take false (Timeout.ticks 0) created.sem).0;
}

abbrev released_once : History
released_once = record taken {
  sem = (release taken.sem).1;
  granted = taken.granted + hands_over (wake_head taken.sem.0.suspend_list taken.sem.1);
  released = taken.released + 1;
  lost = taken.lost + loses (wake_head taken.sem.0.suspend_list taken.sem.1) taken.sem.0;
}

calls : Reach created released_once
calls =
    Reach.next (Reach.next Reach.here (Step.takes created false (Timeout.ticks 0)))
      (Step.releases taken)

Reach-Balanced_example : Balanced released_once
Reach-Balanced_example = Reach-Balanced calls refl

abbrev event : EventInner
event = record { suspend_list = 200; set = 2 }

nobody : (u : ℕ) → (waiting_kernel.thread u).suspend_node ≡ some 200 → ⊥
unfolding suspend_prio insert_prio_waiter prio_walk set_error set_state start_thread_timer
    suspend_link suspend_node_remove ready_remove ready_node_remove
nobody u h = ground (arith, h)

event-IsEvent : IsEvent (event, waiting_kernel)
event-IsEvent = record { kernel = waiting_kernel-IsKernel; unmet = λ u h. absurd (nobody u h) }

recv-IsEvent_example :
    IsEvent (recv false 5 EventOpt.and_clear Timeout.forever (event, waiting_kernel)).1
recv-IsEvent_example =
    recv-IsEvent false 5 EventOpt.and_clear Timeout.forever (event, waiting_kernel) event-IsEvent

send-IsEvent_example :
    IsEvent (send 5 (recv false 5 EventOpt.and_clear Timeout.forever (event, waiting_kernel)).1).1
send-IsEvent_example =
    send-IsEvent 5 (recv false 5 EventOpt.and_clear Timeout.forever (event, waiting_kernel)).1 (
      recv-IsEvent false 5 EventOpt.and_clear Timeout.forever (event, waiting_kernel) event-IsEvent)

unlock-HandedOver_example :
    (k' : Kernel) × (need : Bool) × (unlock 1 7 1 waiting_kernel ≡ some (need, k'))
    × HandedOver 7 (waiting_kernel.mutex 7).suspend_list 2 (3 ∷ []) k'
unlock-HandedOver_example =
    unlock-HandedOver 0 7 1 2 (3 ∷ []) waiting_kernel waiting_kernel-IsKernel
      (omega (arith, no_pending.2)) owned_by_1.0 owned_by_1.1 no_pending.0
      (ap waiting_kernel.suspended owned_by_1.2 ∙ waiters)

requeue-InOrder_example :
    Requeued (waiting_kernel.mutex 7).suspend_list 2 waiting_kernel (requeue 2 7 waiting_kernel)
requeue-InOrder_example =
    requeue-InOrder 7 2 waiting_kernel (waits_2 ∙ ap some (sym owned_by_1.2)) in_order

-- A ring of four slots that has gone round: 3 and 0 are taken.
abbrev mailbox : MailboxInner ℕ
mailbox = record {
  suspend_list = 300;
  sender_list = 301;
  pool = λ i. i + 10;
  size = 4;
  count = 2;
  in_idx = 1;
  out_idx = 3;
}

mailbox-IsRing : IsRing mailbox
mailbox-IsRing = record {
  size_pos = omega arith;
  bounded = omega arith;
  out_lt = omega arith;
  place = refl;
}

send_turn-Sends_example :
    IsRing (send_turn true 77 Timeout.forever 1 mailbox waiting_kernel).2
    × Sends true 77 Timeout.forever mailbox
        (send_turn true 77 Timeout.forever 1 mailbox waiting_kernel).2
        (send_turn true 77 Timeout.forever 1 mailbox waiting_kernel).0
send_turn-Sends_example =
    send_turn-Sends true 77 Timeout.forever 1 mailbox waiting_kernel mailbox-IsRing

recv_turn-Receives_example :
    IsRing (recv_turn Timeout.forever 1 mailbox waiting_kernel).2
    × Receives Timeout.forever mailbox
        (recv_turn Timeout.forever 1 mailbox waiting_kernel).2
        (recv_turn Timeout.forever 1 mailbox waiting_kernel).0
recv_turn-Receives_example =
    recv_turn-Receives Timeout.forever 1 mailbox waiting_kernel mailbox-IsRing

longest_delay :
    (timer_delay (Timeout.ticks 4294967295) ≡ some 2147483647)
    × (timer_delay Timeout.forever ≡ none)
unfolding timer_delay
longest_delay = (refl, refl)

no_waiting_in_interrupts :
    ensure_ipc_context true Timeout.forever idle_kernel ≡ err Error.interrupt_context
unfolding ensure_ipc_context
no_waiting_in_interrupts = refl

less_urgent : resched_needed 3 idle_kernel ≡ false
unfolding resched_needed
less_urgent = refl
