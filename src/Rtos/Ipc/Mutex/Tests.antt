-- ===== src/Rtos/Ipc/Mutex/Tests.antt =====
-- Runs of the mutex operations on a sample kernel.
use hc32f460jeua_evb.Base.{some, ◌≡◌, refl, ◌-◌}
use hc32f460jeua_evb.Rtos.Kernel.{Kernel}
use hc32f460jeua_evb.Rtos.Sched.Tests.{idle_kernel}
use hc32f460jeua_evb.Rtos.Ipc.{Timeout, Error, ok, err, returns, wait_failed}
use hc32f460jeua_evb.Rtos.Ipc.Mutex.{
  inheritance_successor, successor_of, find_meeting, find_entry, entry_from,
  inheritance_cycle_entry, priority_inherit_loop, priority_inherit, inherit_for, lock_waits,
  lock_owned, lock_inner, lock_resumed, waiter_gone, release_held, mutex_release_all_held,
}

-- Taking a mutex again is an error.
lock_again :
    lock_inner 5 7 Timeout.forever 1 idle_kernel ≡ some (returns (err Error.invalid), idle_kernel)
unfolding lock_inner lock_owned lock_waits inherit_for
lock_again = refl

lock_no_wait :
    lock_inner 5 7 (Timeout.ticks 0) 2 idle_kernel
    ≡ some (returns (err Error.timed_out), idle_kernel)
unfolding lock_inner lock_owned
lock_no_wait = refl

-- An owner that is urgent enough inherits nothing.
inherit_nothing : priority_inherit 1 3 5 idle_kernel ≡ some idle_kernel
unfolding priority_inherit priority_inherit_loop inheritance_cycle_entry find_meeting entry_from
    find_entry inheritance_successor successor_of
inherit_nothing = refl

-- Two threads that wait for each other's mutex: the cycle is entered at the first of them.
abbrev deadlocked : Kernel
deadlocked = record idle_kernel {
  thread = λ t. record (idle_kernel.thread t) { pending_mutex = some t };
  mutex = λ m. record (idle_kernel.mutex m) { owner = some (3 - m) };
}

cycle_found : inheritance_cycle_entry 5 1 deadlocked ≡ some (some 1)
unfolding inheritance_cycle_entry find_meeting entry_from find_entry inheritance_successor
    successor_of
cycle_found = refl

own_waiter_gone : waiter_gone 1 2 (some 2) idle_kernel ≡ some idle_kernel
unfolding waiter_gone
own_waiter_gone = refl

nothing_held : mutex_release_all_held 1 1 idle_kernel ≡ some idle_kernel
unfolding mutex_release_all_held release_held
nothing_held = refl

woken_as_owner : lock_resumed 1 idle_kernel ≡ ok tt
unfolding lock_resumed wait_failed
woken_as_owner = refl
