-- ===== src/Rtos/Thread/Tests.antt =====
-- The theorems on thread.rs applied to a kernel with waiting threads.
use hc32f460jeua_evb.Rtos.Sched.{stack_pattern}
use hc32f460jeua_evb.Rtos.Thread.{unused_words, stack_watermark, check_stack_canaries}
use hc32f460jeua_evb.Base.{ℕ, ◌==◌, if◌then◌else◌, Bool, true, none, some, ◌≡◌, refl, [], ◌∷◌}
use hc32f460jeua_evb.Rtos.Kernel.{
  Kernel, ThreadState, ready_node_remove, suspend_node_remove, suspend_link,
}
use hc32f460jeua_evb.Rtos.Ipc.{Error, err, set_error, set_state, start_thread_timer}
use hc32f460jeua_evb.Rtos.Ipc.Invariant.{IsKernel}
use hc32f460jeua_evb.Rtos.Ipc.Tests.{waiting_kernel, waiting_kernel-IsKernel, no_pending}
use hc32f460jeua_evb.Rtos.Thread.{
  resume, thread_timer_cb, thread_delay, delay_current, Delayed, delay_suspend, suspend, Deletion,
  delete_bookkeeping, after_release, close_thread, leave_lists,
}
use hc32f460jeua_evb.Rtos.Sched.{ready_remove}
use hc32f460jeua_evb.Rtos.Sched.Tests.{idle_kernel}
use hc32f460jeua_evb.Rtos.Thread.Timing.{
  Resumes, TimesOut, resume-IsKernel, thread_timer_cb-IsKernel,
}

resume-IsKernel_example :
    IsKernel (resume 2 waiting_kernel).1 × Resumes 2 waiting_kernel (resume 2 waiting_kernel)
resume-IsKernel_example = resume-IsKernel 2 waiting_kernel waiting_kernel-IsKernel

thread_timer_cb-IsKernel_example :
    (need : Bool) × (k' : Kernel) × (thread_timer_cb 1 2 waiting_kernel ≡ some (need, k'))
    × IsKernel k'
    × TimesOut 2 waiting_kernel k'
thread_timer_cb-IsKernel_example =
    thread_timer_cb-IsKernel 1 2 waiting_kernel waiting_kernel-IsKernel no_pending.1

not_in_interrupts : thread_delay true 50 5 idle_kernel ≡ Delayed.refused Error.interrupt_context
unfolding thread_delay delay_current
not_in_interrupts = refl

asleep : (delay_suspend 50 1 5 idle_kernel).suspended 50 ≡ 1 ∷ []
unfolding delay_suspend ready_remove ready_node_remove suspend_node_remove suspend_link set_error
    set_state start_thread_timer
asleep = refl

not_oneself : suspend 1 idle_kernel ≡ (err Error.invalid, idle_kernel)
unfolding suspend
not_oneself = refl

abbrev closed : Deletion
closed = record {
  kernel = record idle_kernel {
    thread = λ t. record (idle_kernel.thread t) { state = ThreadState.ts_close };
  };
  defunct = 1 ∷ [];
}

deleted_once : delete_bookkeeping 1 1 closed ≡ some closed
unfolding delete_bookkeeping after_release close_thread leave_lists
deleted_once = refl

-- The second of three threads has run over its stack.
abbrev canary_of : ℕ → ℕ
canary_of t = if t == 2 then 0 else stack_pattern

overrun_found : check_stack_canaries canary_of (1 ∷ 2 ∷ 3 ∷ []) ≡ some 2
unfolding check_stack_canaries
overrun_found = refl

all_whole : check_stack_canaries canary_of (1 ∷ 3 ∷ []) ≡ none
unfolding check_stack_canaries
all_whole = refl

full_stack : stack_watermark 8 (1 ∷ stack_pattern ∷ []) ≡ 8
unfolding stack_watermark unused_words
full_stack = refl
