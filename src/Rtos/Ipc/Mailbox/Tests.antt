-- ===== src/Rtos/Ipc/Mailbox/Tests.antt =====
-- A new mailbox, and a thread that tries again.
use hc32f460jeua_evb.Base.{ℕ, ◌≡◌, refl, none, arith}
use hc32f460jeua_evb.Rtos.Sched.Tests.{idle_kernel}
use hc32f460jeua_evb.Rtos.Ipc.Mailbox.{turn_resumed}
use hc32f460jeua_evb.Rtos.Ipc.Mailbox
use hc32f460jeua_evb.Rtos.Ipc.{wait_failed}
use hc32f460jeua_evb.Rtos.Ipc.Mailbox.Deque.{IsRing}

new-IsRing : IsRing {A = ℕ} (Mailbox.new 300 301 (λ i. 0) 8)
unfolding Mailbox.new
new-IsRing = record {
  size_pos = omega arith;
  bounded = omega arith;
  out_lt = omega arith;
  place = refl;
}

tries_again : turn_resumed 1 idle_kernel ≡ none
unfolding turn_resumed wait_failed
tries_again = refl
