-- ===== src/Rtos/Ipc/Mailbox/Turns.antt =====
-- The turns of a mailbox keep the kernel in order.
use hc32f460jeua_evb.Base.{ℕ, Bool, Option, none, some, ltb, Bool-cases, inl, inr}
use hc32f460jeua_evb.Rtos.Kernel.{Kernel}
use hc32f460jeua_evb.Rtos.Ipc.{Timeout, is_no_wait, timer_delay, wake_head}
use hc32f460jeua_evb.Rtos.Ipc.Invariant.{IsKernel}
use hc32f460jeua_evb.Rtos.Ipc.Waking.{IsKernelWoken, wake_head-IsKernel}
use hc32f460jeua_evb.Rtos.Ipc.Suspending.{suspend_current-IsKernel}
use hc32f460jeua_evb.Rtos.Ipc.Mailbox.{MailboxInner, send_turn, recv_turn, wake_state}

wake_state-IsKernel :
    (r : Option (ℕ × Kernel)) (k : Kernel)
    → IsKernelWoken r
    → IsKernel k
    → IsKernel (wake_state r k)
wake_state-IsKernel none k w v = v
wake_state-IsKernel (some (w, k')) k v h = v

module _ {A : Type 0} (timeout : Timeout) (cur : ℕ) (mb : MailboxInner A) (k : Kernel) where
  -- A turn of `send_impl`, whether it ends at once or blocks, keeps the kernel in order.
  pub send_turn-IsKernel :
      (urgent : Bool) (msg : A) → IsKernel k → IsKernel (send_turn urgent msg timeout cur mb k).3
  unfolding send_turn
  send_turn-IsKernel urgent msg v = elim (Bool-cases (ltb mb.count mb.size)) [
    | inl room ↦ rw room (
        wake_state-IsKernel (wake_head mb.suspend_list k) k (wake_head-IsKernel mb.suspend_list k v)
          v)
    | inr full ↦ rw full (elim (Bool-cases (is_no_wait timeout)) [
      | inl w ↦ rw w v
      | inr w ↦ rw w (suspend_current-IsKernel mb.sender_list cur (timer_delay timeout) k v)
    ])
  ]

  -- A turn of `recv`, whether it ends at once or blocks, keeps the kernel in order.
  pub recv_turn-IsKernel : IsKernel k → IsKernel (recv_turn timeout cur mb k).3
  unfolding recv_turn
  recv_turn-IsKernel v = elim (Bool-cases (ltb 0 mb.count)) [
    | inl left ↦ rw left (
        wake_state-IsKernel (wake_head mb.sender_list k) k (wake_head-IsKernel mb.sender_list k v)
          v)
    | inr empty ↦ rw empty (elim (Bool-cases (is_no_wait timeout)) [
      | inl w ↦ rw w v
      | inr w ↦ rw w (suspend_current-IsKernel mb.suspend_list cur (timer_delay timeout) k v)
    ])
  ]
