-- ===== src/Rtos/Ipc/Mailbox.antt =====
-- `Mailbox` of src/rtos/ipc.rs: a ring of messages with waiting receivers and waiting senders.
-- The pool is its memory, a value at each slot; what it holds before the first message is arbitrary.
pub mod Deque
pub mod Turns
pub mod Tests
use hc32f460jeua_evb.Base.{
  ℕ, ◌+◌, ◌-◌, ◌%◌, Bool, true, false, Option, none, some, ltb, ◌==◌, if◌then◌else◌, update,
}
use hc32f460jeua_evb.Rtos.Kernel.{Kernel}
use hc32f460jeua_evb.Rtos.Ipc.{
  Timeout, Error, Result, ok, err, Outcome, returns, blocks, timer_delay, is_no_wait,
  ensure_ipc_context, suspend_current, wake_head, wake_need, resched_needed, wait_failed,
}

pub record MailboxInner (A : Type 0) : Type 0 where
  pub suspend_list : ℕ
  pub sender_list : ℕ
  pub pool : ℕ → A
  pub size : ℕ
  pub count : ℕ
  pub in_idx : ℕ
  pub out_idx : ℕ

-- `new`, with the lists' addresses and the memory of the pool
pub new : {A : Type 0} → ℕ → ℕ → (ℕ → A) → ℕ → MailboxInner A
new receivers senders pool capacity = record {
  suspend_list = receivers;
  sender_list = senders;
  pool = pool;
  size = capacity;
  count = 0;
  in_idx = 0;
  out_idx = 0;
}

-- The message is put before the first one, or behind the last.
put : {A : Type 0} → Bool → A → MailboxInner A → MailboxInner A
put true msg mb =
    let out = if mb.out_idx == 0 then mb.size - 1 else mb.out_idx - 1 in
    record mb { out_idx = out; pool = update mb.pool out msg; count = mb.count + 1 }
put false msg mb = record mb {
  pool = update mb.pool mb.in_idx msg;
  in_idx = (mb.in_idx + 1) % mb.size;
  count = mb.count + 1;
}

-- What `wake_head` leaves.
abbrev pub wake_state : Option (ℕ × Kernel) → Kernel → Kernel
wake_state none k = k
wake_state (some (w, k')) k = k'

-- One turn of the loop of `send_impl`: how it ends, whether a switch is needed, and the state.
pub send_turn :
    {A : Type 0}
    → Bool
    → A
    → Timeout
    → ℕ
    → MailboxInner A
    → Kernel
    → Outcome (Unit {0}) × Bool × MailboxInner A × Kernel
send_turn urgent msg timeout cur mb k =
    if ltb mb.count mb.size
    then (let woken = wake_head mb.suspend_list k in
        (returns (ok tt), wake_need woken, put urgent msg mb, wake_state woken k))
    else if is_no_wait timeout
    then (returns (err Error.full), false, mb, k)
    else (blocks, false, mb, suspend_current mb.sender_list (timer_delay timeout) cur k)

-- One turn of the loop of `recv`.
pub recv_turn :
    {A : Type 0}
    → Timeout
    → ℕ
    → MailboxInner A
    → Kernel
    → Outcome A × Bool × MailboxInner A × Kernel
recv_turn timeout cur mb k =
    if ltb 0 mb.count
    then (let woken = wake_head mb.sender_list k in
        (
          returns (ok (mb.pool mb.out_idx)),
          wake_need woken,
          record mb { out_idx = (mb.out_idx + 1) % mb.size; count = mb.count - 1 },
          wake_state woken k,
        ))
    else if is_no_wait timeout
    then (returns (err Error.timed_out), false, mb, k)
    else (blocks, false, mb, suspend_current mb.suspend_list (timer_delay timeout) cur k)

-- A thread that was woken tries again, unless its time ran out.
pub turn_resumed : ℕ → Kernel → Option Error
turn_resumed cur k = if wait_failed cur k then some Error.timed_out else none
