-- ===== src/Rtos/Ipc/MessageQueue.antt =====
-- `MessageQueue` of src/rtos/ipc.rs: messages of bytes in blocks that are linked by their numbers, a
-- chain of the messages from `head` to `tail` and a chain of the free blocks.
-- A block is its next number, its length and its bytes.
pub mod Tests
use hc32f460jeua_evb.Base.{
  ℕ, zero, suc, ◌+◌, ◌-◌, ◌*◌, ◌/◌, ◌<◌, ◌^◌, min, Bool, true, false, Option, none, some, List, [],
  ◌∷◌, ◌++◌, ltb, ◌==◌, not, if◌then◌else◌, update, length, take, drop,
}
use hc32f460jeua_evb.Rtos.Kernel.{Kernel}
use hc32f460jeua_evb.Rtos.Ipc.{
  Timeout, Error, Result, ok, err, Outcome, returns, blocks, timer_delay, is_no_wait,
  suspend_current, wake_head, wake_need,
}
use hc32f460jeua_evb.Rtos.Ipc.Mailbox.{wake_state}

abbrev pub block_end : ℕ
block_end = 2 ^ 32 - 1

pub record MessageQueueInner : Type 0 where
  pub suspend_list : ℕ
  pub sender_list : ℕ
  pub block_next : ℕ → ℕ
  pub block_len : ℕ → ℕ
  pub block_data : ℕ → List ℕ
  pub block_size : ℕ
  pub msg_size : ℕ
  pub max_msgs : ℕ
  pub head : ℕ
  pub tail : ℕ
  pub free : ℕ
  pub count : ℕ

-- `ensure_pool`: the free chain of `max` blocks, whose bytes are 0.
abbrev pub initial_next : ℕ → ℕ → ℕ
initial_next max i = if ltb (i + 1) max then i + 1 else block_end

pub zeros : ℕ → List ℕ
zeros zero = []
zeros (suc n) = 0 ∷ zeros n

-- `new`, with the addresses of the lists and the pool that `ensure_pool` gives
pub new : ℕ → ℕ → ℕ → ℕ → MessageQueueInner
new receivers senders msg_size max_msgs = record {
  suspend_list = receivers;
  sender_list = senders;
  block_next = initial_next max_msgs;
  block_len = λ b. 0;
  block_data = λ b. zeros ((msg_size + 8 + 3) / 4 * 4 - 8);
  block_size = (msg_size + 8 + 3) / 4 * 4;
  msg_size = msg_size;
  max_msgs = max_msgs;
  head = block_end;
  tail = block_end;
  free = 0;
  count = 0;
}

-- The first free block leaves its chain and takes the bytes that fit.
fill : List ℕ → MessageQueueInner → MessageQueueInner
fill buf q =
    let b = q.free in
    let len = min (length buf) q.msg_size in
    record q {
      free = q.block_next b;
      block_len = update q.block_len b len;
      block_data = update q.block_data b (take len buf ++ drop len (q.block_data b));
    }

-- Block `b` is put before the first message, or behind the last.
link : Bool → ℕ → MessageQueueInner → MessageQueueInner
link true b q = record q {
  block_next = update q.block_next b q.head;
  head = b;
  tail = if q.count == 0 then b else q.tail;
  count = q.count + 1;
}
link false b q =
    if q.count == 0
    then record q {
      head = b;
      tail = b;
      block_next = update q.block_next b block_end;
      count = q.count + 1;
    }
    else record q {
      block_next = update (update q.block_next q.tail b) b block_end;
      tail = b;
      count = q.count + 1;
    }

-- One turn of the loop of `send_impl`: how it ends, whether a switch is needed, and the state.
pub queue_send_turn :
    Bool
    → List ℕ
    → Timeout
    → ℕ
    → MessageQueueInner
    → Kernel
    → Outcome (Unit {0}) × Bool × MessageQueueInner × Kernel
queue_send_turn urgent buf timeout cur q k =
    if not (q.free == block_end)
    then (let woken = wake_head q.suspend_list k in
        (returns (ok tt), wake_need woken, link urgent q.free (fill buf q), wake_state woken k))
    else if is_no_wait timeout
    then (returns (err Error.full), false, q, k)
    else (blocks, false, q, suspend_current q.sender_list (timer_delay timeout) cur k)

-- The first message leaves its chain, and its block goes to the front of the free ones.
unlink_head : MessageQueueInner → MessageQueueInner
unlink_head q =
    let b = q.head in
    record q {
      head = q.block_next b;
      count = q.count - 1;
      block_next = update q.block_next b q.free;
      free = b;
    }

-- One turn of the loop of `recv`, into a buffer of `size` bytes: the bytes that were copied.
pub queue_recv_turn :
    ℕ
    → Timeout
    → ℕ
    → MessageQueueInner
    → Kernel
    → Outcome (List ℕ) × Bool × MessageQueueInner × Kernel
queue_recv_turn size timeout cur q k =
    if ltb 0 q.count
    then (let woken = wake_head q.sender_list k in
        (
          returns (ok (take (min (q.block_len q.head) size) (q.block_data q.head))),
          wake_need woken,
          unlink_head q,
          wake_state woken k,
        ))
    else if is_no_wait timeout
    then (returns (err Error.timed_out), false, q, k)
    else (blocks, false, q, suspend_current q.suspend_list (timer_delay timeout) cur k)
