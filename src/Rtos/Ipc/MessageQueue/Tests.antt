-- ===== src/Rtos/Ipc/MessageQueue/Tests.antt =====
-- Messages go through a queue of two blocks in order, an urgent one first.
use hc32f460jeua_evb.Base.{true, false, [], ◌∷◌, ◌≡◌, refl}
use hc32f460jeua_evb.Rtos.Sched.Tests.{idle_kernel}
use hc32f460jeua_evb.Rtos.Ipc.{Timeout, Error, ok, err, returns}
use hc32f460jeua_evb.Rtos.Ipc.MessageQueue.{
  MessageQueueInner, zeros, fill, link, queue_send_turn, unlink_head, queue_recv_turn,
}
use hc32f460jeua_evb.Rtos.Ipc.MessageQueue

-- The queue after a message of three bytes, of which two fit, and an urgent one of one byte.
filled : MessageQueueInner
unfolding MessageQueue.new zeros fill link
filled =
    link true 1
      (fill (9 ∷ []) (link false 0 (fill (1 ∷ 2 ∷ 3 ∷ []) (MessageQueue.new 400 401 2 2))))

urgent_first : (queue_recv_turn 8 Timeout.forever 1 filled idle_kernel).0 ≡ returns (ok (9 ∷ []))
unfolding filled queue_recv_turn MessageQueue.new zeros fill link
urgent_first = refl

then_the_other :
    (queue_recv_turn 8 Timeout.forever 1 (unlink_head filled) idle_kernel).0
    ≡ returns (ok (1 ∷ 2 ∷ []))
unfolding filled queue_recv_turn unlink_head MessageQueue.new zeros fill link
then_the_other = refl

no_block_left :
    (queue_send_turn false (5 ∷ []) (Timeout.ticks 0) 1 filled idle_kernel).0
    ≡ returns (err Error.full)
unfolding filled queue_send_turn MessageQueue.new zeros fill link
no_block_left = refl
