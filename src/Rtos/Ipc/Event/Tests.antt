-- ===== src/Rtos/Ipc/Event/Tests.antt =====
-- The modes of waiting, and a thread that was woken with its flags.
use hc32f460jeua_evb.Base.{◌≡◌, refl, true}
use hc32f460jeua_evb.Rtos.Kernel.{EventOpt}
use hc32f460jeua_evb.Rtos.Sched.Tests.{idle_kernel}
use hc32f460jeua_evb.Rtos.Ipc.{ok, wait_failed}
use hc32f460jeua_evb.Rtos.Ipc.Event.{
  is_and, clear, matches, matched_bits, flags_after, recv_resumed,
}

all_flags :
    (matches EventOpt.and_clear 7 5 ≡ true)
    × (matched_bits EventOpt.and_clear 7 5 ≡ 5)
    × (flags_after EventOpt.and_clear 7 5 ≡ 2)
unfolding matches matched_bits flags_after is_and clear
all_flags = (refl, refl, refl)

some_flag :
    (matches EventOpt.or_clear 6 5 ≡ true)
    × (matched_bits EventOpt.or_clear 6 5 ≡ 4)
    × (flags_after EventOpt.or_clear 6 5 ≡ 2)
unfolding matches matched_bits flags_after is_and clear
some_flag = (refl, refl, refl)

woken_with_flags : recv_resumed 1 idle_kernel ≡ ok 0
unfolding recv_resumed wait_failed
woken_with_flags = refl
