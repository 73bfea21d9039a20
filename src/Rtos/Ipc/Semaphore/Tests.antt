-- ===== src/Rtos/Ipc/Semaphore/Tests.antt =====
-- A thread that was woken with a permit.
use hc32f460jeua_evb.Base.{◌≡◌, refl}
use hc32f460jeua_evb.Rtos.Sched.Tests.{idle_kernel}
use hc32f460jeua_evb.Rtos.Ipc.{ok, wait_failed}
use hc32f460jeua_evb.Rtos.Ipc.Semaphore.{take_resumed}

woken_with_permit : take_resumed 1 idle_kernel ≡ ok tt
unfolding take_resumed wait_failed
woken_with_permit = refl
