-- ===== src/Rtos.antt =====
-- The kernel under src/rtos, one module for each of its files or objects.
pub mod Timer
pub mod Kernel
pub mod Sched
pub mod Ipc
pub mod Thread
