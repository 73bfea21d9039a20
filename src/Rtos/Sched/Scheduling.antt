-- ===== src/Rtos/Sched/Scheduling.antt =====
-- `schedule` of src/rtos/sched.rs keeps the ready table.
use hc32f460jeua_evb.Base.{ℕ, refl, ◌&&◌, Option, none, some, ◌==◌, Bool-cases, inl, inr}
use hc32f460jeua_evb.Rtos.Kernel.{Kernel}
use hc32f460jeua_evb.Rtos.Sched.{
  schedule, schedule_from, schedule_to, clear_yielded, request_switch, highest_ready_thread,
  stack_guard_holds,
}
use hc32f460jeua_evb.Rtos.Sched.Invariant.{IsReady}
use hc32f460jeua_evb.Rtos.Sched.Operations.{set_thread-IsReady}

abbrev pub IsReadyOr : Option Kernel → Type 0
IsReadyOr none = Unit
IsReadyOr (some k) = IsReady k

clear_yielded-IsReady : (t : ℕ) (k : Kernel) → IsReady k → IsReady (clear_yielded t k)
unfolding clear_yielded
clear_yielded-IsReady t k v = set_thread-IsReady t _ k (refl, refl) v

switched-IsReady :
    (cur to : ℕ) (k : Kernel)
    → IsReady k
    → IsReady (
        request_switch cur to
          (record (clear_yielded to (clear_yielded cur k)) { current = some to }))
unfolding request_switch
switched-IsReady cur to k v =
    let w = clear_yielded-IsReady to _ (clear_yielded-IsReady cur k v) in
    record {
      queues = record {
        queued = w.queues.queued;
        at_priority = w.queues.at_priority;
        word = w.queues.word;
      };
      bits = w.bits;
    }

schedule_to-IsReady : (cur to : ℕ) (k : Kernel) → IsReady k → IsReadyOr (schedule_to cur to k)
unfolding schedule_to
schedule_to-IsReady cur to k v = elim (Bool-cases (to == cur)) [
  | inl e ↦ rw e (clear_yielded-IsReady to k v)
  | inr e ↦
      rw e
        (elim (Bool-cases (stack_guard_holds (k.thread cur) && stack_guard_holds (k.thread to))) [
          | inl g ↦ rw g (switched-IsReady cur to k v)
          | inr g ↦ rw g tt
        ])
]

schedule_from-IsReady :
    (cur to : Option ℕ) (k : Kernel) → IsReady k → IsReadyOr (schedule_from cur to k)
unfolding schedule_from
schedule_from-IsReady none to k v = v
schedule_from-IsReady (some cur) none k v = v
schedule_from-IsReady (some cur) (some to) k v = schedule_to-IsReady cur to k v

-- Scheduling keeps the ready table and its bitmap in agreement, unless it panics.
pub schedule-IsReady : (k : Kernel) → IsReady k → IsReadyOr (schedule k)
unfolding schedule
schedule-IsReady k v = schedule_from-IsReady k.current (highest_ready_thread k) k v
