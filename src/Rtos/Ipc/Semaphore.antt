-- ===== src/Rtos/Ipc/Semaphore.antt =====
-- `Semaphore` of src/rtos/ipc.rs.
pub mod Permits
pub mod Tests
use hc32f460jeua_evb.Base.{
  ℕ, zero, suc, ◌+◌, ◌-◌, ◌≤◌, ◌<◌, ◌≡◌, refl, Bool, true, false, Option, none, some, List, [], ◌∷◌,
  ltb, ◌==◌, if◌then◌else◌, arith, Option-cases, Bool-cases, inl, inr,
}
use hc32f460jeua_evb.Rtos.Kernel.{Kernel}
use hc32f460jeua_evb.Rtos.Ipc.{
  Timeout, Error, Result, ok, err, Outcome, returns, blocks, timer_delay, is_no_wait,
  ensure_ipc_context, suspend_current, wake_head, wake_first, resched_needed, wait_failed,
}
use hc32f460jeua_evb.Rtos.Ipc.Invariant.{IsKernel}
use hc32f460jeua_evb.Rtos.Ipc.Waking.{IsKernelWoken, wake_head-IsKernel}
use hc32f460jeua_evb.Rtos.Ipc.Suspending.{suspend_current-IsKernel}

pub record SemaphoreInner : Type 0 where
  pub suspend_list : ℕ
  pub value : ℕ
  pub max_value : ℕ

-- `new`, with the address of the list
abbrev pub new : ℕ → ℕ → ℕ → SemaphoreInner
new waiters init_value max_value = record {
  suspend_list = waiters;
  value = init_value;
  max_value = max_value;
}

abbrev pub Semaphore : Type 0
Semaphore = SemaphoreInner × Kernel

-- The critical section of `take`, for the current thread `cur`.
take_inner : Timeout → ℕ → Semaphore → Outcome (Unit {0}) × Semaphore
take_inner timeout cur (s, k) =
    if ltb 0 s.value
    then (returns (ok tt), (record s { value = s.value - 1 }, k))
    else if is_no_wait timeout
    then (returns (err Error.timed_out), (s, k))
    else (blocks, (s, suspend_current s.suspend_list (timer_delay timeout) cur k))

take_checked : Result (Unit {0}) → Timeout → Option ℕ → Semaphore → Outcome (Unit {0}) × Semaphore
take_checked (err e) timeout cur m = (returns (err e), m)
take_checked (ok _) timeout none m = (returns (err Error.kernel_not_started), m)
take_checked (ok _) timeout (some cur) m = take_inner timeout cur m

-- `take` up to the point where it returns or the thread is switched away.
pub take : Bool → Timeout → Semaphore → Outcome (Unit {0}) × Semaphore
take in_isr timeout (s, k) =
    take_checked (ensure_ipc_context in_isr timeout k) timeout k.current (s, k)

-- `take` when the thread runs again: being woken is having the permit.
pub take_resumed : ℕ → Kernel → Result (Unit {0})
take_resumed cur k = if wait_failed cur k then err Error.timed_out else ok tt

-- The critical section of `release`: whether a switch is needed, and the state.
release_inner : Option (ℕ × Kernel) → Semaphore → Bool × Semaphore
release_inner (some (w, k')) (s, k) = (resched_needed w k', (s, k'))
release_inner none (s, k) =
    (false, (record s { value = if ltb s.value s.max_value then s.value + 1 else s.value }, k))

pub release : Semaphore → Bool × Semaphore
release (s, k) = release_inner (wake_head s.suspend_list k) (s, k)

-- A semaphore keeps its kernel in order, and holds a count only while nobody waits.
pub record IsSemaphore (m : Semaphore) : Type 0 where
  pub kernel : IsKernel m.1
  pub no_waiters : 0 < m.0.value → m.1.suspended m.0.suspend_list ≡ []

take_inner-IsSemaphore :
    (timeout : Timeout) (cur : ℕ) (m : Semaphore)
    → IsSemaphore m
    → IsSemaphore (take_inner timeout cur m).1
unfolding take_inner
take_inner-IsSemaphore timeout cur (s, k) v = elim (Bool-cases (ltb 0 s.value)) [
  | inl e ↦ rw e (record { kernel = v.kernel; no_waiters = λ h. v.no_waiters (ground arith) })
  | inr e ↦ rw e (elim (Bool-cases (is_no_wait timeout)) [
    | inl w ↦ rw w v
    | inr w ↦ rw w (record {
      kernel = suspend_current-IsKernel s.suspend_list cur (timer_delay timeout) k v.kernel;
      no_waiters = λ h. absurd (ground arith);
    })
  ])
]

take_checked-IsSemaphore :
    (r : Result (Unit {0})) (timeout : Timeout) (cur : Option ℕ) (m : Semaphore)
    → IsSemaphore m
    → IsSemaphore (take_checked r timeout cur m).1
unfolding take_checked
take_checked-IsSemaphore (err e) timeout cur m v = v
take_checked-IsSemaphore (ok _) timeout none m v = v
take_checked-IsSemaphore (ok _) timeout (some cur) m v = take_inner-IsSemaphore timeout cur m v

-- `take` keeps the kernel in order, and the count positive only while nobody waits.
pub take-IsSemaphore :
    (in_isr : Bool) (timeout : Timeout) (m : Semaphore)
    → IsSemaphore m
    → IsSemaphore (take in_isr timeout m).1
unfolding take
take-IsSemaphore in_isr timeout (s, k) v = take_checked-IsSemaphore _ timeout k.current (s, k) v

wake_first-some :
    (l : List ℕ) (k : Kernel) (w : ℕ) (k' : Kernel) → wake_first l k ≡ some (w, k') → l ≡ [] → ⊥
unfolding wake_first
wake_first-some [] k w k' e h = cc
wake_first-some (x ∷ xs) k w k' e h = cc

wake_first-none : (l : List ℕ) (k : Kernel) → wake_first l k ≡ none → l ≡ []
unfolding wake_first
wake_first-none [] k e = refl
wake_first-none (x ∷ xs) k e = cc

release_inner-IsSemaphore :
    (r : Option (ℕ × Kernel)) (m : Semaphore)
    → wake_head m.0.suspend_list m.1 ≡ r
    → IsKernelWoken r
    → IsSemaphore m
    → IsSemaphore (release_inner r m).1
unfolding release_inner wake_head
release_inner-IsSemaphore none (s, k) e w v = record {
  kernel = v.kernel;
  no_waiters = λ h. wake_first-none _ k e;
}
release_inner-IsSemaphore (some (t, k')) (s, k) e w v = record {
  kernel = w;
  no_waiters = λ h. absurd (wake_first-some _ k t k' e (v.no_waiters h));
}

-- So does `release`.
pub release-IsSemaphore : (m : Semaphore) → IsSemaphore m → IsSemaphore (release m).1
unfolding release
release-IsSemaphore (s, k) v =
    release_inner-IsSemaphore _ (s, k) refl (wake_head-IsKernel s.suspend_list k v.kernel) v
