-- ===== src/Rtos/Ipc/Semaphore/Permits.antt =====
-- Permits of a semaphore over a history: none is made up, and one is handed to the first waiter.
use hc32f460jeua_evb.Base.{
  ℕ, ◌+◌, ◌≡◌, refl, Bool, Option, none, some, List, ◌∷◌, ltb, if◌then◌else◌, arith, ap, ◌∙◌,
}
use hc32f460jeua_evb.Rtos.Kernel.{Kernel, ThreadState}
use hc32f460jeua_evb.Rtos.Ipc.{
  Timeout, Result, ok, err, Outcome, returns, blocks, ensure_ipc_context, wake_head,
}
use hc32f460jeua_evb.Rtos.Ipc.Wake.{wake_head_cons}
use hc32f460jeua_evb.Rtos.Ipc.Semaphore.{
  SemaphoreInner, Semaphore, take, take_inner, take_checked, release, release_inner, IsSemaphore,
}

-- A semaphore with what was granted, released, and lost to the upper limit, since its creation.
pub record History : Type 0 where
  pub sem : Semaphore
  pub created : ℕ
  pub granted : ℕ
  pub released : ℕ
  pub lost : ℕ

-- A `take` that returns at once with success is granted a permit.
abbrev pub grants : Outcome (Unit {0}) → ℕ
grants (returns (ok _)) = 1
grants (returns (err _)) = 0
grants blocks = 0

-- A `release` that wakes a thread grants the permit to it.
abbrev pub hands_over : Option (ℕ × Kernel) → ℕ
hands_over none = 0
hands_over (some _) = 1

abbrev pub loses : Option (ℕ × Kernel) → SemaphoreInner → ℕ
loses (some _) s = 0
loses none s = if ltb s.value s.max_value then 0 else 1

pub data Step : History → History → Type 0 where
  takes :
      (h : History) (in_isr : Bool) (timeout : Timeout)
      → Step h (record h {
        sem = (take in_isr timeout h.sem).1;
        granted = h.granted + grants (take in_isr timeout h.sem).0;
      })
  releases :
      (h : History)
      → Step h (record h {
        sem = (release h.sem).1;
        granted = h.granted + hands_over (wake_head h.sem.0.suspend_list h.sem.1);
        released = h.released + 1;
        lost = h.lost + loses (wake_head h.sem.0.suspend_list h.sem.1) h.sem.0;
      })
  -- anything else that the kernel does
  works : (h : History) (k : Kernel) → Step h (record h { sem = (h.sem.0, k) })

pub data Reach (h : History) : History → Type 0 where
  here : Reach h h
  next : {i j : History} → Reach h i → Step i j → Reach h j

abbrev pub Balanced : History → Type 0
Balanced h = h.sem.0.value + h.granted + h.lost ≡ h.created + h.released

value-take :
    (in_isr : Bool) (timeout : Timeout) (m : Semaphore)
    → (take in_isr timeout m).1.0.value + grants (take in_isr timeout m).0 ≡ m.0.value
unfolding take take_checked take_inner
value-take in_isr timeout (s, k) = go (ensure_ipc_context in_isr timeout k) k.current
  where
    go :
        (r : Result (Unit {0})) (cur : Option ℕ)
        → (take_checked r timeout cur (s, k)).1.0.value
            + grants (take_checked r timeout cur (s, k)).0
          ≡ s.value
    go (err e) cur = ground arith
    go (ok _) none = ground arith
    go (ok _) (some cur) = ground arith

value-release :
    (m : Semaphore)
    → (release m).1.0.value
        + hands_over (wake_head m.0.suspend_list m.1)
        + loses (wake_head m.0.suspend_list m.1) m.0
      ≡ m.0.value + 1
unfolding release release_inner
value-release (s, k) = go (wake_head s.suspend_list k)
  where
    go :
        (r : Option (ℕ × Kernel))
        → (release_inner r (s, k)).1.0.value + hands_over r + loses r s ≡ s.value + 1
    go none = ground arith
    go (some (w, k')) = ground arith

Step-Balanced : {h i : History} → Step h i → Balanced h → Balanced i
Step-Balanced (takes h in_isr timeout) b = omega (arith, value-take in_isr timeout h.sem)
Step-Balanced (releases h) b = omega (arith, value-release h.sem)
Step-Balanced (works h k) b = b

-- Whatever the order of calls and of other kernel work: what is available, was granted or was lost
-- at the limit is what was there at first and what was released.
pub Reach-Balanced : {h i : History} → Reach h i → Balanced h → Balanced i
Reach-Balanced here b = b
Reach-Balanced (next r s) b = Step-Balanced s (Reach-Balanced r b)

-- A release with threads waiting makes the first of them ready, at its own priority, and leaves the
-- count and the order of the others.
pub release_hands_over :
    (s : SemaphoreInner) (k : Kernel) (w : ℕ) (ws : List ℕ)
    → IsSemaphore (s, k)
    → k.suspended s.suspend_list ≡ w ∷ ws
    → let (need, m) = release (s, k) in
      (m.0 ≡ s)
      × (m.1.suspended s.suspend_list ≡ ws)
      × ((m.1.thread w).state ≡ ThreadState.ts_ready)
      × ((m.1.thread w).ready_node ≡ some (k.thread w).current_priority)
unfolding release release_inner
release_hands_over s k w ws v e =
    let h = wake_head_cons s.suspend_list w ws k v.kernel e in
    rw (h.1, release_inner) (refl, h.2.rest, h.2.is_ready, h.2.queued ∙ ap some h.2.priority)
