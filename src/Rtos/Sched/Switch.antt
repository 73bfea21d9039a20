-- ===== src/Rtos/Sched/Switch.antt =====
-- The switch request and PendSV: under any interleaving of scheduling and of the exception, the
-- registers are saved for the thread that ran, and loaded for the current one.
use mathlib.Core.Option.{some-injective}
use hc32f460jeua_evb.Base.{ℕ, ◌≡◌, refl, true, false, Option, none, some, arith, subst}
use hc32f460jeua_evb.Rtos.Kernel.{Kernel}
use hc32f460jeua_evb.Rtos.Sched.{
  schedule, schedule_from, schedule_to, request_switch, clear_yielded, pendsv_handler, start,
  highest_ready_thread,
}

-- The kernel beside the thread whose registers are live.
abbrev pub Machine : Type 0
Machine = Kernel × Option ℕ

-- With no request pending the current thread runs; with one, it goes from the thread that runs to
-- the current one.
pub record Coherent (m : Machine) : Type 0 where
  pub idle : m.0.switch_flag ≡ false → m.0.current ≡ m.1
  pub source : m.0.switch_flag ≡ true → m.0.switch_from ≡ m.1
  pub target : m.0.switch_flag ≡ true → m.0.switch_to ≡ m.0.current

pub data Step : Machine → Machine → Type 0 where
  -- code runs that calls `schedule`
  calls : (k k' : Kernel) (r : Option ℕ) → schedule k ≡ some k' → Step (k, r) (k', r)
  -- code runs that touches neither the current thread nor the request
  works :
      (k k' : Kernel) (r : Option ℕ)
      → k'.current ≡ k.current
      → k'.switch_flag ≡ k.switch_flag
      → k'.switch_from ≡ k.switch_from
      → k'.switch_to ≡ k.switch_to
      → Step (k, r) (k', r)
  -- the exception is taken
  pends : (m : Machine) → Step m (pendsv_handler m)

pub data Reach (m : Machine) : Machine → Type 0 where
  here : Reach m m
  next : {n o : Machine} → Reach m n → Step n o → Reach m o

clear_yielded-switch :
    (t : ℕ) (k : Kernel)
    → ((clear_yielded t k).switch_flag ≡ k.switch_flag)
      × ((clear_yielded t k).switch_from ≡ k.switch_from)
      × ((clear_yielded t k).switch_to ≡ k.switch_to)
      × ((clear_yielded t k).current ≡ k.current)
unfolding clear_yielded
clear_yielded-switch t k = (refl, refl, refl, refl)

-- A request names its target as the current thread, and the thread that runs as its source.
schedule_to-Coherent :
    (cur to : ℕ) (k k' : Kernel) (r : Option ℕ)
    → k.current ≡ some cur
    → schedule_to cur to k ≡ some k'
    → Coherent (k, r)
    → Coherent (k', r)
unfolding schedule_to request_switch clear_yielded
schedule_to-Coherent cur to k k' r e h v = record {
  idle = ground (arith, v.idle, v.source, v.target);
  source = ground (arith, v.idle, v.source, v.target);
  target = ground (arith, v.idle, v.source, v.target);
}

schedule_from-Coherent :
    (cur to : Option ℕ) (k k' : Kernel) (r : Option ℕ)
    → k.current ≡ cur
    → schedule_from cur to k ≡ some k'
    → Coherent (k, r)
    → Coherent (k', r)
unfolding schedule_from
schedule_from-Coherent none to k k' r e h v = subst (λ x. Coherent (x, r)) (some-injective k k' h) v
schedule_from-Coherent (some cur) none k k' r e h v =
    subst (λ x. Coherent (x, r)) (some-injective k k' h) v
schedule_from-Coherent (some cur) (some to) k k' r e h v = schedule_to-Coherent cur to k k' r e h v

Step-Coherent : {m n : Machine} → Step m n → Coherent m → Coherent n
unfolding pendsv_handler schedule
Step-Coherent (calls k k' r h) v =
    schedule_from-Coherent k.current (highest_ready_thread k) k k' r refl h v
Step-Coherent (works k k' r c f s t) v = record {
  idle = λ e. ground (arith, v.idle);
  source = λ e. ground (arith, v.source);
  target = λ e. ground (arith, v.target);
}
Step-Coherent (pends m) v = record {
  idle = ground (arith, v.idle, v.target);
  source = ground (arith, v.source);
  target = ground (arith, v.target);
}

Reach-Coherent : {m n : Machine} → Coherent m → Reach m n → Coherent n
Reach-Coherent v here = v
Reach-Coherent v (next r s) = Step-Coherent s (Reach-Coherent v r)

start-Coherent : (k k' : Kernel) → start k ≡ some k' → Coherent (k', none)
unfolding start
start-Coherent k k' h = record { idle = ground arith; source = ground arith; target = ground arith }

-- From the start of the scheduler on, whatever the interleaving of scheduling, other kernel code
-- and PendSV: after the exception the current thread runs and no request is left.
pub pendsv_runs_current :
    (k k' : Kernel) (m : Machine)
    → start k ≡ some k'
    → Reach (k', none) m
    → ((pendsv_handler m).1 ≡ m.0.current)
      × ((pendsv_handler m).0.current ≡ m.0.current)
      × ((pendsv_handler m).0.switch_flag ≡ false)
unfolding pendsv_handler
pendsv_runs_current k k' m h r =
    let v = Reach-Coherent (start-Coherent k k' h) r in
    (ground (arith, v.idle, v.target), ground arith, ground arith)

-- In the same way, a request saves the registers for the thread that runs.
pub pendsv_saves_running :
    (k k' : Kernel) (m : Machine)
    → start k ≡ some k'
    → Reach (k', none) m
    → m.0.switch_flag ≡ true
    → m.0.switch_from ≡ m.1
pendsv_saves_running k k' m h r flag = (Reach-Coherent (start-Coherent k k' h) r).source flag
