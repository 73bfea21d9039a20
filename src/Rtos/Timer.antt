-- ===== src/Rtos/Timer.antt =====
-- src/rtos/timer.rs: hard timers on a list ordered by expiry, with a wrapping 32-bit tick.
-- A timer is its address; the intrusive list is the list of the addresses linked on it.
pub mod Window
pub mod Invariant
pub mod Fire
pub mod Expired
pub mod Tests
use hc32f460jeua_evb.Base.{
  ℕ, zero, suc, ◌+◌, ◌-◌, ◌*◌, ◌/◌, ◌%◌, ◌^◌, ◌≤◌, ◌<◌, min, max, Bool, true, false, ◌&&◌, not,
  Option, none, some, List, [], ◌∷◌, ltb, leb, ◌==◌, if◌then◌else◌, update, erase,
}

-- `u32::wrapping_add` and `wrapping_sub`
abbrev pub wrapping_add : ℕ → ℕ → ℕ
wrapping_add a b = (a + b) % 2 ^ 32

abbrev pub wrapping_sub : ℕ → ℕ → ℕ
wrapping_sub a b = (a + 2 ^ 32 - b) % 2 ^ 32

-- `(x as i32) < 0`
abbrev pub is_negative : ℕ → Bool
is_negative x = leb (2 ^ 31) x

-- `i32::MAX as u32`
abbrev pub max_timer_ticks : ℕ
max_timer_ticks = 2 ^ 31 - 1

-- The callbacks that are stored: the placeholder, the threads' own, and the application's.
pub data Callback : Type 0 where
  nop_callback thread_timer_cb : Callback
  user : ℕ → Callback

pub record TimerInner : Type 0 where
  pub linked : Bool
  pub timeout_tick : ℕ
  pub period_ticks : ℕ
  pub started : Bool
  pub callback : Callback
  pub param : ℕ

-- The timers by address, `TIMER_LIST`, and the kernel's tick counter.
pub record Timers : Type 0 where
  pub timer : ℕ → TimerInner
  pub timer_list : List ℕ
  pub tick : ℕ

abbrev pub new : TimerInner
new = record {
  linked = false;
  timeout_tick = 0;
  period_ticks = 0;
  started = false;
  callback = nop_callback;
  param = 0;
}

-- The walk of `insert_sorted`: before the first timer that expires later.
pub insert_walk : (ℕ → TimerInner) → ℕ → List ℕ → List ℕ
insert_walk f t [] = t ∷ []
insert_walk f t (e ∷ es) =
    if is_negative (wrapping_sub (f t).timeout_tick (f e).timeout_tick)
    then t ∷ e ∷ es
    else e ∷ insert_walk f t es

abbrev pub set_timer : Timers → ℕ → TimerInner → Timers
set_timer s t inner = record s { timer = update s.timer t inner }

pub insert_sorted : ℕ → Timers → Timers
insert_sorted t s = record s {
  timer_list = insert_walk s.timer t s.timer_list;
  timer = update s.timer t (record (s.timer t) { linked = true });
}

-- `if node.is_linked() { node.remove() }`
pub unlink : ℕ → Timers → Timers
unlink t s =
    if (s.timer t).linked
    then record s {
      timer_list = erase t s.timer_list;
      timer = update s.timer t (record (s.timer t) { linked = false });
    }
    else s

-- `clamp(1, MAX_TIMER_TICKS)`
abbrev pub clamp_delay : ℕ → ℕ
clamp_delay d = min (max d 1) max_timer_ticks

arm : ℕ → ℕ → Timers → Timers
arm t delay s =
    set_timer s t (record (s.timer t) { timeout_tick = wrapping_add s.tick delay; started = true })

configure : ℕ → ℕ → Callback → ℕ → Timers → Timers
configure t period callback param s = set_timer s t (record (s.timer t) {
  callback = callback;
  param = param;
  period_ticks = min period max_timer_ticks;
})

pub start_internal : ℕ → ℕ → ℕ → Callback → ℕ → Timers → Timers
unfolding arm configure
start_internal t delay period callback param s =
    insert_sorted t (arm t (clamp_delay delay) (unlink t (configure t period callback param s)))

pub stop_internal : ℕ → Timers → Timers
stop_internal t s = let s' = unlink t s in set_timer s' t (record (s'.timer t) { started = false })

pub is_active : ℕ → Timers → Bool
is_active t s = (s.timer t).started

-- After the node was removed: a periodic timer is armed again, a one-shot timer stops.
pub rearm : ℕ → Timers → Timers
rearm t s =
    if not ((s.timer t).period_ticks == 0) && (s.timer t).started
    then insert_sorted t (
        set_timer s t
          (record (s.timer t) { timeout_tick = wrapping_add s.tick (s.timer t).period_ticks }))
    else set_timer s t (record (s.timer t) { started = false })

-- One turn of the loop of `check`: the callback to make and the state it is made in.
check_head : List ℕ → Timers → Option (Callback × ℕ × Timers)
unfolding rearm
check_head [] s = none
check_head (t ∷ _) s =
    if is_negative (wrapping_sub s.tick (s.timer t).timeout_tick)
    then none
    else some ((s.timer t).callback, (s.timer t).param, rearm t (unlink t s))

pub check_step : Timers → Option (Callback × ℕ × Timers)
unfolding check_head
check_step s = check_head s.timer_list s

-- The loop, on fuel, with the effect of the callbacks on the timers as an argument. The calls that
-- were made, in order, and the final state; `none` means that the fuel ran out.
pub check : (Callback → ℕ → Timers → Timers) → ℕ → Timers → Option (List (Callback × ℕ) × Timers)
check effect zero s = none
check effect (suc fuel) s = elim (check_step s) [
  | none ↦ some ([], s)
  | some (cb, param, s') ↦ elim (check effect fuel (effect cb param s')) [
    | none ↦ none
    | some (calls, s'') ↦ some ((cb, param) ∷ calls, s'')
  ]
]

-- `TICK.fetch_add(1)`, which the clock interrupt does before `check`.
pub advance : Timers → Timers
advance s = record s { tick = wrapping_add s.tick 1 }

-- `ticks_from_ms` of src/rtos/mod.rs, with `TICKS_PER_SEC` as an argument
pub ticks_from_ms : ℕ → ℕ → ℕ
ticks_from_ms per_sec ms = if ms == 0 then 0 else min ((ms * per_sec + 999) / 1000) max_timer_ticks

-- `uptime_ms` of src/rtos/mod.rs: the ticks in milliseconds, going round at 2^32
pub uptime_ms : ℕ → ℕ → ℕ
uptime_ms per_sec tick = tick * 1000 / per_sec % 2 ^ 32
