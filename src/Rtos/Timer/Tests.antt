-- ===== src/Rtos/Timer/Tests.antt =====
-- The theorems on timer.rs applied to two timers, one of them expired.
use hc32f460jeua_evb.Base.{
  ◌*◌, min, ℕ, ◌+◌, ◌≡◌, ◌≤◌, ◌<◌, refl, true, false, some, List, [], ◌∷◌, ◌++◌, ◌==◌,
  if◌then◌else◌, All, arith, length, erase,
}
use hc32f460jeua_evb.Rtos.Timer.{
  Timers, TimerInner, Callback, check, start_internal, clamp_delay, is_active, ticks_from_ms,
  uptime_ms, max_timer_ticks,
}
use hc32f460jeua_evb.Rtos.Timer.Window.{ticks_from_ms_bounds}
use hc32f460jeua_evb.Rtos.Timer.Invariant.{IsArmed, due_of, start_internal_place}
use hc32f460jeua_evb.Rtos.Timer.Expired.{expired}
use hc32f460jeua_evb.Rtos.Timer.Fire.{calls_of, no_effect, check_fires}

-- At tick 2^32 - 1: timer 7 is due, timer 8 is due three ticks later, after the wrap.
abbrev armed_timer : ℕ → TimerInner
armed_timer t = record {
  linked = if t == 7 then true else if t == 8 then true else false;
  timeout_tick = if t == 7 then 4294967295 else 2;
  period_ticks = if t == 7 then 50 else 0;
  started = true;
  callback = Callback.user t;
  param = t;
}

abbrev timers_at : ℕ → Timers
timers_at now = record { timer = armed_timer; timer_list = 7 ∷ 8 ∷ []; tick = now }

timers_at-IsArmed : IsArmed (timers_at 4294967295)
timers_at-IsArmed = record {
  now = omega arith;
  linked = λ t. ground arith;
  window = ((omega arith, omega arith), ((omega arith, omega arith), tt));
  sorted = ((omega arith, tt), (tt, tt));
  periods = λ t. ground arith;
}

earlier-IsArmed : IsArmed (timers_at 4294967294)
earlier-IsArmed = record {
  now = omega arith;
  linked = λ t. ground arith;
  window = ((omega arith, omega arith), ((omega arith, omega arith), tt));
  sorted = ((omega arith, tt), (tt, tt));
  periods = λ t. ground arith;
}

one_expired : length (expired (due_of (timers_at 4294967295)) (timers_at 4294967295).timer_list) < 2
unfolding expired
one_expired = omega arith

none_expired : expired (due_of (timers_at 4294967294)) (timers_at 4294967294).timer_list ≡ []
unfolding expired
none_expired = refl

check_fires_example :
    (s' : Timers) × (check no_effect 2 (timers_at 4294967295)
      ≡ some (
        calls_of (timers_at 4294967295) (expired (due_of (timers_at 4294967295)) (7 ∷ 8 ∷ [])),
        s',
      ))
    × IsArmed s'
    × (expired (due_of s') s'.timer_list ≡ [])
check_fires_example = check_fires 2 (timers_at 4294967295) timers_at-IsArmed one_expired

start_internal_place_example :
    (before : List ℕ) × (behind : List ℕ) × (erase 8 (7 ∷ 8 ∷ []) ≡ before ++ behind)
    × ((start_internal 8 2 0 (Callback.user 8) 8 (timers_at 4294967295)).timer_list
        ≡ before ++ 8 ∷ behind)
    × (due_of (start_internal 8 2 0 (Callback.user 8) 8 (timers_at 4294967295)) 8 ≡ clamp_delay 2)
    × All (λ u. due_of (timers_at 4294967295) u ≤ clamp_delay 2) before
    × All (λ u. clamp_delay 2 < due_of (timers_at 4294967295) u) behind
start_internal_place_example =
    start_internal_place 8 2 0 (Callback.user 8) 8 (timers_at 4294967295) timers_at-IsArmed

started_is_active : is_active 7 (timers_at 4294967295) ≡ true
unfolding is_active
started_is_active = refl

ticks_from_ms_bounds_example :
    (1 ≤ ticks_from_ms 100 25)
    × (ticks_from_ms 100 25 ≤ max_timer_ticks)
    × (min (25 * 100) (max_timer_ticks * 1000) ≤ ticks_from_ms 100 25 * 1000)
    × (ticks_from_ms 100 25 * 1000 < 25 * 100 + 1000)
ticks_from_ms_bounds_example = ticks_from_ms_bounds 100 25 (omega arith) (omega arith)

uptime_wraps : uptime_ms 100 429496730 ≡ 4
unfolding uptime_ms
uptime_wraps = refl
