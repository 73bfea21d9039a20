-- ===== src/Rtos/Timer/Window.antt =====
-- The wrapping comparison of timer.rs inside half the tick space.
use native.Mathlib.Nat.{mul-pos}
use hc32f460jeua_evb.Base.{
  ◌*◌, min, ℕ, ◌+◌, ◌-◌, ◌%◌, ◌^◌, ◌≤◌, ◌<◌, ◌≡◌, refl, List, [], ◌∷◌, All, ltb, arith,
}
use hc32f460jeua_evb.Base.Ordered.{insert_by}
use hc32f460jeua_evb.Rtos.Timer.{
  TimerInner, wrapping_add, wrapping_sub, is_negative, max_timer_ticks, ticks_from_ms, insert_walk,
}

-- Ticks from `now` until the expiry, going round at 2^32.
abbrev pub due : ℕ → ℕ → ℕ
due now x = (x + 2 ^ 32 - now) % 2 ^ 32

abbrev pub InWindow : ℕ → ℕ → Type 0
InWindow now x = (x < 2 ^ 32) × (due now x ≤ max_timer_ticks)

pub earlier_iff :
    (now a b : ℕ)
    → now < 2 ^ 32
    → InWindow now a
    → InWindow now b
    → is_negative (wrapping_sub a b) ≡ ltb (due now a) (due now b)
earlier_iff now a b h ha hb = ground arith

pub expired_iff :
    (now a : ℕ)
    → now < 2 ^ 32
    → InWindow now a
    → is_negative (wrapping_sub now a) ≡ ltb 0 (due now a)
expired_iff now a h ha = ground arith

pub due-add :
    (now d : ℕ)
    → now < 2 ^ 32
    → d ≤ max_timer_ticks
    → (due now (wrapping_add now d) ≡ d) × InWindow now (wrapping_add now d)
due-add now d h hd = omega arith

pub due-tick :
    (now x : ℕ)
    → now < 2 ^ 32
    → InWindow now x
    → 0 < due now x
    → (due (wrapping_add now 1) x + 1 ≡ due now x) × InWindow (wrapping_add now 1) x
due-tick now x h w p = omega arith

-- The walk of `insert_sorted` is insertion by the time left.
pub insert_walk-eq-insert_by :
    (now : ℕ) (f : ℕ → TimerInner) (t : ℕ) (es : List ℕ)
    → now < 2 ^ 32
    → InWindow now (f t).timeout_tick
    → All (λ e. InWindow now (f e).timeout_tick) es
    → insert_walk f t es ≡ insert_by (λ e. due now (f e).timeout_tick) t es
unfolding insert_walk insert_by
insert_walk-eq-insert_by now f t [] h w all = refl
insert_walk-eq-insert_by now f t (e ∷ es) h w all = rw (
  earlier_iff now (f t).timeout_tick (f e).timeout_tick h w all.0,
  insert_walk-eq-insert_by now f t es h w all.1,
)

-- A time of at least one millisecond becomes at least one tick, no less than was asked unless it is the longest
-- delay that the order of the timers allows, and less than a tick too much.
pub ticks_from_ms_bounds :
    (per_sec ms : ℕ)
    → 0 < per_sec
    → 0 < ms
    → (1 ≤ ticks_from_ms per_sec ms)
      × (ticks_from_ms per_sec ms ≤ max_timer_ticks)
      × (min (ms * per_sec) (max_timer_ticks * 1000) ≤ ticks_from_ms per_sec ms * 1000)
      × (ticks_from_ms per_sec ms * 1000 < ms * per_sec + 1000)
unfolding ticks_from_ms
ticks_from_ms_bounds per_sec ms some_rate some_time =
    let product : 0 < ms * per_sec = mul-pos some_time some_rate in
    (ground arith, ground arith, ground arith, ground arith)
