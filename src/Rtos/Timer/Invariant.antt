-- ===== src/Rtos/Timer/Invariant.antt =====
-- What holds of the timer list between operations, and that each operation keeps it.
use hc32f460jeua_evb.Base.{
  ℕ, ◌^◌, ◌≤◌, ◌<◌, ◌≡◌, refl, false, List, ◌∷◌, All, ◌==◌, inl, inr, if◌then◌else◌, Bool-cases,
  arith, count, erase, count-erase, All-erase, erase_absent, ◌++◌, ◌∙◌, sym, count-append, ap,
}
use hc32f460jeua_evb.Base.Ordered.{
  insert_by, insert_by_place, Sorted, insert_by-Sorted, count-insert_by, All-insert_by,
  erase-Sorted, All_congr, Sorted-congr,
}
use hc32f460jeua_evb.Rtos.Timer.{
  Timers, TimerInner, Callback, max_timer_ticks, insert_sorted, unlink, set_timer, start_internal,
  stop_internal, arm, configure, clamp_delay,
}
use hc32f460jeua_evb.Rtos.Timer.Window.{due, InWindow, insert_walk-eq-insert_by, due-add}

abbrev pub due_of : Timers → ℕ → ℕ
due_of s t = due s.tick (s.timer t).timeout_tick

pub record IsArmed (s : Timers) : Type 0 where
  pub now : s.tick < 2 ^ 32
  pub linked : (t : ℕ) → count t s.timer_list ≡ (if (s.timer t).linked then 1 else 0)
  pub window : All (λ t. InWindow s.tick (s.timer t).timeout_tick) s.timer_list
  pub sorted : Sorted (due_of s) s.timer_list
  pub periods : (t : ℕ) → (s.timer t).period_ticks ≤ max_timer_ticks

-- Writing a timer that is not linked keeps the invariant.
pub set_timer-IsArmed :
    (s : Timers) (t : ℕ) (inner : TimerInner)
    → (s.timer t).linked ≡ false
    → inner.linked ≡ false
    → inner.period_ticks ≤ max_timer_ticks
    → IsArmed s
    → IsArmed (set_timer s t inner)
set_timer-IsArmed s t inner off off' p v = record {
  now = v.now;
  linked = λ u. ground (arith, v.linked u);
  window = All_congr _ _ s.timer_list (λ a c w. ground (arith, v.linked t)) v.window;
  sorted = Sorted-congr _ _ s.timer_list (λ a c. ground (arith, v.linked t)) v.sorted;
  periods = λ u. ground (arith, v.periods u);
}

pub unlink-off : (t : ℕ) (s : Timers) → ((unlink t s).timer t).linked ≡ false
unfolding unlink
unlink-off t s = ground arith

pub unlink-IsArmed : (t : ℕ) (s : Timers) → IsArmed s → IsArmed (unlink t s)
unfolding unlink
unlink-IsArmed t s v = elim (Bool-cases (s.timer t).linked) [
  | inl on ↦ rw on (record {
    now = v.now;
    linked = λ u. ground (arith, v.linked u, count-erase t u s.timer_list);
    window =
        All_congr _ _ (erase t s.timer_list) (λ a c w. ground arith)
          (All-erase _ t s.timer_list v.window);
    sorted =
        Sorted-congr _ _ (erase t s.timer_list) (λ a c. ground arith)
          (erase-Sorted _ t s.timer_list v.sorted);
    periods = λ u. ground (arith, v.periods u);
  })
  | inr off ↦ rw off v
]

pub insert_sorted-IsArmed :
    (t : ℕ) (s : Timers)
    → (s.timer t).linked ≡ false
    → InWindow s.tick (s.timer t).timeout_tick
    → IsArmed s
    → IsArmed (insert_sorted t s)
unfolding insert_sorted
insert_sorted-IsArmed t s off w v =
    rw (insert_walk-eq-insert_by s.tick s.timer t s.timer_list v.now w v.window) (record {
      now = v.now;
      linked = λ u. ground (arith, v.linked u, count-insert_by (due_of s) t u s.timer_list);
      window =
          All_congr _ _ _ (λ a c w'. ground arith)
            (All-insert_by (due_of s) _ t s.timer_list w v.window);
      sorted =
          Sorted-congr _ _ _ (λ a c. ground arith)
            (insert_by-Sorted (due_of s) t s.timer_list v.sorted);
      periods = λ u. ground (arith, v.periods u);
    })

-- Writing fields other than the link and the expiry keeps the invariant too.
pub set_timer_same :
    (s : Timers) (t : ℕ) (inner : TimerInner)
    → inner.linked ≡ (s.timer t).linked
    → inner.timeout_tick ≡ (s.timer t).timeout_tick
    → inner.period_ticks ≤ max_timer_ticks
    → IsArmed s
    → IsArmed (set_timer s t inner)
set_timer_same s t inner l e p v = record {
  now = v.now;
  linked = λ u. ground (arith, v.linked u);
  window = All_congr _ _ s.timer_list (λ a c w. ground arith) v.window;
  sorted = Sorted-congr _ _ s.timer_list (λ a c. ground arith) v.sorted;
  periods = λ u. ground (arith, v.periods u);
}

configure-IsArmed :
    (t period : ℕ) (cb : Callback) (x : ℕ) (s : Timers)
    → IsArmed s
    → IsArmed (configure t period cb x s)
unfolding configure
configure-IsArmed t period cb x s v = set_timer_same s t _ refl refl (omega arith) v

arm-IsArmed :
    (t delay : ℕ) (s : Timers) → (s.timer t).linked ≡ false → IsArmed s → IsArmed (arm t delay s)
unfolding arm
arm-IsArmed t delay s off v = set_timer-IsArmed s t _ off off (v.periods t) v

arm-due :
    (t delay : ℕ) (s : Timers)
    → IsArmed s
    → delay ≤ max_timer_ticks
    → (due_of (arm t delay s) t ≡ delay) × InWindow s.tick ((arm t delay s).timer t).timeout_tick
unfolding arm
arm-due t delay s v h = ground (arith, due-add s.tick delay v.now h)

-- Starting a timer, linked or not, keeps the invariant.
pub start_internal-IsArmed :
    (t delay period : ℕ) (cb : Callback) (x : ℕ) (s : Timers)
    → IsArmed s
    → IsArmed (start_internal t delay period cb x s)
unfolding start_internal
start_internal-IsArmed t delay period cb x s v =
    let c = configure t period cb x s in
    let u = unlink t c in
    let vu = unlink-IsArmed t c (configure-IsArmed t period cb x s v) in
    let off = unlink-off t c in
    insert_sorted-IsArmed t (arm t (clamp_delay delay) u) (ground (arith, off))
      (arm-due t (clamp_delay delay) u vu (omega arith)).1
      (arm-IsArmed t (clamp_delay delay) u off vu)

pub stop_internal-IsArmed : (t : ℕ) (s : Timers) → IsArmed s → IsArmed (stop_internal t s)
unfolding stop_internal
stop_internal-IsArmed t s v =
    let vu = unlink-IsArmed t s v in set_timer_same (unlink t s) t _ refl refl (vu.periods t) vu

list-unlink : (t : ℕ) (s : Timers) → IsArmed s → (unlink t s).timer_list ≡ erase t s.timer_list
unfolding unlink
list-unlink t s v = ground (arith, v.linked t, erase_absent t s.timer_list)

due-unlink : (t u : ℕ) (s : Timers) → due_of (unlink t s) u ≡ due_of s u
unfolding unlink
due-unlink t u s = ground arith

-- The expiry of a timer that is not being armed stays.
due-arm : (t u delay : ℕ) (s : Timers) → (t == u) ≡ false → due_of (arm t delay s) u ≡ due_of s u
unfolding arm
due-arm t u delay s h = rw h

due-configure :
    (t u period : ℕ) (cb : Callback) (x : ℕ) (s : Timers)
    → due_of (configure t period cb x s) u ≡ due_of s u
unfolding configure
due-configure t u period cb x s = ground arith

list-insert_sorted :
    (t : ℕ) (s : Timers)
    → InWindow s.tick (s.timer t).timeout_tick
    → IsArmed s
    → (insert_sorted t s).timer_list ≡ insert_by (due_of s) t s.timer_list
unfolding insert_sorted
list-insert_sorted t s w v = insert_walk-eq-insert_by s.tick s.timer t s.timer_list v.now w v.window

due-insert_sorted : (t u : ℕ) (s : Timers) → due_of (insert_sorted t s) u ≡ due_of s u
unfolding insert_sorted
due-insert_sorted t u s = ground arith

-- Starting a timer takes its old place away and puts it behind the timers that expire no later than
-- it and before those that expire later; the expiry is `delay` ticks away, within 1 and 2^31 - 1.
pub start_internal_place :
    (t delay period : ℕ) (cb : Callback) (x : ℕ) (s : Timers)
    → IsArmed s
    → (before : List ℕ) × (behind : List ℕ) × (erase t s.timer_list ≡ before ++ behind)
      × ((start_internal t delay period cb x s).timer_list ≡ before ++ t ∷ behind)
      × (due_of (start_internal t delay period cb x s) t ≡ clamp_delay delay)
      × All (λ u. due_of s u ≤ clamp_delay delay) before
      × All (λ u. clamp_delay delay < due_of s u) behind
unfolding start_internal
start_internal_place t delay period cb x s v = (
  p.0,
  p.1,
  split ∙ p.2,
  list-insert_sorted t a aw va ∙ p.3,
  due-insert_sorted t t a ∙ (arm-due t (clamp_delay delay) u vu (omega arith)).0,
  All_congr _ _ p.0
      (λ y c h.
        omega (arith, keep y (ground (arith, count-append y p.0 p.1, ap (count y) p.2)), at_t))
      p.4,
  All_congr _ _ p.1
      (λ y c h.
        omega (arith, keep y (ground (arith, count-append y p.0 p.1, ap (count y) p.2)), at_t))
      p.5,
)
  where
    c : Timers
    c = configure t period cb x s

    u : Timers
    u = unlink t c

    vu : IsArmed u
    vu = unlink-IsArmed t c (configure-IsArmed t period cb x s v)

    a : Timers
    a = arm t (clamp_delay delay) u

    aw : InWindow a.tick (a.timer t).timeout_tick
    aw = (arm-due t (clamp_delay delay) u vu (omega arith)).1

    va : IsArmed a
    va = arm-IsArmed t (clamp_delay delay) u (unlink-off t c) vu

    p :
        (before : List ℕ) × (behind : List ℕ) × (a.timer_list ≡ before ++ behind)
        × (insert_by (due_of a) t a.timer_list ≡ before ++ t ∷ behind)
        × All (λ y. due_of a y ≤ due_of a t) before
        × All (λ y. due_of a t < due_of a y) behind
    p = insert_by_place (due_of a) t a.timer_list va.sorted

    split : erase t s.timer_list ≡ u.timer_list
    split = sym (list-unlink t c (configure-IsArmed t period cb x s v))

    at_t : due_of a t ≡ clamp_delay delay
    at_t = (arm-due t (clamp_delay delay) u vu (omega arith)).0

    keep : (y : ℕ) → 0 < count y u.timer_list → due_of a y ≡ due_of s y
    keep y h =
        due-arm t y (clamp_delay delay) u (ground (arith, vu.linked t, unlink-off t c))
        ∙ due-unlink t y c
        ∙ due-configure t y period cb x s
