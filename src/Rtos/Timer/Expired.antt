-- ===== src/Rtos/Timer/Expired.antt =====
-- Which timers of the list of src/rtos/timer.rs have expired, and what moving one does to them
use hc32f460jeua_evb.Base.{
  ℕ, ◌≤◌, ◌<◌, ◌≡◌, refl, false, List, [], ◌∷◌, All, ◌==◌, inl, inr, if◌then◌else◌, Bool-cases,
  arith, count, not, ◌&&◌, ◌∙◌,
}
use hc32f460jeua_evb.Base.Ordered.{insert_by}
use hc32f460jeua_evb.Rtos.Timer.{
  Timers, TimerInner, wrapping_add, insert_walk, insert_sorted, set_timer, rearm,
}
use hc32f460jeua_evb.Rtos.Timer.Window.{due, InWindow, insert_walk-eq-insert_by, due-add}
use hc32f460jeua_evb.Rtos.Timer.Invariant.{
  due_of, IsArmed, set_timer-IsArmed, insert_sorted-IsArmed,
}

-- The elements whose key is 0, in order.
unfoldable pub expired : (ℕ → ℕ) → List ℕ → List ℕ
expired k [] = []
expired k (x ∷ xs) = if k x == 0 then x ∷ expired k xs else expired k xs

expired-insert_by :
    (k : ℕ → ℕ) (t : ℕ) (xs : List ℕ) → 0 < k t → expired k (insert_by k t xs) ≡ expired k xs
unfolding expired insert_by
expired-insert_by k t [] h = ground arith
expired-insert_by k t (x ∷ xs) h = ground (arith, expired-insert_by k t xs h)

pub expired_congr :
    (k l : ℕ → ℕ) (xs : List ℕ)
    → ((a : ℕ) → 0 < count a xs → k a ≡ l a)
    → expired k xs ≡ expired l xs
unfolding expired
expired_congr k l [] f = refl
expired_congr k l (x ∷ xs) f =
    rw (f x (ground arith), expired_congr k l xs (λ a c. f a (ground arith)))

pub expired_nil : (k : ℕ → ℕ) → expired k [] ≡ []
unfolding expired
expired_nil k = refl

pub expired_cons :
    (k : ℕ → ℕ) (x : ℕ) (xs : List ℕ) → k x ≡ 0 → expired k (x ∷ xs) ≡ x ∷ expired k xs
unfolding expired
expired_cons k x xs h = ground arith

-- A sorted list with nothing expired in front has nothing expired.
pub expired_none :
    (k : ℕ → ℕ) (x : ℕ) (xs : List ℕ) → 0 < k x → All (λ y. k x ≤ k y) xs → expired k (x ∷ xs) ≡ []
unfolding expired
expired_none k x [] h all = ground arith
expired_none k x (y ∷ ys) h all = ground (arith, expired_none k x ys h all.1)

pub rearm-IsArmed :
    (t : ℕ) (s : Timers) → (s.timer t).linked ≡ false → IsArmed s → IsArmed (rearm t s)
unfolding rearm
rearm-IsArmed t s off v =
    elim (Bool-cases (not ((s.timer t).period_ticks == 0) && (s.timer t).started)) [
      | inl e ↦ rw e (
          insert_sorted-IsArmed t _ (ground (arith, off))
            (ground (arith, due-add s.tick (s.timer t).period_ticks v.now (v.periods t)))
            (set_timer-IsArmed s t _ off off (v.periods t) v))
      | inr e ↦ rw e (set_timer-IsArmed s t _ off off (v.periods t) v)
    ]

expired-insert_sorted :
    (t : ℕ) (s : Timers)
    → (s.timer t).linked ≡ false
    → InWindow s.tick (s.timer t).timeout_tick
    → 0 < due_of s t
    → IsArmed s
    → expired (due_of (insert_sorted t s)) (insert_sorted t s).timer_list
      ≡ expired (due_of s) s.timer_list
unfolding insert_sorted
expired-insert_sorted t s off w pos v =
    expired_congr _ (due_of s) (insert_walk s.timer t s.timer_list) (λ a c. ground arith)
    ∙ rw (insert_walk-eq-insert_by s.tick s.timer t s.timer_list v.now w v.window)
        (expired-insert_by (due_of s) t s.timer_list pos)

expired-set_timer :
    (t : ℕ) (s : Timers) (inner : TimerInner)
    → (s.timer t).linked ≡ false
    → IsArmed s
    → expired (due_of (set_timer s t inner)) s.timer_list ≡ expired (due_of s) s.timer_list
expired-set_timer t s inner off v =
    expired_congr _ _ s.timer_list (λ a c. ground (arith, v.linked t))

-- Arming the timer that was taken off adds nothing that has expired.
pub expired-rearm :
    (t : ℕ) (s : Timers)
    → (s.timer t).linked ≡ false
    → IsArmed s
    → expired (due_of (rearm t s)) (rearm t s).timer_list ≡ expired (due_of s) s.timer_list
unfolding rearm
expired-rearm t s off v =
    elim (Bool-cases (not ((s.timer t).period_ticks == 0) && (s.timer t).started)) [
      | inl e ↦ rw e (
          expired-insert_sorted t (again) (ground (arith, off)) (ground (arith, period_due))
            (ground (arith, period_due)) (set_timer-IsArmed s t _ off off (v.periods t) v)
          ∙ expired-set_timer t s _ off v)
      | inr e ↦ rw e (expired-set_timer t s _ off v)
    ]
  where
    again : Timers
    again =
        set_timer s t
          (record (s.timer t) { timeout_tick = wrapping_add s.tick (s.timer t).period_ticks })

    period_due :
        (due s.tick (wrapping_add s.tick (s.timer t).period_ticks) ≡ (s.timer t).period_ticks)
        × InWindow s.tick (wrapping_add s.tick (s.timer t).period_ticks)
    period_due = due-add s.tick (s.timer t).period_ticks v.now (v.periods t)
