-- ===== src/Rtos/Timer/Fire.antt =====
-- `check`: which callbacks are made, in which order, and that the loop ends.
use hc32f460jeua_evb.Base.{
  ℕ, zero, suc, ◌+◌, ◌<◌, ◌≡◌, refl, true, List, [], ◌∷◌, All, inl, inr, Bool-cases, ltb→lt, arith,
  count, erase, map, ◌⊎◌, ap, Option, none, some, length, sym, ◌∙◌, subst, all_of_count, get_of_all,
}
use hc32f460jeua_evb.Base.Ordered.{Sorted, All_congr, Sorted-mono}
use hc32f460jeua_evb.Rtos.Timer.{
  Timers, Callback, wrapping_add, wrapping_sub, is_negative, insert_sorted, unlink, rearm,
  check_head, check_step, check, advance,
}
use hc32f460jeua_evb.Rtos.Timer.Window.{due, InWindow, due-tick, expired_iff}
use hc32f460jeua_evb.Rtos.Timer.Invariant.{due_of, IsArmed, unlink-off, unlink-IsArmed}
use hc32f460jeua_evb.Rtos.Timer.Expired.{
  expired, expired_congr, expired_nil, expired_cons, expired_none, rearm-IsArmed, expired-rearm,
}

abbrev SameCalls : Timers → Timers → Type 0
SameCalls s s' =
    (u : ℕ)
    → ((s'.timer u).callback ≡ (s.timer u).callback) × ((s'.timer u).param ≡ (s.timer u).param)

unlink-SameCalls : (t : ℕ) (s : Timers) → SameCalls s (unlink t s)
unfolding unlink
unlink-SameCalls t s u = ground arith

rearm-SameCalls : (t : ℕ) (s : Timers) → SameCalls s (rearm t s)
unfolding rearm insert_sorted
rearm-SameCalls t s u = ground arith

-- The link of the expired head is undone: the rest of the list stays.
unlink_head :
    (t : ℕ) (rest : List ℕ) (s : Timers)
    → IsArmed s
    → s.timer_list ≡ t ∷ rest
    → expired (due_of s) rest ≡ expired (due_of (unlink t s)) (unlink t s).timer_list
unfolding unlink
unlink_head t rest s v e =
    let on : (s.timer t).linked ≡ true = ground (arith, v.linked t) in
    let gone : erase t s.timer_list ≡ rest = ground arith in
    rw (on, gone) (expired_congr _ _ rest (λ a c. ground arith))

-- Either nothing has expired and the loop stops, or the first expired timer's callback is made.
abbrev Fires : Timers → List ℕ → Option (Callback × ℕ × Timers) → Type 0
Fires s l r =
    ((expired (due_of s) l ≡ []) × (r ≡ none))
    ⊎ ((t : ℕ) × (s' : Timers) × (expired (due_of s) l ≡ t ∷ expired (due_of s') s'.timer_list)
        × (r ≡ some ((s.timer t).callback, (s.timer t).param, s'))
        × IsArmed s'
        × SameCalls s s')

check_head-Fires :
    (l : List ℕ) (s : Timers) → IsArmed s → s.timer_list ≡ l → Fires s l (check_head l s)
unfolding check_head
check_head-Fires [] s v e = inl (expired_nil (due_of s), refl)
check_head-Fires (t ∷ rest) s v e =
    elim (Bool-cases (is_negative (wrapping_sub s.tick (s.timer t).timeout_tick))) [
      | inl later ↦
          let so = subst (Sorted (due_of s)) e v.sorted in
          let w = subst (All (λ x. InWindow s.tick (s.timer x).timeout_tick)) e v.window in
          inl (
            expired_none (due_of s) t rest
                (ltb→lt 0 _ (sym (expired_iff s.tick _ v.now w.0) ∙ later)) so.0,
            rw later,
          )
      | inr now ↦
          let u = unlink t s in
          let vu = unlink-IsArmed t s v in
          let off = unlink-off t s in
          inr (
            t,
            rearm t u,
            (let w = subst (All (λ x. InWindow s.tick (s.timer x).timeout_tick)) e v.window in
                let z : due_of s t ≡ 0 =
                  ground (arith, expired_iff s.tick (s.timer t).timeout_tick v.now w.0) in
                expired_cons (due_of s) t rest z
                ∙ ap (◌∷◌ t) (unlink_head t rest s v e ∙ sym (expired-rearm t u off vu))),
            rw now,
            rearm-IsArmed t u off vu,
            λ w. ground (arith, unlink-SameCalls t s w, rearm-SameCalls t u w),
          )
    ]

pub check_step-Fires : (s : Timers) → IsArmed s → Fires s s.timer_list (check_step s)
unfolding check_step
check_step-Fires s v = check_head-Fires s.timer_list s v refl

-- The callback and the argument of each timer in a list.
abbrev pub calls_of : Timers → List ℕ → List (Callback × ℕ)
calls_of s = map (λ t. ((s.timer t).callback, (s.timer t).param))

calls_of-SameCalls : (s s' : Timers) (l : List ℕ) → SameCalls s s' → calls_of s' l ≡ calls_of s l
calls_of-SameCalls s s' [] h = refl
calls_of-SameCalls s s' (x ∷ xs) h = ground (arith, h x, calls_of-SameCalls s s' xs h)

abbrev pub no_effect : Callback → ℕ → Timers → Timers
no_effect cb x s = s

-- With callbacks that leave the timers alone, the loop makes the callbacks of the timers that have
-- expired, in the order of the list and each once, ends with fuel for one turn more than that, and
-- leaves a list in order in which nothing has expired.
pub check_fires :
    (fuel : ℕ) (s : Timers)
    → IsArmed s
    → length (expired (due_of s) s.timer_list) < fuel
    → (s' : Timers) × (check no_effect fuel s
        ≡ some (calls_of s (expired (due_of s) s.timer_list), s'))
      × IsArmed s'
      × (expired (due_of s') s'.timer_list ≡ [])
unfolding check
check_fires zero s v h = absurd (omega arith)
check_fires (suc fuel) s v h = elim (check_step-Fires s v) [
  | inl (none_left, stop) ↦ (s, rw (stop, check, none_left), v, none_left)
  | inr (t, s', cons, fire, v', same) ↦
      let r = check_fires fuel s' v' (omega (arith, ap length cons)) in
      (r.0, rw (fire, check, r.1, cons, calls_of-SameCalls s s' _ same), r.2, r.3)
]

pending : (k : ℕ → ℕ) (l : List ℕ) → expired k l ≡ [] → All (λ t. 0 < k t) l
unfolding expired
pending k [] h = tt
pending k (x ∷ xs) h = ground (arith, pending k xs)

-- The clock may go on by one tick when nothing is left that has expired: the order stays, and
-- each timer is one tick nearer.
pub advance-IsArmed :
    (s : Timers)
    → IsArmed s
    → expired (due_of s) s.timer_list ≡ []
    → IsArmed (advance s) × All (λ t. due_of (advance s) t + 1 ≡ due_of s t) s.timer_list
unfolding advance
advance-IsArmed s v none_left = (
  record {
    now = omega (arith, v.now);
    linked = v.linked;
    window = All_congr _ _ l (λ a c h. (nearer a c).1) v.window;
    sorted =
        Sorted-mono (due_of s) _ l (λ a b c d h. omega (arith, (nearer a c).0, (nearer b d).0))
          v.sorted;
    periods = v.periods;
  },
  all_of_count _ l (λ a c. (nearer a c).0),
)
  where
    l : List ℕ
    l = s.timer_list

    nearer :
        (a : ℕ)
        → 0 < count a l
        → (due (wrapping_add s.tick 1) (s.timer a).timeout_tick + 1
            ≡ due s.tick (s.timer a).timeout_tick)
          × InWindow (wrapping_add s.tick 1) (s.timer a).timeout_tick
    nearer a c =
        due-tick s.tick (s.timer a).timeout_tick v.now (get_of_all _ a l v.window c)
          (get_of_all _ a l (pending (due_of s) l none_left) c)
