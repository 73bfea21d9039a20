-- ===== src/Rtos/Ipc/Event/Waiters.antt =====
-- No thread waits for flags that are set: what `send` and `recv` keep of the waiters of an event.
use Prim.Native.Nat.{bit_or}
use hc32f460jeua_evb.Base.{
  ℕ, ◌≤◌, ◌<◌, ◌≡◌, refl, Bool, false, Option, none, some, List, [], ◌∷◌, ◌==◌, arith, Bool-cases,
  inl, inr, count, ap, sym, ◌∙◌, subst, ==→eq,
}
use hc32f460jeua_evb.Rtos.Kernel.{
  Kernel, EventOpt, set_thread, suspend_node_remove, suspend_node_remove-some,
}
use hc32f460jeua_evb.Rtos.Ipc.{Timeout, Result, ok, err, timer_delay, is_no_wait, suspend_current}
use hc32f460jeua_evb.Rtos.Ipc.Invariant.{
  IsKernel, set_thread-IsKernel, suspend_node_remove-IsKernel, suspend_node_remove-off,
}
use hc32f460jeua_evb.Rtos.Ipc.Suspending.{suspend_current-IsKernel}
use hc32f460jeua_evb.Rtos.Ipc.Waking.{wakeup_thread-IsKernel}
use hc32f460jeua_evb.Rtos.Ipc.Wake.{
  Elsewhere, suspend_current-Elsewhere, wakeup_thread-others, wakeup_thread-suspend_node,
}
use hc32f460jeua_evb.Rtos.Sched.Invariant.{node_of_stands_on, stands_on}
use hc32f460jeua_evb.Rtos.Ipc.Event.{
  EventInner, Event, matches, matched_bits, wake_with, send_one, send_walk, send, recv_inner,
  recv_checked, recv,
}
use hc32f460jeua_evb.Rtos.Ipc.Event.Flags.{flags_after-Subset, matches_mono}

-- The condition of thread `u` on the flags `set`.
abbrev pub is_met : Kernel → ℕ → ℕ → Bool
is_met k set u = matches (k.thread u).event_opt set (k.thread u).event_wanted

pub record IsEvent (m : Event) : Type 0 where
  pub kernel : IsKernel m.1
  pub unmet :
      (u : ℕ) → (m.1.thread u).suspend_node ≡ some m.0.suspend_list → is_met m.1 m.0.set u ≡ false

-- During the walk of `send` over `l`: who is not to be visited any more is unmet.
record Walking (q : ℕ) (l : List ℕ) (set : ℕ) (k : Kernel) : Type 0 where
  kernel : IsKernel k
  waits : (u : ℕ) → 0 < count u l → (k.thread u).suspend_node ≡ some q
  once : (u : ℕ) → count u l ≤ 1
  unmet : (u : ℕ) → (k.thread u).suspend_node ≡ some q → count u l ≡ 0 → is_met k set u ≡ false

record Frees (w : ℕ) (k k' : Kernel) : Type 0 where
  kernel : IsKernel k'
  free : (k'.thread w).suspend_node ≡ none
  others : (u : ℕ) → (w == u) ≡ false → k'.thread u ≡ k.thread u

wake_with-Frees :
    (q w bits : ℕ) (k : Kernel)
    → IsKernel k
    → (k.thread w).suspend_node ≡ some q
    → Frees w k (wake_with w bits k)
unfolding wake_with
wake_with-Frees q w bits k v e = record {
  kernel =
      wakeup_thread-IsKernel w k2 off ready_off
        (set_thread-IsKernel w _ k1 refl refl refl refl (suspend_node_remove-IsKernel w k v));
  free = wakeup_thread-suspend_node w k2 ∙ off;
  others = λ u h. wakeup_thread-others w u k2 h ∙ kept u h;
}
  where
    k1 : Kernel
    k1 = suspend_node_remove w k

    k2 : Kernel
    k2 = set_thread k1 w (record (k1.thread w) { event_recv_bits = bits })

    off : (k2.thread w).suspend_node ≡ none
    off = ground (arith, suspend_node_remove-off w k)

    ready_off : (k2.thread w).ready_node ≡ none
    ready_off = rw (suspend_node_remove-some w k q e) (ground (arith, v.held w q e))

    kept : (u : ℕ) → (w == u) ≡ false → k2.thread u ≡ k.thread u
    kept u h = rw (suspend_node_remove-some w k q e) (rw h)

send_one-Walking :
    (q w : ℕ) (ws : List ℕ) (set : ℕ) (k : Kernel) (need : Bool)
    → Walking q (w ∷ ws) set k
    → Walking q ws (send_one w (set, k, need)).0 (send_one w (set, k, need)).1
unfolding send_one
send_one-Walking q w ws set k need v = elim (Bool-cases (is_met k set w)) [
  | inl e ↦
      let f =
        wake_with-Frees q w (matched_bits (k.thread w).event_opt set (k.thread w).event_wanted) k
          v.kernel (v.waits w (ground arith)) in
      rw e (record {
        kernel = f.kernel;
        waits = λ u c.
            let ne : (w == u) ≡ false = ground (arith, v.once w, v.once u) in
            ap (λ a. a.suspend_node) (f.others u ne) ∙ v.waits u (ground arith);
        once = λ u. ground (arith, v.once u);
        unmet = λ u h c.
            let ne : (w == u) ≡ false = elim (Bool-cases (w == u)) [
              | inl same ↦ cc (
                h,
                f.free,
                ap
                    (λ a.
                      ((wake_with w
                          (matched_bits (k.thread w).event_opt set (k.thread w).event_wanted)
                          k).thread
                        a).suspend_node)
                    (==→eq w u same),
              )
              | inr other ↦ other
            ] in
            rw (f.others u ne) (
              matches_mono _ _ set _
                (flags_after-Subset (k.thread w).event_opt set (k.thread w).event_wanted)
                (v.unmet u (sym (ap (λ a. a.suspend_node) (f.others u ne)) ∙ h) (ground arith)));
      })
  | inr e ↦ rw e (record {
    kernel = v.kernel;
    waits = λ u c. v.waits u (ground arith);
    once = λ u. ground (arith, v.once u);
    unmet = λ u h c. elim (Bool-cases (w == u)) [
      | inl same ↦ subst (λ a. is_met k set a ≡ false) (==→eq w u same) e
      | inr other ↦ v.unmet u h (ground arith)
    ];
  })
]

send_walk-Walking :
    (q : ℕ) (l : List ℕ) (set : ℕ) (k : Kernel) (need : Bool)
    → Walking q l set k
    → Walking q [] (send_walk l (set, k, need)).0 (send_walk l (set, k, need)).1
unfolding send_walk
send_walk-Walking q [] set k need v = v
send_walk-Walking q (w ∷ ws) set k need v =
    send_walk-Walking q ws _ _ _ (send_one-Walking q w ws set k need v)

stands_on-le : (o : Option ℕ) (q : ℕ) → stands_on o q ≤ 1
stands_on-le none q = omega arith
stands_on-le (some p) q = ground arith

-- `send` keeps the kernel in order and leaves no thread waiting for flags that are set.
pub send-IsEvent : (flags : ℕ) (m : Event) → IsEvent m → IsEvent (send flags m).1
unfolding send
send-IsEvent flags (e, k) v = record { kernel = w.kernel; unmet = λ u h. w.unmet u h refl }
  where
    w :
        Walking e.suspend_list []
          (send_walk (k.suspended e.suspend_list) (bit_or e.set flags, k, false)).0
          (send_walk (k.suspended e.suspend_list) (bit_or e.set flags, k, false)).1
    w =
        send_walk-Walking e.suspend_list (k.suspended e.suspend_list) (bit_or e.set flags) k false
          (record {
            kernel = v.kernel;
            waits = λ u c.
                node_of_stands_on _ e.suspend_list
                  (omega (arith, v.kernel.waiting u e.suspend_list));
            once = λ u. omega (
              arith,
              v.kernel.waiting u e.suspend_list,
              stands_on-le (k.thread u).suspend_node e.suspend_list,
            );
            unmet = λ u h c. absurd (ground (arith, v.kernel.waiting u e.suspend_list));
          })

recv_blocks-IsEvent :
    (wanted : ℕ) (opt : EventOpt) (delay : Option ℕ) (cur : ℕ) (e : EventInner) (k : Kernel)
    → matches opt e.set wanted ≡ false
    → IsEvent (e, k)
    → IsEvent (
      e,
      suspend_current e.suspend_list delay cur
          (set_thread k cur (record (k.thread cur) { event_wanted = wanted; event_opt = opt })),
    )
recv_blocks-IsEvent wanted opt delay cur e k no_match v = record {
  kernel =
      suspend_current-IsKernel e.suspend_list cur delay k1
        (set_thread-IsKernel cur _ k refl refl refl refl v.kernel);
  unmet = λ u h. elim (Bool-cases (cur == u)) [
    | inl same ↦
        subst (λ a. is_met (suspend_current e.suspend_list delay cur k1) e.set a ≡ false)
          (==→eq cur u same) (rw (s.1, s.2) (ground (arith, no_match)))
    | inr other ↦
        let same_u : (suspend_current e.suspend_list delay cur k1).thread u ≡ k.thread u =
          s.0 u other ∙ (rw other) in
        rw same_u (v.unmet u (sym (ap (λ a. a.suspend_node) same_u) ∙ h))
  ];
}
  where
    k1 : Kernel
    k1 = set_thread k cur (record (k.thread cur) { event_wanted = wanted; event_opt = opt })

    s : Elsewhere cur k1 (suspend_current e.suspend_list delay cur k1)
    s = suspend_current-Elsewhere e.suspend_list cur delay k1

recv_inner-IsEvent :
    (wanted : ℕ) (opt : EventOpt) (timeout : Timeout) (cur : ℕ) (m : Event)
    → IsEvent m
    → IsEvent (recv_inner wanted opt timeout cur m).1
unfolding recv_inner
recv_inner-IsEvent wanted opt timeout cur (e, k) v = elim (Bool-cases (matches opt e.set wanted)) [
  | inl h ↦ rw h (record {
    kernel = v.kernel;
    unmet = λ u g. matches_mono _ _ e.set _ (flags_after-Subset opt e.set wanted) (v.unmet u g);
  })
  | inr h ↦ rw h (elim (Bool-cases (is_no_wait timeout)) [
    | inl w ↦ rw w v
    | inr w ↦ rw w (recv_blocks-IsEvent wanted opt (timer_delay timeout) cur e k h v)
  ])
]

recv_checked-IsEvent :
    (r : Result (Unit {0})) (wanted : ℕ) (opt : EventOpt) (timeout : Timeout) (cur : Option ℕ)
    (m : Event)
    → IsEvent m
    → IsEvent (recv_checked r wanted opt timeout cur m).1
unfolding recv_checked
recv_checked-IsEvent (err e) wanted opt timeout cur m v = v
recv_checked-IsEvent (ok _) wanted opt timeout none m v = v
recv_checked-IsEvent (ok _) wanted opt timeout (some cur) m v =
    recv_inner-IsEvent wanted opt timeout cur m v

-- `recv`, whether it returns or blocks, keeps the kernel in order and leaves no thread waiting for flags
-- that are set.
pub recv-IsEvent :
    (in_isr : Bool) (wanted : ℕ) (opt : EventOpt) (timeout : Timeout) (m : Event)
    → IsEvent m
    → IsEvent (recv in_isr wanted opt timeout m).1
unfolding recv
recv-IsEvent in_isr wanted opt timeout (e, k) v =
    recv_checked-IsEvent _ wanted opt timeout k.current (e, k) v
