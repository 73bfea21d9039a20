-- ===== src/Rtos/Sched/Effects.antt =====
-- What the queue operations of src/rtos/sched.rs leave as it was.
use hc32f460jeua_evb.Base.{
  ℕ, ◌≡◌, refl, true, false, none, some, ◌==◌, is_nil, arith, Bool-cases, Option-cases, inl, inr,
  sym, ap, subst, ◌∙◌, ==→eq,
}
use hc32f460jeua_evb.Rtos.Kernel.{
  Kernel, ThreadInner, is_linked, ready_node_remove, ready_push_back, ready_node_remove-none,
  ready_node_remove-some,
}
use hc32f460jeua_evb.Rtos.Sched.{ready_insert, ready_remove, change_priority, set_priority}

-- What removing a thread from its ready queue leaves as it was.
pub record ReadyRemoved (t : ℕ) (k k' : Kernel) : Type 0 where
  pub suspended : k'.suspended ≡ k.suspended
  pub timers : k'.timers ≡ k.timers
  pub current : k'.current ≡ k.current
  pub mutexes : k'.mutex ≡ k.mutex
  pub off : (k'.thread t).ready_node ≡ none
  pub others : (u : ℕ) → (t == u) ≡ false → k'.thread u ≡ k.thread u
  pub state : (k'.thread t).state ≡ (k.thread t).state
  pub suspend_node : (k'.thread t).suspend_node ≡ (k.thread t).suspend_node
  pub priority : (k'.thread t).current_priority ≡ (k.thread t).current_priority
  pub wanted : (k'.thread t).event_wanted ≡ (k.thread t).event_wanted
  pub opt : (k'.thread t).event_opt ≡ (k.thread t).event_opt

node_removed : (t : ℕ) (k : Kernel) → ReadyRemoved t k (ready_node_remove t k)
node_removed t k = elim (Option-cases (k.thread t).ready_node) [
  | inl e ↦ rw (ready_node_remove-none t k e) (record {
    suspended = refl;
    timers = refl;
    current = refl;
    mutexes = refl;
    off = e;
    others = λ u h. refl;
    state = refl;
    suspend_node = refl;
    priority = refl;
    wanted = refl;
    opt = refl;
  })
  | inr (q, e) ↦ rw (ready_node_remove-some t k q e) (record {
    suspended = refl;
    timers = refl;
    current = refl;
    mutexes = refl;
    off = ground arith;
    others = λ u h. rw h;
    state = ground arith;
    suspend_node = ground arith;
    priority = ground arith;
    wanted = ground arith;
    opt = ground arith;
  })
]

pub ready_remove-ReadyRemoved : (t : ℕ) (k : Kernel) → ReadyRemoved t k (ready_remove t k)
unfolding ready_remove
ready_remove-ReadyRemoved t k =
    elim (Bool-cases (is_nil (k'.ready_table (k'.thread t).current_priority))) [
      | inl e ↦ rw e (record {
        suspended = r.suspended;
        timers = r.timers;
        current = r.current;
        mutexes = r.mutexes;
        off = r.off;
        others = r.others;
        state = r.state;
        suspend_node = r.suspend_node;
        priority = r.priority;
        wanted = r.wanted;
        opt = r.opt;
      })
      | inr e ↦ rw e r
    ]
  where
    k' : Kernel
    k' = ready_node_remove t k

    r : ReadyRemoved t k k'
    r = node_removed t k

-- A field that is kept at `t` reads as before everywhere, if the other threads are kept.
pub field_of_others {ℓ} :
    {A : Type ℓ} (f : ThreadInner → A) (t u : ℕ) (k k' : Kernel)
    → ((a : ℕ) → (t == a) ≡ false → k'.thread a ≡ k.thread a)
    → f (k'.thread t) ≡ f (k.thread t)
    → f (k'.thread u) ≡ f (k.thread u)
field_of_others f t u k k' others e = elim (Bool-cases (t == u)) [
  | inl same ↦ subst (λ a. f (k'.thread a) ≡ f (k.thread a)) (==→eq t u same) e
  | inr other ↦ ap f (others u other)
]

-- What inserting a thread into the ready table leaves as it was.
pub record ReadyInserted (t : ℕ) (k k' : Kernel) : Type 0 where
  pub suspended : k'.suspended ≡ k.suspended
  pub timers : k'.timers ≡ k.timers
  pub current : k'.current ≡ k.current
  pub mutexes : k'.mutex ≡ k.mutex
  pub on : (k'.thread t).ready_node ≡ some (k.thread t).current_priority
  pub error : (k'.thread t).error ≡ (k.thread t).error
  pub others : (u : ℕ) → (t == u) ≡ false → k'.thread u ≡ k.thread u
  pub state : (k'.thread t).state ≡ (k.thread t).state
  pub suspend_node : (k'.thread t).suspend_node ≡ (k.thread t).suspend_node
  pub priority : (k'.thread t).current_priority ≡ (k.thread t).current_priority

pub ready_insert-ReadyInserted : (t : ℕ) (k : Kernel) → ReadyInserted t k (ready_insert t k)
unfolding ready_insert ready_push_back
ready_insert-ReadyInserted t k = record {
  suspended = refl;
  timers = refl;
  current = refl;
  mutexes = refl;
  on = ground arith;
  error = ground arith;
  others = λ u h. rw h;
  state = ground arith;
  suspend_node = ground arith;
  priority = ground arith;
}

pub change_priority_same :
    (t prio : ℕ) (k : Kernel)
    → ((k.thread t).current_priority == prio) ≡ true
    → change_priority t prio k ≡ k
unfolding change_priority
change_priority_same t prio k e = rw e refl

-- What `change_priority` leaves as it was.
pub record Reprioritised (t prio : ℕ) (k k' : Kernel) : Type 0 where
  pub suspended : k'.suspended ≡ k.suspended
  pub mutexes : k'.mutex ≡ k.mutex
  pub current : k'.current ≡ k.current
  pub others : (u : ℕ) → (t == u) ≡ false → k'.thread u ≡ k.thread u
  pub timers : k'.timers ≡ k.timers
  pub state : (k'.thread t).state ≡ (k.thread t).state
  pub suspend_node : (k'.thread t).suspend_node ≡ (k.thread t).suspend_node
  pub priority : (k'.thread t).current_priority ≡ prio
  pub unlinked : (k.thread t).ready_node ≡ none → (k'.thread t).ready_node ≡ none
  pub linked : is_linked (k'.thread t).ready_node ≡ is_linked (k.thread t).ready_node

false-true : false ≡ true → ⊥
false-true h = cc

set_priority-Reprioritised :
    (t prio : ℕ) (k : Kernel) → Reprioritised t prio k (set_priority t prio k)
unfolding set_priority
set_priority-Reprioritised t prio k = record {
  suspended = refl;
  mutexes = refl;
  current = refl;
  others = λ u h. rw h;
  timers = refl;
  state = ground arith;
  suspend_node = ground arith;
  priority = ground arith;
  unlinked = λ h. ground (arith, h);
  linked = ground arith;
}

pub change_priority-Reprioritised :
    (t prio : ℕ) (k : Kernel) → Reprioritised t prio k (change_priority t prio k)
unfolding change_priority
change_priority-Reprioritised t prio k = elim (Bool-cases ((k.thread t).current_priority == prio)) [
  | inl e ↦ rw e (record {
    suspended = refl;
    mutexes = refl;
    current = refl;
    others = λ u h. refl;
    timers = refl;
    state = refl;
    suspend_node = refl;
    priority = ==→eq _ _ e;
    unlinked = λ h. h;
    linked = refl;
  })
  | inr e ↦ rw e (elim (Bool-cases (is_linked (k.thread t).ready_node)) [
    | inr off ↦ rw off (set_priority-Reprioritised t prio k)
    | inl on ↦ rw on (record {
      suspended = i.suspended ∙ p.suspended ∙ r.suspended;
      mutexes = i.mutexes ∙ p.mutexes ∙ r.mutexes;
      current = i.current ∙ p.current ∙ r.current;
      others = λ u h. i.others u h ∙ p.others u h ∙ r.others u h;
      timers = i.timers ∙ p.timers ∙ r.timers;
      state = i.state ∙ p.state ∙ r.state;
      suspend_node = i.suspend_node ∙ p.suspend_node ∙ r.suspend_node;
      priority = i.priority ∙ p.priority;
      unlinked = λ h. absurd (false-true (ap is_linked (sym h) ∙ on));
      linked = ap is_linked i.on ∙ sym on;
    })
  ])
]
  where
    r : ReadyRemoved t k (ready_remove t k)
    r = ready_remove-ReadyRemoved t k

    p : Reprioritised t prio (ready_remove t k) (set_priority t prio (ready_remove t k))
    p = set_priority-Reprioritised t prio (ready_remove t k)

    i :
        ReadyInserted t
          (set_priority t prio (ready_remove t k))
          (ready_insert t (set_priority t prio (ready_remove t k)))
    i = ready_insert-ReadyInserted t (set_priority t prio (ready_remove t k))
