-- ===== src/Rtos/Kernel.antt =====
-- The state that the kernel under src/rtos keeps: thread control blocks, the ready table with its
-- bitmap, the lists of waiting threads, the timers, and the switch request for PendSV.
-- A thread, a timer, a mutex and a list head are their addresses. An intrusive list is the list of
-- the addresses of its nodes' owners; a node's `linked` flag says also on which list it stands, so
-- that `node.remove()` is the removal from that list.
use hc32f460jeua_evb.Base.{
  ℕ, ◌++◌, ◌≡◌, refl, Bool, false, true, Option, none, some, List, [], ◌∷◌, ℤ, update, erase,
}
use hc32f460jeua_evb.Rtos.Timer.{Timers}

-- `TS_INIT` to `TS_CLOSE`
pub data ThreadState : Type 0 where
  ts_init ts_ready ts_running ts_suspend ts_close : ThreadState

pub data EventOpt : Type 0 where
  opt_and and_clear opt_or or_clear : EventOpt

pub record ThreadInner : Type 0 where
  pub sp : ℕ
  pub stack_addr : ℕ
  pub stack_size : ℕ
  -- the four lowest words of the stack
  pub stack_bottom : List ℕ
  pub init_priority : ℕ
  pub current_priority : ℕ
  pub init_tick : ℕ
  pub remaining_tick : ℕ
  pub state : ThreadState
  pub yielded : Bool
  pub error : ℤ
  -- the priority of the ready queue that `ready_node` stands on
  pub ready_node : Option ℕ
  -- the address of the list that `suspend_node` stands on
  pub suspend_node : Option ℕ
  pub thread_timer : ℕ
  -- the mutexes on `taken_list`
  pub taken_list : List ℕ
  pub pending_mutex : Option ℕ
  pub event_wanted : ℕ
  pub event_opt : EventOpt
  pub event_recv_bits : ℕ

pub record MutexInner : Type 0 where
  pub suspend_list : ℕ
  pub owner : Option ℕ
  pub hold : ℕ

pub record Kernel : Type 0 where
  pub thread : ℕ → ThreadInner
  -- `READY_TABLE`, `READY_GROUP` and `CURRENT`
  pub ready_table : ℕ → List ℕ
  pub ready_group : ℕ
  pub current : Option ℕ
  -- the suspended threads by the address of the list head, `SLEEP_LIST` among them
  pub suspended : ℕ → List ℕ
  pub mutex : ℕ → MutexInner
  pub timers : Timers
  -- `SWITCH_FLAG`, `FROM_SP_ADDR` and `TO_SP_ADDR`
  pub switch_flag : Bool
  pub switch_from : Option ℕ
  pub switch_to : Option ℕ

abbrev pub set_thread : Kernel → ℕ → ThreadInner → Kernel
set_thread k t inner = record k { thread = update k.thread t inner }

abbrev pub is_linked : Option ℕ → Bool
is_linked none = false
is_linked (some q) = true

-- `(*t).ready_node.remove()`
unlink_ready : ℕ → Option ℕ → Kernel → Kernel
unlink_ready t none k = k
unlink_ready t (some p) k = record k {
  ready_table = update k.ready_table p (erase t (k.ready_table p));
  thread = update k.thread t (record (k.thread t) { ready_node = none });
}

unfoldable pub ready_node_remove : ℕ → Kernel → Kernel
unfolding unlink_ready
ready_node_remove t k = unlink_ready t (k.thread t).ready_node k

-- `queue.push_back(&mut (*t).ready_node)` on the queue of priority `p`
unfoldable pub ready_push_back : ℕ → ℕ → Kernel → Kernel
ready_push_back p t k = record k {
  ready_table = update k.ready_table p (k.ready_table p ++ t ∷ []);
  thread = update k.thread t (record (k.thread t) { ready_node = some p });
}

-- `(*t).suspend_node.remove()`
unlink_suspended : ℕ → Option ℕ → Kernel → Kernel
unlink_suspended t none k = k
unlink_suspended t (some q) k = record k {
  suspended = update k.suspended q (erase t (k.suspended q));
  thread = update k.thread t (record (k.thread t) { suspend_node = none });
}

unfoldable pub suspend_node_remove : ℕ → Kernel → Kernel
unfolding unlink_suspended
suspend_node_remove t k = unlink_suspended t (k.thread t).suspend_node k

-- The node of `t` is put on the list at `q`, which becomes `l`.
unfoldable pub suspend_link : ℕ → ℕ → List ℕ → Kernel → Kernel
suspend_link q t l k = record k {
  suspended = update k.suspended q l;
  thread = update k.thread t (record (k.thread t) { suspend_node = some q });
}

-- The two cases of a removal as equations.
module _ (t : ℕ) (k : Kernel) where
  pub ready_node_remove-none : (k.thread t).ready_node ≡ none → ready_node_remove t k ≡ k
  unfolding ready_node_remove
  ready_node_remove-none e = rw (e, unlink_ready)

  pub ready_node_remove-some :
      (p : ℕ)
      → (k.thread t).ready_node ≡ some p
      → ready_node_remove t k ≡ record k {
        ready_table = update k.ready_table p (erase t (k.ready_table p));
        thread = update k.thread t (record (k.thread t) { ready_node = none });
      }
  unfolding ready_node_remove
  ready_node_remove-some p e = rw (e, unlink_ready)

  pub suspend_node_remove-none : (k.thread t).suspend_node ≡ none → suspend_node_remove t k ≡ k
  unfolding suspend_node_remove
  suspend_node_remove-none e = rw (e, unlink_suspended)

  pub suspend_node_remove-some :
      (q : ℕ)
      → (k.thread t).suspend_node ≡ some q
      → suspend_node_remove t k ≡ record k {
        suspended = update k.suspended q (erase t (k.suspended q));
        thread = update k.thread t (record (k.thread t) { suspend_node = none });
      }
  unfolding suspend_node_remove
  suspend_node_remove-some q e = rw (e, unlink_suspended)

pub of_linked : (o : Option ℕ) → is_linked o ≡ true → (q : ℕ) × (o ≡ some q)
of_linked none h = cc
of_linked (some q) h = (q, refl)

pub of_unlinked : (o : Option ℕ) → is_linked o ≡ false → o ≡ none
of_unlinked none h = refl
of_unlinked (some q) h = cc
