-- ===== src/Rtos/Ipc/Mailbox/Deque.antt =====
-- The ring of a mailbox is a bounded double-ended queue: `urgent` puts at the front, `send` at the back,
-- `recv` takes from the front.
use native.Mathlib.Nat.{mod-lt, mod-add-mod, mod-eq_of_lt, add_assoc, mod-eq-sub-mod}
use hc32f460jeua_evb.Base.{
  ℕ, zero, suc, ◌+◌, ◌-◌, ◌%◌, ◌≤◌, ◌<◌, ◌≡◌, refl, sym, ap, ap₂, ◌∙◌, Bool, true, false, List, [],
  ◌∷◌, ◌++◌, ltb, ◌==◌, if◌then◌else◌, update, arith, Bool-cases, inl, inr, ◌⊎◌,
}
use hc32f460jeua_evb.Rtos.Kernel.{Kernel}
use hc32f460jeua_evb.Rtos.Ipc.{Timeout, Error, ok, err, Outcome, returns, blocks, is_no_wait}
use hc32f460jeua_evb.Rtos.Ipc.Mailbox.{MailboxInner, put, send_turn, recv_turn}

-- The `n` messages from slot `i` on, going round at `size`.
pub window : {A : Type 0} → (ℕ → A) → ℕ → ℕ → ℕ → List A
window pool size zero i = []
window pool size (suc n) i = pool i ∷ window pool size n ((i + 1) % size)

abbrev pub contents : {A : Type 0} → MailboxInner A → List A
contents mb = window mb.pool mb.size mb.count mb.out_idx

pub record IsRing {A : Type 0} (mb : MailboxInner A) : Type 0 where
  pub size_pos : 0 < mb.size
  pub bounded : mb.count ≤ mb.size
  pub out_lt : mb.out_idx < mb.size
  pub place : mb.in_idx ≡ (mb.out_idx + mb.count) % mb.size

module _ {A : Type 0} where
  -- A slot outside the window may change.
  window-update :
      (pool : ℕ → A) (size n i j : ℕ) (x : A)
      → i < size
      → ((d : ℕ) → d < n → ((i + d) % size == j) ≡ false)
      → window (update pool j x) size n i ≡ window pool size n i
  unfolding window
  window-update pool size zero i j x lt out = refl
  window-update pool size (suc n) i j x lt out =
      ap₂ (λ a b. a ∷ b) (rw (here) refl)
        (window-update pool size n ((i + 1) % size) j x (mod-lt (i + 1) (omega arith))
          (λ d l. rw (mod-add-mod (i + 1) size d, add_assoc i 1 d) (out (1 + d) (omega arith))))
    where
      here : (j == i) ≡ false
      here = ground (arith, out 0 (omega arith), mod-eq_of_lt {n = i} {m = size} lt)

  window-snoc :
      (pool : ℕ → A) (size n i : ℕ)
      → i < size
      → window pool size (suc n) i ≡ window pool size n i ++ pool ((i + n) % size) ∷ []
  unfolding window
  window-snoc pool size zero i lt =
      ap (λ a. pool a ∷ [])
        (sym (ap (λ a. a % size) (omega arith) ∙ mod-eq_of_lt {n = i} {m = size} lt))
  window-snoc pool size (suc n) i lt =
      ap (λ l. pool i ∷ l)
        (window-snoc pool size n ((i + 1) % size) (mod-lt (i + 1) (omega arith))
          ∙ ap (λ a. window pool size n ((i + 1) % size) ++ pool a ∷ [])
              (mod-add-mod (i + 1) size n ∙ ap (λ a. a % size) (omega arith)))

add_one : (n : ℕ) → n + 1 ≡ suc n
add_one n = omega arith

zero_of : (n : ℕ) → n ≤ 0 → n ≡ 0
zero_of n h = omega arith

sub_one : (n : ℕ) → n ≡ suc n - 1
sub_one n = omega arith

module _ {A : Type 0} (pool : ℕ → A) (size : ℕ) where
  window_zero : (i : ℕ) → window pool size 0 i ≡ []
  unfolding window
  window_zero i = refl

  window_more :
      (n i : ℕ) → window pool size (n + 1) i ≡ pool i ∷ window pool size n ((i + 1) % size)
  unfolding window
  window_more n i = ap (λ m. window pool size m i) (add_one n)

  window_pos :
      (n i : ℕ) → 0 < n → window pool size n i ≡ pool i ∷ window pool size (n - 1) ((i + 1) % size)
  unfolding window
  window_pos zero i h = absurd (omega arith)
  window_pos (suc n) i h = ap (λ m. pool i ∷ window pool size m ((i + 1) % size)) (sub_one n)

-- The specification: what a queue of capacity `cap` does.
abbrev pub deque_send : {A : Type 0} → Bool → A → List A → List A
deque_send true msg l = msg ∷ l
deque_send false msg l = l ++ msg ∷ []

-- One round at most: the remainder is a subtraction.
wrap_once : (a size : ℕ) → a < size + size → a % size ≡ (if ltb a size then a else a - size)
wrap_once a size h = elim (Bool-cases (ltb a size)) [
  | inl l ↦ rw l (mod-eq_of_lt {n = a} {m = size} (ground arith))
  | inr l ↦ rw l (
      mod-eq-sub-mod {n = a} {m = size} (ground arith)
      ∙ mod-eq_of_lt {n = a - size} {m = size} (omega arith))
]

-- Two places of the ring are different slots.
other_slot :
    (size out d n : ℕ)
    → out < size
    → d < n
    → n < size
    → ((out + d) % size == (out + n) % size) ≡ false
other_slot size out d n lt l room =
    rw (wrap_once (out + d) size (omega arith), wrap_once (out + n) size (omega arith))
      (ground arith)

abbrev step_back : ℕ → ℕ → ℕ
step_back size out = if out == 0 then size - 1 else out - 1

module _ (size out : ℕ) (lt : out < size) where
  step_back-lt : step_back size out < size
  step_back-lt = ground arith

  step_back-next : (step_back size out + 1) % size ≡ out
  step_back-next = wrap_once (step_back size out + 1) size (ground arith) ∙ ground arith

  step_back-place : (n : ℕ) → (step_back size out + (n + 1)) % size ≡ (out + n) % size
  step_back-place n =
      ap (λ a. a % size) (omega arith)
      ∙ sym (mod-add-mod (step_back size out + 1) size n)
      ∙ ap (λ a. (a + n) % size) step_back-next

  step_back-free : (d : ℕ) → d + 1 < size → ((out + d) % size == step_back size out) ≡ false
  step_back-free d h = rw (wrap_once (out + d) size (omega arith)) (ground arith)

module _ {A : Type 0} where
  put-contents :
      (urgent : Bool) (msg : A) (mb : MailboxInner A)
      → IsRing mb
      → mb.count < mb.size
      → IsRing (put urgent msg mb)
        × (contents (put urgent msg mb) ≡ deque_send urgent msg (contents mb))
  unfolding put
  put-contents true msg mb v room = (
    record {
      size_pos = v.size_pos;
      bounded = omega arith;
      out_lt = step_back-lt mb.size mb.out_idx v.out_lt;
      place = v.place ∙ sym (step_back-place mb.size mb.out_idx v.out_lt mb.count);
    },
    window_more (update mb.pool out msg) mb.size mb.count out
        ∙ ap₂ (λ x l. x ∷ l) (ground arith)
            (ap (window (update mb.pool out msg) mb.size mb.count)
                (step_back-next mb.size mb.out_idx v.out_lt)
              ∙ window-update mb.pool mb.size mb.count mb.out_idx out msg v.out_lt
                  (λ d l. step_back-free mb.size mb.out_idx v.out_lt d (omega (arith, room)))),
  )
    where
      out : ℕ
      out = step_back mb.size mb.out_idx
  put-contents false msg mb v room = (
    record {
      size_pos = v.size_pos;
      bounded = omega arith;
      out_lt = v.out_lt;
      place =
          ap (λ a. (a + 1) % mb.size) v.place
          ∙ mod-add-mod (mb.out_idx + mb.count) mb.size 1
          ∙ ap (λ a. a % mb.size) (omega arith);
    },
    ap (λ n. window (update mb.pool mb.in_idx msg) mb.size n mb.out_idx) (add_one mb.count)
        ∙ window-snoc (update mb.pool mb.in_idx msg) mb.size mb.count mb.out_idx v.out_lt
        ∙ ap₂ (λ l x. l ++ x ∷ [])
            (window-update mb.pool mb.size mb.count mb.out_idx mb.in_idx msg v.out_lt
              (λ d l. rw v.place (other_slot mb.size mb.out_idx d mb.count v.out_lt l room)))
            (rw v.place (ground arith)),
  )

  get-contents :
      (mb : MailboxInner A)
      → IsRing mb
      → 0 < mb.count
      → IsRing (record mb { out_idx = (mb.out_idx + 1) % mb.size; count = mb.count - 1 })
        × (contents mb
            ≡ mb.pool mb.out_idx
              ∷ window mb.pool mb.size (mb.count - 1) ((mb.out_idx + 1) % mb.size))
  get-contents mb v some_left = (
    record {
      size_pos = v.size_pos;
      bounded = omega (arith, v.bounded);
      out_lt = mod-lt (mb.out_idx + 1) v.size_pos;
      place =
          v.place
          ∙ ap (λ a. a % mb.size) (omega arith)
          ∙ sym (mod-add-mod (mb.out_idx + 1) mb.size (mb.count - 1));
    },
    window_pos mb.pool mb.size mb.count mb.out_idx some_left,
  )

-- A turn of `send_impl`, from the ring `mb` to the ring `mb'`: the deque takes the message, or it is full.
abbrev pub Sends :
    {A : Type 0}
    → Bool
    → A
    → Timeout
    → MailboxInner A
    → MailboxInner A
    → Outcome (Unit {0})
    → Type 0
Sends urgent msg timeout mb mb' o =
    (mb.count < mb.size)
      × (o ≡ returns (ok tt))
      × (contents mb' ≡ deque_send urgent msg (contents mb))
    ⊎ (mb.count ≡ mb.size)
      × (o ≡ (if is_no_wait timeout then returns (err Error.full) else blocks))
      × (mb' ≡ mb)

-- A turn of `recv`: the deque gives its first message, or it is empty.
abbrev pub Receives : {A : Type 0} → Timeout → MailboxInner A → MailboxInner A → Outcome A → Type 0
Receives {A} timeout mb mb' o =
    ((x : A) × (o ≡ returns (ok x)) × (contents mb ≡ x ∷ contents mb'))
    ⊎ (contents mb ≡ [])
      × (o ≡ (if is_no_wait timeout then returns (err Error.timed_out) else blocks))
      × (mb' ≡ mb)

module _ {A : Type 0} where
  -- A turn of `send_impl` is a step of the bounded deque.
  pub send_turn-Sends :
      (urgent : Bool) (msg : A) (timeout : Timeout) (cur : ℕ) (mb : MailboxInner A) (k : Kernel)
      → IsRing mb
      → IsRing (send_turn urgent msg timeout cur mb k).2
        × Sends urgent msg timeout mb
            (send_turn urgent msg timeout cur mb k).2
            (send_turn urgent msg timeout cur mb k).0
  unfolding send_turn
  send_turn-Sends urgent msg timeout cur mb k v = elim (Bool-cases (ltb mb.count mb.size)) [
    | inl room ↦
        let p = put-contents urgent msg mb v (ground arith) in
        rw room (p.0, inl (ground arith, refl, p.1))
    | inr full ↦ rw full (elim (Bool-cases (is_no_wait timeout)) [
      | inl w ↦ rw w (v, inr (ground (arith, v.bounded), refl, refl))
      | inr w ↦ rw w (v, inr (ground (arith, v.bounded), refl, refl))
    ])
  ]

  -- A turn of `recv` is a step of the bounded deque.
  pub recv_turn-Receives :
      (timeout : Timeout) (cur : ℕ) (mb : MailboxInner A) (k : Kernel)
      → IsRing mb
      → IsRing (recv_turn timeout cur mb k).2
        × Receives timeout mb (recv_turn timeout cur mb k).2 (recv_turn timeout cur mb k).0
  unfolding recv_turn
  recv_turn-Receives timeout cur mb k v = elim (Bool-cases (ltb 0 mb.count)) [
    | inl some_left ↦
        let g = get-contents mb v (ground arith) in
        rw some_left (g.0, inl (mb.pool mb.out_idx, refl, g.1))
    | inr empty ↦
        let none_left : contents mb ≡ [] =
          ap (λ n. window mb.pool mb.size n mb.out_idx) (zero_of mb.count (ground arith))
          ∙ window_zero mb.pool mb.size mb.out_idx in
        rw empty (elim (Bool-cases (is_no_wait timeout)) [
          | inl w ↦ rw w (v, inr (none_left, refl, refl))
          | inr w ↦ rw w (v, inr (none_left, refl, refl))
        ])
  ]
