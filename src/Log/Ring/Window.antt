-- ===== src/Log/Ring/Window.antt =====
-- What the used part of the buffer holds, and what the operations on bytes make of it.
use hc32f460jeua_evb.Base.{
  ℕ, zero, suc, ◌+◌, ◌≤◌, ◌<◌, ◌≡◌, refl, sym, ap, ◌∙◌, arith, [], ◌∷◌, ◌++◌, append_assoc, ltb,
  leb, length, take, drop, length-append, take-append, drop-append, Bool-cases, inl, inr,
}
use hc32f460jeua_evb.Base.Text.{Bytes}
use hc32f460jeua_evb.Log.Ring.{LogRing, compact, advance, written}

-- From `head` on, `len` bytes long, stands `w`.
pub record Spells (r : LogRing) (w : Bytes) : Type 0 where
  pub front : Bytes
  pub rest : Bytes
  pub split : r.buf ≡ front ++ (w ++ rest)
  pub at_head : length front ≡ r.head
  pub sized : length w ≡ r.len

pub capacity_parts :
    (r : LogRing) (w : Bytes) (s : Spells r w) → length r.buf ≡ r.head + r.len + length s.rest
capacity_parts r w s = omega (
  arith,
  ap length s.split,
  length-append s.front (w ++ s.rest),
  length-append w s.rest,
  s.at_head,
  s.sized,
)

drop_front : (r : LogRing) (w : Bytes) (s : Spells r w) → drop r.head r.buf ≡ w ++ s.rest
drop_front r w s = rw s.split (drop-append r.head s.front (w ++ s.rest) s.at_head)

compact-buf : (r : LogRing) (w : Bytes) → Spells r w → take r.len (drop r.head r.buf) ≡ w
compact-buf r w s = rw (drop_front r w s) (take-append r.len w s.rest s.sized)

length-drop_len : (n : ℕ) (xs : Bytes) → n ≤ length xs → length (drop n xs) + n ≡ length xs
length-drop_len zero xs h = omega arith
length-drop_len (suc n) [] h = absurd (omega arith)
length-drop_len (suc n) (x ∷ xs) h = omega (arith, length-drop_len n xs (omega arith))

-- Compacting moves what is used to the start.
pub compact-Spells :
    (r : LogRing) (w : Bytes)
    → Spells r w
    → Spells (compact r) w
      × ((compact r).head ≡ 0)
      × ((compact r).len ≡ r.len)
      × (length (compact r).buf ≡ length r.buf)
      × ((compact r).dropped ≡ r.dropped)
unfolding compact
compact-Spells r w s = elim (Bool-cases (ltb 0 r.head)) [
  | inl e ↦
      rw (e, compact-buf r w s)
        (
          record {
            front = [];
            rest = drop r.len r.buf;
            split = refl;
            at_head = refl;
            sized = s.sized;
          },
          refl,
          refl,
          omega (
            arith,
            length-append w (drop r.len r.buf),
            length-drop_len r.len r.buf (omega (arith, capacity_parts r w s)),
            s.sized,
          ),
          refl,
        )
  | inr e ↦ rw e (s, ground arith, refl, refl, refl)
]

-- What is given up in front is no longer spelled.
pub advance-Spells :
    (r : LogRing) (a b : Bytes) (step : ℕ)
    → Spells r (a ++ b)
    → length a ≡ step
    → Spells (advance step r) b
      × (length (advance step r).buf ≡ length r.buf)
      × ((advance step r).dropped ≡ r.dropped)
      × ((advance step r).len ≡ length b)
      × (0 < length b → (advance step r).head ≡ r.head + step)
advance-Spells r a b step s e =
    let l = length-append a b in
    let c = capacity_parts r (a ++ b) s in
    elim (Bool-cases (leb (length r.buf) (r.head + step))) [
      | inl f ↦
          let none_left : length b ≡ 0 = ground (arith, l, c, e, s.sized) in
          rw f (
            record {
              front = [];
              rest = r.buf;
              split = sym (ap (λ x. x ++ r.buf) (empty b none_left));
              at_head = refl;
              sized = none_left;
            },
            refl,
            refl,
            sym none_left,
            λ x. absurd (omega (arith, none_left)),
          )
      | inr f ↦ rw f (
        record {
          front = s.front ++ a;
          rest = s.rest;
          split =
              s.split
              ∙ ap (λ x. s.front ++ x) (append_assoc a b s.rest)
              ∙ sym (append_assoc s.front a (b ++ s.rest));
          at_head = omega (arith, length-append s.front a, s.at_head, e);
          sized = omega (arith, l, e, s.sized);
        },
        refl,
        refl,
        omega (arith, l, e, s.sized),
        λ x. refl,
      )
    ]
  where
    empty : (x : Bytes) → length x ≡ 0 → x ≡ []
    empty [] h = refl
    empty (y ∷ x) h = absurd (omega arith)

pub two_parts :
    (r : LogRing) (a b : Bytes) (s : Spells r (a ++ b)) → r.buf ≡ (s.front ++ a) ++ (b ++ s.rest)
two_parts r a b s =
    s.split
    ∙ ap (λ x. s.front ++ x) (append_assoc a b s.rest)
    ∙ sym (append_assoc s.front a (b ++ s.rest))

-- Bytes that fit are written behind what is there.
pub written-Spells :
    (r : LogRing) (w bytes : Bytes)
    → Spells r w
    → r.head + r.len + length bytes ≤ length r.buf
    → Spells (written bytes r) (w ++ bytes) × (length (written bytes r).buf ≡ length r.buf)
written-Spells r w bytes s fits =
    let tail : length (s.front ++ w) ≡ r.head + r.len =
      omega (arith, length-append s.front w, s.at_head, s.sized) in
    let buf = s.split ∙ sym (append_assoc s.front w s.rest) in
    let kept : take (r.head + r.len) r.buf ≡ s.front ++ w =
      ap (take (r.head + r.len)) buf ∙ take-append (r.head + r.len) (s.front ++ w) s.rest tail in
    let k = r.head + r.len + length bytes in
    (
      record {
        front = s.front;
        rest = drop k r.buf;
        split =
            ap (λ x. x ++ (bytes ++ drop k r.buf)) kept
            ∙ append_assoc s.front w (bytes ++ drop k r.buf)
            ∙ ap (λ x. s.front ++ x) (sym (append_assoc w bytes (drop k r.buf)));
        at_head = s.at_head;
        sized = omega (arith, length-append w bytes, s.sized);
      },
      omega (
        arith,
        ap length kept,
        tail,
        length-append (take (r.head + r.len) r.buf) (bytes ++ drop k r.buf),
        length-append bytes (drop k r.buf),
        length-drop_len k r.buf fits,
      ),
    )
