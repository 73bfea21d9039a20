-- ===== src/Log/Ring/Headers.antt =====
-- The two bytes in front of an entry, in the used part of the buffer of src/logring.rs
use hc32f460jeua_evb.Base.{
  ℕ, zero, suc, ◌+◌, ◌*◌, ◌≡◌, refl, sym, ap, ap₂, ◌∙◌, arith, false, [], ◌∷◌, ◌++◌, append_assoc,
  length, take, drop, get_or, length-append, take-append, drop-append, drop-drop,
}
use hc32f460jeua_evb.Base.Text.{Bytes}
use hc32f460jeua_evb.Log.Ring.{LogRing, header_at, header}
use hc32f460jeua_evb.Log.Ring.Window.{Spells, two_parts}

get_or-behind :
    (xs ys : Bytes) (n k : ℕ) → length xs ≡ n → get_or (xs ++ ys) (n + k) 0 ≡ get_or ys k 0
get_or-behind [] ys n k e = let z : n + k ≡ k = omega (arith, e) in rw z refl
get_or-behind (x ∷ xs) ys zero k e = absurd (omega arith)
get_or-behind (x ∷ xs) ys (suc n) k e =
    let z : suc n + k ≡ suc (n + k) = omega arith in rw z (get_or-behind xs ys n k (omega arith))

-- The header behind the entries that were passed.
pub header_at-Spells :
    (r : LogRing) (passed : Bytes) (lo hi : ℕ) (more : Bytes) (pos : ℕ)
    → Spells r (passed ++ lo ∷ hi ∷ more)
    → pos ≡ r.head + length passed
    → header_at r pos ≡ lo + hi * 256
unfolding header_at
header_at-Spells r passed lo hi more pos s e =
    let at_pos : length (s.front ++ passed) ≡ pos =
      omega (arith, length-append s.front passed, s.at_head, e) in
    let buf = two_parts r passed (lo ∷ hi ∷ more) s in
    let there = get_or-behind (s.front ++ passed) (lo ∷ hi ∷ (more ++ s.rest)) pos in
    let z : pos ≡ pos + 0 = omega arith in
    omega (
      arith,
      ap (λ k. get_or r.buf k 0) z,
      ap (λ b. get_or b (pos + 0) 0) buf,
      ap (λ b. get_or b (pos + 1) 0) buf,
      there 0 at_pos,
      there 1 at_pos,
    )

abbrev pub with_header : ℕ → ℕ → ℕ → LogRing → LogRing
with_header pos lo hi r = record r {
  buf = take pos r.buf ++ (lo ∷ hi ∷ drop (pos + header) r.buf);
  writing = false;
}

-- The header is filled in behind the entries that are complete.
pub with_header-Spells :
    (r : LogRing) (passed : Bytes) (x y lo hi : ℕ) (more : Bytes) (pos : ℕ)
    → Spells r (passed ++ x ∷ y ∷ more)
    → pos ≡ r.head + length passed
    → Spells (with_header pos lo hi r) (passed ++ lo ∷ hi ∷ more)
      × (length (with_header pos lo hi r).buf ≡ length r.buf)
with_header-Spells r passed x y lo hi more pos s e =
    let at_pos : length (s.front ++ passed) ≡ pos =
      omega (arith, length-append s.front passed, s.at_head, e) in
    let behind = x ∷ y ∷ (more ++ s.rest) in
    let buf = two_parts r passed (x ∷ y ∷ more) s in
    let kept = ap (take pos) buf ∙ take-append pos (s.front ++ passed) behind at_pos in
    let moved =
      drop-drop pos 2 r.buf
      ∙ ap (drop 2) (ap (drop pos) buf ∙ drop-append pos (s.front ++ passed) behind at_pos) in
    let now = ap₂ (λ a b. a ++ (lo ∷ hi ∷ b)) kept moved in
    let sized = length-append passed (x ∷ y ∷ more) in
    (
      record {
        front = s.front;
        rest = s.rest;
        split =
            now
            ∙ append_assoc s.front passed (lo ∷ hi ∷ (more ++ s.rest))
            ∙ ap (λ b. s.front ++ b) (sym (append_assoc passed (lo ∷ hi ∷ more) s.rest));
        at_head = s.at_head;
        sized = omega (arith, sized, length-append passed (lo ∷ hi ∷ more), s.sized);
      },
      omega (
        arith,
        ap length now,
        length-append (s.front ++ passed) (lo ∷ hi ∷ (more ++ s.rest)),
        ap length buf,
        length-append (s.front ++ passed) behind,
      ),
    )

-- The content behind a header
pub content-Spells :
    (r : LogRing) (passed : Bytes) (x y : ℕ) (content more : Bytes) (pos n : ℕ)
    → Spells r (passed ++ x ∷ y ∷ (content ++ more))
    → pos ≡ r.head + length passed
    → length content ≡ n
    → take n (drop (pos + header) r.buf) ≡ content
content-Spells r passed x y content more pos n s e l =
    let at_pos : length (s.front ++ passed) ≡ pos =
      omega (arith, length-append s.front passed, s.at_head, e) in
    let behind = x ∷ y ∷ ((content ++ more) ++ s.rest) in
    let buf = two_parts r passed (x ∷ y ∷ (content ++ more)) s in
    let moved =
      drop-drop pos 2 r.buf
      ∙ ap (drop 2) (ap (drop pos) buf ∙ drop-append pos (s.front ++ passed) behind at_pos) in
    ap (take n) (moved ∙ append_assoc content more s.rest)
    ∙ take-append n content (more ++ s.rest) l
