-- ===== src/Log/Ring/Entries.antt =====
-- The buffer as the list of its entries, the oldest first.
use Prim.Native.Nat.{bit_and, bit_or}
use hc32f460jeua_evb.Base.{
  ℕ, ◌+◌, ◌*◌, ◌/◌, ◌%◌, ◌<◌, ◌≡◌, refl, sym, ap, ◌∙◌, subst, arith, Bool, true, false, not, ◌||◌,
  List, [], ◌∷◌, ◌++◌, append_assoc, append-nil, ltb, leb, ◌==◌, if◌then◌else◌, length,
  length-append,
}
use hc32f460jeua_evb.Base.Text.{Bytes}
use hc32f460jeua_evb.Base.Xor.{
  bit_and-ones, bit_and-ones_high, bit_and-pow, bit_or-zero, bit_or-pow,
}
use hc32f460jeua_evb.Log.Ring.{
  LogRing, entry_len_at, entry_truncated_at, advance, drop_oldest, drop_oldest_before, header,
  len_flag_truncated, len_mask,
}
use hc32f460jeua_evb.Log.Ring.Window.{Spells, advance-Spells}
use hc32f460jeua_evb.Log.Ring.Headers.{header_at-Spells}

pub record Entry : Type 0 where
  pub content : Bytes
  pub truncated : Bool

abbrev pub flag_of : Bool → ℕ
flag_of b = if b then len_flag_truncated else 0

abbrev pub header_of : Entry → ℕ
header_of e = length e.content + flag_of e.truncated

unfoldable pub encode : List Entry → Bytes
encode [] = []
encode (e ∷ es) = header_of e % 256 ∷ header_of e / 256 % 256 ∷ (e.content ++ encode es)

-- A length has 15 bits.
abbrev pub IsEntry : Entry → Type 0
IsEntry e = length e.content < 32768

pub encode-append : (es fs : List Entry) → encode (es ++ fs) ≡ encode es ++ encode fs
unfolding encode
encode-append [] fs = refl
encode-append (e ∷ es) fs =
    ap (λ b. header_of e % 256 ∷ header_of e / 256 % 256 ∷ b)
      (ap (λ b. e.content ++ b) (encode-append es fs)
        ∙ sym (append_assoc e.content (encode es) (encode fs)))

pub length-encode :
    (e : Entry) (es : List Entry)
    → length (encode (e ∷ es)) ≡ 2 + length e.content + length (encode es)
unfolding encode
length-encode e es = omega (arith, length-append e.content (encode es))

pub header_parts :
    (n : ℕ) (b : Bool)
    → n < 32768
    → (bit_and (n + flag_of b) len_mask ≡ n)
      × (not (bit_and (n + flag_of b) len_flag_truncated == 0) ≡ b)
      × ((n + flag_of b) % 256 + (n + flag_of b) / 256 % 256 * 256 ≡ n + flag_of b)
      × (bit_or (bit_and (n % 65536) len_mask) (flag_of b) ≡ n + flag_of b)
header_parts n true h =
    let swap : n + 32768 ≡ 32768 + n = omega arith in
    let w : n % 65536 ≡ n = omega arith in
    (
      rw swap (bit_and-ones_high 15 n h),
      ground (arith, bit_and-pow 15 (n + 32768)),
      omega arith,
      rw (w, bit_and-ones 15 n h) (bit_or-pow 15 n h),
    )
header_parts n false h =
    let z : n + 0 ≡ n = omega arith in
    let w : n % 65536 ≡ n = omega arith in
    (
      rw z (bit_and-ones 15 n h),
      ground (arith, bit_and-pow 15 (n + 0)),
      omega arith,
      rw (w, bit_and-ones 15 n h, z) (bit_or-zero n),
    )

-- What the header of an entry says, behind the entries that were passed.
pub entry_at :
    (r : LogRing) (passed : Bytes) (e : Entry) (es : List Entry) (more : Bytes) (pos : ℕ)
    → Spells r (passed ++ (encode (e ∷ es) ++ more))
    → IsEntry e
    → pos ≡ r.head + length passed
    → (entry_len_at r pos ≡ length e.content) × (entry_truncated_at r pos ≡ e.truncated)
unfolding encode entry_len_at entry_truncated_at
entry_at r passed e es more pos s i p =
    let (n, t, back, _) = header_parts (length e.content) e.truncated i in
    let h = header_at-Spells r passed _ _ (e.content ++ encode es ++ more) pos s p ∙ back in
    (rw h n, rw h t)

encoded_one :
    (e : Entry) (es : List Entry) (more : Bytes)
    → encode (e ∷ es) ++ more ≡ encode (e ∷ []) ++ (encode es ++ more)
unfolding encode
encoded_one e es more =
    ap (λ b. header_of e % 256 ∷ header_of e / 256 % 256 ∷ b)
      (append_assoc e.content (encode es) more
        ∙ ap (λ b. b ++ (encode es ++ more)) (sym (append-nil e.content)))

-- What dropping the oldest entry leaves, whatever stands behind the entries.
pub dropped-Spells :
    (r : LogRing) (e : Entry) (es : List Entry) (more : Bytes)
    → Spells r (encode (e ∷ es) ++ more)
    → Spells (advance (header + length e.content) r) (encode es ++ more)
      × (length (advance (header + length e.content) r).buf ≡ length r.buf)
      × ((advance (header + length e.content) r).dropped ≡ r.dropped)
      × ((advance (header + length e.content) r).len ≡ length (encode es ++ more))
      × (0 < length (encode es ++ more)
          → (advance (header + length e.content) r).head ≡ r.head + (header + length e.content))
dropped-Spells r e es more s =
    advance-Spells r (encode (e ∷ [])) (encode es ++ more) (header + length e.content)
      (subst (Spells r) (encoded_one e es more) s)
      (unfold encode in omega (arith, length-append e.content []))

counted-Spells :
    (r : LogRing) (w : Bytes) → Spells r w → Spells (record r { dropped = r.dropped + 1 }) w
counted-Spells r w s = record {
  front = s.front;
  rest = s.rest;
  split = s.split;
  at_head = s.at_head;
  sized = s.sized;
}

-- What an operation that gives up the oldest entry leaves.
pub record Dropped (r r' : LogRing) (e : Entry) (es : List Entry) (more : Bytes) : Type 0 where
  pub spells : Spells r' (encode es ++ more)
  pub capacity : length r'.buf ≡ length r.buf
  pub counted : r'.dropped ≡ r.dropped + 1
  pub len_is : r'.len ≡ length (encode es ++ more)
  pub moved : 0 < length (encode es ++ more) → r'.head ≡ r.head + (header + length e.content)

dropped_one :
    (r : LogRing) (e : Entry) (es : List Entry) (more : Bytes)
    → Spells r (encode (e ∷ es) ++ more)
    → Dropped r
        (advance (header + length e.content) (record r { dropped = r.dropped + 1 }))
        e
        es
        more
dropped_one r e es more s =
    let (a, b, c, d, m) =
      dropped-Spells (record r { dropped = r.dropped + 1 }) e es more (counted-Spells r _ s) in
    record { spells = a; capacity = b; counted = c; len_is = d; moved = m }

pub drop_oldest-Dropped :
    (r : LogRing) (e : Entry) (es : List Entry)
    → Spells r (encode (e ∷ es))
    → IsEntry e
    → (r' : LogRing) × (drop_oldest r ≡ (true, r')) × Dropped r r' e es []
unfolding drop_oldest
drop_oldest-Dropped r e es s i =
    let s' = subst (Spells r) (sym (append-nil (encode (e ∷ es)))) s in
    let (n, _) = entry_at r [] e es [] r.head s' i (omega arith) in
    let some_bytes : (r.len == 0) ≡ false = ground (arith, s.sized, length-encode e es) in
    (
      advance (header + length e.content) (record r { dropped = r.dropped + 1 }),
      rw (some_bytes, n) refl,
      dropped_one r e es [] s',
    )

pub drop_oldest-empty : (r : LogRing) → Spells r (encode []) → drop_oldest r ≡ (false, r)
unfolding drop_oldest encode
drop_oldest-empty r s = let z : (r.len == 0) ≡ true = ground (arith, s.sized) in rw z refl

pub drop_oldest_before-Dropped :
    (r : LogRing) (e : Entry) (es : List Entry) (more : Bytes) (before : ℕ)
    → Spells r (encode (e ∷ es) ++ more)
    → IsEntry e
    → before ≡ r.head + length (encode (e ∷ es))
    → (r' : LogRing) × (drop_oldest_before before r ≡ (true, r')) × Dropped r r' e es more
unfolding drop_oldest_before
drop_oldest_before-Dropped r e es more before s i b =
    let (n, _) = entry_at r [] e es more r.head s i (omega arith) in
    let l = length-encode e es in
    let k = length-append (encode (e ∷ es)) more in
    let first : (r.len == 0 || leb before r.head) ≡ false = ground (arith, s.sized, l, k) in
    let second : ltb before (r.head + (header + length e.content)) ≡ false = ground (arith, l) in
    (
      advance (header + length e.content) (record r { dropped = r.dropped + 1 }),
      rw (first, n, second) refl,
      dropped_one r e es more s,
    )

pub drop_oldest_before-empty :
    (r : LogRing) (before : ℕ) → before ≡ r.head → drop_oldest_before before r ≡ (false, r)
unfolding drop_oldest_before
drop_oldest_before-empty r before b = ground arith
