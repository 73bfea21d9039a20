-- ===== src/Log/Ring/Begin.antt =====
-- Entries begun and committed.
use Prim.Native.Nat.{bit_and, bit_or}
use hc32f460jeua_evb.Base.{
  ℕ, zero, suc, ◌+◌, ◌-◌, ◌/◌, ◌%◌, ◌≤◌, ◌<◌, ◌≡◌, refl, sym, ap, ◌∙◌, subst, arith, Bool, true,
  false, Option, none, some, List, [], ◌∷◌, ◌++◌, append_assoc, append-nil, leb, leb→le, length,
  length-append, All, All-append, Bool-cases, inl, inr,
}
use hc32f460jeua_evb.Base.Text.{Bytes}
use hc32f460jeua_evb.Log.Ring.{
  LogRing, EntryMark, compact, reserved, drop_oldest, begin_loop, begin_entry, commit_entry, header,
  len_mask,
}
use hc32f460jeua_evb.Log.Ring.Window.{Spells, capacity_parts, compact-Spells}
use hc32f460jeua_evb.Log.Ring.Headers.{with_header-Spells}
use hc32f460jeua_evb.Log.Ring.Entries.{
  Entry, IsEntry, flag_of, encode, encode-append, length-encode, header_parts, drop_oldest-Dropped,
}
use hc32f460jeua_evb.Log.Ring.Building.{
  Building, Building-len, evict, evict_goes, evict_stays, few_entries,
}

-- A buffer with no entry under construction
pub record Holds (r : LogRing) (es : List Entry) : Type 0 where
  pub spells : Spells r (encode es)
  pub entries : All IsEntry es
  pub small : length r.buf ≤ 32767

reserved-Building :
    (r : LogRing) (es : List Entry)
    → Spells r (encode es)
    → All IsEntry es
    → r.head + r.len + 2 ≤ length r.buf
    → Building (reserved r).1 es [] (reserved r).0
reserved-Building r es s i h =
    let (x, y, more, e) = two_bytes s.rest (omega (arith, capacity_parts r (encode es) s)) in
    record {
      lo = x;
      hi = y;
      spells = record {
        front = s.front;
        rest = more;
        split =
            s.split
            ∙ ap (λ b. s.front ++ (encode es ++ b)) e
            ∙ ap (λ b. s.front ++ b) (sym (append_assoc (encode es) (x ∷ y ∷ []) more));
        at_head = s.at_head;
        sized = omega (arith, length-append (encode es) (x ∷ y ∷ []), s.sized);
      };
      entries = i;
      start = omega (arith, s.sized);
      len = refl;
    }
  where
    two_bytes : (b : Bytes) → 2 ≤ length b → (x : ℕ) × (y : ℕ) × (more : Bytes) × (b ≡ x ∷ y ∷ more)
    two_bytes [] h = absurd (omega arith)
    two_bytes (x ∷ []) h = absurd (omega arith)
    two_bytes (x ∷ y ∷ more) h = (x, y, more, refl)

-- An entry is begun behind the entries that stay.
pub record Begun (cap : ℕ) (r : LogRing) (es : List Entry) (mark : EntryMark) (r' : LogRing)
    : Type 0 where
  pub building : Building r' (evict cap 2 es).1 [] mark
  pub whole : mark.truncated ≡ false
  pub writing : r'.writing ≡ true
  pub counted : r'.dropped ≡ r.dropped + (evict cap 2 es).0
  pub capacity : length r'.buf ≡ length r.buf

abbrev Begins : ℕ → LogRing → List Entry → Type 0
Begins fuel r es =
    (mark : EntryMark) × (r' : LogRing) × (begin_loop fuel r ≡ some (some mark, r'))
    × Begun (length r.buf) r es mark r'

abbrev fits_header : LogRing → Bool
fits_header r = leb header (length r.buf - r.len)

turn_reserves :
    (fuel : ℕ) (r : LogRing) (es : List Entry)
    → Spells r (encode es)
    → All IsEntry es
    → fits_header (compact r) ≡ true
    → Begins (suc fuel) r es
unfolding begin_loop
turn_reserves fuel r es s i fits =
    let (s1, h, l, c, d) = compact-Spells r (encode es) s in
    let p = capacity_parts (compact r) (encode es) s1 in
    let enough = leb→le _ _ fits in
    let stay = evict_stays (length r.buf) 2 es (omega (arith, enough, s1.sized, c)) in
    (
      (reserved (compact r)).0,
      (reserved (compact r)).1,
      rw fits refl,
      record {
        building = rw stay (reserved-Building (compact r) es s1 i (omega (arith, enough, h)));
        whole = refl;
        writing = refl;
        counted = rw stay (omega (arith, d));
        capacity = c;
      },
    )

turn_drops :
    (fuel : ℕ) (r : LogRing) (e : Entry) (es : List Entry)
    → Spells r (encode (e ∷ es))
    → All IsEntry (e ∷ es)
    → fits_header (compact r) ≡ false
    → ((r2 : LogRing) → Spells r2 (encode es) → length r2.buf ≡ length r.buf → Begins fuel r2 es)
    → Begins (suc fuel) r (e ∷ es)
unfolding begin_loop
turn_drops fuel r e es s i full again =
    let (s1, h, l, c, d) = compact-Spells r (encode (e ∷ es)) s in
    let p = capacity_parts (compact r) (encode (e ∷ es)) s1 in
    let (r2, g, dr) = drop_oldest-Dropped (compact r) e es s1 i.0 in
    let same_cap = dr.capacity ∙ c in
    let (mark, r', eq, a) =
      again r2 (subst (Spells r2) (append-nil (encode es)) dr.spells) same_cap in
    let k = evict_goes (length r.buf) 2 e es (ground (arith, full, s1.sized, c)) in
    let a2 = subst (λ n. Begun n r2 es mark r') same_cap a in
    (
      mark,
      r',
      rw (full, g) eq,
      record {
        building = rw k a2.building;
        whole = a2.whole;
        writing = a2.writing;
        counted = rw k (omega (arith, a2.counted, dr.counted, d));
        capacity = a2.capacity ∙ same_cap;
      },
    )

begin_loop-Begins :
    (fuel : ℕ) (r : LogRing) (es : List Entry)
    → Spells r (encode es)
    → All IsEntry es
    → 2 ≤ length r.buf
    → length es < fuel
    → Begins fuel r es
begin_loop-Begins zero r es s i two f = absurd (omega arith)
begin_loop-Begins (suc fuel) r [] s i two f =
    let (s1, h, l, c, d) = compact-Spells r (encode []) s in
    turn_reserves fuel r [] s i (ground (arith, none_encoded, s1.sized, c))
  where
    none_encoded : length (encode []) ≡ 0
    none_encoded = unfold encode in refl
begin_loop-Begins (suc fuel) r (e ∷ es) s i two f = elim (Bool-cases (fits_header (compact r))) [
  | inl fits ↦ turn_reserves fuel r (e ∷ es) s i fits
  | inr full ↦
      turn_drops fuel r e es s i full
        (λ r2 s2 c2. begin_loop-Begins fuel r2 es s2 i.1 (omega (arith, c2)) (omega arith))
]

-- How beginning an entry ends: it was begun, or there is no room for a header in the whole buffer, which is
-- empty then, and one more entry counts as lost.
abbrev pub Began : LogRing → List Entry → Option EntryMark → LogRing → Type 0
Began r es none r' =
    (length r.buf < 2)
    × (es ≡ [])
    × Holds r' []
    × (r'.dropped ≡ r.dropped + 1)
    × (length r'.buf ≡ length r.buf)
Began r es (some mark) r' = (2 ≤ length r.buf) × Begun (length r.buf) r es mark r'

turn_refused :
    (fuel : ℕ) (r : LogRing)
    → Holds r []
    → length r.buf < 2
    → (r' : LogRing) × (begin_loop (suc fuel) r ≡ some (none, r')) × Began r [] none r'
unfolding begin_loop drop_oldest encode
turn_refused fuel r h tiny =
    let (s1, hd, l, c, d) = compact-Spells r (encode []) h.spells in
    let full : fits_header (compact r) ≡ false = ground (arith, c, tiny) in
    let unused : (compact r).len ≡ 0 = sym s1.sized in
    (
      record (compact r) { dropped = (compact r).dropped + 1 },
      rw (full, unused) refl,
      (
        tiny,
        refl,
        record {
          spells = record {
            front = s1.front;
            rest = s1.rest;
            split = s1.split;
            at_head = s1.at_head;
            sized = s1.sized;
          };
          entries = tt;
          small = omega (arith, c, h.small);
        },
        ap (λ x. x + 1) d,
        c,
      ),
    )

-- Beginning an entry always ends. In a buffer with room for a header, the oldest entries are dropped, and
-- counted, as far as the header needs the room, and an empty entry stands behind the others. In a smaller
-- buffer there is no entry; none is begun, and one more counts as lost.
pub begin_entry-Begun :
    (r : LogRing) (es : List Entry)
    → Holds r es
    → (result : Option EntryMark) × (r' : LogRing) × (begin_entry r ≡ some (result, r'))
      × Began r es result r'
unfolding begin_entry
begin_entry-Begun r es h = elim (Bool-cases (leb 2 (length r.buf))) [
  | inl room ↦
      let two = leb→le 2 (length r.buf) room in
      let (mark, r', e, b) =
        begin_loop-Begins (suc r.len) r es h.spells h.entries two
          (omega (arith, few_entries es, h.spells.sized)) in
      (some mark, r', e, (two, b))
  | inr tiny ↦ no_room es h (ground arith)
]
  where
    no_room :
        (es : List Entry)
        → Holds r es
        → length r.buf < 2
        → (result : Option EntryMark) × (r' : LogRing) × (begin_loop (suc r.len) r
            ≡ some (result, r'))
          × Began r es result r'
    no_room [] h tiny = let (r', e, b) = turn_refused r.len r h tiny in (none, r', e, b)
    no_room (e ∷ es) h tiny = absurd (
        omega
          (arith, length-encode e es, h.spells.sized, capacity_parts r (encode (e ∷ es)) h.spells))

encode_one :
    (cur : Bytes) (t : Bool)
    → encode (record { content = cur; truncated = t } ∷ [])
      ≡ (length cur + flag_of t) % 256 ∷ (length cur + flag_of t) / 256 % 256 ∷ cur
unfolding encode
encode_one cur t =
    ap (λ b. (length cur + flag_of t) % 256 ∷ (length cur + flag_of t) / 256 % 256 ∷ b)
      (append-nil cur)

encode_last :
    (es : List Entry) (cur : Bytes) (t : Bool)
    → encode (es ++ record { content = cur; truncated = t } ∷ [])
      ≡ encode es ++ ((length cur + flag_of t) % 256 ∷ (length cur + flag_of t) / 256 % 256 ∷ cur)
encode_last es cur t =
    encode-append es (record { content = cur; truncated = t } ∷ [])
    ∙ ap (λ b. encode es ++ b) (encode_one cur t)

abbrev header_now : EntryMark → ℕ
header_now mark = bit_or (bit_and (mark.len % 65536) len_mask) (flag_of mark.truncated)

-- Committing an entry under construction puts it, with its content and its mark, behind the others.
pub commit_entry-Holds :
    (r : LogRing) (es : List Entry) (cur : Bytes) (mark : EntryMark)
    → Building r es cur mark
    → length r.buf ≤ 32767
    → Holds (commit_entry mark r) (es ++ record { content = cur; truncated = mark.truncated } ∷ [])
      × ((commit_entry mark r).writing ≡ false)
      × ((commit_entry mark r).dropped ≡ r.dropped)
unfolding commit_entry
commit_entry-Holds r es cur mark b small =
    let n = Building-len r es cur mark b in
    let c = capacity_parts r _ b.spells in
    let fits : length cur < 32768 = omega (arith, n, c) in
    let (_, _, _, value) = header_parts (length cur) mark.truncated fits in
    let head =
      ap (λ k. bit_or (bit_and (k % 65536) len_mask) (flag_of mark.truncated)) b.len ∙ value in
    let (s, same) =
      with_header-Spells r (encode es) b.lo b.hi (header_now mark % 256)
        (header_now mark / 256 % 256) cur mark.start b.spells b.start in
    (
      record {
        spells =
            subst (Spells (commit_entry mark r))
              (ap (λ k. encode es ++ (k % 256 ∷ k / 256 % 256 ∷ cur)) head
                ∙ sym (encode_last es cur mark.truncated))
              s;
        entries = All-append IsEntry es _ b.entries (fits, tt);
        small = omega (arith, same, small);
      },
      refl,
      refl,
    )
