-- ===== src/Log/Ring/Append.antt =====
-- Bytes appended to an entry under construction.
use hc32f460jeua_evb.Base.{
  ℕ, zero, suc, ◌+◌, ◌-◌, ◌≤◌, ◌<◌, ◌≡◌, refl, ap, ◌∙◌, subst, arith, Bool, true, false, some, List,
  [], ◌∷◌, ◌++◌, leb, leb→le, if◌then◌else◌, length, Bool-cases, inl, inr,
}
use hc32f460jeua_evb.Base.Text.{Bytes}
use hc32f460jeua_evb.Log.Ring.{LogRing, EntryMark, compact, written, append_loop, append_to_entry}
use hc32f460jeua_evb.Log.Ring.Window.{capacity_parts}
use hc32f460jeua_evb.Log.Ring.Entries.{
  Entry, encode, drop_oldest_before-Dropped, drop_oldest_before-empty,
}
use hc32f460jeua_evb.Log.Ring.Building.{
  Appended, Building, Building-len, compact-Building, Dropped-Building, evict, evict_goes,
  evict_stays, few_entries, moved_mark, needed, written-Building,
}

module _ (cap : ℕ) (cur bytes : Bytes) (mark m' : EntryMark) (r' : LogRing) where
  stays-Appended :
      (r : LogRing) (es : List Entry)
      → length (encode es) + needed cur bytes ≤ cap
      → Building r' es (cur ++ bytes) m'
      → m'.truncated ≡ mark.truncated
      → r'.dropped ≡ r.dropped
      → length r'.buf ≡ length r.buf
      → Appended cap r es cur bytes mark true m' r'
  stays-Appended r es h b t d c =
      let e = evict_stays cap (needed cur bytes) es h in
      record {
        whole = rw e (ground arith);
        building = rw e b;
        flag = t;
        counted = rw e (omega (arith, d));
        capacity = c;
      }

  refused-Appended :
      (r : LogRing)
      → cap < length (encode []) + needed cur bytes
      → Building r' [] cur m'
      → m'.truncated ≡ true
      → r'.dropped ≡ r.dropped
      → length r'.buf ≡ length r.buf
      → Appended cap r [] cur bytes mark false m' r'
  unfolding evict
  refused-Appended r h b t d c = record {
    whole = ground arith;
    building = b;
    flag = t;
    counted = omega (arith, d);
    capacity = c;
  }

  evicted-Appended :
      (r r2 : LogRing) (e : Entry) (es : List Entry) (m2 : EntryMark) (b : Bool)
      → cap < length (encode (e ∷ es)) + needed cur bytes
      → r2.dropped ≡ r.dropped + 1
      → length r2.buf ≡ length r.buf
      → m2.truncated ≡ mark.truncated
      → Appended cap r2 es cur bytes m2 b m' r'
      → Appended cap r (e ∷ es) cur bytes mark b m' r'
  evicted-Appended r r2 e es m2 b h d c t a =
      let g = evict_goes cap (needed cur bytes) e es h in
      record {
        whole = rw g a.whole;
        building = rw g a.building;
        flag = a.flag ∙ ap (λ x. if b then x else true) t;
        counted = rw g (omega (arith, a.counted, d));
        capacity = a.capacity ∙ c;
      }

-- The loop ends, in the way that `Appended` says.
abbrev Ends : ℕ → LogRing → List Entry → Bytes → Bytes → EntryMark → Type 0
Ends fuel r es cur bytes mark =
    (b : Bool) × (m' : EntryMark) × (r' : LogRing) × (append_loop fuel mark bytes r
      ≡ some (b, m', r'))
    × Appended (length r.buf) r es cur bytes mark b m' r'

abbrev fits_now : Bytes → LogRing → Bool
fits_now bytes r = leb (length bytes) (length r.buf - (r.head + r.len))

turn_fits :
    (fuel : ℕ) (r : LogRing) (es : List Entry) (cur bytes : Bytes) (mark : EntryMark)
    → Building r es cur mark
    → fits_now bytes (compact r) ≡ true
    → Ends (suc fuel) r es cur bytes mark
unfolding append_loop
turn_fits fuel r es cur bytes mark b fits =
    let (b1, h, l, c, d) = compact-Building r es cur mark b in
    let n = Building-len (compact r) es cur (moved_mark r mark) b1 in
    let p = capacity_parts (compact r) _ b1.spells in
    let enough = leb→le _ _ fits in
    let (w, k) =
      written-Building (compact r) es cur bytes (moved_mark r mark) b1 (omega (arith, p, enough)) in
    (
      true,
      record (moved_mark r mark) { len = mark.len + length bytes },
      written bytes (compact r),
      rw fits refl,
      stays-Appended (length r.buf) cur bytes mark _ _ r es (omega (arith, n, p, enough, c, h)) w
          refl d (k ∙ c),
    )

turn_last :
    (fuel : ℕ) (r : LogRing) (cur bytes : Bytes) (mark : EntryMark)
    → Building r [] cur mark
    → fits_now bytes (compact r) ≡ false
    → Ends (suc fuel) r [] cur bytes mark
unfolding append_loop
turn_last fuel r cur bytes mark b full =
    let (b1, h, l, c, d) = compact-Building r [] cur mark b in
    let n = Building-len (compact r) [] cur (moved_mark r mark) b1 in
    let here : (moved_mark r mark).start ≡ (compact r).head =
      omega (arith, b1.start, none_encoded) in
    let e = drop_oldest_before-empty (compact r) (moved_mark r mark).start here in
    (
      false,
      record (moved_mark r mark) { truncated = true },
      compact r,
      rw (full, e) refl,
      refused-Appended (length r.buf) cur bytes mark _ _ r (ground (arith, full, n, c, h))
          (same_marks b1) refl d c,
    )
  where
    none_encoded : length (encode []) ≡ 0
    none_encoded = unfold encode in refl

    same_marks :
        Building (compact r) [] cur (moved_mark r mark)
        → Building (compact r) [] cur (record (moved_mark r mark) { truncated = true })
    same_marks x = record {
      lo = x.lo;
      hi = x.hi;
      spells = x.spells;
      entries = x.entries;
      start = x.start;
      len = x.len;
    }

turn_drops :
    (fuel : ℕ) (r : LogRing) (e : Entry) (es : List Entry) (cur bytes : Bytes) (mark : EntryMark)
    → Building r (e ∷ es) cur mark
    → fits_now bytes (compact r) ≡ false
    → ((r2 : LogRing)
        → Building r2 es cur (moved_mark r mark)
        → Ends fuel r2 es cur bytes (moved_mark r mark))
    → Ends (suc fuel) r (e ∷ es) cur bytes mark
unfolding append_loop
turn_drops fuel r e es cur bytes mark b full again =
    let (b1, h, l, c, d) = compact-Building r (e ∷ es) cur mark b in
    let n = Building-len (compact r) (e ∷ es) cur (moved_mark r mark) b1 in
    let (r2, g, dr) =
      drop_oldest_before-Dropped (compact r) e es (b1.lo ∷ b1.hi ∷ cur) (moved_mark r mark).start
        b1.spells b1.entries.0 b1.start in
    let (w, m', r', eq, a) =
      again r2 (Dropped-Building (compact r) r2 e es cur (moved_mark r mark) b1 dr) in
    let same_cap = dr.capacity ∙ c in
    (
      w,
      m',
      r',
      rw (full, g) eq,
      evicted-Appended (length r.buf) cur bytes mark m' r' r r2 e es (moved_mark r mark) w
          (ground (arith, full, n, c, h)) (omega (arith, dr.counted, d)) same_cap refl
          (subst (λ k. Appended k r2 es cur bytes (moved_mark r mark) w m' r') same_cap a),
    )

-- Fuel for one turn more than there are entries is enough.
append_loop-Ends :
    (fuel : ℕ) (r : LogRing) (es : List Entry) (cur bytes : Bytes) (mark : EntryMark)
    → Building r es cur mark
    → length es < fuel
    → Ends fuel r es cur bytes mark
append_loop-Ends zero r es cur bytes mark b f = absurd (omega arith)
append_loop-Ends (suc fuel) r [] cur bytes mark b f =
    elim (Bool-cases (fits_now bytes (compact r))) [
      | inl fits ↦ turn_fits fuel r [] cur bytes mark b fits
      | inr full ↦ turn_last fuel r cur bytes mark b full
    ]
append_loop-Ends (suc fuel) r (e ∷ es) cur bytes mark b f =
    elim (Bool-cases (fits_now bytes (compact r))) [
      | inl fits ↦ turn_fits fuel r (e ∷ es) cur bytes mark b fits
      | inr full ↦
          turn_drops fuel r e es cur bytes mark b full
            (λ r2 b2. append_loop-Ends fuel r2 es cur bytes (moved_mark r mark) b2 (omega arith))
    ]

-- Appending to an entry always ends. The oldest complete entries are dropped, and counted, as far as the
-- bytes need the room and no further; if there is room then, the bytes stand behind the content so
-- far; if there is none although no other entry is left, the content stays as it is and the entry is
-- marked as cut off.
pub append_to_entry-Appended :
    (r : LogRing) (es : List Entry) (cur bytes : Bytes) (mark : EntryMark)
    → Building r es cur mark
    → (b : Bool) × (m' : EntryMark) × (r' : LogRing) × (append_to_entry mark bytes r
        ≡ some (b, m', r'))
      × Appended (length r.buf) r es cur bytes mark b m' r'
unfolding append_to_entry
append_to_entry-Appended r es cur bytes mark b =
    append_loop-Ends (suc r.len) r es cur bytes mark b
      (omega (arith, Building-len r es cur mark b, few_entries es))
