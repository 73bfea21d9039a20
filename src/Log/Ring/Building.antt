-- ===== src/Log/Ring/Building.antt =====
-- An entry under construction, and which entries stay when bytes need room.
use hc32f460jeua_evb.Base.{
  ℕ, suc, ◌+◌, ◌-◌, ◌≤◌, ◌<◌, ◌≡◌, refl, subst, arith, Bool, true, List, [], ◌∷◌, ◌++◌,
  append_assoc, ltb, leb, if◌then◌else◌, length, length-append, All,
}
use hc32f460jeua_evb.Base.Text.{Bytes}
use hc32f460jeua_evb.Log.Ring.{LogRing, EntryMark, compact, written}
use hc32f460jeua_evb.Log.Ring.Window.{Spells, compact-Spells, written-Spells}
use hc32f460jeua_evb.Log.Ring.Entries.{Entry, IsEntry, encode, length-encode, Dropped}

-- Which entries stay if `need` more bytes must fit in `cap`, and how many of the oldest go.
unfoldable pub evict : ℕ → ℕ → List Entry → ℕ × List Entry
evict cap need [] = (0, [])
evict cap need (e ∷ es) =
    let more = evict cap need es in
    if leb (length (encode (e ∷ es)) + need) cap then (0, e ∷ es) else (suc more.0, more.1)

-- Complete entries, and behind them one under construction: a header that is not filled in, and the
-- content so far.
pub record Building (r : LogRing) (es : List Entry) (cur : Bytes) (mark : EntryMark) : Type 0 where
  pub lo : ℕ
  pub hi : ℕ
  pub spells : Spells r (encode es ++ lo ∷ hi ∷ cur)
  pub entries : All IsEntry es
  pub start : mark.start ≡ r.head + length (encode es)
  pub len : mark.len ≡ length cur

-- The bytes that an entry under construction takes once more bytes are in it.
abbrev pub needed : Bytes → Bytes → ℕ
needed cur bytes = 2 + length cur + length bytes

abbrev pub room : ℕ → List Entry → Bytes → Bytes → Bool
room cap es cur bytes =
    let left = (evict cap (needed cur bytes) es).1 in
    leb (length (encode left) + needed cur bytes) cap

-- What `append_to_entry` gives: the oldest entries go as far as needed; the bytes are all appended, or
-- none of them is and the entry is marked as cut off.
pub record Appended (cap : ℕ) (r : LogRing) (es : List Entry) (cur bytes : Bytes) (mark : EntryMark)
    (b : Bool) (m' : EntryMark) (r' : LogRing) : Type 0 where
  pub whole : b ≡ room cap es cur bytes
  pub building :
      Building r' (evict cap (needed cur bytes) es).1 (if b then cur ++ bytes else cur) m'
  pub flag : m'.truncated ≡ (if b then mark.truncated else true)
  pub counted : r'.dropped ≡ r.dropped + (evict cap (needed cur bytes) es).0
  pub capacity : length r'.buf ≡ length r.buf

-- After compacting, the entry starts behind the complete ones.
abbrev pub moved_mark : LogRing → EntryMark → EntryMark
moved_mark r mark = record mark { start = if ltb 0 r.head then mark.start - r.head else mark.start }

pub compact-Building :
    (r : LogRing) (es : List Entry) (cur : Bytes) (mark : EntryMark)
    → Building r es cur mark
    → Building (compact r) es cur (moved_mark r mark)
      × ((compact r).head ≡ 0)
      × ((compact r).len ≡ r.len)
      × (length (compact r).buf ≡ length r.buf)
      × ((compact r).dropped ≡ r.dropped)
compact-Building r es cur mark b =
    let (s, h, l, c, d) = compact-Spells r _ b.spells in
    (
      record {
        lo = b.lo;
        hi = b.hi;
        spells = s;
        entries = b.entries;
        start = ground (arith, b.start, h);
        len = b.len;
      },
      h,
      l,
      c,
      d,
    )

pub Building-len :
    (r : LogRing) (es : List Entry) (cur : Bytes) (mark : EntryMark)
    → Building r es cur mark
    → r.len ≡ length (encode es) + 2 + length cur
Building-len r es cur mark b =
    omega (arith, b.spells.sized, length-append (encode es) (b.lo ∷ b.hi ∷ cur))

pub written-Building :
    (r : LogRing) (es : List Entry) (cur bytes : Bytes) (mark : EntryMark)
    → Building r es cur mark
    → r.head + r.len + length bytes ≤ length r.buf
    → Building (written bytes r) es (cur ++ bytes) (record mark { len = mark.len + length bytes })
      × (length (written bytes r).buf ≡ length r.buf)
written-Building r es cur bytes mark b fits =
    let (s, c) = written-Spells r _ bytes b.spells fits in
    (
      record {
        lo = b.lo;
        hi = b.hi;
        spells =
            subst (Spells (written bytes r)) (append_assoc (encode es) (b.lo ∷ b.hi ∷ cur) bytes) s;
        entries = b.entries;
        start = b.start;
        len = omega (arith, b.len, length-append cur bytes);
      },
      c,
    )

pub Dropped-Building :
    (r r' : LogRing) (e : Entry) (es : List Entry) (cur : Bytes) (mark : EntryMark)
    → (b : Building r (e ∷ es) cur mark) → Dropped r r' e es (b.lo ∷ b.hi ∷ cur)
    → Building r' es cur mark
Dropped-Building r r' e es cur mark b d = record {
  lo = b.lo;
  hi = b.hi;
  spells = d.spells;
  entries = b.entries.1;
  start = omega (
    arith,
    b.start,
    d.moved (omega (arith, length-append (encode es) (b.lo ∷ b.hi ∷ cur))),
    length-encode e es,
  );
  len = b.len;
}

pub evict_stays :
    (cap need : ℕ) (es : List Entry) → length (encode es) + need ≤ cap → evict cap need es ≡ (0, es)
unfolding evict
evict_stays cap need [] h = refl
evict_stays cap need (e ∷ es) h = ground arith

pub evict_goes :
    (cap need : ℕ) (e : Entry) (es : List Entry)
    → cap < length (encode (e ∷ es)) + need
    → evict cap need (e ∷ es) ≡ (suc (evict cap need es).0, (evict cap need es).1)
unfolding evict
evict_goes cap need e es h = ground arith

pub few_entries : (es : List Entry) → length es ≤ length (encode es)
few_entries [] = omega arith
few_entries (e ∷ es) = omega (arith, length-encode e es, few_entries es)
