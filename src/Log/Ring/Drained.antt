-- ===== src/Log/Ring/Drained.antt =====
-- What the loop takes out of the buffer, and what stays.
use hc32f460jeua_evb.Base.{
  ℕ, zero, suc, ◌+◌, ◌-◌, ◌/◌, ◌%◌, ◌≤◌, ◌<◌, ◌≡◌, refl, sym, ap, ap₂, ◌∙◌, subst, arith, true,
  false, some, List, [], ◌∷◌, ◌++◌, append_assoc, append-nil, ltb, leb, ◌==◌, if◌then◌else◌, length,
  length-append, All, Bool-cases, inl, inr,
}
use hc32f460jeua_evb.Base.Text.{Bytes}
use hc32f460jeua_evb.Log.Ring.{LogRing, advance, header}
use hc32f460jeua_evb.Log.Ring.Drain.{content_at, suffix_of, total_of, drain_loop, consume, map_some}
use hc32f460jeua_evb.Log.Ring.Window.{Spells, advance-Spells}
use hc32f460jeua_evb.Log.Ring.Headers.{content-Spells}
use hc32f460jeua_evb.Log.Ring.Entries.{Entry, IsEntry, header_of, encode, length-encode, entry_at}
use hc32f460jeua_evb.Log.Ring.Building.{few_entries}

abbrev pub line_of : Entry → Bytes
line_of e = e.content ++ suffix_of e.truncated

pub length_line : (e : Entry) → length (line_of e) + 2 ≡ total_of (length e.content) e.truncated
length_line e = ground (arith, length-append e.content (suffix_of e.truncated))

-- The text that is taken and the entries that stay: an empty entry leaves no text, and the first other one
-- whose line does not fit with two bytes to spare stays, with all behind it.
unfoldable pub drained : ℕ → ℕ → List Entry → Bytes × List Entry
drained limit copied [] = ([], [])
drained limit copied (e ∷ es) =
    let skipped = drained limit copied es in
    let taken = drained limit (copied + length (line_of e)) es in
    if length e.content == 0
    then skipped
    else if ltb limit (copied + length (line_of e) + 2)
    then ([], e ∷ es)
    else (line_of e ++ taken.0, taken.1)

pub record Stopped (r : LogRing) (left : List Entry) (pos : ℕ) : Type 0 where
  pub passed : Bytes
  pub spells : Spells r (passed ++ encode left)
  pub place : pos ≡ r.head + length passed

pub passed_one :
    (passed : Bytes) (e : Entry) (es : List Entry)
    → (more : Bytes) × (passed ++ encode (e ∷ es) ≡ more ++ encode es)
      × (length more ≡ length passed + 2 + length e.content)
unfolding encode
passed_one passed e es = (
  passed ++ (header_of e % 256 ∷ header_of e / 256 % 256 ∷ e.content),
  sym (append_assoc passed (header_of e % 256 ∷ header_of e / 256 % 256 ∷ e.content) (encode es)),
  omega (arith, length-append passed (header_of e % 256 ∷ header_of e / 256 % 256 ∷ e.content)),
)

pub content_of :
    (r : LogRing) (passed : Bytes) (e : Entry) (es : List Entry) (pos : ℕ)
    → Spells r (passed ++ encode (e ∷ es))
    → pos ≡ r.head + length passed
    → content_at r pos (length e.content) ≡ e.content
unfolding encode
content_of r passed e es pos s p =
    content-Spells r passed _ _ e.content (encode es) pos (length e.content) s p refl

pub with_nothing :
    (r : LogRing) (passed : Bytes) (es : List Entry)
    → Spells r (passed ++ encode es)
    → Spells r (passed ++ (encode es ++ []))
with_nothing r passed es s = subst (λ b. Spells r (passed ++ b)) (sym (append-nil (encode es))) s

-- Fuel for one turn more than there are entries is enough.
pub drain_loop-drained :
    (fuel : ℕ) (r : LogRing) (limit copied pos : ℕ) (es : List Entry) (out : Bytes)
    → (st : Stopped r es pos) → All IsEntry es
    → length es < fuel
    → (pos' : ℕ) × (drain_loop fuel r limit (r.head + r.len) pos copied out
        ≡ some
            (pos', copied + length (drained limit copied es).0, out ++ (drained limit copied es).0))
      × Stopped r (drained limit copied es).1 pos'
unfolding drain_loop drained
drain_loop-drained zero r limit copied pos es out st i f = absurd (omega arith)
drain_loop-drained (suc fuel) r limit copied pos [] out st i f =
    let done : leb (r.head + r.len) pos ≡ true =
      ground
        (arith, st.place, st.spells.sized, length-append st.passed (encode []), none_encoded) in
    (pos, rw done (ap₂ (λ a b. some (pos, a, b)) (omega arith) (sym (append-nil out))), st)
  where
    none_encoded : length (encode []) ≡ 0
    none_encoded = unfold encode in refl
drain_loop-drained (suc fuel) r limit copied pos (e ∷ es) out st i f =
    let (n, t) =
      entry_at r st.passed e es [] pos (with_nothing r st.passed (e ∷ es) st.spells) i.0 st.place in
    let (more, spelled, long) = passed_one st.passed e es in
    let going : leb (r.head + r.len) pos ≡ false = ground (
      arith,
      st.place,
      st.spells.sized,
      length-append st.passed (encode (e ∷ es)),
      length-encode e es,
    ) in
    let c = content_of r st.passed e es pos st.spells st.place in
    let next : Stopped r es (pos + (header + length e.content)) = record {
      passed = more;
      spells = subst (Spells r) spelled st.spells;
      place = omega (arith, st.place, long);
    } in
    elim (Bool-cases (length e.content == 0)) [
      | inl none_of ↦
          rw (going, n, none_of)
            (drain_loop-drained fuel r limit copied (pos + (header + length e.content)) es out next
              i.1 (omega arith))
      | inr some_of ↦
          let counted : copied + length (line_of e) + 2
              ≡ copied + total_of (length e.content) e.truncated =
            omega (arith, length_line e) in
          elim (Bool-cases (ltb limit (copied + total_of (length e.content) e.truncated))) [
            | inl long ↦
                rw (going, n, t, some_of, counted, long)
                  (pos, ap₂ (λ a b. some (pos, a, b)) (omega arith) (sym (append-nil out)), st)
            | inr short ↦
                let (pos', q, st') =
                  drain_loop-drained fuel r limit (copied + length (line_of e))
                    (pos + (header + length e.content)) es (out ++ line_of e) next i.1
                    (omega arith) in
                rw (going, n, t, some_of, counted, short, c)
                  (
                    pos',
                    q
                        ∙ ap₂ (λ a b. some (pos', a, b))
                            (omega (
                              arith,
                              length-append (line_of e)
                                  (drained limit (copied + length (line_of e)) es).0,
                            ))
                            (append_assoc out (line_of e)
                              (drained limit (copied + length (line_of e)) es).0),
                    st',
                  )
          ]
    ]

pub drain_loop-consumed :
    (r : LogRing) (es : List Entry) (limit copied : ℕ) (out : Bytes)
    → Spells r (encode es)
    → All IsEntry es
    → (r' : LogRing) × (map_some
          (consume r)
          (drain_loop (suc r.len) r limit (r.head + r.len) r.head copied out)
        ≡ some
            (copied + length (drained limit copied es).0, out ++ (drained limit copied es).0, r'))
      × Spells r' (encode (drained limit copied es).1)
      × (length r'.buf ≡ length r.buf)
      × (r'.dropped ≡ r.dropped)
drain_loop-consumed r es limit copied out s i =
    let (pos, q, st) =
      drain_loop-drained (suc r.len) r limit copied r.head es out
        (record { passed = []; spells = s; place = omega arith }) i
        (omega (arith, few_entries es, s.sized)) in
    let (a, b, c, _, _) =
      advance-Spells r st.passed (encode (drained limit copied es).1) (pos - r.head) st.spells
        (omega (arith, st.place)) in
    (advance (pos - r.head) r, ap (map_some (consume r)) q, a, b, c)

pub drained-IsEntry :
    (limit copied : ℕ) (es : List Entry) → All IsEntry es → All IsEntry (drained limit copied es).1
unfolding drained
drained-IsEntry limit copied [] i = tt
drained-IsEntry limit copied (e ∷ es) i = ground (
  arith,
  drained-IsEntry limit copied es i.1,
  drained-IsEntry limit (copied + length (line_of e)) es i.1,
  i,
)

pub drained-le :
    (limit copied : ℕ) (es : List Entry)
    → copied ≤ limit
    → copied + length (drained limit copied es).0 ≤ limit
unfolding drained
drained-le limit copied [] h = omega arith
drained-le limit copied (e ∷ es) h = ground (
  arith,
  drained-le limit copied es h,
  drained-le limit (copied + length (line_of e)) es,
  length-append (line_of e) (drained limit (copied + length (line_of e)) es).0,
  length_line e,
)
