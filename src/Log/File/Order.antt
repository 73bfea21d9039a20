-- ===== src/Log/File/Order.antt =====
-- The order of the names as texts, against the order of boots and segments.
use hc32f460jeua_evb.Base.{ℕ, ◌<◌, ◌≡◌, refl, false, ◌++◌, arith, ◌==◌, Bool-cases, inl, inr, ◌⊎◌}
use hc32f460jeua_evb.Base.Text.{Bytes, codes, Before}
use hc32f460jeua_evb.Log.Decimal.{decimal, padded}
use hc32f460jeua_evb.Log.Decimal.Order.{padded-Before}
use hc32f460jeua_evb.Log.File.{u64_limit, segment_name}
use hc32f460jeua_evb.Log.File.Names.{name_tail, segment_name-parts}

-- By the boot, then by the segment.
abbrev pub Earlier : ℕ × ℕ → ℕ × ℕ → Type 0
Earlier (b, s) (c, t) = (b < c) ⊎ ((b ≡ c) × (s < t))

name_tail-Before : (s t : ℕ) → s < t → t < 1000 → Before (name_tail s) (name_tail t)
unfolding name_tail
name_tail-Before s t less h = elim (Bool-cases (s == 0)) [
  | inl e ↦ let f : (t == 0) ≡ false = ground arith in rw (e, f) (inl (omega arith))
  | inr e ↦
      let f : (t == 0) ≡ false = ground arith in
      let numbers = padded-Before 2 s t (codes ".log") (codes ".log") (omega arith) h (inl less) in
      rw (e, f) (inr (refl, numbers))
]

in_boot : (s t : Bytes) → Before s t → Before (codes "boot_" ++ s) (codes "boot_" ++ t)
in_boot s t h = inr (refl, inr (refl, inr (refl, inr (refl, inr (refl, h)))))

-- Below a thousand segments to a boot, an earlier file has the smaller name.
pub segment_name-Before :
    (b s c t : ℕ)
    → b < u64_limit
    → c < u64_limit
    → s < 1000
    → t < 1000
    → Earlier (b, s) (c, t)
    → Before (segment_name b s) (segment_name c t)
segment_name-Before b s c t hb hc hs ht less =
    rw (segment_name-parts b s hb (omega arith), segment_name-parts c t hc (omega arith))
      (in_boot _ _ (padded-Before 19 b c _ _ (omega arith) (omega arith) (tails less)))
  where
    tails : Earlier (b, s) (c, t) → (b < c) ⊎ ((b ≡ c) × Before (name_tail s) (name_tail t))
    tails (inl lt) = inl lt
    tails (inr (e, lt)) = inr (e, name_tail-Before s t lt ht)

tail_of_1000 : Before (name_tail 1000) (name_tail 999)
unfolding name_tail padded decimal
tail_of_1000 = inr (refl, inl (omega arith))

-- From a thousand on it is not so: the name of segment 1000 is before that of segment 999.
name_order_ends : (b : ℕ) → b < u64_limit → Before (segment_name b 1000) (segment_name b 999)
name_order_ends b h =
    rw (segment_name-parts b 1000 h (omega arith), segment_name-parts b 999 h (omega arith))
      (in_boot _ _
        (padded-Before 19 b b _ _ (omega arith) (omega arith) (inr (refl, tail_of_1000))))
