-- ===== src/Log/Ring/Digits.antt =====
-- Numbers and the line about lost entries.
use hc32f460jeua_evb.Base.{
  ℕ, zero, suc, ◌+◌, ◌/◌, ◌%◌, ◌≤◌, ◌<◌, ◌≡◌, refl, sym, ap, ap₂, ◌∙◌, arith, false, [], ◌∷◌, ◌++◌,
  append_assoc, append-nil, ltb, ltb→lt, ==→eq, ltb-ge, ◌==◌, if◌then◌else◌, length, length-append,
  Bool-cases, inl, inr,
}
use hc32f460jeua_evb.Base.Text.{Bytes}
use hc32f460jeua_evb.Log.Decimal.{emit, decimal}
use hc32f460jeua_evb.Log.Ring.{LogRing, drop_marker_prefix, drop_marker_suffix}
use hc32f460jeua_evb.Log.Ring.Drain.{
  digits_loop, digits, push_loop, push_usize, marker_len, emit_drop_marker,
}

pub push_loop-zero : (fuel : ℕ) (filled : Bytes) → push_loop fuel 0 filled ≡ filled
unfolding push_loop
push_loop-zero zero filled = refl
push_loop-zero (suc fuel) filled = refl

pub push_loop-emit :
    (fuel more v : ℕ) (filled : Bytes)
    → 0 < v
    → v ≤ fuel
    → v < more
    → push_loop fuel v filled ≡ emit more v filled
unfolding push_loop emit
push_loop-emit zero more v filled p h g = absurd (omega arith)
push_loop-emit (suc fuel) zero v filled p h g = absurd (omega arith)
push_loop-emit (suc fuel) (suc more) v filled p h g =
    let some_left : (v == 0) ≡ false = ground arith in
    elim (Bool-cases (ltb v 10)) [
      | inl e ↦
          let q : v / 10 ≡ 0 = omega (arith, ltb→lt v 10 e) in
          let d : v % 10 ≡ v = omega (arith, ltb→lt v 10 e) in
          rw (some_left, e, q, d) (push_loop-zero fuel ((b'0' + v) ∷ filled))
      | inr e ↦
          let ten = ltb-ge v 10 e in
          rw (some_left, e)
            (push_loop-emit fuel more (v / 10) ((b'0' + v % 10) ∷ filled) (omega (arith, ten))
              (omega arith) (omega (arith, ten)))
    ]

pub digits_loop-zero : (fuel : ℕ) → digits_loop fuel 0 ≡ 0
unfolding digits_loop
digits_loop-zero zero = refl
digits_loop-zero (suc fuel) = refl

pub length-push_loop :
    (fuel v : ℕ) (filled : Bytes)
    → length (push_loop fuel v filled) ≡ digits_loop fuel v + length filled
unfolding push_loop digits_loop
length-push_loop zero v filled = omega arith
length-push_loop (suc fuel) v filled =
    ground (arith, length-push_loop fuel (v / 10) ((b'0' + v % 10) ∷ filled))

-- The number that is appended is the decimal one, and has as many digits as `digits` says.
pub push_usize-decimal :
    (out : Bytes) (v : ℕ) → (push_usize out v ≡ out ++ decimal v) × (length (decimal v) ≡ digits v)
unfolding push_usize decimal digits emit
push_usize-decimal out zero = (refl, refl)
push_usize-decimal out (suc v) =
    let e =
      push_loop-emit (suc v) (suc (suc v)) (suc v) [] (omega arith) (omega arith) (omega arith) in
    let z : (suc v == 0) ≡ false = ground arith in
    (
      rw z (ap (λ d. out ++ d) e),
      rw z (ap length (sym e) ∙ length-push_loop (suc v) (suc v) [] ∙ omega arith),
    )

-- The line that tells of lost entries
unfoldable pub drop_marker : ℕ → Bytes
drop_marker dropped =
    if dropped == 0 then [] else drop_marker_prefix ++ (decimal dropped ++ drop_marker_suffix)

pub length-drop_marker : (n : ℕ) → 0 < n → length (drop_marker n) ≡ marker_len n
unfolding drop_marker
length-drop_marker n p =
    ground (arith, length-append (decimal n) drop_marker_suffix, (push_usize-decimal [] n).1)

pub emit_drop_marker-marker :
    (out : Bytes) (r : LogRing)
    → emit_drop_marker out r
      ≡ (length (drop_marker r.dropped), out ++ drop_marker r.dropped, record r { dropped = 0 })
unfolding emit_drop_marker
emit_drop_marker-marker out r = elim (Bool-cases (r.dropped == 0)) [
  | inl e ↦
      let z = ==→eq r.dropped 0 e in
      let no_marker : drop_marker r.dropped ≡ [] = unfold drop_marker in rw e refl in
      rw (e, no_marker)
        (ap₂ (λ o s. (0, o, s)) (sym (append-nil out)) (λ i. record r { dropped = z i }))
  | inr e ↦
      let n = r.dropped in
      let marker : drop_marker n ≡ drop_marker_prefix ++ (decimal n ++ drop_marker_suffix) =
        unfold drop_marker in rw e refl in
      let text =
        ap (λ o. o ++ drop_marker_suffix) ((push_usize-decimal (out ++ drop_marker_prefix) n).0)
        ∙ append_assoc (out ++ drop_marker_prefix) (decimal n) drop_marker_suffix
        ∙ append_assoc out drop_marker_prefix (decimal n ++ drop_marker_suffix)
        ∙ ap (λ m. out ++ m) (sym marker) in
      rw e (
        ap₂ (λ k o. (k, o, record r { dropped = 0 })) (sym (length-drop_marker n (ground arith)))
          text)
]
