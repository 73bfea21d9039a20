-- ===== src/Log/Decimal/Order.antt =====
-- Numbers of one width are ordered as their texts are.
use hc32f460jeua_evb.Base.{
  ℕ, zero, suc, ◌+◌, ◌-◌, ◌/◌, ◌%◌, ◌^◌, ◌≤◌, ◌<◌, ◌≡◌, refl, sym, ap, ◌∙◌, [], ◌∷◌, ◌++◌, arith,
  ltb, length, replicate, Bool-cases, inl, inr, ◌⊎◌, ltb→lt, ltb-ge,
}
use hc32f460jeua_evb.Base.Text.{Bytes, Before}
use hc32f460jeua_evb.Log.Decimal.{emit, width, width-le, width-pos, length-emit, decimal, padded}
use native.Mathlib.Nat.{pow-suc}

-- The last `w` digits of a number, in front of `out`.
fixed : ℕ → ℕ → Bytes → Bytes
fixed zero n out = out
fixed (suc w) n out = fixed w (n / 10) ((b'0' + n % 10) ∷ out)

replicate_shift : (w c : ℕ) (out : Bytes) → replicate w c ++ c ∷ out ≡ replicate (suc w) c ++ out
replicate_shift zero c out = refl
replicate_shift (suc w) c out = ap (◌∷◌ c) (replicate_shift w c out)

fixed_zero : (w : ℕ) (out : Bytes) → fixed w 0 out ≡ replicate w b'0' ++ out
unfolding fixed
fixed_zero zero out = refl
fixed_zero (suc w) out = fixed_zero w (b'0' ∷ out) ∙ replicate_shift w b'0' out

fixed-emit :
    (fuel w n : ℕ) (out : Bytes)
    → n < fuel
    → width fuel n ≤ w
    → fixed w n out ≡ replicate (w - width fuel n) b'0' ++ emit fuel n out
unfolding fixed emit width
fixed-emit zero w n out f h = absurd (omega arith)
fixed-emit (suc fuel) zero n out f h = absurd (omega (arith, width-pos fuel n))
fixed-emit (suc fuel) (suc w) n out f h = elim (Bool-cases (ltb n 10)) [
  | inl e ↦
      let q : n / 10 ≡ 0 = omega (arith, ltb→lt n 10 e) in
      let r : n % 10 ≡ n = omega (arith, ltb→lt n 10 e) in
      let k : suc w - 1 ≡ w = omega arith in rw (e, q, r, k) (fixed_zero w ((b'0' + n) ∷ out))
  | inr e ↦
      let k : suc w - suc (width fuel (n / 10)) ≡ w - width fuel (n / 10) = omega arith in
      rw (e, k)
        (fixed-emit fuel w (n / 10) ((b'0' + n % 10) ∷ out) (omega (arith, ltb-ge n 10 e))
          (omega (arith, rw e at h)))
]

fixed-append : (w n : ℕ) (s t : Bytes) → fixed w n (s ++ t) ≡ fixed w n s ++ t
unfolding fixed
fixed-append zero n s t = refl
fixed-append (suc w) n s t = fixed-append w (n / 10) ((b'0' + n % 10) ∷ s) t

padded-fixed : (w n : ℕ) → n < 10 ^ suc w → padded (suc w) n ≡ fixed (suc w) n []
unfolding padded decimal
padded-fixed w n h =
    let l : length (emit (suc n) n []) ≡ width (suc n) n =
      omega (arith, length-emit (suc n) n []) in
    rw l (sym (fixed-emit (suc n) (suc w) n [] (omega arith) (width-le (suc n) n w h)))

fixed-Before :
    (w n m : ℕ) (s t : Bytes)
    → n < 10 ^ w
    → m < 10 ^ w
    → (n < m) ⊎ ((n ≡ m) × Before s t)
    → Before (fixed w n s) (fixed w m t)
unfolding fixed
fixed-Before zero n m s t hn hm (inl lt) = absurd (omega arith)
fixed-Before zero n m s t hn hm (inr (e, b)) = b
fixed-Before (suc w) n m s t hn hm less =
    fixed-Before w (n / 10) (m / 10) _ _ (omega (arith, pow-suc 10 w)) (omega (arith, pow-suc 10 w))
      (ground (arith, less))

-- In one width, with any text behind: by the numbers first, then by what follows.
pub padded-Before :
    (w n m : ℕ) (s t : Bytes)
    → n < 10 ^ suc w
    → m < 10 ^ suc w
    → (n < m) ⊎ ((n ≡ m) × Before s t)
    → Before (padded (suc w) n ++ s) (padded (suc w) m ++ t)
padded-Before w n m s t hn hm less =
    rw
      (
        padded-fixed w n hn,
        padded-fixed w m hm,
        ← fixed-append (suc w) n [] s,
        ← fixed-append (suc w) m [] t,
      )
      (fixed-Before (suc w) n m s t hn hm less)
