-- ===== src/Can/Ppm.antt =====
-- The long division of can_timing.rs that scales by a million without a large product.
use native.Mathlib.Nat.{
  mod-lt, div-add-mod', mul-le-mul_right, lt_of_mul-lt-mul_right, pow-suc, le-mul_of_pos_right,
}
use hc32f460jeua_evb.Base.{
  ℕ, zero, suc, ◌+◌, ◌*◌, ◌/◌, ◌%◌, ◌^◌, ◌≤◌, ◌<◌, ◌≡◌, ◌∙◌, ap, ltb, leb, ◌==◌, ◌&&◌, ◌||◌, arith,
  Bool-cases, ==→eq, inl, inr,
}
use hc32f460jeua_evb.Can.{u64, ppm_digits, ppm_floor_and_remainder, within_error_limit}

-- One digit more of a division.
digit_step : (f r d : ℕ) → (f * 10 + r * 10 / d) * d + r * 10 % d ≡ 10 * (f * d + r)
digit_step f r d = ground (arith, div-add-mod' (r * 10) d)

step_bound : (f r d : ℕ) → 0 < d → f * d + r < d * 10 ^ 6 → f < 10 ^ 6
step_bound f r d h b = lt_of_mul-lt-mul_right d (omega (arith, b))

pow-pos : (n : ℕ) → 0 < 10 ^ n
pow-pos zero = omega arith
pow-pos (suc n) = rw (pow-suc 10 n) (omega (arith, pow-pos n))

-- `n` digits of a division that has given the fraction `f` and the remainder `r`, none wrapping.
ppm_digits_exact :
    (n d f r : ℕ)
    → 0 < d
    → d * 10 ≤ 2 ^ 64
    → r < d
    → (f * d + r) * 10 ^ n < d * 10 ^ 6
    → ((ppm_digits n d (f, r)).0 * d + (ppm_digits n d (f, r)).1 ≡ 10 ^ n * (f * d + r))
      × ((ppm_digits n d (f, r)).1 < d)
unfolding ppm_digits
ppm_digits_exact zero d f r pos fit lt b = (omega arith, lt)
ppm_digits_exact (suc n) d f r pos fit lt b =
    rw (ppm_digits, same_r, same_f)
      (let rest =
          ppm_digits_exact n d (f * 10 + r * 10 / d) (r * 10 % d) pos fit (mod-lt (r * 10) pos)
            bound in
        (rest.0 ∙ scale, rest.1))
  where
    same_r : u64 (r * 10) ≡ r * 10
    same_r = omega arith

    step : (f * 10 + r * 10 / d) * d + r * 10 % d ≡ 10 * (f * d + r)
    step = digit_step f r d

    scaled : ((f * 10 + r * 10 / d) * d + r * 10 % d) * 10 ^ n ≡ (f * d + r) * 10 ^ suc n
    scaled = rw (step, pow-suc 10 n) (omega arith)

    bound : ((f * 10 + r * 10 / d) * d + r * 10 % d) * 10 ^ n < d * 10 ^ 6
    bound = rw scaled b

    plain :
        (f * 10 + r * 10 / d) * d + r * 10 % d ≤ ((f * 10 + r * 10 / d) * d + r * 10 % d) * 10 ^ n
    plain = le-mul_of_pos_right _ (pow-pos n)

    same_f : u64 (f * 10 + r * 10 / d) ≡ f * 10 + r * 10 / d
    same_f =
        omega
          (arith, step_bound (f * 10 + r * 10 / d) (r * 10 % d) d pos (omega (arith, plain, bound)))

    scale : 10 ^ n * ((f * 10 + r * 10 / d) * d + r * 10 % d) ≡ 10 ^ suc n * (f * d + r)
    scale = rw (step, pow-suc 10 n) (omega arith)

-- If ten times the divisor and the quotient fit in 64 bits, the division is that of the product
-- `numerator * 1_000_000`, whether or not that fits.
pub ppm_floor_and_remainder_lem :
    (n d : ℕ)
    → 0 < d
    → d * 10 ≤ 2 ^ 64
    → n * 1000000 < 2 ^ 64 * d
    → ((ppm_floor_and_remainder n d).0 * d + (ppm_floor_and_remainder n d).1 ≡ n * 1000000)
      × ((ppm_floor_and_remainder n d).1 < d)
unfolding ppm_floor_and_remainder
ppm_floor_and_remainder_lem n d pos fit small = rw same (total, digits.1)
  where
    digits :
        ((ppm_digits 6 d (0, n % d)).0 * d + (ppm_digits 6 d (0, n % d)).1
          ≡ 10 ^ 6 * (0 * d + n % d))
        × ((ppm_digits 6 d (0, n % d)).1 < d)
    digits = ppm_digits_exact 6 d 0 (n % d) pos fit (mod-lt n pos) (omega (arith, mod-lt n pos))

    total :
        (n / d * 1000000 + (ppm_digits 6 d (0, n % d)).0) * d + (ppm_digits 6 d (0, n % d)).1
        ≡ n * 1000000
    total = omega (arith, digits.0, div-add-mod' n d)

    below : n / d * 1000000 + (ppm_digits 6 d (0, n % d)).0 < 2 ^ 64
    below = lt_of_mul-lt-mul_right d (omega (arith, total))

    same :
        u64 (n / d * 1000000 + (ppm_digits 6 d (0, n % d)).0)
        ≡ n / d * 1000000 + (ppm_digits 6 d (0, n % d)).0
    same = omega (arith, below)

limit_iff :
    (f r d limit : ℕ) → r < d → (ltb f limit || f == limit && r == 0) ≡ leb (f * d + r) (limit * d)
limit_iff f r d limit lt = elim (Bool-cases (ltb f limit)) [
  | inl below ↦
      let next : (f + 1) * d ≤ limit * d = mul-le-mul_right d (ground arith) in ground arith
  | inr above ↦ elim (Bool-cases (f == limit)) [
    | inl same ↦ let e : f ≡ limit = ==→eq f limit same in rw e (ground arith)
    | inr other ↦
        let next : (limit + 1) * d ≤ f * d = mul-le-mul_right d (ground arith) in ground arith
  ]
]

-- For a positive number of cycles, ten times which fit in 64 bits, and a quotient in millionths that fits in
-- 64 bits, `within_error_limit` compares exactly: the difference times a million, whether or not that
-- product fits in 64 bits, with the limit times the cycles.
pub within_error_limit_lem :
    (n d limit : ℕ)
    → 0 < d
    → d * 10 ≤ 2 ^ 64
    → n * 1000000 < 2 ^ 64 * d
    → within_error_limit n d limit ≡ leb (n * 1000000) (limit * d)
unfolding within_error_limit
within_error_limit_lem n d limit pos fit small =
    limit_iff (ppm_floor_and_remainder n d).0 (ppm_floor_and_remainder n d).1 d limit
      (ppm_floor_and_remainder_lem n d pos fit small).1
    ∙ ap (λ x. leb x (limit * d)) (ppm_floor_and_remainder_lem n d pos fit small).0
