-- ===== src/Can/Order.antt =====
-- The order of the search in can_timing.rs: by bit rate error, then sample point error, both as exact
-- fractions, then by the number of time quanta.
use native.Mathlib.Nat.{
  lt_of_mul-lt-mul_right, mul-lt-mul_of_pos_right, mul-le-mul_right, le_of_mul-le-mul_right,
  mul-le-mul, mod-eq_of_lt,
}
use hc32f460jeua_evb.Base.{
  ℕ, ◌*◌, ◌^◌, ◌≤◌, ◌<◌, ◌≡◌, refl, sym, ◌∙◌, ltb, ◌==◌, if◌then◌else◌, Bool, true, not, arith,
  Bool-cases, inl, inr,
}
use hc32f460jeua_evb.Can.{u64, Errors, is_better}

-- Fractions `a / x`, `b / y` and `c / z`.
module _ (a x b y c z : ℕ) (pos : 0 < y) where
  pub lt-le_trans : 0 < z → a * y < b * x → b * z ≤ c * y → a * z < c * x
  lt-le_trans pz h g = lt_of_mul-lt-mul_right y {m = a * z} {n = c * x} (
      let m : a * y * z < b * x * z = mul-lt-mul_of_pos_right h pz in
      let n : b * z * x ≤ c * y * x = mul-le-mul_right x g in omega (arith, m, n))

  pub le-lt_trans : 0 < x → a * y ≤ b * x → b * z < c * y → a * z < c * x
  le-lt_trans px h g = lt_of_mul-lt-mul_right y {m = a * z} {n = c * x} (
      let m : a * y * z ≤ b * x * z = mul-le-mul_right z h in
      let n : b * z * x < c * y * x = mul-lt-mul_of_pos_right g px in omega (arith, m, n))

  pub le-le_trans : a * y ≤ b * x → b * z ≤ c * y → a * z ≤ c * x
  le-le_trans h g =
      le_of_mul-le-mul_right {m = a * z} {n = c * x} {k = y}
        (let m : a * y * z ≤ b * x * z = mul-le-mul_right z h in
          let n : b * z * x ≤ c * y * x = mul-le-mul_right x g in omega (arith, m, n))
        pos

-- `c` comes before `i`.
pub data Before (c i : Errors) : Type 0 where
  by_rate : c.bitrate_difference * i.divisor < i.bitrate_difference * c.divisor → Before c i
  by_sample :
      c.bitrate_difference * i.divisor ≡ i.bitrate_difference * c.divisor
      → c.sample_difference * i.total_tq < i.sample_difference * c.total_tq
      → Before c i
  by_tq :
      c.bitrate_difference * i.divisor ≡ i.bitrate_difference * c.divisor
      → c.sample_difference * i.total_tq ≡ i.sample_difference * c.total_tq
      → i.total_tq < c.total_tq
      → Before c i

rate_le :
    (c i : Errors)
    → Before c i
    → c.bitrate_difference * i.divisor ≤ i.bitrate_difference * c.divisor
rate_le c i (Before.by_rate h) = omega arith
rate_le c i (Before.by_sample e h) = omega arith
rate_le c i (Before.by_tq e f h) = omega arith

-- The sizes below which no product of the comparison wraps.
pub record InRange (e : Errors) : Type 0 where
  pub rate : e.bitrate_difference ≤ 2 ^ 36
  pub divisor_pos : 0 < e.divisor
  pub divisor_le : e.divisor ≤ 2 ^ 16
  pub sample : e.sample_difference ≤ 2 ^ 20
  pub tq_pos : 0 < e.total_tq
  pub tq_le : e.total_tq ≤ 73

pub mul-le_of : (a b m n : ℕ) → a ≤ m → b ≤ n → a * b ≤ m * n
mul-le_of a b m n h g = mul-le-mul h g

same_product : (a b m n : ℕ) → a ≤ m → b ≤ n → m * n < 2 ^ 64 → u64 (a * b) ≡ a * b
same_product a b m n h g lt = mod-eq_of_lt (omega (arith, mul-le_of a b m n h g))

abbrev before : (rate rate' sample sample' tq tq' : ℕ) → Bool
before rate rate' sample sample' tq tq' =
    if not (rate == rate')
    then ltb rate rate'
    else if not (sample == sample')
    then ltb sample sample'
    else ltb tq' tq

is_better-before :
    (c i : Errors)
    → InRange c
    → InRange i
    → is_better c i
      ≡ before
          (c.bitrate_difference * i.divisor)
          (i.bitrate_difference * c.divisor)
          (c.sample_difference * i.total_tq)
          (i.sample_difference * c.total_tq)
          c.total_tq
          i.total_tq
unfolding is_better
is_better-before c i u v =
    rw
      (
        same_product c.bitrate_difference i.divisor (2 ^ 36) (2 ^ 16) u.rate v.divisor_le
            (omega arith),
        same_product i.bitrate_difference c.divisor (2 ^ 36) (2 ^ 16) v.rate u.divisor_le
            (omega arith),
        same_product c.sample_difference i.total_tq (2 ^ 20) 73 u.sample v.tq_le (omega arith),
        same_product i.sample_difference c.total_tq (2 ^ 20) 73 v.sample u.tq_le (omega arith),
      )
      refl

-- The test of the search is this order: no product of it wraps.
pub is_better-Before : (c i : Errors) → InRange c → InRange i → is_better c i ≡ true → Before c i
is_better-Before c i u v h = of_test (sym (is_better-before c i u v) ∙ h)
  where
    of_test :
        before
            (c.bitrate_difference * i.divisor)
            (i.bitrate_difference * c.divisor)
            (c.sample_difference * i.total_tq)
            (i.sample_difference * c.total_tq)
            c.total_tq
            i.total_tq
          ≡ true
        → Before c i
    of_test t =
        elim (Bool-cases (c.bitrate_difference * i.divisor == i.bitrate_difference * c.divisor)) [
          | inr e ↦ Before.by_rate (ground arith)
          | inl e ↦
              elim (Bool-cases
                (c.sample_difference * i.total_tq == i.sample_difference * c.total_tq)) [
                  | inr f ↦ Before.by_sample (ground arith) (ground arith)
                  | inl f ↦ Before.by_tq (ground arith) (ground arith) (ground arith)
                ]
        ]

before-of :
    (c i : Errors)
    → Before c i
    → before
        (c.bitrate_difference * i.divisor)
        (i.bitrate_difference * c.divisor)
        (c.sample_difference * i.total_tq)
        (i.sample_difference * c.total_tq)
        c.total_tq
        i.total_tq
      ≡ true
before-of c i (Before.by_rate h) = ground arith
before-of c i (Before.by_sample e h) = ground arith
before-of c i (Before.by_tq e f h) = ground arith

pub Before-is_better : (c i : Errors) → InRange c → InRange i → Before c i → is_better c i ≡ true
Before-is_better c i u v h = is_better-before c i u v ∙ before-of c i h

module _ (a x b y c z : ℕ) (pos : 0 < y) where
  eq-eq_trans : a * y ≡ b * x → b * z ≡ c * y → a * z ≡ c * x
  eq-eq_trans h g = omega (
    arith,
    le-le_trans a x b y c z pos (omega arith) (omega arith),
    le-le_trans c z b y a x pos (omega arith) (omega arith),
  )

pub Before-trans :
    (a b c : Errors) → InRange a → InRange b → InRange c → Before a b → Before b c → Before a c
Before-trans a b c u v w h g = trans h g
  where
    lt-le :
        a.bitrate_difference * b.divisor < b.bitrate_difference * a.divisor
        → b.bitrate_difference * c.divisor ≤ c.bitrate_difference * b.divisor
        → a.bitrate_difference * c.divisor < c.bitrate_difference * a.divisor
    lt-le =
        lt-le_trans a.bitrate_difference a.divisor b.bitrate_difference b.divisor
          c.bitrate_difference c.divisor v.divisor_pos w.divisor_pos

    le-lt :
        a.bitrate_difference * b.divisor ≤ b.bitrate_difference * a.divisor
        → b.bitrate_difference * c.divisor < c.bitrate_difference * b.divisor
        → a.bitrate_difference * c.divisor < c.bitrate_difference * a.divisor
    le-lt =
        le-lt_trans a.bitrate_difference a.divisor b.bitrate_difference b.divisor
          c.bitrate_difference c.divisor v.divisor_pos u.divisor_pos

    eq-eq :
        a.bitrate_difference * b.divisor ≡ b.bitrate_difference * a.divisor
        → b.bitrate_difference * c.divisor ≡ c.bitrate_difference * b.divisor
        → a.bitrate_difference * c.divisor ≡ c.bitrate_difference * a.divisor
    eq-eq =
        eq-eq_trans a.bitrate_difference a.divisor b.bitrate_difference b.divisor
          c.bitrate_difference c.divisor v.divisor_pos

    slt-le :
        a.sample_difference * b.total_tq < b.sample_difference * a.total_tq
        → b.sample_difference * c.total_tq ≤ c.sample_difference * b.total_tq
        → a.sample_difference * c.total_tq < c.sample_difference * a.total_tq
    slt-le =
        lt-le_trans a.sample_difference a.total_tq b.sample_difference b.total_tq
          c.sample_difference c.total_tq v.tq_pos w.tq_pos

    sle-lt :
        a.sample_difference * b.total_tq ≤ b.sample_difference * a.total_tq
        → b.sample_difference * c.total_tq < c.sample_difference * b.total_tq
        → a.sample_difference * c.total_tq < c.sample_difference * a.total_tq
    sle-lt =
        le-lt_trans a.sample_difference a.total_tq b.sample_difference b.total_tq
          c.sample_difference c.total_tq v.tq_pos u.tq_pos

    seq-eq :
        a.sample_difference * b.total_tq ≡ b.sample_difference * a.total_tq
        → b.sample_difference * c.total_tq ≡ c.sample_difference * b.total_tq
        → a.sample_difference * c.total_tq ≡ c.sample_difference * a.total_tq
    seq-eq =
        eq-eq_trans a.sample_difference a.total_tq b.sample_difference b.total_tq
          c.sample_difference c.total_tq v.tq_pos

    trans : Before a b → Before b c → Before a c
    trans (Before.by_rate h) g = Before.by_rate (lt-le h (rate_le b c g))
    trans (Before.by_sample e h) (Before.by_rate g) = Before.by_rate (le-lt (omega arith) g)
    trans (Before.by_sample e h) (Before.by_sample d g) =
        Before.by_sample (eq-eq e d) (slt-le h (omega arith))
    trans (Before.by_sample e h) (Before.by_tq d f g) =
        Before.by_sample (eq-eq e d) (slt-le h (omega arith))
    trans (Before.by_tq e f h) (Before.by_rate g) = Before.by_rate (le-lt (omega arith) g)
    trans (Before.by_tq e f h) (Before.by_sample d g) =
        Before.by_sample (eq-eq e d) (sle-lt (omega arith) g)
    trans (Before.by_tq e f h) (Before.by_tq d k g) =
        Before.by_tq (eq-eq e d) (seq-eq f k) (omega arith)
