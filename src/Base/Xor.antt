-- ===== src/Base/Xor.antt =====
-- Exclusive or, single bits and masks of machine words at variables.
use Prim.Native.Nat.{
  ℕ, zero, suc, ◌+◌, ◌-◌, ◌*◌, ◌/◌, ◌%◌, ◌^◌, ◌≤◌, ◌<◌, differ, bit_and, bit_or, bit_or-bitwise,
  bit_xor, bit_xor-bitwise,
}
use native.Mathlib.Nat.{pow-suc}
use mathlib.Core.Path.{◌≡◌, refl, ap, ap₂}
use native.Mathlib.Omega.{arith}
use hc32f460jeua_evb.Base.Bits.{spare_fuel, bit_and-low, bit_or-low, pow_mono}
use hc32f460jeua_evb.Base.Tests.{ltb, if◌then◌else◌}

bit_xor-differ : (a b : ℕ) → bit_xor a b ≡ bit_xor (a / 2) (b / 2) * 2 + differ (a % 2) (b % 2)
bit_xor-differ zero b = simp bit_xor-bitwise (omega arith)
bit_xor-differ (suc a) b = simp bit_xor-bitwise (
    omega (
      arith,
      spare_fuel (λ y. y) differ a (suc a / 2) (suc a / 2) (b / 2) (omega arith) (omega arith),
    ))

differ_bits : (x y : ℕ) → x < 2 → y < 2 → differ x y ≡ (x + y) % 2
differ_bits zero y h g = omega arith
differ_bits (suc zero) zero h g = refl
differ_bits (suc zero) (suc zero) h g = refl
differ_bits (suc zero) (suc (suc y)) h g = absurd (omega arith)
differ_bits (suc (suc x)) y h g = absurd (omega arith)

pub bit_xor-low : (a b : ℕ) → bit_xor a b ≡ bit_xor (a / 2) (b / 2) * 2 + (a + b) % 2
bit_xor-low a b =
    omega (arith, bit_xor-differ a b, differ_bits (a % 2) (b % 2) (omega arith) (omega arith))

xor_inj_below : (fuel a b c : ℕ) → a ≤ fuel → b ≤ fuel → bit_xor a c ≡ bit_xor b c → a ≡ b
xor_inj_below zero a b c p q e = omega arith
xor_inj_below (suc fuel) zero zero c p q e = refl
xor_inj_below (suc fuel) zero (suc b) c p q e =
    let l = bit_xor-low 0 c in
    let r = bit_xor-low (suc b) c in
    let h =
      xor_inj_below fuel 0 (suc b / 2) (c / 2) (omega arith) (omega arith)
        (omega (arith, l, r, e)) in
    omega (arith, l, r, e, h)
xor_inj_below (suc fuel) (suc a) b c p q e =
    let l = bit_xor-low (suc a) c in
    let r = bit_xor-low b c in
    let h =
      xor_inj_below fuel (suc a / 2) (b / 2) (c / 2) (omega arith) (omega arith)
        (omega (arith, l, r, e)) in
    omega (arith, l, r, e, h)

-- Exclusive or with the same word loses nothing.
pub bit_xor-inj : (a b c : ℕ) → bit_xor a c ≡ bit_xor b c → a ≡ b
bit_xor-inj a b c e = xor_inj_below (a + b) a b c (omega arith) (omega arith) e

xor_inj_right_below : (fuel c a b : ℕ) → a ≤ fuel → b ≤ fuel → bit_xor c a ≡ bit_xor c b → a ≡ b
xor_inj_right_below zero c a b p q e = omega arith
xor_inj_right_below (suc fuel) c zero zero p q e = refl
xor_inj_right_below (suc fuel) c zero (suc b) p q e =
    let l = bit_xor-low c 0 in
    let r = bit_xor-low c (suc b) in
    let h =
      xor_inj_right_below fuel (c / 2) 0 (suc b / 2) (omega arith) (omega arith)
        (omega (arith, l, r, e)) in
    omega (arith, l, r, e, h)
xor_inj_right_below (suc fuel) c (suc a) b p q e =
    let l = bit_xor-low c (suc a) in
    let r = bit_xor-low c b in
    let h =
      xor_inj_right_below fuel (c / 2) (suc a / 2) (b / 2) (omega arith) (omega arith)
        (omega (arith, l, r, e)) in
    omega (arith, l, r, e, h)

pub bit_xor-inj_right : (c a b : ℕ) → bit_xor c a ≡ bit_xor c b → a ≡ b
bit_xor-inj_right c a b e = xor_inj_right_below (a + b) c a b (omega arith) (omega arith) e

pub bit_xor-lt : (w a b : ℕ) → a < 2 ^ w → b < 2 ^ w → bit_xor a b < 2 ^ w
bit_xor-lt zero zero zero ha hb = omega arith
bit_xor-lt zero zero (suc b) ha hb = absurd (omega arith)
bit_xor-lt zero (suc a) b ha hb = absurd (omega arith)
bit_xor-lt (suc w) a b ha hb = omega (
  arith,
  bit_xor-low a b,
  pow-suc 2 w,
  bit_xor-lt w (a / 2) (b / 2) (omega (arith, pow-suc 2 w)) (omega (arith, pow-suc 2 w)),
)

and_zero_below : (fuel a : ℕ) → a ≤ fuel → bit_and a 0 ≡ 0
and_zero_below zero zero h = refl
and_zero_below zero (suc a) h = absurd (omega arith)
and_zero_below (suc fuel) zero h = refl
and_zero_below (suc fuel) (suc a) h =
    omega (arith, bit_and-low (suc a) 0, and_zero_below fuel (suc a / 2) (omega arith))

pub bit_and-zero : (a : ℕ) → bit_and a 0 ≡ 0
bit_and-zero a = and_zero_below a a (omega arith)

-- A mask of ones leaves a number of its width as it is.
pub bit_and-ones : (w a : ℕ) → a < 2 ^ w → bit_and a (2 ^ w - 1) ≡ a
bit_and-ones zero zero h = refl
bit_and-ones zero (suc a) h = absurd (omega arith)
bit_and-ones (suc w) a h =
    let m : (2 ^ suc w - 1) / 2 ≡ 2 ^ w - 1 =
      omega (arith, pow-suc 2 w, pow_mono 0 w (omega arith)) in
    let o : (2 ^ suc w - 1) % 2 ≡ 1 = omega (arith, pow-suc 2 w, pow_mono 0 w (omega arith)) in
    let r = bit_and-ones w (a / 2) (omega (arith, pow-suc 2 w)) in
    omega (arith, bit_and-low a (2 ^ suc w - 1), ap (bit_and (a / 2)) m, r, o)

-- The test of one bit
pub bit_and-pow :
    (k a : ℕ) → a < 2 ^ suc k → bit_and a (2 ^ k) ≡ (if ltb a (2 ^ k) then 0 else 2 ^ k)
bit_and-pow zero zero h = refl
bit_and-pow zero (suc zero) h = refl
bit_and-pow zero (suc (suc a)) h = absurd (omega arith)
bit_and-pow (suc k) a h =
    let m : 2 ^ suc k / 2 ≡ 2 ^ k = omega (arith, pow-suc 2 k) in
    let o : 2 ^ suc k % 2 ≡ 0 = omega (arith, pow-suc 2 k) in
    let r = bit_and-pow k (a / 2) (omega (arith, pow-suc 2 k, pow-suc 2 (suc k))) in
    ground (arith, bit_and-low a (2 ^ suc k), ap (bit_and (a / 2)) m, r, o, pow-suc 2 k)

-- A mask of ones drops the bit above it.
pub bit_and-ones_high : (w b : ℕ) → b < 2 ^ w → bit_and (2 ^ w + b) (2 ^ w - 1) ≡ b
bit_and-ones_high zero zero h = refl
bit_and-ones_high zero (suc b) h = absurd (omega arith)
bit_and-ones_high (suc w) b h =
    let p = pow_mono 0 w (omega arith) in
    let m : (2 ^ suc w - 1) / 2 ≡ 2 ^ w - 1 = omega (arith, pow-suc 2 w, p) in
    let o : (2 ^ suc w - 1) % 2 ≡ 1 = omega (arith, pow-suc 2 w, p) in
    let d : (2 ^ suc w + b) / 2 ≡ 2 ^ w + b / 2 = omega (arith, pow-suc 2 w) in
    let r = bit_and-ones_high w (b / 2) (omega (arith, pow-suc 2 w)) in
    omega (arith, bit_and-low (2 ^ suc w + b) (2 ^ suc w - 1), ap₂ bit_and d m, r, o, pow-suc 2 w)

or_zero_below : (fuel a : ℕ) → a ≤ fuel → bit_or a 0 ≡ a
or_zero_below zero zero h = refl
or_zero_below zero (suc a) h = absurd (omega arith)
or_zero_below (suc fuel) zero h = refl
or_zero_below (suc fuel) (suc a) h =
    omega (arith, bit_or-low (suc a) 0, or_zero_below fuel (suc a / 2) (omega arith))

pub bit_or-zero : (a : ℕ) → bit_or a 0 ≡ a
bit_or-zero a = or_zero_below a a (omega arith)

-- Setting the bit above a number
pub bit_or-pow : (k a : ℕ) → a < 2 ^ k → bit_or a (2 ^ k) ≡ a + 2 ^ k
bit_or-pow zero zero h = refl
bit_or-pow zero (suc a) h = absurd (omega arith)
bit_or-pow (suc k) a h =
    let m : 2 ^ suc k / 2 ≡ 2 ^ k = omega (arith, pow-suc 2 k) in
    let r = bit_or-pow k (a / 2) (omega (arith, pow-suc 2 k)) in
    omega (arith, bit_or-low a (2 ^ suc k), ap (bit_or (a / 2)) m, r, pow-suc 2 k)

doubled : (b k : ℕ) → b * 2 ^ suc k ≡ b * 2 ^ k * 2
doubled b k = grind (arith, pow-suc 2 k)

bit_or-left_zero : (b : ℕ) → bit_or 0 b ≡ b
bit_or-left_zero b = simp bit_or-bitwise

-- Bits side by side
pub bit_or-shift : (k a b : ℕ) → a < 2 ^ k → bit_or a (b * 2 ^ k) ≡ a + b * 2 ^ k
bit_or-shift zero zero b h = omega (arith, bit_or-left_zero (b * 2 ^ 0))
bit_or-shift zero (suc a) b h = absurd (omega arith)
bit_or-shift (suc k) a b h =
    let d = doubled b k in
    let m : b * 2 ^ suc k / 2 ≡ b * 2 ^ k = omega (arith, d) in
    let r = bit_or-shift k (a / 2) b (omega (arith, pow-suc 2 k)) in
    omega (arith, bit_or-low a (b * 2 ^ suc k), ap (bit_or (a / 2)) m, r, d)
