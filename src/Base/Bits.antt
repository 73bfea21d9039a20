-- ===== src/Base/Bits.antt =====
-- Single bits of a machine word at variables: what `1 << k`, `|` and `& !` do to each bit.
use Prim.Native.Nat.{
  ℕ, zero, suc, ◌+◌, ◌-◌, ◌*◌, ◌/◌, ◌%◌, ◌^◌, ◌≤◌, ◌<◌, min, max, digits, bit_and, bit_or,
  bit_and-bitwise, bit_or-bitwise,
}
use native.Mathlib.Nat.{pow-suc, pow-le-pow_right}
use mathlib.Core.Path.{◌≡◌, refl, ◌∙◌, ap}
use native.Mathlib.Omega.{arith}
use hc32f460jeua_evb.Base.Tests.{◌==◌, if◌then◌else◌}

module _ (rest : ℕ → ℕ) (digit : ℕ → ℕ → ℕ) where
  -- Fuel beyond the number itself changes nothing.
  pub spare_fuel :
      (more less a b : ℕ)
      → less ≤ more
      → a ≤ less
      → digits rest digit more a b ≡ digits rest digit less a b
  spare_fuel zero zero a b le fits = refl
  spare_fuel zero (suc l) a b le fits = absurd (omega arith)
  spare_fuel (suc m) zero zero b le fits = refl
  spare_fuel (suc m) zero (suc a) b le fits = absurd (omega arith)
  spare_fuel (suc m) (suc l) zero b le fits = refl
  spare_fuel (suc m) (suc l) (suc a) b le fits =
      rw (spare_fuel m l (suc a / 2) (b / 2) (omega arith) (omega arith))

pub bit_or-low : (a b : ℕ) → bit_or a b ≡ bit_or (a / 2) (b / 2) * 2 + max (a % 2) (b % 2)
bit_or-low zero b = simp bit_or-bitwise (omega arith)
bit_or-low (suc a) b = simp bit_or-bitwise (
    omega (
      arith,
      spare_fuel (λ y. y) max a (suc a / 2) (suc a / 2) (b / 2) (omega arith) (omega arith),
    ))

pub bit_and-low : (a b : ℕ) → bit_and a b ≡ bit_and (a / 2) (b / 2) * 2 + min (a % 2) (b % 2)
bit_and-low zero b = simp bit_and-bitwise (omega arith)
bit_and-low (suc a) b = simp bit_and-bitwise (
    omega (
      arith,
      spare_fuel (λ y. 0) min a (suc a / 2) (suc a / 2) (b / 2) (omega arith) (omega arith),
    ))

-- Bit `i` of a word, 0 or 1.
unfoldable pub bit_at : ℕ → ℕ → ℕ
bit_at a zero = a % 2
bit_at a (suc i) = bit_at (a / 2) i

-- `!(1 << k)` in a word of `w` bits.
abbrev pub clear_mask : ℕ → ℕ → ℕ
clear_mask w k = 2 ^ w - 1 - 2 ^ k

bit_at-or_halves : (a b i : ℕ) → bit_at (bit_or a b) (suc i) ≡ bit_at (bit_or (a / 2) (b / 2)) i
unfolding bit_at
bit_at-or_halves a b i =
    let e : bit_or a b / 2 ≡ bit_or (a / 2) (b / 2) = omega (arith, bit_or-low a b) in rw e

bit_at-and_halves : (a b i : ℕ) → bit_at (bit_and a b) (suc i) ≡ bit_at (bit_and (a / 2) (b / 2)) i
unfolding bit_at
bit_at-and_halves a b i =
    let e : bit_and a b / 2 ≡ bit_and (a / 2) (b / 2) = omega (arith, bit_and-low a b) in rw e

-- Bitwise, `|` is `max` and `&` is `min`.
pub bit_at-or : (i a b : ℕ) → bit_at (bit_or a b) i ≡ max (bit_at a i) (bit_at b i)
unfolding bit_at
bit_at-or zero a b = omega (arith, bit_or-low a b)
bit_at-or (suc i) a b = bit_at-or_halves a b i ∙ bit_at-or i (a / 2) (b / 2)

pub bit_at-and : (i a b : ℕ) → bit_at (bit_and a b) i ≡ min (bit_at a i) (bit_at b i)
unfolding bit_at
bit_at-and zero a b = omega (arith, bit_and-low a b)
bit_at-and (suc i) a b = bit_at-and_halves a b i ∙ bit_at-and i (a / 2) (b / 2)

pub bit_at-le : (i a : ℕ) → bit_at a i ≤ 1
unfolding bit_at
bit_at-le zero a = omega arith
bit_at-le (suc i) a = bit_at-le i (a / 2)

pub bit_at-zero : (i : ℕ) → bit_at 0 i ≡ 0
unfolding bit_at
bit_at-zero zero = refl
bit_at-zero (suc i) = bit_at-zero i

pub bit_at-pow : (k i : ℕ) → bit_at (2 ^ k) i ≡ (if k == i then 1 else 0)
unfolding bit_at
bit_at-pow zero zero = refl
bit_at-pow zero (suc i) = ground (arith, bit_at-zero i)
bit_at-pow (suc k) zero = ground (arith, pow-suc 2 k)
bit_at-pow (suc k) (suc i) =
    let e : 2 ^ suc k / 2 ≡ 2 ^ k = omega (arith, pow-suc 2 k) in
    rw e (ground (arith, bit_at-pow k i))

pub pow_mono : (k w : ℕ) → k ≤ w → 2 ^ k ≤ 2 ^ w
pow_mono k w h = pow-le-pow_right (omega arith) h

clear_mask-parts :
    (w k : ℕ)
    → k < w
    → (clear_mask (suc w) (suc k) / 2 ≡ clear_mask w k) × (clear_mask (suc w) (suc k) % 2 ≡ 1)
clear_mask-parts w k h =
    omega (
      arith,
      pow-suc 2 k,
      pow-suc 2 w,
      pow-suc 2 k,
      pow_mono (suc k) w h,
      pow_mono 0 k (omega arith),
    )

clear_mask-low : (w : ℕ) → (clear_mask (suc w) 0 / 2 ≡ 2 ^ w - 1) × (clear_mask (suc w) 0 % 2 ≡ 0)
clear_mask-low w = omega (arith, pow-suc 2 w, pow_mono 0 w (omega arith))

bit_at-ones : (w i : ℕ) → i < w → bit_at (2 ^ w - 1) i ≡ 1
unfolding bit_at
bit_at-ones zero i h = absurd (omega arith)
bit_at-ones (suc w) zero h = omega (arith, pow-suc 2 w, pow_mono 0 w (omega arith))
bit_at-ones (suc w) (suc i) h =
    let e : (2 ^ suc w - 1) / 2 ≡ 2 ^ w - 1 =
      omega (arith, pow-suc 2 w, pow_mono 0 w (omega arith)) in
    rw e (bit_at-ones w i (omega arith))

pub bit_at-clear_mask :
    (w k i : ℕ) → k < w → i < w → bit_at (clear_mask w k) i ≡ (if k == i then 0 else 1)
unfolding bit_at
bit_at-clear_mask zero k i hk hi = absurd (omega arith)
bit_at-clear_mask (suc w) zero zero hk hi = (clear_mask-low w).1
bit_at-clear_mask (suc w) zero (suc i) hk hi =
    rw (clear_mask-low w).0 (ground (arith, bit_at-ones w i))
bit_at-clear_mask (suc w) (suc k) zero hk hi = ground (arith, clear_mask-parts w k)
bit_at-clear_mask (suc w) (suc k) (suc i) hk hi =
    rw (clear_mask-parts w k (omega arith)).0 (ground (arith, bit_at-clear_mask w k i))

pub bit_or-lt : (w a b : ℕ) → a < 2 ^ w → b < 2 ^ w → bit_or a b < 2 ^ w
bit_or-lt zero a b ha hb =
    omega (arith, bit_or-low a b, ap (λ x. bit_or x b) (zero_of a ha), bit_or-zero b)
  where
    zero_of : (x : ℕ) → x < 2 ^ 0 → x ≡ 0
    zero_of x h = omega arith

    bit_or-zero : (x : ℕ) → bit_or 0 x ≡ x
    bit_or-zero x = simp bit_or-bitwise
bit_or-lt (suc w) a b ha hb = omega (
  arith,
  bit_or-low a b,
  pow-suc 2 w,
  bit_or-lt w (a / 2) (b / 2) (omega (arith, pow-suc 2 w)) (omega (arith, pow-suc 2 w)),
)

pub bit_and-lt : (w a b : ℕ) → a < 2 ^ w → bit_and a b < 2 ^ w
bit_and-lt zero a b ha =
    omega (arith, bit_and-low a b, ap (λ x. bit_and x b) (zero_of a ha), bit_and-zero b)
  where
    zero_of : (x : ℕ) → x < 2 ^ 0 → x ≡ 0
    zero_of x h = omega arith

    bit_and-zero : (x : ℕ) → bit_and 0 x ≡ 0
    bit_and-zero x = simp bit_and-bitwise
bit_and-lt (suc w) a b ha =
    omega (
      arith,
      bit_and-low a b,
      pow-suc 2 w,
      bit_and-lt w (a / 2) (b / 2) (omega (arith, pow-suc 2 w)),
    )

ext_below : (fuel a b : ℕ) → a ≤ fuel → b ≤ fuel → ((i : ℕ) → bit_at a i ≡ bit_at b i) → a ≡ b
unfolding bit_at
ext_below zero a b ha hb h = omega arith
ext_below (suc fuel) zero zero ha hb h = refl
ext_below (suc fuel) zero (suc b) ha hb h =
    omega (arith, h 0, ext_below fuel 0 (suc b / 2) (omega arith) (omega arith) (λ i. h (suc i)))
ext_below (suc fuel) (suc a) b ha hb h =
    omega
      (arith, h 0, ext_below fuel (suc a / 2) (b / 2) (omega arith) (omega arith) (λ i. h (suc i)))

-- Two words with the same bits are one.
pub bit_ext : (a b : ℕ) → ((i : ℕ) → bit_at a i ≡ bit_at b i) → a ≡ b
bit_ext a b h = ext_below (a + b) a b (omega arith) (omega arith) h

-- Every bit of the first is one of the second.
abbrev pub Subset : ℕ → ℕ → Type 0
Subset a b = (i : ℕ) → bit_at a i ≤ bit_at b i

pub bit_and-Subset : (a b : ℕ) → Subset (bit_and a b) a
bit_and-Subset a b i = omega (arith, bit_at-and i a b)

pub bit_and-Subset_right : (a b : ℕ) → Subset (bit_and a b) b
bit_and-Subset_right a b i = omega (arith, bit_at-and i a b)

pub bit_and_mono : (a b w : ℕ) → Subset a b → Subset (bit_and a w) (bit_and b w)
bit_and_mono a b w h i = omega (arith, bit_at-and i a w, bit_at-and i b w, h i)

pub Subset-antisymm : (a b : ℕ) → Subset a b → Subset b a → a ≡ b
Subset-antisymm a b h g = bit_ext a b (λ i. omega (arith, h i, g i))

pub Subset-zero : (a : ℕ) → Subset a 0 → a ≡ 0
Subset-zero a h = bit_ext a 0 (λ i. omega (arith, h i, bit_at-zero i))
