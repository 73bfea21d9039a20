-- ===== src/Disk/Format/Layout.antt =====
-- The layout arithmetic in numbers: alignment, lengths of records, blocks of a snapshot.
use native.Mathlib.Nat.{div-add-mod', mod-lt}
use hc32f460jeua_evb.Base.{
  ℕ, ◌+◌, ◌-◌, ◌*◌, ◌/◌, ◌%◌, ◌≤◌, ◌<◌, ◌≡◌, refl, ap, subst, arith, none, some, ltb, ◌==◌,
  if◌then◌else◌, Bool-cases, inl, inr,
}
use hc32f460jeua_evb.Base.Bits.{bit_and-low}
use hc32f460jeua_evb.Base.Xor.{bit_and-ones, bit_and-zero}
use hc32f460jeua_evb.Disk.Crc.{word}
use hc32f460jeua_evb.Disk.Format.{
  down_4, is_aligned_4, checked_add, checked_mul, checked_align_4, wear_table_size,
  checked_record_len, checked_snapshot_span,
}

pub down_4_lem : (v : ℕ) → v < word → down_4 v ≡ v / 4 * 4
down_4_lem v h = omega (
  arith,
  bit_and-low v (word - 4),
  bit_and-low (v / 2) (word / 2 - 2),
  bit_and-ones 30 (v / 2 / 2) (omega arith),
)

pub is_aligned_4_lem : (v : ℕ) → is_aligned_4 v ≡ (v % 4 == 0)
unfolding is_aligned_4
is_aligned_4_lem v =
    ground (arith, bit_and-low v 3, bit_and-low (v / 2) 1, bit_and-zero (v / 2 / 2))

pub checked_align_4_lem :
    (v : ℕ) → checked_align_4 v ≡ (if ltb (v + 3) word then some ((v + 3) / 4 * 4) else none)
unfolding checked_align_4 checked_add
checked_align_4_lem v = elim (Bool-cases (ltb (v + 3) word)) [
  | inl e ↦ rw e (ap some (down_4_lem (v + 3) (ground arith)))
  | inr e ↦ rw e refl
]

pub wear_table_size_lem : (n : ℕ) → n ≤ 64 → wear_table_size n ≡ (2 * n + 3) / 4 * 4
unfolding wear_table_size checked_mul
wear_table_size_lem n h = ground (arith, checked_align_4_lem (n * 2))

-- The length of a record: header, name and content, rounded up to a program unit; no length if that
-- does not fit in 32 bits.
pub checked_record_len_lem :
    (n d : ℕ)
    → checked_record_len n d
      ≡ (if ltb (20 + n + d + 3) word then some ((20 + n + d + 3) / 4 * 4) else none)
unfolding checked_record_len checked_add
checked_record_len_lem n d = ground (arith, checked_align_4_lem (20 + n + d))

-- Rounded up, a quotient covers the number, and one less does not.
ceiling :
    (t b : ℕ)
    → 0 < b
    → (t ≤ (t / b + (if t % b == 0 then 0 else 1)) * b)
      × ((t / b + (if t % b == 0 then 0 else 1)) * b < t + b)
ceiling t b h = elim (Bool-cases (t % b == 0)) [
  | inl e ↦ rw e (grind (arith, div-add-mod' t b), grind (arith, div-add-mod' t b))
  | inr e ↦
      rw e
        (grind (arith, div-add-mod' t b, mod-lt t h), grind (arith, div-add-mod' t b, mod-lt t h))
]

-- A span holds header and payload, and one block less does not.
pub checked_snapshot_span-minimal :
    (p b s : ℕ)
    → checked_snapshot_span p b ≡ some s
    → (0 < b) × (64 + p ≤ s * b) × (s * b < 64 + p + b)
unfolding checked_snapshot_span checked_add
checked_snapshot_span-minimal p b s e =
    let pos : 0 < b = ground arith in
    let q : (64 + p) / b + (if (64 + p) % b == 0 then 0 else 1) ≡ s = ground arith in
    let (low, high) = ceiling (64 + p) b pos in
    (pos, subst (λ x. 64 + p ≤ x * b) q low, subst (λ x. x * b < 64 + p + b) q high)
