-- ===== src/Disk/Crc.antt =====
-- CRC-32/MPEG-2 of crates/littlefs/src/format.rs. A state is a word of 32 bits.
use Prim.Native.Nat.{bit_and, bit_xor}
use hc32f460jeua_evb.Base.{
  ℕ, zero, suc, ◌*◌, ◌%◌, ◌^◌, ◌<◌, ◌≡◌, ◌≢◌, refl, sym, ◌∙◌, arith, [], ◌∷◌, ◌++◌, ltb, ◌==◌,
  if◌then◌else◌, Bool-cases, inl, inr,
}
use hc32f460jeua_evb.Base.Text.{Bytes, codes}
use hc32f460jeua_evb.Base.Xor.{bit_xor-low, bit_xor-inj, bit_xor-inj_right, bit_xor-lt, bit_and-pow}

abbrev pub word : ℕ
word = 2 ^ 32

abbrev pub crc32_mpeg2_polynomial : ℕ
crc32_mpeg2_polynomial = 0x04c11db7

abbrev pub crc32_mpeg2_initial : ℕ
crc32_mpeg2_initial = 0xffffffff

-- One turn of the inner loop: a shift, which drops the top bit.
unfoldable pub crc_bit : ℕ → ℕ
crc_bit state =
    let shifted = (state * 2) % word in
    if bit_and state 0x80000000 == 0 then shifted else bit_xor shifted crc32_mpeg2_polynomial

-- The inner loop
unfoldable pub crc_bits : ℕ → ℕ → ℕ
crc_bits zero state = state
crc_bits (suc n) state = crc_bits n (crc_bit state)

unfoldable pub crc_byte : ℕ → ℕ → ℕ
crc_byte state byte = crc_bits 8 (bit_xor state ((byte * 2 ^ 24) % word))

unfoldable pub crc32_mpeg2_update : ℕ → Bytes → ℕ
crc32_mpeg2_update state [] = state
crc32_mpeg2_update state (byte ∷ bytes) = crc32_mpeg2_update (crc_byte state byte) bytes

unfoldable pub crc32_mpeg2 : Bytes → ℕ
crc32_mpeg2 bytes = crc32_mpeg2_update crc32_mpeg2_initial bytes

check_value : crc32_mpeg2 (codes "123456789") ≡ 0x0376e6e7
unfolding crc32_mpeg2 crc32_mpeg2_update crc_byte crc_bits crc_bit
check_value = refl

abbrev pub IsByte : ℕ → Type 0
IsByte b = b < 256

crc_bit-lt : (s : ℕ) → s < word → crc_bit s < word
unfolding crc_bit
crc_bit-lt s h = elim (Bool-cases (bit_and s 0x80000000 == 0)) [
  | inl e ↦ rw e (omega arith)
  | inr e ↦ rw e (bit_xor-lt 32 ((s * 2) % word) crc32_mpeg2_polynomial (omega arith) (omega arith))
]

crc_bits-lt : (n s : ℕ) → s < word → crc_bits n s < word
unfolding crc_bits
crc_bits-lt zero s h = h
crc_bits-lt (suc n) s h = crc_bits-lt n (crc_bit s) (crc_bit-lt s h)

top_bit : (s : ℕ) → s < word → (bit_and s 0x80000000 == 0) ≡ ltb s 0x80000000
top_bit s h = ground (arith, bit_and-pow 31 s h)

-- The lowest bit of the polynomial is set: a shifted state shows what was shifted out.
crc_bit-inj : (s t : ℕ) → s < word → t < word → crc_bit s ≡ crc_bit t → s ≡ t
unfolding crc_bit
crc_bit-inj s t hs ht e = ground (
  arith,
  top_bit s hs,
  top_bit t ht,
  bit_xor-low ((s * 2) % word) crc32_mpeg2_polynomial,
  bit_xor-low ((t * 2) % word) crc32_mpeg2_polynomial,
  bit_xor-inj ((s * 2) % word) ((t * 2) % word) crc32_mpeg2_polynomial,
)

crc_bits-inj : (n s t : ℕ) → s < word → t < word → crc_bits n s ≡ crc_bits n t → s ≡ t
unfolding crc_bits
crc_bits-inj zero s t hs ht e = e
crc_bits-inj (suc n) s t hs ht e =
    crc_bit-inj s t hs ht
      (crc_bits-inj n (crc_bit s) (crc_bit t) (crc_bit-lt s hs) (crc_bit-lt t ht) e)

mixed-lt : (s b : ℕ) → s < word → bit_xor s ((b * 2 ^ 24) % word) < word
mixed-lt s b h = bit_xor-lt 32 s ((b * 2 ^ 24) % word) h (omega arith)

crc_byte-lt : (s b : ℕ) → s < word → crc_byte s b < word
unfolding crc_byte
crc_byte-lt s b h = crc_bits-lt 8 _ (mixed-lt s b h)

crc_byte-inj : (s t b : ℕ) → s < word → t < word → crc_byte s b ≡ crc_byte t b → s ≡ t
unfolding crc_byte
crc_byte-inj s t b hs ht e =
    bit_xor-inj s t _ (crc_bits-inj 8 _ _ (mixed-lt s b hs) (mixed-lt t b ht) e)

crc_byte-inj_byte :
    (s a b : ℕ) → s < word → IsByte a → IsByte b → crc_byte s a ≡ crc_byte s b → a ≡ b
unfolding crc_byte
crc_byte-inj_byte s a b hs ha hb e = omega (
  arith,
  bit_xor-inj_right s ((a * 2 ^ 24) % word) ((b * 2 ^ 24) % word)
      (crc_bits-inj 8 _ _ (mixed-lt s a hs) (mixed-lt s b hs) e),
)

pub crc32_mpeg2_update-lt : (s : ℕ) (bytes : Bytes) → s < word → crc32_mpeg2_update s bytes < word
unfolding crc32_mpeg2_update
crc32_mpeg2_update-lt s [] h = h
crc32_mpeg2_update-lt s (b ∷ bytes) h =
    crc32_mpeg2_update-lt (crc_byte s b) bytes (crc_byte-lt s b h)

pub crc32_mpeg2-lt : (bytes : Bytes) → crc32_mpeg2 bytes < word
unfolding crc32_mpeg2
crc32_mpeg2-lt bytes = crc32_mpeg2_update-lt crc32_mpeg2_initial bytes (omega arith)

update-inj :
    (s t : ℕ) (bytes : Bytes)
    → s < word
    → t < word
    → crc32_mpeg2_update s bytes ≡ crc32_mpeg2_update t bytes
    → s ≡ t
unfolding crc32_mpeg2_update
update-inj s t [] hs ht e = e
update-inj s t (b ∷ bytes) hs ht e =
    crc_byte-inj s t b hs ht
      (update-inj (crc_byte s b) (crc_byte t b) bytes (crc_byte-lt s b hs) (crc_byte-lt t b ht) e)

-- Feeding a text in pieces gives the checksum of the whole.
pub crc32_mpeg2_update-append :
    (s : ℕ) (xs ys : Bytes)
    → crc32_mpeg2_update s (xs ++ ys) ≡ crc32_mpeg2_update (crc32_mpeg2_update s xs) ys
unfolding crc32_mpeg2_update
crc32_mpeg2_update-append s [] ys = refl
crc32_mpeg2_update-append s (x ∷ xs) ys = crc32_mpeg2_update-append (crc_byte s x) xs ys

-- Texts that differ in one byte have different checksums.
pub crc32_mpeg2_detects :
    (xs : Bytes) (a b : ℕ) (ys : Bytes)
    → IsByte a
    → IsByte b
    → a ≢ b
    → crc32_mpeg2 (xs ++ a ∷ ys) ≢ crc32_mpeg2 (xs ++ b ∷ ys)
unfolding crc32_mpeg2 crc32_mpeg2_update
crc32_mpeg2_detects xs a b ys ha hb n e =
    let s = crc32_mpeg2_update crc32_mpeg2_initial xs in
    let h = crc32_mpeg2_update-lt crc32_mpeg2_initial xs (omega arith) in
    let f =
      sym (crc32_mpeg2_update-append crc32_mpeg2_initial xs (a ∷ ys))
      ∙ e
      ∙ crc32_mpeg2_update-append crc32_mpeg2_initial xs (b ∷ ys) in
    n (
      crc_byte-inj_byte s a b h ha hb
        (update-inj (crc_byte s a) (crc_byte s b) ys (crc_byte-lt s a h) (crc_byte-lt s b h) f))
