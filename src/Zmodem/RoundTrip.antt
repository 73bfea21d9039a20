-- ===== src/Zmodem/RoundTrip.antt =====
-- What was escaped and sent is read back.
use Prim.Native.Nat.{bit_and}
use hc32f460jeua_evb.Base.{
  ℕ, ◌+◌, ◌*◌, ◌/◌, ◌%◌, ◌^◌, ◌<◌, ◌≡◌, refl, sym, subst, arith, Bool, true, false, ◌||◌, [], ◌∷◌,
  ◌++◌, append_assoc, ◌==◌, Bool-cases, inl, inr, ◌⊎◌,
}
use hc32f460jeua_evb.Base.Text.{Bytes}
use hc32f460jeua_evb.Base.Xor.{bit_or-shift}
use hc32f460jeua_evb.Zmodem.{
  zdle, xon, xoff, SendClass, send_class, escaped, send_as, send, send_all, data_byte, read,
  is_flow, escape_loop, control_loop, zdlread, stohdr, rclhdr,
}

-- The bytes that are ever escaped
abbrev Special : ℕ → Type 0
Special b =
    (b ≡ 0x18)
    ⊎ (b ≡ 0x11)
    ⊎ (b ≡ 0x13)
    ⊎ (b ≡ 0x91)
    ⊎ (b ≡ 0x93)
    ⊎ (b ≡ 0x10)
    ⊎ (b ≡ 0x90)
    ⊎ (b ≡ 0x0d)
    ⊎ (b ≡ 0x8d)

-- A byte goes as it is and is read as it is, or it is one of those that are escaped.
escaped_back :
    (b : ℕ) (rest : Bytes) → Special b → zdlread ((escaped b).0 ++ rest) ≡ read (data_byte b) rest
unfolding zdlread control_loop escape_loop
escaped_back b rest (inl e) = rw e refl
escaped_back b rest (inr (inl e)) = rw e refl
escaped_back b rest (inr (inr (inl e))) = rw e refl
escaped_back b rest (inr (inr (inr (inl e)))) = rw e refl
escaped_back b rest (inr (inr (inr (inr (inl e))))) = rw e refl
escaped_back b rest (inr (inr (inr (inr (inr (inl e)))))) = rw e refl
escaped_back b rest (inr (inr (inr (inr (inr (inr (inl e))))))) = rw e refl
escaped_back b rest (inr (inr (inr (inr (inr (inr (inr (inl e)))))))) = rw e refl
escaped_back b rest (inr (inr (inr (inr (inr (inr (inr (inr e)))))))) = rw e refl

Class : ℕ → SendClass → Type 0
Class b SendClass.raw = (rest : Bytes) → zdlread (b ∷ rest) ≡ read (data_byte b) rest
Class b SendClass.esc = Special b
Class b SendClass.esc_after_at =
    Special b × ((rest : Bytes) → zdlread (b ∷ rest) ≡ read (data_byte b) rest)

plain_back :
    (b : ℕ)
    → ((bit_and b 0x60 == 0) ≡ false) ⊎ (((b == zdle) ≡ false) × (is_flow b ≡ false))
    → (rest : Bytes) → zdlread (b ∷ rest) ≡ read (data_byte b) rest
unfolding zdlread control_loop
plain_back b h rest = ground (arith, h)

abbrev always : ℕ → Bool
always b = b == zdle || b == xon || b == xoff || b == 0x91 || b == 0x93 || b == 0x10 || b == 0x90

classified : (b : ℕ) → always b ≡ true → Special b
classified b h = ground (arith, h)

return_of : (b : ℕ) → (b == 0x0d || b == 0x8d) ≡ true → Special b
return_of b h = ground (arith, h)

send_class-Class : (b : ℕ) → Class b (send_class b)
unfolding Class send_class
send_class-Class b = elim (Bool-cases (bit_and b 0x60 == 0)) [
  | inr e ↦ rw e (plain_back b (inl e))
  | inl e ↦ elim (Bool-cases (always b)) [
    | inl s ↦ rw (e, s) (classified b s)
    | inr s ↦ elim (Bool-cases (b == 0x0d || b == 0x8d)) [
      | inl r ↦
          rw (e, s, r) (return_of b r, plain_back b (inr (ground (arith, s), ground (arith, s))))
      | inr r ↦ rw (e, s, r) (plain_back b (inr (ground (arith, s), ground (arith, s))))
    ]
  ]
]

-- One byte
send_back :
    (last b : ℕ) (rest : Bytes) → zdlread ((send last b).0 ++ rest) ≡ read (data_byte b) rest
unfolding send Class
send_back last b rest = by_class (send_class b) (send_class-Class b)
  where
    by_class :
        (c : SendClass)
        → Class b c
        → zdlread ((send_as c last b).0 ++ rest) ≡ read (data_byte b) rest
    by_class SendClass.raw h = h rest
    by_class SendClass.esc h = escaped_back b rest h
    by_class SendClass.esc_after_at h = elim (Bool-cases (bit_and last 0x7f == b'@')) [
      | inl e ↦ rw e (escaped_back b rest h.0)
      | inr e ↦ rw e (h.1 rest)
    ]

-- The bytes that the reads give, one after the other
pub data Reads : Bytes → Bytes → Bytes → Type 0 where
  none_left : {s : Bytes} → Reads s [] s
  next :
      {s t u : Bytes} {b : ℕ} {bytes : Bytes}
      → zdlread s ≡ read (data_byte b) t
      → Reads t bytes u
      → Reads s (b ∷ bytes) u

-- The bytes of a slice that are sent, from any state of the writer and with anything behind them, are read
-- back one after the other, and no more is consumed.
pub zdlread-send_all :
    (last : ℕ) (bytes rest : Bytes) → Reads (send_all last bytes ++ rest) bytes rest
unfolding send_all
zdlread-send_all last [] rest = none_left
zdlread-send_all last (b ∷ bytes) rest =
    let sent = send last b in
    subst (λ s. Reads s (b ∷ bytes) rest) (sym (append_assoc sent.0 (send_all sent.1 bytes) rest))
      (next (send_back last b (send_all sent.1 bytes ++ rest)) (zdlread-send_all sent.1 bytes rest))

-- A position is read back from the four bytes of a header.
pub rclhdr-stohdr :
    (pos : ℕ)
    → pos < 2 ^ 32
    → (b0 : ℕ) × (b1 : ℕ) × (b2 : ℕ) × (b3 : ℕ) × (stohdr pos ≡ b0 ∷ b1 ∷ b2 ∷ b3 ∷ [])
      × (rclhdr b0 b1 b2 b3 ≡ pos)
unfolding stohdr rclhdr
rclhdr-stohdr pos h = (
  pos % 256,
  pos / 2 ^ 8 % 256,
  pos / 2 ^ 16 % 256,
  pos / 2 ^ 24 % 256,
  refl,
  rw
      (
        bit_or-shift 8 (pos % 256) (pos / 2 ^ 8 % 256) (omega arith),
        bit_or-shift 16 (pos % 256 + pos / 2 ^ 8 % 256 * 2 ^ 8) (pos / 2 ^ 16 % 256) (omega arith),
        bit_or-shift 24 (pos % 256 + pos / 2 ^ 8 % 256 * 2 ^ 8 + pos / 2 ^ 16 % 256 * 2 ^ 16)
            (pos / 2 ^ 24 % 256) (omega arith),
      )
      (omega arith),
)
