-- ===== src/Zmodem/Tests.antt =====
-- Escapes and checksums of src/zmodem.rs at concrete inputs.
use hc32f460jeua_evb.Base.{ℕ, ◌≡◌, refl, [], ◌∷◌, ◌++◌}
use hc32f460jeua_evb.Base.Text.{Bytes, codes}
use hc32f460jeua_evb.Zmodem.{
  send_class, send, send_all, zdlread, escape_loop, control_loop, read, data_byte, cancelled,
  stohdr, rclhdr, updcrc, crc16_bits, crc16_tx, updc32, crc32_bits,
}
use hc32f460jeua_evb.Zmodem.RoundTrip.{Reads, zdlread-send_all}

-- A carriage return is escaped behind an at sign only.
telenet : send_all 0 (b'@' ∷ 0x0d ∷ 0x0d ∷ []) ≡ b'@' ∷ 0x18 ∷ 0x4d ∷ 0x0d ∷ []
unfolding send_all send send_class
telenet = refl

flow_skipped : zdlread (0x11 ∷ 0x18 ∷ 0x13 ∷ 0x58 ∷ []) ≡ read (data_byte 0x18) []
unfolding zdlread escape_loop control_loop
flow_skipped = refl

five_cans : zdlread (0x18 ∷ 0x18 ∷ 0x18 ∷ 0x18 ∷ 0x18 ∷ []) ≡ read cancelled []
unfolding zdlread escape_loop control_loop
five_cans = refl

zdlread-send_all_example :
    Reads
      (send_all 0 (0x18 ∷ b'@' ∷ 0x8d ∷ b'A' ∷ []) ++ codes "next")
      (0x18 ∷ b'@' ∷ 0x8d ∷ b'A' ∷ [])
      (codes "next")
zdlread-send_all_example = zdlread-send_all 0 (0x18 ∷ b'@' ∷ 0x8d ∷ b'A' ∷ []) (codes "next")

position :
    (stohdr 0x12345678 ≡ 0x78 ∷ 0x56 ∷ 0x34 ∷ 0x12 ∷ []) × (rclhdr 0x78 0x56 0x34 0x12 ≡ 0x12345678)
unfolding stohdr rclhdr
position = (refl, refl)

abbrev updcrc_all : ℕ → Bytes → ℕ
updcrc_all crc [] = crc
updcrc_all crc (b ∷ bytes) = updcrc_all (updcrc b crc) bytes

abbrev updc32_all : ℕ → Bytes → ℕ
updc32_all crc [] = crc
updc32_all crc (b ∷ bytes) = updc32_all (updc32 b crc) bytes

crc16_vector : crc16_tx (updcrc_all 0 (codes "123456789")) ≡ (0x31, 0xc3)
unfolding crc16_tx updcrc crc16_bits
crc16_vector = refl

crc32_vector : updc32_all 0xffffffff (codes "123456789") ≡ 0x340bc6d9
unfolding updc32 crc32_bits
crc32_vector = refl
