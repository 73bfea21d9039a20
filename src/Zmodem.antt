-- ===== src/Zmodem.antt =====
-- src/zmodem.rs: the escaping of bytes on the line. A port that is read is the list of the bytes that
-- still come, with a time-out behind the last; a port that is written is the bytes written.
pub mod RoundTrip
pub mod Tests
use Prim.Native.Nat.{bit_and, bit_or, bit_xor}
use hc32f460jeua_evb.Base.{
  ℕ, zero, suc, ◌+◌, ◌*◌, ◌/◌, ◌%◌, ◌^◌, Bool, true, false, ◌||◌, not, List, [], ◌∷◌, ◌++◌, ltb,
  ◌==◌, if◌then◌else◌,
}
use hc32f460jeua_evb.Base.Text.{Bytes}

abbrev pub zdle : ℕ
zdle = 0x18

abbrev pub can : ℕ
can = 0x18

abbrev pub xon : ℕ
xon = 0x11

abbrev pub xoff : ℕ
xoff = 0x13

pub data SendClass : Type 0 where
  raw esc esc_after_at : SendClass

unfoldable pub send_class : ℕ → SendClass
send_class byte =
    if not (bit_and byte 0x60 == 0)
    then SendClass.raw
    else if byte == zdle
        || byte == xon
        || byte == xoff
        || byte == 0x91
        || byte == 0x93
        || byte == 0x10
        || byte == 0x90
    then SendClass.esc
    else if byte == 0x0d || byte == 0x8d
    then SendClass.esc_after_at
    else SendClass.raw

-- What is written, and the last byte written
abbrev pub plain : ℕ → Bytes × ℕ
plain byte = (byte ∷ [], byte)

abbrev pub escaped : ℕ → Bytes × ℕ
escaped byte = (zdle ∷ bit_xor byte 0x40 ∷ [], bit_xor byte 0x40)

abbrev pub send_as : SendClass → ℕ → ℕ → Bytes × ℕ
send_as SendClass.raw last byte = plain byte
send_as SendClass.esc last byte = escaped byte
send_as SendClass.esc_after_at last byte =
    if bit_and last 0x7f == b'@' then escaped byte else plain byte

-- `EscWriter::send`
unfoldable pub send : ℕ → ℕ → Bytes × ℕ
send last byte = send_as (send_class byte) last byte

-- `send` for each byte of a slice
unfoldable pub send_all : ℕ → Bytes → Bytes
send_all last [] = []
send_all last (byte ∷ bytes) = let sent = send last byte in sent.0 ++ send_all sent.1 bytes

pub data Zdl : Type 0 where
  data_byte frame_end : ℕ → Zdl
  cancelled : Zdl

pub data ZdlRead : Type 0 where
  read : Zdl → Bytes → ZdlRead
  timeout protocol : ZdlRead

abbrev pub is_flow : ℕ → Bool
is_flow c = c == xon || c == 0x91 || c == xoff || c == 0x93

-- `ZCRCE`, `ZCRCG`, `ZCRCQ`, `ZCRCW`
abbrev pub ends_frame : ℕ → Bool
ends_frame c = c == b'h' || c == b'i' || c == b'j' || c == b'k'

-- The loop behind `ZDLE`, with the number of `CAN` in a row before
unfoldable pub escape_loop : ℕ → Bytes → ZdlRead
escape_loop cans [] = timeout
escape_loop cans (c ∷ s) =
    let more = escape_loop (cans + 1) s in
    let fresh = escape_loop 0 s in
    if c == can
    then (if cans == 3 then read cancelled s else more)
    else if ends_frame c
    then read (frame_end c) s
    else if c == b'l'
    then read (data_byte 0x7f) s
    else if c == b'm'
    then read (data_byte 0xff) s
    else if is_flow c
    then fresh
    else if not (bit_and c 0x40 == 0)
    then read (data_byte (bit_xor c 0x40)) s
    else protocol

-- The loop over control characters
unfoldable pub control_loop : Bytes → ZdlRead
control_loop [] = timeout
control_loop (c ∷ s) =
    let more = control_loop s in
    if c == zdle then escape_loop 0 s else if is_flow c then more else read (data_byte c) s

unfoldable pub zdlread : Bytes → ZdlRead
zdlread [] = timeout
zdlread (c ∷ s) = if not (bit_and c 0x60 == 0) then read (data_byte c) s else control_loop (c ∷ s)

-- `stohdr`
unfoldable pub stohdr : ℕ → Bytes
stohdr pos = pos % 256 ∷ pos / 2 ^ 8 % 256 ∷ pos / 2 ^ 16 % 256 ∷ pos / 2 ^ 24 % 256 ∷ []

-- `rclhdr`
unfoldable pub rclhdr : ℕ → ℕ → ℕ → ℕ → ℕ
rclhdr b0 b1 b2 b3 = bit_or (bit_or (bit_or b0 (b1 * 2 ^ 8)) (b2 * 2 ^ 16)) (b3 * 2 ^ 24)

-- One step of the checksum of 16 bits: the inner loop, a shift each turn
unfoldable pub crc16_bits : ℕ → ℕ → ℕ
crc16_bits zero value = value
crc16_bits (suc n) value =
    let shifted = (value * 2) % 2 ^ 16 in
    let next = if bit_and value 0x8000 == 0 then shifted else bit_xor shifted 0x1021 in
    crc16_bits n next

unfoldable pub updcrc : ℕ → ℕ → ℕ
updcrc byte crc =
    bit_xor (bit_xor (crc16_bits 8 (bit_and crc 0xff00)) ((bit_and crc 0x00ff * 2 ^ 8) % 2 ^ 16))
      byte

unfoldable pub crc16_tx : ℕ → ℕ × ℕ
crc16_tx crc = let sent = updcrc 0 (updcrc 0 crc) in (sent / 2 ^ 8 % 256, sent % 256)

unfoldable pub crc32_bits : ℕ → ℕ → ℕ
crc32_bits zero value = value
crc32_bits (suc n) value =
    let next = if bit_and value 1 == 0 then value / 2 else bit_xor (value / 2) 0xedb88320 in
    crc32_bits n next

unfoldable pub updc32 : ℕ → ℕ → ℕ
updc32 byte crc = bit_xor (crc32_bits 8 (bit_and (bit_xor crc byte) 0xff)) (crc / 2 ^ 8)
