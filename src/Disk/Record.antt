-- ===== src/Disk/Record.antt =====
-- `RecordHeader` of crates/littlefs/src/format.rs, in front of every entry.
pub mod RoundTrip
use Prim.Native.Nat.{bit_and}
use hc32f460jeua_evb.Base.{
  ℕ, ◌+◌, ◌%◌, ◌/◌, Bool, true, false, ◌||◌, not, Option, none, some, ltb, ◌==◌, if◌then◌else◌,
  length, replicate,
}
use hc32f460jeua_evb.Base.Text.{Bytes}
use hc32f460jeua_evb.Disk.Format.{
  FormatError, Result, ok, err, and_then, record_magic, record_header_size, max_name_len,
  other_record_flags, checked_record_len, write_u16, write_u32, read_u16, read_u32,
}
use hc32f460jeua_evb.Disk.Header.{or_overflow}

pub record RecordHeader : Type 0 where
  pub record_len : ℕ
  pub data_len : ℕ
  pub data_crc : ℕ
  pub name_len : ℕ
  pub flags : ℕ

unfoldable pub validate : RecordHeader → Result Unit
validate h =
    if h.name_len == 0 || ltb max_name_len h.name_len
    then err (FormatError.invalid_name_length h.name_len)
    else if not (bit_and h.flags other_record_flags == 0)
    then err (FormatError.unsupported_record_flags h.flags)
    else and_then (or_overflow (checked_record_len h.name_len h.data_len)) λ expected.
      if not (h.record_len == expected)
      then err (FormatError.invalid_record_length expected h.record_len)
      else ok tt

unfoldable pub new : ℕ → ℕ → ℕ → ℕ → Result RecordHeader
new name_len data_len data_crc flags =
    and_then (or_overflow (checked_record_len name_len data_len)) λ record_len.
      let header : RecordHeader = record {
        record_len = record_len;
        data_len = data_len;
        data_crc = data_crc;
        name_len = name_len;
        flags = flags;
      } in
      and_then (validate header) λ _. ok header

unfoldable pub image : RecordHeader → Bytes
image h =
    let b0 = replicate record_header_size 0 in
    let b1 = write_u32 b0 0 record_magic in
    let b2 = write_u32 b1 4 h.record_len in
    let b3 = write_u32 b2 8 h.data_len in
    let b4 = write_u32 b3 12 h.data_crc in write_u16 (write_u16 b4 16 h.name_len) 18 h.flags

unfoldable pub encode : RecordHeader → Result Bytes
encode h = and_then (validate h) λ _. ok (image h)

unfoldable pub decode_fields : Bytes → RecordHeader
decode_fields bytes = record {
  record_len = read_u32 bytes 4;
  data_len = read_u32 bytes 8;
  data_crc = read_u32 bytes 12;
  name_len = read_u16 bytes 16;
  flags = read_u16 bytes 18;
}

unfoldable pub decode : Bytes → Result RecordHeader
decode bytes =
    if ltb (length bytes) record_header_size
    then err (FormatError.buffer_too_small record_header_size (length bytes))
    else if not (read_u32 bytes 0 == record_magic)
    then err (FormatError.bad_record_magic (read_u32 bytes 0))
    else and_then (validate (decode_fields bytes)) λ _. ok (decode_fields bytes)
