-- ===== src/Disk/Header.antt =====
-- `SnapshotHeader` of crates/littlefs/src/format.rs: its checks and its codec.
pub mod Image
pub mod Corrupted
pub mod New
use hc32f460jeua_evb.Base.{
  ℕ, ◌+◌, ◌-◌, ◌*◌, ◌/◌, ◌%◌, Bool, true, false, ◌&&◌, ◌||◌, not, Option, none, some, List, [], ◌∷◌,
  ◌++◌, ltb, leb, ◌==◌, if◌then◌else◌, length, take, drop, get_or, replicate,
}
use hc32f460jeua_evb.Base.Text.{Bytes}
use hc32f460jeua_evb.Disk.Crc.{word, crc32_mpeg2}
use hc32f460jeua_evb.Disk.Format.{
  Geometry, FormatError, Result, ok, err, and_then, erased_word, magic, disk_version, commit_marker,
  header_size, header_crc_offset, commit_offset, max_files, supported_features, wear_table_size,
  checked_snapshot_span, validate_block_geometry, write_u32, read_u32, le_bytes_4,
}

pub record SnapshotHeader : Type 0 where
  pub generation : ℕ
  pub start_block : ℕ
  pub block_span : ℕ
  pub payload_len : ℕ
  pub payload_crc : ℕ
  pub file_count : ℕ
  pub block_size : ℕ
  pub block_count : ℕ
  pub features : ℕ

unfoldable pub geometry : SnapshotHeader → Geometry
geometry h = record { block_size = h.block_size; block_count = h.block_count }

unfoldable pub records_base : SnapshotHeader → ℕ
records_base h = header_size + wear_table_size h.block_count

unfoldable pub records_len : SnapshotHeader → ℕ
records_len h = h.payload_len - wear_table_size h.block_count

-- `ok_or(ArithmeticOverflow)`
abbrev pub or_overflow : Option ℕ → Result ℕ
or_overflow none = err FormatError.arithmetic_overflow
or_overflow (some v) = ok v

-- What `validate` checks once the span is computed.
unfoldable pub validate_span : SnapshotHeader → ℕ → Result Unit
validate_span h expected =
    if not (h.block_span == expected)
    then err (FormatError.invalid_snapshot_span expected h.block_span)
    else if ltb (h.block_count / 2) h.block_span
    then err FormatError.snapshot_too_large
    else if leb h.block_count h.start_block
    then err FormatError.snapshot_out_of_bounds
    else ok tt

-- What follows the check of the geometry.
unfoldable pub validate_rest : SnapshotHeader → Result Unit
validate_rest h =
    if not (h.features == supported_features)
    then err (FormatError.unsupported_features h.features)
    else if ltb max_files h.file_count
    then err (FormatError.too_many_files h.file_count)
    else if ltb h.payload_len (wear_table_size h.block_count)
    then err FormatError.snapshot_out_of_bounds
    else and_then (or_overflow (checked_snapshot_span h.payload_len h.block_size)) (validate_span h)

unfoldable pub validate : SnapshotHeader → Result Unit
validate h = and_then (validate_block_geometry (geometry h)) (λ _. validate_rest h)

unfoldable pub new : ℕ → ℕ → ℕ → ℕ → ℕ → Geometry → Result SnapshotHeader
new generation start_block payload_len payload_crc file_count g =
    and_then (validate_block_geometry g) λ _.
      and_then (or_overflow (checked_snapshot_span payload_len g.block_size)) λ block_span.
        let header : SnapshotHeader = record {
          generation = generation;
          start_block = start_block;
          block_span = block_span;
          payload_len = payload_len;
          payload_crc = payload_crc;
          file_count = file_count;
          block_size = g.block_size;
          block_count = g.block_count;
          features = supported_features;
        } in
        and_then (validate header) λ _. ok header

abbrev pub geometry_eq : Geometry → Geometry → Bool
geometry_eq a b = a.block_size == b.block_size && a.block_count == b.block_count

unfoldable pub validate_at : SnapshotHeader → ℕ → Geometry → Result Unit
validate_at h scanned g = and_then (validate h) λ _. and_then (validate_block_geometry g) λ _.
    if not (geometry_eq (geometry h) g)
    then err (FormatError.geometry_mismatch g (geometry h))
    else if not (h.start_block == scanned)
    then err (FormatError.invalid_start scanned h.start_block)
    else ok tt

-- The 56 bytes that the checksum covers: the fields, then reserved zeros.
unfoldable pub covered : SnapshotHeader → Bytes
covered h =
    let b0 = replicate header_size 0 in
    let b1 = write_u32 b0 0 magic in
    let b2 = write_u32 b1 4 disk_version in
    let b3 = write_u32 b2 8 h.generation in
    let b4 = write_u32 b3 12 h.start_block in
    let b5 = write_u32 b4 16 h.block_span in
    let b6 = write_u32 b5 20 h.payload_len in
    let b7 = write_u32 b6 24 h.payload_crc in
    let b8 = write_u32 b7 28 h.file_count in
    let b9 = write_u32 b8 32 h.block_size in
    let b10 = write_u32 b9 36 h.block_count in write_u32 b10 40 h.features

unfoldable pub image : SnapshotHeader → ℕ → Bytes
image h marker =
    let bytes = covered h in
    let crc = crc32_mpeg2 (take header_crc_offset bytes) in
    write_u32 (write_u32 bytes header_crc_offset crc) commit_offset marker

unfoldable pub encode_with_marker : SnapshotHeader → ℕ → Result Bytes
encode_with_marker h marker = and_then (validate h) λ _. ok (image h marker)

unfoldable pub encode_committed : SnapshotHeader → Result Bytes
encode_committed h = encode_with_marker h commit_marker

unfoldable pub encode_uncommitted : SnapshotHeader → Result Bytes
encode_uncommitted h = encode_with_marker h erased_word

unfoldable pub encode_prefix : SnapshotHeader → Result Bytes
encode_prefix h =
    and_then (encode_with_marker h erased_word) λ encoded. ok (take commit_offset encoded)

abbrev pub commit_marker_bytes : Bytes
commit_marker_bytes = le_bytes_4 commit_marker

unfoldable pub any_nonzero : Bytes → Bool
any_nonzero [] = false
any_nonzero (b ∷ bytes) = not (b == 0) || any_nonzero bytes

-- The fields that are read once the image is known to be whole.
unfoldable pub decode_fields : Bytes → SnapshotHeader
decode_fields bytes = record {
  generation = read_u32 bytes 8;
  start_block = read_u32 bytes 12;
  block_span = read_u32 bytes 16;
  payload_len = read_u32 bytes 20;
  payload_crc = read_u32 bytes 24;
  file_count = read_u32 bytes 28;
  block_size = read_u32 bytes 32;
  block_count = read_u32 bytes 36;
  features = read_u32 bytes 40;
}

unfoldable pub decode : Bytes → Result SnapshotHeader
decode bytes =
    let expected_crc = crc32_mpeg2 (take header_crc_offset bytes) in
    if ltb (length bytes) header_size
    then err (FormatError.buffer_too_small header_size (length bytes))
    else if not (read_u32 bytes 0 == magic)
    then err (FormatError.bad_snapshot_magic (read_u32 bytes 0))
    else if not (read_u32 bytes 4 == disk_version)
    then err (FormatError.unsupported_version (read_u32 bytes 4))
    else if not (read_u32 bytes commit_offset == commit_marker)
    then err (FormatError.not_committed (read_u32 bytes commit_offset))
    else if not (read_u32 bytes header_crc_offset == expected_crc)
    then err (FormatError.header_crc_mismatch expected_crc (read_u32 bytes header_crc_offset))
    else if not (read_u32 bytes 40 == supported_features)
    then err (FormatError.unsupported_features (read_u32 bytes 40))
    else if any_nonzero (take 12 (drop 44 bytes))
    then err FormatError.non_zero_reserved
    else and_then (validate (decode_fields bytes)) λ _. ok (decode_fields bytes)

unfoldable pub decode_at : Bytes → ℕ → Geometry → Result SnapshotHeader
decode_at bytes scanned g =
    and_then (decode bytes) λ header. and_then (validate_at header scanned g) λ _. ok header
