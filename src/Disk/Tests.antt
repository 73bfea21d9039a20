-- ===== src/Disk/Tests.antt =====
-- Checksums, headers, records and wear tables at concrete inputs.
use hc32f460jeua_evb.Base.{
  ◌+◌, ◌%◌, ◌≤◌, ◌<◌, ◌≡◌, ◌≢◌, refl, true, arith, [], ◌∷◌, ◌++◌, ◌==◌, if◌then◌else◌, length, take,
  drop, set, get_or, replicate,
}
use hc32f460jeua_evb.Base.Text.{Bytes, codes}
use hc32f460jeua_evb.Disk.Crc.{crc32_mpeg2, crc32_mpeg2_detects}
use hc32f460jeua_evb.Disk.Format.{
  Geometry, FormatError, ok, err, commit_marker, erased_word, wear_table_size, checked_add,
  checked_mul, checked_align_4, is_aligned_4, checked_record_len, checked_snapshot_span,
  generation_is_newer, validate_block_geometry,
}
use hc32f460jeua_evb.Disk.Header
use hc32f460jeua_evb.Disk.Header.{
  SnapshotHeader, geometry, validate_span, validate_rest, image, encode_with_marker,
  encode_committed, encode_uncommitted, encode_prefix, commit_marker_bytes, any_nonzero,
  records_base, records_len, validate_at, decode_at,
}
use hc32f460jeua_evb.Disk.Header.Image.{Words, fields, image-fields, decode-image}
use hc32f460jeua_evb.Disk.Header.Corrupted.{decode_corrupted}
use hc32f460jeua_evb.Disk.Header.New.{Fits, new-Fits}
use hc32f460jeua_evb.Disk.Record
use hc32f460jeua_evb.Disk.Record.{RecordHeader, encode}
use hc32f460jeua_evb.Disk.Record.RoundTrip.{decode-encode, new_holds}
use hc32f460jeua_evb.Disk.Wear.{encode_wear_table, decode_wear_table}
use hc32f460jeua_evb.Disk.Wear.RoundTrip.{decode_wear_table-encode_wear_table}

generation_wraps : generation_is_newer 0 0xffffffff ≡ true
unfolding generation_is_newer
generation_wraps = refl

crc32_mpeg2_detects_example :
    crc32_mpeg2 (codes "12" ++ b'3' ∷ codes "45") ≢ crc32_mpeg2 (codes "12" ++ b'8' ∷ codes "45")
crc32_mpeg2_detects_example =
    crc32_mpeg2_detects (codes "12") b'3' b'8' (codes "45") (omega arith) (omega arith)
      (grind arith)

-- A device of 16 blocks of 8 KiB
abbrev device : Geometry
device = record { block_size = 8192; block_count = 16 }

abbrev sample : SnapshotHeader
sample = record {
  generation = 7;
  start_block = 3;
  block_span = 2;
  payload_len = 10000;
  payload_crc = 0x12345678;
  file_count = 2;
  block_size = 8192;
  block_count = 16;
  features = 0;
}

sample_in_order : Header.validate sample ≡ ok tt
unfolding Header.validate validate_rest validate_span geometry validate_block_geometry
    wear_table_size checked_mul checked_align_4 checked_add is_aligned_4 checked_snapshot_span
sample_in_order = refl

sample-Words : Words sample
sample-Words = record {
  generation = omega arith;
  start_block = omega arith;
  block_span = omega arith;
  payload_len = omega arith;
  payload_crc = omega arith;
  file_count = omega arith;
  block_size = omega arith;
  block_count = omega arith;
  features = omega arith;
}

sample_area : (records_base sample ≡ 96) × (records_len sample ≡ 9968)
unfolding records_base records_len wear_table_size checked_mul checked_align_4 checked_add
sample_area = (refl, refl)

elsewhere : validate_at sample 4 device ≡ err (FormatError.invalid_start 4 3)
unfolding validate_at Header.validate validate_rest validate_span geometry validate_block_geometry
    wear_table_size checked_mul checked_align_4 checked_add is_aligned_4 checked_snapshot_span
elsewhere = refl

decode-image_example :
    (encode_with_marker sample erased_word ≡ ok (image sample erased_word))
    × (Header.decode (image sample erased_word) ≡ (
        if erased_word == commit_marker
        then ok sample
        else err (FormatError.not_committed erased_word)))
decode-image_example = decode-image sample erased_word sample-Words sample_in_order (omega arith)

sample_encoded : encode_committed sample ≡ ok (image sample commit_marker)
unfolding encode_committed
sample_encoded = (decode-image sample commit_marker sample-Words sample_in_order (omega arith)).0

uncommitted : encode_uncommitted sample ≡ encode_with_marker sample erased_word
unfolding encode_uncommitted
uncommitted = refl

-- The prefix and the marker, programmed one after the other, are the committed image.
two_steps :
    (p : Bytes) × (encode_prefix sample ≡ ok p)
    × (p ++ commit_marker_bytes ≡ image sample commit_marker)
unfolding encode_prefix fields
two_steps = (
  take 60 (image sample erased_word),
  rw (decode-image sample erased_word sample-Words sample_in_order (omega arith)).0 refl,
  rw (image-fields sample erased_word, image-fields sample commit_marker) refl,
)

version_byte : 9 ≢ get_or (image sample commit_marker) 5 0
unfolding fields
version_byte = rw (image-fields sample commit_marker) (grind arith)

decode_corrupted_example : Header.decode (set (image sample commit_marker) 5 9) ≢ ok sample
decode_corrupted_example =
    decode_corrupted sample sample (image sample commit_marker) 5 9 sample_encoded (omega arith)
      (omega arith) version_byte

sample_made : Header.new 7 3 10000 0x12345678 2 device ≡ ok sample
unfolding Header.new Header.validate validate_rest validate_span geometry validate_block_geometry
    wear_table_size checked_mul checked_align_4 checked_add is_aligned_4 checked_snapshot_span
sample_made = refl

new-Fits_example :
    (Header.validate sample ≡ ok tt)
    × Fits sample
    × (sample.generation ≡ 7)
    × (sample.start_block ≡ 3)
    × (sample.payload_len ≡ 10000)
    × (sample.payload_crc ≡ 0x12345678)
    × (sample.file_count ≡ 2)
    × (geometry sample ≡ device)
new-Fits_example = new-Fits 7 3 10000 0x12345678 2 device sample sample_made

abbrev entry : RecordHeader
entry = record { record_len = 128; data_len = 100; data_crc = 0xabc; name_len = 5; flags = 1 }

entry_made : Record.new 5 100 0xabc 1 ≡ ok entry
unfolding Record.new Record.validate checked_record_len checked_align_4 checked_add
entry_made = refl

entry_in_order : Record.validate entry ≡ ok tt
unfolding Record.validate checked_record_len checked_align_4 checked_add
entry_in_order = refl

decode-encode_example :
    (encode entry ≡ ok (Record.image entry))
    × (Record.decode (Record.image entry ++ codes "hello") ≡ ok entry)
decode-encode_example =
    decode-encode entry (codes "hello")
      (record {
        record_len = omega arith;
        data_len = omega arith;
        data_crc = omega arith;
        name_len = omega arith;
        flags = omega arith;
      })
      entry_in_order

new_holds_example :
    (h : RecordHeader) × (Record.new 5 100 0xabc 1 ≡ ok h)
    × (Record.validate h ≡ ok tt)
    × (h.name_len ≡ 5)
    × (h.data_len ≡ 100)
    × (h.data_crc ≡ 0xabc)
    × (h.flags ≡ 1)
    × (h.record_len % 4 ≡ 0)
    × (20 + 5 + 100 ≤ h.record_len)
    × (h.record_len < 24 + 5 + 100)
new_holds_example = new_holds 5 100 0xabc 1 (omega arith) (omega arith) refl (omega arith)

abbrev buffer : Bytes
buffer = replicate 4 0 ++ codes "kept"

table_fits : wear_table_size 2 ≤ length buffer
unfolding wear_table_size checked_mul checked_align_4 checked_add
table_fits = omega arith

decode_wear_table-encode_wear_table_example :
    (bytes : Bytes) × (encode_wear_table (1 ∷ 32769 ∷ []) 2 buffer ≡ ok (wear_table_size 2, bytes))
    × (length bytes ≡ length buffer)
    × (drop (wear_table_size 2) bytes ≡ drop (wear_table_size 2) buffer)
    × (decode_wear_table bytes 2 (7 ∷ 8 ∷ 9 ∷ [])
        ≡ ok (wear_table_size 2, take 2 (1 ∷ 32769 ∷ []) ++ drop 2 (7 ∷ 8 ∷ 9 ∷ [])))
decode_wear_table-encode_wear_table_example =
    decode_wear_table-encode_wear_table (1 ∷ 32769 ∷ []) 2 buffer (7 ∷ 8 ∷ 9 ∷ []) (omega arith)
      (omega arith) (omega arith) table_fits (omega arith)
