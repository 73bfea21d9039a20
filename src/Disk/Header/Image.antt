-- ===== src/Disk/Header/Image.antt =====
-- The image of a header: what stands where.
use hc32f460jeua_evb.Base.{
  ℕ, ◌+◌, ◌*◌, ◌/◌, ◌%◌, ◌<◌, ◌≡◌, refl, ◌∙◌, arith, false, ◌++◌, ◌==◌, if◌then◌else◌, length, take,
  drop, replicate,
}
use hc32f460jeua_evb.Base.Text.{Bytes}
use hc32f460jeua_evb.Disk.Crc.{word, crc32_mpeg2, crc32_mpeg2-lt}
use hc32f460jeua_evb.Disk.Format.{
  FormatError, ok, err, and_then-ok, magic, disk_version, commit_marker, header_crc_offset,
  commit_offset, write_u32, read_u32, le_bytes_4, validate_block_geometry,
}
use hc32f460jeua_evb.Disk.Header.{
  SnapshotHeader, geometry, validate, validate_rest, covered, image, encode_with_marker,
  any_nonzero, decode_fields, decode,
}

-- Every field is a word of 32 bits.
pub record Words (h : SnapshotHeader) : Type 0 where
  pub generation : h.generation < word
  pub start_block : h.start_block < word
  pub block_span : h.block_span < word
  pub payload_len : h.payload_len < word
  pub payload_crc : h.payload_crc < word
  pub file_count : h.file_count < word
  pub block_size : h.block_size < word
  pub block_count : h.block_count < word
  pub features : h.features < word

-- The fields in order, then twelve reserved bytes.
unfoldable pub fields : SnapshotHeader → Bytes
fields h =
    le_bytes_4 magic
    ++ (le_bytes_4 disk_version
        ++ (le_bytes_4 h.generation
            ++ (le_bytes_4 h.start_block
                ++ (le_bytes_4 h.block_span
                    ++ (le_bytes_4 h.payload_len
                        ++ (le_bytes_4 h.payload_crc
                            ++ (le_bytes_4 h.file_count
                                ++ (le_bytes_4 h.block_size
                                    ++ (le_bytes_4 h.block_count
                                        ++ (le_bytes_4 h.features ++ replicate 12 0))))))))))

pub image-fields :
    (h : SnapshotHeader) (m : ℕ)
    → image h m ≡ fields h ++ (le_bytes_4 (crc32_mpeg2 (fields h)) ++ le_bytes_4 m)
unfolding image covered write_u32 fields
image-fields h m = refl

pub word_back :
    (v : ℕ)
    → v < word
    → v % 256 + v / 256 % 256 * 256 + v / 65536 % 256 * 65536 + v / 16777216 % 256 * 16777216 ≡ v
word_back v h = omega arith

decode_fields-image : (h : SnapshotHeader) (m : ℕ) → Words h → decode_fields (image h m) ≡ h
unfolding decode_fields read_u32 fields
decode_fields-image h m w = rw (image-fields h m) (λ i. record {
  generation = word_back h.generation w.generation i;
  start_block = word_back h.start_block w.start_block i;
  block_span = word_back h.block_span w.block_span i;
  payload_len = word_back h.payload_len w.payload_len i;
  payload_crc = word_back h.payload_crc w.payload_crc i;
  file_count = word_back h.file_count w.file_count i;
  block_size = word_back h.block_size w.block_size i;
  block_count = word_back h.block_count w.block_count i;
  features = word_back h.features w.features i;
})

validate-features : (h : SnapshotHeader) → validate h ≡ ok tt → h.features ≡ 0
unfolding validate validate_rest
validate-features h v =
    let (_, _, e) =
      and_then-ok (validate_block_geometry (geometry h)) (λ _. validate_rest h) tt v in
    ground (arith, e)

marker-image : (h : SnapshotHeader) (m : ℕ) → m < word → read_u32 (image h m) commit_offset ≡ m
unfolding read_u32 fields
marker-image h m b = rw (image-fields h m) (word_back m b)

crc-image :
    (h : SnapshotHeader) (m : ℕ)
    → read_u32 (image h m) header_crc_offset ≡ crc32_mpeg2 (take header_crc_offset (image h m))
unfolding read_u32 fields
crc-image h m =
    rw (image-fields h m) (word_back (crc32_mpeg2 (fields h)) (crc32_mpeg2-lt (fields h)))

length-image : (h : SnapshotHeader) (m : ℕ) → length (image h m) ≡ 64
unfolding fields
length-image h m = rw (image-fields h m) refl

magic-image :
    (h : SnapshotHeader) (m : ℕ)
    → (read_u32 (image h m) 0 ≡ magic) × (read_u32 (image h m) 4 ≡ disk_version)
unfolding read_u32 fields
magic-image h m = rw (image-fields h m) (refl, refl)

reserved-image : (h : SnapshotHeader) (m : ℕ) → any_nonzero (take 12 (drop 44 (image h m))) ≡ false
unfolding any_nonzero fields
reserved-image h m = rw (image-fields h m) refl

features-image :
    (h : SnapshotHeader) (m : ℕ) → Words h → validate h ≡ ok tt → read_u32 (image h m) 40 ≡ 0
unfolding read_u32 fields
features-image h m w v =
    rw (image-fields h m) (word_back h.features w.features ∙ validate-features h v)

-- An image of a header that is in order is decoded to that header if its last word is the commit
-- marker, and is reported as not committed whatever else the word is: erased, or torn while it was
-- written.
pub decode-image :
    (h : SnapshotHeader) (m : ℕ)
    → Words h
    → validate h ≡ ok tt
    → m < word
    → (encode_with_marker h m ≡ ok (image h m))
      × (decode (image h m)
          ≡ (if m == commit_marker then ok h else err (FormatError.not_committed m)))
unfolding encode_with_marker decode
decode-image h m w v b = (
  rw v,
  rw (marker-image h m b, crc-image h m, decode_fields-image h m w, v)
      (ground
        (arith, length-image h m, magic-image h m, features-image h m w v, reserved-image h m)),
)
