-- ===== src/Disk/Header/New.antt =====
-- A header that `new` makes.
use hc32f460jeua_evb.Base.{ℕ, ◌+◌, ◌*◌, ◌≤◌, ◌<◌, ◌≡◌, sym, ap, subst, arith, Option, none, some}
use hc32f460jeua_evb.Disk.Format.{
  Geometry, ok, and_then, and_then-ok, ok-inj, checked_snapshot_span, validate_block_geometry,
  supported_features, wear_table_size,
}
use hc32f460jeua_evb.Disk.Format.Layout.{checked_snapshot_span-minimal}
use hc32f460jeua_evb.Disk.Header.{
  SnapshotHeader, or_overflow, geometry, validate_span, validate_rest, validate, new,
}

-- A snapshot that takes no more blocks than it needs, at most half of the device, and starts on it.
pub record Fits (h : SnapshotHeader) : Type 0 where
  pub holds : 64 + h.payload_len ≤ h.block_span * h.block_size
  pub tight : h.block_span * h.block_size < 64 + h.payload_len + h.block_size
  pub half : h.block_span * 2 ≤ h.block_count
  pub starts : h.start_block < h.block_count
  pub table : wear_table_size h.block_count ≤ h.payload_len
  pub files : h.file_count ≤ 32

pub or_overflow-ok : (o : Option ℕ) (v : ℕ) → or_overflow o ≡ ok v → o ≡ some v
or_overflow-ok none v e = cc
or_overflow-ok (some x) v e = ap some (ok-inj e)

-- Whatever passes `validate` fits: a header from the disk as well as a new one.
pub validate-Fits : (h : SnapshotHeader) → validate h ≡ ok tt → Fits h
unfolding validate validate_rest validate_span
validate-Fits h v =
    let (_, _, e) =
      and_then-ok (validate_block_geometry (geometry h)) (λ _. validate_rest h) tt v in
    let span : and_then (or_overflow (checked_snapshot_span h.payload_len h.block_size))
          (validate_span h)
        ≡ ok tt =
      ground (arith, e) in
    let (s, f, g) =
      and_then-ok (or_overflow (checked_snapshot_span h.payload_len h.block_size)) (validate_span h)
        tt span in
    let (pos, low, high) =
      checked_snapshot_span-minimal h.payload_len h.block_size s (or_overflow-ok _ s f) in
    let same : s ≡ h.block_span = ground (arith, g) in
    record {
      holds = subst (λ x. 64 + h.payload_len ≤ x * h.block_size) same low;
      tight = subst (λ x. x * h.block_size < 64 + h.payload_len + h.block_size) same high;
      half = ground (arith, g);
      starts = ground (arith, g);
      table = ground (arith, e);
      files = ground (arith, e);
    }

-- A header that `new` returns has the fields it was given, is in order and fits its device.
pub new-Fits :
    (generation start_block payload_len payload_crc file_count : ℕ) (g : Geometry)
    (h : SnapshotHeader)
    → new generation start_block payload_len payload_crc file_count g ≡ ok h
    → (validate h ≡ ok tt)
      × Fits h
      × (h.generation ≡ generation)
      × (h.start_block ≡ start_block)
      × (h.payload_len ≡ payload_len)
      × (h.payload_crc ≡ payload_crc)
      × (h.file_count ≡ file_count)
      × (geometry h ≡ g)
unfolding new geometry
new-Fits generation start_block payload_len payload_crc file_count g h e =
    let (_, _, e1) = and_then-ok (validate_block_geometry g) _ h e in
    let (span, _, e2) =
      and_then-ok (or_overflow (checked_snapshot_span payload_len g.block_size)) _ h e1 in
    let (_, v, e3) = and_then-ok (validate (made span)) (λ _. ok (made span)) h e2 in
    let same = ok-inj e3 in
    let in_order = subst (λ x. validate x ≡ ok tt) same v in
    (
      in_order,
      validate-Fits h in_order,
      ap (λ x. x.generation) (sym same),
      ap (λ x. x.start_block) (sym same),
      ap (λ x. x.payload_len) (sym same),
      ap (λ x. x.payload_crc) (sym same),
      ap (λ x. x.file_count) (sym same),
      ap geometry (sym same),
    )
  where
    made : ℕ → SnapshotHeader
    made span = record {
      generation = generation;
      start_block = start_block;
      block_span = span;
      payload_len = payload_len;
      payload_crc = payload_crc;
      file_count = file_count;
      block_size = g.block_size;
      block_count = g.block_count;
      features = supported_features;
    }
