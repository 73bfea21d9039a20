-- ===== src/Disk/Record/RoundTrip.antt =====
-- The header of an entry, made, encoded and decoded.
use Prim.Native.Nat.{bit_and}
use hc32f460jeua_evb.Base.{
  ℕ, ◌+◌, ◌*◌, ◌/◌, ◌%◌, ◌≤◌, ◌<◌, ◌≡◌, refl, sym, ap, subst, arith, ◌++◌, ◌∙◌, some, length,
  lt→ltb,
}
use hc32f460jeua_evb.Base.Text.{Bytes}
use hc32f460jeua_evb.Disk.Crc.{word}
use hc32f460jeua_evb.Disk.Format.{
  ok, and_then-ok, ok-inj, record_magic, write_u16, write_u32, read_u16, read_u32, le_bytes_2,
  le_bytes_4, checked_record_len, other_record_flags,
}
use hc32f460jeua_evb.Disk.Format.Layout.{checked_record_len_lem}
use hc32f460jeua_evb.Disk.Header.{or_overflow}
use hc32f460jeua_evb.Disk.Header.New.{or_overflow-ok}
use hc32f460jeua_evb.Disk.Header.Image.{word_back}
use hc32f460jeua_evb.Disk.Record.{RecordHeader, validate, new, image, encode, decode_fields, decode}

pub record Words (h : RecordHeader) : Type 0 where
  pub record_len : h.record_len < word
  pub data_len : h.data_len < word
  pub data_crc : h.data_crc < word
  pub name_len : h.name_len < 65536
  pub flags : h.flags < 65536

image_parts :
    (h : RecordHeader) (rest : Bytes)
    → image h ++ rest
      ≡ le_bytes_4 record_magic
        ++ (le_bytes_4 h.record_len
            ++ (le_bytes_4 h.data_len
                ++ (le_bytes_4 h.data_crc
                    ++ (le_bytes_2 h.name_len ++ (le_bytes_2 h.flags ++ rest)))))
unfolding image write_u32 write_u16
image_parts h rest = refl

half_back : (v : ℕ) → v < 65536 → v % 256 + v / 256 % 256 * 256 ≡ v
half_back v h = omega arith

decode_fields-image :
    (h : RecordHeader) (rest : Bytes) → Words h → decode_fields (image h ++ rest) ≡ h
unfolding decode_fields read_u32 read_u16
decode_fields-image h rest w = rw (image_parts h rest) (λ i. record {
  record_len = word_back h.record_len w.record_len i;
  data_len = word_back h.data_len w.data_len i;
  data_crc = word_back h.data_crc w.data_crc i;
  name_len = half_back h.name_len w.name_len i;
  flags = half_back h.flags w.flags i;
})

magic-image : (h : RecordHeader) (rest : Bytes) → read_u32 (image h ++ rest) 0 ≡ record_magic
unfolding read_u32
magic-image h rest = rw (image_parts h rest) refl

length-image : (h : RecordHeader) (rest : Bytes) → length (image h ++ rest) ≡ 20 + length rest
length-image h rest = rw (image_parts h rest) (omega arith)

-- A header that is in order is decoded to itself from its image, whatever stands behind it.
pub decode-encode :
    (h : RecordHeader) (rest : Bytes)
    → Words h
    → validate h ≡ ok tt
    → (encode h ≡ ok (image h)) × (decode (image h ++ rest) ≡ ok h)
unfolding encode decode
decode-encode h rest w v = (
  rw v,
  rw (decode_fields-image h rest w, v) (ground (arith, length-image h rest, magic-image h rest)),
)

new_bounds :
    (n d c f : ℕ) (h : RecordHeader)
    → new n d c f ≡ ok h
    → (validate h ≡ ok tt)
      × (h.record_len % 4 ≡ 0)
      × (20 + n + d ≤ h.record_len)
      × (h.record_len < 24 + n + d)
      × (0 < n)
      × (n ≤ 63)
      × (h.record_len < word)
unfolding new validate
new_bounds n d c f h e =
    let (len, l, e1) = and_then-ok (or_overflow (checked_record_len n d)) _ h e in
    let (_, v, e2) = and_then-ok (validate (made len)) (λ _. ok (made len)) h e1 in
    let same = ok-inj e2 in
    let sized = or_overflow-ok (checked_record_len n d) len l in
    let exact : (len ≡ (20 + n + d + 3) / 4 * 4) × (20 + n + d + 3 < word) =
      ground (arith, sized, checked_record_len_lem n d) in
    let is : h.record_len ≡ len = ap (λ x. x.record_len) (sym same) in
    (
      subst (λ x. validate x ≡ ok tt) same v,
      omega (arith, is, exact),
      omega (arith, is, exact),
      omega (arith, is, exact),
      ground (arith, v),
      ground (arith, v),
      omega (arith, is, exact),
    )
  where
    made : ℕ → RecordHeader
    made len = record { record_len = len; data_len = d; data_crc = c; name_len = n; flags = f }

-- A name of 1 to 63 bytes, known flags, and a content with which header, name, content and three bytes more
-- are shorter than 2^32 make a header with these fields, which is in order; its record is a multiple of four bytes that
-- holds header, name and content, with less than four to spare.
pub new_holds :
    (n d c f : ℕ)
    → 0 < n
    → n ≤ 63
    → bit_and f other_record_flags ≡ 0
    → 20 + n + d + 3 < word
    → (h : RecordHeader) × (new n d c f ≡ ok h)
      × (validate h ≡ ok tt)
      × (h.name_len ≡ n)
      × (h.data_len ≡ d)
      × (h.data_crc ≡ c)
      × (h.flags ≡ f)
      × (h.record_len % 4 ≡ 0)
      × (20 + n + d ≤ h.record_len)
      × (h.record_len < 24 + n + d)
new_holds n d c f some_name short known fits = (h, made, b.0, refl, refl, refl, refl, b.1, b.2, b.3)
  where
    h : RecordHeader
    h = record {
      record_len = (20 + n + d + 3) / 4 * 4;
      data_len = d;
      data_crc = c;
      name_len = n;
      flags = f;
    }

    sized : checked_record_len n d ≡ some ((20 + n + d + 3) / 4 * 4)
    sized = checked_record_len_lem n d ∙ rw (lt→ltb _ _ fits) refl

    valid : validate h ≡ ok tt
    valid = unfold validate in rw (sized) (ground (arith, known))

    made : new n d c f ≡ ok h
    made = unfold new in rw (sized, valid) refl

    b :
        (validate h ≡ ok tt)
        × (h.record_len % 4 ≡ 0)
        × (20 + n + d ≤ h.record_len)
        × (h.record_len < 24 + n + d)
        × (0 < n)
        × (n ≤ 63)
        × (h.record_len < word)
    b = new_bounds n d c f h made
