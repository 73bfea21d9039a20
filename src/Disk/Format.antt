-- ===== src/Disk/Format.antt =====
-- Words, layout arithmetic and errors of crates/littlefs/src/format.rs.
pub mod Layout
use Prim.Native.Nat.{bit_and}
use hc32f460jeua_evb.Base.{
  ℕ, ◌+◌, ◌-◌, ◌*◌, ◌/◌, ◌%◌, ◌^◌, ◌≤◌, ◌<◌, Bool, true, false, ◌&&◌, ◌||◌, not, Option, none, some,
  List, [], ◌∷◌, ◌++◌, ltb, leb, ◌==◌, if◌then◌else◌, length, take, drop, get_or, ◌≡◌, refl,
}
use hc32f460jeua_evb.Base.Text.{Bytes}
use hc32f460jeua_evb.Disk.Crc.{word}

abbrev pub program_size : ℕ
program_size = 4

abbrev pub erased_word : ℕ
erased_word = 0xffffffff

abbrev pub magic : ℕ
magic = 0x31534652

abbrev pub disk_version : ℕ
disk_version = 0x00010001

abbrev pub commit_marker : ℕ
commit_marker = 0xc35a6f91

abbrev pub header_size : ℕ
header_size = 64

abbrev pub header_crc_offset : ℕ
header_crc_offset = 56

abbrev pub commit_offset : ℕ
commit_offset = 60

abbrev pub record_magic : ℕ
record_magic = 0x454c4946

abbrev pub record_header_size : ℕ
record_header_size = 20

abbrev pub max_name_len : ℕ
max_name_len = 63

abbrev pub max_files : ℕ
max_files = 32

abbrev pub supported_features : ℕ
supported_features = 0

-- `!SUPPORTED_RECORD_FLAGS`, in 16 bits
abbrev pub other_record_flags : ℕ
other_record_flags = 0xfffe

abbrev pub wear_entry_size : ℕ
wear_entry_size = 2

abbrev pub max_wear_blocks : ℕ
max_wear_blocks = 64

pub record Geometry : Type 0 where
  pub block_size : ℕ
  pub block_count : ℕ

pub data FormatError : Type 0 where
  buffer_too_small : ℕ → ℕ → FormatError
  bad_snapshot_magic bad_record_magic unsupported_version not_committed : ℕ → FormatError
  header_crc_mismatch : ℕ → ℕ → FormatError
  unsupported_features : ℕ → FormatError
  non_zero_reserved : FormatError
  invalid_block_size invalid_block_count : ℕ → FormatError
  geometry_mismatch : Geometry → Geometry → FormatError
  invalid_start invalid_snapshot_span : ℕ → ℕ → FormatError
  snapshot_out_of_bounds snapshot_too_large : FormatError
  too_many_files : ℕ → FormatError
  invalid_name_length : ℕ → FormatError
  invalid_record_length : ℕ → ℕ → FormatError
  unsupported_record_flags : ℕ → FormatError
  arithmetic_overflow : FormatError

pub data Result (A : Type 0) : Type 0 where
  ok : A → Result A
  err : FormatError → Result A

abbrev pub and_then : {A B : Type 0} → Result A → (A → Result B) → Result B
and_then (ok a) f = f a
and_then (err e) f = err e

-- `u32::checked_add` and `u32::checked_mul`
unfoldable pub checked_add : ℕ → ℕ → Option ℕ
checked_add a b = if ltb (a + b) word then some (a + b) else none

unfoldable pub checked_mul : ℕ → ℕ → Option ℕ
checked_mul a b = if ltb (a * b) word then some (a * b) else none

unfoldable pub is_aligned_4 : ℕ → Bool
is_aligned_4 v = bit_and v (program_size - 1) == 0

-- `value & !3`
abbrev pub down_4 : ℕ → ℕ
down_4 v = bit_and v (word - program_size)

abbrev pub map_option : {A B : Type 0} → (A → B) → Option A → Option B
map_option f none = none
map_option f (some a) = some (f a)

abbrev pub bind_option : {A B : Type 0} → Option A → (A → Option B) → Option B
bind_option none f = none
bind_option (some a) f = f a

unfoldable pub checked_align_4 : ℕ → Option ℕ
checked_align_4 v = map_option down_4 (checked_add v (program_size - 1))

abbrev pub or_max : Option ℕ → ℕ
or_max none = word - 1
or_max (some v) = v

unfoldable pub wear_table_size : ℕ → ℕ
wear_table_size block_count =
    or_max (bind_option (checked_mul block_count wear_entry_size) checked_align_4)

unfoldable pub checked_record_len : ℕ → ℕ → Option ℕ
checked_record_len name_len data_len =
    bind_option (checked_add record_header_size name_len)
      λ with_name. bind_option (checked_add with_name data_len) checked_align_4

unfoldable pub checked_snapshot_span : ℕ → ℕ → Option ℕ
checked_snapshot_span payload_len block_size =
    if block_size == 0
    then none
    else bind_option (checked_add header_size payload_len)
        λ total. checked_add (total / block_size) (if total % block_size == 0 then 0 else 1)

-- `wrapping_sub`, of two words
unfoldable pub generation_is_newer : ℕ → ℕ → Bool
generation_is_newer candidate reference =
    let distance = (candidate + word - reference) % word in
    not (distance == 0) && ltb distance 0x80000000

unfoldable pub validate_block_geometry : Geometry → Result Unit
validate_block_geometry g =
    if ltb g.block_size header_size
      || not (is_aligned_4 g.block_size)
      || ltb g.block_size (wear_table_size g.block_count)
    then err (FormatError.invalid_block_size g.block_size)
    else if ltb g.block_count 2 || ltb max_wear_blocks g.block_count
    then err (FormatError.invalid_block_count g.block_count)
    else ok tt

-- `to_le_bytes`
abbrev pub le_bytes_2 : ℕ → Bytes
le_bytes_2 v = v % 256 ∷ v / 256 % 256 ∷ []

abbrev pub le_bytes_4 : ℕ → Bytes
le_bytes_4 v = v % 256 ∷ v / 256 % 256 ∷ v / 65536 % 256 ∷ v / 16777216 % 256 ∷ []

-- `copy_from_slice` into a part of a buffer
abbrev pub write_at : Bytes → ℕ → Bytes → Bytes
write_at bytes offset part = take offset bytes ++ (part ++ drop (offset + length part) bytes)

unfoldable pub write_u16 : Bytes → ℕ → ℕ → Bytes
write_u16 bytes offset value = write_at bytes offset (le_bytes_2 value)

unfoldable pub write_u32 : Bytes → ℕ → ℕ → Bytes
write_u32 bytes offset value = write_at bytes offset (le_bytes_4 value)

unfoldable pub read_u16 : Bytes → ℕ → ℕ
read_u16 bytes offset = get_or bytes offset 0 + get_or bytes (offset + 1) 0 * 256

unfoldable pub read_u32 : Bytes → ℕ → ℕ
read_u32 bytes offset =
    get_or bytes offset 0
    + get_or bytes (offset + 1) 0 * 256
    + get_or bytes (offset + 2) 0 * 65536
    + get_or bytes (offset + 3) 0 * 16777216

pub and_then-ok :
    {A B : Type 0} (r : Result A) (f : A → Result B) (b : B)
    → and_then r f ≡ ok b
    → (a : A) × (r ≡ ok a) × (f a ≡ ok b)
and_then-ok (ok a) f b e = (a, refl, e)
and_then-ok (err x) f b e = cc

pub ok-inj : {A : Type 0} {a b : A} → ok a ≡ ok b → a ≡ b
ok-inj e = cc e
