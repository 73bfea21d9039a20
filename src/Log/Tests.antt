-- ===== src/Log/Tests.antt =====
-- The names and numbers of src/logfile_core.rs on the inputs of its tests.
use hc32f460jeua_evb.Base.{
  ℕ, ◌≡◌, refl, true, false, none, some, List, [], ◌∷◌, arith, inl, All, ◌-◌,
}
use hc32f460jeua_evb.Base.Text.{Before, codes}
use hc32f460jeua_evb.Log.File.{
  segment_name, parse_segment_name, parse_legacy_slot_name, boot_newer, newest_boot, next_boot,
  segment_newer, oldest_file, format_boot_marker, write_pieces, padded_pieces, digit_end,
  all_digits, parse_tail, u64_limit,
}
use hc32f460jeua_evb.Log.Decimal.{decimal, is_digit, parse}
use hc32f460jeua_evb.Log.File.Names.{parse_segment_name-segment_name}
use hc32f460jeua_evb.Log.File.Order.{segment_name-Before}
use hc32f460jeua_evb.Log.File.Newest.{next_boot_newer, oldest_file_extreme, Has}
use hc32f460jeua_evb.Log.File.Marker.{format_boot_marker_whole, marker_text}

name_of_segment : segment_name 42 7 ≡ codes "boot_00000000000000000042_007.log"
unfolding segment_name write_pieces padded_pieces decimal
name_of_segment = refl

old_width : parse_segment_name (codes "boot_00000000000000000042_07.log") ≡ some (42, 7)
unfolding parse_segment_name digit_end all_digits parse_tail parse is_digit
old_width = refl

one_digit : parse_segment_name (codes "boot_00000000000000000001_1.log") ≡ none
unfolding parse_segment_name digit_end all_digits parse_tail parse is_digit
one_digit = refl

legacy : parse_legacy_slot_name (codes "log12.log") ≡ some (0, 12)
unfolding parse_legacy_slot_name parse
legacy = refl

-- A plus sign is part of what the standard library reads as a number.
legacy_plus : parse_legacy_slot_name (codes "log+5.log") ≡ some (0, 5)
unfolding parse_legacy_slot_name parse
legacy_plus = refl

wraps : boot_newer 0 (u64_limit - 1) ≡ true
unfolding boot_newer
wraps = refl

parse_segment_name-segment_name_example : parse_segment_name (segment_name 42 7) ≡ some (42, 7)
parse_segment_name-segment_name_example =
    parse_segment_name-segment_name 42 7 (omega arith) (omega arith)

segment_name-Before_example : Before (segment_name 6 2) (segment_name 7 0)
segment_name-Before_example =
    segment_name-Before 6 2 7 0 (omega arith) (omega arith) (omega arith) (omega arith)
      (inl (omega arith))

-- Boots on both sides of the wrap-around
abbrev wrapped : List (ℕ × ℕ)
wrapped = (u64_limit - 2, 0) ∷ (1, 0) ∷ (2, 3) ∷ []

next_boot_newer_example : All (λ g. boot_newer (next_boot (newest_boot wrapped)) g.0 ≡ true) wrapped
next_boot_newer_example = next_boot_newer (u64_limit - 2) wrapped (omega arith) (omega arith)

oldest_file_extreme_example :
    (o : ℕ × ℕ) × (oldest_file wrapped ≡ some o)
    × Has o wrapped
    × All (λ g. segment_newer o g ≡ false) wrapped
oldest_file_extreme_example =
    oldest_file_extreme (u64_limit - 2) (u64_limit - 2, 0) ((1, 0) ∷ (2, 3) ∷ []) (omega arith)
      (omega arith)

format_boot_marker_whole_example :
    format_boot_marker 7 (codes "12345678-9ABCDEF0-11223344")
    ≡ marker_text 7 (codes "12345678-9ABCDEF0-11223344")
format_boot_marker_whole_example =
    format_boot_marker_whole 7 (codes "12345678-9ABCDEF0-11223344") (omega arith) (omega arith)
