-- ===== src/Log/File.antt =====
-- src/logfile_core.rs: the names of the log files and the order of the boots. A boot number is a
-- word of 64 bits and a segment number one of 32; a name is the list of its bytes.
pub mod Names
pub mod Order
pub mod Newest
pub mod Marker
use hc32f460jeua_evb.Base.{
  ℕ, ◌+◌, ◌-◌, ◌%◌, ◌^◌, max, Bool, true, false, ◌&&◌, ◌||◌, not, Option, none, some, List, [], ◌∷◌,
  ◌++◌, map, ltb, ◌==◌, if◌then◌else◌, is_nil, length, take, drop, replicate,
}
use hc32f460jeua_evb.Base.Text.{Bytes, codes, ◌>>=◌, bytes_eq, strip_prefix, strip_suffix}
use hc32f460jeua_evb.Log.Decimal.{decimal, padded, is_digit, parse}

abbrev pub name_cap : ℕ
name_cap = 40

abbrev pub marker_cap : ℕ
marker_cap = 96

abbrev pub u64_limit : ℕ
u64_limit = 2 ^ 64

abbrev pub u32_limit : ℕ
u32_limit = 2 ^ 32

-- `Sink` and `write!`: the pieces of a format are written one by one; the first one that does not fit
-- is an error, which ends the write, and what was written before it stays.
unfoldable pub write_pieces : ℕ → List Bytes → Bytes → Bytes
write_pieces cap [] out = out
write_pieces cap (p ∷ ps) out =
    let rest = write_pieces cap ps (out ++ p) in
    if ltb cap (length out + length p) then out else rest

-- `{:0w}` writes the zeros one by one, then the number.
unfoldable pub padded_pieces : ℕ → ℕ → List Bytes
padded_pieces w n = map (λ z. z ∷ []) (replicate (w - length (decimal n)) b'0') ++ decimal n ∷ []

unfoldable pub segment_name : ℕ → ℕ → Bytes
segment_name boot segment =
    let tail = if segment == 0 then [] else codes "_" ∷ padded_pieces 3 segment in
    write_pieces name_cap (codes "boot_" ∷ (padded_pieces 20 boot ++ (tail ++ codes ".log" ∷ [])))
      []

-- `find` of the first character that is no digit, or the length
unfoldable pub digit_end : Bytes → ℕ
digit_end [] = 0
digit_end (c ∷ s) = let n = digit_end s in if is_digit c then n + 1 else 0

unfoldable pub all_digits : Bytes → Bool
all_digits [] = true
all_digits (c ∷ s) = is_digit c && all_digits s

-- What follows the number of the boot.
unfoldable pub parse_tail : ℕ → Bytes → Option (ℕ × ℕ)
parse_tail boot tail =
    if bytes_eq tail (codes ".log")
    then some (boot, 0)
    else strip_prefix (codes "_") tail >>= strip_suffix (codes ".log") >>= λ seg.
        if ltb (length seg) 2 || ltb 10 (length seg) || not (all_digits seg)
        then none
        else parse u32_limit seg >>= λ segment. some (boot, segment)

unfoldable pub parse_segment_name : Bytes → Option (ℕ × ℕ)
parse_segment_name name = strip_prefix (codes "boot_") name >>= λ rest.
    let k = digit_end rest in
    if k == 0 || ltb 20 k
    then none
    else parse u64_limit (take k rest) >>= λ boot. parse_tail boot (drop k rest)

unfoldable pub parse_legacy_slot_name : Bytes → Option (ℕ × ℕ)
parse_legacy_slot_name name =
    strip_prefix (codes "log") name >>= strip_suffix (codes ".log") >>= λ digits.
    if is_nil digits || ltb 3 (length digits)
    then none
    else parse u32_limit digits >>= λ slot. some (0, slot)

-- `a.wrapping_sub(b)`
abbrev pub wrapping_sub : ℕ → ℕ → ℕ
wrapping_sub a b = (a + u64_limit - b) % u64_limit

unfoldable pub boot_newer : ℕ → ℕ → Bool
boot_newer a b = not (a == b) && ltb (wrapping_sub a b) (2 ^ 63)

unfoldable pub segment_newer : ℕ × ℕ → ℕ × ℕ → Bool
segment_newer (a, i) (b, j) = if a == b then ltb j i else boot_newer a b

-- The loop of `newest_boot`, from the best so far
unfoldable pub newest_from : Option ℕ → List (ℕ × ℕ) → Option ℕ
newest_from best [] = best
newest_from none ((boot, _) ∷ files) = newest_from (some boot) files
newest_from (some current) ((boot, _) ∷ files) =
    newest_from (some (if boot_newer boot current then boot else current)) files

unfoldable pub newest_boot : List (ℕ × ℕ) → Option ℕ
newest_boot files = newest_from none files

-- The loop of `oldest_file`, from the oldest so far
unfoldable pub oldest_from : Option (ℕ × ℕ) → List (ℕ × ℕ) → Option (ℕ × ℕ)
oldest_from oldest [] = oldest
oldest_from none (file ∷ files) = oldest_from (some file) files
oldest_from (some current) (file ∷ files) =
    oldest_from (some (if segment_newer current file then file else current)) files

unfoldable pub oldest_file : List (ℕ × ℕ) → Option (ℕ × ℕ)
oldest_file files = oldest_from none files

unfoldable pub next_boot : Option ℕ → ℕ
next_boot none = 1
next_boot (some n) = max ((n + 1) % u64_limit) 1

-- ` · `, whose dot has two bytes
abbrev pub dot : Bytes
dot = b' ' ∷ 194 ∷ 183 ∷ b' ' ∷ []

unfoldable pub boot_pieces : ℕ → Bytes → List Bytes
boot_pieces boot uid =
    let head = (b'\n' ∷ codes "----- boot #") ∷ decimal boot ∷ [] in
    let last = (codes " -----" ++ b'\n' ∷ []) ∷ [] in
    if is_nil uid then head ++ last else head ++ ((dot ++ codes "UID ") ∷ uid ∷ last)

unfoldable pub format_boot_marker : ℕ → Bytes → Bytes
format_boot_marker boot uid = write_pieces marker_cap (boot_pieces boot uid) []
