-- ===== src/Disk/Wear.antt =====
-- The table of erase counts of crates/littlefs/src/format.rs. A count is a word of 16 bits.
pub mod RoundTrip
use hc32f460jeua_evb.Base.{
  ℕ, zero, suc, ◌+◌, ◌*◌, Bool, true, false, ◌||◌, List, [], ◌∷◌, ◌++◌, ltb, if◌then◌else◌, length,
  take, drop,
}
use hc32f460jeua_evb.Base.Text.{Bytes}
use hc32f460jeua_evb.Disk.Format.{
  FormatError, Result, ok, err, wear_entry_size, wear_table_size, write_u16, read_u16,
}

-- The loop of `encode_wear_table`, from an index on
unfoldable pub write_counts : List ℕ → ℕ → Bytes → Bytes
write_counts [] index out = out
write_counts (count ∷ counts) index out =
    write_counts counts (index + 1) (write_u16 out (index * wear_entry_size) count)

unfoldable pub encode_wear_table : List ℕ → ℕ → Bytes → Result (ℕ × Bytes)
encode_wear_table wear block_count out =
    let size = wear_table_size block_count in
    if ltb (length out) size || ltb (length wear) block_count
    then err (FormatError.buffer_too_small size (length out))
    else ok (size, write_counts (take block_count wear) 0 out)

-- The loop of `decode_wear_table`, for a number of counts from an index on
unfoldable pub read_counts : Bytes → ℕ → ℕ → List ℕ
read_counts bytes zero index = []
read_counts bytes (suc n) index =
    read_u16 bytes (index * wear_entry_size) ∷ read_counts bytes n (index + 1)

unfoldable pub decode_wear_table : Bytes → ℕ → List ℕ → Result (ℕ × List ℕ)
decode_wear_table bytes block_count out =
    let size = wear_table_size block_count in
    if ltb (length bytes) size || ltb (length out) block_count
    then err (FormatError.buffer_too_small size (length bytes))
    else ok (size, read_counts bytes block_count 0 ++ drop block_count out)
