-- ===== src/Disk/Placement.antt =====
-- Where crates/littlefs/src/fs.rs puts the next snapshot: the choice of a run of blocks by their wear.
-- The table of counts is a list of words of 16 bits, the top bit of which marks a bad block.
pub mod Runs
pub mod Price
pub mod Best
pub mod Tests
use Prim.Native.Nat.{bit_and, bit_or}
use hc32f460jeua_evb.Base.{
  ℕ, zero, suc, ◌+◌, ◌-◌, ◌/◌, ◌%◌, Bool, true, false, ◌&&◌, ◌||◌, not, Option, none, some, List,
  [], ◌∷◌, ◌++◌, ltb, leb, ◌==◌, if◌then◌else◌, get_or, set, map, take, drop, min, max,
}
use hc32f460jeua_evb.Disk.Header.{SnapshotHeader}

abbrev pub wear_bad_bit : ℕ
wear_bad_bit = 32768

abbrev pub wear_count_mask : ℕ
wear_count_mask = 0x7fff

abbrev pub is_bad : ℕ → Bool
is_bad entry = not (bit_and entry wear_bad_bit == 0)

-- Some block of the `n` from `start` on is this one; the index of the loop is carried in `start`.
unfoldable pub covers : ℕ → ℕ → ℕ → ℕ → Bool
covers block_count zero start block = false
covers block_count (suc n) start block =
    let rest = covers block_count n (start + 1) block in
    if start % block_count == block then true else rest

unfoldable pub spans_overlap : ℕ → ℕ → ℕ → ℕ → ℕ → Bool
spans_overlap start zero other_start other_span block_count = false
spans_overlap start (suc span) other_start other_span block_count =
    let rest = spans_overlap (start + 1) span other_start other_span block_count in
    if covers block_count other_span other_start (start % block_count) then true else rest

-- The loop of `segments_overlap` over `n` blocks of the left segment, from `start` on
unfoldable pub segments_loop : SnapshotHeader → SnapshotHeader → ℕ → ℕ → Bool
segments_loop left right zero start = false
segments_loop left right (suc n) start =
    let rest = segments_loop left right n (start + 1) in
    if covers right.block_count right.block_span right.start_block (start % left.block_count)
    then true
    else rest

unfoldable pub segments_overlap : SnapshotHeader → SnapshotHeader → Bool
segments_overlap left right = segments_loop left right left.block_span left.start_block

-- The loop over the blocks of a run: the greatest count and their sum, or a bad block.
unfoldable pub run_cost : List ℕ → ℕ → ℕ → ℕ → ℕ → ℕ → Option (ℕ × ℕ)
run_cost wear block_count zero start maximum sum = some (maximum, sum)
run_cost wear block_count (suc n) start maximum sum =
    let entry = get_or wear (start % block_count) 0 in
    let count = bit_and entry wear_count_mask in
    let rest =
      run_cost wear block_count n (start + 1) (max maximum count) (min (sum + count) 0xffffffff) in
    if is_bad entry then none else rest

-- Tuples are compared from the left.
abbrev pub lex_lt : ℕ × ℕ × ℕ → ℕ × ℕ × ℕ → Bool
lex_lt (a, b, c) (x, y, z) = ltb a x || (a == x && (ltb b y || (b == y && ltb c z)))

abbrev pub with_distance : ℕ → Option (ℕ × ℕ) → Option (ℕ × ℕ × ℕ)
with_distance distance none = none
with_distance distance (some (maximum, sum)) = some (maximum, sum, distance)

-- What a start is ranked by, if it is a candidate at all.
unfoldable pub cost : SnapshotHeader → ℕ → List ℕ → ℕ → ℕ → Option (ℕ × ℕ × ℕ)
cost active span wear block_count start =
    let successor = (active.start_block + active.block_span) % block_count in
    if spans_overlap start span active.start_block active.block_span block_count
    then none
    else with_distance ((start + block_count - successor) % block_count)
        (run_cost wear block_count span start 0 0)

abbrev pub Chosen : Type 0
Chosen = Option ((ℕ × ℕ × ℕ) × ℕ)

abbrev pub replace : Chosen → ℕ × ℕ × ℕ → ℕ → Chosen
replace none c start = some (c, start)
replace (some (best, s)) c start = if lex_lt c best then some (c, start) else some (best, s)

abbrev pub consider : Chosen → Option (ℕ × ℕ × ℕ) → ℕ → Chosen
consider best none start = best
consider best (some c) start = replace best c start

-- The loop of `choose_start_block`, over `n` starts from `start` on
unfoldable pub choose_loop : (ℕ → Option (ℕ × ℕ × ℕ)) → ℕ → ℕ → Chosen → Chosen
choose_loop rank zero start best = best
choose_loop rank (suc n) start best =
    choose_loop rank n (start + 1) (consider best (rank start) start)

abbrev pub start_of : Chosen → Option ℕ
start_of none = none
start_of (some (c, start)) = some start

unfoldable pub choose_start_block : SnapshotHeader → ℕ → List ℕ → ℕ → Option ℕ
choose_start_block active span wear block_count =
    start_of (choose_loop (cost active span wear block_count) block_count 0 none)

-- The loop of `incremented_wear` over `n` blocks from `start` on
unfoldable pub incremented_wear : List ℕ → ℕ → ℕ → ℕ → List ℕ
incremented_wear wear start_block zero block_count = wear
incremented_wear wear start_block (suc n) block_count =
    let block = start_block % block_count in
    let entry = get_or wear block 0 in
    let count = min (bit_and entry wear_count_mask + 1) wear_count_mask in
    incremented_wear (set wear block (bit_or (bit_and entry wear_bad_bit) count)) (start_block + 1)
      n block_count

unfoldable pub mark_bad : List ℕ → ℕ → List ℕ
mark_bad wear block = set wear block (bit_or (get_or wear block 0) wear_bad_bit)

unfoldable pub has_bad : List ℕ → ℕ → ℕ → ℕ → Bool
has_bad wear block_count zero start = false
has_bad wear block_count (suc n) start =
    let rest = has_bad wear block_count n (start + 1) in
    if is_bad (get_or wear (start % block_count) 0) then true else rest

-- The loop of `choose_virgin_start` over `n` starts from `start` on
unfoldable pub virgin_loop : ℕ → List ℕ → ℕ → ℕ → ℕ → Option ℕ
virgin_loop span wear block_count zero start = none
virgin_loop span wear block_count (suc n) start =
    let rest = virgin_loop span wear block_count n (start + 1) in
    if has_bad wear block_count span start then rest else some start

unfoldable pub choose_virgin_start : ℕ → List ℕ → ℕ → Option ℕ
choose_virgin_start span wear block_count = virgin_loop span wear block_count block_count 0

abbrev pub wear_rescale_at : ℕ
wear_rescale_at = 30000

unfoldable pub any_saturated : List ℕ → Bool
any_saturated [] = false
any_saturated (entry ∷ wear) =
    leb wear_rescale_at (bit_and entry wear_count_mask) || any_saturated wear

-- The count is halved, the mark of a bad block stays.
unfoldable pub halved : ℕ → ℕ
halved entry = bit_or (bit_and entry wear_bad_bit) (bit_and entry wear_count_mask / 2)

unfoldable pub rescaled_wear : List ℕ → ℕ → List ℕ
rescaled_wear wear block_count =
    if any_saturated (take block_count wear)
    then map halved (take block_count wear) ++ drop block_count wear
    else wear
