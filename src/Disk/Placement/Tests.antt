-- ===== src/Disk/Placement/Tests.antt =====
-- The choice of a start at the inputs of the tests of crates/littlefs/src/fs.rs.
use hc32f460jeua_evb.Base.{ℕ, ◌≡◌, refl, true, some, List, [], ◌∷◌, replicate}
use hc32f460jeua_evb.Disk.Header.{SnapshotHeader}
use hc32f460jeua_evb.Disk.Placement.{
  covers, spans_overlap, segments_loop, segments_overlap, run_cost, cost, choose_loop,
  choose_start_block, incremented_wear, mark_bad, has_bad, virgin_loop, choose_virgin_start,
  any_saturated, halved, rescaled_wear,
}
use hc32f460jeua_evb.Disk.Placement.Best.{Choice, choose_start_block-Choice}

-- A snapshot of one block on a device of eight
abbrev active : SnapshotHeader
active = record {
  generation = 1;
  start_block = 0;
  block_span = 1;
  payload_len = 16;
  payload_crc = 0;
  file_count = 0;
  block_size = 4096;
  block_count = 8;
  features = 0;
}

successor_first : choose_start_block active 1 (replicate 64 0) 8 ≡ some 1
unfolding choose_start_block choose_loop cost run_cost spans_overlap covers
successor_first = refl

-- Block 1 is bad.
abbrev one_bad : List ℕ
one_bad = 0 ∷ 32768 ∷ replicate 62 0

bad_skipped : choose_start_block active 1 one_bad 8 ≡ some 2
unfolding choose_start_block choose_loop cost run_cost spans_overlap covers
bad_skipped = refl

choose_start_block-Choice_example :
    Choice active 1 one_bad 8 (choose_start_block active 1 one_bad 8)
choose_start_block-Choice_example = choose_start_block-Choice active 1 one_bad 8

virgin : choose_virgin_start 2 one_bad 8 ≡ some 2
unfolding choose_virgin_start virgin_loop has_bad
virgin = refl

own_blocks : segments_overlap active active ≡ true
unfolding segments_overlap segments_loop covers
own_blocks = refl

saturates : incremented_wear (0x7fff ∷ 32773 ∷ []) 0 2 8 ≡ 0x7fff ∷ 32774 ∷ []
unfolding incremented_wear
saturates = refl

marked : mark_bad (7 ∷ 123 ∷ []) 1 ≡ 7 ∷ 32891 ∷ []
unfolding mark_bad
marked = refl

halves : rescaled_wear (10 ∷ 30000 ∷ 52768 ∷ 5 ∷ []) 3 ≡ 5 ∷ 15000 ∷ 42768 ∷ 5 ∷ []
unfolding rescaled_wear any_saturated halved
halves = refl
