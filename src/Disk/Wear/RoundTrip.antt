-- ===== src/Disk/Wear/RoundTrip.antt =====
-- A table of erase counts written and read back.
use hc32f460jeua_evb.Base.{
  ℕ, zero, suc, ◌+◌, ◌-◌, ◌*◌, sym, append_assoc, drop-append, drop-drop, ◌≤◌, ◌<◌, ◌≡◌, refl, ap,
  ap₂, ◌∙◌, subst, arith, List, [], ◌∷◌, ◌++◌, length, take, drop, get_or, All, length-append,
  length-take, length-drop,
}
use hc32f460jeua_evb.Base.Text.{Bytes}
use hc32f460jeua_evb.Disk.Format.{ok, wear_table_size, write_u16, read_u16, le_bytes_2}
use hc32f460jeua_evb.Disk.Format.Layout.{wear_table_size_lem}
use hc32f460jeua_evb.Disk.Wear.{write_counts, encode_wear_table, read_counts, decode_wear_table}

get_or-write_before :
    (b : Bytes) (o k : ℕ) (p : Bytes)
    → k < o
    → o ≤ length b
    → get_or (take o b ++ p) k 0 ≡ get_or b k 0
get_or-write_before [] zero k p h l = absurd (omega arith)
get_or-write_before [] (suc o) k p h l = absurd (omega arith)
get_or-write_before (x ∷ b) zero k p h l = absurd (omega arith)
get_or-write_before (x ∷ b) (suc o) zero p h l = refl
get_or-write_before (x ∷ b) (suc o) (suc k) p h l =
    get_or-write_before b o k p (omega arith) (omega arith)

get_or-write_in :
    (b : Bytes) (o j : ℕ) (p : Bytes)
    → o ≤ length b
    → get_or (take o b ++ p) (o + j) 0 ≡ get_or p j 0
get_or-write_in b zero j p l = let z : 0 + j ≡ j = omega arith in rw z refl
get_or-write_in [] (suc o) j p l = absurd (omega arith)
get_or-write_in (x ∷ b) (suc o) j p l =
    let s : suc o + j ≡ suc (o + j) = omega arith in rw s (get_or-write_in b o j p (omega arith))

length-write_u16 : (b : Bytes) (o v : ℕ) → o + 2 ≤ length b → length (write_u16 b o v) ≡ length b
unfolding write_u16
length-write_u16 b o v h = omega (
  arith,
  length-append (take o b) (le_bytes_2 v ++ drop (o + 2) b),
  length-take o b,
  length-drop (o + 2) b,
)

read_back : (b : Bytes) (o v : ℕ) → o + 2 ≤ length b → v < 65536 → read_u16 (write_u16 b o v) o ≡ v
unfolding read_u16 write_u16
read_back b o v h w =
    let p = le_bytes_2 v ++ drop (o + 2) b in
    let z : o ≡ o + 0 = omega arith in
    omega (
      arith,
      ap (λ k. get_or (take o b ++ p) k 0) z,
      get_or-write_in b o 0 p (omega arith),
      get_or-write_in b o 1 p (omega arith),
    )

read_before :
    (b : Bytes) (o v k : ℕ)
    → o + 2 ≤ length b
    → k + 2 ≤ o
    → read_u16 (write_u16 b o v) k ≡ read_u16 b k
unfolding read_u16 write_u16
read_before b o v k h l =
    let p = le_bytes_2 v ++ drop (o + 2) b in
    omega (
      arith,
      get_or-write_before b o k p (omega arith) (omega arith),
      get_or-write_before b o (k + 1) p (omega arith) (omega arith),
    )

-- The loop writes within the buffer and leaves what is in front of it.
write_counts_kept :
    (ws : List ℕ) (i : ℕ) (b : Bytes)
    → (i + length ws) * 2 ≤ length b
    → (length (write_counts ws i b) ≡ length b)
      × ((k : ℕ) → k + 2 ≤ i * 2 → read_u16 (write_counts ws i b) k ≡ read_u16 b k)
unfolding write_counts
write_counts_kept [] i b h = (refl, λ k l. refl)
write_counts_kept (w ∷ ws) i b h =
    let l = length-write_u16 b (i * 2) w (omega arith) in
    let (a, c) = write_counts_kept ws (i + 1) (write_u16 b (i * 2) w) (omega (arith, l)) in
    (a ∙ l, λ k x. c k (omega arith) ∙ read_before b (i * 2) w k (omega arith) x)

read_counts-write_counts :
    (ws : List ℕ) (i : ℕ) (b : Bytes)
    → (i + length ws) * 2 ≤ length b
    → All (λ w. w < 65536) ws
    → read_counts (write_counts ws i b) (length ws) i ≡ ws
unfolding read_counts write_counts
read_counts-write_counts [] i b h a = refl
read_counts-write_counts (w ∷ ws) i b h a =
    let b' = write_u16 b (i * 2) w in
    let l = length-write_u16 b (i * 2) w (omega arith) in
    let (_, kept) = write_counts_kept ws (i + 1) b' (omega (arith, l)) in
    ap₂ (◌∷◌) (kept (i * 2) (omega arith) ∙ read_back b (i * 2) w (omega arith) a.0)
      (read_counts-write_counts ws (i + 1) b' (omega (arith, l)) a.1)

take-All : (n : ℕ) (ws : List ℕ) → All (λ w. w < 65536) ws → All (λ w. w < 65536) (take n ws)
take-All zero ws a = tt
take-All (suc n) [] a = tt
take-All (suc n) (w ∷ ws) a = (a.0, take-All n ws a.1)

drop-write_u16 :
    (b : Bytes) (o v k : ℕ) → o + 2 ≤ k → k ≤ length b → drop k (write_u16 b o v) ≡ drop k b
unfolding write_u16
drop-write_u16 b o v k h l =
    let p = take o b ++ le_bytes_2 v in
    let sized : length p ≡ o + 2 =
      omega (arith, length-append (take o b) (le_bytes_2 v), length-take o b) in
    let z : o + 2 + (k - (o + 2)) ≡ k = omega arith in
    ap (drop k) (sym (append_assoc (take o b) (le_bytes_2 v) (drop (o + 2) b)))
    ∙ sym (ap (λ x. drop x (p ++ drop (o + 2) b)) z)
    ∙ drop-drop (o + 2) (k - (o + 2)) (p ++ drop (o + 2) b)
    ∙ ap (drop (k - (o + 2))) (drop-append (o + 2) p (drop (o + 2) b) sized)
    ∙ sym (drop-drop (o + 2) (k - (o + 2)) b)
    ∙ ap (λ x. drop x b) z

-- The bytes behind the table stay.
write_counts_behind :
    (ws : List ℕ) (i : ℕ) (b : Bytes) (k : ℕ)
    → (i + length ws) * 2 ≤ k
    → k ≤ length b
    → drop k (write_counts ws i b) ≡ drop k b
unfolding write_counts
write_counts_behind [] i b k h l = refl
write_counts_behind (w ∷ ws) i b k h l =
    let same = length-write_u16 b (i * 2) w (omega arith) in
    write_counts_behind ws (i + 1) (write_u16 b (i * 2) w) k (omega arith) (omega (arith, same))
    ∙ drop-write_u16 b (i * 2) w k (omega arith) l

-- A table of at most 64 counts is encoded into a buffer with room for it, whose length and whose bytes
-- behind the table stay, and decoding gives the counts back, in front of what stands in the array behind them.
pub decode_wear_table-encode_wear_table :
    (wear : List ℕ) (n : ℕ) (buffer : Bytes) (out : List ℕ)
    → n ≤ 64
    → n ≤ length wear
    → n ≤ length out
    → wear_table_size n ≤ length buffer
    → All (λ w. w < 65536) wear
    → (bytes : Bytes) × (encode_wear_table wear n buffer ≡ ok (wear_table_size n, bytes))
      × (length bytes ≡ length buffer)
      × (drop (wear_table_size n) bytes ≡ drop (wear_table_size n) buffer)
      × (decode_wear_table bytes n out ≡ ok (wear_table_size n, take n wear ++ drop n out))
unfolding encode_wear_table decode_wear_table
decode_wear_table-encode_wear_table wear n buffer out few hw ho hb a =
    let ws = take n wear in
    let l : length ws ≡ n = omega (arith, length-take n wear) in
    let sized = wear_table_size_lem n few in
    let room : (0 + length ws) * 2 ≤ length buffer = omega (arith, l, wear_table_size_lem n few) in
    let (same, _) = write_counts_kept ws 0 buffer room in
    let back = read_counts-write_counts ws 0 buffer room (take-All n wear a) in
    (
      write_counts ws 0 buffer,
      ground arith,
      same,
      write_counts_behind ws 0 buffer (wear_table_size n) (omega (arith, l, sized)) hb,
      rw (subst (λ k. read_counts (write_counts ws 0 buffer) k 0 ≡ ws) l back)
          (ground (arith, same)),
    )
