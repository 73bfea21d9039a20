-- ===== src/Disk/Header/Corrupted.antt =====
-- A committed header in which one byte is not what was written.
use hc32f460jeua_evb.Base.{
  ℕ, zero, suc, ◌+◌, ◌-◌, ◌<◌, ◌≡◌, ◌≢◌, refl, sym, ap, ◌∙◌, subst, arith, [], ◌∷◌, ◌++◌, ltb,
  ltb→lt, ltb-ge, length, take, drop, get_or, set, length-set, take-append, All, inl, inr,
  Bool-cases,
}
use hc32f460jeua_evb.Base.Text.{Bytes}
use hc32f460jeua_evb.Disk.Crc.{word, IsByte, crc32_mpeg2, crc32_mpeg2-lt, crc32_mpeg2_detects}
use hc32f460jeua_evb.Disk.Format.{
  ok, and_then-ok, ok-inj, commit_marker, header_crc_offset, commit_offset, read_u32, le_bytes_4,
}
use hc32f460jeua_evb.Disk.Header.{
  SnapshotHeader, validate, image, encode_with_marker, encode_committed, decode,
}
use hc32f460jeua_evb.Disk.Header.Image.{fields, image-fields, word_back}

-- What a decoded image has in its last two words.
decode-ok :
    (bytes : Bytes) (g : SnapshotHeader)
    → decode bytes ≡ ok g
    → (read_u32 bytes commit_offset ≡ commit_marker)
      × (read_u32 bytes header_crc_offset ≡ crc32_mpeg2 (take header_crc_offset bytes))
unfolding decode
decode-ok bytes g e = (ground arith, ground arith)

get_or-append :
    (xs ys : Bytes) (n k : ℕ) → length xs ≡ n → get_or (xs ++ ys) (n + k) 0 ≡ get_or ys k 0
get_or-append xs ys n k e = rw (← e) (behind xs)
  where
    behind : (zs : Bytes) → get_or (zs ++ ys) (length zs + k) 0 ≡ get_or ys k 0
    behind [] = let z : 0 + k ≡ k = omega arith in rw z refl
    behind (z ∷ zs) =
        let s : suc (length zs) + k ≡ suc (length zs + k) = omega arith in rw s (behind zs)

read_u32-append :
    (xs ys : Bytes) (k : ℕ) → length xs ≡ 56 → read_u32 (xs ++ ys) (56 + k) ≡ read_u32 ys k
unfolding read_u32
read_u32-append xs ys k e =
    let a = get_or-append xs ys 56 in
    let one : 56 + k + 1 ≡ 56 + (k + 1) = omega arith in
    let two : 56 + k + 2 ≡ 56 + (k + 2) = omega arith in
    let three : 56 + k + 3 ≡ 56 + (k + 3) = omega arith in
    rw (one, two, three, a k e, a (k + 1) e, a (k + 2) e, a (k + 3) e)

set-front : (xs ys : Bytes) (i v : ℕ) → i < length xs → set (xs ++ ys) i v ≡ set xs i v ++ ys
set-front [] ys i v h = absurd (omega arith)
set-front (x ∷ xs) ys zero v h = refl
set-front (x ∷ xs) ys (suc i) v h = ap (◌∷◌ x) (set-front xs ys i v (omega arith))

set-behind : (xs ys : Bytes) (k v : ℕ) → set (xs ++ ys) (length xs + k) v ≡ xs ++ set ys k v
set-behind [] ys k v = let z : 0 + k ≡ k = omega arith in rw z refl
set-behind (x ∷ xs) ys k v =
    let s : suc (length xs) + k ≡ suc (length xs + k) = omega arith in
    rw s (ap (◌∷◌ x) (set-behind xs ys k v))

get_or-front : (xs ys : Bytes) (i : ℕ) → i < length xs → get_or (xs ++ ys) i 0 ≡ get_or xs i 0
get_or-front [] ys i h = absurd (omega arith)
get_or-front (x ∷ xs) ys zero h = refl
get_or-front (x ∷ xs) ys (suc i) h = get_or-front xs ys i (omega arith)

-- Writing one byte exchanges it between what is in front and what is behind.
set-split :
    (xs : Bytes) (i v : ℕ)
    → i < length xs
    → (set xs i v ≡ take i xs ++ v ∷ drop (suc i) xs)
      × (xs ≡ take i xs ++ get_or xs i 0 ∷ drop (suc i) xs)
set-split [] i v h = absurd (omega arith)
set-split (x ∷ xs) zero v h = (refl, refl)
set-split (x ∷ xs) (suc i) v h =
    let (a, b) = set-split xs i v (omega arith) in (ap (◌∷◌ x) a, ap (◌∷◌ x) b)

get_or-IsByte : (xs : Bytes) (i : ℕ) → All IsByte xs → IsByte (get_or xs i 0)
get_or-IsByte [] i h = omega arith
get_or-IsByte (x ∷ xs) zero h = h.0
get_or-IsByte (x ∷ xs) (suc i) h = get_or-IsByte xs i h.1

crc-set :
    (xs : Bytes) (i v : ℕ)
    → i < length xs
    → All IsByte xs
    → IsByte v
    → v ≢ get_or xs i 0
    → crc32_mpeg2 (set xs i v) ≢ crc32_mpeg2 xs
crc-set xs i v h b bv n e =
    let (a, c) = set-split xs i v h in
    crc32_mpeg2_detects (take i xs) v (get_or xs i 0) (drop (suc i) xs) bv (get_or-IsByte xs i b) n
      (ap crc32_mpeg2 (sym a) ∙ e ∙ ap crc32_mpeg2 c)

fields-IsByte : (h : SnapshotHeader) → All IsByte (fields h)
unfolding fields
fields-IsByte h = omega arith

length-fields : (h : SnapshotHeader) → length (fields h) ≡ 56
unfolding fields
length-fields h = refl

trailer : SnapshotHeader → Bytes
trailer h = le_bytes_4 (crc32_mpeg2 (fields h)) ++ le_bytes_4 commit_marker

-- A wrong byte in the stored checksum makes it another one, and a wrong byte in the marker another
-- marker.
trailer_changed :
    (c j v : ℕ)
    → c < word
    → j < 8
    → IsByte v
    → v ≢ get_or (le_bytes_4 c ++ le_bytes_4 commit_marker) j 0
    → read_u32 (set (le_bytes_4 c ++ le_bytes_4 commit_marker) j v) 4 ≡ commit_marker
    → read_u32 (set (le_bytes_4 c ++ le_bytes_4 commit_marker) j v) 0 ≢ c
unfolding read_u32
trailer_changed c zero v hc hj b n m e = n (omega arith)
trailer_changed c (suc zero) v hc hj b n m e = n (omega arith)
trailer_changed c (suc (suc zero)) v hc hj b n m e = n (omega arith)
trailer_changed c (suc (suc (suc zero))) v hc hj b n m e = n (omega arith)
trailer_changed c (suc (suc (suc (suc zero)))) v hc hj b n m e = n (omega arith)
trailer_changed c (suc (suc (suc (suc (suc zero))))) v hc hj b n m e = n (omega arith)
trailer_changed c (suc (suc (suc (suc (suc (suc zero)))))) v hc hj b n m e = n (omega arith)
trailer_changed c (suc (suc (suc (suc (suc (suc (suc zero))))))) v hc hj b n m e = n (omega arith)
trailer_changed c (suc (suc (suc (suc (suc (suc (suc (suc j)))))))) v hc hj b n m e =
    absurd (omega arith)

-- In front of the checksum
fields_changed :
    (h g : SnapshotHeader) (i v : ℕ)
    → i < 56
    → IsByte v
    → v ≢ get_or (fields h) i 0
    → decode (set (fields h) i v ++ trailer h) ≢ ok g
unfolding trailer
fields_changed h g i v hi b n e =
    let xs = set (fields h) i v in
    let l : length xs ≡ 56 = length-set (fields h) i v ∙ length-fields h in
    let (m, c) = decode-ok (xs ++ trailer h) g e in
    let stored =
      sym (read_u32-append xs (trailer h) 0 l)
      ∙ c
      ∙ ap crc32_mpeg2 (take-append 56 xs (trailer h) l) in
    crc-set (fields h) i v (omega (arith, length-fields h)) (fields-IsByte h) b n (
      sym stored
      ∙ unfold read_u32 in word_back (crc32_mpeg2 (fields h)) (crc32_mpeg2-lt (fields h)))

trailer_refused :
    (h g : SnapshotHeader) (j v : ℕ)
    → j < 8
    → IsByte v
    → v ≢ get_or (trailer h) j 0
    → decode (fields h ++ set (trailer h) j v) ≢ ok g
unfolding trailer
trailer_refused h g j v hj b n e =
    let t = set (trailer h) j v in
    let (m, c) = decode-ok (fields h ++ t) g e in
    trailer_changed (crc32_mpeg2 (fields h)) j v (crc32_mpeg2-lt (fields h)) hj b n
      (sym (read_u32-append (fields h) t 4 (length-fields h)) ∙ m)
      (sym (read_u32-append (fields h) t 0 (length-fields h))
        ∙ c
        ∙ ap crc32_mpeg2 (take-append 56 (fields h) t (length-fields h)))

image_corrupted :
    (h g : SnapshotHeader) (i v : ℕ)
    → i < 64
    → IsByte v
    → v ≢ get_or (fields h ++ trailer h) i 0
    → decode (set (fields h ++ trailer h) i v) ≢ ok g
image_corrupted h g i v hi b n = elim (Bool-cases (ltb i 56)) [
  | inl e ↦
      let inside : i < length (fields h) = omega (arith, length-fields h, ltb→lt i 56 e) in
      rw (set-front (fields h) (trailer h) i v inside) (
        fields_changed h g i v (ltb→lt i 56 e) b
          (rw (get_or-front (fields h) (trailer h) i inside) at n))
  | inr e ↦
      let j = i - 56 in
      let at_j : i ≡ length (fields h) + j = omega (arith, length-fields h, ltb-ge i 56 e) in
      let m : v ≢ get_or (trailer h) j 0 = λ x. n (
        x
        ∙ sym (
            ap (λ k. get_or (fields h ++ trailer h) k 0) at_j
            ∙ get_or-append (fields h) (trailer h) (length (fields h)) j refl)) in
      subst (λ bs. decode bs ≢ ok g)
        (sym
          (ap (λ k. set (fields h ++ trailer h) k v) at_j ∙ set-behind (fields h) (trailer h) j v))
        (trailer_refused h g j v (omega (arith, ltb-ge i 56 e)) b m)
]

-- A committed image in which one of its 64 bytes holds another value is never decoded, to this or to
-- any other header.
pub decode_corrupted :
    (h g : SnapshotHeader) (bytes : Bytes) (i v : ℕ)
    → encode_committed h ≡ ok bytes
    → i < 64
    → IsByte v
    → v ≢ get_or bytes i 0
    → decode (set bytes i v) ≢ ok g
unfolding encode_committed encode_with_marker trailer
decode_corrupted h g bytes i v e hi b n =
    let (_, _, f) = and_then-ok (validate h) (λ _. ok (image h commit_marker)) bytes e in
    let same : fields h ++ trailer h ≡ bytes = sym (image-fields h commit_marker) ∙ ok-inj f in
    subst (λ bs. v ≢ get_or bs i 0 → decode (set bs i v) ≢ ok g) same (image_corrupted h g i v hi b)
      n
