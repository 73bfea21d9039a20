-- ===== src/Disk/Placement/Price.antt =====
-- What a run of blocks costs, told without the loops of crates/littlefs/src/fs.rs.
use Prim.Native.Nat.{bit_and}
use native.Mathlib.Nat.{mod-lt, mod-eq_of_lt, mod-add-mod, add-mod-mod, add-mod_right}
use hc32f460jeua_evb.Base.{
  ℕ, zero, suc, ◌+◌, ◌-◌, ◌%◌, ◌≤◌, ◌<◌, ◌≡◌, refl, sym, ap, ◌∙◌, arith, false, Option, none, some,
  List, get_or, min, max, Bool-cases, inl, inr, ◌⊎◌, leb, ltb,
}
use hc32f460jeua_evb.Disk.Header.{SnapshotHeader}
use hc32f460jeua_evb.Disk.Placement.Runs.{later}
use hc32f460jeua_evb.Disk.Placement.{
  wear_count_mask, spans_overlap, run_cost, lex_lt, with_distance, cost,
}

-- The erase count of a block
abbrev pub count_of : List ℕ → ℕ → ℕ → ℕ
count_of wear n block = bit_and (get_or wear (block % n) 0) wear_count_mask

-- The number is that of a block of the run, or 0 if the run is empty, and no block has a greater one.
abbrev pub Greatest : List ℕ → ℕ → ℕ → ℕ → ℕ → Type 0
Greatest wear n span start m =
    ((i : ℕ) → i < span → count_of wear n (start + i) ≤ m)
    × ((span ≡ 0) × (m ≡ 0) ⊎ (i : ℕ) × (i < span) × (count_of wear n (start + i) ≡ m))

-- The sum of the counts of a run
unfoldable pub total : List ℕ → ℕ → ℕ → ℕ → ℕ
total wear n zero start = 0
total wear n (suc span) start = count_of wear n start + total wear n span (start + 1)

-- The greatest count of a run, the sum of its counts up to the limit of a word, and how far behind the end of
-- the active snapshot it starts
abbrev pub Price : SnapshotHeader → ℕ → List ℕ → ℕ → ℕ → ℕ × ℕ × ℕ → Type 0
Price active span wear n start (m, sum, distance) =
    Greatest wear n span start m
    × (sum ≡ min (total wear n span start) 0xffffffff)
    × (distance < n)
    × ((active.start_block + active.block_span + distance) % n ≡ start)

abbrev pub Cheaper : ℕ × ℕ × ℕ → ℕ × ℕ × ℕ → Type 0
Cheaper (a, b, c) (x, y, z) = (a < x) ⊎ ((a ≡ x) × ((b < y) ⊎ ((b ≡ y) × (c < z))))

pub lex_lt_not : (d c : ℕ × ℕ × ℕ) → lex_lt d c ≡ false → ¬ Cheaper d c
lex_lt_not (a, b, c) (x, y, z) h = λ q. ground (arith, h, q)

-- What the loop over a run gives, from a maximum and a sum so far
abbrev Summed : List ℕ → ℕ → ℕ → ℕ → ℕ → ℕ → ℕ × ℕ → Type 0
Summed wear n span start a b (m, sum) =
    (a ≤ m)
    × ((i : ℕ) → i < span → count_of wear n (start + i) ≤ m)
    × (m ≡ a ⊎ (i : ℕ) × (i < span) × (count_of wear n (start + i) ≡ m))
    × (sum ≡ min (b + total wear n span start) 0xffffffff)

both_same : (p q : ℕ × ℕ) → some p ≡ some q → (q.0 ≡ p.0) × (q.1 ≡ p.1)
both_same p q e = (cc e, cc e)

run_cost-Summed :
    (wear : List ℕ) (n span start a b : ℕ) (r : ℕ × ℕ)
    → b ≤ 0xffffffff
    → run_cost wear n span start a b ≡ some r
    → Summed wear n span start a b r
unfolding run_cost total
run_cost-Summed wear n zero start a b (m, sum) h e =
    let (p, q) = both_same (a, b) (m, sum) e in
    (omega (arith, p), λ i l. absurd (omega arith), inl p, omega (arith, q, h))
run_cost-Summed wear n (suc span) start a b (m, sum) h e =
    let c = count_of wear n start in
    let rest : run_cost wear n span (start + 1) (max a c) (min (b + c) 0xffffffff) ≡ some (m, sum) =
      ground (arith, e) in
    let (above, each, one, s) =
      run_cost-Summed wear n span (start + 1) (max a c) (min (b + c) 0xffffffff) (m, sum)
        (omega arith) rest in
    (omega (arith, above), each_of each (omega (arith, above)), one_of one, omega (arith, s))
  where
    first : start + 0 ≡ start
    first = omega arith

    each_of :
        ((i : ℕ) → i < span → count_of wear n (start + 1 + i) ≤ m)
        → count_of wear n start ≤ m
        → (i : ℕ) → i < suc span
        → count_of wear n (start + i) ≤ m
    each_of each c zero l = rw first c
    each_of each c (suc i) l = rw (later start i) (each i (omega (arith, l)))

    one_of :
        m ≡ max a (count_of wear n start)
          ⊎ (i : ℕ) × (i < span) × (count_of wear n (start + 1 + i) ≡ m)
        → m ≡ a ⊎ (i : ℕ) × (i < suc span) × (count_of wear n (start + i) ≡ m)
    one_of (inr (i, l, q)) = inr (suc i, omega (arith, l), rw (later start i) q)
    one_of (inl q) = elim (Bool-cases (leb (count_of wear n start) a)) [
      | inl low ↦ inl (ground (arith, q, low))
      | inr high ↦ inr (0, omega arith, rw first (ground (arith, q, high)))
    ]

most_of_run :
    (wear : List ℕ) (n span start m : ℕ)
    → ((i : ℕ) → i < span → count_of wear n (start + i) ≤ m)
    → m ≡ 0 ⊎ (i : ℕ) × (i < span) × (count_of wear n (start + i) ≡ m)
    → Greatest wear n span start m
most_of_run wear n span start m each (inr one) = (each, inr one)
most_of_run wear n zero start m each (inl q) = (each, inl (refl, q))
most_of_run wear n (suc span) start m each (inl q) =
    (each, inr (0, omega arith, omega (arith, each 0 (omega arith), q)))

-- So many blocks behind a position, the other one comes, going round.
distance_back : (x t n : ℕ) → t < n → (x + (t + n - x % n) % n) % n ≡ t
distance_back x t n h =
    let some_block : 0 < n = omega (arith, h) in
    let below = mod-lt x some_block in
    let around : x % n + (t + n - x % n) ≡ t + n = omega (arith, below) in
    sym (mod-add-mod x n ((t + n - x % n) % n))
    ∙ add-mod-mod (x % n) (t + n - x % n) n
    ∙ ap (λ k. k % n) around
    ∙ add-mod_right t n
    ∙ mod-eq_of_lt h

-- The cost that the code ranks a start by is its price.
pub cost-Price :
    (active : SnapshotHeader) (span : ℕ) (wear : List ℕ) (n t : ℕ) (c : ℕ × ℕ × ℕ)
    → t < n
    → cost active span wear n t ≡ some c
    → Price active span wear n t c
unfolding cost
cost-Price active span wear n t (m, sum, d) on e =
    elim (Bool-cases (spans_overlap t span active.start_block active.block_span n)) [
      | inl o ↦ absurd (cc (rw o at e))
      | inr o ↦
          let x = active.start_block + active.block_span in
          let ((m', sum'), q, at_m, at_sum, at_d) = parts _ _ (rw o at e) in
          let (_, each, one, s) = run_cost-Summed wear n span t 0 0 (m', sum') (omega arith) q in
          rw (at_m, at_sum, at_d)
            (
              most_of_run wear n span t m' each one,
              omega (arith, s),
              mod-lt (t + n - x % n) (omega (arith, on)),
              distance_back x t n on,
            )
    ]
  where
    parts :
        (distance : ℕ) (o : Option (ℕ × ℕ))
        → with_distance distance o ≡ some (m, sum, d)
        → (r : ℕ × ℕ) × (o ≡ some r) × (m ≡ r.0) × (sum ≡ r.1) × (d ≡ distance)
    parts distance none e = cc
    parts distance (some (m', sum')) e = ((m', sum'), refl, cc e, cc e, cc e)

-- Going round once at most
around_once : (s d t n : ℕ) → s < n → d < n → (s + d) % n ≡ t → (s + d ≡ t) ⊎ (s + d ≡ t + n)
around_once s d t n hs hd e = elim (Bool-cases (ltb (s + d) n)) [
  | inl below ↦ inl (sym (mod-eq_of_lt (ground arith)) ∙ e)
  | inr above ↦
      let back : s + d - n + n ≡ s + d = ground arith in
      let rest : (s + d - n) % n ≡ t =
        sym (add-mod_right (s + d - n) n) ∙ ap (λ k. k % n) back ∙ e in
      let same : s + d - n ≡ t = sym (mod-eq_of_lt (omega (arith, hs, hd))) ∙ rest in
      inr (omega (arith, same, back))
]

distance_unique : (x t n d e : ℕ) → d < n → e < n → (x + d) % n ≡ t → (x + e) % n ≡ t → d ≡ e
distance_unique x t n d e hd he p q =
    let below : x % n < n = mod-lt x (omega (arith, hd)) in
    let a = around_once (x % n) d t n below hd (mod-add-mod x n d ∙ p) in
    let b = around_once (x % n) e t n below he (mod-add-mod x n e ∙ q) in
    elim a [
      | inl u ↦ elim b [ inl v ↦ omega (arith, u, v) | inr v ↦ omega (arith, u, v) ]
      | inr u ↦ elim b [ inl v ↦ omega (arith, u, v) | inr v ↦ omega (arith, u, v) ]
    ]

Greatest-le :
    (wear : List ℕ) (n span start m k : ℕ)
    → Greatest wear n span start m
    → Greatest wear n span start k
    → m ≤ k
Greatest-le wear n span start m k (_, inl (_, z)) g = omega (arith, z)
Greatest-le wear n span start m k (_, inr (i, l, e)) (each, _) = omega (arith, each i l, e)

-- A start has one price.
pub Price-unique :
    (active : SnapshotHeader) (span : ℕ) (wear : List ℕ) (n t : ℕ) (c d : ℕ × ℕ × ℕ)
    → Price active span wear n t c
    → Price active span wear n t d
    → c ≡ d
Price-unique active span wear n t (m, sum, x) (k, other, y) (g, s, lx, ex) (h, o, ly, ey) =
    let same_m : m ≡ k =
      omega (arith, Greatest-le wear n span t m k g h, Greatest-le wear n span t k m h g) in
    let same_x : x ≡ y =
      distance_unique (active.start_block + active.block_span) t n x y lx ly ex ey in
    cc (same_m, s ∙ sym o, same_x)
