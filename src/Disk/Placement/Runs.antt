-- ===== src/Disk/Placement/Runs.antt =====
-- What the loops over the blocks of a run say.
use Prim.Native.Nat.{bit_and}
use hc32f460jeua_evb.Base.{
  ℕ, zero, suc, ◌+◌, ◌%◌, ◌<◌, ◌≡◌, ◌≢◌, refl, sym, ap, ◌∙◌, subst, arith, false, some, List,
  get_or, Bool-cases, inl, inr, eq→==, min, max,
}
use hc32f460jeua_evb.Disk.Placement.{
  is_bad, wear_count_mask, covers, spans_overlap, run_cost, has_bad, virgin_loop,
  choose_virgin_start,
}

-- No block of the one run is one of the other.
abbrev pub Apart : ℕ → ℕ → ℕ → ℕ → ℕ → Type 0
Apart start span other_start other_span n =
    (i j : ℕ) → i < span → j < other_span → (start + i) % n ≢ (other_start + j) % n

-- No block of the run is bad.
abbrev pub Sound : List ℕ → ℕ → ℕ → ℕ → Type 0
Sound wear n start span = (i : ℕ) → i < span → is_bad (get_or wear ((start + i) % n) 0) ≡ false

pub later : (s i : ℕ) → s + suc i ≡ s + 1 + i
later s i = omega arith

covers-false : (n k s b : ℕ) → covers n k s b ≡ false → (i : ℕ) → i < k → (s + i) % n ≢ b
unfolding covers
covers-false n zero s b h i l = absurd (omega arith)
covers-false n (suc k) s b h zero l =
    let z : s + 0 ≡ s = omega arith in rw z (λ q. ground (arith, h, eq→== (s % n) b q))
covers-false n (suc k) s b h (suc i) l =
    let z = later s i in rw z (covers-false n k (s + 1) b (ground (arith, h)) i (omega arith))

-- The test of two runs finds every common block.
pub spans_overlap-Apart : (s k o m n : ℕ) → spans_overlap s k o m n ≡ false → Apart s k o m n
unfolding spans_overlap
spans_overlap-Apart s zero o m n h i j li lj = absurd (omega arith)
spans_overlap-Apart s (suc k) o m n h zero j li lj =
    let z : s + 0 ≡ s = omega arith in
    rw z (λ q. covers-false n m o (s % n) (ground (arith, h)) j lj (sym q))
spans_overlap-Apart s (suc k) o m n h (suc i) j li lj =
    let z = later s i in
    rw z (spans_overlap-Apart (s + 1) k o m n (ground (arith, h)) i j (omega arith) lj)

covers-none : (n k s b : ℕ) → ((i : ℕ) → i < k → (s + i) % n ≢ b) → covers n k s b ≡ false
unfolding covers
covers-none n zero s b h = refl
covers-none n (suc k) s b h =
    let z : s + 0 ≡ s = omega arith in
    let first = subst (λ x. x % n ≢ b) z (h 0 (omega arith)) in
    let rest =
      covers-none n k (s + 1) b
        (λ i l. subst (λ x. x % n ≢ b) (later s i) (h (suc i) (omega (arith, l)))) in
    ground (arith, first, rest)

-- Runs without a common block pass the test.
pub Apart-spans_overlap : (s k o m n : ℕ) → Apart s k o m n → spans_overlap s k o m n ≡ false
unfolding spans_overlap
Apart-spans_overlap s zero o m n h = refl
Apart-spans_overlap s (suc k) o m n h =
    let z : s + 0 ≡ s = omega arith in
    let first =
      covers-none n m o (s % n) (λ j l q. h 0 j (omega arith) l (ap (λ x. x % n) z ∙ sym q)) in
    let rest = Apart-spans_overlap (s + 1) k o m n (λ i j li lj.
      subst (λ x. x % n ≢ (o + j) % n) (later s i) (h (suc i) j (omega (arith, li)) lj)) in
    rw (first, rest) refl

-- A run without a bad block has a cost.
pub Sound-run_cost :
    (wear : List ℕ) (n k s a b : ℕ)
    → Sound wear n s k
    → (r : ℕ × ℕ) × (run_cost wear n k s a b ≡ some r)
unfolding run_cost
Sound-run_cost wear n zero s a b h = ((a, b), refl)
Sound-run_cost wear n (suc k) s a b h =
    let z : s + 0 ≡ s = omega arith in
    let first = subst (λ x. is_bad (get_or wear (x % n) 0) ≡ false) z (h 0 (omega arith)) in
    let count = bit_and (get_or wear (s % n) 0) wear_count_mask in
    let (r, q) = Sound-run_cost wear n k (s + 1) (max a count) (min (b + count) 0xffffffff) (λ i l.
      subst (λ x. is_bad (get_or wear (x % n) 0) ≡ false) (later s i)
        (h (suc i) (omega (arith, l)))) in
    (r, rw (first, q) refl)

-- A run that has a cost has no bad block.
pub run_cost-Sound :
    (wear : List ℕ) (n k s a b : ℕ) (r : ℕ × ℕ)
    → run_cost wear n k s a b ≡ some r
    → Sound wear n s k
unfolding run_cost
run_cost-Sound wear n zero s a b r h i l = absurd (omega arith)
run_cost-Sound wear n (suc k) s a b r h zero l =
    let z : s + 0 ≡ s = omega arith in rw z (ground (arith, h))
run_cost-Sound wear n (suc k) s a b r h (suc i) l =
    let z = later s i in
    let entry = get_or wear (s % n) 0 in
    let rest : run_cost wear n k (s + 1) (max a (bit_and entry wear_count_mask))
          (min (b + bit_and entry wear_count_mask) 0xffffffff)
        ≡ some r =
      ground (arith, h) in
    rw z (run_cost-Sound wear n k (s + 1) _ _ r rest i (omega arith))

has_bad-Sound : (wear : List ℕ) (n k s : ℕ) → has_bad wear n k s ≡ false → Sound wear n s k
unfolding has_bad
has_bad-Sound wear n zero s h i l = absurd (omega arith)
has_bad-Sound wear n (suc k) s h zero l =
    let z : s + 0 ≡ s = omega arith in rw z (ground (arith, h))
has_bad-Sound wear n (suc k) s h (suc i) l =
    let z = later s i in rw z (has_bad-Sound wear n k (s + 1) (ground (arith, h)) i (omega arith))

virgin_loop-Sound :
    (span : ℕ) (wear : List ℕ) (n k s r : ℕ)
    → virgin_loop span wear n k s ≡ some r
    → (r < s + k) × Sound wear n r span
unfolding virgin_loop
virgin_loop-Sound span wear n zero s r e = cc
virgin_loop-Sound span wear n (suc k) s r e = elim (Bool-cases (has_bad wear n span s)) [
  | inl b ↦
      let (l, sound) = virgin_loop-Sound span wear n k (s + 1) r (rw b at e) in
      (omega (arith, l), sound)
  | inr b ↦
      let same : s ≡ r = some_inj (rw b at e) in
      (omega (arith, same), subst (λ x. Sound wear n x span) same (has_bad-Sound wear n span s b))
]
  where
    some_inj : {a b : ℕ} → some a ≡ some b → a ≡ b
    some_inj q = cc q

-- The first snapshot starts on the device, at a run with no bad block.
pub choose_virgin_start-Sound :
    (span : ℕ) (wear : List ℕ) (n r : ℕ)
    → choose_virgin_start span wear n ≡ some r
    → (r < n) × Sound wear n r span
unfolding choose_virgin_start
choose_virgin_start-Sound span wear n r e =
    let (l, sound) = virgin_loop-Sound span wear n n 0 r e in (omega (arith, l), sound)
