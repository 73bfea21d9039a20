-- ===== src/Disk/Placement/Best.antt =====
-- The start that is chosen is a candidate, and none is better.
use hc32f460jeua_evb.Base.{
  ℕ, zero, suc, ◌+◌, ◌<◌, ◌≡◌, refl, sym, ap, ◌∙◌, subst, arith, true, false, Option, none, some,
  List, Bool-cases, Option-cases, inl, inr, ◌⊎◌,
}
use hc32f460jeua_evb.Disk.Header.{SnapshotHeader}
use hc32f460jeua_evb.Disk.Placement.{
  spans_overlap, run_cost, lex_lt, with_distance, cost, Chosen, consider, choose_loop, start_of,
  choose_start_block,
}
use hc32f460jeua_evb.Disk.Placement.Price.{Price, Cheaper, cost-Price, Price-unique, lex_lt_not}
use hc32f460jeua_evb.Disk.Placement.Runs.{
  Apart, Sound, spans_overlap-Apart, run_cost-Sound, Apart-spans_overlap, Sound-run_cost,
}

module _ (rank : ℕ → Option (ℕ × ℕ × ℕ)) where
  -- Of the starts below `k`, none has a rank, or the chosen one has the least.
  abbrev pub Least : ℕ → Chosen → Type 0
  Least k none = (t : ℕ) → t < k → rank t ≡ none
  Least k (some (c, s)) =
      (s < k)
      × (rank s ≡ some c)
      × ((t : ℕ) (d : ℕ × ℕ × ℕ) → t < k → rank t ≡ some d → lex_lt d c ≡ false)

  lex_lt_trans : (d c b : ℕ × ℕ × ℕ) → lex_lt c b ≡ true → lex_lt d b ≡ false → lex_lt d c ≡ false
  lex_lt_trans (d0, d1, d2) (c0, c1, c2) (b0, b1, b2) h g = ground (arith, h, g)

  lex_lt_irrefl : (c : ℕ × ℕ × ℕ) → lex_lt c c ≡ false
  lex_lt_irrefl (c0, c1, c2) = ground arith

  last_or_below : (t k : ℕ) → t < k + 1 → (t < k) ⊎ (t ≡ k)
  last_or_below t k h = ground arith

  some_inj : (c d : ℕ × ℕ × ℕ) → some c ≡ some d → c ≡ d
  some_inj c d e = cc e

  consider-Least : (k : ℕ) (best : Chosen) → Least k best → Least (k + 1) (consider best (rank k) k)
  consider-Least k none l = elim (Option-cases (rank k)) [
    | inl e ↦ rw e (λ t h. elim (last_or_below t k h) [ inl b ↦ l t b | inr q ↦ ap rank q ∙ e ])
    | inr (c, e) ↦ rw e (
      omega arith,
      e,
      λ t d h g. elim (last_or_below t k h) [
        | inl b ↦ absurd (cc (l t b, g))
        | inr q ↦
            let same = some_inj c d (sym e ∙ ap rank (sym q) ∙ g) in
            subst (λ x. lex_lt x c ≡ false) same (lex_lt_irrefl c)
      ],
    )
  ]
  consider-Least k (some (best, s)) l = elim (Option-cases (rank k)) [
    | inl e ↦ rw e (
      omega (arith, l.0),
      l.1,
      λ t d h g. elim (last_or_below t k h) [
        | inl b ↦ l.2 t d b g
        | inr q ↦ absurd (cc (sym e ∙ ap rank (sym q) ∙ g))
      ],
    )
    | inr (c, e) ↦ elim (Bool-cases (lex_lt c best)) [
      | inl better ↦
          rw (e, better)
            (
              omega arith,
              e,
              λ t d h g. elim (last_or_below t k h) [
                | inl b ↦ lex_lt_trans d c best better (l.2 t d b g)
                | inr q ↦
                    let same = some_inj c d (sym e ∙ ap rank (sym q) ∙ g) in
                    subst (λ x. lex_lt x c ≡ false) same (lex_lt_irrefl c)
              ],
            )
      | inr no_better ↦
          rw (e, no_better)
            (
              omega (arith, l.0),
              l.1,
              λ t d h g. elim (last_or_below t k h) [
                | inl b ↦ l.2 t d b g
                | inr q ↦
                    let same = some_inj c d (sym e ∙ ap rank (sym q) ∙ g) in
                    subst (λ x. lex_lt x best ≡ false) same no_better
              ],
            )
    ]
  ]

  choose_loop-Least :
      (n k : ℕ) (best : Chosen) → Least k best → Least (k + n) (choose_loop rank n k best)
  unfolding choose_loop
  choose_loop-Least zero k best l = let z : k + 0 ≡ k = omega arith in rw z l
  choose_loop-Least (suc n) k best l =
      let z : k + suc n ≡ k + 1 + n = omega arith in
      rw z (choose_loop-Least n (k + 1) (consider best (rank k) k) (consider-Least k best l))

with_distance-some :
    (d : ℕ) (o : Option (ℕ × ℕ)) (c : ℕ × ℕ × ℕ)
    → with_distance d o ≡ some c
    → (r : ℕ × ℕ) × (o ≡ some r)
with_distance-some d none c e = cc
with_distance-some d (some r) c e = (r, refl)

cost-some :
    (active : SnapshotHeader) (span : ℕ) (wear : List ℕ) (n t : ℕ) (c : ℕ × ℕ × ℕ)
    → cost active span wear n t ≡ some c
    → Apart t span active.start_block active.block_span n × Sound wear n t span
unfolding cost
cost-some active span wear n t c e =
    elim (Bool-cases (spans_overlap t span active.start_block active.block_span n)) [
      | inl o ↦ absurd (cc (rw o at e))
      | inr o ↦
          let (r, q) = with_distance-some _ (run_cost wear n span t 0 0) c (rw o at e) in
          (spans_overlap-Apart t span _ _ n o, run_cost-Sound wear n span t 0 0 r q)
    ]

candidate_cost :
    (active : SnapshotHeader) (span : ℕ) (wear : List ℕ) (n t : ℕ)
    → Apart t span active.start_block active.block_span n
    → Sound wear n t span
    → (c : ℕ × ℕ × ℕ) × (cost active span wear n t ≡ some c)
unfolding cost
candidate_cost active span wear n t apart sound =
    let free = Apart-spans_overlap t span active.start_block active.block_span n apart in
    let ((m, sum), q) = Sound-run_cost wear n span t 0 0 sound in rw (free, q) (_, refl)

-- A start on the device whose run is apart from the active snapshot and free of bad blocks
abbrev pub Candidate : SnapshotHeader → ℕ → List ℕ → ℕ → ℕ → Type 0
Candidate active span wear n t =
    (t < n) × Apart t span active.start_block active.block_span n × Sound wear n t span

-- There is no candidate, or the chosen one is a candidate and none is cheaper, each at its price.
abbrev pub Choice : SnapshotHeader → ℕ → List ℕ → ℕ → Option ℕ → Type 0
Choice active span wear n none = (t : ℕ) → ¬ Candidate active span wear n t
Choice active span wear n (some s) =
    Candidate active span wear n s
    × (c : ℕ × ℕ × ℕ) × Price active span wear n s c
    × ((t : ℕ) (d : ℕ × ℕ × ℕ)
        → Candidate active span wear n t
        → Price active span wear n t d
        → ¬ Cheaper d c)

chosen :
    (active : SnapshotHeader) (span : ℕ) (wear : List ℕ) (n : ℕ) (best : Chosen)
    → Least (cost active span wear n) n best
    → Choice active span wear n (start_of best)
chosen active span wear n none l = λ t (on, apart, sound).
    let (c, e) = candidate_cost active span wear n t apart sound in absurd (cc (l t on, e))
chosen active span wear n (some (c, s)) l =
    let (apart, sound) = cost-some active span wear n s c l.1 in
    (
      (l.0, apart, sound),
      c,
      cost-Price active span wear n s c l.0 l.1,
      λ t d (on, apart, sound) p.
          let (d', e) = candidate_cost active span wear n t apart sound in
          let same =
            Price-unique active span wear n t d' d (cost-Price active span wear n t d' on e) p in
          lex_lt_not d c (subst (λ x. lex_lt x c ≡ false) same (l.2 t d' on e)),
    )

-- The start that is chosen for the next snapshot is a candidate: it is on the device, and its run shares no
-- block with the active snapshot and has no bad block. No candidate is cheaper: its greatest count is no
-- smaller; if that is the same, the sum of its counts, taken as at most 2^32 - 1, is no smaller; and if both
-- are the same, it is no nearer behind the end of the active snapshot. If no start is chosen, there is no
-- candidate.
pub choose_start_block-Choice :
    (active : SnapshotHeader) (span : ℕ) (wear : List ℕ) (n : ℕ)
    → Choice active span wear n (choose_start_block active span wear n)
unfolding choose_start_block
choose_start_block-Choice active span wear n =
    let rank = cost active span wear n in
    let z : 0 + n ≡ n = omega arith in
    chosen active span wear n (choose_loop rank n 0 none) (
      subst (λ k. Least rank k (choose_loop rank n 0 none)) z
        (choose_loop-Least rank n 0 none (λ t h. absurd (omega arith))))
