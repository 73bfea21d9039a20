-- ===== src/Can/Search.antt =====
-- What `calculate` of can_timing.rs finds: the best of all the timings that the controller allows.
use mathlib.Core.Option.{some-injective}
use hc32f460jeua_evb.Base.{
  ℕ, ◌+◌, ◌-◌, ◌*◌, ◌≤◌, ◌<◌, ◌≡◌, refl, sym, ◌∙◌, ap, leb, true, false, ◌&&◌, arith, Bool-cases,
  le→leb, inl, inr, subst, Option, none, some,
}
use hc32f460jeua_evb.Can.{
  abs_diff, max_classic_bitrate, BitTiming, Request, Errors, Best, nothing_found, is_admissible,
  is_better, take_better, try_timing, count_up, first_seg1, search_seg1, search_seg2, is_rejected,
  calculate,
}
use hc32f460jeua_evb.Can.Order.{Before, Before-trans, is_better-Before, Before-is_better}
use hc32f460jeua_evb.Can.Loops.{count_up-keeps, count_up-reaches}
use hc32f460jeua_evb.Can.Exact.{
  IsRequest, IsTiming, exact_errors, IsAdmissible, errors-exact, exact-InRange, admissible_test,
}

module _ (r : Request) (ok : IsRequest r) where
  -- The search has found nothing, or a timing that it may take, whose errors it holds.
  abbrev Found : Best → Type 0
  Found b =
      (t : BitTiming)
      → b.best ≡ some t
      → (b.errors ≡ exact_errors r t) × IsTiming r.sjw t × IsAdmissible r t

  -- `c` does not come before the timing found.
  abbrev Covers : BitTiming → Best → Type 0
  Covers c b = (t : BitTiming) × (b.best ≡ some t) × ¬ Before (exact_errors r c) (exact_errors r t)

  irreflexive : (e : Errors) → ¬ Before e e
  irreflexive e (Before.by_rate h) = omega arith
  irreflexive e (Before.by_sample g h) = omega arith
  irreflexive e (Before.by_tq f g h) = omega arith

  take_better-Found :
      (o : Option BitTiming) (t : BitTiming) (b : Best)
      → b.best ≡ o
      → IsTiming r.sjw t
      → IsAdmissible r t
      → Found b
      → Found (take_better o (exact_errors r t) t b)
  unfolding take_better
  take_better-Found none t b e v a h = λ u f.
      subst (λ x. (exact_errors r t ≡ exact_errors r x) × IsTiming r.sjw x × IsAdmissible r x)
        (some-injective t u f) (refl, v, a)
  take_better-Found (some x) t b e v a h =
      elim (Bool-cases (is_better (exact_errors r t) b.errors)) [
        | inl g ↦ rw g (λ u f.
            subst (λ x. (exact_errors r t ≡ exact_errors r x) × IsTiming r.sjw x × IsAdmissible r x)
              (some-injective t u f) (refl, v, a))
        | inr g ↦ rw g h
      ]

  take_better-Covers :
      (o : Option BitTiming) (t : BitTiming) (b : Best)
      → b.best ≡ o
      → IsTiming r.sjw t
      → Found b
      → Covers t (take_better o (exact_errors r t) t b)
  unfolding take_better
  take_better-Covers none t b e v h = (t, refl, irreflexive (exact_errors r t))
  take_better-Covers (some x) t b e v h =
      elim (Bool-cases (is_better (exact_errors r t) b.errors)) [
        | inl g ↦ rw g (t, refl, irreflexive (exact_errors r t))
        | inr g ↦ rw g (
          x,
          e,
          λ before.
              let passed : is_better (exact_errors r t) (exact_errors r x) ≡ true =
                Before-is_better (exact_errors r t) (exact_errors r x) (exact-InRange r ok t v)
                  (exact-InRange r ok x (h x e).1) before in
              cc (g, passed, ap (is_better (exact_errors r t)) (h x e).0),
        )
      ]

  take_better-keeps :
      (o : Option BitTiming) (c t : BitTiming) (b : Best)
      → b.best ≡ o
      → IsTiming r.sjw c
      → IsTiming r.sjw t
      → Found b
      → Covers c b
      → Covers c (take_better o (exact_errors r t) t b)
  unfolding take_better
  take_better-keeps none c t b e w v h (u, f, n) = cc
  take_better-keeps (some x) c t b e w v h (u, f, n) =
      elim (Bool-cases (is_better (exact_errors r t) b.errors)) [
        | inl g ↦ rw g (
          t,
          refl,
          λ before.
              let passed : is_better (exact_errors r t) (exact_errors r u) ≡ true =
                ap (is_better (exact_errors r t)) (sym (h u f).0) ∙ g in
              n (
                Before-trans (exact_errors r c) (exact_errors r t) (exact_errors r u)
                  (exact-InRange r ok c w) (exact-InRange r ok t v) (exact-InRange r ok u (h u f).1)
                  before
                  (is_better-Before (exact_errors r t) (exact_errors r u) (exact-InRange r ok t v)
                    (exact-InRange r ok u (h u f).1) passed)),
        )
        | inr g ↦ rw g (u, f, n)
      ]

  -- One round of the innermost loop.
  try_timing-Found :
      (t : BitTiming) (b : Best) → IsTiming r.sjw t → Found b → Found (try_timing r t b)
  unfolding try_timing
  try_timing-Found t b v h =
      rw (errors-exact r ok t v, admissible_test r ok t v)
        (elim (Bool-cases (
          leb r.clock_hz (max_classic_bitrate * (t.prescaler * (t.time_seg1 + t.time_seg2)))
          && leb
              (abs_diff r.clock_hz (r.target_bitrate * (t.prescaler * (t.time_seg1 + t.time_seg2)))
                * 1000000)
              (r.max_error_ppm
                * (r.target_bitrate * (t.prescaler * (t.time_seg1 + t.time_seg2)))))) [
                  | inl g ↦
                      rw g (
                        take_better-Found b.best t b refl v (ground (arith, g), ground (arith, g))
                          h)
                  | inr g ↦ rw g h
                ])

  try_timing-Covers :
      (t : BitTiming) (b : Best)
      → IsTiming r.sjw t
      → IsAdmissible r t
      → Found b
      → Covers t (try_timing r t b)
  unfolding try_timing
  try_timing-Covers t b v a h =
      rw (errors-exact r ok t v, admissible_test r ok t v, le→leb _ _ a.0, le→leb _ _ a.1)
        (take_better-Covers b.best t b refl v h)

  try_timing-keeps :
      (c t : BitTiming) (b : Best)
      → IsTiming r.sjw c
      → IsTiming r.sjw t
      → Found b
      → Covers c b
      → Covers c (try_timing r t b)
  unfolding try_timing
  try_timing-keeps c t b w v h k = elim (Bool-cases (is_admissible r (exact_errors r t))) [
    | inl g ↦ rw (errors-exact r ok t v, g) (take_better-keeps b.best c t b refl w v h k)
    | inr g ↦ rw (errors-exact r ok t v, g) k
  ]

  abbrev timing : ℕ → ℕ → ℕ → BitTiming
  timing p s2 s1 = record { prescaler = p; time_seg1 = s1; time_seg2 = s2; sjw = r.sjw }

  -- A round of each loop stays inside what the controller takes.
  round-IsTiming :
      (p s2 s1 : ℕ)
      → (2 ≤ p) × (p < 2 + 255)
      → (r.sjw ≤ s2) × (s2 < r.sjw + (8 + 1 - r.sjw))
      → (first_seg1 s2 ≤ s1) × (s1 < first_seg1 s2 + (65 + 1 - first_seg1 s2))
      → IsTiming r.sjw (timing p s2 s1)
  round-IsTiming p s2 s1 a b c = record {
    prescaler = (a.0, omega (arith, a.1));
    time_seg2 = (b.0, omega (arith, b.1, ok.width.1));
    time_seg1 = ground (arith, c.0, c.1);
    width = refl;
  }

  module _ (p : ℕ) (a : (2 ≤ p) × (p < 2 + 255)) where
    search_seg1-Found :
        (s2 : ℕ)
        → r.sjw ≤ s2
        → s2 < r.sjw + (8 + 1 - r.sjw)
        → (b : Best) → Found b
        → Found (search_seg1 r p s2 b)
    unfolding search_seg1
    search_seg1-Found s2 l u b h =
        count_up-keeps Found _ (first_seg1 s2) _
          (λ s1 c d x. try_timing-Found (timing p s2 s1) x (round-IsTiming p s2 s1 a (l, u) (c, d)))
          b h

    search_seg2-Found : (b : Best) → Found b → Found (search_seg2 r p b)
    unfolding search_seg2
    search_seg2-Found b h = count_up-keeps Found _ r.sjw _ search_seg1-Found b h

    module _ (c : BitTiming) (w : IsTiming r.sjw c) where
      search_seg1-keeps :
          (s2 : ℕ)
          → r.sjw ≤ s2
          → s2 < r.sjw + (8 + 1 - r.sjw)
          → (b : Best) → Found b
          → Covers c b
          → Covers c (search_seg1 r p s2 b)
      unfolding search_seg1
      search_seg1-keeps s2 l u b h k =
          (count_up-keeps (λ x. Found x × Covers c x) _ (first_seg1 s2) _
            (λ s1 e d x v. (
              try_timing-Found (timing p s2 s1) x (round-IsTiming p s2 s1 a (l, u) (e, d)) v.0,
              try_timing-keeps c (timing p s2 s1) x w (round-IsTiming p s2 s1 a (l, u) (e, d)) v.0
                  v.1,
            ))
            b (h, k)).1

      search_seg2-keeps : (b : Best) → Found b → Covers c b → Covers c (search_seg2 r p b)
      unfolding search_seg2
      search_seg2-keeps b h k =
          (count_up-keeps (λ x. Found x × Covers c x) _ r.sjw _
            (λ s2 l u x v. (search_seg1-Found s2 l u x v.0, search_seg1-keeps s2 l u x v.0 v.1)) b
            (h, k)).1

  module _ (c : BitTiming) (w : IsTiming r.sjw c) (adm : IsAdmissible r c) where
    this : timing c.prescaler c.time_seg2 c.time_seg1 ≡ c
    this =
        ap
          (λ x. record {
            prescaler = c.prescaler;
            time_seg1 = c.time_seg1;
            time_seg2 = c.time_seg2;
            sjw = x;
          })
          (sym w.width)

    prescaler_in : (2 ≤ c.prescaler) × (c.prescaler < 2 + 255)
    prescaler_in = (w.prescaler.0, omega (arith, w.prescaler.1))

    seg2_in : (r.sjw ≤ c.time_seg2) × (c.time_seg2 < r.sjw + (8 + 1 - r.sjw))
    seg2_in = (w.time_seg2.0, omega (arith, w.time_seg2))

    search_seg1-Covers : (b : Best) → Found b → Covers c (search_seg1 r c.prescaler c.time_seg2 b)
    unfolding search_seg1
    search_seg1-Covers b h =
        count_up-reaches Found (Covers c) _ (first_seg1 c.time_seg2) c.time_seg1 _
          (λ s1 l u x.
            try_timing-Found (timing c.prescaler c.time_seg2 s1) x
              (round-IsTiming c.prescaler c.time_seg2 s1 prescaler_in seg2_in (l, u)))
          (λ s1 l u x v k.
            try_timing-keeps c (timing c.prescaler c.time_seg2 s1) x w
              (round-IsTiming c.prescaler c.time_seg2 s1 prescaler_in seg2_in (l, u)) v k)
          (λ x v.
            subst (λ t. Covers c (try_timing r t x)) (sym this) (try_timing-Covers c x w adm v))
          (ground (arith, w.time_seg1)) (ground (arith, w.time_seg1)) b h

    search_seg2-Covers : (b : Best) → Found b → Covers c (search_seg2 r c.prescaler b)
    unfolding search_seg2
    search_seg2-Covers b h =
        count_up-reaches Found (Covers c) _ r.sjw c.time_seg2 _
          (search_seg1-Found c.prescaler prescaler_in)
          (search_seg1-keeps c.prescaler prescaler_in c w) search_seg1-Covers seg2_in.0 seg2_in.1 b
          h

    search-Covers : (b : Best) → Found b → Covers c (count_up 255 2 (search_seg2 r) b)
    search-Covers b h =
        count_up-reaches Found (Covers c) 255 2 c.prescaler (search_seg2 r)
          (λ p l u. search_seg2-Found p (l, u)) (λ p l u. search_seg2-keeps p (l, u) c w)
          search_seg2-Covers prescaler_in.0 prescaler_in.1 b h

  search-Found : (b : Best) → Found b → Found (count_up 255 2 (search_seg2 r) b)
  search-Found b h =
      count_up-keeps Found 255 2 (search_seg2 r) (λ p l u. search_seg2-Found p (l, u)) b h

  nothing-Found : Found nothing_found
  unfolding nothing_found
  nothing-Found t e = cc

-- Nothing is found only if there is nothing; what is found may be taken and nothing comes before it.
abbrev pub IsBest : Request → Option BitTiming → Type 0
IsBest r none = (c : BitTiming) → IsTiming r.sjw c → ¬ IsAdmissible r c
IsBest r (some t) =
    IsTiming r.sjw t
    × IsAdmissible r t
    × ((c : BitTiming)
        → IsTiming r.sjw c
        → IsAdmissible r c
        → ¬ Before (exact_errors r c) (exact_errors r t))

request-accepted : (r : Request) → IsRequest r → is_rejected r ≡ false
unfolding is_rejected
request-accepted r ok = ground (arith, ok.clock, ok.bitrate, ok.sample, ok.width)

-- The search of a valid request finds the best timing of all that the controller takes.
pub calculate-IsBest : (r : Request) → IsRequest r → IsBest r (calculate r)
unfolding calculate
calculate-IsBest r ok = rw (request-accepted r ok) (of_found result.best refl)
  where
    result : Best
    result = count_up 255 2 (search_seg2 r) nothing_found

    found :
        (t : BitTiming)
        → result.best ≡ some t
        → (result.errors ≡ exact_errors r t) × IsTiming r.sjw t × IsAdmissible r t
    found = search-Found r ok nothing_found (nothing-Found r ok)

    of_found : (o : Option BitTiming) → result.best ≡ o → IsBest r o
    of_found none e = λ c w adm.
        let v = search-Covers r ok c w adm nothing_found (nothing-Found r ok) in cc (v.1, e)
    of_found (some t) e = (
      (found t e).1,
      (found t e).2,
      λ c w adm.
          let v = search-Covers r ok c w adm nothing_found (nothing-Found r ok) in
          subst (λ x. ¬ Before (exact_errors r c) (exact_errors r x))
            (some-injective v.0 t (sym v.1 ∙ e)) v.2,
    )
