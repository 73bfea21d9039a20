-- ===== src/Base/Ordered.antt =====
-- Lists of addresses ordered by a key, equal keys in order of arrival: the reference for the
-- timer list and for the queues of waiters.
use Prim.Native.Nat.{ℕ, suc, ◌+◌, ◌≤◌, ◌<◌}
use mathlib.Core.Path.{◌≡◌, refl, ap}
use mathlib.Core.Logic.{inl, inr}
use mathlib.Core.List.{List, [], ◌∷◌, ◌++◌}
use native.Mathlib.Omega.{arith}
use hc32f460jeua_evb.Base.Tests.{◌==◌, if◌then◌else◌, ltb, Bool-cases, ltb-ge, ltb→lt}
use hc32f460jeua_evb.Base.Lists.{All}
use hc32f460jeua_evb.Base.Members.{count, erase, All-erase}

module _ (key : ℕ → ℕ) where
  abbrev pub Sorted : List ℕ → Type 0
  Sorted [] = Unit
  Sorted (x ∷ xs) = All (λ y. key x ≤ key y) xs × Sorted xs

  -- Before the first element with a greater key.
  unfoldable pub insert_by : ℕ → List ℕ → List ℕ
  insert_by t [] = t ∷ []
  insert_by t (x ∷ xs) = if ltb (key t) (key x) then t ∷ x ∷ xs else x ∷ insert_by t xs

  pub count-insert_by :
      (t a : ℕ) (xs : List ℕ) → count a (insert_by t xs) ≡ (if t == a then 1 else 0) + count a xs
  unfolding insert_by
  count-insert_by t a [] = refl
  count-insert_by t a (x ∷ xs) = ground (arith, count-insert_by t a xs)

  pub All-insert_by {κ} :
      (P : ℕ → Type κ) (t : ℕ) (xs : List ℕ) → P t → All P xs → All P (insert_by t xs)
  unfolding insert_by
  All-insert_by P t [] p h = (p, tt)
  All-insert_by P t (x ∷ xs) p h = ground (arith, All-insert_by P t xs p h.1)

  All-trans : (a b : ℕ) (xs : List ℕ) → a ≤ b → All (λ y. b ≤ key y) xs → All (λ y. a ≤ key y) xs
  All-trans a b [] h all = tt
  All-trans a b (x ∷ xs) h all = (omega arith, All-trans a b xs h all.1)

  pub insert_by-Sorted : (t : ℕ) (xs : List ℕ) → Sorted xs → Sorted (insert_by t xs)
  unfolding insert_by
  insert_by-Sorted t [] s = (tt, tt)
  insert_by-Sorted t (x ∷ xs) s = elim (Bool-cases (ltb (key t) (key x))) [
    | inl e ↦ rw e (
      (omega (arith, ltb→lt _ _ e), All-trans (key t) (key x) xs (omega (arith, ltb→lt _ _ e)) s.0),
      s,
    )
    | inr e ↦ rw e (
      All-insert_by (λ y. key x ≤ key y) t xs (omega (arith, ltb-ge _ _ e)) s.0,
      insert_by-Sorted t xs s.1,
    )
  ]

  -- Where the new element goes: behind those of its own key, before those of greater ones.
  pub insert_by_place :
      (t : ℕ) (xs : List ℕ)
      → Sorted xs
      → (before : List ℕ) × (behind : List ℕ) × (xs ≡ before ++ behind)
        × (insert_by t xs ≡ before ++ t ∷ behind)
        × All (λ y. key y ≤ key t) before
        × All (λ y. key t < key y) behind
  unfolding insert_by
  insert_by_place t [] s = ([], [], refl, refl, tt, tt)
  insert_by_place t (x ∷ xs) s = elim (Bool-cases (ltb (key t) (key x))) [
    | inl e ↦ (
      [],
      x ∷ xs,
      refl,
      rw e,
      tt,
      (ltb→lt _ _ e, All-trans (suc (key t)) (key x) xs (ltb→lt _ _ e) s.0),
    )
    | inr e ↦
        let r = insert_by_place t xs s.1 in
        (x ∷ r.0, r.1, ap (◌∷◌ x) r.2, rw e (ap (◌∷◌ x) r.3), (ltb-ge _ _ e, r.4), r.5)
  ]

  pub erase-Sorted : (a : ℕ) (xs : List ℕ) → Sorted xs → Sorted (erase a xs)
  erase-Sorted a [] s = tt
  erase-Sorted a (x ∷ xs) s =
      ground (arith, erase-Sorted a xs s.1, All-erase (λ y. key x ≤ key y) a xs s.0)

-- Only the keys of the elements matter.
pub All_congr {κ ν} :
    (P : ℕ → Type κ) (Q : ℕ → Type ν) (xs : List ℕ)
    → ((a : ℕ) → 0 < count a xs → P a → Q a)
    → All P xs
    → All Q xs
All_congr P Q [] f h = tt
All_congr P Q (x ∷ xs) f h =
    (f x (ground arith) h.0, All_congr P Q xs (λ a c p. f a (ground arith) p) h.1)

pub Sorted-mono :
    (k l : ℕ → ℕ) (xs : List ℕ)
    → ((a b : ℕ) → 0 < count a xs → 0 < count b xs → k a ≤ k b → l a ≤ l b)
    → Sorted k xs
    → Sorted l xs
Sorted-mono k l [] f s = tt
Sorted-mono k l (x ∷ xs) f s = (
  All_congr (λ y. k x ≤ k y) (λ y. l x ≤ l y) xs (λ a c p. f x a (ground arith) (ground arith) p)
      s.0,
  Sorted-mono k l xs (λ a b c d p. f a b (ground arith) (ground arith) p) s.1,
)

pub Sorted-congr :
    (k l : ℕ → ℕ) (xs : List ℕ) → ((a : ℕ) → 0 < count a xs → k a ≡ l a) → Sorted k xs → Sorted l xs
Sorted-congr k l xs f s = Sorted-mono k l xs (λ a b c d p. omega (arith, f a c, f b d)) s
