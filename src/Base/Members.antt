-- ===== src/Base/Members.antt =====
-- Membership in lists of addresses, by counting, and stores as functions on addresses.
use Prim.Native.Nat.{ℕ, ◌+◌, ◌-◌, ◌<◌}
use mathlib.Core.Path.{◌≡◌, refl, subst}
use mathlib.Core.Logic.{inl, inr}
use mathlib.Core.Bool.{Bool, true, false}
use mathlib.Core.List.{List, [], ◌∷◌, ◌++◌}
use native.Mathlib.Omega.{arith}
use hc32f460jeua_evb.Base.Tests.{◌==◌, if◌then◌else◌, Bool-cases, ==→eq}
use hc32f460jeua_evb.Base.Lists.{All}

-- A store with one cell written anew.
abbrev pub update {ℓ} : {A : Type ℓ} → (ℕ → A) → ℕ → A → ℕ → A
update f k v j = if k == j then v else f j

abbrev pub count : ℕ → List ℕ → ℕ
count a [] = 0
count a (x ∷ xs) = (if x == a then 1 else 0) + count a xs

-- The first occurrence is taken out.
abbrev pub erase : ℕ → List ℕ → List ℕ
erase a [] = []
erase a (x ∷ xs) = if x == a then xs else x ∷ erase a xs

abbrev pub is_nil {ℓ} : {A : Type ℓ} → List A → Bool
is_nil [] = true
is_nil (x ∷ xs) = false

pub count-append : (a : ℕ) (xs ys : List ℕ) → count a (xs ++ ys) ≡ count a xs + count a ys
count-append a [] ys = omega arith
count-append a (x ∷ xs) ys = ground (arith, count-append a xs ys)

pub count-erase :
    (a b : ℕ) (xs : List ℕ) → count b (erase a xs) ≡ count b xs - (if a == b then 1 else 0)
count-erase a b [] = ground arith
count-erase a b (x ∷ xs) = ground (arith, count-erase a b xs)

-- What is in no list is not taken out.
pub erase_absent : (a : ℕ) (xs : List ℕ) → count a xs ≡ 0 → erase a xs ≡ xs
erase_absent a [] h = refl
erase_absent a (x ∷ xs) h = ground (arith, erase_absent a xs)

pub All-erase {κ} : (P : ℕ → Type κ) (a : ℕ) (xs : List ℕ) → All P xs → All P (erase a xs)
All-erase P a [] h = h
All-erase P a (x ∷ xs) h = ground (arith, All-erase P a xs h.1)

pub all_of_count {κ} : (P : ℕ → Type κ) (xs : List ℕ) → ((a : ℕ) → 0 < count a xs → P a) → All P xs
all_of_count P [] h = tt
all_of_count P (x ∷ xs) h = (h x (ground arith), all_of_count P xs (λ a c. h a (ground arith)))

pub get_of_all {κ} : (P : ℕ → Type κ) (a : ℕ) (xs : List ℕ) → All P xs → 0 < count a xs → P a
get_of_all P a [] h c = absurd (omega arith)
get_of_all P a (x ∷ xs) h c = elim (Bool-cases (x == a)) [
  | inl e ↦ subst P (==→eq x a e) h.0
  | inr e ↦ get_of_all P a xs h.1 (ground arith)
]

pub is_nil-append_one {ℓ} : {A : Type ℓ} (xs : List A) (x : A) → is_nil (xs ++ x ∷ []) ≡ false
is_nil-append_one [] x = refl
is_nil-append_one (y ∷ ys) x = refl

pub is_nil-erase : (a : ℕ) (xs : List ℕ) → is_nil (erase a xs) ≡ false → is_nil xs ≡ false
is_nil-erase a [] h = h
is_nil-erase a (x ∷ xs) h = refl
