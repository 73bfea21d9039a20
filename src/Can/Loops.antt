-- ===== src/Can/Loops.antt =====
-- The loops of can_timing.rs that count up: an invariant of the rounds, and what one round establishes.
use hc32f460jeua_evb.Base.{
  ℕ, zero, suc, ◌+◌, ◌≤◌, ◌<◌, sym, ◌==◌, arith, Bool-cases, ==→eq, inl, inr, subst,
}
use hc32f460jeua_evb.Can.{count_up}

-- A loop that counts up keeps an invariant of its rounds.
pub count_up-keeps :
    {S : Type 0} (P : S → Type 0) (n i : ℕ) (body : ℕ → S → S)
    → ((j : ℕ) → i ≤ j → j < i + n → (s : S) → P s → P (body j s))
    → (s : S) → P s
    → P (count_up n i body s)
unfolding count_up
count_up-keeps P zero i body step s h = h
count_up-keeps P (suc n) i body step s h =
    count_up-keeps P n (i + 1) body (λ j a b. step j (omega arith) (omega arith)) (body i s)
      (step i (omega arith) (omega arith) s h)

-- What one of the rounds establishes and the others keep holds at the end.
pub count_up-reaches :
    {S : Type 0} (P Q : S → Type 0) (n i k : ℕ) (body : ℕ → S → S)
    → ((j : ℕ) → i ≤ j → j < i + n → (s : S) → P s → P (body j s))
    → ((j : ℕ) → i ≤ j → j < i + n → (s : S) → P s → Q s → Q (body j s))
    → ((s : S) → P s → Q (body k s))
    → i ≤ k
    → k < i + n
    → (s : S) → P s
    → Q (count_up n i body s)
unfolding count_up
count_up-reaches P Q zero i k body keep keeps there a b s h = absurd (omega arith)
count_up-reaches P Q (suc n) i k body keep keeps there a b s h = elim (Bool-cases (i == k)) [
  | inl same ↦
      let q : Q (body i s) = subst (λ j. Q (body j s)) (sym (==→eq i k same)) (there s h) in
      (count_up-keeps (λ x. P x × Q x) n (i + 1) body
        (λ j c d x v.
          (keep j (omega arith) (omega arith) x v.0, keeps j (omega arith) (omega arith) x v.0 v.1))
        (body i s) (keep i (omega arith) (omega arith) s h, q)).1
  | inr other ↦
      count_up-reaches P Q n (i + 1) k body (λ j c d. keep j (omega arith) (omega arith))
        (λ j c d. keeps j (omega arith) (omega arith)) there (ground arith) (omega arith) (body i s)
        (keep i (omega arith) (omega arith) s h)
]
