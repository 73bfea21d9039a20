-- ===== src/Rtos/Thread/Stack.antt =====
-- What the checks of the stacks in thread.rs say of the words that they read.
use hc32f460jeua_evb.Base.{
  ℕ, ◌≤◌, ◌≡◌, refl, sym, ◌∙◌, false, none, some, List, [], ◌∷◌, ◌==◌, All, arith, Bool-cases, inl,
  inr,
}
use hc32f460jeua_evb.Rtos.Sched.{stack_pattern}
use hc32f460jeua_evb.Rtos.Thread.{unused_words, stack_watermark, check_stack_canaries}

-- If the mark is the whole of a stack of at least one word, the lowest word is overwritten.
pub stack_watermark_full :
    (size v : ℕ) (vs : List ℕ)
    → 4 ≤ size
    → stack_watermark size (v ∷ vs) ≡ size
    → (v == stack_pattern) ≡ false
unfolding stack_watermark unused_words
stack_watermark_full size v vs big h = ground arith

some-not-none : (t : ℕ) → some t ≡ none → ⊥
some-not-none t h = cc

-- No thread is reported only if every canary is whole.
pub check_stack_canaries-none :
    (canary : ℕ → ℕ) (threads : List ℕ)
    → check_stack_canaries canary threads ≡ none
    → All (λ t. canary t ≡ stack_pattern) threads
unfolding check_stack_canaries
check_stack_canaries-none canary [] h = tt
check_stack_canaries-none canary (t ∷ ts) h = elim (Bool-cases (canary t == stack_pattern)) [
  | inl e ↦ (ground arith, check_stack_canaries-none canary ts (ground arith))
  | inr e ↦ absurd (reported e)
]
  where
    reported : (canary t == stack_pattern) ≡ false → ⊥
    reported e = some-not-none t (sym (rw e refl) ∙ h)
