-- ===== src/Rtos/Ipc/Event/Flags.antt =====
-- A wait for flags that is not met stays unmet when flags are cleared.
use Prim.Native.Nat.{bit_and}
use hc32f460jeua_evb.Base.{◌-◌, ◌^◌, ℕ, ◌≡◌, false, arith, subst}
use hc32f460jeua_evb.Base.Bits.{
  Subset, bit_and-Subset, bit_and-Subset_right, bit_and_mono, Subset-antisymm, Subset-zero,
}
use hc32f460jeua_evb.Rtos.Kernel.{EventOpt}
use hc32f460jeua_evb.Rtos.Ipc.Event.{matches, matched_bits, flags_after}

pub flags_after-Subset : (opt : EventOpt) (set wanted : ℕ) → Subset (flags_after opt set wanted) set
unfolding flags_after
flags_after-Subset opt set wanted i = ground (
  arith,
  bit_and-Subset set (2 ^ 32 - 1 - wanted) i,
  bit_and-Subset set (2 ^ 32 - 1 - matched_bits opt set wanted) i,
)

and_mono : (a b w : ℕ) → Subset a b → bit_and a w ≡ w → bit_and b w ≡ w
and_mono a b w h e =
    Subset-antisymm _ _ (bit_and-Subset_right b w)
      (subst (λ x. Subset x (bit_and b w)) e (bit_and_mono a b w h))

or_mono : (a b w : ℕ) → Subset a b → bit_and b w ≡ 0 → bit_and a w ≡ 0
or_mono a b w h e = Subset-zero _ (subst (Subset (bit_and a w)) e (bit_and_mono a b w h))

pub matches_mono :
    (opt : EventOpt) (a b w : ℕ) → Subset a b → matches opt b w ≡ false → matches opt a w ≡ false
unfolding matches
matches_mono opt a b w h = ground (arith, and_mono a b w h, or_mono a b w h)
