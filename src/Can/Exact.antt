-- ===== src/Can/Exact.antt =====
-- The requests and the timings of can_timing.rs, and its errors as numbers without a word size.
use native.Mathlib.Nat.{mul-le-mul, mul-pos, mod-eq_of_lt}
use hc32f460jeua_evb.Base.{ℕ, ◌+◌, ◌*◌, ◌^◌, ◌≤◌, ◌<◌, ◌≡◌, refl, leb, ◌&&◌, arith}
use hc32f460jeua_evb.Can.{
  u64, abs_diff, max_classic_bitrate, BitTiming, Request, Errors, errors_of, is_admissible,
}
use hc32f460jeua_evb.Can.Ppm.{within_error_limit_lem}
use hc32f460jeua_evb.Can.Order.{InRange, mul-le_of}

-- A request that the search accepts, with a clock that is a `u32`.
pub record IsRequest (r : Request) : Type 0 where
  pub clock : (0 < r.clock_hz) × (r.clock_hz < 2 ^ 32)
  pub bitrate : (0 < r.target_bitrate) × (r.target_bitrate ≤ max_classic_bitrate)
  pub sample : (0 < r.target_sample_point_permille) × (r.target_sample_point_permille < 1000)
  pub width : (0 < r.sjw) × (r.sjw ≤ 8)

-- What the controller takes.
pub record IsTiming (sjw : ℕ) (t : BitTiming) : Type 0 where
  pub prescaler : (2 ≤ t.prescaler) × (t.prescaler ≤ 256)
  pub time_seg2 : (sjw ≤ t.time_seg2) × (t.time_seg2 ≤ 8)
  pub time_seg1 : (2 ≤ t.time_seg1) × (t.time_seg2 < t.time_seg1) × (t.time_seg1 ≤ 65)
  pub width : t.sjw ≡ sjw

-- The errors as numbers without a word size.
abbrev pub exact_errors : Request → BitTiming → Errors
exact_errors r t = record {
  bitrate_difference =
      abs_diff r.clock_hz (r.target_bitrate * (t.prescaler * (t.time_seg1 + t.time_seg2)));
  divisor = t.prescaler * (t.time_seg1 + t.time_seg2);
  sample_difference =
      abs_diff (t.time_seg1 * 1000) (r.target_sample_point_permille * (t.time_seg1 + t.time_seg2));
  total_tq = t.time_seg1 + t.time_seg2;
}

-- The two limits, as exact products.
abbrev pub IsAdmissible : Request → BitTiming → Type 0
IsAdmissible r t =
    (r.clock_hz ≤ max_classic_bitrate * (t.prescaler * (t.time_seg1 + t.time_seg2)))
    × (abs_diff r.clock_hz (r.target_bitrate * (t.prescaler * (t.time_seg1 + t.time_seg2)))
          * 1000000
        ≤ r.max_error_ppm * (r.target_bitrate * (t.prescaler * (t.time_seg1 + t.time_seg2))))

module _ (r : Request) (ok : IsRequest r) where
  divisor_le :
      (t : BitTiming) → IsTiming r.sjw t → t.prescaler * (t.time_seg1 + t.time_seg2) ≤ 256 * 73
  divisor_le t v =
      mul-le_of t.prescaler (t.time_seg1 + t.time_seg2) 256 73 v.prescaler.1
        (omega (arith, v.time_seg1.2, v.time_seg2.1))

  divisor_pos : (t : BitTiming) → IsTiming r.sjw t → 0 < t.prescaler * (t.time_seg1 + t.time_seg2)
  divisor_pos t v = mul-pos (omega (arith, v.prescaler.0)) (omega (arith, v.time_seg1.0))

  cycles_le :
      (t : BitTiming)
      → IsTiming r.sjw t
      → r.target_bitrate * (t.prescaler * (t.time_seg1 + t.time_seg2)) ≤ 1000000 * (256 * 73)
  cycles_le t v = mul-le-mul ok.bitrate.1 (divisor_le t v)

  sample_le :
      (t : BitTiming)
      → IsTiming r.sjw t
      → r.target_sample_point_permille * (t.time_seg1 + t.time_seg2) ≤ 1000 * 73
  sample_le t v =
      mul-le_of r.target_sample_point_permille (t.time_seg1 + t.time_seg2) 1000 73
        (omega (arith, ok.sample.1)) (omega (arith, v.time_seg1.2, v.time_seg2.1))

  -- No product of the search wraps.
  pub errors-exact : (t : BitTiming) → IsTiming r.sjw t → errors_of r t ≡ exact_errors r t
  unfolding errors_of
  errors-exact t v = rw (div, cycles, seg, sample) refl
    where
      div :
          u64 (t.prescaler * (t.time_seg1 + t.time_seg2))
          ≡ t.prescaler * (t.time_seg1 + t.time_seg2)
      div = mod-eq_of_lt (omega (arith, divisor_le t v))

      cycles :
          u64 (r.target_bitrate * (t.prescaler * (t.time_seg1 + t.time_seg2)))
          ≡ r.target_bitrate * (t.prescaler * (t.time_seg1 + t.time_seg2))
      cycles = mod-eq_of_lt (omega (arith, cycles_le t v))

      seg : u64 (t.time_seg1 * 1000) ≡ t.time_seg1 * 1000
      seg = mod-eq_of_lt (omega (arith, v.time_seg1.2))

      sample :
          u64 (r.target_sample_point_permille * (t.time_seg1 + t.time_seg2))
          ≡ r.target_sample_point_permille * (t.time_seg1 + t.time_seg2)
      sample = mod-eq_of_lt (omega (arith, sample_le t v))

  pub exact-InRange : (t : BitTiming) → IsTiming r.sjw t → InRange (exact_errors r t)
  unfolding abs_diff
  exact-InRange t v = record {
    rate = ground (arith, cycles_le t v, ok.clock);
    divisor_pos = divisor_pos t v;
    divisor_le = omega (arith, divisor_le t v);
    sample = ground (arith, sample_le t v, v.time_seg1.2);
    tq_pos = omega (arith, v.time_seg1.0);
    tq_le = omega (arith, v.time_seg1.2, v.time_seg2.1);
  }

  pub admissible_test :
      (t : BitTiming)
      → IsTiming r.sjw t
      → is_admissible r (exact_errors r t) ≡ (
          leb r.clock_hz (max_classic_bitrate * (t.prescaler * (t.time_seg1 + t.time_seg2)))
          && leb
              (abs_diff r.clock_hz (r.target_bitrate * (t.prescaler * (t.time_seg1 + t.time_seg2)))
                * 1000000)
              (r.max_error_ppm * (r.target_bitrate * (t.prescaler * (t.time_seg1 + t.time_seg2)))))
  unfolding is_admissible
  admissible_test t v =
      rw
        (
          rate,
          cycles,
          within_error_limit_lem
              (abs_diff r.clock_hz (r.target_bitrate * (t.prescaler * (t.time_seg1 + t.time_seg2))))
              (r.target_bitrate * (t.prescaler * (t.time_seg1 + t.time_seg2))) r.max_error_ppm
              cycles_pos (omega (arith, cycles_le t v))
              (omega (arith, (exact-InRange t v).rate, cycles_pos)),
        )
        refl
    where
      rate :
          u64 (max_classic_bitrate * (t.prescaler * (t.time_seg1 + t.time_seg2)))
          ≡ max_classic_bitrate * (t.prescaler * (t.time_seg1 + t.time_seg2))
      rate = mod-eq_of_lt (omega (arith, divisor_le t v))

      cycles :
          u64 (r.target_bitrate * (t.prescaler * (t.time_seg1 + t.time_seg2)))
          ≡ r.target_bitrate * (t.prescaler * (t.time_seg1 + t.time_seg2))
      cycles = mod-eq_of_lt (omega (arith, cycles_le t v))

      cycles_pos : 0 < r.target_bitrate * (t.prescaler * (t.time_seg1 + t.time_seg2))
      cycles_pos = mul-pos ok.bitrate.0 (divisor_pos t v)
