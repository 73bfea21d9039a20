-- ===== src/Can/Tests.antt =====
-- The theorems on can_timing.rs applied to an 8 MHz clock.
use hc32f460jeua_evb.Base.{◌*◌, ◌≡◌, refl, arith, leb}
use hc32f460jeua_evb.Can.{
  Request, BitTiming, calculate, within_error_limit, total_time_quanta, actual_bitrate,
  sample_point_permille, register_value, error_ppm, ppm_floor_and_remainder, ppm_digits, abs_diff,
}
use hc32f460jeua_evb.Can.Ppm.{within_error_limit_lem}
use hc32f460jeua_evb.Can.Exact.{IsRequest}
use hc32f460jeua_evb.Can.Search.{IsBest, calculate-IsBest}

-- 500 kbit/s, sampled at three quarters, without any error.
abbrev request_500k : Request
request_500k = record {
  clock_hz = 8000000;
  target_bitrate = 500000;
  target_sample_point_permille = 750;
  sjw = 2;
  max_error_ppm = 0;
}

request_500k-IsRequest : IsRequest request_500k
request_500k-IsRequest = record {
  clock = (omega arith, omega arith);
  bitrate = (omega arith, omega arith);
  sample = (omega arith, omega arith);
  width = (omega arith, omega arith);
}

calculate-IsBest_example : IsBest request_500k (calculate request_500k)
calculate-IsBest_example = calculate-IsBest request_500k request_500k-IsRequest

within_error_limit_lem_example :
    within_error_limit 18446744073710 1000000 1001 ≡ leb (18446744073710 * 1000000) (1001 * 1000000)
within_error_limit_lem_example =
    within_error_limit_lem 18446744073710 1000000 1001 (omega arith) (omega arith) (omega arith)

abbrev timing_500k : BitTiming
timing_500k = record { prescaler = 2; time_seg1 = 6; time_seg2 = 2; sjw = 2 }

quanta_500k : total_time_quanta timing_500k ≡ 8
unfolding total_time_quanta
quanta_500k = refl

bitrate_500k : actual_bitrate timing_500k 8000000 ≡ 500000
unfolding actual_bitrate
bitrate_500k = refl

sample_500k : sample_point_permille timing_500k ≡ 750
unfolding sample_point_permille
sample_500k = refl

register_500k : register_value timing_500k ≡ 16843012
unfolding register_value
register_500k = refl

error_333k :
    error_ppm (record { prescaler = 2; time_seg1 = 9; time_seg2 = 3; sjw = 1 }) 8000000 333000
    ≡ 1001
unfolding error_ppm ppm_floor_and_remainder ppm_digits abs_diff
error_333k = refl
