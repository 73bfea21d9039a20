-- ===== src/Can.antt =====
-- src/can_timing.rs: the bit timing of a classical CAN controller and the search for the best one.
-- A `while` loop that counts up is `count_up`, with the number of rounds its bound leaves.
pub mod Ppm
pub mod Order
pub mod Loops
pub mod Exact
pub mod Search
pub mod Tests
use Prim.Native.Nat.{bit_or}
use hc32f460jeua_evb.Base.{
  ℕ, zero, suc, ◌+◌, ◌-◌, ◌*◌, ◌/◌, ◌%◌, ◌^◌, ltb, leb, ◌==◌, if◌then◌else◌, Bool, true, false,
  ◌&&◌, ◌||◌, not, Option, none, some,
}

abbrev pub max_classic_bitrate : ℕ
max_classic_bitrate = 1000000

pub record BitTiming : Type 0 where
  pub prescaler : ℕ
  pub time_seg1 : ℕ
  pub time_seg2 : ℕ
  pub sjw : ℕ

abbrev pub u32 : ℕ → ℕ
u32 n = n % 2 ^ 32

abbrev pub u64 : ℕ → ℕ
u64 n = n % 2 ^ 64

-- `u32` subtraction, going round below 0
abbrev pub sub32 : ℕ → ℕ → ℕ
sub32 a b = (a + 2 ^ 32 - b) % 2 ^ 32

pub total_time_quanta : BitTiming → ℕ
total_time_quanta t = u32 (t.time_seg1 + t.time_seg2)

-- A divisor that is 0 or not a `u32` gives 0.
pub actual_bitrate : BitTiming → ℕ → ℕ
actual_bitrate t clock_hz =
    let divisor = t.prescaler * u32 (t.time_seg1 + t.time_seg2) in
    if leb (2 ^ 32) divisor || divisor == 0 then 0 else clock_hz / divisor

pub sample_point_permille : BitTiming → ℕ
sample_point_permille t =
    let total_tq = u32 (t.time_seg1 + t.time_seg2) in
    if total_tq == 0 then 0 else u32 (u32 (t.time_seg1 * 1000) + total_tq / 2) / total_tq

pub register_value : BitTiming → ℕ
register_value t =
    bit_or
      (bit_or (bit_or (u32 (sub32 t.prescaler 1 * 2 ^ 24)) (u32 (sub32 t.sjw 1 * 2 ^ 16)))
        (u32 (sub32 t.time_seg2 1 * 2 ^ 8)))
      (sub32 t.time_seg1 2)

pub abs_diff : ℕ → ℕ → ℕ
abs_diff lhs rhs = if ltb lhs rhs then rhs - lhs else lhs - rhs

-- The loop of `ppm_floor_and_remainder` on the fraction and the remainder.
pub ppm_digits : ℕ → ℕ → ℕ × ℕ → ℕ × ℕ
ppm_digits zero denominator s = s
ppm_digits (suc n) denominator (fraction, remainder) =
    let scaled = u64 (remainder * 10) in
    ppm_digits n denominator (u64 (fraction * 10 + scaled / denominator), scaled % denominator)

pub ppm_floor_and_remainder : ℕ → ℕ → ℕ × ℕ
ppm_floor_and_remainder numerator denominator =
    let (fraction, remainder) = ppm_digits 6 denominator (0, numerator % denominator) in
    (u64 (numerator / denominator * 1000000 + fraction), remainder)

pub within_error_limit : ℕ → ℕ → ℕ → Bool
within_error_limit difference target_cycles limit_ppm =
    let (floor_ppm, remainder) = ppm_floor_and_remainder difference target_cycles in
    ltb floor_ppm limit_ppm || floor_ppm == limit_ppm && remainder == 0

-- `error_ppm`; a product that is 0 or not a `u64` gives `u32::MAX`.
pub error_ppm : BitTiming → ℕ → ℕ → ℕ
error_ppm t clock_hz target_bitrate =
    let divisor = t.prescaler * (t.time_seg1 + t.time_seg2) in
    let target_cycles = target_bitrate * divisor in
    if target_bitrate == 0
      || leb (2 ^ 64) divisor
      || divisor == 0
      || leb (2 ^ 64) target_cycles
      || target_cycles == 0
    then 2 ^ 32 - 1
    else (let (floor_ppm, remainder) =
          ppm_floor_and_remainder (abs_diff clock_hz target_cycles) target_cycles in
        let rounded_ppm =
          if leb ((target_cycles + 1) / 2) remainder then u64 (floor_ppm + 1) else floor_ppm in
        if ltb (2 ^ 32 - 1) rounded_ppm then 2 ^ 32 - 1 else rounded_ppm)

-- The arguments of `calculate`.
pub record Request : Type 0 where
  pub clock_hz : ℕ
  pub target_bitrate : ℕ
  pub target_sample_point_permille : ℕ
  pub sjw : ℕ
  pub max_error_ppm : ℕ

-- The errors of a candidate, which the search compares.
pub record Errors : Type 0 where
  pub bitrate_difference : ℕ
  pub divisor : ℕ
  pub sample_difference : ℕ
  pub total_tq : ℕ

-- The best candidate so far, with its errors.
pub record Best : Type 0 where
  pub best : Option BitTiming
  pub errors : Errors

pub nothing_found : Best
nothing_found = record {
  best = none;
  errors = record { bitrate_difference = 0; divisor = 1; sample_difference = 0; total_tq = 0 };
}

pub is_better : Errors → Errors → Bool
is_better c i =
    let candidate_rate = u64 (c.bitrate_difference * i.divisor) in
    let incumbent_rate = u64 (i.bitrate_difference * c.divisor) in
    let candidate_sample = u64 (c.sample_difference * i.total_tq) in
    let incumbent_sample = u64 (i.sample_difference * c.total_tq) in
    if not (candidate_rate == incumbent_rate)
    then ltb candidate_rate incumbent_rate
    else if not (candidate_sample == incumbent_sample)
    then ltb candidate_sample incumbent_sample
    else ltb i.total_tq c.total_tq

pub errors_of : Request → BitTiming → Errors
errors_of r t =
    let total_tq = t.time_seg1 + t.time_seg2 in
    let divisor = u64 (t.prescaler * total_tq) in
    record {
      bitrate_difference = abs_diff r.clock_hz (u64 (r.target_bitrate * divisor));
      divisor = divisor;
      sample_difference =
          abs_diff (u64 (t.time_seg1 * 1000)) (u64 (r.target_sample_point_permille * total_tq));
      total_tq = total_tq;
    }

pub is_admissible : Request → Errors → Bool
is_admissible r e =
    leb r.clock_hz (u64 (max_classic_bitrate * e.divisor))
    && within_error_limit e.bitrate_difference (u64 (r.target_bitrate * e.divisor)) r.max_error_ppm

take_better : Option BitTiming → Errors → BitTiming → Best → Best
take_better none e t b = record { best = some t; errors = e }
take_better (some _) e t b =
    if is_better e b.errors then record { best = some t; errors = e } else b

-- The body of the innermost loop.
pub try_timing : Request → BitTiming → Best → Best
try_timing r t b =
    let e = errors_of r t in if is_admissible r e then take_better b.best e t b else b

-- `n` rounds of a loop that counts up from `i`.
pub count_up {ℓ} : {S : Type ℓ} → ℕ → ℕ → (ℕ → S → S) → S → S
count_up zero i body s = s
count_up (suc n) i body s = count_up n (i + 1) body (body i s)

-- `while i <= last`
abbrev pub while_le {ℓ} : {S : Type ℓ} → ℕ → ℕ → (ℕ → S → S) → S → S
while_le last i body s = count_up (last + 1 - i) i body s

abbrev pub first_seg1 : ℕ → ℕ
first_seg1 time_seg2 = if ltb (time_seg2 + 1) 2 then 2 else time_seg2 + 1

pub search_seg1 : Request → ℕ → ℕ → Best → Best
search_seg1 r prescaler time_seg2 = while_le 65 (first_seg1 time_seg2) λ time_seg1.
    try_timing r
      (record { prescaler = prescaler; time_seg1 = time_seg1; time_seg2 = time_seg2; sjw = r.sjw })

pub search_seg2 : Request → ℕ → Best → Best
search_seg2 r prescaler = while_le 8 r.sjw (search_seg1 r prescaler)

pub is_rejected : Request → Bool
is_rejected r =
    r.clock_hz == 0
    || r.target_bitrate == 0
    || ltb max_classic_bitrate r.target_bitrate
    || r.target_sample_point_permille == 0
    || leb 1000 r.target_sample_point_permille
    || r.sjw == 0
    || ltb 8 r.sjw

pub calculate : Request → Option BitTiming
calculate r = if is_rejected r then none else (while_le 256 2 (search_seg2 r) nothing_found).best
