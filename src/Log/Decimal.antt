-- ===== src/Log/Decimal.antt =====
-- Decimal numbers as the standard library prints and parses them: `{}`, `{:0w}` and `str::parse` of
-- an unsigned integer.
pub mod Order
use hc32f460jeua_evb.Base.{
  ℕ, zero, suc, ◌+◌, ◌-◌, ◌*◌, ◌/◌, ◌%◌, ◌^◌, ◌≤◌, ◌<◌, ◌≡◌, ◌≢◌, refl, sym, ap, ◌∙◌, Bool, true,
  false, ◌&&◌, Option, none, some, List, [], ◌∷◌, ◌++◌, append-nil, append_assoc, arith, ltb, leb,
  ◌==◌, if◌then◌else◌, is_nil, length, replicate, max, length-append, length-replicate, All,
  All-append, Bool-cases, inl, inr, ltb→lt, ltb-ge,
}
use hc32f460jeua_evb.Base.Text.{Bytes, codes}
use native.Mathlib.Nat.{pow-suc}

-- Fuel of the number itself is enough: each round divides by ten.
unfoldable pub emit : ℕ → ℕ → Bytes → Bytes
emit zero n out = out
emit (suc fuel) n out =
    let more = emit fuel (n / 10) ((b'0' + n % 10) ∷ out) in
    if ltb n 10 then (b'0' + n) ∷ out else more

unfoldable pub decimal : ℕ → Bytes
unfolding emit
decimal n = emit (suc n) n []

-- `{:0w}`: zeros in front, if the number is shorter than `w`.
unfoldable pub padded : ℕ → ℕ → Bytes
padded w n = replicate (w - length (decimal n)) b'0' ++ decimal n

unfoldable pub is_digit : ℕ → Bool
is_digit c = leb b'0' c && leb c b'9'

-- Overflow is an error, as any other character is.
scan : ℕ → Bytes → ℕ → Option ℕ
unfolding is_digit
scan limit [] n = some n
scan limit (c ∷ s) n =
    let m = n * 10 + (c - b'0') in
    let rest = scan limit s m in if is_digit c && ltb m limit then rest else none

-- `str::parse` of an unsigned integer below `limit`: a plus sign may stand in front.
unfoldable pub parse : ℕ → Bytes → Option ℕ
unfolding scan
parse limit [] = none
parse limit (c ∷ s) =
    if c == b'+' then (if is_nil s then none else scan limit s 0) else scan limit (c ∷ s) 0

parse_plus : parse 256 (codes "+5") ≡ some 5
unfolding parse
parse_plus = refl

parse_overflow : parse 256 (codes "256") ≡ none
unfolding parse
parse_overflow = refl

padded_short : padded 3 7 ≡ codes "007"
unfolding padded decimal
padded_short = refl

decimal_max : decimal (2 ^ 64 - 1) ≡ codes "18446744073709551615"
unfolding decimal
decimal_max = refl

abbrev pub IsDigits : Bytes → Type 0
IsDigits s = All (λ c. is_digit c ≡ true) s

-- Reading the last digit of `n` after the digits before it gives `n`.
scan-emit :
    (limit fuel n : ℕ) (out : Bytes)
    → n < fuel
    → n < limit
    → scan limit (emit fuel n out) 0 ≡ scan limit out n
unfolding scan emit
scan-emit limit zero n out f h = absurd (omega arith)
scan-emit limit (suc fuel) n out f h =
    ground (arith, scan-emit limit fuel (n / 10) ((b'0' + n % 10) ∷ out))

digit : (d : ℕ) → d < 10 → is_digit (b'0' + d) ≡ true
unfolding is_digit
digit d h = ground arith

emit-IsDigits : (fuel n : ℕ) (out : Bytes) → IsDigits out → IsDigits (emit fuel n out)
unfolding emit
emit-IsDigits zero n out h = h
emit-IsDigits (suc fuel) n out h =
    ground (arith, digit n, digit (n % 10), emit-IsDigits fuel (n / 10) ((b'0' + n % 10) ∷ out))

pub decimal-IsDigits : (n : ℕ) → IsDigits (decimal n)
unfolding decimal
decimal-IsDigits n = emit-IsDigits (suc n) n [] tt

replicate-IsDigits : (k : ℕ) → IsDigits (replicate k b'0')
unfolding is_digit
replicate-IsDigits zero = tt
replicate-IsDigits (suc k) = (refl, replicate-IsDigits k)

pub padded-IsDigits : (w n : ℕ) → IsDigits (padded w n)
unfolding padded
padded-IsDigits w n =
    All-append (λ c. is_digit c ≡ true) _ _ (replicate-IsDigits _) (decimal-IsDigits n)

-- How many digits `emit` puts in front.
width : ℕ → ℕ → ℕ
width zero n = 0
width (suc fuel) n = let more = width fuel (n / 10) in if ltb n 10 then 1 else suc more

length-emit : (fuel n : ℕ) (out : Bytes) → length (emit fuel n out) ≡ width fuel n + length out
unfolding emit width
length-emit zero n out = omega arith
length-emit (suc fuel) n out = ground (arith, length-emit fuel (n / 10) ((b'0' + n % 10) ∷ out))

width-le : (fuel n k : ℕ) → n < 10 ^ suc k → width fuel n ≤ suc k
unfolding width
width-le zero n k h = omega arith
width-le (suc fuel) n zero h = ground arith
width-le (suc fuel) n (suc k) h = ground (arith, width-le fuel (n / 10) k, pow-suc 10 (suc k))

width-pos : (fuel n : ℕ) → 0 < width (suc fuel) n
unfolding width
width-pos fuel n = ground arith

pub length-decimal : (n k : ℕ) → n < 10 ^ suc k → length (decimal n) ≤ suc k
unfolding decimal
length-decimal n k h = omega (arith, length-emit (suc n) n [], width-le (suc n) n k h)

length-decimal_pos : (n : ℕ) → 0 < length (decimal n)
unfolding decimal
length-decimal_pos n = omega (arith, length-emit (suc n) n [], width-pos n n)

length-padded : (w n : ℕ) → length (padded w n) ≡ max w (length (decimal n))
unfolding padded
length-padded w n = omega (
  arith,
  length-append (replicate (w - length (decimal n)) b'0') (decimal n),
  length-replicate {A = ℕ} (w - length (decimal n)) b'0',
)

pub length-padded_ge : (w n : ℕ) → (w ≤ length (padded w n)) × (0 < length (padded w n))
length-padded_ge w n =
    (omega (arith, length-padded w n), omega (arith, length-padded w n, length-decimal_pos n))

pub length-padded_le : (w n k : ℕ) → n < 10 ^ suc k → length (padded w n) ≤ max w (suc k)
length-padded_le w n k h = omega (arith, length-padded w n, length-decimal n k h)

scan_zeros :
    (limit k : ℕ) (s : Bytes) → 0 < limit → scan limit (replicate k b'0' ++ s) 0 ≡ scan limit s 0
unfolding scan is_digit
scan_zeros limit zero s h = refl
scan_zeros limit (suc k) s h = ground (arith, scan_zeros limit k s h)

scan-padded : (limit w n : ℕ) → n < limit → scan limit (padded w n) 0 ≡ some n
unfolding padded decimal
scan-padded limit w n h =
    scan_zeros limit _ _ (omega arith)
    ∙ scan-emit limit (suc n) n [] (omega arith) h
    ∙ unfold scan in refl

parse-IsDigits :
    (limit : ℕ) (s : Bytes) → IsDigits s → 0 < length s → parse limit s ≡ scan limit s 0
unfolding parse is_digit
parse-IsDigits limit [] d h = absurd (omega arith)
parse-IsDigits limit (c ∷ s) d h = ground arith

-- A number below the limit is read back, whatever it was padded to.
pub parse-padded : (limit w n : ℕ) → n < limit → parse limit (padded w n) ≡ some n
parse-padded limit w n h =
    parse-IsDigits limit (padded w n) (padded-IsDigits w n) (length-padded_ge w n).1
    ∙ scan-padded limit w n h
