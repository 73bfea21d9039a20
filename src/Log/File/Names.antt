-- ===== src/Log/File/Names.antt =====
-- The name of a segment and the parser that reads it back.
use hc32f460jeua_evb.Base.{
  ℕ, ◌+◌, ◌-◌, ◌≤◌, ◌<◌, ◌≡◌, refl, sym, ap, ◌∙◌, true, false, some, List, [], ◌∷◌, ◌++◌, map,
  append-nil, append_assoc, arith, ◌==◌, if◌then◌else◌, length, replicate, length-append,
  take-append, drop-append, Bool-cases, inl, inr,
}
use hc32f460jeua_evb.Base.Text.{Bytes, codes, strip_suffix-append}
use hc32f460jeua_evb.Log.Decimal.{
  decimal, padded, is_digit, IsDigits, padded-IsDigits, length-padded_ge, length-padded_le,
  parse-padded,
}
use hc32f460jeua_evb.Log.File.{
  name_cap, u64_limit, u32_limit, write_pieces, padded_pieces, segment_name, digit_end, all_digits,
  parse_tail, parse_segment_name,
}

-- What the pieces spell.
unfoldable pub spell : List Bytes → Bytes
spell [] = []
spell (p ∷ ps) = p ++ spell ps

pub spell-append : (ps qs : List Bytes) → spell (ps ++ qs) ≡ spell ps ++ spell qs
unfolding spell
spell-append [] qs = refl
spell-append (p ∷ ps) qs = rw (spell-append ps qs, append_assoc)

-- Pieces that fit are all written.
pub write_pieces-spell :
    (cap : ℕ) (ps : List Bytes) (out : Bytes)
    → length out + length (spell ps) ≤ cap
    → write_pieces cap ps out ≡ out ++ spell ps
unfolding write_pieces spell
write_pieces-spell cap [] out h = sym (append-nil out)
write_pieces-spell cap (p ∷ ps) out h = ground (
  arith,
  length-append p (spell ps),
  length-append out p,
  write_pieces-spell cap ps (out ++ p),
  append_assoc out p (spell ps),
)

spell_singles : (s : Bytes) → spell (map (λ z. z ∷ []) s) ≡ s
unfolding spell
spell_singles [] = refl
spell_singles (c ∷ s) = ap (◌∷◌ c) (spell_singles s)

spell-padded_pieces : (w n : ℕ) → spell (padded_pieces w n) ≡ padded w n
unfolding padded_pieces padded
spell-padded_pieces w n =
    rw
      (
        spell-append (map (λ z. z ∷ []) (replicate (w - length (decimal n)) b'0')) (decimal n ∷ []),
        spell_singles,
      )
      (unfold spell in rw append-nil)

-- The part of the name behind the number of the boot.
unfoldable pub name_tail : ℕ → Bytes
name_tail segment = (if segment == 0 then [] else codes "_" ++ padded 3 segment) ++ codes ".log"

length-name_tail : (s : ℕ) → s < u32_limit → length (name_tail s) ≤ 15
unfolding name_tail
length-name_tail s h =
    let t = codes ".log" in ground (arith, length-append (padded 3 s) t, length-padded_le 3 s 9)

tail_pieces : ℕ → List Bytes
tail_pieces segment =
    (if segment == 0 then [] else codes "_" ∷ padded_pieces 3 segment) ++ codes ".log" ∷ []

spell-tail_pieces : (s : ℕ) → spell (tail_pieces s) ≡ name_tail s
unfolding tail_pieces name_tail spell
spell-tail_pieces s = elim (Bool-cases (s == 0)) [
  | inl e ↦ rw e refl
  | inr e ↦
      rw (e, spell-append (padded_pieces 3 s) (codes ".log" ∷ []), spell-padded_pieces 3 s) refl
]

name_pieces : ℕ → ℕ → List Bytes
name_pieces b s = codes "boot_" ∷ (padded_pieces 20 b ++ tail_pieces s)

spell-name_pieces :
    (b s : ℕ) → spell (name_pieces b s) ≡ codes "boot_" ++ (padded 20 b ++ name_tail s)
unfolding name_pieces
spell-name_pieces b s =
    let e = spell-append (padded_pieces 20 b) (tail_pieces s) in
    unfold spell in rw (e, spell-padded_pieces 20 b, spell-tail_pieces s)

-- No name of a segment is cut off: it fits in the 40 bytes of its buffer.
pub segment_name-parts :
    (b s : ℕ)
    → b < u64_limit
    → s < u32_limit
    → segment_name b s ≡ codes "boot_" ++ (padded 20 b ++ name_tail s)
unfolding segment_name name_pieces tail_pieces
segment_name-parts b s hb hs =
    write_pieces-spell name_cap (name_pieces b s) [] (omega (arith, fits)) ∙ spell-name_pieces b s
  where
    fits : length (spell (name_pieces b s)) ≤ name_cap
    fits = omega (
      arith,
      ap length (spell-name_pieces b s),
      length-append (padded 20 b) (name_tail s),
      length-padded_le 20 b 19 (omega arith),
      length-name_tail s hs,
    )

digit_end-IsDigits :
    (s : Bytes) (c : ℕ) (rest : Bytes)
    → IsDigits s
    → is_digit c ≡ false
    → digit_end (s ++ c ∷ rest) ≡ length s
unfolding digit_end
digit_end-IsDigits [] c rest d h = rw h
digit_end-IsDigits (x ∷ s) c rest d h = ground (arith, digit_end-IsDigits s c rest d.1 h)

all_digits-IsDigits : (s : Bytes) → IsDigits s → all_digits s ≡ true
unfolding all_digits
all_digits-IsDigits [] d = refl
all_digits-IsDigits (c ∷ s) d = ground (arith, all_digits-IsDigits s d.1)

-- What is behind the digits of the boot starts with a character that is none.
name_tail-stops :
    (s : ℕ) → (c : ℕ) × (rest : Bytes) × (name_tail s ≡ c ∷ rest) × (is_digit c ≡ false)
unfolding name_tail is_digit
name_tail-stops s = elim (Bool-cases (s == 0)) [
  | inl e ↦ (b'.', codes "log", rw e refl, refl)
  | inr e ↦ (b'_', padded 3 s ++ codes ".log", rw e refl, refl)
]

parse_tail-name_tail : (b s : ℕ) → s < u32_limit → parse_tail b (name_tail s) ≡ some (b, s)
unfolding parse_tail name_tail
parse_tail-name_tail b s h = elim (Bool-cases (s == 0)) [
  | inl e ↦ rw e (ground arith)
  | inr e ↦
      rw
        (
          e,
          strip_suffix-append (codes ".log") (padded 3 s),
          parse-padded u32_limit 3 s h,
          all_digits-IsDigits (padded 3 s) (padded-IsDigits 3 s),
        )
        (ground (arith, length-padded_ge 3 s, length-padded_le 3 s 9))
]

-- The name of any segment of any boot is read back as that boot and that segment.
pub parse_segment_name-segment_name :
    (b s : ℕ) → b < u64_limit → s < u32_limit → parse_segment_name (segment_name b s) ≡ some (b, s)
unfolding parse_segment_name
parse_segment_name-segment_name b s hb hs =
    let (c, rest, e, stops) = name_tail-stops s in
    let d : digit_end (padded 20 b ++ name_tail s) ≡ length (padded 20 b) =
      rw e (digit_end-IsDigits (padded 20 b) c rest (padded-IsDigits 20 b) stops) in
    let low = (length-padded_ge 20 b).1 in
    let high = length-padded_le 20 b 19 (omega arith) in
    rw
      (
        segment_name-parts b s hb hs,
        d,
        take-append (length (padded 20 b)) (padded 20 b) (name_tail s) refl,
        drop-append (length (padded 20 b)) (padded 20 b) (name_tail s) refl,
        parse-padded u64_limit 20 b hb,
        parse_tail-name_tail b s hs,
      )
      (ground (arith, low, high))
