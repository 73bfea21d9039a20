-- ===== src/Log/File/Newest.antt =====
-- The newest boot, the oldest file and the number of the next boot. Numbers of boots wrap around, so
-- the order is one of a window of half their range, which starts at `base`.
use hc32f460jeua_evb.Base.{
  ℕ, ◌+◌, ◌-◌, ◌^◌, ◌≤◌, ◌<◌, ◌≡◌, refl, sym, ap, ◌∙◌, subst, true, false, some, List, [], ◌∷◌,
  arith, ltb, ◌==◌, Bool-cases, inl, inr, ◌⊎◌, All,
}
use hc32f460jeua_evb.Log.File.{
  u64_limit, wrapping_sub, boot_newer, segment_newer, newest_from, newest_boot, oldest_from,
  oldest_file, next_boot,
}

-- Every boot is a word at less than `span` behind `base`.
abbrev pub InWindow : ℕ → ℕ → List (ℕ × ℕ) → Type 0
InWindow base span files = All (λ f. (f.0 < u64_limit) × (wrapping_sub f.0 base < span)) files

abbrev pub Has : ℕ × ℕ → List (ℕ × ℕ) → Type 0
Has o [] = ⊥
Has o (f ∷ files) = (f ≡ o) ⊎ Has o files

-- Some file of the list is of this boot.
abbrev pub HasBoot : ℕ → List (ℕ × ℕ) → Type 0
HasBoot n [] = ⊥
HasBoot n (f ∷ files) = (f.0 ≡ n) ⊎ HasBoot n files

module _ (base : ℕ) (word : base < u64_limit) where
  offset : ℕ → ℕ
  offset a = wrapping_sub a base

  abbrev IsIn : ℕ → Type 0
  IsIn a = (a < u64_limit) × (wrapping_sub a base < 2 ^ 63)

  boot_newer-offset : (a b : ℕ) → IsIn a → IsIn b → boot_newer a b ≡ ltb (offset b) (offset a)
  unfolding boot_newer offset
  boot_newer-offset a b p q = ground (arith, word)

  newer_of :
      (a b : ℕ)
      → IsIn a
      → IsIn b
      → (boot_newer a b ≡ true → offset b < offset a)
        × (boot_newer a b ≡ false → offset a ≤ offset b)
  newer_of a b p q =
      let e = boot_newer-offset a b p q in (λ h. ground (arith, e), λ h. ground (arith, e))

  -- The best of the loop is a boot of the list or the one it started with, and none is behind it.
  newest_from-some :
      (c : ℕ) (files : List (ℕ × ℕ))
      → IsIn c
      → InWindow base (2 ^ 63) files
      → (n : ℕ) × (newest_from (some c) files ≡ some n)
        × IsIn n
        × (offset c ≤ offset n)
        × All (λ g. offset g.0 ≤ offset n) files
        × ((n ≡ c) ⊎ HasBoot n files)
  unfolding newest_from
  newest_from-some c [] p w = (c, refl, p, omega arith, tt, inl refl)
  newest_from-some c ((b, s) ∷ files) p w = elim (Bool-cases (boot_newer b c)) [
    | inl e ↦
        let (n, r, i, le, all, from) = newest_from-some b files w.0 w.1 in
        let less = (newer_of b c w.0 p).0 e in
        (
          n,
          rw e r,
          i,
          omega arith,
          (le, all),
          inr (elim from [ inl x ↦ inl (sym x) | inr x ↦ inr x ]),
        )
    | inr e ↦
        let (n, r, i, le, all, from) = newest_from-some c files p w.1 in
        let more = (newer_of b c w.0 p).1 e in
        (n, rw e r, i, le, (omega arith, all), elim from [ inl x ↦ inl x | inr x ↦ inr (inr x) ])
  ]

  next_boot-offset :
      (n : ℕ)
      → n < u64_limit
      → offset n + 2 < 2 ^ 63
      → IsIn (next_boot (some n)) × (offset n < offset (next_boot (some n)))
  unfolding next_boot offset
  next_boot-offset n w h = (ground (arith, word), ground (arith, word))

  all_older :
      (n : ℕ) (files : List (ℕ × ℕ))
      → n < u64_limit
      → offset n + 2 < 2 ^ 63
      → InWindow base (2 ^ 63) files
      → All (λ g. offset g.0 ≤ offset n) files
      → All (λ g. boot_newer (next_boot (some n)) g.0 ≡ true) files
  all_older n [] w h p all = tt
  all_older n ((b, s) ∷ files) w h p all =
      let (i, less) = next_boot-offset n w h in
      let e = boot_newer-offset (next_boot (some n)) b i p.0 in
      (ground (arith, e), all_older n files w h p.1 all.1)

  -- No file is before this one.
  abbrev NotAfter : ℕ × ℕ → ℕ × ℕ → Type 0
  NotAfter (a, i) (b, j) = (offset a < offset b) ⊎ ((a ≡ b) × (i ≤ j))

  NotAfter-trans : (a b c : ℕ × ℕ) → NotAfter a b → NotAfter b c → NotAfter a c
  NotAfter-trans (a, i) (b, j) (c, k) (inl p) (inl q) = inl (omega arith)
  NotAfter-trans (a, i) (b, j) (c, k) (inl p) (inr (e, q)) = inl (omega (arith, ap offset e))
  NotAfter-trans (a, i) (b, j) (c, k) (inr (e, p)) (inl q) = inl (omega (arith, ap offset e))
  NotAfter-trans (a, i) (b, j) (c, k) (inr (e, p)) (inr (f, q)) = inr (e ∙ f, omega arith)

  segment_newer-false :
      (a b : ℕ × ℕ) → IsIn a.0 → IsIn b.0 → segment_newer a b ≡ false → NotAfter a b
  unfolding segment_newer offset
  segment_newer-false (a, i) (b, j) p q h = elim (Bool-cases (a == b)) [
    | inl e ↦ inr (ground arith, ground arith)
    | inr e ↦ inl (ground (arith, word, boot_newer-offset a b p q))
  ]

  segment_newer-true : (a b : ℕ × ℕ) → IsIn a.0 → IsIn b.0 → segment_newer a b ≡ true → NotAfter b a
  unfolding segment_newer offset
  segment_newer-true (a, i) (b, j) p q h = elim (Bool-cases (a == b)) [
    | inl e ↦ inr (ground arith, ground arith)
    | inr e ↦ inl (ground (arith, word, boot_newer-offset a b p q))
  ]

  not_newer : (a b : ℕ × ℕ) → IsIn a.0 → IsIn b.0 → NotAfter a b → segment_newer a b ≡ false
  unfolding segment_newer offset
  not_newer (a, i) (b, j) p q n = ground (arith, n, boot_newer-offset a b p q)

  oldest_from-some :
      (c : ℕ × ℕ) (files : List (ℕ × ℕ))
      → IsIn c.0
      → InWindow base (2 ^ 63) files
      → (o : ℕ × ℕ) × (oldest_from (some c) files ≡ some o)
        × IsIn o.0
        × NotAfter o c
        × All (λ g. NotAfter o g) files
        × ((c ≡ o) ⊎ Has o files)
  unfolding oldest_from
  oldest_from-some c [] p w = (c, refl, p, inr (refl, omega arith), tt, inl refl)
  oldest_from-some c (f ∷ files) p w = elim (Bool-cases (segment_newer c f)) [
    | inl e ↦
        let (o, r, i, le, all, from) = oldest_from-some f files w.0 w.1 in
        let first = NotAfter-trans o f c le (segment_newer-true c f p w.0 e) in
        (o, rw e r, i, first, (le, all), inr from)
    | inr e ↦
        let (o, r, i, le, all, from) = oldest_from-some c files p w.1 in
        let first = NotAfter-trans o c f le (segment_newer-false c f p w.0 e) in
        (o, rw e r, i, le, (first, all), elim from [ inl x ↦ inl x | inr x ↦ inr (inr x) ])
  ]

  all_not_newer :
      (o : ℕ × ℕ) (files : List (ℕ × ℕ))
      → IsIn o.0
      → InWindow base (2 ^ 63) files
      → All (λ g. NotAfter o g) files
      → All (λ g. segment_newer o g ≡ false) files
  all_not_newer o [] i w n = tt
  all_not_newer o (g ∷ files) i w n = (not_newer o g i w.0 n.0, all_not_newer o files i w.1 n.1)

InWindow-mono :
    (base span wider : ℕ) (files : List (ℕ × ℕ))
    → span ≤ wider
    → InWindow base span files
    → InWindow base wider files
InWindow-mono base span wider [] le w = tt
InWindow-mono base span wider (f ∷ files) le w =
    ((w.0.0, omega (arith, w.0.1)), InWindow-mono base span wider files le w.1)

HasBoot-window :
    (base span n : ℕ) (files : List (ℕ × ℕ))
    → InWindow base span files
    → HasBoot n files
    → wrapping_sub n base < span
HasBoot-window base span n [] w h = absurd h
HasBoot-window base span n (f ∷ files) w (inl e) =
    omega (arith, w.0.1, ap (λ x. wrapping_sub x base) e)
HasBoot-window base span n (f ∷ files) w (inr h) = HasBoot-window base span n files w.1 h

-- If all boots lie in a window of half the range less two, the number that the next boot takes is
-- newer than that of every file.
pub next_boot_newer :
    (base : ℕ) (files : List (ℕ × ℕ))
    → base < u64_limit
    → InWindow base (2 ^ 63 - 2) files
    → All (λ g. boot_newer (next_boot (newest_boot files)) g.0 ≡ true) files
unfolding newest_boot newest_from offset
next_boot_newer base [] h w = tt
next_boot_newer base ((b, s) ∷ files) h w =
    let wide = InWindow-mono base (2 ^ 63 - 2) (2 ^ 63) ((b, s) ∷ files) (omega arith) w in
    let (n, r, i, le, all, from) = newest_from-some base h b files wide.0 wide.1 in
    let near =
      HasBoot-window base (2 ^ 63 - 2) n ((b, s) ∷ files) w
        (elim from [ inl x ↦ inl (sym x) | inr x ↦ inr x ]) in
    subst (λ best. All (λ g. boot_newer (next_boot best) g.0 ≡ true) ((b, s) ∷ files)) (sym r)
      (all_older base h n ((b, s) ∷ files) i.0 (omega (arith, near)) wide (le, all))

-- If all boots lie in a window of half the range, `oldest_file` finds a file of a list that is not
-- empty, and that file is newer than none.
pub oldest_file_extreme :
    (base : ℕ) (f : ℕ × ℕ) (files : List (ℕ × ℕ))
    → base < u64_limit
    → InWindow base (2 ^ 63) (f ∷ files)
    → (o : ℕ × ℕ) × (oldest_file (f ∷ files) ≡ some o)
      × Has o (f ∷ files)
      × All (λ g. segment_newer o g ≡ false) (f ∷ files)
unfolding oldest_file oldest_from
oldest_file_extreme base f files h w =
    let (o, r, i, le, all, from) = oldest_from-some base h f files w.0 w.1 in
    (o, r, from, all_not_newer base h o (f ∷ files) i w (le, all))
