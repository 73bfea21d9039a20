-- ===== src/Shell/Path/Components.antt =====
-- Which components a path has, as far as its text in src/shell/path.rs tells.
use hc32f460jeua_evb.Base.{
  ℕ, suc, ◌+◌, Bool, true, false, ◌&&◌, ◌||◌, none, some, List, [], ◌∷◌, ◌++◌, append_assoc,
  append-nil, refl, sym, ap, ap₂, ◌∙◌, ◌≡◌, ◌≢◌, arith, is_nil, length, take, drop, Bool-cases,
  Option-cases, inl, inr, ◌⊎◌, All, take-append, drop-append, get_elem?,
}
use hc32f460jeua_evb.Base.Text.{Bytes, bytes_eq, starts_with, bytes_eq→eq}
use hc32f460jeua_evb.Shell.Path.{rfind, pop, is_slash}
use hc32f460jeua_evb.Shell.Path.Stack.{join, joined, IsName, pop-join}

-- The test on the bytes in use alone
unfoldable pub is_above : Bytes → Bytes → Bool
is_above a b = is_nil a || bytes_eq a b || (starts_with a b && is_slash (get_elem? b (length a)))

-- The last slash of a text with a slash.
rfind_behind :
    (x rest : Bytes)
    → rfind (x ++ b'/' ∷ rest)
      ≡ some (elim (rfind rest) [ none ↦ length x | some i ↦ length x + 1 + i ])
unfolding rfind
rfind_behind [] rest = elim (Option-cases (rfind rest)) [
  | inl e ↦ rw e refl
  | inr (i, e) ↦ rw e (ap some (omega arith))
]
rfind_behind (c ∷ x) rest = rw (rfind_behind x rest) (elim (Option-cases (rfind rest)) [
  | inl e ↦ rw e (ap some (omega arith))
  | inr (i, e) ↦ rw e (ap some (omega arith))
])

take_behind :
    (x rest : Bytes) (i : ℕ) → take (length x + 1 + i) (x ++ b'/' ∷ rest) ≡ x ++ b'/' ∷ take i rest
take_behind [] rest i = let e : 0 + 1 + i ≡ suc i = omega arith in rw e refl
take_behind (c ∷ x) rest i =
    let e : suc (length x) + 1 + i ≡ suc (length x + 1 + i) = omega arith in
    rw e (ap (◌∷◌ c) (take_behind x rest i))

pop_behind :
    (x rest : Bytes)
    → (pop (x ++ b'/' ∷ rest) ≡ x) ⊎ ((r : Bytes) × (pop (x ++ b'/' ∷ rest) ≡ x ++ b'/' ∷ r))
unfolding pop
pop_behind x rest = elim (Option-cases (rfind rest)) [
  | inl e ↦ inl (rw (rfind_behind x rest, e) (take-append (length x) x (b'/' ∷ rest) refl))
  | inr (i, e) ↦ inr (take i rest, rw (rfind_behind x rest, e) (take_behind x rest i))
]

join-ne : (s c : Bytes) → c ≢ [] → join s c ≢ []
unfolding join
join-ne [] c n = n
join-ne (x ∷ s) c n = λ e. cc e

join_cancel : (s c d : Bytes) → join s c ≡ join s d → c ≡ d
unfolding join
join_cancel [] c d e = e
join_cancel (x ∷ s) c d e =
    let n = length (x ∷ s) in
    let behind =
      sym (drop-append n (x ∷ s) (b'/' ∷ c) refl)
      ∙ ap (drop n) e
      ∙ drop-append n (x ∷ s) (b'/' ∷ d) refl in
    ap (drop 1) behind

-- Different stacks of names have different paths.
joined-inj : (cs ds : List Bytes) → All IsName cs → All IsName ds → joined cs ≡ joined ds → cs ≡ ds
unfolding joined
joined-inj [] [] h g e = refl
joined-inj [] (d ∷ ds) h g e = absurd (join-ne (joined ds) d g.0.1 (sym e))
joined-inj (c ∷ cs) [] h g e = absurd (join-ne (joined cs) c h.0.1 e)
joined-inj (c ∷ cs) (d ∷ ds) h g e =
    let parents = sym (pop-join (joined cs) c h.0.0) ∙ ap pop e ∙ pop-join (joined ds) d g.0.0 in
    let rest = joined-inj cs ds h.1 g.1 parents in
    ap₂ (◌∷◌) (join_cancel (joined cs) c d (e ∙ ap (λ s. join s d) (sym parents))) rest

-- What is behind the path of an ancestor, innermost first.
pub tail : List Bytes → Bytes
tail [] = []
tail (d ∷ ds) = tail ds ++ b'/' ∷ d

join_behind : (s t c : Bytes) → s ≢ [] → join (s ++ t) c ≡ s ++ (t ++ b'/' ∷ c)
unfolding join
join_behind [] t c n = absurd (n refl)
join_behind (x ∷ s) t c n = ap (◌∷◌ x) (append_assoc s t (b'/' ∷ c))

pub joined-append : (ds cs : List Bytes) → joined cs ≢ [] → joined (ds ++ cs) ≡ joined cs ++ tail ds
unfolding joined tail
joined-append [] cs n = sym (append-nil (joined cs))
joined-append (d ∷ ds) cs n = rw (joined-append ds cs n) (join_behind (joined cs) (tail ds) d n)

pub joined-ne : (cs : List Bytes) → All IsName cs → cs ≢ [] → joined cs ≢ []
unfolding joined
joined-ne [] h n = absurd (n refl)
joined-ne (c ∷ cs) h n = join-ne (joined cs) c h.0.1

-- The directories of `cs` are the outermost ones of `ds`.
abbrev pub Above : List Bytes → List Bytes → Type 0
Above cs ds = (inner : List Bytes) × (ds ≡ inner ++ cs)

Above-of_prefix :
    (ds cs : List Bytes) (rest : Bytes)
    → All IsName cs
    → All IsName ds
    → joined ds ≡ joined cs ++ b'/' ∷ rest
    → Above cs ds
unfolding joined
Above-of_prefix [] cs rest h g e = absurd (nonempty (joined cs) (sym e))
  where
    nonempty : (s : Bytes) → s ++ b'/' ∷ rest ≢ []
    nonempty [] = λ e. cc e
    nonempty (x ∷ s) = λ e. cc e
Above-of_prefix (d ∷ ds) cs rest h g e =
    let p = sym (pop-join (joined ds) d g.0.0) ∙ ap pop e in
    elim (pop_behind (joined cs) rest) [
      | inl q ↦ (d ∷ [], ap (◌∷◌ d) (joined-inj ds cs g.1 h (p ∙ q)))
      | inr (r, q) ↦
          let (inner, e) = Above-of_prefix ds cs r h g.1 (p ∙ q) in (d ∷ inner, ap (◌∷◌ d) e)
    ]

starts_with-append : (s t : Bytes) → starts_with s (s ++ t) ≡ true
starts_with-append [] t = refl
starts_with-append (x ∷ s) t = ground (arith, starts_with-append s t)

get_elem?-append : (s t : Bytes) (c : ℕ) → get_elem? (s ++ c ∷ t) (length s) ≡ some c
get_elem?-append [] t c = refl
get_elem?-append (x ∷ s) t c = get_elem?-append s t c

split_at_slash :
    (s t : Bytes)
    → starts_with s t ≡ true
    → is_slash (get_elem? t (length s)) ≡ true
    → (rest : Bytes) × (t ≡ s ++ b'/' ∷ rest)
split_at_slash [] [] h g = cc
split_at_slash [] (y ∷ t) h g = (t, ap (λ c. c ∷ t) (ground arith))
split_at_slash (x ∷ s) [] h g = cc
split_at_slash (x ∷ s) (y ∷ t) h g =
    let (rest, e) = split_at_slash s t (ground arith) g in (rest, ap₂ (◌∷◌) (ground arith) e)

tail_slash : (d : Bytes) (ds : List Bytes) → (rest : Bytes) × (tail (d ∷ ds) ≡ b'/' ∷ rest)
unfolding tail
tail_slash d [] = (d, refl)
tail_slash d (c ∷ ds) =
    let (rest, e) = tail_slash c ds in (rest ++ b'/' ∷ d, ap (λ s. s ++ b'/' ∷ d) e)

pub All-behind : (inner cs : List Bytes) → All IsName (inner ++ cs) → All IsName cs
All-behind [] cs h = h
All-behind (d ∷ inner) cs h = All-behind inner cs h.1

-- What is below a directory has its path in front, and a slash behind that.
pub starts_below :
    (cs inner : List Bytes) (d : Bytes)
    → All IsName (d ∷ inner ++ cs)
    → cs ≢ []
    → (starts_with (joined cs) (joined (d ∷ inner ++ cs))
        && is_slash (get_elem? (joined (d ∷ inner ++ cs)) (length (joined cs))))
      ≡ true
starts_below cs inner d h some_of =
    let names = All-behind (d ∷ inner) cs h in
    let e = joined-append (d ∷ inner) cs (joined-ne cs names some_of) in
    let (rest, f) = tail_slash d inner in
    rw (e, f, starts_with-append (joined cs) (b'/' ∷ rest), get_elem?-append (joined cs) rest b'/')
      refl

pub not_nil : (s : Bytes) → s ≢ [] → is_nil s ≡ false
not_nil [] n = absurd (n refl)
not_nil (x ∷ s) n = refl

pub Above-of_is_above :
    (cs ds : List Bytes)
    → All IsName cs
    → All IsName ds
    → is_above (joined cs) (joined ds) ≡ true
    → Above cs ds
unfolding is_above
Above-of_is_above [] ds h g e = (ds, sym (append-nil ds))
Above-of_is_above (c ∷ cs) ds h g e = elim (Bool-cases (bytes_eq (joined (c ∷ cs)) (joined ds))) [
  | inl same ↦ ([], joined-inj ds (c ∷ cs) g h (sym (bytes_eq→eq _ _ same)))
  | inr other ↦
      let some_name = not_nil (joined (c ∷ cs)) (joined-ne (c ∷ cs) h (λ e. cc e)) in
      let both = rw (some_name, other) at e in
      let (rest, f) =
        split_at_slash (joined (c ∷ cs)) (joined ds) (ground (arith, both))
          (ground (arith, both)) in
      Above-of_prefix ds (c ∷ cs) rest h g f
]

pub get_elem?-all : (s : Bytes) → get_elem? s (length s) ≡ none
get_elem?-all [] = refl
get_elem?-all (x ∷ s) = get_elem?-all s
