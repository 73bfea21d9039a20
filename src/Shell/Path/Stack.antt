-- ===== src/Shell/Path/Stack.antt =====
-- A path as the stack of its components, the innermost first.
use hc32f460jeua_evb.Base.{
  ℕ, ◌+◌, ◌≤◌, false, ◌||◌, none, some, List, [], ◌∷◌, ◌++◌, ltb, ◌==◌, refl, ap, ◌≡◌, ◌≢◌, arith,
  if◌then◌else◌, is_nil, length, drop, Bool-cases, inl, inr, ltb-ge, All, take-append,
  length-append,
}
use hc32f460jeua_evb.Base.Text.{Bytes, codes, bytes_eq, starts_with}
use hc32f460jeua_evb.Shell.Path.{
  max_name_len, PathError, Result, ok, err, root, onto_first, split, contains_nul, rfind, pop, push,
  enter, and_then, walk, resolve,
}

-- Behind a path that is not the root, a slash comes first.
unfoldable pub join : Bytes → Bytes → Bytes
join [] c = c
join (x ∷ xs) c = (x ∷ xs) ++ b'/' ∷ c

unfoldable pub joined : List Bytes → Bytes
unfolding join
joined [] = []
joined (c ∷ cs) = join (joined cs) c

-- What a directory may be called.
abbrev pub IsName : Bytes → Type 0
IsName c = All (λ x. x ≢ b'/') c × (c ≢ []) × (c ≢ codes ".") × (c ≢ codes "..")

-- The same walk on the stack: an empty part or a dot stays, two dots leave the innermost directory (or
-- stay at the root), a name enters it, unless the path would be longer than its buffer.
unfoldable pub enter_stack : Bytes → List Bytes → Result (List Bytes)
enter_stack c cs =
    if is_nil c || bytes_eq c (codes ".")
    then ok cs
    else if bytes_eq c (codes "..")
    then ok (drop 1 cs)
    else if ltb max_name_len (length (joined (c ∷ cs)))
    then err PathError.too_long
    else ok (c ∷ cs)

unfoldable pub walk_stack : List Bytes → List Bytes → Result (List Bytes)
walk_stack [] cs = ok cs
walk_stack (p ∷ ps) cs = and_then (enter_stack p cs) (walk_stack ps)

abbrev pub joined_result : Result (List Bytes) → Result Bytes
joined_result (ok cs) = ok (joined cs)
joined_result (err e) = err e

rfind_name : (c : Bytes) → All (λ x. x ≢ b'/') c → rfind c ≡ none
unfolding rfind
rfind_name [] h = refl
rfind_name (x ∷ c) h = rw (rfind_name c h.1) (ground (arith, h.0))

rfind_last : (s c : Bytes) → All (λ x. x ≢ b'/') c → rfind (s ++ b'/' ∷ c) ≡ some (length s)
unfolding rfind
rfind_last [] c h = rw (rfind_name c h) refl
rfind_last (x ∷ s) c h = rw (rfind_last s c h) (ap some (omega arith))

pub pop-join : (s c : Bytes) → All (λ x. x ≢ b'/') c → pop (join s c) ≡ s
unfolding pop join
pop-join [] c h = rw (rfind_name c h) refl
pop-join (x ∷ s) c h =
    rw (rfind_last (x ∷ s) c h) (take-append (length (x ∷ s)) (x ∷ s) (b'/' ∷ c) refl)

pop-joined : (cs : List Bytes) → All IsName cs → pop (joined cs) ≡ joined (drop 1 cs)
unfolding joined
pop-joined [] h = unfold pop in unfold rfind in refl
pop-joined (c ∷ cs) h = pop-join (joined cs) c h.0.0

append_separator : (s c : Bytes) → s ++ ((if is_nil s then [] else codes "/") ++ c) ≡ join s c
unfolding join
append_separator [] c = refl
append_separator (x ∷ s) c = refl

length_separated :
    (s c : Bytes)
    → length s + length (if is_nil s then [] else codes "/") + length c ≡ length (join s c)
unfolding join
length_separated [] c = omega arith
length_separated (x ∷ s) c = omega (arith, length-append (x ∷ s) (b'/' ∷ c))

enter-joined :
    (c : Bytes) (cs : List Bytes)
    → All IsName cs
    → enter c (joined cs) ≡ joined_result (enter_stack c cs)
unfolding enter enter_stack push joined
enter-joined c cs h =
    ground (arith, pop-joined cs h, append_separator (joined cs) c, length_separated (joined cs) c)

abbrev pub NoSlash : Bytes → Type 0
NoSlash c = All (λ x. x ≢ b'/') c

IsName-of_tests :
    (c : Bytes)
    → NoSlash c
    → (is_nil c || bytes_eq c (codes ".")) ≡ false
    → bytes_eq c (codes "..") ≡ false
    → IsName c
IsName-of_tests [] n h g = cc
IsName-of_tests (x ∷ c) n h g = (n, cc, ground arith, ground arith)

drop_one-All : (cs : List Bytes) → All IsName cs → All IsName (drop 1 cs)
drop_one-All [] h = tt
drop_one-All (c ∷ cs) h = h.1

length-join : (s d : Bytes) → length s ≤ length (join s d)
unfolding join
length-join [] d = omega arith
length-join (x ∷ s) d = omega (arith, length-append (x ∷ s) (b'/' ∷ d))

length-drop_one : (cs : List Bytes) → length (joined (drop 1 cs)) ≤ length (joined cs)
unfolding joined
length-drop_one [] = omega arith
length-drop_one (c ∷ cs) = length-join (joined cs) c

-- A stack of names that fits in the buffer.
pub record IsPath (cs : List Bytes) : Type 0 where
  pub names : All IsName cs
  pub fits : length (joined cs) ≤ max_name_len

-- A result is an error or a path.
abbrev pub Sound : Result (List Bytes) → Type 0
Sound (ok cs) = IsPath cs
Sound (err e) = Unit

enter_stack-Sound : (c : Bytes) (cs : List Bytes) → NoSlash c → IsPath cs → Sound (enter_stack c cs)
unfolding enter_stack
enter_stack-Sound c cs n p = elim (Bool-cases (is_nil c || bytes_eq c (codes "."))) [
  | inl a ↦ rw a p
  | inr a ↦ elim (Bool-cases (bytes_eq c (codes ".."))) [
    | inl b ↦
        rw (a, b)
          (record {
            names = drop_one-All cs p.names;
            fits = omega (arith, length-drop_one cs, p.fits);
          })
    | inr b ↦ elim (Bool-cases (ltb max_name_len (length (joined (c ∷ cs))))) [
      | inl f ↦ rw (a, b, f) tt
      | inr f ↦
          rw (a, b, f) (record { names = (IsName-of_tests c n a b, p.names); fits = ltb-ge _ _ f })
    ]
  ]
]

and_then-Sound :
    (r : Result (List Bytes)) (g : List Bytes → Result (List Bytes))
    → Sound r
    → ((cs : List Bytes) → IsPath cs → Sound (g cs))
    → Sound (and_then r g)
and_then-Sound (ok cs) g h f = f cs h
and_then-Sound (err e) g h f = tt

and_then-joined :
    (r : Result (List Bytes)) (f : Bytes → Result Bytes) (g : List Bytes → Result (List Bytes))
    → Sound r
    → ((cs : List Bytes) → IsPath cs → f (joined cs) ≡ joined_result (g cs))
    → and_then (joined_result r) f ≡ joined_result (and_then r g)
and_then-joined (ok cs) f g h e = e cs h
and_then-joined (err x) f g h e = refl

walk_stack-Sound : (ps cs : List Bytes) → All NoSlash ps → IsPath cs → Sound (walk_stack ps cs)
unfolding walk_stack
walk_stack-Sound [] cs n p = p
walk_stack-Sound (c ∷ ps) cs n p =
    and_then-Sound (enter_stack c cs) (walk_stack ps) (enter_stack-Sound c cs n.0 p)
      (λ ds q. walk_stack-Sound ps ds n.1 q)

walk-joined :
    (ps cs : List Bytes)
    → All NoSlash ps
    → IsPath cs
    → walk ps (joined cs) ≡ joined_result (walk_stack ps cs)
unfolding walk walk_stack
walk-joined [] cs n p = refl
walk-joined (c ∷ ps) cs n p = rw (enter-joined c cs p.names) (
    and_then-joined (enter_stack c cs) (walk ps) (walk_stack ps) (enter_stack-Sound c cs n.0 p)
      (λ ds q. walk-joined ps ds n.1 q))

onto_first-NoSlash :
    (c : ℕ) (ps : List Bytes) → c ≢ b'/' → All NoSlash ps → All NoSlash (onto_first c ps)
onto_first-NoSlash c [] n h = ((n, tt), tt)
onto_first-NoSlash c (p ∷ ps) n h = ((n, h.0), h.1)

split-NoSlash : (s : Bytes) → All NoSlash (split s)
unfolding split
split-NoSlash [] = (tt, tt)
split-NoSlash (c ∷ s) = elim (Bool-cases (c == b'/')) [
  | inl e ↦ rw e (tt, split-NoSlash s)
  | inr e ↦ rw e (onto_first-NoSlash c (split s) (ground arith) (split-NoSlash s))
]

-- Where the walk starts: at the root for an absolute path.
abbrev pub start_of : Bytes → List Bytes → List Bytes
start_of input cs = if starts_with (codes "/") input then [] else cs

root-IsPath : IsPath []
unfolding joined
root-IsPath = record { names = tt; fits = omega arith }

start_of-IsPath : (input : Bytes) (cs : List Bytes) → IsPath cs → IsPath (start_of input cs)
start_of-IsPath input cs p = elim (Bool-cases (starts_with (codes "/") input)) [
  | inl e ↦ rw e root-IsPath
  | inr e ↦ rw e p
]

start_of-joined :
    (input : Bytes) (cs : List Bytes)
    → (if starts_with (codes "/") input then root else joined cs) ≡ joined (start_of input cs)
start_of-joined input cs = elim (Bool-cases (starts_with (codes "/") input)) [
  | inl e ↦ rw e (unfold joined in refl)
  | inr e ↦ rw e refl
]

-- `resolve` walks the stack of directories by the parts of its input, from the root if the input
-- starts with a slash: the two agree on every branch, errors included, and the stack of a result is
-- one of names, none of them empty, a dot or two dots, whose path fits in the buffer. An input with
-- a zero byte is refused.
pub resolve-walk_stack :
    (input : Bytes) (cs : List Bytes)
    → IsPath cs
    → (resolve (joined cs) input ≡ (
        if contains_nul input
        then err PathError.invalid
        else joined_result (walk_stack (split input) (start_of input cs))))
      × Sound (walk_stack (split input) (start_of input cs))
unfolding resolve
resolve-walk_stack input cs p =
    let q = start_of-IsPath input cs p in
    (
      rw (
        start_of-joined input cs,
        walk-joined (split input) (start_of input cs) (split-NoSlash input) q,
      ),
      walk_stack-Sound (split input) (start_of input cs) (split-NoSlash input) q,
    )
