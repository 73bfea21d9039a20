-- ===== src/Shell/Path/Buffer.antt =====
-- `ShellPath` of src/shell/path.rs with its whole buffer: the bytes in use, which the texts of the parent
-- module are, and those behind them, which stay when a path gets shorter and count in its derived `==`.
use hc32f460jeua_evb.Base.{
  ◌+◌, ◌-◌, ◌≡◌, refl, arith, Bool, ◌&&◌, ◌||◌, not, List, [], ◌∷◌, ◌++◌, ltb, if◌then◌else◌,
  is_nil, length, take, drop, get_elem?, replicate, Bool-cases, inl, inr, sym, ◌⊎◌,
}
use hc32f460jeua_evb.Base.Text.{Bytes, codes, bytes_eq, starts_with}
use hc32f460jeua_evb.Shell.Path.{
  max_name_len, PathError, Result, ok, err, split, contains_nul, rfind, unwrap_or, and_then,
  is_slash,
}
use hc32f460jeua_evb.Shell.Path

pub record ShellPath : Type 0 where
  pub used : Bytes
  pub stale : Bytes

abbrev pub root : ShellPath
root = record { used = []; stale = replicate max_name_len 0 }

-- The derived `==` compares the length and all bytes of the buffers.
unfoldable pub equal : ShellPath → ShellPath → Bool
equal a b = bytes_eq a.used b.used && bytes_eq a.stale b.stale

unfoldable pub pop : ShellPath → ShellPath
pop path =
    let n = unwrap_or (rfind path.used) 0 in
    record { used = take n path.used; stale = drop n path.used ++ path.stale }

unfoldable pub push : Bytes → ShellPath → Result ShellPath
push component path =
    let separator = if is_nil path.used then [] else codes "/" in
    if is_nil component || bytes_eq component (codes ".") || bytes_eq component (codes "..")
    then err PathError.invalid
    else if ltb max_name_len (length path.used + length separator + length component)
    then err PathError.too_long
    else ok (record {
      used = path.used ++ (separator ++ component);
      stale = drop (length separator + length component) path.stale;
    })

unfoldable pub enter : Bytes → ShellPath → Result ShellPath
enter component path =
    if is_nil component || bytes_eq component (codes ".")
    then ok path
    else if bytes_eq component (codes "..")
    then ok (pop path)
    else push component path

unfoldable pub walk : List Bytes → ShellPath → Result ShellPath
walk [] path = ok path
walk (c ∷ cs) path = and_then (enter c path) (walk cs)

unfoldable pub resolve : ShellPath → Bytes → Result ShellPath
resolve cwd input =
    if contains_nul input
    then err PathError.invalid
    else walk (split input) (if starts_with (codes "/") input then root else cwd)

unfoldable pub is_ancestor_of : ShellPath → ShellPath → Bool
is_ancestor_of a b =
    is_nil a.used
    || equal a b
    || (starts_with a.used b.used && is_slash (get_elem? b.used (length a.used)))

-- A path that is written into an empty buffer
abbrev pub fresh : Bytes → ShellPath
fresh text = record { used = text; stale = replicate (max_name_len - length text) 0 }

unfoldable pub rebase : ShellPath → ShellPath → ShellPath → Result ShellPath
rebase old new path =
    let suffix = drop (length old.used) path.used in
    if not (is_ancestor_of old path)
    then ok path
    else if ltb max_name_len (length new.used + length suffix)
    then err PathError.too_long
    else ok (fresh (new.used ++ suffix))

abbrev pub used_of : Result ShellPath → Result Bytes
used_of (ok path) = ok path.used
used_of (err e) = err e

enter_used : (c : Bytes) (p : ShellPath) → used_of (enter c p) ≡ Path.enter c p.used
unfolding enter push pop Path.enter Path.push Path.pop
enter_used c p = ground arith

walk_used : (cs : List Bytes) (p : ShellPath) → used_of (walk cs p) ≡ Path.walk cs p.used
unfolding walk Path.walk
walk_used [] p = refl
walk_used (c ∷ cs) p = elim (split_result (enter c p)) [
  | inl (q, e) ↦ rw (sym (enter_used c p), e) (walk_used cs q)
  | inr (x, e) ↦ rw (sym (enter_used c p), e) refl
]
  where
    split_result :
        (r : Result ShellPath) → ((q : ShellPath) × (r ≡ ok q)) ⊎ ((x : PathError) × (r ≡ err x))
    split_result (ok q) = inl (q, refl)
    split_result (err x) = inr (x, refl)

-- What is behind the bytes in use has no part in resolving a path.
pub resolve_used :
    (cwd : ShellPath) (input : Bytes) → used_of (resolve cwd input) ≡ Path.resolve cwd.used input
unfolding resolve Path.resolve
resolve_used cwd input = elim (Bool-cases (contains_nul input)) [
  | inl e ↦ rw e refl
  | inr e ↦ elim (Bool-cases (starts_with (codes "/") input)) [
    | inl a ↦ rw (e, a) (walk_used (split input) root)
    | inr a ↦ rw (e, a) (walk_used (split input) cwd)
  ]
]
