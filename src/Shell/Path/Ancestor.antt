-- ===== src/Shell/Path/Ancestor.antt =====
-- Ancestors and rebased paths: the tests on text against the stacks of components.
use hc32f460jeua_evb.Base.{
  Bool, true, false, ◌&&◌, not, none, List, [], ◌∷◌, ◌++◌, ltb, refl, sym, ap, ◌∙◌, subst, ◌≡◌, ◌≢◌,
  ◌↔◌, arith, if◌then◌else◌, is_nil, length, drop, Bool-cases, inl, inr, All, drop-append,
  length-append, get_elem?,
}
use hc32f460jeua_evb.Base.Text.{Bytes, bytes_eq, starts_with, bytes_eq_refl, bytes_eq→eq}
use hc32f460jeua_evb.Shell.Path.{max_name_len, PathError, ok, err, is_slash}
use hc32f460jeua_evb.Shell.Path.Buffer.{ShellPath, equal, is_ancestor_of, rebase, fresh}
use hc32f460jeua_evb.Shell.Path.Stack.{joined, IsName, IsPath}
use hc32f460jeua_evb.Shell.Path.Components.{
  is_above, tail, joined-append, joined-ne, Above, All-behind, starts_below, not_nil,
  Above-of_is_above, get_elem?-all,
}

-- Between paths with the same bytes in use, but the root, what is behind those decides.
same_text :
    (a b : ShellPath)
    → a.used ≡ b.used
    → is_nil a.used ≡ false
    → is_ancestor_of a b ≡ bytes_eq a.stale b.stale
unfolding is_ancestor_of equal
same_text a b e n =
    let same = subst (λ t. bytes_eq t b.used ≡ true) (sym e) (bytes_eq_refl b.used) in
    let nothing = subst (λ t. get_elem? b.used (length t) ≡ none) (sym e) (get_elem?-all b.used) in
    rw (n, same, nothing) (ground arith)

pub below :
    (a b : ShellPath)
    → (starts_with a.used b.used && is_slash (get_elem? b.used (length a.used))) ≡ true
    → is_ancestor_of a b ≡ true
unfolding is_ancestor_of
below a b h = ground (arith, h)

text_of : (a b : ShellPath) → is_ancestor_of a b ≡ true → is_above a.used b.used ≡ true
unfolding is_ancestor_of equal is_above
text_of a b h = ground (arith, h)

root_above : (a b : ShellPath) → a.used ≡ [] → is_ancestor_of a b ≡ true
unfolding is_ancestor_of
root_above a b e = rw e refl

-- The outer path of two is above the inner one, or they are the same, with the same bytes behind those in
-- use unless they are the root.
abbrev pub IsAncestor : List Bytes → List Bytes → ShellPath → ShellPath → Type 0
IsAncestor cs ds a b = Above cs ds × (cs ≡ ds → cs ≢ [] → a.stale ≡ b.stale)

is_ancestor :
    (a b : ShellPath) (cs inner : List Bytes)
    → All IsName (inner ++ cs)
    → a.used ≡ joined cs
    → b.used ≡ joined (inner ++ cs)
    → (cs ≡ inner ++ cs → cs ≢ [] → a.stale ≡ b.stale)
    → is_ancestor_of a b ≡ true
is_ancestor a b [] inner h e f same = root_above a b (e ∙ unfold joined in refl)
is_ancestor a b (c ∷ cs) [] h e f same =
    same_text a b (e ∙ sym f) (rw e (not_nil _ (joined-ne (c ∷ cs) h (λ q. cc q))))
    ∙ subst (λ t. bytes_eq a.stale t ≡ true) (same refl (λ q. cc q)) (bytes_eq_refl a.stale)
is_ancestor a b (c ∷ cs) (d ∷ inner) h e f same =
    below a b (rw (e, f) (starts_below (c ∷ cs) inner d h (λ q. cc q)))

-- The test says of two paths whether the components of one are the outermost ones of the other: `/ab` is no
-- ancestor of `/abc`. A path that is not the root is found to be its own ancestor only if the bytes behind
-- those in use are the same in both buffers.
pub is_ancestor_of-IsAncestor :
    (a b : ShellPath) (cs ds : List Bytes)
    → IsPath cs
    → IsPath ds
    → a.used ≡ joined cs
    → b.used ≡ joined ds
    → (is_ancestor_of a b ≡ true) ↔ IsAncestor cs ds a b
is_ancestor_of-IsAncestor a b cs ds p q e f = (
  λ h. (Above-of_is_above cs ds p.names q.names (rw (e, f) at (text_of a b h)), own h),
  λ g.
      let (inner, at) = g.0 in
      is_ancestor a b cs inner (subst (All IsName) at q.names) e (f ∙ ap joined at)
        (λ x. g.1 (x ∙ sym at)),
)
  where
    own : is_ancestor_of a b ≡ true → cs ≡ ds → cs ≢ [] → a.stale ≡ b.stale
    own h same some_of = bytes_eq→eq _ _ (
        sym (
          same_text a b (e ∙ ap joined same ∙ sym f)
            (rw e (not_nil _ (joined-ne cs p.names some_of))))
        ∙ h)

-- The path itself, with other bytes behind those in use than the directory that is renamed
abbrev pub overlooked : List Bytes → ShellPath → ShellPath → Bool
overlooked inner old path = is_nil inner && not (bytes_eq old.stale path.stale)

moves :
    (path old : ShellPath) (inner os : List Bytes)
    → All IsName (inner ++ os)
    → os ≢ []
    → path.used ≡ joined (inner ++ os)
    → old.used ≡ joined os
    → is_ancestor_of old path ≡ not (overlooked inner old path)
moves path old [] os h o e f =
    same_text old path (f ∙ sym e) (rw f (not_nil _ (joined-ne os h o))) ∙ ground arith
moves path old (d ∷ inner) os h o e f = below old path (rw (e, f) (starts_below os inner d h o))

-- Rebasing a path below one directory to another directory exchanges the outer components, in a fresh
-- buffer, and is refused exactly if the path would be longer than that; neither directory is the root. A
-- path that is the directory itself stays as it is if the bytes behind those in use differ.
pub rebase-joined :
    (path old new : ShellPath) (inner os ns : List Bytes)
    → IsPath (inner ++ os)
    → IsPath ns
    → os ≢ []
    → ns ≢ []
    → path.used ≡ joined (inner ++ os)
    → old.used ≡ joined os
    → new.used ≡ joined ns
    → rebase old new path ≡ (
        if overlooked inner old path
        then ok path
        else if ltb max_name_len (length (joined (inner ++ ns)))
        then err PathError.too_long
        else ok (fresh (joined (inner ++ ns))))
unfolding rebase
rebase-joined path old new inner os ns p q o n e f g =
    let a = joined-append inner os (joined-ne os (All-behind inner os p.names) o) in
    let b = joined-append inner ns (joined-ne ns q.names n) in
    let l = length-append (joined ns) (tail inner) in
    let suffix : drop (length old.used) path.used ≡ tail inner =
      rw (e, f, a) (drop-append (length (joined os)) (joined os) (tail inner) refl) in
    elim (Bool-cases (overlooked inner old path)) [
      | inl left ↦ rw (moves path old inner os p.names o e f, left) refl
      | inr moved ↦ rw (moves path old inner os p.names o e f, moved, suffix, g, b, l) refl
    ]
