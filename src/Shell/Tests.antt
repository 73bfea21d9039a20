-- ===== src/Shell/Tests.antt =====
-- Paths of src/shell/path.rs resolved, compared and moved at concrete inputs.
use hc32f460jeua_evb.Base.{
  ◌≡◌, ◌↔◌, refl, true, false, List, [], ◌∷◌, ◌++◌, arith, ltb, if◌then◌else◌, length, replicate,
}
use hc32f460jeua_evb.Base.Text.{Bytes, codes}
use hc32f460jeua_evb.Shell.Path.{
  max_name_len, PathError, ok, err, split, contains_nul, rfind, pop, push, enter, walk, resolve,
  display,
}
use hc32f460jeua_evb.Shell.Path.Stack.{
  join, joined, joined_result, walk_stack, start_of, Sound, IsPath, resolve-walk_stack,
}
use hc32f460jeua_evb.Shell.Path.Buffer.{ShellPath, equal, is_ancestor_of, rebase, fresh, used_of}
use hc32f460jeua_evb.Shell.Path.Buffer
use hc32f460jeua_evb.Shell.Path.Ancestor.{
  IsAncestor, overlooked, is_ancestor_of-IsAncestor, rebase-joined,
}

relative : resolve (codes "a/b") (codes "../c/./d//") ≡ ok (codes "a/c/d")
unfolding resolve split contains_nul walk enter push pop rfind
relative = refl

too_long : resolve (codes "a") (replicate 62 b'x') ≡ err PathError.too_long
unfolding resolve split contains_nul walk enter push
too_long = refl

shown : display (codes "a") ≡ codes "/a"
unfolding display
shown = refl

siblings : is_ancestor_of (fresh (codes "ab")) (fresh (codes "abc")) ≡ false
unfolding is_ancestor_of equal
siblings = refl

-- `/log/old`, the innermost directory first
abbrev old_logs : List Bytes
old_logs = codes "old" ∷ codes "log" ∷ []

old_logs-IsPath : IsPath old_logs
unfolding joined join
old_logs-IsPath = record { names = grind arith; fits = omega arith }

archive-IsPath : IsPath (codes "archive" ∷ [])
unfolding joined join
archive-IsPath = record { names = grind arith; fits = omega arith }

log-IsPath : IsPath (codes "log" ∷ [])
unfolding joined join
log-IsPath = record { names = grind arith; fits = omega arith }

resolve-walk_stack_example :
    (resolve (joined old_logs) (codes "../new") ≡ (
      if contains_nul (codes "../new")
      then err PathError.invalid
      else joined_result
          (walk_stack (split (codes "../new")) (start_of (codes "../new") old_logs))))
    × Sound (walk_stack (split (codes "../new")) (start_of (codes "../new") old_logs))
resolve-walk_stack_example = resolve-walk_stack (codes "../new") old_logs old_logs-IsPath

-- The working directory after `cd /log/old` and `cd ..`
abbrev came_up : ShellPath
came_up = record { used = codes "log"; stale = codes "/old" ++ replicate 56 0 }

came_up_resolved : Buffer.resolve (fresh (codes "log/old")) (codes "..") ≡ ok came_up
unfolding Buffer.resolve Buffer.walk Buffer.enter Buffer.pop split contains_nul rfind
came_up_resolved = refl

named : Buffer.resolve Buffer.root (codes "/log") ≡ ok (fresh (codes "log"))
unfolding Buffer.resolve Buffer.walk Buffer.enter Buffer.push split contains_nul
named = refl

-- `/log` is not found to be the working directory that it is.
not_recognised : is_ancestor_of (fresh (codes "log")) came_up ≡ false
unfolding is_ancestor_of equal
not_recognised = refl

not_moved : rebase (fresh (codes "log")) (fresh (codes "archive")) came_up ≡ ok came_up
unfolding rebase is_ancestor_of equal
not_moved = refl

is_ancestor_of-IsAncestor_example :
    (is_ancestor_of (fresh (joined (codes "log" ∷ []))) (fresh (joined old_logs)) ≡ true)
    ↔ IsAncestor
        (codes "log" ∷ [])
        old_logs
        (fresh (joined (codes "log" ∷ [])))
        (fresh (joined old_logs))
is_ancestor_of-IsAncestor_example =
    is_ancestor_of-IsAncestor (fresh (joined (codes "log" ∷ []))) (fresh (joined old_logs))
      (codes "log" ∷ []) old_logs log-IsPath old_logs-IsPath refl refl

rebase-joined_example :
    rebase
      (fresh (joined (codes "log" ∷ [])))
      (fresh (joined (codes "archive" ∷ [])))
      (fresh (joined old_logs))
    ≡ (if overlooked
          (codes "old" ∷ [])
          (fresh (joined (codes "log" ∷ [])))
          (fresh (joined old_logs))
        then ok (fresh (joined old_logs))
        else if ltb max_name_len (length (joined (codes "old" ∷ codes "archive" ∷ [])))
        then err PathError.too_long
        else ok (fresh (joined (codes "old" ∷ codes "archive" ∷ []))))
rebase-joined_example =
    rebase-joined (fresh (joined old_logs)) (fresh (joined (codes "log" ∷ [])))
      (fresh (joined (codes "archive" ∷ []))) (codes "old" ∷ []) (codes "log" ∷ [])
      (codes "archive" ∷ []) old_logs-IsPath archive-IsPath (λ e. cc e) (λ e. cc e) refl refl refl
