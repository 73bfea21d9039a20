-- ===== src/Shell/Path.antt =====
-- src/shell/path.rs: the working directory and the paths that are resolved against it. Here a path is the
-- list of the bytes it uses of its buffer, without the slash in front; the root is the empty list. The module
-- Buffer has the same operations on the whole buffer, with the comparisons, which read all of it.
-- The bytes of a path are the bytes of texts, cut at slashes, so they are always read as text.
pub mod Stack
pub mod Buffer
pub mod Ancestor
pub mod Components
use hc32f460jeua_evb.Base.{
  ℕ, ◌+◌, ◌-◌, ◌≤◌, ◌<◌, Bool, true, false, ◌&&◌, ◌||◌, not, Option, none, some, List, [], ◌∷◌,
  ◌++◌, ltb, ◌==◌, if◌then◌else◌, is_nil, length, take, drop, get_elem?,
}
use hc32f460jeua_evb.Base.Text.{Bytes, codes, bytes_eq, starts_with}

-- `littlefs::MAX_NAME_LEN`, the size of the buffer
abbrev pub max_name_len : ℕ
max_name_len = 63

pub data PathError : Type 0 where
  invalid too_long : PathError

pub data Result (A : Type 0) : Type 0 where
  ok : A → Result A
  err : PathError → Result A

abbrev pub root : Bytes
root = []

-- A byte in front of the first part
abbrev pub onto_first : ℕ → List Bytes → List Bytes
onto_first c [] = (c ∷ []) ∷ []
onto_first c (p ∷ ps) = (c ∷ p) ∷ ps

-- `split('/')`: one part more than there are slashes.
unfoldable pub split : Bytes → List Bytes
split [] = [] ∷ []
split (c ∷ s) = let parts = split s in if c == b'/' then [] ∷ parts else onto_first c parts

unfoldable pub contains_nul : Bytes → Bool
contains_nul [] = false
contains_nul (c ∷ s) = c == 0 || contains_nul s

abbrev pub rfind_step : ℕ → Option ℕ → Option ℕ
rfind_step c none = if c == b'/' then some 0 else none
rfind_step c (some i) = some (i + 1)

-- `rfind('/')`
unfoldable pub rfind : Bytes → Option ℕ
rfind [] = none
rfind (c ∷ s) = rfind_step c (rfind s)

abbrev pub unwrap_or : Option ℕ → ℕ → ℕ
unwrap_or none d = d
unwrap_or (some i) d = i

unfoldable pub pop : Bytes → Bytes
pop path = take (unwrap_or (rfind path) 0) path

unfoldable pub push : Bytes → Bytes → Result Bytes
push component path =
    let separator = if is_nil path then [] else codes "/" in
    if is_nil component || bytes_eq component (codes ".") || bytes_eq component (codes "..")
    then err PathError.invalid
    else if ltb max_name_len (length path + length separator + length component)
    then err PathError.too_long
    else ok (path ++ (separator ++ component))

-- One turn of the loop of `resolve`
unfoldable pub enter : Bytes → Bytes → Result Bytes
enter component path =
    if is_nil component || bytes_eq component (codes ".")
    then ok path
    else if bytes_eq component (codes "..")
    then ok (pop path)
    else push component path

abbrev pub and_then : {A B : Type 0} → Result A → (A → Result B) → Result B
and_then (ok a) f = f a
and_then (err e) f = err e

unfoldable pub walk : List Bytes → Bytes → Result Bytes
walk [] path = ok path
walk (c ∷ cs) path = and_then (enter c path) (walk cs)

unfoldable pub resolve : Bytes → Bytes → Result Bytes
resolve cwd input =
    if contains_nul input
    then err PathError.invalid
    else walk (split input) (if starts_with (codes "/") input then root else cwd)

abbrev pub is_slash : Option ℕ → Bool
is_slash none = false
is_slash (some c) = c == b'/'

-- As it is shown
unfoldable pub display : Bytes → Bytes
display path = if is_nil path then codes "/" else codes "/" ++ path
