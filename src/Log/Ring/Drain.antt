-- ===== src/Log/Ring/Drain.antt =====
-- The operations of src/logring.rs that take entries out.
use hc32f460jeua_evb.Base.{
  ℕ, zero, suc, ◌+◌, ◌-◌, ◌/◌, ◌%◌, Bool, Option, none, some, [], ◌∷◌, ◌++◌, ltb, leb, ◌==◌,
  if◌then◌else◌, length, take, drop,
}
use hc32f460jeua_evb.Base.Text.{Bytes}
use hc32f460jeua_evb.Log.Ring.{
  LogRing, entry_len_at, entry_truncated_at, advance, header, drop_marker_prefix,
  drop_marker_suffix, trunc_marker,
}

unfoldable pub digits_loop : ℕ → ℕ → ℕ
digits_loop zero v = 0
digits_loop (suc fuel) v = let more = digits_loop fuel (v / 10) in if v == 0 then 0 else suc more

-- A number has no more digits than it counts.
unfoldable pub digits : ℕ → ℕ
digits v = if v == 0 then 1 else digits_loop v v

-- The loop of `push_usize` fills its buffer of 20 bytes from the end; `digits` are those filled so far.
unfoldable pub push_loop : ℕ → ℕ → Bytes → Bytes
push_loop zero v filled = filled
push_loop (suc fuel) v filled =
    let more = push_loop fuel (v / 10) ((b'0' + v % 10) ∷ filled) in if v == 0 then filled else more

unfoldable pub push_usize : Bytes → ℕ → Bytes
push_usize out v = out ++ (if v == 0 then b'0' ∷ [] else push_loop v v [])

unfoldable pub is_empty : LogRing → Bool
is_empty r = r.len == 0

unfoldable pub bytes_pending : LogRing → ℕ
bytes_pending r = r.len

unfoldable pub is_writing : LogRing → Bool
is_writing r = r.writing

abbrev pub marker_len : ℕ → ℕ
marker_len dropped = length drop_marker_prefix + length drop_marker_suffix + digits dropped

-- The bytes appended, the output and the buffer
unfoldable pub emit_drop_marker : Bytes → LogRing → ℕ × Bytes × LogRing
emit_drop_marker out r = if r.dropped == 0 then (0, out, r) else (
  marker_len r.dropped,
  push_usize (out ++ drop_marker_prefix) r.dropped ++ drop_marker_suffix,
  record r { dropped = 0 },
)

-- `slice[pos + 2..pos + 2 + n]`
abbrev pub content_at : LogRing → ℕ → ℕ → Bytes
content_at r pos n = take n (drop (pos + header) r.buf)

abbrev pub suffix_of : Bool → Bytes
suffix_of truncated = (if truncated then trunc_marker else []) ++ b'\n' ∷ []

-- The bytes that the loop counts for an entry, with its header
abbrev pub total_of : ℕ → Bool → ℕ
total_of n truncated = header + n + 1 + (if truncated then length trunc_marker else 0)

-- The loop of `drain_locked_limited`: where it stops, the bytes copied, the output; `none` is a loop that
-- ran out of fuel.
unfoldable pub drain_loop : ℕ → LogRing → ℕ → ℕ → ℕ → ℕ → Bytes → Option (ℕ × ℕ × Bytes)
drain_loop zero r limit stop pos copied out = none
drain_loop (suc fuel) r limit stop pos copied out =
    let n = entry_len_at r pos in
    let truncated = entry_truncated_at r pos in
    let line = content_at r pos n ++ suffix_of truncated in
    let skipped = drain_loop fuel r limit stop (pos + (header + n)) copied out in
    let taken =
      drain_loop fuel r limit stop (pos + (header + n)) (copied + length line) (out ++ line) in
    if leb stop pos
    then some (pos, copied, out)
    else if n == 0
    then skipped
    else if ltb limit (copied + total_of n truncated)
    then some (pos, copied, out)
    else taken

-- What the loop took is given up.
abbrev pub consume : LogRing → ℕ × ℕ × Bytes → ℕ × Bytes × LogRing
consume r (pos, copied, out) = (copied, out, advance (pos - r.head) r)

abbrev pub map_some : {A B : Type 0} → (A → B) → Option A → Option B
map_some f none = none
map_some f (some a) = some (f a)

unfoldable pub drain_locked_limited : Bytes → ℕ → LogRing → Option (ℕ × Bytes × LogRing)
drain_locked_limited out limit r =
    let marked = emit_drop_marker out r in
    let r1 = marked.2 in
    let drained =
      map_some (consume r1)
        (drain_loop (suc r1.len) r1 limit (r1.head + r1.len) r1.head marked.0 marked.1) in
    if ltb 0 r.dropped
    then (if ltb limit (marker_len r.dropped) then some (0, out, r) else drained)
    else drained

-- `usize::MAX`
abbrev pub usize_max : ℕ
usize_max = 0xffffffff

unfoldable pub drain_into : Bytes → LogRing → Option (ℕ × Bytes × LogRing)
drain_into out r = drain_locked_limited out usize_max r

unfoldable pub drain_into_limited : Bytes → ℕ → LogRing → Option (ℕ × Bytes × LogRing)
drain_into_limited out limit r = drain_locked_limited out limit r

unfoldable pub drain_oldest_entry : Bytes → LogRing → ℕ × Bytes × LogRing
drain_oldest_entry out r =
    let marked = emit_drop_marker out r in
    let r1 = marked.2 in
    let n = entry_len_at r1 r1.head in
    let line = content_at r1 r1.head n ++ suffix_of (entry_truncated_at r1 r1.head) in
    if r1.len == 0
    then marked
    else if n == 0
    then (marked.0, marked.1, advance (header + n) r1)
    else (marked.0 + length line, marked.1 ++ line, advance (header + n) r1)
