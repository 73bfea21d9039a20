-- ===== src/Log/Ring.antt =====
-- src/logring.rs: the buffer of log entries. An entry is a header of two bytes, the length and a flag,
-- and its content; entries lie one behind the other from `head` on. The capacity is the length of `buf`.
-- `Vec` is the list of its bytes. `wait_writer_idle`, which polls an atomic flag, is not modelled.

pub mod Window
pub mod Headers
pub mod Entries
pub mod Building
pub mod Append
pub mod Begin
pub mod Drain
pub mod Digits
pub mod Drained
pub mod Limited
pub mod Tests
use Prim.Native.Nat.{bit_and, bit_or}
use hc32f460jeua_evb.Base.{
  ℕ, zero, suc, ◌+◌, ◌-◌, ◌*◌, ◌/◌, ◌%◌, ◌≤◌, ◌<◌, Bool, true, false, ◌&&◌, ◌||◌, not, Option, none,
  some, List, [], ◌∷◌, ◌++◌, ltb, leb, ◌==◌, if◌then◌else◌, length, take, drop, get_or, replicate,
  max,
}
use hc32f460jeua_evb.Base.Text.{Bytes, codes}

abbrev pub header : ℕ
header = 2

abbrev pub len_flag_truncated : ℕ
len_flag_truncated = 32768

abbrev pub len_mask : ℕ
len_mask = 0x7fff

-- `[日志缓冲溢出, 丢弃 ` in UTF-8
abbrev pub drop_marker_prefix : Bytes
drop_marker_prefix =
    b'[' ∷ 0xe6 ∷ 0x97 ∷ 0xa5 ∷ 0xe5 ∷ 0xbf ∷ 0x97 ∷ 0xe7 ∷ 0xbc ∷ 0x93 ∷ 0xe5 ∷ 0x86 ∷ 0xb2 ∷ 0xe6
    ∷ 0xba ∷ 0xa2 ∷ 0xe5 ∷ 0x87 ∷ 0xba ∷ b',' ∷ b' ' ∷ 0xe4 ∷ 0xb8 ∷ 0xa2 ∷ 0xe5 ∷ 0xbc ∷ 0x83
    ∷ b' ' ∷ []

-- ` 条]` and a line feed
abbrev pub drop_marker_suffix : Bytes
drop_marker_suffix = b' ' ∷ 0xe6 ∷ 0x9d ∷ 0xa1 ∷ b']' ∷ b'\n' ∷ []

-- `[截断]`
abbrev pub trunc_marker : Bytes
trunc_marker = b'[' ∷ 0xe6 ∷ 0x88 ∷ 0xaa ∷ 0xe6 ∷ 0x96 ∷ 0xad ∷ b']' ∷ []

pub record LogRing : Type 0 where
  pub buf : Bytes
  pub head : ℕ
  pub len : ℕ
  pub writing : Bool
  pub dropped : ℕ

pub record EntryMark : Type 0 where
  pub start : ℕ
  pub len : ℕ
  pub truncated : Bool

-- `new`, which asserts that the capacity is at most `len_mask`
unfoldable pub new : ℕ → LogRing
new cap = record { buf = replicate cap 0; head = 0; len = 0; writing = false; dropped = 0 }

unfoldable pub compact : LogRing → LogRing
compact r =
    if ltb 0 r.head
    then record r { buf = take r.len (drop r.head r.buf) ++ drop r.len r.buf; head = 0 }
    else r

-- The two bytes of a header
unfoldable pub header_at : LogRing → ℕ → ℕ
header_at r pos = get_or r.buf pos 0 + get_or r.buf (pos + 1) 0 * 256

unfoldable pub entry_len_at : LogRing → ℕ → ℕ
entry_len_at r pos = bit_and (header_at r pos) len_mask

unfoldable pub entry_truncated_at : LogRing → ℕ → Bool
entry_truncated_at r pos = not (bit_and (header_at r pos) len_flag_truncated == 0)

-- A buffer that is used to its end starts anew.
abbrev pub rewind : LogRing → LogRing
rewind r = if leb (length r.buf) r.head then record r { head = 0; len = 0 } else r

-- `step` bytes in front are given up.
abbrev pub advance : ℕ → LogRing → LogRing
advance step r = rewind (record r { head = r.head + step; len = r.len - step })

unfoldable pub drop_oldest : LogRing → Bool × LogRing
drop_oldest r =
    if r.len == 0
    then (false, r)
    else (true, advance (header + entry_len_at r r.head) (record r { dropped = r.dropped + 1 }))

unfoldable pub drop_oldest_before : ℕ → LogRing → Bool × LogRing
drop_oldest_before before r =
    let step = header + entry_len_at r r.head in
    if r.len == 0 || leb before r.head
    then (false, r)
    else if ltb before (r.head + step)
    then (false, r)
    else (true, advance step (record r { dropped = r.dropped + 1 }))

abbrev pub reserved : LogRing → EntryMark × LogRing
reserved r = (
  record { start = r.head + r.len; len = 0; truncated = false },
  record r { len = r.len + header; writing = true },
)

-- The loop of `begin_entry`; `none` is a loop that ran out of fuel.
unfoldable pub begin_loop : ℕ → LogRing → Option (Option EntryMark × LogRing)
begin_loop zero r = none
begin_loop (suc fuel) r =
    let r1 = compact r in
    let r2 = (drop_oldest r1).1 in
    let again = begin_loop fuel r2 in
    if leb header (length r1.buf - r1.len)
    then some (some (reserved r1).0, (reserved r1).1)
    else if (drop_oldest r1).0
    then again
    else some (none, record r2 { dropped = r2.dropped + 1 })

unfoldable pub begin_entry : LogRing → Option (Option EntryMark × LogRing)
begin_entry r = begin_loop (suc r.len) r

-- The bytes behind what is used
abbrev pub written : Bytes → LogRing → LogRing
written bytes r =
    let tail = r.head + r.len in
    record r {
      buf = take tail r.buf ++ (bytes ++ drop (tail + length bytes) r.buf);
      len = r.len + length bytes;
    }

-- The loop of `append_to_entry`; `none` is a loop that ran out of fuel.
unfoldable pub append_loop : ℕ → EntryMark → Bytes → LogRing → Option (Bool × EntryMark × LogRing)
append_loop zero mark bytes r = none
append_loop (suc fuel) mark bytes r =
    let r1 = compact r in
    let m1 = record mark { start = if ltb 0 r.head then mark.start - r.head else mark.start } in
    let again = append_loop fuel m1 bytes (drop_oldest_before m1.start r1).1 in
    if leb (length bytes) (length r1.buf - (r1.head + r1.len))
    then some (true, record m1 { len = m1.len + length bytes }, written bytes r1)
    else if (drop_oldest_before m1.start r1).0
    then again
    else some (false, record m1 { truncated = true }, (drop_oldest_before m1.start r1).1)

unfoldable pub append_to_entry : EntryMark → Bytes → LogRing → Option (Bool × EntryMark × LogRing)
append_to_entry mark bytes r = append_loop (suc r.len) mark bytes r

unfoldable pub commit_entry : EntryMark → LogRing → LogRing
commit_entry mark r =
    let head =
      bit_or (bit_and (mark.len % 65536) len_mask)
        (if mark.truncated then len_flag_truncated else 0) in
    record r {
      buf =
          take mark.start r.buf
          ++ (head % 256 ∷ head / 256 % 256 ∷ drop (mark.start + header) r.buf);
      writing = false;
    }
