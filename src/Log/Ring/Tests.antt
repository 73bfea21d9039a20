-- ===== src/Log/Ring/Tests.antt =====
-- The buffer of src/logring.rs at concrete inputs, those of its tests among them.
use hc32f460jeua_evb.Base.{
  Option, ◌≡◌, refl, Bool, true, false, some, List, [], ◌∷◌, ◌++◌, arith, length, replicate,
}
use hc32f460jeua_evb.Base.Text.{Bytes, codes}
use hc32f460jeua_evb.Log.Ring.{
  LogRing, EntryMark, new, header_at, entry_len_at, entry_truncated_at, begin_entry,
  append_to_entry, commit_entry, drop_marker_prefix, drop_marker_suffix,
}
use hc32f460jeua_evb.Log.Ring.Entries.{Entry, encode}
use hc32f460jeua_evb.Log.Ring.Append.{append_to_entry-Appended}
use hc32f460jeua_evb.Log.Ring.Building.{Appended, Building}
use hc32f460jeua_evb.Log.Ring.Begin.{Holds, Began, begin_entry-Begun, commit_entry-Holds}
use hc32f460jeua_evb.Log.Ring.Drain.{
  digits, digits_loop, push_usize, push_loop, is_empty, bytes_pending, is_writing, emit_drop_marker,
  drain_loop, drain_locked_limited, drain_into, drain_into_limited, drain_oldest_entry,
}

-- Two entries of four bytes in a buffer of 16
abbrev two_entries : LogRing
two_entries = record {
  buf = 4 ∷ 0 ∷ codes "aaaa" ++ 4 ∷ 0 ∷ codes "bbbb" ++ replicate 4 0;
  head = 0;
  len = 12;
  writing = false;
  dropped = 0;
}

abbrev entry_of : Bytes → Entry
entry_of content = record { content = content; truncated = false }

abbrev both : List Entry
both = entry_of (codes "aaaa") ∷ entry_of (codes "bbbb") ∷ []

two_entries-Holds : Holds two_entries both
unfolding encode
two_entries-Holds = record {
  spells = record { front = []; rest = replicate 4 0; split = refl; at_head = refl; sized = refl };
  entries = omega arith;
  small = omega arith;
}

new-Holds : Holds (new 16) []
unfolding new encode
new-Holds = record {
  spells = record { front = []; rest = replicate 16 0; split = refl; at_head = refl; sized = refl };
  entries = tt;
  small = omega arith;
}

starts_empty :
    (is_empty (new 16) ≡ true) × (bytes_pending (new 16) ≡ 0) × (is_writing (new 16) ≡ false)
unfolding new is_empty bytes_pending is_writing
starts_empty = (refl, refl, refl)

begin_entry-Begun_example :
    (result : Option EntryMark) × (r' : LogRing) × (begin_entry two_entries ≡ some (result, r'))
    × Began two_entries both result r'
begin_entry-Begun_example = begin_entry-Begun two_entries both two_entries-Holds

-- The third entry under construction
abbrev begun : LogRing
begun = record two_entries { len = 14; writing = true }

abbrev third : EntryMark
third = record { start = 12; len = 0; truncated = false }

begun-Building : Building begun both [] third
unfolding encode
begun-Building = record {
  lo = 0;
  hi = 0;
  spells = record { front = []; rest = replicate 2 0; split = refl; at_head = refl; sized = refl };
  entries = omega arith;
  start = refl;
  len = refl;
}

append_to_entry-Appended_example :
    (b : Bool) × (m' : EntryMark) × (r' : LogRing) × (append_to_entry third (codes "cccc") begun
      ≡ some (b, m', r'))
    × Appended (length begun.buf) begun both [] (codes "cccc") third b m' r'
append_to_entry-Appended_example =
    append_to_entry-Appended begun both [] (codes "cccc") third begun-Building

commit_entry-Holds_example :
    Holds (commit_entry third begun) (both ++ record { content = []; truncated = false } ∷ [])
    × ((commit_entry third begun).writing ≡ false)
    × ((commit_entry third begun).dropped ≡ begun.dropped)
commit_entry-Holds_example = commit_entry-Holds begun both [] third begun-Building (omega arith)

-- The second entry of the buffer is taken with the first one.
all_taken :
    (r : LogRing) × (drain_into [] two_entries
      ≡ some (10, codes "aaaa" ++ b'\n' ∷ codes "bbbb" ++ b'\n' ∷ [], r))
unfolding drain_into drain_locked_limited emit_drop_marker drain_loop entry_len_at
    entry_truncated_at header_at
all_taken = (_, refl)

-- The first line has five bytes, but a limit of five takes nothing: the loop counts the header of the entry.
exact_limit : drain_into_limited [] 5 two_entries ≡ some (0, [], two_entries)
unfolding drain_into_limited drain_locked_limited emit_drop_marker drain_loop entry_len_at
    entry_truncated_at header_at
exact_limit = refl

oldest_taken : (drain_oldest_entry [] two_entries).1 ≡ codes "aaaa" ++ b'\n' ∷ []
unfolding drain_oldest_entry emit_drop_marker entry_len_at entry_truncated_at header_at
oldest_taken = refl

told :
    (emit_drop_marker [] (record two_entries { dropped = 12 })).1
    ≡ drop_marker_prefix ++ codes "12" ++ drop_marker_suffix
unfolding emit_drop_marker push_usize push_loop
told = refl

counted : digits 1234 ≡ 4
unfolding digits digits_loop
counted = refl
