-- ===== src/Log/Ring/Limited.antt =====
-- Draining within a limit.
use hc32f460jeua_evb.Base.{ℕ, ◌≤◌, ◌≡◌, List, [], ◌++◌, ltb, if◌then◌else◌, length}
use hc32f460jeua_evb.Base.Text.{Bytes}
use hc32f460jeua_evb.Log.Ring.{LogRing}
use hc32f460jeua_evb.Log.Ring.Entries.{Entry}
use hc32f460jeua_evb.Log.Ring.Begin.{Holds}
use hc32f460jeua_evb.Log.Ring.Digits.{drop_marker}
use hc32f460jeua_evb.Log.Ring.Drained.{drained}

-- Text and entries of a whole call: the line about lost entries comes first, and if it does not fit nothing
-- is taken.
unfoldable pub drained_marked : ℕ → ℕ → List Entry → Bytes × List Entry
drained_marked limit dropped es =
    let marker = drop_marker dropped in
    let rest = drained limit (length marker) es in
    if ltb limit (length marker) then ([], es) else (marker ++ rest.0, rest.1)

-- What a call of `drain_locked_limited` gives.
pub record Drains (out : Bytes) (limit : ℕ) (r : LogRing) (es : List Entry) (n : ℕ) (out' : Bytes)
    (r' : LogRing) : Type 0 where
  pub text : out' ≡ out ++ (drained_marked limit r.dropped es).0
  pub copied : n ≡ length (drained_marked limit r.dropped es).0
  pub within : n ≤ limit
  pub left : Holds r' (drained_marked limit r.dropped es).1
  pub told : r'.dropped ≡ (if ltb limit (length (drop_marker r.dropped)) then r.dropped else 0)
