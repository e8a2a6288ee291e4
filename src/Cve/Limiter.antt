-- ===== src/Cve/Limiter.antt =====
-- cve/rate_limiter.py: the sliding window of requests. The waits are left to the caller: each turn of
-- the loop in `acquire` has the reading of the cancel event and of the clock, which never goes back.
pub mod Queue
pub mod Waiting
pub mod Window
use collector_security_analy.Common.{
  ℕ, ◌+◌, ◌-◌, max, Bool, true, false, Option, none, some, List, [], ◌∷◌, ◌++◌, leb, ltb, length,
  if◌then◌else◌,
}

-- `SlidingWindowRateLimiter`; the timestamps are a queue, the oldest first.
pub record Limiter : Type 0 where
  pub requests : ℕ
  pub window : ℕ
  pub timestamps : List ℕ

-- `__init__`; the window is at least one second, in microseconds.
abbrev pub new_limiter : ℕ → ℕ → Limiter
new_limiter requests window = record {
  requests = max 1 requests;
  window = max 1_000_000 window;
  timestamps = [];
}

-- `_drop_expired`
unfoldable pub drop_expired : ℕ → ℕ → List ℕ → List ℕ
drop_expired window now [] = []
drop_expired window now (t ∷ ts) =
    let rest = drop_expired window now ts in if leb (t + window) now then rest else t ∷ ts

-- `self._timestamps[0]`
abbrev pub oldest : List ℕ → ℕ → ℕ
oldest [] now = now
oldest (t ∷ ts) now = t

-- What one turn of the loop does: it returns, or it waits for some time.
pub data Turn : Type 0 where
  granted : Turn
  wait : ℕ → Turn

-- The locked part of `acquire`
unfoldable pub attempt : ℕ → Limiter → Turn × Limiter
unfolding drop_expired
attempt now l =
    let ts = drop_expired l.window now l.timestamps in
    if ltb (length ts) l.requests
    then (granted, record l { timestamps = ts ++ now ∷ [] })
    else (wait ((oldest ts now + l.window) - now), record l { timestamps = ts })

-- How a call of `acquire` ends: at a time, cancelled, or not yet, after these readings.
pub data Outcome : Type 0 where
  acquired : ℕ → Outcome
  cancelled waiting : Outcome

-- `acquire`
unfoldable pub acquire : List (Bool × ℕ) → Limiter → Outcome × Limiter
unfolding attempt
acquire [] l = (waiting, l)
acquire ((true, now) ∷ rs) l = (cancelled, l)
acquire ((false, now) ∷ rs) l =
    let (turn, k) = attempt now l in
    elim turn [ granted ↦ (acquired now, k) | wait n ↦ acquire rs k ]
