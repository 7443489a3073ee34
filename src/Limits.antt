-- ===== src/Limits.antt =====
-- core/rate_limit.py, class StrictSlidingWindowLimiter. A time is a number of ticks of the monotonic
-- clock, and the window is as many ticks long; `t <= now - window` is written `t + window <= now`.
-- One attempt is what runs under the lock.
pub mod Window
mod Examples
use claude_unbound.Prelude.{
  ℕ, ◌+◌, ◌-◌, Bool, Option, none, some, List, [], ◌∷◌, ◌++◌, leb, ltb, length, if◌then◌else◌,
}

pub record Limiter : Type 0 where
  pub rate_limit : ℕ
  pub rate_window : ℕ
  pub times : List ℕ

-- `none` is the `ValueError`.
unfoldable pub new_limiter : ℕ → ℕ → Option Limiter
new_limiter rate_limit rate_window =
    if leb rate_limit 0
    then none
    else if leb rate_window 0
    then none
    else some (record { rate_limit = rate_limit; rate_window = rate_window; times = [] })

-- The loop that takes the expired times off the left end.
unfoldable pub expire : ℕ → ℕ → List ℕ → List ℕ
expire window now [] = []
expire window now (t ∷ ts) =
    let rest = expire window now ts in if leb (t + window) now then rest else t ∷ ts

-- The time to wait: none of it if the first time is gone meanwhile.
unfoldable pub wait_time : ℕ → ℕ → List ℕ → ℕ
wait_time window now [] = 0
wait_time window now (oldest ∷ ts) = (oldest + window) - now

-- One round of `acquire`: `none` if it is acquired, else the time to sleep before the next round.
unfoldable pub attempt : ℕ → Limiter → Limiter × Option ℕ
attempt now l =
    let kept = expire l.rate_window now l.times in
    if ltb (length kept) l.rate_limit
    then (record l { times = kept ++ now ∷ [] }, none)
    else (record l { times = kept }, some (wait_time l.rate_window now kept))
