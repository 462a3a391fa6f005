-- ===== src/Providers/TdxRateLimit.antt =====
-- backend/providers/tdx_rate_limit.py: the sliding-window limiter that every user of one TDX key
-- shares. An instant or a span of the `float` clock is a whole number of ticks.
mod Pruned
mod Outcomes
pub mod Trace
pub mod Window
pub mod Acquire
use taigi_agent.Prelude.{
  ℕ, zero, suc, ◌+◌, ◌-◌, ◌*◌, ◌/◌, max, Bool, true, false, Option, none, some, List, [], ◌∷◌, ◌++◌,
  length, get_elem?, ltb, leb, ◌==◌, if◌then◌else◌,
}

pub record RateLimit : Type 0 where
  pub requests : ℕ
  pub per : ℕ

-- `requests - ceil(requests * 0.4)`, and at least 1; the factor is read as the rational 2/5.
unfoldable pub background_requests : RateLimit → ℕ
background_requests l = max 1 (l.requests - (2 * l.requests + 4) / 5)

-- `sent` is the deque, its left end first.
pub record Limiter : Type 0 where
  pub limit : RateLimit
  pub sent : List ℕ
  pub paused_until : ℕ

unfoldable pub new : RateLimit → Limiter
new l = record { limit = l; sent = []; paused_until = 0 }

-- The `popleft` loop. `t <= now - per` is written without a subtraction.
unfoldable pub prune : ℕ → ℕ → List ℕ → List ℕ
prune per now [] = []
prune per now (t ∷ ts) = if leb (t + per) now then prune per now ts else t ∷ ts

-- Whether a budget is in effect decides which share of the window a caller may use.
unfoldable pub share : RateLimit → Option ℕ → ℕ
unfolding background_requests
share l none = background_requests l
share l (some b) = l.requests

get_or_zero : Option ℕ → ℕ
get_or_zero none = 0
get_or_zero (some t) = t

-- The branch of `_try_take` behind the pause: take a slot, or say when one opens.
unfoldable pub take_slot : Limiter → ℕ → ℕ → Limiter × ℕ
unfolding get_or_zero
take_slot s now cap =
    if ltb (length s.sent) cap
    then (record s { sent = s.sent ++ now ∷ [] }, 0)
    else (s, get_or_zero (get_elem? s.sent (length s.sent - cap)) + s.limit.per - now)

-- `_try_take`, at the instant `now` and under the caller's budget: the state left and the wait.
unfoldable pub try_take : Limiter → ℕ → Option ℕ → Limiter × ℕ
unfolding prune share take_slot
try_take s now budget =
    let s' = record s { sent = prune s.limit.per now s.sent } in
    if ltb now s.paused_until
    then (s', s.paused_until - now)
    else take_slot s' now (share s.limit budget)

-- `penalize`, `seconds` after `max(0.0, seconds)`.
unfoldable pub penalize : Limiter → ℕ → ℕ → Limiter
penalize s now seconds = record s { paused_until = max s.paused_until (now + seconds) }

pub data Acquired : Type 0 where
  granted : Limiter → ℕ → Acquired
  budget_exceeded : Limiter → ℕ → Acquired
  still_waiting : Acquired

-- `remaining_budget()` at `now`, from the deadline of the context.
unfoldable pub remaining : Option ℕ → ℕ → Option ℕ
remaining none now = none
remaining (some deadline) now = some (deadline - now)

unfoldable pub over_budget : ℕ → Option ℕ → Bool
over_budget wait none = false
over_budget wait (some b) = ltb b wait

-- `acquire`. Each sleep ends `lag` ticks late; the lags of the sleeps are the list, and its end
-- stands for a caller that is still waiting.
unfoldable pub acquire : List ℕ → Limiter → ℕ → Option ℕ → Acquired
unfolding try_take remaining over_budget
acquire [] s now deadline = still_waiting
acquire (lag ∷ lags) s now deadline =
    let (s', wait) = try_take s now (remaining deadline now) in
    let later = acquire lags s' (now + wait + lag) deadline in
    if wait == 0
    then granted s' now
    else if over_budget wait (remaining deadline now)
    then budget_exceeded s' now
    else later
