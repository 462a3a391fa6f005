-- ===== src/Api/RequestLimits.antt =====
-- backend/api/request_limits.py, `RateLimit`: a token bucket for each client, in an OrderedDict that
-- is bounded. Time is in ticks. A token is `per` units, so that the refill of one tick is the whole
-- number `requests`, and the source's fractions are exact. `ReclaimingAsyncLock` makes a call atomic.
pub mod Bounds
pub mod Budget
pub mod Retry
use taigi_agent.Prelude.{
  ℕ, ◌+◌, ◌-◌, ◌*◌, ◌/◌, min, max, Bool, true, false, not, Option, none, some, List, [], ◌∷◌, ◌++◌,
  length, keep, ltb, leb, if◌then◌else◌, Text,
}
use taigi_agent.Prelude.Table.{Table, find, without, store}

-- `requests` in `per` ticks; `second` is the ticks of a second.
pub record Rate : Type 0 where
  pub requests : ℕ
  pub per : ℕ
  pub second : ℕ

pub record Bucket : Type 0 where
  pub tokens : ℕ
  pub updated_at : ℕ

-- The OrderedDict, its least recent entry first.
abbrev pub Buckets : Type 0
Buckets = Table Bucket

abbrev pub max_clients : ℕ
max_clients = 2048

abbrev pub stale_client_seconds : ℕ
stale_client_seconds = 600

abbrev pub capacity : Rate → ℕ
capacity r = r.requests * r.per

-- Python's difference of two instants may be negative, and is then not greater than a span.
unfoldable pub is_stale : Rate → ℕ → Text × Bucket → Bool
is_stale r now (k, b) = ltb (stale_client_seconds * r.second) (now - b.updated_at)

-- The loop of `popitem(last=False)`.
unfoldable pub evict : Buckets → Buckets
evict [] = []
evict (e ∷ m) = if leb max_clients (length (e ∷ m)) then evict m else e ∷ m

-- `_prune`
unfoldable pub prune : Rate → ℕ → Buckets → Buckets
unfolding is_stale evict
prune r now m =
    if ltb (length m) max_clients then m else evict (keep (λ e. not (is_stale r now e)) m)

-- The bucket of a client at `now`: a full one, or its own with the refill.
unfoldable pub refill : Rate → ℕ → Option Bucket → Bucket
refill r now none = record { tokens = capacity r; updated_at = now }
refill r now (some b) = record {
  tokens = min (capacity r) (b.tokens + (now - b.updated_at) * r.requests);
  updated_at = now;
}

-- `int((1.0 - tokens) / refill_per_second) + 1`, and at least 1.
unfoldable pub retry_after : Rate → Bucket → ℕ
retry_after r b = max 1 ((r.per - b.tokens) / (r.requests * r.second) + 1)

pub data Verdict : Type 0 where
  admitted : Verdict
  too_many : ℕ → Verdict

-- The bucket has its refill. What is left of it, and the answer.
unfoldable pub spend : Rate → Bucket → Bucket × Verdict
unfolding retry_after
spend r b =
    if ltb b.tokens r.per
    then (b, too_many (retry_after r b))
    else (record b { tokens = b.tokens - r.per }, admitted)

-- `__call__`, for a request of `client` at `now`; `enabled` is the switch RATE_LIMIT_ENABLED.
unfoldable pub call : Rate → Bool → Buckets → Text → ℕ → Buckets × Verdict
unfolding prune find refill spend store
call r false m client now = (m, admitted)
call r true m client now =
    let kept = prune r now m in
    let (b, answer) = spend r (refill r now (find client kept)) in (store client b kept, answer)
