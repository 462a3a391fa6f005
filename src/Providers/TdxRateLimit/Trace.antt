-- ===== src/Providers/TdxRateLimit/Trace.antt =====
-- Runs of the calls of the limiter in backend/providers/tdx_rate_limit.py, and what they sent in a
-- window.
use taigi_agent.Prelude.{
  ℕ, ◌+◌, ◌≤◌, ◌<◌, ◌≡◌, refl, Bool, ◌&&◌, Option, none, some, List, [], ◌∷◌, ◌++◌, arith, length,
  tally, All, tally-append, tally-le-length, ltb, leb, ◌==◌, if◌then◌else◌,
}
use taigi_agent.Providers.TdxRateLimit.{RateLimit, Limiter, new, try_take, penalize}

-- One call on the limiter: what it is, and how long after the call before it.
pub data Call : Type 0 where
  attempt : ℕ → Option ℕ → Call
  penalty : ℕ → ℕ → Call

-- The limiter with the instants of all requests that it ever let through, the oldest first, and
-- those of them that background callers sent.
pub record Trace : Type 0 where
  pub limiter : Limiter
  pub now : ℕ
  pub grants : List ℕ
  pub background : List ℕ

-- The instants after a call that waits for `wait` ticks.
abbrev pub log_grant : ℕ → ℕ → List ℕ → List ℕ
log_grant wait now ts = if wait == 0 then ts ++ now ∷ [] else ts

abbrev pub log_background : Option ℕ → ℕ → ℕ → List ℕ → List ℕ
log_background none wait now ts = log_grant wait now ts
log_background (some b) wait now ts = ts

-- One call, at its own instant. A wait of 0 is a request that goes out.
unfoldable pub play_call : Trace → Call → Trace
play_call t (attempt d budget) =
    let (s, wait) = try_take t.limiter (t.now + d) budget in
    record {
      limiter = s;
      now = t.now + d;
      grants = log_grant wait (t.now + d) t.grants;
      background = log_background budget wait (t.now + d) t.background;
    }
play_call t (penalty d seconds) = record t {
  limiter = penalize t.limiter (t.now + d) seconds;
  now = t.now + d;
}

unfoldable pub play : Trace → List Call → Trace
unfolding play_call
play t [] = t
play t (c ∷ cs) = play (play_call t c) cs

unfoldable pub start : RateLimit → Trace
start l = record { limiter = new l; now = 0; grants = []; background = [] }

-- Whether an instant lies in the window of length `per` that begins at `x`.
abbrev pub in_window : ℕ → ℕ → ℕ → Bool
in_window per x t = leb x t && ltb t (x + per)

-- The requests of a list of instants that went out in the window.
abbrev pub sent_in : ℕ → ℕ → List ℕ → ℕ
sent_in per x = tally (in_window per x)

-- Nothing that has left the window before `now` is in a window that reaches `now`.
pub sent_in-gone :
    (per now x : ℕ) (ts : List ℕ)
    → now < x + per
    → All (λ o. o + per ≤ now) ts
    → sent_in per x ts ≡ 0
sent_in-gone per now x [] h g = refl
sent_in-gone per now x (t ∷ ts) h g = ground (arith, sent_in-gone per now x ts h g.1)

-- A request at `now` on top of a pruned deque: no window that reaches `now` holds more than the
-- deque does.
pub sent_in-grant :
    (per now x cap : ℕ) (gone live : List ℕ)
    → All (λ o. o + per ≤ now) gone
    → length live < cap
    → now < x + per
    → sent_in per x ((gone ++ live) ++ now ∷ []) ≤ cap
sent_in-grant per now x cap gone live g short reach = omega (
  arith,
  tally-append (in_window per x) (gone ++ live) (now ∷ []),
  tally-append (in_window per x) gone live,
  sent_in-gone per now x gone reach g,
  tally-le-length (in_window per x) live,
  tally-le-length (in_window per x) (now ∷ []),
)

-- A request at an instant outside the window leaves its count alone.
pub sent_in-miss :
    (per now x : ℕ) (ts : List ℕ)
    → x + per ≤ now
    → sent_in per x (ts ++ now ∷ []) ≡ sent_in per x ts
sent_in-miss per now x ts h = ground (arith, tally-append (in_window per x) ts (now ∷ []))
