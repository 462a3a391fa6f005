-- ===== src/Providers/TdxRateLimit/Outcomes.antt =====
-- The three ends of `_try_take` of backend/providers/tdx_rate_limit.py: paused, taken, full.
use taigi_agent.Prelude.{
  ℕ, ◌+◌, ◌-◌, ◌≤◌, ◌<◌, ◌≡◌, Option, none, some, [], ◌∷◌, ◌++◌, arith, length, get_elem?, ltb,
  Bool-cases, inl, inr,
}
use taigi_agent.Providers.TdxRateLimit.{RateLimit, Limiter, prune, share, try_take}
use taigi_agent.Providers.TdxRateLimit.Pruned.{Sorted, All-get_elem?, prune-fresh}

-- The limiter with only the instants of the current window.
abbrev pub refreshed : Limiter → ℕ → Limiter
refreshed s now = record s { sent = prune s.limit.per now s.sent }

-- The limiter that has sent a request.
abbrev pub advanced : Limiter → ℕ → Limiter
advanced s now = record s { sent = prune s.limit.per now s.sent ++ now ∷ [] }

pub data Outcome (s : Limiter) (now : ℕ) (budget : Option ℕ) : Type 0 where
  paused :
      now < s.paused_until
      → try_take s now budget ≡ (refreshed s now, s.paused_until - now)
      → Outcome s now budget
  taken :
      s.paused_until ≤ now
      → length (prune s.limit.per now s.sent) < share s.limit budget
      → try_take s now budget ≡ (advanced s now, 0)
      → Outcome s now budget
  full :
      (a : ℕ)
      → s.paused_until ≤ now
      → share s.limit budget ≤ length (prune s.limit.per now s.sent)
      → get_elem?
          (prune s.limit.per now s.sent)
          (length (prune s.limit.per now s.sent) - share s.limit budget)
        ≡ some a
      → now < a + s.limit.per
      → try_take s now budget ≡ (refreshed s now, a + s.limit.per - now)
      → Outcome s now budget

pub share_pos : (l : RateLimit) (b : Option ℕ) → 0 < l.requests → 0 < share l b
unfolding share
share_pos l none h = omega arith
share_pos l (some b) h = h

pub share-le : (l : RateLimit) (b : Option ℕ) → 0 < l.requests → share l b ≤ l.requests
unfolding share
share-le l none h = omega arith
share-le l (some b) h = omega arith

full_slot :
    (s : Limiter) (now : ℕ) (budget : Option ℕ)
    → Sorted s.sent
    → 0 < share s.limit budget
    → s.paused_until ≤ now
    → share s.limit budget ≤ length (prune s.limit.per now s.sent)
    → Outcome s now budget
full_slot s now budget sorted pos due many =
    let live = prune s.limit.per now s.sent in
    let (a, at, fresh) =
      All-get_elem? (λ t. now < t + s.limit.per) live (length live - share s.limit budget)
        (omega arith) (prune-fresh s.limit.per now s.sent sorted) in
    full a due many at fresh (unfold try_take in ground (arith, at))

pub try_take-Outcome :
    (s : Limiter) (now : ℕ) (budget : Option ℕ)
    → Sorted s.sent
    → 0 < share s.limit budget
    → Outcome s now budget
try_take-Outcome s now budget sorted pos = elim (Bool-cases (ltb now s.paused_until)) [
  | inl e ↦ paused (ground arith) (unfold try_take in rw e)
  | inr e ↦ elim (Bool-cases (ltb (length (prune s.limit.per now s.sent)) (share s.limit budget))) [
    | inl f ↦ taken (ground arith) (ground arith) (unfold try_take in rw (e, f))
    | inr f ↦ full_slot s now budget sorted pos (ground arith) (ground arith)
  ]
]
