-- ===== src/Providers/TdxRateLimit/Acquire.antt =====
-- `acquire` of backend/providers/tdx_rate_limit.py: it ends, and within the budget.
use taigi_agent.Prelude.{
  ℕ, zero, suc, ◌+◌, ◌-◌, ◌≤◌, ◌<◌, ◌≡◌, ◌≢◌, refl, true, false, Option, none, some, List, [], ◌∷◌,
  arith, length, get_elem?, ◌==◌, if◌then◌else◌, Bool-cases, inl, inr, ◌⊎◌,
}
use taigi_agent.Providers.TdxRateLimit.{
  RateLimit, Limiter, prune, share, try_take, granted, budget_exceeded, still_waiting, remaining,
  over_budget, acquire,
}
use taigi_agent.Providers.TdxRateLimit.Pruned.{Sorted, Sorted-prune, length-prune-past}
use taigi_agent.Providers.TdxRateLimit.Outcomes.{
  refreshed, paused, taken, full, try_take-Outcome, share_pos,
}

module _ (lag : ℕ) (lags : List ℕ) (s : Limiter) (now : ℕ) (deadline : Option ℕ) where
  -- One round, when the rest of the call ends.
  acquire_round :
      (s' : Limiter) (wait : ℕ)
      → try_take s now (remaining deadline now) ≡ (s', wait)
      → acquire lags s' (now + wait + lag) deadline ≢ still_waiting
      → acquire (lag ∷ lags) s now deadline ≢ still_waiting
  unfolding acquire
  acquire_round s' wait e rest =
      rw e (split (Bool-cases (wait == 0)) (Bool-cases (over_budget wait (remaining deadline now))))
    where
      split :
          ((wait == 0) ≡ true) ⊎ ((wait == 0) ≡ false)
          → (over_budget wait (remaining deadline now) ≡ true)
            ⊎ (over_budget wait (remaining deadline now) ≡ false)
          → (if wait == 0
              then granted s' now
              else if over_budget wait (remaining deadline now)
              then budget_exceeded s' now
              else acquire lags s' (now + wait + lag) deadline)
            ≢ still_waiting
      split (inl a) b = rw a (λ h. cc)
      split (inr a) (inl b) = rw (a, b) (λ h. cc)
      split (inr a) (inr b) = rw (a, b) rest

  acquire_taken :
      (s' : Limiter)
      → try_take s now (remaining deadline now) ≡ (s', 0)
      → acquire (lag ∷ lags) s now deadline ≢ still_waiting
  unfolding acquire
  acquire_taken s' e = rw e (λ h. cc)

-- The share of a call does not change while it waits.
share-remaining :
    (l : RateLimit) (deadline : Option ℕ) (m n : ℕ)
    → share l (remaining deadline m) ≡ share l (remaining deadline n)
unfolding share remaining
share-remaining l none m n = refl
share-remaining l (some d) m n = refl

-- Once the entry that was waited for has left the window, the request goes out.
acquire-after_window :
    (lag : ℕ) (lags : List ℕ) (s : Limiter) (now : ℕ) (deadline : Option ℕ) (a : ℕ)
    → 0 < s.limit.requests
    → Sorted s.sent
    → s.paused_until ≤ now
    → share s.limit (remaining deadline now) ≤ length s.sent
    → get_elem? s.sent (length s.sent - share s.limit (remaining deadline now)) ≡ some a
    → a + s.limit.per ≤ now
    → acquire (lag ∷ lags) s now deadline ≢ still_waiting
acquire-after_window lag lags s now deadline a pos sorted due many at gone =
    let cap = share s.limit (remaining deadline now) in
    let room : length (prune s.limit.per now s.sent) + (length s.sent - cap) < length s.sent =
      length-prune-past s.limit.per now s.sent (length s.sent - cap) a sorted at gone in
    elim (try_take-Outcome s now (remaining deadline now) sorted (share_pos s.limit _ pos)) [
      | paused late e ↦ absurd (omega arith)
      | taken _ short e ↦ acquire_taken lag lags s now deadline _ e
      | full _ _ full_up _ _ e ↦ absurd (omega arith)
    ]

-- Past the pause, one sleep is enough.
acquire-after_pause :
    (lag lag' : ℕ) (lags : List ℕ) (s : Limiter) (now : ℕ) (deadline : Option ℕ)
    → 0 < s.limit.requests
    → Sorted s.sent
    → s.paused_until ≤ now
    → acquire (lag ∷ lag' ∷ lags) s now deadline ≢ still_waiting
acquire-after_pause lag lag' lags s now deadline pos sorted due =
    elim (try_take-Outcome s now (remaining deadline now) sorted (share_pos s.limit _ pos)) [
      | paused late e ↦ absurd (omega arith)
      | taken _ short e ↦ acquire_taken lag (lag' ∷ lags) s now deadline _ e
      | full a _ many at fresh e ↦
          let now' = now + (a + s.limit.per - now) + lag in
          acquire_round lag (lag' ∷ lags) s now deadline _ _ e (
            acquire-after_window lag' lags (refreshed s now) now' deadline a pos
              (Sorted-prune s.limit.per now s.sent sorted) (omega arith)
              (rw (share-remaining s.limit deadline now' now) many)
              (rw (share-remaining s.limit deadline now' now) at) (omega arith))
    ]

-- A caller that is alone on the key sleeps at most twice, however late its sleeps end: its call
-- returns or raises in the third round at the latest. The limit allows a request, and the deque
-- is in order, as every run leaves it.
pub acquire_ends :
    (first second third : ℕ) (lags : List ℕ) (s : Limiter) (now : ℕ) (deadline : Option ℕ)
    → 0 < s.limit.requests
    → Sorted s.sent
    → acquire (first ∷ second ∷ third ∷ lags) s now deadline ≢ still_waiting
acquire_ends first second third lags s now deadline pos sorted =
    let rest = second ∷ third ∷ lags in
    elim (try_take-Outcome s now (remaining deadline now) sorted (share_pos s.limit _ pos)) [
      | paused late e ↦ acquire_round first rest s now deadline _ _ e (
          acquire-after_pause second third lags (refreshed s now) _ deadline pos
            (Sorted-prune s.limit.per now s.sent sorted) (omega arith))
      | taken _ short e ↦ acquire_taken first rest s now deadline _ e
      | full a due many at fresh e ↦ acquire_round first rest s now deadline _ _ e (
          acquire-after_pause second third lags (refreshed s now) _ deadline pos
            (Sorted-prune s.limit.per now s.sent sorted) (omega arith))
    ]

-- Sleeps that end on time.
abbrev pub on_time : ℕ → List ℕ
on_time zero = []
on_time (suc n) = 0 ∷ on_time n

in_budget_round :
    (n : ℕ) (s : Limiter) (now deadline : ℕ) (s' : Limiter) (at wait : ℕ) (next : Limiter)
    → try_take s now (some (deadline - now)) ≡ (next, wait)
    → (acquire (on_time n) next (now + wait + 0) (some deadline) ≡ granted s' at
        → (at ≡ now + wait + 0) ⊎ (at ≤ deadline))
    → acquire (on_time (suc n)) s now (some deadline) ≡ granted s' at
    → (at ≡ now) ⊎ (at ≤ deadline)
unfolding acquire remaining over_budget
in_budget_round n s now deadline s' at wait next e ih h = ground (arith, e)

-- With sleeps that end on time, a request under a budget goes out at once or by its deadline.
pub acquire_in_budget :
    (n : ℕ) (s : Limiter) (now deadline : ℕ) {s' : Limiter} {at : ℕ}
    → acquire (on_time n) s now (some deadline) ≡ granted s' at
    → (at ≡ now) ⊎ (at ≤ deadline)
acquire_in_budget zero s now deadline h = unfold acquire in cc
acquire_in_budget (suc n) s now deadline {s'} {at} h =
    let (next, wait) = try_take s now (some (deadline - now)) in
    in_budget_round n s now deadline s' at wait next refl
      (acquire_in_budget n next (now + wait + 0) deadline) h
