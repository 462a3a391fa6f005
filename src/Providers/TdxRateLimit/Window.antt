-- ===== src/Providers/TdxRateLimit/Window.antt =====
-- The promise of the limiter of backend/providers/tdx_rate_limit.py over any run of its calls.
use taigi_agent.Prelude.{
  ℕ, ◌+◌, ◌≤◌, ◌<◌, ◌≡◌, refl, false, Option, none, some, List, [], ◌∷◌, ◌++◌, arith, length, All,
  All-append, All-map, tally-append, append_assoc, Bool-cases, inl, inr, ltb, ◌==◌,
}
use taigi_agent.Providers.TdxRateLimit.{
  RateLimit, background_requests, new, prune, share, try_take, penalize,
}
use taigi_agent.Providers.TdxRateLimit.Pruned.{
  Sorted, Sorted-prune, Sorted-append_one, All-prune, pruned, pruned-append-prune, pruned-All,
}
use taigi_agent.Providers.TdxRateLimit.Outcomes.{
  refreshed, advanced, paused, taken, full, try_take-Outcome, share_pos, share-le,
}
use taigi_agent.Providers.TdxRateLimit.Trace.{
  Call, attempt, penalty, Trace, log_background, play_call, play, start, in_window, sent_in,
  sent_in-grant, sent_in-miss,
}

-- What a run keeps: the deque ends the history, and all before it has left the window.
record Tracks (l : RateLimit) (t : Trace) : Type 0 where
  limit : t.limiter.limit ≡ l
  dropped : List ℕ
  history : t.grants ≡ dropped ++ t.limiter.sent
  gone : All (λ o. o + l.per ≤ t.now) dropped
  sorted : Sorted t.limiter.sent
  past : All (λ o. o ≤ t.now) t.limiter.sent
  window : (x : ℕ) → sent_in l.per x t.grants ≤ l.requests
  subset : (x : ℕ) → sent_in l.per x t.background ≤ sent_in l.per x t.grants
  reserve : (x : ℕ) → sent_in l.per x t.background ≤ background_requests l

module _ (l : RateLimit) (some_requests : 0 < l.requests) {t : Trace} (k : Tracks l t) (d : ℕ) where
  abbrev live : List ℕ
  live = prune l.per (t.now + d) t.limiter.sent

  abbrev left : List ℕ
  left = k.dropped ++ pruned l.per (t.now + d) t.limiter.sent

  resplit : t.grants ≡ left ++ live
  resplit = rw (k.history, append_assoc, pruned-append-prune l.per (t.now + d) t.limiter.sent)

  left-gone : All (λ o. o + l.per ≤ t.now + d) left
  left-gone =
      All-append _ k.dropped _ (All-map _ _ (λ o h. omega arith) k.dropped k.gone)
        (pruned-All l.per (t.now + d) t.limiter.sent)

  live-past : All (λ o. o ≤ t.now + d) live
  live-past =
      All-prune l.per (t.now + d) _ t.limiter.sent
        (All-map _ _ (λ o h. omega arith) t.limiter.sent k.past)

  -- A call that gets no slot prunes the deque and changes nothing else.
  Tracks-refreshed :
      Tracks l (record t { limiter = refreshed t.limiter (t.now + d); now = t.now + d })
  Tracks-refreshed = rw k.limit (record {
    limit = refl;
    dropped = left;
    history = resplit;
    gone = left-gone;
    sorted = Sorted-prune l.per (t.now + d) t.limiter.sent k.sorted;
    past = live-past;
    window = k.window;
    subset = k.subset;
    reserve = k.reserve;
  })

  -- A window that reaches a new request holds at most the share that let it through.
  grant-le :
      (cap x : ℕ)
      → length live < cap
      → t.now + d < x + l.per
      → sent_in l.per x (t.grants ++ (t.now + d) ∷ []) ≤ cap
  grant-le cap x short reach =
      rw resplit (sent_in-grant l.per (t.now + d) x cap left live left-gone short reach)

  window-grant :
      (cap x : ℕ)
      → length live < cap
      → cap ≤ l.requests
      → sent_in l.per x (t.grants ++ (t.now + d) ∷ []) ≤ l.requests
  window-grant cap x short fits = elim (Bool-cases (ltb (t.now + d) (x + l.per))) [
    | inl e ↦
        let reach : t.now + d < x + l.per = ground arith in
        omega (arith, grant-le cap x short reach)
    | inr e ↦
        let miss : x + l.per ≤ t.now + d = ground arith in
        rw (sent_in-miss l.per (t.now + d) x t.grants miss) (k.window x)
  ]

  subset-grant :
      (x : ℕ)
      → sent_in l.per x (t.background ++ (t.now + d) ∷ [])
        ≤ sent_in l.per x (t.grants ++ (t.now + d) ∷ [])
  subset-grant x = omega (
    arith,
    tally-append (in_window l.per x) t.background ((t.now + d) ∷ []),
    tally-append (in_window l.per x) t.grants ((t.now + d) ∷ []),
    k.subset x,
  )

  subset-interactive :
      (x : ℕ) → sent_in l.per x t.background ≤ sent_in l.per x (t.grants ++ (t.now + d) ∷ [])
  subset-interactive x =
      omega (arith, tally-append (in_window l.per x) t.grants ((t.now + d) ∷ []), k.subset x)

  reserve-grant :
      length live < background_requests l
      → (x : ℕ) → sent_in l.per x (t.background ++ (t.now + d) ∷ []) ≤ background_requests l
  reserve-grant short x = elim (Bool-cases (ltb (t.now + d) (x + l.per))) [
    | inl e ↦
        let reach : t.now + d < x + l.per = ground arith in
        omega (arith, subset-grant x, grant-le (background_requests l) x short reach)
    | inr e ↦
        let miss : x + l.per ≤ t.now + d = ground arith in
        rw (sent_in-miss l.per (t.now + d) x t.background miss) (k.reserve x)
  ]

  after_grant : Option ℕ → Trace
  after_grant budget = record {
    limiter = advanced t.limiter (t.now + d);
    now = t.now + d;
    grants = t.grants ++ (t.now + d) ∷ [];
    background = log_background budget 0 (t.now + d) t.background;
  }

  -- A call that gets a slot.
  Tracks-advanced :
      (budget : Option ℕ) → length live < share l budget → Tracks l (after_grant budget)
  unfolding after_grant share
  Tracks-advanced none short = rw k.limit (record {
    limit = refl;
    dropped = left;
    history = rw (resplit, append_assoc);
    gone = left-gone;
    sorted =
        Sorted-append_one live (t.now + d) (Sorted-prune l.per (t.now + d) t.limiter.sent k.sorted)
          live-past;
    past = All-append _ live _ live-past (omega arith, tt);
    window = λ x. window-grant _ x short (share-le l none some_requests);
    subset = subset-grant;
    reserve = reserve-grant short;
  })
  Tracks-advanced (some b) short = rw k.limit (record {
    limit = refl;
    dropped = left;
    history = rw (resplit, append_assoc);
    gone = left-gone;
    sorted =
        Sorted-append_one live (t.now + d) (Sorted-prune l.per (t.now + d) t.limiter.sent k.sorted)
          live-past;
    past = All-append _ live _ live-past (omega arith, tt);
    window = λ x. window-grant _ x short (share-le l (some b) some_requests);
    subset = subset-interactive;
    reserve = k.reserve;
  })

  log_background-wait :
      (budget : Option ℕ) (wait : ℕ)
      → 0 < wait
      → log_background budget wait (t.now + d) t.background ≡ t.background
  log_background-wait none wait h = ground arith
  log_background-wait (some b) wait h = refl

  -- A call whose wait is not 0.
  Tracks-waiting :
      (budget : Option ℕ) (wait : ℕ)
      → 0 < wait
      → try_take t.limiter (t.now + d) budget ≡ (refreshed t.limiter (t.now + d), wait)
      → Tracks l (play_call t (attempt d budget))
  unfolding play_call
  Tracks-waiting budget wait pos e =
      let none_sent : (wait == 0) ≡ false = ground arith in
      rw (e, none_sent, log_background-wait budget wait pos) Tracks-refreshed

  Tracks-taken :
      (budget : Option ℕ)
      → length (prune t.limiter.limit.per (t.now + d) t.limiter.sent) < share t.limiter.limit budget
      → try_take t.limiter (t.now + d) budget ≡ (advanced t.limiter (t.now + d), 0)
      → Tracks l (play_call t (attempt d budget))
  unfolding play_call after_grant
  Tracks-taken budget short e = rw e (Tracks-advanced budget (rw (← k.limit) short))

  Tracks-attempt : (budget : Option ℕ) → Tracks l (play_call t (attempt d budget))
  Tracks-attempt budget =
      elim (try_take-Outcome t.limiter (t.now + d) budget k.sorted
        (rw k.limit (share_pos l budget some_requests))) [
          | paused wait e ↦ Tracks-waiting budget _ (omega arith) e
          | taken due short e ↦ Tracks-taken budget short e
          | full a due many at fresh e ↦ Tracks-waiting budget _ (omega arith) e
        ]

  Tracks-penalty : (seconds : ℕ) → Tracks l (play_call t (penalty d seconds))
  unfolding play_call penalize
  Tracks-penalty seconds = record {
    limit = k.limit;
    dropped = k.dropped;
    history = k.history;
    gone = All-map _ _ (λ o h. omega arith) k.dropped k.gone;
    sorted = k.sorted;
    past = All-map _ _ (λ o h. omega arith) t.limiter.sent k.past;
    window = k.window;
    subset = k.subset;
    reserve = k.reserve;
  }

module _ (l : RateLimit) (some_requests : 0 < l.requests) where
  Tracks-call : {t : Trace} (c : Call) → Tracks l t → Tracks l (play_call t c)
  Tracks-call (attempt d budget) k = Tracks-attempt l some_requests k d budget
  Tracks-call (penalty d seconds) k = Tracks-penalty l some_requests k d seconds

  Tracks-play : (cs : List Call) {t : Trace} → Tracks l t → Tracks l (play t cs)
  unfolding play
  Tracks-play [] k = k
  Tracks-play (c ∷ cs) k = Tracks-play cs (Tracks-call c k)

  Tracks-start : Tracks l (start l)
  unfolding start new
  Tracks-start = record {
    limit = refl;
    dropped = [];
    history = refl;
    gone = tt;
    sorted = tt;
    past = tt;
    window = λ x. omega arith;
    subset = λ x. omega arith;
    reserve = λ x. omega arith;
  }

  -- However callers, budgets and penalties are interleaved, no window of the limit's length holds
  -- more requests than the limit allows, and the background requests among them leave the
  -- reserve free. The limit allows at least one request.
  pub play_window :
      (cs : List Call) (x : ℕ)
      → (sent_in l.per x (play (start l) cs).grants ≤ l.requests)
        × (sent_in l.per x (play (start l) cs).background ≤ background_requests l)
  play_window cs x = let k = Tracks-play cs Tracks-start in (k.window x, k.reserve x)
