-- ===== src/Providers/TtlCache/Serving.antt =====
-- Where the answers of backend/providers/ttl_cache.py come from.
use taigi_agent.Prelude.{
  ℕ, ◌≡◌, ◌⊎◌, inl, inr, refl, ap, ◌∙◌, false, Option, none, some, arith, Bool-cases, Option-cases,
  Text,
}
use taigi_agent.Prelude.Table.{find}
use taigi_agent.Providers.TtlCache.{
  expired, Terms, Cache, Fetch, Wait, locked, timed_out, Answer, value, fetch_error,
  budget_exceeded, usable, stale_or, fetch_value, fetch_locked, after_wait, get_or_fetch,
}

module _ {ℓ} {V : Type ℓ} where
  -- The value is cached for the key and not expired.
  abbrev pub Cached : Text → Cache V → ℕ → Option ℕ → V → Type ℓ
  Cached key c now ttl v =
      (fetched_at : ℕ) × (find key c.entries ≡ some (fetched_at, v))
      × (expired now fetched_at ttl ≡ false)

  abbrev pub Stale : Terms → Text → Cache V → ℕ → V → Type ℓ
  Stale t key c now v = (s : ℕ) × (t.stale_ttl ≡ some s) × Cached key c now (some s) v

  -- Where a value comes from that is served after the wait for the lock.
  abbrev pub ServedAfter : Terms → Text → Wait V → V → Type ℓ
  ServedAfter t key (locked c now f) v =
      Cached key c now t.ttl v ⊎ (f.result ≡ some v) ⊎ ((f.result ≡ none) × Stale t key c f.now v)
  ServedAfter t key (timed_out c now) v = Stale t key c now v

  usable_cached :
      (now : ℕ) (ttl : Option ℕ) (o : Option (ℕ × V)) (v : V)
      → usable now ttl o ≡ some v
      → (fetched_at : ℕ) × (o ≡ some (fetched_at, v)) × (expired now fetched_at ttl ≡ false)
  unfolding usable
  usable_cached now ttl none v h = cc
  usable_cached now ttl (some (at, w)) v h = elim (Bool-cases (expired now at ttl)) [
    | inl t ↦ ground arith
    | inr t ↦ let same : w ≡ v = ground arith in (at, ap (λ x. some (at, x)) same, t)
  ]

  found_stale :
      (now : ℕ) (s : Option ℕ) (o : Option (ℕ × V)) (e : Answer V) (v : V)
      → (e ≡ value v → ⊥)
      → stale_or e now s o ≡ value v
      → (r : ℕ) × (s ≡ some r) × (usable now (some r) o ≡ some v)
  unfolding stale_or
  found_stale now none o e v fail h = absurd (fail h)
  found_stale now (some r) o e v fail h = elim (Option-cases (usable now (some r) o)) [
    | inl u ↦ let same : e ≡ value v = cc in absurd (fail same)
    | inr (w, u) ↦ let same : w ≡ v = cc in (r, refl, u ∙ ap some same)
  ]

  stale_or-Stale :
      (t : Terms) (key : Text) (c : Cache V) (now : ℕ) (e : Answer V) (v : V)
      → (e ≡ value v → ⊥)
      → stale_or e now t.stale_ttl (find key c.entries) ≡ value v
      → Stale t key c now v
  stale_or-Stale t key c now e v fail h =
      let (r, one, found) = found_stale now t.stale_ttl (find key c.entries) e v fail h in
      (r, one, usable_cached now (some r) (find key c.entries) v found)

  fetch_value-ServedAfter :
      (t : Terms) (key : Text) (c : Cache V) (now : ℕ) (f : Fetch V) (v : V)
      → (fetch_value t key (find key c.entries) f).1 ≡ value v
      → ServedAfter t key (locked c now f) v
  unfolding fetch_value
  fetch_value-ServedAfter t key c now f v h = elim (Option-cases f.result) [
    | inl o ↦
        let e : stale_or fetch_error f.now t.stale_ttl (find key c.entries) ≡ value v = cc in
        inr (inr (o, stale_or-Stale t key c f.now fetch_error v (λ q. cc) e))
    | inr (w, o) ↦ let same : w ≡ v = cc in inr (inl (o ∙ ap some same))
  ]

  fetch_locked-ServedAfter :
      (t : Terms) (key : Text) (c : Cache V) (now : ℕ) (f : Fetch V) (v : V)
      → (fetch_locked t key c now f).1 ≡ value v
      → ServedAfter t key (locked c now f) v
  unfolding fetch_locked
  fetch_locked-ServedAfter t key c now f v h =
      elim (Option-cases (usable now t.ttl (find key c.entries))) [
        | inl o ↦
            let e : (fetch_value t key (find key c.entries) f).1 ≡ value v = cc in
            fetch_value-ServedAfter t key c now f v e
        | inr (w, o) ↦
            let same : w ≡ v = cc in
            inl (usable_cached now t.ttl (find key c.entries) v (o ∙ ap some same))
      ]

  after_wait-ServedAfter :
      (t : Terms) (key : Text) (w : Wait V) (v : V)
      → (after_wait t key w).1 ≡ value v
      → ServedAfter t key w v
  unfolding after_wait
  after_wait-ServedAfter t key (locked c now f) v e = fetch_locked-ServedAfter t key c now f v e
  after_wait-ServedAfter t key (timed_out c now) v e =
      stale_or-Stale t key c now budget_exceeded v (λ q. cc) e

  -- A value that is served was cached for the key within the time to live, at the call or when the
  -- lock was taken; or it is what the fetch gave; or the fetch failed, or the wait for the lock ran
  -- past the budget, and it was cached within the time for stale answers.
  pub get_or_fetch-Served :
      (t : Terms) (key : Text) (c : Cache V) (now : ℕ) (w : Wait V) (v : V)
      → (get_or_fetch t key c now w).1 ≡ value v
      → Cached key c now t.ttl v ⊎ ServedAfter t key w v
  unfolding get_or_fetch
  get_or_fetch-Served t key c now w v h =
      elim (Option-cases (usable now t.ttl (find key c.entries))) [
        | inl o ↦
            let e : (after_wait t key w).1 ≡ value v = cc in
            inr (after_wait-ServedAfter t key w v e)
        | inr (u, o) ↦
            let same : u ≡ v = cc in
            inl (usable_cached now t.ttl (find key c.entries) v (o ∙ ap some same))
      ]

  stale_or_served :
      (t : Terms) (key : Text) (c : Cache V) (now : ℕ) (e : Answer V) (v : V)
      → Stale t key c now v
      → stale_or e now t.stale_ttl (find key c.entries) ≡ value v
  unfolding stale_or
  stale_or_served t key c now e v (s, terms, (fetched_at, cached, live)) =
      rw (terms, cached, stale_or, usable, live) refl

  fetch_value-NothingStale :
      (t : Terms) (key : Text) (c : Cache V) (f : Fetch V)
      → (fetch_value t key (find key c.entries) f).1 ≡ fetch_error
      → (f.result ≡ none) × ((v : V) → Stale t key c f.now v → ⊥)
  unfolding fetch_value
  fetch_value-NothingStale t key c f h = elim (Option-cases f.result) [
    | inl o ↦
        let e : stale_or fetch_error f.now t.stale_ttl (find key c.entries) ≡ fetch_error = cc in
        (o, λ v stale. differ v (stale_or_served t key c f.now fetch_error v stale) e)
    | inr (w, o) ↦ let e : Path (Answer V) (value w) fetch_error = cc in cc
  ]
    where
      differ : {a : Answer V} (v : V) → a ≡ value v → a ≡ fetch_error → ⊥
      differ v p q = cc

  -- A call fails with the error of its fetch only where the fetch failed and nothing that is cached
  -- for the key may be served stale.
  pub fetch_error-NothingStale :
      (t : Terms) (key : Text) (c : Cache V) (now : ℕ) (c' : Cache V) (now' : ℕ) (f : Fetch V)
      → (get_or_fetch t key c now (locked c' now' f)).1 ≡ fetch_error
      → (f.result ≡ none) × ((v : V) → Stale t key c' f.now v → ⊥)
  unfolding get_or_fetch after_wait fetch_locked
  fetch_error-NothingStale t key c now c' now' f h =
      elim (Option-cases (usable now t.ttl (find key c.entries))) [
        | inl o ↦ elim (Option-cases (usable now' t.ttl (find key c'.entries))) [
          | inl u ↦
              let e : (fetch_value t key (find key c'.entries) f).1 ≡ fetch_error = cc in
              fetch_value-NothingStale t key c' f e
          | inr (v, u) ↦ cc
        ]
        | inr (v, o) ↦ cc
      ]
