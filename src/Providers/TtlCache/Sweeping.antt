-- ===== src/Providers/TtlCache/Sweeping.antt =====
-- The size of the store of backend/providers/ttl_cache.py, and what a sweep leaves in it.
use taigi_agent.Prelude.{
  ℕ, ◌≡◌, refl, false, not, Option, none, some, arith, length, tally, leb, ◌==◌, Bool-cases, inl,
  inr, Text, text_eq_refl,
}
use taigi_agent.Prelude.Table.{Table, find, store, find-store, find-keep_hit}
use taigi_agent.Providers.TtlCache.{
  expired, Terms, retain_ttl, Cache, sweep, maybe_sweep, usable, store_value, get_or_fetch, Wait,
  value,
}

expired-now : (now : ℕ) (ttl : Option ℕ) → expired now now ttl ≡ false
unfolding expired
expired-now now none = refl
expired-now now (some ttl) = ground arith

module _ {ℓ} {V : Type ℓ} where
  -- How many entries are not expired.
  abbrev pub live_count : ℕ → Option ℕ → Table (ℕ × V) → ℕ
  live_count now retain m = tally (λ e. not (expired now e.1.0 retain)) m

  -- An entry within its retention survives a sweep.
  pub find-maybe_sweep :
      (now : ℕ) (retain : Option ℕ) (key : Text) (fetched_at : ℕ) (v : V) (c : Cache V)
      → find key c.entries ≡ some (fetched_at, v)
      → expired now fetched_at retain ≡ false
      → find key (maybe_sweep now retain c).entries ≡ some (fetched_at, v)
  unfolding maybe_sweep sweep
  find-maybe_sweep now none key fetched_at v c h live = h
  find-maybe_sweep now (some retain) key fetched_at v c h live = elim (Bool-cases (retain == 0)) [
    | inl z ↦ rw z h
    | inr z ↦ elim (Bool-cases (leb (length c.entries) c.sweep_threshold)) [
      | inl t ↦ rw (z, t) h
      | inr t ↦
          rw (z, t)
            (find-keep_hit (λ e. not (expired now e.0 (some retain))) key (fetched_at, v) c.entries
              h (rw live refl))
    ]
  ]

  -- What is stored is served until its time to live is over, whatever the store was and whatever
  -- the sweep behind it takes.
  pub store-get :
      (t : Terms) (key : Text) (v : V) (now later : ℕ) (c : Cache V) (w : Wait V)
      → expired later now t.ttl ≡ false
      → get_or_fetch t key (store_value t key v now c) later w
        ≡ (store_value t key v now c, value v)
  unfolding get_or_fetch store_value
  store-get t key v now later c w fresh = rw (stored, fresh, get_or_fetch, usable) refl
    where
      new : expired now now (retain_ttl t) ≡ false
      new = expired-now now (retain_ttl t)

      stored : find key (store_value t key v now c).entries ≡ some (now, v)
      stored =
          find-maybe_sweep now (retain_ttl t) key now v
            (record c { entries = store key (now, v) c.entries })
            (rw (find-store key key (now, v) c.entries, text_eq_refl key) refl) new
