-- ===== src/Providers/TtlCache.antt =====
-- backend/providers/ttl_cache.py: TtlCache, called without the callbacks record_hit, on_hit and
-- on_store. A task gives way to others while it waits for a key's lock and while it fetches, so the
-- caller's store is an argument again after each of the two; its order of entries, which nothing here
-- reads, is not kept. A stretch without an await reads the clock as one instant.
pub mod Serving
pub mod Sweeping
use taigi_agent.Prelude.{
  ℕ, ◌+◌, ◌*◌, max, Bool, true, false, not, Option, none, some, length, keep, leb, ltb, ◌==◌,
  if◌then◌else◌, Text,
}
use taigi_agent.Prelude.Table.{Table, find, store}

abbrev pub min_sweep_threshold : ℕ
min_sweep_threshold = 32

-- `_expired`, at the instant `now`.
unfoldable pub expired : ℕ → ℕ → Option ℕ → Bool
expired now fetched_at none = false
expired now fetched_at (some ttl) = if ttl == 0 then false else leb (fetched_at + ttl) now

-- What `get_or_fetch` is called with.
pub record Terms : Type 0 where
  pub ttl : Option ℕ
  pub stale_ttl : Option ℕ

-- `stale_ttl if stale_ttl is not None else ttl`
unfoldable pub retain_ttl : Terms → Option ℕ
retain_ttl t = elim t.stale_ttl [ none ↦ t.ttl | some s ↦ some s ]

pub record Cache {ℓ} (V : Type ℓ) : Type ℓ where
  pub entries : Table (ℕ × V)
  pub sweep_threshold : ℕ

-- How a call ends: with a value, with the error of its fetch, or past its budget.
pub data Answer {ℓ} (V : Type ℓ) : Type ℓ where
  value : V → Answer V
  fetch_error : Answer V
  budget_exceeded : Answer V

-- A fetch: the value, or none for one that raises.
pub record Fetch {ℓ} (V : Type ℓ) : Type ℓ where
  pub after : Cache V
  pub now : ℕ
  pub result : Option V

-- The wait for the key's lock, and what is found then.
pub data Wait {ℓ} (V : Type ℓ) : Type ℓ where
  locked : Cache V → ℕ → Fetch V → Wait V
  timed_out : Cache V → ℕ → Wait V

module _ {ℓ} {V : Type ℓ} where
  unfoldable pub sweep : ℕ → Option ℕ → Cache V → Cache V
  sweep now retain c =
      let live = keep (λ e. not (expired now e.1.0 retain)) c.entries in
      record { entries = live; sweep_threshold = max min_sweep_threshold (2 * length live) }

  -- `_maybe_sweep`
  unfoldable pub maybe_sweep : ℕ → Option ℕ → Cache V → Cache V
  unfolding sweep
  maybe_sweep now none c = c
  maybe_sweep now (some retain) c =
      if retain == 0
      then c
      else if leb (length c.entries) c.sweep_threshold
      then c
      else sweep now (some retain) c

  -- A cached value that is not expired.
  unfoldable pub usable : ℕ → Option ℕ → Option (ℕ × V) → Option V
  usable now ttl none = none
  usable now ttl (some (fetched_at, v)) = if expired now fetched_at ttl then none else some v

  -- The stale answer, or the error.
  unfoldable pub stale_or : Answer V → ℕ → Option ℕ → Option (ℕ × V) → Answer V
  unfolding usable
  stale_or e now none cached = e
  stale_or e now (some s) cached = elim (usable now (some s) cached) [ none ↦ e | some v ↦ value v ]

  unfoldable pub store_value : Terms → Text → V → ℕ → Cache V → Cache V
  unfolding store maybe_sweep retain_ttl
  store_value t key v now c =
      maybe_sweep now (retain_ttl t) (record c { entries = store key (now, v) c.entries })

  -- The part of `_fetch_locked` behind its second look.
  unfoldable pub fetch_value : Terms → Text → Option (ℕ × V) → Fetch V → Cache V × Answer V
  unfolding store_value stale_or
  fetch_value t key cached f = elim f.result [
    | none ↦ (f.after, stale_or fetch_error f.now t.stale_ttl cached)
    | some v ↦ (store_value t key v f.now f.after, value v)
  ]

  -- `_fetch_locked`
  unfoldable pub fetch_locked : Terms → Text → Cache V → ℕ → Fetch V → Cache V × Answer V
  unfolding fetch_value usable find
  fetch_locked t key c now f = elim (usable now t.ttl (find key c.entries)) [
    | some v ↦ (c, value v)
    | none ↦ fetch_value t key (find key c.entries) f
  ]

  unfoldable pub after_wait : Terms → Text → Wait V → Cache V × Answer V
  unfolding fetch_locked stale_or find
  after_wait t key (locked c now f) = fetch_locked t key c now f
  after_wait t key (timed_out c now) =
      (c, stale_or budget_exceeded now t.stale_ttl (find key c.entries))

  -- `get_or_fetch`
  unfoldable pub get_or_fetch : Terms → Text → Cache V → ℕ → Wait V → Cache V × Answer V
  unfolding usable find after_wait
  get_or_fetch t key c now w = elim (usable now t.ttl (find key c.entries)) [
    | some v ↦ (c, value v)
    | none ↦ after_wait t key w
  ]
