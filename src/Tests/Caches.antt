-- ===== src/Tests/Caches.antt =====
-- Runs of backend/providers/ttl_cache.py.
use taigi_agent.Prelude.{ℕ, ◌≡◌, ◌⊎◌, Option, refl, false, none, some, [], ◌∷◌, codes}
use taigi_agent.Prelude.Table.{find}
use taigi_agent.Providers.TtlCache.{
  expired, Terms, Cache, Fetch, locked, timed_out, value, fetch_error, budget_exceeded, usable,
  stale_or, fetch_value, fetch_locked, after_wait, get_or_fetch, store_value,
}
use taigi_agent.Providers.TtlCache.Serving.{
  Cached, Stale, ServedAfter, get_or_fetch-Served, fetch_error-NothingStale,
}
use taigi_agent.Providers.TtlCache.Sweeping.{store-get}

abbrev terms : Terms
terms = record { ttl = some 30; stale_ttl = some 300 }

abbrev cache : Cache ℕ
cache = record {
  entries = (codes "201", (100, 7)) ∷ (codes "7", (120, 9)) ∷ [];
  sweep_threshold = 1;
}

abbrev empty : Cache ℕ
empty = record { entries = []; sweep_threshold = 32 }

abbrev failing : ℕ → Fetch ℕ
failing now = record { after = cache; now = now; result = none }

-- At 140 the entry of 100 is past its 30 seconds; the fetch fails, and 40 seconds later it is served
-- stale.
stale_served :
    (get_or_fetch terms (codes "201") cache 140 (locked cache 141 (failing 180))).1 ≡ value 7
unfolding get_or_fetch after_wait fetch_locked fetch_value stale_or usable expired find
stale_served = refl

out_of_budget :
    (get_or_fetch terms (codes "201") cache 500 (timed_out cache 501)).1 ≡ budget_exceeded
unfolding get_or_fetch after_wait stale_or usable expired find
out_of_budget = refl

nothing_cached :
    (get_or_fetch terms (codes "201") empty 140 (locked empty 141 (failing 180))).1 ≡ fetch_error
unfolding get_or_fetch after_wait fetch_locked fetch_value stale_or usable expired find
nothing_cached = refl

get_or_fetch-Served_example :
    Cached (codes "201") cache 140 (some 30) 7
    ⊎ ServedAfter terms (codes "201") (locked cache 141 (failing 180)) 7
get_or_fetch-Served_example =
    get_or_fetch-Served terms (codes "201") cache 140 (locked cache 141 (failing 180)) 7
      stale_served

fetch_error-NothingStale_example :
    (Path (Option ℕ) none none) × ((v : ℕ) → Stale terms (codes "201") empty 180 v → ⊥)
fetch_error-NothingStale_example =
    fetch_error-NothingStale terms (codes "201") empty 140 empty 141 (failing 180) nothing_cached

young : expired 125 100 (some 30) ≡ false
unfolding expired
young = refl

store-get_example :
    get_or_fetch terms
      (codes "9")
      (store_value terms (codes "9") 4 100 cache)
      125
      (timed_out empty 125)
    ≡ (store_value terms (codes "9") 4 100 cache, value 4)
store-get_example = store-get terms (codes "9") 4 100 125 cache (timed_out empty 125) young
