-- ===== src/Tests/Fallbacks.antt =====
-- Runs of backend/providers/fallback_bike.py, with stations that are numbers.
use taigi_agent.Prelude.{ℕ, ◌≡◌, refl, none, some, List, [], ◌∷◌, codes}
use taigi_agent.Providers.FallbackBike.{
  Provider, found, fetch_stations, IsFirst, fetch_stations-IsFirst,
}

abbrev providers : List (Provider ℕ)
providers =
    record { name = codes "tdx"; stations = none }
    ∷ record { name = codes "moovo"; stations = some [] }
    ∷ record { name = codes "mirror"; stations = some (4 ∷ []) }
    ∷ []

third : fetch_stations providers ≡ found 2 (4 ∷ [])
unfolding fetch_stations
third = refl

fetch_stations-IsFirst_example : IsFirst providers (fetch_stations providers)
fetch_stations-IsFirst_example = fetch_stations-IsFirst providers
