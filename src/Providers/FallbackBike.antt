-- ===== src/Providers/FallbackBike.antt =====
-- backend/providers/fallback_bike.py: the stations of the first provider that has any. A provider is
-- its name and what a call of it gives, with none for one that raises.
use taigi_agent.Prelude.{
  ℕ, suc, ◌≡◌, refl, ap, sym, subst, Bool, true, false, Option, none, some, List, [], ◌∷◌, ◌++◌,
  append-nil, append_assoc, arith, length, length-append, map, All, All-append, Text,
}

pub data Failure : Type 0 where
  raised no_stations : Failure

pub record Provider {ℓ} (S : Type ℓ) : Type ℓ where
  pub name : Text
  pub stations : Option (List S)

-- How `fetch_stations` ends: with stations, and the place of the provider that gave them, or with
-- the failures of all of them.
pub data Fetched {ℓ} (S : Type ℓ) : Type ℓ where
  found : ℕ → List S → Fetched S
  all_failed : List (Text × Failure) → Fetched S

module _ {S : Type 0} where
  -- The loop over the providers, from the place `index` on.
  unfoldable pub fetch_from : ℕ → List (Text × Failure) → List (Provider S) → Fetched S
  fetch_from index failures [] = all_failed failures
  fetch_from index failures (p ∷ ps) = elim p.stations [
    | none ↦ fetch_from (suc index) (failures ++ (p.name, raised) ∷ []) ps
    | some [] ↦ fetch_from (suc index) (failures ++ (p.name, no_stations) ∷ []) ps
    | some (s ∷ stations) ↦ found index (s ∷ stations)
  ]

  -- `fetch_stations`
  unfoldable pub fetch_stations : List (Provider S) → Fetched S
  unfolding fetch_from
  fetch_stations ps = fetch_from 0 [] ps

  abbrev pub unusable : Option (List S) → Bool
  unusable none = true
  unusable (some []) = true
  unusable (some (s ∷ stations)) = false

  -- The stations are those of a provider that has some, and no provider before it has any; or each
  -- provider has failed, and is named once.
  abbrev pub IsFirst : List (Provider S) → Fetched S → Type 0
  IsFirst ps (found i stations) =
      (before : List (Provider S)) × (p : Provider S) × (after : List (Provider S)) × (ps
        ≡ before ++ p ∷ after)
      × (length before ≡ i)
      × (p.stations ≡ some stations)
      × (unusable (some stations) ≡ false)
      × All (λ q. unusable q.stations ≡ true) before
  IsFirst ps (all_failed failures) =
      All (λ q. unusable q.stations ≡ true) ps × (map (λ f. f.0) failures ≡ map (λ q. q.name) ps)

map-append_one :
    {A : Type 0} {B : Type 0} (f : A → B) (xs : List A) (x : A)
    → map f (xs ++ x ∷ []) ≡ map f xs ++ f x ∷ []
map-append_one f [] x = refl
map-append_one f (y ∷ xs) x = ap (◌∷◌ (f y)) (map-append_one f xs x)

module _ {S : Type 0} where
  fetch_from-IsFirst :
      (seen ps : List (Provider S)) (failures : List (Text × Failure)) (index : ℕ)
      → length seen ≡ index
      → All (λ q. unusable q.stations ≡ true) seen
      → map (λ f. f.0) failures ≡ map (λ q. q.name) seen
      → IsFirst (seen ++ ps) (fetch_from index failures ps)
  unfolding fetch_from
  fetch_from-IsFirst seen [] failures index l h n = rw (append-nil seen) (h, n)
  fetch_from-IsFirst seen (p ∷ ps) failures index l h n =
      let later : (why : Failure) → After why = λ why.
        fetch_from-IsFirst (seen ++ p ∷ []) ps (failures ++ (p.name, why) ∷ []) (suc index) in
      given p.stations refl later
    where
      After : Failure → Type 0
      After why =
          length (seen ++ p ∷ []) ≡ suc index
          → All (λ q. unusable q.stations ≡ true) (seen ++ p ∷ [])
          → map (λ f. f.0) (failures ++ (p.name, why) ∷ []) ≡ map (λ q. q.name) (seen ++ p ∷ [])
          → IsFirst ((seen ++ p ∷ []) ++ ps)
              (fetch_from (suc index) (failures ++ (p.name, why) ∷ []) ps)

      skipped :
          (why : Failure)
          → After why
          → unusable p.stations ≡ true
          → IsFirst (seen ++ p ∷ ps) (fetch_from (suc index) (failures ++ (p.name, why) ∷ []) ps)
      skipped why rest u =
          subst (λ x. IsFirst x (fetch_from (suc index) (failures ++ (p.name, why) ∷ []) ps))
            (append_assoc seen (p ∷ []) ps)
            (rest (omega (arith, length-append seen (p ∷ []), l))
              (All-append (λ q. unusable q.stations ≡ true) seen (p ∷ []) h (u, tt))
              (rw
                (
                  map-append_one (λ f. f.0) failures (p.name, why),
                  map-append_one (λ q. q.name) seen p,
                  n,
                )
                refl))

      given :
          (o : Option (List S))
          → p.stations ≡ o
          → ((why : Failure) → After why)
          → IsFirst (seen ++ p ∷ ps) (fetch_from index failures (p ∷ ps))
      given none o rest =
          let e : fetch_from index failures (p ∷ ps)
              ≡ fetch_from (suc index) (failures ++ (p.name, raised) ∷ []) ps =
            rw (o, fetch_from) refl in
          let bad : unusable p.stations ≡ true = rw o refl in
          subst (λ x. IsFirst (seen ++ p ∷ ps) x) (sym e) (skipped raised (rest raised) bad)
      given (some []) o rest =
          let e : fetch_from index failures (p ∷ ps)
              ≡ fetch_from (suc index) (failures ++ (p.name, no_stations) ∷ []) ps =
            rw (o, fetch_from) refl in
          let bad : unusable p.stations ≡ true = rw o refl in
          subst (λ x. IsFirst (seen ++ p ∷ ps) x) (sym e)
            (skipped no_stations (rest no_stations) bad)
      given (some (s ∷ stations)) o rest =
          let e : fetch_from index failures (p ∷ ps) ≡ found index (s ∷ stations) =
            rw (o, fetch_from) refl in
          subst (λ x. IsFirst (seen ++ p ∷ ps) x) (sym e) (seen, p, ps, refl, l, o, refl, h)

  -- The stations are those of the first provider that has any, with its place; where none has, the
  -- call fails with the failures of all of them, each named once and in order.
  pub fetch_stations-IsFirst : (ps : List (Provider S)) → IsFirst ps (fetch_stations ps)
  unfolding fetch_stations
  fetch_stations-IsFirst ps = fetch_from-IsFirst [] ps [] 0 refl tt refl
