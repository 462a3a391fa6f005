-- ===== src/Departures/Rows/Downstream.antt =====
-- The stops that a route of backend/services/departures/rows.py still reaches.
use taigi_agent.Prelude.{
  ℕ, suc, ◌≤◌, ◌<◌, ◌≡◌, refl, ap, true, false, Option, none, some, List, [], ◌∷◌, ◌++◌, arith,
  keep, map, All, All-map, leb, if◌then◌else◌, Bool-cases, inl, inr, Text,
}
use taigi_agent.Prelude.Sorting.{IsSorted, sorted_fix}
use taigi_agent.Departures.Bus.{Direction, RouteInfo, stops_of}
use taigi_agent.Departures.Rows.{
  name_matches, strip_paren, Numbered, numbered_leb, kiosk_seq, downstream_names, enumerate,
  downstream_of, names_at, yielded, wanted, iter_route_downstream,
}

-- The names behind the first that matches the stop.
unfoldable pub names_behind : Text → List Text → Option (List Text)
names_behind kiosk [] = none
names_behind kiosk (name ∷ names) =
    if name_matches kiosk name then some names else names_behind kiosk names

abbrev pub behind : Direction → Option (List Text) → List (Direction × List Text)
behind d none = []
behind d (some names) = (d, names) ∷ []

-- What a route reaches behind the stop, in a direction that is asked for.
abbrev pub reached : RouteInfo → Text → Option Direction → Direction → List (Direction × List Text)
reached info kiosk go_back d =
    if wanted go_back d
    then behind d (names_behind kiosk (map strip_paren (stops_of info d)))
    else []

-- The names from the first that matches the stop.
unfoldable names_from : Text → List Text → Option (List Text)
names_from kiosk [] = none
names_from kiosk (name ∷ names) =
    if name_matches kiosk name then some (name ∷ names) else names_from kiosk names

enumerate-AtLeast : (i j : ℕ) (names : List Text) → i ≤ j → All (λ e. i ≤ e.0) (enumerate j names)
unfolding enumerate
enumerate-AtLeast i j [] h = tt
enumerate-AtLeast i j (name ∷ names) h = (h, enumerate-AtLeast i (suc j) names (omega arith))

numbered_leb-of_lt : (e f : Numbered) → e.0 < f.0 → numbered_leb e f ≡ true
unfolding numbered_leb
numbered_leb-of_lt (i, s) (j, t) h = ground arith

enumerate-IsSorted : (i : ℕ) (names : List Text) → IsSorted numbered_leb (enumerate i names)
unfolding enumerate
enumerate-IsSorted i [] = tt
enumerate-IsSorted i (name ∷ names) = (
  All-map _ _ (λ e h. numbered_leb-of_lt (i, strip_paren name) e h) _
      (enumerate-AtLeast (suc i) (suc i) names (omega arith)),
  enumerate-IsSorted (suc i) names,
)

keep_passing : (k : ℕ) (es : List Numbered) → All (λ e. k ≤ e.0) es → keep (λ e. leb k e.0) es ≡ es
keep_passing k [] h = refl
keep_passing k (e ∷ es) h =
    let passes : leb k e.0 ≡ true = ground arith in rw passes (ap (◌∷◌ e) (keep_passing k es h.1))

map-enumerate :
    (i : ℕ) (names : List Text) → map (λ e. e.1) (enumerate i names) ≡ map strip_paren names
unfolding enumerate
map-enumerate i [] = refl
map-enumerate i (name ∷ names) = ap (◌∷◌ (strip_paren name)) (map-enumerate (suc i) names)

kiosk_seq-ge :
    (kiosk : Text) (i k : ℕ) (names : List Text)
    → kiosk_seq kiosk (enumerate i names) ≡ some k
    → i ≤ k
unfolding kiosk_seq enumerate
kiosk_seq-ge kiosk i k [] h = cc
kiosk_seq-ge kiosk i k (name ∷ names) h =
    ground (
      arith,
      kiosk_seq-ge kiosk (suc i) k names,
      Bool-cases (name_matches kiosk (strip_paren name)),
    )

names_at-skip :
    (o : Option ℕ) (e : Numbered) (es : List Numbered)
    → ((k : ℕ) → o ≡ some k → e.0 < k)
    → names_at o (e ∷ es) ≡ names_at o es
unfolding names_at
names_at-skip none e es h = refl
names_at-skip (some k) e es h =
    let low : e.0 < k = h k refl in let below : leb k e.0 ≡ false = ground arith in rw below refl

names_at_passing :
    (k : ℕ) (es : List Numbered)
    → All (λ e. k ≤ e.0) es
    → names_at (some k) es ≡ some (map (λ e. e.1) es)
unfolding names_at
names_at_passing k es h = rw (keep_passing k es h) refl

-- Over a route's own order, the names at the stop's number and above are those from the stop on.
names_at-enumerate :
    (kiosk : Text) (i : ℕ) (names : List Text)
    → names_at (kiosk_seq kiosk (enumerate i names)) (enumerate i names)
      ≡ names_from kiosk (map strip_paren names)
unfolding names_from
names_at-enumerate kiosk i [] = unfold kiosk_seq enumerate names_at in refl
names_at-enumerate kiosk i (name ∷ names) =
    let split : enumerate i (name ∷ names) ≡ (i, strip_paren name) ∷ enumerate (suc i) names =
      unfold enumerate in refl in
    elim (Bool-cases (name_matches kiosk (strip_paren name))) [
      | inl t ↦
          let hit : kiosk_seq kiosk (enumerate i (name ∷ names)) ≡ some i =
            unfold kiosk_seq enumerate in rw t refl in
          rw
            (
              hit,
              names_at_passing i _ (enumerate-AtLeast i i (name ∷ names) (omega arith)),
              map-enumerate i (name ∷ names),
              t,
            )
            refl
      | inr t ↦
          let miss : kiosk_seq kiosk (enumerate i (name ∷ names))
              ≡ kiosk_seq kiosk (enumerate (suc i) names) =
            unfold kiosk_seq enumerate in rw t refl in
          rw
            (
              miss,
              split,
              names_at-skip _ (i, strip_paren name) (enumerate (suc i) names)
                  (λ k e. kiosk_seq-ge kiosk (suc i) k names e),
              t,
            )
            (names_at-enumerate kiosk (suc i) names)
    ]

downstream_names-enumerate :
    (kiosk : Text) (names : List Text)
    → downstream_names (enumerate 0 names) kiosk ≡ names_from kiosk (map strip_paren names)
unfolding downstream_names
downstream_names-enumerate kiosk names =
    rw (sorted_fix numbered_leb (enumerate 0 names) (enumerate-IsSorted 0 names))
      (names_at-enumerate kiosk 0 names)

names_from-drop :
    (kiosk : Text) (d : Direction) (names : List Text)
    → yielded d (names_from kiosk names) ≡ behind d (names_behind kiosk names)
unfolding names_from names_behind
names_from-drop kiosk d [] = refl
names_from-drop kiosk d (name ∷ names) = elim (Bool-cases (name_matches kiosk name)) [
  | inl t ↦ rw t refl
  | inr t ↦ rw t (names_from-drop kiosk d names)
]

downstream_of-lem :
    (info : RouteInfo) (kiosk : Text) (go_back : Option Direction) (d : Direction)
    → downstream_of info kiosk go_back d ≡ reached info kiosk go_back d
unfolding downstream_of
downstream_of-lem info kiosk go_back d = elim (Bool-cases (wanted go_back d)) [
  | inl t ↦ rw t (listed (stops_of info d))
  | inr t ↦ rw t refl
]
  where
    listed :
        (names : List Text)
        → (elim names [
          | [] ↦ []
          | name ∷ rest ↦ yielded d (downstream_names (enumerate 0 (name ∷ rest)) kiosk)
        ])
          ≡ behind d (names_behind kiosk (map strip_paren names))
    listed [] = unfold names_behind in refl
    listed (name ∷ rest) =
        rw (downstream_names-enumerate kiosk (name ∷ rest))
          (names_from-drop kiosk d (map strip_paren (name ∷ rest)))

-- For each direction that is asked for, outbound first, a route lists the stops behind the first
-- that matches the name of this one, in the route's order and without their parentheses, and
-- nothing where none matches.
pub iter_route_downstream_lem :
    (info : RouteInfo) (kiosk : Text) (go_back : Option Direction)
    → iter_route_downstream info kiosk go_back
      ≡ reached info kiosk go_back Direction.outbound
        ++ reached info kiosk go_back Direction.inbound
unfolding iter_route_downstream
iter_route_downstream_lem info kiosk go_back =
    rw
      (
        downstream_of-lem info kiosk go_back Direction.outbound,
        downstream_of-lem info kiosk go_back Direction.inbound,
      )
      refl
