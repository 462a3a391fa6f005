-- ===== src/Departures/Snapshot/Detail.antt =====
-- What the detail of a route of backend/services/departures/snapshot.py shows.
use taigi_agent.Prelude.{
  ℕ, suc, ◌+◌, ◌≤◌, ◌≡◌, ◌≢◌, ◌↔◌, sym, ap, subst, ◌∙◌, map, keep, leb, All-map, contains, inl, inr,
  refl, Bool, true, false, not, ◌&&◌, ◌||◌, Option, none, some, List, [], ◌∷◌, ◌++◌, arith, length,
  length-append, tally, All, All-append, if◌then◌else◌, Bool-cases, Option-cases, Text, text_eq,
  strip,
}
use taigi_agent.Prelude.Table.{Table, find}
use taigi_agent.Prelude.Sorting.{
  IsOrder, IsSorted, sorted, sorted-IsSorted, tally-sorted, sorted-Perm,
}
use mathlib.Core.List.{Perm}
use taigi_agent.Departures.Bus.{
  Direction, same_direction, direction_int, RouteInfo, RouteStopEstimate,
}
use taigi_agent.Departures.Classification.{Now, classify_stop}
use taigi_agent.Departures.Rows.{wanted, is_traffic_controlled, direction_label_from_info}
use taigi_agent.Departures.Snapshot.{
  RouteStopDetail, RouteDirectionDetail, DepartureRouteDetail, ready, not_found, detail_of,
  stop_detail_from_row, stops_in, seq_leb, direction_detail, with_directions, directions_of,
  build_route_detail,
}

seq_leb-IsOrder : IsOrder seq_leb
unfolding seq_leb
seq_leb-IsOrder = record { total = λ a b h. ground arith; trans = λ a b c h k. ground arith }

-- A row that the detail lists: with a number and a name, on a stop that is served, in a direction
-- that is asked for.
abbrev pub is_listed : Option Direction → RouteStopEstimate → Bool
is_listed go_back row =
    wanted go_back row.direction
    && (not (is_traffic_controlled row.status)
        && (elim row.sequence [ none ↦ false | some n ↦ true ]
            && not (text_eq (strip row.stop_name) [])))

module _ (int_of : Text → Option ℕ) (now : Now) (stop_name : Text) where
  detail-is_some :
      (row : RouteStopEstimate)
      → (elim (stop_detail_from_row int_of now row stop_name) [ none ↦ false | some x ↦ true ]) ≡ (
          elim row.sequence [ none ↦ false | some n ↦ true ]
          && not (text_eq (strip row.stop_name) []))
  unfolding stop_detail_from_row
  detail-is_some row = elim (Option-cases row.sequence) [
    | inl o ↦ rw o refl
    | inr (n, o) ↦ elim (Bool-cases (text_eq (strip row.stop_name) [])) [
      | inl t ↦ rw (o, t) refl
      | inr t ↦ rw (o, t) refl
    ]
  ]

  length-stops_in :
      (go_back : Option Direction) (d : Direction) (rows : List RouteStopEstimate)
      → length (stops_in int_of now go_back stop_name d rows)
        ≡ tally (λ row. is_listed go_back row && same_direction row.direction d) rows
  unfolding stops_in
  length-stops_in go_back d [] = refl
  length-stops_in go_back d (row ∷ rows) =
      ground (arith, detail-is_some row, length-stops_in go_back d rows)

-- What is to be shown for a row that is listed: its number and its name, whether the stop asked for
-- is a part of that name, and how its bus stands.
abbrev pub shown_for : (Text → Option ℕ) → Now → Text → RouteStopEstimate → RouteStopDetail
shown_for int_of now stop_name row =
    let c = classify_stop int_of now (record {
      status = row.status;
      eta_seconds = row.eta_seconds;
      scheduled_time = row.scheduled_time;
      arrival_at = row.arrival_at;
    }) in
    record {
      seq = elim row.sequence [ none ↦ 0 | some n ↦ n ];
      name = strip row.stop_name;
      is_current_stop = contains stop_name (strip row.stop_name);
      status_text = c.status_text;
      minutes = c.minutes;
      scheduled_time = c.scheduled_time;
    }

-- The rows of a direction that the detail lists.
abbrev pub listed_in :
    Option Direction → Direction → List RouteStopEstimate → List RouteStopEstimate
listed_in go_back d rows =
    keep (λ row. is_listed go_back row && same_direction row.direction d) rows

abbrev has_number : RouteStopEstimate → Bool
has_number row = elim row.sequence [ none ↦ false | some n ↦ true ]

abbrev has_name : RouteStopEstimate → Bool
has_name row = not (text_eq (strip row.stop_name) [])

-- A row with a number and a name has its detail, and no other.
stop_detail-shown :
    (int_of : Text → Option ℕ) (now : Now) (stop_name : Text) (row : RouteStopEstimate)
    → stop_detail_from_row int_of now row stop_name
      ≡ (if has_number row && has_name row then some (shown_for int_of now stop_name row) else none)
unfolding stop_detail_from_row detail_of
stop_detail-shown int_of now stop_name row = elim (Option-cases row.sequence) [
  | inl o ↦ rw o refl
  | inr (n, o) ↦ elim (Bool-cases (text_eq (strip row.stop_name) [])) [
    | inl t ↦ rw (o, t) refl
    | inr t ↦ rw (o, t) refl
  ]
]

loop_step :
    (w tc q m same : Bool) (x : RouteStopDetail) (rest : List RouteStopDetail)
    → (if not w || tc
        then rest
        else elim (if◌then◌else◌ {A = Option RouteStopDetail} (q && m) (some x) none) [
          | none ↦ rest
          | some y ↦ if same then y ∷ rest else rest
        ])
      ≡ (if (w && (not tc && (q && m))) && same then x ∷ rest else rest)
loop_step false tc q m same x rest = refl
loop_step true true q m same x rest = refl
loop_step true false false m same x rest = refl
loop_step true false true false same x rest = refl
loop_step true false true true same x rest = refl

map_if :
    {A B : Type 0} (f : A → B) (c : Bool) (x : A) (xs : List A)
    → map f (if c then x ∷ xs else xs) ≡ (if c then f x ∷ map f xs else map f xs)
map_if f true x xs = refl
map_if f false x xs = refl

stops_in-shown :
    (int_of : Text → Option ℕ) (now : Now) (go_back : Option Direction) (stop_name : Text)
    (d : Direction) (rows : List RouteStopEstimate)
    → stops_in int_of now go_back stop_name d rows
      ≡ map (shown_for int_of now stop_name) (listed_in go_back d rows)
unfolding stops_in
stops_in-shown int_of now go_back stop_name d [] = refl
stops_in-shown int_of now go_back stop_name d (row ∷ rows) =
    let f = shown_for int_of now stop_name in
    let c = is_listed go_back row && same_direction row.direction d in
    rw (stop_detail-shown int_of now stop_name row) (
      loop_step (wanted go_back row.direction) (is_traffic_controlled row.status) (has_number row)
        (has_name row) (same_direction row.direction d) (f row)
        (stops_in int_of now go_back stop_name d rows)
      ∙ ap (λ r. if c then f row ∷ r else r) (stops_in-shown int_of now go_back stop_name d rows)
      ∙ sym (map_if f c row (listed_in go_back d rows)))

length-sorted : (xs : List RouteStopDetail) → length (sorted seq_leb xs) ≡ length xs
length-sorted xs =
    rw (← tally_true (sorted seq_leb xs), ← tally_true xs) (tally-sorted seq_leb (λ x. true) xs)
  where
    tally_true : (ys : List RouteStopDetail) → tally (λ x. true) ys ≡ length ys
    tally_true [] = refl
    tally_true (y ∷ ys) = omega (arith, tally_true ys)

-- Each stop has at most the number of every later one.
abbrev pub InOrder : List RouteStopDetail → Type 0
InOrder [] = Unit
InOrder (x ∷ xs) = All (λ y. x.seq ≤ y.seq) xs × InOrder xs

IsSorted-InOrder : (xs : List RouteStopDetail) → IsSorted seq_leb xs → InOrder xs
unfolding seq_leb
IsSorted-InOrder [] h = tt
IsSorted-InOrder (x ∷ xs) h = (
  All-map (λ y. leb x.seq y.seq ≡ true) (λ y. x.seq ≤ y.seq) (λ y k. ground (arith, k)) xs h.0,
  IsSorted-InOrder xs h.1,
)

-- An entry of a detail is the whole of a direction: its stops are what is to be shown for the rows
-- that are listed for the direction, each once, in the order of their numbers, and one at least.
abbrev pub IsWhole :
    (Text → Option ℕ)
    → Now
    → Table RouteInfo
    → Text
    → Text
    → Option Direction
    → List RouteStopEstimate
    → RouteDirectionDetail
    → Type 0
IsWhole int_of now info route stop_name go_back rows e =
    (d : Direction) × (e.go_back ≡ direction_int d)
    × (e.label ≡ direction_label_from_info info route d)
    × InOrder e.stops
    × Perm e.stops (map (shown_for int_of now stop_name) (listed_in go_back d rows))
    × (e.stops ≢ [])

sorted-nonempty : (x : RouteStopDetail) (xs : List RouteStopDetail) → sorted seq_leb (x ∷ xs) ≢ []
sorted-nonempty x xs e =
    let count : 0 ≡ suc (length xs) = sym (ap length e) ∙ length-sorted (x ∷ xs) in
    omega (arith, count)

direction_detail-IsWhole :
    (int_of : Text → Option ℕ) (now : Now) (info : Table RouteInfo) (route stop_name : Text)
    (go_back : Option Direction) (rows : List RouteStopEstimate) (d : Direction)
    (stops : List RouteStopDetail)
    → stops ≡ map (shown_for int_of now stop_name) (listed_in go_back d rows)
    → All
        (IsWhole int_of now info route stop_name go_back rows)
        (direction_detail info route d stops)
unfolding direction_detail
direction_detail-IsWhole int_of now info route stop_name go_back rows d [] h = tt
direction_detail-IsWhole int_of now info route stop_name go_back rows d (s ∷ stops) h = (
  (
    d,
    refl,
    refl,
    IsSorted-InOrder (sorted seq_leb (s ∷ stops))
        (sorted-IsSorted seq_leb seq_leb-IsOrder (s ∷ stops)),
    subst (Perm (sorted seq_leb (s ∷ stops))) h (sorted-Perm seq_leb (s ∷ stops)),
    sorted-nonempty s stops,
  ),
  tt,
)

one_direction :
    (b : Bool) (d : Direction)
    → (if b then 1 else 0)
      ≡ (if b && same_direction d Direction.outbound then 1 else 0)
        + (if b && same_direction d Direction.inbound then 1 else 0)
one_direction false d = refl
one_direction true Direction.outbound = refl
one_direction true Direction.inbound = refl

tally_split :
    (go_back : Option Direction) (rows : List RouteStopEstimate)
    → tally (is_listed go_back) rows
      ≡ tally (λ row. is_listed go_back row && same_direction row.direction Direction.outbound) rows
        + tally
            (λ row. is_listed go_back row && same_direction row.direction Direction.inbound)
            rows
tally_split go_back [] = refl
tally_split go_back (row ∷ rows) =
    omega (arith, tally_split go_back rows, one_direction (is_listed go_back row) row.direction)

length-direction_detail :
    (info : Table RouteInfo) (route : Text) (d : Direction) (stops : List RouteStopDetail)
    → (length (direction_detail info route d stops) ≡ 0) ↔ (length stops ≡ 0)
unfolding direction_detail
length-direction_detail info route d [] = (λ h. refl, λ h. refl)
length-direction_detail info route d (s ∷ stops) =
    (λ h. absurd (omega arith), λ h. absurd (omega arith))

with_directions-ready :
    (route stop_name : Text) (go_back : Option Direction) (ds : List RouteDirectionDetail)
    (detail : DepartureRouteDetail)
    → with_directions route stop_name go_back ds ≡ ready detail
    → ds ≡ detail.directions
unfolding with_directions
with_directions-ready route stop_name go_back [] detail h = cc
with_directions-ready route stop_name go_back (d ∷ ds) detail h = cc

with_directions-not_found :
    (route stop_name : Text) (go_back : Option Direction) (ds : List RouteDirectionDetail)
    → (with_directions route stop_name go_back ds ≡ not_found) ↔ (length ds ≡ 0)
unfolding with_directions
with_directions-not_found route stop_name go_back [] = (λ h. refl, λ h. refl)
with_directions-not_found route stop_name go_back (d ∷ ds) = (λ h. cc, λ h. absurd (omega arith))

module _ (int_of : Text → Option ℕ) (now : Now) where
  directions_of-IsWhole :
      (info : Table RouteInfo) (route stop_name : Text) (go_back : Option Direction)
      (rows : List RouteStopEstimate)
      → All
          (IsWhole int_of now info route stop_name go_back rows)
          (directions_of int_of now info route stop_name go_back rows)
  unfolding directions_of
  directions_of-IsWhole info route stop_name go_back rows =
      All-append (IsWhole int_of now info route stop_name go_back rows)
        (direction_detail info route Direction.outbound
          (stops_in int_of now go_back stop_name Direction.outbound rows))
        _
        (direction_detail-IsWhole int_of now info route stop_name go_back rows Direction.outbound _
          (stops_in-shown int_of now go_back stop_name Direction.outbound rows))
        (direction_detail-IsWhole int_of now info route stop_name go_back rows Direction.inbound _
          (stops_in-shown int_of now go_back stop_name Direction.inbound rows))

  -- Every direction of a route's detail lists, in the order of their numbers and each once, the rows
  -- of that direction that have a number and a name, are on a stop that is served, and are in a
  -- direction that is asked for; each is shown with its number, its name without outer spaces,
  -- whether that name has the name of the stop asked for in it, and how its bus stands. A direction
  -- has its number and its label, and one stop at least.
  pub route_detail-AreWhole :
      (info : Table RouteInfo) (rows : List RouteStopEstimate) (route stop_name : Text)
      (go_back : Option Direction) (detail : DepartureRouteDetail)
      → build_route_detail int_of now (some info) (some (some rows)) route stop_name go_back
        ≡ ready detail
      → All (IsWhole int_of now info route stop_name go_back rows) detail.directions
  unfolding build_route_detail
  route_detail-AreWhole info rows route stop_name go_back detail h =
      elim (Option-cases (find route info)) [
        | inl o ↦ cc
        | inr (i, o) ↦
            let e : with_directions route stop_name go_back
                  (directions_of int_of now info route stop_name go_back rows)
                ≡ ready detail =
              cc in
            rw (← with_directions-ready route stop_name go_back _ detail e)
              (directions_of-IsWhole info route stop_name go_back rows)
      ]

  -- The detail of a route that stops here is not found just where no row of the route is listed.
  pub route_detail_not_found_iff :
      (info : Table RouteInfo) (i : RouteInfo) (rows : List RouteStopEstimate)
      (route stop_name : Text) (go_back : Option Direction)
      → find route info ≡ some i
      → (build_route_detail int_of now (some info) (some (some rows)) route stop_name go_back
          ≡ not_found)
        ↔ (tally (is_listed go_back) rows ≡ 0)
  unfolding build_route_detail directions_of
  route_detail_not_found_iff info i rows route stop_name go_back o =
      let out = stops_in int_of now go_back stop_name Direction.outbound rows in
      let back = stops_in int_of now go_back stop_name Direction.inbound rows in
      rw (o, build_route_detail)
        (ground (
          arith,
          with_directions-not_found route stop_name go_back (
              direction_detail info route Direction.outbound out
              ++ direction_detail info route Direction.inbound back),
          length-append (direction_detail info route Direction.outbound out)
              (direction_detail info route Direction.inbound back),
          length-direction_detail info route Direction.outbound out,
          length-direction_detail info route Direction.inbound back,
          length-stops_in int_of now stop_name go_back Direction.outbound rows,
          length-stops_in int_of now stop_name go_back Direction.inbound rows,
          tally_split go_back rows,
        ))
