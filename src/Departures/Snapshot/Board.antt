-- ===== src/Departures/Snapshot/Board.antt =====
-- What the board of backend/services/departures/snapshot.py promises.
use taigi_agent.Prelude.{
  ==-eq, ℕ, ◌+◌, ◌≤◌, ◌<◌, ◌≡◌, ◌≢◌, ◌⊎◌, ◌==◌, inl, inr, refl, All-map, contains, text_eq,
  text_leb, true, false, Option, none, some, List, [], ◌∷◌, arith, length, keep, any, All,
  if◌then◌else◌, Bool-cases, Text, text_eq_iff, text_leb_total, text_leb_trans, text_leb_antisym,
}
use taigi_agent.Prelude.Table.{Table, find}
use taigi_agent.Prelude.Sorting.{IsOrder, IsSorted, sorted, sorted-IsSorted, All-sorted}
use taigi_agent.Departures.Bus.{
  Direction, outbound, inbound, same_direction, direction_int, RouteInfo, StopArrival,
}
use taigi_agent.Departures.Classification.{Section, Now}
use taigi_agent.Departures.Rows.{
  ends_at, name_matches, destination, info_or, iter_scoped_stop_etas, in_scope, is_known,
  is_terminal_direction,
}
use taigi_agent.Departures.Snapshot.{
  DepartureRouteStatus, DepartureSummary, StopDepartureSnapshot, DedupeKey, same_key, same_section,
  count_of, summary_of, sort_key_leb, status_of, dedupe_key, snapshot_loop, route_status,
  build_departure_snapshot,
}

sort_key_leb_total :
    (a b : DepartureRouteStatus) → sort_key_leb a b ≡ false → sort_key_leb b a ≡ true
unfolding sort_key_leb
sort_key_leb_total a b h = ground (
  arith,
  text_leb_total a.route b.route,
  text_eq_iff a.route b.route,
  text_eq_iff b.route a.route,
)

sort_key_leb_trans :
    (a b c : DepartureRouteStatus)
    → sort_key_leb a b ≡ true
    → sort_key_leb b c ≡ true
    → sort_key_leb a c ≡ true
unfolding sort_key_leb
sort_key_leb_trans a b c h k = ground (
  arith,
  text_leb_trans a.route b.route c.route,
  text_eq_iff a.route b.route,
  text_eq_iff b.route c.route,
  text_eq_iff a.route c.route,
  text_leb_antisym a.route b.route,
)

sort_key_leb-IsOrder : IsOrder sort_key_leb
sort_key_leb-IsOrder = record { total = sort_key_leb_total; trans = sort_key_leb_trans }

-- The four counts.
abbrev pub total_count : DepartureSummary → ℕ
total_count s = s.available_count + s.not_departed_count + s.last_departed_count + s.unknown_count

count_one :
    (s : Section)
    → (if same_section s Section.available then 1 else 0)
        + (if same_section s Section.not_departed then 1 else 0)
        + (if same_section s Section.last_departed then 1 else 0)
        + (if same_section s Section.unknown then 1 else 0)
      ≡ 1
count_one Section.available = refl
count_one Section.not_departed = refl
count_one Section.last_departed = refl
count_one Section.unknown = refl

total_count-summary_of :
    (routes : List DepartureRouteStatus) → total_count (summary_of routes) ≡ length routes
unfolding summary_of count_of
total_count-summary_of [] = refl
total_count-summary_of (r ∷ routes) =
    omega (arith, total_count-summary_of routes, count_one r.section)

-- The destination of a route's direction is known, and its name and the stop's match: one is a part of
-- the other.
abbrev pub EndsHere : Table RouteInfo → Text → Text → Direction → Type 0
EndsHere info stop_name route d =
    let terminus = destination (info_or (find route info) route) d in
    (terminus ≢ []) × ((contains stop_name terminus ≡ true) ⊎ (contains terminus stop_name ≡ true))

abbrev pub Serves : Table RouteInfo → Text → Option Direction → DepartureRouteStatus → Type 0
Serves info stop_name none r =
    (d : Direction) × (r.go_back ≡ direction_int d)
    × (EndsHere info stop_name r.route d
        → EndsHere info stop_name r.route outbound × EndsHere info stop_name r.route inbound)
Serves info stop_name (some d) r = r.go_back ≡ direction_int d

-- What an entry of the board is allowed to show.
abbrev pub BelongsHere : Table RouteInfo → Text → Option Direction → DepartureRouteStatus → Type 0
BelongsHere info stop_name go_back r =
    (is_known info r.route ≡ true) × Serves info stop_name go_back r

ends_at_sound :
    (stop_name terminus : Text)
    → ends_at stop_name terminus ≡ true
    → (terminus ≢ [])
      × ((contains stop_name terminus ≡ true) ⊎ (contains terminus stop_name ≡ true))
unfolding ends_at name_matches
ends_at_sound stop_name terminus h = (
  (λ e. ground (arith, h, (text_eq_iff terminus []).1 e)),
  elim (Bool-cases (contains stop_name terminus)) [
    | inl c ↦ inl c
    | inr c ↦ inr (ground (arith, h, c))
  ],
)

ends_at_complete :
    (stop_name terminus : Text)
    → (terminus ≢ [])
    → ((contains stop_name terminus ≡ true) ⊎ (contains terminus stop_name ≡ true))
    → ends_at stop_name terminus ≡ true
unfolding ends_at name_matches
ends_at_complete stop_name terminus n h = elim (Bool-cases (text_eq terminus [])) [
  | inl e ↦ absurd (n ((text_eq_iff terminus []).0 e))
  | inr e ↦ rw e (elim h [ inl c ↦ ground (arith, c) | inr c ↦ ground (arith, c) ])
]

-- A direction that is not filtered out ends here only where both do.
open_end-both :
    (info : Table RouteInfo) (stop_name route : Text) (d : Direction)
    → is_terminal_direction stop_name info route d ≡ false
    → EndsHere info stop_name route d
    → EndsHere info stop_name route outbound × EndsHere info stop_name route inbound
unfolding is_terminal_direction
open_end-both info stop_name route d h e =
    let i = info_or (find route info) route in
    let here : ends_at stop_name (destination i d) ≡ true =
      ends_at_complete stop_name (destination i d) e.0 e.1 in
    let out : ends_at stop_name i.outbound_destination ≡ true = ground (arith, h, here) in
    let back : ends_at stop_name i.inbound_destination ≡ true = ground (arith, h, here) in
    (
      ends_at_sound stop_name i.outbound_destination out,
      ends_at_sound stop_name i.inbound_destination back,
    )

same_direction_sound :
    (d e : Direction) → same_direction d e ≡ true → direction_int d ≡ direction_int e
same_direction_sound Direction.outbound Direction.outbound h = refl
same_direction_sound Direction.inbound Direction.inbound h = refl
same_direction_sound Direction.outbound Direction.inbound h = cc
same_direction_sound Direction.inbound Direction.outbound h = cc

module _ (int_of : Text → Option ℕ) (now : Now) where
  All-snapshot_loop :
      (P : DepartureRouteStatus → Type 0) (info : Table RouteInfo) (seen : List DedupeKey)
      (stops : List StopArrival)
      → All (λ s. P (status_of int_of now info s)) stops
      → All P (snapshot_loop int_of now info seen stops)
  unfolding snapshot_loop
  All-snapshot_loop P info seen [] h = tt
  All-snapshot_loop P info seen (stop ∷ stops) h =
      elim (Bool-cases (any (same_key (dedupe_key int_of now stop)) seen)) [
        | inl t ↦ rw t (All-snapshot_loop P info seen stops h.1)
        | inr t ↦ rw t (h.0, All-snapshot_loop P info (dedupe_key int_of now stop ∷ seen) stops h.1)
      ]

  in_scope-BelongsHere :
      (info : Table RouteInfo) (stop_name : Text) (go_back : Option Direction) (s : StopArrival)
      → in_scope info stop_name go_back s ≡ true
      → BelongsHere info stop_name go_back (status_of int_of now info s)
  unfolding in_scope status_of route_status
  in_scope-BelongsHere info stop_name none s h =
      let known : is_known info s.route_name ≡ true = ground arith in
      let open_end : is_terminal_direction stop_name info s.route_name s.direction ≡ false =
        ground arith in
      (known, (s.direction, refl, open_end-both info stop_name s.route_name s.direction open_end))
  in_scope-BelongsHere info stop_name (some d) s h =
      let known : is_known info s.route_name ≡ true = ground arith in
      let same : same_direction s.direction d ≡ true = ground arith in
      (known, same_direction_sound s.direction d same)

All-in_scope :
    (int_of : Text → Option ℕ) (now : Now) (info : Table RouteInfo) (stop_name : Text)
    (go_back : Option Direction) (rows : List StopArrival)
    → All
        (λ s. BelongsHere info stop_name go_back (status_of int_of now info s))
        (keep (in_scope info stop_name go_back) rows)
All-in_scope int_of now info stop_name go_back [] = tt
All-in_scope int_of now info stop_name go_back (s ∷ rows) =
    elim (Bool-cases (in_scope info stop_name go_back s)) [
      | inl t ↦ rw t (
        in_scope-BelongsHere int_of now info stop_name go_back s t,
        All-in_scope int_of now info stop_name go_back rows,
      )
      | inr t ↦ rw t (All-in_scope int_of now info stop_name go_back rows)
    ]

-- The order of a board: by the minutes, then by the tier, then by the route's name, then by the
-- direction.
abbrev pub ComesBefore : DepartureRouteStatus → DepartureRouteStatus → Type 0
ComesBefore a b =
    (a.sort_minutes < b.sort_minutes)
    ⊎ ((a.sort_minutes ≡ b.sort_minutes)
        × ((a.sort_priority < b.sort_priority)
            ⊎ ((a.sort_priority ≡ b.sort_priority)
                × (((a.route ≢ b.route) × (text_leb a.route b.route ≡ true))
                    ⊎ ((a.route ≡ b.route) × (a.go_back ≤ b.go_back))))))

sort_key_leb-ComesBefore : (a b : DepartureRouteStatus) → sort_key_leb a b ≡ true → ComesBefore a b
unfolding sort_key_leb
sort_key_leb-ComesBefore a b h = elim (Bool-cases (a.sort_minutes == b.sort_minutes)) [
  | inr m ↦ inl (ground (arith, h, m))
  | inl m ↦ inr (
    ==-eq a.sort_minutes b.sort_minutes m,
    elim (Bool-cases (a.sort_priority == b.sort_priority)) [
      | inr p ↦ inl (ground (arith, h, m, p))
      | inl p ↦ inr (
        ==-eq a.sort_priority b.sort_priority p,
        elim (Bool-cases (text_eq a.route b.route)) [
          | inr r ↦ inl (
            (λ e. ground (arith, r, (text_eq_iff a.route b.route).1 e)),
            ground (arith, h, m, p, r),
          )
          | inl r ↦ inr ((text_eq_iff a.route b.route).0 r, ground (arith, h, m, p, r))
        ],
      )
    ],
  )
]

-- Each entry comes before every later one.
abbrev pub InOrder : List DepartureRouteStatus → Type 0
InOrder [] = Unit
InOrder (r ∷ rs) = All (ComesBefore r) rs × InOrder rs

IsSorted-InOrder : (rs : List DepartureRouteStatus) → IsSorted sort_key_leb rs → InOrder rs
IsSorted-InOrder [] h = tt
IsSorted-InOrder (r ∷ rs) h = (
  All-map (λ q. sort_key_leb r q ≡ true) (ComesBefore r) (sort_key_leb-ComesBefore r) rs h.0,
  IsSorted-InOrder rs h.1,
)

module _ (int_of : Text → Option ℕ) (now : Now) (rows : List StopArrival) (info : Table RouteInfo)
    (stop_name : Text) (go_back : Option Direction) (updated_at : ℕ) (board : StopDepartureSnapshot)
    (built : build_departure_snapshot int_of now
        (some (some rows, info))
        stop_name
        go_back
        updated_at
      ≡ some board) where
  shown : List DepartureRouteStatus
  shown = snapshot_loop int_of now info [] (iter_scoped_stop_etas rows info stop_name go_back)

  board_routes : sorted sort_key_leb shown ≡ board.routes
  unfolding build_departure_snapshot shown
  board_routes = cc

  board_summary : summary_of board.routes ≡ board.summary
  unfolding build_departure_snapshot shown
  board_summary = cc

  -- The entries of a board come in the order of the minutes that they are sorted by; those of the
  -- same minutes in the order of their tier, then of the route's name by its characters, then of the
  -- direction. Each entry stands so to every later one.
  pub board-InOrder : InOrder board.routes
  board-InOrder =
      IsSorted-InOrder board.routes
        (rw (← board_routes) (sorted-IsSorted sort_key_leb sort_key_leb-IsOrder shown))

  -- The four counts of a board add up to the number of its entries.
  total_count-board : total_count board.summary ≡ length board.routes
  total_count-board = rw (← board_summary) (total_count-summary_of board.routes)

  -- Every entry of a board is of a route that stops here. With a direction asked for it is of that
  -- direction. Else the destination of its direction, where it has one, does not match this stop's
  -- name, unless the destinations of both directions do, as on a circular route.
  pub board-BelongHere : All (BelongsHere info stop_name go_back) board.routes
  unfolding shown iter_scoped_stop_etas
  board-BelongHere = rw (← board_routes) (
      All-sorted sort_key_leb _ shown (
        All-snapshot_loop int_of now _ info [] (iter_scoped_stop_etas rows info stop_name go_back)
          (All-in_scope int_of now info stop_name go_back rows)))
