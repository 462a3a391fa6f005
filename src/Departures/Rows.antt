-- ===== src/Departures/Rows.antt =====
-- backend/services/departures/rows.py and the names of normalize.py: which rows a stop shows. A
-- direction that is asked for is an `Option Direction`, after `Direction(go_back)`.
pub mod Downstream
use taigi_agent.Prelude.{
  ℕ, zero, suc, ◌+◌, ◌-◌, Bool, true, false, not, ◌&&◌, ◌||◌, Option, none, some, List, [], ◌∷◌,
  ◌++◌, length, drop, keep, map, ltb, leb, ◌==◌, if◌then◌else◌, Text, codes, contains, text_eq,
  text_leb, is_space, strip,
}
use taigi_agent.Prelude.Table.{Table, find}
use taigi_agent.Prelude.Sorting.{sorted}
use taigi_agent.Departures.Bus.{
  Direction, outbound, inbound, same_direction, StopStatus, RouteInfo, stops_of, StopArrival,
  RouteStopEstimate,
}

-- `_name_matches`
unfoldable pub name_matches : Text → Text → Bool
name_matches needle hay = contains needle hay || contains hay needle

-- What `\s*` leaves.
unfoldable pub skip_spaces : Text → Text
skip_spaces [] = []
skip_spaces (c ∷ s) = if is_space c then skip_spaces s else c ∷ s

abbrev pub is_open : ℕ → Bool
is_open c = text_eq (codes "（") (c ∷ []) || text_eq (codes "(") (c ∷ [])

abbrev pub is_close : ℕ → Bool
is_close c = text_eq (codes "）") (c ∷ []) || text_eq (codes ")") (c ∷ [])

-- What `[^）)]{0,n}[）)]` leaves.
unfoldable pub to_close : ℕ → Text → Option Text
to_close n [] = none
to_close zero (c ∷ s) = if is_close c then some s else none
to_close (suc n) (c ∷ s) = if is_close c then some s else to_close n s

unfoldable pub after_open : Text → Option Text
unfolding to_close
after_open [] = none
after_open (c ∷ s) = if is_open c then to_close 40 s else none

-- What a match of `_PAREN_RE` at the start of a text leaves.
unfoldable pub match_paren : Text → Option Text
unfolding after_open skip_spaces
match_paren s = elim (after_open (skip_spaces s)) [
  | none ↦ none
  | some rest ↦ some (skip_spaces rest)
]

-- `_PAREN_RE.sub("", s)`; each step takes a character at least from the text.
unfoldable pub drop_parens : ℕ → Text → Text
unfolding match_paren
drop_parens zero s = s
drop_parens (suc fuel) [] = []
drop_parens (suc fuel) (c ∷ s) = elim (match_paren (c ∷ s)) [
  | none ↦ c ∷ drop_parens fuel s
  | some rest ↦ drop_parens fuel rest
]

-- `_strip_paren`
unfoldable pub strip_paren : Text → Text
unfolding drop_parens
strip_paren s = strip (drop_parens (length s) s)

-- A stop's number on its route, and its name.
abbrev pub Numbered : Type 0
Numbered = ℕ × Text

-- The order of pairs.
unfoldable pub numbered_leb : Numbered → Numbered → Bool
numbered_leb (i, s) (j, t) = if ltb i j then true else if i == j then text_leb s t else false

-- `next((seq for seq, name in ordered if _name_matches(kiosk_stop, name)), None)`
unfoldable pub kiosk_seq : Text → List Numbered → Option ℕ
unfolding name_matches
kiosk_seq kiosk [] = none
kiosk_seq kiosk ((i, name) ∷ rest) =
    if name_matches kiosk name then some i else kiosk_seq kiosk rest

-- `[name for seq, name in ordered if seq >= kiosk_seq]`, where there is one.
unfoldable pub names_at : Option ℕ → List Numbered → Option (List Text)
names_at none ordered = none
names_at (some k) ordered = some (map (λ e. e.1) (keep (λ e. leb k e.0) ordered))

-- `_downstream_names`
unfoldable pub downstream_names : List Numbered → Text → Option (List Text)
unfolding kiosk_seq numbered_leb sorted names_at
downstream_names stops kiosk =
    let ordered = sorted numbered_leb stops in names_at (kiosk_seq kiosk ordered) ordered

-- `direction != requested`, where a direction is asked for.
abbrev pub wanted : Option Direction → Direction → Bool
wanted none d = true
wanted (some r) d = same_direction d r

-- `[(index, _strip_paren(name)) for index, name in enumerate(stops)]`
unfoldable pub enumerate : ℕ → List Text → List Numbered
unfolding strip_paren
enumerate i [] = []
enumerate i (name ∷ names) = (i, strip_paren name) ∷ enumerate (suc i) names

abbrev pub yielded : Direction → Option (List Text) → List (Direction × List Text)
yielded d none = []
yielded d (some names) = (d, drop 1 names) ∷ []

-- The pass of `_iter_route_downstream` for a direction.
unfoldable pub downstream_of :
    RouteInfo → Text → Option Direction → Direction → List (Direction × List Text)
unfolding downstream_names enumerate stops_of
downstream_of info kiosk go_back d = if not (wanted go_back d) then [] else elim (stops_of info d) [
  | [] ↦ []
  | name ∷ names ↦ yielded d (downstream_names (enumerate 0 (name ∷ names)) kiosk)
]

-- `_iter_route_downstream`
unfoldable pub iter_route_downstream :
    RouteInfo → Text → Option Direction → List (Direction × List Text)
unfolding downstream_of
iter_route_downstream info kiosk go_back =
    downstream_of info kiosk go_back outbound ++ downstream_of info kiosk go_back inbound

-- `_is_traffic_controlled`, of the status of a row.
unfoldable pub is_traffic_controlled : StopStatus → Bool
is_traffic_controlled StopStatus.not_stopping = true
is_traffic_controlled _ = false

-- `row.sequence or 9999`
unfoldable pub sequence_or : Option ℕ → ℕ
sequence_or none = 9999
sequence_or (some n) = if n == 0 then 9999 else n

-- The dictionary `best`, with its entries in the order they were added.
unfoldable pub better : RouteStopEstimate → List RouteStopEstimate → List RouteStopEstimate
unfolding sequence_or
better row [] = row ∷ []
better row (old ∷ best) =
    if same_direction old.direction row.direction
    then (if ltb (sequence_or row.sequence) (sequence_or old.sequence)
        then row ∷ best
        else old ∷ best)
    else old ∷ better row best

unfoldable pub dedup_loop : List RouteStopEstimate → List RouteStopEstimate → List RouteStopEstimate
unfolding better
dedup_loop best [] = best
dedup_loop best (row ∷ rows) = dedup_loop (better row best) rows

-- `_dedup_stop_rows_by_direction`
unfoldable pub dedup_stop_rows_by_direction : List RouteStopEstimate → List RouteStopEstimate
unfolding dedup_loop
dedup_stop_rows_by_direction rows = dedup_loop [] rows

-- `_rows_for_stop`
unfoldable pub rows_for_stop :
    List RouteStopEstimate → Text → Option Direction → List RouteStopEstimate
unfolding dedup_stop_rows_by_direction is_traffic_controlled
rows_for_stop rows stop_name direction = dedup_stop_rows_by_direction (
    keep
      (λ row.
        contains stop_name row.stop_name
        && wanted direction row.direction
        && not (is_traffic_controlled row.status))
      rows)

-- `RouteInfo(route)`
abbrev pub no_info : Text → RouteInfo
no_info route = record {
  route_name = route;
  outbound_destination = [];
  inbound_destination = [];
  outbound_stops = [];
  inbound_stops = [];
}

-- `route_info.get(route) or RouteInfo(route)`
abbrev pub info_or : Option RouteInfo → Text → RouteInfo
info_or none route = no_info route
info_or (some i) route = i

abbrev pub destination : RouteInfo → Direction → Text
destination i outbound = i.outbound_destination
destination i inbound = i.inbound_destination

-- `_direction_label_from_info`
unfoldable pub direction_label_from_info : Table RouteInfo → Text → Direction → Text
direction_label_from_info route_info route d =
    elim (destination (info_or (find route route_info) route) d) [
      | [] ↦ elim d [ outbound ↦ codes "去程" | inbound ↦ codes "回程" ]
      | c ∷ dest ↦ codes "往" ++ c ∷ dest
    ]

-- `bool(text) and _name_matches(stop_name, text)`
unfoldable pub ends_at : Text → Text → Bool
unfolding name_matches
ends_at stop_name text = not (text_eq text []) && name_matches stop_name text

-- `_is_terminal_direction`
unfoldable pub is_terminal_direction : Text → Table RouteInfo → Text → Direction → Bool
unfolding ends_at
is_terminal_direction stop_name route_info route d =
    let info = info_or (find route route_info) route in
    if ends_at stop_name info.outbound_destination && ends_at stop_name info.inbound_destination
    then false
    else ends_at stop_name (destination info d)

abbrev pub is_known : Table RouteInfo → Text → Bool
is_known route_info route = elim (find route route_info) [ none ↦ false | some i ↦ true ]

-- The guards of `iter_scoped_stop_etas`.
unfoldable pub in_scope : Table RouteInfo → Text → Option Direction → StopArrival → Bool
unfolding is_traffic_controlled is_terminal_direction
in_scope route_info stop_name go_back stop =
    if is_traffic_controlled stop.status
    then false
    else if text_eq stop.route_name [] || not (is_known route_info stop.route_name)
    then false
    else elim go_back [
      | some d ↦ same_direction stop.direction d
      | none ↦ not (is_terminal_direction stop_name route_info stop.route_name stop.direction)
    ]

-- `iter_scoped_stop_etas`; the route and its id are the row's `route_name`.
unfoldable pub iter_scoped_stop_etas :
    List StopArrival → Table RouteInfo → Text → Option Direction → List StopArrival
unfolding in_scope
iter_scoped_stop_etas eta_data route_info stop_name go_back =
    keep (in_scope route_info stop_name go_back) eta_data
