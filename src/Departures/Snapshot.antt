-- ===== src/Departures/Snapshot.antt =====
-- backend/services/departures/snapshot.py: the board of a stop and the stops of a route. What the
-- provider delivers is an argument, with none for a call that raised; the counters of the telemetry
-- are left out.
pub mod Board
pub mod Keys
pub mod Detail
use taigi_agent.Prelude.{
  ℕ, ◌+◌, Bool, true, false, not, ◌&&◌, ◌||◌, Option, none, some, List, [], ◌∷◌, ◌++◌, map, tally,
  any, ltb, leb, ◌==◌, if◌then◌else◌, Text, codes, contains, text_eq, text_leb, strip,
}
use taigi_agent.Prelude.Table.{Table, find}
use taigi_agent.Prelude.Sorting.{sorted}
use taigi_agent.Pipeline.Numerals.{str}
use taigi_agent.Departures.Bus.{
  Direction, outbound, inbound, same_direction, direction_int, StopStatus, RouteInfo, StopArrival,
  RouteStopEstimate,
}
use taigi_agent.Departures.Classification.{
  Section, Decision, StopClassification, Now, Seen, classify_stop,
}
use taigi_agent.Departures.Rows.{
  wanted, is_traffic_controlled, direction_label_from_info, iter_scoped_stop_etas,
}

pub record DepartureRouteStatus : Type 0 where
  pub id : Text
  pub route : Text
  pub route_id : Text
  pub direction : Text
  pub go_back : ℕ
  pub section : Section
  pub decision : Decision
  pub status_text : Text
  pub decision_text : Text
  pub minutes : Option ℕ
  pub scheduled_time : Option Text
  pub sort_priority : ℕ
  pub sort_minutes : ℕ
  pub car_id : Option Text

pub record DepartureSummary : Type 0 where
  pub available_count : ℕ
  pub not_departed_count : ℕ
  pub last_departed_count : ℕ
  pub unknown_count : ℕ

pub record StopDepartureSnapshot : Type 0 where
  pub stop_name : Text
  pub direction_filter : Option Direction
  pub updated_at : ℕ
  pub routes : List DepartureRouteStatus
  pub summary : DepartureSummary

pub record RouteStopDetail : Type 0 where
  pub seq : ℕ
  pub name : Text
  pub is_current_stop : Bool
  pub status_text : Text
  pub minutes : Option ℕ
  pub scheduled_time : Option Text

pub record RouteDirectionDetail : Type 0 where
  pub go_back : ℕ
  pub label : Text
  pub stops : List RouteStopDetail

pub record DepartureRouteDetail : Type 0 where
  pub route : Text
  pub route_id : Text
  pub stop_name : Text
  pub direction_filter : Option Direction
  pub directions : List RouteDirectionDetail

abbrev pub same_section : Section → Section → Bool
same_section Section.available Section.available = true
same_section Section.not_departed Section.not_departed = true
same_section Section.last_departed Section.last_departed = true
same_section Section.unknown Section.unknown = true
same_section _ _ = false

-- `counts[section]`
unfoldable pub count_of : Section → List DepartureRouteStatus → ℕ
count_of s routes = tally (λ r. same_section r.section s) routes

-- `_summary`
unfoldable pub summary_of : List DepartureRouteStatus → DepartureSummary
unfolding count_of
summary_of routes = record {
  available_count = count_of Section.available routes;
  not_departed_count = count_of Section.not_departed routes;
  last_departed_count = count_of Section.last_departed routes;
  unknown_count = count_of Section.unknown routes;
}

-- The order of the tuples that `_sort_key` gives.
unfoldable pub sort_key_leb : DepartureRouteStatus → DepartureRouteStatus → Bool
sort_key_leb a b =
    if not (a.sort_minutes == b.sort_minutes)
    then ltb a.sort_minutes b.sort_minutes
    else if not (a.sort_priority == b.sort_priority)
    then ltb a.sort_priority b.sort_priority
    else if not (text_eq a.route b.route)
    then text_leb a.route b.route
    else leb a.go_back b.go_back

-- `stop.vehicle_id or None`
abbrev pub car_id_of : Option Text → Option Text
car_id_of none = none
car_id_of (some []) = none
car_id_of (some (c ∷ v)) = some (c ∷ v)

abbrev pub seen_arrival : StopArrival → Seen
seen_arrival stop = record {
  status = stop.status;
  eta_seconds = stop.eta_seconds;
  scheduled_time = stop.scheduled_time;
  arrival_at = stop.arrival_at;
}

abbrev pub seen_estimate : RouteStopEstimate → Seen
seen_estimate stop = record {
  status = stop.status;
  eta_seconds = stop.eta_seconds;
  scheduled_time = stop.scheduled_time;
  arrival_at = stop.arrival_at;
}

-- `(route, stop_direction, c.status_text)`
pub record DedupeKey : Type 0 where
  pub route : Text
  pub go_back : ℕ
  pub status_text : Text

unfoldable pub same_key : DedupeKey → DedupeKey → Bool
same_key a b =
    text_eq a.route b.route && (a.go_back == b.go_back && text_eq a.status_text b.status_text)

-- The entry that a row adds to the board.
unfoldable pub route_status :
    Table RouteInfo → StopArrival → StopClassification → DepartureRouteStatus
unfolding direction_label_from_info str
route_status route_info stop c = record {
  id = stop.route_name ++ (codes "-" ++ str (direction_int stop.direction));
  route = stop.route_name;
  route_id = stop.route_name;
  direction = direction_label_from_info route_info stop.route_name stop.direction;
  go_back = direction_int stop.direction;
  section = c.section;
  decision = c.decision;
  status_text = c.status_text;
  decision_text = c.decision_text;
  minutes = c.minutes;
  scheduled_time = c.scheduled_time;
  sort_priority = c.sort_priority;
  sort_minutes = c.sort_minutes;
  car_id = car_id_of stop.vehicle_id;
}

module _ (int_of : Text → Option ℕ) (now : Now) where
  unfoldable pub status_of : Table RouteInfo → StopArrival → DepartureRouteStatus
  unfolding route_status
  status_of route_info stop =
      route_status route_info stop (classify_stop int_of now (seen_arrival stop))

  unfoldable pub dedupe_key : StopArrival → DedupeKey
  dedupe_key stop = record {
    route = stop.route_name;
    go_back = direction_int stop.direction;
    status_text = (classify_stop int_of now (seen_arrival stop)).status_text;
  }

  -- The loop of `build_departure_snapshot`, with the set `seen`.
  unfoldable pub snapshot_loop :
      Table RouteInfo → List DedupeKey → List StopArrival → List DepartureRouteStatus
  unfolding status_of dedupe_key same_key
  snapshot_loop route_info seen [] = []
  snapshot_loop route_info seen (stop ∷ stops) =
      let key = dedupe_key stop in
      if any (same_key key) seen
      then snapshot_loop route_info seen stops
      else status_of route_info stop ∷ snapshot_loop route_info (key ∷ seen) stops

  -- `build_departure_snapshot`; `none` is `DepartureSnapshotUnavailable`. The two fetches give
  -- `none` where one of them raises; `updated_at` is the instant given, or else the clock's.
  unfoldable pub build_departure_snapshot :
      Option (Option (List StopArrival) × Table RouteInfo)
      → Text
      → Option Direction
      → ℕ
      → Option StopDepartureSnapshot
  unfolding snapshot_loop sort_key_leb sorted summary_of iter_scoped_stop_etas
  build_departure_snapshot none stop_name go_back updated_at = none
  build_departure_snapshot (some (none, route_info)) stop_name go_back updated_at = none
  build_departure_snapshot (some (some eta_data, route_info)) stop_name go_back updated_at =
      let ordered = sorted sort_key_leb (
        snapshot_loop route_info []
          (iter_scoped_stop_etas eta_data route_info stop_name go_back)) in
      some (record {
        stop_name = stop_name;
        direction_filter = go_back;
        updated_at = updated_at;
        routes = ordered;
        summary = summary_of ordered;
      })

  unfoldable pub detail_of : RouteStopEstimate → Text → ℕ → Text → RouteStopDetail
  detail_of stop kiosk_stop_name seq name =
      let c = classify_stop int_of now (seen_estimate stop) in
      record {
        seq = seq;
        name = name;
        is_current_stop = contains kiosk_stop_name name;
        status_text = c.status_text;
        minutes = c.minutes;
        scheduled_time = c.scheduled_time;
      }

  -- `_stop_detail_from_row`
  unfoldable pub stop_detail_from_row : RouteStopEstimate → Text → Option RouteStopDetail
  unfolding detail_of
  stop_detail_from_row stop kiosk_stop_name = elim stop.sequence [
    | none ↦ none
    | some seq ↦
        let name = strip stop.stop_name in
        if text_eq name [] then none else some (detail_of stop kiosk_stop_name seq name)
  ]

  -- The loop of `build_route_detail`, as the list that `by_direction` has for a direction, where a
  -- direction without an entry has the empty list.
  unfoldable pub stops_in :
      Option Direction → Text → Direction → List RouteStopEstimate → List RouteStopDetail
  unfolding stop_detail_from_row is_traffic_controlled
  stops_in go_back stop_name d [] = []
  stops_in go_back stop_name d (row ∷ rows) =
      let rest = stops_in go_back stop_name d rows in
      if not (wanted go_back row.direction) || is_traffic_controlled row.status
      then rest
      else elim (stop_detail_from_row row stop_name) [
        | none ↦ rest
        | some detail ↦ if same_direction row.direction d then detail ∷ rest else rest
      ]

unfoldable pub seq_leb : RouteStopDetail → RouteStopDetail → Bool
seq_leb a b = leb a.seq b.seq

-- The entry of `directions` for a direction, where it has stops.
unfoldable pub direction_detail :
    Table RouteInfo → Text → Direction → List RouteStopDetail → List RouteDirectionDetail
unfolding sorted seq_leb direction_label_from_info
direction_detail route_info route d [] = []
direction_detail route_info route d (s ∷ stops) =
    (record {
      go_back = direction_int d;
      label = direction_label_from_info route_info route d;
      stops = sorted seq_leb (s ∷ stops);
    })
    ∷ []

pub data DetailResult : Type 0 where
  ready : DepartureRouteDetail → DetailResult
  not_found : DetailResult
  unavailable : DetailResult

-- `if not directions: raise RouteDetailNotFound`
unfoldable pub with_directions :
    Text → Text → Option Direction → List RouteDirectionDetail → DetailResult
with_directions route stop_name go_back [] = not_found
with_directions route stop_name go_back (d ∷ ds) = ready (record {
  route = route;
  route_id = route;
  stop_name = stop_name;
  direction_filter = go_back;
  directions = d ∷ ds;
})

module _ (int_of : Text → Option ℕ) (now : Now) where
  -- `directions`, in the order of `sorted(by_direction.items())`.
  unfoldable pub directions_of :
      Table RouteInfo
      → Text
      → Text
      → Option Direction
      → List RouteStopEstimate
      → List RouteDirectionDetail
  unfolding direction_detail stops_in
  directions_of route_info route stop_name go_back rows =
      direction_detail route_info route outbound
        (stops_in int_of now go_back stop_name outbound rows)
      ++ direction_detail route_info route inbound
          (stops_in int_of now go_back stop_name inbound rows)

  -- `build_route_detail`; each of the two fetches gives `none` where it raises.
  unfoldable pub build_route_detail :
      Option (Table RouteInfo)
      → Option (Option (List RouteStopEstimate))
      → Text
      → Text
      → Option Direction
      → DetailResult
  unfolding directions_of with_directions
  build_route_detail none estimate route stop_name go_back = unavailable
  build_route_detail (some route_info) estimate route stop_name go_back =
      elim (find route route_info) [
        | none ↦ not_found
        | some info ↦ elim estimate [
          | none ↦ unavailable
          | some none ↦ unavailable
          | some (some rows) ↦
              with_directions route stop_name go_back
                (directions_of route_info route stop_name go_back rows)
        ]
      ]
