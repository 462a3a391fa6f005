-- ===== src/Tests/Departures.antt =====
-- Runs of backend/services/departures, on a stop with two routes at ten o'clock.
use taigi_agent.Prelude.{
  ℕ, ◌+◌, ◌-◌, ◌*◌, ◌≡◌, ◌↔◌, refl, ◌&&◌, Option, none, some, List, [], ◌∷◌, ◌++◌, map, tally, any,
  All, leb, if◌then◌else◌, Text, codes,
}
use taigi_agent.Prelude.Int.{ℤ, pos, negsuc}
use taigi_agent.Prelude.Table.{Table, find}
use taigi_agent.Prelude.Sorting.{sorted}
use taigi_agent.Pipeline.Numerals.{count_to_chinese, mins_zh}
use taigi_agent.Pipeline.Numerals.Reading.{read_minutes, read_minutes-mins_zh}
use taigi_agent.Departures.Bus.{
  Direction, StopStatus, RouteInfo, StopArrival, RouteStopEstimate, second,
}
use taigi_agent.Departures.Classification.{Now, Seen, classify_stop, scheduled_minutes}
use taigi_agent.Departures.Classification.Decisions.{Decides, seconds_left, classify_stop-Decides}
use taigi_agent.Departures.Rows.{iter_route_downstream, iter_scoped_stop_etas, strip_paren}
use taigi_agent.Departures.Rows.Downstream.{reached, iter_route_downstream_lem}
use taigi_agent.Departures.Snapshot.{
  StopDepartureSnapshot, DepartureRouteDetail, DepartureRouteStatus, ready, not_found, sort_key_leb,
  snapshot_loop, summary_of, same_key, dedupe_key, build_departure_snapshot, directions_of,
  build_route_detail,
}
use taigi_agent.Departures.Snapshot.Board.{BelongsHere, InOrder, board-InOrder, board-BelongHere}
use taigi_agent.Departures.Snapshot.Keys.{key_of, snapshot_keys}
use taigi_agent.Departures.Snapshot.Detail.{
  IsWhole, is_listed, route_detail-AreWhole, route_detail_not_found_iff,
}

-- `int` on a row of ASCII digits.
read_int : ℕ → Text → Option ℕ
read_int acc [] = some acc
read_int acc (c ∷ s) = if leb 48 c && leb c 57 then read_int (acc * 10 + (c - 48)) s else none

abbrev int_of : Text → Option ℕ
int_of [] = none
int_of (c ∷ s) = read_int 0 (c ∷ s)

abbrev ten_o_clock : Now
ten_o_clock = record { instant = 36_000 * second; midnight = 0 }

abbrev coming : Seen
coming = record {
  status = StopStatus.available;
  eta_seconds = some (pos 900);
  scheduled_time = none;
  arrival_at = some (36_000 * second + 245_400_000);
}

-- The arrival counts, not the older ETA: 245 seconds are four minutes.
coming_soon : (classify_stop int_of ten_o_clock coming).status_text ≡ codes "約四分鐘後"
unfolding classify_stop mins_zh count_to_chinese
coming_soon = refl

timetabled : scheduled_minutes int_of ten_o_clock (some (codes "10:25")) ≡ some 25
unfolding scheduled_minutes read_int
timetabled = refl

stripped : strip_paren (codes "持法媽祖宮 (頂溪) ") ≡ codes "持法媽祖宮"
unfolding strip_paren
stripped = refl

classify_stop-Decides_example :
    Decides
      (classify_stop int_of ten_o_clock coming).decision
      StopStatus.available
      (seconds_left ten_o_clock coming)
classify_stop-Decides_example = classify_stop-Decides int_of ten_o_clock coming

read_minutes-mins_zh_example : read_minutes (mins_zh 42) ≡ 42
read_minutes-mins_zh_example = read_minutes-mins_zh 42

abbrev route_201 : RouteInfo
route_201 = record {
  route_name = codes "201";
  outbound_destination = codes "斗六";
  inbound_destination = codes "北港";
  outbound_stops = codes "北港" ∷ codes "雲科大(正門)" ∷ codes "斗六" ∷ [];
  inbound_stops = codes "斗六" ∷ codes "雲科大" ∷ codes "北港" ∷ [];
}

abbrev route_info : Table RouteInfo
route_info = (codes "201", route_201) ∷ (codes "7", route_201) ∷ []

iter_route_downstream_lem_example :
    iter_route_downstream route_201 (codes "雲科大") none
    ≡ reached route_201 (codes "雲科大") none Direction.outbound
      ++ reached route_201 (codes "雲科大") none Direction.inbound
iter_route_downstream_lem_example = iter_route_downstream_lem route_201 (codes "雲科大") none

abbrev arrival : Text → Direction → StopStatus → Option ℤ → StopArrival
arrival route d status eta = record {
  route_name = route;
  direction = d;
  status = status;
  eta_seconds = eta;
  sequence = none;
  scheduled_time = none;
  vehicle_id = some [];
  arrival_at = none;
}

abbrev arrivals : List StopArrival
arrivals =
    arrival (codes "7") Direction.outbound StopStatus.available (some (pos 600))
    ∷ arrival (codes "201") Direction.inbound StopStatus.available (some (pos 90))
    ∷ arrival (codes "201") Direction.inbound StopStatus.available (some (negsuc 4))
    ∷ arrival (codes "201") Direction.outbound StopStatus.not_stopping none
    ∷ arrival (codes "99") Direction.outbound StopStatus.available (some (pos 60))
    ∷ []

abbrev entries : List DepartureRouteStatus
entries = sorted sort_key_leb (
    snapshot_loop int_of ten_o_clock route_info []
      (iter_scoped_stop_etas arrivals route_info (codes "雲科大") none))

abbrev board : StopDepartureSnapshot
board = record {
  stop_name = codes "雲科大";
  direction_filter = none;
  updated_at = 36_000 * second;
  routes = entries;
  summary = summary_of entries;
}

built :
    build_departure_snapshot int_of ten_o_clock
      (some (some arrivals, route_info))
      (codes "雲科大")
      none
      (36_000 * second)
    ≡ some board
unfolding build_departure_snapshot
built = refl

-- Two of the five rows are shown, the nearer first.
shown_ids : map (λ r. r.id) entries ≡ codes "201-1" ∷ codes "7-0" ∷ []
unfolding sorted snapshot_loop iter_scoped_stop_etas find classify_stop sort_key_leb
shown_ids = refl

board-InOrder_example : InOrder entries
board-InOrder_example =
    board-InOrder int_of ten_o_clock arrivals route_info (codes "雲科大") none (36_000 * second) board
      built

board-BelongHere_example : All (BelongsHere route_info (codes "雲科大") none) entries
board-BelongHere_example =
    board-BelongHere int_of ten_o_clock arrivals route_info (codes "雲科大") none (36_000 * second)
      board built

snapshot_keys_example :
    tally
      (λ r.
        same_key
          (key_of r)
          (record { route = codes "201"; go_back = 1; status_text = codes "即將到站" }))
      entries
    ≡ (if any
          (λ s.
            same_key
              (dedupe_key int_of ten_o_clock s)
              (record { route = codes "201"; go_back = 1; status_text = codes "即將到站" }))
          (iter_scoped_stop_etas arrivals route_info (codes "雲科大") none)
        then 1
        else 0)
snapshot_keys_example =
    snapshot_keys int_of ten_o_clock arrivals route_info (codes "雲科大") none (36_000 * second) board
      (record { route = codes "201"; go_back = 1; status_text = codes "即將到站" }) built

abbrev estimate : Text → Option ℕ → Direction → RouteStopEstimate
estimate name n d = record {
  stop_name = name;
  sequence = n;
  direction = d;
  status = StopStatus.available;
  eta_seconds = some (pos 300);
  scheduled_time = none;
  vehicle_id = none;
  route_name = none;
  arrival_at = none;
}

abbrev estimates : List RouteStopEstimate
estimates =
    estimate (codes "斗六") (some 3) Direction.outbound
    ∷ estimate (codes "雲科大") (some 2) Direction.outbound
    ∷ estimate (codes " ") (some 4) Direction.outbound
    ∷ []

abbrev detail : DepartureRouteDetail
detail = record {
  route = codes "201";
  route_id = codes "201";
  stop_name = codes "雲科大";
  direction_filter = none;
  directions =
      directions_of int_of ten_o_clock route_info (codes "201") (codes "雲科大") none estimates;
}

detailed :
    build_route_detail int_of ten_o_clock
      (some route_info)
      (some (some estimates))
      (codes "201")
      (codes "雲科大")
      none
    ≡ ready detail
unfolding build_route_detail find
detailed = refl

route_detail-AreWhole_example :
    All
      (IsWhole int_of ten_o_clock route_info (codes "201") (codes "雲科大") none estimates)
      detail.directions
route_detail-AreWhole_example =
    route_detail-AreWhole int_of ten_o_clock route_info estimates (codes "201") (codes "雲科大") none
      detail detailed

found_201 : find (codes "201") route_info ≡ some route_201
unfolding find
found_201 = refl

route_detail_not_found_iff_example :
    (build_route_detail int_of ten_o_clock
        (some route_info)
        (some (some estimates))
        (codes "201")
        (codes "雲科大")
        (some Direction.inbound)
      ≡ not_found)
    ↔ (tally (is_listed (some Direction.inbound)) estimates ≡ 0)
route_detail_not_found_iff_example =
    route_detail_not_found_iff int_of ten_o_clock route_info route_201 estimates (codes "201")
      (codes "雲科大") (some Direction.inbound) found_201
