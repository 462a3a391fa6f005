-- ===== src/Departures/Bus.antt =====
-- backend/providers/bus.py: the rows that every bus provider delivers. An instant is a number of
-- microseconds.
use taigi_agent.Prelude.{
  ℕ, ◌+◌, ◌-◌, ◌*◌, ◌/◌, ◌%◌, Bool, true, false, Option, none, some, List, ltb, leb, ◌==◌,
  if◌then◌else◌, Text,
}
use taigi_agent.Prelude.Int.{ℤ, pos, negsuc}

pub data Direction : Type 0 where
  outbound inbound : Direction

-- `==` on directions.
abbrev pub same_direction : Direction → Direction → Bool
same_direction outbound outbound = true
same_direction inbound inbound = true
same_direction outbound inbound = false
same_direction inbound outbound = false

-- `int(direction)`
abbrev pub direction_int : Direction → ℕ
direction_int outbound = 0
direction_int inbound = 1

pub data StopStatus : Type 0 where
  available not_departed not_stopping last_departed not_operating unknown : StopStatus

pub record RouteInfo : Type 0 where
  pub route_name : Text
  pub outbound_destination : Text
  pub inbound_destination : Text
  pub outbound_stops : List Text
  pub inbound_stops : List Text

-- `RouteInfo.stops`
unfoldable pub stops_of : RouteInfo → Direction → List Text
stops_of i outbound = i.outbound_stops
stops_of i inbound = i.inbound_stops

pub record StopArrival : Type 0 where
  pub route_name : Text
  pub direction : Direction
  pub status : StopStatus
  pub eta_seconds : Option ℤ
  pub sequence : Option ℕ
  pub scheduled_time : Option Text
  pub vehicle_id : Option Text
  pub arrival_at : Option ℕ

pub record RouteStopEstimate : Type 0 where
  pub stop_name : Text
  pub sequence : Option ℕ
  pub direction : Direction
  pub status : StopStatus
  pub eta_seconds : Option ℤ
  pub scheduled_time : Option Text
  pub vehicle_id : Option Text
  pub route_name : Option Text
  pub arrival_at : Option ℕ

-- Python's `round(n / d)`: to the nearest, and from the middle to the even neighbour.
unfoldable pub round_div : ℕ → ℕ → ℕ
round_div n d =
    if ltb (2 * (n % d)) d
    then n / d
    else if ltb d (2 * (n % d))
    then n / d + 1
    else n / d + (n / d) % 2

abbrev pub second : ℕ
second = 1_000_000

-- The negative of a number.
abbrev pub negated : ℕ → ℤ
negated n = if n == 0 then pos 0 else negsuc (n - 1)

-- `round((arrival_at - now).total_seconds())`
unfoldable pub whole_seconds : ℕ → ℕ → ℤ
unfolding round_div
whole_seconds arrival now =
    if leb now arrival
    then pos (round_div (arrival - now) second)
    else negated (round_div (now - arrival) second)

-- `_seconds_until`
unfoldable pub seconds_until : Option ℕ → Option ℤ → ℕ → Option ℤ
unfolding whole_seconds
seconds_until none eta now = eta
seconds_until (some arrival) eta now = some (whole_seconds arrival now)
