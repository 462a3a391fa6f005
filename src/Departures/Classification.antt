-- ===== src/Departures/Classification.antt =====
-- backend/services/departures/classification.py: what a rider is told of one row. Python's `int` of
-- a text is the argument `int_of`, with none for a text that it refuses.
pub mod Decisions
use taigi_agent.Prelude.{
  ℕ, ◌+◌, ◌-◌, ◌*◌, ◌/◌, ◌%◌, Bool, true, false, ◌&&◌, ◌||◌, Option, none, some, List, [], ◌∷◌,
  ◌++◌, ltb, leb, ◌==◌, if◌then◌else◌, Text, codes,
}
use taigi_agent.Prelude.Int.{ℤ, pos, negsuc}
use taigi_agent.Pipeline.Numerals.{mins_zh}
use taigi_agent.Departures.Bus.{StopStatus, round_div, second, seconds_until}

pub data Section : Type 0 where
  available not_departed last_departed unknown : Section

pub data Decision : Type 0 where
  arriving_soon can_wait long_wait not_departed last_departed unknown : Decision

pub record StopClassification : Type 0 where
  pub section : Section
  pub decision : Decision
  pub status_text : Text
  pub decision_text : Text
  pub minutes : Option ℕ
  pub scheduled_time : Option Text
  pub sort_priority : ℕ
  pub sort_minutes : ℕ

abbrev pub arriving_soon_max_min : ℕ
arriving_soon_max_min = 3

abbrev pub can_wait_max_min : ℕ
can_wait_max_min = 20

-- The instant of a classification, and the midnight that its day began with.
pub record Now : Type 0 where
  pub instant : ℕ
  pub midnight : ℕ

-- What the classifier reads of a row of either kind.
pub record Seen : Type 0 where
  pub status : StopStatus
  pub eta_seconds : Option ℤ
  pub scheduled_time : Option Text
  pub arrival_at : Option ℕ

unfoldable pub unknown_stop : StopClassification
unknown_stop = record {
  section = Section.unknown;
  decision = Decision.unknown;
  status_text = codes "狀態不明";
  decision_text = codes "資料異常";
  minutes = none;
  scheduled_time = none;
  sort_priority = 400;
  sort_minutes = 9999;
}

unfoldable pub last_departed_stop : StopClassification
last_departed_stop = record {
  section = Section.last_departed;
  decision = Decision.last_departed;
  status_text = codes "末班駛離";
  decision_text = codes "末班已過";
  minutes = none;
  scheduled_time = none;
  sort_priority = 300;
  sort_minutes = 9999;
}

unfoldable pub not_operating_stop : StopClassification
not_operating_stop = record {
  section = Section.unknown;
  decision = Decision.unknown;
  status_text = codes "今日未營運";
  decision_text = codes "今日未營運";
  minutes = none;
  scheduled_time = none;
  sort_priority = 400;
  sort_minutes = 9999;
}

-- `s.split(":")`, the parts before the last and the last.
unfoldable pub split_colon : Text → Text → List Text
split_colon part [] = part ∷ []
split_colon part (c ∷ s) =
    if c == b':' then part ∷ split_colon [] s else split_colon (part ++ c ∷ []) s

abbrev pub minute : ℕ
minute = 60 * second

-- `round((target - now).total_seconds() / 60)`, where it is not negative. A target less than half a
-- minute past rounds to 0.
unfoldable pub minutes_ahead : ℕ → ℕ → Option ℕ
unfolding round_div
minutes_ahead target now =
    if leb now target
    then some (round_div (target - now) minute)
    else if leb (2 * (now - target)) minute
    then some 0
    else none

-- `now.replace(hour=h, minute=m)`, which refuses what is no time of day.
unfoldable pub target_of : Now → Option ℕ → Option ℕ → Option ℕ
target_of now (some h) (some m) =
    if ltb h 24 && ltb m 60 then some (now.midnight + (h * 60 + m) * minute) else none
target_of now _ _ = none

-- The minutes to a departure that the timetable gives.
unfoldable pub minutes_to_time : (Text → Option ℕ) → Now → List Text → Option ℕ
unfolding target_of minutes_ahead
minutes_to_time int_of now (h ∷ m ∷ []) = elim (target_of now (int_of h) (int_of m)) [
  | none ↦ none
  | some target ↦ minutes_ahead target now.instant
]
minutes_to_time int_of now _ = none

unfoldable pub scheduled_minutes : (Text → Option ℕ) → Now → Option Text → Option ℕ
unfolding minutes_to_time split_colon
scheduled_minutes int_of now none = none
scheduled_minutes int_of now (some []) = none
scheduled_minutes int_of now (some (c ∷ t)) = minutes_to_time int_of now (split_colon [] (c ∷ t))

abbrev pub minutes_or : Option ℕ → ℕ → ℕ
minutes_or none d = d
minutes_or (some m) d = m

unfoldable pub not_departed_stop : Option Text → Option ℕ → StopClassification
not_departed_stop time minutes = record {
  section = Section.not_departed;
  decision = Decision.not_departed;
  status_text = codes "未發車";
  decision_text = codes "尚未發車";
  minutes = minutes;
  scheduled_time = time;
  sort_priority = 200;
  sort_minutes = minutes_or minutes 9999;
}

unfoldable pub arriving_soon_stop : ℕ → StopClassification
arriving_soon_stop n = record {
  section = Section.available;
  decision = Decision.arriving_soon;
  status_text = codes "即將到站";
  decision_text = codes "即將到站";
  minutes = some n;
  scheduled_time = none;
  sort_priority = 0;
  sort_minutes = n;
}

unfoldable pub waiting_stop : Decision → Text → ℕ → ℕ → StopClassification
waiting_stop d label priority n = record {
  section = Section.available;
  decision = d;
  status_text = codes "約" ++ (mins_zh n ++ codes "分鐘後");
  decision_text = label;
  minutes = some n;
  scheduled_time = none;
  sort_priority = priority;
  sort_minutes = n;
}

-- The branches on `minutes = eta_seconds // 60`; a negative ETA has negative minutes.
unfoldable pub available_stop : ℤ → StopClassification
unfolding arriving_soon_stop waiting_stop
available_stop (negsuc n) = arriving_soon_stop 0
available_stop (pos seconds) =
    let minutes = seconds / 60 in
    if leb minutes arriving_soon_max_min
    then arriving_soon_stop minutes
    else if leb minutes can_wait_max_min
    then waiting_stop Decision.can_wait (codes "可以等") 10 minutes
    else waiting_stop Decision.long_wait (codes "等待較久") 20 minutes

unfoldable pub by_status :
    (Text → Option ℕ) → Now → StopStatus → Option Text → Option ℤ → StopClassification
unfolding unknown_stop last_departed_stop not_operating_stop not_departed_stop available_stop
    scheduled_minutes
by_status int_of now StopStatus.last_departed time eta = last_departed_stop
by_status int_of now StopStatus.not_operating time eta = not_operating_stop
by_status int_of now StopStatus.not_departed time eta =
    not_departed_stop time (scheduled_minutes int_of now time)
by_status int_of now StopStatus.available time (some eta) = available_stop eta
by_status int_of now StopStatus.available time none = unknown_stop
by_status int_of now StopStatus.not_stopping time eta = unknown_stop
by_status int_of now StopStatus.unknown time eta = unknown_stop

-- `_classify_stop`
unfoldable pub classify_stop : (Text → Option ℕ) → Now → Seen → StopClassification
unfolding by_status seconds_until
classify_stop int_of now stop =
    by_status int_of now stop.status stop.scheduled_time
      (seconds_until stop.arrival_at stop.eta_seconds now.instant)
