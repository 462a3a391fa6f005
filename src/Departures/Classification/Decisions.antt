-- ===== src/Departures/Classification/Decisions.antt =====
-- What a decision of backend/services/departures/classification.py promises a rider.
use taigi_agent.Prelude.{
  ℕ, ◌/◌, ◌≤◌, ◌<◌, ◌≡◌, ◌⊎◌, inl, inr, refl, Option, none, some, arith, leb, Bool-cases, Text,
}
use taigi_agent.Prelude.Int.{ℤ, pos, negsuc}
use taigi_agent.Departures.Bus.{StopStatus, seconds_until}
use taigi_agent.Departures.Classification.{
  Section, Decision, StopClassification, Now, Seen, available_stop, by_status, classify_stop,
  minutes_or,
}

-- The seconds to the arrival, at the instant of the classification.
abbrev pub seconds_left : Now → Seen → Option ℤ
seconds_left now stop = seconds_until stop.arrival_at stop.eta_seconds now.instant

-- The seconds lie from `a` up to `b`; those of the past lie below every bound.
abbrev pub Within : ℕ → ℕ → Option ℤ → Type 0
Within a b (some (pos n)) = (a ≤ n) × (n < b)
Within a b (some (negsuc n)) = a ≡ 0
Within a b none = ⊥

abbrev pub AtLeast : ℕ → Option ℤ → Type 0
AtLeast a (some (pos n)) = a ≤ n
AtLeast a _ = ⊥

-- The decision for a bus on the road, against the seconds that it has left.
abbrev pub Decides : Decision → StopStatus → Option ℤ → Type 0
Decides Decision.arriving_soon s e = (s ≡ StopStatus.available) × Within 0 240 e
Decides Decision.can_wait s e = (s ≡ StopStatus.available) × Within 240 1260 e
Decides Decision.long_wait s e = (s ≡ StopStatus.available) × AtLeast 1260 e
Decides Decision.not_departed s e = s ≡ StopStatus.not_departed
Decides Decision.last_departed s e = s ≡ StopStatus.last_departed
Decides Decision.unknown s e =
    (s ≡ StopStatus.unknown)
    ⊎ (s ≡ StopStatus.not_stopping)
    ⊎ (s ≡ StopStatus.not_operating)
    ⊎ ((s ≡ StopStatus.available) × (e ≡ none))

available_stop-Decides : (e : ℤ) → Decides (available_stop e).decision StopStatus.available (some e)
unfolding available_stop
available_stop-Decides (negsuc n) = (refl, refl)
available_stop-Decides (pos n) = elim (Bool-cases (leb (n / 60) 3)) [
  | inl t ↦ let soon : n / 60 ≤ 3 = ground arith in rw t (refl, (omega arith, omega arith))
  | inr t ↦
      let late : 3 < n / 60 = ground arith in
      elim (Bool-cases (leb (n / 60) 20)) [
        | inl u ↦
            let fair : n / 60 ≤ 20 = ground arith in rw (t, u) (refl, (omega arith, omega arith))
        | inr u ↦ let far : 20 < n / 60 = ground arith in rw (t, u) (refl, omega arith)
      ]
]

by_status-Decides :
    (int_of : Text → Option ℕ) (now : Now) (s : StopStatus) (time : Option Text) (e : Option ℤ)
    → Decides (by_status int_of now s time e).decision s e
unfolding by_status
by_status-Decides int_of now StopStatus.last_departed time e = refl
by_status-Decides int_of now StopStatus.not_operating time e = inr (inr (inl refl))
by_status-Decides int_of now StopStatus.not_departed time e = refl
by_status-Decides int_of now StopStatus.available time (some e) = available_stop-Decides e
by_status-Decides int_of now StopStatus.available time none = inr (inr (inr (refl, refl)))
by_status-Decides int_of now StopStatus.not_stopping time e = inr (inl refl)
by_status-Decides int_of now StopStatus.unknown time e = inl refl

-- The decision says what the row says: a bus that is on the road arrives soon with less than 4
-- minutes left, its ETA in the past included, can be waited for with 4 to less than 21 minutes,
-- and is a long wait from 21 minutes on; the other decisions name the status of the row, and
-- `unknown` also a bus on the road without an ETA.
pub classify_stop-Decides :
    (int_of : Text → Option ℕ) (now : Now) (stop : Seen)
    → Decides (classify_stop int_of now stop).decision stop.status (seconds_left now stop)
unfolding classify_stop
classify_stop-Decides int_of now stop =
    by_status-Decides int_of now stop.status stop.scheduled_time (seconds_left now stop)

abbrev pub section_of : Decision → Section
section_of Decision.not_departed = Section.not_departed
section_of Decision.last_departed = Section.last_departed
section_of Decision.unknown = Section.unknown
section_of _ = Section.available

abbrev pub priority_of : Decision → ℕ
priority_of Decision.arriving_soon = 0
priority_of Decision.can_wait = 10
priority_of Decision.long_wait = 20
priority_of Decision.not_departed = 200
priority_of Decision.last_departed = 300
priority_of Decision.unknown = 400

-- The fields of a classification agree: the decision gives the section and the tier, and the
-- minutes shown are the minutes that the list is sorted by.
pub record IsConsistent (c : StopClassification) : Type 0 where
  pub section : c.section ≡ section_of c.decision
  pub priority : c.sort_priority ≡ priority_of c.decision
  pub minutes : c.sort_minutes ≡ minutes_or c.minutes 9999
  pub timed : c.section ≡ Section.available → (m : ℕ) × (c.minutes ≡ some m)

available_stop-IsConsistent : (e : ℤ) → IsConsistent (available_stop e)
unfolding available_stop
available_stop-IsConsistent (negsuc n) = record {
  section = refl;
  priority = refl;
  minutes = refl;
  timed = λ _. (0, refl);
}
available_stop-IsConsistent (pos n) = elim (Bool-cases (leb (n / 60) 3)) [
  | inl t ↦
      rw t (record { section = refl; priority = refl; minutes = refl; timed = λ _. (n / 60, refl) })
  | inr t ↦ elim (Bool-cases (leb (n / 60) 20)) [
    | inl u ↦
        rw (t, u)
          (record { section = refl; priority = refl; minutes = refl; timed = λ _. (n / 60, refl) })
    | inr u ↦
        rw (t, u)
          (record { section = refl; priority = refl; minutes = refl; timed = λ _. (n / 60, refl) })
  ]
]

by_status-IsConsistent :
    (int_of : Text → Option ℕ) (now : Now) (s : StopStatus) (time : Option Text) (e : Option ℤ)
    → IsConsistent (by_status int_of now s time e)
unfolding by_status
by_status-IsConsistent int_of now StopStatus.available time (some e) = available_stop-IsConsistent e
by_status-IsConsistent int_of now _ time e = record {
  section = refl;
  priority = refl;
  minutes = refl;
  timed = λ h. cc;
}

-- Every classification is consistent, and one of a bus on the road has its minutes.
classify_stop-IsConsistent :
    (int_of : Text → Option ℕ) (now : Now) (stop : Seen)
    → IsConsistent (classify_stop int_of now stop)
unfolding classify_stop
classify_stop-IsConsistent int_of now stop =
    by_status-IsConsistent int_of now stop.status stop.scheduled_time (seconds_left now stop)
