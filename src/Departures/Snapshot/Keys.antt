-- ===== src/Departures/Snapshot/Keys.antt =====
-- Which rows the board of backend/services/departures/snapshot.py shows.
use taigi_agent.Prelude.{
  ℕ, ◌+◌, ◌≡◌, inl, inr, refl, sym, subst, Bool, true, false, ◌||◌, Option, some, List, [], ◌∷◌,
  arith, tally, any, if◌then◌else◌, Bool-cases, Text, text_eq_refl, text_eq_sound,
}
use taigi_agent.Prelude.Table.{Table}
use taigi_agent.Prelude.Sorting.{sorted, tally-sorted}
use taigi_agent.Departures.Bus.{Direction, RouteInfo, StopArrival}
use taigi_agent.Departures.Classification.{Now}
use taigi_agent.Departures.Rows.{iter_scoped_stop_etas}
use taigi_agent.Departures.Snapshot.{
  DepartureRouteStatus, StopDepartureSnapshot, DedupeKey, same_key, sort_key_leb, status_of,
  dedupe_key, snapshot_loop, build_departure_snapshot,
}

same_key_sound : (a b : DedupeKey) → same_key a b ≡ true → a ≡ b
unfolding same_key
same_key_sound a b h =
    let route : a.route ≡ b.route = text_eq_sound a.route b.route (ground arith) in
    let go_back : a.go_back ≡ b.go_back = ground arith in
    let status : a.status_text ≡ b.status_text =
      text_eq_sound a.status_text b.status_text (ground arith) in
    same_parts a.route b.route a.go_back b.go_back a.status_text b.status_text route go_back status
  where
    same_parts :
        (r r' : Text) (g g' : ℕ) (t t' : Text)
        → r ≡ r'
        → g ≡ g'
        → t ≡ t'
        → Path DedupeKey
            (record { route = r; go_back = g; status_text = t })
            (record { route = r'; go_back = g'; status_text = t' })
    same_parts r r' g g' t t' e f h = cc

same_key_refl : (a : DedupeKey) → same_key a a ≡ true
unfolding same_key
same_key_refl a = rw (text_eq_refl a.route, text_eq_refl a.status_text) (ground arith)

-- The key that the board shows an entry under.
abbrev pub key_of : DepartureRouteStatus → DedupeKey
key_of r = record { route = r.route; go_back = r.go_back; status_text = r.status_text }

-- One for a row with the key, unless the key was seen before.
abbrev entries_due : Bool → Bool → ℕ
entries_due seen shown = if seen then 0 else if shown then 1 else 0

entries_due-seen :
    (a k : DedupeKey) (seen : List DedupeKey) (shown : Bool)
    → any (same_key a) seen ≡ true
    → entries_due (any (same_key k) seen) shown
      ≡ entries_due (any (same_key k) seen) (same_key a k || shown)
entries_due-seen a k seen shown h = elim (Bool-cases (same_key a k)) [
  | inl t ↦
      let same : any (same_key k) seen ≡ true =
        subst (λ x. any (same_key x) seen ≡ true) (same_key_sound a k t) h in
      rw same refl
  | inr t ↦ rw t refl
]

entries_due-new :
    (a k : DedupeKey) (seen : List DedupeKey) (shown : Bool)
    → any (same_key a) seen ≡ false
    → (if same_key a k then 1 else 0) + entries_due (same_key k a || any (same_key k) seen) shown
      ≡ entries_due (any (same_key k) seen) (same_key a k || shown)
entries_due-new a k seen shown h = elim (Bool-cases (same_key a k)) [
  | inl t ↦
      let unseen : any (same_key k) seen ≡ false =
        subst (λ x. any (same_key x) seen ≡ false) (same_key_sound a k t) h in
      let back : same_key k a ≡ true =
        subst (λ x. same_key k x ≡ true) (sym (same_key_sound a k t)) (same_key_refl k) in
      rw (t, back, unseen) (omega arith)
  | inr t ↦
      let other : same_key k a ≡ false = elim (Bool-cases (same_key k a)) [
        | inr o ↦ o
        | inl o ↦
            let hit : same_key a k ≡ true =
              subst (λ x. same_key x k ≡ true) (same_key_sound k a o) (same_key_refl k) in
            cc
      ] in
      rw (t, other) (omega arith)
]

module _ (int_of : Text → Option ℕ) (now : Now) where
  tally-snapshot_loop :
      (info : Table RouteInfo) (k : DedupeKey) (seen : List DedupeKey) (stops : List StopArrival)
      → tally (λ r. same_key (key_of r) k) (snapshot_loop int_of now info seen stops)
        ≡ entries_due
            (any (same_key k) seen)
            (any (λ s. same_key (dedupe_key int_of now s) k) stops)
  unfolding snapshot_loop status_of
  tally-snapshot_loop info k seen [] = ground arith
  tally-snapshot_loop info k seen (stop ∷ stops) =
      elim (Bool-cases (any (same_key (dedupe_key int_of now stop)) seen)) [
        | inl t ↦
            rw (t, tally-snapshot_loop info k seen stops)
              (entries_due-seen (dedupe_key int_of now stop) k seen _ t)
        | inr t ↦
            rw (t, tally-snapshot_loop info k (dedupe_key int_of now stop ∷ seen) stops)
              (entries_due-new (dedupe_key int_of now stop) k seen _ t)
      ]

  -- Where the board is built at all, it shows one entry for a route, a direction and a status text
  -- that some row in scope has, and none for those that no row has.
  pub snapshot_keys :
      (rows : List StopArrival) (info : Table RouteInfo) (stop_name : Text)
      (go_back : Option Direction) (updated_at : ℕ) (board : StopDepartureSnapshot) (k : DedupeKey)
      → build_departure_snapshot int_of now (some (some rows, info)) stop_name go_back updated_at
        ≡ some board
      → tally (λ r. same_key (key_of r) k) board.routes ≡ (
          if any
            (λ s. same_key (dedupe_key int_of now s) k)
            (iter_scoped_stop_etas rows info stop_name go_back)
          then 1
          else 0)
  unfolding build_departure_snapshot
  snapshot_keys rows info stop_name go_back updated_at board k h = rw (← routes_lem) (
      rw
        (tally-sorted sort_key_leb (λ r. same_key (key_of r) k)
          (snapshot_loop int_of now info [] (iter_scoped_stop_etas rows info stop_name go_back)))
        (tally-snapshot_loop info k [] (iter_scoped_stop_etas rows info stop_name go_back)))
    where
      routes_lem :
          sorted sort_key_leb
            (snapshot_loop int_of now info [] (iter_scoped_stop_etas rows info stop_name go_back))
          ≡ board.routes
      routes_lem = cc
