-- ===== src/Tests/Routes.antt =====
-- Route numbers that speech recognition confuses, with the costs that
-- backend/services/departures/fuzzy_match.py gives by default.
use taigi_agent.Prelude.{◌≡◌, refl, codes}
use taigi_agent.Departures.FuzzyMatch.{weighted_route_edit_distance}
use taigi_agent.Departures.FuzzyMatch.Scripts.{Least}
use taigi_agent.Departures.FuzzyMatch.Optimal.{weighted_route_edit_distance-Least}

swapped : weighted_route_edit_distance 10 20 (codes "7112") (codes "7121") ≡ 9
unfolding weighted_route_edit_distance
swapped = refl

confused : weighted_route_edit_distance 10 20 (codes "7134") (codes "7130") ≡ 4
unfolding weighted_route_edit_distance
confused = refl

leading_digit : weighted_route_edit_distance 10 20 (codes "702") (codes "102") ≡ 10
unfolding weighted_route_edit_distance
leading_digit = refl

shorter : weighted_route_edit_distance 10 20 (codes "201") (codes "20") ≡ 20
unfolding weighted_route_edit_distance
shorter = refl

weighted_route_edit_distance-Least_example :
    Least 10 20
      (codes "7112")
      (codes "7121")
      4
      4
      (weighted_route_edit_distance 10 20 (codes "7112") (codes "7121"))
weighted_route_edit_distance-Least_example =
    weighted_route_edit_distance-Least 10 20 (codes "7112") (codes "7121")
