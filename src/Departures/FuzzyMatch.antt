-- ===== src/Departures/FuzzyMatch.antt =====
-- The edit distance between route numbers of backend/services/departures/fuzzy_match.py. Costs are
-- counted in tenths, so that their sums are exact where the source rounds floats.
pub mod Scripts
pub mod Optimal
use taigi_agent.Prelude.{
  ℕ, zero, suc, ◌+◌, ◌-◌, ◌*◌, min, Bool, true, false, not, ◌&&◌, ◌||◌, List, [], ◌∷◌, any, length,
  ltb, ◌==◌, if◌then◌else◌, Text,
}

abbrev pub confused_sub_cost : ℕ
confused_sub_cost = 4

abbrev pub transpose_cost : ℕ
transpose_cost = 9

-- The pairs of `_DIGIT_CONFUSION`.
abbrev pub digit_confusion : List (ℕ × ℕ)
digit_confusion = (b'1', b'7') ∷ (b'0', b'4') ∷ (b'2', b'8') ∷ (b'6', b'9') ∷ []

unfoldable pub is_confused : ℕ → ℕ → Bool
is_confused a b = any (λ p. (a == p.0 && b == p.1) || (a == p.1 && b == p.0)) digit_confusion

-- `_digit_sub_cost`
unfoldable pub digit_sub_cost : ℕ → ℕ → ℕ → Bool → ℕ
unfolding is_confused
digit_sub_cost a b base leading =
    if a == b then 0 else if not leading && is_confused a b then confused_sub_cost else base

-- The character at a place; the places that are read are those of the text.
abbrev pub at : Text → ℕ → ℕ
at [] n = 0
at (c ∷ s) zero = c
at (c ∷ s) (suc n) = at s n

-- `dp`, as what stands at each row and column.
abbrev pub Table : Type 0
Table = ℕ → ℕ → ℕ

abbrev pub put : ℕ → ℕ → ℕ → Table → Table
put i j v dp x y = if (x == i) && (y == j) then v else dp x y

module _ (sub_cost indel_cost : ℕ) (a b : Text) where
  -- The table with its first column and its first row.
  unfoldable pub borders : Table
  borders x y = if y == 0 then x * indel_cost else if x == 0 then y * indel_cost else 0

  -- The cost at row `i + 1` and column `j + 1`, without a transposition.
  unfoldable pub single_edit : Table → ℕ → ℕ → ℕ
  unfolding digit_sub_cost
  single_edit dp i j = min (dp i (suc j) + indel_cost) (
      min (dp (suc i) j + indel_cost)
        (dp i j + digit_sub_cost (at a i) (at b j) sub_cost (i == 0 && j == 0)))

  -- Whether the last two characters are swapped.
  unfoldable pub is_swapped : ℕ → ℕ → Bool
  is_swapped i j = ltb 0 i && ltb 0 j && at a i == at b (j - 1) && at a (i - 1) == at b j

  unfoldable pub cell : Table → ℕ → ℕ → ℕ
  unfolding single_edit is_swapped
  cell dp i j =
      if is_swapped i j
      then min (single_edit dp i j) (dp (i - 1) (j - 1) + transpose_cost)
      else single_edit dp i j

  -- Row `i + 1` up to a column, and the rows up to one.
  unfoldable pub fill_row : ℕ → ℕ → Table → Table
  unfolding cell
  fill_row i zero dp = dp
  fill_row i (suc j) dp =
      let before = fill_row i j dp in put (suc i) (suc j) (cell before i j) before

  unfoldable pub fill_rows : ℕ → Table
  unfolding fill_row borders
  fill_rows zero = borders
  fill_rows (suc i) = fill_row i (length b) (fill_rows i)

  -- `_weighted_route_edit_distance`
  unfoldable pub weighted_route_edit_distance : ℕ
  unfolding fill_rows
  weighted_route_edit_distance = fill_rows (length a) (length a) (length b)
