-- ===== src/Departures/FuzzyMatch/Optimal.antt =====
-- The table of backend/services/departures/fuzzy_match.py holds least costs.
use taigi_agent.Prelude.{
  ℕ, zero, suc, ◌*◌, ◌≤◌, ◌≡◌, inl, inr, refl, sym, subst, Bool, true, false, ◌&&◌, length, ◌==◌,
  Bool-cases, if◌then◌else◌, Text, arith,
}
use taigi_agent.Departures.FuzzyMatch.{
  Table, put, borders, cell, fill_row, fill_rows, weighted_route_edit_distance,
}
use taigi_agent.Departures.FuzzyMatch.Scripts.{Least, column-Least, row-Least, cell-Least}

module _ (sub_cost indel_cost : ℕ) (a b : Text) where
  abbrev Right : Table → ℕ → ℕ → Type 0
  Right dp x y = Least sub_cost indel_cost a b x y (dp x y)

  -- The borders and the rows up to one are right.
  abbrev RightUpTo : Table → ℕ → Type 0
  RightUpTo dp i = ((x : ℕ) → Right dp x 0) × ((x y : ℕ) → x ≤ i → y ≤ length b → Right dp x y)

  -- And of the next row the columns up to one.
  abbrev RightInRow : Table → ℕ → ℕ → Type 0
  RightInRow dp i j = RightUpTo dp i × ((y : ℕ) → y ≤ j → Right dp (suc i) y)

  put-Right :
      (dp : Table) (i j v x y : ℕ)
      → ((x ≡ i) × (y ≡ j) → ⊥)
      → Right dp x y
      → Right (put i j v dp) x y
  put-Right dp i j v x y n h = go ((x == i) && (y == j)) refl
    where
      go :
          (c : Bool)
          → ((x == i) && (y == j)) ≡ c
          → Least sub_cost indel_cost a b x y (if c then v else dp x y)
      go false e = h
      go true e = absurd (n (ground (arith, e), ground (arith, e)))

  put_here :
      (dp : Table) (i j v : ℕ) → Least sub_cost indel_cost a b i j v → Right (put i j v dp) i j
  put_here dp i j v h = go ((i == i) && (j == j)) (ground arith)
    where
      go : (c : Bool) → c ≡ true → Least sub_cost indel_cost a b i j (if c then v else dp i j)
      go true e = h
      go false e = cc

  borders-Right : RightUpTo (borders sub_cost indel_cost a b) 0
  unfolding borders
  borders-Right = (
    λ x. column-Least sub_cost indel_cost a b x,
    λ x y zero_row le. top x y (omega (arith, zero_row)),
  )
    where
      top : (x y : ℕ) → x ≡ 0 → Right (borders sub_cost indel_cost a b) x y
      top x y e = subst (λ n. Right (borders sub_cost indel_cost a b) n y) (sym e) (first_row y)
        where
          first_row : (y : ℕ) → Right (borders sub_cost indel_cost a b) 0 y
          first_row zero = column-Least sub_cost indel_cost a b 0
          first_row (suc y) = go (suc y == 0) (ground arith)
            where
              go :
                  (c : Bool)
                  → c ≡ false
                  → Least sub_cost indel_cost a b 0
                      (suc y)
                      (if c then 0 * indel_cost else if 0 == 0 then suc y * indel_cost else 0)
              go false e = row-Least sub_cost indel_cost a b (suc y)
              go true e = cc

  fill_row-Right :
      (i j : ℕ) (dp : Table)
      → j ≤ length b
      → RightUpTo dp i
      → RightInRow (fill_row sub_cost indel_cost a b i j dp) i j
  unfolding fill_row
  fill_row-Right i zero dp le h =
      (h, λ y small. subst (λ n. Right dp (suc i) n) (omega (arith, small)) (h.0 (suc i)))
  fill_row-Right i (suc j) dp le h =
      let before = fill_row-Right i j dp (omega (arith, le)) h in
      let table = fill_row sub_cost indel_cost a b i j dp in
      (
        (
          λ x. put-Right table (suc i) (suc j) _ x 0 (λ p. omega (arith, p.1)) (before.0.0 x),
          λ x y above inside.
              put-Right table (suc i) (suc j) _ x y (λ p. omega (arith, p.0, above))
                (before.0.1 x y above inside),
        ),
        λ y small. elim (Bool-cases (y == suc j)) [
          | inr n ↦
              put-Right table (suc i) (suc j) _ (suc i) y (λ p. ground (arith, n, p.1))
                (before.1 y (ground (arith, n, small)))
          | inl e ↦
              subst
                (λ n.
                  Right (put (suc i) (suc j) (cell sub_cost indel_cost a b table i j) table) (suc i)
                    n)
                (ground (arith, e)) (put_here table (suc i) (suc j) _ (next table before))
        ],
      )
    where
      next :
          (table : Table)
          → RightInRow table i j
          → Least sub_cost indel_cost a b (suc i) (suc j) (cell sub_cost indel_cost a b table i j)
      next table h =
          cell-Least sub_cost indel_cost a b table i j (h.0.1 i (suc j) (omega arith) le)
            (h.1 j (omega arith)) (h.0.1 i j (omega arith) (omega (arith, le)))
            (λ x y p q. h.0.1 x y (omega (arith, p)) (omega (arith, q, le)))

  fill_rows-Right : (i : ℕ) → RightUpTo (fill_rows sub_cost indel_cost a b i) i
  unfolding fill_rows
  fill_rows-Right zero = borders-Right
  fill_rows-Right (suc i) =
      let row =
        fill_row-Right i (length b) (fill_rows sub_cost indel_cost a b i) (omega arith)
          (fill_rows-Right i) in
      (
        row.0.0,
        λ x y le inside. elim (Bool-cases (x == suc i)) [
          | inr n ↦ row.0.1 x y (ground (arith, n, le)) inside
          | inl e ↦
              subst
                (λ n.
                  Right
                    (fill_row sub_cost indel_cost a b i (length b)
                      (fill_rows sub_cost indel_cost a b i))
                    n y)
                (ground (arith, e)) (row.1 y inside)
        ],
      )

  -- The distance is the least cost of turning one route number into the other by insertions,
  -- deletions, substitutions at their digits' costs, and swaps of neighbours that no other edit
  -- touches: a script of edits has that cost, and none costs less.
  pub weighted_route_edit_distance-Least :
      Least sub_cost indel_cost a b
        (length a)
        (length b)
        (weighted_route_edit_distance sub_cost indel_cost a b)
  unfolding weighted_route_edit_distance
  weighted_route_edit_distance-Least =
      (fill_rows-Right (length a)).1 (length a) (length b) (omega arith) (omega arith)
