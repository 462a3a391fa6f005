-- ===== src/Departures/FuzzyMatch/Scripts.antt =====
-- The edits that the distance of backend/services/departures/fuzzy_match.py measures.
use taigi_agent.Prelude.{
  ℕ, zero, suc, ◌+◌, ◌-◌, ◌*◌, ◌≤◌, ◌≡◌, ◌⊎◌, inl, inr, min, refl, sym, subst, Bool, true, false,
  ◌&&◌, ◌==◌, if◌then◌else◌, Text, arith,
}
use native.Mathlib.Nat.{suc-mul}
use taigi_agent.Departures.FuzzyMatch.{
  transpose_cost, digit_sub_cost, at, Table, single_edit, is_swapped, cell,
}

pred_suc : (n : ℕ) → suc n - 1 ≡ n
pred_suc n = omega arith

zero_mul : (k : ℕ) → 0 * k ≡ 0
zero_mul k = omega arith

module _ (sub_cost indel_cost : ℕ) (a b : Text) where
  -- The ways to turn the first characters of one text into the first of the other, by their cost.
  pub data Script : ℕ → ℕ → ℕ → Type 0 where
    empty : Script 0 0 0
    deletes : {i j c : ℕ} → Script i j c → Script (suc i) j (c + indel_cost)
    inserts : {i j c : ℕ} → Script i j c → Script i (suc j) (c + indel_cost)
    substitutes :
        {i j c : ℕ}
        → Script i j c
        → Script (suc i) (suc j) (c + digit_sub_cost (at a i) (at b j) sub_cost (i == 0 && j == 0))
    transposes :
        {i j c : ℕ}
        → at a (suc i) ≡ at b j
        → at a i ≡ at b (suc j)
        → Script i j c
        → Script (suc (suc i)) (suc (suc j)) (c + transpose_cost)

  -- What a script costs, and no script less.
  pub record Least (i j v : ℕ) : Type 0 where
    pub script : Script i j v
    pub least : (c : ℕ) → Script i j c → v ≤ c

  empty-Least : Least 0 0 0
  empty-Least = record { script = empty; least = λ c s. omega arith }

  column_bound : (i c : ℕ) → Script i 0 c → i * indel_cost ≤ c
  column_bound zero c s = omega (arith, zero_mul indel_cost)
  column_bound (suc i) _ (deletes {c = c} s) =
      omega (arith, suc-mul i indel_cost, column_bound i c s)

  pub column-Least : (i : ℕ) → Least i 0 (i * indel_cost)
  column-Least i = record { script = column i; least = λ c s. column_bound i c s }
    where
      column : (i : ℕ) → Script i 0 (i * indel_cost)
      column zero = subst (Script 0 0) (sym (zero_mul indel_cost)) empty
      column (suc i) = subst (Script (suc i) 0) (sym (suc-mul i indel_cost)) (deletes (column i))

  row_bound : (j c : ℕ) → Script 0 j c → j * indel_cost ≤ c
  row_bound zero c s = omega (arith, zero_mul indel_cost)
  row_bound (suc j) _ (inserts {c = c} s) = omega (arith, suc-mul j indel_cost, row_bound j c s)

  pub row-Least : (j : ℕ) → Least 0 j (j * indel_cost)
  row-Least j = record { script = row j; least = λ c s. row_bound j c s }
    where
      row : (j : ℕ) → Script 0 j (j * indel_cost)
      row zero = subst (Script 0 0) (sym (zero_mul indel_cost)) empty
      row (suc j) = subst (Script 0 (suc j)) (sym (suc-mul j indel_cost)) (inserts (row j))

  min-cases : (x y : ℕ) → (min x y ≡ x) ⊎ (min x y ≡ y)
  min-cases x y = ground arith

  single_edit-script :
      (dp : Table) (i j : ℕ)
      → Script i (suc j) (dp i (suc j))
      → Script (suc i) j (dp (suc i) j)
      → Script i j (dp i j)
      → Script (suc i) (suc j) (single_edit sub_cost indel_cost a b dp i j)
  unfolding single_edit
  single_edit-script dp i j up left diagonal =
      elim (min-cases (dp i (suc j) + indel_cost) (
        min (dp (suc i) j + indel_cost)
          (dp i j + digit_sub_cost (at a i) (at b j) sub_cost (i == 0 && j == 0)))) [
            | inl e ↦ subst (Script (suc i) (suc j)) (sym e) (deletes up)
            | inr e ↦
                subst (Script (suc i) (suc j)) (sym e)
                  (elim (min-cases (dp (suc i) j + indel_cost)
                    (dp i j + digit_sub_cost (at a i) (at b j) sub_cost (i == 0 && j == 0))) [
                      | inl f ↦ subst (Script (suc i) (suc j)) (sym f) (inserts left)
                      | inr f ↦ subst (Script (suc i) (suc j)) (sym f) (substitutes diagonal)
                    ])
          ]

  unswapped : (i : ℕ) → is_swapped sub_cost indel_cost a b i zero ≡ true → ⊥
  unfolding is_swapped
  unswapped i h = ground (arith, h)

  unswapped_start : (j : ℕ) → is_swapped sub_cost indel_cost a b zero j ≡ true → ⊥
  unfolding is_swapped
  unswapped_start j h = ground (arith, h)

  swapped-script :
      (dp : Table) (i j : ℕ)
      → is_swapped sub_cost indel_cost a b i j ≡ true
      → ((x y : ℕ) → i ≡ suc x → j ≡ suc y → Script x y (dp x y))
      → Script (suc i) (suc j) (dp (i - 1) (j - 1) + transpose_cost)
  unfolding is_swapped
  swapped-script dp zero j h corner = absurd (unswapped_start j h)
  swapped-script dp (suc i) zero h corner = absurd (unswapped (suc i) h)
  swapped-script dp (suc i) (suc j) h corner =
      rw (pred_suc i, pred_suc j)
        (transposes (ground (arith, h)) (ground (arith, h)) (corner i j refl refl))

  cell-script :
      (dp : Table) (i j : ℕ)
      → Script i (suc j) (dp i (suc j))
      → Script (suc i) j (dp (suc i) j)
      → Script i j (dp i j)
      → ((x y : ℕ) → i ≡ suc x → j ≡ suc y → Script x y (dp x y))
      → Script (suc i) (suc j) (cell sub_cost indel_cost a b dp i j)
  unfolding cell
  cell-script dp i j up left diagonal corner = go (is_swapped sub_cost indel_cost a b i j) refl
    where
      single : Script (suc i) (suc j) (single_edit sub_cost indel_cost a b dp i j)
      single = single_edit-script dp i j up left diagonal

      go :
          (s : Bool)
          → is_swapped sub_cost indel_cost a b i j ≡ s
          → Script (suc i) (suc j) (
              if s
              then min
                  (single_edit sub_cost indel_cost a b dp i j)
                  (dp (i - 1) (j - 1) + transpose_cost)
              else single_edit sub_cost indel_cost a b dp i j)
      go false e = single
      go true e =
          elim (min-cases (single_edit sub_cost indel_cost a b dp i j)
            (dp (i - 1) (j - 1) + transpose_cost)) [
              | inl m ↦ subst (Script (suc i) (suc j)) (sym m) single
              | inr m ↦ subst (Script (suc i) (suc j)) (sym m) (swapped-script dp i j e corner)
            ]

  cell_le_single :
      (dp : Table) (i j : ℕ)
      → cell sub_cost indel_cost a b dp i j ≤ single_edit sub_cost indel_cost a b dp i j
  unfolding cell
  cell_le_single dp i j =
      go (is_swapped sub_cost indel_cost a b i j) (single_edit sub_cost indel_cost a b dp i j)
        (dp (i - 1) (j - 1) + transpose_cost)
    where
      go : (s : Bool) (x y : ℕ) → (if s then min x y else x) ≤ x
      go true x y = omega arith
      go false x y = omega arith

  cell_le_swap :
      (dp : Table) (i j : ℕ)
      → at a (suc i) ≡ at b j
      → at a i ≡ at b (suc j)
      → cell sub_cost indel_cost a b dp (suc i) (suc j) ≤ dp i j + transpose_cost
  unfolding cell
  cell_le_swap dp i j p q =
      subst (λ x. cell sub_cost indel_cost a b dp (suc i) (suc j) ≤ x + transpose_cost) corner
        (go (is_swapped sub_cost indel_cost a b (suc i) (suc j)) swapped
          (single_edit sub_cost indel_cost a b dp (suc i) (suc j))
          (dp (suc i - 1) (suc j - 1) + transpose_cost))
    where
      corner : dp (suc i - 1) (suc j - 1) ≡ dp i j
      corner = rw (pred_suc i, pred_suc j) refl

      swapped : is_swapped sub_cost indel_cost a b (suc i) (suc j) ≡ true
      swapped = unfold is_swapped in (ground (arith, p, q))

      go : (s : Bool) → s ≡ true → (x y : ℕ) → (if s then min x y else x) ≤ y
      go true e x y = omega arith
      go false e x y = cc

  cell_bound :
      (dp : Table) (i j : ℕ)
      → Least i (suc j) (dp i (suc j))
      → Least (suc i) j (dp (suc i) j)
      → Least i j (dp i j)
      → ((x y : ℕ) → i ≡ suc x → j ≡ suc y → Least x y (dp x y))
      → (c : ℕ) → Script (suc i) (suc j) c
      → cell sub_cost indel_cost a b dp i j ≤ c
  unfolding single_edit
  cell_bound dp i j up left diagonal corner _ (deletes {c = c} s) =
      omega (arith, up.least c s, cell_le_single dp i j)
  cell_bound dp i j up left diagonal corner _ (inserts {c = c} s) =
      omega (arith, left.least c s, cell_le_single dp i j)
  cell_bound dp i j up left diagonal corner _ (substitutes {c = c} s) =
      omega (arith, diagonal.least c s, cell_le_single dp i j)
  cell_bound dp (suc i) (suc j) up left diagonal corner _ (transposes {c = c} p q s) =
      omega (arith, (corner i j refl refl).least c s, cell_le_swap dp i j p q)

  pub cell-Least :
      (dp : Table) (i j : ℕ)
      → Least i (suc j) (dp i (suc j))
      → Least (suc i) j (dp (suc i) j)
      → Least i j (dp i j)
      → ((x y : ℕ) → i ≡ suc x → j ≡ suc y → Least x y (dp x y))
      → Least (suc i) (suc j) (cell sub_cost indel_cost a b dp i j)
  cell-Least dp i j up left diagonal corner = record {
    script =
        cell-script dp i j up.script left.script diagonal.script
          (λ x y p q. (corner x y p q).script);
    least = cell_bound dp i j up left diagonal corner;
  }
