-- ===== src/Prelude/Sorting.antt =====
-- Python's `sorted`, which is stable, under a Boolean order.
use taigi_agent.Prelude.{
  ◌+◌, ◌≡◌, refl, Bool, true, false, List, [], ◌∷◌, arith, tally, All, All-map, if◌then◌else◌,
  Bool-cases, inl, inr,
}
use mathlib.Core.List.{Perm}
use mathlib.Core.List.Perm

module _ {ℓ} {A : Type ℓ} where
  -- The entry before the first that it is not above.
  unfoldable pub insert : (A → A → Bool) → A → List A → List A
  insert le x [] = x ∷ []
  insert le x (y ∷ ys) = if le x y then x ∷ y ∷ ys else y ∷ insert le x ys

  -- `sorted(xs)`
  unfoldable pub sorted : (A → A → Bool) → List A → List A
  unfolding insert
  sorted le [] = []
  sorted le (x ∷ xs) = insert le x (sorted le xs)

  -- Each entry is at most every later one.
  abbrev pub IsSorted : (A → A → Bool) → List A → Type 0
  IsSorted le [] = Unit
  IsSorted le (x ∷ xs) = All (λ y. le x y ≡ true) xs × IsSorted le xs

  pub record IsOrder (le : A → A → Bool) : Type ℓ where
    pub total : (a b : A) → le a b ≡ false → le b a ≡ true
    pub trans : (a b c : A) → le a b ≡ true → le b c ≡ true → le a c ≡ true

module _ {ℓ} {A : Type ℓ} (le : A → A → Bool) where
  tally-insert :
      (p : A → Bool) (x : A) (ys : List A)
      → tally p (insert le x ys) ≡ (if p x then 1 else 0) + tally p ys
  unfolding insert
  tally-insert p x [] = refl
  tally-insert p x (y ∷ ys) = elim (Bool-cases (le x y)) [
    | inl t ↦ rw t refl
    | inr t ↦ rw (t, tally-insert p x ys) (omega arith)
  ]

  -- Sorting keeps how many entries pass a test.
  pub tally-sorted : (p : A → Bool) (xs : List A) → tally p (sorted le xs) ≡ tally p xs
  unfolding sorted
  tally-sorted p [] = refl
  tally-sorted p (x ∷ xs) = rw (tally-insert p x (sorted le xs), tally-sorted p xs) refl

  insert-Perm : (x : A) (ys : List A) → Perm (insert le x ys) (x ∷ ys)
  unfolding insert
  insert-Perm x [] = Perm.rfl
  insert-Perm x (y ∷ ys) = elim (Bool-cases (le x y)) [
    | inl t ↦ rw t Perm.rfl
    | inr t ↦ rw t (Perm.trans (Perm.cons y (insert-Perm x ys)) (Perm.swap x y ys))
  ]

  -- Sorting keeps the entries.
  pub sorted-Perm : (xs : List A) → Perm (sorted le xs) xs
  unfolding sorted
  sorted-Perm [] = Perm.rfl
  sorted-Perm (x ∷ xs) = Perm.trans (insert-Perm x (sorted le xs)) (Perm.cons x (sorted-Perm xs))

  All-insert {κ} : (P : A → Type κ) (x : A) (ys : List A) → P x → All P ys → All P (insert le x ys)
  unfolding insert
  All-insert P x [] hx h = (hx, tt)
  All-insert P x (y ∷ ys) hx h = elim (Bool-cases (le x y)) [
    | inl t ↦ rw t (hx, h)
    | inr t ↦ rw t (h.0, All-insert P x ys hx h.1)
  ]

  -- Sorting keeps what holds of every entry.
  pub All-sorted {κ} : (P : A → Type κ) (xs : List A) → All P xs → All P (sorted le xs)
  unfolding sorted
  All-sorted P [] h = tt
  All-sorted P (x ∷ xs) h = All-insert P x (sorted le xs) h.0 (All-sorted P xs h.1)

  insert-IsSorted :
      IsOrder le → (x : A) (ys : List A) → IsSorted le ys → IsSorted le (insert le x ys)
  unfolding insert
  insert-IsSorted o x [] h = (tt, tt)
  insert-IsSorted o x (y ∷ ys) h = elim (Bool-cases (le x y)) [
    | inl t ↦ rw t ((t, All-map _ _ (λ z k. o.trans x y z t k) ys h.0), h)
    | inr t ↦
        rw t (All-insert (λ z. le y z ≡ true) x ys (o.total x y t) h.0, insert-IsSorted o x ys h.1)
  ]

  -- What `sorted` gives is in order.
  pub sorted-IsSorted : IsOrder le → (xs : List A) → IsSorted le (sorted le xs)
  unfolding sorted
  sorted-IsSorted o [] = tt
  sorted-IsSorted o (x ∷ xs) = insert-IsSorted o x (sorted le xs) (sorted-IsSorted o xs)

  insert-head : (x : A) (ys : List A) → All (λ y. le x y ≡ true) ys → insert le x ys ≡ x ∷ ys
  unfolding insert
  insert-head x [] h = refl
  insert-head x (y ∷ ys) h = rw (h.0) refl

  -- Sorting leaves what is in order.
  pub sorted_fix : (xs : List A) → IsSorted le xs → sorted le xs ≡ xs
  unfolding sorted
  sorted_fix [] h = refl
  sorted_fix (x ∷ xs) h = rw (sorted_fix xs h.1, insert-head x xs h.0) refl
