-- ===== src/Providers/TdxRateLimit/Pruned.antt =====
-- The deque of backend/providers/tdx_rate_limit.py: its order, and what a prune leaves.
use taigi_agent.Prelude.{
  ℕ, zero, suc, ◌+◌, ◌≤◌, ◌<◌, ◌≡◌, refl, ap, some, List, [], ◌∷◌, ◌++◌, arith, length, get_elem?,
  All, All-append, All-map, leb, if◌then◌else◌, Bool-cases, inl, inr,
}
use taigi_agent.Providers.TdxRateLimit.{prune}

-- Every entry is at most every later one.
abbrev pub Sorted : List ℕ → Type 0
Sorted [] = Unit
Sorted (x ∷ xs) = All (λ y. x ≤ y) xs × Sorted xs

pub All-get_elem? :
    (P : ℕ → Type 0) (xs : List ℕ) (i : ℕ)
    → i < length xs
    → All P xs
    → (a : ℕ) × (get_elem? xs i ≡ some a) × P a
All-get_elem? P [] i h k = elim h [ ]
All-get_elem? P (x ∷ xs) zero h k = (x, refl, k.0)
All-get_elem? P (x ∷ xs) (suc i) h k = All-get_elem? P xs i (omega arith) k.1

pub Sorted-append_one :
    (xs : List ℕ) (n : ℕ) → Sorted xs → All (λ t. t ≤ n) xs → Sorted (xs ++ n ∷ [])
Sorted-append_one [] n s h = (tt, tt)
Sorted-append_one (x ∷ xs) n s h =
    (All-append (λ y. x ≤ y) xs (n ∷ []) s.0 (h.0, tt), Sorted-append_one xs n s.1 h.1)

module _ (per now : ℕ) where
  -- What the loop takes off the left end.
  pub pruned : List ℕ → List ℕ
  pruned [] = []
  pruned (t ∷ ts) = if leb (t + per) now then t ∷ pruned ts else []

  pub pruned-append-prune : (ts : List ℕ) → pruned ts ++ prune per now ts ≡ ts
  unfolding pruned prune
  pruned-append-prune [] = refl
  pruned-append-prune (t ∷ ts) = elim (Bool-cases (leb (t + per) now)) [
    | inl e ↦ rw e (ap (◌∷◌ t) (pruned-append-prune ts))
    | inr e ↦ rw e
  ]

  pub pruned-All : (ts : List ℕ) → All (λ t. t + per ≤ now) (pruned ts)
  unfolding pruned
  pruned-All [] = tt
  pruned-All (t ∷ ts) = elim (Bool-cases (leb (t + per) now)) [
    | inl e ↦ rw e (ground arith, pruned-All ts)
    | inr e ↦ rw e tt
  ]

  pub All-prune : (P : ℕ → Type 0) (ts : List ℕ) → All P ts → All P (prune per now ts)
  unfolding prune
  All-prune P [] h = tt
  All-prune P (t ∷ ts) h = elim (Bool-cases (leb (t + per) now)) [
    | inl e ↦ rw e (All-prune P ts h.1)
    | inr e ↦ rw e h
  ]

  pub Sorted-prune : (ts : List ℕ) → Sorted ts → Sorted (prune per now ts)
  unfolding prune
  Sorted-prune [] h = tt
  Sorted-prune (t ∷ ts) h = elim (Bool-cases (leb (t + per) now)) [
    | inl e ↦ rw e (Sorted-prune ts h.1)
    | inr e ↦ rw e h
  ]

  -- In a sorted deque the loop leaves only what is still inside the window.
  pub prune-fresh : (ts : List ℕ) → Sorted ts → All (λ t. now < t + per) (prune per now ts)
  unfolding prune
  prune-fresh [] h = tt
  prune-fresh (t ∷ ts) h = elim (Bool-cases (leb (t + per) now)) [
    | inl e ↦ rw e (prune-fresh ts h.1)
    | inr e ↦
        let late : now < t + per = ground arith in
        rw e (late, All-map _ _ (λ u k. omega arith) ts h.0)
  ]

  pub length-prune-le : (ts : List ℕ) → length (prune per now ts) ≤ length ts
  unfolding prune
  length-prune-le [] = omega arith
  length-prune-le (t ∷ ts) = elim (Bool-cases (leb (t + per) now)) [
    | inl e ↦ rw e (omega (arith, length-prune-le ts))
    | inr e ↦ rw e (omega arith)
  ]

  -- Once the entry at `i` is outside, the loop takes it and all before it.
  pub length-prune-past :
      (ts : List ℕ) (i a : ℕ)
      → Sorted ts
      → get_elem? ts i ≡ some a
      → a + per ≤ now
      → length (prune per now ts) + i < length ts
  unfolding prune
  length-prune-past [] i a s e h = cc
  length-prune-past (t ∷ ts) zero a s e h =
      let same : t + per ≤ now = ground arith in
      elim (Bool-cases (leb (t + per) now)) [
        | inl f ↦ rw f (omega (arith, length-prune-le ts))
        | inr f ↦ absurd (ground arith)
      ]
  length-prune-past (t ∷ ts) (suc i) a s e h =
      let below : t ≤ a = at ts i e s.0 in
      elim (Bool-cases (leb (t + per) now)) [
        | inl f ↦ rw f (omega (arith, length-prune-past ts i a s.1 e h))
        | inr f ↦ absurd (ground arith)
      ]
    where
      at : (us : List ℕ) (j : ℕ) → get_elem? us j ≡ some a → All (λ y. t ≤ y) us → t ≤ a
      at [] j e k = cc
      at (u ∷ us) zero e k = ground arith
      at (u ∷ us) (suc j) e k = at us j e k.1
