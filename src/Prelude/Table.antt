-- ===== src/Prelude/Table.antt =====
-- A dictionary with text keys as an association list, in the order of its entries.
use taigi_agent.Prelude.{
  ◌≤◌, ◌≡◌, refl, subst, Bool, true, false, Option, none, some, List, [], ◌∷◌, ◌++◌, arith, length,
  keep, All, if◌then◌else◌, Bool-cases, Option-cases, inl, inr, Text, text_eq, text_eq_iff,
}

abbrev pub Table {ℓ} : Type ℓ → Type ℓ
Table V = List (Text × V)

module _ {ℓ} {V : Type ℓ} where
  -- `d.get(k)`
  unfoldable pub find : Text → Table V → Option V
  find k [] = none
  find k ((j, v) ∷ m) = if text_eq j k then some v else find k m

  -- `d.pop(k, None)`
  unfoldable pub without : Text → Table V → Table V
  without k [] = []
  without k ((j, v) ∷ m) = if text_eq j k then without k m else (j, v) ∷ without k m

  -- A write that puts the key last.
  unfoldable pub store : Text → V → Table V → Table V
  unfolding without
  store k v m = without k m ++ (k, v) ∷ []

  -- No entry has the key.
  abbrev pub Absent : Text → Table V → Type 0
  Absent k m = All (λ e. text_eq e.0 k ≡ false) m

  pub find-without :
      (k j : Text) (m : Table V) → find j (without k m) ≡ (if text_eq k j then none else find j m)
  unfolding find without
  find-without k j [] = ground arith
  find-without k j ((i, v) ∷ m) =
      ground (arith, find-without k j m, text_eq_iff i k, text_eq_iff i j, text_eq_iff k j)

  find-append_one :
      (k j : Text) (v : V) (m : Table V)
      → find j m ≡ none
      → find j (m ++ (k, v) ∷ []) ≡ (if text_eq k j then some v else none)
  unfolding find
  find-append_one k j v [] h = refl
  find-append_one k j v ((i, w) ∷ m) h = ground (arith, find-append_one k j v m)

  find-append_hit :
      (k j : Text) (v w : V) (m : Table V) → find j m ≡ some w → find j (m ++ (k, v) ∷ []) ≡ some w
  unfolding find
  find-append_hit k j v w [] h = cc
  find-append_hit k j v w ((i, u) ∷ m) h = ground (arith, find-append_hit k j v w m)

  -- A table after a write reads as a map.
  pub find-store :
      (k j : Text) (v : V) (m : Table V)
      → find j (store k v m) ≡ (if text_eq k j then some v else find j m)
  unfolding store
  find-store k j v m = elim (Bool-cases (text_eq k j)) [
    | inl t ↦
        let gone : find j (without k m) ≡ none = rw (find-without k j m, t) in
        rw (find-append_one k j v (without k m) gone, t)
    | inr t ↦ elim (Option-cases (find j m)) [
      | inl o ↦
          let gone : find j (without k m) ≡ none = rw (find-without k j m, t, o) in
          rw (find-append_one k j v (without k m) gone, t, o)
      | inr (w, o) ↦
          let hit : find j (without k m) ≡ some w = rw (find-without k j m, t, o) in
          rw (find-append_hit k j v w (without k m) hit, t, o)
    ]
  ]

  pub length-without-le : (k : Text) (m : Table V) → length (without k m) ≤ length m
  unfolding without
  length-without-le k [] = omega arith
  length-without-le k ((j, v) ∷ m) = elim (Bool-cases (text_eq j k)) [
    | inl t ↦ rw t (omega (arith, length-without-le k m))
    | inr t ↦ rw t (omega (arith, length-without-le k m))
  ]

  pub Absent-without : (k : Text) (m : Table V) → Absent k (without k m)
  unfolding without
  Absent-without k [] = tt
  Absent-without k ((j, v) ∷ m) = elim (Bool-cases (text_eq j k)) [
    | inl t ↦ rw t (Absent-without k m)
    | inr t ↦ rw t (t, Absent-without k m)
  ]

  -- A filter on the values keeps an entry that passes.
  pub find-keep_hit :
      (p : V → Bool) (k : Text) (v : V) (m : Table V)
      → find k m ≡ some v
      → p v ≡ true
      → find k (keep (λ e. p e.1) m) ≡ some v
  unfolding find
  find-keep_hit p k v [] h t = cc
  find-keep_hit p k v ((j, w) ∷ m) h t = elim (Bool-cases (text_eq j k)) [
    | inl e ↦ let same : w ≡ v = ground arith in rw (same, t, e)
    | inr e ↦
        let rest : find k m ≡ some v = ground arith in
        elim (Bool-cases (p w)) [
          | inl q ↦ rw (q, e) (find-keep_hit p k v m rest t)
          | inr q ↦ rw q (find-keep_hit p k v m rest t)
        ]
  ]

  -- A filter adds no key.
  pub find-keep_miss :
      (p : Text × V → Bool) (k : Text) (m : Table V) → find k m ≡ none → find k (keep p m) ≡ none
  unfolding find
  find-keep_miss p k [] h = refl
  find-keep_miss p k ((j, w) ∷ m) h =
      let other : text_eq j k ≡ false = ground arith in
      let rest : find k m ≡ none = ground arith in
      elim (Bool-cases (p (j, w))) [
        | inl q ↦ rw (q, other) (find-keep_miss p k m rest)
        | inr q ↦ rw q (find-keep_miss p k m rest)
      ]

module _ {ℓ} {V : Type ℓ} where
  -- What holds of every entry holds after a filter, after a removal, and of what is found.
  pub All-keep {κ} :
      (P : Text × V → Type κ) (p : Text × V → Bool) (m : Table V) → All P m → All P (keep p m)
  All-keep P p [] h = tt
  All-keep P p (e ∷ m) h = elim (Bool-cases (p e)) [
    | inl t ↦ rw t (h.0, All-keep P p m h.1)
    | inr t ↦ rw t (All-keep P p m h.1)
  ]

  pub All-without {κ} :
      (P : Text × V → Type κ) (k : Text) (m : Table V) → All P m → All P (without k m)
  unfolding without
  All-without P k [] h = tt
  All-without P k ((j, v) ∷ m) h = elim (Bool-cases (text_eq j k)) [
    | inl t ↦ rw t (All-without P k m h.1)
    | inr t ↦ rw t (h.0, All-without P k m h.1)
  ]

  pub find-All {κ} :
      (P : Text × V → Type κ) (k : Text) (m : Table V) (v : V)
      → All P m
      → find k m ≡ some v
      → (j : Text) × (text_eq j k ≡ true) × P (j, v)
  unfolding find
  find-All P k [] v h e = cc
  find-All P k ((j, w) ∷ m) v h e = elim (Bool-cases (text_eq j k)) [
    | inl t ↦ (j, t, subst (λ x. P (j, x)) (same t) h.0)
    | inr t ↦ find-All P k m v h.1 (later t)
  ]
    where
      same : text_eq j k ≡ true → w ≡ v
      same t = ground arith

      later : text_eq j k ≡ false → find k m ≡ some v
      later t = ground arith
