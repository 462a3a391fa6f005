-- ===== src/Providers/KeyedLocks/Exclusion.antt =====
-- What the registry of locks in backend/providers/ttl_cache.py promises to the tasks of a key.
use taigi_agent.Prelude.{
  ==-eq, ℕ, ◌≤◌, ◌<◌, ◌≡◌, ◌↔◌, inl, inr, refl, sym, ap, ◌∙◌, Bool, true, false, ◌&&◌, Option, none,
  some, List, [], ◌∷◌, ◌==◌, tally, All, All-map, Bool-cases, arith,
}
use taigi_agent.Providers.KeyedLocks.{Use, Registry, new, Event, play}
use taigi_agent.Providers.KeyedLocks.Counted.{
  at_entry, inside, Linked, Sound, tally-none, play-Sound, new-Sound,
}

-- The tasks inside the block of a key, and all of a key.
abbrev pub inside_block : ℕ → Use → Bool
inside_block k u = (u.key == k) && u.holds

abbrev pub of_key : ℕ → Use → Bool
of_key k u = u.key == k

tally_mono :
    (p q : Use → Bool) (us : List Use)
    → All (λ u. p u ≡ true → q u ≡ true) us
    → tally p us ≤ tally q us
tally_mono p q [] h = omega arith
tally_mono p q (u ∷ us) h = elim (Bool-cases (p u)) [
  | inl y ↦ ground (arith, y, h.0 y, tally_mono p q us h.1)
  | inr n ↦ ground (arith, n, tally_mono p q us h.1)
]

-- The tasks of a key stand at its entry, and the other way round.
of_key-at_entry :
    (s : Registry) (k e : ℕ)
    → s.entries k ≡ some e
    → (u : Use) → Linked s.entries u
    → of_key k u ≡ true
    → u.entry ≡ e
of_key-at_entry s k e o u l y =
    let same : some u.entry ≡ some e = sym l ∙ ap s.entries (==-eq u.key k y) ∙ o in cc

block_bound :
    (s : Registry) (k e : ℕ) → s.entries k ≡ some e → Sound s → tally (inside_block k) s.uses ≤ 1
block_bound s k e o h = ground (
  arith,
  h.locked e,
  tally_mono (inside_block k) (inside e) s.uses (
      All-map (Linked s.entries) (λ u. inside_block k u ≡ true → inside e u ≡ true) widen s.uses
        h.linked),
)
  where
    widen : (u : Use) → Linked s.entries u → inside_block k u ≡ true → inside e u ≡ true
    widen u l b =
        let at_key : of_key k u ≡ true = ground (arith, b) in
        ground (arith, b, of_key-at_entry s k e o u l at_key)

remembered : (s : Registry) (k e : ℕ) → s.entries k ≡ some e → Sound s → 0 < tally (of_key k) s.uses
remembered s k e o h = omega (
  arith,
  h.used k e o,
  h.counted e,
  tally_mono (at_entry e) (of_key k) s.uses (
      All-map (Linked s.entries) (λ u. at_entry e u ≡ true → of_key k u ≡ true) widen s.uses
        h.linked),
)
  where
    widen : (u : Use) → Linked s.entries u → at_entry e u ≡ true → of_key k u ≡ true
    widen u l b = ground (arith, h.apart u.key k e (l ∙ ap some (==-eq u.entry e b)) o)

forgotten : (s : Registry) (k : ℕ) → s.entries k ≡ none → Sound s → tally (of_key k) s.uses ≡ 0
forgotten s k o h =
    tally-none (of_key k) s.uses
      (All-map (Linked s.entries) (λ u. of_key k u ≡ false) other s.uses h.linked)
  where
    clash : (u : Use) → Linked s.entries u → of_key k u ≡ true → ⊥
    clash u l y = let no : some u.entry ≡ none = sym l ∙ ap s.entries (==-eq u.key k y) ∙ o in cc

    other : (u : Use) → Linked s.entries u → of_key k u ≡ false
    other u l = elim (Bool-cases (of_key k u)) [ inl y ↦ absurd (clash u l y) | inr n ↦ n ]

-- However tasks of any number of keys enter, wait, give up and leave: at most one task is inside the
-- block of a key, and the registry has no entry for a key exactly when no task waits for it or is
-- inside.
pub one_inside :
    (xs : List Event) (k : ℕ)
    → (tally (inside_block k) (play new xs).uses ≤ 1)
      × (((play new xs).entries k ≡ none) ↔ (tally (of_key k) (play new xs).uses ≡ 0))
one_inside xs k = go ((play new xs).entries k) refl
  where
    h : Sound (play new xs)
    h = play-Sound new xs new-Sound

    go :
        (o : Option ℕ)
        → (play new xs).entries k ≡ o
        → (tally (inside_block k) (play new xs).uses ≤ 1)
          × (((play new xs).entries k ≡ none) ↔ (tally (of_key k) (play new xs).uses ≡ 0))
    go none e =
        let all_gone = forgotten (play new xs) k e h in
        (omega (arith, all_gone, narrow), ((λ x. all_gone), (λ x. e)))
      where
        narrow : tally (inside_block k) (play new xs).uses ≤ tally (of_key k) (play new xs).uses
        narrow = tally_mono (inside_block k) (of_key k) (play new xs).uses (
            All-map (Linked (play new xs).entries)
              (λ u. inside_block k u ≡ true → of_key k u ≡ true) (λ u l b. ground (arith, b))
              (play new xs).uses h.linked)
    go (some d) e =
        let some_task = remembered (play new xs) k d e h in
        (
          block_bound (play new xs) k d e h,
          ((λ x. ground (arith, e, x)), (λ x. ground (arith, some_task, x))),
        )
