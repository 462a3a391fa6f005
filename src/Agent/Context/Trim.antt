-- ===== src/Agent/Context/Trim.antt =====
-- `trim_history` of backend/agent/context.py: which exchanges survive.
use mathlib.Core.List.{reverse, reverse-append, reverse-reverse}
use taigi_agent.Prelude.{
  ℕ, ◌+◌, ◌-◌, ◌≤◌, ◌<◌, ◌≡◌, ◌⊎◌, refl, sym, ◌∙◌, ap, true, false, ◌&&◌, List, [], ◌∷◌, ◌++◌,
  append-nil, append_assoc, arith, length, take, take-append-drop, length-drop, ltb, ◌==◌,
  Bool-cases, inl, inr,
}
use taigi_agent.Agent.Context.{
  Counter, Message, is_empty, estimate_tokens, group_exchanges, last_n, cap_exchanges, keep_newest,
  kept_exchanges,
}

module _ (count : Counter) where
  -- The tokens of some exchanges, as the loop adds them up.
  abbrev pub total : List (List Message) → ℕ
  total [] = 0
  total (e ∷ es) = estimate_tokens count e + total es

module _ (count : Counter) (budget : ℕ) where
  -- The next older exchange, if there is one, does not fit any more.
  abbrev pub Blocked : List (List Message) → List (List Message) → Type 0
  Blocked [] kept = Unit
  Blocked (e ∷ older) kept = budget < total count kept + estimate_tokens count e

  -- What the loop leaves out, and why.
  record Cut (es kept out : List (List Message)) : Type 0 where
    left : List (List Message)
    order : reverse es ++ kept ≡ reverse left ++ out
    blocked : Blocked left out
    fits : (total count out ≤ budget) ⊎ (length out ≤ 1)

  reverse-cons :
      (e : List Message) (es fs : List (List Message))
      → reverse (e ∷ es) ++ fs ≡ reverse es ++ (e ∷ fs)
  reverse-cons e es fs = rw (reverse-append (e ∷ []) es) (append_assoc (reverse es) (e ∷ []) fs)

  Cut-more :
      (e : List Message) (older kept : List (List Message)) {out : List (List Message)}
      → Cut older (e ∷ kept) out
      → Cut (e ∷ older) kept out
  Cut-more e older kept c = record {
    left = c.left;
    order = reverse-cons e older kept ∙ c.order;
    blocked = c.blocked;
    fits = c.fits;
  }

  keep_newest-Cut :
      (es : List (List Message)) (used : ℕ) (kept : List (List Message))
      → total count kept ≡ used
      → (total count kept ≤ budget) ⊎ (length kept ≤ 1)
      → Cut es kept (keep_newest count budget es used kept)
  unfolding keep_newest
  keep_newest-Cut [] used kept t f = record { left = []; order = refl; blocked = tt; fits = f }
  keep_newest-Cut (e ∷ older) used [] t f =
      let rest : Cut older (e ∷ [])
          (keep_newest count budget older (used + estimate_tokens count e) (e ∷ [])) =
        keep_newest-Cut older (used + estimate_tokens count e) (e ∷ []) (omega arith)
          (inr (omega arith)) in
      elim (Bool-cases (ltb budget (used + estimate_tokens count e))) [
        | inl c ↦ rw c (Cut-more e older [] rest)
        | inr c ↦ rw c (Cut-more e older [] rest)
      ]
  keep_newest-Cut (e ∷ older) used (k ∷ ks) t f =
      elim (Bool-cases (ltb budget (used + estimate_tokens count e))) [
        | inl c ↦ rw c (record { left = e ∷ older; order = refl; blocked = over c; fits = f })
        | inr c ↦ rw c (
            Cut-more e older (k ∷ ks) (
              keep_newest-Cut older (used + estimate_tokens count e) (e ∷ k ∷ ks) (omega arith)
                (inl (under c))))
      ]
    where
      over :
          ltb budget (used + estimate_tokens count e) ≡ true
          → budget < total count (k ∷ ks) + estimate_tokens count e
      over c = rw t (ground arith)

      under :
          ltb budget (used + estimate_tokens count e) ≡ false → total count (e ∷ k ∷ ks) ≤ budget
      under c = let le : used + estimate_tokens count e ≤ budget = ground arith in omega arith

  -- The newest exchange is kept, whatever it costs.
  pub keep_newest-nonempty :
      (es : List (List Message)) (used : ℕ) (kept : List (List Message))
      → is_empty es && is_empty kept ≡ false
      → is_empty (keep_newest count budget es used kept) ≡ false
  unfolding keep_newest
  keep_newest-nonempty [] used kept h = h
  keep_newest-nonempty (e ∷ older) used [] h =
      let rest =
        keep_newest-nonempty older (used + estimate_tokens count e) (e ∷ []) (both older) in
      elim (Bool-cases (ltb budget (used + estimate_tokens count e))) [
        | inl c ↦ rw c rest
        | inr c ↦ rw c rest
      ]
    where
      both : (xs : List (List Message)) → is_empty xs && false ≡ false
      both [] = refl
      both (x ∷ xs) = refl
  keep_newest-nonempty (e ∷ older) used (k ∷ ks) h =
      let rest =
        keep_newest-nonempty older (used + estimate_tokens count e) (e ∷ k ∷ ks) (both older) in
      elim (Bool-cases (ltb budget (used + estimate_tokens count e))) [
        | inl c ↦ rw c
        | inr c ↦ rw c rest
      ]
    where
      both : (xs : List (List Message)) → is_empty xs && false ≡ false
      both [] = refl
      both (x ∷ xs) = refl

-- The cap takes exchanges off the old end.
cap_exchanges-suffix :
    (n : ℕ) (es : List (List Message))
    → (old : List (List Message)) × (es ≡ old ++ cap_exchanges n es)
unfolding cap_exchanges last_n
cap_exchanges-suffix n es = elim (Bool-cases (ltb n (length es))) [
  | inl t ↦ elim (Bool-cases (n == 0)) [
    | inl z ↦ ([], rw (t, z))
    | inr z ↦ (take (length es - n) es, rw (t, z) (sym (take-append-drop (length es - n) es)))
  ]
  | inr t ↦ ([], rw t)
]

pub length-cap_exchanges :
    (n : ℕ) (es : List (List Message)) → 0 < n → length (cap_exchanges n es) ≤ n
unfolding cap_exchanges last_n
length-cap_exchanges n es h = elim (Bool-cases (ltb n (length es))) [
  | inl t ↦
      let some_left : (n == 0) ≡ false = ground arith in
      let more : n < length es = ground arith in
      rw (t, some_left) (omega (arith, length-drop (length es - n) es))
  | inr t ↦ rw t (ground arith)
]

-- The kept exchanges against the grouped history.
pub record IsNewest (count : Counter) (budget n : ℕ) (ms : List Message) : Type 0 where
  pub capped : List (List Message)
  pub left : List (List Message)
  pub order : group_exchanges ms ≡ capped ++ (reverse left ++ kept_exchanges count budget n ms)
  pub within :
      cap_exchanges n (group_exchanges ms) ≡ reverse left ++ kept_exchanges count budget n ms
  pub blocked : Blocked count budget left (kept_exchanges count budget n ms)
  pub fits :
      (total count (kept_exchanges count budget n ms) ≤ budget)
      ⊎ (length (kept_exchanges count budget n ms) ≤ 1)

-- The exchanges that `trim_history` keeps are the newest of the capped history, which is the end of
-- the grouped one; the next older exchange of the capped history, if there is one, does not fit
-- the token budget beside them; and they fit it, or are a single exchange.
pub kept_exchanges-IsNewest :
    (count : Counter) (budget n : ℕ) (ms : List Message) → IsNewest count budget n ms
unfolding kept_exchanges
kept_exchanges-IsNewest count budget n ms =
    let es = cap_exchanges n (group_exchanges ms) in
    let (old, split) = cap_exchanges-suffix n (group_exchanges ms) in
    let cut : Cut count budget (reverse es) [] (keep_newest count budget (reverse es) 0 []) =
      keep_newest-Cut count budget (reverse es) 0 [] refl (inl (omega arith)) in
    let whole : es ≡ reverse cut.left ++ keep_newest count budget (reverse es) 0 [] =
      sym (append-nil es) ∙ ap (λ xs. xs ++ []) (sym (reverse-reverse es)) ∙ cut.order in
    record {
      capped = old;
      left = cut.left;
      order = split ∙ ap (λ xs. old ++ xs) whole;
      within = whole;
      blocked = cut.blocked;
      fits = cut.fits;
    }
