-- ===== src/Agent/Context/Suffix.antt =====
-- What `trim_history` of backend/agent/context.py leaves of a history.
use mathlib.Core.List.{reverse, reverse-append}
use taigi_agent.Prelude.{
  ℕ, zero, suc, ◌-◌, ◌≤◌, ◌<◌, ◌≡◌, refl, sym, ◌∙◌, ap, subst, true, false, ◌&&◌, List, [], ◌∷◌,
  ◌++◌, append_assoc, arith, concat, concat-append, All, All-map, length, drop, length-append, ltb,
  ◌==◌, Bool-cases, inl, inr,
}
use taigi_agent.Agent.Context.{
  Counter, Message, is_empty, group_exchanges, last_n, cap_exchanges, kept_exchanges, trim_history,
}
use taigi_agent.Agent.Context.Groups.{
  IsTurn, IsExchange, AreExchanges, concat-group_exchanges, group_exchanges-AreExchanges,
  AreExchanges-rest, IsTurn-IsExchange,
}
use taigi_agent.Agent.Context.Trim.{
  kept_exchanges-IsNewest, keep_newest-nonempty, length-cap_exchanges,
}

drop-nonempty {ℓ} :
    {A : Type ℓ} (k : ℕ) (xs : List A) → k < length xs → is_empty (drop k xs) ≡ false
drop-nonempty zero [] h = elim h [ ]
drop-nonempty zero (x ∷ xs) h = refl
drop-nonempty (suc k) [] h = elim h [ ]
drop-nonempty (suc k) (x ∷ xs) h = drop-nonempty k xs (omega arith)

append-nonempty {ℓ} : {A : Type ℓ} (xs : List A) (y : A) → is_empty (xs ++ y ∷ []) ≡ false
append-nonempty [] y = refl
append-nonempty (x ∷ xs) y = refl

cap_exchanges-nonempty :
    (n : ℕ) (es : List (List Message)) → is_empty es ≡ false → is_empty (cap_exchanges n es) ≡ false
unfolding cap_exchanges last_n
cap_exchanges-nonempty n es h = elim (Bool-cases (ltb n (length es))) [
  | inl t ↦ elim (Bool-cases (n == 0)) [
    | inl z ↦ rw (t, z) h
    | inr z ↦
        let short : length es - n < length es = ground arith in
        rw (t, z) (drop-nonempty (length es - n) es short)
  ]
  | inr t ↦ rw t h
]

reverse-nonempty : (es : List (List Message)) → is_empty es ≡ false → is_empty (reverse es) ≡ false
reverse-nonempty [] h = cc
reverse-nonempty (e ∷ es) h = rw (reverse-append (e ∷ []) es) (append-nonempty (reverse es) e)

both_empty : (es : List (List Message)) → is_empty es ≡ false → is_empty es && true ≡ false
both_empty es h = rw h

concat-empty : (es : List (List Message)) → is_empty (concat es) ≡ false → is_empty es ≡ false
concat-empty [] h = h
concat-empty (e ∷ es) h = refl

AreExchanges-All : (es : List (List Message)) → AreExchanges es → All IsExchange es
AreExchanges-All [] h = tt
AreExchanges-All (e ∷ es) h = (h.0, All-map IsTurn IsExchange IsTurn-IsExchange es h.1)

All-append_right : (es fs : List (List Message)) → All IsExchange (es ++ fs) → All IsExchange fs
All-append_right [] fs h = h
All-append_right (e ∷ es) fs h = All-append_right es fs h.1

concat-nonempty :
    (es : List (List Message))
    → All IsExchange es
    → is_empty es ≡ false
    → is_empty (concat es) ≡ false
concat-nonempty [] h n = cc
concat-nonempty ([] ∷ es) h n = absurd h.0
concat-nonempty ((m ∷ ms) ∷ es) h n = refl

kept_exchanges-nonempty :
    (count : Counter) (budget n : ℕ) (ms : List Message)
    → is_empty ms ≡ false
    → is_empty (kept_exchanges count budget n ms) ≡ false
unfolding kept_exchanges
kept_exchanges-nonempty count budget n ms h =
    let groups : is_empty (group_exchanges ms) ≡ false =
      concat-empty (group_exchanges ms) (rw concat-group_exchanges h) in
    keep_newest-nonempty count budget (reverse (cap_exchanges n (group_exchanges ms))) 0 []
      (both_empty _ (reverse-nonempty _ (cap_exchanges-nonempty n (group_exchanges ms) groups)))

-- A trimmed history is the end of the history. If anything was cut off, what is left consists of
-- whole turns: it begins with a user message. A history that has a message keeps one.
pub trim_history-suffix :
    (count : Counter) (budget n : ℕ) (ms : List Message)
    → (dropped : List Message) × (ms ≡ dropped ++ trim_history count budget n ms)
      × (is_empty dropped ≡ false → All IsTurn (kept_exchanges count budget n ms))
      × (is_empty ms ≡ false → is_empty (trim_history count budget n ms) ≡ false)
unfolding trim_history
trim_history-suffix count budget n ms =
    let k = kept_exchanges-IsNewest count budget n ms in
    let kept = kept_exchanges count budget n ms in
    let before = k.capped ++ reverse k.left in
    let whole : group_exchanges ms ≡ before ++ kept =
      k.order ∙ sym (append_assoc k.capped (reverse k.left) kept) in
    let shape : AreExchanges (before ++ kept) =
      subst AreExchanges whole (group_exchanges-AreExchanges ms) in
    (
      concat before,
      sym (concat-group_exchanges ms) ∙ ap concat whole ∙ concat-append before kept,
      λ cut. AreExchanges-rest before kept shape (concat-empty before cut),
      λ some_left.
          concat-nonempty kept (All-append_right before kept (AreExchanges-All _ shape))
            (kept_exchanges-nonempty count budget n ms some_left),
    )

-- At most `n` exchanges are kept, for a cap that is not 0.
length-kept_exchanges :
    (count : Counter) (budget n : ℕ) (ms : List Message)
    → 0 < n
    → length (kept_exchanges count budget n ms) ≤ n
length-kept_exchanges count budget n ms h =
    let k = kept_exchanges-IsNewest count budget n ms in
    let kept = kept_exchanges count budget n ms in
    omega (
      arith,
      ap (λ (es : List (List Message)). length es) k.within,
      length-append {0} (reverse k.left) kept,
      length-cap_exchanges n (group_exchanges ms) h,
    )
