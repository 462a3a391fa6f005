-- ===== src/AsyncLifecycle/Members.antt =====
-- The sets of numbers of the owner in backend/async_lifecycle.py.
use taigi_agent.Prelude.{ℕ, ◌≡◌, ◌⊎◌, refl, true, false, List, [], ◌∷◌, arith}
use taigi_agent.AsyncLifecycle.{member, discard}

pub member-discard-same : (k : ℕ) (ks : List ℕ) → member k (discard k ks) ≡ false
member-discard-same k [] = refl
member-discard-same k (x ∷ xs) = ground (arith, member-discard-same k xs)

pub member-discard : (k e : ℕ) (ks : List ℕ) → member k (discard e ks) ≡ true → member k ks ≡ true
member-discard k e [] h = h
member-discard k e (x ∷ xs) h = ground (arith, member-discard k e xs)

-- What a set without one number still has.
pub member-split :
    (k e : ℕ) (ks : List ℕ) → member k ks ≡ true → (k ≡ e) ⊎ (member k (discard e ks) ≡ true)
member-split k e [] h = cc
member-split k e (x ∷ xs) h = ground (arith, member-split k e xs)

pub member-cons :
    (k x : ℕ) (xs : List ℕ) → member k (x ∷ xs) ≡ true → (k ≡ x) ⊎ (member k xs ≡ true)
member-cons k x xs h = ground arith

pub discard-empty : (k : ℕ) (ks : List ℕ) → ks ≡ [] → discard k ks ≡ []
discard-empty k [] h = refl
discard-empty k (x ∷ xs) h = cc
