-- ===== src/Providers/KeyedLocks/Counts.antt =====
-- Counting the tasks at the locks of backend/providers/ttl_cache.py.
use taigi_agent.Prelude.{
  ℕ, zero, suc, ◌+◌, ◌≡◌, subst, Bool, true, some, List, [], ◌∷◌, if◌then◌else◌, get_elem?, tally,
  All, arith,
}
use taigi_agent.Providers.KeyedLocks.{Use, remove_at, hold_at}

pub tally-remove_at :
    (p : Use → Bool) (i : ℕ) (us : List Use) (u : Use)
    → get_elem? us i ≡ some u
    → tally p us ≡ tally p (remove_at i us) + (if p u then 1 else 0)
tally-remove_at p i [] u h = cc
tally-remove_at p zero (v ∷ us) u h = let same : v ≡ u = cc in rw same (omega arith)
tally-remove_at p (suc i) (v ∷ us) u h = omega (arith, tally-remove_at p i us u h)

pub tally-hold_at :
    (p : Use → Bool) (i : ℕ) (us : List Use) (u : Use)
    → get_elem? us i ≡ some u
    → tally p (hold_at i us) + (if p u then 1 else 0)
      ≡ tally p us + (if p (record u { holds = true }) then 1 else 0)
tally-hold_at p i [] u h = cc
tally-hold_at p zero (v ∷ us) u h = let same : v ≡ u = cc in rw same (omega arith)
tally-hold_at p (suc i) (v ∷ us) u h = omega (arith, tally-hold_at p i us u h)

pub All-remove_at {κ} :
    (P : Use → Type κ) (i : ℕ) (us : List Use) → All P us → All P (remove_at i us)
All-remove_at P i [] h = tt
All-remove_at P zero (v ∷ us) h = h.1
All-remove_at P (suc i) (v ∷ us) h = (h.0, All-remove_at P i us h.1)

pub All-get {κ} :
    (P : Use → Type κ) (i : ℕ) (us : List Use) (u : Use) → get_elem? us i ≡ some u → All P us → P u
All-get P i [] u h a = cc
All-get P zero (v ∷ us) u h a = let same : v ≡ u = cc in subst P same a.0
All-get P (suc i) (v ∷ us) u h a = All-get P i us u h a.1

-- A property that does not look at `holds`.
pub All-hold_at {κ} :
    (P : Use → Type κ) (i : ℕ) (us : List Use)
    → ((u : Use) → P u → P (record u { holds = true }))
    → All P us
    → All P (hold_at i us)
All-hold_at P i [] f h = tt
All-hold_at P zero (v ∷ us) f h = (f v h.0, h.1)
All-hold_at P (suc i) (v ∷ us) f h = (h.0, All-hold_at P i us f h.1)
