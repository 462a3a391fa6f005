-- ===== src/AsyncLifecycle/Retained.antt =====
-- What becomes of a resource that was adopted (backend/async_lifecycle.py).
use taigi_agent.Prelude.{
  ℕ, ◌≡◌, ◌<◌, ◌⊎◌, inl, inr, refl, ap, subst, ◌∙◌, Bool, true, false, List, if◌then◌else◌, arith,
}
use taigi_agent.AsyncLifecycle.{
  member, discard, write, failed, errored, Owner, new, drop_acquisition, close_admission,
  retire_closed, close_entry, end_release,
}
use taigi_agent.AsyncLifecycle.Events.{set_drain, Event, play}
use taigi_agent.AsyncLifecycle.Changes.{Preserved}
use taigi_agent.AsyncLifecycle.Changes.Induction.{play_keeps}
use taigi_agent.AsyncLifecycle.Members.{member-split}
use taigi_agent.AsyncLifecycle.Numbers.{
  Sound, Sound-Preserved, new-Sound, retire_closed-Calm, end_release-Calm,
}

-- A resource is owned, or known to be closed.
abbrev pub IsRetained : ℕ → Owner → Type 0
IsRetained r s = (member r s.entries ≡ true) ⊎ ((s.objects r).physically_closed ≡ true)

Kept : ℕ → Owner → Type 0
Kept r s = Sound s × (r < s.next) × IsRetained r s

retired-IsRetained : (r : ℕ) (s : Owner) (e : ℕ) → IsRetained r s → IsRetained r (retire_closed s e)
unfolding retire_closed
retired-IsRetained r s e (inl m) = elim (member-split r e s.entries m) [
  | inl q ↦ let me = subst (λ x. member x s.entries ≡ true) q m in inr (ground (arith, q, me))
  | inr d ↦ inl (ground (arith, d, m))
]
retired-IsRetained r s e (inr c) = inr (ground (arith, c))

closed-next :
    (r : ℕ) (s : Owner) (t e : ℕ) (ok : Bool) → r < s.next → r < (close_entry s t e ok).next
unfolding close_entry
closed-next r s t e true h = h
closed-next r s t e false h = ground (arith, h)

closed-IsRetained :
    (r : ℕ) (s : Owner) (t e : ℕ) (ok : Bool) → IsRetained r s → IsRetained r (close_entry s t e ok)
unfolding close_entry
closed-IsRetained r s t e true (inl m) = elim (member-split r e s.entries m) [
  | inl q ↦ inr (ground (arith, q))
  | inr d ↦ inl d
]
closed-IsRetained r s t e true (inr c) = inr (ground (arith, c))
closed-IsRetained r s t e false h = go (s.objects e).physically_closed refl h
  where
    go :
        (b : Bool)
        → (s.objects e).physically_closed ≡ b
        → IsRetained r s
        → IsRetained r (
            if b
            then record s {
              entries = discard e s.entries;
              close_tasks = write t (errored e) s.close_tasks;
            }
            else record s {
              objects = write e (record (s.objects e) { state = failed }) s.objects;
              close_tasks = write t (errored e) s.close_tasks;
            })
    go true q (inr c) = inr c
    go true q (inl m) = elim (member-split r e s.entries m) [
      | inl same ↦ inr (ap (λ x. (s.objects x).physically_closed) same ∙ q)
      | inr d ↦ inl d
    ]
    go false q (inl m) = inl m
    go false q (inr c) = inr (ground (arith, c))

cleared-IsRetained :
    (r : ℕ) (s : Owner) (t e : ℕ) → IsRetained r s → IsRetained r (end_release s t e)
unfolding end_release
cleared-IsRetained r s t e (inl m) = inl (ground (arith, m))
cleared-IsRetained r s t e (inr c) = inr (ground (arith, c))

Kept-Preserved : (r : ℕ) → Preserved (Kept r)
unfolding Kept close_admission set_drain drop_acquisition
Kept-Preserved r = record {
  begun = λ s e h. (Sound-Preserved.begun s e h.0, omega (arith, h.1), h.2);
  adopted = λ s a m h. (
    Sound-Preserved.adopted s a m h.0,
    omega (arith, h.1),
    elim h.2 [ inl x ↦ inl (ground (arith, x)) | inr x ↦ inr (ground (arith, x, h.1)) ],
  );
  aborted = λ s a m h. (Sound-Preserved.aborted s a m h.0, h.1, h.2);
  gated = λ s h. (Sound-Preserved.gated s h.0, h.1, h.2);
  retired = λ s e h. (
    Sound-Preserved.retired s e h.0,
    omega (arith, h.1, (retire_closed-Calm s e).later),
    retired-IsRetained r s e h.2,
  );
  born = λ s e m o h. (
    Sound-Preserved.born s e m o h.0,
    omega (arith, h.1),
    elim h.2 [ inl x ↦ inl x | inr x ↦ inr (ground (arith, x)) ],
  );
  closed = λ s t e ok run h. (
    Sound-Preserved.closed s t e ok run h.0,
    closed-next r s t e ok h.1,
    closed-IsRetained r s t e ok h.2,
  );
  cancelled = λ s t e r h. (Sound-Preserved.cancelled s t e r h.0, h.1, h.2);
  cleared = λ s t e d h. (
    Sound-Preserved.cleared s t e d h.0,
    omega (arith, h.1, (end_release-Calm s t e).later),
    cleared-IsRetained r s t e h.2,
  );
  retrying = λ s es e h. (Sound-Preserved.retrying s es e h.0, omega (arith, h.1), h.2);
  shutting = λ s e n h. (Sound-Preserved.shutting s e n h.0, omega (arith, h.1), h.2);
  concluded = λ s t ok e d h. (Sound-Preserved.concluded s t ok e d h.0, h.1, h.2);
  moved = λ s d p q e m h. (Sound-Preserved.moved s d p q e m h.0, h.1, h.2);
}

new_owner-Sound : (xs : List Event) → Sound (play new xs)
new_owner-Sound xs = play_keeps Sound Sound-Preserved new xs new-Sound

-- In every state that is reached and whatever happens from there, failures of closes and cancelled
-- waiters included, an owned resource stays owned unless it is known to be physically closed.
pub owned_until_closed :
    (xs ys : List Event) (r : ℕ)
    → member r (play new xs).entries ≡ true
    → IsRetained r (play (play new xs) ys)
unfolding Kept
owned_until_closed xs ys r m =
    let sound = new_owner-Sound xs in
    (play_keeps (Kept r) (Kept-Preserved r) (play new xs) ys (sound, sound.owned r m, inl m)).2
