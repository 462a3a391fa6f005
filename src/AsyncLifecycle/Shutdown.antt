-- ===== src/AsyncLifecycle/Shutdown.antt =====
-- What a shutdown of the owner in backend/async_lifecycle.py leaves.
pub mod Asides
pub mod Closed
use taigi_agent.Prelude.{
  ℕ, zero, suc, ◌≡◌, ◌≤◌, ◌<◌, ◌⊎◌, inl, inr, refl, ap, sym, subst, ◌∙◌, Bool, true, false, not,
  ◌&&◌, Option, none, some, List, [], ◌∷◌, any, keep, ◌==◌, if◌then◌else◌, Bool-cases, Option-cases,
  arith,
}
use taigi_agent.AsyncLifecycle.{
  member, discard, write, is_task, EntryState, active, closing, failed, Entry, CloseTask, unborn,
  running, succeeded, errored, Drain, absent, waiting, woken, draining, joining, ended, Owner,
  new_entry, new, begin_acquisition, drop_acquisition, finish_acquisition, abort_acquisition, adopt,
  close_admission, retire_closed, close_entry, Start, joins, raised, returned, begin_release,
  end_release, retry_failed, begin_aclose, end_aclose,
}
use taigi_agent.AsyncLifecycle.Events.{
  set_drain, after_join, is_done, after_start, advance, Event, begins, closes_admission, adopts,
  finishes, aborts, retires, releases, close_ends, close_never_starts, release_ends, retries,
  acloses, aclose_ends, advances, or_same, or_unchanged, end_close, cancel_close, finish_aclose,
  step, play,
}
use taigi_agent.AsyncLifecycle.Changes.{
  begun, adopted, born, cancelled, retrying, shutting, concluded, Move, gives_up, wakes, looks,
  is_through, skips, counts, waits, hears, Preserved, end_release-close_tasks, end_release-drains,
}
use taigi_agent.AsyncLifecycle.Changes.Induction.{play_keeps}
use taigi_agent.AsyncLifecycle.Members.{
  member-discard, member-discard-same, member-cons, member-split, discard-empty,
}
use taigi_agent.AsyncLifecycle.Numbers.{
  entry_of, Sound, Calm, Sound-Preserved, new-Sound, retire_closed-Calm, drop_acquisition-Calm,
  end_release-Calm,
}

-- No acquisition is pending, and what is owned is among these.
abbrev pub Within : Owner → List ℕ → Type 0
Within s ks = (s.pending ≡ []) × ((k : ℕ) → member k s.entries ≡ true → member k ks ≡ true)

-- What a shutdown task has established where it is.
abbrev pub Drained : Owner → Drain → Type 0
Drained s absent = Unit
Drained s waiting = Unit
Drained s woken = s.pending ≡ []
Drained s (draining es zero) = Within s es
Drained s (draining es (suc n)) = Unit
Drained s (joining t e es zero) = Within s (e ∷ es) × (entry_of (s.close_tasks t) ≡ some e)
Drained s (joining t e es (suc n)) = Unit
Drained s (ended true) = Within s []
Drained s (ended false) = Unit

-- A change behind a closed gate.
pub record Quiet (s s' : Owner) : Type 0 where
  pub none_pending : s.pending ≡ [] → s'.pending ≡ []
  pub none_new : s.pending ≡ [] → (k : ℕ) → member k s'.entries ≡ true → member k s.entries ≡ true
  pub tasks_stay :
      (t e : ℕ) → entry_of (s.close_tasks t) ≡ some e → entry_of (s'.close_tasks t) ≡ some e

Quiet-Within : (s s' : Owner) (ks : List ℕ) → Quiet s s' → Within s ks → Within s' ks
Quiet-Within s s' ks q w = (q.none_pending w.0, λ k m. w.1 k (q.none_new w.0 k m))

Quiet-Drained : (s s' : Owner) (p : Drain) → Quiet s s' → Drained s p → Drained s' p
Quiet-Drained s s' absent q h = tt
Quiet-Drained s s' waiting q h = tt
Quiet-Drained s s' woken q h = q.none_pending h
Quiet-Drained s s' (draining es zero) q h = Quiet-Within s s' es q h
Quiet-Drained s s' (draining es (suc n)) q h = tt
Quiet-Drained s s' (joining t e es zero) q h =
    (Quiet-Within s s' (e ∷ es) q h.0, q.tasks_stay t e h.1)
Quiet-Drained s s' (joining t e es (suc n)) q h = tt
Quiet-Drained s s' (ended true) q h = Quiet-Within s s' [] q h
Quiet-Drained s s' (ended false) q h = tt

-- What holds of the flags and of the shutdown task in every state.
pub record Shut (s : Owner) : Type 0 where
  pub event : s.pending_empty ≡ true → s.pending ≡ []
  pub at_end : s.is_closed ≡ true → (s.is_closing ≡ true) × Within s []
  pub task :
      (t : ℕ)
      → s.shutdown_task ≡ some t
      → (s.is_closing ≡ true) × (t < s.next) × Drained s (s.drains t)

-- A change that leaves the flags and the drains that there were.
pub record Aside (s s' : Owner) : Type 0 where
  pub quiet : s.is_closing ≡ true → Quiet s s'
  pub gate : s.is_closing ≡ true → s'.is_closing ≡ true
  pub same_closed : s'.is_closed ≡ s.is_closed
  pub same_slot : s'.shutdown_task ≡ s.shutdown_task
  pub later : s.next ≤ s'.next
  pub same_drains : (t : ℕ) → t < s.next → s'.drains t ≡ s.drains t
  pub event : (s.pending_empty ≡ true → s.pending ≡ []) → s'.pending_empty ≡ true → s'.pending ≡ []

pub Aside-Shut : (s s' : Owner) → Aside s s' → Shut s → Shut s'
Aside-Shut s s' a h = record {
  event = a.event h.event;
  at_end = λ c.
      let (g, w) = h.at_end (sym a.same_closed ∙ c) in
      (a.gate g, Quiet-Within s s' [] (a.quiet g) w);
  task = λ t p.
      let (g, n, d) = h.task t (sym a.same_slot ∙ p) in
      (
        a.gate g,
        omega (arith, n, a.later),
        subst (Drained s') (sym (a.same_drains t n))
            (Quiet-Drained s s' (s.drains t) (a.quiet g) d),
      );
}

-- A step of the shutdown task keeps what it has established.
Within-skip :
    (s : Owner) (e : ℕ) (es : List ℕ) → member e s.entries ≡ false → Within s (e ∷ es) → Within s es
Within-skip s e es m w =
    (w.0, λ k p. elim (member-cons k e es (w.1 k p)) [ inl q ↦ absurd (clash k q p) | inr q ↦ q ])
  where
    clash : (k : ℕ) → k ≡ e → member k s.entries ≡ true → ⊥
    clash k q p =
        let same : member k s.entries ≡ member e s.entries = ap (λ x. member x s.entries) q in cc

pub Move-Drained :
    (s : Owner) (p q : Drain)
    → Sound s
    → (s.pending_empty ≡ true → s.pending ≡ [])
    → Move s p q
    → Drained s p
    → Drained s q
unfolding entry_of
Move-Drained s p _ h e gives_up d = tt
Move-Drained s p _ h e (wakes x) d = e x
Move-Drained s p _ h e looks d = (d, λ k m. m)
Move-Drained s p _ h e is_through d = d
Move-Drained s p _ h e (skips {e = x} {es = es} {n = zero} m) d = Within-skip s x es m d
Move-Drained s p _ h e (skips {e = x} {es = es} {n = suc n} m) d = tt
Move-Drained s p _ h e counts d = tt
Move-Drained s p _ h e (waits {t = t} {e = x} {es = es} {n = zero} o) d = (d, h.slots x t o)
Move-Drained s p _ h e (waits {t = t} {e = x} {es = es} {n = suc n} o) d = tt
Move-Drained s p _ h e (hears {t = t} {e = x} {u = u} {es = es} {n = zero} o) d =
    let same : some u ≡ some x = sym (ap entry_of o) ∙ d.1 in
    let eq : u ≡ x = cc in
    Within-skip s x es (subst (λ y. member y s.entries ≡ false) eq (h.gone t u o)) d.0
Move-Drained s p _ h e (hears {t = t} {e = x} {u = u} {es = es} {n = suc n} o) d = tt
