-- ===== src/AsyncLifecycle/Shutdown/Closed.antt =====
-- An owner of backend/async_lifecycle.py that is closed.
use taigi_agent.Prelude.{
  ==-eq, ℕ, ◌≡◌, ◌<◌, refl, ap, sym, subst, ◌∙◌, Bool, true, false, some, List, [], ◌∷◌, ◌==◌,
  if◌then◌else◌, arith,
}
use taigi_agent.AsyncLifecycle.{member, write, Drain, waiting, ended, Owner, new}
use taigi_agent.AsyncLifecycle.Events.{set_drain, Event, play}
use taigi_agent.AsyncLifecycle.Changes.{adopted, shutting, concluded, Move, Preserved}
use taigi_agent.AsyncLifecycle.Changes.Induction.{play_keeps}
use taigi_agent.AsyncLifecycle.Numbers.{Sound, Sound-Preserved, new-Sound}
use taigi_agent.AsyncLifecycle.Shutdown.{Drained, Shut, Aside-Shut, Move-Drained}
use taigi_agent.AsyncLifecycle.Shutdown.Asides.{
  acquisition-Aside, begun-Aside, closed-Aside, retired-Aside, cleared-Aside, born-Aside,
  cancelled-Aside, gated-Aside, retrying-Aside,
}

shutting-Shut : (s : Owner) → s.is_closing ≡ true → Shut s → Shut (shutting s)
shutting-Shut s g h = record {
  event = h.event;
  at_end = h.at_end;
  task = λ t p.
      let same : s.next ≡ t = cc in
      (g, omega (arith, same), subst (Drained (shutting s)) (sym (here t same)) tt);
}
  where
    here : (t : ℕ) → s.next ≡ t → (shutting s).drains t ≡ waiting
    here t same = ground (arith, same)

concluded-Shut :
    (s : Owner) (t : ℕ) (ok : Bool)
    → s.shutdown_task ≡ some t
    → s.drains t ≡ ended ok
    → Shut s
    → Shut (concluded s ok)
concluded-Shut s t true o d h = record {
  event = h.event;
  at_end = λ c. let (g, n, w) = h.task t o in (g, subst (Drained s) d w);
  task = λ u p. cc;
}
concluded-Shut s t false o d h = record { event = h.event; at_end = h.at_end; task = λ u p. cc }

moved-Shut :
    (s : Owner) (d : ℕ) (p q : Drain)
    → s.drains d ≡ p
    → Move s p q
    → Sound s
    → Shut s
    → Shut (set_drain s d q)
unfolding set_drain
moved-Shut s d p q e m sound h = record { event = h.event; at_end = h.at_end; task = task }
  where
    task :
        (u : ℕ)
        → s.shutdown_task ≡ some u
        → (s.is_closing ≡ true) × (u < s.next) × Drained s (write d q s.drains u)
    task u o = let (g, n, was) = h.task u o in (g, n, go (u == d) refl was)
      where
        go :
            (b : Bool)
            → (u == d) ≡ b
            → Drained s (s.drains u)
            → Drained s (if b then q else s.drains u)
        go false x was = was
        go true x was =
            Move-Drained s p q sound h.event m
              (subst (Drained s) (ap s.drains (==-eq u d x) ∙ e) was)

Sane : Owner → Type 0
Sane s = Sound s × Shut s

Sane-Preserved : Preserved Sane
unfolding Sane
Sane-Preserved = record {
  begun = λ s e h. (Sound-Preserved.begun s e h.0, Aside-Shut s _ (begun-Aside s e) h.1);
  adopted = λ s a m h. (
    Sound-Preserved.adopted s a m h.0,
    Aside-Shut s _
        (acquisition-Aside s (adopted s) a m refl refl refl refl refl (omega arith) refl refl) h.1,
  );
  aborted = λ s a m h. (
    Sound-Preserved.aborted s a m h.0,
    Aside-Shut s _ (acquisition-Aside s s a m refl refl refl refl refl (omega arith) refl refl) h.1,
  );
  gated = λ s h. (Sound-Preserved.gated s h.0, Aside-Shut s _ (gated-Aside s) h.1);
  retired = λ s e h. (Sound-Preserved.retired s e h.0, Aside-Shut s _ (retired-Aside s e) h.1);
  born = λ s e m o h. (Sound-Preserved.born s e m o h.0, Aside-Shut s _ (born-Aside s e h.0) h.1);
  closed = λ s t e ok r h.
      (Sound-Preserved.closed s t e ok r h.0, Aside-Shut s _ (closed-Aside s t e ok r) h.1);
  cancelled = λ s t e r h.
      (Sound-Preserved.cancelled s t e r h.0, Aside-Shut s _ (cancelled-Aside s t e r) h.1);
  cleared =
      λ s t e d h. (Sound-Preserved.cleared s t e d h.0, Aside-Shut s _ (cleared-Aside s t e) h.1);
  retrying =
      λ s es e h. (Sound-Preserved.retrying s es e h.0, Aside-Shut s _ (retrying-Aside s es) h.1);
  shutting = λ s g n h. (Sound-Preserved.shutting s g n h.0, shutting-Shut s g h.1);
  concluded =
      λ s t ok e d h. (Sound-Preserved.concluded s t ok e d h.0, concluded-Shut s t ok e d h.1);
  moved = λ s d p q e m h. (Sound-Preserved.moved s d p q e m h.0, moved-Shut s d p q e m h.0 h.1);
}

new-Sane : Sane new
unfolding Sane new
new-Sane = (new-Sound, record { event = λ x. refl; at_end = λ x. cc; task = λ t x. cc })

nothing_within : (ks : List ℕ) → ((k : ℕ) → member k ks ≡ true → member k [] ≡ true) → ks ≡ []
nothing_within [] h = refl
nothing_within (k ∷ ks) h =
    let here : member k (k ∷ ks) ≡ true = ground arith in absurd (no k (h k here))
  where
    no : (k : ℕ) → member k [] ≡ true → ⊥
    no k x = cc

-- Closed for good.
Closed : Owner → Type 0
Closed s = Sane s × (s.is_closed ≡ true)

Closed-Preserved : Preserved Closed
unfolding Closed Sane set_drain
Closed-Preserved = record {
  begun = λ s e h. (Sane-Preserved.begun s e h.0, h.1);
  adopted = λ s a m h. (
    Sane-Preserved.adopted s a m h.0,
    (acquisition-Aside s (adopted s) a m refl refl refl refl refl (omega arith) refl
          refl).same_closed
        ∙ h.1,
  );
  aborted = λ s a m h. (
    Sane-Preserved.aborted s a m h.0,
    (acquisition-Aside s s a m refl refl refl refl refl (omega arith) refl refl).same_closed ∙ h.1,
  );
  gated = λ s h. (Sane-Preserved.gated s h.0, (gated-Aside s).same_closed ∙ h.1);
  retired = λ s e h. (Sane-Preserved.retired s e h.0, (retired-Aside s e).same_closed ∙ h.1);
  born = λ s e m o h. (Sane-Preserved.born s e m o h.0, h.1);
  closed = λ s t e ok r h.
      (Sane-Preserved.closed s t e ok r h.0, (closed-Aside s t e ok r).same_closed ∙ h.1);
  cancelled = λ s t e r h. (Sane-Preserved.cancelled s t e r h.0, h.1);
  cleared =
      λ s t e d h. (Sane-Preserved.cleared s t e d h.0, (cleared-Aside s t e).same_closed ∙ h.1);
  retrying = λ s es e h. (Sane-Preserved.retrying s es e h.0, h.1);
  shutting = λ s g n h. (Sane-Preserved.shutting s g n h.0, h.1);
  concluded = λ s t ok e d h. (Sane-Preserved.concluded s t ok e d h.0, ground (arith, h.1));
  moved = λ s d p q e m h. (Sane-Preserved.moved s d p q e m h.0, h.1);
}

-- However acquisitions, releases, retries, closes and shutdowns interleave, and whichever of them
-- fail or are cancelled: once the owner says that it is closed, no acquisition is pending and no
-- resource is owned, the gate is shut, and this stays so whatever happens next.
pub closed_owns_nothing :
    (xs ys : List Event)
    → (play new xs).is_closed ≡ true
    → ((play (play new xs) ys).entries ≡ [])
      × ((play (play new xs) ys).pending ≡ [])
      × ((play (play new xs) ys).is_closing ≡ true)
unfolding Closed Sane
closed_owns_nothing xs ys c =
    let start = play_keeps Sane Sane-Preserved new xs new-Sane in
    let (sane, closed) = play_keeps Closed Closed-Preserved (play new xs) ys (start, c) in
    let (gate, within) = sane.1.at_end closed in
    (nothing_within (play (play new xs) ys).entries within.1, within.0, gate)
