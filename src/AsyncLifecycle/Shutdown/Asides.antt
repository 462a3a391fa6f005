-- ===== src/AsyncLifecycle/Shutdown/Asides.antt =====
-- The changes of the owner in backend/async_lifecycle.py that a shutdown goes on beside.
use taigi_agent.Prelude.{
  ℕ, ◌≡◌, ◌≤◌, refl, ap, sym, ◌∙◌, Bool, true, false, none, some, List, [], ◌∷◌, if◌then◌else◌,
  arith,
}
use taigi_agent.AsyncLifecycle.{
  member, discard, write, is_task, failed, running, errored, Owner, drop_acquisition,
  close_admission, retire_closed, close_entry, end_release,
}
use taigi_agent.AsyncLifecycle.Changes.{begun, born, cancelled, retrying}
use taigi_agent.AsyncLifecycle.Members.{member-discard, discard-empty}
use taigi_agent.AsyncLifecycle.Numbers.{entry_of, Sound}
use taigi_agent.AsyncLifecycle.Shutdown.{Aside}

-- A change of the objects, the owned entries and the tasks alone.
within-Aside :
    (s s' : Owner)
    → s'.pending ≡ s.pending
    → s'.pending_empty ≡ s.pending_empty
    → s'.is_closing ≡ s.is_closing
    → s'.is_closed ≡ s.is_closed
    → s'.shutdown_task ≡ s.shutdown_task
    → s.next ≤ s'.next
    → s'.drains ≡ s.drains
    → ((k : ℕ) → member k s'.entries ≡ true → member k s.entries ≡ true)
    → ((t e : ℕ) → entry_of (s.close_tasks t) ≡ some e → entry_of (s'.close_tasks t) ≡ some e)
    → Aside s s'
within-Aside s s' p pe g c o n d f ts = record {
  quiet = λ x. record { none_pending = λ y. p ∙ y; none_new = λ y. f; tasks_stay = ts };
  gate = λ x. g ∙ x;
  same_closed = c;
  same_slot = o;
  later = n;
  same_drains = λ t x. ap (λ ds. ds t) d;
  event = λ h x. p ∙ h (sym pe ∙ x);
}

pub begun-Aside : (s : Owner) → s.is_closing ≡ false → Aside s (begun s)
begun-Aside s o = record {
  quiet = λ x. absurd (open_and_closing x);
  gate = λ x. x;
  same_closed = refl;
  same_slot = refl;
  later = omega arith;
  same_drains = λ t x. refl;
  event = λ h x. cc;
}
  where
    open_and_closing : s.is_closing ≡ true → ⊥
    open_and_closing x = cc

-- What is behind an acquisition: a resource may be new, as the acquisition was pending.
pub acquisition-Aside :
    (s s' : Owner) (a : ℕ)
    → member a s.pending ≡ true
    → s'.pending ≡ s.pending
    → s'.pending_empty ≡ s.pending_empty
    → s'.is_closing ≡ s.is_closing
    → s'.is_closed ≡ s.is_closed
    → s'.shutdown_task ≡ s.shutdown_task
    → s.next ≤ s'.next
    → s'.drains ≡ s.drains
    → s'.close_tasks ≡ s.close_tasks
    → Aside s (drop_acquisition s' a)
unfolding drop_acquisition
acquisition-Aside s s' a m p pe g c o n d ts = record {
  quiet = λ x. record {
    none_pending = λ y. absurd (none_is_pending y);
    none_new = λ y. absurd (none_is_pending y);
    tasks_stay = λ t e y. ap (λ f. entry_of (f t)) ts ∙ y;
  };
  gate = λ x. g ∙ x;
  same_closed = c;
  same_slot = o;
  later = n;
  same_drains = λ t x. ap (λ ds. ds t) d;
  event = λ h x. emptied h (discard a s'.pending) refl x;
}
  where
    none_is_pending : s.pending ≡ [] → ⊥
    none_is_pending y = let no : true ≡ false = sym m ∙ ap (member a) y in cc

    emptied :
        (s.pending_empty ≡ true → s.pending ≡ [])
        → (ks : List ℕ) → discard a s'.pending ≡ ks
        → (elim ks [ [] ↦ true | k ∷ more ↦ s'.pending_empty ]) ≡ true
        → discard a s'.pending ≡ []
    emptied h [] q x = q
    emptied h (k ∷ ks) q x = discard-empty a s'.pending (p ∙ h (sym pe ∙ x))

pub closed-Aside :
    (s : Owner) (t e : ℕ) (ok : Bool) → s.close_tasks t ≡ running e → Aside s (close_entry s t e ok)
unfolding close_entry entry_of
closed-Aside s t e true r =
    within-Aside s _ refl refl refl refl refl (omega arith) refl (λ k. member-discard k e s.entries)
      (λ u x q. ground (arith, q, ap entry_of r))
closed-Aside s t e false r = go (s.objects e).physically_closed
  where
    go :
        (b : Bool)
        → Aside s (
            if b
            then record s {
              entries = discard e s.entries;
              close_tasks = write t (errored e) s.close_tasks;
            }
            else record s {
              objects = write e (record (s.objects e) { state = failed }) s.objects;
              close_tasks = write t (errored e) s.close_tasks;
            })
    go true =
        within-Aside s _ refl refl refl refl refl (omega arith) refl
          (λ k. member-discard k e s.entries) (λ u x q. ground (arith, q, ap entry_of r))
    go false =
        within-Aside s _ refl refl refl refl refl (omega arith) refl (λ k q. q)
          (λ u x q. ground (arith, q, ap entry_of r))

pub retired-Aside : (s : Owner) (e : ℕ) → Aside s (retire_closed s e)
unfolding retire_closed
retired-Aside s e = go (member e s.entries)
  where
    go :
        (b : Bool)
        → Aside s (
            if b
            then record s {
              objects = write e (record (s.objects e) { physically_closed = true }) s.objects;
              entries = elim (s.objects e).close_task [
                | none ↦ discard e s.entries
                | some t ↦ s.entries
              ];
            }
            else s)
    go true =
        within-Aside s _ refl refl refl refl refl (omega arith) refl
          (λ k q. ground (arith, member-discard k e s.entries, q)) (λ u x q. q)
    go false = within-Aside s s refl refl refl refl refl (omega arith) refl (λ k q. q) (λ u x q. q)

pub cleared-Aside : (s : Owner) (t e : ℕ) → Aside s (end_release s t e)
unfolding end_release
cleared-Aside s t e = go (is_task (s.objects e).close_task t)
  where
    go :
        (b : Bool)
        → Aside s (
            if b
            then record s {
              objects = write e (record (s.objects e) { close_task = none }) s.objects;
            }
            else s)
    go true = within-Aside s _ refl refl refl refl refl (omega arith) refl (λ k q. q) (λ u x q. q)
    go false = within-Aside s s refl refl refl refl refl (omega arith) refl (λ k q. q) (λ u x q. q)

pub born-Aside : (s : Owner) (e : ℕ) → Sound s → Aside s (born s e)
unfolding entry_of
born-Aside s e h =
    within-Aside s (born s e) refl refl refl refl refl (omega arith) refl (λ k q. q)
      (λ u x q. ground (arith, q, h.tasks u x q))

pub cancelled-Aside :
    (s : Owner) (t e : ℕ) → s.close_tasks t ≡ running e → Aside s (cancelled s t e)
unfolding entry_of
cancelled-Aside s t e r =
    within-Aside s (cancelled s t e) refl refl refl refl refl (omega arith) refl (λ k q. q)
      (λ u x q. ground (arith, q, ap entry_of r))

pub gated-Aside : (s : Owner) → Aside s (close_admission s)
unfolding close_admission
gated-Aside s = record {
  quiet = λ x. record { none_pending = λ y. y; none_new = λ y k m. m; tasks_stay = λ t e y. y };
  gate = λ x. refl;
  same_closed = refl;
  same_slot = refl;
  later = omega arith;
  same_drains = λ t x. refl;
  event = λ h x. h x;
}

pub retrying-Aside : (s : Owner) (es : List ℕ) → Aside s (retrying s es)
retrying-Aside s es = record {
  quiet = λ x. record { none_pending = λ y. y; none_new = λ y k m. m; tasks_stay = λ t e y. y };
  gate = λ x. x;
  same_closed = refl;
  same_slot = refl;
  later = omega arith;
  same_drains = λ t x. ground (arith, x);
  event = λ h x. h x;
}
