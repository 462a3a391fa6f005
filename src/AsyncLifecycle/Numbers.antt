-- ===== src/AsyncLifecycle/Numbers.antt =====
-- What the numbers of the owner in backend/async_lifecycle.py refer to, in every state.
use taigi_agent.Prelude.{
  ℕ, ◌≡◌, ◌≤◌, ◌<◌, inl, inr, refl, ap, sym, subst, ◌∙◌, Bool, true, false, Option, none, some,
  List, if◌then◌else◌, Bool-cases, arith,
}
use taigi_agent.AsyncLifecycle.{
  member, discard, write, failed, CloseTask, unborn, running, succeeded, errored, Owner, new,
  drop_acquisition, close_admission, retire_closed, close_entry, end_release,
}
use taigi_agent.AsyncLifecycle.Events.{set_drain}
use taigi_agent.AsyncLifecycle.Changes.{
  begun, adopted, born, cancelled, retrying, shutting, concluded, Preserved,
}
use taigi_agent.AsyncLifecycle.Members.{member-discard, member-discard-same, member-cons}

-- The entry of a task.
unfoldable pub entry_of : CloseTask → Option ℕ
entry_of unborn = none
entry_of (running e) = some e
entry_of (succeeded e) = some e
entry_of (errored e) = some e

-- Tasks and owned entries have numbers that were given out, a slot holds a task of its own entry, and
-- an entry whose close succeeded is no longer owned.
pub record Sound (s : Owner) : Type 0 where
  pub tasks : (t e : ℕ) → entry_of (s.close_tasks t) ≡ some e → (t < s.next) × (e < s.next)
  pub owned : (k : ℕ) → member k s.entries ≡ true → k < s.next
  pub slots : (e t : ℕ) → (s.objects e).close_task ≡ some t → entry_of (s.close_tasks t) ≡ some e
  pub gone : (t e : ℕ) → s.close_tasks t ≡ succeeded e → member e s.entries ≡ false

-- A change that makes no task and gives out no number to a resource.
pub record Calm (s s' : Owner) : Type 0 where
  pub later : s.next ≤ s'.next
  pub fewer : (k : ℕ) → member k s'.entries ≡ true → member k s.entries ≡ true
  pub emptied : (e t : ℕ) → (s'.objects e).close_task ≡ some t → (s.objects e).close_task ≡ some t
  pub same_tasks : (t : ℕ) → s'.close_tasks t ≡ s.close_tasks t

not_member :
    (k : ℕ) (xs ys : List ℕ)
    → (member k ys ≡ true → member k xs ≡ true)
    → member k xs ≡ false
    → member k ys ≡ false
not_member k xs ys f n = elim (Bool-cases (member k ys)) [ inl h ↦ cc (f h) | inr h ↦ h ]

discard-gone : (k e : ℕ) (ks : List ℕ) → member k ks ≡ false → member k (discard e ks) ≡ false
discard-gone k e ks = not_member k ks (discard e ks) (member-discard k e ks)

pub Calm-Sound : (s s' : Owner) → Calm s s' → Sound s → Sound s'
Calm-Sound s s' c h = record {
  tasks = λ t e p.
      let q = h.tasks t e (ap entry_of (sym (c.same_tasks t)) ∙ p) in
      (omega (arith, c.later, q.0), omega (arith, c.later, q.1));
  owned = λ k p. omega (arith, c.later, h.owned k (c.fewer k p));
  slots = λ e t p. ap entry_of (c.same_tasks t) ∙ h.slots e t (c.emptied e t p);
  gone = λ t e p.
      not_member e s.entries s'.entries (c.fewer e) (h.gone t e (sym (c.same_tasks t) ∙ p));
}

pub Calm-refl : (s : Owner) → Calm s s
Calm-refl s = record {
  later = omega arith;
  fewer = λ k h. h;
  emptied = λ e t h. h;
  same_tasks = λ t. refl;
}

-- A change of the other fields.
plain-Calm :
    (s s' : Owner)
    → s.next ≤ s'.next
    → s'.entries ≡ s.entries
    → s'.objects ≡ s.objects
    → s'.close_tasks ≡ s.close_tasks
    → Calm s s'
plain-Calm s s' n e o c = record {
  later = n;
  fewer = λ k h. subst (λ es. member k es ≡ true) e h;
  emptied = λ k t h. subst (λ f. (f k).close_task ≡ some t) o h;
  same_tasks = λ t. ap (λ f. f t) c;
}

pub plain-Sound :
    (s s' : Owner)
    → s.next ≤ s'.next
    → s'.entries ≡ s.entries
    → s'.objects ≡ s.objects
    → s'.close_tasks ≡ s.close_tasks
    → Sound s
    → Sound s'
plain-Sound s s' n e o c h = Calm-Sound s s' (plain-Calm s s' n e o c) h

pub drop_acquisition-Calm : (s : Owner) (a : ℕ) → Calm s (drop_acquisition s a)
unfolding drop_acquisition
drop_acquisition-Calm s a = record {
  later = omega arith;
  fewer = λ k h. h;
  emptied = λ e t h. h;
  same_tasks = λ t. refl;
}

pub retire_closed-Calm : (s : Owner) (e : ℕ) → Calm s (retire_closed s e)
unfolding retire_closed
retire_closed-Calm s e = record {
  later = ground arith;
  fewer = λ k h. ground (arith, member-discard k e s.entries);
  emptied = λ k t h. ground arith;
  same_tasks = λ t. ground arith;
}

pub end_release-Calm : (s : Owner) (t e : ℕ) → Calm s (end_release s t e)
unfolding end_release
end_release-Calm s t e = record {
  later = ground arith;
  fewer = λ k h. ground arith;
  emptied = λ k u h. ground arith;
  same_tasks = λ u. ground arith;
}

pub adopted-Sound : (s : Owner) → Sound s → Sound (adopted s)
unfolding entry_of
adopted-Sound s h = record {
  tasks = λ t e p. let q = h.tasks t e p in (omega (arith, q.0), omega (arith, q.1));
  owned = λ k p. elim (member-cons k s.next s.entries p) [
    | inl q ↦ omega (arith, q)
    | inr q ↦ omega (arith, h.owned k q)
  ];
  slots = λ e t p. ground (arith, h.slots e t);
  gone = λ t e p. let q = h.tasks t e (ap entry_of p) in ground (arith, h.gone t e p);
}

pub born-Sound : (s : Owner) (e : ℕ) → member e s.entries ≡ true → Sound s → Sound (born s e)
unfolding entry_of
born-Sound s e m h = record {
  tasks = λ t k p. let q = h.owned e m in ground (arith, h.tasks t k);
  owned = λ k p. omega (arith, h.owned k p);
  slots = λ k t p. ground (arith, h.slots k t, h.tasks t k);
  gone = λ t k p. ground (arith, h.gone t k);
}

pub close_entry-Sound :
    (s : Owner) (t e : ℕ) (ok : Bool)
    → s.close_tasks t ≡ running e
    → Sound s
    → Sound (close_entry s t e ok)
unfolding close_entry entry_of
close_entry-Sound s t e true r h = record {
  tasks = λ u k p. let q = h.tasks t e (ap entry_of r) in ground (arith, h.tasks u k);
  owned = λ k p. h.owned k (member-discard k e s.entries p);
  slots = λ k u p. let q = h.slots k u in ground (arith, q, ap entry_of r);
  gone = λ u k p.
      ground (arith, h.gone u k, discard-gone k e s.entries, member-discard-same e s.entries);
}
close_entry-Sound s t e false r h = go (s.objects e).physically_closed
  where
    go :
        (b : Bool)
        → Sound (
            if b
            then record s {
              entries = discard e s.entries;
              close_tasks = write t (errored e) s.close_tasks;
            }
            else record s {
              objects = write e (record (s.objects e) { state = failed }) s.objects;
              close_tasks = write t (errored e) s.close_tasks;
            })
    go true = record {
      tasks = λ u k p. let q = h.tasks t e (ap entry_of r) in ground (arith, h.tasks u k);
      owned = λ k p. h.owned k (member-discard k e s.entries p);
      slots = λ k u p. let q = h.slots k u in ground (arith, q, ap entry_of r);
      gone = λ u k p. ground (arith, h.gone u k, discard-gone k e s.entries);
    }
    go false = record {
      tasks = λ u k p. let q = h.tasks t e (ap entry_of r) in ground (arith, h.tasks u k);
      owned = λ k p. h.owned k p;
      slots = λ k u p. let q = h.slots k u in ground (arith, q, ap entry_of r);
      gone = λ u k p. ground (arith, h.gone u k);
    }

cancelled-Sound :
    (s : Owner) (t e : ℕ) → s.close_tasks t ≡ running e → Sound s → Sound (cancelled s t e)
unfolding entry_of
cancelled-Sound s t e r h = record {
  tasks = λ u k p. let q = h.tasks t e (ap entry_of r) in ground (arith, h.tasks u k);
  owned = λ k p. h.owned k p;
  slots = λ k u p. let q = h.slots k u in ground (arith, q, ap entry_of r);
  gone = λ u k p. ground (arith, h.gone u k);
}

pub new-Sound : Sound new
unfolding new entry_of
new-Sound = record {
  tasks = λ t e p. cc;
  owned = λ k p. cc;
  slots = λ e t p. cc;
  gone = λ t e p. cc;
}

-- Every change keeps the numbers right.
pub Sound-Preserved : Preserved Sound
unfolding close_admission set_drain
Sound-Preserved = record {
  begun = λ s e h. plain-Sound s (begun s) (omega arith) refl refl refl h;
  adopted = λ s a m h.
      Calm-Sound (adopted s) (drop_acquisition (adopted s) a) (drop_acquisition-Calm (adopted s) a)
        (adopted-Sound s h);
  aborted = λ s a m h. Calm-Sound s (drop_acquisition s a) (drop_acquisition-Calm s a) h;
  gated = λ s h. plain-Sound s (close_admission s) (omega arith) refl refl refl h;
  retired = λ s e h. Calm-Sound s (retire_closed s e) (retire_closed-Calm s e) h;
  born = λ s e m o h. born-Sound s e m h;
  closed = λ s t e ok r h. close_entry-Sound s t e ok r h;
  cancelled = λ s t e r h. cancelled-Sound s t e r h;
  cleared = λ s t e d h. Calm-Sound s (end_release s t e) (end_release-Calm s t e) h;
  retrying = λ s es e h. plain-Sound s (retrying s es) (omega arith) refl refl refl h;
  shutting = λ s e n h. plain-Sound s (shutting s) (omega arith) refl refl refl h;
  concluded = λ s t ok e d h. plain-Sound s (concluded s ok) (omega arith) refl refl refl h;
  moved = λ s d p q e m h. plain-Sound s (set_drain s d q) (omega arith) refl refl refl h;
}
