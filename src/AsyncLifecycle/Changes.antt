-- ===== src/AsyncLifecycle/Changes.antt =====
-- The changes that the events of the owner in backend/async_lifecycle.py are made of,
-- and what it is to keep a property through them.
pub mod Induction
use taigi_agent.Prelude.{
  ℕ, zero, suc, ◌≡◌, ◌≤◌, ◌<◌, ◌⊎◌, inl, inr, refl, ap, sym, subst, ◌∙◌, Bool, true, false, not,
  ◌&&◌, Option, none, some, List, [], ◌∷◌, any, keep, ◌==◌, ==_iff, if◌then◌else◌, Bool-cases,
  Option-cases, arith,
}
use taigi_agent.AsyncLifecycle.{
  member, discard, write, is_task, EntryState, active, closing, failed, Entry, CloseTask, unborn,
  running, succeeded, errored, Drain, absent, waiting, woken, draining, joining, ended, Owner,
  new_entry, new, begin_acquisition, drop_acquisition, finish_acquisition, abort_acquisition, adopt,
  close_admission, retire_closed, close_entry, Start, joins, raised, returned, begin_release,
  end_release, retry_failed, begin_aclose, end_aclose, release_owned, retry, shut_down, is_failed,
}
use taigi_agent.AsyncLifecycle.Events.{
  Event, begins, closes_admission, adopts, finishes, aborts, retires, releases, close_ends,
  close_never_starts, release_ends, retries, acloses, aclose_ends, advances, or_same, or_unchanged,
  end_close, cancel_close, finish_aclose, step, play, set_drain, after_join, is_done, after_start,
  go_on, advance,
}

abbrev pub begun : Owner → Owner
begun s = record s { pending = s.next ∷ s.pending; pending_empty = false; next = suc s.next }

abbrev pub adopted : Owner → Owner
adopted s = record s {
  objects = write s.next new_entry s.objects;
  entries = s.next ∷ s.entries;
  next = suc s.next;
}

abbrev pub born : Owner → ℕ → Owner
born s e = record s {
  objects = write e (record (s.objects e) { state = closing; close_task = some s.next }) s.objects;
  close_tasks = write s.next (running e) s.close_tasks;
  next = suc s.next;
}

abbrev pub cancelled : Owner → ℕ → ℕ → Owner
cancelled s t e = record s { close_tasks = write t (errored e) s.close_tasks }

abbrev pub retrying : Owner → List ℕ → Owner
retrying s es = record s { drains = write s.next (draining es 0) s.drains; next = suc s.next }

abbrev pub shutting : Owner → Owner
shutting s = record s {
  shutdown_task = some s.next;
  drains = write s.next waiting s.drains;
  next = suc s.next;
}

abbrev pub concluded : Owner → Bool → Owner
concluded s ok = record s { is_closed = (if ok then true else s.is_closed); shutdown_task = none }

-- Where a task that drains goes next.
pub data Move (s : Owner) : Drain → Drain → Type 0 where
  gives_up : {p : Drain} → Move s p (ended false)
  wakes : s.pending_empty ≡ true → Move s waiting woken
  looks : Move s woken (draining s.entries 0)
  is_through : Move s (draining [] 0) (ended true)
  skips :
      {e : ℕ} {es : List ℕ} {n : ℕ}
      → member e s.entries ≡ false
      → Move s (draining (e ∷ es) n) (draining es n)
  counts : {p : Drain} {es : List ℕ} {n : ℕ} → Move s p (draining es (suc n))
  waits :
      {t e : ℕ} {es : List ℕ} {n : ℕ}
      → (s.objects e).close_task ≡ some t
      → Move s (draining (e ∷ es) n) (joining t e es n)
  hears :
      {t e u : ℕ} {es : List ℕ} {n : ℕ}
      → s.close_tasks t ≡ succeeded u
      → Move s (joining t e es n) (draining es n)

-- A property that every change keeps.
pub record Preserved (I : Owner → Type 0) : Type 0 where
  pub begun : (s : Owner) → s.is_closing ≡ false → I s → I (begun s)
  pub adopted :
      (s : Owner) (a : ℕ) → member a s.pending ≡ true → I s → I (drop_acquisition (adopted s) a)
  pub aborted : (s : Owner) (a : ℕ) → member a s.pending ≡ true → I s → I (drop_acquisition s a)
  pub gated : (s : Owner) → I s → I (close_admission s)
  pub retired : (s : Owner) (e : ℕ) → I s → I (retire_closed s e)
  pub born :
      (s : Owner) (e : ℕ)
      → member e s.entries ≡ true
      → (s.objects e).close_task ≡ none
      → I s
      → I (born s e)
  pub closed :
      (s : Owner) (t e : ℕ) (ok : Bool)
      → s.close_tasks t ≡ running e
      → I s
      → I (close_entry s t e ok)
  pub cancelled : (s : Owner) (t e : ℕ) → s.close_tasks t ≡ running e → I s → I (cancelled s t e)
  pub cleared :
      (s : Owner) (t e : ℕ) → is_done (s.close_tasks t) ≡ true → I s → I (end_release s t e)
  pub retrying : (s : Owner) (es : List ℕ) → s.is_closing ≡ false → I s → I (retrying s es)
  pub shutting : (s : Owner) → s.is_closing ≡ true → s.shutdown_task ≡ none → I s → I (shutting s)
  pub concluded :
      (s : Owner) (t : ℕ) (ok : Bool)
      → s.shutdown_task ≡ some t
      → s.drains t ≡ ended ok
      → I s
      → I (concluded s ok)
  pub moved :
      (s : Owner) (d : ℕ) (p q : Drain) → s.drains d ≡ p → Move s p q → I s → I (set_drain s d q)

pub end_release-drains : (s : Owner) (t e d : ℕ) → (end_release s t e).drains d ≡ s.drains d
unfolding end_release
end_release-drains s t e d = ground arith

pub end_release-close_tasks :
    (s : Owner) (t e u : ℕ) → (end_release s t e).close_tasks u ≡ s.close_tasks u
unfolding end_release
end_release-close_tasks s t e u = ground arith
