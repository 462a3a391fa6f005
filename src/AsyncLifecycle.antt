-- ===== src/AsyncLifecycle.antt =====
-- AsyncResourceOwner of backend/async_lifecycle.py. Resources, acquisitions and tasks are numbered as
-- they are made. Each piece of code between two awaits is a function.
pub mod Events
pub mod Changes
pub mod Members
pub mod Numbers
pub mod Shutdown
pub mod Retained
pub mod Single
use taigi_agent.Prelude.{
  ℕ, zero, suc, Bool, true, false, not, ◌&&◌, Option, none, some, List, [], ◌∷◌, any, keep, ◌==◌,
  if◌then◌else◌,
}

-- A set of numbers as a list.
abbrev pub member : ℕ → List ℕ → Bool
member k ks = any (λ x. x == k) ks

abbrev pub discard : ℕ → List ℕ → List ℕ
discard k ks = keep (λ x. not (x == k)) ks

-- What a number refers to, once `v` is put at `k`.
abbrev pub write {ℓ} : {A : Type ℓ} → ℕ → A → (ℕ → A) → ℕ → A
write k v f n = if n == k then v else f n

abbrev pub is_task : Option ℕ → ℕ → Bool
is_task none t = false
is_task (some u) t = u == t

pub data EntryState : Type 0 where
  active closing failed : EntryState

-- OwnedAsyncResource, without its resource.
pub record Entry : Type 0 where
  pub state : EntryState
  pub close_task : Option ℕ
  pub physically_closed : Bool

-- The task of `_close_entry`, with the entry that it closes.
pub data CloseTask : Type 0 where
  unborn : CloseTask
  running : ℕ → CloseTask
  succeeded : ℕ → CloseTask
  errored : ℕ → CloseTask

-- Where a task of `_finalize` or of `_release_entries` is: the entries that are left, and how many
-- releases raised. `joining` waits for a close task, and the entry is next to it.
pub data Drain : Type 0 where
  absent waiting woken : Drain
  draining : List ℕ → ℕ → Drain
  joining : ℕ → ℕ → List ℕ → ℕ → Drain
  ended : Bool → Drain

pub record Owner : Type 0 where
  pub objects : ℕ → Entry
  pub entries : List ℕ
  pub pending : List ℕ
  pub pending_empty : Bool
  pub is_closing : Bool
  pub is_closed : Bool
  pub shutdown_task : Option ℕ
  pub close_tasks : ℕ → CloseTask
  pub drains : ℕ → Drain
  pub next : ℕ

abbrev pub new_entry : Entry
new_entry = record { state = active; close_task = none; physically_closed = false }

unfoldable pub new : Owner
new = record {
  objects = λ n. new_entry;
  entries = [];
  pending = [];
  pending_empty = true;
  is_closing = false;
  is_closed = false;
  shutdown_task = none;
  close_tasks = λ n. unborn;
  drains = λ n. absent;
  next = 0;
}

-- `begin_acquisition`; none is its RuntimeError.
unfoldable pub begin_acquisition : Owner → Option (ℕ × Owner)
begin_acquisition s =
    if s.is_closing
    then none
    else some (
      s.next,
      record s { pending = s.next ∷ s.pending; pending_empty = false; next = suc s.next },
    )

-- `_finish_acquisition`
unfoldable pub drop_acquisition : Owner → ℕ → Owner
drop_acquisition s a = record s {
  pending = discard a s.pending;
  pending_empty = elim (discard a s.pending) [ [] ↦ true | _ ↦ s.pending_empty ];
}

-- `finish_acquisition`; none is the RuntimeError of `_validate_acquisition`.
unfoldable pub finish_acquisition : Owner → ℕ → Option (ℕ × Owner)
unfolding drop_acquisition
finish_acquisition s a =
    if member a s.pending
    then some (
      s.next,
      drop_acquisition
          (record s {
            objects = write s.next new_entry s.objects;
            entries = s.next ∷ s.entries;
            next = suc s.next;
          })
          a,
    )
    else none

unfoldable pub abort_acquisition : Owner → ℕ → Option Owner
unfolding drop_acquisition
abort_acquisition s a = if member a s.pending then some (drop_acquisition s a) else none

unfoldable pub adopt : Owner → Option (ℕ × Owner)
unfolding begin_acquisition finish_acquisition
adopt s = elim (begin_acquisition s) [ none ↦ none | some (a, s') ↦ finish_acquisition s' a ]

unfoldable pub close_admission : Owner → Owner
close_admission s = record s { is_closing = true }

unfoldable pub retire_closed : Owner → ℕ → Owner
retire_closed s e =
    if member e s.entries
    then record s {
      objects = write e (record (s.objects e) { physically_closed = true }) s.objects;
      entries = elim (s.objects e).close_task [ none ↦ discard e s.entries | some t ↦ s.entries ];
    }
    else s

-- `_close_entry` behind its await: whether the close returned or raised.
unfoldable pub close_entry : Owner → ℕ → ℕ → Bool → Owner
close_entry s t e true = record s {
  objects = write e (record (s.objects e) { physically_closed = true }) s.objects;
  entries = discard e s.entries;
  close_tasks = write t (succeeded e) s.close_tasks;
}
close_entry s t e false =
    if (s.objects e).physically_closed
    then record s { entries = discard e s.entries; close_tasks = write t (errored e) s.close_tasks }
    else record s {
      objects = write e (record (s.objects e) { state = failed }) s.objects;
      close_tasks = write t (errored e) s.close_tasks;
    }

-- What a call comes to before its await.
pub data Start : Type 0 where
  returned raised : Start
  joins : ℕ → Start

-- `release` before its await, given whether the entry is owned and what its slot holds.
unfoldable pub release_owned : Bool → Owner → ℕ → Bool → Option ℕ → Start × Owner
release_owned creates s e false slot = (returned, s)
release_owned creates s e true (some t) = (joins t, s)
release_owned false s e true none = (raised, s)
release_owned true s e true none = (
  joins s.next,
  record s {
    objects =
        write e (record (s.objects e) { state = closing; close_task = some s.next }) s.objects;
    close_tasks = write s.next (running e) s.close_tasks;
    next = suc s.next;
  },
)

unfoldable pub begin_release : Bool → Owner → ℕ → Start × Owner
unfolding release_owned
begin_release creates s e = release_owned creates s e (member e s.entries) (s.objects e).close_task

-- `release` behind its await of a task that is done.
unfoldable pub end_release : Owner → ℕ → ℕ → Owner
end_release s t e =
    if is_task (s.objects e).close_task t
    then record s { objects = write e (record (s.objects e) { close_task = none }) s.objects }
    else s

abbrev pub is_failed : Entry → Bool
is_failed x = elim x.state [ failed ↦ true | _ ↦ false ]

-- `retry_failed`, given the flag and the entries that failed; none is its RuntimeError, or the
-- error of the task's creation.
unfoldable pub retry : Bool → Owner → Bool → List ℕ → Option Owner
retry creates s true es = none
retry creates s false [] = some s
retry false s false (e ∷ es) = none
retry true s false (e ∷ es) =
    some (record s { drains = write s.next (draining (e ∷ es) 0) s.drains; next = suc s.next })

unfoldable pub retry_failed : Bool → Owner → Option Owner
unfolding retry
retry_failed creates s =
    retry creates s s.is_closing (keep (λ e. is_failed (s.objects e)) s.entries)

-- `aclose` before its await, given the flag and the slot of the shutdown task.
unfoldable pub shut_down : Bool → Owner → Bool → Option ℕ → Start × Owner
unfolding close_admission
shut_down creates s true slot = (returned, s)
shut_down creates s false (some t) = (joins t, close_admission s)
shut_down false s false none = (raised, close_admission s)
shut_down true s false none = (
  joins s.next,
  record (close_admission s) {
    shutdown_task = some s.next;
    drains = write s.next waiting s.drains;
    next = suc s.next;
  },
)

unfoldable pub begin_aclose : Bool → Owner → Start × Owner
unfolding shut_down
begin_aclose creates s = shut_down creates s s.is_closed s.shutdown_task

-- `aclose` behind its await of a task that is done, and whether that returned.
unfoldable pub end_aclose : Owner → ℕ → Bool → Owner
end_aclose s t ok =
    if is_task s.shutdown_task t
    then record s { is_closed = (if ok then true else s.is_closed); shutdown_task = none }
    else s
