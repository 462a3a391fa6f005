-- ===== src/Providers/KeyedLocks.antt =====
-- KeyedLocks of backend/providers/ttl_cache.py. Keys, event loops and entries are numbers; an entry
-- is numbered as it is made. A `Use` is a task between its entry into `acquire` and its exit: it
-- waits for the lock of its entry or is inside the block. Each piece of code between two awaits is
-- a function, and an event whose turn cannot have come leaves the registry as it is.
pub mod Counts
pub mod Counted
pub mod Exclusion
use taigi_agent.Prelude.{
  ℕ, zero, suc, ◌-◌, Bool, true, false, not, ◌&&◌, ◌||◌, Option, none, some, List, [], ◌∷◌, ◌==◌,
  if◌then◌else◌, get_elem?,
}

pub record Use : Type 0 where
  pub key : ℕ
  pub entry : ℕ
  pub holds : Bool

-- `_entries`, and of each `_LockEntry` its loop, its users and whether its lock is taken.
pub record Registry : Type 0 where
  pub entries : ℕ → Option ℕ
  pub loops : ℕ → ℕ
  pub users : ℕ → ℕ
  pub taken : ℕ → Bool
  pub uses : List Use
  pub next : ℕ

abbrev pub write {ℓ} : {A : Type ℓ} → ℕ → A → (ℕ → A) → ℕ → A
write k v f n = if n == k then v else f n

abbrev pub remove_at : ℕ → List Use → List Use
remove_at n [] = []
remove_at zero (u ∷ us) = us
remove_at (suc n) (u ∷ us) = u ∷ remove_at n us

abbrev pub hold_at : ℕ → List Use → List Use
hold_at n [] = []
hold_at zero (u ∷ us) = record u { holds = true } ∷ us
hold_at (suc n) (u ∷ us) = u ∷ hold_at n us

unfoldable pub new : Registry
new = record {
  entries = λ k. none;
  loops = λ e. 0;
  users = λ e. 0;
  taken = λ e. false;
  uses = [];
  next = 0;
}

-- An entry for a key that has none.
unfoldable pub make_entry : Registry → ℕ → ℕ → Registry
make_entry s k loop = record s {
  entries = write k (some s.next) s.entries;
  loops = write s.next loop s.loops;
  users = write s.next 0 s.users;
  taken = write s.next false s.taken;
  next = suc s.next;
}

-- One more user of an entry.
unfoldable pub join : Registry → ℕ → ℕ → Registry
join s k e = record s {
  users = write e (suc (s.users e)) s.users;
  uses = record { key = k; entry = e; holds = false } ∷ s.uses;
}

-- `acquire` before its await, given the entry of the key; none is its RuntimeError.
unfoldable pub enter_with : Registry → ℕ → ℕ → Option ℕ → Option Registry
unfolding make_entry join
enter_with s k loop none = some (join (make_entry s k loop) k s.next)
enter_with s k loop (some e) = if s.loops e == loop then some (join s k e) else none

unfoldable pub enter : Registry → ℕ → ℕ → Option Registry
unfolding enter_with
enter s k loop = enter_with s k loop (s.entries k)

-- The lock of a task's entry becomes its own.
unfoldable pub take_lock : Registry → ℕ → Use → Registry
take_lock s i u =
    if s.taken u.entry || u.holds
    then s
    else record s { taken = write u.entry true s.taken; uses = hold_at i s.uses }

abbrev pub is_entry : Option ℕ → ℕ → Bool
is_entry none e = false
is_entry (some d) e = d == e

-- The exit of a task, from the block or from its wait.
unfoldable pub leave : Registry → ℕ → Use → Registry
leave s i u = record s {
  taken = (if u.holds then write u.entry false s.taken else s.taken);
  users = write u.entry (s.users u.entry - 1) s.users;
  uses = remove_at i s.uses;
  entries =
      if s.users u.entry - 1 == 0 && is_entry (s.entries u.key) u.entry
      then write u.key none s.entries
      else s.entries;
}

-- What runs next: a call of `acquire` on a key in a loop, or the task at a place among the uses.
pub data Event : Type 0 where
  enters : ℕ → ℕ → Event
  takes leaves : ℕ → Event

abbrev pub or_same : Registry → Option Registry → Registry
or_same s none = s
or_same s (some t) = t

abbrev pub with_use : Registry → (Use → Registry) → Option Use → Registry
with_use s f none = s
with_use s f (some u) = f u

unfoldable pub step : Registry → Event → Registry
unfolding enter take_lock leave
step s (enters k loop) = or_same s (enter s k loop)
step s (takes i) = with_use s (take_lock s i) (get_elem? s.uses i)
step s (leaves i) = with_use s (leave s i) (get_elem? s.uses i)

unfoldable pub play : Registry → List Event → Registry
unfolding step
play s [] = s
play s (x ∷ xs) = play (step s x) xs
