-- ===== src/AsyncLifecycle/Events.antt =====
-- What runs next in the event loop of backend/async_lifecycle.py: the tasks that drain an owner, and
-- the events.
use taigi_agent.Prelude.{
  ℕ, zero, suc, Bool, true, false, Option, none, some, List, [], ◌∷◌, if◌then◌else◌,
}
use taigi_agent.AsyncLifecycle.{
  write, CloseTask, running, succeeded, errored, Drain, absent, waiting, woken, draining, joining,
  ended, Owner, begin_acquisition, finish_acquisition, abort_acquisition, adopt, close_admission,
  retire_closed, close_entry, Start, joins, raised, returned, begin_release, end_release,
  retry_failed, begin_aclose, end_aclose,
}

unfoldable pub set_drain : Owner → ℕ → Drain → Owner
set_drain s d p = record s { drains = write d p s.drains }

-- Behind the join of a close task: whether the join raised nothing.
unfoldable pub after_join : List ℕ → ℕ → CloseTask → Bool → Drain
after_join es n (succeeded e) true = draining es n
after_join es n _ _ = draining es (suc n)

unfoldable pub is_done : CloseTask → Bool
is_done (succeeded e) = true
is_done (errored e) = true
is_done _ = false

-- What the loop of `_release_entries` does with the start of a release.
unfoldable pub after_start : Start → ℕ → List ℕ → ℕ → Drain
after_start returned e es n = draining es n
after_start raised e es n = draining es (suc n)
after_start (joins t) e es n = joining t e es n

-- A task of `_finalize` or `_release_entries` goes on from where it is: the flag says that no task
-- creation fails and that no waiter is cancelled.
unfoldable pub go_on : Bool → Owner → ℕ → Drain → Owner
unfolding set_drain begin_release after_start after_join end_release is_done
go_on good s d absent = s
go_on false s d waiting = set_drain s d (ended false)
go_on true s d waiting = if s.pending_empty then set_drain s d woken else s
go_on false s d woken = set_drain s d (ended false)
go_on true s d woken = set_drain s d (draining s.entries 0)
go_on good s d (draining [] zero) = set_drain s d (ended true)
go_on good s d (draining [] (suc n)) = set_drain s d (ended false)
go_on good s d (draining (e ∷ es) n) =
    let (start, s') = begin_release good s e in set_drain s' d (after_start start e es n)
go_on good s d (joining t e es n) =
    if is_done (s.close_tasks t)
    then set_drain (end_release s t e) d (after_join es n (s.close_tasks t) good)
    else s
go_on good s d (ended ok) = s

unfoldable pub advance : Bool → Owner → ℕ → Owner
unfolding go_on
advance good s d = go_on good s d (s.drains d)

-- An event whose turn cannot have come leaves the owner as it is. Which creations of a task fail, how
-- the close of a resource ends, and which waiters are cancelled is in the events.
pub data Event : Type 0 where
  begins closes_admission adopts : Event
  finishes aborts retires : ℕ → Event
  releases : Bool → ℕ → Event
  close_ends : Bool → ℕ → Event
  close_never_starts : ℕ → Event
  release_ends : ℕ → ℕ → Event
  retries : Bool → Event
  acloses : Bool → Event
  aclose_ends : ℕ → Event
  advances : Bool → ℕ → Event

abbrev pub or_same : Owner → Option (ℕ × Owner) → Owner
or_same s none = s
or_same s (some x) = x.1

abbrev pub or_unchanged : Owner → Option Owner → Owner
or_unchanged s none = s
or_unchanged s (some s') = s'

-- The end of a close task that runs.
unfoldable pub end_close : Owner → Bool → ℕ → CloseTask → Owner
unfolding close_entry
end_close s ok t (running e) = close_entry s t e ok
end_close s ok t _ = s

-- A close task that is cancelled before its first step.
unfoldable pub cancel_close : Owner → ℕ → CloseTask → Owner
cancel_close s t (running e) = record s { close_tasks = write t (errored e) s.close_tasks }
cancel_close s t _ = s

unfoldable pub finish_aclose : Owner → ℕ → Drain → Owner
unfolding end_aclose
finish_aclose s t (ended ok) = end_aclose s t ok
finish_aclose s t _ = s

unfoldable pub step : Owner → Event → Owner
unfolding begin_acquisition finish_acquisition abort_acquisition adopt close_admission retire_closed
    begin_release end_release end_close cancel_close retry_failed begin_aclose finish_aclose advance
    is_done
step s begins = or_same s (begin_acquisition s)
step s closes_admission = close_admission s
step s adopts = or_same s (adopt s)
step s (finishes a) = or_same s (finish_acquisition s a)
step s (aborts a) = or_unchanged s (abort_acquisition s a)
step s (retires e) = retire_closed s e
step s (releases creates e) = (begin_release creates s e).1
step s (close_ends ok t) = end_close s ok t (s.close_tasks t)
step s (close_never_starts t) = cancel_close s t (s.close_tasks t)
step s (release_ends t e) = if is_done (s.close_tasks t) then end_release s t e else s
step s (retries creates) = or_unchanged s (retry_failed creates s)
step s (acloses creates) = (begin_aclose creates s).1
step s (aclose_ends t) = finish_aclose s t (s.drains t)
step s (advances good d) = advance good s d

unfoldable pub play : Owner → List Event → Owner
unfolding step
play s [] = s
play s (x ∷ xs) = play (step s x) xs
