-- ===== src/Tests/Owners.antt =====
-- An owner of backend/async_lifecycle.py that adopts a resource, fails to close it, and shuts down.
use taigi_agent.Prelude.{ℕ, ◌≡◌, refl, true, false, List, [], ◌∷◌, ◌++◌}
use taigi_agent.AsyncLifecycle.{member, running, new, begin_release, joins, draining, joining}
use taigi_agent.AsyncLifecycle.Events.{
  Event, begins, adopts, finishes, releases, close_ends, release_ends, acloses, aclose_ends,
  advances, play, go_on, set_drain,
}
use taigi_agent.AsyncLifecycle.Retained.{IsRetained, owned_until_closed}
use taigi_agent.AsyncLifecycle.Single.{one_close_at_a_time}
use taigi_agent.AsyncLifecycle.Shutdown.Closed.{closed_owns_nothing}

-- The resource has number 1, the task that closes it 2.
abbrev releasing : List Event
releasing = adopts ∷ releases true 1 ∷ []

-- The close fails, and the waiter sees it.
abbrev failing : List Event
failing = close_ends false 2 ∷ release_ends 2 1 ∷ []

-- Task 3 shuts down, and its close of the resource is task 4.
abbrev shutting_down : List Event
shutting_down =
    acloses true
    ∷ advances true 3
    ∷ advances true 3
    ∷ advances true 3
    ∷ close_ends true 4
    ∷ advances true 3
    ∷ advances true 3
    ∷ aclose_ends 3
    ∷ []

abbrev all_of_it : List Event
all_of_it = releasing ++ (failing ++ shutting_down)

kept_after_failure : (play new (releasing ++ failing)).entries ≡ 1 ∷ []
unfolding play new
kept_after_failure = refl

shut : (play new all_of_it).is_closed ≡ true
unfolding play new
shut = refl

-- An acquisition that began before the shutdown may end behind it, and its resource is closed too.
abbrev late : List Event
late =
    begins
    ∷ acloses true
    ∷ advances true 1
    ∷ finishes 0
    ∷ advances true 1
    ∷ advances true 1
    ∷ advances true 1
    ∷ close_ends true 3
    ∷ advances true 1
    ∷ advances true 1
    ∷ aclose_ends 1
    ∷ []

late_is_shut : (play new late).is_closed ≡ true
unfolding play new
late_is_shut = refl

closed_owns_nothing_example :
    ((play (play new all_of_it) (begins ∷ adopts ∷ [])).entries ≡ [])
    × ((play (play new all_of_it) (begins ∷ adopts ∷ [])).pending ≡ [])
    × ((play (play new all_of_it) (begins ∷ adopts ∷ [])).is_closing ≡ true)
closed_owns_nothing_example = closed_owns_nothing all_of_it (begins ∷ adopts ∷ []) shut

is_owned : member 1 (play new releasing).entries ≡ true
unfolding play new
is_owned = refl

owned_until_closed_example : IsRetained 1 (play (play new releasing) (failing ++ shutting_down))
owned_until_closed_example = owned_until_closed releasing (failing ++ shutting_down) 1 is_owned

runs : (play new releasing).close_tasks 2 ≡ running 1
unfolding play new
runs = refl

one_close_at_a_time_example :
    (◌≡◌ {A = ℕ} 2 2)
    × (member 1 (play new releasing).entries ≡ true)
    × (begin_release false (play new releasing) 1 ≡ (joins 2, play new releasing))
    × (go_on true (play new releasing) 7 (draining (1 ∷ []) 0)
        ≡ set_drain (play new releasing) 7 (joining 2 1 [] 0))
one_close_at_a_time_example = one_close_at_a_time releasing 2 2 1 false true 7 [] 0 runs runs
