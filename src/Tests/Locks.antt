-- ===== src/Tests/Locks.antt =====
-- Three tasks at one key of the locks in backend/providers/ttl_cache.py, and one at another.
use taigi_agent.Prelude.{◌≡◌, ◌≤◌, ◌↔◌, refl, none, List, [], ◌∷◌, tally, length}
use taigi_agent.Providers.KeyedLocks.{new, Event, enters, takes, leaves, play}
use taigi_agent.Providers.KeyedLocks.Exclusion.{inside_block, of_key, one_inside}

-- The first task is inside, the second waits, the third gives up; a task of key 8 is inside too.
abbrev contended : List Event
contended =
    enters 7 0 ∷ takes 0 ∷ enters 7 0 ∷ takes 0 ∷ enters 7 0 ∷ leaves 0 ∷ enters 8 0 ∷ takes 0 ∷ []

one_of_two : tally (inside_block 7) (play new contended).uses ≡ 1
unfolding play new
one_of_two = refl

two_left : tally (of_key 7) (play new contended).uses ≡ 2
unfolding play new
two_left = refl

-- A task of another event loop is refused while the key is in use.
refused : length (play new (enters 7 0 ∷ enters 7 1 ∷ [])).uses ≡ 1
unfolding play new
refused = refl

forgotten : (play new (enters 7 0 ∷ takes 0 ∷ leaves 0 ∷ [])).entries 7 ≡ none
unfolding play new
forgotten = refl

one_inside_example :
    (tally (inside_block 7) (play new contended).uses ≤ 1)
    × (((play new contended).entries 7 ≡ none) ↔ (tally (of_key 7) (play new contended).uses ≡ 0))
one_inside_example = one_inside contended 7
