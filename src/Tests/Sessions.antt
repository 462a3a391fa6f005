-- ===== src/Tests/Sessions.antt =====
-- Runs of backend/api/session_store.py.
use taigi_agent.Prelude.{◌≡◌, ◌≢◌, refl, true, false, Option, some, [], ◌∷◌, arith, Text, codes}
use taigi_agent.Prelude.Table.{find, store}
use taigi_agent.Api.SessionStore.{
  ok, raise, closed_store, sqlite_failure, transaction_and_rollback_failed, session_tombstoned,
  Store, Env, create, load_text, exists, save_text, delete, close,
}
use taigi_agent.Api.SessionStore.Calls.{
  opening, creating, loading, deleting, checking, purging, listing, closing, verdict, perform,
  after,
}
use taigi_agent.Api.SessionStore.Ended.{ended_stays_ended}
use taigi_agent.Api.SessionStore.Lifecycle.{KeptOrTorn, failed_call_keeps_db}
use taigi_agent.Api.SessionStore.Final.{close_is_final, failed_rollback_is_final}
use taigi_agent.Api.SessionStore.Messages.{Codec, load_messages, save_messages, save-load}

abbrev fine : Env
fine = record { begin_works = true; commit_works = true; rollback_works = true }

abbrev broken : Env
broken = record { begin_works = true; commit_works = false; rollback_works = false }

abbrev ada : Text
ada = codes "a1"

abbrev bob : Text
bob = codes "b2"

-- An open store in which `ada` was used at 1000; sessions live for 1800.
abbrev running : Store
running = record {
  ttl = 1800;
  db = record {
    sessions = (ada, record { last_used = 1000; messages = codes "[1]" }) ∷ [];
    tombstones = [];
  };
  connection = true;
  opened = true;
  closing = false;
  closed = false;
  poisoned = false;
}

deleted_at_1200 : (delete fine 1200 ada running).1 ≡ ok tt
unfolding delete
deleted_at_1200 = refl

-- A delayed create comes after the delete.
late_create :
    (create fine 1300 ada (delete fine 1200 ada running).0).1 ≡ raise (session_tombstoned ada)
unfolding delete create find store
late_create = refl

ended_stays_ended_example :
    ((create fine 3000 ada (
        after (creating fine 1300 ada ∷ purging fine 2000 ∷ []) (delete fine 1200 ada running).0)).1
      ≢ ok tt)
    × ((exists 3000 ada (
          after
            (creating fine 1300 ada ∷ purging fine 2000 ∷ [])
            (delete fine 1200 ada running).0)).1
        ≢ ok true)
    × ((m : Text)
        → (load_text fine 3000 ada (
            after
              (creating fine 1300 ada ∷ purging fine 2000 ∷ [])
              (delete fine 1200 ada running).0)).1
          ≢ ok (some m))
ended_stays_ended_example =
    ended_stays_ended ada 1200 fine running (creating fine 1300 ada ∷ purging fine 2000 ∷ []) fine
      3000 deleted_at_1200 (omega arith) (omega arith)

-- A commit that fails, and the rollback too.
commit_breaks :
    (perform (loading broken 1100 ada) running).1 ≡ raise transaction_and_rollback_failed
unfolding perform load_text find
commit_breaks = refl

-- A commit that fails, and is rolled back.
abbrev undone : Env
undone = record { begin_works = true; commit_works = false; rollback_works = true }

is_undone : (perform (deleting undone 1100 ada) running).1 ≡ raise sqlite_failure
unfolding perform delete
is_undone = refl

-- Of the transaction that cannot be rolled back, the new instant is left.
is_torn :
    ((perform (loading broken 1100 ada) running).0.db ≡ (load_text fine 1100 ada running).0.db)
    × ((perform (loading broken 1100 ada) running).0.poisoned ≡ true)
unfolding perform load_text find store
is_torn = (refl, refl)

failed_call_keeps_db_example :
    KeptOrTorn running sqlite_failure (perform (deleting undone 1100 ada) running).0
failed_call_keeps_db_example =
    failed_call_keeps_db (deleting undone 1100 ada) running sqlite_failure is_undone

failed_rollback_is_final_example :
    (perform (checking 1200 ada) (
      after
        (closing true
          ∷ opening (record { connect_works = true; schema_works = true; close_arrives = false })
          ∷ [])
        (perform (loading broken 1100 ada) running).0)).1
    ≢ ok (verdict true)
failed_rollback_is_final_example =
    failed_rollback_is_final (loading broken 1100 ada) running
      (closing true
        ∷ opening (record { connect_works = true; schema_works = true; close_arrives = false })
        ∷ [])
      (checking 1200 ada) (verdict true) refl commit_breaks refl

close_is_final_example :
    (perform (creating fine 1300 bob) (after (listing ∷ []) (close false running).0)).1
    ≡ raise closed_store
close_is_final_example = close_is_final false running (listing ∷ []) (creating fine 1300 bob) refl

sees_ada : (exists 2800 ada running).1 ≡ ok true
unfolding exists find
sees_ada = refl

loads_ada : (load_text fine 2800 ada running).1 ≡ ok (some (codes "[1]"))
unfolding load_text find
loads_ada = refl

-- Messages that are their own text.
abbrev plain : Codec
plain = record {
  Messages = Text;
  empty = codes "[]";
  dumps = λ m. m;
  loads = λ t. t;
  loads-dumps = λ m. refl;
  loads_empty = refl;
}

saved_ada : (save_messages plain fine 1500 ada (codes "[2]") running).1 ≡ ok tt
unfolding save_messages save_text
saved_ada = refl

loaded_ada :
    (load_messages plain fine 3300 ada
      (save_messages plain fine 1500 ada (codes "[2]") running).0).1
    ≡ ok (some (codes "[2]"))
unfolding save_messages save_text load_messages load_text find store
loaded_ada = refl

save-load_example : ◌≡◌ {A = Option Text} (some (codes "[2]")) (some (codes "[2]"))
unfolding find
save-load_example =
    save-load plain fine fine 1500 3300 ada (codes "[2]") running
      (record { last_used = 1000; messages = codes "[1]" }) (some (codes "[2]")) refl saved_ada
      (omega arith) loaded_ada

created_bob : (create fine 1500 bob running).1 ≡ ok tt
unfolding create find
created_bob = refl

loaded_bob :
    (load_messages plain fine 1600 bob (create fine 1500 bob running).0).1 ≡ ok (some (codes "[]"))
unfolding create load_messages load_text find store
loaded_bob = refl
