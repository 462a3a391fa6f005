-- ===== src/Api/SessionStore/Final.antt =====
-- What no later call undoes in backend/api/session_store.py: a shutdown, a failed rollback.
use taigi_agent.Prelude.{
  ℕ, ◌≡◌, ◌≢◌, sym, ◌∙◌, Bool, true, false, ◌&&◌, ◌⊎◌, inl, inr, List, [], ◌∷◌, arith, Bool-cases,
  Option-cases, Text,
}
use taigi_agent.Prelude.Table.{find}
use taigi_agent.Api.SessionStore.{
  Db, Error, Result, ok, raise, closed_store, transaction_and_rollback_failed, Store, Env, OpenEnv,
  is_open, is_past, require_usable, roll_back, finish, write_transaction, open_store, create_row,
  create_body, create, load_body, load_text, exists, save_text, delete_body, delete, purge_body,
  purge_expired, session_ids, close,
}
use taigi_agent.Api.SessionStore.Bodies.{
  create_row-cases, create_body-open, create_body-renewed, create_body-barred,
}
use taigi_agent.Api.SessionStore.Calls.{
  Call, Reply, opening, creating, loading, checking, saving, deleting, purging, listing, closing,
  nothing, text, verdict, ids, perform, after, reply_with-store,
}
use taigi_agent.Api.SessionStore.Lifecycle.{is_closing, is_data, data-refused, reply_with-raise}

-- A store that is shutting down.
closing-refuses : (s : Store) → s.closing ≡ true → require_usable s ≡ raise closed_store
unfolding require_usable
closing-refuses s h = ground arith

poisoned-refuses : (s : Store) → s.poisoned ≡ true → (x : Error) × (require_usable s ≡ raise x)
unfolding require_usable
poisoned-refuses s h = elim (Bool-cases (s.connection && is_open s)) [
  | inl t ↦ (Error.unusable, rw (t, h))
  | inr t ↦ (closed_store, rw t)
]

open_store-closing :
    (env : OpenEnv) (s : Store) → s.closing ≡ true → open_store env s ≡ (s, raise closed_store)
unfolding open_store
open_store-closing env s h = ground arith

closing-kept : (c : Call) (s : Store) → s.closing ≡ true → (perform c s).0.closing ≡ true
closing-kept c s h = elim (Bool-cases (is_data c)) [
  | inl d ↦ rw (data-refused s closed_store (closing-refuses s h) c d) h
  | inr d ↦ rest c d
]
  where
    rest : (c : Call) → is_data c ≡ false → (perform c s).0.closing ≡ true
    rest (opening env) d = unfold perform in rw (open_store-closing env s h) h
    rest (closing works) d = unfold perform close in ground arith
    rest _ d = cc

closing-after : (cs : List Call) (s : Store) → s.closing ≡ true → (after cs s).closing ≡ true
unfolding after
closing-after [] s h = h
closing-after (c ∷ cs) s h = closing-after cs (perform c s).0 (closing-kept c s h)

closed-raises :
    (c : Call) (s : Store)
    → s.closing ≡ true
    → is_closing c ≡ false
    → (perform c s).1 ≡ raise closed_store
closed-raises c s h n = elim (Bool-cases (is_data c)) [
  | inl d ↦ rw (data-refused s closed_store (closing-refuses s h) c d)
  | inr d ↦ rest c d n
]
  where
    rest :
        (c : Call) → is_data c ≡ false → is_closing c ≡ false → (perform c s).1 ≡ raise closed_store
    rest (opening env) d n = unfold perform in rw (open_store-closing env s h)
    rest _ d n = cc

-- After a `close`, whether it succeeded or not, and after any calls that follow it, every call
-- but a further `close` raises that the store is closed.
pub close_is_final :
    (works : Bool) (s : Store) (cs : List Call) (c : Call)
    → is_closing c ≡ false
    → (perform c (after cs (close works s).0)).1 ≡ raise closed_store
close_is_final works s cs c n =
    closed-raises c (after cs (close works s).0) (closing-after cs (close works s).0 shut) n
  where
    shut : (close works s).0.closing ≡ true
    shut = unfold close in ground arith

abbrev IsDead : Store → Type 0
IsDead s = (s.poisoned ≡ true) ⊎ (s.closing ≡ true)

dead-refuses : (s : Store) → IsDead s → (x : Error) × (require_usable s ≡ raise x)
dead-refuses s (inl h) = poisoned-refuses s h
dead-refuses s (inr h) = (closed_store, closing-refuses s h)

open_store-poisoned : (env : OpenEnv) (s : Store) → (open_store env s).0.poisoned ≡ s.poisoned
unfolding open_store
open_store-poisoned env s = ground arith

IsDead-perform : (c : Call) (s : Store) → IsDead s → IsDead (perform c s).0
IsDead-perform c s (inr h) = inr (closing-kept c s h)
IsDead-perform c s (inl h) = elim (Bool-cases (is_data c)) [
  | inl d ↦ let (x, o) = poisoned-refuses s h in inl (rw (data-refused s x o c d) h)
  | inr d ↦ rest c d
]
  where
    rest : (c : Call) → is_data c ≡ false → IsDead (perform c s).0
    rest (opening env) d =
        inl (unfold perform in rw reply_with-store (open_store-poisoned env s ∙ h))
    rest (closing works) d = inr (unfold perform close in ground arith)
    rest _ d = cc

IsDead-after : (cs : List Call) (s : Store) → IsDead s → IsDead (after cs s)
unfolding after
IsDead-after [] s h = h
IsDead-after (c ∷ cs) s h = IsDead-after cs (perform c s).0 (IsDead-perform c s h)

usable-error : (s : Store) → require_usable s ≢ raise transaction_and_rollback_failed
unfolding require_usable
usable-error s h = ground arith

-- A write that ends with this error has poisoned the store.
write-poisons :
    {A : Type 0} (env : Env) (s : Store) (body : Db → Result (Db × A))
    → body s.db ≢ raise transaction_and_rollback_failed
    → (write_transaction env s body).1 ≡ raise transaction_and_rollback_failed
    → (write_transaction env s body).0.poisoned ≡ true
unfolding write_transaction finish roll_back
write-poisons env s body safe h = ground (arith, safe, usable-error s)

create_row-safe :
    (ttl now : ℕ) (id : Text) (db : Db)
    → create_row ttl now id db ≢ raise transaction_and_rollback_failed
create_row-safe ttl now id db h = elim (create_row-cases ttl now id db) [
  | inl c ↦ cc (c, h)
  | inr c ↦ cc (c, h)
]

create_body-safe :
    (ttl now : ℕ) (id : Text) (db : Db)
    → create_body ttl now id db ≢ raise transaction_and_rollback_failed
create_body-safe ttl now id db h = elim (Option-cases (find id db.tombstones)) [
  | inl o ↦ create_row-safe ttl now id db (sym (create_body-open ttl now id db o) ∙ h)
  | inr (at, o) ↦ elim (Bool-cases (is_past ttl now at)) [
    | inl p ↦ create_row-safe ttl now id _ (sym (create_body-renewed ttl now id db at o p) ∙ h)
    | inr p ↦ cc (create_body-barred ttl now id db at o p, h)
  ]
]

load_body-safe :
    (ttl now : ℕ) (id : Text) (db : Db)
    → load_body ttl now id db ≢ raise transaction_and_rollback_failed
unfolding load_body
load_body-safe ttl now id db h = ground arith

save_text-safe :
    (env : Env) (now : ℕ) (id payload : Text) (s : Store)
    → (save_text env now id payload s).1 ≢ raise transaction_and_rollback_failed
unfolding save_text
save_text-safe env now id payload s h = ground (arith, usable-error s)

exists-safe :
    (now : ℕ) (id : Text) (s : Store) → (exists now id s).1 ≢ raise transaction_and_rollback_failed
unfolding exists
exists-safe now id s h = ground (arith, usable-error s)

session_ids-safe : (s : Store) → (session_ids s).1 ≢ raise transaction_and_rollback_failed
unfolding session_ids
session_ids-safe s h = ground (arith, usable-error s)

failed_rollback-poisons :
    (c : Call) (s : Store)
    → is_data c ≡ true
    → (perform c s).1 ≡ raise transaction_and_rollback_failed
    → (perform c s).0.poisoned ≡ true
unfolding perform
failed_rollback-poisons (opening env) s d h = cc
failed_rollback-poisons (creating env now id) s d h = rw reply_with-store (
    unfold create in
    write-poisons env s (create_body s.ttl now id) (create_body-safe s.ttl now id s.db)
      (reply_with-raise (λ _. nothing) (create env now id s) _ h))
failed_rollback-poisons (loading env now id) s d h = rw reply_with-store (
    unfold load_text in
    write-poisons env s (load_body s.ttl now id) (load_body-safe s.ttl now id s.db)
      (reply_with-raise text (load_text env now id s) _ h))
failed_rollback-poisons (checking now id) s d h =
    absurd (exists-safe now id s (reply_with-raise verdict (exists now id s) _ h))
failed_rollback-poisons (saving env now id payload) s d h = absurd (
    save_text-safe env now id payload s
      (reply_with-raise (λ _. nothing) (save_text env now id payload s) _ h))
failed_rollback-poisons (deleting env now id) s d h = rw reply_with-store (
    unfold delete in
    write-poisons env s (delete_body now id) (unfold delete_body in λ e. cc)
      (reply_with-raise (λ _. nothing) (delete env now id s) _ h))
failed_rollback-poisons (purging env now) s d h = rw reply_with-store (
    unfold purge_expired in
    write-poisons env s (purge_body s.ttl now) (unfold purge_body in λ e. cc)
      (reply_with-raise ids (purge_expired env now s) _ h))
failed_rollback-poisons listing s d h =
    absurd (session_ids-safe s (reply_with-raise ids (session_ids s) _ h))
failed_rollback-poisons (closing works) s d h = cc

dead-never_ok :
    (c : Call) (s : Store) (r : Reply) → IsDead s → is_data c ≡ true → (perform c s).1 ≢ ok r
dead-never_ok c s r h d e = let (x, o) = dead-refuses s h in cc (data-refused s x o c d, e)

-- Once a transaction and its rollback have both failed, no call that reads or writes sessions
-- succeeds on this store again, whatever is called in between, reopening and closing included.
pub failed_rollback_is_final :
    (c : Call) (s : Store) (cs : List Call) (c' : Call) (r : Reply)
    → is_data c ≡ true
    → (perform c s).1 ≡ raise transaction_and_rollback_failed
    → is_data c' ≡ true
    → (perform c' (after cs (perform c s).0)).1 ≢ ok r
failed_rollback_is_final c s cs c' r d h d' =
    dead-never_ok c' (after cs (perform c s).0) r
      (IsDead-after cs (perform c s).0 (inl (failed_rollback-poisons c s d h))) d'
