-- ===== src/Api/SessionStore/Lifecycle.antt =====
-- Failure and shutdown of the store of backend/api/session_store.py.
use taigi_agent.Prelude.{ℕ, ◌≡◌, Bool, true, false, ◌⊎◌, inl, inr, ap, arith, Bool-cases, Text}
use taigi_agent.Api.SessionStore.{
  Db, Error, transaction_and_rollback_failed, Result, ok, raise, Store, Env, Outcome,
  require_usable, write_transaction, open_store, create_body, create, load_body, load_text, exists,
  save_text, delete_body, delete, purge_body, purge_expired, session_ids, close,
}
use taigi_agent.Api.SessionStore.Calls.{
  Call, Reply, opening, creating, loading, checking, saving, deleting, purging, listing, closing,
  nothing, text, ids, perform, refused, committed, write_transaction-Written, reply_with,
  reply_with-store, Result-cases, exists-store, session_ids-store,
}

pub reply_with-raise :
    {A : Type 0} (f : A → Reply) (out : Outcome A) (e : Error)
    → (reply_with f out).1 ≡ raise e
    → out.1 ≡ raise e
reply_with-raise f (s, ok a) e h = cc
reply_with-raise f (s, raise x) e h = cc

raise-reply_with :
    {A : Type 0} (f : A → Reply) (out : Outcome A) (e : Error)
    → out.1 ≡ raise e
    → (reply_with f out).1 ≡ raise e
raise-reply_with f (s, ok a) e h = cc
raise-reply_with f (s, raise x) e h = cc

-- The database is as it was, or the transaction is torn and the store tells so from now on.
abbrev pub KeptOrTorn : Store → Error → Store → Type 0
KeptOrTorn s e s' = (s'.db ≡ s.db) ⊎ ((e ≡ transaction_and_rollback_failed) × (s'.poisoned ≡ true))

write-keeps :
    {A : Type 0} (env : Env) (s : Store) (body : Db → Result (Db × A)) (e : Error)
    → (write_transaction env s body).1 ≡ raise e
    → KeptOrTorn s e (write_transaction env s body).0
write-keeps env s body e h = elim (write_transaction-Written env s body) [
  | refused _ _ (inl same) _ ↦ inl same
  | refused _ _ (inr (db, a, r, out)) _ ↦ inr (cc (out, h), ap (λ x. x.0.poisoned) out)
  | committed db a r out ↦ absurd (cc (out, h))
]

save-keeps :
    (env : Env) (now : ℕ) (id payload : Text) (s : Store) (e : Error)
    → (save_text env now id payload s).1 ≡ raise e
    → (save_text env now id payload s).0.db ≡ s.db
unfolding save_text
save-keeps env now id payload s e h = elim (Result-cases (require_usable s)) [
  | inl (x, o) ↦ rw (o, save_text)
  | inr (u, o) ↦ elim (Bool-cases env.commit_works) [
    | inl c ↦ absurd (cc (rw (o, save_text, c) at h))
    | inr c ↦ rw (o, save_text) (rw c)
  ]
]

-- A call that raises has left the database as it was, unless a transaction and its rollback have
-- both failed: then it raises that error, and the store is poisoned. The `json.loads` that follows
-- the commit of `load_messages` is not part of the call here.
pub failed_call_keeps_db :
    (c : Call) (s : Store) (e : Error) → (perform c s).1 ≡ raise e → KeptOrTorn s e (perform c s).0
unfolding perform
failed_call_keeps_db (opening env) s e h =
    inl (rw reply_with-store (unfold open_store in ground arith))
failed_call_keeps_db (creating env now id) s e h = rw reply_with-store (
    unfold create in
    write-keeps env s (create_body s.ttl now id) e
      (reply_with-raise (λ _. nothing) (create env now id s) e h))
failed_call_keeps_db (loading env now id) s e h = rw reply_with-store (
    unfold load_text in
    write-keeps env s (load_body s.ttl now id) e
      (reply_with-raise text (load_text env now id s) e h))
failed_call_keeps_db (checking now id) s e h = inl (rw (reply_with-store, exists-store now id s))
failed_call_keeps_db (saving env now id payload) s e h = rw reply_with-store (
    inl (
      save-keeps env now id payload s e
        (reply_with-raise (λ _. nothing) (save_text env now id payload s) e h)))
failed_call_keeps_db (deleting env now id) s e h = rw reply_with-store (
    unfold delete in
    write-keeps env s (delete_body now id) e
      (reply_with-raise (λ _. nothing) (delete env now id s) e h))
failed_call_keeps_db (purging env now) s e h = rw reply_with-store (
    unfold purge_expired in
    write-keeps env s (purge_body s.ttl now) e (reply_with-raise ids (purge_expired env now s) e h))
failed_call_keeps_db listing s e h = inl (rw (reply_with-store, session_ids-store s))
failed_call_keeps_db (closing works) s e h =
    inl (rw reply_with-store (unfold close in ground arith))

-- A call that is not the shutdown itself.
abbrev pub is_closing : Call → Bool
is_closing (closing works) = true
is_closing _ = false

-- A call that reads or writes sessions.
abbrev pub is_data : Call → Bool
is_data (opening env) = false
is_data (closing works) = false
is_data _ = true

-- Every call on a store that cannot be used raises what `require_usable` raises.
module _ (s : Store) (x : Error) (o : require_usable s ≡ raise x) where
  write-refused :
      {A : Type 0} (env : Env) (body : Db → Result (Db × A))
      → write_transaction env s body ≡ (s, raise x)
  unfolding write_transaction
  write-refused env body = rw (o, write_transaction)

  pub data-refused : (c : Call) → is_data c ≡ true → perform c s ≡ (s, raise x)
  unfolding perform
  data-refused (opening env) h = cc
  data-refused (creating env now id) h =
      unfold create in rw (write-refused env (create_body s.ttl now id))
  data-refused (loading env now id) h =
      unfold load_text in rw (write-refused env (load_body s.ttl now id))
  data-refused (checking now id) h = unfold exists in rw (o, exists)
  data-refused (saving env now id payload) h = unfold save_text in rw (o, save_text)
  data-refused (deleting env now id) h =
      unfold delete in rw (write-refused env (delete_body now id))
  data-refused (purging env now) h =
      unfold purge_expired in rw (write-refused env (purge_body s.ttl now))
  data-refused listing h = unfold session_ids in rw (o, session_ids)
  data-refused (closing works) h = cc
