-- ===== src/Api/SessionStore/Ended.antt =====
-- A session that backend/api/session_store.py deleted stays deleted, whatever is called next.
use taigi_agent.Prelude.{
  ℕ, ◌+◌, ◌≤◌, ◌≡◌, ◌≢◌, refl, sym, ◌∙◌, subst, Bool, true, inl, inr, some, List, [], ◌∷◌, arith,
  All, Bool-cases, Text, text_eq_refl,
}
use taigi_agent.Prelude.Table.{find-without, find-store}
use taigi_agent.Api.SessionStore.{
  Db, ok, Store, Env, OpenEnv, require_usable, open_store, create_body, create, load_body,
  load_text, exists, save_text, delete_body, delete, purge_body, purge_expired, close,
}
use taigi_agent.Api.SessionStore.Bodies.{ok-injective, load_body-absent}
use taigi_agent.Api.SessionStore.Calls.{
  Call, opening, creating, loading, checking, saving, deleting, purging, listing, closing, perform,
  after, refused, committed, write_transaction-Written, reply_with-store, Result-cases,
  exists-store, session_ids-store,
}
use taigi_agent.Api.SessionStore.Tombstones.{
  Ended, Between, create_body-Ended, Ended-create_body, Ended-load_body, Ended-update_row,
  Ended-delete_body, Ended-purge, Ended-write,
}

module _ (id : Text) (t ttl : ℕ) where
  abbrev EndedStore : Store → Type 0
  EndedStore s = Ended id t s.db × (s.ttl ≡ ttl)

  EndedStore-open_store :
      (env : OpenEnv) (s : Store) → EndedStore s → EndedStore (open_store env s).0
  EndedStore-open_store env s h = (subst (Ended id t) (sym same.0) h.0, same.1 ∙ h.1)
    where
      same : ((open_store env s).0.db ≡ s.db) × ((open_store env s).0.ttl ≡ s.ttl)
      same = unfold open_store in ground arith

  EndedStore-close : (works : Bool) (s : Store) → EndedStore s → EndedStore (close works s).0
  EndedStore-close works s h = (subst (Ended id t) (sym same.0) h.0, same.1 ∙ h.1)
    where
      same : ((close works s).0.db ≡ s.db) × ((close works s).0.ttl ≡ s.ttl)
      same = unfold close in ground arith

  EndedStore-save_text :
      (env : Env) (now : ℕ) (k payload : Text) (s : Store)
      → EndedStore s
      → EndedStore (save_text env now k payload s).0
  unfolding save_text
  EndedStore-save_text env now k payload s h = elim (Result-cases (require_usable s)) [
    | inl (e, o) ↦ rw (o, save_text) h
    | inr (u, o) ↦
        rw (o, save_text)
          (elim (Bool-cases env.commit_works) [
            | inl c ↦ rw c (Ended-update_row id t ttl now k payload s.db h.0, h.1)
            | inr c ↦ rw c h
          ])
  ]

  del :
      (db db' : Db) (u : Unit {0}) (now : ℕ) (k : Text)
      → t ≤ now
      → Ended id t db
      → delete_body now k db ≡ ok (db', u)
      → Ended id t db'
  unfolding delete_body
  del db db' u now k p h r =
      subst (Ended id t) (ok-injective _ (db', u) refl r) (Ended-delete_body id t ttl now k db p h)

  swept :
      (db db' : Db) (ks : List Text) (now : ℕ)
      → now ≤ t + ttl
      → Ended id t db
      → purge_body ttl now db ≡ ok (db', ks)
      → Ended id t db'
  unfolding purge_body
  swept db db' ks now p h r =
      subst (Ended id t) (ok-injective _ (db', ks) refl r) (Ended-purge id t ttl now db p h)

  -- Every call whose instant is not past the tombstone's life keeps the session ended.
  EndedStore-perform :
      (c : Call) (s : Store) → Between t (t + ttl) c → EndedStore s → EndedStore (perform c s).0
  unfolding perform
  EndedStore-perform (opening env) s b h = rw reply_with-store (EndedStore-open_store env s h)
  EndedStore-perform (creating env now k) s b h = rw reply_with-store (
      unfold create in
      Ended-write id t ttl env s (create_body s.ttl now k)
        (λ db u r. Ended-create_body id t ttl now k s.db db u b.1 h.0 (rw h.1 at r)) h.0 h.1)
  EndedStore-perform (loading env now k) s b h = rw reply_with-store (
      unfold load_text in
      Ended-write id t ttl env s (load_body s.ttl now k)
        (λ db o r. Ended-load_body id t ttl now k s.db db o h.0 (rw h.1 at r)) h.0 h.1)
  EndedStore-perform (checking now k) s b h = rw (reply_with-store, exists-store now k s) h
  EndedStore-perform (saving env now k payload) s b h =
      rw reply_with-store (EndedStore-save_text env now k payload s h)
  EndedStore-perform (deleting env now k) s b h = rw reply_with-store (
      unfold delete in
      Ended-write id t ttl env s (delete_body now k) (λ db u r. del s.db db u now k b.0 h.0 r) h.0
        h.1)
  EndedStore-perform (purging env now) s b h = rw reply_with-store (
      unfold purge_expired in
      Ended-write id t ttl env s (purge_body s.ttl now)
        (λ db ks r. swept s.db db ks now b.1 h.0 (rw h.1 at r)) h.0 h.1)
  EndedStore-perform listing s b h = rw (reply_with-store, session_ids-store s) h
  EndedStore-perform (closing works) s b h = rw reply_with-store (EndedStore-close works s h)

  EndedStore-after :
      (cs : List Call) (s : Store)
      → All (Between t (t + ttl)) cs
      → EndedStore s
      → EndedStore (after cs s)
  unfolding after
  EndedStore-after [] s b h = h
  EndedStore-after (c ∷ cs) s b h =
      EndedStore-after cs (perform c s).0 b.1 (EndedStore-perform c s b.0 h)

-- What a deletion that returned leaves.
Ended-delete :
    (id : Text) (t : ℕ) (env : Env) (s : Store)
    → (delete env t id s).1 ≡ ok tt
    → EndedStore id t s.ttl (delete env t id s).0
unfolding delete
Ended-delete id t env s done = elim (write_transaction-Written env s (delete_body t id)) [
  | refused e r _ _ ↦ absurd (cc (r, done))
  | committed db u r out ↦ rw out (marked db u r, refl)
]
  where
    marked : (db : Db) (u : Unit {0}) → delete_body t id s.db ≡ ok (db, u) → Ended id t db
    marked db u r =
        subst (Ended id t) (unfold delete_body in ok-injective _ (db, u) refl r) (record {
          at = t;
          marked = rw (find-store id id, text_eq_refl id);
          since = omega arith;
          gone = rw (find-without id id, text_eq_refl id);
        })

-- Creating, checking and loading an ended session.
module _ (id : Text) (t : ℕ) (s : Store) (h : Ended id t s.db) (env : Env) (now : ℕ) where
  create-ended : now ≤ t + s.ttl → (create env now id s).1 ≢ ok tt
  unfolding create
  create-ended p e = elim (write_transaction-Written env s (create_body s.ttl now id)) [
    | refused _ r _ _ ↦ cc (r, e)
    | committed db u r out ↦ cc (create_body-Ended id t s.ttl now s.db p h, r)
  ]

  exists-ended : (exists now id s).1 ≢ ok true
  unfolding exists
  exists-ended e = elim (Result-cases (require_usable s)) [
    | inl (x, o) ↦ cc (rw (o, exists) at e)
    | inr (u, o) ↦ cc (rw (o, exists, h.gone) at e)
  ]

  load_text-ended : (m : Text) → (load_text env now id s).1 ≢ ok (some m)
  unfolding load_text
  load_text-ended m e = elim (write_transaction-Written env s (load_body s.ttl now id)) [
    | refused _ r _ _ ↦ cc (r, e)
    | committed db o r out ↦ cc (load_body-absent s.ttl now id s.db h.gone, r, out, e)
  ]

-- A session whose deletion returned at `t` stays ended: after any further calls, successful or
-- failed, at instants from `t` to the end of its tombstone's life, it is not created again, it is
-- not reported to exist, and no messages are loaded for it.
pub ended_stays_ended :
    (id : Text) (t : ℕ) (env : Env) (s : Store) (cs : List Call) (env' : Env) (now : ℕ)
    → (delete env t id s).1 ≡ ok tt
    → All (Between t (t + s.ttl)) cs
    → now ≤ t + s.ttl
    → ((create env' now id (after cs (delete env t id s).0)).1 ≢ ok tt)
      × ((exists now id (after cs (delete env t id s).0)).1 ≢ ok true)
      × ((m : Text) → (load_text env' now id (after cs (delete env t id s).0)).1 ≢ ok (some m))
ended_stays_ended id t env s cs env' now done between p =
    let s' = after cs (delete env t id s).0 in
    let (h, same) =
      EndedStore-after id t s.ttl cs (delete env t id s).0 between (Ended-delete id t env s done) in
    (
      create-ended id t s' h env' now (rw same p),
      exists-ended id t s' h env' now,
      load_text-ended id t s' h env' now,
    )
