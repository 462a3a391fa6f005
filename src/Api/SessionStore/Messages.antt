-- ===== src/Api/SessionStore/Messages.antt =====
-- What a client of backend/api/session_store.py reads back.
use taigi_agent.Prelude.{
  ℕ, ◌+◌, ◌≤◌, ◌≡◌, refl, sym, ◌∙◌, ap, Bool, true, false, ◌⊎◌, inl, inr, Option, none, some, arith,
  Bool-cases, Option-cases, Text, codes, text_eq_refl,
}
use taigi_agent.Prelude.Table.{find, find-store}
use taigi_agent.Api.SessionStore.{
  Row, Db, Result, ok, raise, Store, Env, Outcome, is_past, alive, require_usable, create_body,
  create, load_body, load_text, exists, update_row, save_text,
}
use taigi_agent.Api.SessionStore.Bodies.{
  ok-injective, new_row, create_row-absent, create_row-live, create_body-open, create_body-renewed,
  create_body-barred, load_body-live, update_row-found,
}
use taigi_agent.Api.SessionStore.Calls.{refused, committed, write_transaction-Written, Result-cases}

abbrev pub is_some {ℓ} : {A : Type ℓ} → Option A → Bool
is_some none = false
is_some (some a) = true

-- `json`: reading what was written gives it back, and a new row's text is the empty list.
pub record Codec : Type 1 where
  pub Messages : Type 0
  pub empty : Messages
  pub dumps : Messages → Text
  pub loads : Text → Messages
  pub loads-dumps : (m : Messages) → loads (dumps m) ≡ m
  pub loads_empty : loads (codes "[]") ≡ empty

load_body-alive :
    (ttl now : ℕ) (id : Text) (db db' : Db) (o : Option Text)
    → load_body ttl now id db ≡ ok (db', o)
    → alive ttl now (find id db.sessions) ≡ is_some o
unfolding load_body alive
load_body-alive ttl now id db db' o h = ground arith

-- The check before a stream and the load in it give one verdict: at the same instant and on the
-- same store `exists` is true exactly when `load_messages` returns messages.
exists-load_text :
    (env : Env) (now : ℕ) (id : Text) (s : Store) (b : Bool) (o : Option Text)
    → (exists now id s).1 ≡ ok b
    → (load_text env now id s).1 ≡ ok o
    → b ≡ is_some o
unfolding exists load_text
exists-load_text env now id s b o h k =
    elim (write_transaction-Written env s (load_body s.ttl now id)) [
      | refused _ r _ _ ↦ absurd (cc (r, k))
      | committed db o' r out ↦ elim (Result-cases (require_usable s)) [
        | inl (x, u) ↦ absurd (cc (rw (u, exists) at h))
        | inr (u, e) ↦
            let seen : ok (alive s.ttl now (find id s.db.sessions)) ≡ ok b = rw (e, exists) at h in
            cc (load_body-alive s.ttl now id s.db db o' r, seen, out, k)
      ]
    ]

-- `load_messages` and `save_messages`, with the codec.
module _ (c : Codec) where
  open c use {Messages, empty, dumps, loads, loads-dumps, loads_empty}

  pub load_result : Result (Option Text) → Result (Option Messages)
  load_result (raise e) = raise e
  load_result (ok none) = ok none
  load_result (ok (some t)) = ok (some (loads t))

  unfoldable pub load_messages : Env → ℕ → Text → Store → Store × Result (Option Messages)
  unfolding load_result
  load_messages env now id s = let (s', r) = load_text env now id s in (s', load_result r)

  unfoldable pub save_messages : Env → ℕ → Text → Messages → Store → Outcome (Unit {0})
  save_messages env now id m s = save_text env now id (dumps m) s

  saved :
      (now : ℕ) (id payload : Text) (db : Db) (row : Row)
      → find id db.sessions ≡ some row
      → find id (update_row now id payload db).sessions
        ≡ some (record { last_used = now; messages = payload })
  saved now id payload db row o =
      rw (update_row-found now id payload db row o, find-store id id, text_eq_refl id)

  save_text-db :
      (env : Env) (now : ℕ) (id payload : Text) (s : Store)
      → (save_text env now id payload s).1 ≡ ok tt
      → ((save_text env now id payload s).0.db ≡ update_row now id payload s.db)
        × ((save_text env now id payload s).0.ttl ≡ s.ttl)
  unfolding save_text
  save_text-db env now id payload s h = elim (Result-cases (require_usable s)) [
    | inl (x, o) ↦ absurd (cc (rw (o, save_text) at h))
    | inr (u, o) ↦ elim (Bool-cases env.commit_works) [
      | inl w ↦ (rw (o, save_text) (rw w), rw (o, save_text) (rw w))
      | inr w ↦ absurd (cc (rw (o, save_text, w) at h))
    ]
  ]

  load_text-row :
      (env : Env) (now : ℕ) (id : Text) (s : Store) (row : Row) (o : Option Text)
      → find id s.db.sessions ≡ some row
      → now ≤ row.last_used + s.ttl
      → (load_text env now id s).1 ≡ ok o
      → o ≡ some row.messages
  unfolding load_text
  load_text-row env now id s row o hit p h =
      elim (write_transaction-Written env s (load_body s.ttl now id)) [
        | refused _ r _ _ ↦ absurd (cc (r, h))
        | committed db o' r out ↦
            let live : is_past s.ttl now row.last_used ≡ false = ground arith in
            cc (load_body-live s.ttl now id s.db row hit live, r, out, h)
      ]

  load_result-ok :
      (r : Result (Option Text)) (o : Option Messages) (t : Text)
      → load_result r ≡ ok o
      → ((t' : Option Text) → r ≡ ok t' → t' ≡ some t)
      → o ≡ some (loads t)
  unfolding load_result
  load_result-ok (raise e) o t h k = cc
  load_result-ok (ok none) o t h k = absurd (cc (k none refl))
  load_result-ok (ok (some u)) o t h k = cc (k (some u) refl)

  -- What a load returns of a row that is live.
  read :
      (t : Text) (m : Messages)
      → loads t ≡ m
      → (env : Env) (now : ℕ) (id : Text) (s : Store) (row : Row) (o : Option Messages)
      → find id s.db.sessions ≡ some row
      → row.messages ≡ t
      → now ≤ row.last_used + s.ttl
      → (load_messages env now id s).1 ≡ ok o
      → o ≡ some m
  unfolding load_messages
  read t m back env now id s row o hit text p h =
      load_result-ok (load_text env now id s).1 o t h
        (λ t' e. load_text-row env now id s row t' hit p e ∙ ap some text)
      ∙ ap some back

  -- Messages that were saved to a session that has a row are what a load returns that comes
  -- within the session's time to live, if neither call fails.
  pub save-load :
      (env env' : Env) (now later : ℕ) (id : Text) (m : Messages) (s : Store) (row : Row)
      (o : Option Messages)
      → find id s.db.sessions ≡ some row
      → (save_messages env now id m s).1 ≡ ok tt
      → later ≤ now + s.ttl
      → (load_messages env' later id (save_messages env now id m s).0).1 ≡ ok o
      → o ≡ some m
  unfolding save_messages load_messages
  save-load env env' now later id m s row o hit done p h =
      let (same, ttl) = save_text-db env now id (dumps m) s done in
      read (dumps m) m (loads-dumps m) env' later id (save_text env now id (dumps m) s).0
        (record { last_used = now; messages = dumps m }) o
        (rw same (saved now id (dumps m) s.db row hit)) refl (rw ttl p) h

  create-row :
      (env : Env) (now : ℕ) (id : Text) (s : Store)
      → find id s.db.sessions ≡ none
      → (create env now id s).1 ≡ ok tt
      → (find id (create env now id s).0.db.sessions ≡ some (new_row now))
        × ((create env now id s).0.ttl ≡ s.ttl)
  unfolding create
  create-row env now id s fresh h =
      elim (write_transaction-Written env s (create_body s.ttl now id)) [
        | refused _ r _ _ ↦ absurd (cc (r, h))
        | committed db u r out ↦ rw out (made db u r (Option-cases (find id s.db.tombstones)), refl)
      ]
    where
      made :
          (db : Db) (u : Unit {0})
          → create_body s.ttl now id s.db ≡ ok (db, u)
          → (find id s.db.tombstones ≡ none) ⊎ ((at : ℕ) × (find id s.db.tombstones ≡ some at))
          → find id db.sessions ≡ some (new_row now)
      made db u r (inl o) =
          rw
            (← ok-injective (_, tt) (db, u)
              (create_body-open s.ttl now id s.db o ∙ create_row-absent s.ttl now id s.db fresh) r)
            (rw (find-store id id, text_eq_refl id))
      made db u r (inr (at, o)) = elim (Bool-cases (is_past s.ttl now at)) [
        | inl q ↦
            rw
              (← ok-injective (_, tt) (db, u)
                (create_body-renewed s.ttl now id s.db at o q
                  ∙ create_row-absent s.ttl now id _ fresh)
                r)
              (rw (find-store id id, text_eq_refl id))
        | inr q ↦ absurd (cc (create_body-barred s.ttl now id s.db at o q, r))
      ]

  -- A session that `create` made reads as the empty conversation.
  create-load :
      (env env' : Env) (now later : ℕ) (id : Text) (s : Store) (o : Option Messages)
      → find id s.db.sessions ≡ none
      → (create env now id s).1 ≡ ok tt
      → later ≤ now + s.ttl
      → (load_messages env' later id (create env now id s).0).1 ≡ ok o
      → o ≡ some empty
  unfolding load_messages
  create-load env env' now later id s o fresh done p h =
      let (row, ttl) = create-row env now id s fresh done in
      read (codes "[]") empty loads_empty env' later id (create env now id s).0 (new_row now) o row
        refl (rw ttl p) h

-- `create` on a session that is still live is a no-op, torn or not: the database is unchanged.
create_idempotent :
    (env : Env) (now : ℕ) (id : Text) (s : Store) (row : Row)
    → find id s.db.tombstones ≡ none
    → find id s.db.sessions ≡ some row
    → now ≤ row.last_used + s.ttl
    → (create env now id s).0.db ≡ s.db
unfolding create
create_idempotent env now id s row o hit p =
    elim (write_transaction-Written env s (create_body s.ttl now id)) [
      | refused _ _ (inl same) _ ↦ same
      | refused _ _ (inr (db, u, r, out)) _ ↦ rw out (sym (same_db db u r))
      | committed db u r out ↦ rw out (sym (same_db db u r))
    ]
  where
    same_db : (db : Db) (u : Unit {0}) → create_body s.ttl now id s.db ≡ ok (db, u) → s.db ≡ db
    same_db db u r =
        let live : is_past s.ttl now row.last_used ≡ false = ground arith in
        ok-injective (s.db, tt) (db, u)
          (create_body-open s.ttl now id s.db o ∙ create_row-live s.ttl now id s.db row hit live) r
