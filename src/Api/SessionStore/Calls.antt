-- ===== src/Api/SessionStore/Calls.antt =====
-- The calls on the store of backend/api/session_store.py as one type, and the shape of a write.
use taigi_agent.Prelude.{
  ℕ, ◌≡◌, refl, Bool, true, ◌⊎◌, inl, inr, Option, List, [], ◌∷◌, if◌then◌else◌, Bool-cases, Text,
}
use taigi_agent.Api.SessionStore.{
  Db, Error, transaction_and_rollback_failed, Result, ok, raise, Store, Env, OpenEnv, Outcome,
  require_usable, roll_back, finish, write_transaction, open_store, create, load_text, exists,
  save_text, delete, purge_expired, session_ids, close,
}

-- A public call, with what it is given and what the environment chooses.
pub data Call : Type 0 where
  opening : OpenEnv → Call
  creating : Env → ℕ → Text → Call
  loading : Env → ℕ → Text → Call
  checking : ℕ → Text → Call
  saving : Env → ℕ → Text → Text → Call
  deleting : Env → ℕ → Text → Call
  purging : Env → ℕ → Call
  listing : Call
  closing : Bool → Call

pub data Reply : Type 0 where
  nothing : Reply
  text : Option Text → Reply
  verdict : Bool → Reply
  ids : List Text → Reply

abbrev pub reply_with : {A : Type 0} → (A → Reply) → Outcome A → Outcome Reply
reply_with f (s, ok a) = (s, ok (f a))
reply_with f (s, raise e) = (s, raise e)

unfoldable pub perform : Call → Store → Outcome Reply
perform (opening env) s = reply_with (λ _. nothing) (open_store env s)
perform (creating env now id) s = reply_with (λ _. nothing) (create env now id s)
perform (loading env now id) s = reply_with text (load_text env now id s)
perform (checking now id) s = reply_with verdict (exists now id s)
perform (saving env now id payload) s = reply_with (λ _. nothing) (save_text env now id payload s)
perform (deleting env now id) s = reply_with (λ _. nothing) (delete env now id s)
perform (purging env now) s = reply_with ids (purge_expired env now s)
perform listing s = reply_with ids (session_ids s)
perform (closing works) s = reply_with (λ _. nothing) (close works s)

-- The store after a list of calls, whatever they answered.
unfoldable pub after : List Call → Store → Store
after [] s = s
after (c ∷ cs) s = after cs (perform c s).0

-- A transaction that could neither be committed nor rolled back.
abbrev pub Torn : {A : Type 0} → Store → (Db → Result (Db × A)) → Outcome A → Type 0
Torn {A} s body out =
    (db : Db) × (a : A) × (body s.db ≡ ok (db, a))
    × (out ≡ (record s { db = db; poisoned = true }, raise transaction_and_rollback_failed))

-- A write either raises and leaves the database, or is torn, or commits what its body returned.
pub data Written {A : Type 0} (s : Store) (body : Db → Result (Db × A)) (out : Outcome A)
    : Type 0 where
  refused :
      (e : Error)
      → out.1 ≡ raise e
      → (out.0.db ≡ s.db) ⊎ Torn s body out
      → out.0.ttl ≡ s.ttl
      → Written s body out
  committed :
      (db : Db) (a : A)
      → body s.db ≡ ok (db, a)
      → out ≡ (record s { db = db }, ok a)
      → Written s body out

finish-Written :
    {A : Type 0} (env : Env) (s : Store) (body : Db → Result (Db × A)) (r : Result (Db × A))
    → body s.db ≡ r
    → Written s body (finish env s r)
unfolding finish roll_back
finish-Written env s body (raise e) h = elim (Bool-cases env.rollback_works) [
  | inl t ↦ rw t (refused e refl (inl refl) refl)
  | inr t ↦ rw t (refused transaction_and_rollback_failed refl (inl refl) refl)
]
finish-Written env s body (ok (db, a)) h = elim (Bool-cases env.commit_works) [
  | inl t ↦ rw t (committed db a h refl)
  | inr t ↦ elim (Bool-cases env.rollback_works) [
    | inl r ↦ rw (t, r) (refused Error.sqlite_failure refl (inl refl) refl)
    | inr r ↦ rw (t, r) (refused transaction_and_rollback_failed refl (inr (db, a, h, refl)) refl)
  ]
]

pub write_transaction-Written :
    {A : Type 0} (env : Env) (s : Store) (body : Db → Result (Db × A))
    → Written s body (write_transaction env s body)
unfolding write_transaction
write_transaction-Written env s body = split (require_usable s) refl
  where
    split :
        (r : Result (Unit {0}))
        → require_usable s ≡ r
        → Written s body (elim r [
          | raise e ↦ (s, raise e)
          | ok _ ↦
              if env.begin_works then finish env s (body s.db) else (s, raise Error.sqlite_failure)
        ])
    split (raise e) h = refused e refl (inl refl) refl
    split (ok u) h = elim (Bool-cases env.begin_works) [
      | inl t ↦ rw t (finish-Written env s body (body s.db) refl)
      | inr t ↦ rw t (refused _ refl (inl refl) refl)
    ]

pub reply_with-store : {A : Type 0} (f : A → Reply) (out : Outcome A) → (reply_with f out).0 ≡ out.0
reply_with-store f (s, ok a) = refl
reply_with-store f (s, raise e) = refl

pub Result-cases :
    {A : Type 0} (r : Result A) → ((e : Error) × (r ≡ raise e)) ⊎ ((a : A) × (r ≡ ok a))
Result-cases (ok a) = inr (a, refl)
Result-cases (raise e) = inl (e, refl)

pub exists-store : (now : ℕ) (k : Text) (s : Store) → (exists now k s).0 ≡ s
unfolding exists
exists-store now k s = elim (Result-cases (require_usable s)) [
  | inl (e, o) ↦ rw (o, exists)
  | inr (u, o) ↦ rw (o, exists)
]

pub session_ids-store : (s : Store) → (session_ids s).0 ≡ s
unfolding session_ids
session_ids-store s = elim (Result-cases (require_usable s)) [
  | inl (e, o) ↦ rw (o, session_ids)
  | inr (u, o) ↦ rw (o, session_ids)
]
