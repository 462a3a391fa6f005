-- ===== src/Api/SessionStore.antt =====
-- backend/api/session_store.py: the SQLite store of chat sessions. A table with a primary key is an
-- association list; a body returns the database that it leaves, and one that raises has only read.
-- A statement that fails inside a body is not told apart from a commit that fails.
-- Whether the steps of SQLite succeed is the choice of the environment, an argument of each call.
-- The lock serialises the calls, so a call is one step. `json.dumps` and `json.loads` are a `Codec`.
mod Bodies
pub mod Calls
pub mod Tombstones
pub mod Ended
pub mod Lifecycle
pub mod Final
pub mod Messages
use taigi_agent.Prelude.{
  ℕ, ◌+◌, ◌≡◌, Bool, true, false, not, ◌&&◌, ◌||◌, Option, none, some, List, [], ◌∷◌, map, keep,
  ltb, leb, if◌then◌else◌, Text, codes,
}
use taigi_agent.Prelude.Table.{Table, find, without, store}

pub record Row : Type 0 where
  pub last_used : ℕ
  pub messages : Text

pub record Db : Type 0 where
  pub sessions : Table Row
  pub tombstones : Table ℕ

pub data Error : Type 0 where
  closed_store : Error
  unresolved_initialization : Error
  closed_while_opening : Error
  unusable : Error
  sqlite_failure : Error
  transaction_and_rollback_failed : Error
  session_tombstoned : Text → Error

pub data Result {ℓ} (A : Type ℓ) : Type ℓ where
  ok : A → Result A
  raise : Error → Result A

-- `connection` tells whether the store owns one.
pub record Store : Type 0 where
  pub ttl : ℕ
  pub db : Db
  pub connection : Bool
  pub opened : Bool
  pub closing : Bool
  pub closed : Bool
  pub poisoned : Bool

-- Which steps of SQLite succeed in this call.
pub record Env : Type 0 where
  pub begin_works : Bool
  pub commit_works : Bool
  pub rollback_works : Bool

pub record OpenEnv : Type 0 where
  pub connect_works : Bool
  pub schema_works : Bool
  -- another thread calls `close` while this one sets up the schema
  pub close_arrives : Bool

abbrev pub Outcome : Type 0 → Type 0
Outcome A = Store × Result A

-- The property `opened`.
unfoldable pub is_open : Store → Bool
is_open s = s.opened && not s.closing && not s.closed

-- `_conn` and `_require_usable`
unfoldable pub require_usable : Store → Result (Unit {0})
unfolding is_open
require_usable s =
    if s.connection && is_open s
    then (if s.poisoned then raise unusable else ok tt)
    else raise closed_store

-- The `except` branch of `_write_transaction`, given the database from before the transaction. A
-- rollback that fails leaves what the body has done in the database, and poisons the store.
unfoldable pub roll_back : {A : Type 0} → Env → Db → Store → Error → Outcome A
roll_back env before s e =
    if env.rollback_works
    then (record s { db = before }, raise e)
    else (record s { poisoned = true }, raise transaction_and_rollback_failed)

unfoldable pub finish : {A : Type 0} → Env → Store → Result (Db × A) → Outcome A
unfolding roll_back
finish env s (raise e) = roll_back env s.db s e
finish env s (ok (db, a)) =
    if env.commit_works
    then (record s { db = db }, ok a)
    else roll_back env s.db (record s { db = db }) sqlite_failure

-- `_write_transaction` around a body.
unfoldable pub write_transaction : {A : Type 0} → Env → Store → (Db → Result (Db × A)) → Outcome A
unfolding require_usable finish
write_transaction env s body = elim (require_usable s) [
  | raise e ↦ (s, raise e)
  | ok _ ↦ if env.begin_works then finish env s (body s.db) else (s, raise sqlite_failure)
]

-- The instant lies before `now - ttl`.
abbrev pub is_past : ℕ → ℕ → ℕ → Bool
is_past ttl now t = ltb (t + ttl) now

-- `open`
unfoldable pub open_store : OpenEnv → Store → Outcome (Unit {0})
unfolding is_open
open_store env s =
    if is_open s
    then (s, ok tt)
    else if s.closing || s.closed
    then (s, raise closed_store)
    else if s.connection
    then (s, raise unresolved_initialization)
    else if not env.connect_works
    then (s, raise sqlite_failure)
    else if not env.schema_works
    then (record s { connection = true; closing = env.close_arrives }, raise sqlite_failure)
    else if env.close_arrives
    then (record s { connection = true; closing = true }, raise closed_while_opening)
    else (record s { connection = true; opened = true }, ok tt)

-- The rest of `create`, once no tombstone stands in the way.
unfoldable pub create_row : ℕ → ℕ → Text → Db → Result (Db × Unit {0})
create_row ttl now id db =
    let fresh = record db {
      sessions = store id (record { last_used = now; messages = codes "[]" }) db.sessions;
    } in
    elim (find id db.sessions) [
      | none ↦ ok (fresh, tt)
      | some row ↦ if is_past ttl now row.last_used then ok (fresh, tt) else ok (db, tt)
    ]

unfoldable pub create_body : ℕ → ℕ → Text → Db → Result (Db × Unit {0})
unfolding create_row
create_body ttl now id db = elim (find id db.tombstones) [
  | none ↦ create_row ttl now id db
  | some t ↦
      if is_past ttl now t
      then create_row ttl now id (record db { tombstones = without id db.tombstones })
      else raise (session_tombstoned id)
]

-- `create`
unfoldable pub create : Env → ℕ → Text → Store → Outcome (Unit {0})
unfolding write_transaction create_body
create env now id s = write_transaction env s (create_body s.ttl now id)

unfoldable pub load_body : ℕ → ℕ → Text → Db → Result (Db × Option Text)
load_body ttl now id db = elim (find id db.sessions) [
  | none ↦ ok (db, none)
  | some row ↦
      if is_past ttl now row.last_used
      then ok (record db { sessions = without id db.sessions }, none)
      else ok (
        record db { sessions = store id (record row { last_used = now }) db.sessions },
        some row.messages,
      )
]

-- `load_messages`, before `json.loads`.
unfoldable pub load_text : Env → ℕ → Text → Store → Outcome (Option Text)
unfolding write_transaction load_body
load_text env now id s = write_transaction env s (load_body s.ttl now id)

unfoldable pub alive : ℕ → ℕ → Option Row → Bool
alive ttl now none = false
alive ttl now (some row) = leb now (row.last_used + ttl)

-- `exists`, a read alone.
unfoldable pub exists : ℕ → Text → Store → Outcome Bool
unfolding require_usable alive
exists now id s = elim (require_usable s) [
  | raise e ↦ (s, raise e)
  | ok _ ↦ (s, ok (alive s.ttl now (find id s.db.sessions)))
]

-- The UPDATE of `save_messages`: it touches no other row, and makes none.
unfoldable pub update_row : ℕ → Text → Text → Db → Db
update_row now id payload db = elim (find id db.sessions) [
  | none ↦ db
  | some row ↦ record db {
    sessions = store id (record { last_used = now; messages = payload }) db.sessions;
  }
]

-- `save_messages`, after `json.dumps`. The statement commits by itself, or fails.
unfoldable pub save_text : Env → ℕ → Text → Text → Store → Outcome (Unit {0})
unfolding require_usable update_row
save_text env now id payload s = elim (require_usable s) [
  | raise e ↦ (s, raise e)
  | ok _ ↦
      if env.commit_works
      then (record s { db = update_row now id payload s.db }, ok tt)
      else (s, raise sqlite_failure)
]

unfoldable pub delete_body : ℕ → Text → Db → Result (Db × Unit {0})
delete_body now id db =
    ok (record { sessions = without id db.sessions; tombstones = store id now db.tombstones }, tt)

-- `delete`
unfoldable pub delete : Env → ℕ → Text → Store → Outcome (Unit {0})
unfolding write_transaction delete_body
delete env now id s = write_transaction env s (delete_body now id)

unfoldable pub purge_body : ℕ → ℕ → Db → Result (Db × List Text)
purge_body ttl now db = ok (
  record {
    sessions = keep (λ e. not (is_past ttl now e.1.last_used)) db.sessions;
    tombstones = keep (λ e. not (is_past ttl now e.1)) db.tombstones;
  },
  map (λ e. e.0) (keep (λ e. is_past ttl now e.1.last_used) db.sessions),
)

-- `purge_expired`
unfoldable pub purge_expired : Env → ℕ → Store → Outcome (List Text)
unfolding write_transaction purge_body
purge_expired env now s = write_transaction env s (purge_body s.ttl now)

-- `session_ids`
unfoldable pub session_ids : Store → Outcome (List Text)
unfolding require_usable
session_ids s = elim (require_usable s) [
  | raise e ↦ (s, raise e)
  | ok _ ↦ (s, ok (map (λ e. e.0) s.db.sessions))
]

-- `close`; the argument tells whether SQLite closes the connection.
unfoldable pub close : Bool → Store → Outcome (Unit {0})
close works s =
    if s.connection
    then (if works
        then (
          record s {
            connection = false;
            opened = false;
            closing = true;
            closed = true;
            poisoned = false;
          },
          ok tt,
        )
        else (record s { closing = true }, raise sqlite_failure))
    else (record s { opened = false; closing = true; closed = true }, ok tt)

-- `__init__`, on the database that the file holds.
unfoldable pub new : ℕ → Db → Store
new ttl db = record {
  ttl = ttl;
  db = db;
  connection = false;
  opened = false;
  closing = false;
  closed = false;
  poisoned = false;
}
