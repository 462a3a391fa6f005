-- ===== src/Api/SessionStore/Bodies.antt =====
-- The branches of the transactions of backend/api/session_store.py as equations.
use taigi_agent.Prelude.{
  ℕ, ◌≡◌, ap, true, false, ◌⊎◌, inl, inr, none, some, Bool-cases, Option-cases, Text, codes,
}
use taigi_agent.Prelude.Table.{find, without, store}
use taigi_agent.Api.SessionStore.{
  Row, Db, Result, ok, raise, session_tombstoned, is_past, create_row, create_body, load_body,
  update_row,
}

-- What a body returned is one database.
pub ok-injective :
    {A : Type 0} {r : Result (Db × A)} (p q : Db × A) → r ≡ ok p → r ≡ ok q → p.0 ≡ q.0
ok-injective {A} p q e f = ap (λ (x : Db × A). x.0) same
  where
    same : p ≡ q
    same = cc

-- The row that `create` writes.
abbrev pub new_row : ℕ → Row
new_row now = record { last_used = now; messages = codes "[]" }

module _ (ttl now : ℕ) (id : Text) (db : Db) where
  pub create_row-absent :
      find id db.sessions ≡ none
      → create_row ttl now id db
        ≡ ok (record db { sessions = store id (new_row now) db.sessions }, tt)
  unfolding create_row
  create_row-absent o = rw (o, create_row)

  pub create_row-past :
      (row : Row)
      → find id db.sessions ≡ some row
      → is_past ttl now row.last_used ≡ true
      → create_row ttl now id db
        ≡ ok (record db { sessions = store id (new_row now) db.sessions }, tt)
  unfolding create_row
  create_row-past row o p = rw (o, create_row) (rw p)

  pub create_row-live :
      (row : Row)
      → find id db.sessions ≡ some row
      → is_past ttl now row.last_used ≡ false
      → create_row ttl now id db ≡ ok (db, tt)
  unfolding create_row
  create_row-live row o p = rw (o, create_row) (rw p)

  pub create_row-cases :
      (create_row ttl now id db ≡ ok (db, tt))
      ⊎ (create_row ttl now id db
          ≡ ok (record db { sessions = store id (new_row now) db.sessions }, tt))
  create_row-cases = elim (Option-cases (find id db.sessions)) [
    | inl miss ↦ inr (create_row-absent miss)
    | inr (row, hit) ↦ elim (Bool-cases (is_past ttl now row.last_used)) [
      | inl past ↦ inr (create_row-past row hit past)
      | inr live ↦ inl (create_row-live row hit live)
    ]
  ]

  pub create_body-open :
      find id db.tombstones ≡ none → create_body ttl now id db ≡ create_row ttl now id db
  unfolding create_body
  create_body-open o = rw (o, create_body)

  pub create_body-renewed :
      (at : ℕ)
      → find id db.tombstones ≡ some at
      → is_past ttl now at ≡ true
      → create_body ttl now id db
        ≡ create_row ttl now id (record db { tombstones = without id db.tombstones })
  unfolding create_body
  create_body-renewed at o p = rw (o, create_body) (rw p)

  pub create_body-barred :
      (at : ℕ)
      → find id db.tombstones ≡ some at
      → is_past ttl now at ≡ false
      → create_body ttl now id db ≡ raise (session_tombstoned id)
  unfolding create_body
  create_body-barred at o p = rw (o, create_body) (rw p)

  pub load_body-absent : find id db.sessions ≡ none → load_body ttl now id db ≡ ok (db, none)
  unfolding load_body
  load_body-absent o = rw (o, load_body)

  pub load_body-past :
      (row : Row)
      → find id db.sessions ≡ some row
      → is_past ttl now row.last_used ≡ true
      → load_body ttl now id db ≡ ok (record db { sessions = without id db.sessions }, none)
  unfolding load_body
  load_body-past row o p = rw (o, load_body) (rw p)

  pub load_body-live :
      (row : Row)
      → find id db.sessions ≡ some row
      → is_past ttl now row.last_used ≡ false
      → load_body ttl now id db
        ≡ ok (
          record db { sessions = store id (record row { last_used = now }) db.sessions },
          some row.messages,
        )
  unfolding load_body
  load_body-live row o p = rw (o, load_body) (rw p)

module _ (now : ℕ) (id payload : Text) (db : Db) where
  pub update_row-absent : find id db.sessions ≡ none → update_row now id payload db ≡ db
  unfolding update_row
  update_row-absent o = rw (o, update_row)

  pub update_row-found :
      (row : Row)
      → find id db.sessions ≡ some row
      → update_row now id payload db ≡ record db {
        sessions = store id (record { last_used = now; messages = payload }) db.sessions;
      }
  unfolding update_row
  update_row-found row o = rw (o, update_row)
