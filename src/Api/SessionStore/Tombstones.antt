-- ===== src/Api/SessionStore/Tombstones.antt =====
-- Deletion in backend/api/session_store.py is final while its tombstone lives.
use taigi_agent.Prelude.{
  ℕ, ◌+◌, ◌≤◌, ◌≡◌, true, false, not, inl, inr, Option, none, some, arith, Bool-cases, Option-cases,
  Text, text_eq, text_eq_iff, keep, subst, sym, ◌∙◌,
}
use taigi_agent.Prelude.Table.{
  find, without, store, find-without, find-store, find-keep_hit, find-keep_miss,
}
use taigi_agent.Api.SessionStore.{
  Row, Db, Result, ok, raise, Store, Env, is_past, session_tombstoned, write_transaction,
  create_row, create_body, load_body, update_row,
}
use taigi_agent.Api.SessionStore.Bodies.{
  ok-injective, new_row, create_row-cases, create_body-open, create_body-renewed,
  create_body-barred, load_body-absent, load_body-past, load_body-live, update_row-absent,
  update_row-found,
}
use taigi_agent.Api.SessionStore.Calls.{
  Call, creating, loading, checking, saving, deleting, purging, refused, committed,
  write_transaction-Written,
}

-- The session was ended at `t` or later, and is gone.
pub record Ended (id : Text) (t : ℕ) (db : Db) : Type 0 where
  pub at : ℕ
  pub marked : find id db.tombstones ≡ some at
  pub since : t ≤ at
  pub gone : find id db.sessions ≡ none

-- The instant of a call, if it reads the clock.
abbrev pub Between : ℕ → ℕ → Call → Type 0
Between a b (creating env now id) = (a ≤ now) × (now ≤ b)
Between a b (loading env now id) = (a ≤ now) × (now ≤ b)
Between a b (checking now id) = (a ≤ now) × (now ≤ b)
Between a b (saving env now id payload) = (a ≤ now) × (now ≤ b)
Between a b (deleting env now id) = (a ≤ now) × (now ≤ b)
Between a b (purging env now) = (a ≤ now) × (now ≤ b)
Between a b _ = Unit

module _ (id : Text) (t ttl : ℕ) where
  -- A key that has a row is another key.
  key_ne :
      (db : Db) (other : Text)
      → Ended id t db
      → (row : Row) → find other db.sessions ≡ some row
      → text_eq other id ≡ false
  key_ne db other h row hit = elim (Bool-cases (text_eq other id)) [
    | inl same ↦ absurd (cc (hit, h.gone, (text_eq_iff other id).0 same))
    | inr ne ↦ ne
  ]

  pub Ended-store_session :
      (other : Text) (row : Row) (db : Db)
      → text_eq other id ≡ false
      → Ended id t db
      → Ended id t (record db { sessions = store other row db.sessions })
  Ended-store_session other row db ne h = record {
    at = h.at;
    marked = h.marked;
    since = h.since;
    gone = rw (find-store other id, ne) h.gone;
  }

  pub Ended-create_row :
      (now : ℕ) (other : Text) (db db' : Db) (u : Unit {0})
      → text_eq other id ≡ false
      → Ended id t db
      → create_row ttl now other db ≡ ok (db', u)
      → Ended id t db'
  Ended-create_row now other db db' u ne h e = elim (create_row-cases ttl now other db) [
    | inl c ↦ subst (Ended id t) (ok-injective (db, tt) (db', u) c e) h
    | inr c ↦
        subst (Ended id t) (ok-injective (_, tt) (db', u) c e)
          (Ended-store_session other (new_row now) db ne h)
  ]

  -- The session itself is not created again.
  pub create_body-Ended :
      (now : ℕ) (db : Db)
      → now ≤ t + ttl
      → Ended id t db
      → create_body ttl now id db ≡ raise (session_tombstoned id)
  create_body-Ended now db p h = create_body-barred ttl now id db h.at h.marked (late h.at h.since)
    where
      late : (at : ℕ) → t ≤ at → is_past ttl now at ≡ false
      late at q = ground arith

  pub Ended-create_body :
      (now : ℕ) (other : Text) (db db' : Db) (u : Unit {0})
      → now ≤ t + ttl
      → Ended id t db
      → create_body ttl now other db ≡ ok (db', u)
      → Ended id t db'
  Ended-create_body now other db db' u p h e = elim (Bool-cases (text_eq other id)) [
    | inl same ↦ absurd (self ((text_eq_iff other id).0 same))
    | inr ne ↦ elim (Option-cases (find other db.tombstones)) [
      | inl o ↦
          Ended-create_row now other db db' u ne h (sym (create_body-open ttl now other db o) ∙ e)
      | inr (at, o) ↦ elim (Bool-cases (is_past ttl now at)) [
        | inl past ↦
            Ended-create_row now other (record db { tombstones = without other db.tombstones }) db'
              u ne
              (record {
                at = h.at;
                marked = rw (find-without other id, ne) h.marked;
                since = h.since;
                gone = h.gone;
              })
              (sym (create_body-renewed ttl now other db at o past) ∙ e)
        | inr live ↦ absurd (cc (create_body-barred ttl now other db at o live, e))
      ]
    ]
  ]
    where
      self : other ≡ id → ⊥
      self same = cc (create_body-Ended now db p h, e, same)

  pub Ended-load_body :
      (now : ℕ) (other : Text) (db db' : Db) (o : Option Text)
      → Ended id t db
      → load_body ttl now other db ≡ ok (db', o)
      → Ended id t db'
  Ended-load_body now other db db' o h e = elim (Option-cases (find other db.sessions)) [
    | inl miss ↦
        subst (Ended id t)
          (ok-injective (db, none) (db', o) (load_body-absent ttl now other db miss) e) h
    | inr (row, hit) ↦ elim (Bool-cases (is_past ttl now row.last_used)) [
      | inl past ↦
          subst (Ended id t)
            (ok-injective (_, none) (db', o) (load_body-past ttl now other db row hit past) e)
            (record {
              at = h.at;
              marked = h.marked;
              since = h.since;
              gone = rw (find-without other id, other_key row hit) h.gone;
            })
      | inr live ↦
          subst (Ended id t)
            (ok-injective (_, some row.messages) (db', o)
              (load_body-live ttl now other db row hit live) e)
            (Ended-store_session other _ db (other_key row hit) h)
    ]
  ]
    where
      other_key : (row : Row) → find other db.sessions ≡ some row → text_eq other id ≡ false
      other_key row hit = key_ne db other h row hit

  pub Ended-update_row :
      (now : ℕ) (other payload : Text) (db : Db)
      → Ended id t db
      → Ended id t (update_row now other payload db)
  Ended-update_row now other payload db h = elim (Option-cases (find other db.sessions)) [
    | inl o ↦ rw (update_row-absent now other payload db o) h
    | inr (row, o) ↦
        rw (update_row-found now other payload db row o)
          (Ended-store_session other _ db (key_ne db other h row o) h)
  ]

  pub Ended-delete_body :
      (now : ℕ) (other : Text) (db : Db)
      → t ≤ now
      → Ended id t db
      → Ended id t (record {
        sessions = without other db.sessions;
        tombstones = store other now db.tombstones;
      })
  Ended-delete_body now other db p h = elim (Bool-cases (text_eq other id)) [
    | inl e ↦ record {
      at = now;
      marked = rw (find-store other id, e);
      since = p;
      gone = rw (find-without other id, e);
    }
    | inr e ↦ record {
      at = h.at;
      marked = rw (find-store other id, e) h.marked;
      since = h.since;
      gone = rw (find-without other id, e) h.gone;
    }
  ]

  pub Ended-purge :
      (now : ℕ) (db : Db)
      → now ≤ t + ttl
      → Ended id t db
      → Ended id t (record {
        sessions = keep (λ e. not (is_past ttl now e.1.last_used)) db.sessions;
        tombstones = keep (λ e. not (is_past ttl now e.1)) db.tombstones;
      })
  Ended-purge now db p h = record {
    at = h.at;
    marked =
        find-keep_hit (λ v. not (is_past ttl now v)) id h.at db.tombstones h.marked
          (fresh h.at h.since);
    since = h.since;
    gone = find-keep_miss _ id db.sessions h.gone;
  }
    where
      fresh : (at : ℕ) → t ≤ at → not (is_past ttl now at) ≡ true
      fresh at q = ground arith

  pub Ended-write :
      {A : Type 0} (env : Env) (s : Store) (body : Db → Result (Db × A))
      → ((db : Db) (a : A) → body s.db ≡ ok (db, a) → Ended id t db)
      → Ended id t s.db
      → s.ttl ≡ ttl
      → Ended id t (write_transaction env s body).0.db
        × ((write_transaction env s body).0.ttl ≡ ttl)
  Ended-write env s body keep h e = elim (write_transaction-Written env s body) [
    | refused _ _ (inl db) same ↦ (subst (Ended id t) (sym db) h, same ∙ e)
    | refused _ _ (inr (db, a, r, out)) same ↦ rw out (keep db a r, e)
    | committed db a r out ↦ rw out (keep db a r, e)
  ]
