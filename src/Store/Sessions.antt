-- ===== src/Store/Sessions.antt =====
-- Login sessions (backend/internal/store/store.go and backend/internal/store/users.go). Only the hash
-- of a session id is stored; `hash_session_id` stands for it. `datetime` is SQLite's.
pub mod Validity
use file_transit_desk.Prelude.{
  ℕ, ◌+◌, ◌*◌, ◌/◌, String, ◌==◌, Bool, true, false, ◌&&◌, ◌||◌, Option, none, some, ◌∷◌, ltb, leb,
  eqb, count, first, if◌then◌else◌, is_some,
}
use file_transit_desk.Store.Exec.{
  Result, ok, err, World, Exec, pure, raise, statement, ◌>>=◌, constraint, no_rows, account_changed,
  lease_session_invalid,
}
use file_transit_desk.Store.Rows.{Session, AccountUser, Db, update_where, delete_where}

abbrev pub has_session_id : String → Session → Bool
has_session_id id s = s.id == id

-- The joined account row that a session needs: active, and of the version that it was issued for.
abbrev pub is_current_user : ℕ → ℕ → AccountUser → Bool
is_current_user id version u = eqb u.id id && ((u.status == "active") && eqb u.auth_version version)

abbrev pub user_allows : Db → Session → Bool
user_allows db s = elim s.user_id [
  | none ↦ true
  | some id ↦ is_some (first (is_current_user id s.auth_version) db.users)
]

unfoldable pub insert_session : Session → Db → Result (Unit {0}) × Db
insert_session s db =
    if is_some (first (has_session_id s.id) db.sessions)
    then (err constraint, db)
    else (ok tt, record db { sessions = s ∷ db.sessions })

-- `Session` with the columns that are joined from the account.
pub record SessionInfo : Type 0 where
  pub session : Session
  pub username : String

abbrev pub joined : Db → Session → SessionInfo
joined db s = elim s.user_id [
  | none ↦ record { session = s; username = "" }
  | some id ↦ elim (first (λ u. eqb u.id id) db.users) [
    | none ↦ record { session = s; username = "" }
    | some u ↦ record { session = record s { name = u.display_name }; username = u.username }
  ]
]

unfoldable pub find_session : String → Db → Result SessionInfo × Db
find_session stored db =
    elim (first (λ s. has_session_id stored s && user_allows db s) db.sessions) [
      | none ↦ (err no_rows, db)
      | some s ↦ (ok (joined db s), db)
    ]

abbrev pub delete_sessions : (Session → Bool) → Exec Db (Unit {0})
delete_sessions p = statement (λ db. (ok tt, record db { sessions = delete_where p db.sessions }))

module _ (hash_session_id : String → String) where
  unfoldable pub create_session_with_idle :
      String → ℕ → ℕ → String → String → ℕ → Exec Db (Unit {0})
  unfolding insert_session
  create_session_with_idle id expires_at idle_expires_at role name now =
      let role' : String = if role == "" then "user" else role in
      statement (
        insert_session (record {
          id = hash_session_id id;
          expires_at = expires_at;
          idle_expires_at = if ltb expires_at idle_expires_at then expires_at else idle_expires_at;
          last_seen_at = now;
          created_at = now;
          role = role';
          name = name;
          user_id = none;
          auth_version = 0;
          auth_method = if role' == "admin" then "admin" else "totp";
        }))

  unfoldable pub create_session : String → ℕ → String → String → ℕ → Exec Db (Unit {0})
  unfolding create_session_with_idle
  create_session id expires_at role name now =
      create_session_with_idle id expires_at expires_at role name now

  unfoldable pub session : String → Exec Db SessionInfo
  unfolding find_session
  session id = statement (find_session (hash_session_id id))

  abbrev pub is_valid_at : ℕ → Result SessionInfo → Bool
  is_valid_at now (ok i) = ltb now i.session.expires_at && ltb now i.session.idle_expires_at
  is_valid_at now (err e) = false

  unfoldable pub session_valid : String → ℕ → World Db → Bool
  unfolding session
  session_valid id now w = is_valid_at now (session id w).0

  or_no_session : ℕ → Exec Db (Unit {0})
  or_no_session affected = if eqb affected 1 then pure tt else raise no_rows

  unfoldable pub touch_session : String → ℕ → ℕ → Exec Db (Unit {0})
  unfolding or_no_session
  touch_session id now idle_expires_at = do
    affected ← statement (λ db. (
      ok (count (has_session_id (hash_session_id id)) db.sessions),
      record db {
        sessions =
            update_where (has_session_id (hash_session_id id))
              (λ s. record s { last_seen_at = now; idle_expires_at = idle_expires_at }) db.sessions;
      },
    ))
    or_no_session affected

  unfoldable pub delete_session : String → Exec Db (Unit {0})
  delete_session id = delete_sessions (has_session_id (hash_session_id id))

  -- The number of the inserted rows.
  abbrev pub one_row : Result (Unit {0}) × Db → Result ℕ × Db
  one_row (r, db) = elim r [ ok _ ↦ (ok 1, db) | err e ↦ (err e, db) ]

  unfoldable pub insert_account_session : Session → AccountUser → Db → Result ℕ × Db
  unfolding insert_session
  insert_account_session s u db = elim (first (is_current_user u.id u.auth_version) db.users) [
    | none ↦ (ok 0, db)
    | some row ↦ one_row (insert_session (record s { name = row.display_name }) db)
  ]

  unfoldable pub or_changed : ℕ → Exec Db (Unit {0})
  or_changed affected = if eqb affected 1 then pure tt else raise account_changed

  -- The row is taken from the account as it stands: INSERT … SELECT … FROM users.
  unfoldable pub create_account_session : String → ℕ → ℕ → AccountUser → ℕ → Exec Db (Unit {0})
  unfolding insert_account_session or_changed
  create_account_session id expires idle u now = do
    affected ← statement (
        insert_account_session
          (record {
            id = hash_session_id id;
            expires_at = expires;
            idle_expires_at = idle;
            last_seen_at = now;
            created_at = now;
            role = "user";
            name = "";
            user_id = some u.id;
            auth_version = u.auth_version;
            auth_method = "account";
          })
          u)
    or_changed affected

-- fmtSQLiteDuration and the modifier of `datetime`: whole seconds.
abbrev pub whole_seconds : ℕ → ℕ
whole_seconds duration = duration / 1000000000 * 1000000000

module _ (datetime : ℕ → ℕ) where
  unfoldable pub delete_expired_sessions : ℕ → Exec Db (Unit {0})
  delete_expired_sessions now = delete_sessions (λ s.
      leb (datetime s.expires_at) (datetime now) || leb (datetime s.idle_expires_at) (datetime now))

  unfoldable pub delete_expired_sessions_with_idle_grace : ℕ → ℕ → Exec Db (Unit {0})
  delete_expired_sessions_with_idle_grace now grace = delete_sessions (λ s.
      leb (datetime s.expires_at) (datetime now)
      || leb (datetime (s.idle_expires_at + whole_seconds grace)) (datetime now))

  abbrev pub is_live_session : ℕ → Db → Session → Bool
  is_live_session now db s =
      ltb (datetime now) (datetime s.expires_at)
      && (ltb (datetime now) (datetime s.idle_expires_at) && user_allows db s)

  unfoldable pub owner_row : String → ℕ → Db → Result (Option ℕ) × Db
  owner_row session_id now db =
      elim (first (λ s. has_session_id session_id s && is_live_session now db s) db.sessions) [
        | none ↦ (err lease_session_invalid, db)
        | some s ↦ (ok s.user_id, db)
      ]

  -- The account that a lease of a session is for. `session_id` is the stored, hashed id.
  unfoldable pub session_lease_owner : String → String → ℕ → Exec Db (Option ℕ)
  unfolding owner_row
  session_lease_owner source session_id now =
      if source == "session" then statement (owner_row session_id now) else pure none
