-- ===== src/Store/Users.antt =====
-- Accounts (backend/internal/store/users.go). `nocase` is the folding of SQLite's NOCASE collation.
pub mod Revoking
use file_transit_desk.Prelude.{
  ℕ, suc, ◌+◌, String, ◌==◌, Bool, true, false, not, ◌&&◌, ◌||◌, Option, none, some, List, [], ◌∷◌,
  eqb, first, if◌then◌else◌, is_some,
}
use file_transit_desk.Store.Exec.{
  Result, ok, err, Exec, pure, raise, statement, transaction, attempt, ◌>>=◌, ◌>>◌, constraint,
  no_rows, account_changed, username_taken,
}
use file_transit_desk.Store.Rows.{AccountUser, Db, update_where, delete_where, is_id}

abbrev pub has_user_id : ℕ → AccountUser → Bool
has_user_id id u = eqb u.id id

unfoldable pub found_account : Option AccountUser → Db → Result AccountUser × Db
found_account none db = (err no_rows, db)
found_account (some u) db = (ok u, db)

unfoldable pub account : ℕ → Exec Db AccountUser
unfolding found_account
account id = statement (λ db. found_account (first (has_user_id id) db.users) db)

module _ (nocase : String → String) where
  abbrev pub has_username : String → AccountUser → Bool
  has_username username u = nocase u.username == nocase username

  unfoldable pub account_by_username : String → Exec Db AccountUser
  unfolding found_account
  account_by_username username =
      statement (λ db. found_account (first (has_username username) db.users) db)

  -- `username` is UNIQUE under NOCASE, `auth_version` is 1 by default.
  unfoldable pub insert_account : String → String → String → String → ℕ → Db → Result ℕ × Db
  insert_account username name hash status now db =
      if is_some (first (has_username username) db.users) then (err constraint, db) else (
        ok db.next_user,
        record db {
          users =
              record {
                id = db.next_user;
                username = username;
                display_name = name;
                status = status;
                created_at = now;
                updated_at = now;
                password_hash = hash;
                auth_version = 1;
              }
              ∷ db.users;
          next_user = suc db.next_user;
        },
      )

  or_taken : Result ℕ → Exec Db AccountUser
  unfolding account
  or_taken (err constraint) = raise username_taken
  or_taken (err e) = raise e
  or_taken (ok id) = account id

  unfoldable pub create_account : String → String → String → String → ℕ → Exec Db AccountUser
  unfolding insert_account or_taken
  create_account username name hash status now =
      attempt (statement (insert_account username name hash status now)) or_taken

-- The account is deleted, or is not what the caller read.
abbrev pub is_stale : Option ℕ → AccountUser → Bool
is_stale none u = u.status == "deleted"
is_stale (some expected_version) u =
    (u.status == "deleted")
    || (not (eqb u.auth_version expected_version) || not (u.status == "active"))

abbrev pub leaves_active : Option String → AccountUser → Bool
leaves_active none u = false
leaves_active (some status) u = not (status == u.status) && not (status == "active")

abbrev pub must_revoke : Option String → String → AccountUser → Bool
must_revoke status hash u = not (hash == "") || leaves_active status u

abbrev pub given : Option String → String → String
given none old = old
given (some new) old = new

abbrev pub new_password : String → String → String → String
new_password status hash old = if status == "deleted" then "" else if hash == "" then old else hash

abbrev pub changed : Option String → Option String → String → ℕ → AccountUser → AccountUser
changed name status hash now u = record u {
  display_name = given name u.display_name;
  status = given status u.status;
  password_hash = new_password (given status u.status) hash u.password_hash;
  auth_version = if must_revoke status hash u then u.auth_version + 1 else u.auth_version;
  updated_at = now;
}

-- UPDATE users SET … WHERE id=?
abbrev pub write_row : AccountUser → AccountUser → AccountUser
write_row u row = record row {
  display_name = u.display_name;
  status = u.status;
  password_hash = u.password_hash;
  auth_version = u.auth_version;
  updated_at = u.updated_at;
}

unfoldable pub write_account : ℕ → AccountUser → Exec Db (Unit {0})
write_account id u =
    statement
      (λ db. (ok tt, record db { users = update_where (has_user_id id) (write_row u) db.users }))

unfoldable pub revoke_account : ℕ → Exec Db (Unit {0})
revoke_account id = do
  statement
      (λ db. (ok tt, record db { sessions = delete_where (λ s. is_id s.user_id id) db.sessions }))
  statement (λ db. (
    ok tt,
    record db { download_leases = delete_where (λ l. is_id l.user_id id) db.download_leases },
  ))
  statement (λ db. (
    ok tt,
    record db {
      upload_leases =
          delete_where (λ l. is_id l.user_id id && not (is_some l.used_at)) db.upload_leases;
    },
  ))

unfoldable pub apply_update :
    ℕ → Option String → Option String → String → Option ℕ → ℕ → AccountUser → Exec Db AccountUser
unfolding write_account revoke_account
apply_update id name status hash expected_version now u =
    let u' : AccountUser = changed name status hash now u in
    if is_stale expected_version u then raise account_changed else (do
      write_account id u'
      if must_revoke status hash u then revoke_account id else pure tt
      pure u')

-- One transaction changes the account and, with its password or status, revokes what it holds.
unfoldable pub update_account :
    ℕ → Option String → Option String → String → Option ℕ → ℕ → Exec Db AccountUser
unfolding account apply_update
update_account id name status hash expected_version now =
    transaction (do u ← account id; apply_update id name status hash expected_version now u)
