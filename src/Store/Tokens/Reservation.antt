-- ===== src/Store/Tokens/Reservation.antt =====
-- Reserving a use of a share token, the limit on active tokens, expiry and revocation by resource
-- (backend/internal/store/store.go).
use file_transit_desk.Prelude.{
  ℕ, ◌+◌, String, ◌==◌, Bool, false, not, ◌&&◌, ◌||◌, Option, none, some, List, [], ◌∷◌, ltb, leb,
  eqb, count, first, if◌then◌else◌, is_some,
}
use file_transit_desk.Store.Exec.{
  Result, ok, err, Exec, pure, raise, statement, transaction, attempt, ◌>>=◌, ◌>>◌,
  token_not_usable, token_upload_limit_exceeded, active_token_limit_reached,
}
use file_transit_desk.Store.Rows.{Token, Db, delete_where, unexpired}
use file_transit_desk.Store.Tokens.{
  has_hash, has_id, insert_token, update_tokens, delete_tokens, select_token, uses_left, bytes_left,
  reserved, revoke_row, delete_upload_leases,
}

-- A row of the subquery `SELECT id FROM tokens WHERE …` with that id.
abbrev pub in_tokens : (Token → Bool) → Db → Option ℕ → Bool
in_tokens p db none = false
in_tokens p db (some id) = is_some (first (λ t. has_id id t && p t) db.tokens)

module _ (datetime : ℕ → ℕ) where
  -- The WHERE clause of the reservation.
  abbrev pub usable : String → ℕ → ℕ → ℕ → Token → Bool
  usable token_type now upload_bytes upload_max_bytes t =
      (t.type == token_type)
      && (not t.revoked
          && (unexpired datetime t.expires_at now
              && (uses_left t && bytes_left upload_bytes upload_max_bytes t)))

  -- Why no row was changed: the upload limit, if the row is there and over it, or any other reason.
  unfoldable pub refuse : String → ℕ → ℕ → Result Token → Exec Db Token
  refuse token_type upload_bytes upload_max_bytes (err e) = raise token_not_usable
  refuse token_type upload_bytes upload_max_bytes (ok t) =
      if (t.type == token_type) && ltb upload_max_bytes (t.uploaded_bytes + upload_bytes)
      then raise token_upload_limit_exceeded
      else raise token_not_usable

  unfoldable pub after_update : (Token → Bool) → String → ℕ → ℕ → ℕ → Exec Db Token
  unfolding refuse
  after_update by token_type upload_bytes upload_max_bytes affected =
      if eqb affected 1
      then select_token by
      else if ltb 0 upload_bytes && ltb 0 upload_max_bytes
      then attempt (select_token by) (refuse token_type upload_bytes upload_max_bytes)
      else raise token_not_usable

  -- The part that the two methods share: they differ in the column that they look up.
  unfoldable pub reserve_where : (Token → Bool) → String → ℕ → ℕ → ℕ → Exec Db Token
  unfolding after_update update_tokens select_token
  reserve_where by token_type now upload_bytes upload_max_bytes = do
    affected ←
        update_tokens (λ t. by t && usable token_type now upload_bytes upload_max_bytes t)
          (reserved upload_bytes)
    after_update by token_type upload_bytes upload_max_bytes affected

  unfoldable pub reserve_token_use : String → String → ℕ → ℕ → ℕ → Exec Db Token
  unfolding reserve_where
  reserve_token_use hash = reserve_where (has_hash hash)

  unfoldable pub reserve_token_use_by_id : ℕ → String → ℕ → ℕ → ℕ → Exec Db Token
  unfolding reserve_where
  reserve_token_use_by_id id = reserve_where (has_id id)

  abbrev pub is_active : ℕ → Token → Bool
  is_active now t = not t.revoked && (unexpired datetime t.expires_at now && uses_left t)

  unfoldable pub active_tokens : ℕ → Exec Db ℕ
  active_tokens now = statement (λ db. (ok (count (is_active now) db.tokens), db))

  unfoldable pub check_active_limit : ℕ → ℕ → Exec Db (Unit {0})
  unfolding active_tokens
  check_active_limit max_active now =
      if ltb 0 max_active
      then (do
        n ← active_tokens now
        if leb max_active n then raise active_token_limit_reached else pure tt)
      else pure tt

  -- The two times are those of the count and of the new row.
  unfoldable pub create_token_limited : Token → ℕ → ℕ → ℕ → Exec Db ℕ
  unfolding check_active_limit insert_token
  create_token_limited t max_active now created =
      transaction (do check_active_limit max_active now; statement (insert_token t created))

  abbrev pub is_expired : ℕ → Token → Bool
  is_expired now t = is_some t.expires_at && not (unexpired datetime t.expires_at now)

  -- A token goes with its leases.
  unfoldable pub delete_expired_tokens : ℕ → Exec Db (Unit {0})
  unfolding delete_tokens
  delete_expired_tokens now = transaction (do
    statement (λ db. (
      ok tt,
      record db {
        download_leases =
            delete_where (λ l. in_tokens (is_expired now) db l.token_id) db.download_leases;
      },
    ))
    statement (λ db. (
      ok tt,
      record db {
        upload_leases =
            delete_where (λ l. in_tokens (is_expired now) db l.token_id) db.upload_leases;
      },
    ))
    delete_tokens (is_expired now)
    pure tt)

abbrev pub in_dir : String → Token → Bool
in_dir dir_id t = t.dir_id == dir_id

unfoldable pub revoke_dir : String → Exec Db (Unit {0})
unfolding update_tokens delete_upload_leases
revoke_dir dir_id = do
  update_tokens (in_dir dir_id) revoke_row
  statement (λ db. (
    ok tt,
    record db {
      download_leases =
          delete_where (λ l. (l.dir_id == dir_id) || in_tokens (in_dir dir_id) db l.token_id)
            db.download_leases;
    },
  ))
  delete_upload_leases (λ l. l.dir_id == dir_id)

unfoldable pub revoke_dirs : List String → Exec Db (Unit {0})
revoke_dirs [] = pure tt
revoke_dirs (dir_id ∷ dir_ids) = do revoke_dir dir_id; revoke_dirs dir_ids

unfoldable pub revoke_tokens_by_dir_ids_and_leases : List String → Exec Db (Unit {0})
unfolding revoke_dirs revoke_dir
revoke_tokens_by_dir_ids_and_leases dir_ids = transaction (revoke_dirs dir_ids)
