-- ===== src/Store/Tokens.antt =====
-- The share tokens of backend/internal/store/store.go. Limits and sizes are tested for `<= 0` and
-- `> 0` only, so a negative one is 0 here. `datetime` is SQLite's; `parse_int` is strconv.ParseInt in
-- base 10.
pub mod Reservation
pub mod Calls
pub mod Invariant
pub mod Quota
pub mod Exact
pub mod Revoked
use file_transit_desk.Prelude.{
  ℕ, suc, ◌+◌, ◌-◌, String, ◌==◌, Bool, true, false, not, ◌&&◌, ◌||◌, Option, none, some, List, [],
  ◌∷◌, ltb, leb, eqb, count, first, if◌then◌else◌, is_some,
}
use file_transit_desk.Store.Exec.{
  Result, ok, err, Exec, pure, raise, statement, transaction, attempt, ◌>>=◌, ◌>>◌, constraint,
  no_rows, not_a_number, token_not_usable, token_upload_limit_exceeded, active_token_limit_reached,
}
use file_transit_desk.Store.Rows.{
  Token, DownloadLease, UploadLease, Db, update_where, delete_where, is_id, unexpired, ℤ, pos,
  negsuc,
}

abbrev pub has_hash : String → Token → Bool
has_hash hash t = t.hash == hash

abbrev pub has_id : ℕ → Token → Bool
has_id id t = eqb t.id id

abbrev pub fresh_token : Token → ℕ → ℕ → Token
fresh_token t id now = record t {
  id = id;
  uses = 0;
  uploaded_bytes = 0;
  revoked = false;
  created_at = now;
}

-- INSERT INTO tokens …; `token_hash` is UNIQUE. The result is LastInsertId.
unfoldable pub insert_token : Token → ℕ → Db → Result ℕ × Db
insert_token t now db =
    if is_some (first (has_hash t.hash) db.tokens) then (err constraint, db) else (
      ok db.next_token,
      record db {
        tokens = fresh_token t db.next_token now ∷ db.tokens;
        next_token = suc db.next_token;
      },
    )

unfoldable pub create_token : Token → ℕ → Exec Db ℕ
unfolding insert_token
create_token t now = statement (insert_token t now)

-- UPDATE tokens SET … WHERE …, with the number of rows that it changed.
unfoldable pub update_tokens : (Token → Bool) → (Token → Token) → Exec Db ℕ
update_tokens p f =
    statement (λ db. (ok (count p db.tokens), record db { tokens = update_where p f db.tokens }))

unfoldable pub delete_tokens : (Token → Bool) → Exec Db ℕ
delete_tokens p =
    statement (λ db. (ok (count p db.tokens), record db { tokens = delete_where p db.tokens }))

unfoldable pub delete_download_leases : (DownloadLease → Bool) → Exec Db (Unit {0})
delete_download_leases p =
    statement (λ db. (ok tt, record db { download_leases = delete_where p db.download_leases }))

unfoldable pub delete_upload_leases : (UploadLease → Bool) → Exec Db (Unit {0})
delete_upload_leases p =
    statement (λ db. (ok tt, record db { upload_leases = delete_where p db.upload_leases }))

found : Option Token → Db → Result Token × Db
found none db = (err no_rows, db)
found (some t) db = (ok t, db)

unfoldable pub select_token : (Token → Bool) → Exec Db Token
unfolding found
select_token p = statement (λ db. found (first p db.tokens) db)

unfoldable pub token_by_hash : String → Exec Db Token
unfolding select_token
token_by_hash hash = select_token (has_hash hash)

unfoldable pub token_by_id : ℕ → Exec Db Token
unfolding select_token
token_by_id id = select_token (has_id id)

-- `Tokens`: newest first. The rows stand newest first in `db.tokens`.
unfoldable pub tokens : Exec Db (List Token)
tokens = statement (λ db. (ok db.tokens, db))

abbrev pub uses_left : Token → Bool
uses_left t = eqb t.max_uses 0 || ltb t.uses t.max_uses

abbrev pub bytes_left : ℕ → ℕ → Token → Bool
bytes_left upload_bytes upload_max_bytes t =
    eqb upload_max_bytes 0 || leb (t.uploaded_bytes + upload_bytes) upload_max_bytes

abbrev pub reserved : ℕ → Token → Token
reserved upload_bytes t = record t {
  uses = t.uses + 1;
  uploaded_bytes = t.uploaded_bytes + upload_bytes;
}

abbrev pub lower : ℕ → ℕ → ℕ
lower n total = if leb n total then total - n else 0

abbrev pub released : ℕ → Token → Token
released upload_bytes t = record t {
  uses = if ltb 0 t.uses then t.uses - 1 else 0;
  uploaded_bytes = lower upload_bytes t.uploaded_bytes;
}

unfoldable pub release_token_use : ℕ → ℕ → Exec Db ℕ
unfolding update_tokens
release_token_use id upload_bytes = update_tokens (has_id id) (released upload_bytes)

or_limit_exceeded : ℕ → Exec Db (Unit {0})
or_limit_exceeded affected = if eqb affected 1 then pure tt else raise token_upload_limit_exceeded

unfoldable pub adjust_token_uploaded_bytes : ℕ → ℤ → ℕ → Exec Db (Unit {0})
unfolding update_tokens or_limit_exceeded
adjust_token_uploaded_bytes id (negsuc n) upload_max_bytes = do
  update_tokens (has_id id) (λ t. record t { uploaded_bytes = lower (suc n) t.uploaded_bytes })
  pure tt
adjust_token_uploaded_bytes id (pos delta) upload_max_bytes = if eqb delta 0 then pure tt else do
  affected ←
      update_tokens (λ t. has_id id t && bytes_left delta upload_max_bytes t)
        (λ t. record t { uploaded_bytes = t.uploaded_bytes + delta })
  or_limit_exceeded affected

-- An id of a column against a Go integer.
abbrev pub is_number : ℕ → ℤ → Bool
is_number id (pos n) = eqb id n
is_number id (negsuc n) = false

abbrev pub is_null_number : Option ℕ → ℤ → Bool
is_null_number none z = false
is_null_number (some id) z = is_number id z

abbrev pub revoke_row : Token → Token
revoke_row t = record t { revoked = true }

unfoldable pub or_no_rows : ℕ → Exec Db (Unit {0})
or_no_rows affected = if eqb affected 0 then raise no_rows else pure tt

unfoldable pub or_not_a_number : Option ℤ → Exec Db ℤ
or_not_a_number none = raise not_a_number
or_not_a_number (some z) = pure z

unfoldable pub revoke_number : ℤ → Exec Db (Unit {0})
unfolding update_tokens or_no_rows
revoke_number id = do
  affected ← update_tokens (λ t. is_number t.id id) revoke_row
  or_no_rows affected

-- The row whose id a text is: SQLite reads the text as a number for the column's sake, where it is one.
abbrev is_text_id : Option ℤ → Token → Bool
is_text_id none t = false
is_text_id (some z) t = is_number t.id z

-- `as_integer` is the affinity of the column.
unfoldable pub revoke : (String → Option ℤ) → String → Exec Db (Unit {0})
unfolding update_tokens or_no_rows
revoke as_integer id = do
  affected ← update_tokens (is_text_id (as_integer id)) revoke_row
  or_no_rows affected

abbrev pub delete_leases_of : ℤ → Exec Db (Unit {0})
delete_leases_of id = do
  delete_download_leases (λ l. is_null_number l.token_id id)
  delete_upload_leases (λ l. is_null_number l.token_id id)
  pure tt

module _ (parse_int : String → Option ℤ) where
  unfoldable pub revoke_token_and_leases : String → Exec Db (Unit {0})
  unfolding revoke_number or_not_a_number delete_download_leases delete_upload_leases
  revoke_token_and_leases id = do
    number ← or_not_a_number (parse_int id)
    transaction (do revoke_number number; delete_leases_of number)

  unfoldable pub delete_token_and_leases : String → Exec Db (Unit {0})
  unfolding delete_tokens or_no_rows or_not_a_number delete_download_leases delete_upload_leases
  delete_token_and_leases id = do
    number ← or_not_a_number (parse_int id)
    transaction (do
      affected ← delete_tokens (λ t. is_number t.id number)
      or_no_rows affected
      delete_leases_of number)

  unfoldable pub delete_token : String → Exec Db (Unit {0})
  unfolding delete_token_and_leases
  delete_token id = delete_token_and_leases id
