-- ===== src/Store/Leases.antt =====
-- Download and upload leases (backend/internal/store/store.go, and their admission in
-- backend/internal/store/users.go). `datetime` is SQLite's.
pub mod Reservation
pub mod Limits
pub mod SingleUse
use file_transit_desk.Prelude.{
  ℕ, suc, ◌+◌, String, ◌==◌, Bool, true, false, not, ◌&&◌, ◌||◌, Option, none, some, List, [], ◌∷◌,
  ltb, leb, eqb, count, first, if◌then◌else◌, is_some,
}
use file_transit_desk.Store.Exec.{
  Result, ok, err, Exec, pure, raise, statement, transaction, ◌>>=◌, ◌>>◌, constraint, no_rows,
  outstanding_lease_limit,
}
use file_transit_desk.Store.Rows.{
  DownloadLease, UploadLease, AccountUser, Db, update_where, delete_where, is_id,
}
use file_transit_desk.Store.Sessions.{session_lease_owner}

abbrev pub has_upload_hash : String → UploadLease → Bool
has_upload_hash hash l = l.hash == hash

abbrev pub has_download_hash : String → DownloadLease → Bool
has_download_hash hash l = l.hash == hash

abbrev pub or_now : ℕ → ℕ → ℕ
or_now t now = if eqb t 0 then now else t

abbrev pub or_session : String → String
or_session source = if source == "" then "session" else source

-- INSERT INTO upload_leases …; `lease_hash` is UNIQUE. The result is LastInsertId.
unfoldable pub insert_upload_lease : UploadLease → ℕ → Db → Result ℕ × Db
insert_upload_lease l now db =
    if is_some (first (has_upload_hash l.hash) db.upload_leases) then (err constraint, db) else (
      ok db.next_upload_lease,
      record db {
        upload_leases =
            record l {
              id = db.next_upload_lease;
              created_at = or_now l.created_at now;
              used_at = none;
            }
            ∷ db.upload_leases;
        next_upload_lease = suc db.next_upload_lease;
      },
    )

unfoldable pub insert_download_lease : DownloadLease → ℕ → Db → Result ℕ × Db
insert_download_lease l now db =
    if is_some (first (has_download_hash l.hash) db.download_leases)
    then (err constraint, db)
    else (
      ok db.next_download_lease,
      record db {
        download_leases =
            record l {
              id = db.next_download_lease;
              created_at = or_now l.created_at now;
              last_used_at = none;
            }
            ∷ db.download_leases;
        next_download_lease = suc db.next_download_lease;
      },
    )

unfoldable pub create_upload_lease : UploadLease → ℕ → Exec Db ℕ
unfolding insert_upload_lease
create_upload_lease l now =
    statement (insert_upload_lease (record l { source = or_session l.source }) now)

unfoldable pub create_download_lease : DownloadLease → ℕ → Exec Db ℕ
unfolding insert_download_lease
create_download_lease l now = statement (insert_download_lease l now)

-- A nullable column against a nullable argument.
abbrev pub same_id : Option ℕ → Option ℕ → Bool
same_id column none = false
same_id column (some id) = is_id column id

abbrev pub same_text : Option String → String → Bool
same_text none s = false
same_text (some t) s = t == s

abbrev pub text_of : Option String → String
text_of none = ""
text_of (some s) = s

module _ (datetime : ℕ → ℕ) where
  abbrev pub download_outstanding : ℕ → DownloadLease → Bool
  download_outstanding now l = ltb (datetime now) (datetime l.expires_at)

  abbrev pub upload_outstanding : ℕ → UploadLease → Bool
  upload_outstanding now l = ltb (datetime now) (datetime l.expires_at) && not (is_some l.used_at)

  -- The WHERE clauses of an owner: of a session, or of a public token.
  abbrev pub download_owned : String → String → Option ℕ → DownloadLease → Bool
  download_owned source session_id token_id l =
      if source == "session"
      then (l.source == "session") && same_text l.session_id session_id
      else (l.source == "public_token") && same_id l.token_id token_id

  abbrev pub upload_owned : String → String → Option ℕ → UploadLease → Bool
  upload_owned source session_id token_id l =
      if source == "session"
      then (l.source == "session") && (l.session_id == session_id)
      else (l.source == "public_token") && same_id l.token_id token_id

  abbrev pub outstanding : ℕ → Db → ℕ
  outstanding now db =
      count (download_outstanding now) db.download_leases
      + count (upload_outstanding now) db.upload_leases

  abbrev pub owner_downloads : String → String → Option ℕ → ℕ → Db → ℕ
  owner_downloads source session_id token_id now db =
      count (λ l. download_owned source session_id token_id l && download_outstanding now l)
        db.download_leases

  abbrev pub owner_uploads : String → String → Option ℕ → ℕ → Db → ℕ
  owner_uploads source session_id token_id now db =
      count (λ l. upload_owned source session_id token_id l && upload_outstanding now l)
        db.upload_leases

  unfoldable pub check_total : ℕ → ℕ → Exec Db (Unit {0})
  check_total max_total now =
      if ltb 0 max_total
      then (do
        total ← statement (λ db. (ok (outstanding now db), db))
        if leb max_total total then raise outstanding_lease_limit else pure tt)
      else pure tt

  unfoldable pub check_owner : String → String → Option ℕ → ℕ → ℕ → Exec Db (Unit {0})
  check_owner source session_id token_id max_owner now =
      if ltb 0 max_owner
      then (do
        downloads ← statement (λ db. (ok (owner_downloads source session_id token_id now db), db))
        uploads ← statement (λ db. (ok (owner_uploads source session_id token_id now db), db))
        if leb max_owner (downloads + uploads) then raise outstanding_lease_limit else pure tt)
      else pure tt

  unfoldable pub create_lease_limited :
      String → String → Option ℕ → ℕ → ℕ → ℕ → Exec Db ℕ → Exec Db ℕ
  unfolding check_total check_owner
  create_lease_limited source session_id token_id max_total max_owner now insert =
      transaction
        (do check_total max_total now; check_owner source session_id token_id max_owner now; insert)

  -- The three times are those of the limits, of the session check and of the new row.
  unfoldable pub create_upload_lease_limited : UploadLease → ℕ → ℕ → ℕ → ℕ → ℕ → Exec Db ℕ
  unfolding create_lease_limited session_lease_owner insert_upload_lease
  create_upload_lease_limited l max_total max_owner now checked created =
      let source : String = or_session l.source in
      create_lease_limited source l.session_id l.token_id max_total max_owner now (do
        owner ← session_lease_owner datetime source l.session_id checked
        statement (insert_upload_lease (record l { source = source; user_id = owner }) created))

  unfoldable pub create_download_lease_limited : DownloadLease → ℕ → ℕ → ℕ → ℕ → ℕ → Exec Db ℕ
  unfolding create_lease_limited session_lease_owner insert_download_lease
  create_download_lease_limited l max_total max_owner now checked created =
      let source : String = or_session l.source in
      create_lease_limited source (text_of l.session_id) l.token_id max_total max_owner now (do
        owner ← session_lease_owner datetime source (text_of l.session_id) checked
        statement (
            insert_download_lease
              (record l {
                source = source;
                file_sha256 = some (text_of l.file_sha256);
                user_id = owner;
              })
              created))
