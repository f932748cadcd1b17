-- ===== src/Store/Leases/Reservation.antt =====
-- Using, admitting and removing leases (backend/internal/store/store.go and
-- backend/internal/store/users.go). `datetime` is SQLite's.
use file_transit_desk.Prelude.{
  ℕ, String, ◌==◌, Bool, true, not, ◌&&◌, ◌||◌, Option, none, some, leb, eqb, count, first,
  if◌then◌else◌, is_some,
}
use file_transit_desk.Store.Exec.{Result, ok, err, Exec, pure, raise, statement, ◌>>=◌, no_rows}
use file_transit_desk.Store.Rows.{
  DownloadLease, UploadLease, AccountUser, Db, update_where, delete_where, is_id,
}
use file_transit_desk.Store.Leases.{
  has_upload_hash, has_download_hash, download_outstanding, upload_outstanding,
}

module _ (datetime : ℕ → ℕ) where
  abbrev pub is_active_user : ℕ → AccountUser → Bool
  is_active_user id u = eqb u.id id && (u.status == "active")

  abbrev pub owner_is_active : Db → Option ℕ → Bool
  owner_is_active db none = true
  owner_is_active db (some id) = is_some (first (is_active_user id) db.users)

  abbrev pub reservable : String → ℕ → Db → UploadLease → Bool
  reservable hash now db l =
      has_upload_hash hash l && (upload_outstanding datetime now l && owner_is_active db l.user_id)

  unfoldable pub found_upload : Option UploadLease → Db → Result UploadLease × Db
  found_upload none db = (err no_rows, db)
  found_upload (some l) db = (ok l, db)

  unfoldable pub upload_lease_by_hash : String → Exec Db UploadLease
  unfolding found_upload
  upload_lease_by_hash hash =
      statement (λ db. found_upload (first (has_upload_hash hash) db.upload_leases) db)

  abbrev pub use_lease : ℕ → UploadLease → UploadLease
  use_lease now l = record l { used_at = some now }

  -- A lease is used by one conditional UPDATE.
  unfoldable pub mark_used : String → ℕ → Exec Db ℕ
  mark_used hash now = statement (λ db. (
    ok (count (reservable hash now db) db.upload_leases),
    record db {
      upload_leases = update_where (reservable hash now db) (use_lease now) db.upload_leases;
    },
  ))

  unfoldable pub after_mark : String → ℕ → Exec Db UploadLease
  unfolding upload_lease_by_hash
  after_mark hash affected = if eqb affected 1 then upload_lease_by_hash hash else raise no_rows

  unfoldable pub reserve_upload_lease : String → ℕ → Exec Db UploadLease
  unfolding mark_used after_mark
  reserve_upload_lease hash now = do affected ← mark_used hash now; after_mark hash affected

  unfoldable pub download_lease_by_hash : String → Exec Db DownloadLease
  download_lease_by_hash hash = statement (λ db.
      elim (first (has_download_hash hash) db.download_leases) [
        | none ↦ (err no_rows, db)
        | some l ↦ (ok l, db)
      ])

  unfoldable pub mark_download_lease_first_used : String → ℕ → Exec Db Bool
  mark_download_lease_first_used hash now = do
    updated ← statement (λ db. (
      ok (count (λ l. has_download_hash hash l && not (is_some l.last_used_at)) db.download_leases),
      record db {
        download_leases =
            update_where (λ l. has_download_hash hash l && not (is_some l.last_used_at))
              (λ l. record l { last_used_at = some now }) db.download_leases;
      },
    ))
    pure (eqb updated 1)

  unfoldable pub admit_download_lease : String → ℕ → Exec Db (Unit {0})
  admit_download_lease hash now = statement (λ db.
      elim (first
        (λ l.
          has_download_hash hash l
          && (download_outstanding datetime now l && owner_is_active db l.user_id))
        db.download_leases) [ none ↦ (err no_rows, db) | some l ↦ (ok tt, db) ])

  unfoldable pub delete_expired_download_leases : ℕ → Exec Db (Unit {0})
  delete_expired_download_leases now = statement (λ db. (
    ok tt,
    record db {
      download_leases =
          delete_where (λ l. leb (datetime l.expires_at) (datetime now)) db.download_leases;
    },
  ))

  unfoldable pub delete_expired_upload_leases : ℕ → Exec Db (Unit {0})
  delete_expired_upload_leases now = statement (λ db. (
    ok tt,
    record db {
      upload_leases =
          delete_where (λ l. leb (datetime l.expires_at) (datetime now) || is_some l.used_at)
            db.upload_leases;
    },
  ))

unfoldable pub delete_download_leases_by_token_id : ℕ → Exec Db (Unit {0})
delete_download_leases_by_token_id id = statement (λ db. (
  ok tt,
  record db { download_leases = delete_where (λ l. is_id l.token_id id) db.download_leases },
))

unfoldable pub delete_upload_leases_by_dir_id : String → Exec Db (Unit {0})
delete_upload_leases_by_dir_id dir_id = statement (λ db.
    (ok tt, record db { upload_leases = delete_where (λ l. l.dir_id == dir_id) db.upload_leases }))
