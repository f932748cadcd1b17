-- ===== src/Store/Leases/Limits.antt =====
-- The admission limits on outstanding leases (createLeaseLimited of backend/internal/store/store.go).
use file_transit_desk.Prelude.{
  ℕ, ◌+◌, ◌<◌, ◌≤◌, subst, ◌∙◌, String, ◌≡◌, refl, ◌⊎◌, Option, some, arith, count,
}
use file_transit_desk.Store.Exec.{ok, World, Exec, statement, ◌>>=◌}
use file_transit_desk.Store.Exec.Success.{statement_ok, transaction_ok, bind_ok}
use file_transit_desk.Store.Rows.{DownloadLease, UploadLease, Db}
use file_transit_desk.Store.Leases.{
  outstanding, owner_downloads, owner_uploads, check_total, check_owner, create_lease_limited,
  insert_upload_lease, insert_download_lease, create_upload_lease_limited,
  create_download_lease_limited, or_session, text_of,
}
use file_transit_desk.Store.Exec.Keeps.{Keeps, Keeps-pure, Keeps-statement, Keeps-if}
use file_transit_desk.Store.Sessions.{session_lease_owner, owner_row}

module _ (datetime : ℕ → ℕ) where
  abbrev LeavesRoom : ℕ → ℕ → Type 0
  LeavesRoom limit n = (limit ≡ 0) ⊎ (n < limit)

  -- A limit of 0 is no limit.
  abbrev pub IsCapped : ℕ → ℕ → Type 0
  IsCapped limit n = (limit ≡ 0) ⊎ (n ≤ limit)

  -- The outstanding leases of an owner.
  abbrev pub owned : String → String → Option ℕ → ℕ → Db → ℕ
  owned source session_id token_id now db =
      owner_downloads datetime source session_id token_id now db
      + owner_uploads datetime source session_id token_id now db

  check_total_ok :
      (max_total now : ℕ) (w : World Db) (v : Unit {0})
      → (check_total datetime max_total now w).0 ≡ ok v
      → LeavesRoom max_total (outstanding datetime now w.db)
        × ((check_total datetime max_total now w).1.db ≡ w.db)
  unfolding check_total ◌>>=◌
  check_total_ok max_total now w v h = (ground (arith, h), ground (arith, h))

  check_owner_ok :
      (source session_id : String) (token_id : Option ℕ) (max_owner now : ℕ) (w : World Db)
      (v : Unit {0})
      → (check_owner datetime source session_id token_id max_owner now w).0 ≡ ok v
      → LeavesRoom max_owner (owned source session_id token_id now w.db)
        × ((check_owner datetime source session_id token_id max_owner now w).1.db ≡ w.db)
  unfolding check_owner ◌>>=◌
  check_owner_ok source session_id token_id max_owner now w v h =
      (ground (arith, h), ground (arith, h))

  abbrev GrewByOne : String → String → Option ℕ → ℕ → Db → Db → Type 0
  GrewByOne source session_id token_id now after before =
      (outstanding datetime now after ≤ outstanding datetime now before + 1)
      × (owned source session_id token_id now after
          ≤ owned source session_id token_id now before + 1)

  -- A creation adds one lease at most.
  record AddsOne (source session_id : String) (token_id : Option ℕ) (now : ℕ) (m : Exec Db ℕ)
      : Type 0 where
    at :
        (w : World Db) (v : ℕ)
        → (m w).0 ≡ ok v
        → GrewByOne source session_id token_id now (m w).1.db w.db

  limited-IsCapped :
      (source session_id : String) (token_id : Option ℕ) (max_total max_owner now : ℕ)
      (m : Exec Db ℕ) (w : World Db) (v : ℕ)
      → AddsOne source session_id token_id now m
      → (create_lease_limited datetime source session_id token_id max_total max_owner now m w).0
        ≡ ok v
      → let db =
          (create_lease_limited datetime source session_id token_id max_total max_owner now m
            w).1.db in
        IsCapped max_total (outstanding datetime now db)
        × IsCapped max_owner (owned source session_id token_id now db)
  unfolding create_lease_limited
  limited-IsCapped source session_id token_id max_total max_owner now m w v one h =
      let c = transaction_ok _ w v h in
      let b = bind_ok _ _ c.start v c.result in
      let y : World Db = (check_total datetime max_total now c.start).1 in
      let t = check_total_ok max_total now c.start b.value b.first in
      let d = bind_ok _ _ y v b.second in
      let z : World Db = (check_owner datetime source session_id token_id max_owner now y).1 in
      let o = check_owner_ok source session_id token_id max_owner now y d.value d.first in
      rw (c.left, b.left, d.left)
        (limits c.start.db (m z).1.db t.0
          (subst (λ db. LeavesRoom max_owner (owned source session_id token_id now db)) t.1 o.0)
          (subst (GrewByOne source session_id token_id now (m z).1.db) (o.1 ∙ t.1)
            (one.at z v d.second)))
    where
      limits :
          (x q : Db)
          → LeavesRoom max_total (outstanding datetime now x)
          → LeavesRoom max_owner (owned source session_id token_id now x)
          → GrewByOne source session_id token_id now q x
          → IsCapped max_total (outstanding datetime now q)
            × IsCapped max_owner (owned source session_id token_id now q)
      limits x q t o a = (ground (arith, t, a), ground (arith, o, a))

  owner_same :
      (source session_id : String) (checked : ℕ) (db : Db)
      → Keeps (λ x. x ≡ db) (session_lease_owner datetime source session_id checked)
  unfolding session_lease_owner owner_row
  owner_same source session_id checked db =
      Keeps-if _ _ _ (Keeps-statement _ (λ x e. ground arith)) (Keeps-pure _)

  module _ (source session_id : String) (token_id : Option ℕ) (now created : ℕ) where
    insert_upload-AddsOne :
        (l : UploadLease)
        → AddsOne source session_id token_id now (statement (insert_upload_lease l created))
    unfolding insert_upload_lease count
    insert_upload-AddsOne l = record { at = λ w v h. added w.db _ v (statement_ok _ w v h) }
      where
        added :
            (db q : Db) (v : ℕ)
            → insert_upload_lease l created db ≡ (ok v, q)
            → GrewByOne source session_id token_id now q db
        added db q v h = (ground (arith, h), ground (arith, h))

    insert_download-AddsOne :
        (l : DownloadLease)
        → AddsOne source session_id token_id now (statement (insert_download_lease l created))
    unfolding insert_download_lease count
    insert_download-AddsOne l = record { at = λ w v h. added w.db _ v (statement_ok _ w v h) }
      where
        added :
            (db q : Db) (v : ℕ)
            → insert_download_lease l created db ≡ (ok v, q)
            → GrewByOne source session_id token_id now q db
        added db q v h = (ground (arith, h), ground (arith, h))

    for_owner :
        (checked : ℕ) (f : Option ℕ → Exec Db ℕ)
        → ((o : Option ℕ) → AddsOne source session_id token_id now (f o))
        → AddsOne source session_id token_id now
            (session_lease_owner datetime source session_id checked >>= f)
    for_owner checked f one = record {
      at = λ w v h.
          let b = bind_ok _ _ w v h in
          rw b.left (
            subst
              (GrewByOne source session_id token_id now
                (f b.value (session_lease_owner datetime source session_id checked w).1).1.db)
              ((owner_same source session_id checked w.db).at w refl)
              ((one b.value).at _ v b.second));
    }

  -- A limited creation of an upload lease that succeeds leaves no more outstanding leases, in all
  -- and of its owner, than the limits that are set, as of the time at which it counted them,
  -- whichever calls of the driver fail.
  pub create_upload_lease_limited-IsCapped :
      (l : UploadLease) (max_total max_owner now checked created : ℕ) (w : World Db) (v : ℕ)
      → (create_upload_lease_limited datetime l max_total max_owner now checked created w).0 ≡ ok v
      → let db =
          (create_upload_lease_limited datetime l max_total max_owner now checked created w).1.db in
        IsCapped max_total (outstanding datetime now db)
        × IsCapped max_owner (owned (or_session l.source) l.session_id l.token_id now db)
  unfolding create_upload_lease_limited
  create_upload_lease_limited-IsCapped l max_total max_owner now checked created w v h =
      limited-IsCapped (or_session l.source) l.session_id l.token_id max_total max_owner now _ w v
        (for_owner (or_session l.source) l.session_id l.token_id now created checked _ (λ o.
          insert_upload-AddsOne _ _ _ now created
            (record l { source = or_session l.source; user_id = o })))
        h

  -- A limited creation of a download lease that succeeds leaves no more outstanding leases, in all
  -- and of its owner, than the limits that are set, as of the time at which it counted them.
  pub create_download_lease_limited-IsCapped :
      (l : DownloadLease) (max_total max_owner now checked created : ℕ) (w : World Db) (v : ℕ)
      → (create_download_lease_limited datetime l max_total max_owner now checked created w).0
        ≡ ok v
      → let db =
          (create_download_lease_limited datetime l max_total max_owner now checked created
            w).1.db in
        IsCapped max_total (outstanding datetime now db)
        × IsCapped max_owner (owned (or_session l.source) (text_of l.session_id) l.token_id now db)
  unfolding create_download_lease_limited
  create_download_lease_limited-IsCapped l max_total max_owner now checked created w v h =
      limited-IsCapped (or_session l.source) (text_of l.session_id) l.token_id max_total max_owner
        now _ w v
        (for_owner (or_session l.source) (text_of l.session_id) l.token_id now created checked _
          (λ o. insert_download-AddsOne _ _ _ now created (record l {
            source = or_session l.source;
            file_sha256 = some (text_of l.file_sha256);
            user_id = o;
          })))
        h
