-- ===== src/Store/Leases/SingleUse.antt =====
-- Reserving an upload lease, over histories (backend/internal/store/store.go).
use file_transit_desk.Prelude.{
  ℕ, ◌≤◌, String, ◌==◌, ◌≡◌, ◌≢◌, refl, ap, subst, ◌⊎◌, inl, inr, true, false, Option, List, [],
  ◌∷◌, arith, All, count, eqb, is_some, Bool-cases,
}
use file_transit_desk.Store.Exec.{ok, World, Exec, raise, statement}
use file_transit_desk.Store.Exec.Success.{statement_ok, bind_ok}
use file_transit_desk.Store.Exec.Keeps.{
  Keeps, Keeps-pure, Keeps-raise, Keeps-statement, Keeps-transaction, Keeps-if, Keeps-bind,
  keeps_rules,
}
use file_transit_desk.Store.Rows.{UploadLease, Db, update_where, All-update_where, All-delete_where}
use file_transit_desk.Store.Sessions.{session_lease_owner, owner_row}
use file_transit_desk.Store.Leases.{
  has_upload_hash, insert_upload_lease, create_upload_lease, create_upload_lease_limited,
  create_lease_limited, check_total, check_owner, or_session,
}
use file_transit_desk.Store.Leases.Reservation.{
  reservable, use_lease, mark_used, after_mark, upload_lease_by_hash, found_upload,
  reserve_upload_lease, delete_expired_upload_leases, delete_upload_leases_by_dir_id,
}

-- A call on the upload leases, with the times that it reads.
pub data LeaseCall : Type 0 where
  creates : UploadLease → ℕ → LeaseCall
  creates_limited : UploadLease → ℕ → ℕ → ℕ → ℕ → ℕ → LeaseCall
  reserves : String → ℕ → LeaseCall
  expires : ℕ → LeaseCall
  drops_dir : String → LeaseCall

module _ (datetime : ℕ → ℕ) where
  unfoldable pub lease_step : World Db → LeaseCall → World Db
  lease_step w (creates l now) = (create_upload_lease l now w).1
  lease_step w (creates_limited l max_total max_owner now checked created) =
      (create_upload_lease_limited datetime l max_total max_owner now checked created w).1
  lease_step w (reserves hash now) = (reserve_upload_lease datetime hash now w).1
  lease_step w (expires now) = (delete_expired_upload_leases datetime now w).1
  lease_step w (drops_dir dir_id) = (delete_upload_leases_by_dir_id dir_id w).1

  unfoldable pub lease_run : World Db → List LeaseCall → World Db
  unfolding lease_step
  lease_run w [] = w
  lease_run w (c ∷ cs) = lease_run (lease_step w c) cs

-- The call does not issue a lease of that hash: hashes are of random tokens.
abbrev pub IssuesOther : String → LeaseCall → Type 0
IssuesOther hash (creates l _) = (l.hash == hash) ≡ false
IssuesOther hash (creates_limited l _ _ _ _ _) = (l.hash == hash) ≡ false
IssuesOther hash (reserves _ _) = Unit {0}
IssuesOther hash (expires _) = Unit {0}
IssuesOther hash (drops_dir _) = Unit {0}

-- The lease of that hash, if it is there, is used.
abbrev IsUsed : String → UploadLease → Type 0
IsUsed hash l = ((l.hash == hash) ≡ false) ⊎ (is_some l.used_at ≡ true)

abbrev AllUsed : String → Db → Type 0
AllUsed hash db = All (IsUsed hash) db.upload_leases

module _ (datetime : ℕ → ℕ) (hash : String) where
  insert-AllUsed :
      (l : UploadLease) (now : ℕ)
      → (l.hash == hash) ≡ false
      → Keeps (AllUsed hash) (statement (insert_upload_lease l now))
  unfolding insert_upload_lease
  insert-AllUsed l now n = Keeps-statement _ (λ db a. ground (arith, a))

  mark-AllUsed : (h : String) (now : ℕ) → Keeps (AllUsed hash) (mark_used datetime h now)
  unfolding mark_used
  mark-AllUsed h now = Keeps-statement _ (λ db a.
      All-update_where (IsUsed hash) (reservable datetime h now db) (use_lease datetime now)
        db.upload_leases (λ x u k. inr refl) a)

  found-AllUsed : (h : String) (n : ℕ) → Keeps (AllUsed hash) (after_mark datetime h n)
  unfolding after_mark upload_lease_by_hash found_upload
  found-AllUsed h n = Keeps-if _ _ _ (Keeps-statement _ (λ db a. ground arith)) (Keeps-raise _)

  checks-AllUsed :
      (source session_id : String) (token_id : Option ℕ) (max_total max_owner now : ℕ)
      (m : Exec Db ℕ)
      → Keeps (AllUsed hash) m
      → Keeps
          (AllUsed hash)
          (create_lease_limited datetime source session_id token_id max_total max_owner now m)
  unfolding create_lease_limited check_total check_owner
  checks-AllUsed source session_id token_id max_total max_owner now m k = Keeps-transaction _ (
      Keeps-bind _ _ (search keeps_rules depth 8)
        (λ _. Keeps-bind _ _ (search keeps_rules depth 10) (λ _. k)))

  owner-AllUsed :
      (source session_id : String) (now : ℕ)
      → Keeps (AllUsed hash) (session_lease_owner datetime source session_id now)
  unfolding session_lease_owner owner_row
  owner-AllUsed source session_id now =
      Keeps-if _ _ _ (Keeps-statement _ (λ db a. ground arith)) (Keeps-pure _)

  lease_step-AllUsed :
      (w : World Db) (c : LeaseCall)
      → IssuesOther hash c
      → AllUsed hash w.db
      → AllUsed hash (lease_step datetime w c).db
  unfolding lease_step create_upload_lease create_upload_lease_limited reserve_upload_lease
      delete_expired_upload_leases delete_upload_leases_by_dir_id
  lease_step-AllUsed w (creates l now) n a =
      (insert-AllUsed (record l { source = or_session l.source }) now n).at w a
  lease_step-AllUsed w (creates_limited l max_total max_owner now checked created) n a =
      (checks-AllUsed _ _ _ max_total max_owner now _ (
          Keeps-bind _ _ (owner-AllUsed _ _ checked) (λ o.
            insert-AllUsed (record l { source = or_session l.source; user_id = o }) created n))).at
        w a
  lease_step-AllUsed w (reserves h now) n a =
      (Keeps-bind _ _ (mark-AllUsed h now) (found-AllUsed h)).at w a
  lease_step-AllUsed w (expires now) n a =
      (Keeps-statement {P = AllUsed hash} _
          (λ db k. All-delete_where (IsUsed hash) _ db.upload_leases k)).at
        w a
  lease_step-AllUsed w (drops_dir dir_id) n a =
      (Keeps-statement {P = AllUsed hash} _
          (λ db k. All-delete_where (IsUsed hash) _ db.upload_leases k)).at
        w a

  lease_run-AllUsed :
      (w : World Db) (cs : List LeaseCall)
      → All (IssuesOther hash) cs
      → AllUsed hash w.db
      → AllUsed hash (lease_run datetime w cs).db
  unfolding lease_run
  lease_run-AllUsed w [] n a = a
  lease_run-AllUsed w (c ∷ cs) n a =
      lease_run-AllUsed (lease_step datetime w c) cs n.1 (lease_step-AllUsed w c n.0 a)

  none_reservable :
      (now : ℕ) (db : Db) (xs : List UploadLease)
      → All (IsUsed hash) xs
      → count (reservable datetime hash now db) xs ≡ 0
  unfolding count
  none_reservable now db [] a = refl
  none_reservable now db (x ∷ xs) a = ground (arith, none_reservable now db xs a.1)

  reservable-le :
      (now : ℕ) (db : Db) (xs : List UploadLease)
      → count (reservable datetime hash now db) xs ≤ count (has_upload_hash hash) xs
  unfolding count
  reservable-le now db [] = omega arith
  reservable-le now db (x ∷ xs) = ground (arith, reservable-le now db xs)

  absent :
      (now : ℕ) (db : Db) (xs : List UploadLease)
      → count (has_upload_hash hash) xs ≡ 0
      → All
          (IsUsed hash)
          (update_where (reservable datetime hash now db) (use_lease datetime now) xs)
  unfolding count update_where
  absent now db [] c = tt
  absent now db (x ∷ xs) c = ground (arith, absent now db xs)

  -- The one row of the hash that an UPDATE changes is used afterwards.
  marked :
      (now : ℕ) (db : Db) (xs : List UploadLease)
      → count (has_upload_hash hash) xs ≤ 1
      → count (reservable datetime hash now db) xs ≡ 1
      → All
          (IsUsed hash)
          (update_where (reservable datetime hash now db) (use_lease datetime now) xs)
  unfolding count update_where
  marked now db [] u c = tt
  marked now db (x ∷ xs) u c = elim (Bool-cases (has_upload_hash hash x)) [
    | inl e ↦ elim (Bool-cases (reservable datetime hash now db x)) [
      | inl f ↦ (rw f (inr refl), absent now db xs (ground (arith, e)))
      | inr f ↦ absurd (ground (arith, e, f, reservable-le now db xs))
    ]
    | inr e ↦ ground (arith, e, marked now db xs)
  ]

  after_mark_ok :
      (n : ℕ) (w : World Db) (l : UploadLease) → (after_mark datetime hash n w).0 ≡ ok l → n ≡ 1
  unfolding after_mark raise
  after_mark_ok n w l = elim (Bool-cases (eqb n 1)) [
    | inl e ↦ λ h. ground arith
    | inr e ↦ rw e (λ h. cc)
  ]

  reserve_used :
      (w : World Db) (now : ℕ) (l : UploadLease)
      → AllUsed hash w.db
      → (reserve_upload_lease datetime hash now w).0 ≢ ok l
  unfolding reserve_upload_lease mark_used
  reserve_used w now l a h =
      let b = bind_ok _ _ w l h in
      let u = statement_ok _ w b.value b.first in
      let one_row = after_mark_ok b.value _ l b.second in
      ground (arith, u, one_row, none_reservable now w.db w.db.upload_leases a)

  reserve-AllUsed :
      (w : World Db) (now : ℕ) (l : UploadLease)
      → count (has_upload_hash hash) w.db.upload_leases ≤ 1
      → (reserve_upload_lease datetime hash now w).0 ≡ ok l
      → AllUsed hash (reserve_upload_lease datetime hash now w).1.db
  unfolding reserve_upload_lease mark_used
  reserve-AllUsed w now l c h =
      let b = bind_ok _ _ w l h in
      let u = statement_ok _ w b.value b.first in
      let one_row = after_mark_ok b.value _ l b.second in
      let left : AllUsed hash (mark_used datetime hash now w).1.db =
        subst (λ x. AllUsed hash x) (ap (λ x. x.1) u)
          (marked now w.db w.db.upload_leases c (ground (arith, u, one_row))) in
      rw b.left ((found-AllUsed hash b.value).at _ left)

  -- An upload lease is used at most once: when its reservation has succeeded, no later one does,
  -- whatever calls are made on the upload leases since, in any order and with any of the driver's
  -- calls failing, if the hash was that of at most one row and no call issues it anew.
  pub reserved_once :
      (w : World Db) (cs : List LeaseCall) (now later : ℕ) (l l' : UploadLease)
      → count (has_upload_hash hash) w.db.upload_leases ≤ 1
      → (reserve_upload_lease datetime hash now w).0 ≡ ok l
      → All (IssuesOther hash) cs
      → (reserve_upload_lease datetime hash later
          (lease_run datetime (reserve_upload_lease datetime hash now w).1 cs)).0
        ≢ ok l'
  reserved_once w cs now later l l' c h n = reserve_used _ later l' (
      lease_run-AllUsed (reserve_upload_lease datetime hash now w).1 cs n
        (reserve-AllUsed w now l c h))
