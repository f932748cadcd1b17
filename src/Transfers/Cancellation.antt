-- ===== src/Transfers/Cancellation.antt =====
-- Cancelling by resource and by transfer (backend/internal/server/transfers.go).
pub mod Requests
use file_transit_desk.Prelude.{
  ℕ, String, ◌==◌, eq_iff, eq_refl, ◌≡◌, ◌≢◌, refl, subst, ◌∙◌, inl, inr, true, false, Option, none,
  some, List, [], ◌∷◌, arith, contains, Dict, get, put, has, size, values, map_values, get-put,
  get-map_values, HasNoDup, put-HasNoDup, Bool-cases, Option-cases, if◌then◌else◌, ap,
}
use file_transit_desk.Transfers.Types.{
  UploadPermit, TransferRecord, TransferRegistry, refused, scoped_capacity,
}
use file_transit_desk.Transfers.Permits.{bind_upload_permit, has_bound_upload_permit}
use file_transit_desk.Transfers.Records.{
  cancel_uploads_by_dir_ids, cancel_transfer, record_callbacks, permit_callbacks, mark_permit,
  mark_record, permit_hit, upload_hit, add_callback, request_key, can_cancel, start_canceling,
}

-- No live permit is registered under the id.
abbrev pub IsRevoked : String → TransferRegistry → Type 0
IsRevoked id r = (u : UploadPermit) → get id r.permits ≡ some u → u.canceling ≡ true

-- A revoked permit is bound to nothing and can be bound to nothing.
pub revoked_refused :
    (r : TransferRegistry) (id d f : String) (limit : ℕ)
    → IsRevoked id r
    → (has_bound_upload_permit r id d f ≡ false)
      × (bind_upload_permit r id d f limit ≡ refused scoped_capacity)
unfolding has_bound_upload_permit bind_upload_permit
revoked_refused r id d f limit v = elim (Option-cases (get id r.permits)) [
  | inl e ↦ (ground (arith, e), ground (arith, e))
  | inr (u, e) ↦ (ground (arith, e, v u e), ground (arith, e, v u e))
]

-- Cancelling the uploads of some resources revokes every permit that is bound to one of them.
pub cancel_uploads-IsRevoked :
    (r : TransferRegistry) (wanted : List String) (now : ℕ) (id : String) (u : UploadPermit)
    → get id r.permits ≡ some u
    → contains wanted u.dir_id ≡ true
    → IsRevoked id (cancel_uploads_by_dir_ids r wanted now).0
unfolding cancel_uploads_by_dir_ids
cancel_uploads-IsRevoked r wanted now id u e h w g =
    ground (arith, get-map_values (mark_permit wanted) id r.permits)

module _ (wanted : List String) (now now' : ℕ) where
  marked_records :
      (recs : Dict TransferRecord) (callbacks : Dict ℕ)
      → record_callbacks wanted (values (map_values (mark_record wanted now) recs)) callbacks
        ≡ callbacks
  unfolding record_callbacks values map_values
  marked_records [] callbacks = refl
  marked_records ((id, rec) ∷ recs) callbacks = ground (arith, marked_records recs callbacks)

  marked_permits :
      (permits : Dict UploadPermit) (callbacks : Dict ℕ)
      → permit_callbacks wanted (map_values (mark_permit wanted) permits) callbacks ≡ callbacks
  unfolding permit_callbacks map_values
  marked_permits [] callbacks = refl
  marked_permits ((id, permit) ∷ permits) callbacks =
      ground (arith, marked_permits permits callbacks)

  -- Cancelling the same resources again at once calls nobody back.
  cancel_uploads_twice :
      (r : TransferRegistry)
      → let again =
          cancel_uploads_by_dir_ids (cancel_uploads_by_dir_ids r wanted now).0 wanted now' in
        (again.1 ≡ []) × (again.2 ≡ 0)
  unfolding cancel_uploads_by_dir_ids size
  cancel_uploads_twice r = (none_left, ap size none_left)
    where
      none_left :
          permit_callbacks wanted
            (map_values (mark_permit wanted) r.permits)
            (record_callbacks wanted (values (map_values (mark_record wanted now) r.records)) [])
          ≡ []
      none_left = marked_permits r.permits _ ∙ marked_records r.records []

has-put : (k j : String) (c : ℕ) (m : Dict ℕ) → has j m ≡ true → has j (put k c m) ≡ true
has-put k j c m h = ground (arith, get-put k j c m)

has-put_self : (k : String) (c : ℕ) (m : Dict ℕ) → has k (put k c m) ≡ true
has-put_self k c m = ground (arith, get-put k k c m, eq_refl k)

add_callback-has :
    (k : String) (o : Option ℕ) (j : String) (m : Dict ℕ)
    → has j m ≡ true
    → has j (add_callback k o m) ≡ true
add_callback-has k none j m h = h
add_callback-has k (some c) j m h = ground (arith, has-put k j c m)

add_callback-has_self : (k : String) (c : ℕ) (m : Dict ℕ) → has k (add_callback k (some c) m) ≡ true
add_callback-has_self k c m = ground (arith, has-put_self k c m)

module _ (wanted : List String) where
  permit_callbacks-has :
      (j : String) (permits : Dict UploadPermit) (m : Dict ℕ)
      → has j m ≡ true
      → has j (permit_callbacks wanted permits m) ≡ true
  unfolding permit_callbacks
  permit_callbacks-has j [] m h = h
  permit_callbacks-has j ((id, p) ∷ permits) m h =
      permit_callbacks-has j permits _ (ground (arith, add_callback-has id p.cancel j m))

  record_callbacks-has :
      (j : String) (recs : List TransferRecord) (m : Dict ℕ)
      → has j m ≡ true
      → has j (record_callbacks wanted recs m) ≡ true
  unfolding record_callbacks
  record_callbacks-has j [] m h = h
  record_callbacks-has j (rec ∷ recs) m h =
      record_callbacks-has j recs _
        (ground (arith, add_callback-has (request_key rec) rec.cancel j m))

  permit_callbacks_complete :
      (id : String) (u : UploadPermit) (c : ℕ) (permits : Dict UploadPermit) (m : Dict ℕ)
      → get id permits ≡ some u
      → permit_hit wanted u ≡ true
      → u.cancel ≡ some c
      → has id (permit_callbacks wanted permits m) ≡ true
  unfolding permit_callbacks get
  permit_callbacks_complete id u c [] m e h k = cc
  permit_callbacks_complete id u c ((j, p) ∷ permits) m e h k = elim (Bool-cases (j == id)) [
    | inl same ↦
        permit_callbacks-has id permits _
          (ground (arith, same, eq_iff j id, add_callback-has_self id c m))
    | inr other ↦ permit_callbacks_complete id u c permits _ (ground (arith, other)) h k
  ]

  hit_has :
      (r rec : TransferRecord) (m : Dict ℕ)
      → rec ≡ r
      → upload_hit wanted rec ≡ true
      → has
          (request_key rec)
          (if upload_hit wanted r then add_callback (request_key r) r.cancel m else m)
        ≡ true
  hit_has r rec m same h =
      subst
        (λ x.
          has (request_key rec)
            (if upload_hit wanted x then add_callback (request_key x) x.cancel m else m)
          ≡ true)
        same
        (elim (Option-cases rec.cancel) [
          | inl e ↦ ground arith
          | inr (c, e) ↦ ground (arith, e, add_callback-has_self (request_key rec) c m)
        ])

  record_callbacks_complete :
      (id : String) (rec : TransferRecord) (recs : Dict TransferRecord) (m : Dict ℕ)
      → get id recs ≡ some rec
      → upload_hit wanted rec ≡ true
      → has (request_key rec) (record_callbacks wanted (values recs) m) ≡ true
  unfolding record_callbacks get values
  record_callbacks_complete id rec [] m e h = cc
  record_callbacks_complete id rec ((j, r) ∷ recs) m e h = elim (Bool-cases (j == id)) [
    | inl same ↦
        record_callbacks-has (request_key rec) (values recs) _
          (hit_has r rec m (ground (arith, same)) h)
    | inr other ↦ record_callbacks_complete id rec recs _ (ground (arith, other)) h
  ]

module _ (r : TransferRegistry) (wanted : List String) (now : ℕ) where
  -- A cancellation by resources calls back the request of every permit that is live, bound to one of
  -- them and has a cancel function.
  pub permit_called_back :
      (id : String) (u : UploadPermit) (c : ℕ)
      → get id r.permits ≡ some u
      → contains wanted u.dir_id ≡ true
      → u.canceling ≡ false
      → u.cancel ≡ some c
      → has id (cancel_uploads_by_dir_ids r wanted now).1 ≡ true
  unfolding cancel_uploads_by_dir_ids
  permit_called_back id u c e w live k =
      permit_callbacks_complete wanted id u c r.permits _ e (ground arith) k

-- A transfer that is cancelled had a cancel function to call, and a second call right after is
-- refused and changes nothing.
pub cancel_transfer_once :
    (r : TransferRegistry) (id : String) (now later : ℕ) (q : TransferRegistry) (c : Option ℕ)
    → cancel_transfer r id now ≡ (q, true, c)
    → (c ≢ none) × (cancel_transfer q id later ≡ (q, false, none))
unfolding cancel_transfer
cancel_transfer_once r id now later q c e = elim (Option-cases (get id r.records)) [
  | inl missing ↦ ground (arith, missing)
  | inr (rec, found) ↦
      let next : TransferRecord = start_canceling now rec in
      (ground (arith, found), ground (arith, found, get-put id id next r.records, eq_refl id))
]
