-- ===== src/Transfers/Tests.antt =====
-- Runs of the transfer registry (backend/internal/server/transfers.go) on small inputs, and the
-- theorems at them.
use file_transit_desk.Prelude.{
  ◌⊎◌, inl, inr, Bool-cases, eq_iff, subst, ◌≢◌, arith, ◌==◌, map, values, ℕ, String, ◌≡◌, refl,
  true, false, Option, none, some, List, [], ◌∷◌, get, put, has, contains, remove, if◌then◌else◌,
  leb, ◌+◌, count_entries, size,
}
use file_transit_desk.Transfers.Types.{
  completed, UploadAdmissionLimits, TransferRecord, UploadPermit, TransferRegistry,
  new_transfer_registry, active, admitted, refused, scoped_capacity,
}
use file_transit_desk.Transfers.Permits.{
  try_acquire_upload_permit, bind_upload_permit, release_upload_permit, has_bound_upload_permit,
  permit_is_valid,
}
use file_transit_desk.Transfers.Records.{
  list, cancel_uploads_by_dir_ids, cancel_transfer, remove_transfer, canonical_temp_path, add,
  start_canceling,
}
use file_transit_desk.Transfers.Admission.{IsWithin}
use file_transit_desk.Transfers.Binding.{acquire-after-release}
use file_transit_desk.Transfers.Cancellation.{permit_called_back, cancel_transfer_once}
use file_transit_desk.Transfers.Cancellation.Requests.{
  IsDue, FromUpload, FromPermit, callbacks_due, upload_called_back, lone_upload_called_back,
}
use file_transit_desk.Transfers.History.{
  Call, acquires, binds, adds, step, run, KeepsLimits, run-new-KeepsLimits,
}
use file_transit_desk.Transfers.Revocation.{revoked_for_good}
use file_transit_desk.Transfers.Retention.{finished_listed}

abbrev limits : UploadAdmissionLimits
limits = record { global = 2; per_resource = 1; per_session = 1; per_token = 1 }

abbrev permit : String → String → UploadPermit
permit id owner = record {
  id = id;
  dir_id = "";
  resource_fingerprint = "";
  owner_type = "session";
  owner_id = owner;
  canceling = false;
  cancel = some 7;
}

abbrev bound : String → String → UploadPermit
bound id owner = record (permit id owner) { dir_id = "docs"; resource_fingerprint = "f1" }

abbrev upload : TransferRecord
upload = record {
  id = "t1";
  type = "upload";
  status = active;
  source = "session";
  dir_id = "docs";
  path = "/a";
  file_name = "a";
  total_bytes = 10;
  transferred_bytes = 0;
  current_speed_bps = 0;
  average_speed_bps = 0;
  started_at = 5;
  updated_at = 5;
  client_ip = "::1";
  cancelable = true;
  best_effort = false;
  temp_path = "/tmp/a";
  owner_type = "session";
  owner_id = "alice";
  permit_id = "p1";
  cancel = some 7;
  last_bytes = 0;
  last_speed_at = 5;
  keep_until = 0;
}

abbrev same_path : String → String
same_path p = p

abbrev calls : List Call
calls =
    acquires (permit "p1" "alice")
    ∷ acquires (permit "p2" "alice")
    ∷ acquires (permit "p3" "bob")
    ∷ binds "p1" "docs" "f1"
    ∷ binds "p3" "docs" "f1"
    ∷ adds upload 5
    ∷ []

abbrev one : TransferRegistry
one = record { records = ("t1", upload) ∷ []; permits = ("p1", bound "p1" "alice") ∷ [] }

-- The second permit of a session and the second permit on a directory are refused.
two_left : size (run same_path limits new_transfer_registry calls).permits ≡ 2
unfolding run step try_acquire_upload_permit bind_upload_permit add new_transfer_registry size get
    put remove count_entries
two_left = refl

run-new-KeepsLimits_example : KeepsLimits limits (run same_path limits new_transfer_registry calls)
run-new-KeepsLimits_example = run-new-KeepsLimits same_path limits calls

one-IsWithin : IsWithin limits one
unfolding count_entries
one-IsWithin = record {
  global = λ p. omega arith;
  resource = λ d n p. ground arith;
  session = λ o p. ground arith;
  token = λ o p. ground arith;
}

acquire-after-release_example :
    try_acquire_upload_permit (release_upload_permit one "p1") (some (bound "p9" "alice")) limits
    ≡ admitted (record (release_upload_permit one "p1") {
      permits = put "p9" (bound "p9" "alice") (release_upload_permit one "p1").permits;
    })
unfolding get permit_is_valid
acquire-after-release_example =
    acquire-after-release limits one "p1" (bound "p1" "alice") (bound "p9" "alice") one-IsWithin
      refl refl refl refl refl refl

revoked_for_good_example :
    let q =
      run same_path limits
        (cancel_uploads_by_dir_ids one ("docs" ∷ []) 6).0
        (acquires (permit "p2" "bob") ∷ binds "p1" "docs" "f1" ∷ []) in
    (has_bound_upload_permit q "p1" "docs" "f1" ≡ false)
    × (bind_upload_permit q "p1" "docs" "f1" 1 ≡ refused scoped_capacity)
unfolding get contains
revoked_for_good_example =
    revoked_for_good same_path limits "p1" one ("docs" ∷ []) 6 (bound "p1" "alice")
      (acquires (permit "p2" "bob") ∷ binds "p1" "docs" "f1" ∷ []) "docs" "f1" 1 refl refl
      (refl, (tt, tt))

permit_called_back_example : has "p1" (cancel_uploads_by_dir_ids one ("docs" ∷ []) 6).1 ≡ true
unfolding get contains
permit_called_back_example =
    permit_called_back one ("docs" ∷ []) 6 "p1" (bound "p1" "alice") 7 refl refl refl refl

-- The upload is due, and under its permit.
upload-IsDue : IsDue ("docs" ∷ []) upload 7
unfolding contains
upload-IsDue = record {
  resource = refl;
  upload = refl;
  cancel = refl;
  cancelable = refl;
  not_canceling = refl;
  not_completed = refl;
}

callbacks_due_example : FromUpload one ("docs" ∷ []) "p1" 7 ⊎ FromPermit one ("docs" ∷ []) "p1" 7
unfolding get contains cancel_uploads_by_dir_ids values put
callbacks_due_example = callbacks_due one ("docs" ∷ []) 6 (tt, tt) (tt, tt) "p1" 7 refl

upload_called_back_example :
    (d : ℕ) × (get "p1" (cancel_uploads_by_dir_ids one ("docs" ∷ []) 6).1 ≡ some d)
    × FromUpload one ("docs" ∷ []) "p1" d
unfolding get
upload_called_back_example =
    upload_called_back one ("docs" ∷ []) 6 (tt, tt) (tt, tt) "t1" "p1" upload 7 refl upload-IsDue
      (inl ((λ e. let y = (eq_iff "p1" "").1 e in cc), refl))

-- The same upload without a permit.
abbrev permitless : TransferRecord
permitless = record upload { permit_id = "" }

abbrev lone : TransferRegistry
lone = record one { records = ("t1", permitless) ∷ [] }

lone-IsAlone :
    (j : String) (x : TransferRecord)
    → get j lone.records ≡ some x
    → (x.permit_id ≢ "record:t1") × (x.id ≡ "t1" → x ≡ permitless)
unfolding get
lone-IsAlone j x e = elim (Bool-cases ("t1" == j)) [
  | inl h ↦
      let same : permitless ≡ x = ground (arith, e, h) in
      subst (λ y. (y.permit_id ≢ "record:t1") × (y.id ≡ "t1" → y ≡ permitless)) same
        ((λ q. let z = (eq_iff "" "record:t1").1 q in cc), (λ q. refl))
  | inr n ↦ ground (arith, e, n)
]

lone_upload_called_back_example :
    get "record:t1" (cancel_uploads_by_dir_ids lone ("docs" ∷ []) 6).1 ≡ some 7
unfolding get contains
lone_upload_called_back_example =
    lone_upload_called_back lone ("docs" ∷ []) 6 (tt, tt) (tt, tt) "t1" permitless 7 refl
      (record {
        resource = refl;
        upload = refl;
        cancel = refl;
        cancelable = refl;
        not_canceling = refl;
        not_completed = refl;
      })
      refl lone-IsAlone

abbrev canceled : TransferRegistry
canceled = record one { records = ("t1", start_canceling 6 upload) ∷ [] }

cancel_transfer_once_example :
    (◌≢◌ {A = Option ℕ} (some 7) none) × (cancel_transfer canceled "t1" 8 ≡ (canceled, false, none))
unfolding cancel_transfer get put remove
cancel_transfer_once_example = cancel_transfer_once one "t1" 6 8 canceled (some 7) refl

abbrev added : TransferRegistry
added = run same_path limits new_transfer_registry (adds upload 5 ∷ [])

finished_listed_example :
    let listed = list (remove_transfer added "t1" 9) 100 in
    (get "t1" listed.0.records ≡ (
      if upload.type == "download"
      then none
      else if leb 100 (9 + 30000000000)
      then some (record upload {
        status = completed;
        updated_at = 9;
        cancelable = false;
        cancel = none;
        temp_path = "";
        keep_until = 9 + 30000000000;
      })
      else none))
    × (listed.1
        ≡ map {A = TransferRecord} (λ x. record x { cancel = none }) (values listed.0.records))
unfolding run step add get put new_transfer_registry canonical_temp_path
finished_listed_example =
    finished_listed same_path limits (adds upload 5 ∷ []) "t1" upload 9 100 refl
