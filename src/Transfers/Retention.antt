-- ===== src/Transfers/Retention.antt =====
-- How long a record lives in the registry of backend/internal/server/transfers.go.
use file_transit_desk.Prelude.{
  ℕ, ◌+◌, map, String, ◌==◌, eq_refl, ◌≡◌, refl, true, false, none, some, List, [], ◌∷◌, arith, leb,
  get, put, remove, contains, values, Dict, get-put, get-remove, get-keep, HasNoDup, put-HasNoDup,
  remove-HasNoDup, keep-HasNoDup, map_values-HasNoDup, Option-cases, Bool-cases, if◌then◌else◌, inl,
  inr,
}
use file_transit_desk.Transfers.Types.{
  UploadAdmissionLimits, TransferRecord, TransferRegistry, new_transfer_registry,
  completed_transfer_retention, completed,
}
use file_transit_desk.Transfers.Permits.{
  try_acquire_upload_permit, bind_upload_permit, release_upload_permit,
}
use file_transit_desk.Transfers.Records.{
  add, update, remove_transfer, purge_expired_records, cancel_transfer, cancel_uploads_by_dir_ids,
  finished, mark_record, active_temp_paths, temp_paths_of, canonical_temp_path, is_completed,
  start_canceling, is_kept, list,
}
use file_transit_desk.Transfers.Admission.{try_acquire-HasRoom}
use file_transit_desk.Transfers.Binding.{bind-BindsNew}
use file_transit_desk.Transfers.History.{
  Call, acquires, binds, releases, cancels_uploads, adds, updates, removes, cancels, purges, step,
  run, Admission-cases,
}

module _ (canonical : String → String) (l : UploadAdmissionLimits) where
  -- The record map is a map after any call: its keys are distinct.
  step-HasNoDup :
      (r : TransferRegistry) (c : Call)
      → HasNoDup r.records
      → HasNoDup (step canonical l r c).records
  unfolding step add update remove_transfer cancel_transfer purge_expired_records
      cancel_uploads_by_dir_ids release_upload_permit
  step-HasNoDup r (acquires p) h =
      Admission-cases (try_acquire_upload_permit r (some p) l) {P = λ q. HasNoDup q.records} r h
        λ q e. rw (try_acquire-HasRoom l r p e).1 h
  step-HasNoDup r (binds id d f) h =
      Admission-cases (bind_upload_permit r id d f l.per_resource) {P = λ q. HasNoDup q.records} r h
        λ q e. elim (bind-BindsNew r id d f l.per_resource e) [
          | inl same ↦ rw same h
          | inr (v, b) ↦ rw b.result h
        ]
  step-HasNoDup r (releases id) h = ground arith
  step-HasNoDup r (cancels_uploads ds now) h = map_values-HasNoDup (mark_record ds now) r.records h
  step-HasNoDup r (adds rec now) h = put-HasNoDup rec.id _ r.records h
  step-HasNoDup r (updates id fn) h = elim (Option-cases (get id r.records)) [
    | inl e ↦ ground (arith, e)
    | inr (rec, e) ↦ ground (arith, e, put-HasNoDup id (fn rec) r.records h)
  ]
  step-HasNoDup r (removes id now) h = elim (Option-cases (get id r.records)) [
    | inl e ↦ ground (arith, e)
    | inr (rec, e) ↦
        ground
          (arith, e, put-HasNoDup id (finished rec now) r.records h, remove-HasNoDup id r.records h)
  ]
  step-HasNoDup r (cancels id now) h = elim (Option-cases (get id r.records)) [
    | inl e ↦ ground (arith, e)
    | inr (rec, e) ↦ ground (arith, e, put-HasNoDup id (start_canceling now rec) r.records h)
  ]
  step-HasNoDup r (purges now) h = keep-HasNoDup _ r.records h

  run-HasNoDup :
      (r : TransferRegistry) (cs : List Call)
      → HasNoDup r.records
      → HasNoDup (run canonical l r cs).records
  unfolding run
  run-HasNoDup r [] h = h
  run-HasNoDup r (c ∷ cs) h = run-HasNoDup (step canonical l r c) cs (step-HasNoDup r c h)

finished_kept :
    (r : TransferRegistry) (id : String) (rec : TransferRecord) (now later : ℕ)
    → HasNoDup r.records
    → get id r.records ≡ some rec
    → get id (purge_expired_records (remove_transfer r id now) later).records ≡ (
        if rec.type == "download"
        then none
        else if leb later (now + completed_transfer_retention)
        then some (finished rec now)
        else none)
unfolding purge_expired_records remove_transfer
finished_kept r id rec now later h e = ground (
  arith,
  e,
  eq_refl id,
  get-keep (is_kept later) id (remove id r.records) (remove-HasNoDup id r.records h),
  get-keep (is_kept later) id (put id (finished rec now) r.records)
      (put-HasNoDup id (finished rec now) r.records h),
  get-remove id id r.records,
  get-put id id (finished rec now) r.records,
)

module _ (canonical : String → String) (l : UploadAdmissionLimits) where
  -- After any calls on a new registry, a transfer is finished and the transfers are listed at a
  -- later reading of the clock: if it is no download, the registry holds it under its id up to
  -- thirty seconds after it was finished, that moment included, as completed, not to be cancelled
  -- and without a temporary file, and not any more after that; a finished download is gone at once;
  -- and the list is the records of the registry without their cancel functions.
  pub finished_listed :
      (cs : List Call) (id : String) (rec : TransferRecord) (now later : ℕ)
      → get id (run canonical l new_transfer_registry cs).records ≡ some rec
      → let listed =
          list (remove_transfer (run canonical l new_transfer_registry cs) id now) later in
        (get id listed.0.records ≡ (
          if rec.type == "download"
          then none
          else if leb later (now + 30000000000)
          then some (record rec {
            status = completed;
            updated_at = now;
            cancelable = false;
            cancel = none;
            temp_path = "";
            keep_until = now + 30000000000;
          })
          else none))
        × (listed.1
            ≡ map {A = TransferRecord} (λ x. record x { cancel = none }) (values listed.0.records))
  unfolding new_transfer_registry run list
  finished_listed cs id rec now later e = (
    finished_kept (run canonical l new_transfer_registry cs) id rec now later
        (run-HasNoDup canonical l new_transfer_registry cs tt) e,
    refl,
  )

module _ (canonical : String → String) where
  temp_paths_of-contains :
      (recs : Dict TransferRecord) (id : String) (rec : TransferRecord)
      → get id recs ≡ some rec
      → is_completed rec.status ≡ false
      → (canonical_temp_path canonical rec.temp_path == "") ≡ false
      → contains
          (temp_paths_of canonical (values recs))
          (canonical_temp_path canonical rec.temp_path)
        ≡ true
  unfolding temp_paths_of values get contains
  temp_paths_of-contains [] id rec e a n = cc
  temp_paths_of-contains ((j, x) ∷ recs) id rec e a n = elim (Bool-cases (j == id)) [
    | inl same ↦ ground (arith, same, eq_refl (canonical_temp_path canonical rec.temp_path))
    | inr other ↦ ground (arith, other, temp_paths_of-contains recs id rec)
  ]

  -- After any calls on a new registry, the temporary file of a registered transfer that is not
  -- completed and has no time of removal is in the set that clean-up spares, if the record has one.
  pub active_temp_paths-contains :
      (l : UploadAdmissionLimits) (cs : List Call) (id : String) (rec : TransferRecord) (now : ℕ)
      → let r = run canonical l new_transfer_registry cs in
        get id r.records ≡ some rec
        → is_completed rec.status ≡ false
        → rec.keep_until ≡ 0
        → (canonical_temp_path canonical rec.temp_path == "") ≡ false
        → contains
            (active_temp_paths canonical r now).1
            (canonical_temp_path canonical rec.temp_path)
          ≡ true
  unfolding active_temp_paths purge_expired_records new_transfer_registry run
  active_temp_paths-contains l cs id rec now e a k n =
      let r : TransferRegistry = run canonical l new_transfer_registry cs in
      temp_paths_of-contains _ id rec
        (ground (
          arith,
          e,
          k,
          get-keep (is_kept now) id r.records
              (run-HasNoDup canonical l new_transfer_registry cs tt),
        ))
        a n
