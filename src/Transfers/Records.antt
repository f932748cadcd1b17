-- ===== src/Transfers/Records.antt =====
-- The transfer records of backend/internal/server/transfers.go. Each call takes the time that
-- `time.Now()` reads in it. `canonical` stands for filepath.Abs, EvalSymlinks and Clean.
use Prim.Native.String.{◌++◌ as str_append}
use file_transit_desk.Prelude.{
  ℕ, ◌+◌, String, ◌==◌, Bool, true, false, not, ◌&&◌, ◌||◌, Option, none, some, List, [], ◌∷◌, ltb,
  eqb, map, contains, Dict, get, has, put, remove, keep, map_values, values, size, if◌then◌else◌,
  is_some,
}
use file_transit_desk.Transfers.Types.{
  TransferStatus, canceling, completed, completed_transfer_retention, TransferRecord, UploadPermit,
  TransferRegistry,
}

abbrev pub is_canceling : TransferStatus → Bool
is_canceling canceling = true
is_canceling _ = false

abbrev pub is_completed : TransferStatus → Bool
is_completed completed = true
is_completed _ = false

module _ (canonical : String → String) where
  unfoldable pub canonical_temp_path : String → String
  canonical_temp_path path = if path == "" then "" else canonical path

  -- The start of an earlier record of that id is kept.
  start_of : Dict TransferRecord → TransferRecord → ℕ → ℕ
  start_of records rec now =
      if not (eqb rec.started_at 0) then rec.started_at else (elim (get rec.id records) [
        | none ↦ now
        | some existing ↦ if eqb existing.started_at 0 then now else existing.started_at
      ])

  unfoldable pub add : TransferRegistry → TransferRecord → ℕ → TransferRegistry
  unfolding canonical_temp_path start_of
  add r rec now =
      let updated : ℕ = if eqb rec.updated_at 0 then now else rec.updated_at in
      let added : TransferRecord = record rec {
        temp_path = canonical_temp_path rec.temp_path;
        started_at = start_of r.records rec now;
        updated_at = updated;
        last_speed_at = updated;
      } in
      record r { records = put rec.id added r.records }

unfoldable pub update :
    TransferRegistry → String → (TransferRecord → TransferRecord) → TransferRegistry
update r id fn = elim (get id r.records) [
  | none ↦ r
  | some rec ↦ record r { records = put id (fn rec) r.records }
]

abbrev pub finished : TransferRecord → ℕ → TransferRecord
finished rec now = record rec {
  status = completed;
  updated_at = now;
  cancelable = false;
  cancel = none;
  temp_path = "";
  keep_until = now + completed_transfer_retention;
}

-- `remove` of the source; the name is the map's here.
unfoldable pub remove_transfer : TransferRegistry → String → ℕ → TransferRegistry
remove_transfer r id now = elim (get id r.records) [
  | none ↦ r
  | some rec ↦
      if rec.type == "download"
      then record r { records = remove id r.records }
      else record r { records = put id (finished rec now) r.records }
]

abbrev pub is_kept : ℕ → String → TransferRecord → Bool
is_kept now id rec = not (not (eqb rec.keep_until 0) && ltb rec.keep_until now)

unfoldable pub purge_expired_records : TransferRegistry → ℕ → TransferRegistry
purge_expired_records r now = record r { records = keep (is_kept now) r.records }

abbrev pub without_cancel : TransferRecord → TransferRecord
without_cancel rec = record rec { cancel = none }

-- The records, copied without their cancel functions, after a purge.
unfoldable pub list : TransferRegistry → ℕ → TransferRegistry × List TransferRecord
unfolding purge_expired_records
list r now =
    let purged = purge_expired_records r now in (purged, map without_cancel (values purged.records))

abbrev pub can_cancel : TransferRecord → Bool
can_cancel rec =
    is_some rec.cancel
    && (rec.cancelable && (not (is_canceling rec.status) && not (is_completed rec.status)))

abbrev pub start_canceling : ℕ → TransferRecord → TransferRecord
start_canceling now rec = record rec { status = canceling; updated_at = now }

-- The third part is the cancel function that is called after the lock is released.
unfoldable pub cancel_transfer : TransferRegistry → String → ℕ → TransferRegistry × Bool × Option ℕ
cancel_transfer r id now = elim (get id r.records) [
  | none ↦ (r, false, none)
  | some rec ↦
      if can_cancel rec
      then (record r { records = put id (start_canceling now rec) r.records }, true, rec.cancel)
      else (r, false, none)
]

abbrev pub permit_hit : List String → UploadPermit → Bool
permit_hit wanted permit = contains wanted permit.dir_id && not permit.canceling

abbrev pub upload_hit : List String → TransferRecord → Bool
upload_hit wanted rec = contains wanted rec.dir_id && ((rec.type == "upload") && can_cancel rec)

abbrev pub request_key : TransferRecord → String
request_key rec = if rec.permit_id == "" then str_append "record:" rec.id else rec.permit_id

abbrev pub add_callback : String → Option ℕ → Dict ℕ → Dict ℕ
add_callback key none callbacks = callbacks
add_callback key (some cancel) callbacks =
    if has key callbacks then callbacks else put key cancel callbacks

-- One callback for a request, by its permit, however many of its files are running.
unfoldable pub record_callbacks : List String → List TransferRecord → Dict ℕ → Dict ℕ
record_callbacks wanted [] callbacks = callbacks
record_callbacks wanted (rec ∷ recs) callbacks = record_callbacks wanted recs (
    if upload_hit wanted rec
    then add_callback (request_key rec) rec.cancel callbacks
    else callbacks)

unfoldable pub permit_callbacks : List String → Dict UploadPermit → Dict ℕ → Dict ℕ
permit_callbacks wanted [] callbacks = callbacks
permit_callbacks wanted ((id, permit) ∷ permits) callbacks =
    permit_callbacks wanted permits
      (if permit_hit wanted permit then add_callback id permit.cancel callbacks else callbacks)

abbrev pub mark_permit : List String → UploadPermit → UploadPermit
mark_permit wanted permit =
    if permit_hit wanted permit then record permit { canceling = true } else permit

abbrev pub mark_record : List String → ℕ → TransferRecord → TransferRecord
mark_record wanted now rec = if upload_hit wanted rec then start_canceling now rec else rec

-- The marked registry, the callbacks that are called after the lock is released, and their number.
unfoldable pub cancel_uploads_by_dir_ids :
    TransferRegistry → List String → ℕ → TransferRegistry × Dict ℕ × ℕ
unfolding record_callbacks permit_callbacks
cancel_uploads_by_dir_ids r wanted now =
    let callbacks =
      permit_callbacks wanted r.permits (record_callbacks wanted (values r.records) []) in
    (
      record {
        records = map_values (mark_record wanted now) r.records;
        permits = map_values (mark_permit wanted) r.permits;
      },
      callbacks,
      size callbacks,
    )

module _ (canonical : String → String) where
  unfoldable pub temp_paths_of : List TransferRecord → List String
  unfolding canonical_temp_path
  temp_paths_of [] = []
  temp_paths_of (rec ∷ recs) =
      let rest = temp_paths_of recs in
      let normalized = canonical_temp_path canonical rec.temp_path in
      if is_completed rec.status || (normalized == "") then rest else normalized ∷ rest

  -- The set of temporary files that a running transfer still needs.
  unfoldable pub active_temp_paths : TransferRegistry → ℕ → TransferRegistry × List String
  unfolding temp_paths_of purge_expired_records
  active_temp_paths r now =
      let purged = purge_expired_records r now in (purged, temp_paths_of (values purged.records))
