-- ===== src/Sweep/Tests.antt =====
-- The clean-up of temporary upload files on small trees (backend/internal/server/maintenance.go).
use file_transit_desk.Prelude.{
  ◌≡◌, refl, ◌==◌, All, String, Bool, true, false, some, List, [], ◌∷◌, contains, get, put, values,
  keep, remove,
}
use file_transit_desk.Transfers.Types.{
  TransferRecord, TransferRegistry, UploadAdmissionLimits, new_transfer_registry, active,
}
use file_transit_desk.Transfers.Records.{
  add, active_temp_paths, canonical_temp_path, temp_paths_of, purge_expired_records,
}
use file_transit_desk.Transfers.History.{adds, step, run}
use file_transit_desk.Sweep.{
  is_upload_name, has_prefix, has_suffix, same_name, CleanupRoot, Visit, CleanupSettings,
  run_upload_temp_cleanup, stats_of, visit, walk, sweep, no_stats,
}
use file_transit_desk.Sweep.Roots.{IsFrom}
use file_transit_desk.Sweep.Safety.{
  IsCareful, run_upload_temp_cleanup-IsCareful, running_upload_spared,
}

-- The file `.upload-a.tmp`, under some path.
abbrev upload_file : String → Visit
upload_file p = record {
  path = p;
  cancelled = false;
  time = 10;
  failed = false;
  is_dir = false;
  name = 46 ∷ 117 ∷ 112 ∷ 108 ∷ 111 ∷ 97 ∷ 100 ∷ 45 ∷ 97 ∷ 46 ∷ 116 ∷ 109 ∷ 112 ∷ [];
  modified = some 1;
  removable = true;
}

-- The file `.upload-a.tmp1`.
abbrev other_file : Visit
other_file = record (upload_file "d") {
  name = 46 ∷ 117 ∷ 112 ∷ 108 ∷ 111 ∷ 97 ∷ 100 ∷ 45 ∷ 97 ∷ 46 ∷ 116 ∷ 109 ∷ 112 ∷ 49 ∷ [];
}

abbrev settings : CleanupSettings
settings = record { max_entries = 5; max_duration = 10; retention = 6; started = 10 }

abbrev admission : UploadAdmissionLimits
admission = record { global = 2; per_resource = 1; per_session = 1; per_token = 1 }

-- The upload of `b` is running.
abbrev running : TransferRecord
running = record {
  id = "t1";
  type = "upload";
  status = active;
  source = "session";
  dir_id = "docs";
  path = "/a";
  file_name = "a";
  total_bytes = 10;
  transferred_bytes = 0;
  current_speed_bps = 0;
  average_speed_bps = 0;
  started_at = 5;
  updated_at = 5;
  client_ip = "::1";
  cancelable = true;
  best_effort = false;
  temp_path = "b";
  owner_type = "session";
  owner_id = "alice";
  permit_id = "p1";
  cancel = some 7;
  last_bytes = 0;
  last_speed_at = 5;
  keep_until = 0;
}

abbrev registry : TransferRegistry
registry = run (λ p. p) admission new_transfer_registry (adds running 5 ∷ [])

abbrev tree : List (CleanupRoot × List Visit × Bool)
tree =
    (
      record { type = "directory"; path = "/docs"; allow_upload = true },
      upload_file "a" ∷ upload_file "b" ∷ other_file ∷ [],
      false,
    )
    ∷ (
      record { type = "directory"; path = "/docs"; allow_upload = false },
      upload_file "c" ∷ [],
      false,
    )
    ∷ []

one_removed :
    (stats_of (run_upload_temp_cleanup (λ p. p) (λ p. p) registry 9 settings tree).1).deleted
    ≡ upload_file "a" ∷ []
unfolding run_upload_temp_cleanup sweep walk visit no_stats active_temp_paths contains run step add
    get put new_transfer_registry canonical_temp_path temp_paths_of purge_expired_records values
    keep remove is_upload_name has_prefix has_suffix same_name
one_removed = refl

run_upload_temp_cleanup-IsCareful_example :
    let stats = stats_of (run_upload_temp_cleanup (λ p. p) (λ p. p) registry 9 settings tree).1 in
    IsCareful (λ p. p) (active_temp_paths (λ p. p) registry 9).1 settings stats
    × All (IsFrom (λ p. p) tree) stats.deleted
run_upload_temp_cleanup-IsCareful_example =
    run_upload_temp_cleanup-IsCareful (λ p. p) (λ p. p) registry 9 settings tree

running_upload_spared_example :
    All
      (λ v. (canonical_temp_path (λ p. p) v.path == canonical_temp_path (λ p. p) "b") ≡ false)
      (stats_of (run_upload_temp_cleanup (λ p. p) (λ p. p) registry 9 settings tree).1).deleted
unfolding run step add get put new_transfer_registry canonical_temp_path
running_upload_spared_example =
    running_upload_spared (λ p. p) (λ p. p) admission (adds running 5 ∷ []) "t1" running 9 settings
      tree refl refl refl refl
