-- ===== src/Sweep.antt =====
-- The clean-up of temporary upload files (backend/internal/server/maintenance.go). What the walk of
-- a root visits is given, with what each reading and call of the visit finds.
pub mod Names
pub mod Roots
pub mod Safety
mod Tests
use file_transit_desk.Prelude.{
  ℕ, suc, ◌+◌, ◌-◌, String, Bool, true, false, not, ◌&&◌, ◌||◌, Option, none, some, List, [], ◌∷◌,
  ltb, leb, contains, if◌then◌else◌, eqb, ◌==◌,
}
use file_transit_desk.Transfers.Types.{TransferRegistry}
use file_transit_desk.Transfers.Records.{active_temp_paths, canonical_temp_path}

-- config.Dir, as far as it is read.
pub record CleanupRoot : Type 0 where
  pub type : String
  pub path : String
  pub allow_upload : Bool

abbrev pub resource_directory : String
resource_directory = "directory"

-- The name of an entry, as runes.
abbrev pub Name : Type 0
Name = List ℕ

-- strings.HasPrefix(name, prefix)
unfoldable pub has_prefix : Name → Name → Bool
has_prefix name [] = true
has_prefix [] (p ∷ ps) = false
has_prefix (r ∷ rs) (p ∷ ps) = eqb r p && has_prefix rs ps

unfoldable pub same_name : Name → Name → Bool
same_name [] [] = true
same_name [] (p ∷ ps) = false
same_name (r ∷ rs) [] = false
same_name (r ∷ rs) (p ∷ ps) = eqb r p && same_name rs ps

-- strings.HasSuffix(name, suffix)
unfoldable pub has_suffix : Name → Name → Bool
unfolding same_name
has_suffix [] suffix = same_name [] suffix
has_suffix (r ∷ rs) suffix = same_name (r ∷ rs) suffix || has_suffix rs suffix

-- `.upload-` and `.tmp`
abbrev pub upload_prefix : Name
upload_prefix = 46 ∷ 117 ∷ 112 ∷ 108 ∷ 111 ∷ 97 ∷ 100 ∷ 45 ∷ []

abbrev pub upload_suffix : Name
upload_suffix = 46 ∷ 116 ∷ 109 ∷ 112 ∷ []

unfoldable pub is_upload_name : Name → Bool
unfolding has_prefix has_suffix
is_upload_name name = has_prefix name upload_prefix && has_suffix name upload_suffix

-- One call of the walk function. `failed` is a walk error or no entry, `name` is
-- entry.Name(), `modified` is none where Info fails, and `removable` is whether os.Remove succeeds.
pub record Visit : Type 0 where
  pub path : String
  pub cancelled : Bool
  pub time : ℕ
  pub failed : Bool
  pub is_dir : Bool
  pub name : Name
  pub modified : Option ℕ
  pub removable : Bool

-- uploadTempCleanupStats, and the files that were removed.
pub record UploadTempCleanupStats : Type 0 where
  pub scanned : ℕ
  pub removed : ℕ
  pub skipped : ℕ
  pub complete : Bool
  pub truncated : Bool
  pub deleted : List Visit

unfoldable pub no_stats : UploadTempCleanupStats
no_stats = record {
  scanned = 0;
  removed = 0;
  skipped = 0;
  complete = true;
  truncated = false;
  deleted = [];
}

abbrev pub skip : UploadTempCleanupStats → UploadTempCleanupStats
skip s = record s { skipped = suc s.skipped }

abbrev pub remove_file : Visit → UploadTempCleanupStats → UploadTempCleanupStats
remove_file v s =
    if v.removable then record s { removed = suc s.removed; deleted = v ∷ s.deleted } else skip s

-- What is read of config.Storage and when; the durations are in nanoseconds.
pub record CleanupSettings : Type 0 where
  pub max_entries : ℕ
  pub max_duration : ℕ
  pub retention : ℕ
  pub started : ℕ

-- Modified no later than the cutoff, which lies the retention before the start.
abbrev pub is_old : CleanupSettings → Option ℕ → Bool
is_old l none = false
is_old l (some t) = leb (t + l.retention) l.started

-- How a walk ends: by itself, by the clean-up's own stop (with whether stopErr is the context's error,
-- and not nil), or by an error of the walk.
pub data Walked : Type 0 where
  finished : UploadTempCleanupStats → Walked
  stopped : Bool → UploadTempCleanupStats → Walked
  broken : UploadTempCleanupStats → Walked

-- The context was cancelled, the time is over, or enough was scanned.
abbrev pub must_stop : CleanupSettings → UploadTempCleanupStats → Visit → Bool
must_stop l s v =
    v.cancelled || (leb (l.started + l.max_duration) v.time || leb l.max_entries s.scanned)

abbrev pub stop : Bool → UploadTempCleanupStats → Walked
stop cancelled s = stopped cancelled (record s { complete = false; truncated = true })

module _ (canonical trim_space : String → String) (active : List String) (l : CleanupSettings) where
  -- The rest of a visit, after the entry was counted.
  unfoldable pub visit : Visit → UploadTempCleanupStats → UploadTempCleanupStats
  unfolding is_upload_name
  visit v s =
      if v.failed
      then skip s
      else if v.is_dir || not (is_upload_name v.name)
      then s
      else if contains active (canonical_temp_path canonical v.path) || not (is_old l v.modified)
      then skip s
      else remove_file v s

  -- The visits of a root, and whether the walk itself fails after them.
  unfoldable pub walk : List Visit → Bool → UploadTempCleanupStats → Walked
  unfolding visit
  walk [] fails s = if fails then broken (record s { complete = false }) else finished s
  walk (v ∷ vs) fails s =
      let rest : UploadTempCleanupStats → Walked = walk vs fails in
      if must_stop l s v
      then stop v.cancelled s
      else rest (visit v (record s { scanned = suc s.scanned }))

  -- The rest of the roots, if the walk of one has finished.
  abbrev pub and_then : Walked → (UploadTempCleanupStats → Walked) → Walked
  and_then (finished s) rest = rest s
  and_then (stopped c s) rest = stopped c s
  and_then (broken s) rest = broken s

  -- A root that is a directory with a path, and takes uploads.
  abbrev pub is_swept : CleanupRoot → Bool
  is_swept r = (r.type == resource_directory) && (not (trim_space r.path == "") && r.allow_upload)

  unfoldable pub sweep : List (CleanupRoot × List Visit × Bool) → UploadTempCleanupStats → Walked
  unfolding walk
  sweep [] s = finished s
  sweep ((r, vs, fails) ∷ rs) s =
      let rest : UploadTempCleanupStats → Walked = sweep rs in
      if not (is_swept r) then rest s else and_then (walk vs fails s) rest

-- runUploadTempCleanup, which lists the active files at `now`.
unfoldable pub run_upload_temp_cleanup :
    (String → String)
    → (String → String)
    → TransferRegistry
    → ℕ
    → CleanupSettings
    → List (CleanupRoot × List Visit × Bool)
    → TransferRegistry × Walked
unfolding active_temp_paths sweep no_stats
run_upload_temp_cleanup canonical trim_space r now l rs =
    let listed = active_temp_paths canonical r now in
    (listed.0, sweep canonical trim_space listed.1 l rs no_stats)

abbrev pub stats_of : Walked → UploadTempCleanupStats
stats_of (finished s) = s
stats_of (stopped c s) = s
stats_of (broken s) = s
