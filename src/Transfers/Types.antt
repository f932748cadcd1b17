-- ===== src/Transfers/Types.antt =====
-- The data of backend/internal/server/transfers.go. A `time.Time` is a number of nanoseconds, 0 for
-- the zero time; a `context.CancelFunc` is a number that names it. The limits and byte counts are
-- never negative where the server sets them.
use file_transit_desk.Prelude.{ℕ, String, Bool, Option, Dict, []}

pub data TransferStatus : Type 0 where
  active canceling completed failed : TransferStatus

-- completedTransferRetention, 30 s
abbrev pub completed_transfer_retention : ℕ
completed_transfer_retention = 30000000000

pub record UploadAdmissionLimits : Type 0 where
  pub global : ℕ
  pub per_resource : ℕ
  pub per_session : ℕ
  pub per_token : ℕ

pub record TransferRecord : Type 0 where
  pub id : String
  pub type : String
  pub status : TransferStatus
  pub source : String
  pub dir_id : String
  pub path : String
  pub file_name : String
  pub total_bytes : ℕ
  pub transferred_bytes : ℕ
  pub current_speed_bps : ℕ
  pub average_speed_bps : ℕ
  pub started_at : ℕ
  pub updated_at : ℕ
  pub client_ip : String
  pub cancelable : Bool
  pub best_effort : Bool
  pub temp_path : String
  pub owner_type : String
  pub owner_id : String
  pub permit_id : String
  pub cancel : Option ℕ
  pub last_bytes : ℕ
  pub last_speed_at : ℕ
  pub keep_until : ℕ

pub record UploadPermit : Type 0 where
  pub id : String
  pub dir_id : String
  pub resource_fingerprint : String
  pub owner_type : String
  pub owner_id : String
  pub canceling : Bool
  pub cancel : Option ℕ

pub record TransferRegistry : Type 0 where
  pub records : Dict TransferRecord
  pub permits : Dict UploadPermit

unfoldable pub new_transfer_registry : TransferRegistry
new_transfer_registry = record { records = []; permits = [] }

-- errUploadGlobalCapacity, errUploadScopedCapacity
pub data CapacityError : Type 0 where
  global_capacity scoped_capacity : CapacityError

-- A registry call that succeeds returns the new registry; one that fails changes nothing.
pub data Admission : Type 0 where
  admitted : TransferRegistry → Admission
  refused : CapacityError → Admission
