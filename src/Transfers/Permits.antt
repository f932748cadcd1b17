-- ===== src/Transfers/Permits.antt =====
-- The upload permits of backend/internal/server/transfers.go: admission, binding to a resource and
-- release.
use file_transit_desk.Prelude.{
  ℕ, String, ◌==◌, Bool, false, not, ◌&&◌, ◌||◌, Option, none, some, ltb, leb, get, put, remove,
  size, count_entries, if◌then◌else◌,
}
use file_transit_desk.Transfers.Types.{
  UploadAdmissionLimits, UploadPermit, TransferRegistry, Admission, admitted, refused,
  global_capacity, scoped_capacity,
}

-- The permit names its owner, and its resource wholly or not at all.
unfoldable pub permit_is_valid : UploadPermit → Bool
permit_is_valid p = not (
    (p.id == "")
    || (p.owner_id == "")
    || (not (p.owner_type == "session") && not (p.owner_type == "token"))
    || ((p.dir_id == "") && not (p.resource_fingerprint == ""))
    || (not (p.dir_id == "") && (p.resource_fingerprint == "")))

-- The tests that the counting loops make.
abbrev pub in_resource : String → UploadPermit → Bool
in_resource dir existing = existing.dir_id == dir

abbrev pub same_owner : String → String → UploadPermit → Bool
same_owner type id existing = (existing.owner_type == type) && (existing.owner_id == id)

unfoldable pub owner_limit : String → UploadAdmissionLimits → ℕ
owner_limit type limits =
    if type == "session"
    then limits.per_session
    else if type == "token"
    then limits.per_token
    else 0

unfoldable pub try_acquire_upload_permit :
    TransferRegistry → Option UploadPermit → UploadAdmissionLimits → Admission
unfolding permit_is_valid owner_limit
try_acquire_upload_permit r none limits = refused scoped_capacity
try_acquire_upload_permit r (some permit) limits =
    let global = size r.permits in
    let resource =
      count_entries (λ k e. not (permit.dir_id == "") && in_resource permit.dir_id e) r.permits in
    let owner = count_entries (λ k e. same_owner permit.owner_type permit.owner_id e) r.permits in
    let limit = owner_limit permit.owner_type limits in
    if not (permit_is_valid permit)
    then refused scoped_capacity
    else if ltb 0 limits.global && leb limits.global global
    then refused global_capacity
    else if not (permit.dir_id == "")
        && (ltb 0 limits.per_resource && leb limits.per_resource resource)
    then refused scoped_capacity
    else if ltb 0 limit && leb limit owner
    then refused scoped_capacity
    else admitted (record r { permits = put permit.id permit r.permits })

bind_found : TransferRegistry → String → String → String → ℕ → UploadPermit → Admission
bind_found r id dir_id fingerprint per_resource permit =
    if permit.canceling || ((dir_id == "") || (fingerprint == ""))
    then refused scoped_capacity
    else if not (permit.dir_id == "")
    then (if not (permit.dir_id == dir_id) || not (permit.resource_fingerprint == fingerprint)
        then refused scoped_capacity
        else admitted r)
    else if ltb 0 per_resource && leb per_resource resource
    then refused scoped_capacity
    else admitted (record r { permits = put id bound r.permits })
  where
    resource : ℕ
    resource = count_entries (λ other e. not (other == id) && in_resource dir_id e) r.permits

    bound : UploadPermit
    bound = record permit { dir_id = dir_id; resource_fingerprint = fingerprint }

unfoldable pub bind_upload_permit : TransferRegistry → String → String → String → ℕ → Admission
unfolding bind_found
bind_upload_permit r id dir_id fingerprint per_resource = elim (get id r.permits) [
  | none ↦ refused scoped_capacity
  | some permit ↦ bind_found r id dir_id fingerprint per_resource permit
]

unfoldable pub release_upload_permit : TransferRegistry → String → TransferRegistry
release_upload_permit r id = if id == "" then r else record r { permits = remove id r.permits }

unfoldable pub upload_permit_count : TransferRegistry → ℕ
upload_permit_count r = size r.permits

unfoldable pub has_bound_upload_permit : TransferRegistry → String → String → String → Bool
has_bound_upload_permit r id dir_id fingerprint = elim (get id r.permits) [
  | none ↦ false
  | some permit ↦
      not permit.canceling
      && ((permit.dir_id == dir_id) && (permit.resource_fingerprint == fingerprint))
]
