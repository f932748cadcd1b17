-- ===== src/Transfers/Admission.antt =====
-- The admission limits of the permits of backend/internal/server/transfers.go.
use file_transit_desk.Prelude.{
  ℕ, ◌≤◌, ◌<◌, suc, String, ◌==◌, eq_iff, ◌≡◌, refl, Bool, true, false, not, ◌&&◌, some, arith,
  Dict, put, count_entries, count_entries-remove-le, count_entries-put, size-count, subst,
  if◌then◌else◌,
}
use file_transit_desk.Transfers.Types.{
  UploadAdmissionLimits, UploadPermit, TransferRegistry, Admission, admitted, refused,
}
use file_transit_desk.Transfers.Permits.{
  in_resource, same_owner, owner_limit, permit_is_valid, try_acquire_upload_permit,
}

-- How many permits pass a test.
abbrev pub held : (UploadPermit → Bool) → TransferRegistry → ℕ
held p r = count_entries (λ k e. p e) r.permits

pub record IsWithin (l : UploadAdmissionLimits) (r : TransferRegistry) : Type 0 where
  pub global : 0 < l.global → held (λ e. true) r ≤ l.global
  pub resource :
      (d : String)
      → (d == "") ≡ false
      → 0 < l.per_resource
      → held (in_resource d) r ≤ l.per_resource
  pub session : (o : String) → 0 < l.per_session → held (same_owner "session" o) r ≤ l.per_session
  pub token : (o : String) → 0 < l.per_token → held (same_owner "token" o) r ≤ l.per_token

-- The state that a call leaves.
abbrev pub after : TransferRegistry → Admission → TransferRegistry
after r (admitted r') = r'
after r (refused e) = r

pub put-held :
    (p : UploadPermit → Bool) (k : String) (v : UploadPermit) (r : TransferRegistry)
    → held p (record r { permits = put k v r.permits }) ≤ (if p v then suc (held p r) else held p r)
put-held p k v r = ground (
  arith,
  count_entries-put (λ k e. p e) k v r.permits,
  count_entries-remove-le (λ k e. p e) k r.permits,
)

-- What an admission found: its permit is well formed, and each limit leaves room.
pub record HasRoom (l : UploadAdmissionLimits) (r : TransferRegistry) (v : UploadPermit)
    : Type 0 where
  pub valid : permit_is_valid v ≡ true
  pub global : 0 < l.global → held (λ e. true) r < l.global
  pub resource :
      (v.dir_id == "") ≡ false → 0 < l.per_resource → held (in_resource v.dir_id) r < l.per_resource
  pub owner :
      0 < owner_limit v.owner_type l
      → held (same_owner v.owner_type v.owner_id) r < owner_limit v.owner_type l

counted_resource :
    (b : Bool) (p : UploadPermit → Bool) (m : Dict UploadPermit)
    → b ≡ true
    → count_entries (λ k e. b && p e) m ≡ count_entries (λ k e. p e) m
counted_resource true p m h = refl
counted_resource false p m h = cc

module _ (l : UploadAdmissionLimits) (r : TransferRegistry) (v : UploadPermit) where
  -- An admission is granted exactly when every limit leaves room, and registers the permit.
  pub try_acquire-HasRoom :
      {q : TransferRegistry}
      → try_acquire_upload_permit r (some v) l ≡ admitted q
      → HasRoom l r v × (q ≡ record r { permits = put v.id v r.permits })
  unfolding try_acquire_upload_permit
  try_acquire-HasRoom e = (
    record {
      valid = ground arith;
      global = λ h. ground (arith, size-count r.permits);
      resource = λ n h.
          ground (arith, counted_resource (not (v.dir_id == "")) (in_resource v.dir_id) r.permits);
      owner = λ h. ground arith;
    },
    ground arith,
  )

  pub HasRoom-try_acquire :
      HasRoom l r v
      → try_acquire_upload_permit r (some v) l
        ≡ admitted (record r { permits = put v.id v r.permits })
  unfolding try_acquire_upload_permit
  HasRoom-try_acquire h = ground (
    arith,
    size-count r.permits,
    counted_resource (not (v.dir_id == "")) (in_resource v.dir_id) r.permits,
  )

-- A test on the resource or on the owner of a permit, at a permit that passes it.
same_resource :
    (v : UploadPermit) (d : String) (P : String → Type 0)
    → (v.dir_id == d) ≡ true
    → P v.dir_id
    → P d
same_resource v d P e h = subst P ((eq_iff v.dir_id d).0 e) h

module _ (l : UploadAdmissionLimits) (r : TransferRegistry) (v : UploadPermit) where
  room_for_resource :
      HasRoom l r v
      → (d : String) → (d == "") ≡ false
      → 0 < l.per_resource
      → (v.dir_id == d) ≡ true
      → held (in_resource d) r < l.per_resource
  room_for_resource h d n p e =
      same_resource v d (λ x. (x == "") ≡ false → held (in_resource x) r < l.per_resource) e
        (λ m. h.resource m p) n

  room_for_owner :
      HasRoom l r v
      → (type o : String) → 0 < owner_limit type l
      → same_owner type o v ≡ true
      → held (same_owner type o) r < owner_limit type l
  room_for_owner h type o p e =
      subst (λ t. 0 < owner_limit t l → held (same_owner t o) r < owner_limit t l)
        ((eq_iff v.owner_type type).0 (ground arith))
        (subst
          (λ x.
            0 < owner_limit v.owner_type l
            → held (same_owner v.owner_type x) r < owner_limit v.owner_type l)
          ((eq_iff v.owner_id o).0 (ground arith)) h.owner)
        p

  pub acquired-IsWithin :
      IsWithin l r → HasRoom l r v → IsWithin l (record r { permits = put v.id v r.permits })
  unfolding owner_limit
  acquired-IsWithin w h = record {
    global = λ p. ground (arith, h.global p, put-held (λ e. true) v.id v r);
    resource = λ d n p.
        ground
          (arith, w.resource d n p, room_for_resource h d n p, put-held (in_resource d) v.id v r);
    session = λ o p. ground (
      arith,
      w.session o p,
      room_for_owner h "session" o p,
      put-held (same_owner "session" o) v.id v r,
    );
    token = λ o p. ground (
      arith,
      w.token o p,
      room_for_owner h "token" o p,
      put-held (same_owner "token" o) v.id v r,
    );
  }
