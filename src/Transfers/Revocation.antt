-- ===== src/Transfers/Revocation.antt =====
-- A permit over histories after a cancellation (backend/internal/server/transfers.go).
use file_transit_desk.Prelude.{
  ℕ, String, ◌==◌, eq_iff, ◌≡◌, subst, true, false, some, List, [], ◌∷◌, arith, contains, get, put,
  get-put, get-remove, get-map_values, All, Option-cases, inl, inr,
}
use file_transit_desk.Transfers.Types.{
  UploadAdmissionLimits, UploadPermit, TransferRegistry, refused, scoped_capacity,
}
use file_transit_desk.Transfers.Permits.{
  try_acquire_upload_permit, bind_upload_permit, release_upload_permit, has_bound_upload_permit,
}
use file_transit_desk.Transfers.Records.{
  cancel_uploads_by_dir_ids, mark_permit, add, update, remove_transfer, cancel_transfer,
  purge_expired_records,
}
use file_transit_desk.Transfers.Admission.{try_acquire-HasRoom}
use file_transit_desk.Transfers.Binding.{bind-BindsNew}
use file_transit_desk.Transfers.Cancellation.{IsRevoked, revoked_refused, cancel_uploads-IsRevoked}
use file_transit_desk.Transfers.History.{
  Call, acquires, binds, releases, cancels_uploads, adds, updates, removes, cancels, purges, step,
  run, records_only, Admission-cases,
}

-- The call does not register a permit under the id: ids are random.
abbrev pub IsOther : String → Call → Type 0
IsOther id (acquires p) = (p.id == id) ≡ false
IsOther id (binds _ _ _) = Unit {0}
IsOther id (releases _) = Unit {0}
IsOther id (cancels_uploads _ _) = Unit {0}
IsOther id (adds _ _) = Unit {0}
IsOther id (updates _ _) = Unit {0}
IsOther id (removes _ _) = Unit {0}
IsOther id (cancels _ _) = Unit {0}
IsOther id (purges _) = Unit {0}

same_permits-IsRevoked :
    (id : String) (r q : TransferRegistry) → q.permits ≡ r.permits → IsRevoked id r → IsRevoked id q
same_permits-IsRevoked id r q e v u g = v u (subst (λ ps. get id ps ≡ some u) e g)

module _ (canonical : String → String) (l : UploadAdmissionLimits) (id : String) where
  acquired-IsRevoked :
      (r : TransferRegistry) (p : UploadPermit)
      → (p.id == id) ≡ false
      → IsRevoked id r
      → IsRevoked id (record r { permits = put p.id p r.permits })
  acquired-IsRevoked r p n v u g = ground (arith, get-put p.id id p r.permits, v u)

  bound-IsRevoked :
      (r : TransferRegistry) (other : String) (p w : UploadPermit)
      → get other r.permits ≡ some p
      → p.canceling ≡ false
      → IsRevoked id r
      → IsRevoked id (record r { permits = put other w r.permits })
  bound-IsRevoked r other p w found live v u g =
      ground (arith, get-put other id w r.permits, v u, v p, eq_iff other id)

  released-IsRevoked :
      (r : TransferRegistry) (other : String)
      → IsRevoked id r
      → IsRevoked id (release_upload_permit r other)
  unfolding release_upload_permit
  released-IsRevoked r other v u g = ground (arith, get-remove other id r.permits, v u)

  marked-IsRevoked :
      (r : TransferRegistry) (ds : List String) (now : ℕ)
      → IsRevoked id r
      → IsRevoked id (cancel_uploads_by_dir_ids r ds now).0
  unfolding cancel_uploads_by_dir_ids
  marked-IsRevoked r ds now v u g = elim (Option-cases (get id r.permits)) [
    | inl e ↦ ground (arith, e, get-map_values (mark_permit ds) id r.permits)
    | inr (p, e) ↦ ground (arith, e, v p e, get-map_values (mark_permit ds) id r.permits)
  ]

  step-IsRevoked :
      (r : TransferRegistry) (c : Call)
      → IsOther id c
      → IsRevoked id r
      → IsRevoked id (step canonical l r c)
  unfolding step
  step-IsRevoked r (acquires p) n v =
      Admission-cases (try_acquire_upload_permit r (some p) l) {P = IsRevoked id} r v
        λ q e. rw (try_acquire-HasRoom l r p e).1 (acquired-IsRevoked r p n v)
  step-IsRevoked r (binds other d f) n v =
      Admission-cases (bind_upload_permit r other d f l.per_resource) {P = IsRevoked id} r v λ q e.
        elim (bind-BindsNew r other d f l.per_resource e) [
          | inl same ↦ rw same v
          | inr (p, b) ↦ rw b.result (bound-IsRevoked r other p _ b.found b.live v)
        ]
  step-IsRevoked r (releases other) n v = released-IsRevoked r other v
  step-IsRevoked r (cancels_uploads ds now) n v = marked-IsRevoked r ds now v
  step-IsRevoked r (adds rec now) n v =
      same_permits-IsRevoked id r (add canonical r rec now) ((records_only canonical l r).0 rec now)
        v
  step-IsRevoked r (updates k fn) n v =
      same_permits-IsRevoked id r (update r k fn) ((records_only canonical l r).1 k fn) v
  step-IsRevoked r (removes k now) n v =
      same_permits-IsRevoked id r (remove_transfer r k now) ((records_only canonical l r).2 k now) v
  step-IsRevoked r (cancels k now) n v =
      same_permits-IsRevoked id r (cancel_transfer r k now).0 ((records_only canonical l r).3 k now)
        v
  step-IsRevoked r (purges now) n v =
      same_permits-IsRevoked id r (purge_expired_records r now) ((records_only canonical l r).4 now)
        v

  run-IsRevoked :
      (r : TransferRegistry) (cs : List Call)
      → All (IsOther id) cs
      → IsRevoked id r
      → IsRevoked id (run canonical l r cs)
  unfolding run
  run-IsRevoked r [] n v = v
  run-IsRevoked r (c ∷ cs) n v =
      run-IsRevoked (step canonical l r c) cs n.1 (step-IsRevoked r c n.0 v)

  -- Once the uploads of a resource are cancelled, a permit bound to it is bound to nothing and can
  -- be bound to nothing again, whatever is called, until its id is registered anew.
  pub revoked_for_good :
      (r : TransferRegistry) (wanted : List String) (now : ℕ) (u : UploadPermit) (cs : List Call)
      (d f : String) (limit : ℕ)
      → get id r.permits ≡ some u
      → contains wanted u.dir_id ≡ true
      → All (IsOther id) cs
      → let q = run canonical l (cancel_uploads_by_dir_ids r wanted now).0 cs in
        (has_bound_upload_permit q id d f ≡ false)
        × (bind_upload_permit q id d f limit ≡ refused scoped_capacity)
  revoked_for_good r wanted now u cs d f limit e h n =
      revoked_refused _ id d f limit
        (run-IsRevoked _ cs n (cancel_uploads-IsRevoked r wanted now id u e h))
