-- ===== src/Transfers/Binding.antt =====
-- Binding, releasing and handing over upload permits (backend/internal/server/transfers.go).
use file_transit_desk.Prelude.{
  ℕ, ◌≤◌, ◌<◌, String, ◌==◌, eq_iff, ◌≡◌, Bool, true, false, some, arith, Option-cases, Bool-cases,
  get, put, remove, count_entries, count_entries-remove-le, count_entries-remove-lt,
  count_entries-others, count_entries-put, subst, sym, ◌⊎◌, inl, inr,
}
use file_transit_desk.Transfers.Types.{
  UploadAdmissionLimits, UploadPermit, TransferRegistry, admitted,
}
use file_transit_desk.Transfers.Permits.{
  in_resource, same_owner, owner_limit, permit_is_valid, try_acquire_upload_permit,
  bind_upload_permit, release_upload_permit,
}
use file_transit_desk.Transfers.Admission.{IsWithin, held, HasRoom, HasRoom-try_acquire}

-- What a binding found: the permit is live; it is bound to that resource already, or was unbound
-- and the resource has room.
module _ (r : TransferRegistry) (id d f : String) (limit : ℕ) where
  pub record BindsNew (v : UploadPermit) (q : TransferRegistry) : Type 0 where
    pub found : get id r.permits ≡ some v
    pub live : v.canceling ≡ false
    pub unbound : v.dir_id ≡ ""
    pub named : (d == "") ≡ false
    pub room : 0 < limit → count_entries (λ k e. in_resource d e) (remove id r.permits) < limit
    pub result : q ≡ record r {
      permits = put id (record v { dir_id = d; resource_fingerprint = f }) r.permits;
    }

  pub bind-BindsNew :
      {q : TransferRegistry}
      → bind_upload_permit r id d f limit ≡ admitted q
      → (q ≡ r) ⊎ ((v : UploadPermit) × BindsNew v q)
  unfolding bind_upload_permit
  bind-BindsNew {q} e = elim (Option-cases (get id r.permits)) [
    | inl missing ↦ cc missing
    | inr (v, found) ↦ elim (Bool-cases (v.dir_id == "")) [
      | inl unbound ↦ inr (
        v,
        record {
          found = found;
          live = ground (arith, found);
          unbound = (eq_iff v.dir_id "").0 unbound;
          named = ground (arith, found, unbound);
          room = λ h.
              ground (arith, found, unbound, count_entries-others (in_resource d) id r.permits);
          result = ground (arith, found, unbound);
        },
      )
      | inr bound ↦ inl (ground (arith, found, bound))
    ]
  ]

module _ (l : UploadAdmissionLimits) (r : TransferRegistry) (id d f : String) where
  rebound-held :
      (p : UploadPermit → Bool) (v w : UploadPermit)
      → get id r.permits ≡ some v
      → p w ≡ p v
      → held p (record r { permits = put id w r.permits }) ≤ held p r
  rebound-held p v w e same = ground (
    arith,
    count_entries-put (λ k e. p e) id w r.permits,
    count_entries-remove-le (λ k e. p e) id r.permits,
    count_entries-remove-lt (λ k e. p e) id v r.permits,
  )

  pub bound-IsWithin :
      (v : UploadPermit) (q : TransferRegistry)
      → IsWithin l r
      → BindsNew r id d f l.per_resource v q
      → IsWithin l q
  bound-IsWithin v q w b = rw b.result (record {
    global = λ p. ground (arith, w.global p, rebound-held (λ e. true) v bound b.found);
    resource = λ x n p. ground (
      arith,
      w.resource x n p,
      b.room p,
      eq_iff d x,
      count_entries-put (λ k e. in_resource x e) id bound r.permits,
      count_entries-remove-le (λ k e. in_resource x e) id r.permits,
      resource_room x,
    );
    session =
        λ o p. ground (arith, w.session o p, rebound-held (same_owner "session" o) v bound b.found);
    token = λ o p. ground (arith, w.token o p, rebound-held (same_owner "token" o) v bound b.found);
  })
    where
      bound : UploadPermit
      bound = record v { dir_id = d; resource_fingerprint = f }

      resource_room :
          (x : String)
          → 0 < l.per_resource
          → (d == x) ≡ true
          → count_entries (λ k e. in_resource x e) (remove id r.permits) < l.per_resource
      resource_room x p e =
          subst (λ y. count_entries (λ k e. in_resource y e) (remove id r.permits) < l.per_resource)
            ((eq_iff d x).0 e) (b.room p)

module _ (l : UploadAdmissionLimits) (r : TransferRegistry) where
  released-held :
      (p : UploadPermit → Bool) (id : String) → held p (release_upload_permit r id) ≤ held p r
  unfolding release_upload_permit
  released-held p id = ground (arith, count_entries-remove-le (λ k e. p e) id r.permits)

  pub release-IsWithin : (id : String) → IsWithin l r → IsWithin l (release_upload_permit r id)
  release-IsWithin id w = record {
    global = λ p. omega (arith, w.global p, released-held (λ e. true) id);
    resource = λ d n p. omega (arith, w.resource d n p, released-held (in_resource d) id);
    session = λ o p. omega (arith, w.session o p, released-held (same_owner "session" o) id);
    token = λ o p. omega (arith, w.token o p, released-held (same_owner "token" o) id);
  }

owned-le :
    (l : UploadAdmissionLimits) (r : TransferRegistry) (type o : String)
    → IsWithin l r
    → 0 < owner_limit type l
    → held (same_owner type o) r ≤ owner_limit type l
unfolding owner_limit
owned-le l r type o w p = elim (Bool-cases (type == "session")) [
  | inl s ↦ rw s (
      subst (λ t. held (same_owner t o) r ≤ l.per_session) (sym ((eq_iff type "session").0 s))
        (w.session o (ground arith)))
  | inr n ↦ elim (Bool-cases (type == "token")) [
    | inl s ↦
        rw (n, s)
          (subst (λ t. held (same_owner t o) r ≤ l.per_token) (sym ((eq_iff type "token").0 s))
            (w.token o (ground arith)))
    | inr m ↦ absurd (ground arith)
  ]
]

-- A registered permit, released, makes room for another of the same owner and resource.
module _ (l : UploadAdmissionLimits) (r : TransferRegistry) (id : String) (u : UploadPermit) where
  freed :
      (p : UploadPermit → Bool)
      → get id r.permits ≡ some u
      → (id == "") ≡ false
      → p u ≡ true
      → held p (release_upload_permit r id) < held p r
  unfolding release_upload_permit
  freed p e n h = ground (arith, count_entries-remove-lt (λ k e. p e) id u r.permits)

  release-HasRoom :
      (v : UploadPermit)
      → IsWithin l r
      → get id r.permits ≡ some u
      → (id == "") ≡ false
      → permit_is_valid v ≡ true
      → v.owner_type ≡ u.owner_type
      → v.owner_id ≡ u.owner_id
      → v.dir_id ≡ u.dir_id
      → HasRoom l (release_upload_permit r id) v
  unfolding owner_limit permit_is_valid
  release-HasRoom v w e n ok t o d = record {
    valid = ok;
    global = λ p. ground (arith, w.global p, freed (λ e. true) e n);
    resource = λ m p. ground (
      arith,
      w.resource v.dir_id m p,
      freed (in_resource v.dir_id) e n,
      eq_iff u.dir_id v.dir_id,
    );
    owner = λ p. ground (
      arith,
      owned-le l r v.owner_type v.owner_id w p,
      freed (same_owner v.owner_type v.owner_id) e n,
      eq_iff u.owner_type v.owner_type,
      eq_iff u.owner_id v.owner_id,
    );
  }

  -- In a registry that keeps its limits, releasing a permit that is registered under an id that is
  -- not empty makes room for any valid permit of the same owner and the same resource: its admission
  -- succeeds.
  pub acquire-after-release :
      (v : UploadPermit)
      → IsWithin l r
      → get id r.permits ≡ some u
      → (id == "") ≡ false
      → permit_is_valid v ≡ true
      → v.owner_type ≡ u.owner_type
      → v.owner_id ≡ u.owner_id
      → v.dir_id ≡ u.dir_id
      → let q = release_upload_permit r id in
        try_acquire_upload_permit q (some v) l
        ≡ admitted (record q { permits = put v.id v q.permits })
  acquire-after-release v w e n ok t o d =
      HasRoom-try_acquire l _ v (release-HasRoom v w e n ok t o d)
