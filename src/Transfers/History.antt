-- ===== src/Transfers/History.antt =====
-- Histories of the registry: every call of backend/internal/server/transfers.go as a step.
use file_transit_desk.Prelude.{
  ℕ, ◌≤◌, ◌<◌, String, ◌==◌, eq_iff, ◌≡◌, refl, sym, zero, suc, ◌⊎◌, Bool, true, some, List, [],
  ◌∷◌, arith, count_entries, count_entries-map_values, Bool-cases, subst, inl, inr,
}
use file_transit_desk.Transfers.Types.{
  UploadAdmissionLimits, UploadPermit, TransferRecord, TransferRegistry, Admission, admitted,
  refused, new_transfer_registry,
}
use file_transit_desk.Transfers.Permits.{
  try_acquire_upload_permit, bind_upload_permit, release_upload_permit, in_resource, same_owner,
}
use file_transit_desk.Transfers.Records.{
  add, update, remove_transfer, purge_expired_records, cancel_transfer, cancel_uploads_by_dir_ids,
  mark_permit,
}
use file_transit_desk.Transfers.Admission.{
  IsWithin, after, held, try_acquire-HasRoom, acquired-IsWithin,
}
use file_transit_desk.Transfers.Binding.{bind-BindsNew, bound-IsWithin, release-IsWithin}

-- A call of the registry; `list` and `active_temp_paths` change it by a purge.
pub data Call : Type 0 where
  acquires : UploadPermit → Call
  binds : String → String → String → Call
  releases : String → Call
  cancels_uploads : List String → ℕ → Call
  adds : TransferRecord → ℕ → Call
  updates : String → (TransferRecord → TransferRecord) → Call
  removes cancels : String → ℕ → Call
  purges : ℕ → Call

module _ (canonical : String → String) (l : UploadAdmissionLimits) where
  unfoldable pub step : TransferRegistry → Call → TransferRegistry
  step r (acquires p) = after r (try_acquire_upload_permit r (some p) l)
  step r (binds id d f) = after r (bind_upload_permit r id d f l.per_resource)
  step r (releases id) = release_upload_permit r id
  step r (cancels_uploads ds now) = (cancel_uploads_by_dir_ids r ds now).0
  step r (adds rec now) = add canonical r rec now
  step r (updates id fn) = update r id fn
  step r (removes id now) = remove_transfer r id now
  step r (cancels id now) = (cancel_transfer r id now).0
  step r (purges now) = purge_expired_records r now

  unfoldable pub run : TransferRegistry → List Call → TransferRegistry
  unfolding step
  run r [] = r
  run r (c ∷ cs) = run (step r c) cs

pub Admission-cases :
    (a : Admission) {P : TransferRegistry → Type 0} (r : TransferRegistry)
    → P r
    → ((q : TransferRegistry) → a ≡ admitted q → P q)
    → P (after r a)
Admission-cases (admitted q) r h k = k q refl
Admission-cases (refused e) r h k = h

-- Only the permits decide whether the limits are kept.
same_permits-IsWithin :
    (l : UploadAdmissionLimits) (r q : TransferRegistry)
    → q.permits ≡ r.permits
    → IsWithin l r
    → IsWithin l q
same_permits-IsWithin l r q e w =
    subst (λ ps. IsWithin l (record { records = q.records; permits = ps })) (sym e)
      (record { global = w.global; resource = w.resource; session = w.session; token = w.token })

cancel_uploads-IsWithin :
    (l : UploadAdmissionLimits) (r : TransferRegistry) (ds : List String) (now : ℕ)
    → IsWithin l r
    → IsWithin l (cancel_uploads_by_dir_ids r ds now).0
unfolding cancel_uploads_by_dir_ids
cancel_uploads-IsWithin l r ds now w = record {
  global = λ p. rw (same (λ e. true) (λ e. refl)) (w.global p);
  resource = λ d n p. rw (same (in_resource d) (λ e. ground arith)) (w.resource d n p);
  session = λ o p. rw (same (same_owner "session" o) (λ e. ground arith)) (w.session o p);
  token = λ o p. rw (same (same_owner "token" o) (λ e. ground arith)) (w.token o p);
}
  where
    same :
        (p : UploadPermit → Bool)
        → ((e : UploadPermit) → p (mark_permit ds e) ≡ p e)
        → held p (cancel_uploads_by_dir_ids r ds now).0 ≡ held p r
    same p h = count_entries-map_values p (mark_permit ds) r.permits h

-- A limit of 0 is no limit.
abbrev pub IsCapped : ℕ → ℕ → Type 0
IsCapped limit n = (limit ≡ 0) ⊎ (n ≤ limit)

-- The number of permits in all, bound to a resource, and of an owner.
pub record KeepsLimits (l : UploadAdmissionLimits) (r : TransferRegistry) : Type 0 where
  pub global : IsCapped l.global (held (λ e. true) r)
  pub resource : (d : String) → (d ≡ "") ⊎ IsCapped l.per_resource (held (in_resource d) r)
  pub session : (o : String) → IsCapped l.per_session (held (same_owner "session" o) r)
  pub token : (o : String) → IsCapped l.per_token (held (same_owner "token" o) r)

capped : (limit n : ℕ) → (0 < limit → n ≤ limit) → IsCapped limit n
capped zero n h = inl refl
capped (suc k) n h = inr (h (omega arith))

module _ (canonical : String → String) (l : UploadAdmissionLimits) where
  pub records_only :
      (r : TransferRegistry)
      → ((rec : TransferRecord) (now : ℕ) → (add canonical r rec now).permits ≡ r.permits)
        × ((id : String) (fn : TransferRecord → TransferRecord)
            → (update r id fn).permits ≡ r.permits)
        × ((id : String) (now : ℕ) → (remove_transfer r id now).permits ≡ r.permits)
        × ((id : String) (now : ℕ) → (cancel_transfer r id now).0.permits ≡ r.permits)
        × ((now : ℕ) → (purge_expired_records r now).permits ≡ r.permits)
  unfolding add update remove_transfer cancel_transfer purge_expired_records
  records_only r = (
    λ rec now. refl,
    λ id fn. ground arith,
    λ id now. ground arith,
    λ id now. ground arith,
    λ now. refl,
  )

  pub step-IsWithin :
      (r : TransferRegistry) (c : Call) → IsWithin l r → IsWithin l (step canonical l r c)
  unfolding step
  step-IsWithin r (acquires p) w =
      Admission-cases (try_acquire_upload_permit r (some p) l) {P = IsWithin l} r w λ q e.
        let (room, result) = try_acquire-HasRoom l r p e in
        rw result (acquired-IsWithin l r p w room)
  step-IsWithin r (binds id d f) w =
      Admission-cases (bind_upload_permit r id d f l.per_resource) {P = IsWithin l} r w λ q e.
        elim (bind-BindsNew r id d f l.per_resource e) [
          | inl same ↦ rw same w
          | inr (v, b) ↦ bound-IsWithin l r id d f v q w b
        ]
  step-IsWithin r (releases id) w = release-IsWithin l r id w
  step-IsWithin r (cancels_uploads ds now) w = cancel_uploads-IsWithin l r ds now w
  step-IsWithin r (adds rec now) w = same_permits-IsWithin l r _ ((records_only r).0 rec now) w
  step-IsWithin r (updates id fn) w = same_permits-IsWithin l r _ ((records_only r).1 id fn) w
  step-IsWithin r (removes id now) w = same_permits-IsWithin l r _ ((records_only r).2 id now) w
  step-IsWithin r (cancels id now) w = same_permits-IsWithin l r _ ((records_only r).3 id now) w
  step-IsWithin r (purges now) w = same_permits-IsWithin l r _ ((records_only r).4 now) w

  run-IsWithin :
      (r : TransferRegistry) (cs : List Call) → IsWithin l r → IsWithin l (run canonical l r cs)
  unfolding run
  run-IsWithin r [] w = w
  run-IsWithin r (c ∷ cs) w = run-IsWithin (step canonical l r c) cs (step-IsWithin r c w)

  new-IsWithin : IsWithin l new_transfer_registry
  unfolding new_transfer_registry count_entries
  new-IsWithin = record {
    global = λ p. omega arith;
    resource = λ d n p. omega arith;
    session = λ o p. omega arith;
    token = λ o p. omega arith;
  }

  -- From a new registry, after any calls in any order, every upload limit that is set is kept: in
  -- all, for each resource, for each session and for each token.
  pub run-new-KeepsLimits :
      (cs : List Call) → KeepsLimits l (run canonical l new_transfer_registry cs)
  run-new-KeepsLimits cs =
      let w = run-IsWithin new_transfer_registry cs new-IsWithin in
      record {
        global = capped _ _ w.global;
        resource = λ d. elim (Bool-cases (d == "")) [
          | inl e ↦ inl ((eq_iff d "").0 e)
          | inr n ↦ inr (capped _ _ (w.resource d n))
        ];
        session = λ o. capped _ _ (w.session o);
        token = λ o. capped _ _ (w.token o);
      }
