-- ===== src/Sweep/Roots.antt =====
-- From where the clean-up of temporary files deletes (backend/internal/server/maintenance.go).
use file_transit_desk.Prelude.{
  String, eq_iff, ◌≡◌, ◌≢◌, ◌⊎◌, Bool, true, false, not, ◌||◌, List, [], ◌∷◌, contains, arith, All,
  Bool-cases, inl, inr, refl, sym, subst, suc,
}
use file_transit_desk.Sweep.{
  CleanupRoot, Visit, UploadTempCleanupStats, is_upload_name, is_swept, remove_file, is_old, Walked,
  finished, stopped, broken, CleanupSettings, must_stop, visit, walk, and_then, sweep, stats_of,
}
use file_transit_desk.Transfers.Records.{canonical_temp_path}

-- A configured directory that takes uploads.
pub record TakesUploads (trim_space : String → String) (root : CleanupRoot) : Type 0 where
  pub directory : root.type ≡ "directory"
  pub has_path : trim_space root.path ≢ ""
  pub allowed : root.allow_upload ≡ true

-- One of the visits.
abbrev pub IsAmong : Visit → List Visit → Type 0
IsAmong v [] = ⊥
IsAmong v (x ∷ xs) = (v ≡ x) ⊎ IsAmong v xs

-- A visit of the walk of a directory that takes uploads.
abbrev pub IsFrom : (String → String) → List (CleanupRoot × List Visit × Bool) → Visit → Type 0
IsFrom trim_space [] v = ⊥
IsFrom trim_space ((r, vs, fails) ∷ rs) v =
    (TakesUploads trim_space r × IsAmong v vs) ⊎ IsFrom trim_space rs v

pub remove_done :
    (v : Visit) (s : UploadTempCleanupStats)
    → v.removable ≡ true
    → remove_file v s ≡ record s { removed = suc s.removed; deleted = v ∷ s.deleted }
remove_done v s e = simp (e)

module _ (canonical trim_space : String → String) (active : List String) (l : CleanupSettings) where
  is_swept-TakesUploads :
      (r : CleanupRoot)
      → not (is_swept canonical trim_space active l r) ≡ false
      → TakesUploads trim_space r
  is_swept-TakesUploads r e = record {
    directory = (eq_iff r.type "directory").0 (ground (arith, e));
    has_path = λ p. let y = (eq_iff (trim_space r.path) "").1 p in ground (arith, e, y);
    allowed = ground (arith, e);
  }

  visit-cases :
      (v : Visit) (s : UploadTempCleanupStats)
      → ((visit canonical trim_space active l v s).deleted ≡ s.deleted)
        ⊎ (visit canonical trim_space active l v s ≡ remove_file v s)
  unfolding visit
  visit-cases v s = elim (Bool-cases v.failed) [
    | inl e ↦ inl (rw e refl)
    | inr e ↦ elim (Bool-cases (v.is_dir || not (is_upload_name v.name))) [
      | inl e₂ ↦ inl (rw (e, e₂) refl)
      | inr e₂ ↦
          elim (Bool-cases
            (contains active (canonical_temp_path canonical v.path) || not (is_old l v.modified))) [
              | inl e₃ ↦ inl (rw (e, e₂, e₃) refl)
              | inr e₃ ↦ inr (simp (e, e₂, e₃))
            ]
    ]
  ]

  module _ (P : Visit → Type 0) where
    remove-All :
        (v : Visit) (s : UploadTempCleanupStats)
        → P v
        → All P s.deleted
        → All P (remove_file v s).deleted
    remove-All v s p h = elim (Bool-cases v.removable) [
      | inl e ↦ subst (λ x. All P x.deleted) (sym (remove_done v s e)) (p, h)
      | inr e ↦ rw e h
    ]

    visit-All :
        (v : Visit) (s : UploadTempCleanupStats)
        → P v
        → All P s.deleted
        → All P (visit canonical trim_space active l v s).deleted
    visit-All v s p h = elim (visit-cases v s) [
      | inl e ↦ subst (All P) (sym e) h
      | inr e ↦ subst (λ x. All P x.deleted) (sym e) (remove-All v s p h)
    ]

    walk-All :
        (vs : List Visit) (fails : Bool) (s : UploadTempCleanupStats)
        → All P vs
        → All P s.deleted
        → All P (stats_of (walk canonical trim_space active l vs fails s)).deleted
    unfolding walk
    walk-All [] true s a h = h
    walk-All [] false s a h = h
    walk-All (v ∷ vs) fails s a h = elim (Bool-cases (must_stop l s v)) [
      | inl e ↦ rw e h
      | inr e ↦ rw e (walk-All vs fails _ a.1 (visit-All v _ a.0 h))
    ]

    and_then-All :
        (w : Walked) (rest : UploadTempCleanupStats → Walked)
        → ((s : UploadTempCleanupStats) → All P s.deleted → All P (stats_of (rest s)).deleted)
        → All P (stats_of w).deleted
        → All P (stats_of (and_then canonical trim_space active l w rest)).deleted
    and_then-All (finished s) rest k h = k s h
    and_then-All (stopped c s) rest k h = h
    and_then-All (broken s) rest k h = h

    -- The visits of every directory that takes uploads meet `P`.
    abbrev AllSwept : List (CleanupRoot × List Visit × Bool) → Type 0
    AllSwept [] = Unit
    AllSwept ((r, vs, fails) ∷ rs) = (TakesUploads trim_space r → All P vs) × AllSwept rs

    sweep-All :
        (rs : List (CleanupRoot × List Visit × Bool)) (s : UploadTempCleanupStats)
        → AllSwept rs
        → All P s.deleted
        → All P (stats_of (sweep canonical trim_space active l rs s)).deleted
    unfolding sweep
    sweep-All [] s a h = h
    sweep-All ((r, vs, fails) ∷ rs) s a h =
        elim (Bool-cases (not (is_swept canonical trim_space active l r))) [
          | inl e ↦ rw e (sweep-All rs s a.1 h)
          | inr e ↦ rw e (
              and_then-All (walk canonical trim_space active l vs fails s) _
                (λ q. sweep-All rs q a.1) (walk-All vs fails s (a.0 (is_swept-TakesUploads r e)) h))
        ]

All-among : (vs : List Visit) (P : Visit → Type 0) → ((v : Visit) → IsAmong v vs → P v) → All P vs
All-among [] P k = tt
All-among (v ∷ vs) P k = (k v (inl refl), All-among vs P (λ x m. k x (inr m)))

module _ (canonical trim_space : String → String) (active : List String) (l : CleanupSettings) where
  AllSwept-self :
      (P : Visit → Type 0) (rs : List (CleanupRoot × List Visit × Bool))
      → ((v : Visit) → IsFrom trim_space rs v → P v)
      → AllSwept canonical trim_space active l P rs
  AllSwept-self P [] k = tt
  AllSwept-self P ((r, vs, fails) ∷ rs) k =
      ((λ t. All-among vs P (λ v m. k v (inl (t, m)))), AllSwept-self P rs (λ v m. k v (inr m)))

  -- Every file that a sweep deletes was visited in a configured directory that takes uploads.
  pub sweep-IsFrom :
      (rs : List (CleanupRoot × List Visit × Bool)) (s : UploadTempCleanupStats)
      → s.deleted ≡ []
      → All (IsFrom trim_space rs) (stats_of (sweep canonical trim_space active l rs s)).deleted
  sweep-IsFrom rs s e =
      sweep-All canonical trim_space active l (IsFrom trim_space rs) rs s
        (AllSwept-self (IsFrom trim_space rs) rs (λ v m. m))
        (subst (All (IsFrom trim_space rs)) (sym e) tt)
