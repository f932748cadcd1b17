-- ===== src/Sweep/Safety.antt =====
-- What the clean-up of temporary files deletes (backend/internal/server/maintenance.go).
use file_transit_desk.Prelude.{
  ℕ, suc, ◌+◌, ◌≤◌, String, ◌≡◌, refl, ap, eq_iff, ◌==◌, get, some, sym, subst, Bool, true, false,
  not, ◌||◌, List, [], ◌∷◌, contains, length, arith, All, Bool-cases, Option-cases, inl, inr,
}
use file_transit_desk.Sweep.{
  CleanupRoot, is_upload_name, is_swept, Visit, UploadTempCleanupStats, no_stats, skip, remove_file,
  is_old, Walked, finished, stopped, broken, CleanupSettings, must_stop, visit, walk, and_then,
  sweep, run_upload_temp_cleanup, stats_of,
}
use file_transit_desk.Sweep.Roots.{IsFrom, remove_done, sweep-IsFrom}
use file_transit_desk.Sweep.Names.{IsUploadName, is_upload_name-IsUploadName}
use file_transit_desk.Transfers.Types.{
  TransferRegistry, TransferRecord, UploadAdmissionLimits, new_transfer_registry,
}
use file_transit_desk.Transfers.Records.{active_temp_paths, canonical_temp_path, is_completed}
use file_transit_desk.Transfers.History.{Call, run}
use file_transit_desk.Transfers.Retention.{active_temp_paths-contains}

-- Modified, and no later than the retention before the start.
old_enough :
    (l : CleanupSettings) (v : Visit)
    → is_old l v.modified ≡ true
    → (t : ℕ) × (v.modified ≡ some t) × (t + l.retention ≤ l.started)
old_enough l v e = elim (Option-cases v.modified) [
  | inl n ↦ ground (arith, e, n)
  | inr (t, s) ↦ (t, s, ground (arith, e, s))
]

module _ (canonical : String → String) (active : List String) (l : CleanupSettings) where
  -- An old temporary upload file that no running transfer needs.
  pub record IsAbandoned (v : Visit) : Type 0 where
    pub upload : IsUploadName v.name
    pub file : v.is_dir ≡ false
    pub unneeded : contains active (canonical_temp_path canonical v.path) ≡ false
    pub old : (t : ℕ) × (v.modified ≡ some t) × (t + l.retention ≤ l.started)

  pub record IsCareful (s : UploadTempCleanupStats) : Type 0 where
    pub abandoned : All IsAbandoned s.deleted
    pub counted : s.removed ≡ length s.deleted
    pub bounded : s.removed + s.skipped ≤ s.scanned
    pub limited : s.scanned ≤ l.max_entries

  -- The entry is counted, and no more.
  pass-IsCareful :
      (s : UploadTempCleanupStats)
      → suc s.scanned ≤ l.max_entries
      → IsCareful s
      → IsCareful (record s { scanned = suc s.scanned })
  pass-IsCareful s n h = record {
    abandoned = h.abandoned;
    counted = h.counted;
    bounded = omega (arith, h.bounded);
    limited = n;
  }

  skip-IsCareful :
      (s : UploadTempCleanupStats)
      → suc s.scanned ≤ l.max_entries
      → IsCareful s
      → IsCareful (skip (record s { scanned = suc s.scanned }))
  skip-IsCareful s n h = record {
    abandoned = h.abandoned;
    counted = h.counted;
    bounded = omega (arith, h.bounded);
    limited = n;
  }

  remove-IsCareful :
      (v : Visit) (s : UploadTempCleanupStats)
      → suc s.scanned ≤ l.max_entries
      → IsCareful s
      → IsAbandoned v
      → IsCareful (remove_file v (record s { scanned = suc s.scanned }))
  remove-IsCareful v s n h a = elim (Bool-cases v.removable) [
    | inl e ↦ subst IsCareful (sym (remove_done v _ e)) (record {
      abandoned = (a, h.abandoned);
      counted = ap suc h.counted;
      bounded = omega (arith, h.bounded);
      limited = n;
    })
    | inr e ↦ rw e (skip-IsCareful s n h)
  ]

module _ (canonical trim_space : String → String) (active : List String) (l : CleanupSettings) where
  remove_visit :
      (v : Visit) (s : UploadTempCleanupStats)
      → v.failed ≡ false
      → (v.is_dir || not (is_upload_name v.name)) ≡ false
      → (contains active (canonical_temp_path canonical v.path) || not (is_old l v.modified))
        ≡ false
      → visit canonical trim_space active l v s ≡ remove_file v s
  unfolding visit
  remove_visit v s e e₂ e₃ = simp (e, e₂, e₃)

  -- A visit that was counted.
  visit-IsCareful :
      (v : Visit) (s : UploadTempCleanupStats)
      → suc s.scanned ≤ l.max_entries
      → IsCareful canonical active l s
      → IsCareful canonical active l
          (visit canonical trim_space active l v (record s { scanned = suc s.scanned }))
  unfolding visit
  visit-IsCareful v s n h = elim (Bool-cases v.failed) [
    | inl e ↦ rw e (skip-IsCareful canonical active l s n h)
    | inr e ↦ elim (Bool-cases (v.is_dir || not (is_upload_name v.name))) [
      | inl e₂ ↦ rw (e, e₂) (pass-IsCareful canonical active l s n h)
      | inr e₂ ↦
          elim (Bool-cases
            (contains active (canonical_temp_path canonical v.path) || not (is_old l v.modified))) [
              | inl e₃ ↦ rw (e, e₂, e₃) (skip-IsCareful canonical active l s n h)
              | inr e₃ ↦ subst (IsCareful canonical active l) (sym (remove_visit v _ e e₂ e₃)) (
                  remove-IsCareful canonical active l v s n h (record {
                    upload = is_upload_name-IsUploadName v.name (ground (arith, e₂));
                    file = ground (arith, e₂);
                    unneeded = ground (arith, e₃);
                    old = old_enough l v (ground (arith, e₃));
                  }))
            ]
    ]
  ]

  walk-IsCareful :
      (vs : List Visit) (fails : Bool) (s : UploadTempCleanupStats)
      → IsCareful canonical active l s
      → IsCareful canonical active l (stats_of (walk canonical trim_space active l vs fails s))
  unfolding walk
  walk-IsCareful [] true s h = record {
    abandoned = h.abandoned;
    counted = h.counted;
    bounded = h.bounded;
    limited = h.limited;
  }
  walk-IsCareful [] false s h = h
  walk-IsCareful (v ∷ vs) fails s h = elim (Bool-cases (must_stop l s v)) [
    | inl e ↦ rw e (record {
      abandoned = h.abandoned;
      counted = h.counted;
      bounded = h.bounded;
      limited = h.limited;
    })
    | inr e ↦ rw e (walk-IsCareful vs fails _ (visit-IsCareful v s (ground (arith, e)) h))
  ]

  and_then-IsCareful :
      (w : Walked) (rest : UploadTempCleanupStats → Walked)
      → ((s : UploadTempCleanupStats)
          → IsCareful canonical active l s
          → IsCareful canonical active l (stats_of (rest s)))
      → IsCareful canonical active l (stats_of w)
      → IsCareful canonical active l (stats_of (and_then canonical trim_space active l w rest))
  and_then-IsCareful (finished s) rest k h = k s h
  and_then-IsCareful (stopped c s) rest k h = h
  and_then-IsCareful (broken s) rest k h = h

  sweep-IsCareful :
      (rs : List (CleanupRoot × List Visit × Bool)) (s : UploadTempCleanupStats)
      → IsCareful canonical active l s
      → IsCareful canonical active l (stats_of (sweep canonical trim_space active l rs s))
  unfolding sweep
  sweep-IsCareful [] s h = h
  sweep-IsCareful ((r, vs, fails) ∷ rs) s h =
      elim (Bool-cases (not (is_swept canonical trim_space active l r))) [
        | inl e ↦ rw e (sweep-IsCareful rs s h)
        | inr e ↦ rw e (
            and_then-IsCareful (walk canonical trim_space active l vs fails s) _
              (sweep-IsCareful rs) (walk-IsCareful vs fails s h))
      ]

-- Whatever the walks of the roots visit and however they end, the clean-up of temporary files
-- deletes only entries that it visited in a root that is a directory with a path and takes uploads,
-- whose names start with .upload- and end with .tmp, that are no directory, are not in the set of
-- the active ones and were modified no later than the retention before the start; it counts as
-- removed exactly those, removes and skips no more than it scans, and scans no more entries than the
-- maximum.
pub run_upload_temp_cleanup-IsCareful :
    (canonical trim_space : String → String) (r : TransferRegistry) (now : ℕ) (l : CleanupSettings)
    (rs : List (CleanupRoot × List Visit × Bool))
    → let stats = stats_of (run_upload_temp_cleanup canonical trim_space r now l rs).1 in
      IsCareful canonical (active_temp_paths canonical r now).1 l stats
      × All (IsFrom trim_space rs) stats.deleted
unfolding run_upload_temp_cleanup no_stats
run_upload_temp_cleanup-IsCareful canonical trim_space r now l rs = (
  sweep-IsCareful canonical trim_space _ l rs _
      (record { abandoned = tt; counted = refl; bounded = omega arith; limited = omega arith }),
  sweep-IsFrom canonical trim_space _ l rs _ refl,
)

-- A file of the set is none that the set lacks.
other_file :
    (active : List String) (x y : String)
    → contains active x ≡ true
    → contains active y ≡ false
    → (y == x) ≡ false
other_file active x y e n = elim (Bool-cases (y == x)) [
  | inl same ↦ ground (arith, e, n, ap (contains active) ((eq_iff y x).0 same))
  | inr other ↦ other
]

-- The abandoned files among those deleted are not in the set, so none is `x` of it.
none_deleted :
    (canonical : String → String) (active : List String) (l : CleanupSettings) (x : String)
    → contains active x ≡ true
    → (vs : List Visit) → All (IsAbandoned canonical active l) vs
    → All (λ v. (canonical_temp_path canonical v.path == x) ≡ false) vs
none_deleted canonical active l x e [] h = tt
none_deleted canonical active l x e (v ∷ vs) h =
    (other_file active x _ e h.0.unneeded, none_deleted canonical active l x e vs h.1)

-- After any calls on a new registry, the clean-up of temporary files deletes no file whose canonical
-- path is that of a registered transfer that is not completed, has no time of removal and has a
-- temporary file.
pub running_upload_spared :
    (canonical trim_space : String → String) (limits : UploadAdmissionLimits) (cs : List Call)
    (id : String) (rec : TransferRecord) (now : ℕ) (l : CleanupSettings)
    (rs : List (CleanupRoot × List Visit × Bool))
    → let r = run canonical limits new_transfer_registry cs in
      get id r.records ≡ some rec
      → is_completed rec.status ≡ false
      → rec.keep_until ≡ 0
      → (canonical_temp_path canonical rec.temp_path == "") ≡ false
      → All
          (λ v.
            (canonical_temp_path canonical v.path == canonical_temp_path canonical rec.temp_path)
            ≡ false)
          (stats_of (run_upload_temp_cleanup canonical trim_space r now l rs).1).deleted
running_upload_spared canonical trim_space limits cs id rec now l rs e a k n =
    let r : TransferRegistry = run canonical limits new_transfer_registry cs in
    none_deleted canonical _ l _ (active_temp_paths-contains canonical limits cs id rec now e a k n)
      _ (run_upload_temp_cleanup-IsCareful canonical trim_space r now l rs).0.abandoned
