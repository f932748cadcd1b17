-- ===== src/Limiter/Retry.antt =====
-- The wait that the window limiter of backend/internal/server/limiter.go asks for.
use file_transit_desk.Prelude.{
  ℕ, ◌+◌, ◌-◌, ◌≤◌, ◌<◌, max, String, ◌==◌, eq_refl, ◌≡◌, refl, ◌⊎◌, true, false, none, some, [],
  ◌∷◌, arith, eqb, Dict, get, put, remove, keep, size, size-keep, size-remove, count_entries,
  get-remove, get-keep, HasNoDup, keep-HasNoDup, remove-HasNoDup, Option-cases, Bool-cases, inl,
  inr,
}
use file_transit_desk.Limiter.Window.{
  WindowLimitEntry, LimitSpec, WindowLimiter, Verdict, is_live, cleanup, normalize, disabled_keys,
  drop_disabled, check_keys, decide, allow_many, allow, first_end, is_sooner, sooner, second,
}
use file_transit_desk.Limiter.Capacity.{IsBounded}

abbrev AllLive : ℕ → Dict WindowLimitEntry → Type 0
AllLive now [] = Unit {0}
AllLive now ((k, e) ∷ es) = (now < e.expires_at) × AllLive now es

cleanup-AllLive : (now : ℕ) (es : Dict WindowLimitEntry) → AllLive now (cleanup now es)
unfolding cleanup keep
cleanup-AllLive now [] = tt
cleanup-AllLive now ((k, e) ∷ es) = ground (arith, cleanup-AllLive now es)

remove-AllLive :
    (now : ℕ) (k : String) (es : Dict WindowLimitEntry) → AllLive now es → AllLive now (remove k es)
unfolding remove
remove-AllLive now k [] h = tt
remove-AllLive now k ((j, e) ∷ es) h = ground (arith, remove-AllLive now k es h.1)

-- A later clean-up leaves no more entries.
size-cleanup-later :
    (now later : ℕ) (es : Dict WindowLimitEntry)
    → now ≤ later
    → size (cleanup later es) ≤ size (cleanup now es)
unfolding cleanup keep size
size-cleanup-later now later [] h = omega arith
size-cleanup-later now later ((k, e) ∷ es) h = ground (arith, size-cleanup-later now later es h)

-- A clean-up drops an entry that has ended.
size-cleanup-lt :
    (now : ℕ) (k : String) (e : WindowLimitEntry) (es : Dict WindowLimitEntry)
    → get k es ≡ some e
    → e.expires_at ≤ now
    → size (cleanup now es) < size es
unfolding cleanup keep size get
size-cleanup-lt now k e [] g h = cc
size-cleanup-lt now k e ((j, x) ∷ es) g h =
    ground (arith, size-cleanup-lt now k e es, size-keep (is_live now) es)

-- When the first entry ends, a clean-up makes room.
first_end-room :
    (now best : ℕ) (es : Dict WindowLimitEntry)
    → AllLive now es
    → (first_end now es best ≡ best) ⊎ (size (cleanup (now + first_end now es best) es) < size es)
unfolding first_end cleanup keep size
first_end-room now best [] h = inl refl
first_end-room now best ((k, e) ∷ es) h =
    let best' : ℕ = sooner (e.expires_at - now) best in
    elim (first_end-room now best' es h.1) [
      | inl same ↦ elim (Bool-cases (is_sooner (e.expires_at - now) best)) [
        | inl first ↦
            inr (ground (arith, same, first, size-keep (is_live (now + first_end now es best')) es))
        | inr later ↦ inl (ground (arith, same, later))
      ]
      | inr room ↦ inr (ground (arith, room))
    ]

first_end-pos : (now best : ℕ) (es : Dict WindowLimitEntry) → 0 < best → 0 < first_end now es best
unfolding first_end
first_end-pos now best [] h = h
first_end-pos now best ((k, e) ∷ es) h =
    first_end-pos now (sooner (e.expires_at - now) best) es (ground arith)

first_end-waits :
    (now : ℕ) (es : Dict WindowLimitEntry) → AllLive now es → 0 < size es → 0 < first_end now es 0
unfolding first_end size
first_end-waits now [] h p = absurd (omega arith)
first_end-waits now ((k, e) ∷ es) h p =
    first_end-pos now (sooner (e.expires_at - now) 0) es (ground arith)

full_room :
    (now : ℕ) (es : Dict WindowLimitEntry)
    → AllLive now es
    → 0 < size es
    → size (cleanup (now + max (first_end now es 0) second) es) < size es
full_room now es h p =
    let wait : ℕ = first_end now es 0 in
    elim (first_end-room now 0 es h) [
      | inl none' ↦ absurd (omega (arith, none', first_end-waits now es h p))
      | inr room ↦
          omega
            (arith, room, size-cleanup-later (now + wait) (now + max wait second) es (omega arith))
    ]

module _ (key : String) (limit window : ℕ) (pl : 0 < limit) (pw : 0 < window)
    (n : (key == "") ≡ false) where
  spec : LimitSpec
  spec = record { key = key; limit = limit; window = window }

  allow_lem :
      (l : WindowLimiter) (now : ℕ)
      → allow l now key limit window ≡ decide l now ((key, spec) ∷ []) (cleanup now l.entries)
  unfolding allow_many allow normalize disabled_keys drop_disabled spec get put remove
  allow_lem l now = ground arith

  -- A call is allowed if the key has no entry after clean-up and there is room for one.
  allowed_when_free :
      (l : WindowLimiter) (now : ℕ)
      → get key (cleanup now l.entries) ≡ none
      → size (cleanup now l.entries) < l.max_entries
      → (allow l now key limit window).allowed ≡ true
  unfolding decide check_keys count_entries spec
  allowed_when_free l now e room = rw (allow_lem l now) (ground (arith, e))

  -- Or if the key has an entry with room.
  free_after :
      (now later : ℕ) (es : Dict WindowLimitEntry)
      → HasNoDup es
      → get key es ≡ none
      → get key (cleanup later es) ≡ none
  unfolding cleanup
  free_after now later es d e = ground (arith, e, get-keep (is_live later) key es d)

  record IsFull (l : WindowLimiter) (now : ℕ) (v : Verdict) : Type 0 where
    entry : WindowLimitEntry
    found : get key (cleanup now l.entries) ≡ some entry
    same : v.limiter ≡ record l { entries = cleanup now l.entries }
    wait : v.retry_after ≡ max (entry.expires_at - now) second

  record IsCrowded (l : WindowLimiter) (now : ℕ) (v : Verdict) : Type 0 where
    entries : Dict WindowLimitEntry
    missing : get key entries ≡ none
    live : AllLive now entries
    distinct : HasNoDup entries
    full : l.max_entries ≤ size entries
    smaller : size entries ≤ l.max_entries
    same : v.limiter ≡ record l { entries = entries }
    wait : v.retry_after ≡ max (first_end now entries 0) second

  -- Why a call is denied: the key is full, or a new key finds the limiter full.
  denied-cases :
      (l : WindowLimiter) (now : ℕ)
      → IsBounded l
      → (allow l now key limit window).allowed ≡ false
      → IsFull l now (allow l now key limit window) ⊎ IsCrowded l now (allow l now key limit window)
  unfolding decide check_keys count_entries spec cleanup
  denied-cases l now b = rw (allow_lem l now) (λ h.
      let es : Dict WindowLimitEntry = cleanup now l.entries in
      let d : HasNoDup es = keep-HasNoDup (is_live now) l.entries b.distinct in
      let fits : size es ≤ size l.entries = size-keep (is_live now) l.entries in
      elim (Option-cases (get key es)) [
        | inl e ↦ inr (record {
          entries = es;
          missing = e;
          live = cleanup-AllLive now l.entries;
          distinct = d;
          full = ground (arith, e);
          smaller = omega (arith, fits, b.bounded);
          same = ground (arith, e);
          wait = ground (arith, e);
        })
        | inr (x, e) ↦ elim (Bool-cases (eqb x.window window)) [
          | inl w ↦ inl (record {
            entry = x;
            found = e;
            same = ground (arith, e, w);
            wait = ground (arith, e, w);
          })
          | inr w ↦ inr (record {
            entries = remove key es;
            missing = ground (arith, get-remove key key es, eq_refl key);
            live = remove-AllLive now key es (cleanup-AllLive now l.entries);
            distinct = remove-HasNoDup key es d;
            full = ground (arith, e, w, get-remove key key es, eq_refl key);
            smaller = omega (arith, fits, size-remove key es, b.bounded);
            same = ground (arith, e, w, get-remove key key es, eq_refl key);
            wait = ground (arith, e, w, get-remove key key es, eq_refl key);
          })
        ]
      ])

  full_retry :
      (l : WindowLimiter) (now : ℕ) (v : Verdict)
      → IsBounded l
      → IsFull l now v
      → (second ≤ v.retry_after)
        × ((allow v.limiter (now + v.retry_after) key limit window).allowed ≡ true)
  unfolding cleanup
  full_retry l now v b f =
      let es : Dict WindowLimitEntry = cleanup now l.entries in
      let later : ℕ = now + v.retry_after in
      let d : HasNoDup es = keep-HasNoDup (is_live now) l.entries b.distinct in
      (
        omega (arith, f.wait),
        rw f.same (
            allowed_when_free (record l { entries = es }) later
              (ground (arith, get-keep (is_live later) key es d, f.found, f.wait))
              (omega (
                arith,
                size-cleanup-lt later key f.entry es f.found (omega (arith, f.wait)),
                size-keep (is_live now) l.entries,
                b.bounded,
              ))),
      )

  crowded_retry :
      (l : WindowLimiter) (now : ℕ) (v : Verdict)
      → IsBounded l
      → IsCrowded l now v
      → (second ≤ v.retry_after)
        × ((allow v.limiter (now + v.retry_after) key limit window).allowed ≡ true)
  crowded_retry l now v b f = (
    omega (arith, f.wait),
    rw (f.same, f.wait)
        (allowed_when_free (record l { entries = f.entries })
          (now + max (first_end now f.entries 0) second)
          (free_after now _ f.entries f.distinct f.missing)
          (omega (
            arith,
            full_room now f.entries f.live (omega (arith, f.full, b.positive)),
            f.smaller,
          ))),
  )

  -- For a key, a limit and a window that are set, and a limiter within its capacity, a denied call
  -- asks for a wait of a second at least, and after that wait a call is allowed.
  pub retry_honoured :
      (l : WindowLimiter) (now : ℕ)
      → IsBounded l
      → let v = allow l now key limit window in
        v.allowed ≡ false
        → (second ≤ v.retry_after)
          × ((allow v.limiter (now + v.retry_after) key limit window).allowed ≡ true)
  retry_honoured l now b h = elim (denied-cases l now b h) [
    | inl f ↦ full_retry l now _ b f
    | inr f ↦ crowded_retry l now _ b f
  ]
