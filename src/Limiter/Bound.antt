-- ===== src/Limiter/Bound.antt =====
-- What a key is granted over one window (backend/internal/server/limiter.go).
use file_transit_desk.Prelude.{
  ℕ, ◌+◌, ◌≤◌, ◌<◌, suc, String, ◌==◌, eq_iff, ◌≡◌, refl, ◌∙◌, ◌⊎◌, Bool, true, false, ◌&&◌, ◌||◌,
  Option, none, some, List, [], ◌∷◌, arith, contains, Dict, get, keep, All, get-put, get-keep,
  HasNoDup, Option-cases, Bool-cases, if◌then◌else◌, inl, inr,
}
use file_transit_desk.Limiter.Window.{
  WindowLimitEntry, LimitSpec, WindowLimiter, is_live, cleanup, is_disabled, merge, add_spec,
  normalize, disabled_keys, drop_disabled, decide, allow_many,
}
use file_transit_desk.Limiter.Capacity.{normalize-HasNoDup, IsBounded, allow_many-IsBounded}
use file_transit_desk.Limiter.Counting.{
  settled, charged, decide-allowed, decide-denied, decide-room, get-drop_disabled,
}

-- Whether one of the specifications is for the key.
unfoldable pub mentions : String → List LimitSpec → Bool
mentions key [] = false
mentions key (spec ∷ specs) = (spec.key == key) || mentions key specs

-- How many calls that name the key are allowed.
unfoldable pub grants : String → WindowLimiter → List (ℕ × List LimitSpec) → ℕ
unfolding mentions
grants key l [] = 0
grants key l ((now, specs) ∷ calls) =
    let v = allow_many l now specs in
    let rest = grants key v.limiter calls in
    if v.allowed && mentions key specs then suc rest else rest

module _ (key : String) (limit window : ℕ) where
  -- Whenever the key is named, it is with this limit and window.
  abbrev pub IsUniform : LimitSpec → Type 0
  IsUniform spec = ((spec.key == key) ≡ false) ⊎ ((spec.limit ≡ limit) × (spec.window ≡ window))

  abbrev brief : Option LimitSpec → Option (ℕ × ℕ)
  brief none = none
  brief (some s) = some (s.limit, s.window)

  abbrev asked : Bool → Option (ℕ × ℕ)
  asked b = if b then some (limit, window) else none

  add_spec-brief :
      (spec : LimitSpec) (m : Dict LimitSpec) (b : Bool)
      → IsUniform spec
      → brief (get key m) ≡ asked b
      → brief (get key (add_spec spec m)) ≡ asked ((spec.key == key) || b)
  add_spec-brief spec m b u h = elim (Option-cases (get spec.key m)) [
    | inl e ↦ ground (arith, e, u, get-put spec.key key spec m, eq_iff spec.key key)
    | inr (old, e) ↦
        ground (arith, e, u, get-put spec.key key (merge old spec) m, eq_iff spec.key key)
  ]

  next_brief :
      (spec : LimitSpec) (m : Dict LimitSpec) (b : Bool)
      → 0 < limit
      → 0 < window
      → (key == "") ≡ false
      → IsUniform spec
      → brief (get key m) ≡ asked b
      → brief (get key (if (spec.key == "") || is_disabled spec then m else add_spec spec m))
        ≡ asked ((spec.key == key) || b)
  next_brief spec m b pl pw n u h =
      ground (arith, u, add_spec-brief spec m b u h, eq_iff spec.key key, eq_iff spec.key "")

  normalize-brief :
      (specs : List LimitSpec) (m : Dict LimitSpec) (b : Bool)
      → 0 < limit
      → 0 < window
      → (key == "") ≡ false
      → All IsUniform specs
      → brief (get key m) ≡ asked b
      → brief (get key (normalize specs m)) ≡ asked (mentions key specs || b)
  unfolding normalize mentions
  normalize-brief [] m b pl pw n u h = h
  normalize-brief (spec ∷ specs) m b pl pw n u h =
      normalize-brief specs (if (spec.key == "") || is_disabled spec then m else add_spec spec m)
        ((spec.key == key) || b) pl pw n u.1 (next_brief spec m b pl pw n u.0 h)
      ∙ ground arith

  normalized-brief :
      (specs : List LimitSpec)
      → 0 < limit
      → 0 < window
      → (key == "") ≡ false
      → All IsUniform specs
      → brief (get key (normalize specs [])) ≡ asked (mentions key specs)
  unfolding get
  normalized-brief specs pl pw n u = normalize-brief specs [] false pl pw n u refl ∙ ground arith

  disabled_keys-not_contains :
      (specs : List LimitSpec)
      → 0 < limit
      → 0 < window
      → All IsUniform specs
      → contains (disabled_keys specs) key ≡ false
  unfolding disabled_keys contains
  disabled_keys-not_contains [] pl pw u = refl
  disabled_keys-not_contains (spec ∷ specs) pl pw u =
      ground (arith, u.0, disabled_keys-not_contains specs pl pw u.1)

-- A key's state within the window that opened at `from` or later: not counted yet, or counted `g`
-- times in an entry that ends no earlier than `from + window`.
module _ (key : String) (limit window from : ℕ) where
  abbrev pub Tally : ℕ → Option WindowLimitEntry → Type 0
  Tally g none = g ≡ 0
  Tally g (some e) =
      (e.count ≡ g) × (e.window ≡ window) × (from + window ≤ e.expires_at) × (g ≤ limit)

  Tally-bound : (g : ℕ) (o : Option WindowLimitEntry) → Tally g o → g ≤ limit
  Tally-bound g none t = omega arith
  Tally-bound g (some e) t = t.3

  -- An entry of the window is neither ended nor of another length, so it stays.
  denied-Tally :
      (g : ℕ) (m : Bool) (os : Option LimitSpec) (o : Option WindowLimitEntry)
      → brief key limit window os ≡ asked key limit window m
      → Tally g o
      → Tally g (settled os o)
  denied-Tally g m none o b t = t
  denied-Tally g m (some s) none b t = t
  denied-Tally g m (some s) (some e) b t = ground arith

  allowed-Tally :
      (g now : ℕ) (m : Bool) (os : Option LimitSpec) (o : Option WindowLimitEntry)
      → 0 < limit
      → from ≤ now
      → brief key limit window os ≡ asked key limit window m
      → Tally g o
      → ((s : LimitSpec) (e : WindowLimitEntry)
          → os ≡ some s
          → settled (some s) o ≡ some e
          → e.count < s.limit)
      → Tally (if m then suc g else g) (charged now os (settled os o))
  allowed-Tally g now m none o pl f b t room = ground arith
  allowed-Tally g now m (some s) none pl f b t room = ground arith
  allowed-Tally g now m (some s) (some e) pl f b t room = ground (arith, room s e refl)

  cleaned-same :
      (l : WindowLimiter) (now g : ℕ) (specs : List LimitSpec)
      → HasNoDup l.entries
      → now < from + window
      → contains (disabled_keys specs) key ≡ false
      → Tally g (get key l.entries)
      → get key (drop_disabled (disabled_keys specs) (normalize specs []) (cleanup now l.entries))
        ≡ get key l.entries
  unfolding cleanup
  cleaned-same l now g specs d closes off t = elim (Option-cases (get key l.entries)) [
    | inl e ↦ ground (
      arith,
      e,
      get-drop_disabled key (disabled_keys specs) (normalize specs [])
          (keep (is_live now) l.entries),
      get-keep (is_live now) key l.entries d,
    )
    | inr (x, e) ↦ ground (
      arith,
      e,
      get-drop_disabled key (disabled_keys specs) (normalize specs [])
          (keep (is_live now) l.entries),
      get-keep (is_live now) key l.entries d,
    )
  ]

  -- A call of the program, at a time within the window, that names the key uniformly.
  abbrev pub IsCall : ℕ × List LimitSpec → Type 0
  IsCall (now, specs) =
      (from ≤ now) × (now < from + window) × All (IsUniform key limit window) specs

  module _ (pl : 0 < limit) (pw : 0 < window) (n : (key == "") ≡ false) where
    step-Tally :
        (l : WindowLimiter) (now g : ℕ) (specs : List LimitSpec)
        → HasNoDup l.entries
        → IsCall (now, specs)
        → Tally g (get key l.entries)
        → Tally
            (if (allow_many l now specs).allowed && mentions key specs then suc g else g)
            (get key (allow_many l now specs).limiter.entries)
    unfolding allow_many
    step-Tally l now g specs d c t = elim (Bool-cases (allow_many l now specs).allowed) [
      | inl yes' ↦
          rw (decide-allowed l now norm cleaned distinct key yes', same)
            (ground (
              arith,
              yes',
              allowed-Tally g now (mentions key specs) (get key norm) (get key l.entries) pl c.0
                  named t,
              room yes',
            ))
      | inr no' ↦
          rw (decide-denied l now norm cleaned distinct key no', same)
            (ground (
              arith,
              no',
              denied-Tally g (mentions key specs) (get key norm) (get key l.entries) named t,
            ))
    ]
      where
        norm : Dict LimitSpec
        norm = normalize specs []

        cleaned : Dict WindowLimitEntry
        cleaned = drop_disabled (disabled_keys specs) norm (cleanup now l.entries)

        distinct : HasNoDup norm
        distinct = normalize-HasNoDup specs [] tt

        named : brief key limit window (get key norm) ≡ asked key limit window (mentions key specs)
        named = normalized-brief key limit window specs pl pw n c.2

        same : get key cleaned ≡ get key l.entries
        same =
            cleaned-same l now g specs d c.1
              (disabled_keys-not_contains key limit window specs pl pw c.2) t

        room :
            (decide l now norm cleaned).allowed ≡ true
            → (s : LimitSpec) (e : WindowLimitEntry) → get key norm ≡ some s
            → settled (some s) (get key l.entries) ≡ some e
            → e.count < s.limit
        room h s e p q = decide-room l now norm cleaned distinct key s e h p (rw same q)

    grants-Tally :
        (l : WindowLimiter) (g : ℕ) (calls : List (ℕ × List LimitSpec))
        → IsBounded l
        → All IsCall calls
        → Tally g (get key l.entries)
        → grants key l calls + g ≤ limit
    unfolding grants
    grants-Tally l g [] b c t = omega (arith, Tally-bound g (get key l.entries) t)
    grants-Tally l g ((now, specs) ∷ calls) b c t = ground (
      arith,
      grants-Tally (allow_many l now specs).limiter
          (if (allow_many l now specs).allowed && mentions key specs then suc g else g) calls
          (allow_many-IsBounded l now specs b) c.1 (step-Tally l now g specs b.distinct c.0 t),
    )

    -- From a limiter that is within its capacity and has not counted the key, over any calls within
    -- one window, mixed with calls for other keys in any way, at most the limit of those that name
    -- the key are allowed, if the key is not empty and is always named with that limit and window,
    -- which are set.
    pub grants-le :
        (l : WindowLimiter) (calls : List (ℕ × List LimitSpec))
        → IsBounded l
        → get key l.entries ≡ none
        → All IsCall calls
        → grants key l calls ≤ limit
    grants-le l calls b e c = omega (arith, grants-Tally l 0 calls b c (rw e refl))
