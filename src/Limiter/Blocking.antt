-- ===== src/Limiter/Blocking.antt =====
-- When the login limiter of backend/internal/server/limiter.go blocks a key, and for how long.
use file_transit_desk.Prelude.{
  ℕ, ◌+◌, ◌-◌, ◌≤◌, ◌<◌, String, eq_refl, ◌≡◌, refl, false, Option, none, some, List, [], ◌∷◌,
  arith, ltb, get, length, All, get-put, get-keep, HasNoDup, put-HasNoDup, keep-HasNoDup,
  Option-cases, inl, inr,
}
use file_transit_desk.Limiter.Login.{
  LoginAttempt, LoginLimiter, attempt_of, is_recent, cleanup_configured, blocked, current_window,
  count_failure, failure,
}

module _ (key : String) (max_failures window block : ℕ) where
  -- Failures of the key at the times, in turn.
  unfoldable pub fail_at : LoginLimiter → List ℕ → LoginLimiter
  fail_at l [] = l
  fail_at l (t ∷ ts) = fail_at (failure l t key max_failures window block) ts

  abbrev pub InWindow : ℕ → ℕ → Type 0
  InWindow from t = (from ≤ t) × (t < from + window)

  abbrev Progress : ℕ → ℕ → Option LoginAttempt → Type 0
  Progress from k none = k ≡ 0
  Progress from k (some a) =
      (a.count ≡ k) × (a.blocked_til ≡ 0) × (from ≤ a.window_from) × (a.window_from < from + window)

  module _ (pm : 0 < max_failures) (pw : 0 < window) (pb : 0 < block) where
    get-failure :
        (l : LoginLimiter) (now : ℕ)
        → HasNoDup l.attempts
        → get key (failure l now key max_failures window block).attempts
          ≡ some (
              count_failure now max_failures block
                (current_window now window (attempt_of (cleanup_configured l now window) key)))
    unfolding failure
    get-failure l now d = ground (
      arith,
      eq_refl key,
      get-put key key
          (count_failure now max_failures block
            (current_window now window (attempt_of (cleanup_configured l now window) key)))
          (cleanup_configured l now window).attempts,
    )

    failure-HasNoDup :
        (l : LoginLimiter) (now : ℕ)
        → HasNoDup l.attempts
        → HasNoDup (failure l now key max_failures window block).attempts
    unfolding failure cleanup_configured
    failure-HasNoDup l now d = ground (
      arith,
      put-HasNoDup key
          (count_failure now max_failures block
            (current_window now window (attempt_of (cleanup_configured l now window) key)))
          (cleanup_configured l now window).attempts
          (keep-HasNoDup (is_recent now window) l.attempts d),
    )

    attempt-cleanup :
        (l : LoginLimiter) (from now k : ℕ)
        → HasNoDup l.attempts
        → InWindow from now
        → Progress from k (get key l.attempts)
        → get key (cleanup_configured l now window).attempts ≡ get key l.attempts
    unfolding cleanup_configured
    attempt-cleanup l from now k d w p = elim (Option-cases (get key l.attempts)) [
      | inl e ↦ ground (arith, e, get-keep (is_recent now window) key l.attempts d)
      | inr (a, e) ↦ ground (arith, e, get-keep (is_recent now window) key l.attempts d)
    ]

    failure-Progress :
        (l : LoginLimiter) (from now k : ℕ)
        → HasNoDup l.attempts
        → 0 < from
        → InWindow from now
        → k + 1 < max_failures
        → Progress from k (get key l.attempts)
        → Progress from (k + 1) (get key (failure l now key max_failures window block).attempts)
    unfolding attempt_of
    failure-Progress l from now k d pf w lt p =
        rw (get-failure l now d, attempt_of)
          (elim (Option-cases (get key l.attempts)) [
            | inl e ↦ ground (arith, e, attempt-cleanup l from now k d w p)
            | inr (a, e) ↦ ground (arith, e, attempt-cleanup l from now k d w p)
          ])

    failure-blocks :
        (l : LoginLimiter) (from now k : ℕ)
        → HasNoDup l.attempts
        → 0 < from
        → InWindow from now
        → k + 1 ≡ max_failures
        → Progress from k (get key l.attempts)
        → get key (failure l now key max_failures window block).attempts
          ≡ some (record { count = 0; window_from = now; blocked_til = now + block })
    unfolding attempt_of
    failure-blocks l from now k d pf w lt p =
        rw (get-failure l now d, attempt_of)
          (elim (Option-cases (get key l.attempts)) [
            | inl e ↦ ground (arith, e, attempt-cleanup l from now k d w p)
            | inr (a, e) ↦ ground (arith, e, attempt-cleanup l from now k d w p)
          ])

    fail_at-Progress :
        (l : LoginLimiter) (from k : ℕ) (ts : List ℕ)
        → HasNoDup l.attempts
        → 0 < from
        → All (InWindow from) ts
        → k + length ts < max_failures
        → Progress from k (get key l.attempts)
        → HasNoDup (fail_at l ts).attempts
          × Progress from (k + length ts) (get key (fail_at l ts).attempts)
    unfolding fail_at
    fail_at-Progress l from k [] d pf w lt p = (d, ground arith)
    fail_at-Progress l from k (t ∷ ts) d pf w lt p = ground (
      arith,
      fail_at-Progress (failure l t key max_failures window block) from (k + 1) ts
          (failure-HasNoDup l t d) pf w.1,
      failure-Progress l from t k d pf w.0 (omega arith) p,
    )

    Progress-blocked :
        (l : LoginLimiter) (from now k : ℕ)
        → HasNoDup l.attempts
        → InWindow from now
        → Progress from k (get key l.attempts)
        → (blocked l now key max_failures window block).1 ≡ false
    unfolding blocked attempt_of
    Progress-blocked l from now k d w p = elim (Option-cases (get key l.attempts)) [
      | inl e ↦ ground (arith, e, attempt-cleanup l from now k d w p)
      | inr (a, e) ↦ ground (arith, e, attempt-cleanup l from now k d w p)
    ]

    held-blocked :
        (l : LoginLimiter) (now : ℕ) (a : LoginAttempt)
        → HasNoDup l.attempts
        → get key l.attempts ≡ some a
        → 0 < a.blocked_til
        → ((blocked l now key max_failures window block).1 ≡ ltb now a.blocked_til)
          × ((blocked l now key max_failures window block).2 ≡ a.blocked_til - now)
    unfolding blocked attempt_of cleanup_configured
    held-blocked l now a d e p = (
      ground (arith, e, get-keep (is_recent now window) key l.attempts d),
      ground (arith, e, get-keep (is_recent now window) key l.attempts d),
    )

    -- In a limiter whose keys are distinct and with a policy that is set, fewer failures than the
    -- limit, all within one window that starts after the zero time, do not block a key that had no
    -- attempt, while that window lasts.
    pub tolerated :
        (l : LoginLimiter) (from now : ℕ) (ts : List ℕ)
        → HasNoDup l.attempts
        → get key l.attempts ≡ none
        → 0 < from
        → All (InWindow from) ts
        → InWindow from now
        → length ts < max_failures
        → (blocked (fail_at l ts) now key max_failures window block).1 ≡ false
    tolerated l from now ts d e pf w wn lt =
        let (d', p) = fail_at-Progress l from 0 ts d pf w (omega arith) (rw e refl) in
        Progress-blocked (fail_at l ts) from now (0 + length ts) d' wn p

    -- In a limiter whose keys are distinct and with a policy that is set, the failure that reaches
    -- the limit, all of them within one window that starts after the zero time, blocks a key that
    -- had no attempt until the configured time has passed since, and no longer; the wait that is
    -- reported is what is left.
    pub lockout :
        (l : LoginLimiter) (from last now : ℕ) (ts : List ℕ)
        → HasNoDup l.attempts
        → get key l.attempts ≡ none
        → 0 < from
        → All (InWindow from) ts
        → InWindow from last
        → length ts + 1 ≡ max_failures
        → let q = failure (fail_at l ts) last key max_failures window block in
          ((blocked q now key max_failures window block).1 ≡ ltb now (last + block))
          × ((blocked q now key max_failures window block).2 ≡ last + block - now)
    lockout l from last now ts d e pf w wl lt =
        let (d', p) = fail_at-Progress l from 0 ts d pf w (omega arith) (rw e refl) in
        held-blocked _ now (record { count = 0; window_from = last; blocked_til = last + block })
          (failure-HasNoDup (fail_at l ts) last d')
          (failure-blocks (fail_at l ts) from last (0 + length ts) d' pf wl (omega arith) p)
          (omega arith)

    -- In a limiter whose keys are distinct, with a policy that is set and a limit above one, a
    -- failure that is recorded while a key is blocked, when the window since the start of its count
    -- is over, lifts the block.
    pub failure_lifts_block :
        (l : LoginLimiter) (now later : ℕ) (a : LoginAttempt)
        → HasNoDup l.attempts
        → get key l.attempts ≡ some a
        → now < a.blocked_til
        → a.window_from + window ≤ now
        → 1 < max_failures
        → (blocked
            (failure l now key max_failures window block)
            later
            key
            max_failures
            window
            block).1
          ≡ false
    unfolding blocked attempt_of cleanup_configured
    failure_lifts_block l now later a d e lt over pm' = ground (
      arith,
      e,
      get-failure l now d,
      get-keep (is_recent now window) key l.attempts d,
      get-keep (is_recent later window) key (failure l now key max_failures window block).attempts
          (failure-HasNoDup l now d),
    )
