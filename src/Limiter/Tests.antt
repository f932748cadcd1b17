-- ===== src/Limiter/Tests.antt =====
-- Runs of the limiters (backend/internal/server/limiter.go) on small inputs, and the theorems at
-- them.
use file_transit_desk.Prelude.{
  ◌+◌, ◌-◌, ◌≤◌, ◌≡◌, refl, true, false, [], ◌∷◌, arith, get, keep, put, remove, size, ltb,
}
use file_transit_desk.Limiter.Window.{
  LimitSpec, WindowLimiter, allow_many, allow, second, cleanup, normalize, drop_disabled,
  disabled_keys, decide, check_keys, retry_after_seconds,
}
use file_transit_desk.Limiter.Login.{
  LoginLimiter, blocked, failure, reserve, attempt_of, cleanup_attempts,
}
use file_transit_desk.Limiter.Capacity.{IsBounded, allow_many-IsBounded}
use file_transit_desk.Limiter.Bound.{grants, grants-le}
use file_transit_desk.Limiter.Retry.{retry_honoured}
use file_transit_desk.Limiter.Blocking.{fail_at, tolerated, lockout, failure_lifts_block}

abbrev fresh : WindowLimiter
fresh = record { entries = []; max_entries = 2 }

abbrev full : WindowLimiter
full = record {
  entries = ("ip", record { count = 2; expires_at = 15; window = 10 }) ∷ [];
  max_entries = 2;
}

abbrev spec : LimitSpec
spec = record { key = "ip"; limit = 2; window = 10 }

fresh-IsBounded : IsBounded fresh
unfolding size
fresh-IsBounded = record { distinct = tt; bounded = omega arith; positive = omega arith }

full-IsBounded : IsBounded full
unfolding size get
full-IsBounded = record { distinct = (tt, tt); bounded = omega arith; positive = omega arith }

-- The third call within a window is refused, and is told to wait.
third_refused : (allow full 6 "ip" 2 10).allowed ≡ false
unfolding allow allow_many normalize disabled_keys drop_disabled decide check_keys cleanup keep get
    put remove
third_refused = refl

allow_many-IsBounded_example : IsBounded (allow_many full 6 (spec ∷ [])).limiter
allow_many-IsBounded_example = allow_many-IsBounded full 6 (spec ∷ []) full-IsBounded

grants-le_example : grants "ip" fresh ((5, spec ∷ []) ∷ (6, spec ∷ []) ∷ (7, spec ∷ []) ∷ []) ≤ 2
unfolding get
grants-le_example =
    grants-le "ip" 2 10 5 (omega arith) (omega arith) refl fresh
      ((5, spec ∷ []) ∷ (6, spec ∷ []) ∷ (7, spec ∷ []) ∷ []) fresh-IsBounded refl (ground arith)

retry_honoured_example :
    let v = allow full 6 "ip" 2 10 in
    (second ≤ v.retry_after) × ((allow v.limiter (6 + v.retry_after) "ip" 2 10).allowed ≡ true)
retry_honoured_example =
    retry_honoured "ip" 2 10 (omega arith) (omega arith) refl full 6 full-IsBounded third_refused

abbrev no_failures : LoginLimiter
no_failures = record { attempts = [] }

tolerated_example :
    (blocked (fail_at "ip" 3 100 500 no_failures (10 ∷ 20 ∷ [])) 30 "ip" 3 100 500).1 ≡ false
unfolding get
tolerated_example =
    tolerated "ip" 3 100 500 (omega arith) (omega arith) (omega arith) no_failures 10 30
      (10 ∷ 20 ∷ []) tt refl (omega arith) (ground arith) (ground arith) (omega arith)

lockout_example :
    let q = failure (fail_at "ip" 3 100 500 no_failures (10 ∷ 20 ∷ [])) 30 "ip" 3 100 500 in
    ((blocked q 40 "ip" 3 100 500).1 ≡ ltb 40 (30 + 500))
    × ((blocked q 40 "ip" 3 100 500).2 ≡ 30 + 500 - 40)
unfolding get
lockout_example =
    lockout "ip" 3 100 500 (omega arith) (omega arith) (omega arith) no_failures 10 30 40
      (10 ∷ 20 ∷ []) tt refl (omega arith) (ground arith) (ground arith) refl

abbrev locked : LoginLimiter
locked = record {
  attempts = ("ip", record { count = 0; window_from = 30; blocked_til = 530 }) ∷ [];
}

failure_lifts_block_example :
    (blocked (failure locked 200 "ip" 3 100 500) 201 "ip" 3 100 500).1 ≡ false
unfolding get
failure_lifts_block_example =
    failure_lifts_block "ip" 3 100 500 (omega arith) (omega arith) (omega arith) locked 200 201
      (record { count = 0; window_from = 30; blocked_til = 530 }) (tt, tt) refl (omega arith)
      (omega arith) (omega arith)

-- A duration is rounded up to whole seconds, at least one.
rounded_up : (retry_after_seconds 1500000000 ≡ 2) × (retry_after_seconds 0 ≡ 1)
unfolding retry_after_seconds
rounded_up = (refl, refl)

-- The eleventh attempt of the fixed policy is refused.
eleventh_refused :
    (reserve
      (record { attempts = ("ip", record { count = 10; window_from = 5; blocked_til = 0 }) ∷ [] })
      6
      "ip").1
    ≡ false
unfolding reserve attempt_of cleanup_attempts keep get put remove
eleventh_refused = refl
