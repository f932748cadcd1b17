-- ===== src/Limiter/Login.antt =====
-- `loginLimiter` of backend/internal/server/limiter.go and backend/internal/server/server.go. Times
-- are nanoseconds, 0 for the zero time. `now.Sub(windowFrom)` stops at 0 here; the source compares it
-- with positive windows only.
use file_transit_desk.Prelude.{
  ℕ, ◌+◌, ◌-◌, String, Bool, true, false, not, ◌&&◌, ◌||◌, none, some, [], ltb, leb, eqb, Dict, get,
  put, remove, keep, if◌then◌else◌,
}

pub record LoginAttempt : Type 0 where
  pub count : ℕ
  pub window_from : ℕ
  pub blocked_til : ℕ

pub record LoginLimiter : Type 0 where
  pub attempts : Dict LoginAttempt

unfoldable pub new_login_limiter : LoginLimiter
new_login_limiter = record { attempts = [] }

-- The zero value that a map gives for a missing key.
abbrev pub no_attempt : LoginAttempt
no_attempt = record { count = 0; window_from = 0; blocked_til = 0 }

unfoldable pub attempt_of : LoginLimiter → String → LoginAttempt
attempt_of l key = elim (get key l.attempts) [ none ↦ no_attempt | some a ↦ a ]

abbrev pub is_blocked : ℕ → LoginAttempt → Bool
is_blocked now a = not (eqb a.blocked_til 0) && ltb now a.blocked_til

abbrev pub is_recent : ℕ → ℕ → String → LoginAttempt → Bool
is_recent now window key a = is_blocked now a || not (leb window (now - a.window_from))

-- cleanupConfiguredLocked
unfoldable pub cleanup_configured : LoginLimiter → ℕ → ℕ → LoginLimiter
cleanup_configured l now window = record { attempts = keep (is_recent now window) l.attempts }

abbrev pub is_off : ℕ → ℕ → ℕ → Bool
is_off max_failures window block = eqb max_failures 0 || (eqb window 0 || eqb block 0)

-- The cleaned-up state, whether the key is blocked, and for how long.
unfoldable pub blocked : LoginLimiter → ℕ → String → ℕ → ℕ → ℕ → LoginLimiter × Bool × ℕ
unfolding cleanup_configured attempt_of
blocked l now key max_failures window block =
    let cleaned = cleanup_configured l now window in
    let attempt = attempt_of cleaned key in
    if is_off max_failures window block
    then (l, false, 0)
    else if is_blocked now attempt
    then (cleaned, true, attempt.blocked_til - now)
    else (cleaned, false, 0)

abbrev pub current_window : ℕ → ℕ → LoginAttempt → LoginAttempt
current_window now window a =
    if eqb a.window_from 0 || leb window (now - a.window_from)
    then record no_attempt { window_from = now }
    else a

abbrev pub count_failure : ℕ → ℕ → ℕ → LoginAttempt → LoginAttempt
count_failure now max_failures block a =
    if leb max_failures (a.count + 1)
    then record { count = 0; window_from = now; blocked_til = now + block }
    else record a { count = a.count + 1 }

unfoldable pub failure : LoginLimiter → ℕ → String → ℕ → ℕ → ℕ → LoginLimiter
unfolding cleanup_configured attempt_of
failure l now key max_failures window block =
    let cleaned = cleanup_configured l now window in
    let attempt = current_window now window (attempt_of cleaned key) in
    if is_off max_failures window block then l else record {
      attempts = put key (count_failure now max_failures block attempt) cleaned.attempts;
    }

-- A successful login forgets the key.
unfoldable pub reset : LoginLimiter → String → LoginLimiter
reset l key = record { attempts = remove key l.attempts }

-- loginLimitWindow, loginBlockFor and loginMaxFailures: the fixed policy of `reserve`.
abbrev pub login_limit_window : ℕ
login_limit_window = 180000000000

abbrev pub login_block_for : ℕ
login_block_for = 90000000000

abbrev pub login_max_failures : ℕ
login_max_failures = 10

abbrev pub is_within : ℕ → String → LoginAttempt → Bool
is_within now key a = is_blocked now a || not (ltb login_limit_window (now - a.window_from))

-- cleanupLocked
unfoldable pub cleanup_attempts : LoginLimiter → ℕ → LoginLimiter
cleanup_attempts l now = record { attempts = keep (is_within now) l.attempts }

abbrev pub reserve_attempt : ℕ → LoginAttempt → LoginAttempt × Bool
reserve_attempt now a =
    if ltb login_max_failures (a.count + 1)
    then (record { count = 0; window_from = now; blocked_til = now + login_block_for }, false)
    else (record a { count = a.count + 1 }, true)

abbrev pub reserve_window : ℕ → LoginAttempt → LoginAttempt
reserve_window now a =
    if eqb a.window_from 0 || ltb login_limit_window (now - a.window_from)
    then record no_attempt { window_from = now }
    else a

-- An attempt counts before its password is checked.
unfoldable pub reserve : LoginLimiter → ℕ → String → LoginLimiter × Bool
unfolding cleanup_attempts attempt_of
reserve l now key =
    let cleaned = cleanup_attempts l now in
    let (attempt, free) = reserve_attempt now (reserve_window now (attempt_of cleaned key)) in
    if is_blocked now (attempt_of cleaned key)
    then (cleaned, false)
    else (record { attempts = put key attempt cleaned.attempts }, free)

-- The time until the block ends, at least a second.
unfoldable pub retry_after : LoginLimiter → ℕ → String → ℕ
unfolding attempt_of
retry_after l now key =
    let remaining = (attempt_of l key).blocked_til - now in
    if eqb remaining 0 then 1000000000 else remaining
