-- ===== src/Limiter/Window.antt =====
-- `windowLimiter` of backend/internal/server/limiter.go. Times and durations are nanoseconds; the
-- source tests limits and windows only for `<= 0` and `> 0`, so a negative one is 0 here. Each call
-- takes the time that its clock reads. A difference of times stops at 0: the source compares
-- it with positive bounds only, or reads it after clean-up, when every entry ends later.
use file_transit_desk.Prelude.{
  ℕ, ◌+◌, ◌-◌, ◌/◌, max, String, ◌==◌, Bool, true, false, not, ◌&&◌, ◌||◌, Option, none, some, List,
  [], ◌∷◌, ltb, leb, eqb, Dict, get, has, put, remove, keep, size, count_entries, if◌then◌else◌,
}

abbrev pub second : ℕ
second = 1000000000

pub record WindowLimitEntry : Type 0 where
  pub count : ℕ
  pub expires_at : ℕ
  pub window : ℕ

pub record LimitSpec : Type 0 where
  pub key : String
  pub limit : ℕ
  pub window : ℕ

pub record WindowLimiter : Type 0 where
  pub entries : Dict WindowLimitEntry
  pub max_entries : ℕ

unfoldable pub new_window_limiter_with_max_entries : ℕ → WindowLimiter
new_window_limiter_with_max_entries max_entries = record {
  entries = [];
  max_entries = if ltb max_entries 1 then 1 else max_entries;
}

unfoldable pub new_window_limiter : WindowLimiter
unfolding new_window_limiter_with_max_entries
new_window_limiter = new_window_limiter_with_max_entries 10000

-- The result of a call: the new state, whether the request is allowed, and the time to wait.
pub record Verdict : Type 0 where
  pub limiter : WindowLimiter
  pub allowed : Bool
  pub retry_after : ℕ

abbrev pub is_live : ℕ → String → WindowLimitEntry → Bool
is_live now key entry = ltb now entry.expires_at

-- cleanupLocked
unfoldable pub cleanup : ℕ → Dict WindowLimitEntry → Dict WindowLimitEntry
cleanup now entries = keep (is_live now) entries

abbrev pub is_disabled : LimitSpec → Bool
is_disabled spec = eqb spec.limit 0 || eqb spec.window 0

-- Two specifications of one key count as the stricter: the lower limit, over the longer window.
abbrev pub merge : LimitSpec → LimitSpec → LimitSpec
merge existing spec = record existing {
  limit = if ltb spec.limit existing.limit then spec.limit else existing.limit;
  window = if ltb existing.window spec.window then spec.window else existing.window;
}

abbrev pub add_spec : LimitSpec → Dict LimitSpec → Dict LimitSpec
add_spec spec normalized = elim (get spec.key normalized) [
  | none ↦ put spec.key spec normalized
  | some existing ↦ put spec.key (merge existing spec) normalized
]

unfoldable pub normalize : List LimitSpec → Dict LimitSpec → Dict LimitSpec
normalize [] normalized = normalized
normalize (spec ∷ specs) normalized =
    normalize specs
      (if (spec.key == "") || is_disabled spec then normalized else add_spec spec normalized)

unfoldable pub disabled_keys : List LimitSpec → List String
disabled_keys [] = []
disabled_keys (spec ∷ specs) =
    let rest = disabled_keys specs in
    if not (spec.key == "") && is_disabled spec then spec.key ∷ rest else rest

-- A key whose every specification is switched off forgets its count.
unfoldable pub drop_disabled :
    List String → Dict LimitSpec → Dict WindowLimitEntry → Dict WindowLimitEntry
drop_disabled [] normalized entries = entries
drop_disabled (key ∷ keys) normalized entries =
    drop_disabled keys normalized (if has key normalized then entries else remove key entries)

-- One key of the loop over the limits: an entry of another window is forgotten, and a full one
-- asks for the longest wait so far. The pair holds the entries and the wait.
abbrev pub check_entry :
    ℕ
    → String
    → LimitSpec
    → WindowLimitEntry
    → Dict WindowLimitEntry × ℕ
    → Dict WindowLimitEntry × ℕ
check_entry now key spec entry (entries, wait) =
    if not (eqb entry.window spec.window)
    then (remove key entries, wait)
    else if leb spec.limit entry.count
    then (entries, max wait (max (entry.expires_at - now) second))
    else (entries, wait)

abbrev pub check_key :
    ℕ → String → LimitSpec → Dict WindowLimitEntry × ℕ → Dict WindowLimitEntry × ℕ
check_key now key spec (entries, wait) = elim (get key entries) [
  | none ↦ (entries, wait)
  | some entry ↦ check_entry now key spec entry (entries, wait)
]

unfoldable pub check_keys :
    ℕ → Dict LimitSpec → Dict WindowLimitEntry × ℕ → Dict WindowLimitEntry × ℕ
check_keys now [] state = state
check_keys now ((key, spec) ∷ specs) state = check_keys now specs (check_key now key spec state)

abbrev pub is_sooner : ℕ → ℕ → Bool
is_sooner retry best = ltb 0 retry && (eqb best 0 || ltb retry best)

abbrev pub sooner : ℕ → ℕ → ℕ
sooner retry best = if is_sooner retry best then retry else best

-- The time until the first entry ends.
unfoldable pub first_end : ℕ → Dict WindowLimitEntry → ℕ → ℕ
first_end now [] best = best
first_end now ((key, entry) ∷ entries) best =
    first_end now entries (sooner (entry.expires_at - now) best)

abbrev pub counted : ℕ → LimitSpec → Option WindowLimitEntry → WindowLimitEntry
counted now spec none = record { count = 1; expires_at = now + spec.window; window = spec.window }
counted now spec (some entry) = record entry { count = entry.count + 1 }

unfoldable pub commit : ℕ → Dict LimitSpec → Dict WindowLimitEntry → Dict WindowLimitEntry
commit now [] entries = entries
commit now ((key, spec) ∷ specs) entries =
    commit now specs (put key (counted now spec (get key entries)) entries)

-- The part of `AllowMany` after the specifications are normalised and the entries cleaned up.
unfoldable pub decide : WindowLimiter → ℕ → Dict LimitSpec → Dict WindowLimitEntry → Verdict
decide l now normalized cleaned =
    let (entries, wait) = check_keys now normalized (cleaned, 0) in
    let added = count_entries (λ key spec. not (has key entries)) normalized in
    if ltb 0 wait
    then record { limiter = record l { entries = entries }; allowed = false; retry_after = wait }
    else if ltb l.max_entries (size entries + added)
    then record {
      limiter = record l { entries = entries };
      allowed = false;
      retry_after = max (first_end now entries 0) second;
    }
    else record {
      limiter = record l { entries = commit now normalized entries };
      allowed = true;
      retry_after = 0;
    }

unfoldable pub allow_many : WindowLimiter → ℕ → List LimitSpec → Verdict
unfolding decide cleanup
allow_many l now specs =
    let normalized = normalize specs [] in
    decide l now normalized (drop_disabled (disabled_keys specs) normalized (cleanup now l.entries))

unfoldable pub allow : WindowLimiter → ℕ → String → ℕ → ℕ → Verdict
unfolding allow_many
allow l now key limit window =
    allow_many l now (record { key = key; limit = limit; window = window } ∷ [])

-- `size` and `count` of the source.
unfoldable pub entry_count : WindowLimiter → ℕ
entry_count l = size l.entries

unfoldable pub count_of : WindowLimiter → String → ℕ
count_of l key = elim (get key l.entries) [ none ↦ 0 | some entry ↦ entry.count ]

-- retryAfterSeconds, before the number is printed: whole seconds, rounded up, at least one.
unfoldable pub retry_after_seconds : ℕ → ℕ
retry_after_seconds duration =
    let seconds = (duration + second - 1) / second in if ltb seconds 1 then 1 else seconds
