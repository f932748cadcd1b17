-- ===== src/Limiter/Capacity.antt =====
-- How many keys the window limiter of backend/internal/server/limiter.go holds.
use file_transit_desk.Prelude.{
  ℕ, ◌+◌, ◌≤◌, ◌<◌, String, eq_iff, ◌≡◌, refl, not, List, [], ◌∷◌, arith, Dict, get, has, put, size,
  count_entries, get-put, size-put, size-remove, size-keep, HasNoDup, IsFresh, put-HasNoDup,
  remove-HasNoDup, keep-HasNoDup, Option-cases, inl, inr,
}
use file_transit_desk.Limiter.Window.{
  WindowLimitEntry, LimitSpec, WindowLimiter, is_live, cleanup, merge, add_spec, normalize,
  disabled_keys, drop_disabled, check_key, check_keys, counted, commit, decide, allow_many,
}

-- The entries form a map that is within its capacity, and the capacity is positive.
pub record IsBounded (l : WindowLimiter) : Type 0 where
  pub distinct : HasNoDup l.entries
  pub bounded : size l.entries ≤ l.max_entries
  pub positive : 0 < l.max_entries

add_spec-HasNoDup :
    (spec : LimitSpec) (m : Dict LimitSpec) → HasNoDup m → HasNoDup (add_spec spec m)
add_spec-HasNoDup spec m h = elim (Option-cases (get spec.key m)) [
  | inl e ↦ ground (arith, e, put-HasNoDup spec.key spec m h)
  | inr (old, e) ↦ ground (arith, e, put-HasNoDup spec.key (merge old spec) m h)
]

pub normalize-HasNoDup :
    (specs : List LimitSpec) (m : Dict LimitSpec) → HasNoDup m → HasNoDup (normalize specs m)
unfolding normalize
normalize-HasNoDup [] m h = h
normalize-HasNoDup (spec ∷ specs) m h =
    normalize-HasNoDup specs _ (ground (arith, add_spec-HasNoDup spec m h))

-- A state between two limits: a map, not larger than before.
pub record IsSmaller (before after : Dict WindowLimitEntry) : Type 0 where
  pub distinct : HasNoDup after
  pub smaller : size after ≤ size before

pub drop_disabled-IsSmaller :
    (keys : List String) (specs : Dict LimitSpec) (m entries : Dict WindowLimitEntry)
    → IsSmaller m entries
    → IsSmaller m (drop_disabled keys specs entries)
unfolding drop_disabled
drop_disabled-IsSmaller [] specs m entries h = h
drop_disabled-IsSmaller (key ∷ keys) specs m entries h =
    drop_disabled-IsSmaller keys specs m _
      (ground (arith, remove-HasNoDup key entries h.distinct, size-remove key entries))

check_key-IsSmaller :
    (now : ℕ) (key : String) (spec : LimitSpec) (m entries : Dict WindowLimitEntry) (wait : ℕ)
    → IsSmaller m entries
    → IsSmaller m (check_key now key spec (entries, wait)).0
check_key-IsSmaller now key spec m entries wait h =
    ground (arith, remove-HasNoDup key entries h.distinct, size-remove key entries)

pub check_keys-IsSmaller :
    (now : ℕ) (specs : Dict LimitSpec) (m entries : Dict WindowLimitEntry) (wait : ℕ)
    → IsSmaller m entries
    → IsSmaller m (check_keys now specs (entries, wait)).0
unfolding check_keys
check_keys-IsSmaller now [] m entries wait h = h
check_keys-IsSmaller now ((key, spec) ∷ specs) m entries wait h =
    check_keys-IsSmaller now specs m (check_key now key spec (entries, wait)).0
      (check_key now key spec (entries, wait)).1 (check_key-IsSmaller now key spec m entries wait h)

-- How many of the keys have no entry yet.
abbrev pub missing : Dict WindowLimitEntry → Dict LimitSpec → ℕ
missing entries specs = count_entries (λ key spec. not (has key entries)) specs

missing-put :
    (k : String) (e : WindowLimitEntry) (entries : Dict WindowLimitEntry) (specs : Dict LimitSpec)
    → IsFresh k specs
    → missing (put k e entries) specs ≡ missing entries specs
unfolding count_entries
missing-put k e entries [] h = refl
missing-put k e entries ((j, s) ∷ specs) h =
    ground (arith, missing-put k e entries specs h.1, get-put k j e entries, eq_iff k j, eq_iff j k)

-- A commit adds an entry for each key that has none.
pub size-commit :
    (now : ℕ) (specs : Dict LimitSpec) (entries : Dict WindowLimitEntry)
    → HasNoDup specs
    → HasNoDup entries
    → HasNoDup (commit now specs entries)
      × (size (commit now specs entries) ≡ size entries + missing entries specs)
unfolding commit count_entries
size-commit now [] entries d h = (h, omega arith)
size-commit now ((k, s) ∷ specs) entries d h =
    let e : WindowLimitEntry = counted now s (get k entries) in
    let (d', ih) = size-commit now specs (put k e entries) d.1 (put-HasNoDup k e entries h) in
    (d', ground (arith, ih, size-put k e entries h, missing-put k e entries specs d.0))

pub cleaned-IsSmaller :
    (now : ℕ) (specs : List LimitSpec) (l : WindowLimiter)
    → HasNoDup l.entries
    → IsSmaller l.entries
        (drop_disabled (disabled_keys specs) (normalize specs []) (cleanup now l.entries))
unfolding cleanup
cleaned-IsSmaller now specs l h =
    drop_disabled-IsSmaller (disabled_keys specs) (normalize specs []) l.entries _ (record {
      distinct = keep-HasNoDup (is_live now) l.entries h;
      smaller = size-keep (is_live now) l.entries;
    })

decide-IsBounded :
    (l : WindowLimiter) (now : ℕ) (specs : Dict LimitSpec) (cleaned : Dict WindowLimitEntry)
    → IsBounded l
    → HasNoDup specs
    → IsSmaller l.entries cleaned
    → IsBounded (decide l now specs cleaned).limiter
unfolding decide
decide-IsBounded l now specs cleaned b d s =
    let after : Dict WindowLimitEntry = (check_keys now specs (cleaned, 0)).0 in
    let checked = check_keys-IsSmaller now specs l.entries cleaned 0 s in
    ground (arith, checked, size-commit now specs after d checked.distinct)

-- A call of any specifications keeps the limiter within its capacity: if its entries form a map of
-- at most as many keys as its positive capacity, they do so after the call.
pub allow_many-IsBounded :
    (l : WindowLimiter) (now : ℕ) (specs : List LimitSpec)
    → IsBounded l
    → IsBounded (allow_many l now specs).limiter
unfolding allow_many
allow_many-IsBounded l now specs b =
    decide-IsBounded l now (normalize specs []) _ b (normalize-HasNoDup specs [] tt)
      (cleaned-IsSmaller now specs l b.distinct)
