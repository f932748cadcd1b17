-- ===== src/Limiter/Counting.antt =====
-- What one call of `AllowMany` (backend/internal/server/limiter.go) does to the entry of each key.
use native.Mathlib.Nat.{le_trans}
use file_transit_desk.Prelude.{
  ap, ℕ, ◌-◌, ◌≤◌, ◌<◌, max, String, ◌==◌, eq_iff, ◌≡◌, refl, ◌∙◌, true, false, not, ◌&&◌, Option,
  none, some, List, [], ◌∷◌, arith, eqb, contains, Dict, get, has, put, remove, get-put, get-remove,
  HasNoDup, IsFresh, Option-cases, Bool-cases, if◌then◌else◌, inl, inr,
}
use file_transit_desk.Limiter.Window.{
  WindowLimitEntry, LimitSpec, WindowLimiter, drop_disabled, check_key, check_keys, counted, commit,
  decide, second,
}

-- What the check leaves of an entry: it is kept if its key is not limited, or limited over the
-- same window.
abbrev pub settled : Option LimitSpec → Option WindowLimitEntry → Option WindowLimitEntry
settled none o = o
settled (some spec) none = none
settled (some spec) (some e) = if eqb e.window spec.window then some e else none

-- What a commit makes of an entry.
abbrev pub charged : ℕ → Option LimitSpec → Option WindowLimitEntry → Option WindowLimitEntry
charged now none o = o
charged now (some spec) o = some (counted now spec o)

fresh-get {ℓ} : {V : Type ℓ} (k : String) (m : Dict V) → IsFresh k m → get k m ≡ none
unfolding get
fresh-get k [] h = refl
fresh-get k ((j, v) ∷ m) h = ground (arith, fresh-get k m h.1)

get-check_key :
    (now : ℕ) (k j : String) (spec : LimitSpec) (entries : Dict WindowLimitEntry) (wait : ℕ)
    → get j (check_key now k spec (entries, wait)).0
      ≡ (if k == j then settled (some spec) (get j entries) else get j entries)
get-check_key now k j spec entries wait = ground (arith, get-remove k j entries, eq_iff k j)

pub get-check_keys :
    (now : ℕ) (j : String) (specs : Dict LimitSpec) (entries : Dict WindowLimitEntry) (wait : ℕ)
    → HasNoDup specs
    → get j (check_keys now specs (entries, wait)).0 ≡ settled (get j specs) (get j entries)
unfolding check_keys get
get-check_keys now j [] entries wait d = refl
get-check_keys now j ((k, spec) ∷ specs) entries wait d =
    let next : Dict WindowLimitEntry × ℕ = check_key now k spec (entries, wait) in
    get-check_keys now j specs next.0 next.1 d.1
    ∙ ground (arith, get-check_key now k j spec entries wait, eq_iff k j, fresh-get k specs d.0)

check_keys-wait-le :
    (now : ℕ) (specs : Dict LimitSpec) (entries : Dict WindowLimitEntry) (wait : ℕ)
    → wait ≤ (check_keys now specs (entries, wait)).1
unfolding check_keys
check_keys-wait-le now [] entries wait = omega arith
check_keys-wait-le now ((k, spec) ∷ specs) entries wait =
    let next : Dict WindowLimitEntry × ℕ = check_key now k spec (entries, wait) in
    ground (arith, check_keys-wait-le now specs next.0 next.1)

full_key :
    (now : ℕ) (k j : String) (spec spec' : LimitSpec) (e : WindowLimitEntry)
    (entries : Dict WindowLimitEntry) (wait : ℕ)
    → (k == j) ≡ true
    → spec' ≡ spec
    → get j entries ≡ some e
    → e.window ≡ spec.window
    → spec.limit ≤ e.count
    → max (e.expires_at - now) second ≤ (check_key now k spec' (entries, wait)).1
full_key now k j spec spec' e entries wait same s f w full =
    ground
      (arith, eq_iff k j, ap (λ (x : LimitSpec). x.window) s, ap (λ (x : LimitSpec). x.limit) s)

-- A full key makes the call wait, for its entry to end and for a second at least.
pub check_keys-full :
    (now : ℕ) (j : String) (spec : LimitSpec) (e : WindowLimitEntry) (specs : Dict LimitSpec)
    (entries : Dict WindowLimitEntry) (wait : ℕ)
    → HasNoDup specs
    → get j specs ≡ some spec
    → get j entries ≡ some e
    → e.window ≡ spec.window
    → spec.limit ≤ e.count
    → max (e.expires_at - now) second ≤ (check_keys now specs (entries, wait)).1
unfolding check_keys get
check_keys-full now j spec e [] entries wait d s f w full = cc
check_keys-full now j spec e ((k, spec') ∷ specs) entries wait d s f w full =
    let next : Dict WindowLimitEntry × ℕ = check_key now k spec' (entries, wait) in
    elim (Bool-cases (k == j)) [
      | inl same ↦
          le_trans (full_key now k j spec spec' e entries wait same (ground (arith, same)) f w full)
            (check_keys-wait-le now specs next.0 next.1)
      | inr other ↦
          check_keys-full now j spec e specs next.0 next.1 d.1 (ground (arith, other))
            (ground (arith, other, get-check_key now k j spec' entries wait)) w full
    ]

pub get-commit :
    (now : ℕ) (j : String) (specs : Dict LimitSpec) (entries : Dict WindowLimitEntry)
    → HasNoDup specs
    → get j (commit now specs entries) ≡ charged now (get j specs) (get j entries)
unfolding commit get
get-commit now j [] entries d = refl
get-commit now j ((k, spec) ∷ specs) entries d =
    let e : WindowLimitEntry = counted now spec (get k entries) in
    get-commit now j specs (put k e entries) d.1
    ∙ ground (arith, get-put k j e entries, eq_iff k j, fresh-get k specs d.0)

pub get-drop_disabled :
    (j : String) (keys : List String) (specs : Dict LimitSpec) (entries : Dict WindowLimitEntry)
    → get j (drop_disabled keys specs entries)
      ≡ (if contains keys j && not (has j specs) then none else get j entries)
unfolding drop_disabled contains
get-drop_disabled j [] specs entries = refl
get-drop_disabled j (k ∷ keys) specs entries =
    get-drop_disabled j keys specs (if has k specs then entries else remove k entries)
    ∙ ground (arith, get-remove k j entries, eq_iff k j)

-- A call that is allowed leaves room at each key, and counts once at each; one that is denied
-- counts nowhere.
module _ (l : WindowLimiter) (now : ℕ) (specs : Dict LimitSpec) (cleaned : Dict WindowLimitEntry)
    (d : HasNoDup specs) (j : String) where
  pub decide-allowed :
      (decide l now specs cleaned).allowed ≡ true
      → get j (decide l now specs cleaned).limiter.entries
        ≡ charged now (get j specs) (settled (get j specs) (get j cleaned))
  unfolding decide
  decide-allowed h = ground (
    arith,
    get-commit now j specs (check_keys now specs (cleaned, 0)).0 d,
    get-check_keys now j specs cleaned 0 d,
  )

  pub decide-denied :
      (decide l now specs cleaned).allowed ≡ false
      → get j (decide l now specs cleaned).limiter.entries ≡ settled (get j specs) (get j cleaned)
  unfolding decide
  decide-denied h = ground (arith, get-check_keys now j specs cleaned 0 d)

  pub decide-room :
      (spec : LimitSpec) (e : WindowLimitEntry)
      → (decide l now specs cleaned).allowed ≡ true
      → get j specs ≡ some spec
      → settled (some spec) (get j cleaned) ≡ some e
      → e.count < spec.limit
  unfolding decide
  decide-room spec e h s f = elim (Option-cases (get j cleaned)) [
    | inl missing ↦ ground (arith, missing)
    | inr (e', found) ↦ ground (arith, found, check_keys-full now j spec e specs cleaned 0 d)
  ]
