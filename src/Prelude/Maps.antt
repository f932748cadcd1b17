-- ===== src/Prelude/Maps.antt =====
-- Go's `map[string]V` as an association list. The program reads a map through `get`, and where it
-- ranges over one it counts, filters or collects, so the order of the entries is not observed.
use Prim.Native.Nat.{ℕ, suc, ◌≤◌, ◌<◌}
use Prim.Native.String.{String}
use text.Mathlib.Text.{◌==◌}
use text.Mathlib.TextEquality.{eq_iff}
use mathlib.Core.Path.{◌≡◌, refl, ap}
use mathlib.Core.Bool.{Bool, true, false, not, ◌&&◌}
use mathlib.Core.Option
use mathlib.Core.Option.{Option, none, some}
use mathlib.Core.List.{List, [], ◌∷◌}
use native.Mathlib.Omega.{arith}
use file_transit_desk.Prelude.Tests.{if◌then◌else◌, is_some}

abbrev pub Dict {ℓ} : Type ℓ → Type ℓ
Dict V = List (String × V)

module _ {ℓ} {V : Type ℓ} where
  -- m[k]
  unfoldable pub get : String → Dict V → Option V
  get k [] = none
  get k ((j, v) ∷ m) = if j == k then some v else get k m

  -- _, ok := m[k]
  abbrev pub has : String → Dict V → Bool
  has k m = is_some (get k m)

  -- delete(m, k)
  unfoldable pub remove : String → Dict V → Dict V
  remove k [] = []
  remove k ((j, v) ∷ m) = let rest = remove k m in if j == k then rest else (j, v) ∷ rest

  -- m[k] = v
  unfoldable pub put : String → V → Dict V → Dict V
  put k v m = (k, v) ∷ remove k m

  -- The entries whose key and value pass the test: a loop that deletes the others.
  unfoldable pub keep : (String → V → Bool) → Dict V → Dict V
  keep p [] = []
  keep p ((k, v) ∷ m) = let rest = keep p m in if p k v then (k, v) ∷ rest else rest

  -- A loop that updates each value in place.
  unfoldable pub map_values : (V → V) → Dict V → Dict V
  map_values f [] = []
  map_values f ((k, v) ∷ m) = (k, f v) ∷ map_values f m

  unfoldable pub keys : Dict V → List String
  keys [] = []
  keys ((k, v) ∷ m) = k ∷ keys m

  unfoldable pub values : Dict V → List V
  values [] = []
  values ((k, v) ∷ m) = v ∷ values m

  -- len(m)
  unfoldable pub size : Dict V → ℕ
  size [] = 0
  size (e ∷ m) = suc (size m)

  pub get-remove :
      (k j : String) (m : Dict V) → get j (remove k m) ≡ (if k == j then none else get j m)
  unfolding get remove
  get-remove k j [] = ground arith
  get-remove k j ((i, v) ∷ m) = ground (arith, get-remove k j m, eq_iff i k, eq_iff i j, eq_iff k j)

  pub get-put :
      (k j : String) (v : V) (m : Dict V) → get j (put k v m) ≡ (if k == j then some v else get j m)
  unfolding get put
  get-put k j v m = ground (arith, get-remove k j m)

  pub get-map_values :
      (f : V → V) (k : String) (m : Dict V) → get k (map_values f m) ≡ Option.map f (get k m)
  unfolding get map_values
  get-map_values f k [] = refl
  get-map_values f k ((j, v) ∷ m) = ground (arith, get-map_values f k m)

  pub keys-map_values : (f : V → V) (m : Dict V) → keys (map_values f m) ≡ keys m
  unfolding keys map_values
  keys-map_values f [] = refl
  keys-map_values f ((k, v) ∷ m) = ap (λ r. k ∷ r) (keys-map_values f m)

  pub size-remove : (k : String) (m : Dict V) → size (remove k m) ≤ size m
  unfolding size remove
  size-remove k [] = omega arith
  size-remove k ((j, v) ∷ m) = ground (arith, size-remove k m)

  pub size-keep : (p : String → V → Bool) (m : Dict V) → size (keep p m) ≤ size m
  unfolding size keep
  size-keep p [] = omega arith
  size-keep p ((k, v) ∷ m) = ground (arith, size-keep p m)

  -- Every key but `k`: an entry that is not there is not removed.
  abbrev pub IsFresh : String → Dict V → Type 0
  IsFresh k [] = Unit {0}
  IsFresh k ((j, v) ∷ m) = ((j == k) ≡ false) × IsFresh k m

  -- The keys are distinct, as in a Go map.
  abbrev pub HasNoDup : Dict V → Type 0
  HasNoDup [] = Unit {0}
  HasNoDup ((k, v) ∷ m) = IsFresh k m × HasNoDup m

  pub remove-IsFresh : (k j : String) (m : Dict V) → IsFresh j m → IsFresh j (remove k m)
  unfolding remove
  remove-IsFresh k j [] h = tt
  remove-IsFresh k j ((i, v) ∷ m) h = ground (arith, remove-IsFresh k j m)

  remove-self-IsFresh : (k : String) (m : Dict V) → IsFresh k (remove k m)
  unfolding remove
  remove-self-IsFresh k [] = tt
  remove-self-IsFresh k ((j, v) ∷ m) = ground (arith, remove-self-IsFresh k m)

  pub remove-HasNoDup : (k : String) (m : Dict V) → HasNoDup m → HasNoDup (remove k m)
  unfolding remove
  remove-HasNoDup k [] h = tt
  remove-HasNoDup k ((j, v) ∷ m) h = ground (arith, remove-IsFresh k j m, remove-HasNoDup k m)

  pub put-HasNoDup : (k : String) (v : V) (m : Dict V) → HasNoDup m → HasNoDup (put k v m)
  unfolding put
  put-HasNoDup k v m h = (remove-self-IsFresh k m, remove-HasNoDup k m h)

  map_values-IsFresh :
      (f : V → V) (k : String) (m : Dict V) → IsFresh k m → IsFresh k (map_values f m)
  unfolding map_values
  map_values-IsFresh f k [] h = tt
  map_values-IsFresh f k ((j, v) ∷ m) h = (h.0, map_values-IsFresh f k m h.1)

  pub map_values-HasNoDup : (f : V → V) (m : Dict V) → HasNoDup m → HasNoDup (map_values f m)
  unfolding map_values
  map_values-HasNoDup f [] h = tt
  map_values-HasNoDup f ((k, v) ∷ m) h = (map_values-IsFresh f k m h.0, map_values-HasNoDup f m h.1)

  keep-IsFresh :
      (p : String → V → Bool) (k : String) (m : Dict V) → IsFresh k m → IsFresh k (keep p m)
  unfolding keep
  keep-IsFresh p k [] h = tt
  keep-IsFresh p k ((j, v) ∷ m) h = ground (arith, keep-IsFresh p k m)

  pub keep-HasNoDup : (p : String → V → Bool) (m : Dict V) → HasNoDup m → HasNoDup (keep p m)
  unfolding keep
  keep-HasNoDup p [] h = tt
  keep-HasNoDup p ((k, v) ∷ m) h = ground (arith, keep-IsFresh p k m, keep-HasNoDup p m)

  abbrev kept : (String → V → Bool) → String → Option V → Option V
  kept p k none = none
  kept p k (some v) = if p k v then some v else none

  get_fresh : (k : String) (m : Dict V) → IsFresh k m → get k m ≡ none
  unfolding get
  get_fresh k [] h = refl
  get_fresh k ((j, v) ∷ m) h = ground (arith, get_fresh k m)

  pub get-keep :
      (p : String → V → Bool) (k : String) (m : Dict V)
      → HasNoDup m
      → get k (keep p m) ≡ kept p k (get k m)
  unfolding get keep
  get-keep p k [] h = refl
  get-keep p k ((j, v) ∷ m) h = ground (
    arith,
    get-keep p k m h.1,
    eq_iff j k,
    get_fresh j (keep p m),
    keep-IsFresh p j m,
    get_fresh j m,
  )

  pub remove-absent : (k : String) (m : Dict V) → get k m ≡ none → remove k m ≡ m
  unfolding get remove
  remove-absent k [] h = refl
  remove-absent k ((j, v) ∷ m) h = ground (arith, remove-absent k m)

  pub size-put :
      (k : String) (v : V) (m : Dict V)
      → HasNoDup m
      → size (put k v m) ≡ (if has k m then size m else suc (size m))
  unfolding put size get remove
  size-put k v [] h = refl
  size-put k v ((j, w) ∷ m) h =
      ground (arith, size-put k v m h.1, eq_iff j k, get_fresh j m h.0, remove-absent j m)

  -- The entries that pass the test, counted by a loop over the map.
  unfoldable pub count_entries : (String → V → Bool) → Dict V → ℕ
  count_entries p [] = 0
  count_entries p ((k, v) ∷ m) = let rest = count_entries p m in if p k v then suc rest else rest

  pub count_entries-remove-le :
      (p : String → V → Bool) (k : String) (m : Dict V)
      → count_entries p (remove k m) ≤ count_entries p m
  unfolding count_entries remove
  count_entries-remove-le p k [] = omega arith
  count_entries-remove-le p k ((j, v) ∷ m) = ground (arith, count_entries-remove-le p k m)

  -- Removing an entry that passes the test lowers the count.
  pub count_entries-remove-lt :
      (p : String → V → Bool) (k : String) (v : V) (m : Dict V)
      → get k m ≡ some v
      → p k v ≡ true
      → count_entries p (remove k m) < count_entries p m
  unfolding count_entries remove get
  count_entries-remove-lt p k v [] e h = cc
  count_entries-remove-lt p k v ((j, w) ∷ m) e h =
      ground (arith, count_entries-remove-le p k m, count_entries-remove-lt p k v m, eq_iff j k)

  -- Counting the entries under other keys is counting after a removal.
  pub count_entries-others :
      (p : V → Bool) (k : String) (m : Dict V)
      → count_entries (λ j v. not (j == k) && p v) m ≡ count_entries (λ j v. p v) (remove k m)
  unfolding count_entries remove
  count_entries-others p k [] = refl
  count_entries-others p k ((j, v) ∷ m) = ground (arith, count_entries-others p k m)

  pub count_entries-put :
      (p : String → V → Bool) (k : String) (v : V) (m : Dict V)
      → count_entries p (put k v m)
        ≡ (if p k v then suc (count_entries p (remove k m)) else count_entries p (remove k m))
  unfolding count_entries put
  count_entries-put p k v m = refl

  pub count_entries-map_values :
      (p : V → Bool) (f : V → V) (m : Dict V)
      → ((v : V) → p (f v) ≡ p v)
      → count_entries (λ j v. p v) (map_values f m) ≡ count_entries (λ j v. p v) m
  unfolding count_entries map_values
  count_entries-map_values p f [] h = refl
  count_entries-map_values p f ((k, v) ∷ m) h =
      ground (arith, h v, count_entries-map_values p f m h)

  pub size-count : (m : Dict V) → size m ≡ count_entries (λ k v. true) m
  unfolding count_entries size
  size-count [] = refl
  size-count (e ∷ m) = ap suc (size-count m)
