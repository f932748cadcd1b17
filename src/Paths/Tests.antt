-- ===== src/Paths/Tests.antt =====
-- Runs of the clean-up of names and paths (backend/internal/fsutil/fsutil.go), and the theorems at
-- them.
use file_transit_desk.Prelude.{◌≡◌, refl, Bool, false, none, some, [], ◌∷◌, eqb, select, first}
use file_transit_desk.Paths.{
  Text, join, split, fields, clean_parts, clean_rel, safe_name, trim_left, trim_right,
}
use file_transit_desk.Paths.Confinement.{IsConfined, clean_rel-IsConfined}
use file_transit_desk.Paths.Names.{IsFileName, safe_name-IsFileName}

-- A system without volumes.
abbrev no_volume : Text → Bool
no_volume rel = false

-- "a/.//b" and "a/b"
clean_rel-IsConfined_example :
    IsConfined no_volume (97 ∷ 47 ∷ 46 ∷ 47 ∷ 47 ∷ 98 ∷ []) (some (97 ∷ 47 ∷ 98 ∷ []))
unfolding clean_rel fields split clean_parts join first
clean_rel-IsConfined_example = clean_rel-IsConfined no_volume (97 ∷ 47 ∷ 46 ∷ 47 ∷ 47 ∷ 98 ∷ [])

-- "a/../b"
parent_refused : clean_rel no_volume (97 ∷ 47 ∷ 46 ∷ 46 ∷ 47 ∷ 98 ∷ []) ≡ none
unfolding clean_rel fields split clean_parts join first
parent_refused = refl

-- "./c:" becomes "c:", which is refused.
volume_after_dot : clean_rel no_volume (46 ∷ 47 ∷ 99 ∷ 58 ∷ []) ≡ some (99 ∷ 58 ∷ [])
unfolding clean_rel fields split clean_parts join first
volume_after_dot = refl

volume_refused : clean_rel no_volume (99 ∷ 58 ∷ []) ≡ none
unfolding clean_rel fields split clean_parts join first
volume_refused = refl

safe_name-IsFileName_example :
    IsFileName (safe_name (eqb 32) (λ name. name) (32 ∷ 97 ∷ 47 ∷ 46 ∷ 32 ∷ []))
safe_name-IsFileName_example =
    safe_name-IsFileName (eqb 32) (λ name. name) (32 ∷ 97 ∷ 47 ∷ 46 ∷ 32 ∷ [])

-- " a/. " becomes "a".
trimmed_name : safe_name (eqb 32) (λ name. name) (32 ∷ 97 ∷ 47 ∷ 46 ∷ 32 ∷ []) ≡ 97 ∷ []
unfolding safe_name select trim_left trim_right
trimmed_name = refl
