-- ===== src/Paths.antt =====
-- Names and relative paths of users (backend/internal/fsutil/fsutil.go). A text is the list of its
-- runes. `is_space` is unicode.IsSpace, `base` filepath.Base, and `has_volume` tells whether
-- filepath.IsAbs holds or filepath.VolumeName is not empty, which depends on the system.
pub mod Parts
pub mod Confinement
pub mod Names
mod Tests
use file_transit_desk.Prelude.{
  ℕ, Bool, true, false, not, ◌&&◌, ◌||◌, Option, none, some, List, [], ◌∷◌, ◌++◌, ltb, leb, eqb,
  select, first, if◌then◌else◌, is_some,
}

abbrev pub Text : Type 0
Text = List ℕ

abbrev pub is_separator : ℕ → Bool
is_separator r = eqb r 47 || eqb r 92

abbrev pub is_empty : Text → Bool
is_empty [] = true
is_empty (r ∷ rs) = false

abbrev pub is_dot : Text → Bool
is_dot (r ∷ []) = eqb r 46
is_dot _ = false

abbrev pub is_dot_dot : Text → Bool
is_dot_dot (r ∷ s ∷ []) = eqb r 46 && eqb s 46
is_dot_dot _ = false

-- filepath.Join of parts without separators.
unfoldable pub join : List Text → Text
join [] = []
join (p ∷ []) = p
join (p ∷ q ∷ qs) = p ++ (47 ∷ join (q ∷ qs))

abbrev pub cons_part : Text → List Text → List Text
cons_part [] ps = ps
cons_part (r ∷ rs) ps = (r ∷ rs) ∷ ps

-- The text up to the first separator, and the parts after it.
unfoldable pub split : Text → Text × List Text
split [] = ([], [])
split (r ∷ rs) =
    let (p, ps) = split rs in if is_separator r then ([], cons_part p ps) else (r ∷ p, ps)

-- strings.FieldsFunc: empty parts are left out.
unfoldable pub fields : Text → List Text
unfolding split
fields rs = cons_part (split rs).0 (split rs).1

abbrev pub prepend : Text → Option (List Text) → Option (List Text)
prepend p none = none
prepend p (some ps) = some (p ∷ ps)

unfoldable pub clean_parts : List Text → Option (List Text)
clean_parts [] = some []
clean_parts (p ∷ ps) =
    let rest = clean_parts ps in
    if is_empty p || is_dot p then rest else if is_dot_dot p then none else prepend p rest

abbrev pub is_letter : ℕ → Bool
is_letter r = (leb 97 r && leb r 122) || (leb 65 r && leb r 90)

abbrev pub has_portable_windows_volume : Text → Bool
has_portable_windows_volume (r ∷ s ∷ rs) = is_letter r && eqb s 58
has_portable_windows_volume _ = false

abbrev pub starts_with : ℕ → Text → Bool
starts_with r [] = false
starts_with r (s ∷ ss) = eqb s r

abbrev pub joined : Option (List Text) → Option Text
joined none = none
joined (some ps) = some (join ps)

module _ (has_volume : Text → Bool) where
  abbrev pub is_unsafe : Text → Bool
  is_unsafe rel =
      is_some (first (eqb 0) rel)
      || (starts_with 47 rel
          || (starts_with 92 rel || (has_volume rel || has_portable_windows_volume rel)))

  -- none is ErrUnsafePath.
  unfoldable pub clean_rel : Text → Option Text
  unfolding fields clean_parts join
  clean_rel rel =
      if is_empty rel || is_dot rel
      then some []
      else if is_unsafe rel
      then none
      else joined (clean_parts (fields rel))

-- Trimming at the end: what a test holds of, as far as it does.
unfoldable pub trim_right : (ℕ → Bool) → Text → Text
trim_right p [] = []
trim_right p (r ∷ rs) = let rest = trim_right p rs in if is_empty rest && p r then [] else r ∷ rest

unfoldable pub trim_left : (ℕ → Bool) → Text → Text
trim_left p [] = []
trim_left p (r ∷ rs) = let rest = trim_left p rs in if p r then rest else r ∷ rs

abbrev pub is_dot_or_blank : ℕ → Bool
is_dot_or_blank r = eqb r 46 || eqb r 32

abbrev pub is_kept_in_name : ℕ → Bool
is_kept_in_name r = not (ltb r 32 || is_separator r)

-- "file"
abbrev pub fallback_name : Text
fallback_name = 102 ∷ 105 ∷ 108 ∷ 101 ∷ []

abbrev pub or_fallback : Text → Text
or_fallback name = if is_empty name || (is_dot name || is_dot_dot name) then fallback_name else name

module _ (is_space : ℕ → Bool) (base : Text → Text) where
  unfoldable pub safe_name : Text → Text
  unfolding trim_left trim_right
  safe_name name = or_fallback (
      trim_right is_dot_or_blank
        (trim_right is_space (trim_left is_space (select is_kept_in_name (base name)))))
