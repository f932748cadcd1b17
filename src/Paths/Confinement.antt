-- ===== src/Paths/Confinement.antt =====
-- What the clean-up of paths ensures (backend/internal/fsutil/fsutil.go).
use file_transit_desk.Prelude.{
  ◌≡◌, ◌⊎◌, refl, ap, sym, subst, ◌∙◌, Bool, true, false, ◌||◌, Option, none, some, List, [], eqb,
  first, arith, All, Bool-cases, inl, inr, is_some,
}
use file_transit_desk.Paths.{
  Text, is_empty, is_dot, is_dot_dot, join, split, fields, clean_parts, has_portable_windows_volume,
  joined, is_unsafe, clean_rel,
}
use file_transit_desk.Paths.Parts.{
  IsProper, cons_part-All, split-IsPlain, clean_parts-ProperParts, clean_parts-same, fields-join,
  no_nul, nul_free, join-NotNul, join-start, join-not_dot, none-dot_dot, empty-nil, IsPlain,
  ProperParts,
}

module _ (has_volume : Text → Bool) where
  -- What a user's path becomes: a text of proper parts, joined by slashes, which is left as it is
  -- the next time; or it was unsafe, or had a part "..".
  abbrev pub IsConfined : Text → Option Text → Type 0
  IsConfined rel none =
      (is_unsafe has_volume rel ≡ true) ⊎ (is_some (first is_dot_dot (fields rel)) ≡ true)
  IsConfined rel (some out) =
      All IsProper (fields out)
      × (join (fields out) ≡ out)
      × ((has_volume out || has_portable_windows_volume out ≡ true)
          ⊎ (clean_rel has_volume out ≡ some out))

  again :
      (ps : List Text)
      → All IsProper ps
      → has_volume (join ps) || has_portable_windows_volume (join ps) ≡ false
      → clean_rel has_volume (join ps) ≡ some (join ps)
  unfolding clean_rel
  again ps h v =
      let start = join-start ps h in
      let nul = nul_free (join ps) (join-NotNul ps h) in
      let safe : is_unsafe has_volume (join ps) ≡ false = ground (arith, start, nul, v) in
      elim (Bool-cases (is_empty (join ps) || is_dot (join ps))) [
        | inl e ↦
            let none_there : join ps ≡ [] =
              empty-nil (join ps) (ground (arith, e, join-not_dot ps h)) in
            rw e (ap some (sym none_there))
        | inr e ↦
            rw (e, safe) (ap joined (ap clean_parts (fields-join ps h) ∙ clean_parts-same ps h))
      ]

  joined-IsConfined :
      (rel : Text) (o : Option (List Text))
      → clean_parts (fields rel) ≡ o
      → ProperParts o
      → IsConfined rel (joined o)
  joined-IsConfined rel none e h = inr (none-dot_dot (fields rel) e)
  joined-IsConfined rel (some ps) e h = (
    subst (All IsProper) (sym (fields-join ps h)) h,
    ap join (fields-join ps h),
    elim (Bool-cases (has_volume (join ps) || has_portable_windows_volume (join ps))) [
      | inl v ↦ inl v
      | inr v ↦ inr (again ps h v)
    ],
  )

  -- CleanRel of any path answers with parts that are joined by single slashes, none of them empty,
  -- "." or "..", or with a separator or NUL in it, and leaves such an answer as it is, unless the
  -- answer starts like a volume; it refuses a path only if that fails one of its tests for unsafe
  -- starts and runes, or has a part "..".
  pub clean_rel-IsConfined : (rel : Text) → IsConfined rel (clean_rel has_volume rel)
  unfolding clean_rel
  clean_rel-IsConfined rel = elim (Bool-cases (is_empty rel || is_dot rel)) [
    | inl e ↦ rw e (unfold fields split join in (tt, refl, inr (unfold clean_rel in refl)))
    | inr e ↦ elim (Bool-cases (is_unsafe has_volume rel)) [
      | inl f ↦ rw (e, f) (inl f)
      | inr f ↦
          let safe : is_some (first (eqb 0) rel) ≡ false = ground (arith, f) in
          let plain = split-IsPlain rel (no_nul rel safe) in
          rw (e, f)
            (joined-IsConfined rel (clean_parts (fields rel)) refl (
              clean_parts-ProperParts (fields rel)
                (unfold fields in cons_part-All (All IsPlain) _ _ plain.0 plain.1)))
    ]
  ]
