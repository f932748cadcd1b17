-- ===== src/Sweep/Names.antt =====
-- The names of temporary uploads that the clean-up recognises (backend/internal/server/maintenance.go).
use file_transit_desk.Prelude.{◌≡◌, refl, ap, true, [], ◌∷◌, ◌++◌, arith, Bool-cases, inl, inr}
use file_transit_desk.Sweep.{
  Name, has_prefix, same_name, has_suffix, is_upload_name, upload_prefix, upload_suffix,
}

-- `.upload-`, then anything; and anything, then `.tmp`.
pub record IsUploadName (name : Name) : Type 0 where
  pub starts : (rest : Name) × (name ≡ (46 ∷ 117 ∷ 112 ∷ 108 ∷ 111 ∷ 97 ∷ 100 ∷ 45 ∷ rest))
  pub ends : (start : Name) × (name ≡ start ++ (46 ∷ 116 ∷ 109 ∷ 112 ∷ []))

has_prefix-append :
    (name prefix : Name) → has_prefix name prefix ≡ true → (rest : Name) × (name ≡ prefix ++ rest)
unfolding has_prefix
has_prefix-append name [] e = (name, refl)
has_prefix-append [] (p ∷ ps) e = cc
has_prefix-append (r ∷ rs) (p ∷ ps) e =
    let (rest, same) = has_prefix-append rs ps (ground (arith, e)) in
    (rest, ground (arith, same, e))

same_name-path : (a b : Name) → same_name a b ≡ true → a ≡ b
unfolding same_name
same_name-path [] [] e = refl
same_name-path [] (p ∷ ps) e = cc
same_name-path (r ∷ rs) [] e = cc
same_name-path (r ∷ rs) (p ∷ ps) e = ground (arith, e, same_name-path rs ps)

has_suffix-append :
    (name suffix : Name) → has_suffix name suffix ≡ true → (start : Name) × (name ≡ start ++ suffix)
unfolding has_suffix
has_suffix-append [] suffix e = ([], same_name-path [] suffix e)
has_suffix-append (r ∷ rs) suffix e = elim (Bool-cases (same_name (r ∷ rs) suffix)) [
  | inl same ↦ ([], same_name-path (r ∷ rs) suffix same)
  | inr other ↦
      let (start, same) = has_suffix-append rs suffix (ground (arith, e, other)) in
      (r ∷ start, ap (λ x. r ∷ x) same)
]

pub is_upload_name-IsUploadName : (name : Name) → is_upload_name name ≡ true → IsUploadName name
unfolding is_upload_name
is_upload_name-IsUploadName name e = record {
  starts = has_prefix-append name upload_prefix (ground (arith, e));
  ends = has_suffix-append name upload_suffix (ground (arith, e));
}
