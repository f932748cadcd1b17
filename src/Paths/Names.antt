-- ===== src/Paths/Names.antt =====
-- What the clean-up of names ensures (backend/internal/fsutil/fsutil.go).
use file_transit_desk.Prelude.{
  eqb, ◌≤◌, ◌≢◌, ℕ, ◌≡◌, refl, Bool, true, false, ◌&&◌, ◌||◌, [], ◌∷◌, select, arith, All,
  Bool-cases, inl, inr,
}
use file_transit_desk.Paths.{
  Text, is_empty, is_dot, is_dot_dot, trim_right, trim_left, is_dot_or_blank, is_kept_in_name,
  or_fallback, safe_name,
}

-- The test of the last rune.
abbrev pub ends_in : (ℕ → Bool) → Text → Bool
ends_in p [] = false
ends_in p (r ∷ []) = p r
ends_in p (r ∷ s ∷ rs) = ends_in p (s ∷ rs)

ends_in-cons :
    (p : ℕ → Bool) (r : ℕ) (rs : Text)
    → ends_in p rs ≡ false
    → is_empty rs && p r ≡ false
    → ends_in p (r ∷ rs) ≡ false
ends_in-cons p r [] h k = k
ends_in-cons p r (s ∷ rs) h k = h

trim_right-ends_in : (p : ℕ → Bool) (rs : Text) → ends_in p (trim_right p rs) ≡ false
unfolding trim_right
trim_right-ends_in p [] = refl
trim_right-ends_in p (r ∷ rs) = elim (Bool-cases (is_empty (trim_right p rs) && p r)) [
  | inl e ↦ rw e refl
  | inr e ↦ rw e (ends_in-cons p r (trim_right p rs) (trim_right-ends_in p rs) e)
]

module _ (P : ℕ → Type 0) (p : ℕ → Bool) where
  All-trim_right : (rs : Text) → All P rs → All P (trim_right p rs)
  unfolding trim_right
  All-trim_right [] h = tt
  All-trim_right (r ∷ rs) h = elim (Bool-cases (is_empty (trim_right p rs) && p r)) [
    | inl e ↦ rw e tt
    | inr e ↦ rw e (h.0, All-trim_right rs h.1)
  ]

  All-trim_left : (rs : Text) → All P rs → All P (trim_left p rs)
  unfolding trim_left
  All-trim_left [] h = tt
  All-trim_left (r ∷ rs) h = elim (Bool-cases (p r)) [
    | inl e ↦ rw e (All-trim_left rs h.1)
    | inr e ↦ rw e h
  ]

select-holds : (p : ℕ → Bool) (rs : Text) → All (λ r. p r ≡ true) (select p rs)
unfolding select
select-holds p [] = tt
select-holds p (r ∷ rs) = elim (Bool-cases (p r)) [
  | inl e ↦ rw e (e, select-holds p rs)
  | inr e ↦ rw e (select-holds p rs)
]

abbrev pub KeptRune : ℕ → Type 0
KeptRune r = (32 ≤ r) × (r ≢ 47) × (r ≢ 92)

ends_in-fewer :
    (p q : ℕ → Bool) (rs : Text)
    → ((r : ℕ) → p r ≡ true → q r ≡ true)
    → ends_in q rs ≡ false
    → ends_in p rs ≡ false
ends_in-fewer p q [] h k = refl
ends_in-fewer p q (r ∷ []) h k = elim (Bool-cases (p r)) [
  | inl e ↦ let f : q r ≡ true = h r e in cc
  | inr e ↦ e
]
ends_in-fewer p q (r ∷ s ∷ rs) h k = ends_in-fewer p q (s ∷ rs) h k

kept-KeptRune : (rs : Text) → All (λ r. is_kept_in_name r ≡ true) rs → All KeptRune rs
kept-KeptRune [] h = tt
kept-KeptRune (r ∷ rs) h =
    let e = h.0 in
    (
      (ground (arith, e), (λ q. ground (arith, e, q)), (λ q. ground (arith, e, q))),
      kept-KeptRune rs h.1,
    )

-- A name of one file: of no rune below 32 and no separator, not empty, and not ended by a dot or
-- a blank, as the names of the directory and of the one above it are.
pub record IsFileName (name : Text) : Type 0 where
  pub runes : All KeptRune name
  pub not_empty : is_empty name ≡ false
  pub no_dot : ends_in (eqb 46) name ≡ false
  pub no_blank : ends_in (eqb 32) name ≡ false

or_fallback-IsFileName :
    (t : Text) → All KeptRune t → ends_in is_dot_or_blank t ≡ false → IsFileName (or_fallback t)
or_fallback-IsFileName t h k = elim (Bool-cases (is_empty t || (is_dot t || is_dot_dot t))) [
  | inl e ↦ rw e (record { runes = omega arith; not_empty = refl; no_dot = refl; no_blank = refl })
  | inr e ↦ rw e (record {
    runes = h;
    not_empty = ground (arith, e);
    no_dot = ends_in-fewer (eqb 46) is_dot_or_blank t (λ r q. ground (arith, q)) k;
    no_blank = ends_in-fewer (eqb 32) is_dot_or_blank t (λ r q. ground (arith, q)) k;
  })
]

module _ (is_space : ℕ → Bool) (base : Text → Text) where
  -- SafeName of any text, whatever filepath.Base makes of it, is a name that is not empty, has no
  -- rune below 32 and no separator (a slash or a backslash) in it, and does not end with a dot or a
  -- blank.
  pub safe_name-IsFileName : (name : Text) → IsFileName (safe_name is_space base name)
  unfolding safe_name
  safe_name-IsFileName name =
      or_fallback-IsFileName _
        (All-trim_right KeptRune is_dot_or_blank _ (
          All-trim_right KeptRune is_space _ (
            All-trim_left KeptRune is_space _
              (kept-KeptRune _ (select-holds is_kept_in_name (base name))))))
        (trim_right-ends_in is_dot_or_blank
          (trim_right is_space (trim_left is_space (select is_kept_in_name (base name)))))
