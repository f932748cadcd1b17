-- ===== src/Paths/Parts.antt =====
-- Splitting a path into parts and joining them (backend/internal/fsutil/fsutil.go).
use file_transit_desk.Prelude.{
  ◌≢◌, ℕ, ◌≡◌, refl, ap, ◌∙◌, true, false, ◌||◌, Option, none, some, List, [], ◌∷◌, ◌++◌, eqb,
  first, arith, All, All-append, Bool-cases, inl, inr, is_some,
}
use file_transit_desk.Paths.{
  Text, is_separator, is_empty, is_dot, is_dot_dot, join, cons_part, split, fields, prepend,
  clean_parts, starts_with,
}

-- Neither a separator nor NUL.
abbrev pub IsPlain : ℕ → Type 0
IsPlain r = (r ≢ 47) × (r ≢ 92) × (r ≢ 0)

-- A part that names an entry of a directory, not the directory itself or the one above.
pub record IsProper (p : Text) : Type 0 where
  pub plain : All IsPlain p
  pub entry : is_empty p || (is_dot p || is_dot_dot p) ≡ false

abbrev pub NotNul : ℕ → Type 0
NotNul r = eqb r 0 ≡ false

pub cons_part-All :
    (P : Text → Type 0) (p : Text) (ps : List Text) → P p → All P ps → All P (cons_part p ps)
cons_part-All P [] ps h k = k
cons_part-All P (r ∷ rs) ps h k = (h, k)

IsPlain-rune : (r : ℕ) → is_separator r ≡ false → NotNul r → IsPlain r
IsPlain-rune r e h =
    ((λ q. ground (arith, e, q)), (λ q. ground (arith, e, q)), (λ q. ground (arith, h, q)))

pub split-IsPlain :
    (rs : Text) → All NotNul rs → All IsPlain (split rs).0 × All (All IsPlain) (split rs).1
unfolding split
split-IsPlain [] h = (tt, tt)
split-IsPlain (r ∷ rs) h =
    let (p, ps) = split-IsPlain rs h.1 in
    elim (Bool-cases (is_separator r)) [
      | inl e ↦ rw e (tt, cons_part-All (All IsPlain) _ _ p ps)
      | inr e ↦ rw e ((IsPlain-rune r e h.0, p), ps)
    ]

-- All parts of an answer are proper.
abbrev pub ProperParts : Option (List Text) → Type 0
ProperParts none = Unit
ProperParts (some ps) = All IsProper ps

pub prepend-ProperParts :
    (p : Text) (o : Option (List Text)) → IsProper p → ProperParts o → ProperParts (prepend p o)
prepend-ProperParts p none h k = tt
prepend-ProperParts p (some ps) h k = (h, k)

pub clean_parts-ProperParts : (ps : List Text) → All (All IsPlain) ps → ProperParts (clean_parts ps)
unfolding clean_parts
clean_parts-ProperParts [] h = tt
clean_parts-ProperParts (p ∷ ps) h = elim (Bool-cases (is_empty p || is_dot p)) [
  | inl e ↦ rw e (clean_parts-ProperParts ps h.1)
  | inr e ↦ elim (Bool-cases (is_dot_dot p)) [
    | inl f ↦ rw (e, f) tt
    | inr f ↦
        let k : IsProper p = record { plain = h.0; entry = ground (arith, e, f) } in
        rw (e, f) (prepend-ProperParts p (clean_parts ps) k (clean_parts-ProperParts ps h.1))
  ]
]

pub clean_parts-same : (ps : List Text) → All IsProper ps → clean_parts ps ≡ some ps
unfolding clean_parts
clean_parts-same [] h = refl
clean_parts-same (p ∷ ps) h =
    let e : is_empty p || is_dot p ≡ false = ground (arith, h.0.entry) in
    let f : is_dot_dot p ≡ false = ground (arith, h.0.entry) in
    rw (e, f) (ap (prepend p) (clean_parts-same ps h.1))

pub split-alone : (p : Text) → All IsPlain p → split p ≡ (p, [])
unfolding split
split-alone [] h = refl
split-alone (r ∷ p) h = ground (arith, h.0, split-alone p h.1)

pub split-append :
    (p rs : Text) → All IsPlain p → split (p ++ rs) ≡ (p ++ (split rs).0, (split rs).1)
unfolding split
split-append [] rs h = refl
split-append (r ∷ p) rs h = ground (arith, h.0, split-append p rs h.1)

pub append-nil : (p : Text) → p ++ [] ≡ p
append-nil [] = refl
append-nil (r ∷ p) = ap (λ l. r ∷ l) (append-nil p)

pub cons_part-entry :
    (p : Text) (ps : List Text)
    → is_empty p || (is_dot p || is_dot_dot p) ≡ false
    → cons_part p ps ≡ p ∷ ps
cons_part-entry [] ps h = cc
cons_part-entry (r ∷ rs) ps h = refl

pub fields-join : (ps : List Text) → All IsProper ps → fields (join ps) ≡ ps
unfolding fields split join
fields-join [] h = refl
fields-join (p ∷ []) h =
    ap (λ (x : Text × List Text). cons_part x.0 x.1) (split-alone p h.0.plain)
    ∙ cons_part-entry p [] h.0.entry
fields-join (p ∷ q ∷ qs) h =
    ap (λ (x : Text × List Text). cons_part x.0 x.1) (split-append p (47 ∷ join (q ∷ qs)) h.0.plain)
    ∙ ap (λ n. cons_part n (fields (join (q ∷ qs)))) (append-nil p)
    ∙ cons_part-entry p (fields (join (q ∷ qs))) h.0.entry
    ∙ ap (λ l. p ∷ l) (fields-join (q ∷ qs) h.1)

pub no_nul : (rel : Text) → is_some (first (eqb 0) rel) ≡ false → All NotNul rel
unfolding first
no_nul [] h = tt
no_nul (r ∷ rs) h = (ground (arith, h), no_nul rs (ground (arith, h)))

pub nul_free : (rs : Text) → All NotNul rs → is_some (first (eqb 0) rs) ≡ false
unfolding first
nul_free [] h = refl
nul_free (r ∷ rs) h = ground (arith, h.0, nul_free rs h.1)

pub All-NotNul : (p : Text) → All IsPlain p → All NotNul p
All-NotNul [] h = tt
All-NotNul (r ∷ p) h = (ground (arith, h.0.2), All-NotNul p h.1)

pub join-NotNul : (ps : List Text) → All IsProper ps → All NotNul (join ps)
unfolding join
join-NotNul [] h = tt
join-NotNul (p ∷ []) h = All-NotNul p h.0.plain
join-NotNul (p ∷ q ∷ qs) h =
    All-append NotNul p (47 ∷ join (q ∷ qs)) (All-NotNul p h.0.plain)
      (refl, join-NotNul (q ∷ qs) h.1)

-- The text of proper parts starts with no separator, and is not ".".
pub join-start :
    (ps : List Text)
    → All IsProper ps
    → starts_with 47 (join ps) || starts_with 92 (join ps) ≡ false
unfolding join
join-start [] h = refl
join-start ([] ∷ ps) h = let e = h.0.entry in cc
join-start ((r ∷ rs) ∷ []) h = ground (arith, h.0.plain.0)
join-start ((r ∷ rs) ∷ q ∷ qs) h = ground (arith, h.0.plain.0)

pub join-not_dot : (ps : List Text) → All IsProper ps → is_dot (join ps) ≡ false
unfolding join
join-not_dot [] h = refl
join-not_dot (p ∷ []) h = ground (arith, h.0.entry)
join-not_dot ([] ∷ q ∷ qs) h = let e = h.0.entry in cc
join-not_dot ((r ∷ []) ∷ q ∷ qs) h = refl
join-not_dot ((r ∷ s ∷ rs) ∷ q ∷ qs) h = refl

pub prepend-none : (p : Text) (o : Option (List Text)) → prepend p o ≡ none → o ≡ none
prepend-none p none h = refl
prepend-none p (some ps) h = cc

pub clean_parts-rest :
    (p : Text) (ps : List Text)
    → is_dot_dot p ≡ false
    → clean_parts (p ∷ ps) ≡ none
    → clean_parts ps ≡ none
unfolding clean_parts
clean_parts-rest p ps f h = elim (Bool-cases (is_empty p || is_dot p)) [
  | inl e ↦ rw e at h
  | inr e ↦ prepend-none p (clean_parts ps) (rw (e, f) at h)
]

pub none-dot_dot : (ps : List Text) → clean_parts ps ≡ none → is_some (first is_dot_dot ps) ≡ true
unfolding first
none-dot_dot [] h = unfold clean_parts in cc
none-dot_dot (p ∷ ps) h = elim (Bool-cases (is_dot_dot p)) [
  | inl f ↦ ground (arith, f)
  | inr f ↦ ground (arith, f, none-dot_dot ps (clean_parts-rest p ps f h))
]

pub empty-nil : (t : Text) → is_empty t ≡ true → t ≡ []
empty-nil [] h = refl
empty-nil (r ∷ rs) h = cc
