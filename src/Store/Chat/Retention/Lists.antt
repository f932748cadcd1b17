-- ===== src/Store/Chat/Retention/Lists.antt =====
-- Counts and tests on lists that are selected from, reversed, cut or emptied.
use file_transit_desk.Prelude.{
  ℕ, zero, suc, ◌+◌, ◌≤◌, ◌<◌, ◌≡◌, refl, ap, subst, Bool, true, not, List, [], ◌∷◌, select, count,
  length, take, drop, arith, All, Bool-cases, inl, inr, if◌then◌else◌,
}
use file_transit_desk.Store.Rows.{delete_where}
use file_transit_desk.Store.Chat.{rev_onto}

module _ {ℓ} {A : Type ℓ} where
  pub count-rev_onto :
      (p : A → Bool) (xs ys : List A) → count p (rev_onto xs ys) ≡ count p xs + count p ys
  unfolding rev_onto count
  count-rev_onto p [] ys = omega arith
  count-rev_onto p (x ∷ xs) ys = ground (arith, count-rev_onto p xs (x ∷ ys))

  pub count-take-drop :
      (p : A → Bool) (n : ℕ) (xs : List A) → count p xs ≡ count p (take n xs) + count p (drop n xs)
  unfolding count
  count-take-drop p zero xs = omega arith
  count-take-drop p (suc n) [] = omega arith
  count-take-drop p (suc n) (x ∷ xs) = ground (arith, count-take-drop p n xs)

  pub count-select-le : (p q : A → Bool) (xs : List A) → count p (select q xs) ≤ count p xs
  unfolding count select
  count-select-le p q [] = omega arith
  count-select-le p q (x ∷ xs) = ground (arith, count-select-le p q xs)

  pub count-All : (p : A → Bool) (xs : List A) → All (λ x. p x ≡ true) xs → count p xs ≡ length xs
  unfolding count
  count-All p [] h = refl
  count-All p (x ∷ xs) h = ground (arith, h.0, count-All p xs h.1)

  pub count-none :
      (p : A → Bool) (xs : List A) → All (λ x. p x ≡ true) xs → count (λ x. not (p x)) xs ≡ 0
  unfolding count
  count-none p [] h = refl
  count-none p (x ∷ xs) h = ground (arith, h.0, count-none p xs h.1)

  pub length-delete_where :
      (p : A → Bool) (xs : List A) → length (delete_where p xs) ≡ count (λ x. not (p x)) xs
  unfolding count delete_where
  length-delete_where p [] = refl
  length-delete_where p (x ∷ xs) = ground (arith, length-delete_where p xs)

  pub length-delete_where_count :
      (p : A → Bool) (xs : List A) → length (delete_where p xs) + count p xs ≡ length xs
  unfolding count delete_where
  length-delete_where_count p [] = omega arith
  length-delete_where_count p (x ∷ xs) = ground (arith, length-delete_where_count p xs)

  pub take-short : (n : ℕ) (xs : List A) → length (take n xs) < n → take n xs ≡ xs
  take-short zero xs h = absurd (omega (arith, h))
  take-short (suc n) [] h = refl
  take-short (suc n) (x ∷ xs) h = ap (λ l. x ∷ l) (take-short n xs (omega (arith, h)))

  -- What the selected ones meet follows from the test for all.
  pub All-select_then :
      (p q : A → Bool) (xs : List A)
      → All (λ x. q x ≡ true) (select p xs)
      → All (λ x. p x ≡ true → q x ≡ true) xs
  unfolding select
  All-select_then p q [] h = tt
  All-select_then p q (x ∷ xs) h = elim (Bool-cases (p x)) [
    | inl e ↦
        let k : All (λ y. q y ≡ true) (x ∷ select p xs) =
          subst (λ b. All (λ y. q y ≡ true) (if b then x ∷ select p xs else select p xs)) e h in
        ((λ f. k.0), All-select_then p q xs k.1)
    | inr e ↦
        let k : All (λ y. q y ≡ true) (select p xs) =
          subst (λ b. All (λ y. q y ≡ true) (if b then x ∷ select p xs else select p xs)) e h in
        ((λ f. cc), All-select_then p q xs k)
  ]

module _ {ℓ κ} {A : Type ℓ} (P : A → Type κ) where
  pub All-rev : (xs ys : List A) → All P xs → All P ys → All P (rev_onto xs ys)
  unfolding rev_onto
  All-rev [] ys h k = k
  All-rev (x ∷ xs) ys h k = All-rev xs (x ∷ ys) h.1 (h.0, k)

  pub All-drop : (n : ℕ) (xs : List A) → All P xs → All P (drop n xs)
  All-drop zero xs h = h
  All-drop (suc n) [] h = h
  All-drop (suc n) (x ∷ xs) h = All-drop n xs h.1

module _ {ℓ κ} {A : Type ℓ} (P Q : A → Type κ) where
  pub All-imply : (xs : List A) → All (λ x. P x → Q x) xs → All P xs → All Q xs
  All-imply [] h k = tt
  All-imply (x ∷ xs) h k = (h.0 k.0, All-imply xs h.1 k.1)
