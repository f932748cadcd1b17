-- ===== src/Store/Chat/BatchIds.antt =====
-- Which lists of ids a deletion of several messages takes (backend/internal/store/chat.go).
use file_transit_desk.Prelude.{
  ℕ, ◌≤◌, ◌<◌, ◌≡◌, refl, ◌∙◌, inl, inr, Bool, true, false, not, ◌||◌, Option, none, some, List, [],
  ◌∷◌, leb, eqb, length, count, first, arith, Bool-cases, is_some,
}
use file_transit_desk.Store.Chat.Batches.{
  insert_id, sort_ids, repeats, has_adjacent_repeat, is_batch_size, normalize_chat_batch_ids,
}

count-insert_id : (p : ℕ → Bool) (n : ℕ) (xs : List ℕ) → count p (insert_id n xs) ≡ count p (n ∷ xs)
unfolding insert_id count
count-insert_id p n [] = refl
count-insert_id p n (x ∷ xs) = ground (arith, count-insert_id p n xs)

count-sort_ids : (p : ℕ → Bool) (xs : List ℕ) → count p (sort_ids xs) ≡ count p xs
unfolding sort_ids count
count-sort_ids p [] = refl
count-sort_ids p (x ∷ xs) = ground (arith, count-insert_id p x (sort_ids xs), count-sort_ids p xs)

-- From a number on, in order, with and without equal neighbours.
abbrev Rises : ℕ → List ℕ → Type 0
Rises from [] = Unit
Rises from (x ∷ xs) = (from ≤ x) × Rises x xs

abbrev pub StrictlyRises : ℕ → List ℕ → Type 0
StrictlyRises above [] = Unit
StrictlyRises above (x ∷ xs) = (above < x) × StrictlyRises x xs

insert_id-Rises :
    (from n : ℕ) (xs : List ℕ) → from ≤ n → Rises from xs → Rises from (insert_id n xs)
unfolding insert_id
insert_id-Rises from n [] h k = (h, tt)
insert_id-Rises from n (x ∷ xs) h k = elim (Bool-cases (leb n x)) [
  | inl e ↦ rw e (h, (ground (arith, e), k.1))
  | inr e ↦ rw e (k.0, insert_id-Rises x n xs (ground (arith, e)) k.1)
]

sort_ids-Rises : (xs : List ℕ) → Rises 0 (sort_ids xs)
unfolding sort_ids
sort_ids-Rises [] = tt
sort_ids-Rises (x ∷ xs) = insert_id-Rises 0 x (sort_ids xs) (omega arith) (sort_ids-Rises xs)

strictly : (n : ℕ) (xs : List ℕ) → Rises n xs → repeats n xs ≡ false → StrictlyRises n xs
unfolding repeats
strictly n [] h k = tt
strictly n (x ∷ xs) h k = (ground (arith, h.0, k), strictly x xs h.1 (ground (arith, k)))

none-below : (n m : ℕ) (xs : List ℕ) → StrictlyRises m xs → n ≤ m → count (eqb n) xs ≡ 0
unfolding count
none-below n m [] h k = refl
none-below n m (x ∷ xs) h k = ground (arith, h.0, k, none-below n x xs h.1 (omega (arith, h.0, k)))

strictly-once : (n m : ℕ) (xs : List ℕ) → StrictlyRises m xs → count (eqb n) xs ≤ 1
unfolding count
strictly-once n m [] h = omega arith
strictly-once n m (x ∷ xs) h = elim (Bool-cases (eqb n x)) [
  | inl e ↦ ground (arith, e, none-below n x xs h.1 (ground (arith, e)))
  | inr e ↦ ground (arith, e, strictly-once n x xs h.1)
]

repeated : (n : ℕ) (xs : List ℕ) → repeats n xs ≡ true → (m : ℕ) × (2 ≤ count (eqb m) (n ∷ xs))
unfolding repeats count
repeated n [] h = cc
repeated n (x ∷ xs) h = elim (Bool-cases (eqb x n)) [
  | inl e ↦ (n, ground (arith, e))
  | inr e ↦ let (m, k) = repeated x xs (ground (arith, h, e)) in (m, ground (arith, k))
]

-- What the ids of a deletion must be.
pub record IsBatchOfIds (ids : List ℕ) : Type 0 where
  pub some_ids : 1 ≤ length ids
  pub at_most : length ids ≤ 100
  pub positive : count (eqb 0) ids ≡ 0
  pub distinct : (n : ℕ) → count (eqb n) ids ≤ 1

-- The same ids in increasing order.
pub record IsInOrder (ids sorted : List ℕ) : Type 0 where
  pub rising : StrictlyRises 0 sorted
  pub same : (n : ℕ) → count (eqb n) sorted ≡ count (eqb n) ids

first-count_pos : (p : ℕ → Bool) (xs : List ℕ) → is_some (first p xs) ≡ true → 1 ≤ count p xs
unfolding first count
first-count_pos p [] h = cc
first-count_pos p (x ∷ xs) h = ground (arith, h, first-count_pos p xs)

first-count_zero : (p : ℕ → Bool) (xs : List ℕ) → is_some (first p xs) ≡ false → count p xs ≡ 0
unfolding first count
first-count_zero p [] h = refl
first-count_zero p (x ∷ xs) h = ground (arith, h, first-count_zero p xs)

-- No equal neighbours: all ids are distinct.
once_if :
    (s : List ℕ)
    → Rises 0 s
    → count (eqb 0) s ≡ 0
    → has_adjacent_repeat s ≡ false
    → StrictlyRises 0 s
unfolding count
once_if [] h z k = tt
once_if (x ∷ xs) h z k = (ground (arith, z), strictly x xs h.1 k)

twice_if : (s : List ℕ) → has_adjacent_repeat s ≡ true → (m : ℕ) × (2 ≤ count (eqb m) s)
twice_if [] h = cc
twice_if (x ∷ xs) h = repeated x xs h

-- Accepted with the ids in order, or refused.
abbrev pub Answer : List ℕ → Option (List ℕ) → Type 0
Answer ids (some sorted) = IsBatchOfIds ids × IsInOrder ids sorted
Answer ids none = ¬ IsBatchOfIds ids

-- A list of ids is accepted for a deletion exactly if it has between one and a hundred ids, all
-- positive and all distinct; then the same ids are returned in strictly increasing order.
pub normalize_chat_batch_ids-Answer : (ids : List ℕ) → Answer ids (normalize_chat_batch_ids ids)
unfolding normalize_chat_batch_ids
normalize_chat_batch_ids-Answer ids =
    elim (Bool-cases (not (is_batch_size (length ids)) || is_some (first (eqb 0) ids))) [
      | inl e ↦ rw e (λ b. elim (Bool-cases (is_some (first (eqb 0) ids))) [
        | inl f ↦ absurd (omega (arith, first-count_pos (eqb 0) ids f, b.positive))
        | inr f ↦ ground (arith, e, f, b.some_ids, b.at_most)
      ])
      | inr e ↦
          let zero_free : is_some (first (eqb 0) ids) ≡ false = ground (arith, e) in
          let positive : count (eqb 0) ids ≡ 0 = first-count_zero (eqb 0) ids zero_free in
          elim (Bool-cases (has_adjacent_repeat (sort_ids ids))) [
            | inl f ↦
                rw (e, f)
                  (λ b.
                    let (m, k) = twice_if (sort_ids ids) f in
                    omega (arith, k, count-sort_ids (eqb m) ids, b.distinct m))
            | inr f ↦
                let rising : StrictlyRises 0 (sort_ids ids) =
                  once_if (sort_ids ids) (sort_ids-Rises ids)
                    (count-sort_ids (eqb 0) ids ∙ positive) f in
                rw (e, f)
                  (
                    record {
                      some_ids = ground (arith, e);
                      at_most = ground (arith, e);
                      positive = positive;
                      distinct = λ n. omega (
                        arith,
                        strictly-once n 0 (sort_ids ids) rising,
                        count-sort_ids (eqb n) ids,
                      );
                    },
                    record { rising = rising; same = λ n. count-sort_ids (eqb n) ids },
                  )
          ]
    ]
