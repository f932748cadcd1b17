-- ===== src/Store/Exec/Success.antt =====
-- What a successful action has done.
use file_transit_desk.Prelude.{
  ◌≡◌, refl, ◌⊎◌, inl, inr, Bool, true, false, List, [], ◌∷◌, arith, if◌then◌else◌,
}
use file_transit_desk.Store.Exec.{
  Error, Result, ok, err, World, Exec, raise, statement, commit, continue, transaction, attempt,
  ◌>>=◌,
}

module _ {S A : Type 0} where
  statement_ok_at :
      (f : S → Result A × S) (db : S) (faults : List Bool) (a : A)
      → (statement f (record { db = db; faults = faults })).0 ≡ ok a
      → f db ≡ (ok a, (statement f (record { db = db; faults = faults })).1.db)
  unfolding statement
  statement_ok_at f db [] a h = ground (arith, h)
  statement_ok_at f db (true ∷ faults) a h = cc
  statement_ok_at f db (false ∷ faults) a h = ground (arith, h)

  pub statement_ok :
      (f : S → Result A × S) (w : World S) (a : A)
      → (statement f w).0 ≡ ok a
      → f w.db ≡ (ok a, (statement f w).1.db)
  statement_ok f w a h = statement_ok_at f w.db w.faults a h

  -- A transaction that succeeds ran its body on the database and committed what it left.
  pub record Committed (body : Exec S A) (w : World S) (a : A) : Type 0 where
    pub start : World S
    pub same : start.db ≡ w.db
    pub result : (body start).0 ≡ ok a
    pub left : (transaction body w).1.db ≡ (body start).1.db

  commit_ok :
      (r : Result A) (before db : S) (faults : List Bool) (a : A)
      → (commit before r (record { db = db; faults = faults })).0 ≡ ok a
      → (r ≡ ok a) × ((commit before r (record { db = db; faults = faults })).1.db ≡ db)
  commit_ok (err e) before db faults a h = cc
  commit_ok (ok b) before db [] a h = (h, refl)
  commit_ok (ok b) before db (true ∷ faults) a h = cc
  commit_ok (ok b) before db (false ∷ faults) a h = (h, refl)

  transaction_ok_at :
      (body : Exec S A) (db : S) (faults : List Bool) (a : A)
      → (transaction body (record { db = db; faults = faults })).0 ≡ ok a
      → Committed body (record { db = db; faults = faults }) a
  unfolding transaction
  transaction_ok_at body db [] a h =
      let start : World S = record { db = db; faults = [] } in
      let (r, l) = commit_ok (body start).0 db (body start).1.db (body start).1.faults a h in
      record { start = start; same = refl; result = r; left = l }
  transaction_ok_at body db (true ∷ faults) a h = cc
  transaction_ok_at body db (false ∷ faults) a h =
      let start : World S = record { db = db; faults = faults } in
      let (r, l) = commit_ok (body start).0 db (body start).1.db (body start).1.faults a h in
      record { start = start; same = refl; result = r; left = l }

  pub transaction_ok :
      (body : Exec S A) (w : World S) (a : A) → (transaction body w).0 ≡ ok a → Committed body w a
  transaction_ok body w a h = transaction_ok_at body w.db w.faults a h

module _ {S A B : Type 0} where
  -- A sequence that succeeds is its first part's success and then its second's.
  pub record Sequenced (m : Exec S A) (f : A → Exec S B) (w : World S) (b : B) : Type 0 where
    pub value : A
    pub first : (m w).0 ≡ ok value
    pub second : (f value (m w).1).0 ≡ ok b
    pub left : (m >>= f) w ≡ f value (m w).1

  continue_ok :
      (r : Result A) (f : A → Exec S B) (w : World S) (b : B)
      → (continue r f w).0 ≡ ok b
      → (a : A) × (r ≡ ok a) × ((f a w).0 ≡ ok b) × (continue r f w ≡ f a w)
  continue_ok (ok a) f w b h = (a, refl, h, refl)
  continue_ok (err e) f w b h = cc

  pub bind_ok :
      (m : Exec S A) (f : A → Exec S B) (w : World S) (b : B)
      → ((m >>= f) w).0 ≡ ok b
      → Sequenced m f w b
  unfolding ◌>>=◌
  bind_ok m f w b h =
      let (a, e, k, l) = continue_ok (m w).0 f (m w).1 b h in
      record { value = a; first = e; second = k; left = l }

pub Result-cases :
    {A : Type 0} (r : Result A) → ((value : A) × (r ≡ ok value)) ⊎ ((x : Error) × (r ≡ err x))
Result-cases (ok a) = inl (a, refl)
Result-cases (err e) = inr (e, refl)

-- The action never succeeds.
pub record Fails {S A : Type 0} (m : Exec S A) : Type 0 where
  pub at : (w : World S) (a : A) → ¬ ((m w).0 ≡ ok a)

module _ {S A : Type 0} where
  pub Fails-raise : (e : Error) → Fails (raise {S = S} {A = A} e)
  unfolding raise
  Fails-raise e = record { at = λ w a h. cc }

  pub Fails-if : (b : Bool) (m n : Exec S A) → Fails m → Fails n → Fails (if b then m else n)
  Fails-if true m n f g = f
  Fails-if false m n f g = g

  pub Fails-attempt :
      {B : Type 0} (m : Exec S B) (f : Result B → Exec S A)
      → ((r : Result B) → Fails (f r))
      → Fails (attempt m f)
  unfolding attempt
  Fails-attempt m f k = record { at = λ w a h. (k (m w).0).at (m w).1 a h }
