-- ===== src/Store/Exec/Keeps.antt =====
-- Invariants of the database under an action, one rule for each way to build one.
use file_transit_desk.Prelude.{Bool, true, false, List, [], ◌∷◌, if◌then◌else◌}
use file_transit_desk.Store.Exec.{
  Error, Result, ok, err, World, Exec, pure, raise, statement, commit, continue, transaction,
  attempt, ◌>>=◌,
}

-- The action keeps `P`, whether it returns or fails.
pub record Keeps {S A : Type 0} (P : S → Type 0) (m : Exec S A) : Type 0 where
  pub at : (w : World S) → P w.db → P (m w).1.db

commit_at :
    {S A : Type 0} (P : S → Type 0) (r : Result A) (before db : S) (faults : List Bool)
    → P before
    → P db
    → P (commit before r (record { db = db; faults = faults })).1.db
commit_at P (err e) before db faults h k = h
commit_at P (ok a) before db [] h k = k
commit_at P (ok a) before db (true ∷ faults) h k = h
commit_at P (ok a) before db (false ∷ faults) h k = k

module _ {S A : Type 0} {P : S → Type 0} where
  pub Keeps-pure : (a : A) → Keeps P (pure {S = S} a)
  unfolding pure
  Keeps-pure a = record { at = λ w h. h }

  pub Keeps-raise : (e : Error) → Keeps P (raise {S = S} {A = A} e)
  unfolding raise
  Keeps-raise e = record { at = λ w h. h }

  statement_at :
      (f : S → Result A × S) (db : S) (faults : List Bool)
      → ((s : S) → P s → P (f s).1)
      → P db
      → P (statement f (record { db = db; faults = faults })).1.db
  unfolding statement
  statement_at f db [] k h = k db h
  statement_at f db (true ∷ faults) k h = h
  statement_at f db (false ∷ faults) k h = k db h

  pub Keeps-statement : (f : S → Result A × S) → ((s : S) → P s → P (f s).1) → Keeps P (statement f)
  Keeps-statement f k = record { at = λ w h. statement_at f w.db w.faults k h }

  transaction_at :
      (m : Exec S A) (db : S) (faults : List Bool)
      → Keeps P m
      → P db
      → P (transaction m (record { db = db; faults = faults })).1.db
  unfolding transaction
  transaction_at m db [] k h =
      let (r, w) = m (record { db = db; faults = [] }) in
      commit_at P r db w.db w.faults h (k.at (record { db = db; faults = [] }) h)
  transaction_at m db (true ∷ faults) k h = h
  transaction_at m db (false ∷ faults) k h =
      let (r, w) = m (record { db = db; faults = faults }) in
      commit_at P r db w.db w.faults h (k.at (record { db = db; faults = faults }) h)

  pub Keeps-transaction : (m : Exec S A) → Keeps P m → Keeps P (transaction m)
  Keeps-transaction m k = record { at = λ w h. transaction_at m w.db w.faults k h }

  pub Keeps-if : (b : Bool) (m n : Exec S A) → Keeps P m → Keeps P n → Keeps P (if b then m else n)
  Keeps-if true m n km kn = km
  Keeps-if false m n km kn = kn

module _ {S A B : Type 0} {P : S → Type 0} where
  pub Keeps-attempt :
      (m : Exec S A) (f : Result A → Exec S B)
      → Keeps P m
      → ((r : Result A) → Keeps P (f r))
      → Keeps P (attempt m f)
  unfolding attempt
  Keeps-attempt m f km kf = record { at = λ w h. (kf (m w).0).at (m w).1 (km.at w h) }

  pub Keeps-bind :
      (before : Exec S A) (after : A → Exec S B)
      → Keeps P before
      → ((a : A) → Keeps P (after a))
      → Keeps P (before >>= after)
  unfolding ◌>>=◌
  Keeps-bind before after kb ka = record {
    at = λ w h. let (r, w') = before w in go r w' (kb.at w h);
  }
    where
      go : (r : Result A) (w' : World S) → P w'.db → P (continue r after w').1.db
      go (ok a) w' h = (ka a).at w' h
      go (err e) w' h = h

pub ruleset keeps_rules = (
  Keeps-pure, Keeps-raise, Keeps-statement, Keeps-transaction, Keeps-if, Keeps-attempt, Keeps-bind,
)
