-- ===== src/Store/Exec/Triples.antt =====
-- What an action that succeeds leaves, one rule for each way to build one.
use file_transit_desk.Prelude.{
  ◌≡◌, refl, Bool, true, false, inl, inr, if◌then◌else◌, subst, sym, ap,
}
use file_transit_desk.Store.Exec.{
  Error, ok, World, Exec, pure, raise, statement, transaction, transaction_atomic, ◌>>=◌,
}
use file_transit_desk.Store.Exec.Keeps.{Keeps}
use file_transit_desk.Store.Exec.Success.{statement_ok, transaction_ok, bind_ok, Result-cases}

-- From `P`, an action that succeeds leaves `Q` of its result.
pub record Leads {S A : Type 0} (P : S → Type 0) (m : Exec S A) (Q : A → S → Type 0) : Type 0 where
  pub at : (w : World S) (a : A) → P w.db → (m w).0 ≡ ok a → Q a (m w).1.db

module _ {S A : Type 0} {P : S → Type 0} {Q : A → S → Type 0} where
  pub Leads-pure : (a : A) → ((s : S) → P s → Q a s) → Leads P (pure a) Q
  unfolding pure
  Leads-pure a k = record { at = λ w b h e. subst (λ x. Q x w.db) (cc) (k w.db h) }

  pub Leads-raise : (e : Error) → Leads P (raise e) Q
  unfolding raise
  Leads-raise e = record { at = λ w b h k. cc }

  -- A statement whose result is never an error of its own.
  pub Leads-statement :
      (f : S → A) (g : S → S)
      → ((s : S) → P s → Q (f s) (g s))
      → Leads P (statement (λ s. (ok (f s), g s))) Q
  Leads-statement f g k = record {
    at = λ w a h e.
        let done = statement_ok (λ s. (ok (f s), g s)) w a e in
        let value : f w.db ≡ a = cc in
        let left : g w.db ≡ (statement (λ s. (ok (f s), g s)) w).1.db = ap (λ p. p.1) done in
        subst (λ x. Q x (statement (λ s. (ok (f s), g s)) w).1.db) value
          (subst (λ s. Q (f w.db) s) left (k w.db h));
  }

  pub Leads-if :
      (b : Bool) (m n : Exec S A)
      → (b ≡ true → Leads P m Q)
      → (b ≡ false → Leads P n Q)
      → Leads P (if b then m else n) Q
  Leads-if true m n km kn = km refl
  Leads-if false m n km kn = kn refl

  -- From less, to more.
  pub Leads-from :
      {P' : S → Type 0} (m : Exec S A) → ((s : S) → P s → P' s) → Leads P' m Q → Leads P m Q
  Leads-from m k l = record { at = λ w a h e. l.at w a (k w.db h) e }

module _ {S A B : Type 0} {P : S → Type 0} {Q : B → S → Type 0} where
  pub Leads-bind :
      {R : A → S → Type 0} (m : Exec S A) (f : A → Exec S B)
      → Leads P m R
      → ((a : A) → Leads (R a) (f a) Q)
      → Leads P (m >>= f) Q
  Leads-bind {R} m f km kf = record {
    at = λ w b h e.
        let s = bind_ok m f w b e in
        let between = km.at w s.value h s.first in
        rw s.left ((kf s.value).at (m w).1 b between s.second);
  }

module _ {S A : Type 0} {P : S → Type 0} where
  pub Keeps-Leads : (m : Exec S A) → Keeps P m → Leads P m (λ a. P)
  Keeps-Leads m k = record { at = λ w a h e. k.at w h }

  -- A transaction needs its body to keep the invariant only when it succeeds.
  pub Keeps-committed : (body : Exec S A) → Leads P body (λ a. P) → Keeps P (transaction body)
  Keeps-committed body k = record {
    at = λ w h. elim (Result-cases (transaction body w).0) [
      | inl (a, e) ↦
          let c = transaction_ok body w a e in
          subst P (sym c.left) (k.at c.start a (subst P (sym c.same) h) c.result)
      | inr (x, e) ↦ subst P (sym (transaction_atomic body w x e)) h
    ];
  }
