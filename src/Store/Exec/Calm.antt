-- ===== src/Store/Exec/Calm.antt =====
-- Actions that succeed whenever the driver fails no call, one rule for each way to build one.
use file_transit_desk.Prelude.{◌≡◌, refl, ap, ◌∙◌, Bool, true, false, [], if◌then◌else◌}
use file_transit_desk.Store.Exec.{
  Result, ok, World, Exec, pure, statement, continue, in_transaction, transaction, ◌>>=◌,
}

module _ {S : Type 0} where
  -- A driver that fails no call.
  abbrev pub calm_world : S → World S
  calm_world s = record { db = s; faults = [] }

  pub record IsCalm {A : Type 0} (m : Exec S A) : Type 0 where
    pub at : (s : S) → (a : A) × (s' : S) × (m (calm_world s) ≡ (ok a, calm_world s'))

module _ {S A : Type 0} where
  pub IsCalm-pure : (a : A) → IsCalm (pure {S = S} a)
  unfolding pure
  IsCalm-pure a = record { at = λ s. (a, s, refl) }

  pub IsCalm-statement : (f : S → A) (g : S → S) → IsCalm (statement (λ s. (ok (f s), g s)))
  unfolding statement
  IsCalm-statement f g = record { at = λ s. (f s, g s, refl) }

  pub IsCalm-transaction : (body : Exec S A) → IsCalm body → IsCalm (transaction body)
  unfolding transaction
  IsCalm-transaction body k = record {
    at = λ s. let (a, s', e) = k.at s in (a, s', ap (in_transaction s) e);
  }

  pub IsCalm-if : (b : Bool) (m n : Exec S A) → IsCalm m → IsCalm n → IsCalm (if b then m else n)
  IsCalm-if true m n km kn = km
  IsCalm-if false m n km kn = kn

module _ {S A B : Type 0} where
  pub IsCalm-bind :
      (m : Exec S A) (f : A → Exec S B) → IsCalm m → ((a : A) → IsCalm (f a)) → IsCalm (m >>= f)
  unfolding ◌>>=◌
  IsCalm-bind m f km kf = record {
    at = λ s.
        let (a, s', e) = km.at s in
        let (b, s'', e') = (kf a).at s' in
        (b, s'', ap (λ (r : Result A × World S). continue r.0 f r.1) e ∙ e');
  }
