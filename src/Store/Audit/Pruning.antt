-- ===== src/Store/Audit/Pruning.antt =====
-- What the audit log of backend/internal/store/store.go keeps.
use file_transit_desk.Prelude.{
  ℕ, zero, suc, ◌-◌, ◌≤◌, ◌<◌, String, ◌≡◌, ◌≢◌, refl, ap, subst, sym, inl, inr, false, Option,
  none, some, List, [], ◌∷◌, arith, ltb, eqb, take, drop,
}
use file_transit_desk.Store.Exec.{
  Error, Result, ok, err, World, Exec, pure, statement, transaction, transaction_atomic, ◌>>=◌,
  driver,
}
use file_transit_desk.Store.Exec.Success.{Result-cases, statement_ok, transaction_ok, bind_ok}
use file_transit_desk.Store.Rows.{AuditLog, Db, delete_where}
use file_transit_desk.Store.Audit.{
  AuditPolicy, head, delete_older, prune_audit, audit_maintenance_after_commit, new_log,
  insert_audit, after_insert, audit, sanitize_audit_detail,
}

-- Newest first, with ids below the bound.
abbrev pub Descending : ℕ → List AuditLog → Type 0
Descending b [] = Unit {0}
Descending b (x ∷ xs) = (x.id < b) × Descending x.id xs

all_older :
    (b c : ℕ) (xs : List AuditLog)
    → Descending b xs
    → b ≤ c
    → delete_where (λ l. ltb l.id c) xs ≡ []
unfolding delete_where
all_older b c [] d h = refl
all_older b c (x ∷ xs) d h = ground (arith, all_older x.id c xs d.1)

below :
    (n b : ℕ) (xs : List AuditLog) (t : AuditLog)
    → Descending b xs
    → head (drop n xs) ≡ some t
    → t.id < b
below zero b [] t d h = cc
below zero b (x ∷ xs) t d h = ground arith
below (suc n) b [] t d h = cc
below (suc n) b (x ∷ xs) t d h = ground (arith, below n x.id xs t d.1 h)

older_deleted :
    (n b : ℕ) (xs : List AuditLog) (t : AuditLog)
    → Descending b xs
    → head (drop n xs) ≡ some t
    → delete_where (λ l. ltb l.id t.id) xs ≡ take (suc n) xs
unfolding delete_where
older_deleted n b [] t d h = refl
older_deleted zero b (x ∷ xs) t d h = ground (arith, all_older x.id t.id xs d.1)
older_deleted (suc n) b (x ∷ xs) t d h =
    ground (arith, older_deleted n x.id xs t d.1 h, below n x.id xs t d.1 h)

short : (n : ℕ) (xs : List AuditLog) → head (drop n xs) ≡ none → take (suc n) xs ≡ xs
short n [] h = refl
short zero (x ∷ xs) h = cc
short (suc n) (x ∷ xs) h = ap (λ ys. x ∷ ys) (short n xs h)

body : ℕ → Exec Db (Unit {0})
body n = do
  threshold ← statement (λ db. (ok (head (drop n db.audit_logs)), db))
  delete_older threshold

delete_older-take :
    (n b : ℕ) (o : Option AuditLog) (w : World Db) (v : Unit {0})
    → Descending b w.db.audit_logs
    → head (drop n w.db.audit_logs) ≡ o
    → (delete_older o w).0 ≡ ok v
    → (delete_older o w).1.db.audit_logs ≡ take (suc n) w.db.audit_logs
unfolding delete_older pure
delete_older-take n b none w v d e h = sym (short n w.db.audit_logs e)
delete_older-take n b (some t) w v d e h =
    let u = statement_ok _ w v h in ground (arith, u, older_deleted n b w.db.audit_logs t d e)

body-take :
    (n b : ℕ) (w : World Db) (v : Unit {0})
    → Descending b w.db.audit_logs
    → (body n w).0 ≡ ok v
    → (body n w).1.db.audit_logs ≡ take (suc n) w.db.audit_logs
unfolding body
body-take n b w v d h =
    let q = bind_ok _ _ w v h in
    let w' : World Db =
      (statement {A = Option AuditLog} (λ db. (ok (head (drop n db.audit_logs)), db)) w).1 in
    let u = statement_ok _ w q.value q.first in
    let same : w'.db ≡ w.db = ground (arith, u) in
    let value : head (drop n w'.db.audit_logs) ≡ q.value = ground (arith, u, same) in
    rw q.left (
      subst (λ x. (delete_older q.value w').1.db.audit_logs ≡ take (suc n) x.audit_logs) same
        (delete_older-take n b q.value w' v (subst (λ x. Descending b x.audit_logs) (sym same) d)
          value q.second))

prune_audit-suc : (n : ℕ) → prune_audit (suc n) ≡ transaction (body n)
unfolding prune_audit body
prune_audit-suc n =
    let test : eqb (suc n) 0 ≡ false = ground arith in
    let offset : suc n - 1 ≡ n = omega arith in rw (test, offset) refl

-- A clean-up that succeeds leaves the newest rows, as many as the policy retains, if the ids of the
-- rows are in order and the policy retains some.
pub prune_audit-take :
    (retain b : ℕ) (w : World Db)
    → Descending b w.db.audit_logs
    → 0 < retain
    → (prune_audit retain w).0 ≡ ok tt
    → (prune_audit retain w).1.db.audit_logs ≡ take retain w.db.audit_logs
prune_audit-take zero b w d p = absurd (omega arith)
prune_audit-take (suc n) b w d p = rw (prune_audit-suc n) (λ h.
    let c = transaction_ok (body n) w tt h in
    rw c.left (
      subst (λ x. (body n c.start).1.db.audit_logs ≡ take (suc n) x.audit_logs) c.same
        (body-take n b c.start tt (subst (λ x. Descending b x.audit_logs) (sym c.same) d)
          c.result)))

prune_audit-atomic :
    (n : ℕ) (w : World Db) (e : Error)
    → (prune_audit (suc n) w).0 ≡ err e
    → (prune_audit (suc n) w).1.db ≡ w.db
prune_audit-atomic n w e = rw (prune_audit-suc n) (transaction_atomic (body n) w e)

head-take :
    (n : ℕ) (xs : List AuditLog) (x : AuditLog) → head xs ≡ some x → head (take (suc n) xs) ≡ some x
head-take n [] x h = h
head-take n (y ∷ xs) x h = h

prune_audit-head :
    (retain b : ℕ) (w : World Db) (x : AuditLog)
    → Descending b w.db.audit_logs
    → head w.db.audit_logs ≡ some x
    → head (prune_audit retain w).1.db.audit_logs ≡ some x
unfolding prune_audit pure
prune_audit-head zero b w x d h = h
prune_audit-head (suc n) b w x d h = elim (Result-cases (prune_audit (suc n) w).0) [
  | inl (v, e) ↦
      rw (prune_audit-take (suc n) b w d (omega arith) e) (head-take n w.db.audit_logs x h)
  | inr (e, q) ↦ rw (prune_audit-atomic n w e q) h
]

maintenance-head :
    (p : AuditPolicy) (b : ℕ) (w : World Db) (x : AuditLog)
    → Descending b w.db.audit_logs
    → head w.db.audit_logs ≡ some x
    → head (audit_maintenance_after_commit p w).1.db.audit_logs ≡ some x
unfolding audit_maintenance_after_commit
maintenance-head p b w x d h = ground (arith, h, prune_audit-head p.retain b w x d h)

module _ (trim_space : List ℕ → List ℕ) where
  inserted :
      (action ip : String) (detail : List ℕ) (now : ℕ) (w : World Db)
      → (insert_audit trim_space action ip detail now w).0 ≡ ok tt
      → (insert_audit trim_space action ip detail now w).1.db.audit_logs
        ≡ new_log action ip (sanitize_audit_detail trim_space detail) now w.db.next_audit
          ∷ w.db.audit_logs
  unfolding insert_audit statement
  inserted action ip detail now w h = ground (arith, h)

  insert-driver :
      (action ip : String) (detail : List ℕ) (now : ℕ) (w : World Db) (e : Error)
      → (insert_audit trim_space action ip detail now w).0 ≡ err e
      → e ≡ driver
  unfolding insert_audit statement
  insert-driver action ip detail now w e h = ground (arith, h)

  after_insert-head :
      (p : AuditPolicy) (b : ℕ) (r : Result (Unit {0}) × World Db) (x : AuditLog)
      → ((e : Error) → r.0 ≡ err e → e ≡ driver)
      → (r.0 ≡ ok tt → Descending b r.1.db.audit_logs × (head r.1.db.audit_logs ≡ some x))
      → (after_insert p r).0 ≢ err driver
      → head (after_insert p r).1.db.audit_logs ≡ some x
  unfolding after_insert
  after_insert-head p b (err e, w) x k i n = absurd (n (ap err (k e refl)))
  after_insert-head p b (ok v, w) x k i n = let (d, h) = i refl in maintenance-head p b w x d h

  -- An event whose insertion the driver does not fail is in the log afterwards, as its newest row,
  -- whether the clean-up that may follow succeeds or fails, if the ids of the rows are in order.
  pub audit_recorded :
      (p : AuditPolicy) (action ip : String) (detail : List ℕ) (now : ℕ) (w : World Db)
      → Descending w.db.next_audit w.db.audit_logs
      → (audit trim_space p action ip detail now w).0 ≢ err driver
      → head (audit trim_space p action ip detail now w).1.db.audit_logs
        ≡ some (new_log action ip (sanitize_audit_detail trim_space detail) now w.db.next_audit)
  unfolding audit
  audit_recorded p action ip detail now w d =
      after_insert-head p (suc w.db.next_audit) (insert_audit trim_space action ip detail now w) _
        (insert-driver action ip detail now w)
        (λ e. rw (inserted action ip detail now w e) ((omega arith, d), refl))
