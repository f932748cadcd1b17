-- ===== src/Store/Audit.antt =====
-- The audit log (backend/internal/store/store.go). Its counters are kept beside the database.
-- A text is the list of its runes; `trim_space` is strings.TrimSpace.
pub mod Pruning
pub mod Listing
use Prim.Native.Nat.{◌%◌}
use file_transit_desk.Prelude.{
  ℕ, suc, ◌+◌, ◌-◌, String, Bool, true, false, not, ◌||◌, Option, none, some, List, [], ◌∷◌, ltb,
  eqb, select, length, take, drop, first, if◌then◌else◌,
}
use file_transit_desk.Store.Exec.{
  Result, ok, err, World, Exec, pure, statement, transaction, ◌>>=◌, audit_maintenance,
}
use file_transit_desk.Store.Rows.{AuditLog, Db, delete_where}

pub record AuditPolicy : Type 0 where
  pub retain : ℕ
  pub prune_every : ℕ
  pub write_count : ℕ

-- A negative number is 0 here: `retain` is tested for `<= 0`, the other is set to 0.
unfoldable pub set_audit_policy : ℕ → ℕ → AuditPolicy
set_audit_policy retain prune_every_writes = record {
  retain = retain;
  prune_every = prune_every_writes;
  write_count = 0;
}

abbrev pub is_printable : ℕ → Bool
is_printable r = not (ltb r 32 || eqb r 127)

abbrev pub max_runes : ℕ
max_runes = 500

module _ {ℓ} {A : Type ℓ} where
  abbrev pub head : List A → Option A
  head [] = none
  head (x ∷ xs) = some x

unfoldable pub append_rune : List ℕ → ℕ → List ℕ
append_rune [] r = r ∷ []
append_rune (x ∷ xs) r = x ∷ append_rune xs r

-- The rows with an id from the row that is the last to stay on.
unfoldable pub delete_older : Option AuditLog → Exec Db (Unit {0})
delete_older none = pure tt
delete_older (some threshold) = statement (λ db.
    (ok tt, record db { audit_logs = delete_where (λ l. ltb l.id threshold.id) db.audit_logs }))

-- ORDER BY id DESC LIMIT 1 OFFSET retain - 1. The rows stand newest first in `db.audit_logs`.
unfoldable pub prune_audit : ℕ → Exec Db (Unit {0})
unfolding delete_older
prune_audit retain =
    if eqb retain 0
    then pure tt
    else transaction (do
      threshold ← statement (λ db. (ok (head (drop (retain - 1) db.audit_logs)), db))
      delete_older threshold)

-- The counter wraps as a uint64.
abbrev pub count_write : AuditPolicy → AuditPolicy
count_write p = record p { write_count = (p.write_count + 1) % 18446744073709551616 }

unfoldable pub audit_maintenance_after_commit :
    AuditPolicy → World Db → Result (Unit {0}) × World Db × AuditPolicy
unfolding prune_audit
audit_maintenance_after_commit p w =
    let p' : AuditPolicy = count_write p in
    if eqb p.prune_every 0
    then (ok tt, w, p)
    else if not (eqb (p'.write_count % p.prune_every) 0)
    then (ok tt, w, p')
    else (let (r, w') = prune_audit p.retain w in (r, w', p'))

abbrev pub wrap_error : Result (Unit {0}) → Result (Unit {0})
wrap_error (ok v) = ok v
wrap_error (err e) = err audit_maintenance

abbrev pub new_log : String → String → List ℕ → ℕ → ℕ → AuditLog
new_log action ip detail now id = record {
  id = id;
  action = action;
  ip = ip;
  detail = detail;
  created_at = now;
}

unfoldable pub after_insert :
    AuditPolicy → Result (Unit {0}) × World Db → Result (Unit {0}) × World Db × AuditPolicy
unfolding audit_maintenance_after_commit
after_insert p (err e, w) = (err e, w, p)
after_insert p (ok v, w) =
    let (r, w', p') = audit_maintenance_after_commit p w in (wrap_error r, w', p')

module _ (trim_space : List ℕ → List ℕ) where
  unfoldable pub sanitize_audit_detail : List ℕ → List ℕ
  unfolding append_rune
  sanitize_audit_detail detail =
      let runes = trim_space (select is_printable detail) in
      if ltb max_runes (length runes) then append_rune (take max_runes runes) 8230 else runes

  unfoldable pub insert_audit : String → String → List ℕ → ℕ → Exec Db (Unit {0})
  unfolding sanitize_audit_detail
  insert_audit action ip detail now = statement (λ db. (
    ok tt,
    record db {
      audit_logs =
          new_log action ip (sanitize_audit_detail detail) now db.next_audit ∷ db.audit_logs;
      next_audit = suc db.next_audit;
    },
  ))

  -- The event is committed by its own statement, before the maintenance.
  unfoldable pub audit :
      AuditPolicy
      → String
      → String
      → List ℕ
      → ℕ
      → World Db
      → Result (Unit {0}) × World Db × AuditPolicy
  unfolding insert_audit after_insert
  audit p action ip detail now w = after_insert p (insert_audit action ip detail now w)
