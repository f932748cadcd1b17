-- ===== src/Store/Chat/Aside.antt =====
-- What the audit log of backend/internal/store/store.go does to the chat: nothing.
use file_transit_desk.Prelude.{
  ℕ, String, Bool, true, false, Option, none, some, eqb, arith, if◌then◌else◌,
}
use file_transit_desk.Store.Exec.{Result, ok, err, World}
use file_transit_desk.Store.Exec.Keeps.{
  Keeps, Keeps-pure, Keeps-statement, Keeps-transaction, Keeps-if, Keeps-bind,
}
use file_transit_desk.Store.ChatRows.{ChatTables}
use file_transit_desk.Store.Rows.{AuditLog, Db}
use file_transit_desk.Store.Audit.{
  AuditPolicy, insert_audit, delete_older, prune_audit, audit_maintenance_after_commit,
}
use file_transit_desk.Store.Chat.{chat_message, found_message}
use file_transit_desk.Store.Chat.Details.{Texts, insert_chat_audit, after_commit}

-- The audit log and its maintenance leave the chat alone.
module _ (P : ChatTables → Type 0) where
  abbrev pub OnChat : Db → Type 0
  OnChat db = P db.chat

  pub audit-OnChat :
      (texts : Texts) (action ip detail : String) (now : ℕ)
      → Keeps OnChat (insert_chat_audit texts action ip detail now)
  unfolding insert_chat_audit insert_audit
  audit-OnChat texts action ip detail now = Keeps-statement _ (λ db h. h)

  pub message-OnChat : (id : ℕ) → Keeps OnChat (chat_message id)
  unfolding chat_message found_message
  message-OnChat id = Keeps-statement _ (λ db h. ground arith)

  older-OnChat : (threshold : Option AuditLog) → Keeps OnChat (delete_older threshold)
  unfolding delete_older
  older-OnChat none = Keeps-pure tt
  older-OnChat (some l) = Keeps-statement _ (λ db h. h)

  prune-OnChat : (retain : ℕ) → Keeps OnChat (prune_audit retain)
  unfolding prune_audit
  prune-OnChat retain =
      Keeps-if _ _ _ (Keeps-pure tt)
        (Keeps-transaction _ (Keeps-bind _ _ (Keeps-statement _ (λ db h. h)) older-OnChat))

  pub if-OnChat :
      {A : Type 0} (b : Bool) (x y : A × World Db × AuditPolicy)
      → OnChat x.1.db
      → OnChat y.1.db
      → OnChat (if b then x else y).1.db
  if-OnChat true x y h k = h
  if-OnChat false x y h k = k

  maintenance-OnChat :
      (p : AuditPolicy) (w : World Db)
      → OnChat w.db
      → OnChat (audit_maintenance_after_commit p w).1.db
  unfolding audit_maintenance_after_commit
  maintenance-OnChat p w h =
      if-OnChat (eqb p.prune_every 0) _ _ h (if-OnChat _ _ _ h ((prune-OnChat p.retain).at w h))

  pub after_commit-OnChat :
      {A : Type 0} (p : AuditPolicy) (r : Result (Result A)) (w : World Db)
      → OnChat w.db
      → OnChat (after_commit p (r, w)).1.db
  unfolding after_commit
  after_commit-OnChat p (err e) w h = h
  after_commit-OnChat p (ok decided) w h = maintenance-OnChat p w h
