-- ===== src/Store/Chat/AllOrNothing.antt =====
-- A deletion of several messages that fails (backend/internal/store/chat.go).
use file_transit_desk.Prelude.{
  ℕ, String, ◌≡◌, refl, ap, ◌∙◌, Bool, true, false, Option, none, some, List, length, first,
  if◌then◌else◌,
}
use file_transit_desk.Store.Exec.{
  Error, Result, ok, err, World, Exec, transaction, transaction_atomic,
}
use file_transit_desk.Store.Exec.Success.{transaction_ok}
use file_transit_desk.Store.Exec.Triples.{Leads, Leads-pure, Leads-bind, Keeps-Leads}
use file_transit_desk.Store.ChatRows.{ChatTables}
use file_transit_desk.Store.Rows.{Db}
use file_transit_desk.Store.Audit.{AuditPolicy}
use file_transit_desk.Store.Chat.{ChatMutation}
use file_transit_desk.Store.Chat.Details.{Texts, is_delete_actor, after_commit}
use file_transit_desk.Store.Chat.Batches.{
  normalize_chat_batch_ids, decide_batch, batch_steps, finish_batch, delete_gated,
  delete_normalized, batch_delete_chat_messages,
}
use file_transit_desk.Store.Chat.Aside.{OnChat, after_commit-OnChat}
use file_transit_desk.Store.Chat.Sound.Batches.{find_conflict-OnChat, refuse_batch-OnChat}
use file_transit_desk.Store.Chat.Sound.History.{record_conflict-OnChat, finish-OnChat}

module _ (texts : Texts) (t : ChatTables) where
  abbrev Same : ChatTables → Type 0
  Same t' = t' ≡ t

  -- If the batch is refused.
  abbrev SameIfRefused : Result (List ChatMutation) → Db → Type 0
  SameIfRefused r db = (e : Error) → r ≡ err e → db.chat ≡ t

  anything : {A : Type 0} (m : Exec Db A) → Leads (OnChat Same) m (λ a db. Unit {0})
  anything m = record { at = λ w a h e. tt }

  decide-Same :
      (ids : List ℕ) (deleted_by ip : String) (now : ℕ) (o : Option (ℕ × String))
      → Leads (OnChat Same) (decide_batch texts ids deleted_by ip now o) SameIfRefused
  unfolding decide_batch
  decide-Same ids deleted_by ip now (some (id, reason)) = record {
    at = λ w r h k e q. (refuse_batch-OnChat Same texts (length ids) id reason ip now).at w h;
  }
  decide-Same ids deleted_by ip now none = Leads-bind _ _ (anything _) (λ ms.
      Leads-bind {R = λ u db. Unit {0}} _ _ (record { at = λ w a h e. tt })
        (λ u. Leads-pure _ (λ db h e q. cc)))

  steps-Same :
      (ids : List ℕ) (deleted_by ip : String) (now : ℕ)
      → Leads (OnChat Same) (batch_steps texts ids deleted_by ip now) SameIfRefused
  unfolding batch_steps
  steps-Same ids deleted_by ip now =
      Leads-bind _ _ (Keeps-Leads _ (find_conflict-OnChat Same ids))
        (decide-Same ids deleted_by ip now)

  after_commit-Same :
      (p : AuditPolicy) (d : Result (List ChatMutation)) (w : World Db) (e : Error)
      → (after_commit p (ok d, w)).0 ≡ err e
      → (d ≡ err e → w.db.chat ≡ t)
      → (after_commit p (ok d, w)).1.db.chat ≡ t
  unfolding after_commit
  after_commit-Same p d w e h k = after_commit-OnChat Same p (ok d) w (k h)

  finish-Same :
      (ids : List ℕ) (deleted_by ip : String) (now : ℕ) (p : AuditPolicy) (w : World Db) (e : Error)
      (r : Result (Result (List ChatMutation)))
      → w.db.chat ≡ t
      → (transaction (batch_steps texts ids deleted_by ip now) w).0 ≡ r
      → (finish_batch texts
          (length ids)
          ip
          now
          p
          (r, (transaction (batch_steps texts ids deleted_by ip now) w).1)).0
        ≡ err e
      → (finish_batch texts
          (length ids)
          ip
          now
          p
          (r, (transaction (batch_steps texts ids deleted_by ip now) w).1)).1.db.chat
        ≡ t
  unfolding finish_batch
  finish-Same ids deleted_by ip now p w e (err x) h same k =
      finish-OnChat Same texts (length ids) ip now p (err x) _ (
        ap (λ (db : Db). db.chat)
          (transaction_atomic (batch_steps texts ids deleted_by ip now) w x same)
        ∙ h)
  finish-Same ids deleted_by ip now p w e (ok d) h same k =
      let c = transaction_ok (batch_steps texts ids deleted_by ip now) w d same in
      after_commit-Same p d _ e k (λ q.
        ap (λ (db : Db). db.chat) c.left
        ∙ (steps-Same ids deleted_by ip now).at c.start d (ap (λ (db : Db). db.chat) c.same ∙ h)
            c.result e q)

  gated-Same :
      (o : Option ℕ) (ids : List ℕ) (deleted_by ip : String) (now : ℕ) (p : AuditPolicy)
      (w : World Db) (e : Error)
      → w.db.chat ≡ t
      → (delete_gated texts o ids deleted_by ip now p w).0 ≡ err e
      → (delete_gated texts o ids deleted_by ip now p w).1.db.chat ≡ t
  unfolding delete_gated
  gated-Same (some id) ids deleted_by ip now p w e h k =
      record_conflict-OnChat Same texts (length ids) id "concurrent_conflict" ip now p w h
  gated-Same none ids deleted_by ip now p w e h k =
      finish-Same ids deleted_by ip now p w e _ h refl k

  if-Same :
      {A : Type 0} (b : Bool) (x y : Result A × World Db × AuditPolicy) (e : Error)
      → x.1.db.chat ≡ t
      → (y.0 ≡ err e → y.1.db.chat ≡ t)
      → (if b then x else y).0 ≡ err e
      → (if b then x else y).1.db.chat ≡ t
  if-Same true x y e h k q = h
  if-Same false x y e h k q = k q

  normalized-Same :
      (overlaps : ℕ → Bool) (o : Option (List ℕ)) (deleted_by ip : String) (now : ℕ)
      (p : AuditPolicy) (w : World Db) (e : Error)
      → w.db.chat ≡ t
      → (delete_normalized texts overlaps o deleted_by ip now p w).0 ≡ err e
      → (delete_normalized texts overlaps o deleted_by ip now p w).1.db.chat ≡ t
  unfolding delete_normalized
  normalized-Same overlaps none deleted_by ip now p w e h k = h
  normalized-Same overlaps (some ids) deleted_by ip now p w e h k =
      if-Same (is_delete_actor texts deleted_by) _ _ e h
        (gated-Same (first overlaps ids) ids deleted_by ip now p w e h) k

module _ (texts : Texts) where
  -- A deletion of several messages that fails, for a conflict that is recorded in the audit log or
  -- because any of the driver's calls fails, leaves the messages and changes as they were.
  pub batch_delete_all_or_nothing :
      (overlaps : ℕ → Bool) (ids : List ℕ) (deleted_by ip : String) (now : ℕ) (p : AuditPolicy)
      (w : World Db) (e : Error)
      → (batch_delete_chat_messages texts overlaps ids deleted_by ip now p w).0 ≡ err e
      → (batch_delete_chat_messages texts overlaps ids deleted_by ip now p w).1.db.chat ≡ w.db.chat
  unfolding batch_delete_chat_messages
  batch_delete_all_or_nothing overlaps ids deleted_by ip now p w e =
      normalized-Same texts w.db.chat overlaps (normalize_chat_batch_ids ids)
        (texts.trim_space deleted_by) ip now p w e refl
