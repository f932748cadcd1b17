-- ===== src/Store/Chat/Sound/History.antt =====
-- Every call on the chat of backend/internal/store/chat.go keeps the invariant of its tables.
use file_transit_desk.Prelude.{
  ℕ, ◌-◌, String, Bool, ◌||◌, Option, none, some, List, [], ◌∷◌, eqb, first,
}
use file_transit_desk.Store.Exec.{Error, Result, ok, err, World, Exec, pure, transaction, statement}
use file_transit_desk.Store.Exec.Keeps.{Keeps-if, Keeps-raise, Keeps-statement, Keeps-transaction}
use file_transit_desk.Store.Exec.Triples.{Leads, Keeps-committed}
use file_transit_desk.Store.Rows.{Db, pos, negsuc}
use file_transit_desk.Store.ChatRows.{ChatTables}
use file_transit_desk.Store.Audit.{AuditPolicy}
use file_transit_desk.Store.Chat.{ChatMutation}
use file_transit_desk.Store.Chat.Details.{Texts, is_delete_actor, after_commit}
use file_transit_desk.Store.Chat.Mutations.{withdraw_chat_message, delete_chat_message}
use file_transit_desk.Store.Chat.Batches.{
  normalize_chat_batch_ids, refuse_batch, record_chat_batch_delete_conflict, conflict_of, rollback,
  roll_back_batch, finish_batch, batch_steps, delete_gated, delete_normalized,
  batch_delete_chat_messages,
}
use file_transit_desk.Store.Chat.Clearing.{clear_chat_messages, cleanup_chat}
use file_transit_desk.Store.Chat.Calls.{
  ChatCall, posts, withdraws, deletes, deletes_batch, clears, cleans, ChatLibrary, ChatStore,
  chat_step, chat_run,
}
use file_transit_desk.Store.Chat.Aside.{OnChat, after_commit-OnChat, if-OnChat}
use file_transit_desk.Store.Chat.Sound.{Sound}
use file_transit_desk.Store.Chat.Sound.Mutations.{
  IsSound, create-Sound, withdraw-Sound, delete-Sound,
}
use file_transit_desk.Store.Chat.Sound.Batches.{refuse_batch-OnChat, batch-Sound}
use file_transit_desk.Store.Chat.Sound.Clearing.{clear-Sound, cleanup-Sound}

module _ (g l : ℕ) where
  committed-Sound :
      {A : Type 0} (body : Exec Db (Result A)) (p : AuditPolicy) (w : World Db)
      → Leads (IsSound g l) body (λ r. IsSound g l)
      → IsSound g l w.db
      → IsSound g l (after_commit p (transaction body w)).1.db
  committed-Sound body p w k h =
      let (r, w') = transaction body w in
      after_commit-OnChat (Sound g l) p r w' ((Keeps-committed body k).at w h)

-- The conflict of a batch leaves an entry in the audit log alone.
module _ (P : ChatTables → Type 0) (texts : Texts) where
  pub record_conflict-OnChat :
      (size id : ℕ) (reason ip : String) (now : ℕ) (p : AuditPolicy) (w : World Db)
      → OnChat P w.db
      → OnChat P (record_chat_batch_delete_conflict texts size id reason ip now p w).1.db
  unfolding record_chat_batch_delete_conflict
  record_conflict-OnChat size id reason ip now p w h =
      let (r, w') = transaction (refuse_batch texts size id reason ip now) w in
      after_commit-OnChat P p r w'
        ((Keeps-transaction _ (refuse_batch-OnChat P texts size id reason ip now)).at w h)

  roll_back-OnChat :
      (e : Error) (o : Option (ℕ × String)) (size : ℕ) (ip : String) (now : ℕ) (p : AuditPolicy)
      (w : World Db)
      → OnChat P w.db
      → OnChat P (roll_back_batch texts e o size ip now p (rollback o w)).1.db
  unfolding roll_back_batch pure
  roll_back-OnChat e none size ip now p w h = h
  roll_back-OnChat e (some (id, reason)) size ip now p w h =
      after (statement (λ db. (ok tt, db)) w).0 (statement (λ db. (ok tt, db)) w).1
        ((Keeps-statement {A = Unit {0}} {P = OnChat P} (λ db. (ok tt, db)) (λ db k. k)).at w h)
    where
      after :
          (r : Result (Unit {0})) (w' : World Db)
          → OnChat P w'.db
          → OnChat P (roll_back_batch texts e (some (id, reason)) size ip now p (r, w')).1.db
      after (ok v) w' k = record_conflict-OnChat size id reason ip now p w' k
      after (err x) w' k = k

  pub finish-OnChat :
      (size : ℕ) (ip : String) (now : ℕ) (p : AuditPolicy) (r : Result (Result (List ChatMutation)))
      (w : World Db)
      → OnChat P w.db
      → OnChat P (finish_batch texts size ip now p (r, w)).1.db
  unfolding finish_batch
  finish-OnChat size ip now p (ok decided) w h = after_commit-OnChat P p (ok decided) w h
  finish-OnChat size ip now p (err e) w h = roll_back-OnChat e (conflict_of e) size ip now p w h

module _ (g l : ℕ) (texts : Texts) where
  gated-Sound :
      (o : Option ℕ) (ids : List ℕ) (deleted_by ip : String) (now : ℕ) (p : AuditPolicy)
      (w : World Db)
      → IsSound g l w.db
      → IsSound g l (delete_gated texts o ids deleted_by ip now p w).1.db
  unfolding delete_gated
  gated-Sound (some id) ids deleted_by ip now p w h =
      record_conflict-OnChat (Sound g l) texts _ id _ ip now p w h
  gated-Sound none ids deleted_by ip now p w h =
      let (r, w') = transaction (batch_steps texts ids deleted_by ip now) w in
      finish-OnChat (Sound g l) texts _ ip now p r w'
        ((Keeps-committed _ (batch-Sound g l texts ids deleted_by ip now)).at w h)

  normalized-Sound :
      (overlaps : ℕ → Bool) (o : Option (List ℕ)) (deleted_by ip : String) (now : ℕ)
      (p : AuditPolicy) (w : World Db)
      → IsSound g l w.db
      → IsSound g l (delete_normalized texts overlaps o deleted_by ip now p w).1.db
  unfolding delete_normalized
  normalized-Sound overlaps none deleted_by ip now p w h = h
  normalized-Sound overlaps (some ids) deleted_by ip now p w h =
      if-OnChat (Sound g l) (is_delete_actor texts deleted_by) _ _ h
        (gated-Sound (first overlaps ids) ids deleted_by ip now p w h)

module _ (g l : ℕ) (lib : ChatLibrary) where
  step-Sound :
      (w : World Db) (p : AuditPolicy) (c : ChatCall)
      → IsSound g l w.db
      → IsSound g l (chat_step lib (w, p) c).0.db
  unfolding chat_step withdraw_chat_message delete_chat_message batch_delete_chat_messages
      clear_chat_messages cleanup_chat
  step-Sound w p (posts i now) h = (create-Sound g l lib.texts.trim_space i now).at w h
  step-Sound w p (withdraws overlapped id key role ip now window) h =
      if-OnChat (Sound g l) (eqb id 0 || eqb window 0) _ _ h (
        committed-Sound g l _ p w
          (withdraw-Sound g l lib.texts lib.julianday overlapped id key role ip now (now - window))
          h)
  step-Sound w p (deletes overlapped id deleted_by ip now) h =
      if-OnChat (Sound g l) (eqb id 0) _ _ h (
        if-OnChat (Sound g l) _ _ _ h
          (committed-Sound g l _ p w (delete-Sound g l lib.texts overlapped id _ ip now) h))
  step-Sound w p (deletes_batch overlaps ids deleted_by ip now) h =
      normalized-Sound g l lib.texts overlaps (normalize_chat_batch_ids ids) _ ip now p w h
  step-Sound w p (clears generation (negsuc n) ip now) h = h
  step-Sound w p (clears generation (pos latest) ip now) h =
      if-OnChat (Sound g l) (eqb generation 0) _ _ h
        (committed-Sound g l _ p w (clear-Sound g l lib.texts generation latest ip now) h)
  step-Sound w p (cleans now retention_days max_messages batch) h =
      (Keeps-if _ _ _ (Keeps-raise _)
          (Keeps-committed _ (cleanup-Sound g l lib.earlier lib.julianday _ max_messages batch))).at
        w h

  pub run-Sound :
      (s : ChatStore) (cs : List ChatCall)
      → IsSound g l s.0.db
      → IsSound g l (chat_run lib s cs).0.db
  unfolding chat_run
  run-Sound s [] h = h
  run-Sound (w, p) (c ∷ cs) h = run-Sound (chat_step lib (w, p) c) cs (step-Sound w p c h)
