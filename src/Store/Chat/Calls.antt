-- ===== src/Store/Chat/Calls.antt =====
-- Histories of calls on the chat of backend/internal/store/chat.go.
use file_transit_desk.Prelude.{ℕ, String, Bool, List, [], ◌∷◌}
use file_transit_desk.Store.Exec.{Result, World}
use file_transit_desk.Store.Rows.{Db, ℤ}
use file_transit_desk.Store.Audit.{AuditPolicy}
use file_transit_desk.Store.Chat.{ChatCreateInput, create_chat_message}
use file_transit_desk.Store.Chat.Details.{Texts}
use file_transit_desk.Store.Chat.Mutations.{withdraw_chat_message, delete_chat_message}
use file_transit_desk.Store.Chat.Batches.{batch_delete_chat_messages}
use file_transit_desk.Store.Chat.Clearing.{clear_chat_messages, cleanup_chat}

-- A call that changes the chat, with the times that it reads and the overlaps that it finds.
pub data ChatCall : Type 0 where
  posts : ChatCreateInput → ℕ → ChatCall
  withdraws : Bool → ℕ → String → String → String → ℕ → ℕ → ChatCall
  deletes : Bool → ℕ → String → String → ℕ → ChatCall
  deletes_batch : (ℕ → Bool) → List ℕ → String → String → ℕ → ChatCall
  clears : ℕ → ℤ → String → ℕ → ChatCall
  cleans : ℕ → ℕ → ℕ → ℕ → ChatCall

-- The functions of Go's library and of SQLite that the calls use.
pub record ChatLibrary : Type 0 where
  pub texts : Texts
  pub julianday : ℕ → ℕ
  pub earlier : ℕ → ℕ → Bool

-- The database, and the counters of the audit log.
abbrev pub ChatStore : Type 0
ChatStore = World Db × AuditPolicy

abbrev pub left_by : {A : Type 0} → Result A × World Db × AuditPolicy → ChatStore
left_by (r, w, p) = (w, p)

module _ (lib : ChatLibrary) where
  unfoldable pub chat_step : ChatStore → ChatCall → ChatStore
  chat_step (w, p) (posts input now) = ((create_chat_message lib.texts.trim_space input now w).1, p)
  chat_step (w, p) (withdraws overlapped id author_key role ip now window) = left_by (
      withdraw_chat_message lib.texts lib.julianday overlapped id author_key role ip now window p w)
  chat_step (w, p) (deletes overlapped id deleted_by ip now) =
      left_by (delete_chat_message lib.texts overlapped id deleted_by ip now p w)
  chat_step (w, p) (deletes_batch overlaps ids deleted_by ip now) =
      left_by (batch_delete_chat_messages lib.texts overlaps ids deleted_by ip now p w)
  chat_step (w, p) (clears generation latest ip now) =
      left_by (clear_chat_messages lib.texts generation latest ip now p w)
  chat_step (w, p) (cleans now retention_days max_messages batch) =
      ((cleanup_chat lib.earlier lib.julianday now retention_days max_messages batch w).1, p)

  unfoldable pub chat_run : ChatStore → List ChatCall → ChatStore
  unfolding chat_step
  chat_run s [] = s
  chat_run s (c ∷ cs) = chat_run (chat_step s c) cs
