-- ===== src/Store/Chat/Clearing.antt =====
-- Clearing the chat, and its clean-up (backend/internal/store/chat.go). `earlier` is the order of
-- the stored times as texts.
use file_transit_desk.Prelude.{
  ℕ, suc, ◌-◌, ◌*◌, String, Bool, true, not, ◌&&◌, ◌||◌, List, [], ◌∷◌, ltb, eqb, select, count,
  length, take, drop, first, if◌then◌else◌, is_some,
}
use file_transit_desk.Store.Exec.{
  Result, ok, World, Exec, pure, raise, statement, transaction, ◌>>=◌, ◌>>◌, invalid_chat_input,
  chat_clear_conflict, chat_row_count_changed, chat_sync_metadata_missing,
}
use file_transit_desk.Store.ChatRows.{ChatMessage, ChangeRow, ChatTables}
use file_transit_desk.Store.Rows.{Db, ℤ, pos, negsuc, delete_where}
use file_transit_desk.Store.Audit.{AuditPolicy}
use file_transit_desk.Store.Chat.{ChatSyncState, rev_onto, chat_sync_state}
use file_transit_desk.Store.Chat.Details.{
  Texts, chat_clear_audit_detail, insert_chat_audit, after_commit,
}
use file_transit_desk.Store.Chat.Mutations.{refused, rejected}

pub record ChatClearResult : Type 0 where
  pub cleared_count : ℕ
  pub generation : ℕ
  pub latest_change_seq : ℕ

abbrev pub without_changes : (ChangeRow → Bool) → ChatTables → ChatTables
without_changes p t = record t { changes = delete_where p t.changes }

abbrev pub without_messages : (ChatMessage → Bool) → ChatTables → ChatTables
without_messages p t = record t { messages = delete_where p t.messages }

-- DELETE FROM chat_changes WHERE …, and the number of rows. The test may query the tables.
unfoldable pub delete_changes : (ChatTables → ChangeRow → Bool) → Exec Db ℕ
delete_changes p = statement (λ db. (
  ok (count (p db.chat) db.chat.changes),
  record db { chat = without_changes (p db.chat) db.chat },
))

-- DELETE FROM chat_messages WHERE …
unfoldable pub delete_messages : (ChatTables → ChatMessage → Bool) → Exec Db ℕ
delete_messages p = statement (λ db. (
  ok (count (p db.chat) db.chat.messages),
  record db { chat = without_messages (p db.chat) db.chat },
))

abbrev pub bumped : ChatTables → ChatTables
bumped t = record t { generation = suc t.generation }

-- The UPDATE of the one row of chat_sync_metadata.
unfoldable pub next_generation : Exec Db (Unit {0})
next_generation = do
  rows ← statement (λ db. (ok 1, record db { chat = bumped db.chat }))
  if eqb rows 1 then pure tt else raise chat_sync_metadata_missing

-- If any row was deleted.
unfoldable pub bump_if : Bool → Exec Db (Unit {0})
unfolding next_generation
bump_if b = if b then next_generation else pure tt

abbrev pub clear_result : Bool → ℕ → ChatSyncState → ChatClearResult
clear_result any cleared state = record {
  cleared_count = cleared;
  generation = if any then suc state.generation else state.generation;
  latest_change_seq = state.latest_change_seq;
}

abbrev pub is_expected : ℕ → ℕ → ChatSyncState → Bool
is_expected generation latest state =
    eqb state.generation generation && eqb state.latest_change_seq latest

module _ (texts : Texts) where
  unfoldable pub refuse_clear : ChatSyncState → String → ℕ → Exec Db (Result ChatClearResult)
  unfolding insert_chat_audit chat_clear_audit_detail
  refuse_clear state actor_ip now = do
    insert_chat_audit texts "chat_clear_failed" actor_ip
        (chat_clear_audit_detail texts 0 state.generation "conflict") now
    refused chat_clear_conflict

  unfoldable pub finish_clear :
      ChatSyncState → ℕ → ℕ → String → ℕ → Exec Db (Result ChatClearResult)
  unfolding bump_if insert_chat_audit chat_clear_audit_detail
  finish_clear state changes cleared actor_ip now =
      let any : Bool = ltb 0 cleared || ltb 0 changes in
      let result : ChatClearResult = clear_result any cleared state in
      (do
        bump_if any
        insert_chat_audit texts "chat_clear" actor_ip
            (chat_clear_audit_detail texts result.cleared_count result.generation
              (if any then "cleared" else "noop"))
            now
        pure (ok result))

  unfoldable pub clear_rows : ChatSyncState → String → ℕ → Exec Db (Result ChatClearResult)
  unfolding delete_changes delete_messages finish_clear
  clear_rows state actor_ip now = do
    messages ← statement (λ db. (ok (length db.chat.messages), db))
    changes ← statement (λ db. (ok (length db.chat.changes), db))
    deleted_changes ← delete_changes (λ t c. true)
    deleted_messages ← delete_messages (λ t m. true)
    if eqb deleted_messages messages && eqb deleted_changes changes
        then finish_clear state deleted_changes deleted_messages actor_ip now
        else raise chat_row_count_changed

  unfoldable pub clear_steps : ℕ → ℕ → String → ℕ → Exec Db (Result ChatClearResult)
  unfolding chat_sync_state refuse_clear clear_rows
  clear_steps generation latest actor_ip now = do
    state ← chat_sync_state
    if is_expected generation latest state
        then clear_rows state actor_ip now
        else refuse_clear state actor_ip now

  -- A generation below 1 is 0 here. `now` is the argument, or the clock's time where that is zero.
  unfoldable pub clear_chat_messages :
      ℕ → ℤ → String → ℕ → AuditPolicy → World Db → Result ChatClearResult × World Db × AuditPolicy
  unfolding clear_steps after_commit
  clear_chat_messages generation (negsuc n) actor_ip now p w = rejected invalid_chat_input p w
  clear_chat_messages generation (pos latest) actor_ip now p w =
      if eqb generation 0
      then rejected invalid_chat_input p w
      else after_commit p (transaction (clear_steps generation latest actor_ip now) w)

abbrev pub day : ℕ
day = 86400000000000

module _ (earlier : ℕ → ℕ → Bool) where
  -- ORDER BY created_at ASC, id ASC
  abbrev pub comes_first : ChatMessage → ChatMessage → Bool
  comes_first m n =
      earlier m.created_at n.created_at
      || (not (earlier n.created_at m.created_at) && ltb m.id n.id)

  unfoldable pub insert_by_age : ChatMessage → List ChatMessage → List ChatMessage
  insert_by_age m [] = m ∷ []
  insert_by_age m (n ∷ ns) =
      let rest = insert_by_age m ns in if comes_first m n then m ∷ n ∷ ns else n ∷ rest

  unfoldable pub by_age : List ChatMessage → List ChatMessage
  unfolding insert_by_age
  by_age [] = []
  by_age (m ∷ ms) = insert_by_age m (by_age ms)

  abbrev pub has_message : List ChatMessage → ℕ → Bool
  has_message ms id = is_some (first (λ m. eqb m.id id) ms)

  -- The messages that are older than the cut-off, or that come after the newest `max_messages`.
  unfoldable pub expired_messages : (ℕ → ℕ) → ℕ → ℕ → ℕ → List ChatMessage → List ChatMessage
  unfolding by_age rev_onto
  expired_messages julianday cutoff max_messages batch messages =
      let sorted : List ChatMessage = by_age messages in
      let surplus : List ChatMessage = drop max_messages (rev_onto sorted []) in
      take batch (
        select (λ m. ltb (julianday m.created_at) (julianday cutoff) || has_message surplus m.id)
          sorted)

  unfoldable pub cleanup_steps : (ℕ → ℕ) → ℕ → ℕ → ℕ → Exec Db ℕ
  unfolding expired_messages delete_changes delete_messages bump_if
  cleanup_steps julianday cutoff max_messages batch = do
    delete_changes (λ t c.
        has_message (expired_messages julianday cutoff max_messages batch t.messages) c.message_id)
    removed ←
        delete_messages (λ t m.
          has_message (expired_messages julianday cutoff max_messages batch t.messages) m.id)
    bump_if (ltb 0 removed)
    pure removed

  unfoldable pub cleanup_chat : (ℕ → ℕ) → ℕ → ℕ → ℕ → ℕ → Exec Db ℕ
  unfolding cleanup_steps
  cleanup_chat julianday now retention_days max_messages batch =
      if eqb retention_days 0 || (eqb max_messages 0 || eqb batch 0)
      then raise invalid_chat_input
      else transaction (cleanup_steps julianday (now - retention_days * day) max_messages batch)
