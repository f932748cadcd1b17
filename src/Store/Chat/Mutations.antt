-- ===== src/Store/Chat/Mutations.antt =====
-- Withdrawing and deleting a message (backend/internal/store/chat.go). `overlapped` is what
-- beginChatMutation reports; `julianday` is SQLite's.
use file_transit_desk.Prelude.{
  ℕ, ◌-◌, String, ◌==◌, Bool, true, false, not, ◌&&◌, ◌||◌, Option, none, some, ltb, leb, eqb,
  count, first, if◌then◌else◌, is_some,
}
use file_transit_desk.Store.Exec.{
  Error, Result, ok, err, World, Exec, pure, statement, transaction, ◌>>=◌, ◌>>◌,
  invalid_chat_input, chat_message_not_found, chat_withdraw_forbidden, chat_withdraw_expired,
  chat_state_conflict,
}
use file_transit_desk.Store.ChatRows.{ChatMessage}
use file_transit_desk.Store.Rows.{Db, update_where}
use file_transit_desk.Store.Audit.{AuditPolicy}
use file_transit_desk.Store.Chat.{ChatMutation, has_message_id, insert_chat_change, chat_message}
use file_transit_desk.Store.Chat.Details.{
  Texts, chat_audit_detail, insert_chat_audit, is_delete_actor, after_commit,
}

-- The domain error and its name in the audit log.
pub record Refusal : Type 0 where
  pub error : Error
  pub result : String

abbrev pub refusal : Error → String → Refusal
refusal e r = record { error = e; result = r }

-- UPDATE chat_messages SET … WHERE …
unfoldable pub update_messages : (ChatMessage → Bool) → (ChatMessage → ChatMessage) → Exec Db ℕ
update_messages p f = statement (λ db. (
  ok (count p db.chat.messages),
  record db { chat = record db.chat { messages = update_where p f db.chat.messages } },
))

abbrev pub is_state_conflict : Error → Bool
is_state_conflict chat_state_conflict = true
is_state_conflict _ = false

abbrev pub logged_result : Bool → Refusal → String
logged_result overlapped r =
    if overlapped && is_state_conflict r.error then "concurrent_conflict" else r.result

-- A refusal is committed with its audit entry, and reported after that.
abbrev pub refused : {A : Type 0} → Error → Exec Db (Result A)
refused e = pure (err e)

-- A call without its transaction: the state and the policy as they were.
abbrev pub rejected :
    {A : Type 0} → Error → AuditPolicy → World Db → Result A × World Db × AuditPolicy
rejected e p w = (err e, w, p)

module _ (julianday : ℕ → ℕ) where
  -- The WHERE clause of the withdrawal.
  abbrev pub withdrawable : ℕ → String → String → ℕ → ℕ → ChatMessage → Bool
  withdrawable id author_key actor_role cutoff now m =
      has_message_id id m
      && ((m.author_key == author_key)
          && ((m.author_role == "user")
              && ((actor_role == "user")
                  && (not (is_some m.withdrawn_at)
                      && (not (is_some m.deleted_at)
                          && (leb (julianday cutoff) (julianday m.created_at)
                              && leb (julianday m.created_at) (julianday now)))))))

abbrev pub withdraw : ℕ → ChatMessage → ChatMessage
withdraw now m = record m { withdrawn_at = some now }

abbrev pub delete : ℕ → String → ChatMessage → ChatMessage
delete now deleted_by m = record m {
  body = none;
  deleted_at = some now;
  deleted_by = some deleted_by;
}

abbrev pub classify_withdraw : Option ChatMessage → String → String → ℕ → ℕ → Refusal
classify_withdraw none author_key actor_role cutoff now = refusal chat_message_not_found "not_found"
classify_withdraw (some m) author_key actor_role cutoff now =
    if not (actor_role == "user")
      || (not (m.author_role == "user") || not (m.author_key == author_key))
    then refusal chat_withdraw_forbidden "forbidden"
    else if is_some m.deleted_at || is_some m.withdrawn_at
    then refusal chat_state_conflict "state_conflict"
    else if ltb m.created_at cutoff || ltb now m.created_at
    then refusal chat_withdraw_expired "expired"
    else refusal chat_state_conflict "state_conflict"

abbrev pub classify_delete : Option ChatMessage → Refusal
classify_delete none = refusal chat_message_not_found "not_found"
classify_delete (some m) = refusal chat_state_conflict "state_conflict"

-- A delete that waited for another mutation of the message must not follow a withdrawal.
abbrev pub deletable : ℕ → Bool → ChatMessage → Bool
deletable id overlapped m =
    has_message_id id m
    && (not (is_some m.deleted_at) && (not (is_some m.withdrawn_at) || not overlapped))

module _ (texts : Texts) where
  -- The steps after an UPDATE that changed no row.
  unfoldable pub refuse_mutation :
      String
      → String
      → String
      → ℕ
      → Bool
      → (Option ChatMessage → Refusal)
      → ℕ
      → Exec Db (Result ChatMutation)
  unfolding insert_chat_audit chat_audit_detail
  refuse_mutation action actor_role actor_ip id overlapped classify now = do
    r ← statement (λ db. (ok (classify (first (has_message_id id) db.chat.messages)), db))
    insert_chat_audit texts action actor_ip
        (chat_audit_detail texts id actor_role (logged_result overlapped r)) now
    refused r.error

  -- And after one that changed the row.
  unfoldable pub complete_mutation :
      String → String → String → String → String → ℕ → ℕ → Exec Db (Result ChatMutation)
  unfolding insert_chat_change insert_chat_audit chat_audit_detail chat_message
  complete_mutation kind action actor_role actor_ip result id now = do
    seq ← insert_chat_change id kind now
    insert_chat_audit texts action actor_ip (chat_audit_detail texts id actor_role result) now
    message ← chat_message id
    pure (ok (record { message = message; event_seq = seq }))

  unfoldable pub withdraw_steps :
      (ℕ → ℕ) → Bool → ℕ → String → String → String → ℕ → ℕ → Exec Db (Result ChatMutation)
  unfolding update_messages refuse_mutation complete_mutation
  withdraw_steps julianday overlapped id author_key actor_role actor_ip now cutoff = do
    affected ←
        update_messages (withdrawable julianday id author_key actor_role cutoff now) (withdraw now)
    if eqb affected 1
        then complete_mutation "withdraw" "chat_withdraw" actor_role actor_ip "withdrawn" id now
        else refuse_mutation "chat_withdraw_failed" actor_role actor_ip id overlapped
            (λ m. classify_withdraw m author_key actor_role cutoff now) now

  -- A window that reaches before the zero time starts there.
  unfoldable pub withdraw_chat_message :
      (ℕ → ℕ)
      → Bool
      → ℕ
      → String
      → String
      → String
      → ℕ
      → ℕ
      → AuditPolicy
      → World Db
      → Result ChatMutation × World Db × AuditPolicy
  unfolding withdraw_steps after_commit
  withdraw_chat_message julianday overlapped id author_key actor_role actor_ip now window p w =
      if eqb id 0 || eqb window 0
      then rejected chat_withdraw_forbidden p w
      else after_commit p (
          transaction
            (withdraw_steps julianday overlapped id author_key actor_role actor_ip now
              (now - window))
            w)

  unfoldable pub delete_steps : Bool → ℕ → String → String → ℕ → Exec Db (Result ChatMutation)
  unfolding update_messages refuse_mutation complete_mutation
  delete_steps overlapped id deleted_by actor_ip now = do
    affected ← update_messages (deletable id overlapped) (delete now deleted_by)
    if eqb affected 1
        then complete_mutation "delete" "chat_delete" "admin" actor_ip "deleted" id now
        else refuse_mutation "chat_delete_failed" "admin" actor_ip id overlapped classify_delete now

  unfoldable pub delete_chat_message :
      Bool
      → ℕ
      → String
      → String
      → ℕ
      → AuditPolicy
      → World Db
      → Result ChatMutation × World Db × AuditPolicy
  unfolding delete_steps after_commit
  delete_chat_message overlapped id deleted_by actor_ip now p w =
      let actor : String = texts.trim_space deleted_by in
      if eqb id 0
      then rejected chat_message_not_found p w
      else if is_delete_actor texts actor
      then rejected invalid_chat_input p w
      else after_commit p (transaction (delete_steps overlapped id actor actor_ip now) w)
