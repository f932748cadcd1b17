-- ===== src/Store/Chat.antt =====
-- The chat of backend/internal/store/chat.go: its types, creating messages, and the tables' state. A number that the code tests for being below 1 alone is 0 here when it is. `texts` stands
-- for the text operations of Go's library.
pub mod Pages
pub mod Details
pub mod Mutations
pub mod Batches
pub mod BatchIds
pub mod Numbers
pub mod Calls
pub mod Sound
pub mod Cursor
pub mod AllOrNothing
pub mod Gates
pub mod Retention
mod Tests
pub mod Aside
pub mod Clearing
use file_transit_desk.Prelude.{
  ℕ, suc, ◌+◌, max, String, ◌==◌, Bool, true, false, not, ◌&&◌, ◌||◌, Option, none, some, List, [],
  ◌∷◌, ltb, eqb, select, length, take, first, if◌then◌else◌, is_some,
}
use file_transit_desk.Store.Exec.{
  Result, ok, err, Exec, pure, raise, statement, transaction, ◌>>=◌, ◌>>◌, no_rows,
  invalid_chat_input, chat_cursor_reset_required,
}
use file_transit_desk.Store.ChatRows.{ChatMessage, ChangeRow, ChatTables}
use file_transit_desk.Store.Rows.{Db, ℤ, pos, negsuc}

-- Status()
pub data ChatStatus : Type 0 where
  active withdrawn deleted : ChatStatus

unfoldable pub status : ChatMessage → ChatStatus
status m =
    if is_some m.deleted_at then deleted else if is_some m.withdrawn_at then withdrawn else active

pub record ChatCreateInput : Type 0 where
  pub author_key : String
  pub author_tag : String
  pub author_role : String
  pub source_ip : String
  pub body : String
  pub created_at : ℕ

-- A change with its message.
pub record ChatChange : Type 0 where
  pub seq : ℕ
  pub message_id : ℕ
  pub kind : String
  pub created_at : ℕ
  pub message : ChatMessage

pub record ChatSyncState : Type 0 where
  pub generation : ℕ
  pub latest_change_seq : ℕ

pub record ChatMutation : Type 0 where
  pub message : ChatMessage
  pub event_seq : ℕ

abbrev pub has_message_id : ℕ → ChatMessage → Bool
has_message_id id m = eqb m.id id

-- Rows that are stored newest first, oldest first.
unfoldable pub rev_onto {ℓ} : {A : Type ℓ} → List A → List A → List A
rev_onto [] acc = acc
rev_onto (x ∷ xs) acc = rev_onto xs (x ∷ acc)

unfoldable pub max_seq : List ChangeRow → ℕ
max_seq [] = 0
max_seq (c ∷ cs) = max c.seq (max_seq cs)

abbrev pub sync_state_of : ChatTables → ChatSyncState
sync_state_of t = record {
  generation = t.generation;
  latest_change_seq = max t.last_change (max_seq t.changes);
}

unfoldable pub chat_sync_state : Exec Db ChatSyncState
chat_sync_state = statement (λ db. (ok (sync_state_of db.chat), db))

unfoldable pub current_chat_sync_state : Exec Db ChatSyncState
unfolding chat_sync_state
current_chat_sync_state = chat_sync_state

unfoldable pub latest_chat_change_seq : Exec Db ℕ
unfolding current_chat_sync_state
latest_chat_change_seq = do state ← current_chat_sync_state; pure state.latest_change_seq

abbrev pub new_change : ℕ → String → ℕ → ChatTables → ChatTables
new_change id kind now t = record t {
  changes =
      record { seq = suc t.last_change; message_id = id; kind = kind; created_at = now }
      ∷ t.changes;
  last_change = suc t.last_change;
}

-- insertChatChangeTx
unfoldable pub insert_chat_change : ℕ → String → ℕ → Exec Db ℕ
insert_chat_change id kind now =
    statement
      (λ db. (ok (suc db.chat.last_change), record db { chat = new_change id kind now db.chat }))

found_message : Option ChatMessage → Db → Result ChatMessage × Db
found_message none db = (err no_rows, db)
found_message (some m) db = (ok m, db)

-- `ChatMessage`, and queryChatMessageTx
unfoldable pub chat_message : ℕ → Exec Db ChatMessage
unfolding found_message
chat_message id = statement (λ db. found_message (first (has_message_id id) db.chat.messages) db)

abbrev pub created_message : ChatCreateInput → ℕ → ChatMessage
created_message input id = record {
  id = id;
  author_key = input.author_key;
  author_tag = input.author_tag;
  author_role = input.author_role;
  source_ip = input.source_ip;
  body = some input.body;
  created_at = input.created_at;
  withdrawn_at = none;
  deleted_at = none;
  deleted_by = none;
}

abbrev pub new_message : ChatCreateInput → ChatTables → ChatTables
new_message input t = record t {
  messages = created_message input (suc t.last_message) ∷ t.messages;
  last_message = suc t.last_message;
}

unfoldable pub insert_message : ChatCreateInput → Exec Db ℕ
insert_message input =
    statement
      (λ db. (ok (suc db.chat.last_message), record db { chat = new_message input db.chat }))

abbrev pub is_author_role : String → Bool
is_author_role role = (role == "user") || (role == "admin")

abbrev pub is_input : ChatCreateInput → Bool
is_input i =
    not ((i.author_key == "") || (i.author_tag == ""))
    && (is_author_role i.author_role && not (i.body == ""))

abbrev pub normal_input : (String → String) → ChatCreateInput → ℕ → ChatCreateInput
normal_input trim_space i now = record i {
  author_key = trim_space i.author_key;
  author_tag = trim_space i.author_tag;
  author_role = trim_space i.author_role;
  created_at = if eqb i.created_at 0 then now else i.created_at;
}

unfoldable pub insert_created : ChatCreateInput → Exec Db ChatMutation
unfolding insert_message insert_chat_change
insert_created i = do
  id ← insert_message i
  seq ← insert_chat_change id "create" i.created_at
  pure (record { message = created_message i id; event_seq = seq })

unfoldable pub create_chat_message : (String → String) → ChatCreateInput → ℕ → Exec Db ChatMutation
unfolding insert_created
create_chat_message trim_space input now =
    let i : ChatCreateInput = normal_input trim_space input now in
    if is_input i then transaction (insert_created i) else raise invalid_chat_input
