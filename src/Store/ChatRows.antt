-- ===== src/Store/ChatRows.antt =====
-- The chat's tables (backend/internal/store/chat.go). A time is a number of nanoseconds.
use file_transit_desk.Prelude.{ℕ, String, Option, List}

pub record ChatMessage : Type 0 where
  pub id : ℕ
  pub author_key : String
  pub author_tag : String
  pub author_role : String
  pub source_ip : String
  pub body : Option String
  pub created_at : ℕ
  pub withdrawn_at : Option ℕ
  pub deleted_at : Option ℕ
  pub deleted_by : Option String

-- A row of chat_changes.
pub record ChangeRow : Type 0 where
  pub seq : ℕ
  pub message_id : ℕ
  pub kind : String
  pub created_at : ℕ

-- The tables, newest row first, and for each AUTOINCREMENT column the last number given out, which
-- SQLite keeps in sqlite_sequence. `generation` is the one row of chat_sync_metadata, which the
-- migration inserts and nothing deletes.
pub record ChatTables : Type 0 where
  pub messages : List ChatMessage
  pub last_message : ℕ
  pub changes : List ChangeRow
  pub last_change : ℕ
  pub generation : ℕ
