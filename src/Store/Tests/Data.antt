-- ===== src/Store/Tests/Data.antt =====
-- Small databases of backend/internal/store to run it on.
use file_transit_desk.Prelude.{
  ℕ, String, ◌==◌, true, false, Option, none, some, [], ◌∷◌, if◌then◌else◌,
}
use file_transit_desk.Store.Exec.{World}
use file_transit_desk.Store.Rows.{
  Token, Session, UploadLease, DownloadLease, AccountUser, Db, empty_db, ℤ, pos,
}

-- A clock whose times are numbers, one text that is an id, and a hash that is its text.
abbrev pub same_time : ℕ → ℕ
same_time t = t

abbrev pub parse : String → Option ℤ
parse s = if s == "1" then some (pos 1) else none

abbrev pub same_text_id : String → String
same_text_id s = s

abbrev pub token : Token
token = record {
  id = 1;
  hash = "h";
  type = "upload";
  dir_id = "docs";
  path = "/";
  resource_fingerprint = "f";
  expires_at = none;
  max_uses = 2;
  uses = 0;
  uploaded_bytes = 0;
  revoked = false;
  created_at = 1;
}

abbrev pub upload_lease : UploadLease
upload_lease = record {
  id = 1;
  hash = "u";
  source = "session";
  session_id = "s";
  token_id = some 1;
  role = "user";
  dir_id = "docs";
  path = "/";
  file_name = "a";
  file_size = 3;
  resource_fingerprint = "f";
  expires_at = 50;
  created_at = 1;
  used_at = none;
  client_ip = "::1";
  user_id = some 4;
}

abbrev pub download_lease : DownloadLease
download_lease = record {
  id = 1;
  hash = "d";
  source = "session";
  session_id = some "s";
  token_id = none;
  role = "user";
  dir_id = "docs";
  path = "/a";
  resource_fingerprint = "f";
  file_size = 3;
  file_mtime = 1;
  file_sha256 = none;
  expires_at = 50;
  created_at = 1;
  last_used_at = none;
  user_id = some 4;
}

abbrev pub login : Session
login = record {
  id = "s";
  expires_at = 90;
  idle_expires_at = 80;
  last_seen_at = 1;
  created_at = 1;
  role = "user";
  name = "";
  user_id = some 4;
  auth_version = 1;
  auth_method = "account";
}

abbrev pub alice : AccountUser
alice = record {
  id = 4;
  username = "alice";
  display_name = "Alice";
  status = "active";
  created_at = 1;
  updated_at = 1;
  password_hash = "old";
  auth_version = 1;
}

abbrev pub db : Db
db = record {
  tokens = token ∷ [];
  next_token = 2;
  download_leases = download_lease ∷ [];
  next_download_lease = 2;
  upload_leases = upload_lease ∷ [];
  next_upload_lease = 2;
  sessions = login ∷ [];
  users = alice ∷ [];
  next_user = 5;
  audit_logs = [];
  next_audit = 1;
  chat = empty_db.chat;
}

abbrev pub calm : World Db
calm = record { db = db; faults = [] }

-- The third call of the driver fails, then no other.
abbrev pub faulty : World Db
faulty = record { db = db; faults = false ∷ false ∷ true ∷ [] }
