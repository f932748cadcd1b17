-- ===== src/Store/Rows.antt =====
-- The tables of backend/internal/store. A time is a number of nanoseconds, a nullable column an
-- option. `datetime` stands for SQLite's function of that name, `hash_session_id` for the hex SHA-256
-- of a session id, and `nocase` for the folding of SQLite's NOCASE collation.
use file_transit_desk.Prelude.{
  ℕ, String, ◌≡◌, refl, Bool, true, false, Option, none, some, List, [], ◌∷◌, ltb, eqb, count,
  if◌then◌else◌, ◌≤◌, All, Bool-cases, inl, inr, arith,
}
use file_transit_desk.Store.ChatRows.{ChatTables}

pub record Token : Type 0 where
  pub id : ℕ
  pub hash : String
  pub type : String
  pub dir_id : String
  pub path : String
  pub resource_fingerprint : String
  pub expires_at : Option ℕ
  pub max_uses : ℕ
  pub uses : ℕ
  pub uploaded_bytes : ℕ
  pub revoked : Bool
  pub created_at : ℕ

pub record Session : Type 0 where
  pub id : String
  pub expires_at : ℕ
  pub idle_expires_at : ℕ
  pub last_seen_at : ℕ
  pub created_at : ℕ
  pub role : String
  pub name : String
  pub user_id : Option ℕ
  pub auth_version : ℕ
  pub auth_method : String

pub record DownloadLease : Type 0 where
  pub id : ℕ
  pub hash : String
  pub source : String
  pub session_id : Option String
  pub token_id : Option ℕ
  pub role : String
  pub dir_id : String
  pub path : String
  pub resource_fingerprint : String
  pub file_size : ℕ
  pub file_mtime : ℕ
  pub file_sha256 : Option String
  pub expires_at : ℕ
  pub created_at : ℕ
  pub last_used_at : Option ℕ
  pub user_id : Option ℕ

pub record UploadLease : Type 0 where
  pub id : ℕ
  pub hash : String
  pub source : String
  pub session_id : String
  pub token_id : Option ℕ
  pub role : String
  pub dir_id : String
  pub path : String
  pub file_name : String
  pub file_size : ℕ
  pub resource_fingerprint : String
  pub expires_at : ℕ
  pub created_at : ℕ
  pub used_at : Option ℕ
  pub client_ip : String
  pub user_id : Option ℕ

pub record AuditLog : Type 0 where
  pub id : ℕ
  pub action : String
  pub ip : String
  pub detail : List ℕ
  pub created_at : ℕ

pub record AccountUser : Type 0 where
  pub id : ℕ
  pub username : String
  pub display_name : String
  pub status : String
  pub created_at : ℕ
  pub updated_at : ℕ
  pub password_hash : String
  pub auth_version : ℕ

-- The tables, newest row first, and for each AUTOINCREMENT column the next id.
pub record Db : Type 0 where
  pub tokens : List Token
  pub next_token : ℕ
  pub download_leases : List DownloadLease
  pub next_download_lease : ℕ
  pub upload_leases : List UploadLease
  pub next_upload_lease : ℕ
  pub sessions : List Session
  pub users : List AccountUser
  pub next_user : ℕ
  pub audit_logs : List AuditLog
  pub next_audit : ℕ
  pub chat : ChatTables

unfoldable pub empty_db : Db
empty_db = record {
  tokens = [];
  next_token = 1;
  download_leases = [];
  next_download_lease = 1;
  upload_leases = [];
  next_upload_lease = 1;
  sessions = [];
  users = [];
  next_user = 1;
  audit_logs = [];
  next_audit = 1;
  chat = record { messages = []; last_message = 0; changes = []; last_change = 0; generation = 1 };
}

module _ {ℓ} {A : Type ℓ} where
  -- UPDATE … SET … WHERE …
  unfoldable pub update_where : (A → Bool) → (A → A) → List A → List A
  update_where p f [] = []
  update_where p f (x ∷ xs) = (if p x then f x else x) ∷ update_where p f xs

  -- DELETE … WHERE …
  unfoldable pub delete_where : (A → Bool) → List A → List A
  delete_where p [] = []
  delete_where p (x ∷ xs) = let rest = delete_where p xs in if p x then rest else x ∷ rest

-- A nullable column against a value: NULL is equal to nothing.
abbrev pub is_id : Option ℕ → ℕ → Bool
is_id none n = false
is_id (some m) n = eqb m n

-- NULL, or later than the time by SQLite's clock.
abbrev pub unexpired : (ℕ → ℕ) → Option ℕ → ℕ → Bool
unexpired datetime none now = true
unexpired datetime (some t) now = ltb (datetime now) (datetime t)

-- A Go integer, where it can be negative: `negsuc n` is -(n + 1).
pub data ℤ : Type 0 where
  pos : ℕ → ℤ
  negsuc : ℕ → ℤ

module _ {ℓ κ} {A : Type ℓ} (P : A → Type κ) where
  pub All-update_where :
      (p : A → Bool) (f : A → A) (xs : List A)
      → ((x : A) → p x ≡ true → P x → P (f x))
      → All P xs
      → All P (update_where p f xs)
  unfolding update_where
  All-update_where p f [] h a = tt
  All-update_where p f (x ∷ xs) h a = (
    elim (Bool-cases (p x)) [ inl e ↦ rw e (h x e a.0) | inr e ↦ rw e a.0 ],
    All-update_where p f xs h a.1,
  )

  pub All-delete_where : (p : A → Bool) (xs : List A) → All P xs → All P (delete_where p xs)
  unfolding delete_where
  All-delete_where p [] a = tt
  All-delete_where p (x ∷ xs) a = elim (Bool-cases (p x)) [
    | inl e ↦ rw e (All-delete_where p xs a.1)
    | inr e ↦ rw e (a.0, All-delete_where p xs a.1)
  ]

-- The rows that meet `q` after an update that changes no row's answer, and after a deletion.
module _ {ℓ} {A : Type ℓ} (q : A → Bool) where
  pub count-update_where :
      (p : A → Bool) (f : A → A) (xs : List A)
      → ((x : A) → q (f x) ≡ q x)
      → count q (update_where p f xs) ≡ count q xs
  unfolding count update_where
  count-update_where p f [] h = refl
  count-update_where p f (x ∷ xs) h = ground (arith, h x, count-update_where p f xs h)

  pub count-delete_where-le :
      (p : A → Bool) (xs : List A) → count q (delete_where p xs) ≤ count q xs
  unfolding count delete_where
  count-delete_where-le p [] = omega arith
  count-delete_where-le p (x ∷ xs) = ground (arith, count-delete_where-le p xs)

  -- A deletion leaves no row that it names.
  pub count-delete_where_self : (xs : List A) → count q (delete_where q xs) ≡ 0
  unfolding count delete_where
  count-delete_where_self [] = refl
  count-delete_where_self (x ∷ xs) = ground (arith, count-delete_where_self xs)
