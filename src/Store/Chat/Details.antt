-- ===== src/Store/Chat/Details.antt =====
-- The audit entries of the chat (backend/internal/store/chat.go), and the maintenance after them.
use Prim.Native.String.{◌++◌ as str_append}
use file_transit_desk.Prelude.{
  ℕ, String, ◌==◌, Bool, ◌||◌, List, [], ◌∷◌, contains, ltb, if◌then◌else◌,
}
use file_transit_desk.Store.Exec.{Result, ok, err, World, Exec}
use file_transit_desk.Store.Rows.{Db}
use file_transit_desk.Store.Audit.{AuditPolicy, insert_audit, audit_maintenance_after_commit}

-- What is called of Go's library: `decimal` is %d, `byte_length` is len, `trim_runes` is
-- strings.TrimSpace on the runes of a text.
pub record Texts : Type 0 where
  pub trim_space : String → String
  pub to_lower : String → String
  pub decimal : ℕ → String
  pub byte_length : String → ℕ
  pub runes : String → List ℕ
  pub trim_runes : List ℕ → List ℕ

abbrev pub batch_results : List String
batch_results =
    "deleted" ∷ "missing" ∷ "already_deleted" ∷ "concurrent_conflict" ∷ "invalid_request"
    ∷ "rate_limited" ∷ []

abbrev pub clear_results : List String
clear_results = "cleared" ∷ "noop" ∷ "conflict" ∷ "invalid_request" ∷ "rate_limited" ∷ []

abbrev pub actors : List String
actors =
    "admin" ∷ "user" ∷ "withdrawn" ∷ "deleted" ∷ "forbidden" ∷ "expired" ∷ "not_found"
    ∷ "state_conflict" ∷ "concurrent_conflict" ∷ []

module _ (texts : Texts) where
  abbrev pub known : List String → String → String
  known names value =
      let v : String = texts.to_lower (texts.trim_space value) in
      if contains names v then v else "unknown"

  unfoldable pub sanitize_chat_batch_result : String → String
  sanitize_chat_batch_result = known batch_results

  unfoldable pub sanitize_chat_clear_result : String → String
  sanitize_chat_clear_result = known clear_results

  unfoldable pub sanitize_chat_actor : String → String
  sanitize_chat_actor = known actors

  unfoldable pub chat_audit_detail : ℕ → String → String → String
  unfolding sanitize_chat_actor
  chat_audit_detail id actor_role result = str_append "message_id=" (
      str_append (texts.decimal id) (
        str_append " actor_role=" (
          str_append (sanitize_chat_actor actor_role)
            (str_append " result=" (sanitize_chat_actor result)))))

  -- The first conflict is named if there is one: its id is positive.
  unfoldable pub chat_batch_audit_detail : ℕ → ℕ → String → String
  unfolding sanitize_chat_batch_result
  chat_batch_audit_detail count first_conflict_id result =
      let detail : String = str_append "count=" (
        str_append (texts.decimal count)
          (str_append " result=" (sanitize_chat_batch_result result))) in
      if ltb 0 first_conflict_id
      then str_append detail (str_append " first_conflict_id=" (texts.decimal first_conflict_id))
      else detail

  unfoldable pub chat_clear_audit_detail : ℕ → ℕ → String → String
  unfolding sanitize_chat_clear_result
  chat_clear_audit_detail count generation result = str_append "count=" (
      str_append (texts.decimal count) (
        str_append " result=" (
          str_append (sanitize_chat_clear_result result)
            (str_append " generation=" (texts.decimal generation)))))

  -- insertChatAuditTx
  unfoldable pub insert_chat_audit : String → String → String → ℕ → Exec Db (Unit {0})
  unfolding insert_audit
  insert_chat_audit action ip detail now =
      insert_audit texts.trim_runes action ip (texts.runes detail) now

  abbrev pub is_delete_actor : String → Bool
  is_delete_actor deleted_by = (deleted_by == "") || ltb 256 (texts.byte_length deleted_by)

module _ {A : Type 0} where
  -- A transaction that was committed reports what it decided, a domain error included, and is
  -- followed by the maintenance of the audit log, whose failure is ignored.
  unfoldable pub after_commit :
      AuditPolicy → Result (Result A) × World Db → Result A × World Db × AuditPolicy
  unfolding audit_maintenance_after_commit
  after_commit p (err e, w) = (err e, w, p)
  after_commit p (ok decided, w) =
      let (r, w', p') = audit_maintenance_after_commit p w in (decided, w', p')
