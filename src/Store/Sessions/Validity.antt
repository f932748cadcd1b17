-- ===== src/Store/Sessions/Validity.antt =====
-- How long a login session is valid (backend/internal/store/store.go).
use file_transit_desk.Prelude.{ℕ, String, eq_refl, ◌≡◌, none, [], arith, ltb, first, min}
use file_transit_desk.Store.Exec.{statement}
use file_transit_desk.Store.Rows.{Db}
use file_transit_desk.Store.Sessions.{
  has_session_id, create_session_with_idle, insert_session, session, find_session, session_valid,
}

module _ (hash_session_id : String → String) where
  -- If the driver fails no call, a session that is created under an id whose hash is not stored is
  -- valid exactly until the sooner of its two ends, whatever idle end was asked for.
  pub created_session_valid :
      (db : Db) (id role name : String) (expires_at idle_expires_at now later : ℕ)
      → first (has_session_id (hash_session_id id)) db.sessions ≡ none
      → session_valid hash_session_id id later
          (create_session_with_idle hash_session_id id expires_at idle_expires_at role name now
            (record { db = db; faults = [] })).1
        ≡ ltb later (min expires_at idle_expires_at)
  unfolding session_valid session create_session_with_idle insert_session find_session statement
      first
  created_session_valid db id role name expires_at idle_expires_at now later h =
      ground (arith, h, eq_refl (hash_session_id id))
