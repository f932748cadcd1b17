-- ===== src/Store/Users/Revoking.antt =====
-- What a password change or the end of an account revokes (backend/internal/store/users.go).
use file_transit_desk.Prelude.{
  ℕ, String, ◌≡◌, ◌≢◌, refl, sym, subst, true, false, not, ◌&&◌, Option, none, some, List, [], ◌∷◌,
  arith, count, first, is_some, Bool-cases, inl, inr,
}
use file_transit_desk.Store.Exec.{
  ok, World, Exec, pure, raise, statement, ◌>>=◌, ◌>>◌, account_changed,
}
use file_transit_desk.Store.Exec.Success.{statement_ok, transaction_ok, bind_ok}
use file_transit_desk.Store.Rows.{AccountUser, Db, update_where, is_id, count-delete_where_self}
use file_transit_desk.Store.Sessions.{
  is_current_user, create_account_session, insert_account_session, or_changed,
}
use file_transit_desk.Store.Users.{
  has_user_id, account, found_account, must_revoke, is_stale, changed, write_row, write_account,
  revoke_account, apply_update, update_account,
}

-- What the account holds after a revoking change: nothing, and its row has another version.
pub record Revocation (id : ℕ) (u : AccountUser) (db : Db) : Type 0 where
  pub sessions : count (λ s. is_id s.user_id id) db.sessions ≡ 0
  pub downloads : count (λ l. is_id l.user_id id) db.download_leases ≡ 0
  pub uploads : count (λ l. is_id l.user_id id && not (is_some l.used_at)) db.upload_leases ≡ 0
  pub stale : first (is_current_user id u.auth_version) db.users ≡ none

-- What `revoke_account` leaves.
record Emptied (id : ℕ) (before after : Db) : Type 0 where
  sessions : count (λ s. is_id s.user_id id) after.sessions ≡ 0
  downloads : count (λ l. is_id l.user_id id) after.download_leases ≡ 0
  uploads : count (λ l. is_id l.user_id id && not (is_some l.used_at)) after.upload_leases ≡ 0
  users : after.users ≡ before.users

revoke_account_ok :
    (id : ℕ) (w : World Db) (v : Unit {0})
    → (revoke_account id w).0 ≡ ok v
    → Emptied id w.db (revoke_account id w).1.db
unfolding revoke_account ◌>>=◌
revoke_account_ok id w v h = record {
  sessions = ground (arith, h, count-delete_where_self (λ s. is_id s.user_id id) w.db.sessions);
  downloads =
      ground (arith, h, count-delete_where_self (λ l. is_id l.user_id id) w.db.download_leases);
  uploads = ground (
    arith,
    h,
    count-delete_where_self (λ l. is_id l.user_id id && not (is_some l.used_at)) w.db.upload_leases,
  );
  users = ground (arith, h);
}

written :
    (id : ℕ) (row : AccountUser) (w : World Db) (v : Unit {0})
    → (write_account id row w).0 ≡ ok v
    → (write_account id row w).1.db.users ≡ update_where (has_user_id id) (write_row row) w.db.users
unfolding write_account statement
written id row w v h = ground (arith, h)

module _ (id : ℕ) (name status : Option String) (hash : String) (expected : Option ℕ) (now : ℕ)
    (u : AccountUser) (m : must_revoke status hash u ≡ true) where
  none_current :
      (xs : List AccountUser)
      → first
          (is_current_user id u.auth_version)
          (update_where (has_user_id id) (write_row (changed name status hash now u)) xs)
        ≡ none
  unfolding first update_where
  none_current [] = refl
  none_current (x ∷ xs) = ground (arith, m, none_current xs)

  live_steps : Exec Db AccountUser
  live_steps = do
    write_account id (changed name status hash now u)
    revoke_account id
    pure (changed name status hash now u)

  apply_update-live :
      is_stale expected u ≡ false → apply_update id name status hash expected now u ≡ live_steps
  unfolding apply_update live_steps
  apply_update-live s = rw (s, m) refl

  apply_update-stale :
      is_stale expected u ≡ true
      → apply_update id name status hash expected now u ≡ raise account_changed
  unfolding apply_update
  apply_update-stale s = rw s refl

  live_steps-Revocation :
      (w : World Db) (v : AccountUser)
      → (live_steps w).0 ≡ ok v
      → Revocation id u (live_steps w).1.db
  unfolding live_steps pure
  live_steps-Revocation w v h =
      let b = bind_ok _ _ w v h in
      let c = bind_ok _ _ _ v b.second in
      let r = revoke_account_ok id _ c.value c.first in
      record {
        sessions = rw (b.left, c.left) r.sessions;
        downloads = rw (b.left, c.left) r.downloads;
        uploads = rw (b.left, c.left) r.uploads;
        stale =
            rw (b.left, c.left, r.users, written id _ w b.value b.first) (none_current w.db.users);
      }

  apply_update-Revocation :
      (w : World Db) (v : AccountUser)
      → (apply_update id name status hash expected now u w).0 ≡ ok v
      → Revocation id u (apply_update id name status hash expected now u w).1.db
  unfolding raise
  apply_update-Revocation w v = elim (Bool-cases (is_stale expected u)) [
    | inl s ↦ rw (apply_update-stale s) (λ h. cc)
    | inr s ↦ rw (apply_update-live s) (live_steps-Revocation w v)
  ]

  body : Exec Db AccountUser
  body = do v ← account id; apply_update id name status hash expected now v

  body-Revocation :
      (w : World Db) (v : AccountUser)
      → first (has_user_id id) w.db.users ≡ some u
      → (body w).0 ≡ ok v
      → Revocation id u (body w).1.db
  unfolding body account found_account
  body-Revocation w v e h =
      let b = bind_ok _ _ w v h in
      let x = statement_ok _ w b.value b.first in
      let same : b.value ≡ u = ground (arith, e, x) in
      rw b.left (
        subst
          (λ y.
            Revocation id u (apply_update id name status hash expected now y (account id w).1).1.db)
          (sym same)
          (apply_update-Revocation (account id w).1 v (
            subst (λ y. (apply_update id name status hash expected now y (account id w).1).0 ≡ ok v)
              same b.second)))

  update-Revocation :
      (w : World Db) (v : AccountUser)
      → first (has_user_id id) w.db.users ≡ some u
      → (update_account id name status hash expected now w).0 ≡ ok v
      → Revocation id u (update_account id name status hash expected now w).1.db
  unfolding update_account body
  update-Revocation w v e h =
      let c = transaction_ok body w v h in
      rw c.left (body-Revocation c.start v (rw c.same e) c.result)

-- An account that is not as it was read gets no session.
stale_session :
    (hash_session_id : String → String) (sid : String) (expires idle at : ℕ) (u : AccountUser)
    (w : World Db)
    → first (is_current_user u.id u.auth_version) w.db.users ≡ none
    → (create_account_session hash_session_id sid expires idle u at w).0 ≢ ok tt
unfolding create_account_session insert_account_session or_changed ◌>>=◌ statement pure raise
stale_session hash_session_id sid expires idle at u w e h = ground (arith, e, h)

-- A successful change of an account's password, or of its status to one that is not active, leaves
-- the account no session, no download lease and no unused upload lease, and the account as it was
-- read before gets no new session.
pub update_account-revokes :
    (hash_session_id : String → String) (id : ℕ) (name status : Option String) (hash : String)
    (expected : Option ℕ) (now : ℕ) (u v : AccountUser) (w : World Db) (sid : String)
    (expires idle at : ℕ)
    → first (has_user_id id) w.db.users ≡ some u
    → u.id ≡ id
    → must_revoke status hash u ≡ true
    → (update_account id name status hash expected now w).0 ≡ ok v
    → let w' = (update_account id name status hash expected now w).1 in
      (count (λ s. is_id s.user_id id) w'.db.sessions ≡ 0)
      × (count (λ l. is_id l.user_id id) w'.db.download_leases ≡ 0)
      × (count (λ l. is_id l.user_id id && not (is_some l.used_at)) w'.db.upload_leases ≡ 0)
      × ((create_account_session hash_session_id sid expires idle u at w').0 ≢ ok tt)
update_account-revokes hash_session_id id name status hash expected now u v w sid expires idle at e
      i m h =
    let r = update-Revocation id name status hash expected now u m w v e h in
    (
      r.sessions,
      r.downloads,
      r.uploads,
      stale_session hash_session_id sid expires idle at u _ (rw i r.stale),
    )
