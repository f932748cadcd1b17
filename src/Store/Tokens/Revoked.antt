-- ===== src/Store/Tokens/Revoked.antt =====
-- Revoking a share token, and what may follow (backend/internal/store/store.go).
use file_transit_desk.Prelude.{
  ℕ, suc, ◌<◌, String, ◌≡◌, ◌≢◌, refl, ap, subst, ◌⊎◌, Bool, true, false, ◌&&◌, Option, some, List,
  [], ◌∷◌, arith, All, count, eqb,
}
use file_transit_desk.Store.Exec.{
  Result, ok, err, World, Exec, pure, raise, no_rows, transaction, ◌>>=◌, ◌>>◌,
}
use file_transit_desk.Store.Exec.Success.{
  Fails, Fails-raise, Fails-if, Fails-attempt, statement_ok, transaction_ok, bind_ok,
}
use file_transit_desk.Store.Exec.Triples.{
  Leads, Leads-pure, Leads-raise, Leads-statement, Leads-if, Leads-bind,
}
use file_transit_desk.Store.Rows.{Token, Db, update_where, count-delete_where_self, ℤ, pos}
use file_transit_desk.Store.Tokens.{
  has_id, is_number, is_null_number, revoke_number, revoke_row, revoke_token_and_leases,
  delete_leases_of, update_tokens, delete_download_leases, delete_upload_leases, or_not_a_number,
  or_no_rows, reserved,
}
use file_transit_desk.Store.Tokens.Reservation.{
  usable, reserve_where, reserve_token_use_by_id, after_update, refuse,
}
use file_transit_desk.Store.Tokens.Calls.{Call, run}
use file_transit_desk.Store.Tokens.Invariant.{IsStable, run-Holds}

-- The token of that id, if it is there, is revoked.
abbrev pub IsRevoked : ℕ → Token → Type 0
IsRevoked n t = (eqb t.id n ≡ false) ⊎ (t.revoked ≡ true)

IsRevoked-IsStable : (datetime : ℕ → ℕ) (cap n : ℕ) → IsStable datetime cap (suc n) (IsRevoked n)
IsRevoked-IsStable datetime cap n = record {
  reserve = λ type now bytes t u h. ground arith;
  release = λ bytes t h. h;
  decrease = λ k t h. h;
  increase = λ k t u h. h;
  revokes = λ t h. ground arith;
  insert = λ t id now h. ground arith;
}

revoke_row-IsRevoked :
    (n : ℕ) (xs : List Token)
    → All (IsRevoked n) (update_where (λ t. is_number t.id (pos n)) revoke_row xs)
unfolding update_where
revoke_row-IsRevoked n [] = tt
revoke_row-IsRevoked n (x ∷ xs) = ground (arith, revoke_row-IsRevoked n xs)

-- What a successful revocation leaves.
pub record Revocation (n : ℕ) (before after : Db) : Type 0 where
  pub tokens : after.tokens ≡ update_where (λ t. is_number t.id (pos n)) revoke_row before.tokens
  pub next : after.next_token ≡ before.next_token
  pub downloads : count (λ l. is_null_number l.token_id (pos n)) after.download_leases ≡ 0
  pub uploads : count (λ l. is_null_number l.token_id (pos n)) after.upload_leases ≡ 0

module _ (n : ℕ) where
  abbrev Same : Db → Db → Type 0
  Same before db = (db.tokens ≡ before.tokens) × (db.next_token ≡ before.next_token)

  abbrev Marked : Db → Db → Type 0
  Marked before db =
      (db.tokens ≡ update_where (λ t. is_number t.id (pos n)) revoke_row before.tokens)
      × (db.next_token ≡ before.next_token)

  abbrev MarkedAndCleared : Db → Db → Type 0
  MarkedAndCleared before db =
      Marked before db × (count (λ l. is_null_number l.token_id (pos n)) db.download_leases ≡ 0)

  body : Exec Db (Unit {0})
  body = do revoke_number (pos n); delete_leases_of (pos n)

  revoke_number-Leads :
      (before : Db) → Leads (Same before) (revoke_number (pos n)) (λ u. Marked before)
  unfolding revoke_number update_tokens or_no_rows
  revoke_number-Leads before =
      Leads-bind {R = λ k. Marked before} _ _
        (Leads-statement _ _ (λ db same. (ap (update_where _ revoke_row) same.0, same.1)))
        (λ k.
          Leads-if (eqb k 0) (raise no_rows) (pure tt) (λ e. Leads-raise _)
            (λ e. Leads-pure _ (λ db m. m)))

  body-Leads : (before : Db) → Leads (Same before) body (λ u. Revocation n before)
  unfolding body delete_download_leases delete_upload_leases
  body-Leads before = Leads-bind _ _ (revoke_number-Leads before) (λ u.
      Leads-bind {R = λ v. MarkedAndCleared before} _ _
        (Leads-statement _ _ (λ db m. (m, count-delete_where_self _ db.download_leases)))
        (λ v.
          Leads-bind _ _
            (Leads-statement _ _ (λ db m. record {
              tokens = m.0.0;
              next = m.0.1;
              downloads = m.1;
              uploads = count-delete_where_self _ db.upload_leases;
            }))
            (λ x. Leads-pure _ (λ db r. r))))

  body-Revocation : (w : World Db) → (body w).0 ≡ ok tt → Revocation n w.db (body w).1.db
  body-Revocation w h = (body-Leads w.db).at w tt (refl, refl) h

module _ (parse_int : String → Option ℤ) (id : String) (n : ℕ) where
  revoke-Revocation :
      (w : World Db)
      → parse_int id ≡ some (pos n)
      → (revoke_token_and_leases parse_int id w).0 ≡ ok tt
      → Revocation n w.db (revoke_token_and_leases parse_int id w).1.db
  unfolding revoke_token_and_leases or_not_a_number body transaction ◌>>=◌
  revoke-Revocation w e =
      rw (e, revoke_token_and_leases)
        (λ h.
          let c = transaction_ok (body n) w tt h in
          rw (c.left, ← c.same) (body-Revocation n c.start c.result))

module _ (datetime : ℕ → ℕ) (cap n : ℕ) where
  none_usable :
      (type : String) (now bytes : ℕ) (xs : List Token)
      → All (IsRevoked n) xs
      → count (λ t. has_id n t && usable datetime type now bytes cap t) xs ≡ 0
  unfolding count
  none_usable type now bytes [] h = refl
  none_usable type now bytes (x ∷ xs) h = ground (arith, none_usable type now bytes xs h.1)

  refuse-Fails :
      (type : String) (bytes : ℕ) (r : Result Token) → Fails (refuse datetime type bytes cap r)
  unfolding refuse
  refuse-Fails type bytes (ok x) = Fails-if _ _ _ (Fails-raise _) (Fails-raise _)
  refuse-Fails type bytes (err x) = Fails-raise _

  unaffected-Fails :
      (by : Token → Bool) (type : String) (bytes : ℕ)
      → Fails (after_update datetime by type bytes cap 0)
  unfolding after_update
  unaffected-Fails by type bytes =
      Fails-if _ _ _ (Fails-attempt _ _ (refuse-Fails type bytes)) (Fails-raise _)

  reserve_revoked :
      (w : World Db) (type : String) (now bytes : ℕ) (t : Token)
      → All (IsRevoked n) w.db.tokens
      → (reserve_token_use_by_id datetime n type now bytes cap w).0 ≢ ok t
  unfolding reserve_token_use_by_id reserve_where update_tokens
  reserve_revoked w type now bytes t h e =
      let b = bind_ok _ _ w t e in
      let u = statement_ok _ w b.value b.first in
      let zero_rows : b.value ≡ 0 = ground (arith, u, none_usable type now bytes w.db.tokens h) in
      (unaffected-Fails (has_id n) type bytes).at (update w) t (
        subst (λ v. (after_update datetime (has_id n) type bytes cap v (update w)).0 ≡ ok t)
          zero_rows b.second)
    where
      update : World Db → World Db
      update v =
          (update_tokens (λ x. has_id n x && usable datetime type now bytes cap x) (reserved bytes)
            v).1

  -- Once a token with an id already given out is revoked with success, it has no lease left and no
  -- reservation of it by its id succeeds again, whatever calls are made on the tokens since and
  -- whichever calls of the driver fail.
  pub revoked_for_good_token :
      (parse_int : String → Option ℤ) (id : String) (w : World Db) (cs : List Call) (type : String)
      (now bytes : ℕ) (t : Token)
      → parse_int id ≡ some (pos n)
      → n < w.db.next_token
      → (revoke_token_and_leases parse_int id w).0 ≡ ok tt
      → let v = (revoke_token_and_leases parse_int id w).1 in
        (count (λ l. is_null_number l.token_id (pos n)) v.db.download_leases ≡ 0)
        × (count (λ l. is_null_number l.token_id (pos n)) v.db.upload_leases ≡ 0)
        × ((reserve_token_use_by_id datetime n type now bytes cap
              (run datetime parse_int cap v cs)).0
            ≢ ok t)
  revoked_for_good_token parse_int id w cs type now bytes t e lt h =
      let r = revoke-Revocation parse_int id n w e h in
      (
        r.downloads,
        r.uploads,
        reserve_revoked _ type now bytes t
            (run-Holds datetime parse_int cap (IsRevoked n) (suc n)
              (IsRevoked-IsStable datetime cap n) (revoke_token_and_leases parse_int id w).1 cs
              (record {
                rows = rw r.tokens (revoke_row-IsRevoked n w.db.tokens);
                later = omega (arith, r.next);
              })).rows,
      )
