-- ===== src/Store/Tokens/Invariant.antt =====
-- Properties of single rows that every call on the tokens of backend/internal/store/store.go keeps.
use file_transit_desk.Prelude.{
  ℕ, suc, ◌+◌, ◌≤◌, String, ◌≡◌, Bool, true, Option, none, some, List, [], ◌∷◌, arith, All,
}
use file_transit_desk.Store.Exec.{Result, ok, err, World, statement}
use file_transit_desk.Store.Exec.Keeps.{
  Keeps, Keeps-pure, Keeps-raise, Keeps-if, Keeps-transaction, Keeps-statement, Keeps-bind,
  Keeps-attempt, keeps_rules,
}
use file_transit_desk.Store.Rows.{
  All-update_where, All-delete_where, DownloadLease, UploadLease, Token, Db, ℤ, pos, negsuc,
}
use file_transit_desk.Store.Tokens.{
  has_hash, has_id, insert_token, create_token, update_tokens, delete_tokens,
  delete_download_leases, delete_upload_leases, select_token, bytes_left, reserved, lower,
  release_token_use, released, fresh_token, adjust_token_uploaded_bytes, revoke_row, revoke,
  revoke_token_and_leases, delete_token, delete_leases_of, delete_token_and_leases,
  or_limit_exceeded, or_no_rows, or_not_a_number,
}
use file_transit_desk.Store.Tokens.Reservation.{
  usable, reserve_where, reserve_token_use, reserve_token_use_by_id, active_tokens, refuse,
  after_update, check_active_limit, create_token_limited, delete_expired_tokens, revoke_dir,
  revoke_dirs, revoke_tokens_by_dir_ids_and_leases,
}
use file_transit_desk.Store.Tokens.Calls.{
  Call, creates, creates_limited, reserves, reserves_by_id, releases, adjusts, revokes, deletes,
  expires, revokes_dirs, step, run,
}

-- A property of rows that no statement on the tokens breaks; new rows have ids from `bound` on.
pub record IsStable (datetime : ℕ → ℕ) (cap bound : ℕ) (P : Token → Type 0) : Type 0 where
  pub reserve :
      (type : String) (now bytes : ℕ) (t : Token)
      → usable datetime type now bytes cap t ≡ true
      → P t
      → P (reserved bytes t)
  pub release : (bytes : ℕ) (t : Token) → P t → P (released bytes t)
  pub decrease :
      (n : ℕ) (t : Token) → P t → P (record t { uploaded_bytes = lower n t.uploaded_bytes })
  pub increase :
      (n : ℕ) (t : Token)
      → bytes_left n cap t ≡ true
      → P t
      → P (record t { uploaded_bytes = t.uploaded_bytes + n })
  pub revokes : (t : Token) → P t → P (revoke_row t)
  pub insert : (t : Token) (id now : ℕ) → bound ≤ id → P (fresh_token t id now)

pub record Holds (P : Token → Type 0) (bound : ℕ) (db : Db) : Type 0 where
  pub rows : All P db.tokens
  pub later : bound ≤ db.next_token

-- The statements on the tables.
module _ (P : Token → Type 0) (bound : ℕ) where
  update-Holds :
      (p : Token → Bool) (f : Token → Token)
      → ((t : Token) → p t ≡ true → P t → P (f t))
      → Keeps (Holds P bound) (update_tokens p f)
  unfolding update_tokens
  update-Holds p f h =
      Keeps-statement _
        (λ db a. record { rows = All-update_where P p f db.tokens h a.rows; later = a.later })

  delete-Holds : (p : Token → Bool) → Keeps (Holds P bound) (delete_tokens p)
  unfolding delete_tokens
  delete-Holds p =
      Keeps-statement _
        (λ db a. record { rows = All-delete_where P p db.tokens a.rows; later = a.later })

  download-Holds : (p : DownloadLease → Bool) → Keeps (Holds P bound) (delete_download_leases p)
  unfolding delete_download_leases
  download-Holds p = Keeps-statement _ (λ db a. record { rows = a.rows; later = a.later })

  upload-Holds : (p : UploadLease → Bool) → Keeps (Holds P bound) (delete_upload_leases p)
  unfolding delete_upload_leases
  upload-Holds p = Keeps-statement _ (λ db a. record { rows = a.rows; later = a.later })

  select-Holds : (p : Token → Bool) → Keeps (Holds P bound) (select_token p)
  unfolding select_token
  select-Holds p = Keeps-statement _ (λ db a. ground arith)

  insert-Holds :
      ((t : Token) (id now : ℕ) → bound ≤ id → P (fresh_token t id now))
      → (t : Token) (now : ℕ) → Keeps (Holds P bound) (statement (insert_token t now))
  unfolding insert_token
  insert-Holds h t now = Keeps-statement _ (λ db a. ground (arith, h t db.next_token now a.later))

  count-Holds :
      {A : Type 0} (f : Db → A) → Keeps (Holds P bound) (statement (λ db. (ok (f db), db)))
  count-Holds f = Keeps-statement _ (λ db a. a)

module _ (datetime : ℕ → ℕ) (parse_int : String → Option ℤ) (cap : ℕ) (P : Token → Type 0)
    (bound : ℕ) (s : IsStable datetime cap bound P) where
  refuse-Holds :
      (type : String) (bytes : ℕ) (r : Result Token)
      → Keeps (Holds P bound) (refuse datetime type bytes cap r)
  unfolding refuse
  refuse-Holds type bytes (ok t) = search keeps_rules
  refuse-Holds type bytes (err e) = search keeps_rules

  after_update-Holds :
      (by : Token → Bool) (type : String) (bytes n : ℕ)
      → Keeps (Holds P bound) (after_update datetime by type bytes cap n)
  unfolding after_update
  after_update-Holds by type bytes n = Keeps-if _ _ _ (select-Holds P bound by) (
      Keeps-if _ _ _ (Keeps-attempt _ _ (select-Holds P bound by) (refuse-Holds type bytes))
        (Keeps-raise _))

  reserve-Holds :
      (by : Token → Bool) (type : String) (now bytes : ℕ)
      → Keeps (Holds P bound) (reserve_where datetime by type now bytes cap)
  unfolding reserve_where
  reserve-Holds by type now bytes =
      Keeps-bind _ _
        (update-Holds P bound _ _ (λ t u h. s.reserve type now bytes t (ground arith) h))
        (after_update-Holds by type bytes)

  check_active_limit-Holds :
      (limit now : ℕ) → Keeps (Holds P bound) (check_active_limit datetime limit now)
  unfolding check_active_limit active_tokens
  check_active_limit-Holds limit now = search keeps_rules depth 8

  create_limited-Holds :
      (t : Token) (limit now created : ℕ)
      → Keeps (Holds P bound) (create_token_limited datetime t limit now created)
  unfolding create_token_limited
  create_limited-Holds t limit now created = Keeps-transaction _ (
      Keeps-bind _ _ (check_active_limit-Holds limit now)
        (λ _. insert-Holds P bound s.insert t created))

  release-Holds : (id bytes : ℕ) → Keeps (Holds P bound) (release_token_use id bytes)
  unfolding release_token_use
  release-Holds id bytes = update-Holds P bound _ _ (λ t u h. s.release bytes t h)

  adjust-Holds :
      (id : ℕ) (delta : ℤ) → Keeps (Holds P bound) (adjust_token_uploaded_bytes id delta cap)
  unfolding adjust_token_uploaded_bytes or_limit_exceeded
  adjust-Holds id (negsuc n) =
      Keeps-bind _ _ (update-Holds P bound _ _ (λ t u h. s.decrease (suc n) t h))
        (λ _. Keeps-pure tt)
  adjust-Holds id (pos delta) = Keeps-if _ _ _ (Keeps-pure tt) (
      Keeps-bind _ _ (update-Holds P bound _ _ (λ t u h. s.increase delta t (ground arith) h))
        (λ n. Keeps-if _ _ _ (Keeps-pure tt) (Keeps-raise _)))

  number-Holds : (o : Option ℤ) → Keeps (Holds P bound) (or_not_a_number o)
  unfolding or_not_a_number
  number-Holds none = Keeps-raise _
  number-Holds (some z) = Keeps-pure z

  rows-Holds : (n : ℕ) → Keeps (Holds P bound) (or_no_rows n)
  unfolding or_no_rows
  rows-Holds n = Keeps-if _ _ _ (Keeps-raise _) (Keeps-pure tt)

  leases-Holds : (z : ℤ) → Keeps (Holds P bound) (delete_leases_of z)
  leases-Holds z =
      Keeps-bind _ _ (download-Holds P bound _)
        (λ _. Keeps-bind _ _ (upload-Holds P bound _) (λ _. Keeps-pure tt))

  revoke-Holds : (id : String) → Keeps (Holds P bound) (revoke_token_and_leases parse_int id)
  unfolding revoke_token_and_leases revoke
  revoke-Holds id = Keeps-bind _ _ (number-Holds (parse_int id)) λ z. Keeps-transaction _ (
      Keeps-bind _ _ (Keeps-bind _ _ (update-Holds P bound _ _ (λ t u h. s.revokes t h)) rows-Holds)
        (λ _. leases-Holds z))

  delete-token-Holds : (id : String) → Keeps (Holds P bound) (delete_token parse_int id)
  unfolding delete_token delete_token_and_leases
  delete-token-Holds id = Keeps-bind _ _ (number-Holds (parse_int id)) λ z. Keeps-transaction _ (
      Keeps-bind _ _ (delete-Holds P bound _)
        (λ n. Keeps-bind _ _ (rows-Holds n) (λ _. leases-Holds z)))

  expires-Holds : (now : ℕ) → Keeps (Holds P bound) (delete_expired_tokens datetime now)
  unfolding delete_expired_tokens
  expires-Holds now = Keeps-transaction _ (
      Keeps-bind _ _ (Keeps-statement _ (λ db a. record { rows = a.rows; later = a.later })) (λ _.
        Keeps-bind _ _ (Keeps-statement _ (λ db a. record { rows = a.rows; later = a.later }))
          (λ _. Keeps-bind _ _ (delete-Holds P bound _) (λ _. Keeps-pure tt))))

  dirs-Holds : (ds : List String) → Keeps (Holds P bound) (revoke_dirs ds)
  unfolding revoke_dirs revoke_dir
  dirs-Holds [] = Keeps-pure tt
  dirs-Holds (d ∷ ds) =
      Keeps-bind _ _
        (Keeps-bind _ _ (update-Holds P bound _ _ (λ t u h. s.revokes t h)) (λ _.
          Keeps-bind _ _ (Keeps-statement _ (λ db a. record { rows = a.rows; later = a.later }))
            (λ _. upload-Holds P bound _)))
        (λ _. dirs-Holds ds)

  step-Holds :
      (w : World Db) (c : Call)
      → Holds P bound w.db
      → Holds P bound (step datetime parse_int cap w c).db
  unfolding step create_token reserve_token_use reserve_token_use_by_id
      revoke_tokens_by_dir_ids_and_leases
  step-Holds w (creates t now) h = (insert-Holds P bound s.insert t now).at w h
  step-Holds w (creates_limited t limit now created) h =
      (create_limited-Holds t limit now created).at w h
  step-Holds w (reserves hash type now bytes) h =
      (reserve-Holds (has_hash hash) type now bytes).at w h
  step-Holds w (reserves_by_id id type now bytes) h =
      (reserve-Holds (has_id id) type now bytes).at w h
  step-Holds w (releases id bytes) h = (release-Holds id bytes).at w h
  step-Holds w (adjusts id delta) h = (adjust-Holds id delta).at w h
  step-Holds w (revokes id) h = (revoke-Holds id).at w h
  step-Holds w (deletes id) h = (delete-token-Holds id).at w h
  step-Holds w (expires now) h = (expires-Holds now).at w h
  step-Holds w (revokes_dirs ds) h = (Keeps-transaction _ (dirs-Holds ds)).at w h

  pub run-Holds :
      (w : World Db) (cs : List Call)
      → Holds P bound w.db
      → Holds P bound (run datetime parse_int cap w cs).db
  unfolding run
  run-Holds w [] h = h
  run-Holds w (c ∷ cs) h = run-Holds (step datetime parse_int cap w c) cs (step-Holds w c h)
