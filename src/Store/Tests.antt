-- ===== src/Store/Tests.antt =====
-- Runs of the store (backend/internal/store) on small databases, and the theorems at them.
mod Data
use file_transit_desk.Prelude.{
  length, select, ltb, min, Bool, false, ◌+◌, ℕ, String, ◌==◌, ◌≡◌, ◌≢◌, refl, true, not, ◌&&◌,
  Option, none, some, [], ◌∷◌, arith, All, count, first, inr, is_some, if◌then◌else◌, take, List,
}
use file_transit_desk.Store.Exec.{
  no_rows, Result, ok, err, World, driver, statement, transaction, pure, raise, ◌>>=◌,
  outstanding_lease_limit,
}
use file_transit_desk.Store.Rows.{
  AuditLog, Token, Session, UploadLease, DownloadLease, AccountUser, Db, ℤ, pos, update_where,
  delete_where, is_id,
}
use file_transit_desk.Store.Tokens.{
  is_null_number, revoke_token_and_leases, revoke_number, revoke, or_not_a_number, update_tokens,
  delete_download_leases, delete_upload_leases, release_token_use, or_no_rows,
}
use file_transit_desk.Store.Tokens.Reservation.{reserve_token_use, reserve_token_use_by_id}
use file_transit_desk.Store.Tokens.Calls.{reserves, releases, run}
use file_transit_desk.Store.Tokens.Quota.{IsWithin, run-IsWithin}
use file_transit_desk.Store.Tokens.Exact.{idle, Outcome, reserve_token_use-answer, release-reserve}
use file_transit_desk.Store.Tokens.Revoked.{revoked_for_good_token}
use file_transit_desk.Store.Leases.{
  insert_upload_lease, insert_download_lease, create_upload_lease_limited,
  create_download_lease_limited, create_lease_limited, check_total, check_owner, outstanding,
}
use file_transit_desk.Store.Leases.Reservation.{
  reserve_upload_lease, mark_used, after_mark, upload_lease_by_hash, found_upload,
}
use file_transit_desk.Store.Leases.SingleUse.{LeaseCall, lease_run, reserved_once}
use file_transit_desk.Store.Leases.Limits.{
  IsCapped, owned, create_upload_lease_limited-IsCapped, create_download_lease_limited-IsCapped,
}
use file_transit_desk.Store.Sessions.{
  create_session_with_idle, session_valid, session_lease_owner, owner_row, create_account_session,
}
use file_transit_desk.Store.Sessions.Validity.{created_session_valid}
use file_transit_desk.Store.Users.{
  account, found_account, apply_update, write_account, revoke_account, update_account,
}
use file_transit_desk.Store.Users.Revoking.{update_account-revokes}
use file_transit_desk.Store.Audit.{
  AuditPolicy, head, prune_audit, delete_older, audit, insert_audit, after_insert,
  audit_maintenance_after_commit, sanitize_audit_detail, new_log, append_rune,
}
use file_transit_desk.Store.Audit.Pruning.{prune_audit-take, audit_recorded}
use file_transit_desk.Store.Audit.Listing.{page, failing, succeeding, failures_and_successes}
use file_transit_desk.Store.Tests.Data.{
  same_time, parse, same_text_id, token, upload_lease, download_lease, login, alice, db, calm,
  faulty,
}

run-IsWithin_example :
    All
      (IsWithin 10)
      (run same_time parse 10 faulty
        (reserves "h" "upload" 5 4 ∷ reserves "h" "upload" 6 4 ∷ releases 1 4 ∷ [])).db.tokens
run-IsWithin_example =
    run-IsWithin same_time parse 10 faulty
      (reserves "h" "upload" 5 4 ∷ reserves "h" "upload" 6 4 ∷ releases 1 4 ∷ [])
      (record { uses = inr (omega arith); bytes = inr (omega arith) }, tt)

reserve_token_use-answer_example :
    Outcome same_time "upload" 5 4 10
      (λ x. x.hash == "h")
      db
      token
      (reserve_token_use same_time "h" "upload" 5 4 10 (idle db))
unfolding first count
reserve_token_use-answer_example =
    reserve_token_use-answer same_time db "h" "upload" 5 4 10 token refl refl

release-reserve_example :
    (release_token_use 1 4 (reserve_token_use_by_id same_time 1 "upload" 5 4 10 (idle db)).1).1.db
    ≡ db
unfolding first count
release-reserve_example = release-reserve same_time db 1 "upload" 5 4 10 token refl refl refl

revoked_for_good_token_example :
    let v = (revoke_token_and_leases parse "1" calm).1 in
    (count (λ l. is_null_number l.token_id (pos 1)) v.db.download_leases ≡ 0)
    × (count (λ l. is_null_number l.token_id (pos 1)) v.db.upload_leases ≡ 0)
    × ((reserve_token_use_by_id same_time 1 "upload" 9 4 10
          (run same_time parse 10 v (releases 1 4 ∷ []))).0
        ≢ ok token)
unfolding revoke_token_and_leases revoke_number or_not_a_number update_tokens delete_download_leases
    delete_upload_leases transaction statement pure raise ◌>>=◌ count update_where delete_where
    or_no_rows
revoked_for_good_token_example =
    revoked_for_good_token same_time 10 1 parse "1" calm (releases 1 4 ∷ []) "upload" 9 4 token refl
      (omega arith) refl

reserved_once_example :
    (reserve_upload_lease same_time "u" 9 (
      lease_run same_time
        (reserve_upload_lease same_time "u" 5 calm).1
        (LeaseCall.reserves "u" 6 ∷ LeaseCall.expires 7 ∷ []))).0
    ≢ ok upload_lease
unfolding reserve_upload_lease mark_used after_mark upload_lease_by_hash found_upload statement pure
    raise ◌>>=◌ count update_where first
reserved_once_example =
    reserved_once same_time "u" calm (LeaseCall.reserves "u" 6 ∷ LeaseCall.expires 7 ∷ []) 5 9
      (record upload_lease { used_at = some 5 }) upload_lease (omega arith) refl (tt, (tt, tt))

abbrev next_upload : UploadLease
next_upload = record upload_lease { hash = "u2" }

abbrev next_download : DownloadLease
next_download = record download_lease { hash = "d2" }

create_upload_lease_limited-IsCapped_example :
    let q = (create_upload_lease_limited same_time next_upload 4 3 5 5 5 calm).1.db in
    IsCapped same_time 4 (outstanding same_time 5 q)
    × IsCapped same_time 3 (owned same_time "session" "s" (some 1) 5 q)
unfolding create_upload_lease_limited create_lease_limited check_total check_owner
    session_lease_owner owner_row insert_upload_lease transaction statement pure raise ◌>>=◌ count
    first
create_upload_lease_limited-IsCapped_example =
    create_upload_lease_limited-IsCapped same_time next_upload 4 3 5 5 5 calm 2 refl

create_download_lease_limited-IsCapped_example :
    let q = (create_download_lease_limited same_time next_download 4 3 5 5 5 calm).1.db in
    IsCapped same_time 4 (outstanding same_time 5 q)
    × IsCapped same_time 3 (owned same_time "session" "s" none 5 q)
unfolding create_download_lease_limited create_lease_limited check_total check_owner
    session_lease_owner owner_row insert_download_lease transaction statement pure raise ◌>>=◌ count
    first
create_download_lease_limited-IsCapped_example =
    create_download_lease_limited-IsCapped same_time next_download 4 3 5 5 5 calm 2 refl

-- A third lease of one session is refused.
third_lease_refused :
    (create_upload_lease_limited same_time next_upload 4 2 5 5 5 calm).0
    ≡ err outstanding_lease_limit
unfolding create_upload_lease_limited create_lease_limited check_total check_owner
    session_lease_owner owner_row insert_upload_lease transaction statement pure raise ◌>>=◌ count
    first
third_lease_refused = refl

update_account-revokes_example :
    let w' = (update_account 4 none none "new" none 9 calm).1 in
    (count (λ s. is_id s.user_id 4) w'.db.sessions ≡ 0)
    × (count (λ l. is_id l.user_id 4) w'.db.download_leases ≡ 0)
    × (count (λ l. is_id l.user_id 4 && not (is_some l.used_at)) w'.db.upload_leases ≡ 0)
    × ((create_account_session same_text_id "s2" 90 80 alice 10 w').0 ≢ ok tt)
unfolding update_account account found_account apply_update write_account revoke_account transaction
    statement pure raise ◌>>=◌ count first update_where delete_where
update_account-revokes_example =
    update_account-revokes same_text_id 4 none none "new" none 9 alice
      (record alice { password_hash = "new"; auth_version = 2; updated_at = 9 }) calm "s2" 90 80 10
      refl refl refl refl

abbrev log : ℕ → AuditLog
log id = record { id = id; action = "login"; ip = "::1"; detail = []; created_at = id }

abbrev logged : World Db
logged = record {
  db = record db { audit_logs = log 3 ∷ log 2 ∷ log 1 ∷ []; next_audit = 4 };
  faults = [];
}

abbrev untrimmed : List ℕ → List ℕ
untrimmed runes = runes

abbrev every_write : AuditPolicy
every_write = record { retain = 2; prune_every = 1; write_count = 0 }

prune_audit-take_example :
    (prune_audit 2 logged).1.db.audit_logs ≡ take 2 (log 3 ∷ log 2 ∷ log 1 ∷ [])
unfolding prune_audit delete_older transaction statement pure ◌>>=◌
prune_audit-take_example =
    prune_audit-take 2 4 logged (omega arith, (omega arith, (omega arith, tt))) (omega arith) refl

audit_recorded_example :
    head (audit untrimmed every_write "logout" "::1" (65 ∷ 10 ∷ []) 9 logged).1.db.audit_logs
    ≡ some (new_log "logout" "::1" (sanitize_audit_detail untrimmed (65 ∷ 10 ∷ [])) 9 4)
unfolding audit insert_audit after_insert audit_maintenance_after_commit prune_audit delete_older
    transaction statement pure ◌>>=◌
audit_recorded_example =
    audit_recorded untrimmed every_write "logout" "::1" (65 ∷ 10 ∷ []) 9 logged
      (omega arith, (omega arith, (omega arith, tt))) (λ h. cc)

-- A control character is dropped from the detail.
control_dropped : sanitize_audit_detail untrimmed (65 ∷ 10 ∷ 66 ∷ []) ≡ 65 ∷ 66 ∷ []
unfolding sanitize_audit_detail select append_rune
control_dropped = refl

abbrev no_change : String → String
no_change s = s

-- Every action has an empty text, and nothing matches a pattern.
abbrev no_runes : String → List ℕ
no_runes s = []

abbrev never_like : List ℕ → List ℕ → Bool
never_like pattern text = false

abbrev denied : AuditLog
denied = record { id = 4; action = "login_failed"; ip = "::1"; detail = []; created_at = 4 }

abbrev mixed : Db
mixed = record db { audit_logs = denied ∷ log 3 ∷ [] }

failures_and_successes_example :
    let shows : ℕ → String → Db → Result (List AuditLog × ℕ) =
      λ limit status d. page no_change no_change no_change no_runes never_like limit "" status d in
    (shows 10 "all" mixed ≡ ok (mixed.audit_logs, 2))
    × ((found : List AuditLog) × (shows 10 "all" mixed ≡ ok (found, length found))
        × (shows 10 "failed" mixed
            ≡ ok (
              select (failing no_change no_change no_change no_runes never_like) found,
              length (select (failing no_change no_change no_change no_runes never_like) found),
            ))
        × (shows 10 "ok" mixed
            ≡ ok (
              select (succeeding no_change no_change no_change no_runes never_like) found,
              length (select (succeeding no_change no_change no_change no_runes never_like) found),
            )))
failures_and_successes_example =
    failures_and_successes no_change no_change no_change no_runes never_like 10 "" mixed refl refl
      refl refl (omega arith) (omega arith)

created_session_valid_example :
    session_valid same_text_id "new" 30
      (create_session_with_idle same_text_id "new" 50 60 "" "Guest" 20
        (record { db = db; faults = [] })).1
    ≡ ltb 30 (min 50 60)
unfolding first
created_session_valid_example =
    created_session_valid same_text_id db "new" "" "Guest" 50 60 20 30 refl

-- A text that is no number is no token's id.
revoke_no_number : (revoke parse "x" (record { db = db; faults = [] })).0 ≡ err no_rows
unfolding revoke update_tokens or_no_rows update_where count statement raise ◌>>=◌
revoke_no_number = refl
