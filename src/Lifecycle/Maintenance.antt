-- ===== src/Lifecycle/Maintenance.antt =====
-- The maintenance of the store (backend/internal/server/lifecycle.go). Each reading of the context
-- and of the clock in a loop has a number: `cancelled` and `is_due` tell what the n-th one finds.
pub mod Termination
pub mod CatchUp
use file_transit_desk.Prelude.{
  ℕ, zero, suc, ◌*◌, Bool, true, false, not, ◌&&◌, ◌||◌, Option, none, some, List, [], ◌∷◌, ltb,
  eqb, length, if◌then◌else◌, is_some,
}
use file_transit_desk.Store.Exec.{Error, Result, ok, err, World, Exec, context_canceled}
use file_transit_desk.Store.Rows.{Db}
use file_transit_desk.Store.Audit.{AuditPolicy, prune_audit}
use file_transit_desk.Store.Sessions.{delete_expired_sessions_with_idle_grace}
use file_transit_desk.Store.Tokens.Reservation.{delete_expired_tokens}
use file_transit_desk.Store.Leases.Reservation.{
  delete_expired_download_leases, delete_expired_upload_leases,
}
use file_transit_desk.Store.Chat.Calls.{ChatLibrary}
use file_transit_desk.Store.Chat.Clearing.{cleanup_chat}

-- The limits of the configuration's chat section; the code tests them for being below 1 alone.
pub record ChatPolicy : Type 0 where
  pub retention_days : ℕ
  pub max_messages : ℕ
  pub cleanup_batch : ℕ

abbrev pub Round : Type 0
Round = Option (Result Bool × World Db)

-- After one batch: `more` goes on with the next one.
abbrev pub after_batch : ChatPolicy → Bool → (World Db → Round) → Result ℕ × World Db → Round
after_batch c due more (err e, w) = some (err e, w)
after_batch c due more (ok removed, w) =
    if ltb removed c.cleanup_batch
    then some (ok true, w)
    else if due
    then some (ok false, w)
    else more w

module _ (lib : ChatLibrary) (c : ChatPolicy) (now : ℕ) (cancelled is_due : ℕ → Bool) where
  -- With fuel: none is running out of it. A call without a deadline is never due.
  unfoldable pub cleanup_chat_batches : ℕ → ℕ → World Db → Round
  cleanup_chat_batches zero round w = none
  cleanup_chat_batches (suc fuel) round w =
      let more : World Db → Round = cleanup_chat_batches fuel (suc round) in
      if cancelled round
      then some (err context_canceled, w)
      else after_batch c (is_due round) more (
          cleanup_chat lib.earlier lib.julianday now c.retention_days c.max_messages c.cleanup_batch
            w)

-- Whether a round of the periodic clean-up asks for another one soon.
abbrev pub retries : Result Bool → Bool
retries (ok caught_up) = not caught_up
retries (err context_canceled) = false
retries (err e) = true

abbrev pub settle_round : World Db → Round → Bool × World Db
settle_round before none = (false, before)
settle_round before (some (r, w)) = (retries r, w)

-- The operations of runNonChatStoreMaintenance, in order: each ends in a state, and its error is
-- only logged.
abbrev pub Operation : Type 0
Operation = World Db → World Db

unfoldable pub run_operations : (ℕ → Bool) → ℕ → List Operation → World Db → World Db
run_operations cancelled round [] w = w
run_operations cancelled round (operation ∷ operations) w =
    let rest : World Db → World Db = run_operations cancelled (suc round) operations in
    if cancelled round then w else rest (operation w)

module _ (datetime : ℕ → ℕ) where
  abbrev pub non_chat_operations : ℕ → ℕ → AuditPolicy → List Operation
  non_chat_operations now idle_grace audit =
      (λ w. (delete_expired_sessions_with_idle_grace datetime now idle_grace w).1)
      ∷ (λ w. (delete_expired_tokens datetime now w).1)
      ∷ (λ w. (delete_expired_download_leases datetime now w).1)
      ∷ (λ w. (delete_expired_upload_leases datetime now w).1)
      ∷ (λ w. (prune_audit audit.retain w).1)
      ∷ []

  unfoldable pub run_non_chat_store_maintenance :
      ℕ → ℕ → AuditPolicy → (ℕ → Bool) → World Db → World Db
  unfolding run_operations
  run_non_chat_store_maintenance now idle_grace audit cancelled w =
      run_operations cancelled 0 (non_chat_operations now idle_grace audit) w

-- Enough fuel for a loop on this database.
abbrev pub rounds : World Db → ℕ
rounds w = suc (length w.db.chat.messages)

module _ (lib : ChatLibrary) (c : ChatPolicy) where
  -- `stopped` is the context's state at the start, `cancelled` that in the loop.
  unfoldable pub run_periodic_chat_maintenance_at :
      ℕ → Bool → (ℕ → Bool) → (ℕ → Bool) → World Db → Bool × World Db
  unfolding cleanup_chat_batches
  run_periodic_chat_maintenance_at now stopped cancelled is_due w =
      if stopped
      then (false, w)
      else settle_round w (cleanup_chat_batches lib c now cancelled is_due (rounds w) 0 w)

  module _ (datetime : ℕ → ℕ) where
    unfoldable pub run_store_maintenance :
        ℕ
        → ℕ
        → AuditPolicy
        → (ℕ → Bool)
        → Bool
        → (ℕ → Bool)
        → (ℕ → Bool)
        → World Db
        → Bool × World Db
    unfolding run_non_chat_store_maintenance run_periodic_chat_maintenance_at
    run_store_maintenance now idle_grace audit before stopped cancelled is_due w =
        run_periodic_chat_maintenance_at now stopped cancelled is_due
          (run_non_chat_store_maintenance datetime now idle_grace audit before w)

    -- Without a deadline.
    unfoldable pub run_startup_maintenance :
        ℕ → ℕ → AuditPolicy → (ℕ → Bool) → (ℕ → Bool) → World Db → Round
    unfolding run_non_chat_store_maintenance cleanup_chat_batches
    run_startup_maintenance now idle_grace audit before cancelled w =
        let w' : World Db = run_non_chat_store_maintenance datetime now idle_grace audit before w in
        cleanup_chat_batches lib c now cancelled (λ round. false) (rounds w') 0 w'
