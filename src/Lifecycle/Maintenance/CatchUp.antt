-- ===== src/Lifecycle/Maintenance/CatchUp.antt =====
-- The clean-up at the start of the server catches up (backend/internal/server/lifecycle.go).
use file_transit_desk.Prelude.{
  ℕ, zero, suc, ◌+◌, ◌≤◌, ◌<◌, ◌≡◌, refl, ap, subst, inl, inr, Bool, true, false, ◌||◌, some, ltb,
  eqb, length, arith, Bool-cases,
}
use file_transit_desk.Store.Exec.{ok, World, pure, statement, ◌>>=◌}
use file_transit_desk.Store.Exec.Calm.{
  calm_world, IsCalm, IsCalm-pure, IsCalm-statement, IsCalm-transaction, IsCalm-bind,
}
use file_transit_desk.Store.Rows.{Db}
use file_transit_desk.Store.Chat.Calls.{ChatLibrary}
use file_transit_desk.Store.Chat.Clearing.{
  delete_changes, delete_messages, bumped, next_generation, bump_if, cleanup_steps, cleanup_chat,
}
use file_transit_desk.Store.Chat.Retention.{IsTrimmed}
use file_transit_desk.Lifecycle.Maintenance.{ChatPolicy, Round, rounds, cleanup_chat_batches}
use file_transit_desk.Lifecycle.Maintenance.Termination.{
  Done, batch, batch-Done, cutoff, WhenCaughtUp, Ended, cleanup_chat_batches_ends,
}

bump-IsCalm : (b : Bool) → IsCalm (bump_if b)
unfolding bump_if next_generation statement pure ◌>>=◌
bump-IsCalm true = record { at = λ db. (tt, record db { chat = bumped db.chat }, refl) }
bump-IsCalm false = IsCalm-pure tt

module _ (lib : ChatLibrary) (c : ChatPolicy) (now : ℕ) where
  steps-IsCalm :
      IsCalm
        (cleanup_steps lib.earlier lib.julianday (cutoff lib c now) c.max_messages c.cleanup_batch)
  unfolding cleanup_steps delete_changes delete_messages
  steps-IsCalm = IsCalm-bind _ _ (IsCalm-statement _ _) (λ k.
      IsCalm-bind _ _ (IsCalm-statement _ _)
        (λ n. IsCalm-bind _ _ (bump-IsCalm (ltb 0 n)) (λ u. IsCalm-pure n)))

  -- Every number of the policy is set.
  abbrev pub IsComplete : Type 0
  IsComplete = (eqb c.retention_days 0 || (eqb c.max_messages 0 || eqb c.cleanup_batch 0)) ≡ false

  batch-IsCalm :
      IsComplete
      → IsCalm (
          cleanup_chat lib.earlier lib.julianday now c.retention_days c.max_messages
            c.cleanup_batch)
  unfolding cleanup_chat
  batch-IsCalm set = rw set (IsCalm-transaction _ steps-IsCalm)

  abbrev pub startup_rounds : ℕ → ℕ → World Db → Round
  startup_rounds = cleanup_chat_batches lib c now (λ round. false) (λ round. false)

  calm_rounds :
      (fuel round : ℕ) (db : Db)
      → IsComplete
      → length db.chat.messages < fuel
      → (left : World Db) × (startup_rounds fuel round (calm_world db) ≡ some (ok true, left))
  unfolding cleanup_chat_batches
  calm_rounds zero round db set h = absurd (omega (arith, h))
  calm_rounds (suc fuel) round db set h =
      let (n, db', e) = (batch-IsCalm set).at db in
      let d : Done lib c now (calm_world db) n =
        batch-Done lib c now (calm_world db) n (ap (λ r. r.0) e) in
      let same : (batch lib c now (calm_world db)).1.db ≡ db' = ap (λ r. r.1.db) e in
      let size : length db'.chat.messages + n ≡ length db.chat.messages =
        subst (λ (x : Db). length x.chat.messages + n ≡ length db.chat.messages) same d.did.size in
      elim (Bool-cases (ltb n c.cleanup_batch)) [
        | inl f ↦ rw (e, f) (calm_world db', refl)
        | inr f ↦
            let full : c.cleanup_batch ≤ n = ground (arith, f) in
            rw (e, f) (calm_rounds fuel (suc round) db' set (omega (arith, h, size, full, d.set)))
      ]

  -- Without failures of the driver, a cancellation or a deadline, and under a policy that is set,
  -- the loop of the chat's clean-up, with as much fuel as the start of the server gives it, catches
  -- up: at most the policy's number of messages is left and none from before its cut-off.
  pub startup_cleanup_trims :
      (db : Db)
      → IsComplete
      → (left : World Db) × (startup_rounds (rounds (calm_world db)) 0 (calm_world db)
          ≡ some (ok true, left))
        × IsTrimmed lib.julianday (cutoff lib c now) c.max_messages left.db.chat
  startup_cleanup_trims db set =
      let fuel : ℕ = rounds (calm_world db) in
      let (left, ran) = calm_rounds fuel 0 db set (omega arith) in
      let end : Ended lib c now (startup_rounds fuel 0 (calm_world db)) =
        cleanup_chat_batches_ends lib c now (λ round. false) (λ round. false) fuel 0 (calm_world db)
          (omega arith) in
      let done : end.result ≡ ok true = cc in
      let there : end.left ≡ left = cc in
      (
        left,
        ran,
        subst (WhenCaughtUp lib c now (ok true)) there
            (subst (λ r. WhenCaughtUp lib c now r end.left) done end.caught_up),
      )
