-- ===== src/Lifecycle/Maintenance/Termination.antt =====
-- The loop of the chat's clean-up ends (backend/internal/server/lifecycle.go).
use file_transit_desk.Prelude.{
  ℕ, zero, suc, ◌-◌, ◌*◌, ◌≤◌, ◌<◌, ◌≡◌, refl, ap, sym, subst, ◌∙◌, inl, inr, Bool, true, false,
  ◌||◌, some, List, ltb, ltb→lt, eqb, length, arith, Bool-cases, if◌then◌else◌,
}
use file_transit_desk.Store.Exec.{
  Error, Result, ok, err, World, Exec, raise, transaction, invalid_chat_input, context_canceled,
}
use file_transit_desk.Store.Exec.Success.{transaction_ok}
use file_transit_desk.Store.ChatRows.{ChatMessage}
use file_transit_desk.Store.Rows.{Db}
use file_transit_desk.Store.Chat.Calls.{ChatLibrary}
use file_transit_desk.Store.Chat.Clearing.{day, cleanup_steps, cleanup_chat}
use file_transit_desk.Store.Chat.Retention.{IsTrimmed, IsBatch, cleanup-IsBatch}
use file_transit_desk.Lifecycle.Maintenance.{ChatPolicy, Round, after_batch, cleanup_chat_batches}

module _ (lib : ChatLibrary) (c : ChatPolicy) (now : ℕ) where
  abbrev pub cutoff : ℕ
  cutoff = now - c.retention_days * day

  abbrev pub batch : Exec Db ℕ
  batch = cleanup_chat lib.earlier lib.julianday now c.retention_days c.max_messages c.cleanup_batch

  abbrev pub Batch : List ChatMessage → ℕ → Db → Type 0
  Batch = IsBatch lib.earlier lib.julianday cutoff c.max_messages c.cleanup_batch

  -- A batch that succeeds, under a policy that must be set.
  pub record Done (w : World Db) (n : ℕ) : Type 0 where
    pub set : 1 ≤ c.cleanup_batch
    pub did : Batch w.db.chat.messages n (batch w).1.db

  if_ok :
      {A : Type 0} (b : Bool) (e : Error) (m : Exec Db A) (w : World Db) (a : A)
      → ((if b then raise e else m) w).0 ≡ ok a
      → (b ≡ false) × ((m w).0 ≡ ok a) × (((if b then raise e else m) w).1 ≡ (m w).1)
  unfolding raise
  if_ok true e m w a h = cc
  if_ok false e m w a h = (refl, h, refl)

  pub batch-Done : (w : World Db) (n : ℕ) → (batch w).0 ≡ ok n → Done w n
  unfolding cleanup_chat
  batch-Done w n h =
      let steps = cleanup_steps lib.earlier lib.julianday cutoff c.max_messages c.cleanup_batch in
      let unset : Bool =
        eqb c.retention_days 0 || (eqb c.max_messages 0 || eqb c.cleanup_batch 0) in
      let (set, ran, same) = if_ok unset invalid_chat_input (transaction steps) w n h in
      let d = transaction_ok steps w n ran in
      record {
        set = ground (arith, set);
        did = subst (Batch w.db.chat.messages n) (sym (ap (λ (v : World Db). v.db) same ∙ d.left)) (
            (cleanup-IsBatch lib.earlier lib.julianday cutoff c.max_messages c.cleanup_batch
                w.db.chat.messages).at
              d.start n (ap (λ (db : Db). db.chat.messages) d.same) d.result);
      }

  abbrev pub WhenCaughtUp : Result Bool → World Db → Type 0
  WhenCaughtUp (ok true) w = IsTrimmed lib.julianday cutoff c.max_messages w.db.chat
  WhenCaughtUp (ok false) w = Unit
  WhenCaughtUp (err e) w = Unit

  -- How a loop ends: in some state, and caught up only if there is nothing left to delete.
  pub record Ended (r : Round) : Type 0 where
    pub result : Result Bool
    pub left : World Db
    pub ends : r ≡ some (result, left)
    pub caught_up : WhenCaughtUp result left

  after_batch-Ended :
      (due : Bool) (more : World Db → Round) (w : World Db) (fuel : ℕ) (r : Result ℕ) (v : World Db)
      → length w.db.chat.messages < suc fuel
      → ((n : ℕ) → r ≡ ok n → (1 ≤ c.cleanup_batch) × Batch w.db.chat.messages n v.db)
      → ((u : World Db) → length u.db.chat.messages < fuel → Ended (more u))
      → Ended (after_batch c due more (r, v))
  after_batch-Ended due more w fuel (err e) v h done k = record {
    result = err e;
    left = v;
    ends = refl;
    caught_up = tt;
  }
  after_batch-Ended due more w fuel (ok n) v h done k =
      let (set, b) = done n refl in
      elim (Bool-cases (ltb n c.cleanup_batch)) [
        | inl e ↦ rw e (record {
          result = ok true;
          left = v;
          ends = refl;
          caught_up = b.trimmed (ltb→lt n c.cleanup_batch e);
        })
        | inr e ↦ elim (Bool-cases due) [
          | inl f ↦ rw (e, f) (record { result = ok false; left = v; ends = refl; caught_up = tt })
          | inr f ↦
              let full : c.cleanup_batch ≤ n = ground (arith, e) in
              rw (e, f) (k v (omega (arith, h, set, full, b.size)))
        ]
      ]

  module _ (cancelled is_due : ℕ → Bool) where
    -- With more fuel than there are messages, the loop of the chat's clean-up ends, whatever the
    -- policy, the context and the deadline say and whichever calls of the driver fail; and if it
    -- reports that it caught up, at most the policy's number of messages is left and none from
    -- before its cut-off.
    pub cleanup_chat_batches_ends :
        (fuel round : ℕ) (w : World Db)
        → length w.db.chat.messages < fuel
        → Ended (cleanup_chat_batches lib c now cancelled is_due fuel round w)
    unfolding cleanup_chat_batches
    cleanup_chat_batches_ends zero round w h = absurd (omega (arith, h))
    cleanup_chat_batches_ends (suc fuel) round w h = elim (Bool-cases (cancelled round)) [
      | inl e ↦
          rw e (record { result = err context_canceled; left = w; ends = refl; caught_up = tt })
      | inr e ↦
          let (r, v) = batch w in
          rw e (
            after_batch-Ended (is_due round)
              (cleanup_chat_batches lib c now cancelled is_due fuel (suc round)) w fuel r v h
              (λ n q. let d = batch-Done w n q in (d.set, d.did))
              (cleanup_chat_batches_ends fuel (suc round)))
    ]
