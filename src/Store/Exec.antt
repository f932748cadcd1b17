-- ===== src/Store/Exec.antt =====
-- How the methods of backend/internal/store run on the database: statements that the driver may
-- fail, and transactions that roll back. The store has one connection, so calls do not interleave.
pub mod Keeps
pub mod Success
pub mod Triples
pub mod Calm
use file_transit_desk.Prelude.{ℕ, String, ◌≡◌, Bool, true, false, List, [], ◌∷◌, arith}

-- The errors that the package names, those of the driver, and those of strconv.
pub data Error : Type 0 where
  driver constraint no_rows not_a_number : Error
  token_not_usable token_upload_limit_exceeded active_token_limit_reached : Error
  outstanding_lease_limit lease_session_invalid audit_maintenance : Error
  account_changed username_taken invalid_audit_filter : Error
  invalid_chat_input chat_row_count_changed : Error
  chat_message_not_found chat_withdraw_forbidden chat_withdraw_expired chat_state_conflict : Error
  chat_clear_conflict chat_sync_metadata_missing context_canceled : Error
  -- With the generation and the latest change, and with the message and the reason.
  chat_cursor_reset_required : ℕ → ℕ → Error
  chat_batch_delete_conflict : ℕ → String → Error

pub data Result {ℓ} (A : Type ℓ) : Type ℓ where
  ok : A → Result A
  err : Error → Result A

-- The database, and which of the coming calls of the driver fail.
pub record World (S : Type 0) : Type 0 where
  pub db : S
  pub faults : List Bool

abbrev pub Exec : Type 0 → Type 0 → Type 0
Exec S A = World S → Result A × World S

module _ {S A : Type 0} where
  unfoldable pub pure : A → Exec S A
  pure a w = (ok a, w)

  unfoldable pub raise : Error → Exec S A
  raise e w = (err e, w)

  abbrev pub settle : Result A × S → List Bool → Result A × World S
  settle (r, db) faults = (r, record { db = db; faults = faults })

  -- One call of the driver. A call that fails changes nothing; the number of changed rows and the
  -- last id of one that succeeds are read without failure.
  unfoldable pub statement : (S → Result A × S) → Exec S A
  statement f w = elim w.faults [
    | [] ↦ settle (f w.db) []
    | true ∷ faults ↦ (err driver, record { db = w.db; faults = faults })
    | false ∷ faults ↦ settle (f w.db) faults
  ]

  -- `tx.Commit()`; its failure and an earlier error both leave the rollback to `defer`.
  abbrev pub commit : S → Result A → World S → Result A × World S
  commit before (err e) w = (err e, record w { db = before })
  commit before (ok a) w = elim w.faults [
    | [] ↦ (ok a, w)
    | true ∷ faults ↦ (err driver, record { db = before; faults = faults })
    | false ∷ faults ↦ (ok a, record w { faults = faults })
  ]

  abbrev pub in_transaction : S → Result A × World S → Result A × World S
  in_transaction before (r, w) = commit before r w

  unfoldable pub transaction : Exec S A → Exec S A
  transaction body w = elim w.faults [
    | [] ↦ in_transaction w.db (body w)
    | true ∷ faults ↦ (err driver, record w { faults = faults })
    | false ∷ faults ↦ in_transaction w.db (body (record w { faults = faults }))
  ]

module _ {S A B : Type 0} where
  abbrev pub continue : Result A → (A → Exec S B) → Exec S B
  continue (ok a) f w = f a w
  continue (err e) f w = (err e, w)

  infixl 10 ◌>>=◌ ◌>>◌
  unfoldable pub ◌>>=◌ : Exec S A → (A → Exec S B) → Exec S B
  unfolding pure raise statement
  ◌>>=◌ m f w = let (r, w') = m w in continue r f w'

  abbrev pub ◌>>◌ : Exec S A → Exec S B → Exec S B
  m >> n = m >>= λ _. n

-- `if err != nil` after a call, where the code maps the error or goes on.
module _ {S A B : Type 0} where
  abbrev pub attempt_then : Result A → (Result A → Exec S B) → Exec S B
  attempt_then r f w = f r w

  unfoldable pub attempt : Exec S A → (Result A → Exec S B) → Exec S B
  attempt m f w = let (r, w') = m w in attempt_then r f w'

-- A failed transaction changes nothing, whatever its statements are and whichever fails.
module _ {S A : Type 0} where
  pub transaction_atomic :
      (body : Exec S A) (w : World S) (e : Error)
      → (transaction body w).0 ≡ err e
      → (transaction body w).1.db ≡ w.db
  unfolding transaction
  transaction_atomic body w e h = ground arith
