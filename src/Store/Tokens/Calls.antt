-- ===== src/Store/Tokens/Calls.antt =====
-- Histories of calls on the share tokens of backend/internal/store/store.go.
use file_transit_desk.Prelude.{ℕ, String, Option, List, [], ◌∷◌}
use file_transit_desk.Store.Exec.{World}
use file_transit_desk.Store.Rows.{Token, Db, ℤ}
use file_transit_desk.Store.Tokens.{
  create_token, release_token_use, adjust_token_uploaded_bytes, revoke_token_and_leases,
  delete_token,
}
use file_transit_desk.Store.Tokens.Reservation.{
  reserve_token_use, reserve_token_use_by_id, create_token_limited, delete_expired_tokens,
  revoke_tokens_by_dir_ids_and_leases,
}

-- A call on the tokens, with the times that it reads.
pub data Call : Type 0 where
  creates : Token → ℕ → Call
  creates_limited : Token → ℕ → ℕ → ℕ → Call
  reserves : String → String → ℕ → ℕ → Call
  reserves_by_id : ℕ → String → ℕ → ℕ → Call
  releases : ℕ → ℕ → Call
  adjusts : ℕ → ℤ → Call
  revokes deletes : String → Call
  expires : ℕ → Call
  revokes_dirs : List String → Call

module _ (datetime : ℕ → ℕ) (parse_int : String → Option ℤ) (cap : ℕ) where
  -- The server calls every reservation with its one upload limit.
  unfoldable pub step : World Db → Call → World Db
  step w (creates t now) = (create_token t now w).1
  step w (creates_limited t limit now created) =
      (create_token_limited datetime t limit now created w).1
  step w (reserves hash type now bytes) = (reserve_token_use datetime hash type now bytes cap w).1
  step w (reserves_by_id id type now bytes) =
      (reserve_token_use_by_id datetime id type now bytes cap w).1
  step w (releases id bytes) = (release_token_use id bytes w).1
  step w (adjusts id delta) = (adjust_token_uploaded_bytes id delta cap w).1
  step w (revokes id) = (revoke_token_and_leases parse_int id w).1
  step w (deletes id) = (delete_token parse_int id w).1
  step w (expires now) = (delete_expired_tokens datetime now w).1
  step w (revokes_dirs dir_ids) = (revoke_tokens_by_dir_ids_and_leases dir_ids w).1

  unfoldable pub run : World Db → List Call → World Db
  unfolding step
  run w [] = w
  run w (c ∷ cs) = run (step w c) cs
