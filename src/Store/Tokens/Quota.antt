-- ===== src/Store/Tokens/Quota.antt =====
-- The uses and bytes of share tokens over histories (backend/internal/store/store.go).
use file_transit_desk.Prelude.{ℕ, ◌≤◌, String, ◌≡◌, ◌⊎◌, Option, List, arith, All}
use file_transit_desk.Store.Exec.{World}
use file_transit_desk.Store.Rows.{Token, Db, ℤ}
use file_transit_desk.Store.Tokens.Calls.{Call, run}
use file_transit_desk.Store.Tokens.Invariant.{IsStable, run-Holds}

-- A limit of 0 is no limit.
pub record IsWithin (cap : ℕ) (t : Token) : Type 0 where
  pub uses : (t.max_uses ≡ 0) ⊎ (t.uses ≤ t.max_uses)
  pub bytes : (cap ≡ 0) ⊎ (t.uploaded_bytes ≤ cap)

module _ (datetime : ℕ → ℕ) (parse_int : String → Option ℤ) (cap : ℕ) where
  IsWithin-IsStable : IsStable datetime cap 0 (IsWithin cap)
  IsWithin-IsStable = record {
    reserve = λ type now bytes t u h. ground (arith, h.uses, h.bytes);
    release = λ bytes t h. ground (arith, h.uses, h.bytes);
    decrease = λ n t h. ground (arith, h.uses, h.bytes);
    increase = λ n t u h. ground (arith, h.uses, h.bytes);
    revokes = λ t h. record { uses = h.uses; bytes = h.bytes };
    insert = λ t id now h. ground arith;
  }

  -- Whatever calls are made on the share tokens, in any order and with any of the driver's calls
  -- failing, no token is used more often than its limit or takes more bytes than the upload limit,
  -- if none did before.
  pub run-IsWithin :
      (w : World Db) (cs : List Call)
      → All (IsWithin cap) w.db.tokens
      → All (IsWithin cap) (run datetime parse_int cap w cs).db.tokens
  run-IsWithin w cs h =
      (run-Holds datetime parse_int cap (IsWithin cap) 0 IsWithin-IsStable w cs
        (record { rows = h; later = omega arith })).rows
