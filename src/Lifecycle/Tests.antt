-- ===== src/Lifecycle/Tests.antt =====
-- Runs of the maintenance and of a shutdown (backend/internal/server/lifecycle.go), and the theorems
-- at them.
use file_transit_desk.Prelude.{ℕ, ◌≡◌, refl, true, false, some, [], ◌∷◌, ltb, eqb, count, arith}
use file_transit_desk.Store.Exec.{ok, World}
use file_transit_desk.Store.Exec.Calm.{calm_world}
use file_transit_desk.Store.ChatRows.{ChatMessage}
use file_transit_desk.Store.Rows.{Db, empty_db}
use file_transit_desk.Store.Chat.{created_message}
use file_transit_desk.Store.Chat.Calls.{ChatLibrary}
use file_transit_desk.Store.Chat.Retention.{IsTrimmed}
use file_transit_desk.Lifecycle.Maintenance.{ChatPolicy, rounds, cleanup_chat_batches}
use file_transit_desk.Lifecycle.Maintenance.Termination.{Ended, cleanup_chat_batches_ends, cutoff}
use file_transit_desk.Lifecycle.Maintenance.CatchUp.{startup_rounds, startup_cleanup_trims}
use file_transit_desk.Lifecycle.Draining.{
  System, Reachable, starts, moves, shuts_down, arrives, cleans_up, begins, waits, stopping,
  answered, new_runtime, begin_drain, request_admission, request_cleanup, is_ready, Runtime,
}
use file_transit_desk.Lifecycle.Draining.Safety.{is_counted, shutdown_after_requests}

abbrev library : ChatLibrary
library = record {
  texts = record {
    trim_space = λ s. s;
    to_lower = λ s. s;
    decimal = λ n. "1";
    byte_length = λ s. 1;
    runes = λ s. [];
    trim_runes = λ rs. rs;
  };
  julianday = λ t. t;
  earlier = ltb;
}

abbrev message : ℕ → ChatMessage
message id =
    created_message
      (record {
        author_key = "k";
        author_tag = "t";
        author_role = "user";
        source_ip = "::1";
        body = "hello";
        created_at = id;
      })
      id

-- Three messages, of which one may stay, in batches of one.
abbrev three_messages : Db
three_messages = record empty_db {
  chat = record empty_db.chat {
    messages = message 3 ∷ message 2 ∷ message 1 ∷ [];
    last_message = 3;
  };
}

abbrev policy : ChatPolicy
policy = record { retention_days = 1; max_messages = 1; cleanup_batch = 1 }

cleanup_chat_batches_ends_example : Ended library policy 5 (
    cleanup_chat_batches library policy 5
      (λ round. eqb round 2)
      (λ round. false)
      4
      0
      (record { db = three_messages; faults = false ∷ false ∷ [] }))
cleanup_chat_batches_ends_example =
    cleanup_chat_batches_ends library policy 5 (λ round. eqb round 2) (λ round. false) 4 0
      (record { db = three_messages; faults = false ∷ false ∷ [] }) (omega arith)

startup_cleanup_trims_example :
    (left : World Db) × (startup_rounds library policy 5
        (rounds (calm_world three_messages))
        0
        (calm_world three_messages)
      ≡ some (ok true, left))
    × IsTrimmed library.julianday (cutoff library policy 5) 1 left.db.chat
startup_cleanup_trims_example = startup_cleanup_trims library policy 5 three_messages refl

-- One request is answered before the wait of the shutdown is over.
abbrev drained : Runtime
drained = request_cleanup (begin_drain (request_admission "/api/files" new_runtime).0)

abbrev stopped : System
stopped = record { runtime = drained; stage = stopping; requests = answered ∷ [] }

stopped-Reachable : Reachable stopped
unfolding request_admission request_cleanup begin_drain new_runtime
stopped-Reachable =
    shuts_down
      (moves [] []
        (shuts_down (moves [] [] (starts ("/api/files" ∷ [])) (arrives "/api/files")) begins)
        cleans_up)
      (waits (omega arith))

shutdown_after_requests_example :
    (count is_counted stopped.requests ≡ 0) × (is_ready stopped.runtime ≡ false)
shutdown_after_requests_example = shutdown_after_requests stopped stopped-Reachable refl
