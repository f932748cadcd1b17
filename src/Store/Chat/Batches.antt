-- ===== src/Store/Chat/Batches.antt =====
-- Deleting several messages at once (backend/internal/store/chat.go). An id below 1 is 0 here.
-- `overlaps` tells what beginChatMutations reports for each id.
use file_transit_desk.Prelude.{
  ℕ, String, Bool, false, not, ◌&&◌, ◌||◌, Option, none, some, List, [], ◌∷◌, ltb, leb, eqb, length,
  first, if◌then◌else◌, is_some,
}
use file_transit_desk.Store.Exec.{
  Error, Result, ok, err, World, Exec, pure, raise, statement, transaction, ◌>>=◌, ◌>>◌,
  invalid_chat_input, chat_batch_delete_conflict,
}
use file_transit_desk.Store.ChatRows.{ChatMessage}
use file_transit_desk.Store.Rows.{Db}
use file_transit_desk.Store.Audit.{AuditPolicy}
use file_transit_desk.Store.Chat.{ChatMutation, has_message_id, insert_chat_change, chat_message}
use file_transit_desk.Store.Chat.Details.{
  Texts, chat_batch_audit_detail, insert_chat_audit, is_delete_actor, after_commit,
}
use file_transit_desk.Store.Chat.Mutations.{update_messages, refused, rejected, delete}

-- sort.Slice on ids
unfoldable pub insert_id : ℕ → List ℕ → List ℕ
insert_id n [] = n ∷ []
insert_id n (x ∷ xs) = let rest = insert_id n xs in if leb n x then n ∷ x ∷ xs else x ∷ rest

unfoldable pub sort_ids : List ℕ → List ℕ
unfolding insert_id
sort_ids [] = []
sort_ids (x ∷ xs) = insert_id x (sort_ids xs)

unfoldable pub repeats : ℕ → List ℕ → Bool
repeats previous [] = false
repeats previous (x ∷ xs) = eqb x previous || repeats x xs

abbrev pub has_adjacent_repeat : List ℕ → Bool
has_adjacent_repeat [] = false
has_adjacent_repeat (x ∷ xs) = repeats x xs

abbrev pub is_batch_size : ℕ → Bool
is_batch_size n = ltb 0 n && leb n 100

unfoldable pub normalize_chat_batch_ids : List ℕ → Option (List ℕ)
unfolding sort_ids repeats
normalize_chat_batch_ids ids =
    if not (is_batch_size (length ids)) || is_some (first (eqb 0) ids)
    then none
    else if has_adjacent_repeat (sort_ids ids)
    then none
    else some (sort_ids ids)

-- Why a message cannot be deleted.
abbrev pub batch_conflict : Option ChatMessage → Option String
batch_conflict none = some "missing"
batch_conflict (some m) = if is_some m.deleted_at then some "already_deleted" else none

abbrev pub or_next :
    ℕ → Option String → Exec Db (Option (ℕ × String)) → Exec Db (Option (ℕ × String))
or_next id none next = next
or_next id (some reason) next = pure (some (id, reason))

unfoldable pub find_conflict : List ℕ → Exec Db (Option (ℕ × String))
find_conflict [] = pure none
find_conflict (id ∷ ids) =
    let rest = find_conflict ids in
    statement (λ db. (ok (batch_conflict (first (has_message_id id) db.chat.messages)), db))
    >>= λ reason. or_next id reason rest

abbrev pub undeleted : ℕ → ChatMessage → Bool
undeleted id m = has_message_id id m && not (is_some m.deleted_at)

unfoldable pub delete_rows : String → ℕ → List ℕ → Exec Db (List ChatMutation)
unfolding update_messages insert_chat_change chat_message
delete_rows deleted_by now [] = pure []
delete_rows deleted_by now (id ∷ ids) =
    let rest = delete_rows deleted_by now ids in
    (do
      affected ← update_messages (undeleted id) (delete now deleted_by)
      if eqb affected 1
          then (do
            seq ← insert_chat_change id "delete" now
            message ← chat_message id
            mutations ← rest
            pure (record { message = message; event_seq = seq } ∷ mutations))
          else raise (chat_batch_delete_conflict id "concurrent_conflict"))

abbrev pub conflict_of : Error → Option (ℕ × String)
conflict_of (chat_batch_delete_conflict id reason) = some (id, reason)
conflict_of _ = none

-- The rollback is a call of the driver when the transaction fails for a conflict.
abbrev pub rollback : Option (ℕ × String) → Exec Db (Unit {0})
rollback none = pure tt
rollback (some c) = statement (λ db. (ok tt, db))

module _ (texts : Texts) where
  -- The audit entry of a batch that is refused, which is committed.
  unfoldable pub refuse_batch : ℕ → ℕ → String → String → ℕ → Exec Db (Result (List ChatMutation))
  unfolding insert_chat_audit chat_batch_audit_detail
  refuse_batch size id reason actor_ip now = do
    insert_chat_audit texts "chat_batch_delete_failed" actor_ip
        (chat_batch_audit_detail texts size id reason) now
    refused (chat_batch_delete_conflict id reason)

  unfoldable pub record_chat_batch_delete_conflict :
      ℕ
      → ℕ
      → String
      → String
      → ℕ
      → AuditPolicy
      → World Db
      → Result (List ChatMutation) × World Db × AuditPolicy
  unfolding refuse_batch after_commit
  record_chat_batch_delete_conflict size id reason actor_ip now p w =
      after_commit p (transaction (refuse_batch size id reason actor_ip now) w)

  unfoldable pub decide_batch :
      List ℕ → String → String → ℕ → Option (ℕ × String) → Exec Db (Result (List ChatMutation))
  unfolding refuse_batch delete_rows insert_chat_audit chat_batch_audit_detail
  decide_batch ids deleted_by actor_ip now (some (id, reason)) =
      refuse_batch (length ids) id reason actor_ip now
  decide_batch ids deleted_by actor_ip now none = do
    mutations ← delete_rows deleted_by now ids
    insert_chat_audit texts "chat_batch_delete" actor_ip
        (chat_batch_audit_detail texts (length ids) 0 "deleted") now
    pure (ok mutations)

  unfoldable pub batch_steps : List ℕ → String → String → ℕ → Exec Db (Result (List ChatMutation))
  unfolding find_conflict decide_batch
  batch_steps ids deleted_by actor_ip now =
      find_conflict ids >>= decide_batch ids deleted_by actor_ip now

  -- A row that changed in between: the rollback, whose failure is an error too, then the entry.
  unfoldable pub roll_back_batch :
      Error
      → Option (ℕ × String)
      → ℕ
      → String
      → ℕ
      → AuditPolicy
      → Result (Unit {0}) × World Db
      → Result (List ChatMutation) × World Db × AuditPolicy
  unfolding record_chat_batch_delete_conflict
  roll_back_batch e none size actor_ip now p (r, w) = rejected e p w
  roll_back_batch e (some (id, reason)) size actor_ip now p (err x, w) = rejected x p w
  roll_back_batch e (some (id, reason)) size actor_ip now p (ok v, w) =
      record_chat_batch_delete_conflict size id reason actor_ip now p w

  unfoldable pub finish_batch :
      ℕ
      → String
      → ℕ
      → AuditPolicy
      → Result (Result (List ChatMutation)) × World Db
      → Result (List ChatMutation) × World Db × AuditPolicy
  unfolding after_commit roll_back_batch
  finish_batch size actor_ip now p (ok decided, w) = after_commit p (ok decided, w)
  finish_batch size actor_ip now p (err e, w) =
      roll_back_batch e (conflict_of e) size actor_ip now p (rollback (conflict_of e) w)

  -- After the gates of the ids are taken, with the first that another caller held.
  unfoldable pub delete_gated :
      Option ℕ
      → List ℕ
      → String
      → String
      → ℕ
      → AuditPolicy
      → World Db
      → Result (List ChatMutation) × World Db × AuditPolicy
  unfolding record_chat_batch_delete_conflict batch_steps finish_batch
  delete_gated (some id) ids deleted_by actor_ip now p w =
      record_chat_batch_delete_conflict (length ids) id "concurrent_conflict" actor_ip now p w
  delete_gated none ids deleted_by actor_ip now p w =
      finish_batch (length ids) actor_ip now p
        (transaction (batch_steps ids deleted_by actor_ip now) w)

  unfoldable pub delete_normalized :
      (ℕ → Bool)
      → Option (List ℕ)
      → String
      → String
      → ℕ
      → AuditPolicy
      → World Db
      → Result (List ChatMutation) × World Db × AuditPolicy
  unfolding delete_gated
  delete_normalized overlaps none deleted_by actor_ip now p w = rejected invalid_chat_input p w
  delete_normalized overlaps (some ids) deleted_by actor_ip now p w =
      if is_delete_actor texts deleted_by
      then rejected invalid_chat_input p w
      else delete_gated (first overlaps ids) ids deleted_by actor_ip now p w

  -- `now` is the argument, or the clock's time where that is zero.
  unfoldable pub batch_delete_chat_messages :
      (ℕ → Bool)
      → List ℕ
      → String
      → String
      → ℕ
      → AuditPolicy
      → World Db
      → Result (List ChatMutation) × World Db × AuditPolicy
  unfolding normalize_chat_batch_ids delete_normalized
  batch_delete_chat_messages overlaps ids deleted_by actor_ip now p w =
      delete_normalized overlaps (normalize_chat_batch_ids ids) (texts.trim_space deleted_by)
        actor_ip now p w
