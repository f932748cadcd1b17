-- ===== src/Store/Chat/Tests.antt =====
-- Runs of the chat (backend/internal/store/chat.go), and the theorems at them.
use file_transit_desk.Prelude.{
  is_some, ◌≤◌, ◌≡◌, refl, false, none, some, List, [], ◌∷◌, ltb, All, arith, count, first,
}
use file_transit_desk.Store.Exec.{pure, statement, transaction, ◌>>=◌, chat_batch_delete_conflict}
use file_transit_desk.Store.Rows.{empty_db, pos, update_where}
use file_transit_desk.Store.Audit.{AuditPolicy, insert_audit, audit_maintenance_after_commit}
use file_transit_desk.Store.Chat.{
  ChatCreateInput, insert_message, insert_chat_change, insert_created, create_chat_message,
  chat_message, found_message, max_seq,
}
use file_transit_desk.Store.Chat.Pages.{chat_changes_page}
use file_transit_desk.Store.Chat.Details.{Texts, insert_chat_audit, after_commit}
use file_transit_desk.Store.Chat.Mutations.{
  update_messages, complete_mutation, delete_steps, delete_chat_message,
}
use file_transit_desk.Store.Chat.Batches.{
  batch_delete_chat_messages, normalize_chat_batch_ids, sort_ids, insert_id, repeats,
  delete_normalized, delete_gated, finish_batch, batch_steps, find_conflict, decide_batch,
  refuse_batch,
}
use file_transit_desk.Store.Chat.Calls.{
  ChatCall, posts, deletes, ChatLibrary, ChatStore, chat_step, chat_run,
}
use file_transit_desk.Store.Chat.Sound.{IsBlanked}
use file_transit_desk.Store.Chat.Cursor.{
  IsPage, from_empty, chat_cursor_complete, chat_text_until_deleted,
}
use file_transit_desk.Store.Chat.AllOrNothing.{batch_delete_all_or_nothing}
use file_transit_desk.Store.Chat.BatchIds.{Answer, normalize_chat_batch_ids-Answer}
use file_transit_desk.Store.Chat.Gates.{
  no_gates, outside, begin_chat_mutation, begin_at, Callers, Reachable, starts, moves, begins,
  chat_mutation_count,
}
use file_transit_desk.Store.Chat.Gates.Exclusion.{
  is_inside, is_for, chat_mutations_exclude, chat_mutations_counted,
}

abbrev plain_texts : Texts
plain_texts = record {
  trim_space = λ s. s;
  to_lower = λ s. s;
  decimal = λ n. "1";
  byte_length = λ s. 1;
  runes = λ s. [];
  trim_runes = λ rs. rs;
}

abbrev library : ChatLibrary
library = record { texts = plain_texts; julianday = λ t. t; earlier = ltb }

abbrev hello : ChatCreateInput
hello = record {
  author_key = "k";
  author_tag = "t";
  author_role = "user";
  source_ip = "::1";
  body = "hello";
  created_at = 5;
}

abbrev quiet : AuditPolicy
quiet = record { retain = 0; prune_every = 0; write_count = 0 }

abbrev posted : List ChatCall
posted = posts hello 5 ∷ []

abbrev deleted_and_posted : List ChatCall
deleted_and_posted = posts hello 6 ∷ deletes false 1 "admin" "::1" 7 ∷ posts hello 8 ∷ []

abbrev before_page : ChatStore
before_page = from_empty library [] quiet posted

abbrev after_page : ChatStore
after_page = chat_run library before_page deleted_and_posted

chat_cursor_complete_example :
    IsPage 1 2 after_page.0.db.chat
      (chat_changes_page
        (pos 1)
        before_page.0.db.chat.generation
        2
        (record { db = after_page.0.db; faults = [] })).0
unfolding chat_run chat_step create_chat_message insert_created insert_message insert_chat_change
    transaction statement pure ◌>>=◌ delete_chat_message delete_steps complete_mutation
    update_messages insert_chat_audit insert_audit chat_message found_message first count
    update_where after_commit audit_maintenance_after_commit empty_db max_seq
chat_cursor_complete_example =
    chat_cursor_complete library [] quiet posted deleted_and_posted 1 2 refl (omega arith)
      (omega arith) (omega arith)

chat_text_until_deleted_example :
    All IsBlanked
      (from_empty library [] quiet
        (posts hello 5 ∷ deletes false 1 "admin" "::1" 7 ∷ [])).0.db.chat.messages
chat_text_until_deleted_example =
    chat_text_until_deleted library [] quiet (posts hello 5 ∷ deletes false 1 "admin" "::1" 7 ∷ [])

-- Of the two messages the second is not there.
batch_delete_all_or_nothing_example :
    (batch_delete_chat_messages plain_texts
      (λ id. false)
      (9 ∷ 1 ∷ [])
      "admin"
      "::1"
      7
      quiet
      before_page.0).1.db.chat
    ≡ before_page.0.db.chat
unfolding chat_run chat_step create_chat_message insert_created insert_message insert_chat_change
    transaction statement pure ◌>>=◌ batch_delete_chat_messages normalize_chat_batch_ids sort_ids
    insert_id repeats delete_normalized delete_gated finish_batch batch_steps find_conflict
    decide_batch refuse_batch insert_chat_audit insert_audit first after_commit
    audit_maintenance_after_commit empty_db
batch_delete_all_or_nothing_example =
    batch_delete_all_or_nothing plain_texts (λ id. false) (9 ∷ 1 ∷ []) "admin" "::1" 7 quiet
      before_page.0 (chat_batch_delete_conflict 9 "missing") refl

-- Two callers come for a message; the first holds its gate.
abbrev two_callers : Callers
two_callers = record {
  gates = (begin_chat_mutation (begin_chat_mutation no_gates 4).0 4).0;
  callers =
      (begin_chat_mutation no_gates 4).1
      ∷ (begin_chat_mutation (begin_chat_mutation no_gates 4).0 4).1
      ∷ [];
}

two_callers-Reachable : Reachable two_callers
two_callers-Reachable =
    moves ((begin_chat_mutation no_gates 4).1 ∷ []) []
      (moves [] (outside ∷ []) (starts 2) (begins 4)) (begins 4)

chat_mutations_exclude_example : count (is_inside 4) two_callers.callers ≤ 1
chat_mutations_exclude_example = chat_mutations_exclude two_callers 4 two_callers-Reachable

chat_mutations_counted_example :
    (chat_mutation_count two_callers.gates 4 ≡ count (is_for 4) two_callers.callers)
    × (is_some (two_callers.gates.chat_mutations 4) ≡ ltb 0 (count (is_for 4) two_callers.callers))
chat_mutations_counted_example = chat_mutations_counted two_callers 4 two_callers-Reachable

-- The two callers at the gate, as they compute.
two_at_the_gate : chat_mutation_count two_callers.gates 4 ≡ 2
unfolding begin_chat_mutation begin_at no_gates chat_mutation_count
two_at_the_gate = refl

-- Three ids out of order, and one that is given twice.
normalize_chat_batch_ids-Answer_example : Answer (3 ∷ 1 ∷ 2 ∷ []) (some (1 ∷ 2 ∷ 3 ∷ []))
unfolding normalize_chat_batch_ids sort_ids insert_id repeats first
normalize_chat_batch_ids-Answer_example = normalize_chat_batch_ids-Answer (3 ∷ 1 ∷ 2 ∷ [])

twice_refused : normalize_chat_batch_ids (3 ∷ 1 ∷ 3 ∷ []) ≡ none
unfolding normalize_chat_batch_ids sort_ids insert_id repeats first
twice_refused = refl
