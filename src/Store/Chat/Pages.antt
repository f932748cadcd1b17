-- ===== src/Store/Chat/Pages.antt =====
-- The pages of messages and changes (backend/internal/store/chat.go). A limit below 1 is 0 here.
use file_transit_desk.Prelude.{
  ℕ, suc, ◌+◌, Bool, true, not, ◌&&◌, ◌||◌, none, some, List, [], ◌∷◌, ltb, eqb, select, length,
  take, first, if◌then◌else◌,
}
use file_transit_desk.Store.Exec.{
  ok, Exec, pure, raise, statement, transaction, ◌>>=◌, invalid_chat_input,
  chat_cursor_reset_required,
}
use file_transit_desk.Store.ChatRows.{ChatMessage, ChangeRow, ChatTables}
use file_transit_desk.Store.Rows.{Db, ℤ, pos, negsuc}
use file_transit_desk.Store.Chat.{
  ChatChange, ChatSyncState, has_message_id, rev_onto, chat_sync_state,
}

abbrev pub is_before : ℕ → ChatMessage → Bool
is_before before m = eqb before 0 || ltb m.id before

-- The newest messages before an id, the oldest of them first.
unfoldable pub chat_messages_page : ℤ → ℕ → Exec Db (List ChatMessage × Bool × ChatSyncState)
unfolding chat_sync_state rev_onto
chat_messages_page (negsuc n) limit = raise invalid_chat_input
chat_messages_page (pos before) limit =
    if ltb limit 1
    then raise invalid_chat_input
    else transaction (do
      state ← chat_sync_state
      rows ←
          statement (λ db. (ok (take (limit + 1) (select (is_before before) db.chat.messages)), db))
      pure (rev_onto (take limit rows) [], ltb limit (length rows), state))

unfoldable pub chat_messages : ℤ → ℕ → Exec Db (List ChatMessage × Bool)
unfolding chat_messages_page
chat_messages before limit = do page ← chat_messages_page before limit; pure (page.0, page.1)

abbrev pub joined_change : ChangeRow → ChatMessage → ChatChange
joined_change c m = record {
  seq = c.seq;
  message_id = c.message_id;
  kind = c.kind;
  created_at = c.created_at;
  message = m;
}

-- JOIN chat_messages m ON m.id = c.message_id
unfoldable pub join_messages : List ChatMessage → List ChangeRow → List ChatChange
join_messages messages [] = []
join_messages messages (c ∷ cs) =
    let rest = join_messages messages cs in
    elim (first (has_message_id c.message_id) messages) [
      | none ↦ rest
      | some m ↦ joined_change c m ∷ rest
    ]

-- The rest of a page after the change of a number.
unfoldable pub follows_on : ℕ → List ChatChange → Bool
follows_on seq [] = true
follows_on seq (c ∷ cs) = eqb c.seq (suc seq) && follows_on c.seq cs

unfoldable pub last_seq : ℕ → List ChatChange → ℕ
last_seq seq [] = seq
last_seq seq (c ∷ cs) = last_seq c.seq cs

unfoldable pub chat_changes_are_continuous : List ChatChange → ℕ → ℕ → ℕ → Bool
unfolding follows_on last_seq
chat_changes_are_continuous changes after latest limit =
    if eqb after latest
    then eqb (length changes) 0
    else not (eqb (length changes) 0)
      && (follows_on after changes
          && (ltb limit (length changes) || eqb (last_seq after changes) latest))

abbrev pub is_after : ℕ → ChangeRow → Bool
is_after after c = ltb after c.seq

abbrev pub changes_after : ℕ → ℕ → ChatTables → List ChatChange
changes_after after limit t =
    take (limit + 1) (join_messages t.messages (rev_onto (select (is_after after) t.changes) []))

abbrev pub needs_reset : ℕ → ℕ → ChatSyncState → Bool
needs_reset after generation state =
    not (eqb generation state.generation) || ltb state.latest_change_seq after

unfoldable pub changes_page :
    ℕ → ℕ → ChatSyncState → List ChatChange → Exec Db (List ChatChange × Bool × ChatSyncState)
unfolding chat_changes_are_continuous
changes_page after limit state rows =
    if chat_changes_are_continuous rows after state.latest_change_seq limit
    then pure (take limit rows, ltb limit (length rows), state)
    else raise (chat_cursor_reset_required state.generation state.latest_change_seq)

-- The part of ChatChangesPage after the reading of the state.
unfoldable pub load_changes :
    ℕ → ℕ → ℕ → ChatSyncState → Exec Db (List ChatChange × Bool × ChatSyncState)
unfolding changes_page join_messages rev_onto
load_changes after generation limit state =
    if needs_reset after generation state
    then raise (chat_cursor_reset_required state.generation state.latest_change_seq)
    else (do
      rows ← statement (λ db. (ok (changes_after after limit db.chat), db))
      changes_page after limit state rows)

unfoldable pub chat_changes_page : ℤ → ℕ → ℕ → Exec Db (List ChatChange × Bool × ChatSyncState)
unfolding chat_sync_state load_changes
chat_changes_page (negsuc n) generation limit = raise invalid_chat_input
chat_changes_page (pos after) generation limit =
    if ltb generation 1 || ltb limit 1
    then raise invalid_chat_input
    else transaction (do state ← chat_sync_state; load_changes after generation limit state)

unfoldable pub chat_changes : ℤ → ℕ → ℕ → Exec Db (List ChatChange × Bool)
unfolding chat_changes_page
chat_changes after generation limit = do
  page ← chat_changes_page after generation limit
  pure (page.0, page.1)
