-- ===== src/Store/Chat/Cursor.antt =====
-- What a cursor of the chat's changes is good for (backend/internal/store/chat.go).
use file_transit_desk.Prelude.{
  ℕ, ◌+◌, ◌-◌, ◌≤◌, min, ◌≡◌, refl, ap, sym, subst, ◌∙◌, Bool, true, false, ◌||◌, List, [], ltb,
  select, length, take, arith, All, All-select,
}
use file_transit_desk.Store.Exec.{Result, ok, pure, statement, transaction, ◌>>=◌}
use file_transit_desk.Store.ChatRows.{ChangeRow, ChatTables}
use file_transit_desk.Store.Rows.{Db, empty_db, pos}
use file_transit_desk.Store.Audit.{AuditPolicy}
use file_transit_desk.Store.Chat.{
  ChatChange, ChatSyncState, sync_state_of, rev_onto, chat_sync_state,
}
use file_transit_desk.Store.Chat.Pages.{
  join_messages, chat_changes_are_continuous, is_after, changes_after, needs_reset, changes_page,
  load_changes, chat_changes_page,
}
use file_transit_desk.Store.Chat.Numbers.{
  descending, ascending, seqs, page_seqs, select-descending, select-select, seqs-select,
  seqs-rev_onto, rev_onto-descending, take-ascending, page_seqs-take, length-page_seqs,
  length-ascending, follows_on-ascending, last_seq-ascending, Linked, page_seqs-join_messages,
  All-rev_onto,
}
use file_transit_desk.Store.Chat.Calls.{ChatCall, ChatLibrary, ChatStore, chat_run}
use file_transit_desk.Store.Chat.Sound.{Sound, IsBlanked, empty-Sound, select-bounded}
use file_transit_desk.Store.Chat.Sound.History.{run-Sound}

-- The number of the last change, in a database that satisfies the invariant.
module _ (g l : ℕ) (t : ChatTables) (s : Sound g l t) where
  latest-Sound : (sync_state_of t).latest_change_seq ≡ t.last_change
  latest-Sound = omega (arith, s.bounded)

  -- The cursor that is read now.
  read-Sound : Sound t.generation t.last_change t
  unfolding descending
  read-Sound = record {
    later = omega arith;
    behind = λ e. omega arith;
    run = λ e.
        let z : t.last_change - t.last_change ≡ 0 = omega arith in
        rw z (select-bounded t.last_change t.changes s.bounded);
    bounded = s.bounded;
    linked = s.linked;
    blanked = s.blanked;
  }

  -- The numbers of the rows that are read for a page.
  seqs-Sound :
      (after : ℕ)
      → t.generation ≡ g
      → l ≤ after
      → after ≤ t.last_change
      → select (ltb after) (seqs t.changes) ≡ descending after (t.last_change - after)
  seqs-Sound after e h k =
      let parts : t.last_change - l ≡ (after - l) + (t.last_change - after) = omega arith in
      let start : after ≡ l + (after - l) = omega arith in
      sym (select-select l after (seqs t.changes) h)
      ∙ ap (select (ltb after)) (s.run e ∙ ap (descending l) parts)
      ∙ subst
          (λ n.
            select (ltb n) (descending l ((after - l) + (t.last_change - after)))
            ≡ descending n (t.last_change - after))
          (sym start) (select-descending l (after - l) (t.last_change - after))

  rows-Sound :
      (after limit : ℕ)
      → t.generation ≡ g
      → l ≤ after
      → after ≤ t.last_change
      → page_seqs (changes_after after limit t)
        ≡ ascending after (min (limit + 1) (t.last_change - after))
  unfolding ascending seqs
  rows-Sound after limit e h k =
      let rows : List ChangeRow = select (is_after after) t.changes in
      page_seqs-take (limit + 1) (join_messages t.messages (rev_onto rows []))
      ∙ ap (take (limit + 1)) (
          page_seqs-join_messages t.messages (rev_onto rows []) (
            All-rev_onto (Linked t.messages) rows []
              (All-select (Linked t.messages) (is_after after) t.changes s.linked) tt)
          ∙ seqs-rev_onto rows []
          ∙ ap (λ ns. rev_onto ns []) (seqs-select after t.changes ∙ seqs-Sound after e h k)
          ∙ rev_onto-descending after (t.last_change - after) 0
          ∙ ap (ascending after) (omega arith))
      ∙ take-ascending (limit + 1) after (t.last_change - after)

-- A run from `after` on that is long enough passes the check of the rows.
run_continuous :
    (rows : List ChatChange) (after latest limit : ℕ)
    → page_seqs rows ≡ ascending after (min (limit + 1) (latest - after))
    → after ≤ latest
    → chat_changes_are_continuous rows after latest limit ≡ true
unfolding chat_changes_are_continuous
run_continuous rows after latest limit h k =
    let n : ℕ = min (limit + 1) (latest - after) in
    let size : length rows ≡ n =
      sym (length-page_seqs rows) ∙ ap length h ∙ length-ascending after n in
    ground (arith, size, follows_on-ascending rows after n h, last_seq-ascending rows after n h, k)

-- The changes after a number, `limit` of them at most, and whether there are more.
pub record IsPage (after limit : ℕ) (t : ChatTables)
    (r : Result (List ChatChange × Bool × ChatSyncState)) : Type 0 where
  pub page : List ChatChange
  pub more : Bool
  pub returned : r ≡ ok (page, more, sync_state_of t)
  pub numbers :
      page_seqs page ≡ ascending after (min limit ((sync_state_of t).latest_change_seq - after))
  pub rest : more ≡ ltb limit ((sync_state_of t).latest_change_seq - after)

module _ (db : Db) (g l : ℕ) (s : Sound g l db.chat) where
  answered-IsPage :
      (after limit : ℕ)
      → 1 ≤ g
      → 1 ≤ limit
      → db.chat.generation ≡ g
      → l ≤ after
      → after ≤ (sync_state_of db.chat).latest_change_seq
      → IsPage after limit db.chat
          (chat_changes_page (pos after) g limit (record { db = db; faults = [] })).0
  unfolding chat_changes_page chat_sync_state load_changes changes_page transaction statement pure
      ◌>>=◌
  answered-IsPage after limit g0 l0 e h k =
      let latest = (sync_state_of db.chat).latest_change_seq in
      let rows = changes_after after limit db.chat in
      let top : latest ≡ db.chat.last_change = latest-Sound g l db.chat s in
      let run : page_seqs rows ≡ ascending after (min (limit + 1) (latest - after)) =
        rows-Sound g l db.chat s after limit e h (omega (arith, top, k))
        ∙ ap (λ n. ascending after (min (limit + 1) (n - after))) (sym top) in
      let size : length rows ≡ min (limit + 1) (latest - after) =
        sym (length-page_seqs rows) ∙ ap length run ∙ length-ascending after _ in
      let a : (ltb g 1 || ltb limit 1) ≡ false = ground (arith, g0, l0) in
      let b : needs_reset after g (sync_state_of db.chat) ≡ false = ground (arith, e, k) in
      let c : chat_changes_are_continuous rows after latest limit ≡ true =
        run_continuous rows after latest limit run k in
      record {
        page = take limit rows;
        more = ltb limit (length rows);
        returned = rw (a, b, c) refl;
        numbers =
            page_seqs-take limit rows
            ∙ ap (take limit) run
            ∙ take-ascending limit after _
            ∙ ap (ascending after) (omega arith);
        rest = ground (arith, size);
      }

module _ (lib : ChatLibrary) (faults : List Bool) (p : AuditPolicy) where
  -- A history that starts with an empty database.
  abbrev pub from_empty : List ChatCall → ChatStore
  from_empty = chat_run lib (record { db = empty_db; faults = faults }, p)

  start-Sound : (cs : List ChatCall) → Sound 1 0 (from_empty cs).0.db.chat
  start-Sound cs = run-Sound 1 0 lib _ cs empty-Sound

  -- A cursor of the chat's changes that is read at any time, in a history from an empty database
  -- with any of the driver's calls failing, is good until the generation changes: as long as it is
  -- the same, a page from that number or a later one, if it meets no failure, has exactly the
  -- changes that follow it, without a gap and in order, up to the limit, and tells whether there are
  -- more.
  pub chat_cursor_complete :
      (cs ds : List ChatCall) (after limit : ℕ)
      → (chat_run lib (from_empty cs) ds).0.db.chat.generation
        ≡ (from_empty cs).0.db.chat.generation
      → (sync_state_of (from_empty cs).0.db.chat).latest_change_seq ≤ after
      → after ≤ (sync_state_of (chat_run lib (from_empty cs) ds).0.db.chat).latest_change_seq
      → 1 ≤ limit
      → IsPage after limit
          (chat_run lib (from_empty cs) ds).0.db.chat
          (chat_changes_page
            (pos after)
            (from_empty cs).0.db.chat.generation
            limit
            (record { db = (chat_run lib (from_empty cs) ds).0.db; faults = [] })).0
  chat_cursor_complete cs ds after limit e h k l0 =
      let s = from_empty cs in
      let t : ChatTables = s.0.db.chat in
      let start = start-Sound cs in
      let now : Sound t.generation t.last_change (chat_run lib s ds).0.db.chat =
        run-Sound t.generation t.last_change lib s ds (read-Sound 1 0 t start) in
      let top : (sync_state_of t).latest_change_seq ≡ t.last_change = latest-Sound 1 0 t start in
      answered-IsPage (chat_run lib s ds).0.db t.generation t.last_change now after limit
        start.later l0 e (subst (λ n. n ≤ after) top h) k

  -- After any calls on the chat of an empty database, with any of the driver's calls failing, a
  -- message that is still stored has its text exactly as long as it is not deleted.
  pub chat_text_until_deleted :
      (cs : List ChatCall) → All IsBlanked (from_empty cs).0.db.chat.messages
  chat_text_until_deleted cs = (start-Sound cs).blanked
