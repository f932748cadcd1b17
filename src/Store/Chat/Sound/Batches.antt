-- ===== src/Store/Chat/Sound/Batches.antt =====
-- Deleting several messages at once (backend/internal/store/chat.go) keeps the invariant.
use file_transit_desk.Prelude.{ℕ, String, refl, Option, none, some, List, [], ◌∷◌, eqb, arith}
use file_transit_desk.Store.Exec.{Exec}
use file_transit_desk.Store.Exec.Keeps.{Keeps, Keeps-pure, Keeps-statement, Keeps-bind}
use file_transit_desk.Store.Exec.Triples.{
  Leads, Leads-pure, Leads-raise, Leads-if, Leads-from, Leads-bind, Keeps-Leads,
}
use file_transit_desk.Store.ChatRows.{ChatTables}
use file_transit_desk.Store.Rows.{Db}
use file_transit_desk.Store.Chat.Details.{Texts}
use file_transit_desk.Store.Chat.Mutations.{delete}
use file_transit_desk.Store.Chat.Batches.{
  or_next, find_conflict, undeleted, delete_rows, refuse_batch, decide_batch, batch_steps,
}
use file_transit_desk.Store.Chat.Aside.{OnChat, audit-OnChat, message-OnChat}
use file_transit_desk.Store.Chat.Sound.{Sound}
use file_transit_desk.Store.Chat.Sound.Mutations.{IsSound, change-Sound, update-Sound}

-- The search for a conflict, and the entry of a refusal, change nothing of the chat.
module _ (P : ChatTables → Type 0) where
  or_next-OnChat :
      (id : ℕ) (o : Option String) (m : Exec Db (Option (ℕ × String)))
      → Keeps (OnChat P) m
      → Keeps (OnChat P) (or_next id o m)
  or_next-OnChat id none m k = k
  or_next-OnChat id (some reason) m k = Keeps-pure _

  pub find_conflict-OnChat : (ids : List ℕ) → Keeps (OnChat P) (find_conflict ids)
  unfolding find_conflict
  find_conflict-OnChat [] = Keeps-pure _
  find_conflict-OnChat (id ∷ ids) =
      Keeps-bind _ _ (Keeps-statement _ (λ db h. h))
        (λ reason. or_next-OnChat id reason _ (find_conflict-OnChat ids))

  pub refuse_batch-OnChat :
      (texts : Texts) (size id : ℕ) (reason ip : String) (now : ℕ)
      → Keeps (OnChat P) (refuse_batch texts size id reason ip now)
  unfolding refuse_batch
  refuse_batch-OnChat texts size id reason ip now =
      Keeps-bind _ _ (audit-OnChat P texts _ ip _ now) (λ u. Keeps-pure _)

module _ (g l : ℕ) where
  rows-Sound :
      (deleted_by : String) (now : ℕ) (ids : List ℕ)
      → Leads (IsSound g l) (delete_rows deleted_by now ids) (λ r. IsSound g l)
  unfolding delete_rows
  rows-Sound deleted_by now [] = Leads-pure _ (λ db h. h)
  rows-Sound deleted_by now (id ∷ ids) =
      let rest = rows-Sound deleted_by now ids in
      Leads-bind _ _
        (update-Sound g l id (undeleted id) (delete now deleted_by) (λ m. refl) (λ m h. refl)
          (λ m e. ground arith))
        (λ n.
          Leads-if (eqb n 1) _ _
            (λ e.
              Leads-from _ (λ db s. s.1 (ground arith))
                (Leads-bind _ _ (change-Sound g l id "delete" now) (λ seq.
                  Leads-bind _ _ (Keeps-Leads _ (message-OnChat (Sound g l) id))
                    (λ m. Leads-bind _ _ rest (λ ms. Leads-pure _ (λ db h. h))))))
            (λ e. Leads-raise _))

  decide-Sound :
      (texts : Texts) (ids : List ℕ) (deleted_by ip : String) (now : ℕ) (o : Option (ℕ × String))
      → Leads (IsSound g l) (decide_batch texts ids deleted_by ip now o) (λ r. IsSound g l)
  unfolding decide_batch
  decide-Sound texts ids deleted_by ip now (some (id, reason)) =
      Keeps-Leads _ (refuse_batch-OnChat (Sound g l) texts _ id reason ip now)
  decide-Sound texts ids deleted_by ip now none =
      Leads-bind _ _ (rows-Sound deleted_by now ids) (λ ms.
        Leads-bind _ _ (Keeps-Leads _ (audit-OnChat (Sound g l) texts _ ip _ now))
          (λ u. Leads-pure _ (λ db h. h)))

  pub batch-Sound :
      (texts : Texts) (ids : List ℕ) (deleted_by ip : String) (now : ℕ)
      → Leads (IsSound g l) (batch_steps texts ids deleted_by ip now) (λ r. IsSound g l)
  unfolding batch_steps
  batch-Sound texts ids deleted_by ip now =
      Leads-bind _ _ (Keeps-Leads _ (find_conflict-OnChat (Sound g l) ids))
        (decide-Sound texts ids deleted_by ip now)
