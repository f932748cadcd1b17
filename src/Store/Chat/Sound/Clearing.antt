-- ===== src/Store/Chat/Sound/Clearing.antt =====
-- Clearing the chat, and its clean-up (backend/internal/store/chat.go), keep the invariant.
use file_transit_desk.Prelude.{
  ℕ, String, ◌≡◌, refl, sym, subst, ◌∙◌, Bool, true, false, ◌&&◌, ◌||◌, ltb, eqb, count, arith,
}
use file_transit_desk.Store.Exec.{pure, raise, chat_sync_metadata_missing, chat_row_count_changed}
use file_transit_desk.Store.Exec.Keeps.{Keeps, Keeps-pure, Keeps-bind}
use file_transit_desk.Store.Exec.Triples.{
  Leads, Leads-pure, Leads-raise, Leads-statement, Leads-if, Leads-bind, Keeps-Leads,
}
use file_transit_desk.Store.ChatRows.{ChatTables}
use file_transit_desk.Store.Rows.{Db}
use file_transit_desk.Store.Chat.{ChatSyncState, chat_sync_state}
use file_transit_desk.Store.Chat.Details.{Texts}
use file_transit_desk.Store.Chat.Clearing.{
  without_changes, delete_changes, delete_messages, bumped, next_generation, bump_if, refuse_clear,
  finish_clear, clear_rows, clear_steps, has_message, expired_messages, cleanup_steps,
}
use file_transit_desk.Store.Chat.Aside.{audit-OnChat}
use file_transit_desk.Store.Chat.Sound.{Sound, purge, purge-Sound, bumped-purge-Sound}
use file_transit_desk.Store.Chat.Sound.Mutations.{IsSound}

-- The deletion of the messages of a test, in between: of their changes alone, and then of `n`
-- messages too.
module _ (g l : ℕ) (q : ChatTables → ℕ → Bool) where
  record Begun (db : Db) : Type 0 where
    before : ChatTables
    sound : Sound g l before
    test : q db.chat ≡ q before
    tables : db.chat ≡ without_changes (λ c. q before c.message_id) before

  record Purged (n : ℕ) (db : Db) : Type 0 where
    before : ChatTables
    sound : Sound g l before
    number : n ≡ count (λ m. q before m.id) before.messages
    tables : db.chat ≡ purge (q before) before

  begin-Leads :
      ((t : ChatTables) → q (without_changes (λ c. q t c.message_id) t) ≡ q t)
      → Leads (IsSound g l) (delete_changes (λ t c. q t c.message_id)) (λ n. Begun)
  unfolding delete_changes
  begin-Leads same =
      Leads-statement _ _
        (λ db h. record { before = db.chat; sound = h; test = same db.chat; tables = refl })

  purge-Leads : Leads Begun (delete_messages (λ t m. q t m.id)) Purged
  unfolding delete_messages
  purge-Leads = Leads-statement _ _ (λ db b. record {
    before = b.before;
    sound = b.sound;
    number = rw (b.test, b.tables) refl;
    tables = rw (b.test, b.tables) refl;
  })

  bump-Leads :
      (n : ℕ) (b : Bool) → (b ≡ false → n ≡ 0) → Leads (Purged n) (bump_if b) (λ u. IsSound g l)
  unfolding bump_if next_generation
  bump-Leads n b h =
      Leads-if _ _ _
        (λ e.
          Leads-bind {R = λ k. IsSound g l} _ _
            (Leads-statement _ _ (λ db p.
              subst (λ t. Sound g l (bumped t)) (sym p.tables)
                (bumped-purge-Sound g l p.before p.sound (q p.before))))
            (λ k.
              Leads-if (eqb k 1) (pure tt) (raise chat_sync_metadata_missing)
                (λ x. Leads-pure _ (λ db s. s)) (λ x. Leads-raise _)))
        (λ e. Leads-pure _ (λ db p.
          subst (Sound g l) (sym p.tables)
            (purge-Sound g l p.before p.sound (q p.before) (sym p.number ∙ h e))))

module _ (g l : ℕ) where
  pub cleanup-Sound :
      (earlier : ℕ → ℕ → Bool) (julianday : ℕ → ℕ) (cutoff max_messages batch : ℕ)
      → Leads
          (IsSound g l)
          (cleanup_steps earlier julianday cutoff max_messages batch)
          (λ r. IsSound g l)
  unfolding cleanup_steps
  cleanup-Sound earlier julianday cutoff max_messages batch =
      let q : ChatTables → ℕ → Bool = λ t id.
        has_message earlier
          (expired_messages earlier julianday cutoff max_messages batch t.messages) id in
      Leads-bind _ _ (begin-Leads g l q (λ t. refl)) (λ k. Leads-bind _ _ (purge-Leads g l q) (λ n.
        Leads-bind _ _ (bump-Leads g l q n (ltb 0 n) (λ e. ground arith))
          (λ u. Leads-pure _ (λ db h. h))))

  module _ (texts : Texts) where
    finish-Leads :
        (state : ChatSyncState) (changes cleared : ℕ) (ip : String) (now : ℕ)
        → Leads
            (Purged g l (λ t id. true) cleared)
            (finish_clear texts state changes cleared ip now)
            (λ r. IsSound g l)
    unfolding finish_clear
    finish-Leads state changes cleared ip now =
        Leads-bind _ _
          (bump-Leads g l (λ t id. true) cleared (ltb 0 cleared || ltb 0 changes)
            (λ e. ground arith))
          (λ u.
            Leads-bind _ _ (Keeps-Leads _ (audit-OnChat (Sound g l) texts _ ip _ now))
              (λ v. Leads-pure _ (λ db h. h)))

    rows-Leads :
        (state : ChatSyncState) (ip : String) (now : ℕ)
        → Leads (IsSound g l) (clear_rows texts state ip now) (λ r. IsSound g l)
    unfolding clear_rows
    rows-Leads state ip now = Leads-bind _ _ (Leads-statement _ _ (λ db h. h)) (λ messages.
        Leads-bind _ _ (Leads-statement _ _ (λ db h. h)) (λ changes.
          Leads-bind _ _ (begin-Leads g l (λ t id. true) (λ t. refl)) (λ c.
            Leads-bind _ _ (purge-Leads g l (λ t id. true)) (λ m.
              Leads-if (eqb m messages && eqb c changes) _ (raise chat_row_count_changed)
                (λ e. finish-Leads state c m ip now) (λ e. Leads-raise _)))))

    refuse-Keeps :
        (state : ChatSyncState) (ip : String) (now : ℕ)
        → Keeps (IsSound g l) (refuse_clear texts state ip now)
    unfolding refuse_clear
    refuse-Keeps state ip now =
        Keeps-bind _ _ (audit-OnChat (Sound g l) texts _ ip _ now) (λ u. Keeps-pure _)

    pub clear-Sound :
        (generation latest : ℕ) (ip : String) (now : ℕ)
        → Leads (IsSound g l) (clear_steps texts generation latest ip now) (λ r. IsSound g l)
    unfolding clear_steps chat_sync_state
    clear-Sound generation latest ip now =
        Leads-bind _ _ (Leads-statement _ _ (λ db h. h)) (λ state.
          Leads-if _ _ _ (λ e. rows-Leads state ip now)
            (λ e. Keeps-Leads _ (refuse-Keeps state ip now)))
