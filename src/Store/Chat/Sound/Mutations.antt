-- ===== src/Store/Chat/Sound/Mutations.antt =====
-- Creating, withdrawing and deleting a message (backend/internal/store/chat.go) keep the invariant.
use file_transit_desk.Prelude.{
  ℕ, String, ◌≡◌, refl, ◌∙◌, Bool, true, Option, eqb, first, arith, is_some, if◌then◌else◌,
}
use file_transit_desk.Store.Exec.{Result, Exec, ◌>>=◌}
use file_transit_desk.Store.Exec.Keeps.{
  Keeps, Keeps-pure, Keeps-raise, Keeps-statement, Keeps-if, Keeps-bind,
}
use file_transit_desk.Store.Exec.Triples.{
  Leads, Leads-pure, Leads-statement, Leads-if, Leads-from, Leads-bind, Keeps-Leads,
  Keeps-committed,
}
use file_transit_desk.Store.ChatRows.{ChatMessage}
use file_transit_desk.Store.Rows.{Db}
use file_transit_desk.Store.Chat.{
  ChatCreateInput, ChatMutation, has_message_id, insert_chat_change, insert_message, insert_created,
  create_chat_message,
}
use file_transit_desk.Store.Chat.Details.{Texts}
use file_transit_desk.Store.Chat.Mutations.{
  update_messages, Refusal, withdrawable, withdraw, delete, deletable, refuse_mutation,
  complete_mutation, classify_withdraw, classify_delete, withdraw_steps, delete_steps,
}
use file_transit_desk.Store.Chat.Aside.{OnChat, audit-OnChat, message-OnChat}
use file_transit_desk.Store.Chat.Sound.{
  Sound, IsBlanked, new_message-Sound, new_change-Sound, first-update_where, first-count,
  update_where-Sound,
}

module _ (g l : ℕ) where
  abbrev pub IsSound : Db → Type 0
  IsSound = OnChat (Sound g l)

  -- And the message is there.
  abbrev pub SoundWith : ℕ → Db → Type 0
  SoundWith id db = IsSound db × (is_some (first (has_message_id id) db.chat.messages) ≡ true)

  pub change-Sound :
      (id : ℕ) (kind : String) (now : ℕ)
      → Leads (SoundWith id) (insert_chat_change id kind now) (λ seq. IsSound)
  unfolding insert_chat_change
  change-Sound id kind now =
      Leads-statement _ _ (λ db h. new_change-Sound g l db.chat h.0 id kind now h.1)

  post-Sound : (i : ChatCreateInput) → Leads IsSound (insert_created i) (λ m. IsSound)
  unfolding insert_created insert_message first
  post-Sound i =
      Leads-bind {R = SoundWith} _ _
        (Leads-statement _ _ (λ db h. (new_message-Sound g l db.chat h i, ground arith)))
        (λ id.
          Leads-bind _ _ (change-Sound id "create" i.created_at) (λ seq. Leads-pure _ (λ db h. h)))

  pub create-Sound :
      (trim_space : String → String) (i : ChatCreateInput) (now : ℕ)
      → Keeps IsSound (create_chat_message trim_space i now)
  unfolding create_chat_message
  create-Sound trim_space i now = Keeps-if _ _ _ (Keeps-committed _ (post-Sound _)) (Keeps-raise _)

  -- An UPDATE that keeps ids and blanks, and the message of a row that it changes.
  pub update-Sound :
      (id : ℕ) (p : ChatMessage → Bool) (f : ChatMessage → ChatMessage)
      → ((m : ChatMessage) → (f m).id ≡ m.id)
      → ((m : ChatMessage) → IsBlanked m → IsBlanked (f m))
      → ((m : ChatMessage) → p m ≡ true → m.id ≡ id)
      → Leads IsSound (update_messages p f) (λ n db. IsSound db × (n ≡ 1 → SoundWith id db))
  unfolding update_messages
  update-Sound id p f h k q = Leads-statement _ _ (λ db s. (
    update_where-Sound g l db.chat s p f h k,
    λ n. (
      update_where-Sound g l db.chat s p f h k,
      first-update_where id p f db.chat.messages h
          ∙ first-count id p db.chat.messages q (omega (arith, n)),
    ),
  ))

module _ (g l : ℕ) (texts : Texts) where
  complete-Sound :
      (kind action role ip result : String) (id now : ℕ)
      → Leads
          (SoundWith g l id)
          (complete_mutation texts kind action role ip result id now)
          (λ r. IsSound g l)
  unfolding complete_mutation
  complete-Sound kind action role ip result id now =
      Leads-bind _ _ (change-Sound g l id kind now) (λ seq.
        Leads-bind _ _ (Keeps-Leads _ (audit-OnChat (Sound g l) texts action ip _ now)) (λ u.
          Leads-bind _ _ (Keeps-Leads _ (message-OnChat (Sound g l) id))
            (λ m. Leads-pure _ (λ db h. h))))

  refuse-Sound :
      (action role ip : String) (id : ℕ) (overlapped : Bool)
      (classify : Option ChatMessage → Refusal) (now : ℕ)
      → Keeps (IsSound g l) (refuse_mutation texts action role ip id overlapped classify now)
  unfolding refuse_mutation
  refuse-Sound action role ip id overlapped classify now =
      Keeps-bind _ _ (Keeps-statement _ (λ db h. h))
        (λ r. Keeps-bind _ _ (audit-OnChat (Sound g l) texts action ip _ now) (λ u. Keeps-pure _))

  -- The steps of a withdrawal or a deletion.
  mutate-Sound :
      (id : ℕ) (p : ChatMessage → Bool) (f : ChatMessage → ChatMessage)
      → ((m : ChatMessage) → (f m).id ≡ m.id)
      → ((m : ChatMessage) → IsBlanked m → IsBlanked (f m))
      → ((m : ChatMessage) → p m ≡ true → m.id ≡ id)
      → (done refused : Exec Db (Result ChatMutation))
      → Leads (SoundWith g l id) done (λ r. IsSound g l)
      → Keeps (IsSound g l) refused
      → Leads
          (IsSound g l)
          (update_messages p f >>= λ n. if eqb n 1 then done else refused)
          (λ r. IsSound g l)
  mutate-Sound id p f h k q done refused kd kr =
      Leads-bind _ _ (update-Sound g l id p f h k q) (λ n.
        Leads-if _ _ _ (λ e. Leads-from _ (λ db s. s.1 (ground arith)) kd)
          (λ e. Leads-from _ (λ db s. s.0) (Keeps-Leads _ kr)))

  pub withdraw-Sound :
      (julianday : ℕ → ℕ) (overlapped : Bool) (id : ℕ) (key role ip : String) (now cutoff : ℕ)
      → Leads
          (IsSound g l)
          (withdraw_steps texts julianday overlapped id key role ip now cutoff)
          (λ r. IsSound g l)
  unfolding withdraw_steps
  withdraw-Sound julianday overlapped id key role ip now cutoff =
      mutate-Sound id (withdrawable julianday id key role cutoff now) (withdraw now) (λ m. refl)
        (λ m h. h) (λ m e. ground arith) _ _ (complete-Sound _ _ role ip _ id now)
        (refuse-Sound "chat_withdraw_failed" role ip id overlapped
          (λ m. classify_withdraw m key role cutoff now) now)

  pub delete-Sound :
      (overlapped : Bool) (id : ℕ) (deleted_by ip : String) (now : ℕ)
      → Leads (IsSound g l) (delete_steps texts overlapped id deleted_by ip now) (λ r. IsSound g l)
  unfolding delete_steps
  delete-Sound overlapped id deleted_by ip now =
      mutate-Sound id (deletable id overlapped) (delete now deleted_by) (λ m. refl) (λ m h. refl)
        (λ m e. ground arith) _ _ (complete-Sound _ _ _ ip _ id now)
        (refuse-Sound "chat_delete_failed" "admin" ip id overlapped classify_delete now)
