-- ===== src/Store/Chat/Retention.antt =====
-- What one batch of the chat's clean-up leaves (backend/internal/store/chat.go).
pub mod Lists
use file_transit_desk.Prelude.{
  ℕ, zero, suc, count-le-length, length-take, ◌+◌, ◌-◌, ◌*◌, ◌≤◌, ◌<◌, ◌≡◌, refl, ap, sym, subst,
  ◌∙◌, Bool, true, false, not, ◌&&◌, ◌||◌, List, [], ◌∷◌, ltb, eqb, select, count, length, take,
  drop, first, arith, All, Bool-cases, inl, inr, if◌then◌else◌, is_some,
}
use file_transit_desk.Store.Exec.{
  Result, ok, err, World, Exec, pure, raise, statement, transaction, ◌>>=◌,
  chat_sync_metadata_missing,
}
use file_transit_desk.Store.Exec.Triples.{
  Leads, Leads-pure, Leads-raise, Leads-statement, Leads-if, Leads-bind,
}
use file_transit_desk.Store.ChatRows.{ChatMessage, ChatTables}
use file_transit_desk.Store.Rows.{Db, delete_where, All-delete_where}
use file_transit_desk.Store.Chat.{rev_onto}
use file_transit_desk.Store.Chat.Clearing.{
  without_messages, has_message, comes_first, insert_by_age, by_age, expired_messages,
  delete_changes, delete_messages, next_generation, bump_if, cleanup_steps, cleanup_chat, day,
}
use file_transit_desk.Store.Chat.Retention.Lists.{
  count-rev_onto, count-take-drop, count-select-le, count-All, count-none, length-delete_where,
  length-delete_where_count, take-short, All-select_then, All-rev, All-drop, All-imply,
}

module _ (earlier : ℕ → ℕ → Bool) where
  count-insert_by_age :
      (p : ChatMessage → Bool) (m : ChatMessage) (ms : List ChatMessage)
      → count p (insert_by_age earlier m ms) ≡ count p (m ∷ ms)
  unfolding insert_by_age count
  count-insert_by_age p m [] = refl
  count-insert_by_age p m (n ∷ ns) = ground (arith, count-insert_by_age p m ns)

  count-by_age :
      (p : ChatMessage → Bool) (ms : List ChatMessage) → count p (by_age earlier ms) ≡ count p ms
  unfolding by_age count
  count-by_age p [] = refl
  count-by_age p (m ∷ ms) =
      ground (arith, count-insert_by_age p m (by_age earlier ms), count-by_age p ms)

  has-first :
      (l : List ChatMessage) (m : ChatMessage) (id : ℕ)
      → has_message earlier l id ≡ true
      → has_message earlier (m ∷ l) id ≡ true
  unfolding first
  has-first l m id h = ground (arith, h)

  All-has : (l : List ChatMessage) → All (λ m. has_message earlier l m.id ≡ true) l
  unfolding first
  All-has [] = tt
  All-has (m ∷ l) = (
    ground arith,
    All-imply (λ n. has_message earlier l n.id ≡ true)
        (λ n. has_message earlier (m ∷ l) n.id ≡ true) l (everywhere l) (All-has l),
  )
    where
      everywhere :
          (k : List ChatMessage)
          → All (λ n. has_message earlier l n.id ≡ true → has_message earlier (m ∷ l) n.id ≡ true) k
      everywhere [] = tt
      everywhere (n ∷ k) = (has-first l m n.id, everywhere k)

  All-insert_by_age :
      (P : ChatMessage → Type 0) (m : ChatMessage) (ms : List ChatMessage)
      → All P (insert_by_age earlier m ms)
      → All P (m ∷ ms)
  unfolding insert_by_age
  All-insert_by_age P m [] h = h
  All-insert_by_age P m (n ∷ ns) h = elim (Bool-cases (comes_first earlier m n)) [
    | inl e ↦ subst (λ b. All P (if b then m ∷ n ∷ ns else n ∷ insert_by_age earlier m ns)) e h
    | inr e ↦
        let k : All P (n ∷ insert_by_age earlier m ns) =
          subst (λ b. All P (if b then m ∷ n ∷ ns else n ∷ insert_by_age earlier m ns)) e h in
        let r = All-insert_by_age P m ns k.1 in (r.0, (k.0, r.1))
  ]

  All-by_age :
      (P : ChatMessage → Type 0) (ms : List ChatMessage) → All P (by_age earlier ms) → All P ms
  unfolding by_age
  All-by_age P [] h = tt
  All-by_age P (m ∷ ms) h =
      let k = All-insert_by_age P m (by_age earlier ms) h in (k.0, All-by_age P ms k.1)

  -- The messages that the retention does not want, if `surplus` come after the newest ones.
  abbrev is_expired : (ℕ → ℕ) → ℕ → List ChatMessage → ChatMessage → Bool
  is_expired julianday cutoff surplus m =
      ltb (julianday m.created_at) (julianday cutoff) || has_message earlier surplus m.id

  module _ (julianday : ℕ → ℕ) (cutoff max_messages batch : ℕ) (ms : List ChatMessage) where
    abbrev sorted : List ChatMessage
    sorted = by_age earlier ms

    abbrev surplus : List ChatMessage
    surplus = drop max_messages (rev_onto sorted [])

    abbrev unwanted : List ChatMessage
    unwanted = select (is_expired julianday cutoff surplus) sorted

    abbrev goes : ChatMessage → Bool
    goes m = has_message earlier (take batch unwanted) m.id

    -- At least as many messages are deleted as are selected.
    selected-le : length (take batch unwanted) ≤ count goes ms
    selected-le =
        let a = count-All goes (take batch unwanted) (All-has (take batch unwanted)) in
        let b = count-take-drop goes batch unwanted in
        let c = count-select-le goes (is_expired julianday cutoff surplus) sorted in
        let d = count-by_age goes ms in omega (arith, a, b, c, d)

    -- If not all of a batch is used, nothing unwanted is left.
    unwanted-goes :
        count goes ms < batch
        → All (λ m. is_expired julianday cutoff surplus m ≡ true → goes m ≡ true) sorted
    unwanted-goes h =
        let e : take batch unwanted ≡ unwanted =
          take-short batch unwanted (omega (arith, h, selected-le)) in
        subst
          (λ l.
            All
              (λ m.
                is_expired julianday cutoff surplus m ≡ true → has_message earlier l m.id ≡ true)
              sorted)
          (sym e)
          (All-select_then (is_expired julianday cutoff surplus)
            (λ m. has_message earlier unwanted m.id) sorted (All-has unwanted))

    surplus-goes : count goes ms < batch → All (λ m. goes m ≡ true) surplus
    surplus-goes h =
        All-imply (λ m. has_message earlier surplus m.id ≡ true) (λ m. goes m ≡ true) surplus
          (weaken surplus (
            All-drop _ max_messages (rev_onto sorted [])
              (All-rev _ sorted [] (unwanted-goes h) tt)))
          (All-has surplus)
      where
        weaken :
            (l : List ChatMessage)
            → All (λ m. is_expired julianday cutoff surplus m ≡ true → goes m ≡ true) l
            → All (λ m. has_message earlier surplus m.id ≡ true → goes m ≡ true) l
        weaken [] k = tt
        weaken (m ∷ l) k = ((λ e. k.0 (ground (arith, e))), weaken l k.1)

    -- So at most the newest messages stay.
    pub left-le : count goes ms < batch → length (delete_where goes ms) ≤ max_messages
    unfolding count
    left-le h =
        let stays : ChatMessage → Bool = λ m. not (goes m) in
        let a = length-delete_where goes ms in
        let b = count-by_age stays ms in
        let c = count-rev_onto stays sorted [] in
        let d = count-take-drop stays max_messages (rev_onto sorted []) in
        let e = count-none goes surplus (surplus-goes h) in
        let f = count-le-length stays (take max_messages (rev_onto sorted [])) in
        let g = length-take max_messages (rev_onto sorted []) in omega (arith, a, b, c, d, e, f, g)

    young_unless :
        (m : ChatMessage)
        → (is_expired julianday cutoff surplus m ≡ true → goes m ≡ true)
        → goes m ≡ false
        → ltb (julianday m.created_at) (julianday cutoff) ≡ false
    young_unless m k e = elim (Bool-cases (ltb (julianday m.created_at) (julianday cutoff))) [
      | inl f ↦ let g : goes m ≡ true = k (ground (arith, f)) in cc
      | inr f ↦ f
    ]

    -- And nothing that is older than the cut-off.
    pub left_young :
        count goes ms < batch
        → All (λ m. ltb (julianday m.created_at) (julianday cutoff) ≡ false) (delete_where goes ms)
    unfolding delete_where
    left_young h = remaining ms (All-by_age _ ms (unwanted-goes h))
      where
        remaining :
            (l : List ChatMessage)
            → All (λ m. is_expired julianday cutoff surplus m ≡ true → goes m ≡ true) l
            → All
                (λ m. ltb (julianday m.created_at) (julianday cutoff) ≡ false)
                (delete_where goes l)
        remaining [] k = tt
        remaining (m ∷ l) k = elim (Bool-cases (goes m)) [
          | inl e ↦ rw e (remaining l k.1)
          | inr e ↦ rw e (young_unless m k.0 e, remaining l k.1)
        ]

-- What a clean-up is to reach.
pub record IsTrimmed (julianday : ℕ → ℕ) (cutoff max_messages : ℕ) (t : ChatTables) : Type 0 where
  pub few : length t.messages ≤ max_messages
  pub young : All (λ m. ltb (julianday m.created_at) (julianday cutoff) ≡ false) t.messages

module _ (earlier : ℕ → ℕ → Bool) (julianday : ℕ → ℕ) (cutoff max_messages batch : ℕ)
    (ms : List ChatMessage) where
  -- A batch that deletes `n` messages, all that there were to delete if it is not full.
  pub record IsBatch (n : ℕ) (db : Db) : Type 0 where
    pub size : length db.chat.messages + n ≡ length ms
    pub trimmed : n < batch → IsTrimmed julianday cutoff max_messages db.chat

module _ (earlier : ℕ → ℕ → Bool) (julianday : ℕ → ℕ) (cutoff max_messages batch : ℕ) where
  purge-IsBatch :
      (ms : List ChatMessage) (db : Db)
      → db.chat.messages ≡ ms
      → let p = λ (m : ChatMessage).
        has_message earlier
          (expired_messages earlier julianday cutoff max_messages batch db.chat.messages)
          m.id in
        IsBatch earlier julianday cutoff max_messages batch ms
          (count p db.chat.messages)
          (record db { chat = without_messages p db.chat })
  unfolding expired_messages
  purge-IsBatch ms db e = record {
    size = length-delete_where_count _ db.chat.messages ∙ ap length e;
    trimmed = λ h. record {
      few = left-le earlier julianday cutoff max_messages batch db.chat.messages h;
      young = left_young earlier julianday cutoff max_messages batch db.chat.messages h;
    };
  }

  pub cleanup-IsBatch :
      (ms : List ChatMessage)
      → Leads
          (λ db. db.chat.messages ≡ ms)
          (cleanup_steps earlier julianday cutoff max_messages batch)
          (IsBatch earlier julianday cutoff max_messages batch ms)
  unfolding cleanup_steps delete_changes delete_messages bump_if next_generation
  cleanup-IsBatch ms =
      let Batch : ℕ → Db → Type 0 = IsBatch earlier julianday cutoff max_messages batch ms in
      Leads-bind {R = λ k db. db.chat.messages ≡ ms} _ _ (Leads-statement _ _ (λ db e. e)) (λ k.
        Leads-bind {R = Batch} _ _ (Leads-statement _ _ (purge-IsBatch ms)) (λ n.
          Leads-bind {R = λ u. Batch n} _ _
            (Leads-if (ltb 0 n) _ (pure tt)
              (λ e.
                Leads-bind {R = λ k. Batch n} _ _
                  (Leads-statement _ _ (λ db b. record {
                    size = b.size;
                    trimmed = λ h. record { few = (b.trimmed h).few; young = (b.trimmed h).young };
                  }))
                  (λ k.
                    Leads-if (eqb k 1) (pure tt) (raise chat_sync_metadata_missing)
                      (λ e. Leads-pure _ (λ db b. b)) (λ e. Leads-raise _)))
              (λ e. Leads-pure _ (λ db b. b)))
            (λ u. Leads-pure _ (λ db b. b))))
