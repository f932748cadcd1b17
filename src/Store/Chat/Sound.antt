-- ===== src/Store/Chat/Sound.antt =====
-- The invariant of the chat's tables (backend/internal/store/chat.go), and what the statements do
-- to it.
pub mod Mutations
pub mod Batches
pub mod Clearing
pub mod History
use file_transit_desk.Prelude.{
  ℕ, zero, suc, ◌+◌, ◌-◌, ◌≤◌, ◌<◌, max, String, ◌≡◌, refl, ap, sym, subst, ◌∙◌, Bool, true, false,
  not, Option, none, some, List, [], ◌∷◌, ltb, eqb, select, count, first, arith, All, is_some,
  if◌then◌else◌, Bool-cases, inl, inr,
}
use file_transit_desk.Store.ChatRows.{ChatMessage, ChangeRow, ChatTables}
use file_transit_desk.Store.Rows.{
  empty_db, update_where, delete_where, All-update_where, All-delete_where,
}
use file_transit_desk.Store.Chat.{
  ChatCreateInput, has_message_id, max_seq, new_change, created_message, new_message,
}
use file_transit_desk.Store.Chat.Clearing.{without_changes, without_messages, bumped}
use file_transit_desk.Store.Chat.Numbers.{descending, seqs, Linked}

-- A message has its text until it is deleted, and not from then on.
abbrev pub IsBlanked : ChatMessage → Type 0
IsBlanked m = is_some m.body ≡ not (is_some m.deleted_at)

-- `generation` and `latest` are those of some earlier time: while the generation is the same, all
-- changes after `latest` are there, without a gap and in order.
pub record Sound (generation latest : ℕ) (t : ChatTables) : Type 0 where
  pub later : generation ≤ t.generation
  pub behind : t.generation ≡ generation → latest ≤ t.last_change
  pub run :
      t.generation ≡ generation
      → select (ltb latest) (seqs t.changes) ≡ descending latest (t.last_change - latest)
  pub bounded : max_seq t.changes ≤ t.last_change
  pub linked : All (Linked t.messages) t.changes
  pub blanked : All IsBlanked t.messages

pub empty-Sound : Sound 1 0 empty_db.chat
unfolding empty_db max_seq select seqs descending
empty-Sound = record {
  later = omega arith;
  behind = λ e. omega arith;
  run = λ e. refl;
  bounded = omega arith;
  linked = tt;
  blanked = tt;
}

All-weaken :
    (P Q : ChangeRow → Type 0) (cs : List ChangeRow)
    → ((c : ChangeRow) → P c → Q c)
    → All P cs
    → All Q cs
All-weaken P Q [] h a = tt
All-weaken P Q (c ∷ cs) h a = (h c a.0, All-weaken P Q cs h a.1)

pub first-update_where :
    (id : ℕ) (p : ChatMessage → Bool) (f : ChatMessage → ChatMessage) (ms : List ChatMessage)
    → ((m : ChatMessage) → (f m).id ≡ m.id)
    → is_some (first (has_message_id id) (update_where p f ms))
      ≡ is_some (first (has_message_id id) ms)
unfolding first update_where
first-update_where id p f [] h = refl
first-update_where id p f (m ∷ ms) h = ground (arith, h m, first-update_where id p f ms h)

first-delete_where :
    (id : ℕ) (q : ℕ → Bool) (ms : List ChatMessage)
    → q id ≡ false
    → is_some (first (has_message_id id) (delete_where (λ m. q m.id) ms))
      ≡ is_some (first (has_message_id id) ms)
unfolding first delete_where
first-delete_where id q [] h = refl
first-delete_where id q (m ∷ ms) h = elim (Bool-cases (eqb m.id id)) [
  | inl e ↦
      let same : m.id ≡ id = ground arith in let kept : q m.id ≡ false = cc in ground (arith, kept)
  | inr e ↦ ground (arith, first-delete_where id q ms h)
]

max_seq-delete_where :
    (p : ChangeRow → Bool) (cs : List ChangeRow) → max_seq (delete_where p cs) ≤ max_seq cs
unfolding max_seq delete_where
max_seq-delete_where p [] = omega arith
max_seq-delete_where p (c ∷ cs) = ground (arith, max_seq-delete_where p cs)

pub select-bounded : (n : ℕ) (cs : List ChangeRow) → max_seq cs ≤ n → select (ltb n) (seqs cs) ≡ []
unfolding max_seq select seqs
select-bounded n [] h = refl
select-bounded n (c ∷ cs) h = ground (arith, select-bounded n cs (omega arith))

-- A row that only a message of this id meets.
pub first-count :
    (id : ℕ) (p : ChatMessage → Bool) (ms : List ChatMessage)
    → ((m : ChatMessage) → p m ≡ true → m.id ≡ id)
    → 1 ≤ count p ms
    → is_some (first (has_message_id id) ms) ≡ true
unfolding first count
first-count id p [] h k = absurd (omega (arith, k))
first-count id p (m ∷ ms) h k = elim (Bool-cases (p m)) [
  | inl e ↦ let same : m.id ≡ id = h m e in ground arith
  | inr e ↦ let rest : 1 ≤ count p ms = ground arith in ground (arith, first-count id p ms h rest)
]

module _ (g l : ℕ) (t : ChatTables) (s : Sound g l t) where
  pub new_message-Sound : (i : ChatCreateInput) → Sound g l (new_message i t)
  unfolding first
  new_message-Sound i = record {
    later = s.later;
    behind = s.behind;
    run = s.run;
    bounded = s.bounded;
    linked = All-weaken _ _ t.changes (λ c h. ground (arith, h)) s.linked;
    blanked = (refl, s.blanked);
  }

  pub new_change-Sound :
      (id : ℕ) (kind : String) (now : ℕ)
      → is_some (first (has_message_id id) t.messages) ≡ true
      → Sound g l (new_change id kind now t)
  unfolding select seqs descending max_seq
  new_change-Sound id kind now h = record {
    later = s.later;
    behind = λ e. omega (arith, s.behind e);
    run = λ e.
        let k : suc t.last_change - l ≡ suc (t.last_change - l) = omega (arith, s.behind e) in
        rw k (ground (arith, s.behind e, s.run e));
    bounded = omega (arith, s.bounded);
    linked = (h, s.linked);
    blanked = s.blanked;
  }

  pub update_where-Sound :
      (p : ChatMessage → Bool) (f : ChatMessage → ChatMessage)
      → ((m : ChatMessage) → (f m).id ≡ m.id)
      → ((m : ChatMessage) → IsBlanked m → IsBlanked (f m))
      → Sound g l (record t { messages = update_where p f t.messages })
  update_where-Sound p f h k = record {
    later = s.later;
    behind = s.behind;
    run = s.run;
    bounded = s.bounded;
    linked =
        All-weaken _ _ t.changes (λ c a. first-update_where c.message_id p f t.messages h ∙ a)
          s.linked;
    blanked = All-update_where _ p f t.messages (λ m e a. k m a) s.blanked;
  }

-- The messages whose ids pass a test, with their changes, are gone.
abbrev pub purge : (ℕ → Bool) → ChatTables → ChatTables
purge q t = without_messages (λ m. q m.id) (without_changes (λ c. q c.message_id) t)

Linked-purge :
    (q : ℕ → Bool) (ms : List ChatMessage) (cs : List ChangeRow)
    → All (Linked ms) cs
    → All (Linked (delete_where (λ m. q m.id) ms)) (delete_where (λ c. q c.message_id) cs)
unfolding delete_where
Linked-purge q ms [] h = tt
Linked-purge q ms (c ∷ cs) h = elim (Bool-cases (q c.message_id)) [
  | inl e ↦ rw e (Linked-purge q ms cs h.1)
  | inr e ↦ rw e (first-delete_where c.message_id q ms e ∙ h.0, Linked-purge q ms cs h.1)
]

count-first :
    (q : ℕ → Bool) (id : ℕ) (ms : List ChatMessage)
    → is_some (first (has_message_id id) ms) ≡ true
    → q id ≡ true
    → 1 ≤ count (λ m. q m.id) ms
unfolding first count
count-first q id [] h k = cc
count-first q id (m ∷ ms) h k = elim (Bool-cases (eqb m.id id)) [
  | inl e ↦
      let same : m.id ≡ id = ground arith in let met : q m.id ≡ true = cc in ground (arith, met)
  | inr e ↦
      let found : is_some (first (has_message_id id) ms) ≡ true = ground arith in
      ground (arith, count-first q id ms found k)
]

delete_where-none :
    {A : Type 0} (p : A → Bool) (xs : List A) → count p xs ≡ 0 → delete_where p xs ≡ xs
unfolding count delete_where
delete_where-none p [] h = refl
delete_where-none p (x ∷ xs) h = elim (Bool-cases (p x)) [
  | inl e ↦ ground arith
  | inr e ↦ ground (arith, delete_where-none p xs)
]

changes-none :
    (q : ℕ → Bool) (ms : List ChatMessage) (cs : List ChangeRow)
    → All (Linked ms) cs
    → count (λ m. q m.id) ms ≡ 0
    → delete_where (λ c. q c.message_id) cs ≡ cs
unfolding delete_where
changes-none q ms [] h k = refl
changes-none q ms (c ∷ cs) h k = elim (Bool-cases (q c.message_id)) [
  | inl e ↦ absurd (omega (arith, count-first q c.message_id ms h.0 e, k))
  | inr e ↦ rw e (ap (λ l. c ∷ l) (changes-none q ms cs h.1 k))
]

module _ (g l : ℕ) (t : ChatTables) (s : Sound g l t) (q : ℕ → Bool) where
  pub bumped-purge-Sound : Sound g l (bumped (purge q t))
  bumped-purge-Sound = record {
    later = omega (arith, s.later);
    behind = λ e. omega (arith, s.later, e);
    run = λ e. absurd (omega (arith, s.later, e));
    bounded = omega (arith, s.bounded, max_seq-delete_where (λ c. q c.message_id) t.changes);
    linked = Linked-purge q t.messages t.changes s.linked;
    blanked = All-delete_where _ (λ m. q m.id) t.messages s.blanked;
  }

  -- A deletion of no message deletes no change.
  pub purge-Sound : count (λ m. q m.id) t.messages ≡ 0 → Sound g l (purge q t)
  purge-Sound h = subst (Sound g l) (sym same) s
    where
      same : purge q t ≡ t
      same i = record t {
        messages = delete_where-none (λ m. q m.id) t.messages h i;
        changes = changes-none q t.messages t.changes s.linked h i;
      }
