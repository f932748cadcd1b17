-- ===== src/Store/Chat/Gates/Exclusion.antt =====
-- What the gates of backend/internal/store/chat.go promise.
use file_transit_desk.Prelude.{
  is_some, ltb, ℕ, ◌≤◌, ◌≡◌, refl, sym, ◌∙◌, Bool, false, Option, none, some, List, [], ◌∷◌, eqb,
  count, arith, All,
}
use file_transit_desk.Store.Chat.Gates.{
  Gates, Caller, outside, waiting, holding, leaving, chat_mutation_count, Callers, Reachable,
}
use file_transit_desk.Store.Chat.Gates.Invariant.{
  is_at, holds, bit, Points, HasEntry, IsGuarded, Reachable-IsGuarded,
}

-- The caller is between beginChatMutation and endChatMutation of the message.
abbrev pub is_inside : ℕ → Caller → Bool
is_inside id (holding m a o) = eqb m id
is_inside id _ = false

inside-holds :
    (g : Gates) (id a : ℕ) (cs : List Caller)
    → g.chat_mutations id ≡ some a
    → All (HasEntry g) cs
    → count (is_inside id) cs ≤ count (holds a) cs
unfolding count
inside-holds g id a [] e h = omega arith
inside-holds g id a (outside ∷ cs) e h = inside-holds g id a cs e h.1
inside-holds g id a (waiting m b ∷ cs) e h = inside-holds g id a cs e h.1
inside-holds g id a (leaving m b ∷ cs) e h = inside-holds g id a cs e h.1
inside-holds g id a (holding m b o ∷ cs) e h = ground (arith, inside-holds g id a cs e h.1, h.0, e)

none-inside :
    (g : Gates) (id : ℕ) (cs : List Caller)
    → g.chat_mutations id ≡ none
    → All (HasEntry g) cs
    → count (is_inside id) cs ≡ 0
unfolding count
none-inside g id [] e h = refl
none-inside g id (outside ∷ cs) e h = none-inside g id cs e h.1
none-inside g id (waiting m b ∷ cs) e h = none-inside g id cs e h.1
none-inside g id (leaving m b ∷ cs) e h = none-inside g id cs e h.1
none-inside g id (holding m b o ∷ cs) e h = ground (arith, none-inside g id cs e h.1, h.0, e)

-- However the steps of any number of callers interleave, at most one of them is between
-- beginChatMutation and endChatMutation of a message.
pub chat_mutations_exclude :
    (s : Callers) (id : ℕ) → Reachable s → count (is_inside id) s.callers ≤ 1
chat_mutations_exclude s id r =
    let h = Reachable-IsGuarded s r in go (s.gates.chat_mutations id) refl h
  where
    go :
        (o : Option ℕ)
        → s.gates.chat_mutations id ≡ o
        → IsGuarded s.gates s.callers
        → count (is_inside id) s.callers ≤ 1
    go none e h = omega (arith, none-inside s.gates id s.callers e h.entries)
    go (some a) e h =
        let k : bit (s.gates.heap a).locked ≤ 1 = ground arith in
        omega (arith, inside-holds s.gates id a s.callers e h.entries, h.locked a, k)

-- The caller is somewhere in beginChatMutation and endChatMutation of the message, or between.
abbrev pub is_for : ℕ → Caller → Bool
is_for id outside = false
is_for id (waiting m a) = eqb m id
is_for id (holding m a o) = eqb m id
is_for id (leaving m a) = eqb m id

none-for :
    (g : Gates) (id : ℕ) (cs : List Caller)
    → g.chat_mutations id ≡ none
    → All (HasEntry g) cs
    → count (is_for id) cs ≡ 0
unfolding count
none-for g id [] e h = refl
none-for g id (outside ∷ cs) e h = none-for g id cs e h.1
none-for g id (waiting m b ∷ cs) e h = ground (arith, none-for g id cs e h.1, h.0, e)
none-for g id (leaving m b ∷ cs) e h = ground (arith, none-for g id cs e h.1, h.0, e)
none-for g id (holding m b o ∷ cs) e h = ground (arith, none-for g id cs e h.1, h.0, e)

for-at :
    (g : Gates) (id a : ℕ) (cs : List Caller)
    → g.chat_mutations id ≡ some a
    → ((m : ℕ) → Points g m a → m ≡ id)
    → All (HasEntry g) cs
    → count (is_at a) cs ≡ count (is_for id) cs
unfolding count
for-at g id a [] e k h = refl
for-at g id a (outside ∷ cs) e k h = for-at g id a cs e k h.1
for-at g id a (waiting m b ∷ cs) e k h = ground (arith, for-at g id a cs e k h.1, h.0, e, k m)
for-at g id a (leaving m b ∷ cs) e k h = ground (arith, for-at g id a cs e k h.1, h.0, e, k m)
for-at g id a (holding m b o ∷ cs) e k h = ground (arith, for-at g id a cs e k h.1, h.0, e, k m)

-- However the steps of any number of callers interleave, chatMutationCount of a message is the
-- number of callers that are in or between beginChatMutation and endChatMutation of it, and the
-- table has an entry for it exactly when there are any.
pub chat_mutations_counted :
    (s : Callers) (id : ℕ)
    → Reachable s
    → (chat_mutation_count s.gates id ≡ count (is_for id) s.callers)
      × (is_some (s.gates.chat_mutations id) ≡ ltb 0 (count (is_for id) s.callers))
unfolding chat_mutation_count
chat_mutations_counted s id r = go (s.gates.chat_mutations id) refl (Reachable-IsGuarded s r)
  where
    go :
        (o : Option ℕ)
        → s.gates.chat_mutations id ≡ o
        → IsGuarded s.gates s.callers
        → (chat_mutation_count s.gates id ≡ count (is_for id) s.callers)
          × (is_some (s.gates.chat_mutations id) ≡ ltb 0 (count (is_for id) s.callers))
    go none e h =
        let zero_for = none-for s.gates id s.callers e h.entries in
        (rw e (sym zero_for), ground (arith, e, zero_for))
    go (some a) e h =
        let same : count (is_at a) s.callers ≡ count (is_for id) s.callers =
          for-at s.gates id a s.callers e (λ m p. h.single m id a p e) h.entries in
        (rw e (h.active a ∙ same), ground (arith, e, h.used id a e, same))
