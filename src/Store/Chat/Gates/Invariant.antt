-- ===== src/Store/Chat/Gates/Invariant.antt =====
-- The invariant of the gates of backend/internal/store/chat.go.
use file_transit_desk.Prelude.{
  ℕ, zero, suc, ◌≤◌, ◌<◌, ◌≡◌, refl, sym, subst, ◌∙◌, Bool, true, false, Option, none, some, List,
  [], ◌∷◌, ◌++◌, eqb, count, count-middle, arith, All,
}
use file_transit_desk.Store.Chat.Gates.{
  Gates, new_gate, no_gates, Caller, outside, waiting, holding, leaving, begin_at,
  begin_chat_mutation, lock, unlock, leave, Moves, begins, acquires, unlocks, leaves, Callers,
  everyone_outside, Reachable, starts, moves,
}

abbrev pub is_at : ℕ → Caller → Bool
is_at a outside = false
is_at a (waiting id b) = eqb b a
is_at a (holding id b o) = eqb b a
is_at a (leaving id b) = eqb b a

abbrev pub holds : ℕ → Caller → Bool
holds a (holding id b o) = eqb b a
holds a _ = false

abbrev pub bit : Bool → ℕ
bit false = 0
bit true = 1

abbrev pub Points : Gates → ℕ → ℕ → Type 0
Points g id a = g.chat_mutations id ≡ some a

-- Whoever is at a state came by the table, which still leads there.
abbrev pub HasEntry : Gates → Caller → Type 0
HasEntry g outside = Unit
HasEntry g (waiting id a) = Points g id a
HasEntry g (holding id a o) = Points g id a
HasEntry g (leaving id a) = Points g id a

pub record IsGuarded (g : Gates) (cs : List Caller) : Type 0 where
  pub active : (a : ℕ) → (g.heap a).active ≡ count (is_at a) cs
  pub locked : (a : ℕ) → bit (g.heap a).locked ≡ count (holds a) cs
  pub entries : All (HasEntry g) cs
  pub below : (id a : ℕ) → Points g id a → a < g.next
  pub single : (id m a : ℕ) → Points g id a → Points g m a → id ≡ m
  pub used : (id a : ℕ) → Points g id a → 1 ≤ count (is_at a) cs

module _ (P : Caller → Type 0) where
  All-out :
      (xs : List Caller) (c : Caller) (ys : List Caller)
      → All P (xs ++ (c ∷ ys))
      → All P (c ∷ (xs ++ ys))
  All-out [] c ys h = h
  All-out (x ∷ xs) c ys h = let (p, q) = All-out xs c ys h.1 in (p, (h.0, q))

  All-in :
      (xs : List Caller) (c : Caller) (ys : List Caller)
      → All P (c ∷ (xs ++ ys))
      → All P (xs ++ (c ∷ ys))
  All-in [] c ys h = h
  All-in (x ∷ xs) c ys h = (h.1.0, All-in xs c ys (h.0, h.1.1))

module _ (g : Gates) (xs : List Caller) (c : Caller) (ys : List Caller) where
  IsGuarded-out : IsGuarded g (xs ++ (c ∷ ys)) → IsGuarded g (c ∷ (xs ++ ys))
  IsGuarded-out h = record {
    active = λ a. h.active a ∙ count-middle (is_at a) xs c ys;
    locked = λ a. h.locked a ∙ count-middle (holds a) xs c ys;
    entries = All-out (HasEntry g) xs c ys h.entries;
    below = h.below;
    single = h.single;
    used = λ id a e. subst (λ n. 1 ≤ n) (count-middle (is_at a) xs c ys) (h.used id a e);
  }

  IsGuarded-in : IsGuarded g (c ∷ (xs ++ ys)) → IsGuarded g (xs ++ (c ∷ ys))
  IsGuarded-in h = record {
    active = λ a. h.active a ∙ sym (count-middle (is_at a) xs c ys);
    locked = λ a. h.locked a ∙ sym (count-middle (holds a) xs c ys);
    entries = All-in (HasEntry g) xs c ys h.entries;
    below = h.below;
    single = h.single;
    used = λ id a e. subst (λ n. 1 ≤ n) (sym (count-middle (is_at a) xs c ys)) (h.used id a e);
  }

-- The others' entries after a step of one caller.
module _ (g g' : Gates) where
  at-HasEntry :
      (c : Caller)
      → ((id a : ℕ) → Points g id a → is_at a c ≡ true → Points g' id a)
      → HasEntry g c
      → HasEntry g' c
  at-HasEntry outside k h = tt
  at-HasEntry (waiting id a) k h = k id a h (ground arith)
  at-HasEntry (holding id a o) k h = k id a h (ground arith)
  at-HasEntry (leaving id a) k h = k id a h (ground arith)

  All-HasEntry :
      (cs : List Caller)
      → ((id a : ℕ) → Points g id a → 1 ≤ count (is_at a) cs → Points g' id a)
      → All (HasEntry g) cs
      → All (HasEntry g') cs
  unfolding count
  All-HasEntry [] k h = tt
  All-HasEntry (c ∷ cs) k h = (
    at-HasEntry c (λ id a p e. k id a p (ground (arith, e))) h.0,
    All-HasEntry cs (λ id a p n. k id a p (ground (arith, n))) h.1,
  )

all-outside : (n : ℕ) → IsGuarded no_gates (everyone_outside n)
unfolding no_gates count
all-outside zero = record {
  active = λ a. refl;
  locked = λ a. refl;
  entries = tt;
  below = λ id a e. cc;
  single = λ id m a e k. cc;
  used = λ id a e. cc;
}
all-outside (suc n) =
    let h = all-outside n in
    record {
      active = h.active;
      locked = h.locked;
      entries = (tt, h.entries);
      below = h.below;
      single = h.single;
      used = h.used;
    }

module _ (g : Gates) (cs : List Caller) where
  acquires-IsGuarded :
      (id a : ℕ)
      → (g.heap a).locked ≡ false
      → IsGuarded g (waiting id a ∷ cs)
      → IsGuarded (lock g a) (holding id a true ∷ cs)
  unfolding lock count
  acquires-IsGuarded id a free h = record {
    active = λ b. ground (arith, h.active b, h.active a);
    locked = λ b. ground (arith, free, h.locked b, h.locked a);
    entries = h.entries;
    below = h.below;
    single = h.single;
    used = h.used;
  }

  unlocks-IsGuarded :
      (id a : ℕ) (o : Bool)
      → IsGuarded g (holding id a o ∷ cs)
      → IsGuarded (unlock g a) (leaving id a ∷ cs)
  unfolding unlock count
  unlocks-IsGuarded id a o h = record {
    active = λ b. ground (arith, h.active b, h.active a);
    locked = λ b. ground (arith, h.locked b, h.locked a);
    entries = h.entries;
    below = h.below;
    single = h.single;
    used = h.used;
  }

  -- No caller is at an address that was not allocated.
  none-at-next :
      (ds : List Caller)
      → All (HasEntry g) ds
      → ((id a : ℕ) → Points g id a → a < g.next)
      → (count (is_at g.next) ds ≡ 0) × (count (holds g.next) ds ≡ 0)
  unfolding count
  none-at-next [] h k = (refl, refl)
  none-at-next (outside ∷ ds) h k = none-at-next ds h.1 k
  none-at-next (waiting id a ∷ ds) h k =
      let (z, y) = none-at-next ds h.1 k in
      (ground (arith, z, k id a h.0), ground (arith, y, k id a h.0))
  none-at-next (holding id a o ∷ ds) h k =
      let (z, y) = none-at-next ds h.1 k in
      (ground (arith, z, k id a h.0), ground (arith, y, k id a h.0))
  none-at-next (leaving id a ∷ ds) h k =
      let (z, y) = none-at-next ds h.1 k in
      (ground (arith, z, k id a h.0), ground (arith, y, k id a h.0))

  begin_at-IsGuarded :
      (o : Option ℕ) (id : ℕ)
      → g.chat_mutations id ≡ o
      → IsGuarded g (outside ∷ cs)
      → IsGuarded (begin_at o g id).0 ((begin_at o g id).1 ∷ cs)
  unfolding begin_at count
  begin_at-IsGuarded (some a) id e h = record {
    active = λ b. ground (arith, h.active b, h.active a);
    locked = λ b. ground (arith, h.locked b, h.locked a);
    entries = (e, h.entries.1);
    below = h.below;
    single = h.single;
    used = λ m b p. ground (arith, h.used m b p);
  }
  begin_at-IsGuarded none id e h =
      let (z, y) = none-at-next cs h.entries.1 h.below in
      record {
        active = λ b. ground (arith, h.active b, z, h.active g.next);
        locked = λ b. ground (arith, h.locked b, y, h.locked g.next);
        entries = (
          ground arith,
          All-HasEntry g (new_gate g id) cs (λ m a p n. ground (arith, p, e)) h.entries.1,
        );
        below = λ m a p. ground (arith, p, h.below m a);
        single = λ m k a p q. ground (arith, p, q, h.below m a, h.below k a, h.single m k a);
        used = λ m a p. ground (arith, p, h.used m a);
      }

  leaves-IsGuarded :
      (id a : ℕ) → IsGuarded g (leaving id a ∷ cs) → IsGuarded (leave g id a) (outside ∷ cs)
  unfolding leave count
  leaves-IsGuarded id a h = record {
    active = λ b. ground (arith, h.active b, h.active a);
    locked = λ b. ground (arith, h.locked b, h.locked a);
    entries = (
      tt,
      All-HasEntry g (leave g id a) cs (λ m b p n. ground (arith, p, n, h.active a, h.entries.0))
          h.entries.1,
    );
    below = λ m b p. ground (arith, p, h.below m b);
    single = λ m k b p q. ground (arith, p, q, h.single m k b);
    used = λ m b p. ground (arith, p, h.used m b, h.single m id b, h.entries.0, h.active b);
  }

move-IsGuarded :
    (g g' : Gates) (c c' : Caller) (cs : List Caller)
    → Moves g c g' c'
    → IsGuarded g (c ∷ cs)
    → IsGuarded g' (c' ∷ cs)
unfolding begin_chat_mutation
move-IsGuarded g g' c c' cs (begins id) h = begin_at-IsGuarded g cs (g.chat_mutations id) id refl h
move-IsGuarded g g' c c' cs (acquires id a free) h = acquires-IsGuarded g cs id a free h
move-IsGuarded g g' c c' cs (unlocks id a o) h = unlocks-IsGuarded g cs id a o h
move-IsGuarded g g' c c' cs (leaves id a) h = leaves-IsGuarded g cs id a h

pub Reachable-IsGuarded : (s : Callers) → Reachable s → IsGuarded s.gates s.callers
Reachable-IsGuarded s (starts n) = all-outside n
Reachable-IsGuarded s (moves {g} {g'} {c} {c'} before after r m) = IsGuarded-in g' before c' after (
    move-IsGuarded g g' c c' (before ++ after) m
      (IsGuarded-out g before c after (Reachable-IsGuarded _ r)))
