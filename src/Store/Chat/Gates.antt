-- ===== src/Store/Chat/Gates.antt =====
-- The gates of the chat's messages (backend/internal/store/chat.go), which callers that run at the
-- same time share. What stands under chatMutationMu is one step of its caller.
pub mod Invariant
pub mod Exclusion
use file_transit_desk.Prelude.{
  ℕ, zero, suc, ◌+◌, ◌-◌, Bool, true, false, ◌&&◌, ◌≡◌, Option, none, some, List, [], ◌∷◌, ◌++◌,
  eqb, if◌then◌else◌,
}

-- A chatMutationState: its mutex, and its number of callers.
pub record Gate : Type 0 where
  pub locked : Bool
  pub active : ℕ

-- chatMutations, and the states that were ever allocated, by address. A nil map is an empty one.
pub record Gates : Type 0 where
  pub chat_mutations : ℕ → Option ℕ
  pub heap : ℕ → Gate
  pub next : ℕ

unfoldable pub no_gates : Gates
no_gates = record {
  chat_mutations = λ id. none;
  heap = λ a. record { locked = false; active = 0 };
  next = 0;
}

-- A caller's place, with its message and the address of its state, and whether it overlapped.
pub data Caller : Type 0 where
  outside : Caller
  waiting : ℕ → ℕ → Caller
  holding : ℕ → ℕ → Bool → Caller
  leaving : ℕ → ℕ → Caller

abbrev pub set {ℓ} : {A : Type ℓ} → ℕ → A → (ℕ → A) → ℕ → A
set k v f n = if eqb k n then v else f n

abbrev pub with_gate : ℕ → Gate → Gates → Gates
with_gate a s g = record g { heap = set a s g.heap }

abbrev pub new_gate : Gates → ℕ → Gates
new_gate g id = record {
  chat_mutations = set id (some g.next) g.chat_mutations;
  heap = set g.next (record { locked = true; active = 1 }) g.heap;
  next = suc g.next;
}

abbrev pub join_gate : Gates → ℕ → Gates
join_gate g a = with_gate a (record (g.heap a) { active = suc (g.heap a).active }) g

-- beginChatMutation up to its unlocking of chatMutationMu.
unfoldable pub begin_at : Option ℕ → Gates → ℕ → Gates × Caller
begin_at none g id = (new_gate g id, holding id g.next false)
begin_at (some a) g id = (join_gate g a, waiting id a)

unfoldable pub begin_chat_mutation : Gates → ℕ → Gates × Caller
unfolding begin_at
begin_chat_mutation g id = begin_at (g.chat_mutations id) g id

unfoldable pub lock : Gates → ℕ → Gates
lock g a = with_gate a (record (g.heap a) { locked = true }) g

unfoldable pub unlock : Gates → ℕ → Gates
unlock g a = with_gate a (record (g.heap a) { locked = false }) g

abbrev pub is_entry : Option ℕ → ℕ → Bool
is_entry none a = false
is_entry (some b) a = eqb b a

abbrev pub decrease : Gates → ℕ → Gates
decrease g a = with_gate a (record (g.heap a) { active = (g.heap a).active - 1 }) g

-- The rest of endChatMutation, under chatMutationMu.
unfoldable pub leave : Gates → ℕ → ℕ → Gates
leave g id a =
    if eqb ((g.heap a).active - 1) 0 && is_entry (g.chat_mutations id) a
    then record (decrease g a) { chat_mutations = set id none g.chat_mutations }
    else decrease g a

abbrev pub active_of : Gates → Option ℕ → ℕ
active_of g none = 0
active_of g (some a) = (g.heap a).active

unfoldable pub chat_mutation_count : Gates → ℕ → ℕ
chat_mutation_count g id = active_of g (g.chat_mutations id)

-- A step of one caller. A mutex that is held keeps a caller waiting.
pub data Moves (g : Gates) : Caller → Gates → Caller → Type 0 where
  begins : (id : ℕ) → Moves g outside (begin_chat_mutation g id).0 (begin_chat_mutation g id).1
  acquires :
      (id a : ℕ) → (g.heap a).locked ≡ false → Moves g (waiting id a) (lock g a) (holding id a true)
  unlocks : (id a : ℕ) (b : Bool) → Moves g (holding id a b) (unlock g a) (leaving id a)
  leaves : (id a : ℕ) → Moves g (leaving id a) (leave g id a) outside

pub record Callers : Type 0 where
  pub gates : Gates
  pub callers : List Caller

abbrev pub everyone_outside : ℕ → List Caller
everyone_outside zero = []
everyone_outside (suc n) = outside ∷ everyone_outside n

-- What any number of callers can reach, one step of one of them after another.
pub data Reachable : Callers → Type 0 where
  starts : (n : ℕ) → Reachable (record { gates = no_gates; callers = everyone_outside n })
  moves :
      {g g' : Gates} {c c' : Caller} (before after : List Caller)
      → Reachable (record { gates = g; callers = before ++ (c ∷ after) })
      → Moves g c g' c'
      → Reachable (record { gates = g'; callers = before ++ (c' ∷ after) })
