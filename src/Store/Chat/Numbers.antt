-- ===== src/Store/Chat/Numbers.antt =====
-- The numbers of the changes of backend/internal/store/chat.go: runs without a gap.
use file_transit_desk.Prelude.{
  ℕ, zero, suc, ◌+◌, ◌≤◌, min, ◌≡◌, refl, ap, true, List, [], ◌∷◌, ltb, select, length, take, arith,
  All, is_some, first,
}
use file_transit_desk.Store.ChatRows.{ChatMessage, ChangeRow}
use file_transit_desk.Store.Chat.{ChatChange, rev_onto, has_message_id}
use file_transit_desk.Store.Chat.Pages.{join_messages, follows_on, last_seq, is_after}

-- The `k` numbers after `from`, in falling and in rising order.
unfoldable pub descending : ℕ → ℕ → List ℕ
descending from zero = []
descending from (suc k) = (from + suc k) ∷ descending from k

unfoldable pub ascending : ℕ → ℕ → List ℕ
ascending from zero = []
ascending from (suc k) = suc from ∷ ascending (suc from) k

unfoldable pub seqs : List ChangeRow → List ℕ
seqs [] = []
seqs (c ∷ cs) = c.seq ∷ seqs cs

unfoldable pub page_seqs : List ChatChange → List ℕ
page_seqs [] = []
page_seqs (c ∷ cs) = c.seq ∷ page_seqs cs

none-above : (from a k : ℕ) → from + k ≤ a → select (ltb a) (descending from k) ≡ []
unfolding descending select
none-above from a zero h = refl
none-above from a (suc k) h = ground (arith, none-above from a k (omega arith))

-- The numbers of a run that are greater than one of them are a run.
pub select-descending :
    (from a k : ℕ) → select (ltb (from + a)) (descending from (a + k)) ≡ descending (from + a) k
unfolding descending select
select-descending from a zero = none-above from (from + a) (a + 0) (omega arith)
select-descending from a (suc k) =
    let e : a + suc k ≡ suc (a + k) = omega arith in
    rw e (ground (arith, select-descending from a k))

pub select-select :
    (n m : ℕ) (xs : List ℕ) → n ≤ m → select (ltb m) (select (ltb n) xs) ≡ select (ltb m) xs
unfolding select
select-select n m [] h = refl
select-select n m (x ∷ xs) h = ground (arith, select-select n m xs h)

pub seqs-select :
    (n : ℕ) (cs : List ChangeRow) → seqs (select (is_after n) cs) ≡ select (ltb n) (seqs cs)
unfolding select seqs
seqs-select n [] = refl
seqs-select n (c ∷ cs) = ground (arith, seqs-select n cs)

pub seqs-rev_onto : (cs ds : List ChangeRow) → seqs (rev_onto cs ds) ≡ rev_onto (seqs cs) (seqs ds)
unfolding rev_onto seqs
seqs-rev_onto [] ds = refl
seqs-rev_onto (c ∷ cs) ds = seqs-rev_onto cs (c ∷ ds)

pub rev_onto-descending :
    (from k j : ℕ) → rev_onto (descending from k) (ascending (from + k) j) ≡ ascending from (k + j)
unfolding rev_onto descending ascending
rev_onto-descending from zero j = ground arith
rev_onto-descending from (suc k) j = ground (arith, rev_onto-descending from k (suc j))

pub take-ascending : (n from k : ℕ) → take n (ascending from k) ≡ ascending from (min n k)
unfolding ascending
take-ascending zero from k = ground arith
take-ascending (suc n) from zero = ground arith
take-ascending (suc n) from (suc k) = ground (arith, take-ascending n (suc from) k)

pub page_seqs-take : (n : ℕ) (cs : List ChatChange) → page_seqs (take n cs) ≡ take n (page_seqs cs)
unfolding page_seqs
page_seqs-take zero cs = refl
page_seqs-take (suc n) [] = refl
page_seqs-take (suc n) (c ∷ cs) = ap (λ l. c.seq ∷ l) (page_seqs-take n cs)

pub length-page_seqs : (cs : List ChatChange) → length (page_seqs cs) ≡ length cs
unfolding page_seqs
length-page_seqs [] = refl
length-page_seqs (c ∷ cs) = ap suc (length-page_seqs cs)

pub length-ascending : (from k : ℕ) → length (ascending from k) ≡ k
unfolding ascending
length-ascending from zero = refl
length-ascending from (suc k) = ap suc (length-ascending (suc from) k)

-- A page of a run passes the test of its numbers, and ends with the run.
pub follows_on-ascending :
    (cs : List ChatChange) (from k : ℕ)
    → page_seqs cs ≡ ascending from k
    → follows_on from cs ≡ true
unfolding follows_on page_seqs ascending
follows_on-ascending [] from k h = refl
follows_on-ascending (c ∷ cs) from zero h = cc
follows_on-ascending (c ∷ cs) from (suc k) h =
    let e : c.seq ≡ suc from = cc in
    let r : page_seqs cs ≡ ascending (suc from) k = cc in
    rw e (ground (arith, follows_on-ascending cs (suc from) k r))

pub last_seq-ascending :
    (cs : List ChatChange) (from k : ℕ)
    → page_seqs cs ≡ ascending from k
    → last_seq from cs ≡ from + k
unfolding last_seq page_seqs ascending
last_seq-ascending [] from zero h = omega arith
last_seq-ascending [] from (suc k) h = cc
last_seq-ascending (c ∷ cs) from zero h = cc
last_seq-ascending (c ∷ cs) from (suc k) h =
    let e : c.seq ≡ suc from = cc in
    let r : page_seqs cs ≡ ascending (suc from) k = cc in
    rw e (omega (arith, last_seq-ascending cs (suc from) k r))

-- The message of a change is there.
abbrev pub Linked : List ChatMessage → ChangeRow → Type 0
Linked messages c = is_some (first (has_message_id c.message_id) messages) ≡ true

-- So the join leaves no change out.
pub page_seqs-join_messages :
    (messages : List ChatMessage) (cs : List ChangeRow)
    → All (Linked messages) cs
    → page_seqs (join_messages messages cs) ≡ seqs cs
unfolding join_messages seqs page_seqs
page_seqs-join_messages messages [] h = refl
page_seqs-join_messages messages (c ∷ cs) h =
    ground (arith, h.0, page_seqs-join_messages messages cs h.1)

pub All-rev_onto :
    (P : ChangeRow → Type 0) (cs ds : List ChangeRow) → All P cs → All P ds → All P (rev_onto cs ds)
unfolding rev_onto
All-rev_onto P [] ds h k = k
All-rev_onto P (c ∷ cs) ds h k = All-rev_onto P cs (c ∷ ds) h.1 (h.0, k)
