-- ===== src/Store/Tokens/Exact.antt =====
-- What a reservation of backend/internal/store/store.go answers and changes, and how a release
-- undoes it.
use file_transit_desk.Prelude.{
  ℕ, ◌+◌, ◌<◌, ◌≤◌, map, eq_iff, ◌⊎◌, Option-cases, none, false, String, ◌==◌, ◌≡◌, refl, ap, inl,
  inr, Bool, true, ◌&&◌, some, List, [], ◌∷◌, arith, ltb, count, first, if◌then◌else◌, Bool-cases,
}
use file_transit_desk.Store.Exec.{
  Result, ok, err, World, statement, attempt, ◌>>=◌, token_not_usable, token_upload_limit_exceeded,
}
use file_transit_desk.Store.Rows.{Token, Db, update_where}
use file_transit_desk.Store.Tokens.{has_hash, has_id, reserved, release_token_use, released}
use file_transit_desk.Store.Tokens.Reservation.{
  usable, reserve_where, reserve_token_use, reserve_token_use_by_id,
}

module _ (p q : Token → Bool) where
  count_none : (xs : List Token) → count p xs ≡ 0 → count (λ x. p x && q x) xs ≡ 0
  unfolding count
  count_none [] h = refl
  count_none (x ∷ xs) h = ground (arith, count_none xs)

  count_only :
      (t : Token) (xs : List Token)
      → first p xs ≡ some t
      → count p xs ≡ 1
      → count (λ x. p x && q x) xs ≡ (if q t then 1 else 0)
  unfolding count first
  count_only t [] h k = cc
  count_only t (x ∷ xs) h k = elim (Bool-cases (p x)) [
    | inl e ↦ ground (arith, e, count_none xs)
    | inr e ↦ ground (arith, e, count_only t xs)
  ]

  -- The row that is found after the update.
  first_updated :
      (f : Token → Token) (t : Token) (xs : List Token)
      → ((x : Token) → p (f x) ≡ p x)
      → first p xs ≡ some t
      → first p (update_where (λ x. p x && q x) f xs) ≡ some (if q t then f t else t)
  unfolding first update_where
  first_updated f t [] k h = cc
  first_updated f t (x ∷ xs) k h = elim (Bool-cases (p x)) [
    | inl e ↦ ground (arith, e, k x)
    | inr e ↦ ground (arith, e, k x, first_updated f t xs k)
  ]

  -- An update that names no other row, and is undone at the row that it names.
  undone :
      (f g : Token → Token) (t : Token) (xs : List Token)
      → ((x : Token) → p (f x) ≡ p x)
      → ((x : Token) → g (f x) ≡ x)
      → first p xs ≡ some t
      → count p xs ≡ 1
      → q t ≡ true
      → update_where p g (update_where (λ x. p x && q x) f xs) ≡ xs
  unfolding first count update_where
  undone f g t [] k u h c e = cc
  undone f g t (x ∷ xs) k u h c e = elim (Bool-cases (p x)) [
    | inl y ↦ ground (arith, y, k x, u x, untouched xs)
    | inr n ↦ ground (arith, n, k x, undone f g t xs k u)
  ]
    where
      untouched :
          (ys : List Token)
          → count p ys ≡ 0
          → update_where p g (update_where (λ x. p x && q x) f ys) ≡ ys
      untouched [] h = refl
      untouched (y ∷ ys) h = ground (arith, untouched ys)

abbrev pub idle : Db → World Db
idle db = record { db = db; faults = [] }

module _ (datetime : ℕ → ℕ) (token_type : String) (now bytes cap : ℕ) where
  -- Of the type, not revoked, not expired, and with a use and with room left.
  pub record IsUsable (t : Token) : Type 0 where
    pub type : t.type ≡ token_type
    pub live : t.revoked ≡ false
    pub unexpired :
        (t.expires_at ≡ none) ⊎ ((e : ℕ) × (t.expires_at ≡ some e) × (datetime now < datetime e))
    pub uses : (t.max_uses ≡ 0) ⊎ (t.uses < t.max_uses)
    pub room : (cap ≡ 0) ⊎ (t.uploaded_bytes + bytes ≤ cap)

  -- A token of the type that the limit on bytes leaves no room.
  pub record IsOver (t : Token) : Type 0 where
    pub type : t.type ≡ token_type
    pub bytes_set : 0 < bytes
    pub cap_set : 0 < cap
    pub over : cap < t.uploaded_bytes + bytes

  usable-IsUsable : (t : Token) → usable datetime token_type now bytes cap t ≡ true → IsUsable t
  usable-IsUsable t e = record {
    type = (eq_iff t.type token_type).0 (ground (arith, e));
    live = ground (arith, e);
    unexpired = elim (Option-cases t.expires_at) [
      | inl n ↦ inl n
      | inr (x, s) ↦ inr (x, s, ground (arith, e, s))
    ];
    uses = ground (arith, e);
    room = ground (arith, e);
  }

  IsUsable-usable : (t : Token) → IsUsable t → usable datetime token_type now bytes cap t ≡ true
  IsUsable-usable t h = elim h.unexpired [
    | inl n ↦ ground (arith, n, (eq_iff t.type token_type).1 h.type, h.live, h.uses, h.room)
    | inr (x, s, l) ↦
        ground (arith, s, l, (eq_iff t.type token_type).1 h.type, h.live, h.uses, h.room)
  ]

  abbrev is_over : Token → Bool
  is_over t = (t.type == token_type) && ltb cap (t.uploaded_bytes + bytes)

  unusable : (t : Token) → usable datetime token_type now bytes cap t ≡ false → ¬ IsUsable t
  unusable t e u = let y = IsUsable-usable t u in cc

  is_over-IsOver : (t : Token) → (ltb 0 bytes && ltb 0 cap) && is_over t ≡ true → IsOver t
  is_over-IsOver t e = record {
    type = (eq_iff t.type token_type).0 (ground (arith, e));
    bytes_set = ground (arith, e);
    cap_set = ground (arith, e);
    over = ground (arith, e);
  }

  within_room : (t : Token) → (ltb 0 bytes && ltb 0 cap) && is_over t ≡ false → ¬ IsOver t
  within_room t e o =
      let y = (eq_iff t.type token_type).1 o.type in
      ground (arith, e, y, o.bytes_set, o.cap_set, o.over)

  -- What a reservation answers, and what it makes of the token that it finds.
  abbrev answer : Token → Result Token
  answer t =
      if usable datetime token_type now bytes cap t
      then ok (reserved bytes t)
      else if (ltb 0 bytes && ltb 0 cap) && is_over t
      then err token_upload_limit_exceeded
      else err token_not_usable

  -- One use more, and the bytes.
  abbrev pub counted : Token → Token
  counted t = record t { uses = t.uses + 1; uploaded_bytes = t.uploaded_bytes + bytes }

  -- The whole outcome of a reservation of the token that the test finds.
  abbrev pub Outcome : (Token → Bool) → Db → Token → Result Token × World Db → Type 0
  Outcome by db t r =
      (IsUsable t
        × (r ≡ (
          ok (counted t),
          idle (record db { tokens = map (λ x. if by x then counted x else x) db.tokens }),
        )))
      ⊎ ((¬ IsUsable t) × IsOver t × (r ≡ (err token_upload_limit_exceeded, idle db)))
      ⊎ ((¬ IsUsable t) × (¬ IsOver t) × (r ≡ (err token_not_usable, idle db)))

module _ (datetime : ℕ → ℕ) (by : Token → Bool) (token_type : String) (now bytes cap : ℕ)
    (stable : (x : Token) → by (reserved bytes x) ≡ by x) where
  reserve_where_exact :
      (db : Db) (t : Token)
      → first by db.tokens ≡ some t
      → count by db.tokens ≡ 1
      → (reserve_where datetime by token_type now bytes cap (idle db)).0
        ≡ answer datetime token_type now bytes cap t
  unfolding reserve_where ◌>>=◌ attempt
  reserve_where_exact db t h c = ground (
    arith,
    count_only by (usable datetime token_type now bytes cap) t db.tokens h c,
    first_updated by (usable datetime token_type now bytes cap) (reserved bytes) t db.tokens stable
        h,
  )

  reserve_where-db :
      (db : Db) (t : Token)
      → first by db.tokens ≡ some t
      → count by db.tokens ≡ 1
      → (reserve_where datetime by token_type now bytes cap (idle db)).1
        ≡ idle (record db {
          tokens =
              update_where
                (λ x. by x && usable datetime token_type now bytes cap x)
                (reserved bytes)
                db.tokens;
        })
  unfolding reserve_where ◌>>=◌ attempt
  reserve_where-db db t h c = ground (
    arith,
    count_only by (usable datetime token_type now bytes cap) t db.tokens h c,
    first_updated by (usable datetime token_type now bytes cap) (reserved bytes) t db.tokens stable
        h,
  )

  unnamed_map :
      (xs : List Token)
      → count by xs ≡ 0
      → (update_where (λ x. by x && usable datetime token_type now bytes cap x) (reserved bytes) xs
          ≡ xs)
        × (map (λ x. if by x then reserved bytes x else x) xs ≡ xs)
  unfolding count update_where
  unnamed_map [] h = (refl, refl)
  unnamed_map (x ∷ xs) h = ground (arith, unnamed_map xs)

  -- Where one row is meant, the update changes it if it is usable, and else nothing.
  updated_one :
      (t : Token) (xs : List Token)
      → first by xs ≡ some t
      → count by xs ≡ 1
      → update_where (λ x. by x && usable datetime token_type now bytes cap x) (reserved bytes) xs
        ≡ (if usable datetime token_type now bytes cap t
            then map (λ x. if by x then reserved bytes x else x) xs
            else xs)
  unfolding first count update_where
  updated_one t [] h c = cc
  updated_one t (x ∷ xs) h c = elim (Bool-cases (by x)) [
    | inl e ↦ ground (arith, e, unnamed_map xs)
    | inr e ↦ ground (arith, e, updated_one t xs)
  ]

  reserve_where-Outcome :
      (db : Db) (t : Token)
      → first by db.tokens ≡ some t
      → count by db.tokens ≡ 1
      → Outcome datetime token_type now bytes cap by db t
          (reserve_where datetime by token_type now bytes cap (idle db))
  reserve_where-Outcome db t h c = elim (Bool-cases (usable datetime token_type now bytes cap t)) [
    | inl e ↦ inl (
      usable-IsUsable datetime token_type now bytes cap t e,
      ground (
        arith,
        e,
        reserve_where_exact db t h c,
        reserve_where-db db t h c,
        updated_one t db.tokens h c,
      ),
    )
    | inr e ↦
        inr
          (elim (Bool-cases
            ((ltb 0 bytes && ltb 0 cap) && is_over datetime token_type now bytes cap t)) [
              | inl o ↦ inl (
                unusable datetime token_type now bytes cap t e,
                is_over-IsOver datetime token_type now bytes cap t o,
                ground (
                  arith,
                  e,
                  o,
                  reserve_where_exact db t h c,
                  reserve_where-db db t h c,
                  updated_one t db.tokens h c,
                ),
              )
              | inr o ↦ inr (
                unusable datetime token_type now bytes cap t e,
                within_room datetime token_type now bytes cap t o,
                ground (
                  arith,
                  e,
                  o,
                  reserve_where_exact db t h c,
                  reserve_where-db db t h c,
                  updated_one t db.tokens h c,
                ),
              )
            ])
  ]

released-reserved : (bytes : ℕ) (t : Token) → released bytes (reserved bytes t) ≡ t
released-reserved bytes t = ground arith

module _ (datetime : ℕ → ℕ) where
  -- A reservation by a hash that is one row's, and that meets no failure of the driver, has one of
  -- three outcomes. If the token is of the type, not revoked, not expired, and has uses and room
  -- left, the answer is the token with one use and the bytes counted, and so is its row, while the
  -- rest of the database is as it was. Else nothing changes, and the answer names the upload limit
  -- if the token is of the type and the limit leaves no room for the bytes, or else says that the
  -- token is not usable.
  pub reserve_token_use-answer :
      (db : Db) (hash type : String) (now bytes cap : ℕ) (t : Token)
      → first (has_hash hash) db.tokens ≡ some t
      → count (has_hash hash) db.tokens ≡ 1
      → Outcome datetime type now bytes cap
          (λ x. x.hash == hash)
          db
          t
          (reserve_token_use datetime hash type now bytes cap (idle db))
  unfolding reserve_token_use
  reserve_token_use-answer db hash type now bytes cap t h c =
      reserve_where-Outcome datetime (has_hash hash) type now bytes cap (λ x. refl) db t h c

  -- A release undoes a reservation of the same size by an id that is one row's, if no call of the
  -- driver fails and the token was usable: the database is what it was.
  pub release-reserve :
      (db : Db) (id : ℕ) (type : String) (now bytes cap : ℕ) (t : Token)
      → first (has_id id) db.tokens ≡ some t
      → count (has_id id) db.tokens ≡ 1
      → usable datetime type now bytes cap t ≡ true
      → (release_token_use id bytes
          (reserve_token_use_by_id datetime id type now bytes cap (idle db)).1).1.db
        ≡ db
  unfolding reserve_token_use_by_id release_token_use statement
  release-reserve db id type now bytes cap t h c u =
      rw (reserve_where-db datetime (has_id id) type now bytes cap (λ x. refl) db t h c) (
        ap (λ ts. record db { tokens = ts })
          (undone (has_id id) (usable datetime type now bytes cap) (reserved bytes) (released bytes)
            t db.tokens (λ x. refl) (released-reserved bytes) h c u))
