-- ===== src/Transfers/Cancellation/Requests.antt =====
-- Whose cancel functions a cancellation by resources calls (backend/internal/server/transfers.go).
use Prim.Native.String.{◌++◌ as str_append}
use text.Mathlib.TextLemmas.{append_cancel_left}
use file_transit_desk.Prelude.{
  ℕ, String, ◌==◌, eq_iff, eq_refl, ◌≡◌, ◌≢◌, ◌⊎◌, refl, ap, sym, subst, ◌∙◌, inl, inr, true, false,
  Option, none, some, List, [], ◌∷◌, arith, contains, Dict, get, has, values, get-put, HasNoDup,
  IsFresh, Bool-cases, Option-cases,
}
use file_transit_desk.Transfers.Types.{UploadPermit, TransferRecord, TransferRegistry}
use file_transit_desk.Transfers.Records.{
  cancel_uploads_by_dir_ids, record_callbacks, permit_callbacks, permit_hit, upload_hit,
  add_callback, request_key, is_canceling, is_completed,
}
use file_transit_desk.Transfers.Cancellation.{
  add_callback-has, permit_callbacks-has, record_callbacks_complete,
}

-- An upload to one of the resources that runs and can be cancelled by calling `c`.
pub record IsDue (wanted : List String) (rec : TransferRecord) (c : ℕ) : Type 0 where
  pub resource : contains wanted rec.dir_id ≡ true
  pub upload : rec.type ≡ "upload"
  pub cancel : rec.cancel ≡ some c
  pub cancelable : rec.cancelable ≡ true
  pub not_canceling : is_canceling rec.status ≡ false
  pub not_completed : is_completed rec.status ≡ false

-- The request that an upload belongs to: its permit or, without one, the upload itself.
abbrev pub IsOf : TransferRecord → String → Type 0
IsOf rec k =
    ((rec.permit_id ≢ "") × (rec.permit_id ≡ k))
    ⊎ ((rec.permit_id ≡ "") × (str_append "record:" rec.id ≡ k))

IsDue-upload_hit :
    (wanted : List String) (rec : TransferRecord) (c : ℕ)
    → IsDue wanted rec c
    → upload_hit wanted rec ≡ true
IsDue-upload_hit wanted rec c d = ground (
  arith,
  d.resource,
  (eq_iff rec.type "upload").1 d.upload,
  d.cancel,
  d.cancelable,
  d.not_canceling,
  d.not_completed,
)

upload_hit-IsDue :
    (wanted : List String) (rec : TransferRecord) (c : ℕ)
    → upload_hit wanted rec ≡ true
    → rec.cancel ≡ some c
    → IsDue wanted rec c
upload_hit-IsDue wanted rec c h e = record {
  resource = ground (arith, h);
  upload = (eq_iff rec.type "upload").0 (ground (arith, h));
  cancel = e;
  cancelable = ground (arith, h);
  not_canceling = ground (arith, h);
  not_completed = ground (arith, h);
}

request_key-IsOf : (rec : TransferRecord) → IsOf rec (request_key rec)
request_key-IsOf rec = elim (Bool-cases (rec.permit_id == "")) [
  | inl e ↦ inr ((eq_iff rec.permit_id "").0 e, rw e refl)
  | inr e ↦ inl ((λ s. ground (arith, e, (eq_iff rec.permit_id "").1 s)), rw e refl)
]

IsOf-request_key : (rec : TransferRecord) (k : String) → IsOf rec k → request_key rec ≡ k
IsOf-request_key rec k (inl (n, e)) = elim (Bool-cases (rec.permit_id == "")) [
  | inl b ↦ absurd (n ((eq_iff rec.permit_id "").0 b))
  | inr b ↦ rw b e
]
IsOf-request_key rec k (inr (n, e)) = rw ((eq_iff rec.permit_id "").1 n) e

-- What a key has after a callback was added.
add_callback-cases :
    (k j : String) (o : Option ℕ) (c : ℕ) (m : Dict ℕ)
    → get k (add_callback j o m) ≡ some c
    → (get k m ≡ some c) ⊎ ((j ≡ k) × (o ≡ some c) × (has k m ≡ false))
add_callback-cases k j none c m e = inl e
add_callback-cases k j (some d) c m e = elim (Bool-cases (has j m)) [
  | inl h ↦ inl (ground (arith, e, h))
  | inr h ↦ elim (Bool-cases (j == k)) [
    | inl same ↦
        let path = (eq_iff j k).0 same in
        inr (path, ground (arith, e, h, same, get-put j k d m), subst (λ x. has x m ≡ false) path h)
    | inr other ↦ inl (ground (arith, e, h, other, get-put j k d m))
  ]
]

-- Where the keys are distinct, each entry is found under its key.
module _ {ℓ} {V : Type ℓ} where
  abbrev AllFound : Dict V → Dict V → Type ℓ
  AllFound m [] = Unit
  AllFound m ((k, v) ∷ es) = (get k m ≡ some v) × AllFound m es

  AllFound-cons :
      (k : String) (v : V) (m es : Dict V) → IsFresh k es → AllFound m es → AllFound ((k, v) ∷ m) es
  unfolding get
  AllFound-cons k v m [] f h = tt
  AllFound-cons k v m ((j, w) ∷ es) f h =
      (ground (arith, h.0, f.0, eq_iff k j, eq_iff j k), AllFound-cons k v m es f.1 h.1)

  AllFound-self : (m : Dict V) → HasNoDup m → AllFound m m
  unfolding get
  AllFound-self [] h = tt
  AllFound-self ((k, v) ∷ m) h =
      (ground (arith, eq_refl k), AllFound-cons k v m m h.0 (AllFound-self m h.1))

module _ (r : TransferRegistry) (wanted : List String) where
  -- The cancel function of an upload that is due, under its request.
  pub record FromUpload (k : String) (c : ℕ) : Type 0 where
    pub id : String
    pub rec : TransferRecord
    pub found : get id r.records ≡ some rec
    pub due : IsDue wanted rec c
    pub request : IsOf rec k

  -- That of a live permit bound to one of the resources, which no due upload has.
  pub record FromPermit (k : String) (c : ℕ) : Type 0 where
    pub permit : UploadPermit
    pub found : get k r.permits ≡ some permit
    pub resource : contains wanted permit.dir_id ≡ true
    pub live : permit.canceling ≡ false
    pub cancel : permit.cancel ≡ some c
    pub no_upload : (d : ℕ) → ¬ FromUpload k d

  record_callbacks-cases :
      (k : String) (c : ℕ) (es : Dict TransferRecord) (m : Dict ℕ)
      → AllFound r.records es
      → get k (record_callbacks wanted (values es) m) ≡ some c
      → (get k m ≡ some c) ⊎ FromUpload k c
  unfolding record_callbacks values
  record_callbacks-cases k c [] m a e = inl e
  record_callbacks-cases k c ((j, rec) ∷ es) m a e = elim (record_callbacks-cases k c es _ a.1 e) [
    | inr f ↦ inr f
    | inl before ↦ elim (Bool-cases (upload_hit wanted rec)) [
      | inr n ↦ inl (ground (arith, before, n))
      | inl h ↦
          elim (add_callback-cases k (request_key rec) rec.cancel c m (ground (arith, before, h))) [
            | inl old ↦ inl old
            | inr (key, own, new) ↦ inr (record {
              id = j;
              rec = rec;
              found = a.0;
              due = upload_hit-IsDue wanted rec c h own;
              request = subst (IsOf rec) key (request_key-IsOf rec);
            })
          ]
    ]
  ]

  -- A permit whose key had nothing before.
  pub record OwnPermit (m : Dict ℕ) (k : String) (c : ℕ) : Type 0 where
    pub permit : UploadPermit
    pub found : get k r.permits ≡ some permit
    pub hit : permit_hit wanted permit ≡ true
    pub cancel : permit.cancel ≡ some c
    pub new : has k m ≡ false

  permit_callbacks-cases :
      (k : String) (c : ℕ) (es : Dict UploadPermit) (m : Dict ℕ)
      → AllFound r.permits es
      → get k (permit_callbacks wanted es m) ≡ some c
      → (get k m ≡ some c) ⊎ OwnPermit m k c
  unfolding permit_callbacks
  permit_callbacks-cases k c [] m a e = inl e
  permit_callbacks-cases k c ((j, p) ∷ es) m a e = elim (permit_callbacks-cases k c es _ a.1 e) [
    | inr f ↦ inr (record {
      permit = f.permit;
      found = f.found;
      hit = f.hit;
      cancel = f.cancel;
      new = ground (arith, f.new, add_callback-has j p.cancel k m);
    })
    | inl before ↦ elim (Bool-cases (permit_hit wanted p)) [
      | inr n ↦ inl (ground (arith, before, n))
      | inl h ↦ elim (add_callback-cases k j p.cancel c m (ground (arith, before, h))) [
        | inl old ↦ inl old
        | inr (key, own, new) ↦ inr (record {
          permit = p;
          found = subst (λ x. get x r.permits ≡ some p) key a.0;
          hit = h;
          cancel = own;
          new = new;
        })
      ]
    ]
  ]

  due_called :
      (k : String) (d : ℕ)
      → FromUpload k d
      → has k (record_callbacks wanted (values r.records) []) ≡ true
  due_called k d f =
      subst (λ x. has x (record_callbacks wanted (values r.records) []) ≡ true)
        (IsOf-request_key f.rec k f.request)
        (record_callbacks_complete wanted f.id f.rec r.records [] f.found
          (IsDue-upload_hit wanted f.rec d f.due))

  module _ (now : ℕ) (records : HasNoDup r.records) (permits : HasNoDup r.permits) where
    -- In a registry whose maps have distinct keys, each callback of a cancellation by resources is
    -- the cancel function of an upload to one of them that ran and could be cancelled, under the key
    -- of that upload's request, or of a live permit bound to one of them, under the permit's id, and
    -- then no such upload has that permit.
    pub callbacks_due :
        (k : String) (c : ℕ)
        → get k (cancel_uploads_by_dir_ids r wanted now).1 ≡ some c
        → FromUpload k c ⊎ FromPermit k c
    unfolding cancel_uploads_by_dir_ids get
    callbacks_due k c e =
        elim (permit_callbacks-cases k c r.permits _ (AllFound-self r.permits permits) e) [
          | inl before ↦
              elim (record_callbacks-cases k c r.records [] (AllFound-self r.records records)
                before) [ inl none_before ↦ cc | inr f ↦ inl f ]
          | inr own ↦ inr (record {
            permit = own.permit;
            found = own.found;
            resource = ground (arith, own.hit);
            live = ground (arith, own.hit);
            cancel = own.cancel;
            no_upload = λ d f. let y = due_called k d f in let z = own.new in cc;
          })
        ]

    called :
        (k : String) (d : ℕ)
        → FromUpload k d
        → has k (cancel_uploads_by_dir_ids r wanted now).1 ≡ true
    unfolding cancel_uploads_by_dir_ids
    called k d f = permit_callbacks-has wanted k r.permits _ (due_called k d f)

    -- In a registry whose maps have distinct keys, a cancellation by resources calls, for the
    -- request of every upload to one of them that runs and can be cancelled, the cancel function of
    -- such an upload of the same request: the request is the upload's permit or, without one, the
    -- upload itself.
    pub upload_called_back :
        (id k : String) (rec : TransferRecord) (c : ℕ)
        → get id r.records ≡ some rec
        → IsDue wanted rec c
        → IsOf rec k
        → (d : ℕ) × (get k (cancel_uploads_by_dir_ids r wanted now).1 ≡ some d) × FromUpload k d
    upload_called_back id k rec c e due o =
        let f : FromUpload k c = record { id = id; rec = rec; found = e; due = due; request = o } in
        elim (Option-cases (get k (cancel_uploads_by_dir_ids r wanted now).1)) [
          | inl n ↦ let y = called k c f in ground (arith, n, y)
          | inr (d, s) ↦ elim (callbacks_due k d s) [
            | inl from ↦ (d, s, from)
            | inr permit ↦ absurd (permit.no_upload c f)
          ]
        ]

    -- In a registry whose maps have distinct keys, a cancellation by resources calls the own cancel
    -- function of every upload to one of them that runs, can be cancelled and has no permit, if no
    -- record has its request for a permit and no other record has its id.
    pub lone_upload_called_back :
        (id : String) (rec : TransferRecord) (c : ℕ)
        → get id r.records ≡ some rec
        → IsDue wanted rec c
        → rec.permit_id ≡ ""
        → ((j : String) (x : TransferRecord)
            → get j r.records ≡ some x
            → (x.permit_id ≢ str_append "record:" rec.id) × (x.id ≡ rec.id → x ≡ rec))
        → get (str_append "record:" rec.id) (cancel_uploads_by_dir_ids r wanted now).1 ≡ some c
    lone_upload_called_back id rec c e due p alone =
        let (d, s, f) = upload_called_back id _ rec c e due (inr (p, refl)) in
        elim f.request [
          | inl (n, q) ↦ absurd ((alone f.id f.rec f.found).0 q)
          | inr (n, q) ↦
              let same : f.rec ≡ rec =
                (alone f.id f.rec f.found).1 (append_cancel_left "record:" f.rec.id rec.id q) in
              s ∙ sym f.due.cancel ∙ ap (λ x. x.cancel) same ∙ due.cancel
        ]
