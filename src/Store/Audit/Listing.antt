-- ===== src/Store/Audit/Listing.antt =====
-- The filtered pages of the audit log (backend/internal/store/store.go). `trim_space` and `to_lower`
-- are those of package strings, `lower` and `like` SQLite's (LIKE with the escape character `\`),
-- `runes` the runes of a text.
use file_transit_desk.Prelude.{
  ℕ, zero, suc, String, ◌==◌, ◌≡◌, refl, ap, Bool, true, false, not, ◌&&◌, ◌||◌, List, [], ◌∷◌,
  arith, ltb, eqb, count, select, length, length-select, count-le-length, ◌∙◌, ◌≤◌, take, drop,
  contains, if◌then◌else◌,
}
use file_transit_desk.Store.Exec.{
  Result, ok, Exec, pure, raise, statement, transaction, ◌>>=◌, invalid_audit_filter,
}
use file_transit_desk.Store.Rows.{AuditLog, Db}
use file_transit_desk.Store.Audit.{append_rune}

pub record AuditLogFilter : Type 0 where
  pub keyword : String
  pub status : String

abbrev pub audit_failure_actions : List String
audit_failure_actions =
    "chat_delete_failed" ∷ "chat_batch_delete_failed" ∷ "chat_clear_failed" ∷ "chat_withdraw_failed"
    ∷ "config_resource_published_sync_failed" ∷ "csrf_denied" ∷ "download_lease_file_changed"
    ∷ "download_lease_resource_changed" ∷ "file_picker_denied" ∷ "forbidden" ∷ "illegal_access"
    ∷ "login_failed" ∷ "login_rate_limited" ∷ "token_denied" ∷ "token_download_failed"
    ∷ "token_upload_denied" ∷ "token_upload_failed" ∷ "unauthorized" ∷ "upload_lease_failed"
    ∷ "upload_lease_resource_changed" ∷ "upload_temp_cleanup_failed" ∷ []

-- The special runes of LIKE: `\`, `%` and `_`.
abbrev pub is_special : ℕ → Bool
is_special r = eqb r 92 || (eqb r 37 || eqb r 95)

unfoldable pub escape_audit_like_keyword : List ℕ → List ℕ
escape_audit_like_keyword [] = []
escape_audit_like_keyword (r ∷ rs) =
    let rest = escape_audit_like_keyword rs in if is_special r then 92 ∷ r ∷ rest else r ∷ rest

-- `AuditLogs`: the newest rows.
unfoldable pub audit_logs : ℕ → Exec Db (List AuditLog)
audit_logs limit = statement (λ db. (ok (take limit db.audit_logs), db))

abbrev pub limit_or_default : ℕ → ℕ
limit_or_default limit = if ltb limit 1 then 50 else limit

abbrev pub is_status : String → Bool
is_status status = (status == "all") || ((status == "ok") || (status == "failed"))

module _ (trim_space to_lower lower : String → String) (runes : String → List ℕ)
    (like : List ℕ → List ℕ → Bool) where
  unfoldable pub is_audit_failure_action : String → Bool
  is_audit_failure_action action = contains audit_failure_actions (to_lower (trim_space action))

  abbrev pub has_pattern : List ℕ → AuditLog → Bool
  has_pattern pattern l =
      like pattern (runes l.action) || (like pattern (runes l.ip) || like pattern l.detail)

  unfoldable pub has_keyword : String → AuditLog → Bool
  unfolding escape_audit_like_keyword append_rune
  has_keyword keyword l =
      (keyword == "")
      || has_pattern (37 ∷ append_rune (escape_audit_like_keyword (runes keyword)) 37) l

  abbrev pub is_failure : AuditLog → Bool
  is_failure l = contains audit_failure_actions (lower l.action)

  abbrev pub has_status : String → AuditLog → Bool
  has_status status l =
      if status == "failed"
      then is_failure l
      else if status == "ok"
      then not (is_failure l)
      else true

  -- The WHERE clause of `auditLogFilterSQL`.
  abbrev pub passes : AuditLogFilter → AuditLog → Bool
  passes filter l =
      has_keyword (trim_space filter.keyword) l
      && has_status (to_lower (trim_space filter.status)) l

  abbrev pub normal_status : String → String
  normal_status status =
      let s : String = to_lower (trim_space status) in if s == "" then "all" else s

  -- One transaction counts the rows and reads the page. A limit or an offset below the least one is
  -- 0 here.
  unfoldable pub audit_logs_page_filtered : ℕ → ℕ → AuditLogFilter → Exec Db (List AuditLog × ℕ)
  unfolding has_keyword
  audit_logs_page_filtered limit offset filter =
      let f : AuditLogFilter = record filter { status = normal_status filter.status } in
      if is_status f.status
      then transaction (do
        total ← statement (λ db. (ok (count (passes f) db.audit_logs), db))
        logs ← statement (λ db. (
          ok (take (limit_or_default limit) (drop offset (select (passes f) db.audit_logs))),
          db,
        ))
        pure (logs, total))
      else raise invalid_audit_filter

  unfoldable pub audit_logs_page : ℕ → ℕ → Exec Db (List AuditLog × ℕ)
  unfolding audit_logs_page_filtered
  audit_logs_page limit offset =
      audit_logs_page_filtered limit offset (record { keyword = ""; status = "all" })

  -- The events of a failure, and the others.
  abbrev pub failing : AuditLog → Bool
  failing l = contains audit_failure_actions (lower l.action)

  abbrev pub succeeding : AuditLog → Bool
  succeeding l = not (contains audit_failure_actions (lower l.action))

  -- A page from the start, when the driver fails no call.
  abbrev pub page : ℕ → String → String → Db → Result (List AuditLog × ℕ)
  page limit keyword status db =
      (audit_logs_page_filtered limit 0 (record { keyword = keyword; status = status })
        (record { db = db; faults = [] })).0

  abbrev passing : String → String → Db → List AuditLog
  passing keyword status db =
      select (λ l. has_keyword (trim_space keyword) l && has_status status l) db.audit_logs

  take_all : (n : ℕ) (xs : List AuditLog) → length xs ≤ n → take n xs ≡ xs
  take_all zero [] h = refl
  take_all zero (x ∷ xs) h = ground (arith, h)
  take_all (suc n) [] h = refl
  take_all (suc n) (x ∷ xs) h = ap (λ r. x ∷ r) (take_all n xs (omega (arith, h)))

  select-select :
      (p q : AuditLog → Bool) (xs : List AuditLog)
      → select (λ l. p l && q l) xs ≡ select q (select (λ l. p l && true) xs)
  unfolding select
  select-select p q [] = refl
  select-select p q (x ∷ xs) = ground (arith, select-select p q xs)

  select_all :
      (p : AuditLog → Bool) (xs : List AuditLog) → ((l : AuditLog) → p l ≡ true) → select p xs ≡ xs
  unfolding select
  select_all p [] h = refl
  select_all p (x ∷ xs) h = ground (arith, h x, select_all p xs h)

  abbrev passed : String → String → Db → List AuditLog
  passed keyword status db =
      select (passes (record { keyword = keyword; status = status })) db.audit_logs

  page_run :
      (limit : ℕ) (keyword status : String) (db : Db)
      → is_status (normal_status status) ≡ true
      → page limit keyword status db
        ≡ ok (
          take (limit_or_default limit) (passed keyword (normal_status status) db),
          count
              (passes (record { keyword = keyword; status = normal_status status }))
              db.audit_logs,
        )
  unfolding audit_logs_page_filtered transaction statement pure ◌>>=◌
  page_run limit keyword status db e = rw (page, e) refl

  normal_lem :
      (status : String)
      → to_lower (trim_space status) ≡ status
      → (status == "") ≡ false
      → normal_status status ≡ status
  normal_lem status e n = rw e (rw n refl)

  all_shown :
      (limit : ℕ) (p : AuditLog → Bool) (xs : List AuditLog)
      → 1 ≤ limit
      → length xs ≤ limit
      → ◌≡◌ {A = Result (List AuditLog × ℕ)}
          (ok (take (limit_or_default limit) (select p xs), count p xs))
          (ok (select p xs, length (select p xs)))
  all_shown limit p xs k h =
      let taken =
        take_all limit (select p xs) (omega (arith, h, length-select p xs, count-le-length p xs)) in
      ground (arith, k, taken, length-select p xs)

  abbrev shown_as : ℕ → String → Db → String → Result (List AuditLog × ℕ)
  shown_as limit keyword db s =
      let p : AuditLog → Bool = λ l. has_keyword (trim_space keyword) l && has_status s l in
      ok (take (limit_or_default limit) (select p db.audit_logs), count p db.audit_logs)

  page_lem :
      (limit : ℕ) (keyword status : String) (db : Db)
      → to_lower (trim_space status) ≡ status
      → is_status status ≡ true
      → (status == "") ≡ false
      → 1 ≤ limit
      → length db.audit_logs ≤ limit
      → page limit keyword status db
        ≡ ok (passing keyword status db, length (passing keyword status db))
  page_lem limit keyword status db e i n k h =
      let same = normal_lem status e n in
      page_run limit keyword status db (rw same i)
      ∙ rw same (ap (shown_as limit keyword db) e ∙ all_shown limit _ db.audit_logs k h)

  abbrev shown : List AuditLog → Result (List AuditLog × ℕ)
  shown xs = ok (xs, length xs)

  blank : trim_space "" ≡ "" → (x : AuditLog) → (has_keyword (trim_space "") x && true) ≡ true
  unfolding has_keyword
  blank b x = rw b refl

  -- When the driver fails no call, and the limit is positive and no less than the length of the log,
  -- the first page without a keyword shows the whole log; with any keyword, the page of the failures
  -- shows those events of the page of all whose action is a failure's, in order, and the page of the
  -- successes the others, and each page reports as its total the number of its rows. Trimming is to
  -- leave the empty text, and trimming and lower-casing the three words, as they are.
  pub failures_and_successes :
      (limit : ℕ) (keyword : String) (db : Db)
      → trim_space "" ≡ ""
      → to_lower (trim_space "failed") ≡ "failed"
      → to_lower (trim_space "ok") ≡ "ok"
      → to_lower (trim_space "all") ≡ "all"
      → 1 ≤ limit
      → length db.audit_logs ≤ limit
      → (page limit "" "all" db ≡ ok (db.audit_logs, length db.audit_logs))
        × ((found : List AuditLog) × (page limit keyword "all" db ≡ ok (found, length found))
            × (page limit keyword "failed" db
                ≡ ok (select failing found, length (select failing found)))
            × (page limit keyword "ok" db
                ≡ ok (select succeeding found, length (select succeeding found))))
  failures_and_successes limit keyword db b f o l k h = (
    page_lem limit "" "all" db l refl refl k h
        ∙ rw (select_all (λ x. has_keyword (trim_space "") x && true) db.audit_logs (blank b)) refl,
    (
      passing keyword "all" db,
      page_lem limit keyword "all" db l refl refl k h,
      page_lem limit keyword "failed" db f refl refl k h
          ∙ ap shown (select-select (has_keyword (trim_space keyword)) failing db.audit_logs),
      page_lem limit keyword "ok" db o refl refl k h
          ∙ ap shown (select-select (has_keyword (trim_space keyword)) succeeding db.audit_logs),
    ),
  )
