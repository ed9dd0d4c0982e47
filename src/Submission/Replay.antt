-- ===== src/Submission/Replay.antt =====
-- What becomes of a nonce: one that was issued is accepted, and one that was used is so again.
use Prim.Native.String.{String}
use text.Mathlib.Text.{◌==◌ as str_eq}
use text.Mathlib.TextEquality.{eq_iff}
use roadwatch.Prelude.{
  ℕ, ◌+◌, ◌*◌, ◌≤◌, ◌≡◌, ◌≢◌, refl, subst, ap, sym, ◌∙◌, inl, inr, List, [], ◌∷◌, Option, none,
  some, true, ◌||◌, arith, Bool-cases,
}
use roadwatch.Prelude.Text.{Text}
use roadwatch.Karma.{KarmaTier, can_user_submit}
use roadwatch.Nonce.{
  RateCheck, is_nonce_fresh, NonceRecord, create_nonce_record, can_generate_nonce,
}
use roadwatch.Verification.{Geo}
use roadwatch.Submission.Store.{
  Db, ServerNonce, karma_of, get_or_create_record, find_nonce, get_nonce, mark_row, create_nonce,
  insert_row, or_default, recent_attempts,
}
use roadwatch.Submission.Issue.{
  issued, issue_bad_request, issue_rate_limited, issue_barred, post_nonce, is_barred, answer_of,
  row_of, store_nonce, ttl_or_default,
}
use roadwatch.Submission.Accept.{Query, karma_config, post_submission}
use roadwatch.Submission.Laws.{IsCreated, GoodNonce, post_submission_iff}
use roadwatch.Submission.Rows.{get_or_create_record-day_count}
use roadwatch.Submission.Limits.{post_submission-cases, accept-rows}

-- A row keeps all but `used`.
find_nonce-mark_row :
    (m n : String) (rows : List ServerNonce) (row : ServerNonce)
    → find_nonce n rows ≡ some row
    → (row' : ServerNonce) × (find_nonce n (mark_row m rows) ≡ some row')
      × (row'.issued_at ≡ row.issued_at)
      × (row'.expires_at ≡ row.expires_at)
      × (row'.request_id ≡ row.request_id)
unfolding find_nonce mark_row
find_nonce-mark_row m n [] row h = absurd (ground arith)
find_nonce-mark_row m n (r ∷ rows) row h = elim (Bool-cases (str_eq r.nonce n)) [
  | inl here ↦ elim (Bool-cases (str_eq r.nonce m)) [
    | inl marked ↦ (
      record r { used = true },
      rw (marked, here) refl,
      (fields here).0,
      (fields here).1,
      (fields here).2,
    )
    | inr kept ↦ (r, rw (kept, here) refl, (fields here).0, (fields here).1, (fields here).2)
  ]
  | inr there ↦ elim (Bool-cases (str_eq r.nonce m)) [
    | inl marked ↦
        let (x, e, i, f, k) = find_nonce-mark_row m n rows row (rw there at h) in
        (x, rw (marked, there) e, i, f, k)
    | inr kept ↦
        let (x, e, i, f, k) = find_nonce-mark_row m n rows row (rw there at h) in
        (x, rw (kept, there) e, i, f, k)
  ]
]
  where
    some_inj : some r ≡ some row → r ≡ row
    some_inj e = cc

    fields :
        str_eq r.nonce n ≡ true
        → (r.issued_at ≡ row.issued_at)
          × (r.expires_at ≡ row.expires_at)
          × (r.request_id ≡ row.request_id)
    fields here =
        let e = some_inj (rw here at h) in
        (ap (λ x. x.issued_at) e, ap (λ x. x.expires_at) e, ap (λ x. x.request_id) e)

GoodNonce-mark_row :
    (m n request_id : String) (now : ℕ) (db db' : Db)
    → db'.nonces ≡ mark_row m db.nonces
    → GoodNonce n request_id now db
    → GoodNonce n request_id now db'
unfolding get_nonce
GoodNonce-mark_row m n request_id now db db' e (row, found, fresh, same) =
    let (row', found', i, x, r) = find_nonce-mark_row m n db.nonces row found in
    (row', rw e found', rw (i, x) fresh, r ∙ same)

module _ (g : Geo) (to_iso_string : ℕ → Text) (read_date : Option Text → Option Text) where
  -- A nonce is not consumed: after any submission, a submission that fills its three required fields
  -- from a user who may then submit is accepted if its nonce was good for its request before, at the
  -- present time; that holds also where the first was accepted with the nonce and marked it used.
  pub post_submission-replay :
      (q q' : Query g) (phash phash' : Text) (row_id row_id' : String) (now now' : ℕ) (db : Db)
      → let db' = (post_submission g to_iso_string read_date q phash row_id now db).1 in
        let karma = karma_of q'.user db' in
        (q'.user ≢ "") × (q'.request_id ≢ "") × (q'.nonce ≢ "")
        → (can_user_submit to_iso_string karma karma_config
            (read_date karma.last_submission_date)
            now').allowed
          ≡ true
        → GoodNonce q'.nonce q'.request_id now' db
        → IsCreated (post_submission g to_iso_string read_date q' phash' row_id' now' db').0
  unfolding get_nonce
  post_submission-replay q q' phash phash' row_id row_id' now now' db (a, b, c) can good =
      let db' = (post_submission g to_iso_string read_date q phash row_id now db).1 in
      let same = get_or_create_record-day_count q.user db in
      (post_submission_iff g to_iso_string read_date q' phash' row_id' now' db').1 (
        a,
        b,
        c,
        can,
        elim (post_submission-cases g to_iso_string read_date q phash row_id now db) [
          | inl kept ↦ (good.0, rw (kept.0.0) (good.1), good.2, good.3)
          | inr accepted ↦
              let rows =
                accept-rows g to_iso_string read_date q phash accepted.1.0 (karma_of q.user db)
                  row_id now (get_or_create_record q.user db).1 same.2 in
              GoodNonce-mark_row q.nonce q'.nonce q'.request_id now' db db'
                (rw (accepted.1.1) (rows.0 ∙ ap (mark_row q.nonce) same.0.0)) good
        ],
      )

get_nonce-insert_row :
    (row : ServerNonce) (o : Option ServerNonce) (db db' : Db)
    → insert_row row o db ≡ some db'
    → get_nonce row.nonce db' ≡ some row
unfolding insert_row get_nonce find_nonce
get_nonce-insert_row row none db db' h =
    rw (sym (ap (λ o. or_default o db) h), (eq_iff row.nonce row.nonce).1 refl) refl
get_nonce-insert_row row (some other) db db' h = absurd (ground arith)

answered :
    (r0 r : NonceRecord) (ttl0 ttl : ℕ) (o : Option Db) (db : Db)
    → (answer_of r0 ttl0 db o).0 ≡ issued r ttl
    → (o ≡ some (answer_of r0 ttl0 db o).1) × (r0 ≡ r) × (ttl0 ≡ ttl)
unfolding answer_of
answered r0 r ttl0 ttl none db h = absurd (ground arith)
answered r0 r ttl0 ttl (some stored) db h = (refl, cc, cc)

store_nonce-GoodNonce :
    (user request_id random : String) (ttl0 db_now now : ℕ) (db : Db) (r : NonceRecord)
    (ttl later : ℕ)
    → let answer =
        store_nonce (create_nonce_record random ttl0 now) ttl0 user request_id db_now db in
      answer.0 ≡ issued r ttl
      → db_now ≤ later
      → later ≤ now + ttl * 1000
      → (ttl0 ≡ ttl) × GoodNonce r.nonce request_id later answer.1
unfolding store_nonce create_nonce create_nonce_record is_nonce_fresh
store_nonce-GoodNonce user request_id random ttl0 db_now now db r ttl later h from to =
    let r0 = create_nonce_record random ttl0 now in
    let row = row_of r0 user request_id db_now in
    let (stored, e, t) = answered r0 r ttl0 ttl (create_nonce row db) db h in
    let found =
      get_nonce-insert_row row (get_nonce row.nonce db) db
        (answer_of r0 ttl0 db (create_nonce row db)).1 stored in
    (
      t,
      (
        row,
        subst (λ x. get_nonce x.nonce (answer_of r0 ttl0 db (create_nonce row db)).1 ≡ some row) e
            found,
        rw t (ground arith),
        refl,
      ),
    )

-- A nonce that the route issued for a request is good for it from the database's time of issue to
-- the expiry in the answer, both ends included; the lifetime is the one asked for, and the default
-- for none or 0.
pub post_nonce-GoodNonce :
    (user request_id random : String) (ttl_seconds : Option ℕ) (db_now now : ℕ) (db : Db)
    (r : NonceRecord) (ttl later : ℕ)
    → let answer = post_nonce user request_id ttl_seconds random db_now now db in
      answer.0 ≡ issued r ttl
      → db_now ≤ later
      → later ≤ now + ttl * 1000
      → (ttl_or_default ttl_seconds ≡ ttl) × GoodNonce r.nonce request_id later answer.1
unfolding post_nonce
post_nonce-GoodNonce user request_id random ttl_seconds db_now now db r ttl later h from to =
    let rate =
      can_generate_nonce (recent_attempts user db_now db).0 (recent_attempts user db_now db).1 10
        now in
    let found = get_or_create_record user db in
    let ttl0 = ttl_or_default ttl_seconds in
    elim (Bool-cases (str_eq user "" || str_eq request_id "")) [
      | inl blank ↦ absurd (no_bad (rw blank at h))
      | inr full ↦ elim (Bool-cases rate.allowed) [
        | inr limited ↦ absurd (no_rate _ (rw (full, limited) at h))
        | inl ok ↦ elim (Bool-cases (is_barred found.0.tier)) [
          | inl barred ↦ absurd (no_barred _ (rw (full, ok, barred) at h))
          | inr free ↦
              let good =
                store_nonce-GoodNonce user request_id random ttl0 db_now now found.1 r ttl later
                  (rw (full, ok, free) at h) from to in
              rw (full, ok, free) good
        ]
      ]
    ]
  where
    no_bad : issue_bad_request ≡ issued r ttl → ⊥
    no_bad e = ground arith

    no_rate : (c : RateCheck) → issue_rate_limited c ≡ issued r ttl → ⊥
    no_rate c e = ground arith

    no_barred : (t : KarmaTier) → issue_barred t ≡ issued r ttl → ⊥
    no_barred t e = ground arith
