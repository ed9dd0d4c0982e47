-- ===== src/Submission/Laws.antt =====
-- Which submissions are accepted, and what a refused one leaves behind.
use Prim.Native.String.{String}
use text.Mathlib.Text.{◌==◌ as str_eq}
use text.Mathlib.TextEquality.{eq_iff}
use roadwatch.Prelude.{
  ℕ, ◌≤◌, ltb, ◌≡◌, ◌≢◌, ◌↔◌, refl, inl, inr, Option, none, some, Bool, true, false, not, ◌||◌,
  if◌then◌else◌, arith, Bool-cases,
}
use roadwatch.Prelude.Text.{Text}
use roadwatch.Karma.{KarmaRecord, can_user_submit, is_banned}
use roadwatch.Nonce.{is_nonce_fresh}
use roadwatch.Verification.{Geo}
use roadwatch.Submission.Store.{Db, ServerNonce, karma_of, get_or_create_record, get_nonce}
use roadwatch.Submission.Accept.{
  Query, Answer, missing_fields, refused, created, karma_config, accept, with_nonce,
  post_submission,
}

abbrev pub IsCreated : Answer → Type 0
IsCreated (created s r) = Unit
IsCreated _ = ⊥

-- A row that makes a nonce good for a request at a time.
abbrev pub GoodNonce : String → String → ℕ → Db → Type 0
GoodNonce nonce request_id now db =
    (row : ServerNonce) × (get_nonce nonce db ≡ some row)
    × (is_nonce_fresh row.issued_at row.expires_at now ≡ true)
    × (row.request_id ≡ request_id)

gates :
    (b c : Bool) (x y z : Answer × Db)
    → (IsCreated x.0 → ⊥)
    → (IsCreated y.0 → ⊥)
    → IsCreated (if b then x else if not c then y else z).0
      ↔ ((b ≡ false) × (c ≡ true) × IsCreated z.0)
gates true c x y z nx ny = ((λ h. absurd (nx h)), λ (e, _, _). absurd (ground arith))
gates false true x y z nx ny = ((λ h. (refl, refl, h)), λ (_, _, h). h)
gates false false x y z nx ny = ((λ h. absurd (ny h)), λ (_, e, _). absurd (ground arith))

no_blank :
    (s t u : String)
    → (str_eq s "" || str_eq t "" || str_eq u "" ≡ false) ↔ ((s ≢ "") × (t ≢ "") × (u ≢ ""))
no_blank s t u =
    let e1 = eq_iff s "" in
    let e2 = eq_iff t "" in
    let e3 = eq_iff u "" in ((λ h. ground (arith, e1, e2, e3)), λ h. ground (arith, e1, e2, e3))

module _ (g : Geo) (to_iso_string : ℕ → Text) (read_date : Option Text → Option Text) where
  with_nonce-IsCreated :
      (q : Query g) (phash : Text) (found : Option ServerNonce) (karma : KarmaRecord)
      (row_id : String) (now : ℕ) (db : Db)
      → IsCreated (with_nonce g to_iso_string read_date q phash found karma row_id now db).0 ↔ (
          (row : ServerNonce) × (found ≡ some row)
          × (is_nonce_fresh row.issued_at row.expires_at now ≡ true)
          × (row.request_id ≡ q.request_id))
  unfolding with_nonce accept
  with_nonce-IsCreated q phash none karma row_id now db =
      ((λ h. absurd h), λ (row, e, _, _). absurd (ground arith))
  with_nonce-IsCreated q phash (some row) karma row_id now db =
      let same = eq_iff row.request_id q.request_id in
      elim (Bool-cases (is_nonce_fresh row.issued_at row.expires_at now)) [
        | inl fresh ↦ elim (Bool-cases (str_eq row.request_id q.request_id)) [
          | inl e ↦ ((λ _. (row, refl, fresh, same.0 e)), λ _. rw (fresh, e) tt)
          | inr n ↦ (
            (λ h. absurd (rw (fresh, n) at h)),
            λ (other, e, f, k). absurd (ground (arith, same.1)),
          )
        ]
        | inr stale ↦ ((λ h. absurd (rw stale at h)), λ (other, e, f, k). absurd (ground arith))
      ]

  -- A submission is accepted exactly if the three required fields are there, the user may submit,
  -- and the nonce has a row that is fresh and was issued for the request: whether the nonce was
  -- used before, and to whom it was issued, is not among the conditions.
  pub post_submission_iff :
      (q : Query g) (phash : Text) (row_id : String) (now : ℕ) (db : Db)
      → let karma = karma_of q.user db in
        IsCreated (post_submission g to_iso_string read_date q phash row_id now db).0 ↔ (
          (q.user ≢ "")
          × (q.request_id ≢ "")
          × (q.nonce ≢ "")
          × ((can_user_submit to_iso_string karma karma_config
                (read_date karma.last_submission_date)
                now).allowed
              ≡ true)
          × GoodNonce q.nonce q.request_id now db)
  unfolding post_submission get_or_create_record get_nonce
  post_submission_iff q phash row_id now db =
      let karma = karma_of q.user db in
      let found = (get_or_create_record q.user db).1 in
      let can =
        can_user_submit to_iso_string karma karma_config (read_date karma.last_submission_date)
          now in
      let w = with_nonce-IsCreated q phash (get_nonce q.nonce found) karma row_id now found in
      let blank = no_blank q.user q.request_id q.nonce in
      let both =
        gates (str_eq q.user "" || str_eq q.request_id "" || str_eq q.nonce "") can.allowed
          (missing_fields, db) (refused can, found)
          (with_nonce g to_iso_string read_date q phash (get_nonce q.nonce found) karma row_id now
            found)
          (λ h. h) (λ h. h) in
      (
        (λ h. let (b, c, k) = both.0 h in let (x, y, z) = blank.0 b in (x, y, z, c, w.0 k)),
        λ (x, y, z, c, k). both.1 (blank.1 (x, y, z), c, w.1 k),
      )

  -- Where the database gives the date of the last submission back as something that is no text, as
  -- the driver does a column of dates: a submission whose fields are there and whose nonce is good
  -- is accepted from a user who is neither banned nor suspended, however many were made that day.
  pub post_submission-unlimited :
      (q : Query g) (phash : Text) (row_id : String) (now : ℕ) (db : Db)
      → ((d : Option Text) → read_date d ≡ none)
      → (q.user ≢ "") × (q.request_id ≢ "") × (q.nonce ≢ "")
      → is_banned (karma_of q.user db).tier ≡ false
      → (karma_of q.user db).suspended_until ≤ now
      → GoodNonce q.nonce q.request_id now db
      → IsCreated (post_submission g to_iso_string read_date q phash row_id now db).0
  unfolding can_user_submit roadwatch.Karma.is_today
  post_submission-unlimited q phash row_id now db no_text (a, b, c) free past good =
      let karma = karma_of q.user db in
      let may : ltb now karma.suspended_until ≡ false = ground arith in
      (post_submission_iff q phash row_id now db).1
        (a, b, c, rw (free, may, no_text karma.last_submission_date) refl, good)
