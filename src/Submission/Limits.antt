-- ===== src/Submission/Limits.antt =====
-- The daily limit on submissions, over any sequence of requests of a day.
use Prim.Native.String.{String}
use text.Mathlib.Text.{◌==◌ as str_eq}
use roadwatch.Prelude.{
  ℕ, ◌+◌, ◌≤◌, ◌≡◌, ◌⊎◌, refl, ap, ◌∙◌, inl, inr, List, [], ◌∷◌, Option, none, some, true, ◌||◌,
  ◌&&◌, if◌then◌else◌, Bool-cases,
}
use roadwatch.Prelude.Text.{Text}
use roadwatch.Karma.{KarmaRecord, can_user_submit, is_today, today}
use roadwatch.Nonce.{is_nonce_fresh}
use roadwatch.Verification.{Geo}
use roadwatch.Submission.Store.{
  Db, ServerNonce, ImageSubmission, karma_of, get_or_create_record, get_nonce, mark_row,
  mark_nonce_used, create_submission, create_audits, get_recent_phashes,
}
use roadwatch.Submission.Accept.{
  Query, karma_config, accept, with_nonce, post_submission, settle_karma, verified_status_of,
  is_duplicate, verify, submission_of,
}
use roadwatch.Submission.Rows.{
  SameRows, SameDays, day_count, has_row, Tame-trans, create_audits-Tame, settle_karma-Tame,
  increment-day_count, get_or_create_record-day_count,
}

module _ (g : Geo) (to_iso_string : ℕ → Text) (read_date : Option Text → Option Text) where
  -- What acceptance does to the tables.
  pub accept-rows :
      (q : Query g) (phash : Text) (row : ServerNonce) (karma : KarmaRecord) (row_id : String)
      (now : ℕ) (db : Db)
      → has_row (db.karma q.user) ≡ true
      → let after = (accept g to_iso_string read_date q phash row karma row_id now db).1 in
        (after.nonces ≡ mark_row q.nonce db.nonces)
        × ((s : ImageSubmission) × (after.submissions ≡ s ∷ db.submissions)
            × (s.created_by_id ≡ q.user)
            × (s.server_received_at ≡ now))
        × ((u : String)
            → day_count (after.karma u) (today to_iso_string now)
              ≡ day_count (db.karma u) (today to_iso_string now)
                + (if str_eq u q.user then 1 else 0))
  unfolding accept mark_nonce_used submission_of create_submission
  accept-rows q phash row karma row_id now db h =
      let recent = get_recent_phashes q.request_id 60 now db in
      let result = verify g to_iso_string read_date q phash row recent now in
      let duplicate = is_duplicate phash recent in
      let status = verified_status_of result.passed duplicate in
      let s = submission_of g to_iso_string read_date q phash status result.checks row_id now in
      let first = create_submission s db in
      let saved = create_audits row_id result.checks first in
      let settled = settle_karma status duplicate q.user row_id karma now saved in
      let spent = mark_nonce_used q.nonce settled in
      let tame =
        Tame-trans first saved settled (create_audits-Tame row_id result.checks first)
          (settle_karma-Tame status duplicate q.user row_id karma now saved) in
      let up = increment-day_count q.user (today to_iso_string now) spent (tame.2 q.user ∙ h) in
      (
        up.0.0 ∙ ap (mark_row q.nonce) tame.0.0,
        (s, up.0.1 ∙ tame.0.1, refl, refl),
        λ u.
            up.1 u
            ∙ ap (λ n. n + (if str_eq u q.user then 1 else 0)) (tame.1 u (today to_iso_string now)),
      )

  with_nonce-cases :
      (q : Query g) (phash : Text) (o : Option ServerNonce) (karma : KarmaRecord) (row_id : String)
      (now : ℕ) (db : Db)
      → let after = (with_nonce g to_iso_string read_date q phash o karma row_id now db).1 in
        (after ≡ db)
        ⊎ ((row : ServerNonce) × (o ≡ some row)
            × (after ≡ (accept g to_iso_string read_date q phash row karma row_id now db).1))
  unfolding with_nonce
  with_nonce-cases q phash none karma row_id now db = inl refl
  with_nonce-cases q phash (some row) karma row_id now db =
      elim (Bool-cases (is_nonce_fresh row.issued_at row.expires_at now)) [
        | inl fresh ↦ elim (Bool-cases (str_eq row.request_id q.request_id)) [
          | inl e ↦ inr (row, refl, rw (fresh, e) refl)
          | inr n ↦ inl (rw (fresh, n) refl)
        ]
        | inr stale ↦ inl (rw stale refl)
      ]

  -- Either no row of a nonce, no submission and no daily count changes, or the user may submit and
  -- the answer of the tables is that of acceptance.
  pub post_submission-cases :
      (q : Query g) (phash : Text) (row_id : String) (now : ℕ) (db : Db)
      → let karma = karma_of q.user db in
        let found = (get_or_create_record q.user db).1 in
        let after = (post_submission g to_iso_string read_date q phash row_id now db).1 in
        (SameRows db after × SameDays db after)
        ⊎ (((can_user_submit to_iso_string karma karma_config
                (read_date karma.last_submission_date)
                now).allowed
              ≡ true)
            × ((row : ServerNonce) × (after
                  ≡ (accept g to_iso_string read_date q phash row karma row_id now found).1)))
  unfolding post_submission get_or_create_record
  post_submission-cases q phash row_id now db =
      let karma = karma_of q.user db in
      let found = (get_or_create_record q.user db).1 in
      let can =
        can_user_submit to_iso_string karma karma_config (read_date karma.last_submission_date)
          now in
      let same = get_or_create_record-day_count q.user db in
      elim (Bool-cases (str_eq q.user "" || str_eq q.request_id "" || str_eq q.nonce "")) [
        | inl blank ↦ inl (rw blank ((refl, refl), λ u day. refl))
        | inr full ↦ elim (Bool-cases can.allowed) [
          | inr refusal ↦ inl (rw (full, refusal) (same.0, same.1))
          | inl yes_can ↦
              elim (with_nonce-cases q phash (get_nonce q.nonce found) karma row_id now found) [
                | inl e ↦ inl (rw (full, yes_can, e) (same.0, same.1))
                | inr (row, _, e) ↦ inr (yes_can, (row, rw (full, yes_can, e) refl))
              ]
        ]
      ]

module _ (to_iso_string : ℕ → Text) where
  -- The submissions of a user that were received on a day.
  abbrev pub submitted : String → Text → List ImageSubmission → ℕ
  submitted user day [] = 0
  submitted user day (s ∷ rows) =
      submitted user day rows
      + (if str_eq user s.created_by_id
            && is_today (some (today to_iso_string s.server_received_at)) day
          then 1
          else 0)

  abbrev pub WithinLimit : Text → Db → Type 0
  WithinLimit day db =
      (u : String)
      → (submitted u day db.submissions ≤ day_count (db.karma u) day)
        × (day_count (db.karma u) day ≤ 10)

module _ (g : Geo) (to_iso_string : ℕ → Text) (read_date : Option Text → Option Text) where
  abbrev post : Query g → Text → String → ℕ → Db → Db
  post q phash row_id now db = (post_submission g to_iso_string read_date q phash row_id now db).1

  -- A submission that is sent, with the hash of its image, the key of its row and the time.
  abbrev pub Sent : Type 0
  Sent = Query g × Text × String × ℕ

  abbrev pub post_all : List Sent → Db → Db
  post_all [] db = db
  post_all ((q, phash, row_id, now) ∷ sent) db = post_all sent (post q phash row_id now db)
