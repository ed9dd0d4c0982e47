-- ===== src/Submission/Store.antt =====
-- The tables that the submission routes read and write, as packages/core/src/db-helpers.ts does
-- (`KarmaDB`, `NonceDB`, `createSubmission`). Times are milliseconds.
use Prim.Native.String.{String}
use text.Mathlib.Text.{◌==◌ as str_eq}
use roadwatch.Prelude.{
  ℕ, ◌+◌, ◌*◌, ◌-◌, ltb, take, ite, List, [], ◌∷◌, Option, none, some, Bool, true, false, ◌&&◌, leb,
  if◌then◌else◌, max,
}
use roadwatch.Prelude.Int.{ℤ, pos, ◌+ℤ◌}
use roadwatch.Prelude.Text.{Text, Text-discrete}
use roadwatch.Karma.{KarmaTier, standard, KarmaRecord, is_today}
use roadwatch.Verification.{VerificationCheck}

-- A row of `server_nonces`; `nonce` is its primary key.
pub record ServerNonce : Type 0 where
  pub nonce : String
  pub user_id : String
  pub request_id : String
  pub issued_at : ℕ
  pub expires_at : ℕ
  pub used : Bool

pub data VerifiedStatus : Type 0 where
  verified flagged : VerifiedStatus

-- The columns of a submission that the routes decide on.
pub record ImageSubmission : Type 0 where
  pub id : String
  pub request_id : String
  pub server_received_at : ℕ
  pub exif_timestamp : Option ℕ
  pub nonce : String
  pub phash : Text
  pub verified_status : VerifiedStatus
  pub check_results : List VerificationCheck
  pub created_by_id : String

pub record Db : Type 0 where
  pub karma : String → Option KarmaRecord
  pub nonces : List ServerNonce
  pub submissions : List ImageSubmission
  pub audits : List (String × VerificationCheck)

abbrev pub or_default {ℓ} : {A : Type ℓ} → Option A → A → A
or_default none d = d
or_default (some a) d = a

unfoldable pub fresh_karma : String → KarmaRecord
fresh_karma user = record {
  user_id = user;
  score = pos 100;
  tier = standard;
  penalty_count = 0;
  suspended_until = 0;
  ban_reason = none;
  daily_submission_count = 0;
  last_submission_date = none;
}

abbrev pub put_karma : String → KarmaRecord → Db → Db
put_karma user k db = record db { karma = λ u. if str_eq u user then some k else db.karma u }

unfoldable pub karma_of : String → Db → KarmaRecord
unfolding fresh_karma
karma_of user db = or_default (db.karma user) (fresh_karma user)

-- `INSERT … ON CONFLICT … RETURNING *`: the row of the user, made where there was none.
unfoldable pub get_or_create_record : String → Db → KarmaRecord × Db
unfolding karma_of
get_or_create_record user db = (karma_of user db, put_karma user (karma_of user db) db)

unfoldable pub update_row : String → (KarmaRecord → KarmaRecord) → Option KarmaRecord → Db → Db
update_row user f none db = db
update_row user f (some k) db = put_karma user (f k) db

unfoldable pub update_karma : String → (KarmaRecord → KarmaRecord) → Db → Db
unfolding update_row
update_karma user f db = update_row user f (db.karma user) db

unfoldable pub update_karma_score : String → ℤ → KarmaTier → Db → Db
unfolding update_karma
update_karma_score user delta tier =
    update_karma user (λ k. record k { score = k.score +ℤ delta; tier = tier })

unfoldable pub record_penalty : String → ℕ → ℕ → Option Text → Db → Db
unfolding update_karma
record_penalty user count until reason =
    update_karma user
      (λ k. record k { penalty_count = count; suspended_until = until; ban_reason = reason })

unfoldable pub increment_daily_submission_count : String → Text → Db → Db
unfolding update_karma
increment_daily_submission_count user day = update_karma user (λ k. record k {
  daily_submission_count =
      if is_today k.last_submission_date day then k.daily_submission_count + 1 else 1;
  last_submission_date = some day;
})

unfoldable pub find_nonce : String → List ServerNonce → Option ServerNonce
find_nonce nonce [] = none
find_nonce nonce (row ∷ rows) =
    let rest = find_nonce nonce rows in if str_eq row.nonce nonce then some row else rest

unfoldable pub get_nonce : String → Db → Option ServerNonce
unfolding find_nonce
get_nonce nonce db = find_nonce nonce db.nonces

unfoldable pub insert_row : ServerNonce → Option ServerNonce → Db → Option Db
insert_row row none db = some (record db { nonces = row ∷ db.nonces })
insert_row row (some other) db = none

-- A second row with the nonce violates the primary key and is not written.
unfoldable pub create_nonce : ServerNonce → Db → Option Db
unfolding get_nonce insert_row
create_nonce row db = insert_row row (get_nonce row.nonce db) db

unfoldable pub mark_row : String → List ServerNonce → List ServerNonce
mark_row nonce [] = []
mark_row nonce (row ∷ rows) =
    (if str_eq row.nonce nonce then record row { used = true } else row) ∷ mark_row nonce rows

unfoldable pub mark_nonce_used : String → Db → Db
unfolding mark_row
mark_nonce_used nonce db = record db { nonces = mark_row nonce db.nonces }

-- The rows of the user of the last minute, `COUNT(*)` and `MAX(issued_at)`, which is 0 for none.
abbrev counts : String → ℕ → ServerNonce → Bool
counts user now row = str_eq row.user_id user && leb now (row.issued_at + 60000)

attempts : String → ℕ → List ServerNonce → ℕ × ℕ
attempts user now [] = (0, 0)
attempts user now (row ∷ rows) =
    let rest = attempts user now rows in
    if counts user now row then (rest.0 + 1, max row.issued_at rest.1) else rest

unfoldable pub recent_attempts : String → ℕ → Db → ℕ × ℕ
unfolding attempts
recent_attempts user now db = attempts user now db.nonces

unfoldable pub create_submission : ImageSubmission → Db → Db
create_submission s db = record db { submissions = s ∷ db.submissions }

unfoldable pub create_audits : String → List VerificationCheck → Db → Db
create_audits id [] db = db
create_audits id (check ∷ checks) db =
    create_audits id checks (record db { audits = (id, check) ∷ db.audits })

has_text : Text → List Text → Bool
has_text t [] = false
has_text t (u ∷ us) = let rest = has_text t us in ite (Text-discrete t u) true rest

distinct : List ImageSubmission → List Text
unfolding has_text
distinct [] = []
distinct (s ∷ rows) =
    let rest = distinct rows in if has_text s.phash rest then rest else s.phash ∷ rest

recent_rows : String → ℕ → List ImageSubmission → List ImageSubmission
recent_rows request_id cutoff [] = []
recent_rows request_id cutoff (s ∷ rows) =
    let rest = recent_rows request_id cutoff rows in
    if str_eq s.request_id request_id && ltb cutoff s.server_received_at then s ∷ rest else rest

-- `LIMIT 50` has no order: of more hashes the database may return any 50, here the first.
unfoldable pub get_recent_phashes : String → ℕ → ℕ → Db → List Text
unfolding distinct recent_rows
get_recent_phashes request_id lookback_minutes now db =
    take 50 (distinct (recent_rows request_id (now - lookback_minutes * 60 * 1000) db.submissions))
