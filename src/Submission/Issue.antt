-- ===== src/Submission/Issue.antt =====
-- POST /submissions/nonce of backend-api/src/routes/image-submissions.ts. `random` is what
-- `generateNonce` draws, `db_now` the database's clock and `now` the server's. A database error is
-- the answer 500.
use Prim.Native.String.{String}
use text.Mathlib.Text.{◌==◌ as str_eq}
use roadwatch.Prelude.{ℕ, ◌||◌, ◌==◌, Option, none, some, Bool, true, false, not, if◌then◌else◌}
use roadwatch.Karma.{KarmaTier, suspended, banned}
use roadwatch.Nonce.{NonceRecord, RateCheck, create_nonce_record, can_generate_nonce}
use roadwatch.Submission.Store.{
  Db, ServerNonce, get_or_create_record, recent_attempts, create_nonce,
}

pub data IssueAnswer : Type 0 where
  issue_bad_request : IssueAnswer
  issue_rate_limited : RateCheck → IssueAnswer
  issue_barred : KarmaTier → IssueAnswer
  issued : NonceRecord → ℕ → IssueAnswer
  issue_server_error : IssueAnswer

abbrev default_ttl : ℕ
default_ttl = 300

-- `ttl_seconds || VERIFICATION_CONFIG.nonce_ttl_seconds`
unfoldable pub ttl_or_default : Option ℕ → ℕ
ttl_or_default none = default_ttl
ttl_or_default (some ttl) = if ttl == 0 then default_ttl else ttl

unfoldable pub is_barred : KarmaTier → Bool
is_barred suspended = true
is_barred banned = true
is_barred _ = false

unfoldable pub answer_of : NonceRecord → ℕ → Db → Option Db → IssueAnswer × Db
answer_of r ttl db none = (issue_server_error, db)
answer_of r ttl db (some stored) = (issued r ttl, stored)

abbrev pub row_of : NonceRecord → String → String → ℕ → ServerNonce
row_of r user request_id db_now = record {
  nonce = r.nonce;
  user_id = user;
  request_id = request_id;
  issued_at = db_now;
  expires_at = r.expires_at;
  used = false;
}

unfoldable pub store_nonce : NonceRecord → ℕ → String → String → ℕ → Db → IssueAnswer × Db
unfolding answer_of
store_nonce r ttl user request_id db_now db =
    answer_of r ttl db (create_nonce (row_of r user request_id db_now) db)

unfoldable pub post_nonce :
    (user request_id : String) (ttl_seconds : Option ℕ) (random : String) (db_now now : ℕ)
    → Db
    → IssueAnswer × Db
unfolding ttl_or_default
post_nonce user request_id ttl_seconds random db_now now db =
    let rate =
      can_generate_nonce (recent_attempts user db_now db).0 (recent_attempts user db_now db).1 10
        now in
    let found = get_or_create_record user db in
    let ttl = ttl_or_default ttl_seconds in
    if str_eq user "" || str_eq request_id ""
    then (issue_bad_request, db)
    else if not rate.allowed
    then (issue_rate_limited rate, db)
    else if is_barred found.0.tier
    then (issue_barred found.0.tier, found.1)
    else store_nonce (create_nonce_record random ttl now) ttl user request_id db_now found.1
