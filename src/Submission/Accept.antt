-- ===== src/Submission/Accept.antt =====
-- POST /submissions of backend-api/src/routes/image-submissions.ts. The clock is read as `now`
-- throughout; `row_id` is the key that the database makes for the row, and `read_date` is what of the
-- stored date of the last submission the driver gives back, as a text or not as one.
use Prim.Native.String.{String}
use text.Mathlib.Text.{◌==◌ as str_eq}
use roadwatch.Prelude.{
  ℕ, ◌*◌, ◌||◌, ltb, List, [], ◌∷◌, Option, none, some, Bool, true, false, not, if◌then◌else◌,
}
use roadwatch.Prelude.Int.{pos, negsuc}
use roadwatch.Prelude.Text.{Text}
use roadwatch.Karma.{
  KarmaConfig, KarmaRecord, SubmitCheck, min_score, max_score, apply_valid_submission_bonus,
  apply_duplicate_penalty, escalate_penalty, calculate_new_score, get_tier_from_score,
  can_user_submit, today,
}
use roadwatch.Nonce.{is_nonce_fresh, get_time_remaining}
use roadwatch.Verification.{
  VerificationCheck, VerificationResult, Geo, Places, hamming_distance, perform_verification,
}
use roadwatch.Submission.Store.{
  Db, ServerNonce, ImageSubmission, VerifiedStatus, verified, flagged, get_or_create_record,
  update_karma_score, record_penalty, increment_daily_submission_count, get_nonce, mark_nonce_used,
  create_submission, create_audits, get_recent_phashes,
}

abbrev pub karma_config : KarmaConfig
karma_config = record {
  initial_score = pos 100;
  valid_submission_bonus = pos 10;
  flagged_penalty = negsuc 49;
  duplicate_penalty = negsuc 29;
  rejected_penalty = negsuc 74;
  appeal_success_restore = pos 30;
  daily_submission_limit = 10;
  suspension_threshold_score = negsuc 99;
  ban_threshold_penalty_count = 3;
}

abbrev pub phash_threshold : ℕ
phash_threshold = 10

-- `parseInt` and `parseFloat` of the query's strings are done, so that a value is there or is not,
-- and the radius is the one sent or the default of 50 metres.
pub record Query (g : Geo) : Type 0 where
  pub user : String
  pub request_id : String
  pub nonce : String
  pub exif_timestamp : Option ℕ
  pub places : Places g
  pub geofence_radius_meters : ℕ

pub data Answer : Type 0 where
  missing_fields : Answer
  refused : SubmitCheck → Answer
  invalid_nonce_sent : Answer
  nonce_expired_sent : ℕ → Answer
  wrong_request : Answer
  created : ImageSubmission → VerificationResult → Answer

-- The handler's own loop over the recent hashes.
near : Option ℕ → Bool
near none = false
near (some d) = not (ltb phash_threshold d)

unfoldable pub is_duplicate : Text → List Text → Bool
unfolding near
is_duplicate phash [] = false
is_duplicate phash (recent ∷ hashes) =
    let rest = is_duplicate phash hashes in
    if near (hamming_distance phash recent) then true else rest

unfoldable pub verified_status_of : Bool → Bool → VerifiedStatus
verified_status_of passed duplicate =
    if duplicate then flagged else if passed then verified else flagged

unfoldable pub reward : String → KarmaRecord → ℕ → Db → Db
reward user karma now db =
    let bonus = apply_valid_submission_bonus karma karma_config now in
    let new_score = calculate_new_score karma.score bonus min_score max_score in
    update_karma_score user bonus.delta
      (get_tier_from_score new_score karma.penalty_count karma.suspended_until now) db

unfoldable pub penalise : String → String → KarmaRecord → ℕ → Db → Db
penalise user id karma now db =
    let penalty = apply_duplicate_penalty karma karma_config id now in
    let new_score = calculate_new_score karma.score penalty min_score max_score in
    let e = escalate_penalty karma karma_config now in
    let tier = get_tier_from_score new_score e.new_penalty_count e.suspended_until now in
    let scored = update_karma_score user penalty.delta tier db in
    if ltb 0 e.new_penalty_count
    then record_penalty user e.new_penalty_count e.suspended_until e.ban_reason scored
    else scored

unfoldable pub settle_karma : VerifiedStatus → Bool → String → String → KarmaRecord → ℕ → Db → Db
unfolding reward penalise
settle_karma verified true user id karma now db = penalise user id karma now db
settle_karma verified false user id karma now db = reward user karma now db
settle_karma flagged true user id karma now db = penalise user id karma now db
settle_karma flagged false user id karma now db = db

module _ (g : Geo) (to_iso_string : ℕ → Text) (read_date : Option Text → Option Text) where
  unfoldable pub submission_of :
      Query g → Text → VerifiedStatus → List VerificationCheck → String → ℕ → ImageSubmission
  submission_of q phash status checks row_id now = record {
    id = row_id;
    request_id = q.request_id;
    server_received_at = now;
    exif_timestamp = q.exif_timestamp;
    nonce = q.nonce;
    phash = phash;
    verified_status = status;
    check_results = checks;
    created_by_id = q.user;
  }

  unfoldable pub verify : Query g → Text → ServerNonce → List Text → ℕ → VerificationResult
  verify q phash row recent now =
      perform_verification g phash q.exif_timestamp q.places q.nonce row.nonce recent
        (record {
          time_window_ms = 10 * 60 * 1000;
          geofence_radius_meters = q.geofence_radius_meters;
          phash_threshold = phash_threshold;
        })
        now now now

  -- What follows once the nonce is found good.
  unfoldable pub accept : Query g → Text → ServerNonce → KarmaRecord → String → ℕ → Db → Answer × Db
  unfolding submission_of
  accept q phash row karma row_id now db =
      let recent = get_recent_phashes q.request_id 60 now db in
      let result = verify q phash row recent now in
      let duplicate = is_duplicate phash recent in
      let status = verified_status_of result.passed duplicate in
      let s = submission_of q phash status result.checks row_id now in
      let saved = create_audits row_id result.checks (create_submission s db) in
      let settled = settle_karma status duplicate q.user row_id karma now saved in
      let spent = mark_nonce_used q.nonce settled in
      (created s result, increment_daily_submission_count q.user (today to_iso_string now) spent)

  unfoldable pub with_nonce :
      Query g → Text → Option ServerNonce → KarmaRecord → String → ℕ → Db → Answer × Db
  with_nonce q phash none karma row_id now db = (invalid_nonce_sent, db)
  with_nonce q phash (some row) karma row_id now db =
      if not (is_nonce_fresh row.issued_at row.expires_at now)
      then (nonce_expired_sent (get_time_remaining row.expires_at now), db)
      else if not (str_eq row.request_id q.request_id)
      then (wrong_request, db)
      else accept q phash row karma row_id now db

  unfoldable pub post_submission :
      Query g → (phash : Text) (row_id : String) (now : ℕ) → Db → Answer × Db
  post_submission q phash row_id now db =
      let found = get_or_create_record q.user db in
      let karma = found.0 in
      let can =
        can_user_submit to_iso_string karma karma_config (read_date karma.last_submission_date)
          now in
      if str_eq q.user "" || str_eq q.request_id "" || str_eq q.nonce ""
      then (missing_fields, db)
      else if not can.allowed
      then (refused can, found.1)
      else with_nonce q phash (get_nonce q.nonce found.1) karma row_id now found.1
