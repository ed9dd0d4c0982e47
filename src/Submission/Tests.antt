-- ===== src/Submission/Tests.antt =====
-- One user sends one image with one nonce, and sends another with the same nonce.
use Prim.Native.String.{String}
use text.Mathlib.Text.{◌==◌ as str_eq}
use text.Mathlib.TextEquality.{eq_iff}
use roadwatch.Prelude.{
  sym, ◌∙◌, ℕ, ◌≡◌, ◌≢◌, ◌↔◌, ◌+◌, ◌-◌, ◌==◌, refl, List, [], ◌∷◌, Option, none, some, Bool, true,
  false, length, arith,
}
use roadwatch.Prelude.Text.{Text, codes}
use roadwatch.Karma.{KarmaRecord, can_user_submit, is_today, today}
use roadwatch.Nonce.{is_nonce_fresh, can_generate_nonce, create_nonce_record}
use roadwatch.Verification.{Geo, Places, hamming_distance, perform_verification}
use roadwatch.Submission.Store.{
  Db, ServerNonce, karma_of, get_nonce, find_nonce, get_or_create_record, recent_attempts,
  create_nonce, get_recent_phashes, create_audits, update_karma,
}
use roadwatch.Submission.Issue.{issued, post_nonce, ttl_or_default, store_nonce, answer_of, row_of}
use roadwatch.Submission.Accept.{Query, karma_config, post_submission, with_nonce, accept}
use roadwatch.Submission.Laws.{IsCreated, GoodNonce, post_submission_iff}
use roadwatch.Submission.Replay.{post_submission-replay, post_nonce-GoodNonce}

-- A column of text.
abbrev as_text : Option Text → Option Text
as_text d = d

abbrev line : Geo
line = record {
  Coordinate = ℕ;
  is_zero = λ x. x == 0;
  distance = λ lat lng lat' lng'. (lat - lat') + (lat' - lat);
}

abbrev place : Places line
place = record {
  exif_lat = some 12;
  exif_lng = some 1;
  device_lat = none;
  device_lng = none;
  expected_lat = 10;
  expected_lng = 1;
}

abbrev query : Query line
query = record {
  user = "u1";
  request_id = "r1";
  nonce = "n1";
  exif_timestamp = some 5;
  places = place;
  geofence_radius_meters = 50;
}

abbrev iso : ℕ → Text
iso now = codes "2026-01-01T00:00:00.000Z"

abbrev issued_row : ServerNonce
issued_row = record {
  nonce = "n1";
  user_id = "u1";
  request_id = "r1";
  issued_at = 0;
  expires_at = 300000;
  used = false;
}

abbrev empty : Db
empty = record { karma = λ u. none; nonces = []; submissions = []; audits = [] }

abbrev ready : Db
ready = record { karma = λ u. none; nonces = issued_row ∷ []; submissions = []; audits = [] }

abbrev after : Db
after = (post_submission line iso as_text query (codes "ff0") "s1" 9 ready).1

not_blank : (s : String) → str_eq s "" ≡ false → s ≢ ""
not_blank s h e = false_ne_true (sym h ∙ (eq_iff s "").1 e)
  where
    false_ne_true : false ≡ true → ⊥
    false_ne_true e = cc

good_at_ten : GoodNonce "n1" "r1" 10 ready
unfolding get_nonce is_nonce_fresh
good_at_ten = (issued_row, refl, refl, refl)

good : GoodNonce "n1" "r1" 9 ready
unfolding get_nonce is_nonce_fresh
good = (issued_row, refl, refl, refl)

may_submit :
    (can_user_submit iso
      (karma_of "u1" ready)
      karma_config
      (as_text (karma_of "u1" ready).last_submission_date)
      9).allowed
    ≡ true
unfolding can_user_submit karma_of roadwatch.Karma.is_banned is_today
may_submit = refl

post_submission_iff_example :
    IsCreated (post_submission line iso as_text query (codes "ff0") "s1" 9 ready).0 ↔ (
      (query.user ≢ "")
      × (query.request_id ≢ "")
      × (query.nonce ≢ "")
      × ((can_user_submit iso
            (karma_of "u1" ready)
            karma_config
            (as_text (karma_of "u1" ready).last_submission_date)
            9).allowed
          ≡ true)
      × GoodNonce "n1" "r1" 9 ready)
post_submission_iff_example = post_submission_iff line iso as_text query (codes "ff0") "s1" 9 ready

accepted : IsCreated (post_submission line iso as_text query (codes "ff0") "s1" 9 ready).0
accepted =
    (post_submission_iff line iso as_text query (codes "ff0") "s1" 9 ready).1
      (not_blank "u1" refl, not_blank "r1" refl, not_blank "n1" refl, may_submit, good)

may_submit_again :
    (can_user_submit iso
      (karma_of "u1" after)
      karma_config
      (as_text (karma_of "u1" after).last_submission_date)
      10).allowed
    ≡ true
unfolding can_user_submit karma_of post_submission roadwatch.Karma.is_banned get_or_create_record
    is_today with_nonce get_nonce is_nonce_fresh accept
    roadwatch.Submission.Store.increment_daily_submission_count
    roadwatch.Submission.Store.mark_nonce_used roadwatch.Submission.Accept.settle_karma
    roadwatch.Submission.Accept.verified_status_of roadwatch.Submission.Accept.is_duplicate
    get_recent_phashes roadwatch.Submission.Accept.verify perform_verification
    roadwatch.Verification.validate_nonce roadwatch.Verification.validate_geofence
    roadwatch.Karma.apply_valid_submission_bonus roadwatch.Karma.calculate_new_score
    roadwatch.Karma.get_tier_from_score today roadwatch.Prelude.Int.◌+ℤ◌
    roadwatch.Submission.Accept.reward roadwatch.Submission.Accept.submission_of create_audits
    roadwatch.Submission.Store.create_submission find_nonce roadwatch.Submission.Store.fresh_karma
    roadwatch.Submission.Store.mark_row update_karma roadwatch.Submission.Store.update_karma_score
    roadwatch.Submission.Store.update_row hamming_distance roadwatch.Verification.validate_timestamp
    roadwatch.Prelude.Text.Text-discrete roadwatch.Prelude.ℕ_discrete
may_submit_again = refl

post_submission-replay_example :
    IsCreated (post_submission line iso as_text query (codes "abc") "s2" 10 after).0
post_submission-replay_example =
    post_submission-replay line iso as_text query query (codes "ff0") (codes "abc") "s1" "s2" 9 10
      ready (not_blank "u1" refl, not_blank "r1" refl, not_blank "n1" refl) may_submit_again
      good_at_ten

post_nonce-GoodNonce_example :
    (ttl_or_default none ≡ 300)
    × GoodNonce "n1" "r1" 9 (post_nonce "u1" "r1" none "n1" 5 5000 empty).1
unfolding post_nonce can_generate_nonce recent_attempts roadwatch.Submission.Issue.is_barred
    get_or_create_record store_nonce create_nonce create_nonce_record
post_nonce-GoodNonce_example =
    post_nonce-GoodNonce "u1" "r1" "n1" none 5 5000 empty (create_nonce_record "n1" 300 5000) 300 9
      refl (ground arith) (ground arith)
