-- ===== src/Karma.antt =====
-- Reputation of the citizens who send images, packages/core/src/karma-service.ts. Scores are
-- integers, times are milliseconds and stand for `Date.now()`.
pub mod Laws
mod Tests
use Prim.Native.String.{String}
use roadwatch.Prelude.{
  ℕ, ◌+◌, ◌*◌, ◌-◌, List, [], ◌∷◌, ◌++◌, Option, none, some, Bool, true, false, not, ltb, leb, ◌==◌,
  if◌then◌else◌, ite,
}
use roadwatch.Prelude.Int.{ℤ, pos, negsuc, ◌+ℤ◌, ltb_ℤ}
use roadwatch.Prelude.Text.{Text, Text-discrete, codes, show}

pub data KarmaTier : Type 0 where
  trusted standard at_risk suspended banned : KarmaTier

pub KarmaTier-discrete : Discrete KarmaTier
KarmaTier-discrete = hlevel

pub record KarmaConfig : Type 0 where
  pub initial_score : ℤ
  pub valid_submission_bonus : ℤ
  pub flagged_penalty : ℤ
  pub duplicate_penalty : ℤ
  pub rejected_penalty : ℤ
  pub appeal_success_restore : ℤ
  pub daily_submission_limit : ℕ
  pub suspension_threshold_score : ℤ
  pub ban_threshold_penalty_count : ℕ

pub record KarmaTransaction : Type 0 where
  pub user_id : String
  pub delta : ℤ
  pub reason : String
  pub submission_id : Option String
  pub timestamp : ℕ

pub record KarmaRecord : Type 0 where
  pub user_id : String
  pub score : ℤ
  pub tier : KarmaTier
  pub penalty_count : ℕ
  pub suspended_until : ℕ
  pub ban_reason : Option Text
  pub daily_submission_count : ℕ
  pub last_submission_date : Option Text

unfoldable pub get_tier_from_score : ℤ → ℕ → ℕ → ℕ → KarmaTier
get_tier_from_score score penalty_count suspended_until now =
    if ltb now suspended_until
    then suspended
    else if leb 3 penalty_count
    then banned
    else if not (ltb_ℤ score (pos 500))
    then trusted
    else if not (ltb_ℤ score (pos 100))
    then standard
    else if not (ltb_ℤ score (pos 0))
    then at_risk
    else suspended

abbrev transaction : KarmaRecord → ℤ → String → Option String → ℕ → KarmaTransaction
transaction current delta reason submission_id now = record {
  user_id = current.user_id;
  delta = delta;
  reason = reason;
  submission_id = submission_id;
  timestamp = now;
}

unfoldable pub apply_valid_submission_bonus : KarmaRecord → KarmaConfig → ℕ → KarmaTransaction
apply_valid_submission_bonus current config now =
    transaction current config.valid_submission_bonus "valid_submission_bonus" none now

unfoldable pub apply_flagged_penalty : KarmaRecord → KarmaConfig → String → ℕ → KarmaTransaction
apply_flagged_penalty current config submission_id now =
    transaction current config.flagged_penalty "flagged_submission_penalty" (some submission_id) now

unfoldable pub apply_duplicate_penalty : KarmaRecord → KarmaConfig → String → ℕ → KarmaTransaction
apply_duplicate_penalty current config submission_id now =
    transaction current config.duplicate_penalty "duplicate_image_penalty" (some submission_id) now

unfoldable pub apply_rejected_penalty : KarmaRecord → KarmaConfig → String → ℕ → KarmaTransaction
apply_rejected_penalty current config submission_id now =
    transaction current config.rejected_penalty "rejected_submission_penalty" (some submission_id)
      now

pub record Escalation : Type 0 where
  pub new_penalty_count : ℕ
  pub suspended_until : ℕ
  pub should_ban : Bool
  pub ban_reason : Option Text

abbrev pub week_ms : ℕ
week_ms = 7 * 24 * 60 * 60 * 1000

-- The configuration is an argument of the code, which does not read it.
unfoldable pub escalate_penalty : KarmaRecord → KarmaConfig → ℕ → Escalation
escalate_penalty current config now =
    let count = current.penalty_count + 1 in
    if count == 1
    then record {
      new_penalty_count = count;
      suspended_until = 0;
      should_ban = false;
      ban_reason = none;
    }
    else if count == 2
    then record {
      new_penalty_count = count;
      suspended_until = now + week_ms;
      should_ban = false;
      ban_reason = none;
    }
    else if leb 3 count
    then record {
      new_penalty_count = count;
      suspended_until = 0;
      should_ban = true;
      ban_reason =
          some (codes "Permanent ban after " ++ show count ++ codes " verified fraud incidents");
    }
    else record {
      new_penalty_count = count;
      suspended_until = 0;
      should_ban = false;
      ban_reason = none;
    }

pub record SubmitCheck : Type 0 where
  pub allowed : Bool
  pub reason : Option Text
  pub daily_remaining : Option ℕ

-- `.split('T')[0]`
before_t : Text → Text
before_t [] = []
before_t (c ∷ cs) = let rest = before_t cs in if c == b'T' then [] else c ∷ rest

unfoldable pub is_today : Option Text → Text → Bool
is_today none today = false
is_today (some day) today = ite (Text-discrete day today) true false

unfoldable pub is_banned : KarmaTier → Bool
is_banned banned = true
is_banned _ = false

-- `toISOString` of a date is a parameter.
module _ (to_iso_string : ℕ → Text) where
  unfoldable pub today : ℕ → Text
  unfolding before_t
  today now = before_t (to_iso_string now)

  unfoldable pub can_user_submit : KarmaRecord → KarmaConfig → Option Text → ℕ → SubmitCheck
  can_user_submit karma config last_submission_date now =
      let remaining = config.daily_submission_limit - karma.daily_submission_count in
      if is_banned karma.tier
      then record {
        allowed = false;
        reason = some (codes "User is permanently banned");
        daily_remaining = none;
      }
      else if ltb now karma.suspended_until
      then record {
        allowed = false;
        reason = some (codes "User is suspended until " ++ to_iso_string karma.suspended_until);
        daily_remaining = none;
      }
      else if is_today last_submission_date (today now)
      then (if leb remaining 0
          then record {
            allowed = false;
            reason = some (
                codes "Daily submission limit ("
                ++ show config.daily_submission_limit
                ++ codes ") reached");
            daily_remaining = none;
          }
          else record { allowed = true; reason = none; daily_remaining = some remaining })
      else record {
        allowed = true;
        reason = none;
        daily_remaining = some config.daily_submission_limit;
      }

unfoldable pub process_appeal_outcome :
    KarmaRecord → Bool → KarmaConfig → ℕ → Option KarmaTransaction
process_appeal_outcome current approved config now =
    if not approved
    then none
    else some
        (transaction current config.appeal_success_restore "appeal_approved_restoration" none now)

min_ℤ : ℤ → ℤ → ℤ
min_ℤ a b = if ltb_ℤ b a then b else a

max_ℤ : ℤ → ℤ → ℤ
max_ℤ a b = if ltb_ℤ a b then b else a

-- The default bounds of the code are -500 and 10000.
abbrev pub min_score : ℤ
min_score = negsuc 499

abbrev pub max_score : ℤ
max_score = pos 10000

unfoldable pub calculate_new_score : ℤ → KarmaTransaction → ℤ → ℤ → ℤ
unfolding min_ℤ max_ℤ
calculate_new_score current t lowest highest = max_ℤ lowest (min_ℤ highest (current +ℤ t.delta))

pub data Priority : Type 0 where
  low medium high : Priority

unfoldable pub get_review_priority : KarmaTier → Priority
get_review_priority banned = high
get_review_priority suspended = high
get_review_priority at_risk = high
get_review_priority standard = medium
get_review_priority trusted = low

-- `times_decay` stands for the product by `(1 - decayRate) ** monthsElapsed`, in floating point.
unfoldable pub apply_karma_decay : (ℤ → ℤ) → KarmaRecord → ℤ
unfolding max_ℤ
apply_karma_decay times_decay current =
    if ltb_ℤ current.score (pos 0) then max_ℤ (pos 0) (times_decay current.score) else current.score

unfoldable pub get_work_band_from_score : ℤ → ℕ → ℕ → KarmaTier
unfolding get_tier_from_score
get_work_band_from_score score penalty_count now = get_tier_from_score score penalty_count 0 now
