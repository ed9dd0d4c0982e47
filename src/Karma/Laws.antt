-- ===== src/Karma/Laws.antt =====
-- Tiers, penalties and the limits on submissions.
use roadwatch.Prelude.{
  ℕ, ◌+◌, ◌≤◌, ◌<◌, ◌≡◌, ◌≢◌, ◌↔◌, ◌⊎◌, refl, ap, Option, none, some, true, false, arith, if_pos,
  if_neg,
}
use roadwatch.Prelude.Int.{ℤ, pos, negsuc, ◌+ℤ◌, ◌≤ℤ◌}
use roadwatch.Prelude.Text.{Text, Text-discrete}
use roadwatch.Karma.{
  KarmaTier, trusted, standard, at_risk, suspended, banned, KarmaConfig, KarmaTransaction,
  KarmaRecord, get_tier_from_score, escalate_penalty, week_ms, is_today, is_banned, today,
  can_user_submit, calculate_new_score, apply_karma_decay,
}

abbrev pub rank : KarmaTier → ℕ
rank banned = 0
rank suspended = 1
rank at_risk = 2
rank standard = 3
rank trusted = 4

-- With the same penalties and at the same time, a higher score never gives a lower tier.
pub get_tier_from_score_mono :
    (a b : ℤ) (penalties until now : ℕ)
    → a ≤ℤ b
    → rank (get_tier_from_score a penalties until now)
      ≤ rank (get_tier_from_score b penalties until now)
unfolding get_tier_from_score
get_tier_from_score_mono a b penalties until now h = ground arith

-- A suspension that runs goes before a ban, and a ban before the score.
abbrev pub Deserves : KarmaTier → ℤ → ℕ → ℕ → ℕ → Type 0
Deserves trusted score penalties until now = (until ≤ now) × (penalties < 3) × (pos 500 ≤ℤ score)
Deserves standard score penalties until now =
    (until ≤ now) × (penalties < 3) × (pos 100 ≤ℤ score) × (score ≤ℤ pos 499)
Deserves at_risk score penalties until now =
    (until ≤ now) × (penalties < 3) × (pos 0 ≤ℤ score) × (score ≤ℤ pos 99)
Deserves suspended score penalties until now =
    (now < until) ⊎ ((until ≤ now) × (penalties < 3) × (score ≤ℤ negsuc 0))
Deserves banned score penalties until now = (until ≤ now) × (3 ≤ penalties)

-- A user has the tier that the score, the penalties and the running suspension deserve.
pub get_tier_from_score-Deserves :
    (score : ℤ) (penalties until now : ℕ)
    → Deserves (get_tier_from_score score penalties until now) score penalties until now
unfolding get_tier_from_score
get_tier_from_score-Deserves score penalties until now = ground arith

abbrev pub AfterPenalty : ℤ → ℕ → ℕ → ℕ → KarmaTier → Type 0
AfterPenalty score penalties now later tier =
    ((penalties ≡ 0) × (tier ≡ get_tier_from_score score 0 0 later))
    ⊎ (((penalties ≡ 1) × (later < now + week_ms) × (tier ≡ suspended))
        ⊎ (((penalties ≡ 1)
              × (now + week_ms ≤ later)
              × (tier ≡ get_tier_from_score score 0 0 later))
            ⊎ ((2 ≤ penalties) × (tier ≡ banned))))

-- The tier at a time after one more penalty: after the first it is as if there were none, the
-- second suspends for a week, and from the third on the user is banned, whatever the score.
pub escalate_penalty-tier :
    (karma : KarmaRecord) (config : KarmaConfig) (score : ℤ) (now later : ℕ)
    → let e = escalate_penalty karma config now in
      AfterPenalty score karma.penalty_count now later
        (get_tier_from_score score e.new_penalty_count e.suspended_until later)
unfolding escalate_penalty get_tier_from_score
escalate_penalty-tier karma config score now later = ground arith

-- Where the lowest bound is at most the highest, a new score lies within the bounds and is the sum
-- of score and delta, or else the bound that the sum does not lie inside of.
pub calculate_new_score_bounds :
    (current lowest highest : ℤ) (t : KarmaTransaction)
    → lowest ≤ℤ highest
    → let new = calculate_new_score current t lowest highest in
      (lowest ≤ℤ new)
      × (new ≤ℤ highest)
      × ((new ≡ current +ℤ t.delta)
          ⊎ ((new ≡ lowest) × (current +ℤ t.delta ≤ℤ lowest)
              ⊎ (new ≡ highest) × (highest ≤ℤ current +ℤ t.delta)))
unfolding calculate_new_score
calculate_new_score_bounds current lowest highest t h = ground arith

-- Where the product with the decay is not above 0, a negative score becomes 0 at once.
pub apply_karma_decay_resets :
    (times_decay : ℤ → ℤ) (current : KarmaRecord)
    → current.score ≤ℤ negsuc 0
    → times_decay current.score ≤ℤ pos 0
    → apply_karma_decay times_decay current ≡ pos 0
unfolding apply_karma_decay
apply_karma_decay_resets times_decay current below keeps = ground arith

no_today : (d day : Text) → d ≢ day → is_today (some d) day ≡ true → ⊥
unfolding is_today
no_today d day n h = not_true (rw (if_neg _ n) at h)
  where
    not_true : false ≡ true → ⊥
    not_true e = cc

pub is_today_iff :
    (last : Option Text) (day : Text) → (is_today last day ≡ true) ↔ (last ≡ some day)
unfolding is_today
is_today_iff none day = ((λ h. cc), λ h. cc)
is_today_iff (some d) day = elim (Text-discrete d day) [
  | yes e ↦ ((λ _. ap some e), λ _. rw (if_pos (Text-discrete d day) e) refl)
  | no n ↦ ((λ h. absurd (no_today d day n h)), λ h. absurd (n (cc)))
]

is_banned_iff : (tier : KarmaTier) → (is_banned tier ≡ true) ↔ (tier ≡ banned)
unfolding is_banned
is_banned_iff tier = ((λ h. ground arith), λ h. ground arith)

module _ (to_iso_string : ℕ → Text) where
  -- Whom the code lets submit: not banned, not suspended, and on a day on which the user has
  -- submitted before, below the daily limit.
  pub can_user_submit_iff :
      (karma : KarmaRecord) (config : KarmaConfig) (last : Option Text) (now : ℕ)
      → ((can_user_submit to_iso_string karma config last now).allowed ≡ true) ↔ (
          (karma.tier ≢ banned)
          × (karma.suspended_until ≤ now)
          × ((last ≢ some (today to_iso_string now))
              ⊎ (karma.daily_submission_count < config.daily_submission_limit)))
  unfolding can_user_submit
  can_user_submit_iff karma config last now =
      let day = is_today_iff last (today to_iso_string now) in
      let ban = is_banned_iff karma.tier in
      ((λ h. ground (arith, day, ban)), (λ h. ground (arith, day, ban)))
