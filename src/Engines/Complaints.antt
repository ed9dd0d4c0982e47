-- ===== src/Engines/Complaints.antt =====
-- packages/core/src/engines/ComplaintEngine.ts. A place is whatever the distance is measured
-- between; whether two are within 50 metres is a parameter, and so is the day of a timestamp. Texts
-- for reading are left out.
pub mod Laws
use Prim.Native.String.{String}
use text.Mathlib.Text.{◌==◌ as str_eq}
use roadwatch.Prelude.{
  ℕ, suc, ◌+◌, ◌-◌, ◌*◌, min, max, ltb, leb, not, ◌&&◌, ◌||◌, List, [], ◌∷◌, Option, none, some,
  Bool, true, false, ite, if◌then◌else◌,
}
use roadwatch.Engines.Dates.{calculate_sla_breach_date}

pub data ComplaintStatus : Type 0 where
  reported under_review assigned in_progress resolved rejected : ComplaintStatus

pub ComplaintStatus-discrete : Discrete ComplaintStatus
ComplaintStatus-discrete = hlevel

pub data DamageType : Type 0 where
  pothole waterlogging cracks broken_divider missing_signage : DamageType

pub DamageType-discrete : Discrete DamageType
DamageType-discrete = hlevel

pub record Complaint (Place : Type 0) : Type 0 where
  pub author_id : String
  pub road_id : String
  pub location : Place
  pub damage_type : DamageType
  pub severity : ℕ
  pub timestamp : ℕ
  pub media_ids : List String
  pub status : ComplaintStatus
  pub resolution_notes : Option String

abbrev pub is_empty_list {ℓ} : {A : Type ℓ} → List A → Bool
is_empty_list [] = true
is_empty_list (x ∷ xs) = false

-- Whether a complaint was resolved or rejected.
abbrev pub is_closed : ComplaintStatus → Bool
is_closed resolved = true
is_closed rejected = true
is_closed reported = false
is_closed under_review = false
is_closed assigned = false
is_closed in_progress = false

abbrev pub same_damage : DamageType → DamageType → Bool
same_damage a b = ite (DamageType-discrete a b) true false

abbrev pub abs_diff : ℕ → ℕ → ℕ
abs_diff a b = (a - b) + (b - a)

-- 14 days.
abbrev pub time_threshold_ms : ℕ
time_threshold_ms = 1209600000

abbrev pub judged : (ℕ → ℕ) → ComplaintStatus → ℕ → Option ℕ → Option (Bool × ℕ)
judged at_day status now none = none
judged at_day status now (some due) = some (
  ltb (at_day due) now && not (ite (ComplaintStatus-discrete status resolved) true false),
  at_day due,
)

module _ {Place : Type 0} where
  unfoldable pub file : String → String → Place → DamageType → ℕ → List String → ℕ → Complaint Place
  file author_id road_id location damage_type severity media_ids timestamp = record {
    author_id = author_id;
    road_id = road_id;
    location = location;
    damage_type = damage_type;
    severity = severity;
    timestamp = timestamp;
    media_ids = media_ids;
    status = reported;
    resolution_notes = none;
  }

  unfoldable pub validate : Complaint Place → Bool
  validate c =
      not (str_eq c.author_id "" || str_eq c.road_id "")
      && not (ltb c.severity 1 || ltb 5 c.severity)
      && not (leb 4 c.severity && is_empty_list c.media_ids)

  unfoldable pub escalate : Complaint Place → String → Complaint Place
  escalate c escalation_notes = record c {
    severity = min (c.severity + 1) 5;
    resolution_notes = some escalation_notes;
  }

  module _ (is_near : Place → Place → Bool) where
    -- The tests of one round of the loop.
    unfoldable pub is_duplicate : Complaint Place → Complaint Place → Bool
    is_duplicate new existing =
        not (is_closed existing.status)
        && not (ltb time_threshold_ms (abs_diff new.timestamp existing.timestamp))
        && (is_near new.location existing.location
            && same_damage new.damage_type existing.damage_type)

    unfoldable pub deduplicate : Complaint Place → List (Complaint Place) → Option (Complaint Place)
    deduplicate new [] = none
    deduplicate new (existing ∷ rest) =
        let later = deduplicate new rest in
        if is_duplicate new existing then some existing else later

  unfoldable pub allowed_days : Complaint Place → ℕ
  allowed_days c = if leb 4 c.severity then 2 else 7

  -- `calculateSLAStatus`; `day_of` is the local day of a timestamp, `at_day` the timestamp moved to a
  -- day, and `none` that the loop over days did not end.
  unfoldable pub calculate_sla_status :
      (ℕ → ℕ) → (ℕ → ℕ → ℕ) → Complaint Place → ℕ → Option (Bool × ℕ)
  calculate_sla_status day_of at_day c now =
      judged (at_day c.timestamp) c.status now
        (calculate_sla_breach_date (day_of c.timestamp) (allowed_days c))
