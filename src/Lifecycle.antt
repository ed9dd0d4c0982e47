-- ===== src/Lifecycle.antt =====
-- Karma that complaints earn and lose: apps/gateway-api/src/services/complaint-lifecycle.ts, and
-- applyUserKarma of services/scheduler/index.ts on the same table. The row of one user is modelled;
-- a statement that fails is caught, and changes nothing.
pub mod Laws
pub mod Contractor
mod Tests
use Prim.Native.String.{String}
use roadwatch.Prelude.{
  ℕ, ◌+◌, ◌-◌, leb, ltb, not, ◌&&◌, Option, none, some, Bool, true, false, List, [], ◌∷◌, ◌++◌,
  if◌then◌else◌,
}
use roadwatch.Prelude.Int.{ℤ, pos, negsuc, ltb_ℤ, eq_ℤ, ◌+ℤ◌}

pub data WorkBand : Type 0 where
  trusted standard at_risk suspended : WorkBand

pub record LedgerEntry : Type 0 where
  pub delta : ℤ
  pub reason : String
  pub ref_id : Option String

-- `karma_score` may be null in the database.
pub record User : Type 0 where
  pub karma_score : Option ℤ
  pub work_band : Option WorkBand
  pub ledger : List LedgerEntry

-- Which of the statements succeed.
pub record Faults : Type 0 where
  pub inserted : Bool
  pub updated : Bool
  pub banded : Bool

abbrev pub coalesce_zero : Option ℤ → ℤ
coalesce_zero none = pos 0
coalesce_zero (some score) = score

abbrev pub least : ℤ → ℤ → ℤ
least a b = if ltb_ℤ b a then b else a

abbrev pub greatest : ℤ → ℤ → ℤ
greatest a b = if ltb_ℤ a b then b else a

-- `LEAST(1000, GREATEST(lowest, COALESCE(karma_score, 0) + delta))`
abbrev pub moved : ℤ → ℤ → Option ℤ → ℤ
moved lowest delta score = least (pos 1000) (greatest lowest (coalesce_zero score +ℤ delta))

abbrev pub record_and_move : ℤ → Faults → ℤ → String → Option String → User → User
record_and_move lowest f delta reason ref_id u = record u {
  ledger =
      if f.inserted
      then u.ledger ++ record { delta = delta; reason = reason; ref_id = ref_id } ∷ []
      else u.ledger;
  karma_score = if f.updated then some (moved lowest delta u.karma_score) else u.karma_score;
}

-- `awardKarma`, for a user id that is not empty.
unfoldable pub award_karma : Faults → ℤ → String → Option String → User → User
award_karma f delta reason ref_id u =
    if eq_ℤ delta (pos 0) then u else record_and_move (pos 0) f delta reason ref_id u

-- The CASE of `applyUserKarmaDelta`.
unfoldable pub work_band_of : ℤ → WorkBand
work_band_of score =
    if not (ltb_ℤ score (pos 500))
    then trusted
    else if not (ltb_ℤ score (pos 100))
    then standard
    else if not (ltb_ℤ score (pos 0))
    then at_risk
    else suspended

unfoldable pub apply_user_karma_delta : Faults → ℤ → String → Option String → User → User
apply_user_karma_delta f delta reason ref_id u =
    if eq_ℤ delta (pos 0)
    then u
    else let u' = award_karma f delta reason ref_id u in
      if f.banded
      then record u' { work_band = some (work_band_of (coalesce_zero u'.karma_score)) }
      else u'

-- `applyUserKarma` of the scheduler, but for the band, which it takes from the karma service.
unfoldable pub apply_user_karma : Faults → ℤ → String → String → User → User
apply_user_karma f delta reason ref_id u =
    if eq_ℤ delta (pos 0) then u else record_and_move (negsuc 499) f delta reason (some ref_id) u
