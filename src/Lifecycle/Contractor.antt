-- ===== src/Lifecycle/Contractor.antt =====
-- `applyContractorKarma` of services/scheduler/index.ts: one transaction on the row of a contractor
-- and the ledger. A statement that fails throws, and the transaction is rolled back; so is one whose
-- COMMIT fails, and one that is left without a ROLLBACK when its connection ends.
pub mod Laws
mod Tests
use Prim.Native.String.{String}
use roadwatch.Prelude.{
  ℕ, ◌≡◌, ◌≢◌, ◌⊎◌, inl, inr, refl, ap, sym, subst, ◌∙◌, Option, none, some, Bool, true, false,
  List, [], ◌∷◌, ◌++◌, not, if◌then◌else◌, Bool-cases, arith,
}
use roadwatch.Prelude.Int.{ℤ, pos, negsuc, eq_ℤ, ltb_ℤ, ◌+ℤ◌, ◌≤ℤ◌, +ℤ_parts}
use roadwatch.Karma.{KarmaTier, get_work_band_from_score}
use roadwatch.Lifecycle.{LedgerEntry, least, greatest}

-- What of the metadata the code reads and writes.
pub record Contractor : Type 0 where
  pub karma_score : Option ℤ
  pub work_band : Option KarmaTier

-- The row, if there is one, and the ledger's entries of this id.
pub record Standing : Type 0 where
  pub contractor : Option Contractor
  pub ledger : List LedgerEntry

-- Which statements succeed, in their order.
pub record Faults : Type 0 where
  pub begun : Bool
  pub updated : Bool
  pub selected : Bool
  pub banded : Bool
  pub inserted : Bool
  pub committed : Bool

abbrev pub coalesce_hundred : Option ℤ → ℤ
coalesce_hundred none = pos 100
coalesce_hundred (some score) = score

-- `GREATEST(-500, LEAST(10000, COALESCE(karma_score, 100) + delta))`
abbrev pub new_score : ℤ → Option ℤ → ℤ
new_score delta score = greatest (negsuc 499) (least (pos 10000) (coalesce_hundred score +ℤ delta))

abbrev pub set_score : ℤ → Option Contractor → Option Contractor
set_score delta none = none
set_score delta (some c) = some (record c { karma_score = some (new_score delta c.karma_score) })

abbrev pub set_band : KarmaTier → Option Contractor → Option Contractor
set_band band none = none
set_band band (some c) = some (record c { work_band = some band })

-- `scoreRes.rows[0]?.karma_score`
abbrev pub selected_score : Option Contractor → Option ℤ
selected_score none = none
selected_score (some c) = c.karma_score

-- A statement of the transaction; `none` is that it threw.
abbrev pub run : Bool → Standing → Option Standing
run true s = some s
run false s = none

infixl 5 ◌>>=◌
abbrev pub ◌>>=◌ {ℓ κ} : {A : Type ℓ} {B : Type κ} → Option A → (A → Option B) → Option B
none >>= f = none
some a >>= f = f a

abbrev pub selection : Bool → Option ℤ → Option ℤ
selection true score = score
selection false score = none

unfoldable pub transaction : ℕ → Faults → ℤ → String → String → Standing → Option Standing
transaction now f delta reason ref_id s = run f.begun s >>= λ s0.
    run f.updated (record s0 { contractor = set_score delta s0.contractor }) >>= λ s1.
    selection f.selected (selected_score s1.contractor) >>= λ score.
    run f.banded
      (record s1 { contractor = set_band (get_work_band_from_score score 0 now) s1.contractor })
    >>= λ s2.
        run f.inserted (record s2 {
          ledger =
              s2.ledger ++ record { delta = delta; reason = reason; ref_id = some ref_id } ∷ [];
        })
        >>= run f.committed

abbrev pub or_before : Standing → Option Standing → Standing
or_before s none = s
or_before s (some s') = s'

-- For a contractor id that is not empty, with a connection.
unfoldable pub apply_contractor_karma : ℕ → Faults → ℤ → String → String → Standing → Standing
apply_contractor_karma now f delta reason ref_id s =
    if eq_ℤ delta (pos 0) then s else or_before s (transaction now f delta reason ref_id s)
