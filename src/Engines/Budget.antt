-- ===== src/Engines/Budget.antt =====
-- packages/core/src/engines/BudgetEngine.ts. Amounts are whole rupees; a share of one amount in
-- another is a floating-point quotient, and is a parameter, and texts for reading are left out.
pub mod Laws
use Prim.Native.String.{String}
use text.Mathlib.Text.{◌==◌ as str_eq}
use roadwatch.Prelude.{
  ℕ, ◌+◌, ltb, leb, ◌&&◌, List, [], ◌∷◌, ◌++◌, Option, none, some, Bool, true, false, if◌then◌else◌,
}
use roadwatch.Prelude.Sorting.{sort}

pub record BudgetUtilization : Type 0 where
  pub sanctioned : ℕ
  pub released : ℕ
  pub spent : ℕ

pub record DefectLiabilityRule : Type 0 where
  pub road_id : String
  pub contractor_id : String
  pub liability_end_date_unix : ℕ

pub data AnomalyType : Type 0 where
  funds_mismatch dlp_breach abnormal_spend : AnomalyType

pub data AnomalySeverity : Type 0 where
  warning critical : AnomalySeverity

-- `about` is the road of a breach.
pub record BudgetAnomaly : Type 0 where
  pub type : AnomalyType
  pub severity : AnomalySeverity
  pub about : Option String

pub record Repair : Type 0 where
  pub road_id : String
  pub timestamp : ℕ

pub record Totals (Percentage : Type 0) : Type 0 where
  pub total_sanctioned : ℕ
  pub total_released : ℕ
  pub total_spent : ℕ
  pub release_percentage : Percentage
  pub spend_percentage : Percentage

-- The loop, with the three sums so far.
unfoldable pub add_up : List BudgetUtilization → BudgetUtilization → BudgetUtilization
add_up [] sums = sums
add_up (r ∷ records) sums = add_up records (record {
  sanctioned = sums.sanctioned + r.sanctioned;
  released = sums.released + r.released;
  spent = sums.spent + r.spent;
})

module _ {Percentage : Type 0} (share : ℕ → ℕ → Percentage) (zero_percent : Percentage) where
  unfoldable pub calculate_utilization : List BudgetUtilization → Totals Percentage
  unfolding add_up
  calculate_utilization records =
      let sums = add_up records (record { sanctioned = 0; released = 0; spent = 0 }) in
      record {
        total_sanctioned = sums.sanctioned;
        total_released = sums.released;
        total_spent = sums.spent;
        release_percentage =
            if ltb 0 sums.sanctioned then share sums.released sums.sanctioned else zero_percent;
        spend_percentage =
            if ltb 0 sums.released then share sums.spent sums.released else zero_percent;
      }

pub record Allocation : Type 0 where
  pub amount : ℕ
  pub timestamp : ℕ
  pub note : String

abbrev pub not_later : Allocation → Allocation → Bool
not_later a b = leb a.timestamp b.timestamp

-- The order of the timeline; each entry is then written out with its date as text.
unfoldable pub timeline_order : List Allocation → List Allocation
timeline_order budgets = sort not_later budgets

abbrev pub is_illegal : DefectLiabilityRule → Repair → Bool
is_illegal contract r =
    str_eq r.road_id contract.road_id && ltb r.timestamp contract.liability_end_date_unix

-- `repairs.filter(…).length > 0`
abbrev pub any_illegal : DefectLiabilityRule → List Repair → Bool
any_illegal contract [] = false
any_illegal contract (r ∷ repairs) =
    let rest = any_illegal contract repairs in if is_illegal contract r then true else rest

unfoldable pub dlp_breaches : List Repair → List DefectLiabilityRule → List BudgetAnomaly
dlp_breaches repairs [] = []
dlp_breaches repairs (contract ∷ contracts) =
    let rest = dlp_breaches repairs contracts in
    if any_illegal contract repairs
    then record { type = dlp_breach; severity = critical; about = some contract.road_id } ∷ rest
    else rest

unfoldable pub detect_anomalies :
    BudgetUtilization → List Repair → List DefectLiabilityRule → List BudgetAnomaly
unfolding dlp_breaches
detect_anomalies current repairs contracts =
    (if ltb current.released current.spent
      then record { type = funds_mismatch; severity = critical; about = none } ∷ []
      else [])
    ++ ((if ltb current.sanctioned current.released
          then record { type = funds_mismatch; severity = warning; about = none } ∷ []
          else [])
        ++ dlp_breaches repairs contracts)
