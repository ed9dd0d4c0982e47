-- ===== src/Engines/Budget/Laws.antt =====
-- What packages/core/src/engines/BudgetEngine.ts sums up and flags.

use text.Mathlib.Text.{◌==◌ as str_eq}
use text.Mathlib.TextEquality.{eq_iff}
use roadwatch.Prelude.{◌≤◌, ◌≡◌, ◌↔◌, inl, inr, refl, List, [], ◌∷◌, false, All, Bool-cases, arith}
use roadwatch.Engines.Budget.{
  BudgetUtilization, DefectLiabilityRule, Repair, is_illegal, any_illegal, dlp_breaches,
  detect_anomalies,
}

-- No repair of the contract's road before its liability ended.
abbrev pub Honoured : List Repair → DefectLiabilityRule → Type 0
Honoured repairs contract =
    All
      (λ (r : Repair).
        r.road_id ≡ contract.road_id → contract.liability_end_date_unix ≤ r.timestamp)
      repairs

is_illegal_iff :
    (contract : DefectLiabilityRule) (r : Repair)
    → (is_illegal contract r ≡ false)
      ↔ (r.road_id ≡ contract.road_id → contract.liability_end_date_unix ≤ r.timestamp)
is_illegal_iff contract r = elim (Bool-cases (str_eq r.road_id contract.road_id)) [
  | inl same ↦ (
    (λ h e. ground arith),
    (λ h.
        let late : contract.liability_end_date_unix ≤ r.timestamp =
          h ((eq_iff r.road_id contract.road_id).0 same) in
        ground arith),
  )
  | inr other ↦ (
    (λ h e. absurd (ground (arith, (eq_iff r.road_id contract.road_id).1 e))),
    (λ h. ground arith),
  )
]

any_illegal_iff :
    (contract : DefectLiabilityRule) (repairs : List Repair)
    → (any_illegal contract repairs ≡ false) ↔ Honoured repairs contract
any_illegal_iff contract [] = ((λ h. tt), (λ h. refl))
any_illegal_iff contract (r ∷ repairs) =
    let one = is_illegal_iff contract r in
    let rest = any_illegal_iff contract repairs in
    elim (Bool-cases (is_illegal contract r)) [
      | inl bad ↦ ((λ h. absurd (ground arith)), (λ h. absurd (ground (arith, one.1 h.0))))
      | inr good ↦ ((λ h. (one.0 good, rest.0 (ground arith))), (λ h. ground (arith, rest.1 h.1)))
    ]

dlp_breaches_iff :
    (repairs : List Repair) (contracts : List DefectLiabilityRule)
    → (dlp_breaches repairs contracts ≡ []) ↔ All (Honoured repairs) contracts
unfolding dlp_breaches
dlp_breaches_iff repairs [] = ((λ h. tt), (λ h. refl))
dlp_breaches_iff repairs (contract ∷ contracts) =
    let one = any_illegal_iff contract repairs in
    let rest = dlp_breaches_iff repairs contracts in
    elim (Bool-cases (any_illegal contract repairs)) [
      | inl bad ↦ ((λ h. absurd (ground arith)), (λ h. absurd (ground (arith, one.1 h.0))))
      | inr good ↦ ((λ h. (one.0 good, rest.0 (ground arith))), (λ h. ground (arith, rest.1 h.1)))
    ]

-- Nothing is flagged exactly where no more is spent than released and no more released than
-- sanctioned, and no repair was made on the road of a contract before its liability ended.
pub detect_anomalies_iff :
    (current : BudgetUtilization) (repairs : List Repair) (contracts : List DefectLiabilityRule)
    → (detect_anomalies current repairs contracts ≡ []) ↔ (
        (current.spent ≤ current.released)
        × (current.released ≤ current.sanctioned)
        × All (Honoured repairs) contracts)
unfolding detect_anomalies
detect_anomalies_iff current repairs contracts =
    let breaches = dlp_breaches_iff repairs contracts in
    (
      (λ h. (ground arith, ground arith, breaches.0 (ground arith))),
      (λ h. ground (arith, breaches.1 h.2)),
    )
