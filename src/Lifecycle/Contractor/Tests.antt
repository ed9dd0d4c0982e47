-- ===== src/Lifecycle/Contractor/Tests.antt =====
-- A contractor without a score who is penalised twice, the first time in vain.
use roadwatch.Prelude.{◌≡◌, refl, ap, ◌∙◌, Option, none, some, true, false, [], ◌∷◌}
use roadwatch.Prelude.Int.{ℤ, pos, negsuc, ◌+ℤ◌}
use roadwatch.Karma.{at_risk, get_work_band_from_score}
use roadwatch.Lifecycle.Contractor.{
  Contractor, Standing, Faults, transaction, apply_contractor_karma,
}
use roadwatch.Lifecycle.Contractor.Laws.{Agrees, Change, changes, changes-Agrees}

abbrev standing : Standing
standing = record {
  contractor = some (record { karma_score = none; work_band = none });
  ledger = [];
}

abbrev all_well : Faults
all_well = record {
  begun = true;
  updated = true;
  selected = true;
  banded = true;
  inserted = true;
  committed = true;
}

abbrev penalty : Faults → Change
penalty f = record { now = 7; faults = f; delta = negsuc 19; reason = "sla_breach"; ref_id = "c1" }

-- The score starts at 100.
penalised :
    (changes
      (penalty (record all_well { inserted = false }) ∷ penalty all_well ∷ [])
      standing).contractor
    ≡ some (record { karma_score = some (pos 80); work_band = some at_risk })
unfolding apply_contractor_karma transaction get_work_band_from_score ◌+ℤ◌
penalised = refl

changes-Agrees_example :
    Agrees
      (changes (penalty (record all_well { inserted = false }) ∷ penalty all_well ∷ []) standing)
changes-Agrees_example =
    changes-Agrees (penalty (record all_well { inserted = false }) ∷ penalty all_well ∷ []) standing
      (λ c score here own. absurd (no_score c score here own))
  where
    no_score :
        (c : Contractor) (score : ℤ) → standing.contractor ≡ some c → c.karma_score ≡ some score → ⊥
    no_score c score here own =
        let made : ◌≡◌ {A = Contractor} (record { karma_score = none; work_band = none }) c = cc in
        let bad : ◌≡◌ {A = Option ℤ} none (some score) =
          ap (λ (x : Contractor). x.karma_score) made ∙ own in
        cc
