-- ===== src/Lifecycle/Tests.antt =====
-- A user whom the scheduler takes below 0 and whom the gateway then penalises.
use roadwatch.Prelude.{◌≡◌, refl, none, some, true, [], ◌∷◌, arith}
use roadwatch.Prelude.Int.{pos, negsuc, ◌+ℤ◌}
use roadwatch.Lifecycle.{User, Faults, suspended, apply_user_karma}
use roadwatch.Lifecycle.Laws.{Within, by_gateway, by_scheduler, changes, changes-Within}

abbrev all_well : Faults
all_well = record { inserted = true; updated = true; banded = true }

abbrev newcomer : User
newcomer = record { karma_score = none; work_band = none; ledger = [] }

abbrev blamed : User
blamed = record { karma_score = some (negsuc 199); work_band = some suspended; ledger = [] }

breached :
    (apply_user_karma all_well (negsuc 199) "sla_breach" "c1" newcomer).karma_score
    ≡ some (negsuc 199)
unfolding apply_user_karma ◌+ℤ◌
breached = refl

changes-Within_example : Within (negsuc 499) (
    changes
      ((all_well, by_scheduler (negsuc 899) "sla_breach" "c1")
        ∷ (all_well, by_gateway (pos 30) "bonus" none)
        ∷ [])
      newcomer)
changes-Within_example =
    changes-Within
      ((all_well, by_scheduler (negsuc 899) "sla_breach" "c1")
        ∷ (all_well, by_gateway (pos 30) "bonus" none)
        ∷ [])
      newcomer (omega arith)
