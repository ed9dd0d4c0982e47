-- ===== src/Chaincode/Tests.antt =====
-- A complaint that is created, resolved and reported again by one event sent twice.

use roadwatch.Prelude.{ℕ, ◌≡◌, ◌⊎◌, refl, List, [], ◌∷◌, Option, none, some, Bool, true, false}
use roadwatch.Prelude.Int.{pos}
use roadwatch.Prelude.Text.{Text, codes}
use roadwatch.Chaincode.{
  Complaint, filed, Ledger, committed, failed, citizen_not_allowed, upsert_complaint_submission,
}
use roadwatch.Chaincode.Authority.{update_complaint_status, authority_only}
use roadwatch.Chaincode.Transactions.{submit, after, Tx, create_tx, resolve_tx, run}
use roadwatch.Chaincode.Laws.{Kept, run-Kept}
use roadwatch.Chaincode.Events.{upsert_once}
use roadwatch.Chaincode.Callers.{Moves, submit-Moves}

abbrev blank : Ledger
blank = record {
  complaints = λ k. none;
  events = λ k. false;
  anchors = λ k. none;
  private_data = λ k. none;
  emitted = [];
}

abbrev filing : Tx
filing =
    create_tx (codes "CitizenOrgMSP" ∷ []) (codes "CitizenOrgMSP") none 5 "c1" "u1" "r1" "" ""
      "NHAI" "h1"

abbrev closing : Tx
closing = resolve_tx (codes "NHAIMSP") true 9 "c1" "cid" "e1"

citizen_refused :
    update_complaint_status (codes "CitizenOrgMSP") 6 "c1" "RESOLVED" "e1" "" blank
    ≡ failed citizen_not_allowed
unfolding update_complaint_status authority_only roadwatch.Prelude.Text.Text-discrete
    roadwatch.Prelude.ℕ_discrete
citizen_refused = refl

run-Kept_example : Kept "c1" none ((run (filing ∷ closing ∷ []) blank).complaints "c1")
run-Kept_example = run-Kept (filing ∷ closing ∷ []) blank "c1"

upsert_once_example :
    (m : Ledger) × (upsert_complaint_submission none 5 "c1" "u1" "r1" "" "" "NHAI" "h1" "e1"
        (pos 2)
        blank
      ≡ committed m)
    × (upsert_complaint_submission none 7 "c2" "u2" "r2" "" "" "PWD" "h2" "e1"
          (pos 0)
          (run (closing ∷ []) m)
        ≡ committed (run (closing ∷ []) m))
upsert_once_example =
    upsert_once none none 5 7 "c1" "u1" "r1" "" "" "NHAI" "h1" "e1" "c2" "u2" "r2" "" "" "PWD" "h2"
      (pos 2) (pos 0) (closing ∷ []) blank

abbrev pothole : Complaint
pothole = record {
  id = "c1";
  road_id = "r1";
  report_count = 1;
  details_hash = "h1";
  status = filed;
  authority_org = "NHAI";
  created_at = 5;
  updated_at = 5;
}

abbrev filed_once : Ledger
filed_once = record blank { complaints = λ k. some pothole }

submit-Moves_example :
    (d : Complaint) × ((after filed_once (submit closing filed_once)).complaints "c1" ≡ some d)
    × ((d.status ≡ filed) ⊎ Moves closing d.status "c1")
submit-Moves_example = submit-Moves closing filed_once "c1" pothole refl
